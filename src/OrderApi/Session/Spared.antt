-- ===== src/OrderApi/Session/Spared.antt =====
-- orderapi/session/session.go: each operation of the store and the lock of a session that it does not release.
use project_final_1team.Prelude.{
  ℕ, ◌≤◌, String, ◌≡◌, refl, true, ◌||◌, not, Option, none, some, arith, ◌==◌,
}
use project_final_1team.OrderApi.Session.{
  RunOutcome, RunRecord, Outside, ok, err, not_active, problem, in_progress,
}
use project_final_1team.OrderApi.Session.Redis.{
  Redis, Server, command, whole_ttl, heartbeat_script, release_script, push_history, trim_history,
  is_text,
}
use project_final_1team.OrderApi.Session.Keep.{
  Keeps-return, Keeps-bind, Keeps-if, Keeps-Option, Keeps-Result, Keeps-Bool, Keeps-ReleaseAnswer,
  Keeps-clock, Keeps-set_gauge,
}
use project_final_1team.OrderApi.Session.Held.{heartbeat_script-IsHeld, release_script-IsHeld}
use project_final_1team.OrderApi.Session.Aside.{
  Held, command-KeepsLock, aside-KeepsLock, set_last_run-KeepsLock,
}
use project_final_1team.OrderApi.Session.Claim.{claim}
use project_final_1team.OrderApi.Session.Renew.{split_session_id, renew, heartbeat, request_stop}
use project_final_1team.OrderApi.Session.Finish.{
  add_history, write_finished, finalize_last_run, decoded, leave, release,
}
use project_final_1team.OrderApi.Session.Runs.{
  fail_run, fail_if_same, reconcile_stale_run, read_run, previous_run, previous_run2, reconciled,
  last_run, with_note, append_last_run_note, run_history,
}
use project_final_1team.OrderApi.Session.Calls.{
  Call, call_claim, call_heartbeat, call_request_stop, call_release, call_last_run,
  call_previous_run, call_previous_run2, call_run_history, call_append_last_run_note, call,
}
use project_final_1team.OrderApi.Session.Claimed.{
  is_other, spares, Lock, read, set_last_encoded-KeepsLock, both, exists_stop-KeepsLock,
  set_stop-KeepsLock, claim-KeepsLock,
}

module _ {F : Type 0} (out : Outside F) (run_id member : String) (t : ℕ) where
  pub renew-KeepsLock : (id : Option (String × String)) → Lock out run_id member t (renew out id)
  unfolding renew
  renew-KeepsLock none = Keeps-return _
  renew-KeepsLock (some (r, m)) =
      Keeps-bind
        (command-KeepsLock out run_id member t (heartbeat_script r (whole_ttl out))
          (λ now s le h. heartbeat_script-IsHeld r now s le h))
        (λ answer. Keeps-Option answer (Keeps-return _) (λ a.
          Keeps-Bool a (Keeps-return _)
            (Keeps-bind (exists_stop-KeepsLock out run_id member t r) (λ _. Keeps-return _))))

  pub request_stop-KeepsLock : (r : String) → Lock out run_id member t (request_stop out r)
  unfolding request_stop
  request_stop-KeepsLock r = Keeps-bind (read out run_id member t _) (λ current.
      Keeps-Option current
        (Keeps-if (not ("" == r)) (Keeps-return (err not_active))
          (Keeps-return (err (problem "정지 요청 실패"))))
        (λ c. Keeps-Option c (Keeps-return (err not_active)) (λ a.
          Keeps-if (not (a == r)) (Keeps-return (err not_active)) (
            Keeps-bind (set_stop-KeepsLock out run_id member t r) (λ answer.
              Keeps-return (elim answer [ none ↦ err (problem "정지 요청 실패") | some _ ↦ ok tt ]))))))

  push_history-KeepsLock : (b : String) → Lock out run_id member t (command out (push_history b))
  unfolding push_history
  push_history-KeepsLock b =
      aside-KeepsLock out run_id member t (push_history b) (λ _ _. refl) (λ _ _. refl)

  trim_history-KeepsLock : (n : ℕ) → Lock out run_id member t (command out (trim_history n))
  unfolding trim_history
  trim_history-KeepsLock n =
      aside-KeepsLock out run_id member t (trim_history n) (λ _ _. refl) (λ _ _. refl)

  add_history-KeepsLock :
      (owner body : String) → Lock out run_id member t (add_history out owner body)
  unfolding add_history
  add_history-KeepsLock owner body =
      Keeps-if _
        (Keeps-bind (push_history-KeepsLock body)
          (λ _. Keeps-bind (trim_history-KeepsLock _) (λ _. Keeps-return _)))
        (Keeps-return _)

  write_finished-KeepsLock : (r : RunRecord F) → Lock out run_id member t (write_finished out r)
  unfolding write_finished
  write_finished-KeepsLock r = Keeps-Option (out.encode_run r) (Keeps-return _) (λ body.
      Keeps-bind (set_last_run-KeepsLock out run_id member t body)
        (λ _. Keeps-bind (add_history-KeepsLock r.owner body) (λ _. Keeps-return _)))

  finalize_last_run-KeepsLock :
      (r : String) (outcome : RunOutcome)
      → Lock out run_id member t (finalize_last_run out r outcome)
  unfolding finalize_last_run
  finalize_last_run-KeepsLock r outcome = Keeps-bind (Keeps-set_gauge 0) (λ _.
      Keeps-bind Keeps-clock
        (λ _. Keeps-bind (read out run_id member t _) (λ _. write_finished-KeepsLock _)))

  pub leave-KeepsLock :
      (id : Option (String × String)) (outcome : RunOutcome)
      → is_other run_id member id ≡ true
      → Lock out run_id member t (leave out id outcome)
  unfolding leave
  leave-KeepsLock none outcome o = Keeps-return _
  leave-KeepsLock (some (r, m)) outcome o =
      Keeps-bind
        (command-KeepsLock out run_id member t (release_script r m)
          (λ now s le h. release_script-IsHeld r m now s le (ground arith) h))
        (λ answer. Keeps-Option answer (Keeps-return _) (λ a.
          Keeps-ReleaseAnswer a (Keeps-return _) (Keeps-return _)
            (Keeps-bind (finalize_last_run-KeepsLock r outcome) (λ _. Keeps-return _))))

  fail_run-KeepsLock : (r : RunRecord F) → Lock out run_id member t (fail_run out r)
  unfolding fail_run
  fail_run-KeepsLock r = Keeps-bind Keeps-clock (λ now.
      Keeps-bind (set_last_encoded-KeepsLock out run_id member t _)
        (λ _. Keeps-bind (Keeps-set_gauge 0) (λ _. Keeps-return _)))

  fail_if_same-KeepsLock :
      (r : RunRecord F) (o : Option (RunRecord F)) → Lock out run_id member t (fail_if_same out r o)
  unfolding fail_if_same
  fail_if_same-KeepsLock r none = Keeps-return _
  fail_if_same-KeepsLock r (some e) =
      Keeps-if (not (e.run_id == r.run_id) || not (e.status == in_progress)) (Keeps-return none)
        (fail_run-KeepsLock e)

  reconcile_stale_run-KeepsLock :
      (r : RunRecord F) → Lock out run_id member t (reconcile_stale_run out r)
  unfolding reconcile_stale_run
  reconcile_stale_run-KeepsLock r = Keeps-bind (read out run_id member t _) (λ current.
      Keeps-Option current (Keeps-return _) (λ active.
        Keeps-if (is_text r.run_id active) (Keeps-return none) (
          Keeps-bind (read out run_id member t (λ _ s. s.last_run))
            (λ last. fail_if_same-KeepsLock r (decoded out last)))))

  read_run-KeepsLock :
      (key : ℕ → Redis → Option String) (lost unreadable : String)
      → Lock out run_id member t (read_run out key lost unreadable)
  unfolding read_run
  read_run-KeepsLock key lost unreadable =
      Keeps-bind (read out run_id member t _) (λ _. Keeps-return _)

  reconciled-KeepsLock : (r : RunRecord F) → Lock out run_id member t (reconciled out r)
  unfolding reconciled
  reconciled-KeepsLock r =
      Keeps-if (r.status == in_progress)
        (Keeps-bind (reconcile_stale_run-KeepsLock r)
          (λ failed. Keeps-return (elim failed [ none ↦ r | some f ↦ f ])))
        (Keeps-return r)

  pub last_run-KeepsLock : Lock out run_id member t (last_run out)
  unfolding last_run
  last_run-KeepsLock = Keeps-bind (read_run-KeepsLock _ _ _) (λ found.
      Keeps-Result found (λ _. Keeps-return _)
        (λ o.
          Keeps-Option o (Keeps-return _)
            (λ r. Keeps-bind (reconciled-KeepsLock r) (λ _. Keeps-return _))))

  pub append_last_run_note-KeepsLock :
      (r note : String) → Lock out run_id member t (append_last_run_note out r note)
  unfolding append_last_run_note
  append_last_run_note-KeepsLock r note = Keeps-bind (read_run-KeepsLock _ _ _) (λ found.
      Keeps-Result found (λ e. Keeps-return (err e))
        (λ o. Keeps-Option o (Keeps-return (ok tt)) (λ e.
          Keeps-if (not (e.run_id == r)) (Keeps-return (ok tt)) (
            Keeps-Option (out.encode_run (with_note out e note)) (Keeps-return (err (problem "")))
              (λ body. Keeps-bind (set_last_run-KeepsLock out run_id member t body) (λ answer.
                Keeps-return (elim answer [ none ↦ err (problem "") | some _ ↦ ok tt ])))))))

  pub call-IsHeld :
      (c : Call F) (s : Server)
      → spares run_id member c ≡ true
      → (s.now ≤ (call out c s).now)
        × ((call out c s).now ≤ t
            → Held out run_id member t s.now s.redis
            → Held out run_id member t (call out c s).now (call out c s).redis)
  unfolding call
  call-IsHeld (call_claim owner r date speed) s spared =
      both out run_id member t {m = claim out owner r date speed}
        (claim-KeepsLock out run_id member t owner r date speed) s
  call-IsHeld (call_heartbeat id) s spared =
      both out run_id member t {m = heartbeat out id}
        (unfold heartbeat in renew-KeepsLock (split_session_id id)) s
  call-IsHeld (call_request_stop r) s spared =
      both out run_id member t {m = request_stop out r} (request_stop-KeepsLock r) s
  call-IsHeld (call_release id outcome) s spared =
      both out run_id member t {m = release out id outcome}
        (unfold release in leave-KeepsLock (split_session_id id) outcome spared) s
  call-IsHeld call_last_run s spared =
      both out run_id member t {m = last_run out} last_run-KeepsLock s
  call-IsHeld call_previous_run s spared =
      both out run_id member t {m = previous_run out}
        (unfold previous_run in read_run-KeepsLock _ _ _) s
  call-IsHeld call_previous_run2 s spared =
      both out run_id member t {m = previous_run2 out}
        (unfold previous_run2 in read_run-KeepsLock _ _ _) s
  call-IsHeld call_run_history s spared =
      both out run_id member t {m = run_history out}
        (unfold run_history in Keeps-bind (read out run_id member t _) (λ _. Keeps-return _)) s
  call-IsHeld (call_append_last_run_note r note) s spared =
      both out run_id member t {m = append_last_run_note out r note}
        (append_last_run_note-KeepsLock r note) s
