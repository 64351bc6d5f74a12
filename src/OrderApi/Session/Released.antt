-- ===== src/OrderApi/Session/Released.antt =====
-- orderapi/session/session.go: the releases of one session.
use project_final_1team.Prelude.{
  ℕ, ◌+◌, ◌≡◌, ◌≢◌, refl, ◌∙◌, String, Bool, true, false, Option, none, some, List, [], ◌∷◌, arith,
  ◌==◌, eq_refl, inl, inr, Bool-cases, Option-cases,
}
use project_final_1team.Dict
use project_final_1team.Dict.{get-put, get-delete}
use project_final_1team.OrderApi.Session.{
  run_history_max_len, RunRecord, RunOutcome, Outside, Result, ok, err, not_active,
}
use project_final_1team.OrderApi.Session.Redis.{
  Redis, Server, Members, M, ◌>>=◌, return, clock, set_gauge, command, command-up, command-down,
  contains, remove, is_empty, unexpired, live_members, get_members, get_active, is_text,
  ReleaseAnswer, unknown, left, left_last, release_script, set_last_run, push_history, trim_history,
}
use project_final_1team.OrderApi.Session.Renew.{split_session_id}
use project_final_1team.OrderApi.Session.Finish.{
  add_history, write_finished, finalize_last_run, no_record, leave, release,
}

-- The member is in no set of the run, at any time.
abbrev pub IsAbsent : String → String → Redis → Type 0
IsAbsent run_id member r = (now : ℕ) → contains member (get_members now run_id r).ids ≡ false

contains-removed : (s : String) (xs : List String) → contains s (remove s xs) ≡ false
unfolding contains remove
contains-removed s [] = refl
contains-removed s (x ∷ xs) = ground (arith, contains-removed s xs)

live_members-contains :
    (member : String) (now : ℕ) (m : Members)
    → contains member m.ids ≡ false
    → contains member (live_members now (some m)).ids ≡ false
unfolding contains
live_members-contains member now m h = elim (Bool-cases (unexpired now m.expires)) [
  | inl e ↦ rw e h
  | inr n ↦ rw n refl
]

deleted-IsAbsent :
    (run_id member : String) (r r' : Redis)
    → r'.members ≡ Dict.delete run_id r.members
    → IsAbsent run_id member r'
unfolding get_members contains
deleted-IsAbsent run_id member r r' same now = rw (same, get-delete, eq_refl) refl

put-IsAbsent :
    (run_id member : String) (m : Members) (r r' : Redis)
    → r'.members ≡ Dict.put run_id m r.members
    → contains member m.ids ≡ false
    → IsAbsent run_id member r'
unfolding get_members
put-IsAbsent run_id member m r r' same h now =
    rw (same, get-put, eq_refl) (live_members-contains member now m h)

-- The script answers 0, or the member is absent from then on.
release_script-IsAbsent :
    (run_id member : String) (now : ℕ) (r : Redis)
    → (release_script run_id member now r).0 ≢ unknown
    → IsAbsent run_id member (release_script run_id member now r).1
unfolding release_script
release_script-IsAbsent run_id member now r =
    elim (Bool-cases (contains member (get_members now run_id r).ids)) [
      | inr n ↦ rw (n, release_script) (λ d. absurd (d refl))
      | inl e ↦ elim (Bool-cases (is_empty (remove member (get_members now run_id r).ids))) [
        | inr k ↦
            rw (e, k, release_script)
              (λ _.
                put-IsAbsent run_id member _ r _ refl
                  (contains-removed member (get_members now run_id r).ids))
        | inl f ↦ elim (Bool-cases (is_text run_id (get_active now r))) [
          | inl g ↦ rw (e, f, g, release_script) (λ _. deleted-IsAbsent run_id member r _ refl)
          | inr g ↦ rw (e, f, g, release_script) (λ _. deleted-IsAbsent run_id member r _ refl)
        ]
      ]
    ]

release_script-absent :
    (run_id member : String) (now : ℕ) (r : Redis)
    → IsAbsent run_id member r
    → (release_script run_id member now r).0 ≡ unknown
unfolding release_script
release_script-absent run_id member now r h = rw (h now, release_script) refl

module _ {F : Type 0} (out : Outside F) where
  command-members :
      {A : Type 0} (c : ℕ → Redis → A × Redis) (s : Server)
      → ((now : ℕ) (r : Redis) → (c now r).1.members ≡ r.members)
      → (command out c s).1.redis.members ≡ s.redis.members
  unfolding command
  command-members c s h = elim (Bool-cases (out.is_down s.calls)) [
    | inl e ↦ rw e refl
    | inr n ↦ rw n (h _ s.redis)
  ]

  add_history-members :
      (owner body : String) (s : Server)
      → (add_history out owner body s).1.redis.members ≡ s.redis.members
  unfolding add_history ◌>>=◌ push_history trim_history
  add_history-members owner body s = elim (Bool-cases (owner == "replayengine")) [
    | inl e ↦ rw e (
        command-members (trim_history run_history_max_len) _ (λ _ _. refl)
        ∙ command-members (push_history body) s (λ _ _. refl))
    | inr n ↦ rw n refl
  ]

  write_finished-members :
      (r : RunRecord F) (s : Server) → (write_finished out r s).1.redis.members ≡ s.redis.members
  unfolding write_finished ◌>>=◌ set_last_run
  write_finished-members r s = elim (Option-cases (out.encode_run r)) [
    | inl e ↦ rw (e, write_finished) refl
    | inr (body, e) ↦
        rw (e, write_finished)
          (add_history-members r.owner body _ ∙ command-members (set_last_run body) s (λ _ _. refl))
  ]

  finalize_last_run-members :
      (run_id : String) (outcome : RunOutcome) (s : Server)
      → (finalize_last_run out run_id outcome s).1.redis.members ≡ s.redis.members
  unfolding finalize_last_run ◌>>=◌ set_gauge clock
  finalize_last_run-members run_id outcome s =
      write_finished-members _ _ ∙ command-members (λ now r. (r.last_run, r)) _ (λ _ _. refl)

  IsAbsent-members :
      (run_id member : String) (r r' : Redis)
      → r'.members ≡ r.members
      → IsAbsent run_id member r
      → IsAbsent run_id member r'
  unfolding get_members
  IsAbsent-members run_id member r r' same h now = rw same (h now)

  -- What Release does with the answer of the script.
  abbrev finish_release : String → RunOutcome → ReleaseAnswer → M (Result (RunRecord F × Bool))
  finish_release run_id outcome answer = elim answer [
    | unknown ↦ return (err not_active)
    | left ↦ return (ok (no_record out, false))
    | left_last ↦ finalize_last_run out run_id outcome >>= λ finished. return (ok (finished, true))
  ]

  finish_release-IsAbsent :
      (run_id member : String) (outcome : RunOutcome) (answer : ReleaseAnswer) (s : Server)
      (x : RunRecord F × Bool)
      → (answer ≢ unknown → IsAbsent run_id member s.redis)
      → (finish_release run_id outcome answer s).0 ≡ ok x
      → IsAbsent run_id member (finish_release run_id outcome answer s).1.redis
  unfolding ◌>>=◌
  finish_release-IsAbsent run_id member outcome unknown s x gone h = cc h
  finish_release-IsAbsent run_id member outcome left s x gone h = gone (λ e. cc e)
  finish_release-IsAbsent run_id member outcome left_last s x gone h =
      IsAbsent-members run_id member s.redis _ (finalize_last_run-members run_id outcome s)
        (gone (λ e. cc e))

  leave-IsAbsent :
      (run_id member : String) (outcome : RunOutcome) (s : Server) (x : RunRecord F × Bool)
      → (leave out (some (run_id, member)) outcome s).0 ≡ ok x
      → IsAbsent run_id member (leave out (some (run_id, member)) outcome s).1.redis
  unfolding leave ◌>>=◌
  leave-IsAbsent run_id member outcome s x = elim (Bool-cases (out.is_down s.calls)) [
    | inl down ↦
        rw (command-down out (release_script run_id member) s down, leave, ◌>>=◌) (λ h. cc h)
    | inr up ↦
        rw (command-up out (release_script run_id member) s up, leave, ◌>>=◌)
          (finish_release-IsAbsent run_id member outcome _ _ x
            (release_script-IsAbsent run_id member (s.now + out.delay s.calls) s.redis))
  ]

  leave-absent :
      (run_id member : String) (outcome : RunOutcome) (s : Server)
      → out.is_down s.calls ≡ false
      → IsAbsent run_id member s.redis
      → (leave out (some (run_id, member)) outcome s).0 ≡ err not_active
  unfolding leave ◌>>=◌
  leave-absent run_id member outcome s up h =
      rw (command-up out (release_script run_id member) s up, leave, ◌>>=◌)
        (rw
          (release_script-absent run_id member (s.now + out.delay s.calls) s.redis h, leave, ◌>>=◌)
          refl)

  leave-again :
      (id : Option (String × String)) (outcome outcome' : RunOutcome) (s : Server)
      (x : RunRecord F × Bool)
      → (leave out id outcome s).0 ≡ ok x
      → out.is_down (leave out id outcome s).1.calls ≡ false
      → (leave out id outcome' (leave out id outcome s).1).0 ≡ err not_active
  leave-again none outcome outcome' s x h up = unfold leave in refl
  leave-again (some (run_id, member)) outcome outcome' s x h up =
      leave-absent run_id member outcome' (leave out (some (run_id, member)) outcome s).1 up
        (leave-IsAbsent run_id member outcome s x h)

  pub release-again :
      (session_id : String) (outcome outcome' : RunOutcome) (s : Server) (x : RunRecord F × Bool)
      → (release out session_id outcome s).0 ≡ ok x
      → out.is_down (release out session_id outcome s).1.calls ≡ false
      → (release out session_id outcome' (release out session_id outcome s).1).0 ≡ err not_active
  unfolding release
  release-again session_id outcome outcome' s x h up =
      leave-again (split_session_id session_id) outcome outcome' s x h up
