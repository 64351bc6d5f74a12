-- ===== src/OrderApi/Session/Exclusive.antt =====
-- orderapi/session/session.go: operations of the store, one after the other, and the lock of a session.
use project_final_1team.Prelude.{
  ℕ, ◌≤◌, String, ◌≡◌, refl, sym, subst, true, ◌&&◌, not, Option, none, some, List, [], ◌∷◌, arith,
  ◌==◌, eq_iff, inl, inr, Bool-cases, All,
}
use project_final_1team.OrderApi.Session.{RunOutcome, Outside}
use project_final_1team.OrderApi.Session.Redis.{Server}
use project_final_1team.OrderApi.Session.Aside.{Held}
use project_final_1team.OrderApi.Session.Renew.{split_session_id, heartbeat}
use project_final_1team.OrderApi.Session.Finish.{leave, release}
use project_final_1team.OrderApi.Session.Calls.{
  Call, call_claim, call_heartbeat, call_request_stop, call_release, call_last_run,
  call_previous_run, call_previous_run2, call_run_history, call_append_last_run_note, call,
  call_all,
}
use project_final_1team.OrderApi.Session.Claimed.{spares, claim-KeepsLock}
use project_final_1team.OrderApi.Session.Spared.{
  renew-KeepsLock, request_stop-KeepsLock, leave-KeepsLock, last_run-KeepsLock,
  append_last_run_note-KeepsLock, call-IsHeld,
}

-- The clock goes on in every call.
module _ {F : Type 0} (out : Outside F) where
  leave-later :
      (id : Option (String × String)) (outcome : RunOutcome) (s : Server)
      → s.now ≤ (leave out id outcome s).1.now
  leave-later none outcome s = (leave-KeepsLock out "" "" 0 none outcome refl).later s
  leave-later (some (r, m)) outcome s = elim (Bool-cases (r == "")) [
    | inr n ↦ (leave-KeepsLock out "" "" 0 (some (r, m)) outcome (rw n refl)).later s
    | inl e ↦
        (leave-KeepsLock out "." "" 0 (some (r, m)) outcome
            (subst (λ x. not (x == "." && m == "") ≡ true) (sym ((eq_iff r "").0 e)) refl)).later
          s
  ]

  call-later : (c : Call F) (s : Server) → s.now ≤ (call out c s).now
  unfolding call
  call-later (call_claim owner r date speed) s =
      (claim-KeepsLock out "" "" 0 owner r date speed).later s
  call-later (call_heartbeat id) s =
      (unfold heartbeat in (renew-KeepsLock out "" "" 0 (split_session_id id)).later s)
  call-later (call_request_stop r) s = (request_stop-KeepsLock out "" "" 0 r).later s
  call-later (call_release id outcome) s =
      (unfold release in leave-later (split_session_id id) outcome s)
  call-later call_last_run s = (last_run-KeepsLock out "" "" 0).later s
  call-later call_previous_run s = (call-IsHeld out "" "" 0 call_previous_run s refl).0
  call-later call_previous_run2 s = (call-IsHeld out "" "" 0 call_previous_run2 s refl).0
  call-later call_run_history s = (call-IsHeld out "" "" 0 call_run_history s refl).0
  call-later (call_append_last_run_note r note) s =
      (append_last_run_note-KeepsLock out "" "" 0 r note).later s

  pub call_all-later : (cs : List (Call F)) (s : Server) → s.now ≤ (call_all out cs s).now
  unfolding call_all
  call_all-later [] s = omega arith
  call_all-later (c ∷ cs) s =
      let first = call-later c s in let rest = call_all-later cs (call out c s) in omega arith

module _ {F : Type 0} (out : Outside F) (run_id member : String) (t : ℕ) where
  -- A session that holds the lock until a time keeps it through any operations that end by then, but the
  -- release of the session itself.
  pub call_all-IsHeld :
      (cs : List (Call F)) (s : Server)
      → All (λ c. spares run_id member c ≡ true) cs
      → (call_all out cs s).now ≤ t
      → Held out run_id member t s.now s.redis
      → Held out run_id member t (call_all out cs s).now (call_all out cs s).redis
  unfolding call_all
  call_all-IsHeld [] s spared ends h = h
  call_all-IsHeld (c ∷ cs) s spared ends h =
      let rest = call_all-later out cs (call out c s) in
      call_all-IsHeld cs (call out c s) spared.1 ends
        ((call-IsHeld out run_id member t c s spared.0).1 (omega arith) h)
