-- ===== src/OrderApi/Session/Refused.antt =====
-- orderapi/session/session.go: claims of other runs while a session holds the lock.
use Prim.Native.String.{String, ◌++◌}
use project_final_1team.Prelude.{
  ℕ, ◌+◌, ◌≤◌, ◌<◌, ◌≡◌, refl, subst, ap₂, ◌∙◌, Bool, true, false, ◌&&◌, Option, none, some, List,
  arith, ◌==◌, eq_iff, inl, inr, ◌⊎◌, suc, Bool-cases, All, All-map,
}
use project_final_1team.OrderApi.Session.{Info, Outside, ok, session_id_sep}
use project_final_1team.OrderApi.Session.Redis.{
  Server, ◌>>=◌, clock, new_id, whole_ttl, command-up, command-down, claim_script,
}
use project_final_1team.OrderApi.Session.Holding.{IsHeld-lasts, get_active-held}
use project_final_1team.OrderApi.Session.Holding.{IsHeld}
use project_final_1team.OrderApi.Session.Claim.{claim, claim_run, answer_claim, own_run_id}
use project_final_1team.OrderApi.Session.Renew.{split_session_id}
use project_final_1team.OrderApi.Session.Names.{joined-split}
use project_final_1team.OrderApi.Session.Calls.{
  Call, call_claim, call_heartbeat, call_request_stop, call_release, call_last_run,
  call_previous_run, call_previous_run2, call_run_history, call_append_last_run_note, call_all,
}
use project_final_1team.OrderApi.Session.Claimed.{is_other, spares}
use project_final_1team.OrderApi.Session.Exclusive.{call_all-IsHeld, call_all-later}
use project_final_1team.OrderApi.Session.Leased.{is_ok, set_lasts}
use project_final_1team.OrderApi.Session.Lock.{claim-IsHeld}

-- Does a call release this session?
abbrev pub releases : {F : Type 0} → String → Call F → Bool
releases session_id (call_claim owner r date speed) = false
releases session_id (call_heartbeat id) = false
releases session_id (call_request_stop r) = false
releases session_id (call_release id outcome) = id == session_id
releases session_id call_last_run = false
releases session_id call_previous_run = false
releases session_id call_previous_run2 = false
releases session_id call_run_history = false
releases session_id (call_append_last_run_note r note) = false

is_other-split :
    (run_id member id : String) (o : Option (String × String))
    → ((r m : String) → o ≡ some (r, m) → id ≡ r ++ session_id_sep ++ m)
    → (id == run_id ++ session_id_sep ++ member) ≡ false
    → is_other run_id member o ≡ true
is_other-split run_id member id none made apart = refl
is_other-split run_id member id (some (r, m)) made apart =
    elim (Bool-cases (r == run_id && m == member)) [
      | inr n ↦ rw n refl
      | inl e ↦
          let r_same : r ≡ run_id = ground (arith, eq_iff r run_id) in
          let m_same : m ≡ member = ground (arith, eq_iff m member) in
          cc (
            apart,
            (eq_iff id (run_id ++ session_id_sep ++ member)).1
                (made r m refl ∙ ap₂ (λ a b. a ++ session_id_sep ++ b) r_same m_same),
          )
    ]

module _ {F : Type 0} where
  spares-releases :
      (run_id member : String) (c : Call F)
      → releases (run_id ++ session_id_sep ++ member) c ≡ false
      → spares run_id member c ≡ true
  spares-releases run_id member (call_claim owner r date speed) n = refl
  spares-releases run_id member (call_heartbeat id) n = refl
  spares-releases run_id member (call_request_stop r) n = refl
  spares-releases run_id member (call_release id outcome) n =
      is_other-split run_id member id (split_session_id id) (joined-split id) n
  spares-releases run_id member call_last_run n = refl
  spares-releases run_id member call_previous_run n = refl
  spares-releases run_id member call_previous_run2 n = refl
  spares-releases run_id member call_run_history n = refl
  spares-releases run_id member (call_append_last_run_note r note) n = refl

module _ {F : Type 0} (out : Outside F) where
  claim_run-refused :
      (run_id member owner other date : String) (speed : F) (now t : ℕ) (s : Server)
      → IsHeld run_id member t (whole_ttl out) s.now s.redis
      → (run_id == other) ≡ false
      → s.now + out.delay s.calls ≤ t
      → is_ok (claim_run out owner other date speed now s).0 ≡ false
  unfolding claim_run answer_claim ◌>>=◌ claim_script
  claim_run-refused run_id member owner other date speed now t s held apart ends =
      elim (Bool-cases (out.is_down s.calls)) [
        | inl down ↦
            rw (command-down out (claim_script other (whole_ttl out)) s down, claim_run, ◌>>=◌) refl
        | inr up ↦
            rw (command-up out (claim_script other (whole_ttl out)) s up, claim_run, ◌>>=◌)
              (rw
                (
                  get_active-held (s.now + out.delay s.calls) s.redis ends
                      (IsHeld-lasts _ _ s.redis (omega arith) held),
                  apart,
                  claim_script,
                )
                refl)
      ]

  own_run_id-cases :
      (run_id : String) (s : Server)
      → (own_run_id out run_id s ≡ (run_id, s))
        ⊎ (own_run_id out run_id s ≡ (out.new_session_id s.ids, record s { ids = suc s.ids }))
  unfolding own_run_id new_id
  own_run_id-cases run_id s = elim (Bool-cases (run_id == "")) [
    | inl e ↦ inr (rw (e, own_run_id) refl)
    | inr n ↦ inl (rw (n, own_run_id) refl)
  ]

  claim-refused :
      (run_id member owner other date : String) (speed : F) (t : ℕ) (s : Server)
      → IsHeld run_id member t (whole_ttl out) s.now s.redis
      → (run_id == (own_run_id out other s).0) ≡ false
      → s.now + out.delay s.calls ≤ t
      → is_ok (claim out owner other date speed s).0 ≡ false
  unfolding claim ◌>>=◌ clock
  claim-refused run_id member owner other date speed t s held apart ends =
      elim (own_run_id-cases other s) [
        | inl e ↦
            rw (e, claim, ◌>>=◌, clock)
              (claim_run-refused run_id member owner other date speed s.now t s held
                (subst (λ p. (run_id == p.0) ≡ false) e apart) ends)
        | inr e ↦
            rw (e, claim, ◌>>=◌, clock)
              (claim_run-refused run_id member owner (out.new_session_id s.ids) date speed s.now t
                (record s { ids = suc s.ids }) held (subst (λ p. (run_id == p.0) ≡ false) e apart)
                ends)
      ]

  -- If a claim succeeds, t is earlier than the claim's start plus the time to live in whole
  -- seconds, and no set of members of its run expires by t, then after any operations of the store,
  -- none of which releases the session of the claim, a claim of another run fails, if its first
  -- command runs by t.
  pub claim-exclusive :
      (owner run_id date : String) (speed : F) (t : ℕ) (s : Server) (info : Info)
      (cs : List (Call F)) (owner' other date' : String) (speed' : F)
      → (claim out owner run_id date speed s).0 ≡ ok info
      → t < s.now + whole_ttl out
      → set_lasts t (own_run_id out run_id s).0 s.redis ≡ true
      → All (λ c. releases info.session_id c ≡ false) cs
      → (let last = call_all out cs (claim out owner run_id date speed s).1 in
          ((info.run_id == (own_run_id out other last).0) ≡ false)
          × (last.now + out.delay last.calls ≤ t))
      → is_ok
          (claim out owner' other date' speed'
            (call_all out cs (claim out owner run_id date speed s).1)).0
        ≡ false
  claim-exclusive owner run_id date speed t s info cs owner' other date' speed' worked soon lasts
        spared ends =
      let first = (claim out owner run_id date speed s).1 in
      let later = call_all-later out cs first in
      let held =
        claim-IsHeld out owner run_id date speed t s info soon lasts worked (omega arith) in
      let member = held.0 in
      let spares_all =
        All-map _ (λ c. spares info.run_id member c ≡ true)
          (λ c n. spares-releases info.run_id member c (subst (λ i. releases i c ≡ false) held.1 n))
          cs spared in
      claim-refused info.run_id member owner' other date' speed' t (call_all out cs first)
        (call_all-IsHeld out info.run_id member t cs first spares_all (omega arith) held.2) ends.0
        ends.1
