-- ===== src/OrderApi/Session/Lock.antt =====
-- orderapi/session/session.go: the lock after a claim.
use project_final_1team.Prelude.{
  ℕ, suc, ◌+◌, ◌≤◌, ◌<◌, ◌≡◌, refl, sym, subst, ap, ◌∙◌, true, some, arith, ◌==◌, inl, inr, ◌⊎◌,
  Bool-cases,
}
use Prim.Native.String.{String, ◌++◌}
use project_final_1team.Dict
use project_final_1team.Dict.{get-put}
use project_final_1team.OrderApi.Session.{Info, Outside, ok, session_id_sep}
use project_final_1team.OrderApi.Session.Redis.{
  Server, ◌>>=◌, clock, new_id, whole_ttl, command-up, command-down, sadd, ClaimAnswer, created,
  joined, refused, claim_script,
}
use project_final_1team.OrderApi.Session.Holding.{IsHeld}
use project_final_1team.OrderApi.Session.Claim.{
  claim, claim_run, answer_claim, join, registered, own_run_id,
}
use project_final_1team.OrderApi.Session.Claimed.{registered-KeepsLock}
use project_final_1team.OrderApi.Session.Leased.{
  unexpired_set, set_lasts, sadd-present, claim_script-leases, claim_script-members, sadd-active,
  session_of, run_of,
}

module _ {F : Type 0} (out : Outside F) where
  registered-session :
      (answer : ClaimAnswer) (owner run_id date member : String) (speed : F) (now : ℕ) (s : Server)
      → session_of (registered out answer owner run_id date speed now member s).0
        ≡ run_id ++ session_id_sep ++ member
  unfolding registered ◌>>=◌
  registered-session answer owner run_id date member speed now s = refl

  registered-run :
      (answer : ClaimAnswer) (owner run_id date member : String) (speed : F) (now : ℕ) (s : Server)
      → run_of (registered out answer owner run_id date speed now member s).0 ≡ run_id
  unfolding registered ◌>>=◌
  registered-run answer owner run_id date member speed now s = refl

  join-IsHeld :
      (answer : ClaimAnswer) (owner run_id date : String) (speed : F) (now e t : ℕ) (s : Server)
      (info : Info)
      → s.redis.active ≡ some (record { run_id = run_id; expires = e })
      → t < e
      → t < s.now + whole_ttl out
      → set_lasts t run_id s.redis ≡ true
      → (join out answer owner run_id date speed now s).0 ≡ ok info
      → (join out answer owner run_id date speed now s).1.now ≤ t
      → (member : String) × (info.session_id ≡ run_id ++ session_id_sep ++ member)
        × (info.run_id ≡ run_id)
        × IsHeld run_id member t
            (whole_ttl out)
            (join out answer owner run_id date speed now s).1.now
            (join out answer owner run_id date speed now s).1.redis
  unfolding join ◌>>=◌ new_id
  join-IsHeld answer owner run_id date speed now e t s info active later renewable lasts =
      elim (Bool-cases (out.is_down s.calls)) [
        | inl down ↦
            rw
              (
                command-down out (sadd run_id (out.new_session_id s.ids))
                    (record s { ids = suc s.ids }) down,
                join,
                ◌>>=◌,
                new_id,
              )
              (λ failed ends. cc)
        | inr up ↦
            rw
              (
                command-up out (sadd run_id (out.new_session_id s.ids))
                    (record s { ids = suc s.ids }) up,
                join,
                ◌>>=◌,
                new_id,
              )
              (λ worked ends.
                let present =
                  sadd-present run_id (out.new_session_id s.ids) (s.now + out.delay s.calls) t
                    s.redis lasts in
                (
                  out.new_session_id s.ids,
                  sym (ap session_of worked)
                      ∙ registered-session answer owner run_id date (out.new_session_id s.ids) speed
                          now _,
                  sym (ap run_of worked)
                      ∙ registered-run answer owner run_id date (out.new_session_id s.ids) speed now
                          _,
                  (registered-KeepsLock out run_id (out.new_session_id s.ids) t answer owner run_id
                        date (out.new_session_id s.ids) speed now).keeps
                      _ ends
                      (record {
                        expires = e;
                        members = present.0;
                        leased =
                            sadd-active run_id (out.new_session_id s.ids)
                              (s.now + out.delay s.calls) s.redis
                            ∙ active;
                        lasting = later;
                        stored = present.1;
                        present = present.2;
                        staying = present.3;
                        renewable = omega arith;
                      }),
                ))
      ]

  answer_claim-IsHeld :
      (a : ClaimAnswer) (owner run_id date : String) (speed : F) (now e t : ℕ) (s : Server)
      (info : Info)
      → (a ≡ refused) ⊎ (s.redis.active ≡ some (record { run_id = run_id; expires = e }))
      → t < e
      → t < s.now + whole_ttl out
      → set_lasts t run_id s.redis ≡ true
      → (answer_claim out a owner run_id date speed now s).0 ≡ ok info
      → (answer_claim out a owner run_id date speed now s).1.now ≤ t
      → (member : String) × (info.session_id ≡ run_id ++ session_id_sep ++ member)
        × (info.run_id ≡ run_id)
        × IsHeld run_id member t
            (whole_ttl out)
            (answer_claim out a owner run_id date speed now s).1.now
            (answer_claim out a owner run_id date speed now s).1.redis
  unfolding answer_claim ◌>>=◌
  answer_claim-IsHeld refused owner run_id date speed now e t s info active later renewable lasts
        worked ends =
      cc
  answer_claim-IsHeld created owner run_id date speed now e t s info (inl r) later renewable lasts
        worked ends =
      cc
  answer_claim-IsHeld joined owner run_id date speed now e t s info (inl r) later renewable lasts
        worked ends =
      cc
  answer_claim-IsHeld created owner run_id date speed now e t s info (inr active) later renewable
        lasts worked ends =
      join-IsHeld created owner run_id date speed now e t s info active later renewable lasts worked
        ends
  answer_claim-IsHeld joined owner run_id date speed now e t s info (inr active) later renewable
        lasts worked ends =
      join-IsHeld joined owner run_id date speed now e t s info active later renewable lasts worked
        ends

  -- The lock that a run has from its script on.
  claim_run-IsHeld :
      (owner run_id date : String) (speed : F) (now t : ℕ) (s : Server) (info : Info)
      → t < s.now + whole_ttl out
      → set_lasts t run_id s.redis ≡ true
      → (claim_run out owner run_id date speed now s).0 ≡ ok info
      → (claim_run out owner run_id date speed now s).1.now ≤ t
      → (member : String) × (info.session_id ≡ run_id ++ session_id_sep ++ member)
        × (info.run_id ≡ run_id)
        × IsHeld run_id member t
            (whole_ttl out)
            (claim_run out owner run_id date speed now s).1.now
            (claim_run out owner run_id date speed now s).1.redis
  unfolding claim_run ◌>>=◌
  claim_run-IsHeld owner run_id date speed now t s info renewable lasts =
      elim (Bool-cases (out.is_down s.calls)) [
        | inl down ↦
            rw (command-down out (claim_script run_id (whole_ttl out)) s down, claim_run, ◌>>=◌)
              (λ failed ends. cc)
        | inr up ↦
            rw (command-up out (claim_script run_id (whole_ttl out)) s up, claim_run, ◌>>=◌)
              (answer_claim-IsHeld
                (claim_script run_id (whole_ttl out) (s.now + out.delay s.calls) s.redis).0 owner
                run_id date speed now (s.now + out.delay s.calls + whole_ttl out) t _ info
                (claim_script-leases run_id (whole_ttl out) (s.now + out.delay s.calls) s.redis)
                (omega arith) (omega arith)
                (ap (λ m. unexpired_set t (Dict.get run_id m))
                    (claim_script-members run_id (whole_ttl out) (s.now + out.delay s.calls)
                      s.redis)
                  ∙ lasts))
      ]

  own_run_id-same :
      (run_id : String) (s : Server)
      → ((own_run_id out run_id s).1.redis ≡ s.redis) × ((own_run_id out run_id s).1.now ≡ s.now)
  unfolding own_run_id new_id
  own_run_id-same run_id s = elim (Bool-cases (run_id == "")) [
    | inl e ↦ rw e (refl, refl)
    | inr n ↦ rw n (refl, refl)
  ]

  pub claim-IsHeld :
      (owner run_id date : String) (speed : F) (t : ℕ) (s : Server) (info : Info)
      → t < s.now + whole_ttl out
      → set_lasts t (own_run_id out run_id s).0 s.redis ≡ true
      → (claim out owner run_id date speed s).0 ≡ ok info
      → (claim out owner run_id date speed s).1.now ≤ t
      → (member : String) × (info.session_id ≡ info.run_id ++ session_id_sep ++ member)
        × IsHeld info.run_id member t
            (whole_ttl out)
            (claim out owner run_id date speed s).1.now
            (claim out owner run_id date speed s).1.redis
  unfolding claim ◌>>=◌ clock
  claim-IsHeld owner run_id date speed t s info renewable lasts worked ends =
      let own = (own_run_id out run_id s).0 in
      let next = (own_run_id out run_id s).1 in
      let same = own_run_id-same run_id s in
      let same_now = same.1 in
      let held =
        claim_run-IsHeld owner own date speed s.now t next info (omega arith)
          (ap (λ r. unexpired_set t (Dict.get own r.members)) same.0 ∙ lasts) worked ends in
      (
        held.0,
        held.1 ∙ ap (λ r. r ++ session_id_sep ++ held.0) (sym held.2),
        subst
            (λ r.
              IsHeld r held.0 t (whole_ttl out)
                (claim_run out owner own date speed s.now next).1.now
                (claim_run out owner own date speed s.now next).1.redis)
            (sym held.2) held.3,
      )
