-- ===== src/OrderApi/Session/Claimed.antt =====
-- orderapi/session/session.go: the steps of a claim and the lock of another session.
use project_final_1team.Prelude.{
  ℕ, ◌≤◌, String, refl, Bool, true, ◌&&◌, not, Option, none, some, arith, ◌==◌,
}
use project_final_1team.OrderApi.Session.{Outside}
use project_final_1team.OrderApi.Session.Redis.{
  Redis, Server, M, command, whole_ttl, claim_script, sadd, expire_members, set_stop, exists_stop,
  set_last_run, ClaimAnswer, created, joined, refused, set_meta,
}
use project_final_1team.OrderApi.Session.Keep.{
  Keeps-return, Keeps-bind, Keeps-if, Keeps-Option, Keeps-clock, Keeps-new_id,
}
use project_final_1team.OrderApi.Session.Held.{
  claim_script-IsHeld, sadd-IsHeld, expire_members-IsHeld,
}
use project_final_1team.OrderApi.Session.Aside.{
  Held, KeepsLock, command-KeepsLock, aside-KeepsLock, reading-KeepsLock, set_encoded-KeepsLock,
  set_last_run-KeepsLock, set_meta-KeepsLock, begin_run-KeepsLock,
}
use project_final_1team.OrderApi.Session.Claim.{
  claim, claim_run, answer_claim, current_info, own_run_id, join, begin_if_created, registered,
  set_encoded,
}
use project_final_1team.OrderApi.Session.Renew.{split_session_id}
use project_final_1team.OrderApi.Session.Calls.{
  Call, call_claim, call_heartbeat, call_request_stop, call_release, call_last_run,
  call_previous_run, call_previous_run2, call_run_history, call_append_last_run_note,
}

abbrev pub is_other : String → String → Option (String × String) → Bool
is_other run_id member none = true
is_other run_id member (some (r, m)) = not (r == run_id && m == member)

abbrev pub spares : {F : Type 0} → String → String → Call F → Bool
spares run_id member (call_claim owner r date speed) = true
spares run_id member (call_heartbeat id) = true
spares run_id member (call_request_stop r) = true
spares run_id member (call_release id outcome) = is_other run_id member (split_session_id id)
spares run_id member call_last_run = true
spares run_id member call_previous_run = true
spares run_id member call_previous_run2 = true
spares run_id member call_run_history = true
spares run_id member (call_append_last_run_note r note) = true

module _ {F : Type 0} (out : Outside F) (run_id member : String) (t : ℕ) where
  abbrev pub Lock : {A : Type 0} → M A → Type 0
  Lock m = KeepsLock out run_id member t m

  pub read : {A : Type 0} (f : ℕ → Redis → A) → Lock (command out (λ now r. (f now r, r)))
  read f = reading-KeepsLock out run_id member t f

  current_info-KeepsLock : Lock (current_info out)
  unfolding current_info
  current_info-KeepsLock = Keeps-bind (read _) (λ active.
      Keeps-Option active (Keeps-return _)
        (λ a. Keeps-Option a (Keeps-return _) (λ _. Keeps-bind (read _) (λ _. Keeps-return _))))

  begin_if_created-KeepsLock :
      (answer : ClaimAnswer) (owner other date : String) (speed : F) (now : ℕ)
      → Lock (begin_if_created out answer owner other date speed now)
  unfolding begin_if_created
  begin_if_created-KeepsLock created owner other date speed now =
      begin_run-KeepsLock out run_id member t owner other date speed now
  begin_if_created-KeepsLock joined owner other date speed now = Keeps-return _
  begin_if_created-KeepsLock refused owner other date speed now = Keeps-return _

  set_meta_encoded-KeepsLock : (body : Option String) → Lock (set_encoded out body set_meta)
  set_meta_encoded-KeepsLock body =
      set_encoded-KeepsLock out run_id member t body set_meta
        (set_meta-KeepsLock out run_id member t)

  pub set_last_encoded-KeepsLock : (body : Option String) → Lock (set_encoded out body set_last_run)
  set_last_encoded-KeepsLock body =
      set_encoded-KeepsLock out run_id member t body set_last_run
        (set_last_run-KeepsLock out run_id member t)

  pub both :
      {A : Type 0} {m : M A}
      → Lock m
      → (s : Server)
      → (s.now ≤ (m s).1.now)
        × ((m s).1.now ≤ t
            → Held out run_id member t s.now s.redis
            → Held out run_id member t (m s).1.now (m s).1.redis)
  both k s = (k.later s, k.keeps s)

  pub exists_stop-KeepsLock : (r : String) → Lock (command out (exists_stop r))
  unfolding exists_stop
  exists_stop-KeepsLock r =
      aside-KeepsLock out run_id member t (exists_stop r) (λ _ _. refl) (λ _ _. refl)

  pub set_stop-KeepsLock : (r : String) → Lock (command out (set_stop r out.ttl))
  unfolding set_stop
  set_stop-KeepsLock r =
      aside-KeepsLock out run_id member t (set_stop r out.ttl) (λ _ _. refl) (λ _ _. refl)

  -- A claim from the registration of its member on.
  pub registered-KeepsLock :
      (answer : ClaimAnswer) (owner other date joining : String) (speed : F) (now : ℕ)
      → Lock (registered out answer owner other date speed now joining)
  unfolding registered
  registered-KeepsLock answer owner other date joining speed now =
      Keeps-bind
        (command-KeepsLock out run_id member t (expire_members other (whole_ttl out))
          (λ now r le h. expire_members-IsHeld other (whole_ttl out) now r le (omega arith) h))
        (λ _. Keeps-bind (set_meta_encoded-KeepsLock _) (λ _.
          Keeps-bind (begin_if_created-KeepsLock answer owner other date speed now)
            (λ _. Keeps-return _)))

  join-KeepsLock :
      (answer : ClaimAnswer) (owner other date : String) (speed : F) (now : ℕ)
      → Lock (join out answer owner other date speed now)
  unfolding join
  join-KeepsLock answer owner other date speed now = Keeps-bind (Keeps-new_id out) (λ joining.
      Keeps-bind
        (command-KeepsLock out run_id member t (sadd other joining)
          (λ now r le h. sadd-IsHeld other joining now r le h))
        (λ added.
          Keeps-Option added (Keeps-return _)
            (λ _. registered-KeepsLock answer owner other date joining speed now)))

  own_run_id-KeepsLock : (other : String) → Lock (own_run_id out other)
  unfolding own_run_id
  own_run_id-KeepsLock other = Keeps-if (other == "") (Keeps-new_id out) (Keeps-return other)

  answer_claim-KeepsLock :
      (a : ClaimAnswer) (owner other date : String) (speed : F) (now : ℕ)
      → Lock (answer_claim out a owner other date speed now)
  unfolding answer_claim
  answer_claim-KeepsLock refused owner other date speed now =
      Keeps-bind current_info-KeepsLock (λ _. Keeps-return _)
  answer_claim-KeepsLock created owner other date speed now =
      join-KeepsLock created owner other date speed now
  answer_claim-KeepsLock joined owner other date speed now =
      join-KeepsLock joined owner other date speed now

  claim_run-KeepsLock :
      (owner other date : String) (speed : F) (now : ℕ)
      → Lock (claim_run out owner other date speed now)
  unfolding claim_run
  claim_run-KeepsLock owner other date speed now =
      Keeps-bind
        (command-KeepsLock out run_id member t (claim_script other (whole_ttl out))
          (λ now s le h. claim_script-IsHeld other now s le h))
        (λ answer.
          Keeps-Option answer (Keeps-return _)
            (λ a. answer_claim-KeepsLock a owner other date speed now))

  pub claim-KeepsLock :
      (owner other date : String) (speed : F) → Lock (claim out owner other date speed)
  unfolding claim
  claim-KeepsLock owner other date speed = Keeps-bind Keeps-clock (λ now.
      Keeps-bind (own_run_id-KeepsLock other) (λ own. claim_run-KeepsLock owner own date speed now))
