-- ===== src/Matching/Registry/Tests.antt =====
-- Concrete runs of two instances, m1 and m2, that want the market.
use project_final_1team.Prelude.{
  is_some, ◌≤◌, ℕ, ◌<◌, ◌≡◌, refl, ap, String, true, false, Option, none, some, List, [], ◌∷◌, ◌==◌,
  if◌then◌else◌, arith,
}
use project_final_1team.Prelude.Int.{ℤ, pos}
use project_final_1team.Decimal.Whole.{whole}
use project_final_1team.Matching.Engine
use project_final_1team.Matching.Engine.{Engine}
use project_final_1team.Matching.Engine.Tests.{Memory, in_memory, nothing, engine}
use project_final_1team.Matching.Registry.{
  Lock, idle, serving, Outside, start_acquire, try_lock, recover_market, renew_lock, answered,
  set_nx, send, renew_lock_script, after_attempt, after_renewal, recovered, renewed, perform,
  Cluster, Event, act, wait, happen, run, snapshot_every_events, snapshot_interval,
}
use project_final_1team.Matching.Registry.Owned.{has_market, Owns}
use project_final_1team.Matching.Registry.Exclusive.{IsPunctual, run-exclusive}
use project_final_1team.Matching.Registry.Attempts.{
  market_lock_retry_delay, acquire_from, after_pause, acquire_market_lock, acquire_market_lock-ends,
  acquire_market_lock-gets,
}
use project_final_1team.Matching.Registry.Split.{late_renewal_of, run-both_serve}

abbrev outside : Outside ℤ Memory
outside = record {
  services = in_memory true;
  publish_assigned = λ w _ _. w;
  publish_released = λ w _ _. w;
}

abbrev all_idle : Cluster ℤ Memory
all_idle = record { instances = λ _. idle; lock = none; world = nothing; now = 0 }

-- m1 acquires the market and renews its lock, and m2 waits for it.
abbrev events : List (Event ℤ)
events =
    act "m1" start_acquire
    ∷ act "m2" start_acquire
    ∷ act "m1" (try_lock answered 3)
    ∷ act "m2" (try_lock answered 3)
    ∷ act "m1" (recover_market answered)
    ∷ wait 5000
    ∷ act "m1" (renew_lock answered)
    ∷ act "m2" (try_lock answered 3)
    ∷ wait 12000
    ∷ []

expires_of : Option Lock → ℕ
expires_of none = 0
expires_of (some l) = l.expires

same_lock :
    (n m : ℕ) (id : String) (l : Lock)
    → some (record { owner = id; expires = n }) ≡ some l
    → m < n
    → m < l.expires
unfolding expires_of
same_lock n m id l h le = let same : n ≡ l.expires = ap expires_of h in omega arith

punctual : IsPunctual outside "KRW-BTC" events all_idle
unfolding happen perform send set_nx after_attempt recovered Engine.recover renewed
    renew_lock_script after_renewal
punctual = (
  (λ k l has h own. same_lock 15000 5000 "m1" l h (omega arith)),
  ((λ k l has h own. same_lock 20000 17000 "m1" l h (omega arith)), tt),
)

has : has_market ((run outside "KRW-BTC" events all_idle).instances "m1") ≡ true
unfolding run happen perform send set_nx after_attempt recovered Engine.recover renewed
    renew_lock_script after_renewal
has = refl

abbrev last : Cluster ℤ Memory
last = run outside "KRW-BTC" events all_idle

run-exclusive_example : (◌≡◌ {A = String} "m1" "m1") × Owns "m1" last.now last.lock
run-exclusive_example =
    run-exclusive outside "KRW-BTC" events all_idle "m1" "m1" (λ _. refl) punctual has has

abbrev fresh : Engine ℤ
fresh = Engine.new "KRW-BTC" snapshot_every_events snapshot_interval 16000

abbrev m1_serves : Cluster ℤ Memory
m1_serves = record {
  instances = λ k. if k == "m1" then serving engine true else idle;
  lock = some (record { owner = "m1"; expires = 15000 });
  world = nothing;
  now = 0;
}

recovers :
    Engine.recover
      (in_memory true)
      (Engine.new "KRW-BTC" snapshot_every_events snapshot_interval 16000)
      nothing
    ≡ (some (pos 0), fresh)
unfolding Engine.recover
recovers = refl

run-both_serve_example :
    (let last = run outside "KRW-BTC" (late_renewal_of "m1" "m2" 16000 3) m1_serves in
      (last.instances "m1" ≡ serving engine false) × (last.instances "m2" ≡ serving fresh true))
run-both_serve_example =
    run-both_serve outside "KRW-BTC" m1_serves "m1" "m2" 16000 3
      (record { owner = "m1"; expires = 15000 }) engine fresh (pos 0) refl refl refl refl refl
      (omega arith) recovers

-- The lock stays another instance's, and each wait is the least one.
acquire_market_lock-ends_example :
    is_some (acquire_market_lock ℤ (λ _ _. some false) (λ _. 3) (λ _. some 100) 102 0 2) ≡ true
acquire_market_lock-ends_example =
    acquire_market_lock-ends ℤ (λ _ _. some false) (λ _. 3) (λ _. some 100) 0 2 long
  where
    long : (k d : ℕ) → some 100 ≡ some d → market_lock_retry_delay ≤ d
    long k d is = ground arith

-- The owner of the lock is gone, and m2 waits until it expires.
abbrev left_behind : Option Lock
left_behind = some (record { owner = "m1"; expires = 9950 })

acquire_market_lock-gets_example :
    acquire_market_lock ℤ
      (λ _ t. some (set_nx "m2" t left_behind).0)
      (λ _. 40)
      (λ _. some 120)
      102
      0
      2
    ≡ some true
acquire_market_lock-gets_example =
    acquire_market_lock-gets ℤ "m2" left_behind (λ _. 40) (λ _. 120) 0 2 9950 40 (λ _. omega arith)
      (λ _. omega arith) refl (omega arith)

-- With an attempt shortly before that, whose answer comes after the deadline, the lock is not got.
is_late :
    acquire_market_lock ℤ
      (λ _ t. some (set_nx "m2" t left_behind).0)
      (λ _. 60)
      (λ _. some 9845)
      102
      0
      40
    ≡ some false
unfolding acquire_market_lock acquire_from after_pause after_attempt set_nx
is_late = refl
