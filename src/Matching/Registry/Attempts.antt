-- ===== src/Matching/Registry/Attempts.antt =====
-- matching/main.go: the loop of acquireMarketLock, on fuel. `answers` has what Redis answers to each attempt
-- at the time of its command, `trips` the time from this command to the reading of the clock after its
-- answer, and `pauses` the time from there to the next command, with the wait, where `none` is a context
-- that is done; `first` is the time from the reading for the deadline to the first command. Redis' clock
-- and the instance's are taken as one. `none` is a loop that is out of fuel.
use project_final_1team.Prelude.{
  ℕ, zero, suc, ◌+◌, ◌*◌, ◌≤◌, ◌<◌, ◌≡◌, refl, Bool, true, false, Option, none, some, is_some, ltb,
  arith, inl, inr, Bool-cases, String, ◌⊎◌,
}
use project_final_1team.Matching.Registry.{
  Phase, idle, waiting, recovering, serving, leaving, unlocking, after_attempt, Lock,
  unexpired_lock, set_nx, market_lock_max_wait,
}

-- From the answer to the next command it is marketLockRetryDelay at least.
abbrev pub market_lock_retry_delay : ℕ
market_lock_retry_delay = 100

-- Is the lock the instance's, or does it go on after the pause?
unfoldable pub after_pause : {D : Type 0} → Phase D → Option ℕ → (ℕ → Option Bool) → ℕ → Option Bool
after_pause (waiting deadline) none again now = some false
after_pause (waiting deadline) (some d) again now = again (now + d)
after_pause idle pause again now = some false
after_pause (recovering renewing) pause again now = some true
after_pause (serving e renewing) pause again now = some true
after_pause (leaving e) pause again now = some true
after_pause unlocking pause again now = some false

module _ (D : Type 0) (answers : ℕ → ℕ → Option Bool) (trips : ℕ → ℕ) (pauses : ℕ → Option ℕ)
    (deadline : ℕ) where
  unfoldable pub acquire_from : ℕ → ℕ → ℕ → Option Bool
  acquire_from zero k now = none
  acquire_from (suc fuel) k now =
      after_pause {D = D} (after_attempt (answers k now) deadline (now + trips k)) (pauses k)
        (acquire_from fuel (suc k)) (now + trips k)

unfoldable pub acquire_market_lock :
    (D : Type 0) → (ℕ → ℕ → Option Bool) → (ℕ → ℕ) → (ℕ → Option ℕ) → ℕ → ℕ → ℕ → Option Bool
acquire_market_lock D answers trips pauses fuel now first =
    acquire_from D answers trips pauses (now + market_lock_max_wait) fuel 0 (now + first)

module _ (D : Type 0) (answers : ℕ → ℕ → Option Bool) (trips : ℕ → ℕ) (pauses : ℕ → Option ℕ)
    (deadline : ℕ) (long : (k d : ℕ) → pauses k ≡ some d → market_lock_retry_delay ≤ d) where
  -- The loop goes on only from a time that is not past the deadline.
  after_attempt-ends :
      (answer : Option Bool) (pause : Option ℕ) (again : ℕ → Option Bool) (now : ℕ)
      → (now ≤ deadline → (d : ℕ) → pause ≡ some d → is_some (again (now + d)) ≡ true)
      → is_some (after_pause {D = D} (after_attempt answer deadline now) pause again now) ≡ true
  unfolding after_attempt after_pause
  after_attempt-ends none pause again now more = refl
  after_attempt-ends (some true) pause again now more = refl
  after_attempt-ends (some false) none again now more = elim (Bool-cases (ltb deadline now)) [
    | inl late ↦ rw late refl
    | inr early ↦ rw early refl
  ]
  after_attempt-ends (some false) (some d) again now more = elim (Bool-cases (ltb deadline now)) [
    | inl late ↦ rw late refl
    | inr early ↦ rw early (more (ground arith) d refl)
  ]

  acquire_from-ends :
      (fuel k now : ℕ)
      → deadline < now + fuel * market_lock_retry_delay
      → is_some (acquire_from D answers trips pauses deadline (suc fuel) k now) ≡ true
  unfolding acquire_from
  acquire_from-ends zero k now h =
      after_attempt-ends (answers k now) (pauses k) _ (now + trips k)
        (λ le d is. absurd (omega arith))
  acquire_from-ends (suc fuel) k now h =
      after_attempt-ends (answers k now) (pauses k) _ (now + trips k) (λ le d is.
        let longer = long k d is in
        acquire_from-ends fuel (suc k) (now + trips k + d) (omega arith))

-- 102 attempts are enough for the loop of acquireMarketLock to end, whatever Redis answers to them,
-- however long the answers take and whether or not the context is done, if marketLockRetryDelay at
-- least passes from each answer to the next command.
pub acquire_market_lock-ends :
    (D : Type 0) (answers : ℕ → ℕ → Option Bool) (trips : ℕ → ℕ) (pauses : ℕ → Option ℕ)
    (now first : ℕ)
    → ((k d : ℕ) → pauses k ≡ some d → market_lock_retry_delay ≤ d)
    → is_some (acquire_market_lock D answers trips pauses 102 now first) ≡ true
unfolding acquire_market_lock
acquire_market_lock-ends D answers trips pauses now first long =
    acquire_from-ends D answers trips pauses (now + market_lock_max_wait) long 101 0 (now + first)
      (omega arith)

module _ (D : Type 0) (id : String) (lock : Option Lock) (trips pauses : ℕ → ℕ)
    (deadline free_at slowest : ℕ) (long : (k : ℕ) → market_lock_retry_delay ≤ pauses k)
    (quick : (k : ℕ) → trips k ≤ slowest) (free : unexpired_lock free_at lock ≡ none)
    (in_time : free_at + slowest ≤ deadline) where
  -- SETNX gets the lock, or the lock is not free yet.
  set_nx-early :
      (lock : Option Lock) (now : ℕ)
      → unexpired_lock free_at lock ≡ none
      → ((set_nx id now lock).0 ≡ true) ⊎ (((set_nx id now lock).0 ≡ false) × (now < free_at))
  unfolding set_nx
  set_nx-early none now free = inl refl
  set_nx-early (some l) now free = ground arith

  after_attempt-gets :
      (answer : Bool) (trip pause now : ℕ) (again : ℕ → Option Bool)
      → (answer ≡ true) ⊎ ((answer ≡ false) × (now < free_at))
      → trip ≤ slowest
      → (now < free_at → again (now + trip + pause) ≡ some true)
      → after_pause {D = D}
          (after_attempt (some answer) deadline (now + trip))
          (some pause)
          again
          (now + trip)
        ≡ some true
  unfolding after_attempt after_pause
  after_attempt-gets true trip pause now again h q more = refl
  after_attempt-gets false trip pause now again (inl n) q more = ground arith
  after_attempt-gets false trip pause now again (inr (n, early)) q more =
      let ahead : ltb deadline (now + trip) ≡ false = ground arith in rw ahead (more early)

  acquire_from-gets :
      (fuel k now : ℕ)
      → deadline < now + fuel * market_lock_retry_delay
      → acquire_from D
          (λ _ t. some (set_nx id t lock).0)
          trips
          (λ i. some (pauses i))
          deadline
          (suc fuel)
          k
          now
        ≡ some true
  unfolding acquire_from
  acquire_from-gets zero k now h =
      after_attempt-gets _ (trips k) (pauses k) now _ (set_nx-early lock now free) (quick k)
        (λ early. absurd (omega arith))
  acquire_from-gets (suc fuel) k now h =
      after_attempt-gets _ (trips k) (pauses k) now _ (set_nx-early lock now free) (quick k)
        (λ early.
          let longer = long k in
          acquire_from-gets fuel (suc k) (now + trips k + pauses k) (omega arith))

-- If the market's lock is free or expires so early that an answer that takes the longest time still
-- comes by the deadline of acquireMarketLock, no other instance writes it, Redis answers each
-- attempt, the context is not done, and marketLockRetryDelay at least passes from each answer to
-- the next command, then acquireMarketLock gets the lock within 102 attempts.
pub acquire_market_lock-gets :
    (D : Type 0) (id : String) (lock : Option Lock) (trips pauses : ℕ → ℕ)
    (now first free_at slowest : ℕ)
    → ((k : ℕ) → market_lock_retry_delay ≤ pauses k)
    → ((k : ℕ) → trips k ≤ slowest)
    → unexpired_lock free_at lock ≡ none
    → free_at + slowest ≤ now + market_lock_max_wait
    → acquire_market_lock D
        (λ _ t. some (set_nx id t lock).0)
        trips
        (λ k. some (pauses k))
        102
        now
        first
      ≡ some true
unfolding acquire_market_lock
acquire_market_lock-gets D id lock trips pauses now first free_at slowest long quick free in_time =
    acquire_from-gets D id lock trips pauses (now + market_lock_max_wait) free_at slowest long quick
      free in_time 101 0 (now + first) (omega arith)
