-- ===== src/Matching/Registry/Split.antt =====
-- matching/main.go: startLockRenewal, when the lock has expired and another instance has it.
use project_final_1team.Prelude.{
  ℕ, ◌+◌, ◌≤◌, ◌≡◌, refl, String, true, false, some, List, [], ◌∷◌, ◌==◌, eq_refl, arith, ltb,
}
use project_final_1team.Prelude.Int.{ℤ}
use project_final_1team.Decimal.{Decimal}
use project_final_1team.Matching.Engine
use project_final_1team.Matching.Engine.{Engine}
use project_final_1team.Matching.Registry.{
  Lock, snapshot_every_events, snapshot_interval, set_nx, renew_lock_script, answered, send, idle,
  serving, Outside, start_acquire, try_lock, recover_market, renew_lock, after_attempt,
  after_renewal, recovered, renewed, perform, Cluster, Event, act, wait, happen, run,
  market_lock_ttl,
}

-- Time passes, another instance acquires the market, and the first one's next renewal comes.
abbrev pub late_renewal_of : {D : Type 0} → String → String → ℕ → ℕ → List (Event D)
late_renewal_of i j d trip =
    wait d
    ∷ act j start_acquire
    ∷ act j (try_lock answered trip)
    ∷ act j (recover_market answered)
    ∷ act i (renew_lock answered)
    ∷ []

module _ {D W : Type 0} ⦃dec : Decimal D⦄ (out : Outside D W) (market : String) where
  -- When an instance serves a market and its lock expires, another one that is idle acquires it and
  -- can recover, and the next renewal of the first is answered, then both serve the market, the
  -- first without renewals.
  pub run-both_serve :
      (c : Cluster D W) (i j : String) (d trip : ℕ) (l : Lock) (e e' : Engine D) (resume_from : ℤ)
      → c.instances i ≡ serving e true
      → c.instances j ≡ idle
      → (j == i) ≡ false
      → (i == j) ≡ false
      → c.lock ≡ some l
      → l.expires ≤ c.now + d
      → Engine.recover out.services
          (Engine.new market snapshot_every_events snapshot_interval (c.now + d))
          c.world
        ≡ (some resume_from, e')
      → (let last = run out market (late_renewal_of i j d trip) c in
          (last.instances i ≡ serving e false) × (last.instances j ≡ serving e' true))
  unfolding run happen perform send set_nx renew_lock_script recovered renewed after_attempt
      after_renewal
  run-both_serve c i j d trip l e e' resume_from is_i is_j apart apart' locked late recovers =
      let gone : ltb (c.now + d) l.expires ≡ false = ground arith in
      let there : ltb (c.now + d) (c.now + d + market_lock_ttl) ≡ true = ground arith in
      rw
        (
          eq_refl i,
          eq_refl j,
          apart,
          apart',
          is_j,
          is_i,
          locked,
          perform,
          send,
          set_nx,
          gone,
          after_attempt,
          recovers,
          recovered,
          renewed,
          renew_lock_script,
          there,
          apart,
          after_renewal,
        )
        (refl, refl)
