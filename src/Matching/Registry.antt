-- ===== src/Matching/Registry.antt =====
-- matching/main.go: marketRegistry with its lock of a market in Redis, and kafkaclient/consumer.go:
-- consumePartition, which calls it. The instances of the matching service are phases of one market, and
-- every command, renewal, event and handoff is a step of its own. The scripts and SETNX are functions of
-- the lock and of the time, whose unit is a millisecond.

pub mod Owned
pub mod Exclusive
pub mod Split
pub mod Attempts
mod Tests
use project_final_1team.Prelude.{
  ℕ, ◌+◌, String, Bool, true, false, Option, none, some, List, [], ◌∷◌, ◌==◌, if◌then◌else◌, ltb,
}
use project_final_1team.Prelude.Int.{ℤ}
use project_final_1team.Decimal.{Decimal}
use project_final_1team.Matching.Engine
use project_final_1team.Matching.Engine.{Engine, OrderEvent, Services, EngineError, Outcome}

-- The key of the market's lock, with the time at which it expires.
pub record Lock : Type 0 where
  pub owner : String
  pub expires : ℕ

abbrev pub market_lock_ttl : ℕ
market_lock_ttl = 15000

abbrev pub market_lock_max_wait : ℕ
market_lock_max_wait = 10000

abbrev pub snapshot_every_events : ℕ
snapshot_every_events = 50

abbrev pub snapshot_interval : ℕ
snapshot_interval = 100

abbrev pub unexpired_lock : ℕ → Option Lock → Option Lock
unexpired_lock now none = none
unexpired_lock now (some l) = if ltb now l.expires then some l else none

abbrev pub is_owner : String → Option Lock → Bool
is_owner id none = false
is_owner id (some l) = l.owner == id

unfoldable pub set_nx : String → ℕ → Option Lock → Bool × Option Lock
set_nx id now lock = elim (unexpired_lock now lock) [
  | none ↦ (true, some (record { owner = id; expires = now + market_lock_ttl }))
  | some _ ↦ (false, lock)
]

unfoldable pub renew_lock_script : String → ℕ → Option Lock → Bool × Option Lock
renew_lock_script id now lock =
    if is_owner id (unexpired_lock now lock)
    then (true, some (record { owner = id; expires = now + market_lock_ttl }))
    else (false, lock)

unfoldable pub release_lock_script : String → ℕ → Option Lock → Bool × Option Lock
release_lock_script id now lock =
    if is_owner id (unexpired_lock now lock) then (true, none) else (false, lock)

-- What becomes of a command: Redis answers, or does not get it, or its answer is lost.
pub data Fate : Type 0 where
  answered unreached unanswered : Fate

-- The answer, where `none` is an error, and the lock.
unfoldable pub send :
    Fate → (ℕ → Option Lock → Bool × Option Lock) → ℕ → Option Lock → Option Bool × Option Lock
send answered command now lock = let r = command now lock in (some r.0, r.1)
send unreached command now lock = (none, lock)
send unanswered command now lock = (none, (command now lock).1)

-- Where an instance stands with the market. `waiting` has the deadline of acquireMarketLock. The flags
-- say whether the goroutine of startLockRenewal runs. The market is in `engines` while it is served.
pub data Phase (D : Type 0) : Type 0 where
  idle : Phase D
  waiting : ℕ → Phase D
  recovering : Bool → Phase D
  serving : Engine D → Bool → Phase D
  leaving : Engine D → Phase D
  unlocking : Phase D

-- What a step of an instance reads and writes.
pub record Site (D W : Type 0) : Type 0 where
  pub phase : Phase D
  pub lock : Option Lock
  pub world : W

-- The engine's services, and the publishing of assignments, whose errors are only logged.
pub record Outside (D W : Type 0) : Type 0 where
  pub services : Services D W
  pub publish_assigned : W → String → String → W
  pub publish_released : W → String → String → W

-- An attempt has the time from Redis' command to the reading of the clock after its answer.
pub data Action (D : Type 0) : Type 0 where
  start_acquire : Action D
  try_lock : Fate → ℕ → Action D
  cancel_acquire : Action D
  recover_market : Fate → Action D
  renew_lock late_renewal : Fate → Action D
  apply_event : OrderEvent D → ℕ → Action D
  start_release : Action D
  hand_off : Action D
  release_market_lock : Fate → Action D

-- What follows an attempt to get the lock, at the time that is read after its answer.
unfoldable pub after_attempt : {D : Type 0} → Option Bool → ℕ → ℕ → Phase D
after_attempt none deadline now = idle
after_attempt (some true) deadline now = recovering true
after_attempt (some false) deadline now = if ltb deadline now then idle else waiting deadline

-- Whether the goroutine goes on after a renewal: only the answer 0 ends it.
unfoldable pub after_renewal : Option Bool → Bool
after_renewal none = true
after_renewal (some true) = true
after_renewal (some false) = false

module _ {D W : Type 0} ⦃dec : Decimal D⦄ (out : Outside D W) (market : String) where
  -- The rest of Acquire, once Recover has answered.
  unfoldable pub recovered : Fate → String → ℕ → Bool → Option ℤ × Engine D → Site D W → Site D W
  recovered fate id now renewing (none, e) s = record s {
    phase = idle;
    lock = (send fate (release_lock_script id) now s.lock).1;
  }
  recovered fate id now renewing (some resume_from, e) s = record s {
    phase = serving e renewing;
    world = out.publish_assigned s.world market id;
  }

  -- The rest of Release, once Handoff has answered.
  unfoldable pub handed_off : W × Option EngineError → Site D W → Site D W
  handed_off (w, none) s = record s { phase = unlocking; world = w }
  handed_off (w, some e) s = record s { phase = idle; world = w }

  unfoldable pub renewed : Fate → String → ℕ → (Bool → Phase D) → Site D W → Site D W
  renewed fate id now next s =
      let r = send fate (renew_lock_script id) now s.lock in
      record s { phase = next (after_renewal r.0); lock = r.1 }

  -- An action in the phase of the site; in other phases it changes nothing, but for a renewal that was
  -- sent before the goroutine was told to end.
  unfoldable pub perform : Action D → Phase D → String → ℕ → Site D W → Site D W
  perform start_acquire idle id now s = record s { phase = waiting (now + market_lock_max_wait) }
  perform (try_lock fate trip) (waiting deadline) id now s =
      let r = send fate (set_nx id) now s.lock in
      record s { phase = after_attempt r.0 deadline (now + trip); lock = r.1 }
  perform cancel_acquire (waiting deadline) id now s = record s { phase = idle }
  perform (recover_market fate) (recovering renewing) id now s =
      recovered fate id now renewing
        (Engine.recover out.services (Engine.new market snapshot_every_events snapshot_interval now)
          s.world)
        s
  perform (renew_lock fate) (recovering true) id now s = renewed fate id now recovering s
  perform (renew_lock fate) (serving e true) id now s = renewed fate id now (serving e) s
  perform (late_renewal fate) phase id now s = record s {
    lock = (send fate (renew_lock_script id) now s.lock).1;
  }
  perform (apply_event ev later) (serving e renewing) id now s =
      let r = Engine.apply out.services e s.world ev now later in
      record s { phase = serving r.engine renewing; world = r.world }
  perform start_release (serving e renewing) id now s = record s { phase = leaving e }
  perform hand_off (leaving e) id now s = handed_off (Engine.handoff out.services e s.world) s
  perform (release_market_lock fate) unlocking id now s = record s {
    phase = idle;
    lock = (send fate (release_lock_script id) now s.lock).1;
    world = out.publish_released s.world market id;
  }
  perform action phase id now s = s

-- The instances by their ids, with the lock, the services and the clock.
pub record Cluster (D W : Type 0) : Type 0 where
  pub instances : String → Phase D
  pub lock : Option Lock
  pub world : W
  pub now : ℕ

-- An instance acts, or time passes.
pub data Event (D : Type 0) : Type 0 where
  act : String → Action D → Event D
  wait : ℕ → Event D

abbrev pub site : {D W : Type 0} → Cluster D W → String → Site D W
site c id = record { phase = c.instances id; lock = c.lock; world = c.world }

abbrev pub with_site : {D W : Type 0} → Cluster D W → String → Site D W → Cluster D W
with_site c id s = record {
  instances = λ k. if k == id then s.phase else c.instances k;
  lock = s.lock;
  world = s.world;
  now = c.now;
}

module _ {D W : Type 0} ⦃dec : Decimal D⦄ (out : Outside D W) (market : String) where
  unfoldable pub happen : Event D → Cluster D W → Cluster D W
  happen (act id action) c =
      with_site c id (perform out market action (c.instances id) id c.now (site c id))
  happen (wait d) c = record c { now = c.now + d }

  unfoldable pub run : List (Event D) → Cluster D W → Cluster D W
  run [] c = c
  run (e ∷ es) c = run es (happen e c)
