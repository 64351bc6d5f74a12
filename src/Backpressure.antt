-- ===== src/Backpressure.antt =====
-- matching/backpressure, recorder/backpressure and orderapi/backpressure: the watchers of the consumer lag,
-- the flags that they set in Redis, and the checkers that read them. A lag is a natural number, since maxLag
-- takes a negative one as 0. A flag is the time at which its key expires, in milliseconds.
pub mod Hysteresis
pub mod Kept
mod Tests
use project_final_1team.Prelude.{
  ℕ, ◌+◌, Bool, true, false, not, ◌&&◌, Option, none, some, List, [], ◌∷◌, if◌then◌else◌, leb, ltb,
}

pub record Watcher : Type 0 where
  pub high_watermark : ℕ
  pub low_watermark : ℕ

-- flagTTL
abbrev pub flag_ttl : ℕ
flag_ttl = 15000

-- The loop of maxLag, from the greatest lag so far.
unfoldable pub max_lag_from : ℕ → List ℕ → ℕ
max_lag_from m [] = m
max_lag_from m (lag ∷ lags) = max_lag_from (if ltb m lag then lag else m) lags

unfoldable pub max_lag : List ℕ → ℕ
max_lag lags = max_lag_from 0 lags

unfoldable pub next_state : Watcher → Bool → ℕ → Bool
next_state w active lag =
    if not active && leb w.high_watermark lag
    then true
    else if active && leb lag w.low_watermark
    then false
    else active

-- The state of Run after the checks, each with the lags of its sources.
unfoldable pub watch : Watcher → Bool → List (List ℕ) → Bool
watch w active [] = active
watch w active (lags ∷ checks) = watch w (next_state w active (max_lag lags)) checks

-- SetActive of matching: a state that is not active is not written. `is_down` is an error of Redis.
unfoldable pub set_active_matching : Bool → ℕ → Bool → Option ℕ → Option ℕ
set_active_matching is_down now false flag = flag
set_active_matching is_down now true flag = if is_down then flag else some (now + flag_ttl)

-- SetActive of the recorder, which deletes the key.
unfoldable pub set_active_recorder : Bool → ℕ → Bool → Option ℕ → Option ℕ
set_active_recorder is_down now false flag = if is_down then flag else none
set_active_recorder is_down now true flag = if is_down then flag else some (now + flag_ttl)

-- RedisChecker; `none` is an error.
unfoldable pub redis_active : Bool → ℕ → Option ℕ → Option Bool
redis_active is_down now none = if is_down then none else some false
redis_active is_down now (some expires) = if is_down then none else some (ltb now expires)

-- The answer of MultiChecker, with whether it comes with an error.
unfoldable pub multi_active : List (Option Bool) → Bool × Bool
multi_active [] = (false, false)
multi_active (none ∷ answers) =
    let rest = multi_active answers in if rest.0 then (true, false) else (false, true)
multi_active (some true ∷ answers) = (true, false)
multi_active (some false ∷ answers) = multi_active answers

-- A check of one of matching's instances, each with its watcher's state, or a pause.
pub data Event : Type 0 where
  check : Bool → Bool → Event
  pause : ℕ → Event

-- The flag and the clock after the events; a check has the state that its watcher is in and whether
-- Redis fails.
unfoldable pub run : List Event → ℕ → Option ℕ → ℕ × Option ℕ
run [] now flag = (now, flag)
run (check active is_down ∷ es) now flag = run es now (set_active_matching is_down now active flag)
run (pause d ∷ es) now flag = run es (now + d) flag
