-- ===== src/Backpressure/Hysteresis.antt =====
-- matching/backpressure/watcher.go and recorder/backpressure/watcher.go: the state of a watcher, and the last
-- check that crossed a watermark.
use project_final_1team.Prelude.{
  ℕ, ◌<◌, ◌≡◌, refl, ◌∙◌, Bool, true, false, Option, none, some, List, [], ◌∷◌, if◌then◌else◌, leb,
  arith,
}
use project_final_1team.Backpressure.{Watcher, max_lag, next_state, watch}

-- What a check alone says: active from the high watermark on, not active to the low one.
abbrev pub mark : Watcher → ℕ → Option Bool
mark w lag =
    if leb w.high_watermark lag
    then some true
    else if leb lag w.low_watermark
    then some false
    else none

abbrev pub otherwise : Option Bool → Bool → Bool
otherwise none b = b
otherwise (some a) b = a

-- The mark of the last check that has one.
abbrev pub last_mark : Watcher → List (List ℕ) → Option Bool
last_mark w [] = none
last_mark w (lags ∷ checks) = elim (last_mark w checks) [
  | none ↦ mark w (max_lag lags)
  | some b ↦ some b
]

next_state-mark :
    (w : Watcher) (active : Bool) (lag : ℕ)
    → w.low_watermark < w.high_watermark
    → next_state w active lag ≡ otherwise (mark w lag) active
unfolding next_state
next_state-mark w active lag h = ground arith

otherwise-last :
    (last first : Option Bool) (active : Bool)
    → otherwise last (otherwise first active)
      ≡ otherwise (elim last [ none ↦ first | some b ↦ some b ]) active
otherwise-last none first active = refl
otherwise-last (some b) first active = refl

-- With the low watermark below the high one, the state of a watcher after any checks is what the
-- last check that reached the high watermark or came down to the low one says, or the state at
-- first if there is none.
pub watch-last_mark :
    (w : Watcher) (active : Bool) (checks : List (List ℕ))
    → w.low_watermark < w.high_watermark
    → watch w active checks ≡ otherwise (last_mark w checks) active
unfolding watch
watch-last_mark w active [] h = refl
watch-last_mark w active (lags ∷ checks) h =
    watch-last_mark w (next_state w active (max_lag lags)) checks h
    ∙ rw (next_state-mark w active (max_lag lags) h)
        (otherwise-last (last_mark w checks) (mark w (max_lag lags)) active)
