-- ===== src/Backpressure/Tests.antt =====
-- Concrete runs of the watchers and the checkers.
use project_final_1team.Prelude.{ℕ, ◌≡◌, refl, true, false, none, List, [], ◌∷◌, arith}
use project_final_1team.Backpressure.{
  Watcher, watch, set_active_matching, redis_active, multi_active, Event, check, pause, run,
}
use project_final_1team.Backpressure.Hysteresis.{last_mark, otherwise, watch-last_mark}
use project_final_1team.Backpressure.Kept.{multi_active-kept}

abbrev watcher : Watcher
watcher = record { high_watermark = 5000; low_watermark = 1000 }

-- Between the watermarks the state stays.
abbrev checks : List (List ℕ)
checks = (10 ∷ 6000 ∷ []) ∷ (3000 ∷ []) ∷ (1000 ∷ 2 ∷ []) ∷ (4999 ∷ []) ∷ []

watch-last_mark_example : watch watcher false checks ≡ otherwise (last_mark watcher checks) false
watch-last_mark_example = watch-last_mark watcher false checks (omega arith)

-- Another instance recovers, and time passes.
abbrev events : List Event
events = check false false ∷ pause 9000 ∷ check true true ∷ check false false ∷ pause 5000 ∷ []

ends : (run events 0 (set_active_matching false 0 true none)).0 ≡ 14000
unfolding run
ends = refl

multi_active-kept_example :
    (let last = run events 0 (set_active_matching false 0 true none) in
      multi_active (none ∷ redis_active false last.0 last.1 ∷ []) ≡ (true, false))
multi_active-kept_example =
    multi_active-kept events 0 14000 none (none ∷ []) [] (omega arith) (omega (arith, ends))
