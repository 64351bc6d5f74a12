-- ===== src/Matching/Consumer/Group/Tests.antt =====
-- Concrete answers of the group to a consumer of two markets.
use Prim.Native.String.{String}
use project_final_1team.Prelude.{
  ℕ, zero, suc, All, ◌≡◌, refl, List, [], ◌∷◌, ◌++◌, ◌⊎◌, false, true,
}
use project_final_1team.Matching.Consumer.Group.{
  Next, generation, failure, going, context_done, gave_up, retry, take_next, run, next_retry_delay,
  max_consecutive_next_failures,
}
use project_final_1team.Matching.Consumer.Group.Steps.{
  IsAnswered, state, failures, tagged, looked_up,
}
use project_final_1team.Matching.Consumer.Group.InARow.{InARow, partitions_of, run-gives_up}

abbrev markets : List String
markets = "KRW-BTC" ∷ "KRW-ETH" ∷ []

-- A generation ends nine failures.
abbrev answers : List Next
answers = generation (0 ∷ 1 ∷ []) ∷ failures 9 ++ (generation (1 ∷ []) ∷ failures 1)

-- Ten failures are waited for 9 seconds, and the rest of the answers is not asked for.
waits :
    run markets (failures 10 ++ answers) (state 0 0 [])
    ≡ record { loop = gave_up; consecutive_failures = 10; waited = 9000; started = [] }
unfolding run take_next retry next_retry_delay
waits = refl

is_cut : (run markets (failure false true ∷ answers) (state 0 0 [])).loop ≡ context_done
unfolding run take_next retry
is_cut = refl

IsAnswered-failures :
    (n : ℕ) (ns : List Next)
    → All (IsAnswered markets) ns
    → All (IsAnswered markets) (failures n ++ ns)
IsAnswered-failures zero ns h = h
IsAnswered-failures (suc n) ns h = ((refl, refl), IsAnswered-failures n ns h)

run-gives_up_example :
    let c = run markets answers (state 0 0 []) in
    ((c.loop ≡ gave_up) × InARow max_consecutive_next_failures answers)
    ⊎ ((c.loop ≡ going)
        × ¬ InARow max_consecutive_next_failures answers
        × (tagged c.started ≡ looked_up markets (partitions_of answers)))
run-gives_up_example = run-gives_up markets answers (
  ((_, refl), ((_, refl), tt)),
  IsAnswered-failures 9 (generation (1 ∷ []) ∷ failures 1)
      (((_, refl), tt), IsAnswered-failures 1 [] tt),
)
