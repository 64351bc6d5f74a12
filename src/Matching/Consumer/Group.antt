-- ===== src/Matching/Consumer/Group.antt =====
-- matching/kafkaclient/consumer.go: Run, the loop of GroupConsumer over the answers of the group's Next.
-- `ended` is a context that is done when Next has failed, and `cut` one that ends in the wait after it.
-- `waited` has the whole waits, in milliseconds. A partition that has no market is out of the range of `markets`: a panic.
pub mod Steps
pub mod InARow
mod Tests
use Prim.Native.String.{String}
use project_final_1team.Prelude.{
  ℕ, suc, ◌+◌, ◌*◌, Bool, true, false, none, some, List, [], ◌∷◌, ◌++◌, ltb, leb, if◌then◌else◌,
  get_elem?,
}

pub data Next : Type 0 where
  generation : List ℕ → Next
  failure : Bool → Bool → Next

-- How Run goes on or returns: the context's error, or the one after the failures in a row.
pub data Loop : Type 0 where
  going context_done gave_up panicked : Loop

-- `started` has the goroutines in the order of gen.Start, each with its market and its partition.
pub record Consumer : Type 0 where
  pub loop : Loop
  pub consecutive_failures : ℕ
  pub waited : ℕ
  pub started : List (String × ℕ)

abbrev pub max_consecutive_next_failures : ℕ
max_consecutive_next_failures = 10

abbrev pub next_retry_base_delay : ℕ
next_retry_base_delay = 200

abbrev pub next_retry_max_delay : ℕ
next_retry_max_delay = 5000

unfoldable pub next_retry_delay : ℕ → ℕ
next_retry_delay failures =
    let delay = next_retry_base_delay * failures in
    if ltb next_retry_max_delay delay then next_retry_max_delay else delay

-- The rest of the loop once Next has failed with the context not done, the failures counted.
unfoldable pub retry : Bool → ℕ → Consumer → Consumer
retry cut failures c =
    if leb max_consecutive_next_failures failures
    then record c { loop = gave_up; consecutive_failures = failures }
    else if cut
    then record c { loop = context_done; consecutive_failures = failures }
    else record c { consecutive_failures = failures; waited = c.waited + next_retry_delay failures }

module _ (markets : List String) where
  unfoldable pub start_all : List ℕ → Consumer → Consumer
  start_all [] c = c
  start_all (partition ∷ ps) c = elim (get_elem? markets partition) [
    | none ↦ record c { loop = panicked }
    | some market ↦ start_all ps (record c { started = c.started ++ (market, partition) ∷ [] })
  ]

  unfoldable pub take_next : Next → Consumer → Consumer
  take_next (failure true cut) c = record c { loop = context_done }
  take_next (failure false cut) c = retry cut (suc c.consecutive_failures) c
  take_next (generation ps) c = start_all ps (record c { consecutive_failures = 0 })

  -- The loop over the answers, until it returns.
  unfoldable pub run : List Next → Consumer → Consumer
  run [] c = c
  run (n ∷ ns) c =
      let c' = take_next n c in
      elim c'.loop [ going ↦ run ns c' | context_done ↦ c' | gave_up ↦ c' | panicked ↦ c' ]
