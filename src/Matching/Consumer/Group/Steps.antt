-- ===== src/Matching/Consumer/Group/Steps.antt =====
-- matching/kafkaclient/consumer.go: the steps of the loop of Run.
use Prim.Native.String.{String}
use mathlib.Core.List.{map-append}
use project_final_1team.Prelude.{
  ℕ, zero, suc, ◌+◌, ◌<◌, ◌≡◌, false≢true, refl, sym, ap, ◌∙◌, true, false, Option, some, List, [],
  ◌∷◌, ◌++◌, map, append_assoc, append-nil, All, leb, arith, inl, inr, ◌⊎◌, Bool-cases, get_elem?,
}
use project_final_1team.Matching.Consumer.Group.{
  Next, generation, failure, going, gave_up, Consumer, max_consecutive_next_failures, retry,
  start_all, take_next, run, next_retry_delay,
}

abbrev pub state : ℕ → ℕ → List (String × ℕ) → Consumer
state n w s = record { loop = going; consecutive_failures = n; waited = w; started = s }

-- So many failures of Next, with the context not done.
abbrev pub failures : ℕ → List Next
failures zero = []
failures (suc n) = failure false false ∷ failures n

abbrev pub tagged : List (String × ℕ) → List (Option String × ℕ)
tagged s = map (λ g. (some g.0, g.1)) s

module _ (markets : List String) where
  -- The context is not done, and each partition has a market.
  abbrev pub IsAnswered : Next → Type 0
  IsAnswered (generation ps) = All (λ p. (m : String) × (get_elem? markets p ≡ some m)) ps
  IsAnswered (failure ended cut) = (ended ≡ false) × (cut ≡ false)

  abbrev pub looked_up : List ℕ → List (Option String × ℕ)
  looked_up ps = map (λ p. (get_elem? markets p, p)) ps

  pub start_all-going :
      (ps : List ℕ) (w : ℕ) (s : List (String × ℕ))
      → All (λ p. (m : String) × (get_elem? markets p ≡ some m)) ps
      → (s' : List (String × ℕ)) × (start_all markets ps (state 0 w s) ≡ state 0 w s')
        × (tagged s' ≡ tagged s ++ looked_up ps)
  unfolding start_all
  start_all-going [] w s h = (s, refl, sym (append-nil _))
  start_all-going (p ∷ ps) w s ((m, is), h) =
      let (s', same, all) = start_all-going ps w (s ++ (m, p) ∷ []) h in
      (
        s',
        rw (is, start_all) same,
        all
            ∙ ap (λ r. r ++ looked_up ps) (map-append _ s ((m, p) ∷ []))
            ∙ append_assoc (tagged s) ((some m, p) ∷ []) (looked_up ps)
            ∙ ap (λ o. tagged s ++ (o, p) ∷ looked_up ps) (sym is),
      )

  pub run-going :
      (next : Next) (ns : List Next) (c : Consumer) (n w : ℕ) (s : List (String × ℕ))
      → take_next markets next c ≡ state n w s
      → run markets (next ∷ ns) c ≡ run markets ns (state n w s)
  unfolding run
  run-going next ns c n w s is = rw (is, run) (ap (run markets ns) is)

  pub run-gave_up :
      (next : Next) (ns : List Next) (c : Consumer)
      → (take_next markets next c).loop ≡ gave_up
      → (run markets (next ∷ ns) c).loop ≡ gave_up
  unfolding run
  run-gave_up next ns c is = rw (is, run) is

  pub failure-last :
      (n w : ℕ) (s : List (String × ℕ))
      → leb max_consecutive_next_failures (suc n) ≡ true
      → (take_next markets (failure false false) (state n w s)).loop ≡ gave_up
  unfolding take_next retry
  failure-last n w s last = rw last refl

  pub failure-more :
      (n w : ℕ) (s : List (String × ℕ))
      → leb max_consecutive_next_failures (suc n) ≡ false
      → take_next markets (failure false false) (state n w s)
        ≡ state (suc n) (w + next_retry_delay (suc n)) s
  unfolding take_next retry
  failure-more n w s more = rw more refl

  pub generation-going :
      (ps : List ℕ) (n w : ℕ) (s s' : List (String × ℕ))
      → start_all markets ps (state 0 w s) ≡ state 0 w s'
      → take_next markets (generation ps) (state n w s) ≡ state 0 w s'
  unfolding take_next
  generation-going ps n w s s' same = same

  -- An answer makes Run give up, or leaves it going.
  pub take_next-answered :
      (next : Next) (n w : ℕ) (s : List (String × ℕ))
      → n < max_consecutive_next_failures
      → IsAnswered next
      → ((take_next markets next (state n w s)).loop ≡ gave_up)
        ⊎ ((n' : ℕ) × (w' : ℕ) × (s' : List (String × ℕ)) × (n' < max_consecutive_next_failures)
            × (take_next markets next (state n w s) ≡ state n' w' s'))
  take_next-answered (failure true cut) n w s h (e, k) = absurd (false≢true (sym e))
  take_next-answered (failure false true) n w s h (e, k) = absurd (false≢true (sym k))
  take_next-answered (failure false false) n w s h a =
      elim (Bool-cases (leb max_consecutive_next_failures (suc n))) [
        | inl last ↦ inl (failure-last n w s last)
        | inr more ↦ inr (suc n, _, s, ground arith, failure-more n w s more)
      ]
  take_next-answered (generation ps) n w s h a =
      let (s', same, t) = start_all-going ps w s a in
      inr (0, w, s', omega arith, generation-going ps n w s s' same)
