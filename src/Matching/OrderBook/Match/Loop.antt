-- ===== src/Matching/OrderBook/Match/Loop.antt =====
-- matchIncoming fills the incoming order as the specification does, and ends by its own test.
use project_final_1team.Prelude.{
  ◌≡◌, ◌≢◌, refl, sym, ap, ◌∙◌, subst₂, inl, inr, ◌⊎◌, true, false, String, List, [], ◌∷◌, ◌++◌, ℕ,
  zero, suc, ◌≤◌, arith, Bool-cases, All, length,
}
use project_final_1team.Dict.{Dict}
use project_final_1team.Decimal.{Decimal}
use project_final_1team.Matching.OrderBook.{Side, Order, Execution, Element, PriceLevel, orders_in}
use project_final_1team.Matching.OrderBook.Match.{
  MatchState, crosses, wants_more, match_best, match_loop,
}
use project_final_1team.Matching.OrderBook.Spec.{Filled, fill_orders, unfilled}
use project_final_1team.Matching.OrderBook.Ladder.{IsAt, HasLevel, IsGoodHalf, orders_at-found}
use project_final_1team.Matching.OrderBook.Levels.{resting}
use project_final_1team.Matching.OrderBook.Match.Fill.{fill_orders-done, fill_orders-stop}
use project_final_1team.Matching.OrderBook.Match.Append.{
  then_fill, fill_orders-append, fill_orders-within, fill_orders-filled,
}
use project_final_1team.Matching.OrderBook.Match.Pass.{
  Fills, Fills-refl, match_loop-done, match_loop-nil, match_loop-stop, match_loop-step, state, Pass,
  match_best-Pass, Fills-then,
}

module _ {D : Type 0} ⦃dec : Decimal D⦄ where
  nil-or-not : (os : List (Order D)) → (os ≡ []) ⊎ (os ≢ [])
  nil-or-not [] = inl refl
  nil-or-not (o ∷ os) = inr (λ e. cc)

  -- What the loop owes from `s` on.
  abbrev pub Loops : String → Side → ℕ → MatchState D → Type 0
  Loops market side n s =
      Fills side (fill_orders market s.incoming (resting s.half)) s (match_loop market n s)

  module _ (market : String) (side : Side) (n : ℕ) (p : D) (ps : List D) (s : MatchState D)
      (f : Filled D)
      (step : match_loop market (suc n) s ≡ match_loop market n (match_best market p s))
      (pass : Pass market side p ps f s (match_best market p s)) where
    pass_on :
        f.resting ≡ [] → Loops market side n (match_best market p s) → Loops market side (suc n) s
    pass_on left rest =
        subst₂ (λ g r. Fills side g s r) (sym whole) (sym step)
          (Fills-then market side _ (fill_orders market f.incoming pass.back) s
            (match_best market p s) _ pass.fills
            (subst₂
              (λ inc os.
                Fills side (fill_orders market inc os) (match_best market p s)
                  (match_loop market n (match_best market p s)))
              pass.fills.incoming (pass.fills.orders ∙ ap (λ os. os ++ pass.back) left) rest))
      where
        whole : fill_orders market s.incoming (resting s.half) ≡ then_fill market f pass.back
        whole =
            ap (fill_orders market s.incoming) pass.was
            ∙ fill_orders-append market s.incoming pass.orders pass.back
                (ap (λ (g : Filled D). g.resting) (sym pass.filling) ∙ left)
            ∙ ap (λ g. then_fill market g pass.back) (sym pass.filling)

    pass_last : crosses s.incoming p ≡ true → f.resting ≢ [] → Loops market side (suc n) s
    pass_last c left =
        subst₂ (λ g r. Fills side g s r) (sym whole)
          (sym (step ∙ match_loop-done market n _ filled)) pass.fills
      where
        left' : (fill_orders market s.incoming pass.orders).resting ≢ []
        left' e = left (ap (λ (g : Filled D). g.resting) pass.filling ∙ e)

        whole :
            fill_orders market s.incoming (resting s.half)
            ≡ record f { resting = f.resting ++ pass.back }
        whole =
            ap (fill_orders market s.incoming) pass.was
            ∙ fill_orders-within market s.incoming pass.orders pass.back left'
            ∙ ap (λ (g : Filled D). record g { resting = g.resting ++ pass.back })
                (sym pass.filling)

        filled : wants_more (match_best market p s).incoming ≡ false
        filled =
            ap wants_more pass.fills.incoming
            ∙ ap (λ (g : Filled D). wants_more g.incoming) pass.filling
            ∙ fill_orders-filled market side p s.incoming pass.orders c pass.valid left'

  fill_orders-stop_ladder :
      (market : String) (side : Side) (inc : Order D) (levels : Dict (PriceLevel D)) (p : D)
      (ps : List D)
      → HasLevel side levels p
      → crosses inc p ≡ false
      → fill_orders market inc (orders_in levels (p ∷ ps))
        ≡ unfilled inc (orders_in levels (p ∷ ps))
  unfolding orders_in
  fill_orders-stop_ladder market side inc levels p ps h c =
      rw (orders_at-found p levels h.level h.found) (go h.level.orders h.nonempty h.valid)
    where
      go :
          (os : List (Order D))
          → os ≢ []
          → All (IsAt side p) os
          → fill_orders market inc (os ++ orders_in levels ps)
            ≡ unfilled inc (os ++ orders_in levels ps)
      go [] n at = absurd (n refl)
      go (o ∷ os) n at = fill_orders-stop market inc o _ (rw at.0.at_price c)

  -- With the prices for fuel the loops fill as the specification does.
  pub match_loop-Fills :
      (market : String) (side : Side) (n : ℕ) (inc : Order D) (levels : Dict (PriceLevel D))
      (prices : List D) (elements : Dict (Element D)) (executions : List (Execution D))
      → length prices ≤ n
      → IsGoodHalf side (record { levels = levels; prices = prices })
      → Loops market side n (state inc levels prices elements executions)
  match_loop-Fills market side n inc levels [] elements executions fuel g =
      subst₂ (λ f r. Fills side f s r) (sym none_left) (sym (match_loop-nil market n s refl))
        (Fills-refl side s g)
    where
      s : MatchState D
      s = state inc levels [] elements executions

      none_left : fill_orders market inc (orders_in levels []) ≡ unfilled inc (orders_in levels [])
      none_left = unfold orders_in fill_orders in refl
  match_loop-Fills market side zero inc levels (p ∷ ps) elements executions fuel g =
      absurd (omega arith)
  match_loop-Fills market side (suc n) inc levels (p ∷ ps) elements executions fuel g =
      elim (Bool-cases (wants_more inc)) [
        | inr w ↦
            subst₂ (λ f r. Fills side f s r) (sym (fill_orders-done market inc _ w))
              (sym (match_loop-done market (suc n) s w)) (Fills-refl side s g)
        | inl w ↦ elim (Bool-cases (crosses inc p)) [
          | inr c ↦
              subst₂ (λ f r. Fills side f s r)
                (sym (fill_orders-stop_ladder market side inc levels p ps g.ladder.1 c))
                (sym (match_loop-stop market (suc n) s p ps refl c)) (Fills-refl side s g)
          | inl c ↦
              let (f, pass) = match_best-Pass market side inc levels p ps elements executions g c in
              let step = match_loop-step market n s p ps refl c w in
              elim (nil-or-not f.resting) [
                | inl left ↦ pass_on market side n p ps s f step pass left (
                    match_loop-Fills market side n s'.incoming s'.half.levels s'.half.prices
                      s'.elements s'.executions (omega (arith, ap length (pass.shorter left)))
                      pass.fills.good)
                | inr left ↦ pass_last market side n p ps s f step pass c left
              ]
        ]
      ]
    where
      s : MatchState D
      s = state inc levels (p ∷ ps) elements executions

      s' : MatchState D
      s' = match_best market p s
