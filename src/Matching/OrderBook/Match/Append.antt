-- ===== src/Matching/OrderBook/Match/Append.antt =====
-- Filling from the orders of one level and then from the rest.
use project_final_1team.Prelude.{
  ◌≡◌, ◌≢◌, refl, sym, ap, ◌∙◌, subst, inl, inr, true, false, String, List, [], ◌∷◌, ◌++◌,
  Bool-cases, All,
}
use project_final_1team.Decimal.{Decimal}
use project_final_1team.Matching.OrderBook.{Side, Order}
use project_final_1team.Matching.OrderBook.Match.{
  crosses, wants_more, fill_quantity, take_from, execution,
}
use project_final_1team.Matching.OrderBook.Match.Fill.{
  fill_orders-done, fill_orders-stop, fill_orders-through, fill_orders-partly, through, partly,
  is_used_up, one_used_up, crosses-take_from, rest-IsPositive,
}
use project_final_1team.Matching.OrderBook.Spec.{Filled, fill_orders, unfilled}
use project_final_1team.Matching.OrderBook.Ladder.{IsAt}

module _ {D : Type 0} ⦃dec : Decimal D⦄ where
  -- One filling after another.
  abbrev pub then_fill : String → Filled D → List (Order D) → Filled D
  then_fill market f ys =
      let g = fill_orders market f.incoming ys in
      record {
        incoming = g.incoming;
        resting = g.resting;
        executions = f.executions ++ g.executions;
        used_up = f.used_up ++ g.used_up;
      }

  -- Four cases of the first order serve every induction over `fill_orders`.
  pub fill_orders-cases {ℓ} :
      (P : Filled D → Type ℓ) (market : String) (inc x : Order D) (xs : List (Order D))
      → (wants_more inc ≡ false → P (unfilled inc (x ∷ xs)))
      → (crosses inc x.price ≡ false → P (unfilled inc (x ∷ xs)))
      → (wants_more inc ≡ true
          → crosses inc x.price ≡ true
          → is_used_up inc x ≡ true
          → P (through market inc x xs))
      → (wants_more inc ≡ true
          → crosses inc x.price ≡ true
          → is_used_up inc x ≡ false
          → P (partly market inc x xs))
      → P (fill_orders market inc (x ∷ xs))
  fill_orders-cases P market inc x xs done stop thru part = elim (Bool-cases (wants_more inc)) [
    | inr w ↦ subst P (sym (fill_orders-done market inc (x ∷ xs) w)) (done w)
    | inl w ↦ elim (Bool-cases (crosses inc x.price)) [
      | inr c ↦ subst P (sym (fill_orders-stop market inc x xs c)) (stop c)
      | inl c ↦ elim (Bool-cases (is_used_up inc x)) [
        | inl z ↦ subst P (sym (fill_orders-through market inc x xs w c z)) (thru w c z)
        | inr z ↦ subst P (sym (fill_orders-partly market inc x xs w c z)) (part w c z)
      ]
    ]
  ]

  -- The first list is used up: on to the second.
  pub fill_orders-append :
      (market : String) (inc : Order D) (xs ys : List (Order D))
      → (fill_orders market inc xs).resting ≡ []
      → fill_orders market inc (xs ++ ys) ≡ then_fill market (fill_orders market inc xs) ys
  fill_orders-append market inc [] ys h = unfold fill_orders in refl
  fill_orders-append market inc (x ∷ xs) ys left =
      fill_orders-cases
        (λ f. f.resting ≡ [] → fill_orders market inc (x ∷ (xs ++ ys)) ≡ then_fill market f ys)
        market inc x xs (λ w h. cc) (λ c h. cc)
        (λ w c z h.
          fill_orders-through market inc x (xs ++ ys) w c z
          ∙ ap
              (λ (f : Filled D). record f {
                executions = execution market inc x ∷ f.executions;
                used_up = x ∷ f.used_up;
              })
              (fill_orders-append market (take_from inc (fill_quantity inc x)) xs ys h))
        (λ w c z h. cc) left

  -- It is not: the second is not reached.
  pub fill_orders-within :
      (market : String) (inc : Order D) (xs ys : List (Order D))
      → (fill_orders market inc xs).resting ≢ []
      → fill_orders market inc (xs ++ ys)
        ≡ record (fill_orders market inc xs) { resting = (fill_orders market inc xs).resting ++ ys }
  fill_orders-within market inc [] ys h = absurd (h (unfold fill_orders in refl))
  fill_orders-within market inc (x ∷ xs) ys left =
      fill_orders-cases
        (λ f.
          f.resting ≢ []
          → fill_orders market inc (x ∷ (xs ++ ys)) ≡ record f { resting = f.resting ++ ys })
        market inc x xs (λ w h. fill_orders-done market inc (x ∷ (xs ++ ys)) w)
        (λ c h. fill_orders-stop market inc x (xs ++ ys) c)
        (λ w c z h.
          fill_orders-through market inc x (xs ++ ys) w c z
          ∙ ap
              (λ (f : Filled D). record f {
                executions = execution market inc x ∷ f.executions;
                used_up = x ∷ f.used_up;
              })
              (fill_orders-within market (take_from inc (fill_quantity inc x)) xs ys h))
        (λ w c z h. fill_orders-partly market inc x (xs ++ ys) w c z) left

  -- Where every price crosses, orders are left only if the incoming order is filled.
  pub fill_orders-filled :
      (market : String) (side : Side) (p : D) (inc : Order D) (xs : List (Order D))
      → crosses inc p ≡ true
      → All (IsAt side p) xs
      → (fill_orders market inc xs).resting ≢ []
      → wants_more (fill_orders market inc xs).incoming ≡ false
  fill_orders-filled market side p inc [] c at h = absurd (h (unfold fill_orders in refl))
  fill_orders-filled market side p inc (x ∷ xs) c at left =
      fill_orders-cases (λ f. f.resting ≢ [] → wants_more f.incoming ≡ false) market inc x xs
        (λ w h. w) (λ k h. cc (k, c, at.0.at_price))
        (λ w k z h.
          fill_orders-filled market side p (take_from inc (fill_quantity inc x)) xs
            (crosses-take_from inc (fill_quantity inc x) p ∙ c) at.1 h)
        (λ w k z h. one_used_up inc x z) left

  -- What is left of an order stays where it was.
  pub fill_orders-IsAt :
      (market : String) (side : Side) (p : D) (inc : Order D) (xs : List (Order D))
      → All (IsAt side p) xs
      → All (IsAt side p) (fill_orders market inc xs).resting
  fill_orders-IsAt market side p inc [] at = unfold fill_orders in tt
  fill_orders-IsAt market side p inc (x ∷ xs) at =
      fill_orders-cases (λ f. All (IsAt side p) f.resting) market inc x xs (λ _. at) (λ _. at)
        (λ _ _ _. fill_orders-IsAt market side p (take_from inc (fill_quantity inc x)) xs at.1)
        (λ _ _ z. (
          unfold take_from in
              record {
                on_side = at.0.on_side;
                at_price = at.0.at_price;
                positive = rest-IsPositive inc x z;
              },
          at.1,
        ))
