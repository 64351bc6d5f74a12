-- ===== src/Matching/OrderBook/Match/Fill.antt =====
-- One price level of match.go's loops against the list that it stands for.
use project_final_1team.Prelude.{
  ◌≡◌, refl, sym, ap, ◌∙◌, inl, inr, Bool, true, false, String, List, [], ◌∷◌, ◌++◌, ℕ, zero, suc,
  append-nil, append_assoc, Bool-cases, All, length,
}
use project_final_1team.Dict
use project_final_1team.Dict.{Dict}
use project_final_1team.Decimal.{Decimal, is_zero, IsPositive}
use project_final_1team.Decimal.Laws.{sub_self, sub_pos, equal_self}
use project_final_1team.Matching.OrderBook.{Side, Order, Execution, Element}
use project_final_1team.Matching.OrderBook.Match.{
  LevelState, crosses, wants_more, fill_quantity, take_from, execution, fill_front, fill_level,
}
use project_final_1team.Matching.OrderBook.Spec.{Filled, fill_orders, unfilled}
use project_final_1team.Matching.OrderBook.Ladder.{IsAt}

module _ {D : Type 0} ⦃dec : Decimal D⦄ where
  -- Of the two orders one is used up.
  pub one_used_up :
      (inc x : Order D)
      → is_zero (take_from x (fill_quantity inc x)).quantity ≡ false
      → wants_more (take_from inc (fill_quantity inc x)) ≡ false
  unfolding take_from fill_quantity
  one_used_up inc x h = elim (Bool-cases (dec.less_than inc.quantity x.quantity)) [
    | inl e ↦ rw (e, sub_self inc.quantity) (dec.lt_irrefl dec.zero_value)
    | inr e ↦ cc (rw e at h, ap is_zero (sub_self x.quantity), equal_self dec.zero_value)
  ]

  pub rest-IsPositive :
      (inc x : Order D)
      → is_zero (take_from x (fill_quantity inc x)).quantity ≡ false
      → IsPositive (take_from x (fill_quantity inc x)).quantity
  unfolding take_from fill_quantity
  rest-IsPositive inc x h = elim (Bool-cases (dec.less_than inc.quantity x.quantity)) [
    | inl e ↦ rw e (sub_pos inc.quantity x.quantity e)
    | inr e ↦ cc (h, e, equal_self dec.zero_value, ap is_zero (sub_self x.quantity))
  ]

  pub fill-IsPositive :
      (inc x : Order D)
      → wants_more inc ≡ true
      → IsPositive x.quantity
      → IsPositive (fill_quantity inc x)
  unfolding fill_quantity
  fill-IsPositive inc x h k = elim (Bool-cases (dec.less_than inc.quantity x.quantity)) [
    | inl e ↦ rw e h
    | inr e ↦ rw e k
  ]

  -- The four ways of `fill_orders` at its first order.
  pub fill_orders-done :
      (market : String) (inc : Order D) (xs : List (Order D))
      → wants_more inc ≡ false
      → fill_orders market inc xs ≡ unfilled inc xs
  unfolding fill_orders
  fill_orders-done market inc [] h = refl
  fill_orders-done market inc (x ∷ xs) h = rw h

  pub fill_orders-stop :
      (market : String) (inc x : Order D) (xs : List (Order D))
      → crosses inc x.price ≡ false
      → fill_orders market inc (x ∷ xs) ≡ unfilled inc (x ∷ xs)
  unfolding fill_orders
  fill_orders-stop market inc x xs c = elim (Bool-cases (wants_more inc)) [
    | inl w ↦ rw (w, c)
    | inr w ↦ rw w
  ]

  -- All of the first order, and on to the others.
  abbrev pub through : String → Order D → Order D → List (Order D) → Filled D
  through market inc x xs =
      let rest = fill_orders market (take_from inc (fill_quantity inc x)) xs in
      record rest {
        executions = execution market inc x ∷ rest.executions;
        used_up = x ∷ rest.used_up;
      }

  -- A part of the first order, and no more.
  abbrev pub partly : String → Order D → Order D → List (Order D) → Filled D
  partly market inc x xs = record {
    incoming = take_from inc (fill_quantity inc x);
    resting = take_from x (fill_quantity inc x) ∷ xs;
    executions = execution market inc x ∷ [];
    used_up = [];
  }

  abbrev pub is_used_up : Order D → Order D → Bool
  is_used_up inc x = is_zero (take_from x (fill_quantity inc x)).quantity

  pub fill_orders-through :
      (market : String) (inc x : Order D) (xs : List (Order D))
      → wants_more inc ≡ true
      → crosses inc x.price ≡ true
      → is_used_up inc x ≡ true
      → fill_orders market inc (x ∷ xs) ≡ through market inc x xs
  unfolding fill_orders
  fill_orders-through market inc x xs w c z = rw (w, c, z)

  pub fill_orders-partly :
      (market : String) (inc x : Order D) (xs : List (Order D))
      → wants_more inc ≡ true
      → crosses inc x.price ≡ true
      → is_used_up inc x ≡ false
      → fill_orders market inc (x ∷ xs) ≡ partly market inc x xs
  unfolding fill_orders
  fill_orders-partly market inc x xs w c z = rw (w, c, z)

  -- The orders that leave the book leave its index.
  unfoldable pub delete_all : List (Order D) → Dict (Element D) → Dict (Element D)
  delete_all [] elements = elements
  delete_all (o ∷ os) elements = delete_all os (Dict.delete o.order_id elements)

  pub delete_all-append :
      (xs ys : List (Order D)) (elements : Dict (Element D))
      → delete_all (xs ++ ys) elements ≡ delete_all ys (delete_all xs elements)
  unfolding delete_all
  delete_all-append [] ys elements = refl
  delete_all-append (x ∷ xs) ys elements = delete_all-append xs ys (Dict.delete x.order_id elements)

  fill_level-done :
      (market : String) (n : ℕ) (s : LevelState D)
      → wants_more s.incoming ≡ false
      → fill_level market n s ≡ s
  unfolding fill_level
  fill_level-done market zero s h = refl
  fill_level-done market (suc n) s h = rw (h, fill_level)

  abbrev pub level_state :
      Order D → List (Order D) → Dict (Element D) → List (Execution D) → LevelState D
  level_state inc os elements executions = record {
    incoming = inc;
    orders = os;
    elements = elements;
    executions = executions;
  }

  pub crosses-take_from :
      (inc : Order D) (fill p : D) → crosses (take_from inc fill) p ≡ crosses inc p
  unfolding take_from
  crosses-take_from inc fill p = refl

  fill_level-step :
      (market : String) (n : ℕ) (inc x : Order D) (xs : List (Order D))
      (elements : Dict (Element D)) (executions : List (Execution D))
      → wants_more inc ≡ true
      → fill_level market (suc n) (level_state inc (x ∷ xs) elements executions)
        ≡ fill_level market n
            (fill_front market (level_state inc (x ∷ xs) elements executions) x xs)
  unfolding fill_level
  fill_level-step market n inc x xs elements executions w = rw (w, fill_level)

  fill_front-through :
      (market : String) (inc x : Order D) (xs : List (Order D)) (elements : Dict (Element D))
      (executions : List (Execution D))
      → is_used_up inc x ≡ true
      → fill_front market (level_state inc (x ∷ xs) elements executions) x xs
        ≡ level_state
            (take_from inc (fill_quantity inc x))
            xs
            (Dict.delete x.order_id elements)
            (executions ++ execution market inc x ∷ [])
  unfolding fill_front
  fill_front-through market inc x xs elements executions z = rw z

  fill_front-partly :
      (market : String) (inc x : Order D) (xs : List (Order D)) (elements : Dict (Element D))
      (executions : List (Execution D))
      → is_used_up inc x ≡ false
      → fill_front market (level_state inc (x ∷ xs) elements executions) x xs
        ≡ level_state
            (take_from inc (fill_quantity inc x))
            (take_from x (fill_quantity inc x) ∷ xs)
            elements
            (executions ++ execution market inc x ∷ [])
  unfolding fill_front
  fill_front-partly market inc x xs elements executions z = rw z

  -- What a filling makes of the loop's variables.
  abbrev pub after : Filled D → Dict (Element D) → List (Execution D) → LevelState D
  after f elements executions =
      level_state f.incoming f.resting (delete_all f.used_up elements) (executions ++ f.executions)

  -- The inner loop over orders at a price that crosses.
  pub fill_level-eq :
      (market : String) (side : Side) (p : D) (inc : Order D) (os : List (Order D))
      (elements : Dict (Element D)) (executions : List (Execution D))
      → crosses inc p ≡ true
      → All (IsAt side p) os
      → fill_level market (length os) (level_state inc os elements executions)
        ≡ after (fill_orders market inc os) elements executions
  unfolding fill_level fill_orders delete_all
  fill_level-eq market side p inc [] elements executions c at =
      ap (level_state inc [] elements) (sym (append-nil executions))
  fill_level-eq market side p inc (x ∷ xs) elements executions c at =
      elim (Bool-cases (wants_more inc)) [
        | inr w ↦
            fill_level-done market (length (x ∷ xs)) (level_state inc (x ∷ xs) elements executions)
              w
            ∙ ap (level_state inc (x ∷ xs) elements) (sym (append-nil executions))
            ∙ sym (ap (λ f. after f elements executions) (fill_orders-done market inc (x ∷ xs) w))
        | inl w ↦
            fill_level-step market (length xs) inc x xs elements executions w
            ∙ elim (Bool-cases (is_used_up inc x)) [
              | inl z ↦
                  ap (fill_level market (length xs))
                    (fill_front-through market inc x xs elements executions z)
                  ∙ fill_level-eq market side p (take_from inc (fill_quantity inc x)) xs
                      (Dict.delete x.order_id elements) (executions ++ execution market inc x ∷ [])
                      (crosses-take_from inc (fill_quantity inc x) p ∙ c) at.1
                  ∙ ap
                      (level_state rest.incoming rest.resting
                        (delete_all rest.used_up (Dict.delete x.order_id elements)))
                      (append_assoc executions (execution market inc x ∷ []) rest.executions)
                  ∙ sym (
                      ap (λ f. after f elements executions)
                        (fill_orders-through market inc x xs w cx z))
              | inr z ↦
                  ap (fill_level market (length xs))
                    (fill_front-partly market inc x xs elements executions z)
                  ∙ fill_level-done market (length xs) _ (one_used_up inc x z)
                  ∙ sym (
                      ap (λ f. after f elements executions)
                        (fill_orders-partly market inc x xs w cx z))
            ]
      ]
    where
      rest : Filled D
      rest = fill_orders market (take_from inc (fill_quantity inc x)) xs

      cx : crosses inc x.price ≡ true
      cx = rw at.0.at_price c
