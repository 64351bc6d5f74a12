-- ===== src/Matching/OrderBook/Match/Pairs.antt =====
-- The key by which the recorder knows an execution: its two orders.
use project_final_1team.Prelude.{
  ◌≡◌, refl, sym, ap, ◌∙◌, subst, Bool, false, ◌&&◌, String, List, [], ◌∷◌, ◌==◌, eq_iff, arith,
  All, All-map,
}
use project_final_1team.Dict
use project_final_1team.Decimal.{Decimal}
use project_final_1team.Matching.OrderBook.{Side, buy, sell, Order, Execution, OrderBook}
use project_final_1team.Matching.OrderBook.Match.{
  opposite, fill_quantity, take_from, execution, apply,
}
use project_final_1team.Matching.OrderBook.Spec.{fill_orders, has_order, IsDistinct}
use project_final_1team.Matching.OrderBook.Invariant.{IsGoodBook, normalized}
use project_final_1team.Matching.OrderBook.Match.Append.{fill_orders-cases}
use project_final_1team.Matching.OrderBook.Match.Executions.{counterparty}
use project_final_1team.Matching.OrderBook.Match.Refine.{apply-Applied}

module _ {D : Type 0} where
  abbrev pub same_orders : Execution D → Execution D → Bool
  same_orders a b = a.buy_order_id == b.buy_order_id && a.sell_order_id == b.sell_order_id

  -- No two executions have the same two orders.
  abbrev pub HasDistinctPairs : List (Execution D) → Type 0
  HasDistinctPairs [] = Unit
  HasDistinctPairs (e ∷ es) = All (λ x. same_orders e x ≡ false) es × HasDistinctPairs es

  differ :
      (side : Side) (e x : Execution D)
      → (counterparty side e == counterparty side x) ≡ false
      → same_orders e x ≡ false
  differ buy e x h = ground arith
  differ sell e x h = ground arith

module _ {D : Type 0} ⦃dec : Decimal D⦄ where
  counterparty-made :
      (side : Side) (market : String) (inc x : Order D)
      → inc.side ≡ side
      → counterparty side (execution market inc x) ≡ x.order_id
  unfolding execution
  counterparty-made buy market inc x s = rw s refl
  counterparty-made sell market inc x s = rw s refl

  side-taken :
      (side : Side) (inc : Order D) (fill : D) → inc.side ≡ side → (take_from inc fill).side ≡ side
  unfolding take_from
  side-taken side inc fill s = s

  -- The other orders of the executions come from the list.
  counterparties_within :
      (side : Side) (id market : String) (inc : Order D) (xs : List (Order D))
      → inc.side ≡ side
      → has_order id xs ≡ false
      → All (λ e. (id == counterparty side e) ≡ false) (fill_orders market inc xs).executions
  counterparties_within side id market inc [] s h = unfold fill_orders in tt
  counterparties_within side id market inc (x ∷ xs) s h =
      fill_orders-cases (λ f. All (λ e. (id == counterparty side e) ≡ false) f.executions) market
        inc x xs (λ _. tt) (λ _. tt)
        (λ _ _ _. (
          first,
          counterparties_within side id market (take_from inc (fill_quantity inc x)) xs
              (side-taken side inc (fill_quantity inc x) s) (ground (arith, h)),
        ))
        (λ _ _ _. (first, tt))
    where
      apart : (id == x.order_id) ≡ false
      apart = ground (arith, h, eq_iff id x.order_id, eq_iff x.order_id id)

      first : (id == counterparty side (execution market inc x)) ≡ false
      first = ap (λ t. id == t) (counterparty-made side market inc x s) ∙ apart

  fill_orders-HasDistinctPairs :
      (side : Side) (market : String) (inc : Order D) (xs : List (Order D))
      → inc.side ≡ side
      → IsDistinct xs
      → HasDistinctPairs (fill_orders market inc xs).executions
  fill_orders-HasDistinctPairs side market inc [] s d = unfold fill_orders in tt
  fill_orders-HasDistinctPairs side market inc (x ∷ xs) s d =
      fill_orders-cases (λ f. HasDistinctPairs f.executions) market inc x xs (λ _. tt) (λ _. tt)
        (λ _ _ _. (
          All-map _ _
              (λ e h.
                differ side (execution market inc x) e
                  (ap (λ t. t == counterparty side e) (counterparty-made side market inc x s) ∙ h))
              _
              (counterparties_within side x.order_id market (take_from inc (fill_quantity inc x)) xs
                s' d.0),
          fill_orders-HasDistinctPairs side market (take_from inc (fill_quantity inc x)) xs s' d.1,
        ))
        (λ _ _ _. (tt, tt))
    where
      s' : (take_from inc (fill_quantity inc x)).side ≡ side
      s' = side-taken side inc (fill_quantity inc x) s

  -- When an order is applied whose id is new to a book with the invariant, no two of the executions
  -- have the same buy order and the same sell order.
  pub apply-HasDistinctPairs :
      (ob : OrderBook D) (order : Order D)
      → IsGoodBook ob
      → Dict.has order.order_id ob.elements ≡ false
      → HasDistinctPairs (apply ob order).1
  apply-HasDistinctPairs ob order g new =
      subst HasDistinctPairs (sym (apply-Applied ob order g new).executions) (
        fill_orders-HasDistinctPairs (normalized order).side ob.market (normalized order) _ refl
          (g.sides (opposite (normalized order).side)).distinct)
