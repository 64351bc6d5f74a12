-- ===== src/Matching/OrderBook/Match/Determined.antt =====
-- What Apply does depends on the lists of orders alone: their representation in the maps is not seen.
use project_final_1team.Prelude.{◌≡◌, refl, sym, ap, ap₂, ◌∙◌, inl, inr, ◌||◌, Bool-cases, List}
use project_final_1team.Dict
use project_final_1team.Decimal.{Decimal}
use project_final_1team.Matching.OrderBook.{
  Side, buy, sell, Order, OrderBook, Execution, all_orders,
}
use project_final_1team.Matching.OrderBook.Match.{opposite, apply}
use project_final_1team.Matching.OrderBook.Spec.{has_order, fill_orders}
use project_final_1team.Matching.OrderBook.Invariant.{IsGoodBook, normalized}
use project_final_1team.Matching.OrderBook.Match.Filling.{filling}
use project_final_1team.Matching.OrderBook.Match.Refine.{
  rest_order, Applied, apply-Applied, apply-known,
}

by_side : (P : Side → Type 0) (side : Side) → P side → P (opposite side) → (s : Side) → P s
by_side P buy p q = elim [ buy ↦ p | sell ↦ q ]
by_side P sell p q = elim [ buy ↦ q | sell ↦ p ]

module _ {D : Type 0} ⦃dec : Decimal D⦄ where
  -- Two books with the invariant that show the same orders in the same priority.
  pub record SameOrders (ob ob' : OrderBook D) : Type 0 where
    pub good : IsGoodBook ob
    pub good' : IsGoodBook ob'
    pub market : ob.market ≡ ob'.market
    pub lists : (side : Side) → all_orders side ob ≡ all_orders side ob'

  same_has :
      (ob ob' : OrderBook D) (order : Order D)
      → SameOrders ob ob'
      → Dict.has order.order_id ob.elements ≡ Dict.has order.order_id ob'.elements
  same_has ob ob' order s =
      s.good.held order.order_id
      ∙ ap₂ (λ xs ys. has_order order.order_id xs || has_order order.order_id ys) (s.lists buy)
          (s.lists sell)
      ∙ sym (s.good'.held order.order_id)

  same_filling :
      (ob ob' : OrderBook D) (order : Order D)
      → SameOrders ob ob'
      → filling ob order ≡ filling ob' order
  same_filling ob ob' order s =
      ap₂ (λ m xs. fill_orders m order xs) s.market (s.lists (opposite order.side))

  Applied-SameOrders :
      (ob ob' : OrderBook D) (order : Order D) (r r' : OrderBook D × List (Execution D))
      → SameOrders ob ob'
      → Applied ob order r
      → Applied ob' order r'
      → (r.1 ≡ r'.1) × ((side : Side) → all_orders side r.0 ≡ all_orders side r'.0)
  unfolding normalized
  Applied-SameOrders ob ob' order r r' s a a' =
      let f = same_filling ob ob' (normalized order) s in
      (
        a.executions ∙ ap (λ x. x.executions) f ∙ sym a'.executions,
        by_side (λ side. all_orders side r.0 ≡ all_orders side r'.0) order.side
            (a.own_orders ∙ ap₂ rest_order f (s.lists order.side) ∙ sym a'.own_orders)
            (a.opposite_orders ∙ ap (λ x. x.resting) f ∙ sym a'.opposite_orders),
      )

  -- On two books that hold the invariant and show the same orders in the same priority for the same
  -- market, Apply makes the same executions and leaves the same orders.
  pub apply-SameOrders :
      (ob ob' : OrderBook D) (order : Order D)
      → SameOrders ob ob'
      → ((apply ob order).1 ≡ (apply ob' order).1)
        × ((side : Side) → all_orders side (apply ob order).0 ≡ all_orders side (apply ob' order).0)
  apply-SameOrders ob ob' order s = elim (Bool-cases (Dict.has order.order_id ob.elements)) [
    | inl k ↦
        rw (apply-known ob order k, apply-known ob' order (sym (same_has ob ob' order s) ∙ k))
          (refl, s.lists)
    | inr n ↦
        Applied-SameOrders ob ob' order _ _ s (apply-Applied ob order s.good n)
          (apply-Applied ob' order s.good' (sym (same_has ob ob' order s) ∙ n))
  ]
