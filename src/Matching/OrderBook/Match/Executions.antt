-- ===== src/Matching/OrderBook/Match/Executions.antt =====
-- Each execution of Apply: its amount, its price, its two orders, and the order of all of them.
use project_final_1team.Prelude.{
  ◌≡◌, refl, ap, ap₂, true, false, String, List, [], ◌∷◌, All, All-map, length, take, map,
}
use project_final_1team.Dict
use project_final_1team.Decimal.{Decimal, IsPositive}
use project_final_1team.Matching.OrderBook.{
  Side, buy, sell, Order, Execution, OrderBook, all_orders,
}
use project_final_1team.Matching.OrderBook.Match.{
  opposite, crosses, wants_more, fill_quantity, take_from, execution, apply,
}
use project_final_1team.Matching.OrderBook.Spec.{fill_orders}
use project_final_1team.Matching.OrderBook.Invariant.{IsGoodBook, normalized}
use project_final_1team.Matching.OrderBook.Match.Fill.{fill-IsPositive}
use project_final_1team.Matching.OrderBook.Match.Append.{fill_orders-cases}
use project_final_1team.Matching.OrderBook.Match.Refine.{apply-Applied}

module _ {D : Type 0} where
  -- The order of the other side in an execution, and the one that came in.
  abbrev pub counterparty : Side → Execution D → String
  counterparty buy e = e.sell_order_id
  counterparty sell e = e.buy_order_id

  abbrev pub initiator : Side → Execution D → String
  initiator buy e = e.buy_order_id
  initiator sell e = e.sell_order_id

module _ {D : Type 0} ⦃dec : Decimal D⦄ where
  -- A positive amount, at a price within the incoming order's limit, in its name.
  pub record IsProper (inc : Order D) (e : Execution D) : Type 0 where
    pub positive : IsPositive e.quantity
    pub within : crosses inc e.price ≡ true
    pub by : initiator inc.side e ≡ inc.order_id

  initiator-execution :
      (side : Side) (market : String) (inc x : Order D)
      → inc.side ≡ side
      → initiator side (execution market inc x) ≡ inc.order_id
  unfolding execution
  initiator-execution buy market inc x s = rw s
  initiator-execution sell market inc x s = rw s

  execution-IsProper :
      (market : String) (inc x : Order D)
      → wants_more inc ≡ true
      → crosses inc x.price ≡ true
      → IsPositive x.quantity
      → IsProper inc (execution market inc x)
  execution-IsProper market inc x w c pos = record {
    positive = unfold execution in fill-IsPositive inc x w pos;
    within = unfold execution in c;
    by = initiator-execution inc.side market inc x refl;
  }

  IsProper-take_from :
      (inc : Order D) (fill : D) (e : Execution D)
      → IsProper (take_from inc fill) e
      → IsProper inc e
  unfolding take_from
  IsProper-take_from inc fill e p = record { positive = p.positive; within = p.within; by = p.by }

  fill_orders-IsProper :
      (market : String) (inc : Order D) (xs : List (Order D))
      → All (λ o. IsPositive o.quantity) xs
      → All (IsProper inc) (fill_orders market inc xs).executions
  fill_orders-IsProper market inc [] h = unfold fill_orders in tt
  fill_orders-IsProper market inc (x ∷ xs) h =
      fill_orders-cases (λ f. All (IsProper inc) f.executions) market inc x xs (λ _. tt) (λ _. tt)
        (λ w c _. (
          execution-IsProper market inc x w c h.0,
          All-map _ _ (IsProper-take_from inc (fill_quantity inc x)) _
              (fill_orders-IsProper market (take_from inc (fill_quantity inc x)) xs h.1),
        ))
        (λ w c _. (execution-IsProper market inc x w c h.0, tt))

  -- The other order of an execution, with the execution's price.
  abbrev pub trade : Side → Execution D → String × D
  trade side e = (counterparty side e, e.price)

  abbrev pub offer : Order D → String × D
  offer o = (o.order_id, o.price)

  trade-execution :
      (side : Side) (market : String) (inc x : Order D)
      → inc.side ≡ side
      → trade side (execution market inc x) ≡ offer x
  unfolding execution
  trade-execution buy market inc x s = rw s
  trade-execution sell market inc x s = rw s

  side-take_from :
      (side : Side) (inc : Order D) (fill : D) → inc.side ≡ side → (take_from inc fill).side ≡ side
  unfolding take_from
  side-take_from side inc fill s = s

  fill_orders-trades :
      (market : String) (side : Side) (inc : Order D) (xs : List (Order D))
      → inc.side ≡ side
      → let es = (fill_orders market inc xs).executions in
        map (trade side) es ≡ take (length es) (map offer xs)
  fill_orders-trades market side inc [] s = unfold fill_orders in refl
  fill_orders-trades market side inc (x ∷ xs) s =
      fill_orders-cases
        (λ f. map (trade side) f.executions ≡ take (length f.executions) (map offer (x ∷ xs)))
        market inc x xs (λ _. refl) (λ _. refl)
        (λ _ _ _. ap₂ ◌∷◌ (trade-execution side market inc x s) (
          fill_orders-trades market side (take_from inc (fill_quantity inc x)) xs
            (side-take_from side inc (fill_quantity inc x) s)))
        (λ _ _ _. ap (λ t. t ∷ []) (trade-execution side market inc x s))

  -- Each execution of an order whose id is not in a book with the invariant has a positive
  -- quantity, a price within the order's normalized limit, and the order's id on the order's side.
  pub apply-IsProper :
      (ob : OrderBook D) (order : Order D)
      → IsGoodBook ob
      → Dict.has order.order_id ob.elements ≡ false
      → All (IsProper (normalized order)) (apply ob order).1
  apply-IsProper ob order g new = rw (apply-Applied ob order g new).executions (
      fill_orders-IsProper ob.market (normalized order) _
        (g.sides (opposite (normalized order).side)).positive)

  -- The executions of an order whose id is not in a book with the invariant go through the other
  -- side's list from its first order on, with none left out, each with the id of the order that
  -- rests and at its price.
  pub apply-priority :
      (ob : OrderBook D) (order : Order D)
      → IsGoodBook ob
      → Dict.has order.order_id ob.elements ≡ false
      → let executions = (apply ob order).1 in
        map (trade order.side) executions
        ≡ take (length executions) (map offer (all_orders (opposite order.side) ob))
  unfolding normalized
  apply-priority ob order g new =
      rw (apply-Applied ob order g new).executions
        (fill_orders-trades ob.market order.side (normalized order) _ refl)
