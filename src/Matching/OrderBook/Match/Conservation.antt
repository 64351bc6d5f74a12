-- ===== src/Matching/OrderBook/Match/Conservation.antt =====
-- What Apply executes leaves both sides of the book in equal amounts.
use project_final_1team.Prelude.{
  ◌≡◌, refl, sym, ap, ap₂, ◌∙◌, inl, inr, false, String, List, [], ◌∷◌, Bool-cases,
}
use project_final_1team.Dict
use project_final_1team.Decimal.{Decimal, IsPositive}
use project_final_1team.Decimal.Laws.{add_sub_cancel, zero_add, sub_nonneg, add_left_comm}
use project_final_1team.Decimal.Laws
use project_final_1team.Matching.OrderBook.{Side, Order, Execution, OrderBook, before, all_orders}
use project_final_1team.Matching.OrderBook.Match.{
  opposite, wants_more, fill_quantity, take_from, execution, apply,
}
use project_final_1team.Matching.OrderBook.Spec.{Filled, fill_orders, insert_order}
use project_final_1team.Matching.OrderBook.Invariant.{IsGoodBook, normalized}
use project_final_1team.Matching.OrderBook.Match.Append.{fill_orders-cases}
use project_final_1team.Matching.OrderBook.Match.Filling.{filling}
use project_final_1team.Matching.OrderBook.Match.Refine.{rest_order, apply-Applied}

module _ {D : Type 0} ⦃dec : Decimal D⦄ where
  open dec use {add, sub, zero_value}

  abbrev pub total_executed : List (Execution D) → D
  total_executed [] = zero_value
  total_executed (e ∷ es) = add e.quantity (total_executed es)

  abbrev pub total_resting : List (Order D) → D
  total_resting [] = zero_value
  total_resting (o ∷ os) = add o.quantity (total_resting os)

  execution-quantity :
      (market : String) (inc x : Order D) → (execution market inc x).quantity ≡ fill_quantity inc x
  unfolding execution
  execution-quantity market inc x = refl

  take_from-quantity : (o : Order D) (fill : D) → add fill (take_from o fill).quantity ≡ o.quantity
  unfolding take_from
  take_from-quantity o fill = add_sub_cancel o.quantity fill

  -- What the incoming order loses is what is executed.
  fill_orders-incoming :
      (market : String) (inc : Order D) (xs : List (Order D))
      → let f = fill_orders market inc xs in
        add (total_executed f.executions) f.incoming.quantity ≡ inc.quantity
  fill_orders-incoming market inc [] = unfold fill_orders in zero_add inc.quantity
  fill_orders-incoming market inc (x ∷ xs) =
      fill_orders-cases (λ f. add (total_executed f.executions) f.incoming.quantity ≡ inc.quantity)
        market inc x xs (λ _. zero_add inc.quantity) (λ _. zero_add inc.quantity)
        (λ _ _ _.
          dec.add_assoc _ _ _
          ∙ ap₂ add (execution-quantity market inc x)
              (fill_orders-incoming market (take_from inc (fill_quantity inc x)) xs)
          ∙ take_from-quantity inc (fill_quantity inc x))
        (λ _ _ _.
          ap (λ t. add t (take_from inc (fill_quantity inc x)).quantity)
            (dec.add_zero _ ∙ execution-quantity market inc x)
          ∙ take_from-quantity inc (fill_quantity inc x))

  -- And so does the list.
  fill_orders-resting :
      (market : String) (inc : Order D) (xs : List (Order D))
      → let f = fill_orders market inc xs in
        add (total_executed f.executions) (total_resting f.resting) ≡ total_resting xs
  fill_orders-resting market inc [] = unfold fill_orders in zero_add zero_value
  fill_orders-resting market inc (x ∷ xs) =
      fill_orders-cases
        (λ f. add (total_executed f.executions) (total_resting f.resting) ≡ total_resting (x ∷ xs))
        market inc x xs (λ _. zero_add _) (λ _. zero_add _)
        (λ _ _ z.
          dec.add_assoc _ _ _
          ∙ ap₂ add
              (execution-quantity market inc x
                ∙ sym (dec.add_zero (fill_quantity inc x))
                ∙ ap (add (fill_quantity inc x)) (sym ((dec.equal_iff _ _).0 z))
                ∙ take_from-quantity x (fill_quantity inc x))
              (fill_orders-resting market (take_from inc (fill_quantity inc x)) xs))
        (λ _ _ _.
          ap (λ t. add t (total_resting (take_from x (fill_quantity inc x) ∷ xs)))
            (dec.add_zero _ ∙ execution-quantity market inc x)
          ∙ sym (dec.add_assoc _ _ _)
          ∙ ap (λ t. add t (total_resting xs)) (take_from-quantity x (fill_quantity inc x)))

  abbrev IsNonneg : D → Type 0
  IsNonneg a = dec.less_than a zero_value ≡ false

  take_from-IsNonneg :
      (inc x : Order D)
      → IsNonneg inc.quantity
      → IsNonneg (take_from inc (fill_quantity inc x)).quantity
  unfolding take_from fill_quantity
  take_from-IsNonneg inc x h = elim (Bool-cases (dec.less_than inc.quantity x.quantity)) [
    | inl e ↦ rw (e, Laws.sub_self inc.quantity) (dec.lt_irrefl zero_value)
    | inr e ↦ rw e (sub_nonneg inc.quantity x.quantity e)
  ]

  fill_orders-IsNonneg :
      (market : String) (inc : Order D) (xs : List (Order D))
      → IsNonneg inc.quantity
      → IsNonneg (fill_orders market inc xs).incoming.quantity
  fill_orders-IsNonneg market inc [] h = unfold fill_orders in h
  fill_orders-IsNonneg market inc (x ∷ xs) h =
      fill_orders-cases (λ f. IsNonneg f.incoming.quantity) market inc x xs (λ _. h) (λ _. h)
        (λ _ _ _.
          fill_orders-IsNonneg market (take_from inc (fill_quantity inc x)) xs
            (take_from-IsNonneg inc x h))
        (λ _ _ _. take_from-IsNonneg inc x h)

  total-insert :
      (side : Side) (o : Order D) (os : List (Order D))
      → total_resting (insert_order side o os) ≡ add o.quantity (total_resting os)
  total-insert side o [] = refl
  total-insert side o (x ∷ xs) = elim (Bool-cases (before side o.price x.price)) [
    | inl e ↦ rw e
    | inr e ↦
        rw e (ap (add x.quantity) (total-insert side o xs) ∙ add_left_comm x.quantity o.quantity _)
  ]

  total-rest_order :
      (f : Filled D) (os : List (Order D))
      → IsNonneg f.incoming.quantity
      → total_resting (rest_order f os) ≡ add f.incoming.quantity (total_resting os)
  total-rest_order f os h = elim (Bool-cases (wants_more f.incoming)) [
    | inl w ↦ rw w (total-insert f.incoming.side f.incoming os)
    | inr w ↦ rw w (
        sym (
          ap (λ t. add t (total_resting os)) (dec.lt_connex f.incoming.quantity zero_value h w)
          ∙ zero_add _))
  ]

  -- For a positive order whose id is not in a book with the invariant, the quantity that rests on
  -- the other side before Apply is what is executed and what rests there afterwards, and the
  -- order's quantity with what rested on its own side is what is executed and what rests there
  -- afterwards.
  pub apply-conserves :
      (ob : OrderBook D) (order : Order D)
      → IsGoodBook ob
      → IsPositive order.quantity
      → Dict.has order.order_id ob.elements ≡ false
      → let (ob', executions) = apply ob order in
        (total_resting (all_orders (opposite order.side) ob)
          ≡ add (total_executed executions) (total_resting (all_orders (opposite order.side) ob')))
        × (add order.quantity (total_resting (all_orders order.side ob))
            ≡ add (total_executed executions) (total_resting (all_orders order.side ob')))
  unfolding normalized
  apply-conserves ob order g pos new =
      let a = apply-Applied ob order g new in
      let f = filling ob (normalized order) in
      let asked =
        fill_orders-incoming ob.market (normalized order) (all_orders (opposite order.side) ob) in
      (
        rw (a.executions, a.opposite_orders)
            (sym (
              fill_orders-resting ob.market (normalized order)
                (all_orders (opposite order.side) ob))),
        rw (a.executions, a.own_orders)
            (sym (
              ap (add (total_executed f.executions)) (
                total-rest_order f (all_orders order.side ob) (
                  fill_orders-IsNonneg ob.market (normalized order) _
                    (Laws.lt_asymm zero_value order.quantity pos)))
              ∙ sym (dec.add_assoc _ _ _)
              ∙ ap (λ t. add t (total_resting (all_orders order.side ob))) asked)),
      )
