-- ===== src/Matching/OrderBook/Invariant/Cancel.antt =====
-- Cancel on a whole book: the order with that id leaves its side, and nothing else changes.
use project_final_1team.Prelude.{
  ◌≡◌, sym, ap, ◌∙◌, subst, inl, inr, true, false, some, String, List, [], ◌∷◌, ◌==◌, eq_iff,
  eq_refl, arith, Bool-cases, All, All-map,
}
use project_final_1team.Dict
use project_final_1team.Dict.{Dict, get-put, get-delete, get-empty}
use project_final_1team.Decimal.{Decimal}
use project_final_1team.Matching.OrderBook.{
  Side, buy, sell, Order, Element, OrderBook, all_orders, half_for, cancel, cancel_at,
}
use project_final_1team.Matching.OrderBook.Match.{opposite}
use project_final_1team.Matching.OrderBook.Spec.{remove_order, has_order}
use project_final_1team.Matching.OrderBook.Levels.{resting}
use project_final_1team.Matching.OrderBook.Resting.Cancel.{IdAt, resting-cancel_at, All-remove}
use project_final_1team.Matching.OrderBook.Invariant.{
  IsGoodBook, GoodChange, with_side, with_side-IsGoodBook, all_orders-with_side, all_orders-resting,
  held_from, element_of,
}
use project_final_1team.Matching.OrderBook.Orders.{
  IsIndexed, IsIndexed-delete, has_order-remove, IsDistinct-remove,
}

module _ {D : Type 0} ⦃dec : Decimal D⦄ where
  cancel-eq :
      (ob : OrderBook D) (id : String) (e : Element D)
      → Dict.get id ob.elements ≡ some e
      → cancel ob id
        ≡ with_side e.side
            (cancel_at id e.price (half_for e.side ob))
            (Dict.delete id ob.elements)
            ob
  unfolding cancel
  cancel-eq ob id e h = rw (h, cancel)

  pub cancel-unknown :
      (ob : OrderBook D) (id : String) → Dict.has id ob.elements ≡ false → cancel ob id ≡ ob
  unfolding cancel
  cancel-unknown ob id h = ground arith

  indexed-IdAt :
      (id : String) (e : Element D) (elements : Dict (Element D)) (os : List (Order D))
      → Dict.get id elements ≡ some e
      → All (IsIndexed elements) os
      → IdAt id e.price os
  indexed-IdAt id e elements os h =
      All-map _ _
        (λ o k same.
          let k' : Dict.get id elements ≡ some (element_of o) =
            subst (λ t. Dict.get t elements ≡ some (element_of o)) ((eq_iff o.order_id id).0 same)
              k in
          cc)
        os

  -- The side that the index gives is the side of the order.
  pub indexed-side :
      (side : Side) (id : String) (e : Element D) (elements : Dict (Element D))
      (os : List (Order D))
      → Dict.get id elements ≡ some e
      → has_order id os ≡ true
      → All (λ o. o.side ≡ side) os
      → All (IsIndexed elements) os
      → e.side ≡ side
  indexed-side side id e elements [] h k on i = cc
  indexed-side side id e elements (o ∷ os) h k on i = elim (Bool-cases (o.order_id == id)) [
    | inl q ↦ cc (h, i.0, on.0, (eq_iff o.order_id id).0 q)
    | inr q ↦ indexed-side side id e elements os h (rw q at k) on.1 i.1
  ]

  side_of_known :
      (ob : OrderBook D) (id : String) (e : Element D)
      → IsGoodBook ob
      → Dict.get id ob.elements ≡ some e
      → (has_order id (all_orders e.side ob) ≡ true)
        × (has_order id (all_orders (opposite e.side) ob) ≡ false)
  side_of_known ob id e g h = elim (Bool-cases (has_order id (all_orders buy ob))) [
    | inl b ↦
        let s : e.side ≡ buy =
          indexed-side buy id e ob.elements _ h b (g.sides buy).on_side (g.sides buy).indexed in
        rw s (b, only_one s)
    | inr b ↦
        let k : has_order id (all_orders sell ob) ≡ true = ground (arith, g.held id, h) in
        let s : e.side ≡ sell =
          indexed-side sell id e ob.elements _ h k (g.sides sell).on_side (g.sides sell).indexed in
        rw s (k, b)
  ]
    where
      only_one : e.side ≡ buy → has_order id (all_orders sell ob) ≡ false
      only_one s = elim (Bool-cases (has_order id (all_orders sell ob))) [
        | inr k ↦ k
        | inl k ↦ cc (
          s,
          indexed-side sell id e ob.elements _ h k (g.sides sell).on_side (g.sides sell).indexed,
        )
      ]

  cancel-GoodChange :
      (ob : OrderBook D) (id : String) (e : Element D)
      → IsGoodBook ob
      → Dict.get id ob.elements ≡ some e
      → GoodChange e.side
          (cancel_at id e.price (half_for e.side ob))
          (Dict.delete id ob.elements)
          ob
        × (resting (cancel_at id e.price (half_for e.side ob))
            ≡ remove_order id (all_orders e.side ob))
  cancel-GoodChange ob id e g h =
      let known = side_of_known ob id e g h in
      let mine = g.sides e.side in
      let theirs = g.sides (opposite e.side) in
      let at = indexed-IdAt id e ob.elements _ h mine.indexed in
      let done =
        resting-cancel_at e.side (half_for e.side ob) id e.price (g.halves e.side)
          (rw (← all_orders-resting e.side ob) known.0) (rw (← all_orders-resting e.side ob) at) in
      let gone : has_order id (remove_order id (all_orders e.side ob)) ≡ false =
        has_order-remove id id _ mine.distinct ∙ rw (eq_refl id) in
      (
        record {
          half_good = done.0;
          changed =
              rw (done.1, ← all_orders-resting e.side ob)
                (record {
                  on_side = All-remove _ id _ mine.on_side;
                  normal = All-remove _ id _ mine.normal;
                  positive = All-remove _ id _ mine.positive;
                  indexed = IsIndexed-delete ob.elements id _ gone (All-remove _ id _ mine.indexed);
                  distinct = IsDistinct-remove id _ mine.distinct;
                });
          unchanged = record {
            on_side = theirs.on_side;
            normal = theirs.normal;
            positive = theirs.positive;
            indexed = IsIndexed-delete ob.elements id _ known.1 theirs.indexed;
            distinct = theirs.distinct;
          };
          index = λ j.
              rw
                (
                  get-delete,
                  done.1,
                  ← all_orders-resting e.side ob,
                  has_order-remove id j _ mine.distinct,
                )
                (ground (arith, held_from e.side ob g j, known.1, eq_iff id j));
        },
        done.1 ∙ ap (remove_order id) (sym (all_orders-resting e.side ob)),
      )

  -- Cancel of an id that a book with the invariant has in its index keeps the invariant, takes the
  -- first order of that id out of the list of its side and nothing else, and leaves the list of the
  -- other side, which has no order of that id.
  pub cancel-known :
      (ob : OrderBook D) (id : String) (e : Element D)
      → IsGoodBook ob
      → Dict.get id ob.elements ≡ some e
      → IsGoodBook (cancel ob id)
        × (all_orders e.side (cancel ob id) ≡ remove_order id (all_orders e.side ob))
        × (all_orders (opposite e.side) (cancel ob id) ≡ all_orders (opposite e.side) ob)
        × (has_order id (all_orders (opposite e.side) ob) ≡ false)
  cancel-known ob id e g h =
      let done = cancel-GoodChange ob id e g h in
      rw (cancel-eq ob id e h) (
        with_side-IsGoodBook e.side _ _ ob g done.0,
        (all_orders-with_side e.side _ _ ob).0 ∙ done.1,
        (all_orders-with_side e.side _ _ ob).1,
        (side_of_known ob id e g h).1,
      )
