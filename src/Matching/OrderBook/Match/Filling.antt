-- ===== src/Matching/OrderBook/Match/Filling.antt =====
-- The loops on a whole book: they fill the incoming order from the list of the other side.
use project_final_1team.Prelude.{
  ◌≡◌, ◌≢◌, refl, sym, ap, ◌∙◌, subst, inl, inr, true, false, String, List, [], ◌∷◌, ◌||◌, arith,
  Bool-cases, Option-cases, All, length,
}
use project_final_1team.Dict
use project_final_1team.Dict.{Dict}
use project_final_1team.Decimal.{Decimal}
use project_final_1team.Matching.OrderBook.{
  Side, buy, sell, Order, OrderBook, Half, all_orders, half_for,
}
use project_final_1team.Matching.OrderBook.Match.{
  MatchState, opposite, take_from, match_incoming, matched_book,
}
use project_final_1team.Matching.OrderBook.Spec.{Filled, fill_orders, has_order}
use project_final_1team.Matching.OrderBook.Orders.{IsIndexed}
use project_final_1team.Matching.OrderBook.Invariant.{
  IsGoodSide, IsGoodBook, GoodChange, with_side, with_side-IsGoodBook, all_orders-with_side,
  all_orders-resting, held_from, element_of,
}
use project_final_1team.Matching.OrderBook.Invariant.Cancel.{indexed-side}
use project_final_1team.Matching.OrderBook.Match.Pass.{Fills}
use project_final_1team.Matching.OrderBook.Match.Loop.{match_loop-Fills}
use project_final_1team.Matching.OrderBook.Match.Kept.{
  fill_orders-All, fill_orders-IsPositive, fill_orders-ids, fill_orders-Apart,
  fill_orders-IsDistinct, fill_orders-gone, fill_orders-used_up, has-delete_all,
  IsIndexed-delete_all,
}

opposite-opposite : (side : Side) → opposite (opposite side) ≡ side
opposite-opposite buy = refl
opposite-opposite sell = refl

opposite-ne : (side : Side) → opposite side ≢ side
opposite-ne buy e = cc
opposite-ne sell e = cc

module _ {D : Type 0} ⦃dec : Decimal D⦄ where
  -- The filling that the other side of the book gives an incoming order.
  abbrev pub filling : OrderBook D → Order D → Filled D
  filling ob inc = fill_orders ob.market inc (all_orders (opposite inc.side) ob)

  abbrev pub match_start : OrderBook D → Order D → MatchState D
  match_start ob inc = record {
    incoming = inc;
    half = half_for (opposite inc.side) ob;
    elements = ob.elements;
    executions = [];
  }

  -- In a book with the invariant, the two loops of matchIncoming compute what the filling of a
  -- plain list computes: what is left of the incoming order, the orders that stay on the other
  -- side, the executions in their order, and an index without the orders that are used up; the half
  -- that is left keeps its own invariant. The fuel, the numbers of prices and of a level's orders,
  -- is enough for that.
  pub match_incoming-Fills :
      (ob : OrderBook D) (inc : Order D)
      → IsGoodBook ob
      → Fills (opposite inc.side) (filling ob inc) (match_start ob inc) (match_incoming ob inc)
  unfolding match_incoming
  match_incoming-Fills ob inc g = rw (all_orders-resting (opposite inc.side) ob) (
      match_loop-Fills ob.market (opposite inc.side) (length half.prices) inc half.levels
        half.prices ob.elements [] (omega arith) (g.halves (opposite inc.side)))
    where
      half : Half D
      half = half_for (opposite inc.side) ob

  -- An id rests on one side only.
  pub sides_apart :
      (ob : OrderBook D) (side other : Side) (id : String)
      → IsGoodBook ob
      → other ≢ side
      → has_order id (all_orders side ob) ≡ true
      → Dict.has id ob.elements ≡ true
      → has_order id (all_orders other ob) ≡ false
  sides_apart ob side other id g ne h k = elim (Bool-cases (has_order id (all_orders other ob))) [
    | inr e ↦ e
    | inl e ↦ elim (Option-cases (Dict.get id ob.elements)) [
      | inl n ↦ cc (k, n)
      | inr (l, s) ↦ absurd (
          ne (
            sym (
              indexed-side other id l ob.elements _ s e (g.sides other).on_side
                (g.sides other).indexed)
            ∙ indexed-side side id l ob.elements _ s h (g.sides side).on_side
                (g.sides side).indexed))
    ]
  ]

  pub others_apart :
      (ob : OrderBook D) (side other : Side) (xs : List (Order D))
      → IsGoodBook ob
      → other ≢ side
      → All (IsIndexed ob.elements) xs
      → All (λ x. x.side ≡ side) xs
      → All (λ x. has_order x.order_id (all_orders other ob) ≡ false) xs
  others_apart ob side other [] g ne i on = tt
  others_apart ob side other (x ∷ xs) g ne i on = (
    elim (Bool-cases (has_order x.order_id (all_orders other ob))) [
      | inr e ↦ e
      | inl e ↦ absurd (
          ne (
            sym (
              indexed-side other x.order_id (element_of x) ob.elements _ i.0 e
                (g.sides other).on_side (g.sides other).indexed)
            ∙ on.0))
    ],
    others_apart ob side other xs g ne i.1 on.1,
  )

  matched-GoodChange :
      (ob : OrderBook D) (inc : Order D)
      → IsGoodBook ob
      → GoodChange
          (opposite inc.side)
          (match_incoming ob inc).half
          (match_incoming ob inc).elements
          ob
  unfolding take_from
  matched-GoodChange ob inc g = record {
    half_good = s.good;
    changed =
        rw (s.orders, s.elements)
          (record {
            on_side = fill_orders-All _ (λ o fill h. h) ob.market inc mine mine_good.on_side;
            normal = fill_orders-All _ (λ o fill h. h) ob.market inc mine mine_good.normal;
            positive = fill_orders-IsPositive ob.market inc mine mine_good.positive;
            indexed =
                IsIndexed-delete_all f.used_up f.resting ob.elements
                  (fill_orders-gone ob.market inc mine mine_good.distinct)
                  (fill_orders-All _ (λ o fill h. h) ob.market inc mine mine_good.indexed);
            distinct = fill_orders-IsDistinct ob.market inc mine mine_good.distinct;
          });
    unchanged = rw s.elements (record {
      on_side = theirs_good.on_side;
      normal = theirs_good.normal;
      positive = theirs_good.positive;
      indexed =
          IsIndexed-delete_all f.used_up theirs ob.elements
            (fill_orders-used_up _ ob.market inc mine (
              others_apart ob opp (opposite opp) mine g (opposite-ne opp) mine_good.indexed
                mine_good.on_side))
            theirs_good.indexed;
      distinct = theirs_good.distinct;
    });
    index = λ id.
        ap (Dict.has id) s.elements
        ∙ has-delete_all id f.used_up ob.elements
        ∙ sym (
            ap (λ os. has_order id os || has_order id theirs) s.orders
            ∙ sym (
                ground (
                  arith,
                  held_from opp ob g id,
                  fill_orders-ids ob.market id inc mine,
                  fill_orders-Apart ob.market id inc mine mine_good.distinct,
                  sides_apart ob opp (opposite opp) id g (opposite-ne opp),
                )));
  }
    where
      opp : Side
      opp = opposite inc.side

      mine : List (Order D)
      mine = all_orders opp ob

      theirs : List (Order D)
      theirs = all_orders (opposite opp) ob

      mine_good : IsGoodSide opp ob.elements mine
      mine_good = g.sides opp

      theirs_good : IsGoodSide (opposite opp) ob.elements theirs
      theirs_good = g.sides (opposite opp)

      f : Filled D
      f = filling ob inc

      s : Fills opp f (match_start ob inc) (match_incoming ob inc)
      s = match_incoming-Fills ob inc g

  -- The book after the loops.
  pub matched_book-filled :
      (ob : OrderBook D) (inc : Order D)
      → IsGoodBook ob
      → IsGoodBook (matched_book ob inc)
        × (all_orders (opposite inc.side) (matched_book ob inc) ≡ (filling ob inc).resting)
        × (all_orders inc.side (matched_book ob inc) ≡ all_orders inc.side ob)
  unfolding matched_book
  matched_book-filled ob inc g =
      let s = match_incoming ob inc in
      (
        with_side-IsGoodBook (opposite inc.side) s.half s.elements ob g
            (matched-GoodChange ob inc g),
        (all_orders-with_side (opposite inc.side) s.half s.elements ob).0
            ∙ (match_incoming-Fills ob inc g).orders,
        subst
            (λ t.
              all_orders t (with_side (opposite inc.side) s.half s.elements ob) ≡ all_orders t ob)
            (opposite-opposite inc.side)
            (all_orders-with_side (opposite inc.side) s.half s.elements ob).1,
      )
  -- What stays of the incoming order in the list of its own side.
