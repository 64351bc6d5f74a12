-- ===== src/Matching/OrderBook/Match/Refine.antt =====
-- Apply on a whole book: the loops fill the incoming order from the list of the other side, what is
-- left of it rests on its own side, and the invariant is kept.
use project_final_1team.Prelude.{
  ◌≡◌, sym, ap, ap₂, ◌∙◌, subst, inl, inr, true, false, List, [], arith, Bool-cases, if◌then◌else◌,
}
use project_final_1team.Dict
use project_final_1team.Dict.{Dict}
use project_final_1team.Decimal.{Decimal}
use project_final_1team.Matching.OrderBook.{
  Order, Execution, OrderBook, all_orders, normalize_price, insert_resting,
}
use project_final_1team.Matching.OrderBook.Match.{
  opposite, wants_more, match_incoming, matched_book, apply,
}
use project_final_1team.Matching.OrderBook.Spec.{Filled, insert_order}
use project_final_1team.Matching.OrderBook.Invariant.{IsGoodBook, normalized, insert_resting-new}
use project_final_1team.Matching.OrderBook.Match.Pass.{Fills}
use project_final_1team.Matching.OrderBook.Match.Kept.{
  SameOrder, fill_orders-SameOrder, has-delete_all,
}
use project_final_1team.Matching.OrderBook.Match.Filling.{
  filling, match_start, match_incoming-Fills, matched_book-filled,
}

module _ {D : Type 0} ⦃dec : Decimal D⦄ where
  abbrev pub rest_order : Filled D → List (Order D) → List (Order D)
  rest_order f os = if wants_more f.incoming then insert_order f.incoming.side f.incoming os else os

  matched-new :
      (ob : OrderBook D) (inc : Order D)
      → IsGoodBook ob
      → Dict.has inc.order_id ob.elements ≡ false
      → Dict.has (filling ob inc).incoming.order_id (matched_book ob inc).elements ≡ false
  unfolding matched_book
  matched-new ob inc g new =
      ap (λ id. Dict.has id (match_incoming ob inc).elements)
        (fill_orders-SameOrder ob.market inc (all_orders (opposite inc.side) ob)).order_id
      ∙ ap (Dict.has inc.order_id) (match_incoming-Fills ob inc g).elements
      ∙ has-delete_all inc.order_id (filling ob inc).used_up ob.elements
      ∙ ground (arith, new)

  -- Apply in full: the executions, both lists of orders and the invariant.
  pub record Applied (ob : OrderBook D) (order : Order D) (r : OrderBook D × List (Execution D))
      : Type 0 where
    pub good : IsGoodBook r.0
    pub executions : r.1 ≡ (filling ob (normalized order)).executions
    pub opposite_orders :
        all_orders (opposite order.side) r.0 ≡ (filling ob (normalized order)).resting
    pub own_orders :
        all_orders order.side r.0
        ≡ rest_order (filling ob (normalized order)) (all_orders order.side ob)

  apply-eq :
      (ob : OrderBook D) (order : Order D)
      → Dict.has order.order_id ob.elements ≡ false
      → apply ob order ≡ (
          let inc = normalized order in
          let s = match_incoming ob inc in
          let book = matched_book ob inc in
          (if wants_more s.incoming then insert_resting book s.incoming else book, s.executions))
  unfolding apply normalized
  apply-eq ob order new = rw new

  module _ (ob : OrderBook D) (order : Order D) (g : IsGoodBook ob)
      (new : Dict.has order.order_id ob.elements ≡ false) where
    abbrev inc : Order D
    inc = normalized order

    abbrev book : OrderBook D
    book = matched_book ob inc

    abbrev left : Order D
    left = (filling ob inc).incoming

    same : SameOrder inc left
    same = fill_orders-SameOrder ob.market inc (all_orders (opposite inc.side) ob)

    loop : Fills (opposite inc.side) (filling ob inc) (match_start ob inc) (match_incoming ob inc)
    loop = match_incoming-Fills ob inc g

    normalized-left : normalized left ≡ left
    unfolding normalized normalize_price
    normalized-left =
        ap (λ p. record left { price = p })
          (ap normalize_price same.price ∙ dec.truncate_idem 8 order.price ∙ sym same.price)

    apply-more : wants_more left ≡ true → Applied ob order (apply ob order)
    unfolding normalized
    apply-more w =
        let start = matched_book-filled ob inc g in
        let more : wants_more (match_incoming ob inc).incoming ≡ true =
          ap wants_more loop.incoming ∙ w in
        let result : apply ob order
            ≡ (insert_resting book left, (match_incoming ob inc).executions) =
          apply-eq ob order new
          ∙ rw more (
              ap (λ i. (insert_resting book i, (match_incoming ob inc).executions))
                loop.incoming) in
        let rested = insert_resting-new book left start.0 w (matched-new ob inc g new) in
        subst (Applied ob order) (sym result) (record {
          good = rested.0;
          executions = loop.executions;
          opposite_orders =
              subst
                (λ t.
                  all_orders (opposite t) (insert_resting book left) ≡ all_orders (opposite t) book)
                same.side rested.2
              ∙ start.1;
          own_orders = rw w (
              subst
                (λ t.
                  all_orders t (insert_resting book left)
                  ≡ insert_order left.side (normalized left) (all_orders t book))
                same.side rested.1
              ∙ ap₂ (insert_order left.side) normalized-left start.2);
        })

    apply-filled : wants_more left ≡ false → Applied ob order (apply ob order)
    unfolding normalized
    apply-filled w =
        let start = matched_book-filled ob inc g in
        let no_more : wants_more (match_incoming ob inc).incoming ≡ false =
          ap wants_more loop.incoming ∙ w in
        let result : apply ob order ≡ (book, (match_incoming ob inc).executions) =
          apply-eq ob order new ∙ rw no_more in
        subst (Applied ob order) (sym result) (record {
          good = start.0;
          executions = loop.executions;
          opposite_orders = start.1;
          own_orders = rw w start.2;
        })

  pub apply-known :
      (ob : OrderBook D) (order : Order D)
      → Dict.has order.order_id ob.elements ≡ true
      → apply ob order ≡ (ob, [])
  unfolding apply
  apply-known ob order known = rw known

  -- In a book with the invariant, Apply of an order whose id is not in the book keeps the
  -- invariant, its executions are those of the filling that runs through the other side's list of
  -- orders, the filling's remaining orders are the other side's list after it, and the order rests
  -- behind every order of its own side whose price is not worse if and only if it wants more.
  pub apply-Applied :
      (ob : OrderBook D) (order : Order D)
      → IsGoodBook ob
      → Dict.has order.order_id ob.elements ≡ false
      → Applied ob order (apply ob order)
  apply-Applied ob order g new =
      elim (Bool-cases (wants_more (filling ob (normalized order)).incoming)) [
        | inl w ↦ apply-more ob order g new w
        | inr w ↦ apply-filled ob order g new w
      ]
