-- ===== src/Matching/OrderBook/Match/Uncrossed.antt =====
-- After Apply no bid meets an ask: the book stays uncrossed.
use project_final_1team.Prelude.{
  ◌≡◌, refl, sym, subst, subst₂, inl, inr, true, false, String, List, [], ◌∷◌, arith, Bool-cases,
  All, All-map,
}
use project_final_1team.Dict
use project_final_1team.Decimal.{Decimal}
use project_final_1team.Decimal.Laws.{le_lt_trans, lt_le_trans}
use project_final_1team.Matching.OrderBook.{Side, buy, sell, Order, OrderBook, before, all_orders}
use project_final_1team.Matching.OrderBook.Match.{
  opposite, meets, crosses, wants_more, fill_quantity, take_from, apply,
}
use project_final_1team.Matching.OrderBook.Spec.{fill_orders, insert_order, IsPrioritized}
use project_final_1team.Matching.OrderBook.Orders.{All-insert}
use project_final_1team.Matching.OrderBook.Invariant.{IsGoodBook, normalized}
use project_final_1team.Matching.OrderBook.Priority.{all_orders-IsPrioritized}
use project_final_1team.Matching.OrderBook.Match.Fill.{one_used_up}
use project_final_1team.Matching.OrderBook.Match.Append.{fill_orders-cases}
use project_final_1team.Matching.OrderBook.Match.Kept.{fill_orders-SameOrder, fill_orders-All}
use project_final_1team.Matching.OrderBook.Match.Refine.{
  rest_order, Applied, apply-Applied, apply-known,
}

module _ {D : Type 0} ⦃dec : Decimal D⦄ where
  -- Every bid is below every ask.
  abbrev pub AllBelow : List (Order D) → List (Order D) → Type 0
  AllBelow bids asks =
      All (λ (b : Order D). All (λ (a : Order D). dec.less_than b.price a.price ≡ true) asks) bids

  abbrev pub IsUncrossed : OrderBook D → Type 0
  IsUncrossed ob = AllBelow (all_orders buy ob) (all_orders sell ob)

  -- What does not meet a price does not meet a worse one.
  meets-worse :
      (side : Side) (limit p q : D)
      → meets side limit p ≡ false
      → before (opposite side) q p ≡ false
      → meets side limit q ≡ false
  meets-worse buy limit p q h k = rw (lt_le_trans limit p q (ground (arith, h)) k)
  meets-worse sell limit p q h k = rw (le_lt_trans q p limit k (ground (arith, h)))

  none_meets :
      (side : Side) (limit p : D) (ys : List (Order D))
      → meets side limit p ≡ false
      → All (λ y. before (opposite side) y.price p ≡ false) ys
      → All (λ y. meets side limit y.price ≡ false) ys
  none_meets side limit p ys h = All-map _ _ (λ y k. meets-worse side limit p y.price h k) ys

  -- If the incoming order wants more, it meets nothing that is left.
  pub fill_orders-done_by_price :
      (market : String) (inc : Order D) (xs : List (Order D))
      → IsPrioritized (opposite inc.side) xs
      → wants_more (fill_orders market inc xs).incoming ≡ true
      → All (λ x. crosses inc x.price ≡ false) (fill_orders market inc xs).resting
  fill_orders-done_by_price market inc [] h w = unfold fill_orders in tt
  fill_orders-done_by_price market inc (x ∷ xs) h w =
      fill_orders-cases
        (λ f. wants_more f.incoming ≡ true → All (λ x. crosses inc x.price ≡ false) f.resting)
        market inc x xs (λ n k. cc) (λ c k. (c, none_meets inc.side inc.price x.price xs c h.0))
        (λ _ _ _ k. by_take_from inc (fill_quantity inc x) _ (
          fill_orders-done_by_price market (take_from inc (fill_quantity inc x)) xs
            (unfold take_from in h.1) k))
        (λ _ _ z k. cc (one_used_up inc x z)) w
    where
      by_take_from :
          (inc : Order D) (fill : D) (os : List (Order D))
          → All (λ x. crosses (take_from inc fill) x.price ≡ false) os
          → All (λ x. crosses inc x.price ≡ false) os
      by_take_from inc fill os k = unfold take_from in k

  All-swap {ℓ} :
      (R : Order D → Order D → Type ℓ) (xs ys : List (Order D))
      → All (λ x. All (λ y. R x y) ys) xs
      → All (λ y. All (λ x. R x y) xs) ys
  All-swap R xs [] h = tt
  All-swap R xs (y ∷ ys) h =
      (All-map _ _ (λ x k. k.0) xs h, All-swap R xs ys (All-map _ _ (λ x k. k.1) xs h))

  fill-AllBelow :
      (market : String) (inc : Order D) (bids xs : List (Order D))
      → AllBelow bids xs
      → AllBelow bids (fill_orders market inc xs).resting
  unfolding take_from
  fill-AllBelow market inc bids xs =
      All-map _ _
        (λ b.
          fill_orders-All (λ a. dec.less_than b.price a.price ≡ true) (λ o fill h. h) market inc xs)
        bids

  fill-AllAbove :
      (market : String) (inc : Order D) (xs asks : List (Order D))
      → AllBelow xs asks
      → AllBelow (fill_orders market inc xs).resting asks
  unfolding take_from
  fill-AllAbove market inc xs asks =
      fill_orders-All (λ b. All (λ a. dec.less_than b.price a.price ≡ true) asks) (λ o fill h. h)
        market inc xs

  not_met_buy :
      (inc left : Order D) (a : Order D)
      → inc.side ≡ buy
      → left.price ≡ inc.price
      → crosses inc a.price ≡ false
      → dec.less_than left.price a.price ≡ true
  not_met_buy inc left a s e c =
      rw e (ground (arith, subst (λ t. meets t inc.price a.price ≡ false) s c))

  not_met_sell :
      (inc left : Order D) (b : Order D)
      → inc.side ≡ sell
      → left.price ≡ inc.price
      → crosses inc b.price ≡ false
      → dec.less_than b.price left.price ≡ true
  not_met_sell inc left b s e c =
      rw e (ground (arith, subst (λ t. meets t inc.price b.price ≡ false) s c))

  applied_buy :
      (market : String) (inc : Order D) (bids asks : List (Order D))
      → inc.side ≡ buy
      → IsPrioritized sell asks
      → AllBelow bids asks
      → let f = fill_orders market inc asks in AllBelow (rest_order f bids) f.resting
  applied_buy market inc bids asks s pri h = elim (Bool-cases (wants_more left)) [
    | inr w ↦ rw w (fill-AllBelow market inc bids asks h)
    | inl w ↦ rw w (
        All-insert _ left.side left bids
          (All-map _ _ (λ a. not_met_buy inc left a s (fill_orders-SameOrder market inc asks).price)
            _
            (fill_orders-done_by_price market inc asks
              (subst (λ t. IsPrioritized (opposite t) asks) (sym s) pri) w))
          (fill-AllBelow market inc bids asks h))
  ]
    where
      left : Order D
      left = (fill_orders market inc asks).incoming

  applied_sell :
      (market : String) (inc : Order D) (bids asks : List (Order D))
      → inc.side ≡ sell
      → IsPrioritized buy bids
      → AllBelow bids asks
      → let f = fill_orders market inc bids in AllBelow f.resting (rest_order f asks)
  applied_sell market inc bids asks s pri h = elim (Bool-cases (wants_more left)) [
    | inr w ↦ rw w (fill-AllAbove market inc bids asks h)
    | inl w ↦ rw w (
        All-swap _ (insert_order left.side left asks) _ (
          All-insert _ left.side left asks
            (All-map _ _
              (λ b. not_met_sell inc left b s (fill_orders-SameOrder market inc bids).price) _
              (fill_orders-done_by_price market inc bids
                (subst (λ t. IsPrioritized (opposite t) bids) (sym s) pri) w))
            (All-swap _ _ asks (fill-AllAbove market inc bids asks h))))
  ]
    where
      left : Order D
      left = (fill_orders market inc bids).incoming

  Applied-IsUncrossed :
      (side : Side) (ob : OrderBook D) (order : Order D)
      → side ≡ order.side
      → IsGoodBook ob
      → IsUncrossed ob
      → Applied ob order (apply ob order)
      → IsUncrossed (apply ob order).0
  unfolding normalized
  Applied-IsUncrossed buy ob order s g u a = subst₂ AllBelow (sym own) (sym other) (
      applied_buy ob.market (normalized order) (all_orders buy ob) (all_orders sell ob) (sym s)
        (all_orders-IsPrioritized sell ob g) u)
    where
      other :
          all_orders sell (apply ob order).0
          ≡ (fill_orders ob.market (normalized order) (all_orders sell ob)).resting
      other =
          subst
            (λ t.
              all_orders (opposite t) (apply ob order).0
              ≡ (fill_orders ob.market (normalized order) (all_orders (opposite t) ob)).resting)
            (sym s) a.opposite_orders

      own :
          all_orders buy (apply ob order).0
          ≡ rest_order
              (fill_orders ob.market (normalized order) (all_orders sell ob))
              (all_orders buy ob)
      own =
          subst
            (λ t.
              all_orders t (apply ob order).0
              ≡ rest_order (fill_orders ob.market (normalized order) (all_orders (opposite t) ob))
                  (all_orders t ob))
            (sym s) a.own_orders
  Applied-IsUncrossed sell ob order s g u a = subst₂ AllBelow (sym other) (sym own) (
      applied_sell ob.market (normalized order) (all_orders buy ob) (all_orders sell ob) (sym s)
        (all_orders-IsPrioritized buy ob g) u)
    where
      other :
          all_orders buy (apply ob order).0
          ≡ (fill_orders ob.market (normalized order) (all_orders buy ob)).resting
      other =
          subst
            (λ t.
              all_orders (opposite t) (apply ob order).0
              ≡ (fill_orders ob.market (normalized order) (all_orders (opposite t) ob)).resting)
            (sym s) a.opposite_orders

      own :
          all_orders sell (apply ob order).0
          ≡ rest_order
              (fill_orders ob.market (normalized order) (all_orders buy ob))
              (all_orders sell ob)
      own =
          subst
            (λ t.
              all_orders t (apply ob order).0
              ≡ rest_order (fill_orders ob.market (normalized order) (all_orders (opposite t) ob))
                  (all_orders t ob))
            (sym s) a.own_orders

  -- Apply keeps the book's invariant and leaves no bid that reaches an ask, whether or not the
  -- order's id is new to the book, if no bid reached an ask before.
  pub apply-IsUncrossed :
      (ob : OrderBook D) (order : Order D)
      → IsGoodBook ob
      → IsUncrossed ob
      → IsGoodBook (apply ob order).0 × IsUncrossed (apply ob order).0
  apply-IsUncrossed ob order g u = elim (Bool-cases (Dict.has order.order_id ob.elements)) [
    | inl k ↦ rw (apply-known ob order k) (g, u)
    | inr n ↦
        let a = apply-Applied ob order g n in
        (a.good, Applied-IsUncrossed order.side ob order refl g u a)
  ]
