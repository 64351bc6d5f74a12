-- ===== src/Matching/OrderBook/Priority.antt =====
-- AllOrders lists each side in price-time priority, and the order in which a snapshot saves it is the
-- order in which Restore rebuilds it.
pub mod Rebuild
use project_final_1team.Prelude.{
  ◌≡◌, refl, sym, ap, ◌∙◌, subst, inl, inr, Bool, true, false, String, List, [], ◌∷◌, ◌++◌, ◌==◌,
  eq_iff, ◌||◌, append-nil, append_assoc, arith, Bool-cases, All, All-append, All-map, All-left,
  All-right, if◌then◌else◌,
}
use project_final_1team.Dict
use project_final_1team.Dict.{Dict}
use project_final_1team.Decimal.{Decimal, IsPositive}
use project_final_1team.Matching.OrderBook.{
  Side, buy, sell, Order, OrderBook, PriceLevel, Half, before, new, restore, insert_resting,
  normalize_price, all_orders, half_for, orders_in,
}
use project_final_1team.Matching.OrderBook.Match.{opposite}
use project_final_1team.Matching.OrderBook.Spec.{insert_order, has_order, IsDistinct, IsPrioritized}
use project_final_1team.Matching.OrderBook.Prices.{before_irrefl, before-asymm}
use project_final_1team.Matching.OrderBook.Ladder.{
  IsAt, IsLadder, AllWorse, orders_at-found, orders_in-AllWorse,
}
use project_final_1team.Matching.OrderBook.Levels.{insert_order-behind}
use project_final_1team.Matching.OrderBook.Resting.Cancel.{has_order-append}
use project_final_1team.Matching.OrderBook.Invariant.{
  IsGoodBook, IsGoodSide, IsNormal, normalized, all_orders-resting, held_from, insert_resting-new,
  new-IsGoodBook,
}

module _ {D : Type 0} ⦃dec : Decimal D⦄ where
  IsPrioritized-append :
      (side : Side) (p : D) (os ys : List (Order D))
      → All (IsAt side p) os
      → AllWorse side p ys
      → IsPrioritized side ys
      → IsPrioritized side (os ++ ys)
  IsPrioritized-append side p [] ys at worse h = h
  IsPrioritized-append side p (o ∷ os) ys at worse h = (
    rw at.0.at_price (
        All-append _ os ys (All-map _ _ (λ x k. rw k.at_price (before_irrefl side p)) os at.1)
          (All-map _ _ (λ y k. before-asymm side p y.price k) ys worse)),
    IsPrioritized-append side p os ys at.1 worse h,
  )

  ladder-IsPrioritized :
      (side : Side) (levels : Dict (PriceLevel D)) (ps : List D)
      → IsLadder side levels ps
      → IsPrioritized side (orders_in levels ps)
  unfolding orders_in
  ladder-IsPrioritized side levels [] g = tt
  ladder-IsPrioritized side levels (p ∷ ps) g = rw (orders_at-found p levels g.1.level g.1.found) (
      IsPrioritized-append side p g.1.level.orders (orders_in levels ps) g.1.valid
        (orders_in-AllWorse side p levels ps g.0 g.2) (ladder-IsPrioritized side levels ps g.2))

  -- In a book with the invariant no order of AllOrders stands in front of one with a better price.
  pub all_orders-IsPrioritized :
      (side : Side) (ob : OrderBook D) → IsGoodBook ob → IsPrioritized side (all_orders side ob)
  all_orders-IsPrioritized side ob g =
      rw (all_orders-resting side ob) (ladder-IsPrioritized side _ _ (g.halves side).ladder)

  -- The loops of Recover: Restore for each order of a list.
  unfoldable pub restore_all : OrderBook D → List (Order D) → OrderBook D
  restore_all ob [] = ob
  restore_all ob (o ∷ os) = restore_all (restore ob o) os

  prioritized_split :
      (side : Side) (ys : List (Order D)) (x : Order D) (xs : List (Order D))
      → IsPrioritized side (ys ++ x ∷ xs)
      → All (λ y. before side x.price y.price ≡ false) ys
  prioritized_split side [] x xs h = tt
  prioritized_split side (y ∷ ys) x xs h =
      ((All-right _ ys (x ∷ xs) h.0).0, prioritized_split side ys x xs h.1)

  normalized-eq : (o : Order D) → IsNormal o → normalized o ≡ o
  unfolding normalized
  normalized-eq o n = ap (λ p. record o { price = p }) n

  pub record Restorable (side : Side) (ob : OrderBook D) (xs : List (Order D)) : Type 0 where
    pub on_side : All (λ o. o.side ≡ side) xs
    pub normal : All IsNormal xs
    pub positive : All (λ o. IsPositive o.quantity) xs
    pub distinct : IsDistinct xs
    pub fresh : All (λ o. Dict.has o.order_id ob.elements ≡ false) xs
    pub prioritized : IsPrioritized side (all_orders side ob ++ xs)

  pub record Restored (side : Side) (ob ob' : OrderBook D) (xs : List (Order D)) : Type 0 where
    pub good : IsGoodBook ob'
    pub own : all_orders side ob' ≡ all_orders side ob ++ xs
    pub others : all_orders (opposite side) ob' ≡ all_orders (opposite side) ob

  restore-one :
      (side : Side) (ob : OrderBook D) (x : Order D) (xs : List (Order D))
      → IsGoodBook ob
      → Restorable side ob (x ∷ xs)
      → Restored side ob (restore ob x) (x ∷ [])
  unfolding restore
  restore-one side ob x xs g r =
      let n = insert_resting-new ob x g r.positive.0 r.fresh.0 in
      record {
        good = n.0;
        own =
            subst
              (λ t.
                all_orders t (insert_resting ob x)
                ≡ insert_order t (normalized x) (all_orders t ob))
              r.on_side.0 n.1
            ∙ ap (λ o. insert_order side o (all_orders side ob)) (normalized-eq x r.normal.0)
            ∙ ap (insert_order side x) (sym (append-nil (all_orders side ob)))
            ∙ insert_order-behind side x (all_orders side ob) []
                (prioritized_split side (all_orders side ob) x xs r.prioritized);
        others =
            subst (λ t. all_orders (opposite t) (insert_resting ob x) ≡ all_orders (opposite t) ob)
              r.on_side.0 n.2;
      }

  still_fresh :
      (side : Side) (ob ob' : OrderBook D) (x : Order D) (xs : List (Order D))
      → IsGoodBook ob
      → Restored side ob ob' (x ∷ [])
      → has_order x.order_id xs ≡ false
      → All (λ o. Dict.has o.order_id ob.elements ≡ false) xs
      → All (λ o. Dict.has o.order_id ob'.elements ≡ false) xs
  still_fresh side ob ob' x [] g r n h = tt
  still_fresh side ob ob' x (y ∷ ys) g r n h = (
    ground (
      arith,
      held_from side ob g y.order_id,
      held_from side ob' r.good y.order_id,
      ap (has_order y.order_id) r.own,
      ap (has_order y.order_id) r.others,
      has_order-append y.order_id (all_orders side ob) (x ∷ []),
      eq_iff x.order_id y.order_id,
      eq_iff y.order_id x.order_id,
      n,
      h.0,
    ),
    still_fresh side ob ob' x ys g r (ground arith) h.1,
  )

  pub restore_all-Restored :
      (side : Side) (ob : OrderBook D) (xs : List (Order D))
      → IsGoodBook ob
      → Restorable side ob xs
      → Restored side ob (restore_all ob xs) xs
  unfolding restore_all
  restore_all-Restored side ob [] g r = record { good = g; own = sym (append-nil _); others = refl }
  restore_all-Restored side ob (x ∷ xs) g r =
      let one = restore-one side ob x xs g r in
      let rest = restore_all-Restored side (restore ob x) xs one.good (record {
        on_side = r.on_side.1;
        normal = r.normal.1;
        positive = r.positive.1;
        distinct = r.distinct.1;
        fresh = still_fresh side ob (restore ob x) x xs g one r.distinct.0 r.fresh.1;
        prioritized = rw one.own (rw (append_assoc (all_orders side ob) (x ∷ []) xs) r.prioritized);
      }) in
      record {
        good = rest.good;
        own =
            rest.own ∙ ap (λ os. os ++ xs) one.own ∙ append_assoc (all_orders side ob) (x ∷ []) xs;
        others = rest.others ∙ one.others;
      }
