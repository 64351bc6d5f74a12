-- ===== src/Matching/OrderBook/Priority/Rebuild.antt =====
-- The lists of a snapshot, restored into an empty book, give the lists of the book that was saved.
use project_final_1team.Prelude.{
  ◌≡◌, refl, ap, ◌∙◌, ap₂, false, String, List, [], ◌∷◌, ◌++◌, ◌||◌, arith, All, is_some,
}
use project_final_1team.Dict
use project_final_1team.Dict.{get-empty}
use project_final_1team.Decimal.{Decimal}
use project_final_1team.Matching.OrderBook.{Side, buy, sell, Order, OrderBook, new, all_orders}
use project_final_1team.Matching.OrderBook.Spec.{has_order}
use project_final_1team.Matching.OrderBook.Match.Filling.{others_apart}
use project_final_1team.Matching.OrderBook.Invariant.{IsGoodBook, held_from, new-IsGoodBook}
use project_final_1team.Matching.OrderBook.Priority.{
  all_orders-IsPrioritized, restore_all, Restored, restore_all-Restored,
}

module _ {D : Type 0} ⦃dec : Decimal D⦄ where
  -- Recover's two loops, the bids first.
  abbrev pub rebuilt : String → List (Order D) → List (Order D) → OrderBook D
  rebuilt market bids asks = restore_all (restore_all (new market) bids) asks

  pub record Rebuilt (ob ob' : OrderBook D) : Type 0 where
    pub good : IsGoodBook ob'
    pub same : (side : Side) → all_orders side ob' ≡ all_orders side ob

  all_orders-new : (side : Side) (market : String) → all_orders side (new {D = D} market) ≡ []
  unfolding new all_orders
  all_orders-new buy market = refl
  all_orders-new sell market = refl

  fresh_in_new :
      (market : String) (xs : List (Order D))
      → All (λ o. Dict.has o.order_id (new {D = D} market).elements ≡ false) xs
  unfolding new
  fresh_in_new market [] = tt
  fresh_in_new market (x ∷ xs) = (ap is_some (get-empty x.order_id), fresh_in_new market xs)

  -- An id that is no bid is free once the bids are restored.
  fresh_after :
      (market : String) (b : OrderBook D) (bids xs : List (Order D))
      → Restored buy (new market) b bids
      → All (λ o. has_order o.order_id bids ≡ false) xs
      → All (λ o. Dict.has o.order_id b.elements ≡ false) xs
  fresh_after market b bids [] r h = tt
  fresh_after market b bids (x ∷ xs) r h = (
    held_from buy b r.good x.order_id
        ∙ ap₂ (λ os ps. has_order x.order_id os || has_order x.order_id ps)
            (r.own ∙ ap (λ os. os ++ bids) (all_orders-new buy market))
            (r.others ∙ all_orders-new sell market)
        ∙ ground (arith, h.0),
    fresh_after market b bids xs r h.1,
  )

  -- Restoring the two lists of orders of a book with the invariant into an empty book, the bids
  -- first, gives a book with the invariant and the same two lists.
  pub rebuilt-Rebuilt :
      (market : String) (ob : OrderBook D)
      → IsGoodBook ob
      → Rebuilt ob (rebuilt market (all_orders buy ob) (all_orders sell ob))
  rebuilt-Rebuilt market ob g = record {
    good = two.good;
    same = elim [
      | buy ↦ two.others ∙ own_bids
      | sell ↦ two.own ∙ ap (λ os. os ++ asks) (one.others ∙ all_orders-new sell market)
    ];
  }
    where
      bids : List (Order D)
      bids = all_orders buy ob

      asks : List (Order D)
      asks = all_orders sell ob

      one : Restored buy (new market) (restore_all (new market) bids) bids
      one = restore_all-Restored buy (new market) bids (new-IsGoodBook market) (record {
        on_side = (g.sides buy).on_side;
        normal = (g.sides buy).normal;
        positive = (g.sides buy).positive;
        distinct = (g.sides buy).distinct;
        fresh = fresh_in_new market bids;
        prioritized = rw (all_orders-new buy market) (all_orders-IsPrioritized buy ob g);
      })

      own_bids : all_orders buy (restore_all (new market) bids) ≡ bids
      own_bids = one.own ∙ ap (λ os. os ++ bids) (all_orders-new buy market)

      two : Restored sell (restore_all (new market) bids) (rebuilt market bids asks) asks
      two = restore_all-Restored sell (restore_all (new market) bids) asks one.good (record {
        on_side = (g.sides sell).on_side;
        normal = (g.sides sell).normal;
        positive = (g.sides sell).positive;
        distinct = (g.sides sell).distinct;
        fresh = fresh_after market _ bids asks one (
            others_apart ob sell buy asks g (λ e. cc) (g.sides sell).indexed
              (g.sides sell).on_side);
        prioritized =
            rw (one.others, all_orders-new sell market) (all_orders-IsPrioritized sell ob g);
      })
