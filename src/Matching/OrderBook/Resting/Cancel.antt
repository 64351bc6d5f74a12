-- ===== src/Matching/OrderBook/Resting/Cancel.antt =====
-- Taking one order out of a side, through the price that the book's index holds for it.
use project_final_1team.Prelude.{
  ◌≡◌, refl, sym, ap, subst, ◌∙◌, inl, inr, true, false, some, String, List, [], ◌∷◌, ◌++◌, ◌==◌,
  ◌||◌, arith, Bool-cases, Option-cases, All, All-append, All-map, All-left, All-right,
}
use project_final_1team.Dict
use project_final_1team.Dict.{Dict}
use project_final_1team.Decimal.{Decimal}
use project_final_1team.Decimal.Laws.{equal_self}
use project_final_1team.Matching.OrderBook.{
  Side, Order, PriceLevel, Half, orders_in, cancel_at, remove_node,
}
use project_final_1team.Matching.OrderBook.Spec.{remove_order, has_order}
use project_final_1team.Matching.OrderBook.Prices.{before_irrefl, has_price}
use project_final_1team.Matching.OrderBook.Ladder.{
  IsLadder, IsGoodHalf, AllBetter, AllWorse, Split, orders_at-found,
}
use project_final_1team.Matching.OrderBook.Levels.{resting, level-HasLevel}
use project_final_1team.Matching.OrderBook.Resting.{with_orders, resting-with_orders, split_of}

module _ {D : Type 0} where
  pub has_order-append :
      (id : String) (xs ys : List (Order D))
      → has_order id (xs ++ ys) ≡ (has_order id xs || has_order id ys)
  has_order-append id [] ys = refl
  has_order-append id (x ∷ xs) ys = ground (arith, has_order-append id xs ys)

  remove_order-behind :
      (id : String) (xs ys : List (Order D))
      → has_order id xs ≡ false
      → remove_order id (xs ++ ys) ≡ xs ++ remove_order id ys
  remove_order-behind id [] ys h = refl
  remove_order-behind id (x ∷ xs) ys h = ground (arith, remove_order-behind id xs ys)

  remove_order-within :
      (id : String) (xs ys : List (Order D))
      → has_order id xs ≡ true
      → remove_order id (xs ++ ys) ≡ remove_order id xs ++ ys
  remove_order-within id [] ys h = cc
  remove_order-within id (x ∷ xs) ys h = ground (arith, remove_order-within id xs ys)

  remove_node-eq : (id : String) (os : List (Order D)) → remove_node id os ≡ remove_order id os
  unfolding remove_node
  remove_node-eq id [] = refl
  remove_node-eq id (o ∷ os) = rw (remove_node-eq id os)

  pub All-remove :
      (P : Order D → Type 0) (id : String) (os : List (Order D))
      → All P os
      → All P (remove_order id os)
  All-remove P id [] h = tt
  All-remove P id (o ∷ os) h = elim (Bool-cases (o.order_id == id)) [
    | inl e ↦ rw e h.1
    | inr e ↦ rw e (h.0, All-remove P id os h.1)
  ]

module _ {D : Type 0} ⦃dec : Decimal D⦄ where
  -- Whatever has this id has this price.
  abbrev pub IdAt : String → D → List (Order D) → Type 0
  IdAt id p os = All (λ o. (o.order_id == id) ≡ true → o.price ≡ p) os

  absent_better :
      (side : Side) (id : String) (p : D) (os : List (Order D))
      → AllBetter side p os
      → IdAt id p os
      → has_order id os ≡ false
  absent_better side id p [] h k = refl
  absent_better side id p (o ∷ os) h k = elim (Bool-cases (o.order_id == id)) [
    | inl e ↦ cc (h.0, k.0 e, before_irrefl side p)
    | inr e ↦ rw e (absent_better side id p os h.1 k.1)
  ]

  absent_worse :
      (side : Side) (id : String) (p : D) (os : List (Order D))
      → AllWorse side p os
      → IdAt id p os
      → has_order id os ≡ false
  absent_worse side id p [] h k = refl
  absent_worse side id p (o ∷ os) h k = elim (Bool-cases (o.order_id == id)) [
    | inl e ↦ cc (h.0, k.0 e, before_irrefl side p)
    | inr e ↦ rw e (absent_worse side id p os h.1 k.1)
  ]

  -- A listed price of an order in the side.
  ladder-lists :
      (side : Side) (levels : Dict (PriceLevel D)) (ps : List D)
      → IsLadder side levels ps
      → All (λ o. has_price o.price ps ≡ true) (orders_in levels ps)
  unfolding orders_in
  ladder-lists side levels [] g = tt
  ladder-lists side levels (p ∷ ps) g = rw (orders_at-found p levels g.1.level g.1.found) (
      All-append _ g.1.level.orders (orders_in levels ps)
        (All-map _ _
          (λ o h. subst (λ t. has_price t (p ∷ ps) ≡ true) (sym h.at_price) (rw (equal_self p)))
          g.1.level.orders g.1.valid)
        (All-map _ _
          (λ o h. elim (Bool-cases (dec.equal p o.price)) [ inl e ↦ rw e | inr e ↦ rw (e, h) ])
          (orders_in levels ps) (ladder-lists side levels ps g.2)))

  held :
      (id : String) (p : D) (Q : D → Type 0) (os : List (Order D))
      → has_order id os ≡ true
      → IdAt id p os
      → All (λ o. Q o.price) os
      → Q p
  held id p Q [] h k q = cc
  held id p Q (o ∷ os) h k q = elim (Bool-cases (o.order_id == id)) [
    | inl e ↦ subst Q (k.0 e) q.0
    | inr e ↦ held id p Q os (rw e at h) k.1 q.1
  ]

  cancel_at-level :
      (side : Side) (half : Half D) (id : String) (p : D) (l : PriceLevel D)
      → IsGoodHalf side half
      → has_order id (resting half) ≡ true
      → IdAt id p (resting half)
      → Dict.get (dec.to_string p) half.levels ≡ some l
      → IsGoodHalf side (cancel_at id p half)
        × (resting (cancel_at id p half) ≡ remove_order id (resting half))
  unfolding cancel_at orders_in
  cancel_at-level side half id p l g known at e =
      rw (e, cancel_at) (rw (remove_node-eq id l.orders) (done.0, done.1 ∙ sym target))
    where
      s : Split side half.levels half.prices p l
      s = split_of side half p l g e

      at' : IdAt id p (s.front ++ (l.orders ++ s.back))
      at' = subst (IdAt id p) s.was at

      front_absent : has_order id s.front ≡ false
      front_absent = absent_better side id p s.front s.better (All-left _ s.front _ at')

      back_absent : has_order id s.back ≡ false
      back_absent =
          absent_worse side id p s.back s.worse
            (All-right _ l.orders s.back (All-right _ s.front _ at'))

      within : has_order id l.orders ≡ true
      within = ground (
        arith,
        ap (has_order id) s.was,
        known,
        front_absent,
        back_absent,
        has_order-append id s.front (l.orders ++ s.back),
        has_order-append id l.orders s.back,
      )

      target : remove_order id (resting half) ≡ s.front ++ (remove_order id l.orders ++ s.back)
      target =
          ap (remove_order id) s.was
          ∙ remove_order-behind id s.front (l.orders ++ s.back) front_absent
          ∙ ap (◌++◌ s.front) (remove_order-within id l.orders s.back within)

      done :
          IsGoodHalf side (with_orders p l (remove_order id l.orders) half)
          × (resting (with_orders p l (remove_order id l.orders) half)
              ≡ s.front ++ (remove_order id l.orders ++ s.back))
      done =
          resting-with_orders side half p l (remove_order id l.orders) g e
            (All-remove _ id l.orders (level-HasLevel side half p l g e).2) s

  -- Cancelling takes out the order with that id, and nothing else.
  pub resting-cancel_at :
      (side : Side) (half : Half D) (id : String) (p : D)
      → IsGoodHalf side half
      → has_order id (resting half) ≡ true
      → IdAt id p (resting half)
      → IsGoodHalf side (cancel_at id p half)
        × (resting (cancel_at id p half) ≡ remove_order id (resting half))
  resting-cancel_at side half id p g known at =
      elim (Option-cases (Dict.get (dec.to_string p) half.levels)) [
        | inl e ↦ cc (
          g.listed p,
          held id p (λ q. has_price q half.prices ≡ true) (resting half) known at
              (ladder-lists side half.levels half.prices g.ladder),
        )
        | inr (l, e) ↦ cancel_at-level side half id p l g known at e
      ]
