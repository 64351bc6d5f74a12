-- ===== src/Matching/OrderBook/Levels.antt =====
-- Where an order comes among the resting orders, and the level of a price among the listed prices.
use project_final_1team.Prelude.{
  ◌≡◌, ◌≢◌, refl, sym, ap, ◌∙◌, subst, inl, inr, true, false, none, some, List, [], ◌∷◌, ◌++◌,
  append_assoc, Bool-cases, All, All-map, is_some,
}
use project_final_1team.Dict
use project_final_1team.Dict.{Dict, get-put}
use project_final_1team.Decimal.{Decimal}
use project_final_1team.Matching.OrderBook.{Side, Order, PriceLevel, Half, before, orders_in}
use project_final_1team.Matching.OrderBook.Spec.{insert_order}
use project_final_1team.Matching.OrderBook.Prices.{before-asymm, before_irrefl, has_price}
use project_final_1team.Matching.OrderBook.Ladder.{
  IsAt, HasLevel, IsLadder, IsGoodHalf, AllBetter, AllWorse,
}

pub append-ne-nil : {A : Type 0} (xs : List A) (x : A) → xs ++ x ∷ [] ≢ []
append-ne-nil [] x e = cc
append-ne-nil (y ∷ ys) x e = cc

module _ {D : Type 0} ⦃dec : Decimal D⦄ where
  abbrev pub resting : Half D → List (Order D)
  resting half = orders_in half.levels half.prices

  pub insert_order-behind :
      (side : Side) (o : Order D) (xs ys : List (Order D))
      → All (λ x. before side o.price x.price ≡ false) xs
      → insert_order side o (xs ++ ys) ≡ xs ++ insert_order side o ys
  insert_order-behind side o [] ys h = refl
  insert_order-behind side o (x ∷ xs) ys h = rw (h.0, insert_order-behind side o xs ys h.1)

  pub insert_order-front :
      (side : Side) (o : Order D) (ys : List (Order D))
      → AllWorse side o.price ys
      → insert_order side o ys ≡ o ∷ ys
  insert_order-front side o [] h = refl
  insert_order-front side o (y ∷ ys) h = rw h.0

  not_worse :
      (side : Side) (p : D) (xs : List (Order D))
      → AllBetter side p xs
      → All (λ x. before side p x.price ≡ false) xs
  not_worse side p = All-map _ _ (λ x h. before-asymm side x.price p h)

  same_not_worse :
      (side : Side) (p : D) (xs : List (Order D))
      → All (IsAt side p) xs
      → All (λ x. before side p x.price ≡ false) xs
  same_not_worse side p = All-map _ _ (λ x h. rw h.at_price (before_irrefl side p))

  -- What `push_order` stores is the new order in its place.
  pub insert_order-split :
      (side : Side) (o : Order D) (front os back : List (Order D))
      → AllBetter side o.price front
      → All (IsAt side o.price) os
      → AllWorse side o.price back
      → insert_order side o (front ++ (os ++ back)) ≡ front ++ ((os ++ o ∷ []) ++ back)
  insert_order-split side o front os back better same worse =
      insert_order-behind side o front (os ++ back) (not_worse side o.price front better)
      ∙ ap (◌++◌ front) (
          insert_order-behind side o os back (same_not_worse side o.price os same)
          ∙ ap (◌++◌ os) (insert_order-front side o back worse)
          ∙ sym (append_assoc os (o ∷ []) back))

  ladder-at :
      (side : Side) (levels : Dict (PriceLevel D)) (ps : List D) (p : D)
      → IsLadder side levels ps
      → has_price p ps ≡ true
      → HasLevel side levels p
  ladder-at side levels [] p g h = cc
  ladder-at side levels (q ∷ qs) p g h = elim (Bool-cases (dec.equal q p)) [
    | inl e ↦ subst (HasLevel side levels) ((dec.equal_iff q p).0 e) g.1
    | inr e ↦ ladder-at side levels qs p g.2 (rw e at h)
  ]

  pub listed_of :
      (side : Side) (half : Half D) (p : D) (l : PriceLevel D)
      → IsGoodHalf side half
      → Dict.get (dec.to_string p) half.levels ≡ some l
      → has_price p half.prices ≡ true
  listed_of side half p l g e = sym (g.listed p) ∙ ap is_some e

  pub unlisted_of :
      (side : Side) (half : Half D) (p : D)
      → IsGoodHalf side half
      → Dict.get (dec.to_string p) half.levels ≡ none
      → has_price p half.prices ≡ false
  unlisted_of side half p g e = sym (g.listed p) ∙ ap is_some e

  -- The level that a good side holds at a price.
  pub level-HasLevel :
      (side : Side) (half : Half D) (p : D) (l : PriceLevel D)
      → IsGoodHalf side half
      → Dict.get (dec.to_string p) half.levels ≡ some l
      → (l.price ≡ p) × (l.orders ≢ []) × All (IsAt side p) l.orders
  level-HasLevel side half p l g e =
      let h = ladder-at side half.levels half.prices p g.ladder (listed_of side half p l g e) in
      let same : h.level ≡ l = cc (h.found) in
      subst (λ (k : PriceLevel D). (k.price ≡ p) × (k.orders ≢ []) × All (IsAt side p) k.orders)
        same (h.same_price, h.nonempty, h.valid)
