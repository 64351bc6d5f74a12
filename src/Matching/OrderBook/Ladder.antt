-- ===== src/Matching/OrderBook/Ladder.antt =====
-- The invariant of one side of the book, and what a change at one price does to the list of its orders.
pub mod Keep
pub mod Gap
use project_final_1team.Prelude.{
  false≢true, ◌≡◌, ◌≢◌, refl, sym, ap₂, ◌∙◌, subst, inl, inr, Bool, true, false, Option, none, some,
  List, [], ◌∷◌, ◌++◌, append_assoc, arith, Bool-cases, All, All-append, All-map, if◌then◌else◌,
  ◌==◌, is_some,
}
use project_final_1team.Dict
use project_final_1team.Dict.{Dict, get-put, get-delete}
use project_final_1team.Decimal.{Decimal, IsPositive}
use project_final_1team.Decimal.Laws.{key_lem, equal_self, equal_comm}
use project_final_1team.Matching.OrderBook.{
  Side, Order, PriceLevel, Half, before, insert_sorted_price, remove_price, orders_at, orders_in,
}
use project_final_1team.Matching.OrderBook.Prices.{
  AllBefore, AllBefore-Avoids, AllBefore-insert, AllBefore-remove, AllBefore-trans, Avoids,
  before-connex, before-ne, has_price, has_price-before, insert_sorted_price-cons,
  insert_sorted_price-nil, remove_price_self,
}

module _ {D : Type 0} ⦃dec : Decimal D⦄ where
  pub record IsAt (side : Side) (p : D) (o : Order D) : Type 0 where
    pub on_side : o.side ≡ side
    pub at_price : o.price ≡ p
    pub positive : IsPositive o.quantity

  pub record HasLevel (side : Side) (levels : Dict (PriceLevel D)) (p : D) : Type 0 where
    pub level : PriceLevel D
    pub found : Dict.get (dec.to_string p) levels ≡ some level
    pub same_price : level.price ≡ p
    pub nonempty : level.orders ≢ []
    pub valid : All (IsAt side p) level.orders

  -- Prices best first, each with a level that holds at least one order.
  abbrev pub IsLadder : Side → Dict (PriceLevel D) → List D → Type 0
  IsLadder side levels [] = Unit
  IsLadder side levels (p ∷ ps) =
      AllBefore side p ps × HasLevel side levels p × IsLadder side levels ps

  pub record IsGoodHalf (side : Side) (half : Half D) : Type 0 where
    pub ladder : IsLadder side half.levels half.prices
    pub listed : (p : D) → Dict.has (dec.to_string p) half.levels ≡ has_price p half.prices

  -- The two maps hold the same at every price but `p`.
  abbrev pub Elsewhere : D → Dict (PriceLevel D) → Dict (PriceLevel D) → Type 0
  Elsewhere p levels levels' =
      (q : D)
      → dec.equal p q ≡ false
      → Dict.get (dec.to_string q) levels' ≡ Dict.get (dec.to_string q) levels

  pub put-Elsewhere :
      (p : D) (l : PriceLevel D) (levels : Dict (PriceLevel D))
      → Elsewhere p levels (Dict.put (dec.to_string p) l levels)
  put-Elsewhere p l levels q h = rw (get-put, key_lem p q, h)

  pub delete-Elsewhere :
      (p : D) (levels : Dict (PriceLevel D))
      → Elsewhere p levels (Dict.delete (dec.to_string p) levels)
  delete-Elsewhere p levels q h = rw (get-delete, key_lem p q, h)

  pub get-put_at :
      (p : D) (l : PriceLevel D) (levels : Dict (PriceLevel D))
      → Dict.get (dec.to_string p) (Dict.put (dec.to_string p) l levels) ≡ some l
  get-put_at p l levels = rw (get-put, key_lem p p, equal_self p)

  module _ (p : D) (levels levels' : Dict (PriceLevel D)) (same : Elsewhere p levels levels') where
    frame-orders_at : (q : D) → dec.equal p q ≡ false → orders_at levels' q ≡ orders_at levels q
    unfolding orders_at
    frame-orders_at q h = rw (same q h, orders_at)

    pub frame-orders_in : (ps : List D) → Avoids p ps → orders_in levels' ps ≡ orders_in levels ps
    unfolding orders_in
    frame-orders_in [] h = refl
    frame-orders_in (q ∷ qs) h = ap₂ ◌++◌ (frame-orders_at q h.0) (frame-orders_in qs h.1)

    pub frame-IsLadder :
        (side : Side) (ps : List D)
        → Avoids p ps
        → IsLadder side levels ps
        → IsLadder side levels' ps
    frame-IsLadder side [] h g = tt
    frame-IsLadder side (q ∷ qs) h g = (
      g.0,
      record {
        level = g.1.level;
        found = same q h.0 ∙ g.1.found;
        same_price = g.1.same_price;
        nonempty = g.1.nonempty;
        valid = g.1.valid;
      },
      frame-IsLadder side qs h.1 g.2,
    )

  pub orders_at-found :
      (p : D) (levels : Dict (PriceLevel D)) (l : PriceLevel D)
      → Dict.get (dec.to_string p) levels ≡ some l
      → orders_at levels p ≡ l.orders
  unfolding orders_at
  orders_at-found p levels l e = rw (e, orders_at)

  pub IsAt-better :
      (side : Side) (p q : D) (o : Order D)
      → before side p q ≡ true
      → IsAt side p o
      → before side o.price q ≡ true
  IsAt-better side p q o h a = rw a.at_price h

  IsAt-worse :
      (side : Side) (p q : D) (o : Order D)
      → before side q p ≡ true
      → IsAt side p o
      → before side q o.price ≡ true
  IsAt-worse side p q o h a = rw a.at_price h

  abbrev pub AllBetter : Side → D → List (Order D) → Type 0
  AllBetter side p os = All (λ o. before side o.price p ≡ true) os

  abbrev pub AllWorse : Side → D → List (Order D) → Type 0
  AllWorse side p os = All (λ o. before side p o.price ≡ true) os

  pub orders_in-AllWorse :
      (side : Side) (q : D) (levels : Dict (PriceLevel D)) (ps : List D)
      → AllBefore side q ps
      → IsLadder side levels ps
      → AllWorse side q (orders_in levels ps)
  unfolding orders_in
  orders_in-AllWorse side q levels [] h g = tt
  orders_in-AllWorse side q levels (p ∷ ps) h g =
      rw (orders_at-found p levels g.1.level g.1.found) (
        All-append _ g.1.level.orders (orders_in levels ps)
          (All-map _ _ (λ o. IsAt-worse side p q o h.0) g.1.level.orders g.1.valid)
          (orders_in-AllWorse side q levels ps h.1 g.2))

  -- The orders at `p`, those in front of them and those behind.
  pub record Split (side : Side) (levels : Dict (PriceLevel D)) (ps : List D) (p : D)
      (l : PriceLevel D) : Type 0 where
    pub front : List (Order D)
    pub back : List (Order D)
    pub better : AllBetter side p front
    pub worse : AllWorse side p back
    pub was : orders_in levels ps ≡ front ++ (l.orders ++ back)
    pub changed :
        (levels' : Dict (PriceLevel D)) (l' : PriceLevel D)
        → Elsewhere p levels levels'
        → Dict.get (dec.to_string p) levels' ≡ some l'
        → orders_in levels' ps ≡ front ++ (l'.orders ++ back)
    pub removed :
        (levels' : Dict (PriceLevel D))
        → Elsewhere p levels levels'
        → orders_in levels' (remove_price p ps) ≡ front ++ back

  unfoldable pub split-head :
      (side : Side) (levels : Dict (PriceLevel D)) (ps : List D) (p : D) (l : PriceLevel D)
      → AllBefore side p ps
      → IsLadder side levels ps
      → Dict.get (dec.to_string p) levels ≡ some l
      → Split side levels (p ∷ ps) p l
  unfolding orders_in
  split-head side levels ps p l h g e = record {
    front = [];
    back = orders_in levels ps;
    better = tt;
    worse = orders_in-AllWorse side p levels ps h g;
    was = rw (orders_at-found p levels l e);
    changed = λ levels' l' same e'. rw (
      orders_at-found p levels' l' e',
      frame-orders_in p levels levels' same ps (AllBefore-Avoids side p ps h),
    );
    removed = λ levels' same.
        rw (remove_price_self p ps)
          (frame-orders_in p levels levels' same ps (AllBefore-Avoids side p ps h));
  }

  split-tail :
      (side : Side) (levels : Dict (PriceLevel D)) (q : D) (qs : List D) (p : D) (l : PriceLevel D)
      → before side q p ≡ true
      → HasLevel side levels q
      → Split side levels qs p l
      → Split side levels (q ∷ qs) p l
  unfolding orders_in remove_price
  split-tail side levels q qs p l h g s = record {
    front = g.level.orders ++ s.front;
    back = s.back;
    better =
        All-append _ g.level.orders s.front
          (All-map _ _ (λ o. IsAt-better side q p o h) g.level.orders g.valid) s.better;
    worse = s.worse;
    was =
        rw (orders_at-found q levels g.level g.found, s.was)
          (sym (append_assoc g.level.orders s.front (l.orders ++ s.back)));
    changed = λ levels' l' same e.
        rw (orders_at-found q levels' g.level (same q ne ∙ g.found), s.changed levels' l' same e)
          (sym (append_assoc g.level.orders s.front (l'.orders ++ s.back)));
    removed = λ levels' same. rw (before-ne side q p h) (
        rw (orders_at-found q levels' g.level (same q ne ∙ g.found), s.removed levels' same)
          (sym (append_assoc g.level.orders s.front s.back)));
  }
    where
      ne : dec.equal p q ≡ false
      ne = equal_comm p q ∙ before-ne side q p h

  pub split :
      (side : Side) (levels : Dict (PriceLevel D)) (ps : List D) (p : D) (l : PriceLevel D)
      → IsLadder side levels ps
      → has_price p ps ≡ true
      → Dict.get (dec.to_string p) levels ≡ some l
      → Split side levels ps p l
  split side levels [] p l g h e = absurd (false≢true h)
  split side levels (q ∷ qs) p l g h e = elim (Bool-cases (dec.equal q p)) [
    | inl k ↦
        subst (λ t. Split side levels (t ∷ qs) p l) (sym ((dec.equal_iff q p).0 k))
          (split-head side levels qs p l
            (subst (λ t. AllBefore side t qs) ((dec.equal_iff q p).0 k) g.0) g.2 e)
    | inr k ↦
        let h' : has_price p qs ≡ true = rw k at h in
        split-tail side levels q qs p l (has_price-before side p q qs g.0 h') g.1
          (split side levels qs p l g.2 h' e)
  ]
