-- ===== src/Matching/OrderBook/Ladder/Gap.antt =====
-- Where the first order at a new price goes.
use project_final_1team.Prelude.{
  ◌≡◌, refl, sym, ◌∙◌, ap, inl, inr, true, false, some, List, [], ◌∷◌, ◌++◌, append_assoc,
  Bool-cases, All-append, All-map,
}
use project_final_1team.Dict
use project_final_1team.Dict.{Dict}
use project_final_1team.Decimal.{Decimal}
use project_final_1team.Decimal.Laws.{equal_comm}
use project_final_1team.Matching.OrderBook.{
  Side, Order, PriceLevel, before, insert_sorted_price, orders_in,
}
use project_final_1team.Matching.OrderBook.Prices.{
  AllBefore, AllBefore-Avoids, AllBefore-trans, before-connex, before-ne, has_price,
  insert_sorted_price-cons, insert_sorted_price-nil,
}
use project_final_1team.Matching.OrderBook.Ladder.{
  IsLadder, Elsewhere, AllBetter, AllWorse, frame-orders_in, orders_at-found, orders_in-AllWorse,
  IsAt-better,
}

module _ {D : Type 0} ⦃dec : Decimal D⦄ where
  pub record Gap (side : Side) (levels : Dict (PriceLevel D)) (ps : List D) (p : D) : Type 0 where
    pub front : List (Order D)
    pub back : List (Order D)
    pub better : AllBetter side p front
    pub worse : AllWorse side p back
    pub was : orders_in levels ps ≡ front ++ back
    pub filled :
        (levels' : Dict (PriceLevel D)) (l' : PriceLevel D)
        → Elsewhere p levels levels'
        → Dict.get (dec.to_string p) levels' ≡ some l'
        → orders_in levels' (insert_sorted_price side p ps) ≡ front ++ (l'.orders ++ back)

  Gap-nil : (side : Side) (levels : Dict (PriceLevel D)) (p : D) → Gap side levels [] p
  unfolding orders_in
  Gap-nil side levels p = record {
    front = [];
    back = [];
    better = tt;
    worse = tt;
    was = refl;
    filled = λ levels' l' same e.
        rw (insert_sorted_price-nil side p) (ap (λ os. os ++ []) (orders_at-found p levels' l' e));
  }

  Gap-here :
      (side : Side) (levels : Dict (PriceLevel D)) (ps : List D) (q p : D)
      → before side p q ≡ true
      → IsLadder side levels (q ∷ ps)
      → Gap side levels (q ∷ ps) p
  Gap-here side levels ps q p b g = record {
    front = [];
    back = orders_in levels (q ∷ ps);
    better = tt;
    worse = orders_in-AllWorse side p levels (q ∷ ps) all g;
    was = refl;
    filled = λ levels' l' same e.
        rw (insert_sorted_price-cons side p q ps, b)
          (unfold orders_in in
            rw (orders_at-found p levels' l' e) (
              ap (◌++◌ l'.orders) (
                frame-orders_in p levels levels' same (q ∷ ps)
                  (AllBefore-Avoids side p (q ∷ ps) all))));
  }
    where
      all : AllBefore side p (q ∷ ps)
      all = (b, AllBefore-trans side p q ps b g.0)

  Gap-later :
      (side : Side) (levels : Dict (PriceLevel D)) (ps : List D) (q p : D)
      → before side p q ≡ false
      → before side q p ≡ true
      → IsLadder side levels (q ∷ ps)
      → Gap side levels ps p
      → Gap side levels (q ∷ ps) p
  unfolding orders_in
  Gap-later side levels ps q p b h g s = record {
    front = g.1.level.orders ++ s.front;
    back = s.back;
    better =
        All-append _ g.1.level.orders s.front
          (All-map _ _ (λ o. IsAt-better side q p o h) g.1.level.orders g.1.valid) s.better;
    worse = s.worse;
    was =
        rw (orders_at-found q levels g.1.level g.1.found, s.was)
          (sym (append_assoc g.1.level.orders s.front s.back));
    filled = λ levels' l' same e.
        rw (insert_sorted_price-cons side p q ps, b)
          (rw
            (
              orders_at-found q levels' g.1.level
                  (same q (equal_comm p q ∙ before-ne side q p h) ∙ g.1.found),
              s.filled levels' l' same e,
            )
            (sym (append_assoc g.1.level.orders s.front (l'.orders ++ s.back))));
  }

  pub gap :
      (side : Side) (levels : Dict (PriceLevel D)) (ps : List D) (p : D)
      → IsLadder side levels ps
      → has_price p ps ≡ false
      → Gap side levels ps p
  gap side levels [] p g n = Gap-nil side levels p
  gap side levels (q ∷ qs) p g n = elim (Bool-cases (dec.equal q p)) [
    | inl e ↦ cc (rw e at n)
    | inr e ↦ elim (Bool-cases (before side p q)) [
      | inl b ↦ Gap-here side levels qs q p b g
      | inr b ↦ elim (Bool-cases (before side q p)) [
        | inl h ↦ Gap-later side levels qs q p b h g (gap side levels qs p g.2 (rw e at n))
        | inr h ↦ cc ((dec.equal_iff q p).1 (before-connex side q p h b))
      ]
    ]
  ]
