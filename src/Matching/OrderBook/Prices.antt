-- ===== src/Matching/OrderBook/Prices.antt =====
-- The strict order of prices on one side, and the sorted price list under insertion and removal.
use project_final_1team.Prelude.{
  ◌≡◌, refl, sym, ◌∙◌, subst, inl, inr, Bool, true, false, List, [], ◌∷◌, arith, Bool-cases, All,
  All-map, if◌then◌else◌,
}
use project_final_1team.Decimal.{Decimal}
use project_final_1team.Decimal.Laws
use project_final_1team.Matching.OrderBook.{
  Side, buy, sell, before, insert_sorted_price, remove_price,
}

module _ {D : Type 0} ⦃dec : Decimal D⦄ where
  pub before_irrefl : (side : Side) (p : D) → before side p p ≡ false
  before_irrefl buy p = dec.lt_irrefl p
  before_irrefl sell p = dec.lt_irrefl p

  pub before_trans :
      (side : Side) (p q r : D)
      → before side p q ≡ true
      → before side q r ≡ true
      → before side p r ≡ true
  before_trans buy p q r h k = dec.lt_trans r q p k h
  before_trans sell p q r h k = dec.lt_trans p q r h k

  pub before-asymm : (side : Side) (p q : D) → before side p q ≡ true → before side q p ≡ false
  before-asymm buy p q h = Laws.lt_asymm q p h
  before-asymm sell p q h = Laws.lt_asymm p q h

  pub before-connex :
      (side : Side) (p q : D) → before side p q ≡ false → before side q p ≡ false → p ≡ q
  before-connex buy p q h k = dec.lt_connex p q k h
  before-connex sell p q h k = dec.lt_connex p q h k

  pub before-ne : (side : Side) (p q : D) → before side p q ≡ true → dec.equal p q ≡ false
  before-ne side p q h = elim (Bool-cases (dec.equal p q)) [
    | inl e ↦ cc ((dec.equal_iff p q).0 e, before_irrefl side p)
    | inr e ↦ e
  ]

  -- `p` is strictly better than every price of the list.
  abbrev pub AllBefore : Side → D → List D → Type 0
  AllBefore side p ps = All (λ q. before side p q ≡ true) ps

  -- No price of the list is `p`.
  abbrev pub Avoids : D → List D → Type 0
  Avoids p ps = All (λ q. dec.equal p q ≡ false) ps

  pub AllBefore-Avoids : (side : Side) (p : D) (ps : List D) → AllBefore side p ps → Avoids p ps
  AllBefore-Avoids side p = All-map _ _ (before-ne side p)

  pub AllBefore-trans :
      (side : Side) (p q : D) (ps : List D)
      → before side p q ≡ true
      → AllBefore side q ps
      → AllBefore side p ps
  AllBefore-trans side p q ps h = All-map _ _ (λ r k. before_trans side p q r h k) ps

  abbrev pub has_price : D → List D → Bool
  has_price p [] = false
  has_price p (q ∷ qs) = if dec.equal q p then true else has_price p qs

  pub Avoids-has_price : (p : D) (ps : List D) → Avoids p ps → has_price p ps ≡ false
  Avoids-has_price p [] h = refl
  Avoids-has_price p (q ∷ qs) h = elim (Bool-cases (dec.equal q p)) [
    | inl e ↦ cc ((dec.equal_iff p q).1 (sym ((dec.equal_iff q p).0 e)), h.0)
    | inr e ↦ rw e (Avoids-has_price p qs h.1)
  ]

  pub insert_sorted_price-cons :
      (side : Side) (price p : D) (ps : List D)
      → insert_sorted_price side price (p ∷ ps)
        ≡ (if before side price p then price ∷ p ∷ ps else p ∷ insert_sorted_price side price ps)
  unfolding insert_sorted_price
  insert_sorted_price-cons side price p ps = elim (Bool-cases (before side price p)) [
    | inl h ↦ rw h
    | inr h ↦ rw h
  ]

  pub insert_sorted_price-nil : (side : Side) (p : D) → insert_sorted_price side p [] ≡ p ∷ []
  unfolding insert_sorted_price
  insert_sorted_price-nil side p = refl

  pub has_price-insert :
      (side : Side) (p q : D) (ps : List D)
      → has_price q (insert_sorted_price side p ps)
        ≡ (if dec.equal p q then true else has_price q ps)
  has_price-insert side p q [] = rw insert_sorted_price-nil
  has_price-insert side p q (r ∷ rs) =
      rw insert_sorted_price-cons (ground (arith, has_price-insert side p q rs))

  pub AllBefore-insert :
      (side : Side) (p q : D) (ps : List D)
      → before side p q ≡ true
      → AllBefore side p ps
      → AllBefore side p (insert_sorted_price side q ps)
  AllBefore-insert side p q [] h hs = rw insert_sorted_price-nil (h, tt)
  AllBefore-insert side p q (r ∷ rs) h hs = elim (Bool-cases (before side q r)) [
    | inl e ↦ rw (insert_sorted_price-cons, e) (h, hs)
    | inr e ↦ rw (insert_sorted_price-cons, e) (hs.0, AllBefore-insert side p q rs h hs.1)
  ]

  pub remove_price_self : (p : D) (ps : List D) → remove_price p (p ∷ ps) ≡ ps
  unfolding remove_price
  remove_price_self p ps = rw (Laws.equal_self p)

  pub AllBefore-remove :
      (side : Side) (p q : D) (ps : List D)
      → AllBefore side p ps
      → AllBefore side p (remove_price q ps)
  unfolding remove_price
  AllBefore-remove side p q [] h = tt
  AllBefore-remove side p q (r ∷ rs) h = elim (Bool-cases (dec.equal r q)) [
    | inl e ↦ rw e h.1
    | inr e ↦ rw e (h.0, AllBefore-remove side p q rs h.1)
  ]

  abbrev pub IsSorted : Side → List D → Type 0
  IsSorted side [] = Unit
  IsSorted side (p ∷ ps) = AllBefore side p ps × IsSorted side ps

  pub has_price-remove :
      (side : Side) (p q : D) (ps : List D)
      → IsSorted side ps
      → has_price q (remove_price p ps) ≡ (if dec.equal p q then false else has_price q ps)
  unfolding remove_price
  has_price-remove side p q [] h = elim (Bool-cases (dec.equal p q)) [ inl e ↦ rw e | inr e ↦ rw e ]
  has_price-remove side p q (r ∷ rs) h = elim (Bool-cases (dec.equal r p)) [
    | inl e ↦
        let e' : r ≡ p = (dec.equal_iff r p).0 e in
        rw (e, e')
          (elim (Bool-cases (dec.equal p q)) [
            | inl k ↦ rw k (
                Avoids-has_price q rs (
                  subst (λ t. Avoids t rs) (e' ∙ (dec.equal_iff p q).0 k)
                    (AllBefore-Avoids side r rs h.0)))
            | inr k ↦ rw k
          ])
    | inr e ↦ rw e (
        ground (
          arith,
          has_price-remove side p q rs h.1,
          dec.equal_iff p q,
          dec.equal_iff r q,
          dec.equal_iff r p,
        ))
  ]

  -- A price of the list is not better than the list's head.
  pub has_price-before :
      (side : Side) (p q : D) (ps : List D)
      → AllBefore side q ps
      → has_price p ps ≡ true
      → before side q p ≡ true
  has_price-before side p q [] h k = cc
  has_price-before side p q (r ∷ rs) h k = elim (Bool-cases (dec.equal r p)) [
    | inl e ↦ subst (λ t. before side q t ≡ true) ((dec.equal_iff r p).0 e) h.0
    | inr e ↦ has_price-before side p q rs h.1 (rw e at k)
  ]
