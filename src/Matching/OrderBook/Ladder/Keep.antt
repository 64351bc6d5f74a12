-- ===== src/Matching/OrderBook/Ladder/Keep.antt =====
-- A side stays well formed when one price gets another level, a first level, or loses its level.
use project_final_1team.Prelude.{
  ◌≡◌, sym, ◌∙◌, subst, inl, inr, true, false, List, [], ◌∷◌, arith, Bool-cases, All,
}
use project_final_1team.Dict
use project_final_1team.Dict.{Dict, get-put, get-delete}
use project_final_1team.Decimal.{Decimal}
use project_final_1team.Decimal.Laws.{key_lem, equal_comm}
use project_final_1team.Matching.OrderBook.{
  Side, PriceLevel, Half, before, insert_sorted_price, remove_price,
}
use project_final_1team.Matching.OrderBook.Prices.{
  AllBefore-Avoids, AllBefore-insert, AllBefore-remove, AllBefore-trans, IsSorted, before-connex,
  has_price, has_price-insert, has_price-remove, insert_sorted_price-cons, insert_sorted_price-nil,
}
use project_final_1team.Matching.OrderBook.Ladder.{
  HasLevel, IsLadder, IsGoodHalf, Elsewhere, frame-IsLadder, put-Elsewhere, delete-Elsewhere,
}

module _ {D : Type 0} ⦃dec : Decimal D⦄ where
  HasLevel-same :
      (side : Side) (p q : D) (levels : Dict (PriceLevel D))
      → dec.equal q p ≡ true
      → HasLevel side levels p
      → HasLevel side levels q
  HasLevel-same side p q levels e h = subst (HasLevel side levels) (sym ((dec.equal_iff q p).0 e)) h

  HasLevel-else :
      (side : Side) (p q : D) (levels levels' : Dict (PriceLevel D))
      → Elsewhere p levels levels'
      → dec.equal p q ≡ false
      → HasLevel side levels q
      → HasLevel side levels' q
  HasLevel-else side p q levels levels' same ne h = record {
    level = h.level;
    found = same q ne ∙ h.found;
    same_price = h.same_price;
    nonempty = h.nonempty;
    valid = h.valid;
  }

  IsLadder-IsSorted :
      (side : Side) (levels : Dict (PriceLevel D)) (ps : List D)
      → IsLadder side levels ps
      → IsSorted side ps
  IsLadder-IsSorted side levels [] g = tt
  IsLadder-IsSorted side levels (p ∷ ps) g = (g.0, IsLadder-IsSorted side levels ps g.2)

  module _ (side : Side) (p : D) (levels levels' : Dict (PriceLevel D))
      (same : Elsewhere p levels levels') where
    IsLadder-change :
        (ps : List D) → HasLevel side levels' p → IsLadder side levels ps → IsLadder side levels' ps
    IsLadder-change [] h g = tt
    IsLadder-change (q ∷ qs) h g = elim (Bool-cases (dec.equal q p)) [
      | inl e ↦ (g.0, HasLevel-same side p q levels' e h, IsLadder-change qs h g.2)
      | inr e ↦ (
        g.0,
        HasLevel-else side p q levels levels' same (equal_comm p q ∙ e) g.1,
        IsLadder-change qs h g.2,
      )
    ]

    IsLadder-insert :
        (ps : List D)
        → HasLevel side levels' p
        → has_price p ps ≡ false
        → IsLadder side levels ps
        → IsLadder side levels' (insert_sorted_price side p ps)
    IsLadder-insert [] h n g = rw insert_sorted_price-nil (tt, h, tt)
    IsLadder-insert (q ∷ qs) h n g = elim (Bool-cases (dec.equal q p)) [
      | inl e ↦ cc (rw e at n)
      | inr e ↦
          let rest : has_price p qs ≡ false = rw e at n in
          elim (Bool-cases (before side p q)) [
            | inl b ↦
                rw (insert_sorted_price-cons, b)
                  (
                    (b, AllBefore-trans side p q qs b g.0),
                    h,
                    (
                      g.0,
                      HasLevel-else side p q levels levels' same (equal_comm p q ∙ e) g.1,
                      IsLadder-change qs h g.2,
                    ),
                  )
            | inr b ↦
                rw (insert_sorted_price-cons, b)
                  (
                    AllBefore-insert side q p qs (later q e b) g.0,
                    HasLevel-else side p q levels levels' same (equal_comm p q ∙ e) g.1,
                    IsLadder-insert qs h rest g.2,
                  )
          ]
    ]
      where
        later : (q : D) → dec.equal q p ≡ false → before side p q ≡ false → before side q p ≡ true
        later q e b = elim (Bool-cases (before side q p)) [
          | inl k ↦ k
          | inr k ↦ cc ((dec.equal_iff q p).1 (before-connex side q p k b))
        ]

    IsLadder-remove :
        (ps : List D) → IsLadder side levels ps → IsLadder side levels' (remove_price p ps)
    unfolding remove_price
    IsLadder-remove [] g = tt
    IsLadder-remove (q ∷ qs) g = elim (Bool-cases (dec.equal q p)) [
      | inl e ↦ rw e (
          frame-IsLadder p levels levels' same side qs
            (subst (λ t. All (λ r. dec.equal t r ≡ false) qs) ((dec.equal_iff q p).0 e)
              (AllBefore-Avoids side q qs g.0))
            g.2)
      | inr e ↦ rw e (
        AllBefore-remove side q p qs g.0,
        HasLevel-else side p q levels levels' same (equal_comm p q ∙ e) g.1,
        IsLadder-remove qs g.2,
      )
    ]

  -- Another level at a price that has one.
  pub IsGoodHalf-put :
      (side : Side) (half : Half D) (p : D) (l : PriceLevel D)
      → IsGoodHalf side half
      → has_price p half.prices ≡ true
      → HasLevel side (Dict.put (dec.to_string p) l half.levels) p
      → IsGoodHalf side (record half { levels = Dict.put (dec.to_string p) l half.levels })
  IsGoodHalf-put side half p l g known h = record {
    ladder =
        IsLadder-change side p half.levels _ (put-Elsewhere p l half.levels) half.prices h g.ladder;
    listed = λ q. rw (get-put, key_lem p q) (ground (arith, g.listed q, known, dec.equal_iff p q));
  }

  -- The first level at a new price.
  pub IsGoodHalf-insert :
      (side : Side) (half : Half D) (p : D) (l : PriceLevel D)
      → IsGoodHalf side half
      → has_price p half.prices ≡ false
      → HasLevel side (Dict.put (dec.to_string p) l half.levels) p
      → IsGoodHalf side (record {
        levels = Dict.put (dec.to_string p) l half.levels;
        prices = insert_sorted_price side p half.prices;
      })
  IsGoodHalf-insert side half p l g absent h = record {
    ladder =
        IsLadder-insert side p half.levels _ (put-Elsewhere p l half.levels) half.prices h absent
          g.ladder;
    listed = λ q. rw (get-put, key_lem p q, has_price-insert) (ground (arith, g.listed q));
  }

  -- No level at the price any more.
  pub IsGoodHalf-remove :
      (side : Side) (half : Half D) (p : D) (levels : Dict (PriceLevel D))
      → IsGoodHalf side half
      → Elsewhere p half.levels levels
      → IsGoodHalf side (record {
        levels = Dict.delete (dec.to_string p) levels;
        prices = remove_price p half.prices;
      })
  IsGoodHalf-remove side half p levels g same = record {
    ladder = IsLadder-remove side p half.levels _ gone half.prices g.ladder;
    listed = λ q.
        rw
          (
            get-delete,
            key_lem p q,
            has_price-remove side p q half.prices
                (IsLadder-IsSorted side half.levels half.prices g.ladder),
          )
          (ground (arith, g.listed q, same q));
  }
    where
      gone : Elsewhere p half.levels (Dict.delete (dec.to_string p) levels)
      gone q h = delete-Elsewhere p levels q h ∙ same q h
