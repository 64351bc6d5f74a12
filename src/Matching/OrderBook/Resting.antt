-- ===== src/Matching/OrderBook/Resting.antt =====
-- The operations on one side, as operations on the list of its orders in priority.
pub mod Cancel
use project_final_1team.Prelude.{
  ◌≡◌, ◌≢◌, refl, sym, ap, ◌∙◌, subst, inl, inr, ◌⊎◌, Bool, true, false, none, some, String, List,
  [], ◌∷◌, ◌++◌, ◌==◌, ◌||◌, append-nil, append_assoc, arith, Bool-cases, Option-cases, All,
  All-append, All-map, All-left, All-right, if◌then◌else◌, is_some,
}
use project_final_1team.Dict
use project_final_1team.Dict.{Dict, get-put}
use project_final_1team.Decimal.{Decimal, IsPositive}
use project_final_1team.Decimal.Laws.{key_lem, equal_self}
use project_final_1team.Matching.OrderBook.{
  Side, Order, PriceLevel, Half, before, insert_sorted_price, remove_price, orders_at, orders_in,
  push_order, remove_level_if_empty, drop_level, cancel_at, remove_node,
}
use project_final_1team.Matching.OrderBook.Spec.{insert_order, remove_order, has_order}
use project_final_1team.Matching.OrderBook.Prices.{before-asymm, before_irrefl, has_price}
use project_final_1team.Matching.OrderBook.Ladder.{
  IsAt, HasLevel, IsLadder, IsGoodHalf, Elsewhere, put-Elsewhere, delete-Elsewhere, get-put_at,
  AllBetter, AllWorse, Split, split,
}
use project_final_1team.Matching.OrderBook.Ladder.Keep.{
  IsGoodHalf-put, IsGoodHalf-insert, IsGoodHalf-remove,
}
use project_final_1team.Matching.OrderBook.Ladder.Gap.{Gap, gap}
use project_final_1team.Matching.OrderBook.Levels.{
  append-ne-nil, resting, insert_order-split, listed_of, unlisted_of, level-HasLevel,
}

module _ {D : Type 0} ⦃dec : Decimal D⦄ where
  push_order-new :
      (half : Half D) (o : Order D)
      → IsGoodHalf o.side half
      → IsPositive o.quantity
      → Dict.get (dec.to_string o.price) half.levels ≡ none
      → IsGoodHalf o.side (push_order half o)
        × (resting (push_order half o) ≡ insert_order o.side o (resting half))
  unfolding push_order orders_in
  push_order-new half o g pos e =
      rw (e, push_order)
        (
          IsGoodHalf-insert o.side half o.price level g absent (record {
            level = level;
            found = get-put_at o.price level half.levels;
            same_price = refl;
            nonempty = λ n. cc;
            valid = (record { on_side = refl; at_price = refl; positive = pos }, tt);
          }),
          s.filled _ level (put-Elsewhere o.price level half.levels)
                (get-put_at o.price level half.levels)
              ∙ sym (
                  ap (insert_order o.side o) s.was
                  ∙ insert_order-split o.side o s.front [] s.back s.better tt s.worse),
        )
    where
      level : PriceLevel D
      level = record { price = o.price; orders = o ∷ [] }

      absent : has_price o.price half.prices ≡ false
      absent = unlisted_of o.side half o.price g e

      s : Gap o.side half.levels half.prices o.price
      s = gap o.side half.levels half.prices o.price g.ladder absent

  push_order-old :
      (half : Half D) (o : Order D) (l : PriceLevel D)
      → IsGoodHalf o.side half
      → IsPositive o.quantity
      → Dict.get (dec.to_string o.price) half.levels ≡ some l
      → IsGoodHalf o.side (push_order half o)
        × (resting (push_order half o) ≡ insert_order o.side o (resting half))
  unfolding push_order orders_in
  push_order-old half o l g pos e =
      rw (e, push_order)
        (
          IsGoodHalf-put o.side half o.price level g listed (record {
            level = level;
            found = get-put_at o.price level half.levels;
            same_price = h.0;
            nonempty = append-ne-nil l.orders o;
            valid =
                All-append _ l.orders (o ∷ []) h.2
                  (record { on_side = refl; at_price = refl; positive = pos }, tt);
          }),
          s.changed _ level (put-Elsewhere o.price level half.levels)
                (get-put_at o.price level half.levels)
              ∙ sym (
                  ap (insert_order o.side o) s.was
                  ∙ insert_order-split o.side o s.front l.orders s.back s.better h.2 s.worse),
        )
    where
      level : PriceLevel D
      level = record l { orders = l.orders ++ o ∷ [] }

      listed : has_price o.price half.prices ≡ true
      listed = listed_of o.side half o.price l g e

      h : (l.price ≡ o.price) × (l.orders ≢ []) × All (IsAt o.side o.price) l.orders
      h = level-HasLevel o.side half o.price l g e

      s : Split o.side half.levels half.prices o.price l
      s = split o.side half.levels half.prices o.price l g.ladder listed e

  -- A new order rests behind every order whose price is not worse.
  pub resting-push_order :
      (half : Half D) (o : Order D)
      → IsGoodHalf o.side half
      → IsPositive o.quantity
      → IsGoodHalf o.side (push_order half o)
        × (resting (push_order half o) ≡ insert_order o.side o (resting half))
  resting-push_order half o g pos =
      elim (Option-cases (Dict.get (dec.to_string o.price) half.levels)) [
        | inl e ↦ push_order-new half o g pos e
        | inr (l, e) ↦ push_order-old half o l g pos e
      ]

  -- The level at `p` with other orders, which goes when none is left.
  abbrev pub with_orders : D → PriceLevel D → List (Order D) → Half D → Half D
  with_orders p l os half =
      remove_level_if_empty p
        (record half { levels = Dict.put (dec.to_string p) (record l { orders = os }) half.levels })

  with_orders-nil :
      (side : Side) (half : Half D) (p : D) (l : PriceLevel D)
      → IsGoodHalf side half
      → (s : Split side half.levels half.prices p l)
      → IsGoodHalf side (with_orders p l [] half)
        × (resting (with_orders p l [] half) ≡ s.front ++ s.back)
  unfolding remove_level_if_empty orders_in
  with_orders-nil side half p l g s =
      rw (get-put_at p (record l { orders = [] }) half.levels, remove_level_if_empty)
        ((
          IsGoodHalf-remove side half p _ g put_same,
          s.removed _ (λ q h. delete-Elsewhere p _ q h ∙ put_same q h),
        ))
    where
      put_same :
          Elsewhere p half.levels
            (Dict.put (dec.to_string p) (record l { orders = [] }) half.levels)
      put_same = put-Elsewhere p (record l { orders = [] }) half.levels

  with_orders-cons :
      (side : Side) (half : Half D) (p : D) (l : PriceLevel D) (o : Order D) (os : List (Order D))
      → IsGoodHalf side half
      → Dict.get (dec.to_string p) half.levels ≡ some l
      → All (IsAt side p) (o ∷ os)
      → (s : Split side half.levels half.prices p l)
      → IsGoodHalf side (with_orders p l (o ∷ os) half)
        × (resting (with_orders p l (o ∷ os) half) ≡ s.front ++ ((o ∷ os) ++ s.back))
  unfolding remove_level_if_empty orders_in
  with_orders-cons side half p l o os g e valid s =
      rw (get-put_at p level half.levels, remove_level_if_empty)
        ((
          IsGoodHalf-put side half p level g (listed_of side half p l g e) (record {
            level = level;
            found = get-put_at p level half.levels;
            same_price = (level-HasLevel side half p l g e).0;
            nonempty = λ n. cc;
            valid = valid;
          }),
          s.changed _ level (put-Elsewhere p level half.levels) (get-put_at p level half.levels),
        ))
    where
      level : PriceLevel D
      level = record l { orders = o ∷ os }

  pub resting-with_orders :
      (side : Side) (half : Half D) (p : D) (l : PriceLevel D) (os : List (Order D))
      → IsGoodHalf side half
      → Dict.get (dec.to_string p) half.levels ≡ some l
      → All (IsAt side p) os
      → (s : Split side half.levels half.prices p l)
      → IsGoodHalf side (with_orders p l os half)
        × (resting (with_orders p l os half) ≡ s.front ++ (os ++ s.back))
  resting-with_orders side half p l [] g e valid s = with_orders-nil side half p l g s
  resting-with_orders side half p l (o ∷ os) g e valid s =
      with_orders-cons side half p l o os g e valid s

  pub split_of :
      (side : Side) (half : Half D) (p : D) (l : PriceLevel D)
      → IsGoodHalf side half
      → Dict.get (dec.to_string p) half.levels ≡ some l
      → Split side half.levels half.prices p l
  split_of side half p l g e =
      split side half.levels half.prices p l g.ladder (listed_of side half p l g e) e
