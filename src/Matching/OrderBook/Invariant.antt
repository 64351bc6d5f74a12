-- ===== src/Matching/OrderBook/Invariant.antt =====
-- The invariant of a book, kept by Restore and Cancel, and what these do to the lists of orders.
pub mod Cancel
use project_final_1team.Prelude.{
  ◌≡◌, refl, sym, ap, ap₂, ◌∙◌, subst, inl, inr, Bool, true, false, none, some, String, List, [],
  ◌∷◌, ◌==◌, eq_iff, eq_refl, ◌||◌, arith, Bool-cases, Option-cases, All, All-map, if◌then◌else◌,
  is_some,
}
use project_final_1team.Dict
use project_final_1team.Dict.{Dict, get-put, get-delete, get-empty}
use project_final_1team.Decimal.{Decimal, IsPositive}
use project_final_1team.Matching.OrderBook.{
  Side, buy, sell, Order, Element, OrderBook, Half, before, new, all_orders, half_for, set_half,
  normalize_price, insert_resting, push_order, cancel, cancel_at, orders_in,
}
use project_final_1team.Matching.OrderBook.Match.{opposite}
use project_final_1team.Matching.OrderBook.Spec.{insert_order, remove_order, has_order, IsDistinct}
use project_final_1team.Matching.OrderBook.Ladder.{IsGoodHalf}
use project_final_1team.Matching.OrderBook.Levels.{resting}
use project_final_1team.Matching.OrderBook.Resting.{resting-push_order}
use project_final_1team.Matching.OrderBook.Resting.Cancel.{IdAt, resting-cancel_at, All-remove}
use project_final_1team.Matching.OrderBook.Orders.{
  IsIndexed, IsIndexed-put, IsIndexed-delete, has_order-remove, IsDistinct-remove, has_order-insert,
  All-insert, IsDistinct-insert,
}

or_comm : (a b : Bool) → (a || b) ≡ (b || a)
or_comm a b = ground arith

module _ {D : Type 0} ⦃dec : Decimal D⦄ where
  abbrev pub IsNormal : Order D → Type 0
  IsNormal o = normalize_price o.price ≡ o.price

  -- What the index of a book says about the orders of one side.
  pub record IsGoodSide (side : Side) (elements : Dict (Element D)) (os : List (Order D))
      : Type 0 where
    pub on_side : All (λ o. o.side ≡ side) os
    pub normal : All IsNormal os
    pub positive : All (λ o. IsPositive o.quantity) os
    pub indexed : All (IsIndexed elements) os
    pub distinct : IsDistinct os

  pub record IsGoodBook (ob : OrderBook D) : Type 0 where
    pub halves : (side : Side) → IsGoodHalf side (half_for side ob)
    pub sides : (side : Side) → IsGoodSide side ob.elements (all_orders side ob)
    -- The index holds the ids of both sides and no other.
    pub held :
        (id : String)
        → Dict.has id ob.elements
          ≡ (has_order id (all_orders buy ob) || has_order id (all_orders sell ob))

  pub all_orders-resting :
      (side : Side) (ob : OrderBook D) → all_orders side ob ≡ resting (half_for side ob)
  unfolding all_orders
  all_orders-resting side ob = refl

  pub new-IsGoodBook : (market : String) → IsGoodBook (new market)
  unfolding new all_orders
  new-IsGoodBook market = record {
    halves = elim [ buy ↦ nothing buy | sell ↦ nothing sell ];
    sides = elim [ buy ↦ no_orders buy | sell ↦ no_orders sell ];
    held = λ id. ap is_some (get-empty id);
  }
    where
      nothing :
          (side : Side) → IsGoodHalf {D = D} side (record { levels = Dict.empty; prices = [] })
      nothing side = record { ladder = tt; listed = λ p. ap is_some (get-empty (dec.to_string p)) }

      no_orders : (side : Side) → IsGoodSide side Dict.empty []
      no_orders side = record {
        on_side = tt;
        normal = tt;
        positive = tt;
        indexed = tt;
        distinct = tt;
      }

  -- A book with another side and index, as insertResting, Cancel and matchIncoming leave it.
  abbrev pub with_side : Side → Half D → Dict (Element D) → OrderBook D → OrderBook D
  with_side side half elements ob = record (set_half side half ob) { elements = elements }

  pub record GoodChange (side : Side) (half : Half D) (elements : Dict (Element D))
      (ob : OrderBook D) : Type 0 where
    pub half_good : IsGoodHalf side half
    pub changed : IsGoodSide side elements (resting half)
    pub unchanged : IsGoodSide (opposite side) elements (all_orders (opposite side) ob)
    pub index :
        (id : String)
        → Dict.has id elements
          ≡ (has_order id (resting half) || has_order id (all_orders (opposite side) ob))

  pub with_side-IsGoodBook :
      (side : Side) (half : Half D) (elements : Dict (Element D)) (ob : OrderBook D)
      → IsGoodBook ob
      → GoodChange side half elements ob
      → IsGoodBook (with_side side half elements ob)
  unfolding all_orders
  with_side-IsGoodBook buy half elements ob g c = record {
    halves = elim [ buy ↦ c.half_good | sell ↦ g.halves sell ];
    sides = elim [ buy ↦ c.changed | sell ↦ c.unchanged ];
    held = c.index;
  }
  with_side-IsGoodBook sell half elements ob g c = record {
    halves = elim [ buy ↦ g.halves buy | sell ↦ c.half_good ];
    sides = elim [ buy ↦ c.unchanged | sell ↦ c.changed ];
    held =
        λ id. c.index id ∙ or_comm (has_order id (resting half)) (has_order id (all_orders buy ob));
  }

  pub all_orders-with_side :
      (side : Side) (half : Half D) (elements : Dict (Element D)) (ob : OrderBook D)
      → (all_orders side (with_side side half elements ob) ≡ resting half)
        × (all_orders (opposite side) (with_side side half elements ob)
            ≡ all_orders (opposite side) ob)
  unfolding all_orders
  all_orders-with_side buy half elements ob = (refl, refl)
  all_orders-with_side sell half elements ob = (refl, refl)

  -- The index read from either side.
  pub held_from :
      (side : Side) (ob : OrderBook D)
      → IsGoodBook ob
      → (id : String)
      → Dict.has id ob.elements
        ≡ (has_order id (all_orders side ob) || has_order id (all_orders (opposite side) ob))
  held_from buy ob g id = g.held id
  held_from sell ob g id =
      g.held id ∙ or_comm (has_order id (all_orders buy ob)) (has_order id (all_orders sell ob))

  unfoldable pub normalized : Order D → Order D
  normalized o = record o { price = normalize_price o.price }

  abbrev pub element_of : Order D → Element D
  element_of o = record { side = o.side; price = o.price }

  insert_resting-eq :
      (ob : OrderBook D) (o : Order D)
      → Dict.has o.order_id ob.elements ≡ false
      → insert_resting ob o
        ≡ with_side o.side
            (push_order (half_for o.side ob) (normalized o))
            (Dict.put o.order_id (element_of (normalized o)) ob.elements)
            ob
  unfolding insert_resting normalized
  insert_resting-eq ob o h = rw h

  insert_resting-GoodChange :
      (ob : OrderBook D) (o : Order D)
      → IsGoodBook ob
      → IsNormal o
      → IsPositive o.quantity
      → Dict.has o.order_id ob.elements ≡ false
      → GoodChange o.side
          (push_order (half_for o.side ob) o)
          (Dict.put o.order_id (element_of o) ob.elements)
          ob
  insert_resting-GoodChange ob o g n pos new =
      let pushed = resting-push_order (half_for o.side ob) o (g.halves o.side) pos in
      record {
        half_good = pushed.0;
        changed = rw pushed.1 (
            rw (← all_orders-resting o.side ob) (record {
              on_side = All-insert _ o.side o _ refl mine.on_side;
              normal = All-insert _ o.side o _ n mine.normal;
              positive = All-insert _ o.side o _ pos mine.positive;
              indexed =
                  All-insert _ o.side o _ (rw (get-put, eq_refl o.order_id) refl)
                    (IsIndexed-put ob.elements o.order_id _ _ absent.0 mine.indexed);
              distinct = IsDistinct-insert o.side o _ absent.0 mine.distinct;
            }));
        unchanged = record {
          on_side = theirs.on_side;
          normal = theirs.normal;
          positive = theirs.positive;
          indexed = IsIndexed-put ob.elements o.order_id _ _ absent.1 theirs.indexed;
          distinct = theirs.distinct;
        };
        index = λ id.
            rw (get-put, pushed.1, ← all_orders-resting o.side ob, has_order-insert)
              (ground (arith, held_from o.side ob g id));
      }
    where
      mine : IsGoodSide o.side ob.elements (all_orders o.side ob)
      mine = g.sides o.side

      theirs : IsGoodSide (opposite o.side) ob.elements (all_orders (opposite o.side) ob)
      theirs = g.sides (opposite o.side)

      absent :
          (has_order o.order_id (all_orders o.side ob) ≡ false)
          × (has_order o.order_id (all_orders (opposite o.side) ob) ≡ false)
      absent = ground (arith, held_from o.side ob g o.order_id)

  normalized-IsNormal : (o : Order D) → IsNormal (normalized o)
  unfolding normalized normalize_price
  normalized-IsNormal o = dec.truncate_idem 8 o.price

  -- A positive order whose id is not in a book with the invariant comes to rest, with its price
  -- normalized, behind every order of its side whose price is not worse and in front of the others;
  -- the other side and the invariant are kept.
  pub insert_resting-new :
      (ob : OrderBook D) (o : Order D)
      → IsGoodBook ob
      → IsPositive o.quantity
      → Dict.has o.order_id ob.elements ≡ false
      → IsGoodBook (insert_resting ob o)
        × (all_orders o.side (insert_resting ob o)
            ≡ insert_order o.side (normalized o) (all_orders o.side ob))
        × (all_orders (opposite o.side) (insert_resting ob o) ≡ all_orders (opposite o.side) ob)
  unfolding normalized
  insert_resting-new ob o g pos new = rw (insert_resting-eq ob o new) (
    with_side-IsGoodBook o.side half _ ob g
        (insert_resting-GoodChange ob (normalized o) g (normalized-IsNormal o) pos new),
    (all_orders-with_side o.side half _ ob).0
        ∙ (resting-push_order (half_for o.side ob) (normalized o) (g.halves o.side) pos).1
        ∙ ap (insert_order o.side (normalized o)) (sym (all_orders-resting o.side ob)),
    (all_orders-with_side o.side half _ ob).1,
  )
    where
      half : Half D
      half = push_order (half_for o.side ob) (normalized o)

  -- An id that the book holds already: nothing changes.
  pub insert_resting-known :
      (ob : OrderBook D) (o : Order D)
      → Dict.has o.order_id ob.elements ≡ true
      → insert_resting ob o ≡ ob
  unfolding insert_resting
  insert_resting-known ob o h = rw h
