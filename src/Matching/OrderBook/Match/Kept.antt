-- ===== src/Matching/OrderBook/Match/Kept.antt =====
-- What filling keeps: ids, sides and prices; and which orders leave the book.
use project_final_1team.Prelude.{
  ◌≡◌, refl, ◌∙◌, true, false, String, List, [], ◌∷◌, eq_iff, ◌||◌, arith, All, if◌then◌else◌,
}
use project_final_1team.Dict
use project_final_1team.Dict.{Dict, get-delete}
use project_final_1team.Decimal.{Decimal, IsPositive}
use project_final_1team.Matching.OrderBook.{Order, Element}
use project_final_1team.Matching.OrderBook.Match.{fill_quantity, take_from}
use project_final_1team.Matching.OrderBook.Match.Fill.{delete_all, rest-IsPositive}
use project_final_1team.Matching.OrderBook.Match.Append.{fill_orders-cases}
use project_final_1team.Matching.OrderBook.Spec.{Filled, fill_orders, has_order, IsDistinct}
use project_final_1team.Matching.OrderBook.Orders.{IsIndexed, IsIndexed-delete}

module _ {D : Type 0} ⦃dec : Decimal D⦄ where
  -- The same order but for its quantity.
  pub record SameOrder (o o' : Order D) : Type 0 where
    pub order_id : o'.order_id ≡ o.order_id
    pub side : o'.side ≡ o.side
    pub price : o'.price ≡ o.price

  SameOrder-take_from :
      (o : Order D) (fill : D) (o' : Order D) → SameOrder (take_from o fill) o' → SameOrder o o'
  unfolding take_from
  SameOrder-take_from o fill o' r = record { order_id = r.order_id; side = r.side; price = r.price }

  -- The incoming order keeps its id, side and price.
  pub fill_orders-SameOrder :
      (market : String) (inc : Order D) (xs : List (Order D))
      → SameOrder inc (fill_orders market inc xs).incoming
  fill_orders-SameOrder market inc [] =
      unfold fill_orders in record { order_id = refl; side = refl; price = refl }
  fill_orders-SameOrder market inc (x ∷ xs) =
      fill_orders-cases (λ f. SameOrder inc f.incoming) market inc x xs
        (λ _. record { order_id = refl; side = refl; price = refl })
        (λ _. record { order_id = refl; side = refl; price = refl })
        (λ _ _ _.
          SameOrder-take_from inc (fill_quantity inc x) _
            (fill_orders-SameOrder market (take_from inc (fill_quantity inc x)) xs))
        (λ _ _ _. unfold take_from in record { order_id = refl; side = refl; price = refl })

  -- A property of ids, sides and prices holds of what is left.
  pub fill_orders-All {ℓ} :
      (P : Order D → Type ℓ)
      → ((o : Order D) (fill : D) → P o → P (take_from o fill))
      → (market : String) (inc : Order D) (xs : List (Order D)) → All P xs
      → All P (fill_orders market inc xs).resting
  fill_orders-All P keep market inc [] h = unfold fill_orders in tt
  fill_orders-All P keep market inc (x ∷ xs) h =
      fill_orders-cases (λ f. All P f.resting) market inc x xs (λ _. h) (λ _. h)
        (λ _ _ _. fill_orders-All P keep market (take_from inc (fill_quantity inc x)) xs h.1)
        (λ _ _ _. (keep x (fill_quantity inc x) h.0, h.1))

  pub fill_orders-IsPositive :
      (market : String) (inc : Order D) (xs : List (Order D))
      → All (λ o. IsPositive o.quantity) xs
      → All (λ o. IsPositive o.quantity) (fill_orders market inc xs).resting
  fill_orders-IsPositive market inc [] h = unfold fill_orders in tt
  fill_orders-IsPositive market inc (x ∷ xs) h =
      fill_orders-cases (λ f. All (λ o. IsPositive o.quantity) f.resting) market inc x xs (λ _. h)
        (λ _. h)
        (λ _ _ _. fill_orders-IsPositive market (take_from inc (fill_quantity inc x)) xs h.1)
        (λ _ _ z. (rest-IsPositive inc x z, h.1))

  -- The ids are shared out between what is left and what is used up.
  pub fill_orders-ids :
      (market : String) (id : String) (inc : Order D) (xs : List (Order D))
      → let f = fill_orders market inc xs in
        has_order id xs ≡ (has_order id f.used_up || has_order id f.resting)
  fill_orders-ids market id inc [] = unfold fill_orders in refl
  fill_orders-ids market id inc (x ∷ xs) =
      fill_orders-cases
        (λ f. has_order id (x ∷ xs) ≡ (has_order id f.used_up || has_order id f.resting)) market inc
        x xs (λ _. refl) (λ _. refl)
        (λ _ _ _.
          ground (arith, fill_orders-ids market id (take_from inc (fill_quantity inc x)) xs))
        (λ _ _ _. unfold take_from in refl)

  abbrev Apart : String → Filled D → Type 0
  Apart id f = (has_order id f.used_up ≡ true) → has_order id f.resting ≡ false

  pub fill_orders-Apart :
      (market : String) (id : String) (inc : Order D) (xs : List (Order D))
      → IsDistinct xs
      → Apart id (fill_orders market inc xs)
  fill_orders-Apart market id inc [] h = unfold fill_orders in λ k. refl
  fill_orders-Apart market id inc (x ∷ xs) h =
      fill_orders-cases (Apart id) market inc x xs (λ _ k. cc) (λ _ k. cc)
        (λ _ _ _ k.
          let inc' = take_from inc (fill_quantity inc x) in
          ground (
            arith,
            h.0,
            fill_orders-Apart market id inc' xs h.1,
            fill_orders-ids market id inc' xs,
            fill_orders-ids market x.order_id inc' xs,
            eq_iff x.order_id id,
          ))
        (λ _ _ _ k. cc)

  pub fill_orders-IsDistinct :
      (market : String) (inc : Order D) (xs : List (Order D))
      → IsDistinct xs
      → IsDistinct (fill_orders market inc xs).resting
  fill_orders-IsDistinct market inc [] h = unfold fill_orders in tt
  fill_orders-IsDistinct market inc (x ∷ xs) h =
      fill_orders-cases (λ f. IsDistinct f.resting) market inc x xs (λ _. h) (λ _. h)
        (λ _ _ _. fill_orders-IsDistinct market (take_from inc (fill_quantity inc x)) xs h.1)
        (λ _ _ _. unfold take_from in h)

  pub has-delete_all :
      (id : String) (os : List (Order D)) (elements : Dict (Element D))
      → Dict.has id (delete_all os elements)
        ≡ (if has_order id os then false else Dict.has id elements)
  unfolding delete_all
  has-delete_all id [] elements = refl
  has-delete_all id (o ∷ os) elements =
      has-delete_all id os (Dict.delete o.order_id elements) ∙ rw get-delete (ground arith)

  pub IsIndexed-delete_all :
      (used os : List (Order D)) (elements : Dict (Element D))
      → All (λ o. has_order o.order_id os ≡ false) used
      → All (IsIndexed elements) os
      → All (IsIndexed (delete_all used elements)) os
  unfolding delete_all
  IsIndexed-delete_all [] os elements h k = k
  IsIndexed-delete_all (u ∷ us) os elements h k =
      IsIndexed-delete_all us os (Dict.delete u.order_id elements) h.1
        (IsIndexed-delete elements u.order_id os h.0 k)

  -- What is used up is not left.
  pub fill_orders-gone :
      (market : String) (inc : Order D) (xs : List (Order D))
      → IsDistinct xs
      → All
          (λ o. has_order o.order_id (fill_orders market inc xs).resting ≡ false)
          (fill_orders market inc xs).used_up
  fill_orders-gone market inc [] h = unfold fill_orders in tt
  fill_orders-gone market inc (x ∷ xs) h =
      fill_orders-cases (λ f. All (λ o. has_order o.order_id f.resting ≡ false) f.used_up) market
        inc x xs (λ _. tt) (λ _. tt)
        (λ _ _ _.
          let inc' = take_from inc (fill_quantity inc x) in
          (
            ground (arith, h.0, fill_orders-ids market x.order_id inc' xs),
            fill_orders-gone market inc' xs h.1,
          ))
        (λ _ _ _. tt)

  -- The orders used up are orders of the list.
  pub fill_orders-used_up {ℓ} :
      (P : Order D → Type ℓ) (market : String) (inc : Order D) (xs : List (Order D))
      → All P xs
      → All P (fill_orders market inc xs).used_up
  fill_orders-used_up P market inc [] h = unfold fill_orders in tt
  fill_orders-used_up P market inc (x ∷ xs) h =
      fill_orders-cases (λ f. All P f.used_up) market inc x xs (λ _. tt) (λ _. tt)
        (λ _ _ _. (h.0, fill_orders-used_up P market (take_from inc (fill_quantity inc x)) xs h.1))
        (λ _ _ _. tt)
