-- ===== src/Matching/OrderBook/Orders.antt =====
-- Lists of orders: ids, insertion and removal, and the index of a book over them.
use project_final_1team.Prelude.{
  ◌≡◌, refl, ◌∙◌, inl, inr, false, some, String, List, [], ◌∷◌, ◌==◌, eq_iff, ◌||◌, arith,
  Bool-cases, All, if◌then◌else◌,
}
use project_final_1team.Dict
use project_final_1team.Dict.{Dict, get-put, get-delete}
use project_final_1team.Decimal.{Decimal}
use project_final_1team.Matching.OrderBook.{Side, Order, Element, before}
use project_final_1team.Matching.OrderBook.Spec.{insert_order, remove_order, has_order, IsDistinct}

module _ {D : Type 0} where
  -- The book's index holds an order with its side and price.
  abbrev pub IsIndexed : Dict (Element D) → Order D → Type 0
  IsIndexed elements o =
      Dict.get o.order_id elements ≡ some (record { side = o.side; price = o.price })

  pub IsIndexed-put :
      (elements : Dict (Element D)) (id : String) (e : Element D) (os : List (Order D))
      → has_order id os ≡ false
      → All (IsIndexed elements) os
      → All (IsIndexed (Dict.put id e elements)) os
  IsIndexed-put elements id e [] h k = tt
  IsIndexed-put elements id e (o ∷ os) h k = (
    rw get-put (ground (arith, k.0, eq_iff id o.order_id, eq_iff o.order_id id)),
    IsIndexed-put elements id e os (ground arith) k.1,
  )

  pub IsIndexed-delete :
      (elements : Dict (Element D)) (id : String) (os : List (Order D))
      → has_order id os ≡ false
      → All (IsIndexed elements) os
      → All (IsIndexed (Dict.delete id elements)) os
  IsIndexed-delete elements id [] h k = tt
  IsIndexed-delete elements id (o ∷ os) h k = (
    rw get-delete (ground (arith, k.0, eq_iff id o.order_id, eq_iff o.order_id id)),
    IsIndexed-delete elements id os (ground arith) k.1,
  )

  pub has_order-remove :
      (id j : String) (os : List (Order D))
      → IsDistinct os
      → has_order j (remove_order id os) ≡ (if id == j then false else has_order j os)
  has_order-remove id j [] h = ground arith
  has_order-remove id j (o ∷ os) h =
      ground (
        arith,
        has_order-remove id j os,
        h.0,
        eq_iff o.order_id id,
        eq_iff o.order_id j,
        eq_iff id j,
      )

  pub IsDistinct-remove :
      (id : String) (os : List (Order D)) → IsDistinct os → IsDistinct (remove_order id os)
  IsDistinct-remove id [] h = tt
  IsDistinct-remove id (o ∷ os) h = elim (Bool-cases (o.order_id == id)) [
    | inl e ↦ rw e h.1
    | inr e ↦ rw e (
      has_order-remove id o.order_id os h.1
          ∙ ground (arith, h.0, eq_iff id o.order_id, eq_iff o.order_id id),
      IsDistinct-remove id os h.1,
    )
  ]

module _ {D : Type 0} ⦃dec : Decimal D⦄ where
  pub has_order-insert :
      (side : Side) (id : String) (o : Order D) (os : List (Order D))
      → has_order id (insert_order side o os) ≡ (o.order_id == id || has_order id os)
  has_order-insert side id o [] = refl
  has_order-insert side id o (x ∷ xs) = elim (Bool-cases (before side o.price x.price)) [
    | inl e ↦ rw e
    | inr e ↦ rw e (ground (arith, has_order-insert side id o xs))
  ]

  pub All-insert {ℓ} :
      (P : Order D → Type ℓ) (side : Side) (o : Order D) (os : List (Order D))
      → P o
      → All P os
      → All P (insert_order side o os)
  All-insert P side o [] h k = (h, tt)
  All-insert P side o (x ∷ xs) h k = elim (Bool-cases (before side o.price x.price)) [
    | inl e ↦ rw e (h, k)
    | inr e ↦ rw e (k.0, All-insert P side o xs h k.1)
  ]

  pub IsDistinct-insert :
      (side : Side) (o : Order D) (os : List (Order D))
      → has_order o.order_id os ≡ false
      → IsDistinct os
      → IsDistinct (insert_order side o os)
  IsDistinct-insert side o [] h k = (refl, tt)
  IsDistinct-insert side o (x ∷ xs) h k = elim (Bool-cases (before side o.price x.price)) [
    | inl e ↦ rw e (h, k)
    | inr e ↦ rw e (
      has_order-insert side x.order_id o xs
          ∙ ground (arith, k.0, eq_iff o.order_id x.order_id, eq_iff x.order_id o.order_id),
      IsDistinct-insert side o xs (ground arith) k.1,
    )
  ]
