-- ===== src/Matching/OrderBook/Spec.antt =====
-- What a side of the book promises, over the plain list of its orders in priority: the best price
-- first, and at one price the oldest first.
use project_final_1team.Prelude.{
  ◌≡◌, String, Bool, false, ◌&&◌, ◌||◌, List, [], ◌∷◌, ◌==◌, All, if◌then◌else◌,
}
use project_final_1team.Decimal.{Decimal, is_zero}
use project_final_1team.Matching.OrderBook.{Side, Order, Execution, before}
use project_final_1team.Matching.OrderBook.Match.{
  crosses, wants_more, fill_quantity, take_from, execution,
}

pub record Filled (D : Type 0) : Type 0 where
  pub incoming : Order D
  pub resting : List (Order D)
  pub executions : List (Execution D)
  -- The resting orders that leave the book.
  pub used_up : List (Order D)

module _ {D : Type 0} ⦃dec : Decimal D⦄ where
  -- A new order goes behind every order whose price is not worse.
  abbrev pub insert_order : Side → Order D → List (Order D) → List (Order D)
  insert_order side o [] = o ∷ []
  insert_order side o (x ∷ xs) =
      if before side o.price x.price then o ∷ x ∷ xs else x ∷ insert_order side o xs

  -- Nothing happens.
  abbrev pub unfilled : Order D → List (Order D) → Filled D
  unfilled incoming xs = record { incoming = incoming; resting = xs; executions = []; used_up = [] }

  -- The incoming order takes from the front until it is filled or meets a price that does not cross.
  unfoldable pub fill_orders : String → Order D → List (Order D) → Filled D
  fill_orders market incoming [] = unfilled incoming []
  fill_orders market incoming (x ∷ xs) =
      let fill = fill_quantity incoming x in
      let x' = take_from x fill in
      let rest = fill_orders market (take_from incoming fill) xs in
      let first = execution market incoming x in
      if wants_more incoming && crosses incoming x.price
      then (if is_zero x'.quantity
          then record rest { executions = first ∷ rest.executions; used_up = x ∷ rest.used_up }
          else record {
            incoming = take_from incoming fill;
            resting = x' ∷ xs;
            executions = first ∷ [];
            used_up = [];
          })
      else unfilled incoming (x ∷ xs)

  -- Priority: no order stands in front of a better price.
  abbrev pub IsPrioritized : Side → List (Order D) → Type 0
  IsPrioritized side [] = Unit
  IsPrioritized side (x ∷ xs) =
      All (λ y. before side y.price x.price ≡ false) xs × IsPrioritized side xs

module _ {D : Type 0} where
  abbrev pub remove_order : String → List (Order D) → List (Order D)
  remove_order id [] = []
  remove_order id (x ∷ xs) = if x.order_id == id then xs else x ∷ remove_order id xs

  abbrev pub has_order : String → List (Order D) → Bool
  has_order id [] = false
  has_order id (x ∷ xs) = x.order_id == id || has_order id xs

  -- No two orders share an id.
  abbrev pub IsDistinct : List (Order D) → Type 0
  IsDistinct [] = Unit
  IsDistinct (x ∷ xs) = (has_order x.order_id xs ≡ false) × IsDistinct xs
