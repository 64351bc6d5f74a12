-- ===== src/Matching/OrderBook/Match.antt =====
-- matching/orderbook/match.go: Apply and matchIncoming. The inner loop has the resting orders of the
-- level for fuel and the outer loop the prices: every pass takes one away or fills the incoming order.
pub mod Fill
pub mod Executions
pub mod Conservation
pub mod Uncrossed
pub mod Refine
pub mod Filling
pub mod Kept
pub mod Loop
pub mod Pass
pub mod Append
pub mod Pairs
pub mod Determined
use project_final_1team.Prelude.{
  ℕ, zero, suc, String, Bool, true, false, none, some, List, [], ◌∷◌, ◌++◌, if◌then◌else◌, length,
}
use project_final_1team.Dict
use project_final_1team.Dict.{Dict}
use project_final_1team.Decimal.{
  Decimal, greater_than, greater_than_or_equal, less_than_or_equal, is_zero,
}
use project_final_1team.Matching.OrderBook.{
  Side, buy, sell, Order, Execution, Element, Half, OrderBook, half_for, set_half, min_decimal,
  normalize_price, insert_resting, remove_level_if_empty,
}

abbrev pub opposite : Side → Side
opposite buy = sell
opposite sell = buy

-- The variables of the inner loop; `executions` is in order of occurrence.
pub record LevelState (D : Type 0) : Type 0 where
  pub incoming : Order D
  pub orders : List (Order D)
  pub elements : Dict (Element D)
  pub executions : List (Execution D)

-- The variables of the outer loop; `half` is the side that the incoming order meets.
pub record MatchState (D : Type 0) : Type 0 where
  pub incoming : Order D
  pub half : Half D
  pub elements : Dict (Element D)
  pub executions : List (Execution D)

module _ {D : Type 0} ⦃dec : Decimal D⦄ where
  -- The closure `crosses` of Apply: does an incoming order at `limit` meet a resting price?
  abbrev pub meets : Side → D → D → Bool
  meets buy limit resting = less_than_or_equal resting limit
  meets sell limit resting = greater_than_or_equal resting limit

  abbrev pub crosses : Order D → D → Bool
  crosses incoming = meets incoming.side incoming.price

  abbrev pub wants_more : Order D → Bool
  wants_more incoming = greater_than incoming.quantity dec.zero_value

  -- The amount of one execution, and both orders after it.
  unfoldable pub fill_quantity : Order D → Order D → D
  unfolding min_decimal
  fill_quantity incoming resting = min_decimal incoming.quantity resting.quantity

  unfoldable pub take_from : Order D → D → Order D
  take_from o fill = record o { quantity = dec.sub o.quantity fill }

  unfoldable pub execution : String → Order D → Order D → Execution D
  unfolding fill_quantity
  execution market incoming resting = record {
    buy_order_id = elim incoming.side [ buy ↦ incoming.order_id | sell ↦ resting.order_id ];
    sell_order_id = elim incoming.side [ buy ↦ resting.order_id | sell ↦ incoming.order_id ];
    market = market;
    price = resting.price;
    quantity = fill_quantity incoming resting;
  }

  pub fill_front : String → LevelState D → Order D → List (Order D) → LevelState D
  unfolding fill_quantity take_from execution
  fill_front market s resting rest =
      let fill = fill_quantity s.incoming resting in
      let resting' = take_from resting fill in
      let used_up = is_zero resting'.quantity in
      record {
        incoming = take_from s.incoming fill;
        orders = if used_up then rest else resting' ∷ rest;
        elements = if used_up then Dict.delete resting.order_id s.elements else s.elements;
        executions = s.executions ++ execution market s.incoming resting ∷ [];
      }

  pub fill_level : String → ℕ → LevelState D → LevelState D
  unfolding fill_front
  fill_level market zero s = s
  fill_level market (suc n) s = elim (wants_more s.incoming) [
    | false ↦ s
    | true ↦ elim s.orders [
      | [] ↦ s
      | resting ∷ rest ↦ fill_level market n (fill_front market s resting rest)
    ]
  ]

  pub match_best : String → D → MatchState D → MatchState D
  unfolding fill_level remove_level_if_empty
  match_best market best s =
      let key = dec.to_string best in
      elim (Dict.get key s.half.levels) [
        | none ↦ s
        | some level ↦
            let filled = fill_level market (length level.orders) (record {
              incoming = s.incoming;
              orders = level.orders;
              elements = s.elements;
              executions = s.executions;
            }) in
            let levels = Dict.put key (record level { orders = filled.orders }) s.half.levels in
            record {
              incoming = filled.incoming;
              half = remove_level_if_empty best (record s.half { levels = levels });
              elements = filled.elements;
              executions = filled.executions;
            }
      ]

  pub match_loop : String → ℕ → MatchState D → MatchState D
  unfolding match_best
  match_loop market zero s = s
  match_loop market (suc n) s = elim (wants_more s.incoming) [
    | false ↦ s
    | true ↦ elim s.half.prices [
      | [] ↦ s
      | best ∷ _ ↦ elim (crosses s.incoming best) [
        | false ↦ s
        | true ↦ match_loop market n (match_best market best s)
      ]
    ]
  ]

  unfoldable pub match_incoming : OrderBook D → Order D → MatchState D
  unfolding match_loop
  match_incoming ob incoming =
      let half = half_for (opposite incoming.side) ob in
      match_loop ob.market (length half.prices)
        (record { incoming = incoming; half = half; elements = ob.elements; executions = [] })

  -- The book after the loop, in which the incoming order does not rest yet.
  unfoldable pub matched_book : OrderBook D → Order D → OrderBook D
  unfolding match_incoming
  matched_book ob incoming =
      let s = match_incoming ob incoming in
      record (set_half (opposite incoming.side) s.half ob) { elements = s.elements }

  unfoldable pub apply : OrderBook D → Order D → OrderBook D × List (Execution D)
  unfolding matched_book insert_resting normalize_price
  apply ob order =
      if Dict.has order.order_id ob.elements
      then (ob, [])
      else (let incoming = record order { price = normalize_price order.price } in
          let s = match_incoming ob incoming in
          let book = matched_book ob incoming in
          (if wants_more s.incoming then insert_resting book s.incoming else book, s.executions))
