-- ===== src/Matching/OrderBook.antt =====
-- matching/orderbook/orderbook.go: one market's resting orders. `Half` groups the two fields that
-- the source keeps for each side (bidLevels with bidPrices, askLevels with askPrices). A
-- `*list.Element` is represented by what stays fixed of the order in the node, and a removal through
-- it takes the first node with that order's id. Where the source would
-- dereference the nil level of a missing key, the model goes on with no orders.
pub mod Match
pub mod Spec
pub mod Prices
pub mod Ladder
pub mod Resting
pub mod Levels
pub mod Orders
pub mod Invariant
pub mod Priority
use project_final_1team.Prelude.{
  ℕ, suc, String, Bool, none, some, List, [], ◌∷◌, ◌++◌, ◌==◌, if◌then◌else◌, length, take, drop,
  min,
}
use project_final_1team.Prelude.Int.{ℤ}
use project_final_1team.Dict
use project_final_1team.Dict.{Dict}
use project_final_1team.Decimal.{Decimal, greater_than}

pub data Side : Type 0 where
  buy sell : Side

pub record Order (D : Type 0) : Type 0 where
  pub order_id : String
  pub market : String
  pub side : Side
  pub price : D
  pub quantity : D
  pub offset : ℤ

pub record Execution (D : Type 0) : Type 0 where
  pub buy_order_id : String
  pub sell_order_id : String
  pub market : String
  pub price : D
  pub quantity : D

pub record LevelView (D : Type 0) : Type 0 where
  pub price : D
  pub quantity : D

pub record PriceLevel (D : Type 0) : Type 0 where
  pub price : D
  pub orders : List (Order D)

pub record Half (D : Type 0) : Type 0 where
  pub levels : Dict (PriceLevel D)
  pub prices : List D

pub record Element (D : Type 0) : Type 0 where
  pub side : Side
  pub price : D

pub record OrderBook (D : Type 0) : Type 0 where
  pub market : String
  pub bids : Half D
  pub asks : Half D
  pub elements : Dict (Element D)

module _ {D : Type 0} where
  unfoldable pub new : String → OrderBook D
  new market = record {
    market = market;
    bids = record { levels = Dict.empty; prices = [] };
    asks = record { levels = Dict.empty; prices = [] };
    elements = Dict.empty;
  }

  -- pricesFor and levelsFor, and the write through what they return.
  abbrev pub half_for : Side → OrderBook D → Half D
  half_for buy ob = ob.bids
  half_for sell ob = ob.asks

  abbrev pub set_half : Side → Half D → OrderBook D → OrderBook D
  set_half buy h ob = record ob { bids = h }
  set_half sell h ob = record ob { asks = h }

  pub remove_node : String → List (Order D) → List (Order D)
  remove_node id [] = []
  remove_node id (o ∷ os) = if o.order_id == id then os else o ∷ remove_node id os

module _ {D : Type 0} ⦃dec : Decimal D⦄ where
  unfoldable pub normalize_price : D → D
  normalize_price p = dec.truncate 8 p

  unfoldable pub min_decimal : D → D → D
  min_decimal a b = if dec.less_than a b then a else b

  -- The test that insertSortedPrice hands to sort.Search: `price` belongs in front of `p`.
  abbrev pub before : Side → D → D → Bool
  before buy price p = dec.less_than p price
  before sell price p = greater_than p price

  -- sort.Search on sorted prices: the least index at which the test holds.
  search_price : Side → D → List D → ℕ
  search_price side price [] = 0
  search_price side price (p ∷ ps) =
      if before side price p then 0 else suc (search_price side price ps)

  unfoldable pub insert_sorted_price : Side → D → List D → List D
  unfolding search_price
  insert_sorted_price side price prices =
      let idx = search_price side price prices in take idx prices ++ price ∷ drop idx prices

  pub remove_price : D → List D → List D
  remove_price price [] = []
  remove_price price (p ∷ ps) = if dec.equal p price then ps else p ∷ remove_price price ps

  pub push_order : Half D → Order D → Half D
  unfolding insert_sorted_price
  push_order half o =
      let key = dec.to_string o.price in
      elim (Dict.get key half.levels) [
        | none ↦ record {
          levels = Dict.put key (record { price = o.price; orders = o ∷ [] }) half.levels;
          prices = insert_sorted_price o.side o.price half.prices;
        }
        | some level ↦ record half {
          levels = Dict.put key (record level { orders = level.orders ++ o ∷ [] }) half.levels;
        }
      ]

  unfoldable pub insert_resting : OrderBook D → Order D → OrderBook D
  unfolding normalize_price push_order
  insert_resting ob o =
      if Dict.has o.order_id ob.elements
      then ob
      else (let o' = record o { price = normalize_price o.price } in
          record (set_half o.side (push_order (half_for o.side ob) o') ob) {
            elements = Dict.put o.order_id (record { side = o.side; price = o'.price }) ob.elements;
          })

  drop_level : D → List (Order D) → Half D → Half D
  drop_level price [] half = record {
    levels = Dict.delete (dec.to_string price) half.levels;
    prices = remove_price price half.prices;
  }
  drop_level price (o ∷ os) half = half

  pub remove_level_if_empty : D → Half D → Half D
  unfolding drop_level
  remove_level_if_empty price half = elim (Dict.get (dec.to_string price) half.levels) [
    | none ↦ half
    | some level ↦ drop_level price level.orders half
  ]

  unfoldable pub restore : OrderBook D → Order D → OrderBook D
  unfolding insert_resting
  restore ob o = insert_resting ob o

  pub size : OrderBook D → ℕ
  size ob = Dict.len ob.elements

  -- The orders of the level at a price, oldest first.
  pub orders_at : Dict (PriceLevel D) → D → List (Order D)
  orders_at levels p = elim (Dict.get (dec.to_string p) levels) [
    | none ↦ []
    | some level ↦ level.orders
  ]

  pub orders_in : Dict (PriceLevel D) → List D → List (Order D)
  orders_in levels [] = []
  orders_in levels (p ∷ ps) = orders_at levels p ++ orders_in levels ps

  unfoldable pub all_orders : Side → OrderBook D → List (Order D)
  unfolding orders_at orders_in
  all_orders side ob = orders_in (half_for side ob).levels (half_for side ob).prices

  pub cancel_at : String → D → Half D → Half D
  cancel_at id price half =
      let key = dec.to_string price in
      elim (Dict.get key half.levels) [
        | none ↦ half
        | some level ↦ remove_level_if_empty price (record half {
          levels = Dict.put key (record level { orders = remove_node id level.orders }) half.levels;
        })
      ]

  unfoldable pub cancel : OrderBook D → String → OrderBook D
  unfolding cancel_at remove_level_if_empty remove_node
  cancel ob id = elim (Dict.get id ob.elements) [
    | none ↦ ob
    | some e ↦ record (set_half e.side (cancel_at id e.price (half_for e.side ob)) ob) {
      elements = Dict.delete id ob.elements;
    }
  ]

  sum_quantities : D → List (Order D) → D
  sum_quantities total [] = total
  sum_quantities total (o ∷ os) = sum_quantities (dec.add total o.quantity) os

  view_of : PriceLevel D → LevelView D
  view_of level = record {
    price = level.price;
    quantity = sum_quantities dec.zero_value level.orders;
  }

  level_views : Dict (PriceLevel D) → List D → List (LevelView D)
  unfolding sum_quantities view_of
  level_views levels [] = []
  level_views levels (p ∷ ps) =
      let rest = level_views levels ps in
      elim (Dict.get (dec.to_string p) levels) [ none ↦ rest | some level ↦ view_of level ∷ rest ]

  unfoldable pub snapshot_side : Half D → ℕ → List (LevelView D)
  unfolding level_views
  snapshot_side half depth =
      level_views half.levels (take (min depth (length half.prices)) half.prices)

  unfoldable pub snapshot : OrderBook D → ℕ → List (LevelView D) × List (LevelView D)
  unfolding snapshot_side
  snapshot ob depth = (snapshot_side ob.bids depth, snapshot_side ob.asks depth)
