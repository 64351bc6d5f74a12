-- ===== src/Recorder/Tables.antt =====
-- recorder/store/mysql.go and store.go: the rows of the tables, the inputs of the batches and their validity.
use Prim.Native.String.{String, ◌++◌ as ◌+++◌}
use project_final_1team.Prelude.{
  Bool, true, false, not, ◌&&◌, ◌||◌, none, some, Option, List, [], ◌∷◌, ◌==◌, if◌then◌else◌,
}

pub data Status : Type 0 where
  accepted partially_filled filled canceled : Status

pub record TradeOrder (D : Type 0) : Type 0 where
  pub order_id : String
  pub client_request_id : Option String
  pub market_code : String
  pub side : String
  pub price : D
  pub submitted_at : String
  pub source_order_id : Option String
  pub quantity : D
  pub remaining_quantity : D
  pub status : Status
  pub mode : String
  pub canceled_at : Option String

unfoldable pub member : String → List String → Bool
member x [] = false
member x (y ∷ ys) = y == x || member x ys

-- recorder/schema.sql: the rows of the table market, to which the other tables refer.
abbrev pub markets : List String
markets =
    "KRW-USDT" ∷ "KRW-BTC" ∷ "KRW-XRP" ∷ "KRW-ETH" ∷ "KRW-ONDO" ∷ "KRW-LA" ∷ "KRW-SHIB" ∷ "KRW-RE"
    ∷ "KRW-DOGE" ∷ "KRW-SLX" ∷ "KRW-KAITO" ∷ "KRW-SOL" ∷ "KRW-XLM" ∷ "KRW-WLD" ∷ "KRW-MIRA"
    ∷ "KRW-ERA" ∷ "KRW-ADA" ∷ "KRW-AI" ∷ "KRW-NEAR" ∷ "KRW-ARX" ∷ []

pub record ExecutionRow (D : Type 0) : Type 0 where
  pub execution_id : String
  pub market_code : String
  pub price : D
  pub buy_order_id : String
  pub sell_order_id : String
  pub quantity : D
  pub mode : Option String

pub record Tables (D : Type 0) : Type 0 where
  pub trade_order : List (TradeOrder D)
  pub execution : List (ExecutionRow D)

pub record NewOrder : Type 0 where
  pub order_id : String
  pub client_request_id : String
  pub market : String
  pub side : String
  pub price : String
  pub quantity : String
  pub submitted_at : String
  pub source_order_id : String
  pub mode : String

pub record CancelInput : Type 0 where
  pub order_id : String
  pub canceled_at : String

-- With the id that idgen makes for it.
pub record ExecutionInput : Type 0 where
  pub execution_id : String
  pub market : String
  pub price : String
  pub buy_order_id : String
  pub sell_order_id : String
  pub quantity : String

pub record ExecutionResult : Type 0 where
  pub execution_id : String
  pub mode : String
  pub buy_found : Bool
  pub sell_found : Bool
  pub mode_mismatched : Bool
  pub inserted : Bool

-- recorder/store/apply.go: the mode, and whether the two modes differ.
unfoldable pub resolve_mode : Option String → Option String → String × Bool
resolve_mode (some buy) (some sell) = (buy, not (buy == sell))
resolve_mode (some buy) none = (buy, false)
resolve_mode none (some sell) = (sell, false)
resolve_mode none none = ("", false)

abbrev pub null_if_empty : String → Option String
null_if_empty s = if s == "" then none else some s

-- parseTimestamp succeeds for every order, and for the first cancellation of each order.
unfoldable pub valid_orders : (String → Bool) → List NewOrder → Bool
valid_orders valid_time [] = true
valid_orders valid_time (o ∷ os) = valid_time o.submitted_at && valid_orders valid_time os

unfoldable pub valid_cancels : (String → Bool) → List String → List CancelInput → Bool
unfolding member
valid_cancels valid_time seen [] = true
valid_cancels valid_time seen (c ∷ cs) =
    let again = valid_cancels valid_time seen cs in
    let rest = valid_cancels valid_time (c.order_id ∷ seen) cs in
    if member c.order_id seen then again else valid_time c.canceled_at && rest

abbrev pub names : String → List NewOrder → Bool
names id [] = false
names id (o ∷ os) = o.order_id == id || names id os

-- The first cancellation of an order in a batch is the one that counts.
unfoldable pub cancellation : String → List CancelInput → Option String
cancellation id [] = none
cancellation id (c ∷ cs) = if c.order_id == id then some c.canceled_at else cancellation id cs

abbrev pub any_input : (ExecutionInput → Bool) → List ExecutionInput → Bool
any_input test [] = false
any_input test (e ∷ es) = test e || any_input test es

abbrev pub pair_key : String → String → String
pair_key buy sell = buy +++ "|" +++ sell
