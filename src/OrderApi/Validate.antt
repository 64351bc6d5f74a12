-- ===== src/OrderApi/Validate.antt =====
-- orderapi/validate/validate.go: the rules of an order request. Its floating-point operations are the
-- record Float; a problem is an error code with its message, and `none` is the source's ok.
use Prim.Native.String.{String, ◌++◌}
use project_final_1team.Prelude.{
  Bool, false, not, ◌&&◌, ◌||◌, none, some, Option, List, [], ◌∷◌, ◌==◌, if◌then◌else◌,
}

pub record Problem : Type 0 where
  pub code : String
  pub message : String

pub record Float (F : Type 0) : Type 0 where
  -- strconv.ParseFloat, where `none` is an error, and FormatFloat.
  pub parse_float : String → Option F
  pub format_float : F → String
  -- The float64 of a literal in the source.
  pub literal : String → F
  pub greater_or_equal : F → F → Bool
  pub less_than : F → F → Bool
  pub divide : F → F → F
  pub subtract : F → F → F
  pub round : F → F
  pub absolute : F → F

abbrev pub target_markets : List String
target_markets =
    "KRW-USDT" ∷ "KRW-BTC" ∷ "KRW-XRP" ∷ "KRW-ETH" ∷ "KRW-ONDO" ∷ "KRW-LA" ∷ "KRW-SHIB" ∷ "KRW-RE"
    ∷ "KRW-DOGE" ∷ "KRW-SLX" ∷ "KRW-KAITO" ∷ "KRW-SOL" ∷ "KRW-XLM" ∷ "KRW-WLD" ∷ "KRW-MIRA"
    ∷ "KRW-ERA" ∷ "KRW-ADA" ∷ "KRW-AI" ∷ "KRW-NEAR" ∷ "KRW-ARX" ∷ []

-- slices.Contains
contains : String → List String → Bool
contains s [] = false
contains s (x ∷ xs) = x == s || contains s xs

unfoldable pub is_target_market : String → Bool
unfolding contains
is_target_market market = contains market target_markets

-- The least price of a tier and its tick.
abbrev pub tick_tiers : List (String × String)
tick_tiers =
    ("2000000", "1000")
    ∷ ("1000000", "500")
    ∷ ("500000", "100")
    ∷ ("100000", "50")
    ∷ ("10000", "10")
    ∷ ("1000", "1")
    ∷ ("100", "0.1")
    ∷ ("10", "0.01")
    ∷ ("1", "0.001")
    ∷ ("0.1", "0.0001")
    ∷ ("0.01", "0.00001")
    ∷ ("0.001", "0.000001")
    ∷ ("0.0001", "0.0000001")
    ∷ ("0", "0.00000001")
    ∷ []

unfoldable pub validate_side : String → Option Problem
validate_side side =
    if not (side == "BUY") && not (side == "SELL")
    then some (record { code = "INVALID_SIDE"; message = "side는 BUY 또는 SELL이어야 합니다." })
    else none

module _ {F : Type 0} (float : Float F) where
  -- The tick of the last tier stands after the loop.
  unfoldable pub tick_in : List (String × String) → F → F
  tick_in [] price = float.literal "0.00000001"
  tick_in ((least, tick) ∷ tiers) price =
      let rest = tick_in tiers price in
      if float.greater_or_equal price (float.literal least) then float.literal tick else rest

  unfoldable pub tick_size_for : F → F
  unfolding tick_in
  tick_size_for price = tick_in tick_tiers price

  unfoldable pub is_valid_tick_price : F → Bool
  unfolding tick_size_for
  is_valid_tick_price price =
      let ratio = float.divide price (tick_size_for price) in
      float.less_than (float.absolute (float.subtract ratio (float.round ratio)))
        (float.literal "1e-6")

  -- x <= 0
  abbrev not_positive : F → Bool
  not_positive x = float.greater_or_equal (float.literal "0") x

  abbrev invalid_price : Problem
  invalid_price = record { code = "INVALID_PRICE"; message = "가격이 0 이하이거나 형식 오류입니다." }

  abbrev invalid_quantity : Problem
  invalid_quantity = record { code = "INVALID_QUANTITY"; message = "수량이 0 이하이거나 형식 오류입니다." }

  unfoldable pub validate_price : String → String → Option Problem
  unfolding is_valid_tick_price tick_size_for
  validate_price market text = elim (float.parse_float text) [
    | none ↦ some invalid_price
    | some price ↦
        if not_positive price
        then some invalid_price
        else (if is_valid_tick_price price
            then none
            else some (record {
              code = "INVALID_PRICE_UNIT";
              message =
                  "가격이 "
                  ++ market
                  ++ "의 호가 단위("
                  ++ float.format_float (tick_size_for price)
                  ++ "원)의 배수가 아닙니다.";
            }))
  ]

  unfoldable pub validate_quantity : String → Option Problem
  validate_quantity text = elim (float.parse_float text) [
    | none ↦ some invalid_quantity
    | some quantity ↦ if not_positive quantity then some invalid_quantity else none
  ]
