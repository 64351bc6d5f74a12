-- ===== src/Trader/TickSize.antt =====
-- trader/order/ticksize.go: the tick of a price and the rounding to it. Its floating-point operations
-- are those of OrderApi.Validate, and the multiplication.
pub mod Agreement
use Prim.Native.String.{String}
use project_final_1team.Prelude.{ℕ, List, [], ◌∷◌, if◌then◌else◌}
use project_final_1team.OrderApi.Validate.{Float}

pub record Tier : Type 0 where
  pub least : String
  pub tick : String
  pub decimals : ℕ

abbrev pub tier : String → String → ℕ → Tier
tier least tick decimals = record { least = least; tick = tick; decimals = decimals }

-- The last tier stands after the loop too.
abbrev pub last_tier : Tier
last_tier = tier "0" "0.00000001" 8

abbrev pub price_tiers : List Tier
price_tiers =
    tier "2000000" "1000" 0
    ∷ tier "1000000" "500" 0
    ∷ tier "500000" "100" 0
    ∷ tier "100000" "50" 0
    ∷ tier "10000" "10" 0
    ∷ tier "1000" "1" 0
    ∷ tier "100" "0.1" 1
    ∷ tier "10" "0.01" 2
    ∷ tier "1" "0.001" 3
    ∷ tier "0.1" "0.0001" 4
    ∷ tier "0.01" "0.00001" 5
    ∷ tier "0.001" "0.000001" 6
    ∷ tier "0.0001" "0.0000001" 7
    ∷ last_tier
    ∷ []

pub record Rounded (F : Type 0) : Type 0 where
  pub price : F
  pub decimals : ℕ

module _ {F : Type 0} (float : Float F) where
  unfoldable pub tier_in : List Tier → F → Tier
  tier_in [] price = last_tier
  tier_in (t ∷ ts) price =
      let rest = tier_in ts price in
      if float.greater_or_equal price (float.literal t.least) then t else rest

  unfoldable pub tick_tier : F → Tier
  unfolding tier_in
  tick_tier price = tier_in price_tiers price

  unfoldable pub round_to_tick : (F → F → F) → F → Rounded F
  unfolding tick_tier
  round_to_tick multiply price =
      let t = tick_tier price in
      let tick = float.literal t.tick in
      record {
        price = multiply (float.round (float.divide price tick)) tick;
        decimals = t.decimals;
      }
