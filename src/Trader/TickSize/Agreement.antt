-- ===== src/Trader/TickSize/Agreement.antt =====
-- trader/order/ticksize.go against orderapi/validate/validate.go: the two tables of ticks.
use project_final_1team.Prelude.{
  ◌≡◌, refl, if◌then◌else◌, true, false, List, [], ◌∷◌, map, String, ap, sym,
}
use project_final_1team.OrderApi.Validate.{Float, tick_in, tick_size_for}
use project_final_1team.Trader.TickSize.{Tier, price_tiers, tier_in, tick_tier, round_to_tick}

-- What the order API keeps of a tier.
abbrev priced : Tier → String × String
priced t = (t.least, t.tick)

module _ {F : Type 0} (float : Float F) where
  tick_in-tier_in :
      (ts : List Tier) (price : F)
      → tick_in float (map priced ts) price ≡ float.literal (tier_in float ts price).tick
  unfolding tier_in tick_in
  tick_in-tier_in [] price = refl
  tick_in-tier_in (t ∷ ts) price =
      elim (float.greater_or_equal price (float.literal t.least))
        as (λ b.
          (if b then float.literal t.tick else tick_in float (map priced ts) price)
          ≡ float.literal (if b then t else tier_in float ts price).tick) [
            | true ↦ refl
            | false ↦ tick_in-tier_in ts price
          ]

  -- RoundToTick rounds a price to a multiple of the tick that the order API validates that price
  -- against: the price divided by the tick of tickSizeFor, rounded and multiplied by that tick.
  pub round_to_tick-tick_size_for :
      (multiply : F → F → F) (price : F)
      → (round_to_tick float multiply price).price
        ≡ multiply
            (float.round (float.divide price (tick_size_for float price)))
            (tick_size_for float price)
  unfolding round_to_tick tick_tier tick_size_for
  round_to_tick-tick_size_for multiply price =
      ap (λ t. multiply (float.round (float.divide price t)) t)
        (sym (tick_in-tier_in price_tiers price))
