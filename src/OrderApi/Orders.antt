-- ===== src/OrderApi/Orders.antt =====
-- orderapi/order/order.go: the accepted orders, for cancellations. `DecimalText` is what the package
-- decimal reads from a string; a status is the source's string constant.
pub mod Fills
use project_final_1team.Prelude.{
  ℕ, String, ◌≡◌, Bool, true, false, none, some, Option, not, ◌==◌, if◌then◌else◌,
}
use project_final_1team.Dict
use project_final_1team.Dict.{Dict}
use project_final_1team.Decimal.{Decimal, less_than_or_equal}
use project_final_1team.OrderApi.Sweep.{Swept, sweep}

pub data Status : Type 0 where
  accepted partially_filled filled canceled : Status

pub record Order : Type 0 where
  pub order_id : String
  pub market : String
  pub side : String
  pub price : String
  pub quantity : String
  pub status : Status
  pub accepted_at : String
  pub canceled_quantity : String
  pub canceled_at : String
  pub remaining_quantity : String

pub record Orders : Type 0 where
  pub orders : Dict Order
  pub inserted_at : Dict ℕ

-- NewFromString: `none` is an error. String writes a text that is read as the same number.
pub record DecimalText (D : Type 0) ⦃dec : Decimal D⦄ : Type 0 where
  pub new_from_string : String → Option D
  pub reads_back : (d : D) → new_from_string (dec.to_string d) ≡ some d
  pub reads_zero : new_from_string "0" ≡ some dec.zero_value

unfoldable pub new_store : Orders
new_store = record { orders = Dict.empty; inserted_at = Dict.empty }

unfoldable pub get : Orders → String → Option Order
get s id = Dict.get id s.orders

unfoldable pub save : ℕ → Order → Orders → Orders
save now o s =
    let o' =
      if o.remaining_quantity == "" then record o { remaining_quantity = o.quantity } else o in
    record {
      orders = Dict.put o.order_id o' s.orders;
      inserted_at = Dict.put o.order_id now s.inserted_at;
    }

unfoldable pub sweep_orders : ℕ → ℕ → Orders → Orders × ℕ
sweep_orders now max_age s =
    let swept = sweep now max_age s.orders s.inserted_at in
    (record { orders = swept.values; inserted_at = swept.inserted_at }, swept.removed)

module _ {D : Type 0} ⦃dec : Decimal D⦄ (text : DecimalText D) where
  -- The remaining quantity that an order holds: a text that is no number counts as zero.
  unfoldable pub remaining_of : Order → D
  remaining_of o = elim (text.new_from_string o.remaining_quantity) [
    | none ↦ dec.zero_value
    | some d ↦ d
  ]

  unfoldable pub filled_by : Order → D → Order
  unfolding remaining_of
  filled_by o qty =
      let remaining = dec.sub (remaining_of o) qty in
      if less_than_or_equal remaining dec.zero_value
      then record o {
        remaining_quantity = "0";
        status = filled;
        canceled_at = "";
        canceled_quantity = "";
      }
      else record o {
        remaining_quantity = dec.to_string remaining;
        status = elim o.status [
          | accepted ↦ partially_filled
          | partially_filled ↦ partially_filled
          | filled ↦ filled
          | canceled ↦ canceled
        ];
      }

  -- The store, and whether the order was found.
  unfoldable pub apply_fill : String → String → Orders → Orders × Bool
  unfolding filled_by
  apply_fill id quantity s = elim (Dict.get id s.orders) [
    | none ↦ (s, false)
    | some o ↦ elim (text.new_from_string quantity) [
      | none ↦ (s, true)
      | some qty ↦ (record s { orders = Dict.put id (filled_by o qty) s.orders }, true)
    ]
  ]
