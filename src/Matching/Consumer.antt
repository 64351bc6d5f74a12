-- ===== src/Matching/Consumer.antt =====
-- matching/kafkaclient/consumer.go: toOrderEvent, and readLoop over the messages of one partition, whose
-- events go to the engine of its market. `new_from_string` is the package decimal's, `none` an
-- error. A cancellation has no side, price or quantity: nothing reads its side, which is buy here, for
-- the source's empty text. A message has the clock's readings that its handling makes.
pub mod Loop
pub mod Group
pub mod Readers
mod Tests
use Prim.Native.String.{String}
use project_final_1team.Prelude.{
  ℕ, Bool, true, false, none, some, Option, List, [], ◌∷◌, ◌==◌, if◌then◌else◌,
}
use project_final_1team.Prelude.Int.{ℤ}
use project_final_1team.Decimal.{Decimal}
use project_final_1team.Matching.OrderBook.{Side, buy, sell}
use project_final_1team.Matching.Engine
use project_final_1team.Matching.Engine.{
  Engine, OrderEvent, OrderEventType, event_new, event_cancel, Services, Outcome,
}

pub record OrderMessage : Type 0 where
  pub type : String
  pub order_id : String
  pub market : String
  pub side : String
  pub price : String
  pub quantity : String

-- `none` is a value that is no JSON.
pub record Message : Type 0 where
  pub offset : ℤ
  pub value : Option OrderMessage
  pub now : ℕ
  pub later : ℕ

unfoldable pub side_of : String → Option Side
side_of text = if text == "BUY" then some buy else if text == "SELL" then some sell else none

module _ {D : Type 0} ⦃dec : Decimal D⦄ (new_from_string : String → Option D) where
  unfoldable pub new_event : OrderMessage → ℤ → Option (OrderEvent D)
  unfolding side_of
  new_event raw offset = elim (side_of raw.side) [
    | none ↦ none
    | some side ↦ elim (new_from_string raw.price) [
      | none ↦ none
      | some price ↦ elim (new_from_string raw.quantity) [
        | none ↦ none
        | some quantity ↦ some (record {
          type = event_new;
          order_id = raw.order_id;
          market = raw.market;
          side = side;
          price = price;
          quantity = quantity;
          offset = offset;
        })
      ]
    ]
  ]

  unfoldable pub cancel_event : OrderMessage → ℤ → OrderEvent D
  cancel_event raw offset = record {
    type = event_cancel;
    order_id = raw.order_id;
    market = raw.market;
    side = buy;
    price = dec.zero_value;
    quantity = dec.zero_value;
    offset = offset;
  }

  -- `none` is an error.
  unfoldable pub to_order_event : OrderMessage → ℤ → Option (OrderEvent D)
  unfolding new_event cancel_event
  to_order_event raw offset =
      if raw.type == "NEW"
      then new_event raw offset
      else if raw.type == "CANCEL"
      then some (cancel_event raw offset)
      else none

module _ {D W : Type 0} ⦃dec : Decimal D⦄ (new_from_string : String → Option D)
    (services : Services D W) where
  -- One message: what is no event is skipped, and an error of the engine is only logged.
  unfoldable pub read_message : Message → Engine D × W → Engine D × W
  unfolding to_order_event Engine.apply
  read_message m s = elim m.value [
    | none ↦ s
    | some raw ↦ elim (to_order_event new_from_string raw m.offset) [
      | none ↦ s
      | some ev ↦ let r = Engine.apply services s.0 s.1 ev m.now m.later in (r.engine, r.world)
    ]
  ]

  unfoldable pub read_loop : List Message → Engine D × W → Engine D × W
  unfolding read_message
  read_loop [] s = s
  read_loop (m ∷ ms) s = read_loop ms (read_message m s)
