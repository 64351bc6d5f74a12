-- ===== src/Recorder/Tests.antt =====
-- Concrete batches: an execution that arrives before its seller, twice, and its seller afterwards.
use Prim.Native.String.{String}
use project_final_1team.Prelude.{
  ◌≡◌, refl, List, true, false, [], ◌∷◌, ◌++◌, map, ◌==◌, if◌then◌else◌,
}
use project_final_1team.Prelude.Int.{ℤ, pos}
use project_final_1team.Decimal.{IsPositive}
use project_final_1team.Decimal.Whole.{whole}
use project_final_1team.Recorder.Store.{inserted}
use project_final_1team.Recorder.Tables.{Tables, NewOrder, ExecutionInput}
use project_final_1team.Recorder.Store.{
  apply_executions_batch, already_recorded, has_pair, execution_row, mode_for, has_order,
}
use project_final_1team.Recorder.Store.Repeated.{
  with_id, filled_twice, apply_executions_batch-repeated,
}
use project_final_1team.Recorder.Store.Balance.{IsBalanced}
use project_final_1team.Recorder.Store.Reachable.{
  IsReachable, none_yet, after_orders, after_executions, reachable-IsBalanced,
}
use project_final_1team.Recorder.Apply.{OrderEvent, order_new, order_other, ExecutionEvent}
use project_final_1team.Recorder.Assignments
use project_final_1team.Recorder.Assignments.{AssignmentRow, AssignmentInput, assigned, has_key}

abbrev decimal_of : String → ℤ
decimal_of t = if t == "3" then pos 3 else pos 2

abbrev order : String → String → NewOrder
order id side = record {
  order_id = id;
  client_request_id = "";
  market = "KRW-BTC";
  side = side;
  price = "2";
  quantity = "3";
  mode = "REPLAY";
  submitted_at = "t0";
  source_order_id = "";
}

abbrev trade : ExecutionInput
trade = record {
  execution_id = "e1";
  market = "KRW-BTC";
  buy_order_id = "b1";
  sell_order_id = "s1";
  price = "2";
  quantity = "2";
}

abbrev nothing : Tables ℤ
nothing = record { trade_order = []; execution = [] }

abbrev buyer_only : Tables ℤ
buyer_only = inserted decimal_of (order "b1" "BUY" ∷ []) nothing

abbrev traded : Tables ℤ
traded = (apply_executions_batch decimal_of (trade ∷ []) buyer_only).0

abbrev settled : Tables ℤ
settled = inserted decimal_of (order "s1" "SELL" ∷ []) traded

no_pair : already_recorded (trade ∷ []) trade buyer_only.execution ≡ false
unfolding inserted already_recorded
no_pair = refl

no_row : has_pair trade buyer_only.execution ≡ false
unfolding inserted has_pair
no_row = refl

settled-IsReachable : IsReachable decimal_of settled
unfolding inserted already_recorded has_pair
settled-IsReachable = after_orders (order "s1" "SELL" ∷ []) traded (
    after_executions (trade ∷ []) buyer_only (tt, tt) (refl, tt)
      (after_orders (order "b1" "BUY" ∷ []) nothing none_yet))

-- Both orders end with one of three, although the seller came late.
remaining_after : map (λ r. r.remaining_quantity) settled.trade_order ≡ pos 1 ∷ pos 1 ∷ []
unfolding whole inserted apply_executions_batch
remaining_after = refl

reachable-IsBalanced_example : IsBalanced settled
reachable-IsBalanced_example = reachable-IsBalanced decimal_of settled settled-IsReachable

no_pair_twice :
    already_recorded (trade ∷ with_id "e2" trade ∷ []) trade buyer_only.execution ≡ false
unfolding inserted already_recorded
no_pair_twice = refl

buyer_stored : has_order "b1" buyer_only.trade_order ≡ true
unfolding inserted has_order
buyer_stored = refl

quantity-IsPositive : IsPositive (pos 2)
unfolding whole
quantity-IsPositive = refl

apply_executions_batch-repeated_example :
    let row = execution_row decimal_of (mode_for buyer_only trade).0 trade in
    let (t', results) =
      apply_executions_batch decimal_of (trade ∷ with_id "e2" trade ∷ []) buyer_only in
    (t'.execution ≡ buyer_only.execution ++ row ∷ [])
    × (t'.trade_order ≡ map (filled_twice trade (pos 2)) buyer_only.trade_order)
    × (map (λ r. r.inserted) results ≡ true ∷ true ∷ [])
    × ¬ IsBalanced t'
apply_executions_batch-repeated_example =
    apply_executions_batch-repeated decimal_of trade "e2" buyer_only no_pair_twice no_row refl
      quantity-IsPositive buyer_stored
      (reachable-IsBalanced decimal_of buyer_only
        (after_orders (order "b1" "BUY" ∷ []) nothing none_yet))

-- An order with another order's client_request_id is not stored, and neither is one of an unknown side.
abbrev keyed : String → String → NewOrder
keyed id market = record (order id "BUY") { client_request_id = "k1"; market = market }

abbrev left_out : Tables ℤ
left_out =
    inserted decimal_of (keyed "b1" "KRW-BTC" ∷ keyed "b2" "KRW-BTC" ∷ order "b3" "HOLD" ∷ [])
      nothing

leaves_out : map (λ r. r.order_id) left_out.trade_order ≡ "b1" ∷ []
unfolding inserted
leaves_out = refl

abbrev event : ExecutionEvent
event = record {
  market = "KRW-BTC";
  buy_order_id = "b1";
  sell_order_id = "s1";
  price = "2";
  quantity = "2";
}

abbrev unknown : OrderEvent
unknown = record {
  type = order_other "AMEND";
  order_id = "o1";
  market = "KRW-BTC";
  side = "BUY";
  price = "2";
  quantity = "3";
  accepted_at = "t0";
  client_request_id = "";
  mode = "REPLAY";
  canceled_at = "";
  source_order_id = "";
}

abbrev known : OrderEvent
known = record unknown { type = order_new }

abbrev assignment : AssignmentInput
assignment = record { market = "KRW-BTC"; engine_instance_id = "m1"; at = "t1" }

abbrev earlier : List AssignmentRow
earlier =
    Assignments.row_of "a0" (record { market = "KRW-BTC"; engine_instance_id = "m0"; at = "t0" })
    ∷ []

is_new : has_key assignment earlier ≡ false
unfolding has_key
is_new = refl
