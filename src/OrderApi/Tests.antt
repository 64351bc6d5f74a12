-- ===== src/OrderApi/Tests.antt =====
-- Concrete runs of the order API: one order accepted, filled and canceled.
use project_final_1team.Prelude.{
  ℕ, ◌+◌, ◌-◌, ltb, String, ◌≡◌, refl, inl, Bool, true, false, not, none, some, [], ◌∷◌, ◌==◌,
  if◌then◌else◌, is_some,
}
use project_final_1team.Prelude.Int.{ℤ, pos}
use project_final_1team.Dict
use project_final_1team.Dict.{Dict, passes}
use project_final_1team.Decimal.Whole
use project_final_1team.Decimal.Whole.{whole, of_string, of_string-to_string, of_string-zero}
use project_final_1team.OrderApi.Orders
use project_final_1team.OrderApi.Orders.{
  Order, Orders, accepted, DecimalText, apply_fill, filled_by, remaining_of, save,
}
use project_final_1team.OrderApi.Orders.Fills.{completed, Completes, sum, fill_all, get-fill_all}
use project_final_1team.OrderApi.Idempotency
use project_final_1team.OrderApi.Idempotency.{
  CachedResponse, Cache, Call, call_put, call_sweep, Holds, run_all, run_all-Holds, put,
}
use project_final_1team.OrderApi.Validate.{Float}
use project_final_1team.OrderApi.Handlers.{
  OrderRequest, Request, Moment, Services, Api, accept_order, cancel_order, cancel_response,
}
use project_final_1team.OrderApi.Handlers.Accept.{
  accept_order-replays, accept_order-Accepted, Accepted,
}
use project_final_1team.OrderApi.Handlers.Cancel.{
  cancel_order-lost, cancel_order-fill, canceled_order,
}

-- The texts of whole numbers.
abbrev numbers : DecimalText ℤ
unfolding whole Whole.to_string
numbers = record {
  new_from_string = of_string;
  reads_back = of_string-to_string;
  reads_zero = of_string-zero;
}

abbrev three : Order
three = record {
  order_id = "o1";
  market = "KRW-BTC";
  side = "BUY";
  price = "5";
  quantity = whole.to_string (pos 3);
  status = accepted;
  accepted_at = "t0";
  canceled_quantity = "";
  canceled_at = "";
  remaining_quantity = whole.to_string (pos 3);
}

abbrev one_order : Orders
one_order = record {
  orders = Dict.put "o1" three Dict.empty;
  inserted_at = Dict.put "o1" 10 Dict.empty;
}

has_three : Orders.get one_order "o1" ≡ some three
unfolding Orders.get Dict.get Dict.put Dict.empty whole
has_three = refl

get-fill_all_example :
    Orders.get (fill_all numbers "o1" (pos 1 ∷ pos 2 ∷ []) one_order) "o1"
    ≡ some (filled_by numbers three (sum (pos 1) (pos 2 ∷ [])))
unfolding whole
get-fill_all_example =
    get-fill_all numbers "o1" (pos 1) (pos 2 ∷ []) three one_order (refl, tt) has_three

abbrev first : CachedResponse String
first = record { status = 202; body = "first" }

abbrev one_response : Cache String
one_response = put 10 "k1" 202 "first" Idempotency.new_store

one_response-Holds : Holds "k1" 10 first one_response
unfolding put Idempotency.new_store Dict.get Dict.put Dict.empty whole
one_response-Holds = record { response = refl; time = refl }

run_all-Holds_example :
    Holds "k1" 10 first
      (run_all (call_put 20 "k1" 400 "second" ∷ call_sweep 50 40 ∷ []) one_response)
run_all-Holds_example =
    run_all-Holds "k1" 10 first (call_put 20 "k1" 400 "second" ∷ call_sweep 50 40 ∷ []) one_response
      (refl, tt) one_response-Holds

-- Floats for which every price is on its tick.
abbrev marks : Float ℕ
marks = record {
  parse_float = λ t. if t == "" then none else some 1;
  format_float = λ _. "1";
  literal = λ t. if t == "1e-6" then 1 else 0;
  greater_or_equal = λ a b. not (ltb a b);
  less_than = ltb;
  divide = λ a _. a;
  subtract = λ a b. a - b;
  round = λ a. a;
  absolute = λ a. a;
}

abbrev request_body : OrderRequest
request_body = record {
  market = "KRW-BTC";
  side = "BUY";
  price = "5";
  quantity = whole.to_string (pos 3);
  source_order_id = "";
}

-- The world counts what was published.
abbrev services : Bool → Services ℕ
services sends = record {
  decode = λ t. if t == "" then none else some request_body;
  active = λ _. some false;
  publish_new = λ w _ _ _ _. (w + 1, sends);
  publish_cancel = λ w _ _ _. (w + 1, sends);
}

abbrev request : Request
request = record { request_id = "r1"; idempotency_key = "k1"; mode_header = "REPLAY"; body = "{}" }

abbrev moment : Moment
moment = record { order_id = "o1"; now_iso = "t0"; saved_at = 10; cached_at = 11 }

abbrev fresh : Api
fresh = record { orders = Orders.new_store; responses = Idempotency.new_store }

key_is_given : ("k1" == "") ≡ false
key_is_given = refl

accepted_reply : (accept_order marks (services true) request moment fresh 0).response.status ≡ 202
unfolding accept_order Idempotency.new_store Orders.new_store Dict.get Dict.put Dict.empty whole
accepted_reply = refl

answer_is_kept :
    is_some (
      Idempotency.get
        (accept_order marks (services true) request moment fresh 0).api.responses
        "k1")
    ≡ true
unfolding accept_order Idempotency.new_store Idempotency.get Orders.new_store Dict.get Dict.put
    Dict.empty whole
answer_is_kept = refl

no_answer_yet : Idempotency.get fresh.responses "k1" ≡ none
unfolding Idempotency.new_store Idempotency.get Dict.get Dict.empty
no_answer_yet = refl

abbrev other_request : Request
other_request = record { request_id = "r2"; idempotency_key = "k1"; mode_header = ""; body = "" }

accept_order-replays_example :
    let r = accept_order marks (services true) request moment fresh 0 in
    accept_order marks (services true) other_request moment r.api 7
    ≡ record { api = r.api; world = 7; response = r.response }
accept_order-replays_example =
    accept_order-replays marks (services true) request other_request moment moment fresh 0 7
      key_is_given refl answer_is_kept

accept_order-Accepted_example :
    Accepted marks
      (services true)
      request
      moment
      fresh
      0
      (accept_order marks (services true) request moment fresh 0)
accept_order-Accepted_example =
    accept_order-Accepted marks (services true) request moment fresh 0 key_is_given no_answer_yet
      accepted_reply

abbrev with_order : Api
with_order = record { orders = one_order; responses = Idempotency.new_store }

cancel_order-lost_example :
    let r = cancel_order (services false) "r1" "o1" "t1" with_order 0 in
    (r.response.status ≡ 500)
    × (cancel_order (services false) "r2" "o1" "t2" r.api 5
        ≡ record { api = r.api; world = 5; response = cancel_response (canceled_order three "t1") })
cancel_order-lost_example =
    cancel_order-lost (services false) "r1" "r2" "o1" "t1" "t2" three with_order 0 5 (inl refl)
      has_three refl

three-Completes : Completes numbers three (pos 3)
unfolding whole Whole.to_string of_string remaining_of
three-Completes = refl

cancel_order-fill_example :
    let canceled_first = cancel_order (services true) "r1" "o1" "t1" with_order 0 in
    let filled_first = record with_order {
      orders = (apply_fill numbers "o1" (whole.to_string (pos 3)) one_order).0;
    } in
    let refused = cancel_order (services true) "r1" "o1" "t1" filled_first 0 in
    (Orders.get (apply_fill numbers "o1" (whole.to_string (pos 3)) canceled_first.api.orders).0 "o1"
      ≡ some (completed three))
    × (Orders.get refused.api.orders "o1" ≡ some (completed three))
    × (refused.response.status ≡ 409)
    × (refused.world ≡ 0)
cancel_order-fill_example =
    cancel_order-fill numbers (services true) "r1" "o1" "t1" (pos 3) three with_order 0 (inl refl)
      three-Completes has_three
