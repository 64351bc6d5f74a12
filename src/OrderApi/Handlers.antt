-- ===== src/OrderApi/Handlers.antt =====
-- orderapi/server.go: acceptOrderHandler and cancelOrderHandler over the store of orders and the cache
-- of responses. Kafka, the backpressure checker and the JSON reader are the record Services, on a
-- state `W`; ids, texts of times and readings of the clock are given to a call. A body stands for
-- its JSON text. The counters and logs are left out.
pub mod Accept
pub mod Kept
pub mod Cancel
use project_final_1team.Prelude.{
  ℕ, String, Bool, true, false, not, none, some, Option, ◌==◌, if◌then◌else◌, ◌||◌,
}
use project_final_1team.Dict
use project_final_1team.OrderApi.Orders
use project_final_1team.OrderApi.Orders.{
  Order, Orders, Status, accepted, partially_filled, filled, canceled, save,
}
use project_final_1team.OrderApi.Idempotency
use project_final_1team.OrderApi.Idempotency.{Cache, CachedResponse, put}
use project_final_1team.OrderApi.Validate.{
  Float, Problem, is_target_market, validate_side, validate_price, validate_quantity,
}

pub record OrderRequest : Type 0 where
  pub market : String
  pub side : String
  pub price : String
  pub quantity : String
  pub source_order_id : String

-- The parts of an HTTP request that the handler reads, with its X-Request-Id or the one made for it.
pub record Request : Type 0 where
  pub request_id : String
  pub idempotency_key : String
  pub mode_header : String
  pub body : String

pub data Body : Type 0 where
  order_body : Order → Body
  error_body : String → String → String → Body
  cancel_body : String → Status → String → String → Body

-- The id, the text of the time and the readings of the clock that a call makes.
pub record Moment : Type 0 where
  pub order_id : String
  pub now_iso : String
  pub saved_at : ℕ
  pub cached_at : ℕ

pub record Services (W : Type 0) : Type 0 where
  -- `none` is an error.
  pub decode : String → Option OrderRequest
  pub active : W → Option Bool
  -- The order, the key, the mode and the source order; false is an error.
  pub publish_new : W → Order → String → String → String → W × Bool
  pub publish_cancel : W → String → String → String → W × Bool

pub record Api : Type 0 where
  pub orders : Orders
  pub responses : Cache Body

pub record Reply (W : Type 0) : Type 0 where
  pub api : Api
  pub world : W
  pub response : CachedResponse Body

unfoldable pub order_mode : String → String
order_mode header =
    if header == "PAPER_TRADING" || header == "REPLAY" then header else "PAPER_TRADING"

abbrev pub error_response : String → ℕ → String → String → CachedResponse Body
error_response request_id status code message = record {
  status = status;
  body = error_body code message request_id;
}

abbrev pub order_of : OrderRequest → Moment → Order
order_of req moment = record {
  order_id = moment.order_id;
  market = req.market;
  side = req.side;
  price = req.price;
  quantity = req.quantity;
  status = accepted;
  accepted_at = moment.now_iso;
  canceled_quantity = "";
  canceled_at = "";
  remaining_quantity = "";
}

-- The answer that is kept for the key, as in writeErrorAndCache and after a success.
abbrev pub cache_response : String → ℕ → CachedResponse Body → Api → Api
cache_response key now r api = record api { responses = put now key r.status r.body api.responses }

module _ {F : Type 0} (float : Float F) where
  unfoldable pub check_request : OrderRequest → Option Problem
  unfolding is_target_market validate_side validate_price validate_quantity
  check_request req =
      if not (is_target_market req.market)
      then some (record { code = "INVALID_MARKET"; message = "대상 20개 마켓에 없는 마켓 코드입니다." })
      else elim (validate_side req.side) [
        | some p ↦ some p
        | none ↦ elim (validate_price float req.market req.price) [
          | some p ↦ some p
          | none ↦ validate_quantity float req.quantity
        ]
      ]

-- A checker that fails counts as open.
abbrev pub is_active : Option Bool → Bool
is_active none = false
is_active (some b) = b

abbrev pub cancel_response : Order → CachedResponse Body
cancel_response o = record {
  status = 200;
  body = cancel_body o.order_id o.status o.canceled_quantity o.canceled_at;
}

module _ {W : Type 0} where
  -- An answer that changes nothing.
  abbrev pub answer : CachedResponse Body → Api → W → Reply W
  answer r api w = record { api = api; world = w; response = r }

  unfoldable pub reject : Request → Problem → Moment → Api → W → Reply W
  unfolding put
  reject request problem moment api w =
      let r = error_response request.request_id 400 problem.code problem.message in
      record {
        api = cache_response request.idempotency_key moment.cached_at r api;
        world = w;
        response = r;
      }

module _ {W : Type 0} (services : Services W) where
  -- The order is published, then saved and its answer kept.
  unfoldable pub submit : Request → OrderRequest → Moment → Api → W → Reply W
  unfolding order_mode save put
  submit request req moment api w =
      let o = order_of req moment in
      let (w', sent) =
        services.publish_new w o request.idempotency_key (order_mode request.mode_header)
          req.source_order_id in
      let r : CachedResponse Body = record { status = 202; body = order_body o } in
      if sent
      then record {
        api =
            cache_response request.idempotency_key moment.cached_at r
              (record api { orders = save moment.saved_at o api.orders });
        world = w';
        response = r;
      }
      else record {
        api = api;
        world = w';
        response = error_response request.request_id 500 "INTERNAL_ERROR" "주문 발행에 실패했습니다.";
      }

module _ {F W : Type 0} (float : Float F) (services : Services W) where
  unfoldable pub process : Request → Moment → Api → W → Reply W
  unfolding submit reject check_request
  process request moment api w =
      if is_active (services.active w)
      then answer
          (error_response request.request_id 429 "CONSUMER_LAG_EXCEEDED"
            "시스템이 처리 지연 중입니다. 잠시 후 다시 시도해주세요.")
          api w
      else elim (services.decode request.body) [
        | none ↦
            answer (error_response request.request_id 400 "INVALID_REQUEST" "요청 본문 JSON 파싱 실패") api
              w
        | some req ↦ elim (check_request float req) [
          | some problem ↦ reject request problem moment api w
          | none ↦ submit services request req moment api w
        ]
      ]

  unfoldable pub accept_order : Request → Moment → Api → W → Reply W
  unfolding process Idempotency.get
  accept_order request moment api w =
      if request.idempotency_key == ""
      then answer
          (error_response request.request_id 400 "MISSING_IDEMPOTENCY_KEY"
            "Idempotency-Key 헤더가 필요합니다.")
          api w
      else elim (Idempotency.get api.responses request.idempotency_key) [
        | some cached ↦ answer cached api w
        | none ↦ process request moment api w
      ]

module _ {W : Type 0} (services : Services W) where
  -- The order is marked in the store before the cancellation is published.
  unfoldable pub cancel_open : String → String → Order → String → Api → W → Reply W
  cancel_open request_id id o now_iso api w =
      let o' = record o {
        status = canceled;
        canceled_quantity = o.remaining_quantity;
        canceled_at = now_iso;
      } in
      let api' = record api {
        orders = record api.orders { orders = Dict.put id o' api.orders.orders };
      } in
      let (w', sent) = services.publish_cancel w o.order_id o.market now_iso in
      record {
        api = api';
        world = w';
        response =
            if sent
            then cancel_response o'
            else error_response request_id 500 "INTERNAL_ERROR" "취소 발행에 실패했습니다.";
      }

  unfoldable pub cancel_order : String → String → String → Api → W → Reply W
  unfolding cancel_open Orders.get
  cancel_order request_id id now_iso api w = elim (Orders.get api.orders id) [
    | none ↦ record {
      api = api;
      world = w;
      response = error_response request_id 404 "ORDER_NOT_FOUND" "해당 주문을 찾을 수 없습니다.";
    }
    | some o ↦ elim o.status [
      | filled ↦ record {
        api = api;
        world = w;
        response = error_response request_id 409 "ORDER_ALREADY_FILLED" "이미 전량 체결된 주문은 취소할 수 없습니다.";
      }
      | canceled ↦ record { api = api; world = w; response = cancel_response o }
      | accepted ↦ cancel_open request_id id o now_iso api w
      | partially_filled ↦ cancel_open request_id id o now_iso api w
    ]
  ]
