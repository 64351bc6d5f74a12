-- ===== src/OrderApi/Cleanup.antt =====
-- orderapi/sessioncleanup.go: the cancellation of unresolved orders when a session ends. The recorder's
-- answers, Kafka, the clock, the waits, the checker of the matching engine's lag and the store of
-- sessions are the record Outside over a world that they change. The logs are left out.
pub mod All
pub mod Limits
pub mod Single
mod Tests
use project_final_1team.Prelude.{
  ℕ, zero, suc, ◌-◌, String, Bool, true, false, Option, none, some, List, [], ◌∷◌, ◌==◌,
  if◌then◌else◌,
}

pub record UnresolvedOrder : Type 0 where
  pub order_id : String
  pub market : String

-- An HTTP answer: the status and the body, where `none` is a body that does not decode.
pub record Answer : Type 0 where
  pub is_ok : Bool
  pub orders : Option (List UnresolvedOrder)

pub record Outside (W : Type 0) : Type 0 where
  -- The request for the unresolved orders; `none` is an error.
  pub get_unresolved : W → Option Answer × W
  -- The waits before another attempt and another pass; false is a context that is done.
  pub wait_retry : W → Bool × W
  pub wait_sweep : W → Bool × W
  pub now_text : W → String
  -- PublishCancel of an order, its market and the time; false is an error.
  pub publish_cancel : String → String → String → W → Bool × W
  -- matchingLagChecker.Active; `none` is an error.
  pub lag_active : W → Option Bool × W
  -- AppendLastRunNote, whose error is only logged.
  pub append_last_run_note : String → String → W → W

abbrev pub cleanup_fetch_max_attempts : ℕ
cleanup_fetch_max_attempts = 3

abbrev pub cleanup_sweep_max_passes : ℕ
cleanup_sweep_max_passes = 4

abbrev pub lag_note : String
lag_note =
    "미종결 주문 자동 정리가 매칭 엔진 컨슈머 랙으로 건너뛰어짐 — 매칭 엔진 회복 후 수동 일괄 정리(POST /v1/admin/cleanup-unresolved-orders) 필요"

abbrev pub fetch_note : String
fetch_note = "미종결 주문 자동 정리가 반복 실패했습니다 — 수동 일괄 정리(POST /v1/admin/cleanup-unresolved-orders) 필요"

abbrev pub rest_note : String
rest_note =
    "미종결 주문 자동 정리를 4회 반복했지만 여전히 남아있을 수 있습니다 — 수동 일괄 정리(POST /v1/admin/cleanup-unresolved-orders)로 확인 필요"

module _ {W : Type 0} (out : Outside W) where
  unfoldable pub orders_of : Option Answer → Option (List UnresolvedOrder)
  orders_of none = none
  orders_of (some a) = if a.is_ok then a.orders else none

  -- fetchAllUnresolvedOrders; `none` is an error.
  unfoldable pub fetch_all : W → Option (List UnresolvedOrder) × W
  fetch_all w = let answer = out.get_unresolved w in (orders_of answer.0, answer.1)

  -- What follows an attempt that is not the last one.
  unfoldable pub retry_fetch :
      Option (List UnresolvedOrder)
      → (W → Option (List UnresolvedOrder) × W)
      → W
      → Option (List UnresolvedOrder) × W
  retry_fetch (some orders) next w = (some orders, w)
  retry_fetch none next w =
      let waited = out.wait_retry w in if waited.0 then next waited.1 else (none, waited.1)

  -- The attempts from one on, with the number of those that may follow it.
  unfoldable pub fetch_from : ℕ → W → Option (List UnresolvedOrder) × W
  fetch_from zero w = fetch_all w
  fetch_from (suc left) w =
      let fetched = fetch_all w in retry_fetch fetched.0 (fetch_from left) fetched.1

  unfoldable pub fetch_all_with_retry : W → Option (List UnresolvedOrder) × W
  fetch_all_with_retry w = fetch_from (cleanup_fetch_max_attempts - 1) w

  -- The loop over the orders, with the number of cancellations that were published.
  unfoldable pub cancel_all : String → List UnresolvedOrder → ℕ → W → ℕ × W
  cancel_all canceled_at [] n w = (n, w)
  cancel_all canceled_at (o ∷ os) n w =
      let published = out.publish_cancel o.order_id o.market canceled_at w in
      cancel_all canceled_at os (if published.0 then suc n else n) published.1

  -- What follows a pass that canceled orders: the wait and the other passes, unless it was the last.
  unfoldable pub after_pass : ℕ → (W → W) → W → W
  after_pass zero next w = next w
  after_pass (suc left) next w =
      let waited = out.wait_sweep w in if waited.0 then next waited.1 else waited.1

  -- A pass, given what follows it if it finds orders.
  unfoldable pub pass : String → Option (List UnresolvedOrder) → (W → W) → W → W
  pass run_id none next w = out.append_last_run_note run_id fetch_note w
  pass run_id (some []) next w = w
  pass run_id (some (o ∷ os)) next w = next (cancel_all (out.now_text w) (o ∷ os) 0 w).1

  -- The passes that are left, and the note after the last.
  unfoldable pub sweep_from : String → ℕ → W → W
  sweep_from run_id zero w = out.append_last_run_note run_id rest_note w
  sweep_from run_id (suc left) w =
      let fetched = fetch_all_with_retry w in
      pass run_id fetched.0 (after_pass left (sweep_from run_id left)) fetched.1

  unfoldable pub sweep_unless_lagging : String → Option Bool → W → W
  sweep_unless_lagging run_id none w = sweep_from run_id cleanup_sweep_max_passes w
  sweep_unless_lagging run_id (some false) w = sweep_from run_id cleanup_sweep_max_passes w
  sweep_unless_lagging run_id (some true) w = out.append_last_run_note run_id lag_note w

  unfoldable pub cleanup_unresolved_orders : String → String → Option ℕ → W → W
  cleanup_unresolved_orders recorder_url run_id none w = w
  cleanup_unresolved_orders recorder_url run_id (some started_at) w =
      let lag = out.lag_active w in
      if recorder_url == "" then w else sweep_unless_lagging run_id lag.0 lag.1
