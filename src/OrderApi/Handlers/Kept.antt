-- ===== src/OrderApi/Handlers/Kept.antt =====
-- A reply of acceptOrderHandler leaves its own answer for its key, or none.
use project_final_1team.Prelude.{
  ℕ, ◌<◌, ◌≡◌, ◌≢◌, refl, inl, inr, true, false, none, some, is_some, Bool-cases, Option-cases,
  eq_refl, arith, String, ◌==◌,
}
use project_final_1team.Dict
use project_final_1team.Dict.{get-put}
use project_final_1team.OrderApi.Orders.{save}
use project_final_1team.OrderApi.Idempotency
use project_final_1team.OrderApi.Idempotency.{Cache, CachedResponse, put}
use project_final_1team.OrderApi.Validate.{Float, Problem}
use project_final_1team.OrderApi.Handlers.{
  Request, OrderRequest, Moment, Services, Api, Reply, Body, accept_order, process, submit, reject,
  check_request, is_active, answer, order_of, order_mode, cache_response,
}

pub not_accepted : (x a : ℕ) → x ≡ a → 202 < a → x ≢ 202
not_accepted x a e h k = omega arith

pub kept_first :
    (key : String) (now : ℕ) (r : CachedResponse Body) (api : Api)
    → Idempotency.get api.responses key ≡ none
    → Idempotency.get (cache_response key now r api).responses key ≡ some r
unfolding Idempotency.get put
kept_first key now r api n =
    let missing : Dict.get key api.responses.cache ≡ none = n in
    rw (missing, put, get-put, eq_refl key) refl

module _ {W : Type 0} where
  -- What a reply leaves for its key: its own answer, or none.
  abbrev Kept : String → Reply W → Type 0
  Kept key r =
      is_some (Idempotency.get r.api.responses key) ≡ true
      → Idempotency.get r.api.responses key ≡ some r.response

  reject-Kept :
      (request : Request) (problem : Problem) (moment : Moment) (api : Api) (w : W)
      → Idempotency.get api.responses request.idempotency_key ≡ none
      → Kept request.idempotency_key (reject request problem moment api w)
  unfolding reject
  reject-Kept request problem moment api w n _ =
      kept_first request.idempotency_key moment.cached_at _ api n

module _ {W : Type 0} (services : Services W) where
  submit-Kept :
      (request : Request) (req : OrderRequest) (moment : Moment) (api : Api) (w : W)
      → Idempotency.get api.responses request.idempotency_key ≡ none
      → Kept request.idempotency_key (submit services request req moment api w)
  unfolding submit
  submit-Kept request req moment api w n =
      elim (Bool-cases
        (services.publish_new w (order_of req moment) request.idempotency_key
          (order_mode request.mode_header) req.source_order_id).1) [
            | inl s ↦ rw s (λ _.
                kept_first request.idempotency_key moment.cached_at _
                  (record api { orders = save moment.saved_at (order_of req moment) api.orders }) n)
            | inr s ↦ rw s (λ k. cc)
          ]

module _ {F W : Type 0} (float : Float F) (services : Services W) where
  process-Kept :
      (request : Request) (moment : Moment) (api : Api) (w : W)
      → Idempotency.get api.responses request.idempotency_key ≡ none
      → Kept request.idempotency_key (process float services request moment api w)
  unfolding process
  process-Kept request moment api w n = elim (Bool-cases (is_active (services.active w))) [
    | inl a ↦ rw a (λ k. cc)
    | inr a ↦ elim (Option-cases (services.decode request.body)) [
      | inl d ↦ rw (a, d) (λ k. cc)
      | inr (req, d) ↦ elim (Option-cases (check_request float req)) [
        | inl c ↦ rw (a, d, c) (submit-Kept services request req moment api w n)
        | inr (p, c) ↦ rw (a, d, c) (reject-Kept request p moment api w n)
      ]
    ]
  ]

  pub accept_order-hit :
      (request : Request) (moment : Moment) (api : Api) (w : W) (r : CachedResponse Body)
      → (request.idempotency_key == "") ≡ false
      → Idempotency.get api.responses request.idempotency_key ≡ some r
      → accept_order float services request moment api w ≡ answer r api w
  unfolding accept_order
  accept_order-hit request moment api w r k h = rw (k, h, accept_order) refl

  pub accept_order-miss :
      (request : Request) (moment : Moment) (api : Api) (w : W)
      → (request.idempotency_key == "") ≡ false
      → Idempotency.get api.responses request.idempotency_key ≡ none
      → accept_order float services request moment api w
        ≡ process float services request moment api w
  unfolding accept_order
  accept_order-miss request moment api w k h = rw (k, h, accept_order) refl

  pub accept_order-Kept :
      (request : Request) (moment : Moment) (api : Api) (w : W)
      → (request.idempotency_key == "") ≡ false
      → Kept request.idempotency_key (accept_order float services request moment api w)
  accept_order-Kept request moment api w k =
      elim (Option-cases (Idempotency.get api.responses request.idempotency_key)) [
        | inl n ↦
            rw (accept_order-miss request moment api w k n) (process-Kept request moment api w n)
        | inr (r, h) ↦ rw (accept_order-hit request moment api w r k h) (λ _. h)
      ]
