-- ===== src/OrderApi/Handlers/Accept.antt =====
-- What acceptOrderHandler promises: a key has one answer, and an accepted order was published and is in
-- the store.
use project_final_1team.Prelude.{
  ◌≡◌, refl, sym, ap, subst, ◌∙◌, inl, inr, Bool, true, false, none, some, is_some, Bool-cases,
  Option-cases, eq_refl, arith, ◌==◌,
}
use project_final_1team.Dict.{get-put}
use project_final_1team.OrderApi.Orders
use project_final_1team.OrderApi.Orders.{Order, Orders, save}
use project_final_1team.OrderApi.Idempotency
use project_final_1team.OrderApi.Idempotency.{Cache, CachedResponse, put}
use project_final_1team.OrderApi.Validate.{Float, Problem}
use project_final_1team.OrderApi.Handlers.{
  Request, OrderRequest, Moment, Services, Api, Reply, Body, order_body, accept_order, process,
  submit, reject, check_request, is_active, order_of, order_mode, cache_response,
}
use project_final_1team.OrderApi.Handlers.Kept.{
  not_accepted, kept_first, accept_order-hit, accept_order-miss, accept_order-Kept,
}

module _ {F W : Type 0} (float : Float F) (services : Services W) where
  -- When a request with a key leaves an answer for that key, a later request with the key, whatever
  -- it asks, gets the same answer, and nothing is published, saved or cached.
  pub accept_order-replays :
      (request request' : Request) (moment moment' : Moment) (api : Api) (w w' : W)
      → (request.idempotency_key == "") ≡ false
      → request'.idempotency_key ≡ request.idempotency_key
      → let r = accept_order float services request moment api w in
        is_some (Idempotency.get r.api.responses request.idempotency_key) ≡ true
        → accept_order float services request' moment' r.api w'
          ≡ record { api = r.api; world = w'; response = r.response }
  accept_order-replays request request' moment moment' api w w' k same kept =
      accept_order-hit float services request' moment' _ w' _ (ap (λ t. t == "") same ∙ k)
        (ap (Idempotency.get _) same ∙ accept_order-Kept float services request moment api w k kept)

  -- A request with a key that has no answer yet is answered with 202 only if its body decodes to a request
  -- that passes the checks and the publication of its order succeeded; the order is then in the store under
  -- the new id, accepted, and the answer is kept for the key.
  pub record Accepted (request : Request) (moment : Moment) (api : Api) (w : W) (r : Reply W)
      : Type 0 where
    pub req : OrderRequest
    pub decoded : services.decode request.body ≡ some req
    pub checked : check_request float req ≡ none
    pub open_for_orders : is_active (services.active w) ≡ false
    pub published :
        services.publish_new w
          (order_of req moment)
          request.idempotency_key
          (order_mode request.mode_header)
          req.source_order_id
        ≡ (r.world, true)
    pub saved :
        Orders.get r.api.orders moment.order_id
        ≡ some (record (order_of req moment) { remaining_quantity = req.quantity })
    pub answered : Idempotency.get r.api.responses request.idempotency_key ≡ some r.response

  abbrev sent_reply : Request → OrderRequest → Moment → Api → W → Reply W
  sent_reply request req moment api w =
      let r : CachedResponse Body = record {
        status = 202;
        body = order_body (order_of req moment);
      } in
      record {
        api =
            cache_response request.idempotency_key moment.cached_at r
              (record api { orders = save moment.saved_at (order_of req moment) api.orders });
        world =
            (services.publish_new w (order_of req moment) request.idempotency_key
              (order_mode request.mode_header) req.source_order_id).0;
        response = r;
      }

  submit-Accepted :
      (request : Request) (req : OrderRequest) (moment : Moment) (api : Api) (w : W)
      → services.decode request.body ≡ some req
      → check_request float req ≡ none
      → is_active (services.active w) ≡ false
      → Idempotency.get api.responses request.idempotency_key ≡ none
      → (submit services request req moment api w).response.status ≡ 202
      → Accepted request moment api w (submit services request req moment api w)
  unfolding save Orders.get submit
  submit-Accepted request req moment api w d c a n ok = elim (Bool-cases sent) [
    | inl s ↦ rw (submit-sent s) (record {
      req = req;
      decoded = d;
      checked = c;
      open_for_orders = a;
      published = ap (λ b. (world, b)) s;
      saved = rw (get-put, eq_refl moment.order_id) refl;
      answered =
          kept_first request.idempotency_key moment.cached_at _
            (record api { orders = save moment.saved_at (order_of req moment) api.orders }) n;
    })
    | inr s ↦ elim (not_accepted _ 500 (submit-unsent s) (omega arith) ok) [ ]
  ]
    where
      sent : Bool
      sent =
          (services.publish_new w (order_of req moment) request.idempotency_key
            (order_mode request.mode_header) req.source_order_id).1

      world : W
      world =
          (services.publish_new w (order_of req moment) request.idempotency_key
            (order_mode request.mode_header) req.source_order_id).0

      submit-sent :
          sent ≡ true
          → submit services request req moment api w ≡ sent_reply request req moment api w
      submit-sent s = rw (s, submit) refl

      submit-unsent :
          sent ≡ false → (submit services request req moment api w).response.status ≡ 500
      submit-unsent s = rw (s, submit) refl

  process-Accepted :
      (request : Request) (moment : Moment) (api : Api) (w : W)
      → Idempotency.get api.responses request.idempotency_key ≡ none
      → (process float services request moment api w).response.status ≡ 202
      → Accepted request moment api w (process float services request moment api w)
  unfolding process reject
  process-Accepted request moment api w n ok = elim (Bool-cases (is_active (services.active w))) [
    | inl a ↦ elim (not_accepted _ 429 (busy a) (omega arith) ok) [ ]
    | inr a ↦ elim (Option-cases (services.decode request.body)) [
      | inl d ↦ elim (not_accepted _ 400 (undecoded a d) (omega arith) ok) [ ]
      | inr (req, d) ↦ elim (Option-cases (check_request float req)) [
        | inr (p, c) ↦ elim (not_accepted _ 400 (refused a req d p c) (omega arith) ok) [ ]
        | inl c ↦
            let e = submitted a req d c in
            subst (Accepted request moment api w) (sym e) (
              submit-Accepted request req moment api w d c a n
                (ap (λ r. r.response.status) (sym e) ∙ ok))
      ]
    ]
  ]
    where
      r : Reply W
      r = process float services request moment api w

      busy : is_active (services.active w) ≡ true → r.response.status ≡ 429
      busy a = rw (a, process) refl

      undecoded :
          is_active (services.active w) ≡ false
          → services.decode request.body ≡ none
          → r.response.status ≡ 400
      undecoded a d = rw (a, d, process) refl

      refused :
          is_active (services.active w) ≡ false
          → (req : OrderRequest) → services.decode request.body ≡ some req
          → (p : Problem) → check_request float req ≡ some p
          → r.response.status ≡ 400
      refused a req d p c = rw (a, d, c, process) refl

      submitted :
          is_active (services.active w) ≡ false
          → (req : OrderRequest) → services.decode request.body ≡ some req
          → check_request float req ≡ none
          → r ≡ submit services request req moment api w
      submitted a req d c = rw (a, d, c, process) refl

  -- A request with a key that has no answer yet is answered with 202 only if the checker does not
  -- report a backlog, its body decodes to a request that passes the checks and the publication of
  -- its order succeeds; the order is then in the store under its new id, accepted, with all of its
  -- quantity remaining, and the answer is kept for the key.
  pub accept_order-Accepted :
      (request : Request) (moment : Moment) (api : Api) (w : W)
      → (request.idempotency_key == "") ≡ false
      → Idempotency.get api.responses request.idempotency_key ≡ none
      → (accept_order float services request moment api w).response.status ≡ 202
      → Accepted request moment api w (accept_order float services request moment api w)
  accept_order-Accepted request moment api w k n ok =
      let e = accept_order-miss float services request moment api w k n in
      subst (Accepted request moment api w) (sym e)
        (process-Accepted request moment api w n (ap (λ r. r.response.status) (sym e) ∙ ok))
