-- ===== src/OrderApi/Handlers/Cancel.antt =====
-- What cancelOrderHandler leaves: against fills of the same order, and after a failed publication.
use project_final_1team.Prelude.{◌≡◌, refl, ap, ◌∙◌, inl, inr, ◌⊎◌, false, some, String, eq_refl}
use project_final_1team.Dict.{get-put}
use project_final_1team.Decimal.{Decimal}
use project_final_1team.OrderApi.Orders
use project_final_1team.OrderApi.Orders.{
  Order, Orders, Status, accepted, partially_filled, filled, canceled, DecimalText, apply_fill,
  filled_by, remaining_of,
}
use project_final_1team.OrderApi.Orders.Fills.{
  completed, Completes, filled_by-completed, get-apply_fill,
}
use project_final_1team.OrderApi.Handlers.{
  Services, Api, cancel_order, cancel_open, cancel_response,
}

-- An order that can still be canceled.
abbrev pub IsOpen : Order → Type 0
IsOpen o = (o.status ≡ accepted) ⊎ (o.status ≡ partially_filled)

abbrev pub canceled_order : Order → String → Order
canceled_order o now_iso = record o {
  status = canceled;
  canceled_quantity = o.remaining_quantity;
  canceled_at = now_iso;
}

module _ {W : Type 0} (services : Services W) where
  cancel_order-open :
      (request_id id now_iso : String) (o : Order) (api : Api) (w : W)
      → IsOpen o
      → Orders.get api.orders id ≡ some o
      → cancel_order services request_id id now_iso api w
        ≡ cancel_open services request_id id o now_iso api w
  unfolding cancel_order
  cancel_order-open request_id id now_iso o api w (inl s) h = rw (h, s, cancel_order) refl
  cancel_order-open request_id id now_iso o api w (inr s) h = rw (h, s, cancel_order) refl

  cancel_order-again :
      (request_id id now_iso later_iso : String) (o : Order) (api : Api) (w : W)
      → Orders.get api.orders id ≡ some (canceled_order o now_iso)
      → cancel_order services request_id id later_iso api w
        ≡ record { api = api; world = w; response = cancel_response (canceled_order o now_iso) }
  unfolding cancel_order
  cancel_order-again request_id id now_iso later_iso o api w h = rw (h, cancel_order) refl

  get-cancel_open :
      (request_id id now_iso : String) (o : Order) (api : Api) (w : W)
      → Orders.get (cancel_open services request_id id o now_iso api w).api.orders id
        ≡ some (canceled_order o now_iso)
  unfolding cancel_open Orders.get
  get-cancel_open request_id id now_iso o api w = rw (get-put, eq_refl id) refl

  -- A cancellation of an open order whose publication fails is answered with 500 but leaves the
  -- order canceled: a later cancellation of it is answered with 200 and publishes nothing.
  pub cancel_order-lost :
      (request_id request_id' id now_iso later_iso : String) (o : Order) (api : Api) (w w' : W)
      → IsOpen o
      → Orders.get api.orders id ≡ some o
      → (services.publish_cancel w o.order_id o.market now_iso).1 ≡ false
      → let r = cancel_order services request_id id now_iso api w in
        (r.response.status ≡ 500)
        × (cancel_order services request_id' id later_iso r.api w' ≡ record {
          api = r.api;
          world = w';
          response = cancel_response (canceled_order o now_iso);
        })
  unfolding cancel_open
  cancel_order-lost request_id request_id' id now_iso later_iso o api w w' op h failed =
      rw (cancel_order-open request_id id now_iso o api w op h) (
        unsent,
        cancel_order-again request_id' id now_iso later_iso o _ w'
            (get-cancel_open request_id id now_iso o api w),
      )
    where
      unsent : (cancel_open services request_id id o now_iso api w).response.status ≡ 500
      unsent = rw (failed, cancel_open) refl

  cancel_order-filled :
      (request_id id now_iso : String) (o : Order) (api : Api) (w : W)
      → o.status ≡ filled
      → Orders.get api.orders id ≡ some o
      → ((cancel_order services request_id id now_iso api w).response.status ≡ 409)
        × ((cancel_order services request_id id now_iso api w).api ≡ api)
        × ((cancel_order services request_id id now_iso api w).world ≡ w)
  unfolding cancel_order
  cancel_order-filled request_id id now_iso o api w s h =
      (rw (h, s, cancel_order) refl, rw (h, s, cancel_order) refl, rw (h, s, cancel_order) refl)

module _ {D W : Type 0} ⦃dec : Decimal D⦄ (text : DecimalText D) (services : Services W) where
  -- A cancellation of an open order and a fill that completes it, in either order, leave the order
  -- filled, with no canceled quantity; a cancellation after the fill is refused with 409 and
  -- publishes nothing.
  pub cancel_order-fill :
      (request_id id now_iso : String) (q : D) (o : Order) (api : Api) (w : W)
      → IsOpen o
      → Completes text o q
      → Orders.get api.orders id ≡ some o
      → let canceled_first = cancel_order services request_id id now_iso api w in
        let filled_first = record api {
          orders = (apply_fill text id (dec.to_string q) api.orders).0;
        } in
        let refused = cancel_order services request_id id now_iso filled_first w in
        (Orders.get (apply_fill text id (dec.to_string q) canceled_first.api.orders).0 id
          ≡ some (completed o))
        × (Orders.get refused.api.orders id ≡ some (completed o))
        × (refused.response.status ≡ 409)
        × (refused.world ≡ w)
  cancel_order-fill request_id id now_iso q o api w op done h = (
    get-apply_fill text id q (canceled_order o now_iso) _ canceled_saved
        ∙ ap some (filled_by-completed text (canceled_order o now_iso) q still_done),
    ap (λ a. Orders.get a.orders id) refused.1 ∙ fill_saved,
    refused.0,
    refused.2,
  )
    where
      still_done : Completes text (canceled_order o now_iso) q
      still_done = unfold remaining_of in done

      canceled_saved :
          Orders.get (cancel_order services request_id id now_iso api w).api.orders id
          ≡ some (canceled_order o now_iso)
      canceled_saved =
          rw (cancel_order-open services request_id id now_iso o api w op h)
            (get-cancel_open services request_id id now_iso o api w)

      fill_saved :
          Orders.get (apply_fill text id (dec.to_string q) api.orders).0 id ≡ some (completed o)
      fill_saved =
          get-apply_fill text id q o api.orders h ∙ ap some (filled_by-completed text o q done)

      refused :
          let filled_first = record api {
            orders = (apply_fill text id (dec.to_string q) api.orders).0;
          } in
          let r = cancel_order services request_id id now_iso filled_first w in
          (r.response.status ≡ 409) × (r.api ≡ filled_first) × (r.world ≡ w)
      refused = cancel_order-filled services request_id id now_iso (completed o) _ w refl fill_saved
