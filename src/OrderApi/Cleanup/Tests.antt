-- ===== src/OrderApi/Cleanup/Tests.antt =====
-- Concrete runs of the cleanups: an outside with two unresolved orders, whose world is the number of the
-- cancellations that were published.
use project_final_1team.Prelude.{
  ℕ, suc, ◌≡◌, refl, String, Bool, Option, none, true, false, some, List, [], ◌∷◌, arith,
}
use project_final_1team.OrderApi.Cleanup.{
  UnresolvedOrder, Outside, cleanup_unresolved_orders, orders_of, sweep_unless_lagging, sweep_from,
  pass, fetch_all_with_retry, fetch_from, retry_fetch, fetch_all, after_pass, cancel_all,
}
use project_final_1team.OrderApi.Cleanup.Limits.{
  Tally, Counts, Within, cleanup_unresolved_orders-Within,
}
use project_final_1team.OrderApi.Cleanup.All.{
  CleanupAllStatus, Slot, start_cleanup, start_in_slot, started, shown,
}
use project_final_1team.OrderApi.Cleanup.Single.{
  System, start, Reaches, here, next, IsSingle, Reaches-IsSingle,
}

abbrev two_orders : List UnresolvedOrder
two_orders =
    record { order_id = "o1"; market = "BTC" } ∷ record { order_id = "o2"; market = "BTC" } ∷ []

-- The world is the list of the markets in which an order was canceled.
abbrev outside : Outside (List String)
outside = record {
  get_unresolved = λ w. (some (record { is_ok = true; orders = some two_orders }), w);
  wait_retry = λ w. (true, w);
  wait_sweep = λ w. (true, w);
  now_text = λ _. "now";
  publish_cancel = λ _ market _ w. (true, market ∷ w);
  lag_active = λ w. (some false, w);
  append_last_run_note = λ _ _ w. w;
}

-- A recorder that always reports both orders, and a world that counts.
abbrev counting : Option Bool → Outside Tally
counting lag = record {
  get_unresolved = λ w. (
    some (record { is_ok = true; orders = some two_orders }),
    record w { requests = suc w.requests },
  );
  wait_retry = λ w. (true, w);
  wait_sweep = λ w. (true, w);
  now_text = λ _. "now";
  publish_cancel = λ _ _ _ w. (true, record w { cancellations = suc w.cancellations });
  lag_active = λ w. (lag, w);
  append_last_run_note = λ _ _ w. record w { notes = suc w.notes };
}

abbrev no_calls : Tally
no_calls = record { requests = 0; notes = 0; cancellations = 0 }

counts : (lag : Option Bool) → Counts (counting lag) (λ w. w) 2
unfolding orders_of
counts lag = record {
  reports = λ _. omega arith;
  requested = λ _. (refl, refl, refl);
  retried = λ _. (refl, refl, refl);
  swept = λ _. (refl, refl, refl);
  asked = λ _. (refl, refl, refl);
  noted = λ _ _ _. (refl, refl, refl);
  canceled = λ _ _ _ _. (refl, refl, refl);
}

-- Four passes with two cancellations each, and the note after them.
calls :
    cleanup_unresolved_orders (counting none) "http://recorder" "r1" (some 5) no_calls
    ≡ record { requests = 4; notes = 1; cancellations = 8 }
unfolding cleanup_unresolved_orders orders_of sweep_unless_lagging sweep_from pass
    fetch_all_with_retry fetch_from retry_fetch fetch_all after_pass cancel_all
calls = refl

cleanup_unresolved_orders-Within_example :
    Within
      (record { requests = 12; notes = 1; cancellations = 8 })
      no_calls
      (cleanup_unresolved_orders (counting none) "http://recorder" "r1" (some 5) no_calls)
cleanup_unresolved_orders-Within_example =
    cleanup_unresolved_orders-Within (counting none) (λ w. w) 2 (counts none) "r1" "http://recorder"
      (some 5) no_calls

abbrev no_cleanup : CleanupAllStatus
no_cleanup = record {
  status = "";
  canceled = 0;
  total = 0;
  started_at = "";
  ended_at = "";
  message = "";
}

abbrev idle : Slot (List String)
idle = record { latest = no_cleanup; world = [] }

abbrev busy : Slot (List String)
busy = record { latest = started "now"; world = [] }

starts :
    start_cleanup outside "http://recorder" "true" "now" idle
    ≡ (shown 202 (started "now"), true, busy)
unfolding start_cleanup start_in_slot started
starts = refl

abbrev system : Slot (List String) → ℕ → System (List String)
system s n = record { slot = s; running = n }

reached : Reaches outside (system idle 0) (system busy 1)
reached = next here (start "http://recorder" "true" "now" starts)

Reaches-IsSingle_example : IsSingle (system busy 1)
Reaches-IsSingle_example = Reaches-IsSingle outside refl reached
