-- ===== src/Matching/Engine.antt =====
-- matching/engine/engine.go: one market's engine over its order book. The publisher and the snapshot
-- store are the source's interfaces; `W` is their common state, and a call that fails answers false.
-- Times are readings of the monotonic clock, given to each call: `now` for time.Since in
-- shouldSnapshot, `later` for time.Now after a save.
pub mod Offsets
pub mod Safety
pub mod Recovery
pub mod Tests
use project_final_1team.Prelude.{
  ℕ, suc, ◌+◌, String, Bool, true, false, Option, none, some, List, [], ◌∷◌, ◌||◌, leb, map,
  if◌then◌else◌,
}
use project_final_1team.Prelude.Int.{ℤ, pos, negsuc, leb_ℤ, suc_i64}
use project_final_1team.Decimal.{Decimal}
use project_final_1team.Matching.OrderBook
use project_final_1team.Matching.OrderBook.{
  Side, buy, sell, Order, Execution, OrderBook, all_orders,
}
use project_final_1team.Matching.OrderBook.Match

pub data OrderEventType : Type 0 where
  event_new event_cancel : OrderEventType
  event_other : String → OrderEventType

pub record OrderEvent (D : Type 0) : Type 0 where
  pub type : OrderEventType
  pub order_id : String
  pub market : String
  pub side : Side
  pub price : D
  pub quantity : D
  pub offset : ℤ

pub record OrderView (D : Type 0) : Type 0 where
  pub order_id : String
  pub price : D
  pub quantity : D
  pub offset : ℤ

pub record Snapshot (D : Type 0) : Type 0 where
  pub market : String
  pub offset : ℤ
  pub bids : List (OrderView D)
  pub asks : List (OrderView D)

pub data Loaded (A : Type 0) : Type 0 where
  load_error not_found : Loaded A
  loaded : A → Loaded A

-- ExecutionPublisher and SnapshotStore.
pub record Services (D W : Type 0) : Type 0 where
  pub publish : W → Execution D → W × Bool
  pub load : W → String → Loaded (Snapshot D)
  pub save : W → Snapshot D → W × Bool
  pub handoff : W → Snapshot D → W × Bool
  pub save_watermark : W → String → ℤ → W × Bool
  pub load_watermark : W → String → Loaded ℤ

pub record Engine (D : Type 0) : Type 0 where
  pub market : String
  pub book : OrderBook D
  pub snapshot_every : ℕ
  pub snapshot_interval : ℕ
  pub since_snapshot : ℕ
  pub last_snapshot_at : ℕ
  pub last_offset : ℤ

pub data EngineError : Type 0 where
  load_failed publish_failed save_failed handoff_failed : EngineError

-- The engine and the services after a call, with its error.
pub record Outcome (D W : Type 0) : Type 0 where
  pub engine : Engine D
  pub world : W
  pub error : Option EngineError

module _ {D : Type 0} where
  unfoldable pub new : String → ℕ → ℕ → ℕ → Engine D
  unfolding OrderBook.new
  new market every interval now = record {
    market = market;
    book = OrderBook.new market;
    snapshot_every = every;
    snapshot_interval = interval;
    since_snapshot = 0;
    last_snapshot_at = now;
    last_offset = negsuc 0;
  }

  -- The order that Recover makes of a saved view.
  unfoldable pub order_of : String → Side → OrderView D → Order D
  order_of market side view = record {
    order_id = view.order_id;
    market = market;
    side = side;
    price = view.price;
    quantity = view.quantity;
    offset = view.offset;
  }

  unfoldable pub to_order_view : Order D → OrderView D
  to_order_view o = record {
    order_id = o.order_id;
    price = o.price;
    quantity = o.quantity;
    offset = o.offset;
  }

  unfoldable pub event_order : OrderEvent D → Order D
  event_order ev = record {
    order_id = ev.order_id;
    market = ev.market;
    side = ev.side;
    price = ev.price;
    quantity = ev.quantity;
    offset = ev.offset;
  }

  -- time.Since(e.lastSnapshotAt) >= e.snapshotInterval
  unfoldable pub should_snapshot : Engine D → ℕ → Bool
  should_snapshot e now =
      leb e.snapshot_every e.since_snapshot || leb (e.last_snapshot_at + e.snapshot_interval) now

module _ {D W : Type 0} ⦃dec : Decimal D⦄ (services : Services D W) where
  restore_views : String → Side → List (OrderView D) → OrderBook D → OrderBook D
  unfolding OrderBook.restore order_of
  restore_views market side [] ob = ob
  restore_views market side (v ∷ vs) ob =
      restore_views market side vs (OrderBook.restore ob (order_of market side v))

  -- The offset to go on from, and the engine.
  unfoldable pub recover : Engine D → W → Option ℤ × Engine D
  unfolding restore_views suc_i64
  recover e w = elim (services.load w e.market) [
    | load_error ↦ (none, e)
    | loaded snap ↦ (
      some (suc_i64 snap.offset),
      record e {
        book = restore_views e.market sell snap.asks (restore_views e.market buy snap.bids e.book);
        last_offset = snap.offset;
      },
    )
    | not_found ↦ elim (services.load_watermark w e.market) [
      | load_error ↦ (some (pos 0), e)
      | loaded offset ↦ (some (suc_i64 offset), record e { last_offset = offset })
      | not_found ↦ (some (pos 0), e)
    ]
  ]

  unfoldable pub current_snapshot : Engine D → Snapshot D
  unfolding to_order_view all_orders
  current_snapshot e = record {
    market = e.market;
    offset = e.last_offset;
    bids = map to_order_view (all_orders buy e.book);
    asks = map to_order_view (all_orders sell e.book);
  }

  -- Publishing stops at the first failure.
  unfoldable pub publish_all : W → List (Execution D) → W × Bool
  publish_all w [] = (w, true)
  publish_all w (x ∷ xs) =
      let (w', sent) = services.publish w x in
      let rest = publish_all w' xs in if sent then rest else (w', false)

  unfoldable pub snapshot : Engine D → W → ℕ → Outcome D W
  unfolding current_snapshot
  snapshot e w later =
      let (w₁, saved) = services.save w (current_snapshot e) in
      let (w₂, _) = services.save_watermark w₁ e.market e.last_offset in
      if saved
      then record {
        engine = record e { since_snapshot = 0; last_snapshot_at = later };
        world = w₂;
        error = none;
      }
      else record { engine = e; world = w₁; error = some save_failed }

  -- Apply after the switch: the offset counts as handled.
  unfoldable pub finish : Engine D → W → OrderEvent D → ℕ → ℕ → Outcome D W
  unfolding snapshot should_snapshot
  finish e w ev now later =
      let e' = record e { last_offset = ev.offset; since_snapshot = suc e.since_snapshot } in
      if should_snapshot e' now
      then snapshot e' w later
      else record { engine = e'; world = w; error = none }

  unfoldable pub apply_new : Engine D → W → OrderEvent D → ℕ → ℕ → Outcome D W
  unfolding finish publish_all Match.apply event_order
  apply_new e w ev now later =
      let (book, executions) = Match.apply e.book (event_order ev) in
      let e' = record e { book = book } in
      let (w', sent) = publish_all w executions in
      if sent
      then finish e' w' ev now later
      else record { engine = e'; world = w'; error = some publish_failed }

  dispatch : OrderEventType → Engine D → W → OrderEvent D → ℕ → ℕ → Outcome D W
  unfolding apply_new finish OrderBook.cancel
  dispatch event_new e w ev now later = apply_new e w ev now later
  dispatch event_cancel e w ev now later =
      finish (record e { book = OrderBook.cancel e.book ev.order_id }) w ev now later
  dispatch (event_other t) e w ev now later = finish e w ev now later

  unfoldable pub apply : Engine D → W → OrderEvent D → ℕ → ℕ → Outcome D W
  unfolding dispatch
  apply e w ev now later =
      if leb_ℤ ev.offset e.last_offset
      then record { engine = e; world = w; error = none }
      else dispatch ev.type e w ev now later

  unfoldable pub handoff : Engine D → W → W × Option EngineError
  unfolding current_snapshot
  handoff e w =
      let (w', saved) = services.handoff w (current_snapshot e) in
      (w', if saved then none else some handoff_failed)

module _ {D : Type 0} ⦃dec : Decimal D⦄ where
  pub book_size : Engine D → ℕ
  book_size e = OrderBook.size e.book
