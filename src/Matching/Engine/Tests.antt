-- ===== src/Matching/Engine/Tests.antt =====
-- Concrete runs of the engine over a store and a publisher in memory.
use project_final_1team.Prelude.{
  ◌≡◌, ◌≢◌, refl, Bool, true, false, Option, none, some, List, [], ◌∷◌, ◌++◌, ◌==◌,
}
use project_final_1team.Prelude.Int.{ℤ, pos}
use project_final_1team.Dict
use project_final_1team.Decimal.Whole.{whole}
use project_final_1team.Matching.OrderBook
use project_final_1team.Matching.OrderBook.{Side, buy, Execution, OrderBook, insert_resting}
use project_final_1team.Matching.Tests.{book, book-IsGoodBook, book-IsUncrossed, trade_bid}
use project_final_1team.Matching.Engine
use project_final_1team.Matching.Engine.{
  Engine, OrderEvent, event_new, event_cancel, Services, Snapshot, Loaded, loaded, not_found,
  publish_failed, handoff,
}
use project_final_1team.Matching.Engine.Offsets.{
  Recorded, apply-Recorded, apply-redelivered, apply-skips_failed,
}
use project_final_1team.Matching.Engine.Safety.{IsSafe, apply-IsSafe}

-- What was published, and the last snapshot.
pub record Memory : Type 0 where
  pub published : List (Execution ℤ)
  pub saved : Option (Snapshot ℤ)

-- Every call succeeds but, where `sends` is false, the publication.
abbrev pub in_memory : Bool → Services ℤ Memory
in_memory sends = record {
  publish = λ w x. (record w { published = w.published ++ x ∷ [] }, sends);
  load = λ w market. elim w.saved [
    | none ↦ not_found
    | some s ↦ elim (s.market == market) [ true ↦ loaded s | false ↦ not_found ]
  ];
  save = λ w s. (record w { saved = some s }, true);
  handoff = λ w s. (record w { saved = some s }, true);
  save_watermark = λ w _ _. (w, true);
  load_watermark = λ _ _. not_found;
}

abbrev pub nothing : Memory
nothing = record { published = []; saved = none }

abbrev pub engine : Engine ℤ
engine = record {
  market = "KRW-BTC";
  book = book;
  snapshot_every = 1000;
  snapshot_interval = 60;
  since_snapshot = 1;
  last_snapshot_at = 0;
  last_offset = pos 0;
}

abbrev bid_event : OrderEvent ℤ
bid_event = record {
  type = event_new;
  order_id = "b1";
  market = "KRW-BTC";
  side = buy;
  price = pos 6;
  quantity = pos 2;
  offset = pos 1;
}

abbrev cancel_event : OrderEvent ℤ
cancel_event = record bid_event { type = event_cancel; order_id = "a1"; offset = pos 2 }

-- The execution of the bid is published, and its offset is the last one.
publishes_trade :
    let r = Engine.apply (in_memory true) engine nothing bid_event 1 1 in
    (r.world.published ≡ trade_bid ∷ []) × (r.engine.last_offset ≡ pos 1) × (r.error ≡ none)
unfolding whole OrderBook.new Dict.empty Dict.get Dict.put Dict.delete insert_resting Engine.apply
publishes_trade = (refl, refl, refl)

apply-Recorded_example :
    Recorded
      (in_memory true)
      engine
      nothing
      bid_event
      (Engine.apply (in_memory true) engine nothing bid_event 1 1)
apply-Recorded_example = apply-Recorded (in_memory true) engine nothing bid_event 1 1 refl

bid_sent : (Engine.apply (in_memory true) engine nothing bid_event 1 1).error ≢ some publish_failed
unfolding whole OrderBook.new Dict.empty Dict.get Dict.put Dict.delete insert_resting Engine.apply
bid_sent e = cc

apply-redelivered_example :
    let r = Engine.apply (in_memory true) engine nothing bid_event 1 1 in
    Engine.apply (in_memory true) r.engine nothing bid_event 2 2
    ≡ record { engine = r.engine; world = nothing; error = none }
apply-redelivered_example =
    apply-redelivered (in_memory true) engine nothing nothing bid_event 1 1 2 2 bid_sent

bid_not_sent :
    (Engine.apply (in_memory false) engine nothing bid_event 1 1).error ≡ some publish_failed
unfolding whole OrderBook.new Dict.empty Dict.get Dict.put Dict.delete insert_resting Engine.apply
bid_not_sent = refl

cancel_handled :
    let r = Engine.apply (in_memory false) engine nothing bid_event 1 1 in
    (Engine.apply (in_memory false) r.engine r.world cancel_event 1 1).error ≢ some publish_failed
unfolding whole OrderBook.new Dict.empty Dict.get Dict.put Dict.delete insert_resting Engine.apply
cancel_handled e = cc

apply-skips_failed_example :
    let r = Engine.apply (in_memory false) engine nothing bid_event 1 1 in
    let r' = Engine.apply (in_memory false) r.engine r.world cancel_event 1 1 in
    Engine.apply (in_memory false) r'.engine nothing bid_event 2 2
    ≡ record { engine = r'.engine; world = nothing; error = none }
apply-skips_failed_example =
    apply-skips_failed (in_memory false) engine nothing nothing bid_event cancel_event 1 1 2 2
      bid_not_sent cancel_handled refl

apply-IsSafe_example :
    IsSafe (Engine.apply (in_memory true) engine nothing bid_event 1 1).engine.book
apply-IsSafe_example =
    apply-IsSafe (in_memory true) engine nothing bid_event 1 1 (book-IsGoodBook, book-IsUncrossed)
