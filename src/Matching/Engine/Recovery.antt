-- ===== src/Matching/Engine/Recovery.antt =====
-- Recover after a restart: what Handoff saved is the book that comes back.
use project_final_1team.Prelude.{◌≡◌, true, Option, some, All}
use project_final_1team.Prelude.Int.{ℤ, suc_i64}
use project_final_1team.Dict
use project_final_1team.Decimal.{Decimal}
use project_final_1team.Matching.OrderBook
use project_final_1team.Matching.OrderBook.{Side, OrderBook, all_orders, half_for}
use project_final_1team.Matching.OrderBook.Invariant.{IsGoodBook}
use project_final_1team.Matching.OrderBook.Priority.Rebuild.{Rebuilt}
use project_final_1team.Matching.Engine
use project_final_1team.Matching.Engine.{
  Engine, Services, Snapshot, OrderView, Loaded, load_error, not_found, loaded, handoff,
}

module _ {D : Type 0} ⦃dec : Decimal D⦄ where
  -- The engine of a book: its orders are of its market and the book holds its invariant.
  pub record IsGoodEngine (e : Engine D) : Type 0 where
    pub good : IsGoodBook e.book
    pub on_market : (side : Side) → All (λ o. o.market ≡ e.market) (all_orders side e.book)

  pub record Recovered (e : Engine D) (r : Option ℤ × Engine D) : Type 0 where
    pub resume : r.0 ≡ some (suc_i64 e.last_offset)
    pub last_offset : r.1.last_offset ≡ e.last_offset
    pub market : r.1.market ≡ e.market
    pub book_market : r.1.book.market ≡ e.market
    pub same_orders : Rebuilt e.book r.1.book

module _ {D W : Type 0} ⦃dec : Decimal D⦄ (services : Services D W) where
  -- A store that gives back what a handoff saved without an error.
  abbrev pub ReadsBack : Type 0
  ReadsBack =
      (w : W) (s : Snapshot D)
      → (services.handoff w s).1 ≡ true
      → services.load (services.handoff w s).0 s.market ≡ loaded s
