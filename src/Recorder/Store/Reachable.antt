-- ===== src/Recorder/Store/Reachable.antt =====
-- The tables that any committed batches lead to from empty ones, in any order.
use Prim.Native.String.{String}
use project_final_1team.Prelude.{List, [], map}
use project_final_1team.Decimal.{Decimal}
use project_final_1team.Recorder.Store.{inserted}
use project_final_1team.Recorder.Tables.{Tables, NewOrder, CancelInput, ExecutionInput}
use project_final_1team.Recorder.Store.{cancel_row, apply_executions_batch}
use project_final_1team.Recorder.Store.Balance.{
  IsBalanced, IsDistinct, KeysTellApart, inserted-IsBalanced, cancel-IsBalanced,
  apply_executions_batch-IsBalanced,
}

pub data IsReachable {D : Type 0} ⦃dec : Decimal D⦄ (decimal_of : String → D)
    : Tables D → Type 0 where
  none_yet : IsReachable decimal_of (record { trade_order = []; execution = [] })
  after_orders :
      (orders : List NewOrder) (t : Tables D)
      → IsReachable decimal_of t
      → IsReachable decimal_of (inserted decimal_of orders t)
  after_cancels :
      (cancels : List CancelInput) (t : Tables D)
      → IsReachable decimal_of t
      → IsReachable decimal_of (record t { trade_order = map (cancel_row cancels) t.trade_order })
  after_executions :
      (batch : List ExecutionInput) (t : Tables D)
      → IsDistinct batch
      → KeysTellApart batch t
      → IsReachable decimal_of t
      → IsReachable decimal_of (apply_executions_batch decimal_of batch t).0

module _ {D : Type 0} ⦃dec : Decimal D⦄ (decimal_of : String → D) where
  -- Whatever batches of new orders, cancellations and executions are committed, in whatever order
  -- they arrive, and whatever new orders are left out for their keys, their market or the CHECKs,
  -- what remains of every stored order is its quantity without its share of the stored executions,
  -- as long as no batch of executions names a pair of orders twice and the joined keys tell its
  -- pairs from the stored ones.
  pub reachable-IsBalanced : (t : Tables D) → IsReachable decimal_of t → IsBalanced t
  reachable-IsBalanced _ none_yet = tt
  reachable-IsBalanced _ (after_orders orders t r) =
      inserted-IsBalanced decimal_of orders t (reachable-IsBalanced t r)
  reachable-IsBalanced _ (after_cancels cancels t r) =
      cancel-IsBalanced cancels t (reachable-IsBalanced t r)
  reachable-IsBalanced _ (after_executions batch t d keys r) =
      apply_executions_batch-IsBalanced decimal_of batch t d keys (reachable-IsBalanced t r)
