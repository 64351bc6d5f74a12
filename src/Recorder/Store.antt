-- ===== src/Recorder/Store.antt =====
-- recorder/store/mysql.go: the SQL statements of the batches, over two tables as lists of rows.
-- schema.sql gives the keys: order_id and client_request_id of trade_order, and (buy_order_id,
-- sell_order_id) of execution, with the foreign key to the table market and the CHECKs, for which INSERT
-- IGNORE leaves out a row of trade_order. Of an execution the market is one of that table, the new id is
-- not used yet and the mode is that of a stored order or NULL, so that INSERT IGNORE leaves it out only for
-- its pair. Texts fit their columns and are compared exactly. An UPDATE
-- changes every row that its condition selects and reads the old values of a row. A call is one
-- transaction that commits, after the retries; an empty batch changes nothing. Times are texts, and
-- executed_at, which the database's clock gives, is left out. `decimal_of` is the conversion to the
-- column type DECIMAL(24,8), `valid_time` whether parseTimestamp succeeds.
pub mod Sums
pub mod Balance
pub mod Redelivery
pub mod Reachable
pub mod Repeated
use Prim.Native.String.{String, ◌++◌ as ◌+++◌}
use project_final_1team.Prelude.{
  ℕ, suc, Bool, true, false, not, ◌&&◌, ◌||◌, none, some, Option, List, [], ◌∷◌, ◌++◌, ◌==◌, map,
  if◌then◌else◌, is_some,
}
use project_final_1team.Decimal.{Decimal, less_than_or_equal}
use project_final_1team.Recorder.Tables.{
  TradeOrder, ExecutionRow, Tables, NewOrder, CancelInput, ExecutionInput, ExecutionResult, Status,
  accepted, partially_filled, filled, canceled, resolve_mode, null_if_empty, valid_orders,
  valid_cancels, names, markets, cancellation, any_input, pair_key, member,
}

abbrev pub equal_request : Option String → Option String → Bool
equal_request none b = false
equal_request (some a) none = false
equal_request (some a) (some b) = a == b

module _ {D : Type 0} ⦃dec : Decimal D⦄ where
  -- Does an order take part in an execution, and with what quantity in all? An execution gives one row
  -- to its buyer and one to its seller.
  pub takes_part : String → List (ExecutionRow D) → Bool
  takes_part id [] = false
  takes_part id (e ∷ es) = (e.buy_order_id == id || e.sell_order_id == id) || takes_part id es

  pub share : String → ExecutionRow D → D
  share id e =
      dec.add (if e.buy_order_id == id then e.quantity else dec.zero_value)
        (if e.sell_order_id == id then e.quantity else dec.zero_value)

  pub total : String → List (ExecutionRow D) → D
  unfolding share
  total id [] = dec.zero_value
  total id (e ∷ es) = dec.add (share id e) (total id es)

  -- The CASE of both updates: what an order is when this quantity remains.
  unfoldable pub with_remaining : D → TradeOrder D → TradeOrder D
  with_remaining rest t =
      let done = less_than_or_equal rest dec.zero_value in
      record t {
        remaining_quantity = rest;
        status = if done then filled else (elim t.status [
          | accepted ↦ partially_filled
          | partially_filled ↦ partially_filled
          | filled ↦ partially_filled
          | canceled ↦ canceled
        ]);
        canceled_at = if done then none else t.canceled_at;
      }

  -- applyFillsBatch
  unfoldable pub fill_row : List (ExecutionRow D) → TradeOrder D → TradeOrder D
  unfolding with_remaining takes_part total
  fill_row batch t =
      if takes_part t.order_id batch
      then with_remaining (dec.sub t.remaining_quantity (total t.order_id batch)) t
      else t

  -- reconcilePreexistingFills
  unfoldable pub reconcile_row : List (ExecutionRow D) → TradeOrder D → TradeOrder D
  unfolding with_remaining takes_part total
  reconcile_row executions t =
      if takes_part t.order_id executions
      then with_remaining (dec.sub t.quantity (total t.order_id executions)) t
      else t

  unfoldable pub has_order : String → List (TradeOrder D) → Bool
  has_order id [] = false
  has_order id (t ∷ ts) = t.order_id == id || has_order id ts

  -- client_request_id is UNIQUE, where NULL equals nothing.
  unfoldable pub has_request : Option String → List (TradeOrder D) → Bool
  has_request request [] = false
  has_request request (t ∷ ts) = equal_request request t.client_request_id || has_request request ts

  -- The foreign key and the CHECKs of trade_order.
  unfoldable pub meets_checks : TradeOrder D → Bool
  unfolding member
  meets_checks r =
      member r.market_code markets
      && (r.side == "BUY" || r.side == "SELL")
      && (r.mode == "PAPER_TRADING" || r.mode == "REPLAY")

  -- Does INSERT IGNORE leave out the row?
  unfoldable pub is_ignored : TradeOrder D → List (TradeOrder D) → Bool
  unfolding has_order has_request meets_checks
  is_ignored r ts =
      has_order r.order_id ts || has_request r.client_request_id ts || not (meets_checks r)

module _ {D : Type 0} ⦃dec : Decimal D⦄ (decimal_of : String → D) where
  unfoldable pub row_of : NewOrder → TradeOrder D
  row_of o = record {
    order_id = o.order_id;
    client_request_id = null_if_empty o.client_request_id;
    market_code = o.market;
    side = o.side;
    price = decimal_of o.price;
    submitted_at = o.submitted_at;
    source_order_id = null_if_empty o.source_order_id;
    quantity = decimal_of o.quantity;
    remaining_quantity = decimal_of o.quantity;
    status = accepted;
    mode = o.mode;
    canceled_at = none;
  }

  -- INSERT IGNORE, with the number of new rows. Rows of the same statement count as well.
  pub insert_ignore : List NewOrder → List (TradeOrder D) → List (TradeOrder D) × ℕ
  unfolding row_of is_ignored
  insert_ignore [] ts = (ts, 0)
  insert_ignore (o ∷ os) ts =
      let (skipped, n) = insert_ignore os ts in
      let (added, m) = insert_ignore os (ts ++ row_of o ∷ []) in
      if is_ignored (row_of o) ts then (skipped, n) else (added, suc m)

  -- The tables after the insertion and the reconciliation.
  unfoldable pub inserted : List NewOrder → Tables D → Tables D
  unfolding insert_ignore reconcile_row
  inserted orders t = record t {
    trade_order =
        map (λ r. if names r.order_id orders then reconcile_row t.execution r else r)
          (insert_ignore orders t.trade_order).0;
  }

  -- `none` is an error, which leaves the tables as they are.
  unfoldable pub insert_orders_batch :
      (String → Bool) → List NewOrder → Tables D → Option (Tables D × ℕ)
  unfolding inserted insert_ignore valid_orders
  insert_orders_batch valid_time orders t =
      if valid_orders valid_time orders
      then some (inserted orders t, (insert_ignore orders t.trade_order).1)
      else none

  unfoldable pub execution_row : String → ExecutionInput → ExecutionRow D
  execution_row mode e = record {
    execution_id = e.execution_id;
    market_code = e.market;
    price = decimal_of e.price;
    buy_order_id = e.buy_order_id;
    sell_order_id = e.sell_order_id;
    quantity = decimal_of e.quantity;
    mode = null_if_empty mode;
  }

module _ {D : Type 0} ⦃dec : Decimal D⦄ where
  unfoldable pub cancel_row : List CancelInput → TradeOrder D → TradeOrder D
  unfolding cancellation
  cancel_row cancels t = elim (cancellation t.order_id cancels) [
    | none ↦ t
    | some at ↦ elim t.status [
      | accepted ↦ record t { status = canceled; canceled_at = some at }
      | partially_filled ↦ record t { status = canceled; canceled_at = some at }
      | filled ↦ t
      | canceled ↦ t
    ]
  ]

  unfoldable pub cancel_orders_batch :
      (String → Bool) → List CancelInput → Tables D → Option (Tables D)
  unfolding cancel_row valid_cancels
  cancel_orders_batch valid_time cancels t =
      if valid_cancels valid_time [] cancels
      then some (record t { trade_order = map (cancel_row cancels) t.trade_order })
      else none

  -- fetchModes
  pub mode_of : String → List (TradeOrder D) → Option String
  mode_of id [] = none
  mode_of id (t ∷ ts) = if t.order_id == id then some t.mode else mode_of id ts

  abbrev pub same_pair : ExecutionRow D → ExecutionInput → Bool
  same_pair r e = r.buy_order_id == e.buy_order_id && r.sell_order_id == e.sell_order_id

  -- fetchExistingExecutionPairs: is the key of this input one of a stored pair of the batch?
  unfoldable pub already_recorded :
      List ExecutionInput → ExecutionInput → List (ExecutionRow D) → Bool
  already_recorded batch e [] = false
  already_recorded batch e (r ∷ rs) =
      (any_input (same_pair r) batch
        && pair_key r.buy_order_id r.sell_order_id == pair_key e.buy_order_id e.sell_order_id)
      || already_recorded batch e rs

  unfoldable pub has_pair : ExecutionInput → List (ExecutionRow D) → Bool
  has_pair e [] = false
  has_pair e (r ∷ rs) = same_pair r e || has_pair e rs

  unfoldable pub mode_for : Tables D → ExecutionInput → String × Bool
  unfolding resolve_mode mode_of
  mode_for t e =
      resolve_mode (mode_of e.buy_order_id t.trade_order) (mode_of e.sell_order_id t.trade_order)

  unfoldable pub result_of : Tables D → List ExecutionInput → ExecutionInput → ExecutionResult
  unfolding mode_for mode_of already_recorded
  result_of t batch e = record {
    execution_id = e.execution_id;
    mode = (mode_for t e).0;
    buy_found = is_some (mode_of e.buy_order_id t.trade_order);
    sell_found = is_some (mode_of e.sell_order_id t.trade_order);
    mode_mismatched = (mode_for t e).1;
    inserted = not (already_recorded batch e t.execution);
  }

module _ {D : Type 0} ⦃dec : Decimal D⦄ (decimal_of : String → D) where
  -- The inputs that are not stored yet, as rows.
  pub new_rows : Tables D → List ExecutionInput → List ExecutionInput → List (ExecutionRow D)
  unfolding mode_for execution_row already_recorded
  new_rows t batch [] = []
  new_rows t batch (e ∷ es) =
      let rest = new_rows t batch es in
      if already_recorded batch e t.execution
      then rest
      else execution_row decimal_of (mode_for t e).0 e ∷ rest

  -- INSERT IGNORE of the executions.
  pub insert_executions :
      Tables D → List ExecutionInput → List (ExecutionRow D) → List (ExecutionRow D)
  unfolding mode_for execution_row has_pair
  insert_executions t [] rows = rows
  insert_executions t (e ∷ es) rows =
      insert_executions t es
        (if has_pair e rows then rows else rows ++ execution_row decimal_of (mode_for t e).0 e ∷ [])

  unfoldable pub apply_executions_batch :
      List ExecutionInput → Tables D → Tables D × List ExecutionResult
  unfolding new_rows insert_executions result_of fill_row
  apply_executions_batch batch t = (
    record {
      trade_order = map (fill_row (new_rows t batch batch)) t.trade_order;
      execution = insert_executions t batch t.execution;
    },
    map (result_of t batch) batch,
  )
