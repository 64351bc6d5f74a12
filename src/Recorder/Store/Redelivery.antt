-- ===== src/Recorder/Store/Redelivery.antt =====
-- A batch of executions that is delivered again after its transaction committed.
use Prim.Native.String.{String}
use project_final_1team.Prelude.{
  ◌≡◌, refl, ap, ap₂, ◌∙◌, inl, inr, Bool, true, ◌||◌, List, [], ◌∷◌, ◌++◌, ◌==◌, eq_iff, eq_refl,
  map, arith, Bool-cases, All, if◌then◌else◌,
}
use project_final_1team.Decimal.{Decimal}
use project_final_1team.Recorder.Tables.{any_input, pair_key}
use project_final_1team.Recorder.Tables.{TradeOrder, ExecutionRow, Tables, ExecutionInput}
use project_final_1team.Recorder.Store.{
  same_pair, already_recorded, has_pair, new_rows, insert_executions, execution_row, mode_for,
  fill_row, apply_executions_batch,
}

-- What passes for an input of the part passes for one of the batch.
abbrev IsPart : List ExecutionInput → List ExecutionInput → Type 0
IsPart es batch =
    (test : ExecutionInput → Bool) → any_input test es ≡ true → any_input test batch ≡ true

module _ {D : Type 0} ⦃dec : Decimal D⦄ where
  pub has_pair-append :
      (e : ExecutionInput) (rows : List (ExecutionRow D)) (r : ExecutionRow D)
      → has_pair e (rows ++ r ∷ []) ≡ (has_pair e rows || same_pair r e)
  unfolding has_pair
  has_pair-append e [] r = ground arith
  has_pair-append e (x ∷ rows) r = ground (arith, has_pair-append e rows r)

  recorded :
      (batch : List ExecutionInput) (e : ExecutionInput) (rows : List (ExecutionRow D))
      → ((test : ExecutionInput → Bool) → test e ≡ true → any_input test batch ≡ true)
      → has_pair e rows ≡ true
      → already_recorded batch e rows ≡ true
  unfolding already_recorded has_pair
  recorded batch e (r ∷ rows) inside h = elim (Bool-cases (same_pair r e)) [
    | inl s ↦ here s
    | inr n ↦ ground (arith, recorded batch e rows inside (rw n at h))
  ]
    where
      keys :
          same_pair r e ≡ true
          → (pair_key r.buy_order_id r.sell_order_id == pair_key e.buy_order_id e.sell_order_id)
            ≡ true
      keys s = (eq_iff _ _).1 (
          ap₂ pair_key ((eq_iff r.buy_order_id e.buy_order_id).0 (ground arith))
            ((eq_iff r.sell_order_id e.sell_order_id).0 (ground arith)))

      here : same_pair r e ≡ true → already_recorded batch e (r ∷ rows) ≡ true
      here s = rw (inside (same_pair r) s, keys s) refl
  recorded batch e [] inside h = cc

module _ {D : Type 0} ⦃dec : Decimal D⦄ (decimal_of : String → D) where
  -- The rows after one input.
  abbrev next : Tables D → ExecutionInput → List (ExecutionRow D) → List (ExecutionRow D)
  next t e rows =
      if has_pair e rows then rows else rows ++ execution_row decimal_of (mode_for t e).0 e ∷ []

  has_pair-next :
      (x : ExecutionInput) (t : Tables D) (e : ExecutionInput) (rows : List (ExecutionRow D))
      → has_pair x rows ≡ true
      → has_pair x (next t e rows) ≡ true
  has_pair-next x t e rows h = elim (Bool-cases (has_pair e rows)) [
    | inl k ↦ rw k h
    | inr n ↦ rw n (has_pair-append x rows _ ∙ ground (arith, h))
  ]

  has_pair-next_own :
      (t : Tables D) (e : ExecutionInput) (rows : List (ExecutionRow D))
      → has_pair e (next t e rows) ≡ true
  unfolding execution_row
  has_pair-next_own t e rows = elim (Bool-cases (has_pair e rows)) [
    | inl k ↦ rw k k
    | inr n ↦
        rw n
          (has_pair-append e rows _ ∙ rw (eq_refl e.buy_order_id, eq_refl e.sell_order_id, n) refl)
  ]

  has_pair-insert :
      (x : ExecutionInput) (t : Tables D) (es : List ExecutionInput) (rows : List (ExecutionRow D))
      → has_pair x rows ≡ true
      → has_pair x (insert_executions decimal_of t es rows) ≡ true
  unfolding insert_executions
  has_pair-insert x t [] rows h = h
  has_pair-insert x t (e ∷ es) rows h =
      has_pair-insert x t es (next t e rows) (has_pair-next x t e rows h)

  -- Every pair of a batch is stored after its insertion.
  insert_executions-All :
      (t : Tables D) (es : List ExecutionInput) (rows : List (ExecutionRow D))
      → All (λ e. has_pair e (insert_executions decimal_of t es rows) ≡ true) es
  unfolding insert_executions
  insert_executions-All t [] rows = tt
  insert_executions-All t (e ∷ es) rows = (
    has_pair-insert e t es (next t e rows) (has_pair-next_own t e rows),
    insert_executions-All t es (next t e rows),
  )

  insert_executions-known :
      (t : Tables D) (es : List ExecutionInput) (rows : List (ExecutionRow D))
      → All (λ e. has_pair e rows ≡ true) es
      → insert_executions decimal_of t es rows ≡ rows
  unfolding insert_executions
  insert_executions-known t [] rows h = refl
  insert_executions-known t (e ∷ es) rows h =
      ap (insert_executions decimal_of t es) (rw h.0 refl) ∙ insert_executions-known t es rows h.1

  new_rows-known :
      (t : Tables D) (batch es : List ExecutionInput)
      → IsPart es batch
      → All (λ e. has_pair e t.execution ≡ true) es
      → new_rows decimal_of t batch es ≡ []
  unfolding new_rows
  new_rows-known t batch [] part h = refl
  new_rows-known t batch (e ∷ es) part h =
      rw (recorded batch e t.execution (λ test p. part test (ground arith)) h.0)
        (new_rows-known t batch es (λ test p. part test (ground arith)) h.1)

module _ {D : Type 0} ⦃dec : Decimal D⦄ where
  no_fills : (ts : List (TradeOrder D)) → map (fill_row []) ts ≡ ts
  unfolding fill_row
  no_fills [] = refl
  no_fills (t ∷ ts) = ap₂ ◌∷◌ refl (no_fills ts)

module _ {D : Type 0} ⦃dec : Decimal D⦄ (decimal_of : String → D) where
  recorded-All :
      (t : Tables D) (batch es : List ExecutionInput)
      → IsPart es batch
      → All (λ e. has_pair e t.execution ≡ true) es
      → All (λ e. already_recorded batch e t.execution ≡ true) es
  recorded-All t batch [] part h = tt
  recorded-All t batch (e ∷ es) part h = (
    recorded batch e t.execution (λ test p. part test (ground arith)) h.0,
    recorded-All t batch es (λ test p. part test (ground arith)) h.1,
  )

  -- Once a batch is committed, all of it is found among the stored executions.
  pub recorded_after :
      (batch : List ExecutionInput) (t : Tables D)
      → let t' = (apply_executions_batch decimal_of batch t).0 in
        All (λ e. already_recorded batch e t'.execution ≡ true) batch
  unfolding apply_executions_batch
  recorded_after batch t =
      recorded-All (apply_executions_batch decimal_of batch t).0 batch batch (λ _ p. p)
        (insert_executions-All decimal_of t batch t.execution)

  pub apply_executions_batch-again :
      (batch : List ExecutionInput) (t : Tables D)
      → let t' = (apply_executions_batch decimal_of batch t).0 in
        (apply_executions_batch decimal_of batch t').0 ≡ t'
  unfolding apply_executions_batch
  apply_executions_batch-again batch t =
      let stored = insert_executions-All decimal_of t batch t.execution in
      let t' = (apply_executions_batch decimal_of batch t).0 in
      ap₂ (λ ts es. record { trade_order = ts; execution = es })
        (ap (λ new. map (fill_row new) t'.trade_order)
            (new_rows-known decimal_of t' batch batch (λ _ p. p) stored)
          ∙ no_fills t'.trade_order)
        (insert_executions-known decimal_of t' batch t'.execution stored)
