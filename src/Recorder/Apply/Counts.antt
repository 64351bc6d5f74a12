-- ===== src/Recorder/Apply/Counts.antt =====
-- What a redelivered batch adds to the counters, and what an unknown event leaves.
use project_final_1team.Prelude.{
  ◌≡◌, refl, ap₂, inl, inr, Bool, true, none, some, String, List, [], ◌∷◌, ◌++◌, map, All,
  Option-cases,
}
use project_final_1team.Decimal.{Decimal}
use project_final_1team.Recorder.Tables.{Tables, ExecutionInput}
use project_final_1team.Recorder.Store.{already_recorded, result_of, apply_executions_batch}
use project_final_1team.Recorder.Store.Redelivery.{apply_executions_batch-again, recorded_after}
use project_final_1team.Recorder.Apply.{
  OrderEvent, order_other, ExecutionEvent, StoreCalls, collect, input_of, count_inserted,
  apply_order_events, apply_execution_events, table_store,
}

collect-unknown :
    (before after : List OrderEvent) (ev : OrderEvent) (t : String)
    → ev.type ≡ order_other t
    → collect (before ++ ev ∷ after) ≡ none
unfolding collect
collect-unknown [] after ev t h = elim (Option-cases (collect after)) [
  | inl n ↦ rw (n, collect) refl
  | inr (b, s) ↦ rw (s, h, collect) refl
]
collect-unknown (x ∷ before) after ev t h = rw (collect-unknown before after ev t h, collect) refl

module _ {W : Type 0} (store : StoreCalls W) where
  -- An event of an unknown type, wherever it stands in a batch, makes the whole batch an error that
  -- writes nothing.
  pub apply_order_events-unknown :
      (w : W) (before after : List OrderEvent) (ev : OrderEvent) (t : String)
      → ev.type ≡ order_other t
      → apply_order_events store w (before ++ ev ∷ after) ≡ (w, none)
  unfolding apply_order_events
  apply_order_events-unknown w before after ev t h =
      rw (collect-unknown before after ev t h, apply_order_events) refl

module _ {D : Type 0} ⦃dec : Decimal D⦄ where
  count-known :
      (t : Tables D) (batch es : List ExecutionInput)
      → All (λ e. already_recorded batch e t.execution ≡ true) es
      → count_inserted (map (result_of t batch) es) ≡ 0
  unfolding count_inserted result_of
  count-known t batch [] h = refl
  count-known t batch (e ∷ es) h = rw (h.0) (count-known t batch es h.1)

  -- Executions that are applied again, after they were committed, change neither table and count as
  -- none.
  pub apply_execution_events-again :
      (decimal_of : String → D) (valid_time : String → Bool) (evs : List (String × ExecutionEvent))
      (t : Tables D)
      → let store = table_store decimal_of valid_time in
        let t' = (apply_execution_events store t evs).0 in
        apply_execution_events store t' evs ≡ (t', some 0)
  unfolding apply_execution_events table_store
  apply_execution_events-again decimal_of valid_time [] t = refl
  apply_execution_events-again decimal_of valid_time (ev ∷ evs) t =
      let batch = map input_of (ev ∷ evs) in
      let t' = (apply_executions_batch decimal_of batch t).0 in
      ap₂ (λ a n. (a, some n)) (apply_executions_batch-again decimal_of batch t)
        (count-known t' batch batch (recorded_after decimal_of batch t))
