-- ===== src/Recorder/Store/Balance.antt =====
-- The remaining quantities against the stored executions, whichever of the two arrives first.
use Prim.Native.String.{String}
use project_final_1team.Prelude.{
  ◌≡◌, refl, sym, ap, subst, ◌∙◌, inl, inr, ◌⊎◌, Bool, true, false, ◌&&◌, List, [], ◌∷◌, ◌++◌, ◌==◌,
  eq_refl, map, arith, Bool-cases, All, All-append, false≢true, append-nil, append_assoc,
  if◌then◌else◌,
}
use project_final_1team.Decimal.{Decimal}
use project_final_1team.Decimal.Laws.{sub_sub, sub_zero}
use project_final_1team.Recorder.Tables.{names}
use project_final_1team.Recorder.Store.{inserted}
use project_final_1team.Recorder.Tables.{
  TradeOrder, ExecutionRow, Tables, NewOrder, CancelInput, ExecutionInput,
}
use project_final_1team.Recorder.Store.{
  takes_part, total, with_remaining, fill_row, reconcile_row, is_ignored, row_of, insert_ignore,
  cancel_row, already_recorded, has_pair, mode_for, new_rows, insert_executions, execution_row,
  apply_executions_batch,
}
use project_final_1team.Recorder.Store.Sums.{total-append, total-none}
use project_final_1team.Recorder.Store.Redelivery.{has_pair-append}

module _ {D : Type 0} ⦃dec : Decimal D⦄ where
  -- What remains of an order is its quantity without its share of the executions.
  abbrev pub IsBalancedRow : List (ExecutionRow D) → TradeOrder D → Type 0
  IsBalancedRow es r = r.remaining_quantity ≡ dec.sub r.quantity (total r.order_id es)

  abbrev pub IsBalanced : Tables D → Type 0
  IsBalanced t = All (IsBalancedRow t.execution) t.trade_order

  All-through :
      (P Q : TradeOrder D → Type 0) (f : TradeOrder D → TradeOrder D)
      → ((r : TradeOrder D) → P r → Q (f r))
      → (rs : List (TradeOrder D)) → All P rs
      → All Q (map f rs)
  All-through P Q f step [] h = tt
  All-through P Q f step (r ∷ rs) h = (step r h.0, All-through P Q f step rs h.1)

  fill_row-IsBalanced :
      (old new : List (ExecutionRow D)) (r : TradeOrder D)
      → IsBalancedRow old r
      → IsBalancedRow (old ++ new) (fill_row new r)
  unfolding fill_row with_remaining
  fill_row-IsBalanced old new r h = elim (Bool-cases (takes_part r.order_id new)) [
    | inl k ↦ rw k (ap (λ x. dec.sub x (total r.order_id new)) h ∙ summed)
    | inr n ↦
        rw n (h ∙ sym (sub_zero _) ∙ ap (dec.sub _) (sym (total-none r.order_id new n)) ∙ summed)
  ]
    where
      summed :
          dec.sub (dec.sub r.quantity (total r.order_id old)) (total r.order_id new)
          ≡ dec.sub r.quantity (total r.order_id (old ++ new))
      summed =
          sub_sub r.quantity (total r.order_id old) (total r.order_id new)
          ∙ ap (dec.sub r.quantity) (sym (total-append r.order_id old new))

  cancel_row-IsBalanced :
      (cancels : List CancelInput) (es : List (ExecutionRow D)) (r : TradeOrder D)
      → IsBalancedRow es r
      → IsBalancedRow es (cancel_row cancels r)
  unfolding cancel_row
  cancel_row-IsBalanced cancels es r h = ground arith

  reconcile_row-IsBalanced :
      (es : List (ExecutionRow D)) (r : TradeOrder D)
      → (IsBalancedRow es r) ⊎ (r.remaining_quantity ≡ r.quantity)
      → IsBalancedRow es (reconcile_row es r)
  unfolding reconcile_row with_remaining
  reconcile_row-IsBalanced es r h = elim (Bool-cases (takes_part r.order_id es)) [
    | inl k ↦ rw k refl
    | inr n ↦ elim h [
      | inl b ↦ rw n b
      | inr q ↦ rw n (
          q
          ∙ sym (sub_zero r.quantity)
          ∙ ap (dec.sub r.quantity) (sym (total-none r.order_id es n)))
    ]
  ]

  pub cancel-IsBalanced :
      (cancels : List CancelInput) (t : Tables D)
      → IsBalanced t
      → IsBalanced (record t { trade_order = map (cancel_row cancels) t.trade_order })
  cancel-IsBalanced cancels t h =
      All-through _ _ (cancel_row cancels) (cancel_row-IsBalanced cancels t.execution) t.trade_order
        h

-- No two inputs of a batch are about the same pair of orders.
abbrev pub same_input : ExecutionInput → ExecutionInput → Bool
same_input a b = a.buy_order_id == b.buy_order_id && a.sell_order_id == b.sell_order_id

abbrev pub IsDistinct : List ExecutionInput → Type 0
IsDistinct [] = Unit
IsDistinct (e ∷ es) = All (λ x. same_input e x ≡ false) es × IsDistinct es

module _ {D : Type 0} ⦃dec : Decimal D⦄ where
  -- The joined keys of fetchExistingExecutionPairs tell the batch's pairs from those stored.
  abbrev pub KeysTellApart : List ExecutionInput → Tables D → Type 0
  KeysTellApart batch t =
      All (λ e. already_recorded batch e t.execution ≡ has_pair e t.execution) batch

module _ {D : Type 0} ⦃dec : Decimal D⦄ (decimal_of : String → D) where
  -- The inputs that insertion still has to look at are those that the batch does not find stored.
  abbrev Agree :
      Tables D → List ExecutionInput → List (ExecutionRow D) → List ExecutionInput → Type 0
  Agree t batch rows es = All (λ e. has_pair e rows ≡ already_recorded batch e t.execution) es

  Agree-next :
      (t : Tables D) (batch : List ExecutionInput) (rows : List (ExecutionRow D))
      (e : ExecutionInput) (es : List ExecutionInput)
      → All (λ x. same_input e x ≡ false) es
      → Agree t batch rows es
      → Agree t batch (rows ++ execution_row decimal_of (mode_for t e).0 e ∷ []) es
  unfolding execution_row
  Agree-next t batch rows e [] apart h = tt
  Agree-next t batch rows e (x ∷ es) apart h = (
    has_pair-append x rows _ ∙ ground (arith, apart.0, h.0),
    Agree-next t batch rows e es apart.1 h.1,
  )

  insert_executions-new :
      (t : Tables D) (batch es : List ExecutionInput) (rows : List (ExecutionRow D))
      → IsDistinct es
      → Agree t batch rows es
      → insert_executions decimal_of t es rows ≡ rows ++ new_rows decimal_of t batch es
  unfolding insert_executions new_rows
  insert_executions-new t batch [] rows d h = sym (append-nil rows)
  insert_executions-new t batch (e ∷ es) rows d h = elim (Bool-cases (has_pair e rows)) [
    | inl k ↦ rw (k, sym h.0 ∙ k) (insert_executions-new t batch es rows d.1 h.1)
    | inr n ↦
        rw (n, sym h.0 ∙ n)
          (insert_executions-new t batch es _ d.1 (Agree-next t batch rows e es d.0 h.1)
            ∙ append_assoc rows _ _)
  ]

  Agree-first :
      (t : Tables D) (batch es : List ExecutionInput)
      → All (λ e. already_recorded batch e t.execution ≡ has_pair e t.execution) es
      → Agree t batch t.execution es
  Agree-first t batch [] h = tt
  Agree-first t batch (e ∷ es) h = (sym h.0, Agree-first t batch es h.1)

  -- A batch of executions about distinct pairs keeps what remains of every order equal to its quantity
  -- without its share of the stored executions.
  pub apply_executions_batch-IsBalanced :
      (batch : List ExecutionInput) (t : Tables D)
      → IsDistinct batch
      → KeysTellApart batch t
      → IsBalanced t
      → IsBalanced (apply_executions_batch decimal_of batch t).0
  unfolding apply_executions_batch
  apply_executions_batch-IsBalanced batch t d keys h =
      let new = new_rows decimal_of t batch batch in
      subst (λ es. All (IsBalancedRow es) (map (fill_row new) t.trade_order))
        (sym (insert_executions-new t batch batch t.execution d (Agree-first t batch batch keys)))
        (All-through _ _ (fill_row new) (fill_row-IsBalanced t.execution new) t.trade_order h)

  -- Rows of the insertion: in balance, or new and untouched.
  abbrev IsReady : List NewOrder → List (ExecutionRow D) → TradeOrder D → Type 0
  IsReady orders es r =
      (IsBalancedRow es r)
      ⊎ ((r.remaining_quantity ≡ r.quantity) × (names r.order_id orders ≡ true))

  insert_ignore-IsReady :
      (orders os : List NewOrder) (es : List (ExecutionRow D)) (rows : List (TradeOrder D))
      → ((id : String) → names id os ≡ true → names id orders ≡ true)
      → All (IsReady orders es) rows
      → All (IsReady orders es) (insert_ignore decimal_of os rows).0
  unfolding insert_ignore row_of
  insert_ignore-IsReady orders [] es rows part h = h
  insert_ignore-IsReady orders (o ∷ os) es rows part h =
      elim (Bool-cases (is_ignored (row_of decimal_of o) rows)) [
        | inl k ↦ rw k (insert_ignore-IsReady orders os es rows rest h)
        | inr n ↦ rw n (
            insert_ignore-IsReady orders os es (rows ++ row_of decimal_of o ∷ []) rest (
              All-append _ rows _ h
                (inr (refl, part o.order_id (rw (eq_refl o.order_id) refl)), tt)))
      ]
    where
      rest : (id : String) → names id os ≡ true → names id orders ≡ true
      rest id m = part id (ground arith)

  settle :
      (orders : List NewOrder) (es : List (ExecutionRow D)) (r : TradeOrder D)
      → IsReady orders es r
      → IsBalancedRow es (if names r.order_id orders then reconcile_row es r else r)
  settle orders es r h = elim (Bool-cases (names r.order_id orders)) [
    | inl k ↦ rw k (reconcile_row-IsBalanced es r (elim h [ inl b ↦ inl b | inr (q, _) ↦ inr q ]))
    | inr n ↦ rw n (elim h [ inl b ↦ b | inr (_, k) ↦ elim (false≢true (sym n ∙ k)) [ ] ])
  ]

  ready :
      (orders : List NewOrder) (es : List (ExecutionRow D)) (rows : List (TradeOrder D))
      → All (IsBalancedRow es) rows
      → All (IsReady orders es) rows
  ready orders es [] h = tt
  ready orders es (r ∷ rows) h = (inl h.0, ready orders es rows h.1)

  -- A batch of new orders, some of which may be known or have executions already, does so as well.
  pub inserted-IsBalanced :
      (orders : List NewOrder) (t : Tables D)
      → IsBalanced t
      → IsBalanced (inserted decimal_of orders t)
  unfolding inserted
  inserted-IsBalanced orders t h =
      All-through _ _ (λ r. if names r.order_id orders then reconcile_row t.execution r else r)
        (settle orders t.execution) _
        (insert_ignore-IsReady orders orders t.execution t.trade_order (λ _ m. m)
          (ready orders t.execution t.trade_order h))
