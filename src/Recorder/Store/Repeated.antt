-- ===== src/Recorder/Store/Repeated.antt =====
-- recorder/store/mysql.go: ApplyExecutionsBatch with a batch that holds the same execution twice.
use project_final_1team.Prelude.{
  ◌≡◌, refl, sym, ap, ap₂, subst₂, ◌∙◌, inl, inr, true, false, ◌||◌, List, [], ◌∷◌, ◌++◌, ◌==◌,
  eq_iff, eq_refl, map, arith, Bool-cases, All, false≢true, if◌then◌else◌,
}
use project_final_1team.Prelude.{String}
use project_final_1team.Decimal.{Decimal, IsPositive}
use project_final_1team.Decimal.Laws.{sub_sub, sub_lt, zero_add}
use project_final_1team.Recorder.Tables.{TradeOrder, Tables, ExecutionInput, ExecutionRow}
use project_final_1team.Recorder.Store.{
  share, total, with_remaining, takes_part, fill_row, has_order, apply_executions_batch,
  already_recorded, has_pair, execution_row, mode_for, insert_executions, new_rows, result_of,
}
use project_final_1team.Recorder.Store.Sums.{total-append}
use project_final_1team.Recorder.Store.Redelivery.{has_pair-append}
use project_final_1team.Recorder.Store.Balance.{IsBalanced, IsBalancedRow}

-- The same execution under another new id.
abbrev pub with_id : String → ExecutionInput → ExecutionInput
with_id id e = record e { execution_id = id }

module _ {D : Type 0} ⦃dec : Decimal D⦄ where
  -- A row of one of the two orders, with the quantity taken twice.
  abbrev pub filled_twice : ExecutionInput → D → TradeOrder D → TradeOrder D
  filled_twice e quantity r =
      if e.buy_order_id == r.order_id || e.sell_order_id == r.order_id
      then with_remaining (dec.sub r.remaining_quantity (dec.add quantity quantity)) r
      else r

module _ {D : Type 0} ⦃dec : Decimal D⦄ (decimal_of : String → D) where
  own_pair :
      (mode : String) (e : ExecutionInput) (rows : List (ExecutionRow D))
      → has_pair e (rows ++ execution_row decimal_of mode e ∷ []) ≡ true
  unfolding execution_row
  own_pair mode e rows =
      has_pair-append e rows _ ∙ rw (eq_refl e.buy_order_id, eq_refl e.sell_order_id) (ground arith)

  share-one :
      (mode : String) (e : ExecutionInput) (id : String)
      → (e.buy_order_id == e.sell_order_id) ≡ false
      → (e.buy_order_id == id || e.sell_order_id == id) ≡ true
      → share id (execution_row decimal_of mode e) ≡ decimal_of e.quantity
  unfolding share execution_row
  share-one mode e id apart part = elim (Bool-cases (e.buy_order_id == id)) [
    | inl b ↦
        let other : (e.sell_order_id == id) ≡ false = not_seller b in
        rw (b, other, share) (dec.add_zero (decimal_of e.quantity))
    | inr n ↦
        let seller : (e.sell_order_id == id) ≡ true = ground arith in
        rw (n, seller, share) (zero_add (decimal_of e.quantity))
  ]
    where
      not_seller : (e.buy_order_id == id) ≡ true → (e.sell_order_id == id) ≡ false
      not_seller b = elim (Bool-cases (e.sell_order_id == id)) [
        | inl s ↦ absurd (
            false≢true (
              sym apart
              ∙ (eq_iff e.buy_order_id e.sell_order_id).1
                  ((eq_iff e.buy_order_id id).0 b ∙ sym ((eq_iff e.sell_order_id id).0 s))))
        | inr n ↦ n
      ]

  total-twice :
      (mode : String) (e : ExecutionInput) (id' : String) (id : String)
      → (e.buy_order_id == e.sell_order_id) ≡ false
      → (e.buy_order_id == id || e.sell_order_id == id) ≡ true
      → let row = execution_row decimal_of mode e in
        total id (row ∷ execution_row decimal_of mode (with_id id' e) ∷ [])
        ≡ dec.add (decimal_of e.quantity) (decimal_of e.quantity)
  unfolding total execution_row
  total-twice mode e id' id apart part =
      let one = share-one mode e id apart part in ap₂ dec.add one (dec.add_zero _ ∙ one)

  takes_part-twice :
      (mode : String) (e : ExecutionInput) (id' : String) (id : String)
      → let row = execution_row decimal_of mode e in
        takes_part id (row ∷ execution_row decimal_of mode (with_id id' e) ∷ [])
        ≡ (e.buy_order_id == id || e.sell_order_id == id)
  unfolding takes_part execution_row
  takes_part-twice mode e id' id = ground arith

  fill_row-twice :
      (mode : String) (e : ExecutionInput) (id' : String) (r : TradeOrder D)
      → (e.buy_order_id == e.sell_order_id) ≡ false
      → let row = execution_row decimal_of mode e in
        fill_row (row ∷ execution_row decimal_of mode (with_id id' e) ∷ []) r
        ≡ filled_twice e (decimal_of e.quantity) r
  unfolding fill_row
  fill_row-twice mode e id' r apart =
      elim (Bool-cases (e.buy_order_id == r.order_id || e.sell_order_id == r.order_id)) [
        | inl part ↦
            rw (takes_part-twice mode e id' r.order_id, part, fill_row)
              (ap (λ x. with_remaining (dec.sub r.remaining_quantity x) r)
                (total-twice mode e id' r.order_id apart part))
        | inr n ↦ rw (takes_part-twice mode e id' r.order_id, n, fill_row) refl
      ]

  fill_rows-twice :
      (mode : String) (e : ExecutionInput) (id' : String) (rs : List (TradeOrder D))
      → (e.buy_order_id == e.sell_order_id) ≡ false
      → let row = execution_row decimal_of mode e in
        map (fill_row (row ∷ execution_row decimal_of mode (with_id id' e) ∷ [])) rs
        ≡ map (filled_twice e (decimal_of e.quantity)) rs
  fill_rows-twice mode e id' [] apart = refl
  fill_rows-twice mode e id' (r ∷ rs) apart =
      ap₂ ◌∷◌ (fill_row-twice mode e id' r apart) (fill_rows-twice mode e id' rs apart)

  total-once :
      (mode : String) (e : ExecutionInput) (id : String) (es : List (ExecutionRow D))
      → (e.buy_order_id == e.sell_order_id) ≡ false
      → (e.buy_order_id == id || e.sell_order_id == id) ≡ true
      → total id (es ++ execution_row decimal_of mode e ∷ [])
        ≡ dec.add (total id es) (decimal_of e.quantity)
  unfolding total
  total-once mode e id es apart part =
      total-append id es (execution_row decimal_of mode e ∷ [])
      ∙ ap (dec.add (total id es)) (dec.add_zero _ ∙ share-one mode e id apart part)

  -- The buyer's row is out of balance: the stored execution counts once.
  unbalanced_row :
      (mode : String) (e : ExecutionInput) (es : List (ExecutionRow D)) (r : TradeOrder D)
      → (e.buy_order_id == e.sell_order_id) ≡ false
      → IsPositive (decimal_of e.quantity)
      → r.order_id ≡ e.buy_order_id
      → IsBalancedRow es r
      → ¬ IsBalancedRow
          (es ++ execution_row decimal_of mode e ∷ [])
          (filled_twice e (decimal_of e.quantity) r)
  unfolding with_remaining
  unbalanced_row mode e es r apart positive buyer balanced after =
      let q = decimal_of e.quantity in
      let rest = dec.sub r.remaining_quantity q in
      let own : (e.buy_order_id == r.order_id) ≡ true = (eq_iff _ _).1 (sym buyer) in
      let part : (e.buy_order_id == r.order_id || e.sell_order_id == r.order_id) ≡ true =
        rw own refl in
      let taken : dec.sub r.remaining_quantity (dec.add q q)
          ≡ dec.sub r.quantity (total r.order_id (es ++ execution_row decimal_of mode e ∷ [])) =
        (rw part at after) in
      let same : dec.sub rest q ≡ rest =
        sub_sub r.remaining_quantity q q
        ∙ taken
        ∙ ap (dec.sub r.quantity) (total-once mode e r.order_id es apart part)
        ∙ sym (sub_sub r.quantity (total r.order_id es) q)
        ∙ ap (λ x. dec.sub x q) (sym balanced) in
      false≢true (
        sym (dec.lt_irrefl rest)
        ∙ ap (λ x. dec.less_than x rest) (sym same)
        ∙ sub_lt rest q positive)

  unbalanced :
      (mode : String) (e : ExecutionInput) (es : List (ExecutionRow D)) (rs : List (TradeOrder D))
      → (e.buy_order_id == e.sell_order_id) ≡ false
      → IsPositive (decimal_of e.quantity)
      → has_order e.buy_order_id rs ≡ true
      → All (IsBalancedRow es) rs
      → ¬ All
          (IsBalancedRow (es ++ execution_row decimal_of mode e ∷ []))
          (map (filled_twice e (decimal_of e.quantity)) rs)
  unfolding has_order
  unbalanced mode e es [] apart positive known h after = false≢true known
  unbalanced mode e es (r ∷ rs) apart positive known h after =
      elim (Bool-cases (r.order_id == e.buy_order_id)) [
        | inl b ↦
            unbalanced_row mode e es r apart positive ((eq_iff r.order_id e.buy_order_id).0 b) h.0
              after.0
        | inr n ↦ unbalanced mode e es rs apart positive (rw n at known) h.1 after.1
      ]

  stored_once :
      (e : ExecutionInput) (id' : String) (t : Tables D)
      → has_pair e t.execution ≡ false
      → insert_executions decimal_of t (e ∷ with_id id' e ∷ []) t.execution
        ≡ t.execution ++ execution_row decimal_of (mode_for t e).0 e ∷ []
  unfolding insert_executions
  stored_once e id' t h = rw h (rw (own_pair (mode_for t e).0 e t.execution) refl)

  rows_twice :
      (e : ExecutionInput) (id' : String) (t : Tables D)
      → already_recorded (e ∷ with_id id' e ∷ []) e t.execution ≡ false
      → (e.buy_order_id == e.sell_order_id) ≡ false
      → map
          (fill_row (new_rows decimal_of t (e ∷ with_id id' e ∷ []) (e ∷ with_id id' e ∷ [])))
          t.trade_order
        ≡ map (filled_twice e (decimal_of e.quantity)) t.trade_order
  unfolding new_rows
  rows_twice e id' t a apart = rw a (fill_rows-twice (mode_for t e).0 e id' t.trade_order apart)

  both_inserted :
      (e : ExecutionInput) (id' : String) (t : Tables D)
      → already_recorded (e ∷ with_id id' e ∷ []) e t.execution ≡ false
      → map (λ r. r.inserted) (map (result_of t (e ∷ with_id id' e ∷ [])) (e ∷ with_id id' e ∷ []))
        ≡ true ∷ true ∷ []
  unfolding result_of
  both_inserted e id' t a = rw (a, result_of) refl

  -- In balanced tables, when a batch names an execution of positive quantity between two different
  -- orders twice, under a new id each, the buyer's of which is stored, and nothing of it is stored
  -- yet and its joined key is not found, then the execution is stored once and both results say
  -- inserted, but from what remains of each of the two orders that is stored its quantity is
  -- subtracted twice, and the tables are no longer balanced.
  pub apply_executions_batch-repeated :
      (e : ExecutionInput) (id' : String) (t : Tables D)
      → already_recorded (e ∷ with_id id' e ∷ []) e t.execution ≡ false
      → has_pair e t.execution ≡ false
      → (e.buy_order_id == e.sell_order_id) ≡ false
      → IsPositive (decimal_of e.quantity)
      → has_order e.buy_order_id t.trade_order ≡ true
      → IsBalanced t
      → let row = execution_row decimal_of (mode_for t e).0 e in
        let (t', results) = apply_executions_batch decimal_of (e ∷ with_id id' e ∷ []) t in
        (t'.execution ≡ t.execution ++ row ∷ [])
        × (t'.trade_order ≡ map (filled_twice e (decimal_of e.quantity)) t.trade_order)
        × (map (λ r. r.inserted) results ≡ true ∷ true ∷ [])
        × ¬ IsBalanced t'
  unfolding apply_executions_batch
  apply_executions_batch-repeated e id' t a h apart positive known balanced =
      let mode = (mode_for t e).0 in
      let stored = stored_once e id' t h in
      let filled = rows_twice e id' t a apart in
      (
        stored,
        filled,
        both_inserted e id' t a,
        λ after.
            unbalanced mode e t.execution t.trade_order apart positive known balanced
              (subst₂ (λ es ts. All (IsBalancedRow es) ts) stored filled after),
      )
