-- ===== src/Recorder/Store/Sums.antt =====
-- The sums of SUM and GROUP BY over the executions.
use Prim.Native.String.{String}
use project_final_1team.Prelude.{
  ◌≡◌, refl, sym, ap, ap₂, ◌∙◌, false, ◌||◌, List, [], ◌∷◌, ◌++◌, ◌==◌, arith,
}
use project_final_1team.Decimal.{Decimal}
use project_final_1team.Decimal.Laws.{zero_add}
use project_final_1team.Recorder.Tables.{ExecutionRow}
use project_final_1team.Recorder.Store.{takes_part, share, total}

module _ {D : Type 0} ⦃dec : Decimal D⦄ where
  pub total-append :
      (id : String) (xs ys : List (ExecutionRow D))
      → total id (xs ++ ys) ≡ dec.add (total id xs) (total id ys)
  unfolding total
  total-append id [] ys = sym (zero_add (total id ys))
  total-append id (x ∷ xs) ys =
      ap (dec.add (share id x)) (total-append id xs ys)
      ∙ sym (dec.add_assoc (share id x) (total id xs) (total id ys))

  no_share :
      (id : String) (e : ExecutionRow D)
      → (e.buy_order_id == id || e.sell_order_id == id) ≡ false
      → share id e ≡ dec.zero_value
  unfolding share
  no_share id e h =
      let b : (e.buy_order_id == id) ≡ false = ground arith in
      let s : (e.sell_order_id == id) ≡ false = ground arith in
      rw (b, s, share) (dec.add_zero dec.zero_value)

  -- An order that takes part in no execution has no share.
  pub total-none :
      (id : String) (es : List (ExecutionRow D))
      → takes_part id es ≡ false
      → total id es ≡ dec.zero_value
  unfolding total takes_part
  total-none id [] h = refl
  total-none id (e ∷ es) h =
      ap₂ dec.add (no_share id e (ground arith)) (total-none id es (ground arith))
      ∙ dec.add_zero dec.zero_value
