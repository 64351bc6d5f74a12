-- ===== src/Matching/Engine/Safety.antt =====
-- The engine's book after every call: its invariant holds and no bid reaches an ask.
use project_final_1team.Prelude.Int.{leb_ℤ}
use project_final_1team.Matching.OrderBook.Spec.{remove_order}
use project_final_1team.Prelude.{
  ℕ, String, arith, is_some, ◌≡◌, ap, sym, subst₂, inl, inr, Bool-cases, Option-cases, All-map,
}
use project_final_1team.Dict
use project_final_1team.Decimal.{Decimal}
use project_final_1team.Matching.OrderBook.{Side, buy, sell, OrderBook, all_orders, cancel}
use project_final_1team.Matching.OrderBook.Match
use project_final_1team.Matching.OrderBook.Match.{opposite}
use project_final_1team.Matching.OrderBook.Invariant.{IsGoodBook}
use project_final_1team.Matching.OrderBook.Invariant.Cancel.{cancel-known, cancel-unknown}
use project_final_1team.Matching.OrderBook.Resting.Cancel.{All-remove}
use project_final_1team.Matching.OrderBook.Match.Uncrossed.{
  IsUncrossed, AllBelow, apply-IsUncrossed,
}
use project_final_1team.Matching.Engine.{
  Engine, OrderEvent, OrderEventType, event_new, event_cancel, event_other, Services, event_order,
  apply, apply_new, dispatch, finish, snapshot, publish_all,
}

module _ {D : Type 0} ⦃dec : Decimal D⦄ where
  abbrev pub IsSafe : OrderBook D → Type 0
  IsSafe ob = IsGoodBook ob × IsUncrossed ob

  cancel_one-IsUncrossed :
      (id : String) (ob : OrderBook D) (side : Side)
      → IsUncrossed ob
      → (all_orders side (cancel ob id) ≡ remove_order id (all_orders side ob))
      → (all_orders (opposite side) (cancel ob id) ≡ all_orders (opposite side) ob)
      → IsUncrossed (cancel ob id)
  cancel_one-IsUncrossed id ob buy u own other =
      subst₂ AllBelow (sym own) (sym other) (All-remove _ id _ u)
  cancel_one-IsUncrossed id ob sell u own other =
      subst₂ AllBelow (sym other) (sym own) (All-map _ _ (λ b h. All-remove _ id _ h) _ u)

  pub cancel-IsSafe : (ob : OrderBook D) (id : String) → IsSafe ob → IsSafe (cancel ob id)
  cancel-IsSafe ob id (g, u) = elim (Option-cases (Dict.get id ob.elements)) [
    | inl n ↦ rw (cancel-unknown ob id (ap is_some n)) (g, u)
    | inr (e, k) ↦
        let (good, own, other, _) = cancel-known ob id e g k in
        (good, cancel_one-IsUncrossed id ob e.side u own other)
  ]

module _ {D W : Type 0} ⦃dec : Decimal D⦄ (services : Services D W) where
  book-finish :
      (e : Engine D) (w : W) (ev : OrderEvent D) (now later : ℕ)
      → (finish services e w ev now later).engine.book ≡ e.book
  unfolding finish snapshot
  book-finish e w ev now later = ground arith

  finish-IsSafe :
      (e : Engine D) (w : W) (ev : OrderEvent D) (now later : ℕ)
      → IsSafe e.book
      → IsSafe (finish services e w ev now later).engine.book
  finish-IsSafe e w ev now later s = rw (book-finish e w ev now later) s

  apply_new-IsSafe :
      (e : Engine D) (w : W) (ev : OrderEvent D) (now later : ℕ)
      → IsSafe e.book
      → IsSafe (apply_new services e w ev now later).engine.book
  unfolding apply_new
  apply_new-IsSafe e w ev now later s =
      let (book, executions) = Match.apply e.book (event_order ev) in
      let (w', sent) = publish_all services w executions in
      let kept : IsSafe book = apply-IsUncrossed e.book (event_order ev) s.0 s.1 in
      elim (Bool-cases sent) [
        | inl p ↦ rw p (finish-IsSafe (record e { book = book }) w' ev now later kept)
        | inr p ↦ rw p kept
      ]

  dispatch-IsSafe :
      (t : OrderEventType) (e : Engine D) (w : W) (ev : OrderEvent D) (now later : ℕ)
      → IsSafe e.book
      → IsSafe (dispatch services t e w ev now later).engine.book
  unfolding dispatch
  dispatch-IsSafe event_new e w ev now later s = apply_new-IsSafe e w ev now later s
  dispatch-IsSafe event_cancel e w ev now later s =
      finish-IsSafe (record e { book = cancel e.book ev.order_id }) w ev now later
        (cancel-IsSafe e.book ev.order_id s)
  dispatch-IsSafe (event_other t) e w ev now later s = finish-IsSafe e w ev now later s

  -- Every call of the engine's Apply, with or without an error, keeps the invariant of the book and
  -- leaves no bid that reaches an ask, if that held before.
  pub apply-IsSafe :
      (e : Engine D) (w : W) (ev : OrderEvent D) (now later : ℕ)
      → IsSafe e.book
      → IsSafe (apply services e w ev now later).engine.book
  unfolding apply
  apply-IsSafe e w ev now later s = elim (Bool-cases (leb_ℤ ev.offset e.last_offset)) [
    | inl h ↦ rw h s
    | inr h ↦ rw h (dispatch-IsSafe ev.type e w ev now later s)
  ]
