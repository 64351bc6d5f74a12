-- ===== src/Matching/Consumer/Loop.antt =====
-- The whole loop of a partition: what it keeps, and that messages which were handled before are passed over.
use Prim.Native.String.{String}
use project_final_1team.Prelude.{
  ℕ, ◌≡◌, refl, ap, ◌∙◌, inl, inr, true, some, Option, List, [], ◌∷◌, All, Option-cases, arith,
}
use project_final_1team.Prelude.Int.{ℤ, leb_ℤ, leb_ℤ-refl, leb_ℤ-trans}
use project_final_1team.Decimal.{Decimal}
use project_final_1team.Matching.Engine
use project_final_1team.Matching.Engine.{Engine, OrderEvent, Services}
use project_final_1team.Matching.Engine.Safety.{IsSafe, apply-IsSafe}
use project_final_1team.Matching.Engine.Offsets.{apply-stale, last_offset-apply}
use project_final_1team.Matching.Consumer.{
  OrderMessage, Message, side_of, new_event, cancel_event, to_order_event, read_message, read_loop,
}

module _ {D : Type 0} ⦃dec : Decimal D⦄ (new_from_string : String → Option D) where
  -- An event has the offset of its message.
  offset-to_order_event :
      (raw : OrderMessage) (offset : ℤ) (ev : OrderEvent D)
      → to_order_event new_from_string raw offset ≡ some ev
      → ev.offset ≡ offset
  unfolding to_order_event new_event cancel_event side_of
  offset-to_order_event raw offset ev h = ground arith

module _ {D W : Type 0} ⦃dec : Decimal D⦄ (new_from_string : String → Option D)
    (services : Services D W) where
  -- What every call of the engine keeps, a message keeps.
  kept_by_message :
      (P : Engine D → Type 0)
      → ((e : Engine D) (w : W) (ev : OrderEvent D) (now later : ℕ)
          → P e
          → P (Engine.apply services e w ev now later).engine)
      → (m : Message) (s : Engine D × W) → P s.0
      → P (read_message new_from_string services m s).0
  unfolding read_message
  kept_by_message P keeps m s h = elim (Option-cases m.value) [
    | inl n ↦ rw (n, read_message) h
    | inr (raw, v) ↦ elim (Option-cases (to_order_event new_from_string raw m.offset)) [
      | inl n ↦ rw (v, n, read_message) h
      | inr (ev, e) ↦ rw (v, e, read_message) (keeps s.0 s.1 ev m.now m.later h)
    ]
  ]

  kept_by_loop :
      (P : Engine D → Type 0)
      → ((e : Engine D) (w : W) (ev : OrderEvent D) (now later : ℕ)
          → P e
          → P (Engine.apply services e w ev now later).engine)
      → (ms : List Message) (s : Engine D × W) → P s.0
      → P (read_loop new_from_string services ms s).0
  unfolding read_loop
  kept_by_loop P keeps [] s h = h
  kept_by_loop P keeps (m ∷ ms) s h =
      kept_by_loop P keeps ms (read_message new_from_string services m s)
        (kept_by_message P keeps m s h)

  -- Whatever messages a partition holds, with values that are no JSON or no event among them, and
  -- whatever the services answer, the loop keeps the book's invariant, leaves no bid that reaches
  -- an ask, if that held before, and does not lower the last offset.
  pub read_loop-IsSafe :
      (ms : List Message) (e : Engine D) (w : W)
      → IsSafe e.book
      → let e' = (read_loop new_from_string services ms (e, w)).0 in
        IsSafe e'.book × (leb_ℤ e.last_offset e'.last_offset ≡ true)
  read_loop-IsSafe ms e w safe = (
    kept_by_loop (λ x. IsSafe x.book) (apply-IsSafe services) ms (e, w) safe,
    kept_by_loop (λ x. leb_ℤ e.last_offset x.last_offset ≡ true)
        (λ x v ev now later h.
          leb_ℤ-trans e.last_offset x.last_offset _ h (last_offset-apply services x v ev now later))
        ms (e, w) (leb_ℤ-refl e.last_offset),
  )

  read_message-stale :
      (m : Message) (s : Engine D × W)
      → leb_ℤ m.offset s.0.last_offset ≡ true
      → read_message new_from_string services m s ≡ s
  unfolding read_message
  read_message-stale m s old = elim (Option-cases m.value) [
    | inl n ↦ rw (n, read_message) refl
    | inr (raw, v) ↦ elim (Option-cases (to_order_event new_from_string raw m.offset)) [
      | inl n ↦ rw (v, n, read_message) refl
      | inr (ev, e) ↦
          let o = offset-to_order_event new_from_string raw m.offset ev e in
          rw (v, e, read_message)
            (ap (λ r. (r.engine, r.world))
              (apply-stale services s.0 s.1 ev m.now m.later
                (ap (λ t. leb_ℤ t s.0.last_offset) o ∙ old)))
    ]
  ]

  -- Messages whose offsets are not above the last one change neither the engine nor the services.
  pub read_loop-stale :
      (ms : List Message) (s : Engine D × W)
      → All (λ m. leb_ℤ m.offset s.0.last_offset ≡ true) ms
      → read_loop new_from_string services ms s ≡ s
  unfolding read_loop
  read_loop-stale [] s h = refl
  read_loop-stale (m ∷ ms) s h =
      ap (read_loop new_from_string services ms) (read_message-stale m s h.0)
      ∙ read_loop-stale ms s h.1
