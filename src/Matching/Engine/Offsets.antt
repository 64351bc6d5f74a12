-- ===== src/Matching/Engine/Offsets.antt =====
-- Which events the engine handles: each offset at most once, and what a failed publication leaves.
use project_final_1team.Prelude.{
  ℕ, ◌≡◌, ◌≢◌, refl, inl, inr, ◌⊎◌, true, false, none, some, arith, Bool-cases, List, [], ◌∷◌, sym,
  ◌∙◌, false≢true,
}
use project_final_1team.Prelude.Int.{leb_ℤ, leb_ℤ-refl, leb_ℤ-trans, leb_ℤ-total}
use project_final_1team.Decimal.{Decimal}
use project_final_1team.Matching.OrderBook
use project_final_1team.Matching.OrderBook.{Execution}
use project_final_1team.Matching.Engine.{
  Engine, OrderEvent, OrderEventType, event_new, event_cancel, event_other, Services, Outcome,
  publish_failed, apply, apply_new, dispatch, finish, snapshot, publish_all, event_order,
}
use project_final_1team.Matching.OrderBook.Match

module _ {D W : Type 0} ⦃dec : Decimal D⦄ (services : Services D W) where
  -- Does the publisher take each of the executions, one after the other?
  abbrev pub TakesAll : W → List (Execution D) → Type 0
  TakesAll w [] = Unit
  TakesAll w (x ∷ xs) = ((services.publish w x).1 ≡ true) × TakesAll (services.publish w x).0 xs

  -- The executions of an event.
  abbrev pub executions_of : OrderEventType → Engine D → OrderEvent D → List (Execution D)
  executions_of event_new e ev = (Match.apply e.book (event_order ev)).1
  executions_of event_cancel e ev = []
  executions_of (event_other t) e ev = []

  -- The publisher takes all executions and the offset is recorded, or it does not take one of them, the
  -- offset is not recorded and the error says so.
  abbrev pub RecordedAs : OrderEventType → Engine D → W → OrderEvent D → Outcome D W → Type 0
  RecordedAs t e w ev r =
      (TakesAll w (executions_of t e ev)
        × (r.engine.last_offset ≡ ev.offset)
        × (r.error ≢ some publish_failed))
      ⊎ (¬ TakesAll w (executions_of t e ev)
          × (r.engine.last_offset ≡ e.last_offset)
          × (r.error ≡ some publish_failed))

  abbrev pub Recorded : Engine D → W → OrderEvent D → Outcome D W → Type 0
  Recorded e w ev r = RecordedAs ev.type e w ev r

  publish_all-TakesAll :
      (xs : List (Execution D)) (w : W)
      → (((publish_all services w xs).1 ≡ true) × TakesAll w xs)
        ⊎ (((publish_all services w xs).1 ≡ false) × ¬ TakesAll w xs)
  unfolding publish_all
  publish_all-TakesAll [] w = inl (refl, tt)
  publish_all-TakesAll (x ∷ xs) w = elim (Bool-cases (services.publish w x).1) [
    | inl sent ↦ elim (publish_all-TakesAll xs (services.publish w x).0) [
      | inl (all, takes) ↦ inl (rw sent all, (sent, takes))
      | inr (failed, n) ↦ inr (rw sent failed, λ h. n h.1)
    ]
    | inr lost ↦ inr (rw lost refl, λ h. false≢true (sym lost ∙ h.0))
  ]

  finish-records :
      (e : Engine D) (w : W) (ev : OrderEvent D) (now later : ℕ)
      → let r = finish services e w ev now later in
        (r.engine.last_offset ≡ ev.offset) × (r.error ≢ some publish_failed)
  unfolding finish snapshot
  finish-records e w ev now later = ground arith

  apply_new-Recorded :
      (e : Engine D) (w : W) (ev : OrderEvent D) (now later : ℕ)
      → RecordedAs event_new e w ev (apply_new services e w ev now later)
  unfolding apply_new
  apply_new-Recorded e w ev now later =
      let (book, executions) = Match.apply e.book (event_order ev) in
      let (w', sent) = publish_all services w executions in
      elim (publish_all-TakesAll executions w) [
        | inl (s, takes) ↦
            let (o, ok) = finish-records (record e { book = book }) w' ev now later in
            rw s (inl (takes, o, ok))
        | inr (s, n) ↦ rw s (inr (n, refl, refl))
      ]

  dispatch-Recorded :
      (t : OrderEventType) (e : Engine D) (w : W) (ev : OrderEvent D) (now later : ℕ)
      → RecordedAs t e w ev (dispatch services t e w ev now later)
  unfolding dispatch
  dispatch-Recorded event_new e w ev now later = apply_new-Recorded e w ev now later
  dispatch-Recorded event_cancel e w ev now later =
      let canceled = record e { book = OrderBook.cancel e.book ev.order_id } in
      let (o, ok) = finish-records canceled w ev now later in inl (tt, o, ok)
  dispatch-Recorded (event_other t) e w ev now later =
      let (o, ok) = finish-records e w ev now later in inl (tt, o, ok)

  -- An event whose offset is not above the last one changes nothing and calls no service.
  pub apply-stale :
      (e : Engine D) (w : W) (ev : OrderEvent D) (now later : ℕ)
      → leb_ℤ ev.offset e.last_offset ≡ true
      → apply services e w ev now later ≡ record { engine = e; world = w; error = none }
  unfolding apply
  apply-stale e w ev now later h = rw h

  apply-fresh :
      (e : Engine D) (w : W) (ev : OrderEvent D) (now later : ℕ)
      → leb_ℤ ev.offset e.last_offset ≡ false
      → apply services e w ev now later ≡ dispatch services ev.type e w ev now later
  unfolding apply
  apply-fresh e w ev now later h = rw h

  -- For an event whose offset is above the last one: either the publisher takes each of the event's
  -- executions, one after the other, and then the offset becomes the last offset and the error is
  -- not the one of a failed publication, also when a snapshot fails; or it does not take one of
  -- them, and then the last offset stays what it was and the error is that one.
  pub apply-Recorded :
      (e : Engine D) (w : W) (ev : OrderEvent D) (now later : ℕ)
      → leb_ℤ ev.offset e.last_offset ≡ false
      → Recorded e w ev (apply services e w ev now later)
  apply-Recorded e w ev now later h =
      rw (apply-fresh e w ev now later h) (dispatch-Recorded ev.type e w ev now later)

  -- The last offset never falls.
  pub last_offset-apply :
      (e : Engine D) (w : W) (ev : OrderEvent D) (now later : ℕ)
      → leb_ℤ e.last_offset (apply services e w ev now later).engine.last_offset ≡ true
  last_offset-apply e w ev now later = elim (Bool-cases (leb_ℤ ev.offset e.last_offset)) [
    | inl h ↦ rw (apply-stale e w ev now later h) (leb_ℤ-refl e.last_offset)
    | inr h ↦ elim (apply-Recorded e w ev now later h) [
      | inl (_, o, _) ↦ rw o (leb_ℤ-total ev.offset e.last_offset h)
      | inr (_, o, _) ↦ rw o (leb_ℤ-refl e.last_offset)
    ]
  ]

  -- An event that was handled without a failed publication is delivered again, to whatever state of
  -- the services: the engine and the services stay as they are, without an error.
  pub apply-redelivered :
      (e : Engine D) (w w' : W) (ev : OrderEvent D) (now later now' later' : ℕ)
      → let r = apply services e w ev now later in
        r.error ≢ some publish_failed
        → apply services r.engine w' ev now' later'
          ≡ record { engine = r.engine; world = w'; error = none }
  apply-redelivered e w w' ev now later now' later' ok =
      apply-stale _ w' ev now' later' (elim (Bool-cases (leb_ℤ ev.offset e.last_offset)) [
        | inl h ↦ rw (apply-stale e w ev now later h) h
        | inr h ↦ elim (apply-Recorded e w ev now later h) [
          | inl (_, o, _) ↦ rw o (leb_ℤ-refl ev.offset)
          | inr (_, _, failed) ↦ elim (ok failed) [ ]
        ]
      ])

  -- An event after one whose publication failed, at an offset that is not below it and without a
  -- failed publication of its own, moves the last offset so far that the failed event, delivered
  -- again, changes nothing and publishes nothing.
  pub apply-skips_failed :
      (e : Engine D) (w w' : W) (lost next : OrderEvent D) (now later now' later' : ℕ)
      → let r = apply services e w lost now later in
        let r' = apply services r.engine r.world next now later in
        r.error ≡ some publish_failed
        → r'.error ≢ some publish_failed
        → leb_ℤ lost.offset next.offset ≡ true
        → apply services r'.engine w' lost now' later'
          ≡ record { engine = r'.engine; world = w'; error = none }
  apply-skips_failed e w w' lost next now later now' later' failed ok le =
      let r = apply services e w lost now later in
      let r' = apply services r.engine r.world next now later in
      apply-stale _ w' lost now' later'
        (elim (Bool-cases (leb_ℤ next.offset r.engine.last_offset)) [
          | inl h ↦ leb_ℤ-trans lost.offset next.offset _ le (
              leb_ℤ-trans next.offset r.engine.last_offset _ h
                (last_offset-apply r.engine r.world next now later))
          | inr h ↦ elim (apply-Recorded r.engine r.world next now later h) [
            | inl (_, o, _) ↦ rw o le
            | inr (_, _, failed') ↦ elim (ok failed') [ ]
          ]
        ])
