-- ===== src/OrderApi/Cleanup/Single.antt =====
-- orderapi/sessioncleanup.go: the manual cleanups that run at the same time, as steps of the handler, of the
-- goroutines that it starts, and of the world around them.
use project_final_1team.Prelude.{
  ℕ, suc, String, ◌≡◌, refl, sym, subst, ◌∙◌, Bool, true, false, Option, none, some, arith, ◌==◌,
  if◌then◌else◌, inl, inr, Bool-cases,
}
use project_final_1team.OrderApi.Cleanup.{Outside}
use project_final_1team.OrderApi.Cleanup.All.{
  Slot, Response, in_progress, started, start_in_slot, start_unless_lagging, start_cleanup,
  fail_cleanup, set_total, set_canceled, complete,
}

-- The slot, and the number of the cleanups that run.
pub record System (W : Type 0) : Type 0 where
  pub slot : Slot W
  pub running : ℕ

module _ {W : Type 0} (out : Outside W) where
  pub data Step : System W → System W → Type 0 where
    start :
        {s t : Slot W} {n : ℕ} {r : Response} (recorder_url force now : String)
        → start_cleanup out recorder_url force now s ≡ (r, true, t)
        → Step (record { slot = s; running = n }) (record { slot = t; running = suc n })
    refuse :
        {s t : Slot W} {n : ℕ} {r : Response} (recorder_url force now : String)
        → start_cleanup out recorder_url force now s ≡ (r, false, t)
        → Step (record { slot = s; running = n }) (record { slot = t; running = n })
    found :
        {s : Slot W} {n : ℕ} (total : ℕ)
        → Step
            (record { slot = s; running = suc n })
            (record { slot = set_total out total s; running = suc n })
    progress :
        {s : Slot W} {n : ℕ} (canceled : ℕ)
        → Step
            (record { slot = s; running = suc n })
            (record { slot = set_canceled out canceled s; running = suc n })
    finish :
        {s : Slot W} {n : ℕ} (now : String) (canceled : ℕ)
        → Step
            (record { slot = s; running = suc n })
            (record { slot = complete out now canceled s; running = n })
    fail :
        {s : Slot W} {n : ℕ} (now message : String)
        → Step
            (record { slot = s; running = suc n })
            (record { slot = fail_cleanup out now message s; running = n })
    world :
        {s : Slot W} {n : ℕ} (w : W)
        → Step
            (record { slot = s; running = n })
            (record { slot = record s { world = w }; running = n })

  pub data Reaches (a : System W) : System W → Type 0 where
    here : Reaches a a
    next : {s t : System W} → Reaches a s → Step s t → Reaches a t

-- One cleanup runs if the slot says so, and none otherwise.
abbrev pub IsSingle : {W : Type 0} → System W → Type 0
IsSingle s = s.running ≡ (if s.slot.latest.status == in_progress then 1 else 0)

module _ {W : Type 0} (out : Outside W) where
  -- A cleanup starts only if none is in progress, and then it is.
  start_in_slot-started :
      (now : String) (s t : Slot W) (r : Response)
      → start_in_slot out now s ≡ (r, true, t)
      → ((s.latest.status == in_progress) ≡ false) × (t.latest.status ≡ in_progress)
  unfolding start_in_slot started
  start_in_slot-started now s t r h = ground arith

  start_in_slot-refused :
      (now : String) (s t : Slot W) (r : Response)
      → start_in_slot out now s ≡ (r, false, t)
      → t.latest ≡ s.latest
  unfolding start_in_slot
  start_in_slot-refused now s t r h = ground arith

  start_unless_lagging-started :
      (lag : Option Bool) (now : String) (s t : Slot W) (r : Response)
      → start_unless_lagging out lag now s ≡ (r, true, t)
      → ((s.latest.status == in_progress) ≡ false) × (t.latest.status ≡ in_progress)
  unfolding start_unless_lagging
  start_unless_lagging-started none now s t r h = start_in_slot-started now s t r h
  start_unless_lagging-started (some false) now s t r h = start_in_slot-started now s t r h
  start_unless_lagging-started (some true) now s t r h = ground arith

  start_unless_lagging-refused :
      (lag : Option Bool) (now : String) (s t : Slot W) (r : Response)
      → start_unless_lagging out lag now s ≡ (r, false, t)
      → t.latest ≡ s.latest
  unfolding start_unless_lagging
  start_unless_lagging-refused none now s t r h = start_in_slot-refused now s t r h
  start_unless_lagging-refused (some false) now s t r h = start_in_slot-refused now s t r h
  start_unless_lagging-refused (some true) now s t r h = ground arith

  start_cleanup-started :
      (recorder_url force now : String) (s t : Slot W) (r : Response)
      → start_cleanup out recorder_url force now s ≡ (r, true, t)
      → ((s.latest.status == in_progress) ≡ false) × (t.latest.status ≡ in_progress)
  unfolding start_cleanup
  start_cleanup-started recorder_url force now s t r = elim (Bool-cases (recorder_url == "")) [
    | inl e ↦ rw e (λ h. ground arith)
    | inr n ↦ rw n (elim (Bool-cases (force == "true")) [
      | inl f ↦ rw f (start_in_slot-started now s t r)
      | inr g ↦ rw g (
          start_unless_lagging-started (out.lag_active s.world).0 now
            (record s { world = (out.lag_active s.world).1 }) t r)
    ])
  ]

  start_cleanup-refused :
      (recorder_url force now : String) (s t : Slot W) (r : Response)
      → start_cleanup out recorder_url force now s ≡ (r, false, t)
      → t.latest ≡ s.latest
  unfolding start_cleanup
  start_cleanup-refused recorder_url force now s t r = elim (Bool-cases (recorder_url == "")) [
    | inl e ↦ rw e (λ h. ground arith)
    | inr n ↦ rw n (elim (Bool-cases (force == "true")) [
      | inl f ↦ rw f (start_in_slot-refused now s t r)
      | inr g ↦ rw g (
          start_unless_lagging-refused (out.lag_active s.world).0 now
            (record s { world = (out.lag_active s.world).1 }) t r)
    ])
  ]

  at_most_one : (n : ℕ) (b : Bool) → suc n ≡ (if b then 1 else 0) → n ≡ 0
  at_most_one n true h = omega arith
  at_most_one n false h = omega arith

  Step-IsSingle : {a b : System W} → Step out a b → IsSingle a → IsSingle b
  unfolding set_total set_canceled complete fail_cleanup
  Step-IsSingle (start {s} {t} {n} {r} recorder_url force now e) h =
      let begun = start_cleanup-started recorder_url force now s t r e in
      let none_runs : n ≡ 0 = h ∙ rw (begun.0) refl in rw (begun.1) (omega arith)
  Step-IsSingle (refuse {s} {t} {n} {r} recorder_url force now e) h =
      let same = start_cleanup-refused recorder_url force now s t r e in
      subst (λ l. n ≡ (if l.status == in_progress then 1 else 0)) (sym same) h
  Step-IsSingle (found total) h = h
  Step-IsSingle (progress canceled) h = h
  Step-IsSingle (finish {s} {n} now canceled) h = at_most_one n (s.latest.status == in_progress) h
  Step-IsSingle (fail {s} {n} now message) h = at_most_one n (s.latest.status == in_progress) h
  Step-IsSingle (world w) h = h

  -- If at first one manual cleanup runs when the slot says IN_PROGRESS and none otherwise, then
  -- this holds after any interleaving of requests that start or refuse a cleanup, of the changes
  -- that the running cleanups make to the slot and of their ends.
  pub Reaches-IsSingle : {a b : System W} → IsSingle a → Reaches out a b → IsSingle b
  Reaches-IsSingle h here = h
  Reaches-IsSingle h (next r step) = Step-IsSingle step (Reaches-IsSingle h r)
