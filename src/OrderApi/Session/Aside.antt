-- ===== src/OrderApi/Session/Aside.antt =====
-- orderapi/session/session.go: the commands of an operation that keep the lock which a session holds, and
-- those of a claim that do not touch it.
use project_final_1team.Prelude.{ℕ, ◌≤◌, String, ◌≡◌, refl, Option, none, some, arith}
use project_final_1team.OrderApi.Session.{Outside}
use project_final_1team.OrderApi.Session.Redis.{
  Redis, M, command, reading, whole_ttl, set_meta, set_last_run, set_prev_run, set_prev_run2,
}
use project_final_1team.OrderApi.Session.Keep.{Keeps, Keeps-return, Keeps-bind, Keeps-command}
use project_final_1team.OrderApi.Session.Holding.{IsHeld-lasts, same-IsHeld}
use project_final_1team.OrderApi.Session.Holding.{IsHeld}
use project_final_1team.OrderApi.Session.Claim.{begin_run, move_body, set_encoded, begin_gauges}

module _ {F : Type 0} (out : Outside F) (run_id member : String) (t : ℕ) where
  abbrev pub Held : ℕ → Redis → Type 0
  Held now r = IsHeld run_id member t (whole_ttl out) now r

  abbrev pub KeepsLock : {A : Type 0} → M A → Type 0
  KeepsLock m = Keeps Held t m

  pub command-KeepsLock :
      {A : Type 0} (c : ℕ → Redis → A × Redis)
      → ((now : ℕ) (r : Redis) → now ≤ t → Held now r → Held now (c now r).1)
      → KeepsLock (command out c)
  command-KeepsLock c keeps = Keeps-command out IsHeld-lasts c keeps

  -- A command that leaves the lock and the sets as they are.
  pub aside-KeepsLock :
      {A : Type 0} (c : ℕ → Redis → A × Redis)
      → ((now : ℕ) (r : Redis) → (c now r).1.active ≡ r.active)
      → ((now : ℕ) (r : Redis) → (c now r).1.members ≡ r.members)
      → KeepsLock (command out c)
  aside-KeepsLock c active members =
      command-KeepsLock c (λ now r _ h. same-IsHeld now r _ (active now r) (members now r) h)

  pub reading-KeepsLock : {A : Type 0} (f : ℕ → Redis → A) → KeepsLock (command out (reading f))
  reading-KeepsLock f = aside-KeepsLock (reading f) (λ _ _. refl) (λ _ _. refl)

  pub set_encoded-KeepsLock :
      (body : Option String) (set : String → ℕ → Redis → Unit {0} × Redis)
      → ((b : String) → KeepsLock (command out (set b)))
      → KeepsLock (set_encoded out body set)
  unfolding set_encoded
  set_encoded-KeepsLock none set keeps = Keeps-return none
  set_encoded-KeepsLock (some body) set keeps = keeps body

  pub move_body-KeepsLock :
      (body : Option (Option String)) (set : String → ℕ → Redis → Unit {0} × Redis)
      → ((b : String) → KeepsLock (command out (set b)))
      → KeepsLock (move_body out body set)
  unfolding move_body
  move_body-KeepsLock none set keeps = Keeps-return none
  move_body-KeepsLock (some none) set keeps = Keeps-return none
  move_body-KeepsLock (some (some body)) set keeps = keeps body

  pub set_last_run-KeepsLock : (b : String) → KeepsLock (command out (set_last_run b))
  unfolding set_last_run
  set_last_run-KeepsLock b = aside-KeepsLock (set_last_run b) (λ _ _. refl) (λ _ _. refl)

  pub set_prev_run-KeepsLock : (b : String) → KeepsLock (command out (set_prev_run b))
  unfolding set_prev_run
  set_prev_run-KeepsLock b = aside-KeepsLock (set_prev_run b) (λ _ _. refl) (λ _ _. refl)

  pub set_prev_run2-KeepsLock : (b : String) → KeepsLock (command out (set_prev_run2 b))
  unfolding set_prev_run2
  set_prev_run2-KeepsLock b = aside-KeepsLock (set_prev_run2 b) (λ _ _. refl) (λ _ _. refl)

  pub set_meta-KeepsLock : (b : String) → KeepsLock (command out (set_meta b))
  unfolding set_meta
  set_meta-KeepsLock b = aside-KeepsLock (set_meta b) (λ _ _. refl) (λ _ _. refl)

  pub begin_gauges-KeepsLock : (owner : String) (now : ℕ) → KeepsLock (begin_gauges owner now)
  unfolding begin_gauges
  begin_gauges-KeepsLock owner now = record { later = λ s. omega arith; keeps = λ s _ h. h }

  pub begin_run-KeepsLock :
      (owner other date : String) (speed : F) (now : ℕ)
      → KeepsLock (begin_run out owner other date speed now)
  unfolding begin_run
  begin_run-KeepsLock owner other date speed now = Keeps-bind (reading-KeepsLock _) (λ prev.
      Keeps-bind (move_body-KeepsLock prev set_prev_run2 set_prev_run2-KeepsLock) (λ _.
        Keeps-bind (reading-KeepsLock _) (λ last.
          Keeps-bind (move_body-KeepsLock last set_prev_run set_prev_run-KeepsLock) (λ _.
            Keeps-bind (set_encoded-KeepsLock _ set_last_run set_last_run-KeepsLock)
              (λ _. begin_gauges-KeepsLock owner now)))))
