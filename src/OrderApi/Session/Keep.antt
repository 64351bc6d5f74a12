-- ===== src/OrderApi/Session/Keep.antt =====
-- orderapi/session/session.go: what the operations keep, from what their commands keep. A predicate may
-- name the clock, and holds on as time passes; an operation keeps it if it ends by a given time.
use project_final_1team.Prelude.{
  ℕ, ◌≤◌, Option, none, some, Bool, true, false, arith, inl, inr, Bool-cases, if◌then◌else◌,
}
use project_final_1team.OrderApi.Session.{Outside, SessionError, Result, ok, err}
use project_final_1team.OrderApi.Session.Redis.{
  ReleaseAnswer, unknown, left, left_last, Redis, Server, M, ◌>>=◌, return, clock, set_gauge,
  command, new_id,
}

pub record Keeps (P : ℕ → Redis → Type 0) (t : ℕ) {A : Type 0} (m : M A) : Type 0 where
  pub later : (s : Server) → s.now ≤ (m s).1.now
  pub keeps : (s : Server) → (m s).1.now ≤ t → P s.now s.redis → P (m s).1.now (m s).1.redis

module _ {P : ℕ → Redis → Type 0} {t : ℕ} where
  pub Keeps-return : {A : Type 0} (a : A) → Keeps P t (return a)
  Keeps-return a = record { later = λ s. omega arith; keeps = λ s _ h. h }

  pub Keeps-bind :
      {A B : Type 0} {m : M A} {f : A → M B}
      → Keeps P t m
      → ((a : A) → Keeps P t (f a))
      → Keeps P t (m >>= f)
  unfolding ◌>>=◌
  Keeps-bind {m} {f} km kf = record {
    later = λ s. (let first = km.later s in let second = (kf (m s).0).later (m s).1 in omega arith);
    keeps = λ s ends h.
        (let second = (kf (m s).0).later (m s).1 in
          (kf (m s).0).keeps (m s).1 ends (km.keeps s (omega arith) h));
  }

  pub Keeps-if :
      {A : Type 0} (b : Bool) {m k : M A}
      → Keeps P t m
      → Keeps P t k
      → Keeps P t (if b then m else k)
  Keeps-if true km kk = km
  Keeps-if false km kk = kk

  pub Keeps-Option :
      {A B : Type 0} (o : Option A) {m : M B} {f : A → M B}
      → Keeps P t m
      → ((a : A) → Keeps P t (f a))
      → Keeps P t (elim o [ none ↦ m | some a ↦ f a ])
  Keeps-Option none km kf = km
  Keeps-Option (some a) km kf = kf a

  pub Keeps-Result :
      {A B : Type 0} (r : Result A) {m : SessionError → M B} {f : A → M B}
      → ((e : SessionError) → Keeps P t (m e))
      → ((a : A) → Keeps P t (f a))
      → Keeps P t (elim r [ err e ↦ m e | ok a ↦ f a ])
  Keeps-Result (err e) km kf = km e
  Keeps-Result (ok a) km kf = kf a

  pub Keeps-Bool :
      {A : Type 0} (b : Bool) {m k : M A}
      → Keeps P t m
      → Keeps P t k
      → Keeps P t (elim b [ false ↦ m | true ↦ k ])
  Keeps-Bool false km kk = km
  Keeps-Bool true km kk = kk

  pub Keeps-ReleaseAnswer :
      {A : Type 0} (a : ReleaseAnswer) {m k l : M A}
      → Keeps P t m
      → Keeps P t k
      → Keeps P t l
      → Keeps P t (elim a [ unknown ↦ m | left ↦ k | left_last ↦ l ])
  Keeps-ReleaseAnswer unknown km kk kl = km
  Keeps-ReleaseAnswer left km kk kl = kk
  Keeps-ReleaseAnswer left_last km kk kl = kl

  pub Keeps-clock : Keeps P t clock
  unfolding clock
  Keeps-clock = record { later = λ s. omega arith; keeps = λ s _ h. h }

  pub Keeps-set_gauge : (n : ℕ) → Keeps P t (set_gauge n)
  unfolding set_gauge
  Keeps-set_gauge n = record { later = λ s. omega arith; keeps = λ s _ h. h }

  pub Keeps-new_id : {F : Type 0} (out : Outside F) → Keeps P t (new_id out)
  unfolding new_id
  Keeps-new_id out = record { later = λ s. omega arith; keeps = λ s _ h. h }

  pub Keeps-command :
      {F : Type 0} (out : Outside F)
      → ((now later : ℕ) (r : Redis) → now ≤ later → P now r → P later r)
      → {A : Type 0} (c : ℕ → Redis → A × Redis)
      → ((now : ℕ) (r : Redis) → now ≤ t → P now r → P now (c now r).1)
      → Keeps P t (command out c)
  unfolding command
  Keeps-command out lasts c keeps = record {
    later = λ s. elim (Bool-cases (out.is_down s.calls)) [
      | inl down ↦ rw down (omega arith)
      | inr up ↦ rw up (omega arith)
    ];
    keeps = λ s. elim (Bool-cases (out.is_down s.calls)) [
      | inl down ↦ rw down (λ _ h. lasts _ _ _ (omega arith) h)
      | inr up ↦ rw up (λ ends h. keeps _ _ ends (lasts _ _ _ (omega arith) h))
    ];
  }
