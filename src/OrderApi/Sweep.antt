-- ===== src/OrderApi/Sweep.antt =====
-- The loop of Sweep in orderapi/order/order.go and orderapi/idempotency/idempotency.go: the entries
-- of a map that were stored before the cutoff are deleted. Times are readings of the clock.
use project_final_1team.Prelude.{
  ℕ, suc, ◌+◌, String, ◌≡◌, refl, ◌∙◌, Bool, true, ◌||◌, ◌&&◌, none, List, [], ◌∷◌, ◌==◌, ltb,
  arith, if◌then◌else◌, Bool-cases, inl, inr,
}
use project_final_1team.Dict
use project_final_1team.Dict.{Dict, visits, passes, visits-items, get-delete}

-- The two maps and the number of removed entries.
pub record Swept (V : Type 0) : Type 0 where
  pub values : Dict V
  pub inserted_at : Dict ℕ
  pub removed : ℕ

-- t.Before(now - maxAge)
abbrev pub is_old : ℕ → ℕ → ℕ → Bool
is_old now max_age t = ltb (t + max_age) now

gone-delete :
    {A : Type 0} (k id : String) (gone : Bool) (m : Dict A)
    → (if gone then none else Dict.get k (Dict.delete id m))
      ≡ (if (id == k && true) || gone then none else Dict.get k m)
gone-delete k id gone m = ground (arith, get-delete id k m)

module _ {V : Type 0} where
  abbrev without : String → Swept V → Swept V
  without id s = record {
    values = Dict.delete id s.values;
    inserted_at = Dict.delete id s.inserted_at;
    removed = suc s.removed;
  }

  sweep_loop : ℕ → ℕ → List (String × ℕ) → Swept V → Swept V
  sweep_loop now max_age [] s = s
  sweep_loop now max_age ((id, t) ∷ rest) s =
      let s' = if is_old now max_age t then without id s else s in sweep_loop now max_age rest s'

  unfoldable pub sweep : ℕ → ℕ → Dict V → Dict ℕ → Swept V
  unfolding sweep_loop
  sweep now max_age values inserted_at =
      sweep_loop now max_age (Dict.items inserted_at)
        (record { values = values; inserted_at = inserted_at; removed = 0 })

  get-sweep_loop :
      (k : String) (now max_age : ℕ) (xs : List (String × ℕ)) (s : Swept V)
      → let gone = visits k (is_old now max_age) xs in
        let s' = sweep_loop now max_age xs s in
        (Dict.get k s'.values ≡ (if gone then none else Dict.get k s.values))
        × (Dict.get k s'.inserted_at ≡ (if gone then none else Dict.get k s.inserted_at))
  unfolding sweep_loop
  get-sweep_loop k now max_age [] s = (refl, refl)
  get-sweep_loop k now max_age ((id, t) ∷ rest) s = elim (Bool-cases (is_old now max_age t)) [
    | inl old ↦
        let ih = get-sweep_loop k now max_age rest (without id s) in
        rw (old, sweep_loop)
          (
            ih.0 ∙ gone-delete k id (visits k (is_old now max_age) rest) s.values,
            ih.1 ∙ gone-delete k id (visits k (is_old now max_age) rest) s.inserted_at,
          )
    | inr young ↦
        let ih = get-sweep_loop k now max_age rest s in
        rw (young, sweep_loop) (ih.0 ∙ ground arith, ih.1 ∙ ground arith)
  ]

  -- After Sweep a key is gone from both maps if the time stored for it is before the cutoff, and
  -- has its entries as before otherwise.
  pub get-sweep :
      (k : String) (now max_age : ℕ) (values : Dict V) (inserted_at : Dict ℕ)
      → let gone = passes (is_old now max_age) (Dict.get k inserted_at) in
        let s = sweep now max_age values inserted_at in
        (Dict.get k s.values ≡ (if gone then none else Dict.get k values))
        × (Dict.get k s.inserted_at ≡ (if gone then none else Dict.get k inserted_at))
  unfolding sweep
  get-sweep k now max_age values inserted_at =
      rw (← visits-items k (is_old now max_age) inserted_at) (
        get-sweep_loop k now max_age (Dict.items inserted_at)
          (record { values = values; inserted_at = inserted_at; removed = 0 }))
