-- ===== src/OrderApi/Idempotency.antt =====
-- orderapi/idempotency/idempotency.go: the first response for each Idempotency-Key. A body is any
-- type; `now` is the reading of the clock in a call.
use project_final_1team.Prelude.{
  ℕ, String, ◌≡◌, ap, ◌∙◌, false, none, some, Option, List, [], ◌∷◌, ◌==◌, eq_iff, if◌then◌else◌,
  is_some, Bool-cases, inl, inr,
}
use project_final_1team.Dict
use project_final_1team.Dict.{Dict, get-put, passes}
use project_final_1team.OrderApi.Sweep.{is_old, sweep, get-sweep}

pub record CachedResponse (B : Type 0) : Type 0 where
  pub status : ℕ
  pub body : B

pub record Cache (B : Type 0) : Type 0 where
  pub cache : Dict (CachedResponse B)
  pub inserted_at : Dict ℕ

-- The calls that change a store.
pub data Call (B : Type 0) : Type 0 where
  call_put : ℕ → String → ℕ → B → Call B
  call_sweep : ℕ → ℕ → Call B

module _ {B : Type 0} where
  unfoldable pub new_store : Cache B
  new_store = record { cache = Dict.empty; inserted_at = Dict.empty }

  unfoldable pub get : Cache B → String → Option (CachedResponse B)
  get s key = Dict.get key s.cache

  unfoldable pub put : ℕ → String → ℕ → B → Cache B → Cache B
  put now key status body s = if Dict.has key s.cache then s else record {
    cache = Dict.put key (record { status = status; body = body }) s.cache;
    inserted_at = Dict.put key now s.inserted_at;
  }

  -- The store and the number of removed entries.
  unfoldable pub sweep_cache : ℕ → ℕ → Cache B → Cache B × ℕ
  sweep_cache now max_age s =
      let swept = sweep now max_age s.cache s.inserted_at in
      (record { cache = swept.values; inserted_at = swept.inserted_at }, swept.removed)

  unfoldable pub run : Call B → Cache B → Cache B
  unfolding put sweep_cache
  run (call_put now key status body) s = put now key status body s
  run (call_sweep now max_age) s = (sweep_cache now max_age s).0

  pub run_all : List (Call B) → Cache B → Cache B
  unfolding run
  run_all [] s = s
  run_all (c ∷ cs) s = run_all cs (run c s)

  -- No Sweep of the calls has a cutoff after this time.
  abbrev pub Spares : ℕ → List (Call B) → Type 0
  Spares t [] = Unit
  Spares t (call_put now key status body ∷ cs) = Spares t cs
  Spares t (call_sweep now max_age ∷ cs) = (is_old now max_age t ≡ false) × Spares t cs

  pub record Holds (key : String) (t : ℕ) (r : CachedResponse B) (s : Cache B) : Type 0 where
    pub response : Dict.get key s.cache ≡ some r
    pub time : Dict.get key s.inserted_at ≡ some t

  put-Holds :
      (key key' : String) (t now status : ℕ) (r : CachedResponse B) (body : B) (s : Cache B)
      → Holds key t r s
      → Holds key t r (put now key' status body s)
  unfolding put
  put-Holds key key' t now status r body s h = elim (Bool-cases (Dict.has key' s.cache)) [
    | inl old ↦ rw old h
    | inr new ↦ rw new (record {
      response = rw (get-put, apart new) h.response;
      time = rw (get-put, apart new) h.time;
    })
  ]
    where
      apart : Dict.has key' s.cache ≡ false → (key' == key) ≡ false
      apart new = elim (Bool-cases (key' == key)) [
        | inr n ↦ n
        | inl e ↦ cc ((eq_iff key' key).0 e, new, ap is_some h.response)
      ]

  sweep-Holds :
      (key : String) (t now max_age : ℕ) (r : CachedResponse B) (s : Cache B)
      → is_old now max_age t ≡ false
      → Holds key t r s
      → Holds key t r (sweep_cache now max_age s).0
  unfolding sweep_cache
  sweep-Holds key t now max_age r s young h = record {
    response = (get-sweep key now max_age s.cache s.inserted_at).0 ∙ kept h.response;
    time = (get-sweep key now max_age s.cache s.inserted_at).1 ∙ kept h.time;
  }
    where
      kept :
          {A : Type 0} {x y : Option A}
          → x ≡ y
          → (if passes (is_old now max_age) (Dict.get key s.inserted_at) then none else x) ≡ y
      kept e = rw (h.time, young) e

  -- The response and the time that a key has stay the first ones through any calls of Put and
  -- Sweep, as long as no Sweep has a cutoff after that time.
  pub run_all-Holds :
      (key : String) (t : ℕ) (r : CachedResponse B) (cs : List (Call B)) (s : Cache B)
      → Spares t cs
      → Holds key t r s
      → Holds key t r (run_all cs s)
  unfolding run_all
  run_all-Holds key t r [] s spares h = h
  run_all-Holds key t r (call_put now key' status body ∷ cs) s spares h =
      run_all-Holds key t r cs _ spares (put-Holds key key' t now status r body s h)
  run_all-Holds key t r (call_sweep now max_age ∷ cs) s spares h =
      run_all-Holds key t r cs _ spares.1 (sweep-Holds key t now max_age r s spares.0 h)
