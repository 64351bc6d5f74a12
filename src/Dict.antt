-- ===== src/Dict.antt =====
-- Go's `map[string]V`. The entries are private: clients have the laws of `dict_laws`. A read of a
-- missing key is `none`, the second result of `v, ok := m[k]`.
use project_final_1team.Prelude.{
  ℕ, String, ◌≡◌, refl, Bool, false, ◌&&◌, ◌||◌, Option, none, some, List, [], ◌∷◌, arith, ◌==◌,
  eq_iff, if◌then◌else◌, is_some, length,
}

pub record Dict {ℓ} (V : Type ℓ) : Type ℓ where
  entries : List (String × V)

module _ {ℓ} {V : Type ℓ} where
  find : String → List (String × V) → Option V
  find k [] = none
  find k ((j, v) ∷ m) = if j == k then some v else find k m

  store : String → V → List (String × V) → List (String × V)
  store k v [] = (k, v) ∷ []
  store k v ((j, w) ∷ m) = if j == k then (k, v) ∷ m else (j, w) ∷ store k v m

  discard : String → List (String × V) → List (String × V)
  discard k [] = []
  discard k ((j, w) ∷ m) = let rest = discard k m in if j == k then rest else (j, w) ∷ rest

  unfoldable pub empty : Dict V
  empty = record { entries = [] }

  unfoldable pub get : String → Dict V → Option V
  unfolding find
  get k m = find k m.entries

  abbrev pub has : String → Dict V → Bool
  has k m = is_some (get k m)

  unfoldable pub put : String → V → Dict V → Dict V
  unfolding store
  put k v m = record { entries = store k v m.entries }

  unfoldable pub delete : String → Dict V → Dict V
  unfolding discard
  delete k m = record { entries = discard k m.entries }

  -- len(m)
  unfoldable pub len : Dict V → ℕ
  len m = length m.entries

  distinct : List (String × V) → List (String × V)
  distinct [] = []
  distinct ((j, w) ∷ m) = (j, w) ∷ discard j (distinct m)

  -- What `for k, v := range m` visits: each key once, with its value.
  unfoldable pub items : Dict V → List (String × V)
  unfolding distinct discard
  items m = distinct m.entries

  -- Does some visited entry have this key and a value that passes?
  abbrev pub visits : String → (V → Bool) → List (String × V) → Bool
  visits k test [] = false
  visits k test ((j, v) ∷ m) = (j == k && test v) || visits k test m

  abbrev pub passes : (V → Bool) → Option V → Bool
  passes test none = false
  passes test (some v) = test v

  find-store :
      (k j : String) (v : V) (m : List (String × V))
      → find j (store k v m) ≡ (if k == j then some v else find j m)
  unfolding find store
  find-store k j v [] = refl
  find-store k j v ((i, w) ∷ m) =
      ground (arith, eq_iff k j, eq_iff i k, eq_iff i j, find-store k j v m)

  find-discard :
      (k j : String) (m : List (String × V))
      → find j (discard k m) ≡ (if k == j then none else find j m)
  unfolding find discard
  find-discard k j [] = ground arith
  find-discard k j ((i, w) ∷ m) =
      ground (arith, eq_iff k j, eq_iff i k, eq_iff i j, find-discard k j m)

  pub get-put :
      (k j : String) (v : V) (m : Dict V) → get j (put k v m) ≡ (if k == j then some v else get j m)
  unfolding get put
  get-put k j v m = find-store k j v m.entries

  pub get-delete :
      (k j : String) (m : Dict V) → get j (delete k m) ≡ (if k == j then none else get j m)
  unfolding get delete
  get-delete k j m = find-discard k j m.entries

module _ {ℓ} {V : Type ℓ} where
  visits-discard :
      (k j : String) (test : V → Bool) (m : List (String × V))
      → visits k test (discard j m) ≡ (if j == k then false else visits k test m)
  unfolding discard
  visits-discard k j test [] = ground arith
  visits-discard k j test ((i, w) ∷ m) =
      ground (arith, eq_iff i j, eq_iff j k, eq_iff i k, visits-discard k j test m)

  visits-distinct :
      (k : String) (test : V → Bool) (m : List (String × V))
      → visits k test (distinct m) ≡ passes test (find k m)
  unfolding distinct find
  visits-distinct k test [] = refl
  visits-distinct k test ((i, w) ∷ m) =
      ground (arith, visits-discard k i test (distinct m), visits-distinct k test m)

  -- The loop over a map meets exactly the entries that a read finds.
  pub visits-items :
      (k : String) (test : V → Bool) (m : Dict V) → visits k test (items m) ≡ passes test (get k m)
  unfolding items get
  visits-items k test m = visits-distinct k test m.entries

pub get-empty {ℓ} : {V : Type ℓ} (k : String) → get k (empty {V = V}) ≡ none
unfolding get empty find
get-empty k = refl

pub ruleset dict_laws = (get-empty, get-put, get-delete)
