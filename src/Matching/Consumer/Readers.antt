-- ===== src/Matching/Consumer/Readers.antt =====
-- matching/kafkaclient/consumer.go: the readers that consumePartition registers while it has a partition, and
-- Lag over them. A reader is what its Lag answers; the sum is below the bound of int64 in practice. The
-- lock makes each registration, each removal and each Lag a step.
use project_final_1team.Prelude.{
  ℕ, ◌+◌, ◌≡◌, refl, ap, ◌∙◌, false, List, [], ◌∷◌, eqb, if◌then◌else◌, All, arith,
}
use project_final_1team.Prelude.Int.{ℤ, pos, negsuc}

-- A consumer registers its reader or removes it.
pub data Change (R : Type 0) : Type 0 where
  enter : ℕ → R → Change R
  leave : ℕ → Change R

module _ {R : Type 0} where
  -- delete(c.readers, partition)
  unfoldable pub removed : ℕ → List (ℕ × R) → List (ℕ × R)
  removed p [] = []
  removed p ((q, r) ∷ m) = let rest = removed p m in if eqb q p then rest else (q, r) ∷ rest

  -- c.readers[partition] = reader
  abbrev pub registered : ℕ → R → List (ℕ × R) → List (ℕ × R)
  registered p r m = (p, r) ∷ removed p m

  unfoldable pub lag : (R → ℤ) → List (ℕ × R) → ℕ
  lag lag_of [] = 0
  lag lag_of ((p, r) ∷ m) =
      let total = lag lag_of m in elim (lag_of r) [ pos n ↦ n + total | negsuc n ↦ total ]

  abbrev pub IsOfOther : ℕ → Change R → Type 0
  IsOfOther p (enter q r) = eqb q p ≡ false
  IsOfOther p (leave q) = eqb q p ≡ false

  unfoldable pub change_all : List (Change R) → List (ℕ × R) → List (ℕ × R)
  change_all [] m = m
  change_all (enter p r ∷ cs) m = change_all cs (registered p r m)
  change_all (leave p ∷ cs) m = change_all cs (removed p m)

  removed-removed : (p q : ℕ) (m : List (ℕ × R)) → removed p (removed q m) ≡ removed q (removed p m)
  unfolding removed
  removed-removed p q [] = refl
  removed-removed p q ((k, r) ∷ m) = ground (arith, removed-removed p q m)

  removed-registered :
      (p q : ℕ) (r : R) (m : List (ℕ × R))
      → eqb q p ≡ false
      → removed p (registered q r m) ≡ registered q r (removed p m)
  unfolding removed
  removed-registered p q r m other =
      rw (other, removed) (ap (λ rest. (q, r) ∷ rest) (removed-removed p q m))

  removed-twice : (p : ℕ) (m : List (ℕ × R)) → removed p (removed p m) ≡ removed p m
  unfolding removed
  removed-twice p [] = refl
  removed-twice p ((k, r) ∷ m) = ground (arith, removed-twice p m)

  removed-change_all :
      (cs : List (Change R)) (p : ℕ) (m : List (ℕ × R))
      → All (IsOfOther p) cs
      → removed p (change_all cs m) ≡ change_all cs (removed p m)
  unfolding change_all
  removed-change_all [] p m h = refl
  removed-change_all (enter q r ∷ cs) p m (other, h) =
      removed-change_all cs p (registered q r m) h
      ∙ ap (change_all cs) (removed-registered p q r m other)
  removed-change_all (leave q ∷ cs) p m (other, h) =
      removed-change_all cs p (removed q m) h ∙ ap (change_all cs) (removed-removed p q m)

  removed-own : (p : ℕ) (r : R) (m : List (ℕ × R)) → removed p (registered p r m) ≡ removed p m
  unfolding removed
  removed-own p r m = ground (arith, removed-twice p m)

  -- Whatever other partitions are entered and left in between, Lag does not count a partition that is
  -- entered and left again.
  pub lag-left :
      (lag_of : R → ℤ) (cs : List (Change R)) (p : ℕ) (r : R) (m : List (ℕ × R))
      → All (IsOfOther p) cs
      → lag lag_of (removed p (change_all (enter p r ∷ cs) m))
        ≡ lag lag_of (change_all cs (removed p m))
  unfolding change_all
  lag-left lag_of cs p r m h =
      ap (lag lag_of)
        (removed-change_all cs p (registered p r m) h ∙ ap (change_all cs) (removed-own p r m))
