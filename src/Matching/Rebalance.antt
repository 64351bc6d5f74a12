-- ===== src/Matching/Rebalance.antt =====
-- matching/rebalance/assign.go: the greedy assignment of markets to members. Its float64 operations are
-- the record Weight. sort.Slice and sort.Strings are an insertion sort: equal elements, whose order
-- sort.Slice leaves open, are equal in both fields here.
pub mod Total
pub mod Groups
mod Tests
use Prim.Native.String.{String, compare}
use Prim.Native.Nat.{lt, eq, gt}
use project_final_1team.Prelude.{
  ℕ, suc, Bool, true, false, not, ◌&&◌, ◌||◌, none, some, Option, List, [], ◌∷◌, ◌==◌, ltb,
  if◌then◌else◌,
}
use project_final_1team.Dict
use project_final_1team.Dict.{Dict}

pub record Weight (F : Type 0) : Type 0 where
  pub zero_value : F
  pub add : F → F → F
  pub less_than : F → F → Bool
  pub equal : F → F → Bool

pub record Load (F : Type 0) : Type 0 where
  pub market : String
  pub value : F

-- Go's `a < b` on strings.
abbrev pub less_text : String → String → Bool
less_text a b = elim (compare a b) [ lt ↦ true | eq ↦ false | gt ↦ false ]

module _ {A : Type 0} where
  pub insert_by : (A → A → Bool) → A → List A → List A
  insert_by less x [] = x ∷ []
  insert_by less x (y ∷ ys) = if less y x then y ∷ insert_by less x ys else x ∷ y ∷ ys

  pub sort_by : (A → A → Bool) → List A → List A
  unfolding insert_by
  sort_by less [] = []
  sort_by less (x ∷ xs) = insert_by less x (sort_by less xs)

-- assignment, totals and counts; a missing key reads as zero.
pub record Placed (F : Type 0) : Type 0 where
  pub assignment : Dict String
  pub totals : Dict F
  pub counts : Dict ℕ

module _ {F : Type 0} (weight : Weight F) where
  unfoldable pub heavier : Load F → Load F → Bool
  heavier a b =
      if not (weight.equal a.value b.value)
      then weight.less_than b.value a.value
      else less_text a.market b.market

  abbrev pub total_of : Placed F → String → F
  total_of s m = elim (Dict.get m s.totals) [ none ↦ weight.zero_value | some v ↦ v ]

  abbrev pub count_of : Placed F → String → ℕ
  count_of s m = elim (Dict.get m s.counts) [ none ↦ 0 | some n ↦ n ]

  unfoldable pub lighter : Placed F → String → String → Bool
  lighter s m least =
      weight.less_than (total_of s m) (total_of s least)
      || (weight.equal (total_of s m) (total_of s least) && ltb (count_of s m) (count_of s least))

  -- The loop over memberOrder[1:].
  pub least_of : Placed F → String → List String → String
  unfolding lighter
  least_of s least [] = least
  least_of s least (m ∷ ms) = least_of s (if lighter s m least then m else least) ms

  unfoldable pub place : String → List String → Load F → Placed F → Placed F
  unfolding least_of
  place first members l s =
      let least = least_of s first members in
      record {
        assignment = Dict.put l.market least s.assignment;
        totals = Dict.put least (weight.add (total_of s least) l.value) s.totals;
        counts = Dict.put least (suc (count_of s least)) s.counts;
      }

  pub place_all : String → List String → List (Load F) → Placed F → Placed F
  unfolding place
  place_all first members [] s = s
  place_all first members (l ∷ ls) s = place_all first members ls (place first members l s)

  abbrev pub assign_to : List String → List (Load F) → Dict String
  assign_to [] loads = Dict.empty
  assign_to (first ∷ members) loads =
      (place_all first members loads
        (record { assignment = Dict.empty; totals = Dict.empty; counts = Dict.empty })).assignment

  unfoldable pub assign : List (Load F) → List String → Dict String
  unfolding place_all heavier sort_by
  assign loads members = assign_to (sort_by less_text members) (sort_by heavier loads)
