-- ===== src/Matching/Rebalance/Groups.antt =====
-- matching/rebalance/balancer.go: AssignGroups, for the one topic of the orders. The load tracker's answer is
-- given; `none` is an error. The order in which Go visits the assignment only orders a member's partitions.
use project_final_1team.Prelude.{
  ℕ, suc, ◌≡◌, refl, sym, ap, ◌∙◌, String, Bool, true, false, ◌&&◌, ◌||◌, Option, none, some, List,
  [], ◌∷◌, ◌++◌, map, ◌==◌, eq_iff, eq_refl, arith, leb, inl, inr, Bool-cases, Option-cases,
}
use project_final_1team.Dict
use project_final_1team.Dict.{Dict, passes, visits, visits-items, items, get-put}
use project_final_1team.Matching.Rebalance.{Weight, Load, assign}
use project_final_1team.Matching.Rebalance.Total.{any, is_among, assign-among}

-- partitionIndex, from a partition on.
unfoldable pub partition_index : ℕ → List String → Dict ℕ → Dict ℕ
partition_index n [] index = index
partition_index n (m ∷ ms) index = partition_index (suc n) ms (Dict.put m n index)

unfoldable pub no_partitions : List String → Dict (List ℕ) → Dict (List ℕ)
no_partitions [] result = result
no_partitions (m ∷ ms) result = no_partitions ms (Dict.put m [] result)

abbrev pub partitions_of : Option (List ℕ) → List ℕ
partitions_of none = []
partitions_of (some ps) = ps

-- A market that has no partition is skipped.
unfoldable pub add_partition : Option ℕ → String → Dict (List ℕ) → Dict (List ℕ)
add_partition none member result = result
add_partition (some i) member result =
    Dict.put member (partitions_of (Dict.get member result) ++ i ∷ []) result

unfoldable pub add_partitions : Dict ℕ → List (String × String) → Dict (List ℕ) → Dict (List ℕ)
add_partitions index [] result = result
add_partitions index ((market, member) ∷ rest) result =
    add_partitions index rest (add_partition (Dict.get market index) member result)

module _ {F : Type 0} (weight : Weight F) where
  unfoldable pub loads_of : List String → Option (List (Load F)) → List (Load F)
  loads_of markets none = map (λ m. record { market = m; value = weight.zero_value }) markets
  loads_of markets (some loads) = loads

  unfoldable pub assign_groups : List String → Option (List (Load F)) → List String → Dict (List ℕ)
  assign_groups markets loads members =
      add_partitions (partition_index 0 markets Dict.empty)
        (items (assign weight (loads_of markets loads) members)) (no_partitions members Dict.empty)

-- Is the partition among these?
abbrev pub has_partition : ℕ → List ℕ → Bool
has_partition i [] = false
has_partition i (p ∷ ps) = (leb i p && leb p i) || has_partition i ps

has_partition-append :
    (i j : ℕ) (ps : List ℕ)
    → has_partition i (ps ++ j ∷ []) ≡ (has_partition i ps || (leb i j && leb j i))
has_partition-append i j [] = ground arith
has_partition-append i j (p ∷ ps) = ground (arith, has_partition-append i j ps)

partitions_of-passes :
    (i : ℕ) (o : Option (List ℕ))
    → passes (has_partition i) o ≡ true
    → has_partition i (partitions_of o) ≡ true
partitions_of-passes i none h = ground arith
partitions_of-passes i (some ps) h = h

-- A member keeps the partitions that it has, and gets the one that is added.
add_partition-keeps :
    (i : ℕ) (o : Option ℕ) (member k : String) (result : Dict (List ℕ))
    → passes (has_partition i) (Dict.get k result) ≡ true
    → passes (has_partition i) (Dict.get k (add_partition o member result)) ≡ true
unfolding add_partition
add_partition-keeps i none member k result h = h
add_partition-keeps i (some j) member k result h = elim (Bool-cases (member == k)) [
  | inr n ↦ rw (get-put, n) h
  | inl e ↦
      rw (get-put, e)
        (rw ((eq_iff member k).0 e) (
          has_partition-append i j (partitions_of (Dict.get k result))
          ∙ rw (partitions_of-passes i (Dict.get k result) h) refl))
]

add_partition-adds :
    (i : ℕ) (member : String) (result : Dict (List ℕ))
    → passes (has_partition i) (Dict.get member (add_partition (some i) member result)) ≡ true
unfolding add_partition
add_partition-adds i member result =
    rw (get-put, eq_refl member)
      (has_partition-append i i (partitions_of (Dict.get member result)) ∙ ground arith)

add_partitions-keeps :
    (i : ℕ) (index : Dict ℕ) (xs : List (String × String)) (k : String) (result : Dict (List ℕ))
    → passes (has_partition i) (Dict.get k result) ≡ true
    → passes (has_partition i) (Dict.get k (add_partitions index xs result)) ≡ true
unfolding add_partitions
add_partitions-keeps i index [] k result h = h
add_partitions-keeps i index ((market, member) ∷ xs) k result h =
    add_partitions-keeps i index xs k _
      (add_partition-keeps i (Dict.get market index) member k result h)

add_partitions-adds :
    (i : ℕ) (index : Dict ℕ) (xs : List (String × String)) (market k : String)
    (result : Dict (List ℕ))
    → Dict.get market index ≡ some i
    → visits market (λ v. v == k) xs ≡ true
    → passes (has_partition i) (Dict.get k (add_partitions index xs result)) ≡ true
unfolding add_partitions
add_partitions-adds i index [] market k result at v = cc v
add_partitions-adds i index ((m, member) ∷ xs) market k result at v =
    elim (Bool-cases (m == market && member == k)) [
      | inr n ↦ add_partitions-adds i index xs market k _ at (ground (arith, n, v))
      | inl e ↦
          let same : m ≡ market = ground (arith, e, eq_iff m market) in
          let own : member ≡ k = ground (arith, e, eq_iff member k) in
          add_partitions-keeps i index xs k _ (rw (same, at, own) (add_partition-adds i k result))
    ]

module _ {F : Type 0} (weight : Weight F) where
  -- With at least one member, a market that has a partition and is among the loads, which are those
  -- of all markets when they cannot be measured, has its partition assigned to one of the members
  -- by AssignGroups.
  pub assign_groups-covers :
      (markets : List String) (loads : Option (List (Load F))) (member : String)
      (members : List String) (market : String) (i : ℕ)
      → any (λ l. l.market == market) (loads_of weight markets loads) ≡ true
      → Dict.get market (partition_index 0 markets Dict.empty) ≡ some i
      → (k : String) × (is_among (member ∷ members) k ≡ true)
        × (passes
              (has_partition i)
              (Dict.get k (assign_groups weight markets loads (member ∷ members)))
            ≡ true)
  unfolding assign_groups
  assign_groups-covers markets loads member members market i asked at =
      let placed =
        assign-among weight (loads_of weight markets loads) member members market asked in
      elim (Option-cases
        (Dict.get market (assign weight (loads_of weight markets loads) (member ∷ members)))) [
          | inl none_is ↦ cc (placed, ap (passes (is_among (member ∷ members))) none_is)
          | inr (k, is) ↦ (
            k,
            sym (ap (passes (is_among (member ∷ members))) is) ∙ placed,
            add_partitions-adds i _ _ market k _ at
                (visits-items market (λ v. v == k) _ ∙ rw is (eq_refl k)),
          )
        ]
