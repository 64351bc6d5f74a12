-- ===== src/Matching/Rebalance/Tests.antt =====
-- Concrete assignments with whole-numbered loads.
use project_final_1team.Prelude.{
  ℕ, ◌+◌, ◌≡◌, refl, true, String, none, some, List, [], ◌∷◌, ltb, leb, ◌&&◌,
}
use project_final_1team.Dict
use project_final_1team.Dict.{passes}
use project_final_1team.Matching.Rebalance.{Weight, Load, assign}
use project_final_1team.Matching.Rebalance.Total.{is_among}
use project_final_1team.Matching.Rebalance.Groups.{
  has_partition, assign_groups, loads_of, partition_index, assign_groups-covers,
}

abbrev whole_weight : Weight ℕ
whole_weight = record {
  zero_value = 0;
  add = λ a b. a + b;
  less_than = ltb;
  equal = λ a b. leb a b && leb b a;
}

-- No traffic yet: the markets are counted.
abbrev loads : List (Load ℕ)
loads = record { market = "KRW-ETH"; value = 0 } ∷ record { market = "KRW-BTC"; value = 0 } ∷ []

shares_markets : Dict.get "KRW-ETH" (assign whole_weight loads ("b" ∷ "a" ∷ [])) ≡ some "b"
unfolding assign Dict.get Dict.put Dict.empty
shares_markets = refl

abbrev markets : List String
markets = "KRW-BTC" ∷ "KRW-ETH" ∷ []

-- The measuring of the loads failed.
assign_groups-covers_example :
    (k : String) × (is_among ("b" ∷ "a" ∷ []) k ≡ true)
    × (passes
          (has_partition 1)
          (Dict.get k (assign_groups whole_weight markets none ("b" ∷ "a" ∷ [])))
        ≡ true)
assign_groups-covers_example =
    assign_groups-covers whole_weight markets none "b" ("a" ∷ []) "KRW-ETH" 1
      (unfold loads_of in refl) (unfold partition_index Dict.get Dict.put Dict.empty in refl)
