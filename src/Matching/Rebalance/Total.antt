-- ===== src/Matching/Rebalance/Total.antt =====
-- Every market is assigned to a member.
use Prim.Native.String.{String}
use project_final_1team.Prelude.{
  ◌≡◌, refl, ap, ◌∙◌, Bool, true, false, ◌||◌, not, List, [], ◌∷◌, ◌==◌, eq_refl, arith,
  if◌then◌else◌,
}
use project_final_1team.Dict
use project_final_1team.Dict.{Dict, passes, get-put}
use project_final_1team.Matching.Rebalance.{
  Weight, Load, Placed, less_text, insert_by, sort_by, heavier, lighter, least_of, place, place_all,
  assign_to, assign,
}

module _ {A : Type 0} where
  abbrev pub any : (A → Bool) → List A → Bool
  any test [] = false
  any test (x ∷ xs) = test x || any test xs

  any-insert_by :
      (test : A → Bool) (less : A → A → Bool) (x : A) (ys : List A)
      → any test (insert_by less x ys) ≡ (test x || any test ys)
  unfolding insert_by
  any-insert_by test less x [] = refl
  any-insert_by test less x (y ∷ ys) = ground (arith, any-insert_by test less x ys)

  any-sort_by :
      (test : A → Bool) (less : A → A → Bool) (xs : List A)
      → any test (sort_by less xs) ≡ any test xs
  unfolding sort_by
  any-sort_by test less [] = refl
  any-sort_by test less (x ∷ xs) =
      any-insert_by test less x (sort_by less xs) ∙ ap (λ b. test x || b) (any-sort_by test less xs)

abbrev pub is_among : List String → String → Bool
is_among ms m = any (λ x. x == m) ms

module _ {F : Type 0} (weight : Weight F) where
  least_of-among :
      (s : Placed F) (ms : List String) (test : String → Bool) (least : String)
      → test least ≡ true
      → (any (λ m. not (test m)) ms ≡ false)
      → test (least_of weight s least ms) ≡ true
  unfolding least_of
  least_of-among s [] test least h k = h
  least_of-among s (m ∷ ms) test least h k =
      least_of-among s ms test (if lighter weight s m least then m else least) (ground arith)
        (ground arith)

  get-place_all :
      (test : String → Bool) (first : String) (ms : List String) (ls : List (Load F)) (s : Placed F)
      (k : String)
      → test first ≡ true
      → any (λ m. not (test m)) ms ≡ false
      → (any (λ l. l.market == k) ls || passes test (Dict.get k s.assignment)) ≡ true
      → passes test (Dict.get k (place_all weight first ms ls s).assignment) ≡ true
  unfolding place_all place
  get-place_all test first ms [] s k f m h = h
  get-place_all test first ms (l ∷ ls) s k f m h =
      get-place_all test first ms ls (place weight first ms l s) k f m (
        ground (
          arith,
          get-put l.market k (least_of weight s first ms) s.assignment,
          least_of-among s ms test first f m,
        ))

  assign_to-among :
      (test : String → Bool) (order : List String) (ls : List (Load F)) (k : String)
      → any (λ _. true) order ≡ true
      → any (λ m. not (test m)) order ≡ false
      → any (λ l. l.market == k) ls ≡ true
      → passes test (Dict.get k (assign_to weight order ls)) ≡ true
  assign_to-among test (first ∷ ms) ls k filled among asked =
      get-place_all test first ms ls _ k (ground arith) (ground arith) (rw asked refl)
  assign_to-among test [] ls k filled among asked = cc

all_among :
    (members ms : List String)
    → ((test : String → Bool) → any test ms ≡ true → any test members ≡ true)
    → any (λ m. not (is_among members m)) ms ≡ false
all_among members [] part = refl
all_among members (m ∷ ms) part =
    let own : is_among members m ≡ true = part (λ x. x == m) (rw (eq_refl m) refl) in
    rw own (all_among members ms (λ test h. part test (ground arith)))

module _ {F : Type 0} (weight : Weight F) where
  -- With at least one member, every market of the loads is assigned, to one of the members.
  pub assign-among :
      (loads : List (Load F)) (member : String) (members : List String) (market : String)
      → any (λ l. l.market == market) loads ≡ true
      → passes
          (is_among (member ∷ members))
          (Dict.get market (assign weight loads (member ∷ members)))
        ≡ true
  unfolding assign
  assign-among loads member members market asked =
      assign_to-among weight (is_among all) (sort_by less_text all) (sort_by (heavier weight) loads)
        market (any-sort_by (λ _. true) less_text all)
        (any-sort_by (λ m. not (is_among all m)) less_text all ∙ all_among all all (λ _ h. h))
        (any-sort_by (λ l. l.market == market) (heavier weight) loads ∙ asked)
    where
      all : List String
      all = member ∷ members
