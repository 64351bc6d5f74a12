-- ===== src/Matching/Consumer/Group/InARow.antt =====
-- matching/kafkaclient/consumer.go: when Run gives up, and what it has started when it does not.
use Prim.Native.String.{String}
use mathlib.Core.List.{map-append}
use project_final_1team.Prelude.{
  ℕ, zero, suc, ◌+◌, ◌≤◌, ◌<◌, ◌≡◌, false≢true, refl, sym, subst, ap, ◌∙◌, Bool, true, false, List,
  [], ◌∷◌, ◌++◌, append_assoc, append-nil, All, All-left, leb, arith, inl, inr, ◌⊎◌, Bool-cases,
}
use project_final_1team.Matching.Consumer.Group.Steps.{
  state, failures, tagged, IsAnswered, looked_up, start_all-going, run-going, run-gave_up,
  failure-last, failure-more, generation-going, take_next-answered,
}
use project_final_1team.Matching.Consumer.Group.{
  Next, generation, failure, Loop, going, context_done, gave_up, panicked, Consumer,
  max_consecutive_next_failures, run,
}

pub InARow : ℕ → List Next → Type 0
InARow n ns = (before : List Next) × (after : List Next) × (ns ≡ before ++ (failures n ++ after))

-- The partitions of the generations.
abbrev pub partitions_of : List Next → List ℕ
partitions_of [] = []
partitions_of (generation ps ∷ ns) = ps ++ partitions_of ns
partitions_of (failure e k ∷ ns) = partitions_of ns

failures-suc :
    (n : ℕ) (ns : List Next) → failures n ++ (failure false false ∷ ns) ≡ failures (suc n) ++ ns
failures-suc zero ns = refl
failures-suc (suc n) ns = ap (λ r. failure false false ∷ r) (failures-suc n ns)

InARow-later : (m : ℕ) (earlier ns : List Next) → InARow m ns → InARow m (earlier ++ ns)
unfolding InARow
InARow-later m earlier ns (before, after, is) =
    (earlier ++ before, after, ap (λ r. earlier ++ r) is ∙ sym (append_assoc earlier before _))

module _ (markets : List String) where
  -- What Run comes to after n failures in a row.
  Comes : ℕ → List Next → List (String × ℕ) → Consumer → Type 0
  Comes n ns s c =
      ((c.loop ≡ gave_up) × InARow max_consecutive_next_failures (failures n ++ ns))
      ⊎ ((c.loop ≡ going) × (tagged c.started ≡ tagged s ++ looked_up markets (partitions_of ns)))

  Comes-generation :
      (ps : List ℕ) (ns : List Next) (n : ℕ) (s s' : List (String × ℕ)) (c : Consumer)
      → tagged s' ≡ tagged s ++ looked_up markets ps
      → Comes 0 ns s' c
      → Comes n (generation ps ∷ ns) s c
  unfolding Comes
  Comes-generation ps ns n s s' c t (inl (end, row)) = inl (
    end,
    subst (InARow max_consecutive_next_failures) (append_assoc (failures n) (generation ps ∷ []) ns)
        (InARow-later _ (failures n ++ generation ps ∷ []) ns row),
  )
  Comes-generation ps ns n s s' c t (inr (on, all)) = inr (
    on,
    all
        ∙ ap (λ r. r ++ looked_up markets (partitions_of ns)) t
        ∙ append_assoc (tagged s) (looked_up markets ps) (looked_up markets (partitions_of ns))
        ∙ ap (λ r. tagged s ++ r) (sym (map-append _ ps (partitions_of ns))),
  )

  Comes-failure :
      (ns : List Next) (n : ℕ) (s : List (String × ℕ)) (c : Consumer)
      → Comes (suc n) ns s c
      → Comes n (failure false false ∷ ns) s c
  unfolding Comes
  Comes-failure ns n s c (inl (end, row)) =
      inl (end, subst (InARow max_consecutive_next_failures) (sym (failures-suc n ns)) row)
  Comes-failure ns n s c (inr h) = inr h

  given_up :
      (ns : List Next) (n w : ℕ) (s : List (String × ℕ))
      → n < max_consecutive_next_failures
      → leb max_consecutive_next_failures (suc n) ≡ true
      → Comes n (failure false false ∷ ns) s (run markets (failure false false ∷ ns) (state n w s))
  unfolding Comes InARow
  given_up ns n w s h last =
      let all : suc n ≡ max_consecutive_next_failures = ground arith in
      inl (
        run-gave_up markets _ ns _ (failure-last markets n w s last),
        ([], ns, failures-suc n ns ∙ ap (λ m. failures m ++ ns) all),
      )

  nothing_next : (n w : ℕ) (s : List (String × ℕ)) → Comes n [] s (state n w s)
  unfolding Comes
  nothing_next n w s = inr (refl, sym (append-nil _))

  run-Comes :
      (ns : List Next) (n w : ℕ) (s : List (String × ℕ))
      → n < max_consecutive_next_failures
      → All (IsAnswered markets) ns
      → Comes n ns s (run markets ns (state n w s))
  unfolding run
  run-Comes [] n w s h a = nothing_next n w s
  run-Comes (failure true cut ∷ ns) n w s h ((e, k), a) = absurd (false≢true (sym e))
  run-Comes (failure false true ∷ ns) n w s h ((e, k), a) = absurd (false≢true (sym k))
  run-Comes (failure false false ∷ ns) n w s h (_, a) =
      elim (Bool-cases (leb max_consecutive_next_failures (suc n)))
        as (λ _.
          Comes n (failure false false ∷ ns) s
            (run markets (failure false false ∷ ns) (state n w s))) [
              | inl last ↦ given_up ns n w s h last
              | inr more ↦
                  rw (run-going markets _ ns _ _ _ _ (failure-more markets n w s more))
                    (Comes-failure ns n s _ (run-Comes ns (suc n) _ s (ground arith) a))
            ]
  run-Comes (generation ps ∷ ns) n w s h (in_range, a) =
      let (s', same, t) = start_all-going markets ps w s in_range in
      rw
        (run-going markets (generation ps) ns (state n w s) 0 w s'
          (generation-going markets ps n w s s' same))
        (Comes-generation ps ns n s s' _ t (run-Comes ns 0 w s' (omega arith) a))

  enough_failures :
      (m n w : ℕ) (s : List (String × ℕ)) (after : List Next)
      → n < max_consecutive_next_failures
      → max_consecutive_next_failures ≤ n + m
      → (run markets (failures m ++ after) (state n w s)).loop ≡ gave_up
  enough_failures zero n w s after h le = absurd (omega arith)
  enough_failures (suc m) n w s after h le =
      elim (Bool-cases (leb max_consecutive_next_failures (suc n))) [
        | inl last ↦ run-gave_up markets _ _ _ (failure-last markets n w s last)
        | inr more ↦
            rw (run-going markets _ (failures m ++ after) _ _ _ _ (failure-more markets n w s more))
              (enough_failures m (suc n) _ s after (ground arith) (omega arith))
      ]

  run-in_a_row :
      (before after : List Next) (n w : ℕ) (s : List (String × ℕ))
      → n < max_consecutive_next_failures
      → All (IsAnswered markets) before
      → (run markets
          (before ++ (failures max_consecutive_next_failures ++ after))
          (state n w s)).loop
        ≡ gave_up
  run-in_a_row [] after n w s h a =
      enough_failures max_consecutive_next_failures n w s after h (omega arith)
  run-in_a_row (next ∷ before) after n w s h (answered, a) =
      elim (take_next-answered markets next n w s h answered) [
        | inl end ↦ run-gave_up markets next _ _ end
        | inr (n', w', s', h', on) ↦
            rw
              (run-going markets next (before ++ (failures max_consecutive_next_failures ++ after))
                _ n' w' s' on)
              (run-in_a_row before after n' w' s' h' a)
      ]

  is_going : Loop → Bool
  is_going going = true
  is_going context_done = false
  is_going gave_up = false
  is_going panicked = false

  InARow-ends :
      (ns : List Next)
      → All (IsAnswered markets) ns
      → InARow max_consecutive_next_failures ns
      → (run markets ns (state 0 0 [])).loop ≡ gave_up
  unfolding InARow
  InARow-ends ns a (before, after, is) =
      subst (λ r. (run markets r (state 0 0 [])).loop ≡ gave_up) (sym is)
        (run-in_a_row before after 0 0 [] (omega arith)
          (All-left (IsAnswered markets) before _ (subst (All (IsAnswered markets)) is a)))

  -- For any answers of Next, with the context never done and a market for each partition of a
  -- generation, Run of GroupConsumer returns its error exactly if there are
  -- maxConsecutiveNextFailures failures in a row among the answers; otherwise it goes on, and has
  -- started one consumer for each partition of each generation, in their order and with the
  -- partition's market.
  pub run-gives_up :
      (ns : List Next)
      → All (IsAnswered markets) ns
      → let c = run markets ns (state 0 0 []) in
        ((c.loop ≡ gave_up) × InARow max_consecutive_next_failures ns)
        ⊎ ((c.loop ≡ going)
            × ¬ InARow max_consecutive_next_failures ns
            × (tagged c.started ≡ looked_up markets (partitions_of ns)))
  unfolding Comes is_going
  run-gives_up ns a = elim (run-Comes ns 0 0 [] (omega arith) a) [
    | inl ended ↦ inl ended
    | inr (on, all) ↦
        inr (on, (λ row. false≢true (ap is_going (sym (InARow-ends ns a row) ∙ on))), all)
  ]
