-- ===== src/Matching/OrderBook/Match/Pass.antt =====
-- One pass of the outer loop: the level of the best price, and what two passes in a row do.
use project_final_1team.Prelude.{
  ◌≡◌, refl, sym, ap, ◌∙◌, true, false, some, String, List, [], ◌∷◌, ◌++◌, ℕ, zero, suc, append-nil,
  append_assoc, arith, All,
}
use project_final_1team.Dict
use project_final_1team.Dict.{Dict}
use project_final_1team.Decimal.{Decimal}
use project_final_1team.Matching.OrderBook.{
  Side, Order, Execution, Element, PriceLevel, Half, remove_price, remove_level_if_empty,
}
use project_final_1team.Matching.OrderBook.Match.{
  MatchState, crosses, wants_more, match_best, match_loop,
}
use project_final_1team.Matching.OrderBook.Spec.{Filled, fill_orders, unfilled}
use project_final_1team.Matching.OrderBook.Prices.{remove_price_self}
use project_final_1team.Matching.OrderBook.Ladder.{
  IsAt, HasLevel, IsGoodHalf, Split, split-head, get-put_at,
}
use project_final_1team.Matching.OrderBook.Levels.{resting}
use project_final_1team.Matching.OrderBook.Resting.{with_orders, resting-with_orders}
use project_final_1team.Matching.OrderBook.Match.Fill.{delete_all, delete_all-append, fill_level-eq}
use project_final_1team.Matching.OrderBook.Match.Append.{fill_orders-IsAt}

module _ {D : Type 0} ⦃dec : Decimal D⦄ where
  -- From `s`, the filling `f` leads to `r`.
  pub record Fills (side : Side) (f : Filled D) (s r : MatchState D) : Type 0 where
    pub incoming : r.incoming ≡ f.incoming
    pub orders : resting r.half ≡ f.resting
    pub elements : r.elements ≡ delete_all f.used_up s.elements
    pub executions : r.executions ≡ s.executions ++ f.executions
    pub good : IsGoodHalf side r.half

  pub Fills-refl :
      (side : Side) (s : MatchState D)
      → IsGoodHalf side s.half
      → Fills side (unfilled s.incoming (resting s.half)) s s
  unfolding delete_all
  Fills-refl side s g = record {
    incoming = refl;
    orders = refl;
    elements = refl;
    executions = sym (append-nil s.executions);
    good = g;
  }

  pub match_loop-done :
      (market : String) (n : ℕ) (s : MatchState D)
      → wants_more s.incoming ≡ false
      → match_loop market n s ≡ s
  unfolding match_loop
  match_loop-done market zero s w = refl
  match_loop-done market (suc n) s w = rw (w, match_loop)

  pub match_loop-nil :
      (market : String) (n : ℕ) (s : MatchState D) → s.half.prices ≡ [] → match_loop market n s ≡ s
  unfolding match_loop
  match_loop-nil market zero s e = refl
  match_loop-nil market (suc n) s e = ground arith

  pub match_loop-stop :
      (market : String) (n : ℕ) (s : MatchState D) (p : D) (ps : List D)
      → s.half.prices ≡ p ∷ ps
      → crosses s.incoming p ≡ false
      → match_loop market n s ≡ s
  unfolding match_loop
  match_loop-stop market zero s p ps e c = refl
  match_loop-stop market (suc n) s p ps e c = ground arith

  pub match_loop-step :
      (market : String) (n : ℕ) (s : MatchState D) (p : D) (ps : List D)
      → s.half.prices ≡ p ∷ ps
      → crosses s.incoming p ≡ true
      → wants_more s.incoming ≡ true
      → match_loop market (suc n) s ≡ match_loop market n (match_best market p s)
  unfolding match_loop
  match_loop-step market n s p ps e c w = ground arith

  prices-with_orders :
      (p : D) (l : PriceLevel D) (half : Half D)
      → (with_orders p l [] half).prices ≡ remove_price p half.prices
  unfolding remove_level_if_empty
  prices-with_orders p l half =
      rw (get-put_at p (record l { orders = [] }) half.levels, remove_level_if_empty)

  module _ (market : String) (side : Side) (p : D) (s : MatchState D) (l : PriceLevel D)
      (found : Dict.get (dec.to_string p) s.half.levels ≡ some l) where
    abbrev first_fill : Filled D
    first_fill = fill_orders market s.incoming l.orders

    match_best-eq :
        crosses s.incoming p ≡ true
        → All (IsAt side p) l.orders
        → match_best market p s ≡ record {
          incoming = first_fill.incoming;
          half = with_orders p l first_fill.resting s.half;
          elements = delete_all first_fill.used_up s.elements;
          executions = s.executions ++ first_fill.executions;
        }
    unfolding match_best
    match_best-eq c at =
        rw (found, match_best)
          (ap
            (λ t. record {
              incoming = t.incoming;
              half = with_orders p l t.orders s.half;
              elements = t.elements;
              executions = t.executions;
            })
            (fill_level-eq market side p s.incoming l.orders s.elements s.executions c at))

  abbrev pub state :
      Order D → Dict (PriceLevel D) → List D → Dict (Element D) → List (Execution D) → MatchState D
  state inc levels prices elements executions = record {
    incoming = inc;
    half = record { levels = levels; prices = prices };
    elements = elements;
    executions = executions;
  }

  pub record Pass (market : String) (side : Side) (p : D) (ps : List D) (f : Filled D)
      (s s' : MatchState D) : Type 0 where
    pub back : List (Order D)
    pub orders : List (Order D)
    pub was : resting s.half ≡ orders ++ back
    pub filling : f ≡ fill_orders market s.incoming orders
    pub valid : All (IsAt side p) orders
    pub fills : Fills side (record f { resting = f.resting ++ back }) s s'
    pub shorter : f.resting ≡ [] → s'.half.prices ≡ ps

  -- One pass of the outer loop fills from the orders of the best level.
  pub match_best-Pass :
      (market : String) (side : Side) (inc : Order D) (levels : Dict (PriceLevel D)) (p : D)
      (ps : List D) (elements : Dict (Element D)) (executions : List (Execution D))
      → IsGoodHalf side (record { levels = levels; prices = p ∷ ps })
      → crosses inc p ≡ true
      → (f : Filled D) × Pass market side p ps f
          (state inc levels (p ∷ ps) elements executions)
          (match_best market p (state inc levels (p ∷ ps) elements executions))
  unfolding split-head
  match_best-Pass market side inc levels p ps elements executions g c = (
    f,
    record {
      back = s.back;
      orders = h.level.orders;
      was = s.was;
      filling = refl;
      valid = h.valid;
      fills = rw (match_best-eq market side p before h.level h.found c h.valid) (record {
        incoming = refl;
        orders = done.1;
        elements = refl;
        executions = refl;
        good = done.0;
      });
      shorter = λ e. rw (match_best-eq market side p before h.level h.found c h.valid) (
          ap (λ os. (with_orders p h.level os before.half).prices) e
          ∙ prices-with_orders p h.level before.half
          ∙ remove_price_self p ps);
    },
  )
    where
      before : MatchState D
      before = state inc levels (p ∷ ps) elements executions

      h : HasLevel side levels p
      h = g.ladder.1

      f : Filled D
      f = fill_orders market inc h.level.orders

      s : Split side levels (p ∷ ps) p h.level
      s = split-head side levels ps p h.level g.ladder.0 g.ladder.2 h.found

      done :
          IsGoodHalf side (with_orders p h.level f.resting before.half)
          × (resting (with_orders p h.level f.resting before.half) ≡ f.resting ++ s.back)
      done =
          resting-with_orders side before.half p h.level f.resting g h.found
            (fill_orders-IsAt market side p inc h.level.orders h.valid) s

  -- A pass that uses its level up, and what the other passes do.
  pub Fills-then :
      (market : String) (side : Side) (f g : Filled D) (s s' r : MatchState D)
      → Fills side f s s'
      → Fills side g s' r
      → Fills side
          (record g { executions = f.executions ++ g.executions; used_up = f.used_up ++ g.used_up })
          s
          r
  Fills-then market side f g s s' r a b = record {
    incoming = b.incoming;
    orders = b.orders;
    elements =
        b.elements
        ∙ ap (delete_all g.used_up) a.elements
        ∙ sym (delete_all-append f.used_up g.used_up s.elements);
    executions =
        b.executions
        ∙ ap (λ es. es ++ g.executions) a.executions
        ∙ append_assoc s.executions f.executions g.executions;
    good = b.good;
  }
