-- ===== src/OrderApi/Orders/Fills.antt =====
-- The fills of one order: their effect depends on their sum alone.
use project_final_1team.Prelude.{
  ◌≡◌, refl, sym, ap, ap₂, subst, ◌∙◌, true, false, some, String, List, [], ◌∷◌, inl, inr,
  Bool-cases, All, eq_refl,
}
use project_final_1team.Dict
use project_final_1team.Dict.{Dict, get-put}
use project_final_1team.Decimal.{Decimal, IsPositive}
use project_final_1team.Decimal.Laws.{sub_sub, sub_lt, zero_add, lt_asymm, lt_le_trans}
use project_final_1team.OrderApi.Orders.{
  Order, Orders, Status, accepted, partially_filled, filled, canceled, DecimalText, remaining_of,
  filled_by, apply_fill, get,
}

-- The order after a fill that completes it.
abbrev pub completed : Order → Order
completed o = record o {
  remaining_quantity = "0";
  status = filled;
  canceled_at = "";
  canceled_quantity = "";
}

-- The status after a fill that leaves some quantity.
abbrev raised : Status → Status
raised accepted = partially_filled
raised partially_filled = partially_filled
raised filled = filled
raised canceled = canceled

raised_twice : (s : Status) → raised (raised s) ≡ raised s
raised_twice accepted = refl
raised_twice partially_filled = refl
raised_twice filled = refl
raised_twice canceled = refl

module _ {D : Type 0} ⦃dec : Decimal D⦄ where
  open dec use {add, sub, less_than, zero_value}

  pub sum : D → List D → D
  sum q [] = q
  sum q (r ∷ rs) = add q (sum r rs)

  sum-IsPositive : (q : D) (qs : List D) → IsPositive q → All IsPositive qs → IsPositive (sum q qs)
  unfolding sum
  sum-IsPositive q [] p ps = p
  sum-IsPositive q (r ∷ rs) p ps =
      let rest = sum-IsPositive r rs ps.0 ps.1 in
      dec.lt_trans zero_value (sum r rs) (add q (sum r rs)) rest (
        subst (λ t. less_than t (add q (sum r rs)) ≡ true) (zero_add (sum r rs))
          (dec.lt_add zero_value q (sum r rs) p))

module _ {D : Type 0} ⦃dec : Decimal D⦄ (text : DecimalText D) where
  open dec use {add, sub, less_than, zero_value}

  left : Order → D → D
  left o q = sub (remaining_of text o) q

  abbrev reduced : Order → D → Order
  reduced o d = record o { remaining_quantity = dec.to_string d; status = raised o.status }

  filled_by_complete :
      (o : Order) (q : D)
      → less_than zero_value (left o q) ≡ false
      → filled_by text o q ≡ completed o
  unfolding filled_by left
  filled_by_complete o q h = rw h

  -- A fill of all that remains, or more.
  abbrev pub Completes : Order → D → Type 0
  Completes o q = less_than zero_value (sub (remaining_of text o) q) ≡ false

  pub filled_by-completed : (o : Order) (q : D) → Completes o q → filled_by text o q ≡ completed o
  unfolding left
  filled_by-completed o q h = filled_by_complete o q h

  filled_by-partial :
      (o : Order) (q : D)
      → less_than zero_value (left o q) ≡ true
      → filled_by text o q ≡ reduced o (left o q)
  unfolding filled_by left
  filled_by-partial o q h = rw h

  remaining-completed : (o : Order) → remaining_of text (completed o) ≡ zero_value
  unfolding remaining_of
  remaining-completed o = rw (text.reads_zero, remaining_of)

  remaining-reduced : (o : Order) (d : D) → remaining_of text (reduced o d) ≡ d
  unfolding remaining_of
  remaining-reduced o d = rw (text.reads_back d, remaining_of)

  left-add : (o : Order) (q r : D) → sub (left o q) r ≡ left o (add q r)
  unfolding left
  left-add o q r = sub_sub (remaining_of text o) q r

  left-reduced : (o : Order) (q r : D) → left (reduced o (left o q)) r ≡ left o (add q r)
  unfolding left
  left-reduced o q r = ap (λ t. sub t r) (remaining-reduced o (left o q)) ∙ left-add o q r

  still_completed :
      (o : Order) (r : D) → IsPositive r → less_than zero_value (left (completed o) r) ≡ false
  unfolding left
  still_completed o r pos =
      rw (remaining-completed o, left)
        (lt_asymm (sub zero_value r) zero_value (sub_lt zero_value r pos))

  not_more :
      (o : Order) (q r : D)
      → IsPositive r
      → less_than zero_value (left o q) ≡ false
      → less_than zero_value (left o (add q r)) ≡ false
  not_more o q r pos h = lt_asymm (left o (add q r)) zero_value (
      lt_le_trans (left o (add q r)) (left o q) zero_value
        (subst (λ t. less_than t (left o q) ≡ true) (left-add o q r) (sub_lt (left o q) r pos)) h)

  -- Two fills, of which the second is positive, do what one fill of their sum does.
  pub filled_by-filled_by :
      (o : Order) (q r : D)
      → IsPositive r
      → filled_by text (filled_by text o q) r ≡ filled_by text o (dec.add q r)
  filled_by-filled_by o q r pos = elim (Bool-cases (less_than zero_value (left o q))) [
    | inr done ↦
        ap (λ x. filled_by text x r) (filled_by_complete o q done)
        ∙ filled_by_complete (completed o) r (still_completed o r pos)
        ∙ sym (filled_by_complete o (add q r) (not_more o q r pos done))
    | inl more ↦
        ap (λ x. filled_by text x r) (filled_by-partial o q more)
        ∙ elim (Bool-cases (less_than zero_value (left o (add q r)))) [
          | inr done ↦
              filled_by_complete (reduced o (left o q)) r
                (ap (less_than zero_value) (left-reduced o q r) ∙ done)
              ∙ sym (filled_by_complete o (add q r) done)
          | inl yet ↦
              filled_by-partial (reduced o (left o q)) r
                (ap (less_than zero_value) (left-reduced o q r) ∙ yet)
              ∙ ap₂ (λ d s. record o { remaining_quantity = dec.to_string d; status = s })
                  (left-reduced o q r) (raised_twice o.status)
              ∙ sym (filled_by-partial o (add q r) yet)
        ]
  ]

  -- ApplyFill for each quantity of a list, as its text.
  pub fill_all : String → List D → Orders → Orders
  fill_all id [] s = s
  fill_all id (q ∷ qs) s = fill_all id qs (apply_fill text id (dec.to_string q) s).0

  pub get-apply_fill :
      (id : String) (q : D) (o : Order) (s : Orders)
      → get s id ≡ some o
      → get (apply_fill text id (dec.to_string q) s).0 id ≡ some (filled_by text o q)
  unfolding apply_fill get
  get-apply_fill id q o s h =
      let found : Dict.get id s.orders ≡ some o = h in
      rw (found, apply_fill, text.reads_back q, get-put, eq_refl id) refl

  -- The fills of an order that the store has, all but the first of them positive, leave it as one
  -- fill of their sum does.
  pub get-fill_all :
      (id : String) (q : D) (qs : List D) (o : Order) (s : Orders)
      → All IsPositive qs
      → get s id ≡ some o
      → get (fill_all id (q ∷ qs) s) id ≡ some (filled_by text o (sum q qs))
  unfolding fill_all sum
  get-fill_all id q [] o s pos h = get-apply_fill id q o s h
  get-fill_all id q (r ∷ rs) o s pos h =
      get-fill_all id r rs (filled_by text o q) _ pos.1 (get-apply_fill id q o s h)
      ∙ ap some (filled_by-filled_by o q (sum r rs) (sum-IsPositive r rs pos.0 pos.1))
