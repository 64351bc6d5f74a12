-- ===== src/Decimal/Laws.antt =====
-- What follows from the documented laws of decimals.
use project_final_1team.Prelude.{
  ◌≡◌, refl, sym, ap, ◌∙◌, inl, inr, true, false, Bool-cases, ◌==◌, eq_iff,
}
use project_final_1team.Decimal.{Decimal, IsPositive}

module _ {D : Type 0} ⦃dec : Decimal D⦄ where
  open dec use {add, sub, less_than, zero_value}

  pub lt_asymm : (a b : D) → less_than a b ≡ true → less_than b a ≡ false
  lt_asymm a b h = elim (Bool-cases (less_than b a)) [
    | inl k ↦ cc (dec.lt_trans a b a h k, dec.lt_irrefl a)
    | inr k ↦ k
  ]

  -- a ≤ b < c and a < b ≤ c.
  pub le_lt_trans :
      (a b c : D) → less_than b a ≡ false → less_than b c ≡ true → less_than a c ≡ true
  le_lt_trans a b c h k = elim (Bool-cases (less_than a b)) [
    | inl p ↦ dec.lt_trans a b c p k
    | inr p ↦ let e : a ≡ b = dec.lt_connex a b p h in cc
  ]

  pub lt_le_trans :
      (a b c : D) → less_than a b ≡ true → less_than c b ≡ false → less_than a c ≡ true
  lt_le_trans a b c h k = elim (Bool-cases (less_than b c)) [
    | inl p ↦ dec.lt_trans a b c h p
    | inr p ↦ let e : b ≡ c = dec.lt_connex b c p k in cc
  ]

  pub add_sub_cancel : (a b : D) → add b (sub a b) ≡ a
  add_sub_cancel a b = dec.add_comm b (sub a b) ∙ dec.sub_add a b

  pub zero_add : (a : D) → add zero_value a ≡ a
  zero_add a = dec.add_comm zero_value a ∙ dec.add_zero a

  pub add_cancel : (a b c : D) → add a c ≡ add b c → a ≡ b
  add_cancel a b c e = elim (Bool-cases (less_than a b)) [
    | inl p ↦ cc (dec.lt_add a b c p, dec.lt_irrefl (add b c), e)
    | inr p ↦ elim (Bool-cases (less_than b a)) [
      | inl q ↦ cc (dec.lt_add b a c q, dec.lt_irrefl (add b c), e)
      | inr q ↦ dec.lt_connex a b p q
    ]
  ]

  pub sub_self : (a : D) → sub a a ≡ zero_value
  sub_self a = add_cancel _ _ a (dec.sub_add a a ∙ sym (zero_add a))

  -- a < b exactly when b - a is positive.
  pub sub_pos : (a b : D) → less_than a b ≡ true → less_than zero_value (sub b a) ≡ true
  sub_pos a b h = elim (Bool-cases (less_than zero_value (sub b a))) [
    | inl p ↦ p
    | inr p ↦ elim (Bool-cases (less_than (sub b a) zero_value)) [
      | inl q ↦
          cc (dec.lt_add (sub b a) zero_value a q, dec.sub_add b a, zero_add a, lt_asymm a b h)
      | inr q ↦
          let e : zero_value ≡ sub b a = dec.lt_connex zero_value (sub b a) p q in
          cc (dec.sub_add b a, zero_add a, dec.lt_irrefl a)
    ]
  ]

  pub sub_nonneg : (a b : D) → less_than a b ≡ false → less_than (sub a b) zero_value ≡ false
  sub_nonneg a b h = elim (Bool-cases (less_than (sub a b) zero_value)) [
    | inr p ↦ p
    | inl p ↦ cc (dec.lt_add (sub a b) zero_value b p, dec.sub_add a b, zero_add b, h)
  ]

  -- a + (b + c) = b + (a + c).
  pub add_left_comm : (a b c : D) → add a (add b c) ≡ add b (add a c)
  add_left_comm a b c =
      sym (dec.add_assoc a b c) ∙ ap (λ t. add t c) (dec.add_comm a b) ∙ dec.add_assoc b a c

  pub lt_ne : (a b : D) → less_than a b ≡ true → dec.equal b a ≡ false
  lt_ne a b h = elim (Bool-cases (dec.equal b a)) [
    | inl p ↦ cc ((dec.equal_iff b a).0 p, dec.lt_irrefl a)
    | inr p ↦ p
  ]

  pub equal_self : (a : D) → dec.equal a a ≡ true
  equal_self a = (dec.equal_iff a a).1 refl

  pub equal_comm : (a b : D) → dec.equal a b ≡ dec.equal b a
  equal_comm a b = elim (Bool-cases (dec.equal a b)) [
    | inl p ↦ p ∙ sym ((dec.equal_iff b a).1 (sym ((dec.equal_iff a b).0 p)))
    | inr p ↦ elim (Bool-cases (dec.equal b a)) [
      | inl q ↦ cc ((dec.equal_iff a b).1 (sym ((dec.equal_iff b a).0 q)))
      | inr q ↦ p ∙ sym q
    ]
  ]

  -- The key of a price in a map of levels tells prices apart.
  pub key_lem : (a b : D) → (dec.to_string a == dec.to_string b) ≡ dec.equal a b
  key_lem a b = elim (Bool-cases (dec.equal a b)) [
    | inl p ↦ (eq_iff _ _).1 (ap dec.to_string ((dec.equal_iff a b).0 p)) ∙ sym p
    | inr p ↦ elim (Bool-cases (dec.to_string a == dec.to_string b)) [
      | inl q ↦ cc ((dec.equal_iff a b).1 (dec.to_string_inj a b ((eq_iff _ _).0 q)))
      | inr q ↦ q ∙ sym p
    ]
  ]

  -- (a - b) - c = a - (b + c).
  pub sub_sub : (a b c : D) → sub (sub a b) c ≡ sub a (add b c)
  sub_sub a b c = add_cancel _ _ (add b c) (
      ap (add (sub (sub a b) c)) (dec.add_comm b c)
      ∙ sym (dec.add_assoc (sub (sub a b) c) c b)
      ∙ ap (λ t. add t b) (dec.sub_add (sub a b) c)
      ∙ dec.sub_add a b
      ∙ sym (dec.sub_add a (add b c)))

  -- Taking a positive quantity away leaves less.
  pub sub_lt : (a b : D) → IsPositive b → less_than (sub a b) a ≡ true
  sub_lt a b p = cc (dec.lt_add zero_value b (sub a b) p, zero_add (sub a b), add_sub_cancel a b)

  pub sub_zero : (a : D) → sub a zero_value ≡ a
  sub_zero a = sym (dec.add_zero (sub a zero_value)) ∙ dec.sub_add a zero_value
