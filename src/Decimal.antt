-- ===== src/Decimal.antt =====
-- The numbers of github.com/shopspring/decimal, which the repository takes from outside: an
-- interface that every use takes as an instance. Values are read up to numerical equality, which
-- all methods used respect (String drops trailing zeros). The laws are the documented ones: Cmp is
-- a total order, Add and Sub are exact, String and Equal tell values apart, Truncate is idempotent.
pub mod Laws
pub mod Whole
use project_final_1team.Prelude.{ℕ, String, ◌≡◌, ◌↔◌, Bool, true, false, not, if◌then◌else◌}

pub record Decimal (D : Type 0) : Type 0 where
  pub zero_value : D
  pub add : D → D → D
  pub sub : D → D → D
  pub less_than : D → D → Bool
  pub equal : D → D → Bool
  pub truncate : ℕ → D → D
  pub to_string : D → String
  pub lt_irrefl : (a : D) → less_than a a ≡ false
  pub lt_trans : (a b c : D) → less_than a b ≡ true → less_than b c ≡ true → less_than a c ≡ true
  pub lt_connex : (a b : D) → less_than a b ≡ false → less_than b a ≡ false → a ≡ b
  pub equal_iff : (a b : D) → (equal a b ≡ true) ↔ (a ≡ b)
  pub to_string_inj : (a b : D) → to_string a ≡ to_string b → a ≡ b
  pub truncate_idem : (n : ℕ) (a : D) → truncate n (truncate n a) ≡ truncate n a
  pub add_assoc : (a b c : D) → add (add a b) c ≡ add a (add b c)
  pub add_comm : (a b : D) → add a b ≡ add b a
  pub add_zero : (a : D) → add a zero_value ≡ a
  pub sub_add : (a b : D) → add (sub a b) b ≡ a
  pub lt_add : (a b c : D) → less_than a b ≡ true → less_than (add a c) (add b c) ≡ true

module _ {D : Type 0} ⦃dec : Decimal D⦄ where
  -- GreaterThan, GreaterThanOrEqual, LessThanOrEqual and IsZero, as the package documents them.
  abbrev pub greater_than : D → D → Bool
  greater_than a b = dec.less_than b a

  abbrev pub greater_than_or_equal : D → D → Bool
  greater_than_or_equal a b = not (dec.less_than a b)

  abbrev pub less_than_or_equal : D → D → Bool
  less_than_or_equal a b = not (dec.less_than b a)

  abbrev pub is_zero : D → Bool
  is_zero a = dec.equal a dec.zero_value

  abbrev pub IsPositive : D → Type 0
  IsPositive a = dec.less_than dec.zero_value a ≡ true
