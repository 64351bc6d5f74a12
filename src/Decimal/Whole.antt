-- ===== src/Decimal/Whole.antt =====
-- The whole numbers among the decimals, with all of the interface's laws: Truncate leaves a whole
-- number as it is. String stands for any text that tells the numbers apart: here, a row of marks.
use project_final_1team.Prelude.{
  ℕ, zero, suc, ◌+◌, ◌-◌, ◌*◌, String, ◌≡◌, ◌↔◌, refl, sym, ap, subst, ◌∙◌, Bool, true, false,
  Option, none, some, not, ◌&&◌, ltb, if◌then◌else◌, arith,
}
use project_final_1team.Prelude.Int.{ℤ, pos, negsuc, leb_ℤ}
use project_final_1team.Decimal.{Decimal}
use Prim.Native.String.{◌∷◌, count}
use text.Mathlib.TextLemmas as Text

abbrev pub add : ℤ → ℤ → ℤ
add (pos a) (pos b) = pos (a + b)
add (pos a) (negsuc b) = if ltb b a then pos (a - b - 1) else negsuc (b - a)
add (negsuc a) (pos b) = if ltb a b then pos (b - a - 1) else negsuc (a - b)
add (negsuc a) (negsuc b) = negsuc (a + b + 1)

abbrev pub neg : ℤ → ℤ
neg (pos zero) = pos 0
neg (pos (suc n)) = negsuc n
neg (negsuc n) = pos (n + 1)

abbrev pub less_than : ℤ → ℤ → Bool
less_than a b = not (leb_ℤ b a)

abbrev pub equal : ℤ → ℤ → Bool
equal a b = leb_ℤ a b && leb_ℤ b a

code : ℤ → ℕ
code (pos n) = 2 * n
code (negsuc n) = 2 * n + 1

code-inj : (a b : ℤ) → code a ≡ code b → a ≡ b
unfolding code
code-inj a b e = ground arith

pub add_assoc : (a b c : ℤ) → add (add a b) c ≡ add a (add b c)
add_assoc a b c = ground arith

pub add_comm : (a b : ℤ) → add a b ≡ add b a
add_comm a b = ground arith

pub sub_add : (a b : ℤ) → add (add a (neg b)) b ≡ a
sub_add a b = ground arith

pub lt_add : (a b c : ℤ) → less_than a b ≡ true → less_than (add a c) (add b c) ≡ true
lt_add a b c h = ground arith

pub lt_trans : (a b c : ℤ) → less_than a b ≡ true → less_than b c ≡ true → less_than a c ≡ true
lt_trans a b c h k = ground arith

pub lt_connex : (a b : ℤ) → less_than a b ≡ false → less_than b a ≡ false → a ≡ b
lt_connex a b h k = ground arith

equal-eq : (a b : ℤ) → equal a b ≡ true → a ≡ b
equal-eq a b h = ground arith

pub lt_irrefl : (a : ℤ) → less_than a a ≡ false
lt_irrefl a = ground arith

pub add_zero : (a : ℤ) → add a (pos 0) ≡ a
add_zero a = ground arith

equal_refl : (a : ℤ) → equal a a ≡ true
equal_refl a = ground arith

pub equal_iff : (a b : ℤ) → (equal a b ≡ true) ↔ (a ≡ b)
equal_iff a b = (equal-eq a b, λ e. subst (λ x. equal a x ≡ true) e (equal_refl a))

marks : ℕ → String
marks zero = ""
marks (suc n) = "0" ∷ marks n

count-marks : (n : ℕ) → count (marks n) ≡ n
unfolding marks
count-marks zero = refl
count-marks (suc n) = Text.length-cons "0" (marks n) ∙ ap suc (count-marks n)

unfoldable pub to_string : ℤ → String
unfolding marks code
to_string a = marks (suc (code a))

count-to_string : (a : ℤ) → count (to_string a) ≡ suc (code a)
unfolding to_string
count-to_string a = count-marks (suc (code a))

pub to_string-inj : (a b : ℤ) → to_string a ≡ to_string b → a ≡ b
to_string-inj a b e =
    code-inj a b (suc-inj (sym (count-to_string a) ∙ ap count e ∙ count-to_string b))
  where
    suc-inj : {m n : ℕ} → suc m ≡ suc n → m ≡ n
    suc-inj h = omega arith

further : ℤ → ℤ
further (pos n) = pos (suc n)
further (negsuc n) = negsuc (suc n)

decode : ℕ → ℤ
decode zero = pos 0
decode (suc zero) = negsuc 0
decode (suc (suc n)) = further (decode n)

decode-even : (n : ℕ) → decode (2 * n) ≡ pos n
unfolding decode further
decode-even zero = refl
decode-even (suc n) =
    let twice : 2 * suc n ≡ suc (suc (2 * n)) = omega arith in
    ap decode twice ∙ ap further (decode-even n)

decode-odd : (n : ℕ) → decode (2 * n + 1) ≡ negsuc n
unfolding decode further
decode-odd zero = refl
decode-odd (suc n) =
    let twice : 2 * suc n + 1 ≡ suc (suc (2 * n + 1)) = omega arith in
    ap decode twice ∙ ap further (decode-odd n)

decode-code : (a : ℤ) → decode (code a) ≡ a
unfolding code
decode-code (pos n) = decode-even n
decode-code (negsuc n) = decode-odd n

-- The number of a row of marks; the empty text is none.
unfoldable pub of_string : String → Option ℤ
unfolding decode further
of_string t = elim (count t) [ zero ↦ none | suc n ↦ some (decode n) ]

pub of_string-to_string : (a : ℤ) → of_string (to_string a) ≡ some a
unfolding of_string
of_string-to_string a = rw (count-to_string a, of_string) (ap some (decode-code a))

pub of_string-zero : of_string "0" ≡ some (pos 0)
unfolding of_string
of_string-zero = refl

instance unfoldable pub whole : Decimal ℤ
unfolding to_string
whole = record {
  zero_value = pos 0;
  add = add;
  sub = λ a b. add a (neg b);
  less_than = less_than;
  equal = equal;
  truncate = λ _ a. a;
  to_string = to_string;
  lt_irrefl = lt_irrefl;
  lt_trans = lt_trans;
  lt_connex = lt_connex;
  equal_iff = equal_iff;
  to_string_inj = to_string-inj;
  truncate_idem = λ _ _. refl;
  add_assoc = add_assoc;
  add_comm = add_comm;
  add_zero = add_zero;
  sub_add = sub_add;
  lt_add = lt_add;
}
