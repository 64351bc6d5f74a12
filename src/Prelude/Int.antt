-- ===== src/Prelude/Int.antt =====
-- Signed integers over the native numbers, for Go's int64 offsets: `negsuc n` is -(n + 1).
use Prim.Native.Nat.{ℕ, zero, suc, ◌+◌, ◌-◌, ◌^◌}
use mathlib.Core.Path.{◌≡◌}
use mathlib.Core.Bool.{Bool, true, false}
use native.Mathlib.Omega.{arith}
use project_final_1team.Prelude.Tests.{leb, ltb, if◌then◌else◌}

pub data ℤ : Type 0 where
  pos : ℕ → ℤ
  negsuc : ℕ → ℤ

-- Go's `a <= b` on int64.
abbrev pub leb_ℤ : ℤ → ℤ → Bool
leb_ℤ (pos a) (pos b) = leb a b
leb_ℤ (pos a) (negsuc b) = false
leb_ℤ (negsuc a) (pos b) = true
leb_ℤ (negsuc a) (negsuc b) = leb b a

-- Go's `a + 1` on int64, which wraps at 2^63 - 1.
unfoldable pub suc_i64 : ℤ → ℤ
suc_i64 (pos n) = if ltb n (2 ^ 63 - 1) then pos (n + 1) else negsuc (2 ^ 63 - 1)
suc_i64 (negsuc zero) = pos 0
suc_i64 (negsuc (suc n)) = negsuc n

pub leb_ℤ-refl : (a : ℤ) → leb_ℤ a a ≡ true
leb_ℤ-refl (pos n) = ground arith
leb_ℤ-refl (negsuc n) = ground arith

pub leb_ℤ-trans : (a b c : ℤ) → leb_ℤ a b ≡ true → leb_ℤ b c ≡ true → leb_ℤ a c ≡ true
leb_ℤ-trans a b c h k = ground arith

pub leb_ℤ-total : (a b : ℤ) → leb_ℤ a b ≡ false → leb_ℤ b a ≡ true
leb_ℤ-total a b h = ground arith
