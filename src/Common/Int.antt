-- ===== src/Common/Int.antt =====
-- Signed integers, and Go's conversion to int32.
use Prim.Native.Nat.{ℕ, zero, suc, ◌-◌, ◌%◌, ◌^◌, ◌<◌}
use mathlib.Core.Path.{◌≡◌, refl}
use mathlib.Core.Bool.{Bool, true, false, not}
use native.Mathlib.Omega.{arith}
use flokoa.Common.Tests.{ltb, if◌then◌else◌}

-- `negsuc n` is -(n + 1).
pub data ℤ : Type 0 where
  pos : ℕ → ℤ
  negsuc : ℕ → ℤ

-- The integer whose two's complement pattern of 32 bits is `n`.
abbrev signed32 : ℕ → ℤ
signed32 n = if ltb n (2 ^ 31) then pos n else negsuc (2 ^ 32 - 1 - n)

-- `int32(x)` of an int64: the low 32 bits, read as a signed number.
unfoldable pub to_int32 : ℤ → ℤ
to_int32 (pos n) = signed32 (n % 2 ^ 32)
to_int32 (negsuc n) = signed32 (2 ^ 32 - 1 - n % 2 ^ 32)

abbrev pub add_one : ℤ → ℤ
add_one (pos n) = pos (suc n)
add_one (negsuc zero) = pos 0
add_one (negsuc (suc n)) = negsuc n

abbrev pub sub_one : ℤ → ℤ
sub_one (pos zero) = negsuc 0
sub_one (pos (suc n)) = pos n
sub_one (negsuc n) = negsuc (suc n)

-- `x > 0`
abbrev pub is_positive : ℤ → Bool
is_positive (pos zero) = false
is_positive (pos (suc n)) = true
is_positive (negsuc n) = false

-- `x >= y`
abbrev pub at_least : ℤ → ℤ → Bool
at_least (pos a) (pos b) = not (ltb a b)
at_least (pos a) (negsuc b) = true
at_least (negsuc a) (pos b) = false
at_least (negsuc a) (negsuc b) = not (ltb b a)

-- A number below 2 ^ 31 is not changed by the conversion.
pub to_int32-pos : (n : ℕ) → n < 2 ^ 31 → to_int32 (pos n) ≡ pos n
unfolding to_int32
to_int32-pos n h = ground arith

pub at_least_refl : (a : ℤ) → at_least a a ≡ true
at_least_refl (pos a) = ground arith
at_least_refl (negsuc a) = ground arith

pub at_least_total : (a b : ℤ) → at_least a b ≡ false → at_least b a ≡ true
at_least_total (pos a) (pos b) h = ground arith
at_least_total (pos a) (negsuc b) h = ground arith
at_least_total (negsuc a) (pos b) h = refl
at_least_total (negsuc a) (negsuc b) h = ground arith

pub at_least_trans : (a b c : ℤ) → at_least a b ≡ true → at_least b c ≡ true → at_least a c ≡ true
at_least_trans (pos a) (pos b) (pos c) h h' = ground arith
at_least_trans (pos a) b (negsuc c) h h' = refl
at_least_trans (pos a) (negsuc b) (pos c) h h' = ground arith
at_least_trans (negsuc a) (pos b) c h h' = ground arith
at_least_trans (negsuc a) (negsuc b) (pos c) h h' = ground arith
at_least_trans (negsuc a) (negsuc b) (negsuc c) h h' = ground arith
