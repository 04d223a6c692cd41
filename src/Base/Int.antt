-- ===== src/Base/Int.antt =====
-- Signed integers over the native numbers, and the conversion to a 32-bit `int`.
use Prim.Native.Nat.{ℕ, ◌-◌, ◌%◌, ◌^◌, ◌≤◌}
use mathlib.Core.Path.{◌≡◌}
use mathlib.Core.Bool.{Bool, true, false, ◌&&◌}
use mathlib.Core.List.{List, [], ◌∷◌}
use native.Mathlib.Omega.{arith}
use nxremote_api.Base.Tests.{ltb, leb, if◌then◌else◌}

-- `negsuc n` is -(n + 1).
pub data ℤ : Type 0 where
  pos : ℕ → ℤ
  negsuc : ℕ → ℤ

abbrev pub neg_ℕ : ℕ → ℤ
neg_ℕ n = if leb n 0 then pos 0 else negsuc (n - 1)

-- `a - b` as an integer.
abbrev pub sub_ℕ : ℕ → ℕ → ℤ
sub_ℕ a b = if leb b a then pos (a - b) else negsuc (b - a - 1)

abbrev pub leb_ℤ : ℤ → ℤ → Bool
leb_ℤ (pos a) (pos b) = leb a b
leb_ℤ (pos a) (negsuc b) = false
leb_ℤ (negsuc a) (pos b) = true
leb_ℤ (negsuc a) (negsuc b) = leb b a

abbrev pub eq_ℤ : ℤ → ℤ → Bool
eq_ℤ a b = leb_ℤ a b && leb_ℤ b a

-- A list without the first of its elements that is a number.
abbrev pub remove : ℤ → List ℤ → List ℤ
remove a [] = []
remove a (x ∷ xs) = if eq_ℤ a x then xs else x ∷ remove a xs

-- The bit pattern of a number in `w` bits, and the signed number that a pattern stands for.
abbrev pub to_bits : ℕ → ℤ → ℕ
to_bits w (pos n) = n % 2 ^ w
to_bits w (negsuc n) = 2 ^ w - 1 - n % 2 ^ w

abbrev pub int32 : ℤ → ℤ
int32 a = let b = to_bits 32 a in if ltb b (2 ^ 31) then pos b else negsuc (2 ^ 32 - b - 1)

-- The values of a 32-bit and of a 64-bit signed integer.
abbrev pub IsInt32 : ℤ → Type 0
IsInt32 (pos n) = n ≤ 2 ^ 31 - 1
IsInt32 (negsuc n) = n ≤ 2 ^ 31 - 1

abbrev pub IsInt64 : ℤ → Type 0
IsInt64 (pos n) = n ≤ 2 ^ 63 - 1
IsInt64 (negsuc n) = n ≤ 2 ^ 63 - 1

pub int32_of_IsInt32 : (a : ℤ) → IsInt32 a → int32 a ≡ a
int32_of_IsInt32 (pos n) h = ground arith
int32_of_IsInt32 (negsuc n) h = ground arith

pub IsInt64-of_IsInt32 : (a : ℤ) → IsInt32 a → IsInt64 a
IsInt64-of_IsInt32 (pos n) h = omega arith
IsInt64-of_IsInt32 (negsuc n) h = omega arith
