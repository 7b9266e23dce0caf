-- ===== src/Base/Int.antt =====
-- Signed integers over the native numbers, and the wrap-around of Go's int64.
use Prim.Native.Nat.{ℕ, suc, ◌+◌, ◌-◌, ◌≤◌, ◌<◌, ◌^◌, ◌%◌}
use mathlib.Core.Path.{◌≡◌}
use mathlib.Core.Bool.{Bool}
use native.Mathlib.Omega.{arith}
use shareserver.Base.Tests.{ltb, leb, if◌then◌else◌}

-- `negsuc n` is -(n + 1).
pub data ℤ : Type 0 where
  pos : ℕ → ℤ
  negsuc : ℕ → ℤ

abbrev pub pos_part : ℤ → ℕ
pos_part (pos n) = n
pos_part (negsuc n) = 0

abbrev pub neg_part : ℤ → ℕ
neg_part (pos n) = 0
neg_part (negsuc n) = suc n

abbrev pub sub_ℕ : ℕ → ℕ → ℤ
sub_ℕ a b = if leb b a then pos (a - b) else negsuc (b - a - 1)

abbrev pub ltb_ℤ : ℤ → ℤ → Bool
ltb_ℤ a b = ltb (pos_part a + neg_part b) (pos_part b + neg_part a)

abbrev pub leb_ℤ : ℤ → ℤ → Bool
leb_ℤ a b = leb (pos_part a + neg_part b) (pos_part b + neg_part a)

infix 50 ◌≤ℤ◌
abbrev pub ◌≤ℤ◌ : ℤ → ℤ → Type 0
a ≤ℤ b = pos_part a + neg_part b ≤ pos_part b + neg_part a

-- The value of the low 64 bits of an integer.
abbrev pub wrap64 : ℕ → ℕ → ℤ
wrap64 p n = sub_ℕ ((p + 2 ^ 63 + (2 ^ 64 - n % 2 ^ 64)) % 2 ^ 64) (2 ^ 63)

infixl 65 ◌+ℤ◌ ◌-ℤ◌
-- int64 addition and subtraction.
unfoldable pub ◌+ℤ◌ : ℤ → ℤ → ℤ
a +ℤ b = wrap64 (pos_part a + pos_part b) (neg_part a + neg_part b)

unfoldable pub ◌-ℤ◌ : ℤ → ℤ → ℤ
a -ℤ b = wrap64 (pos_part a + neg_part b) (neg_part a + pos_part b)

-- Small enough that a few of them can be added with no overflow.
abbrev pub IsModest : ℤ → Type 0
IsModest a = (pos_part a < 2 ^ 60) × (neg_part a < 2 ^ 60)

abbrev pub IsInt64 : ℤ → Type 0
IsInt64 a = (pos_part a < 2 ^ 63) × (neg_part a ≤ 2 ^ 63)

-- Where the exact difference of two numbers fits in 64 bits, it is that difference.
pub wrap64-eq : (p n : ℕ) → p < 2 ^ 63 + n → n ≤ 2 ^ 63 + p → n < 2 ^ 64 → wrap64 p n ≡ sub_ℕ p n
wrap64-eq p n h k m = ground arith

pub +ℤ_parts :
    (a b : ℤ)
    → pos_part a + pos_part b < 2 ^ 63
    → neg_part a + neg_part b < 2 ^ 63
    → pos_part (a +ℤ b) + (neg_part a + neg_part b) ≡ neg_part (a +ℤ b) + (pos_part a + pos_part b)
unfolding ◌+ℤ◌
+ℤ_parts a b h k =
    rw
      (wrap64-eq (pos_part a + pos_part b) (neg_part a + neg_part b) (omega arith) (omega arith)
        (omega arith))
      (ground arith)

pub -ℤ_parts :
    (a b : ℤ)
    → pos_part a + neg_part b < 2 ^ 63
    → neg_part a + pos_part b < 2 ^ 63
    → pos_part (a -ℤ b) + (neg_part a + pos_part b) ≡ neg_part (a -ℤ b) + (pos_part a + neg_part b)
unfolding ◌-ℤ◌
-ℤ_parts a b h k =
    rw
      (wrap64-eq (pos_part a + neg_part b) (neg_part a + pos_part b) (omega arith) (omega arith)
        (omega arith))
      (ground arith)
