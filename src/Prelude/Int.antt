-- ===== src/Prelude/Int.antt =====
-- Go's int64: a signed integer in range, with the wrap-around of each operation written out.
use Prim.Native.Nat.{ℕ, suc, ◌+◌, ◌-◌, ◌*◌, ◌/◌, ◌%◌, ◌^◌, ◌≤◌, ◌<◌}
use mathlib.Core.Bool.{Bool}
use cloudstack_csi_driver.Prelude.Tests.{ltb, leb, if◌then◌else◌, ◌==◌}

-- `negsuc n` is -(n + 1).
pub data ℤ : Type 0 where
  pos : ℕ → ℤ
  negsuc : ℕ → ℤ

abbrev pub pos_part : ℤ → ℕ
pos_part (pos n) = n
pos_part (negsuc n) = 0

abbrev pub neg_part : ℤ → ℕ
neg_part (pos n) = 0
neg_part (negsuc n) = suc n

-- a - b, as an integer.
abbrev pub sub_ℕ : ℕ → ℕ → ℤ
sub_ℕ a b = if leb b a then pos (a - b) else negsuc (b - a - 1)

abbrev pub ltb_ℤ : ℤ → ℤ → Bool
ltb_ℤ a b = ltb (pos_part a + neg_part b) (pos_part b + neg_part a)

abbrev pub eqb_ℤ : ℤ → ℤ → Bool
eqb_ℤ a b = (pos_part a + neg_part b) == (pos_part b + neg_part a)

infix 50 ◌≤ℤ◌ ◌<ℤ◌
abbrev pub ◌≤ℤ◌ : ℤ → ℤ → Type 0
a ≤ℤ b = pos_part a + neg_part b ≤ pos_part b + neg_part a

abbrev pub ◌<ℤ◌ : ℤ → ℤ → Type 0
a <ℤ b = pos_part a + neg_part b < pos_part b + neg_part a

-- The value of a 64-bit pattern in two's complement.
abbrev pub signed64 : ℕ → ℤ
signed64 w = if ltb w (2 ^ 63) then pos w else negsuc (2 ^ 64 - w - 1)

-- The int64 that a mathematical integer wraps to.
abbrev pub wrap64 : ℤ → ℤ
wrap64 (pos n) = signed64 (n % 2 ^ 64)
wrap64 (negsuc n) = signed64 (2 ^ 64 - n % 2 ^ 64 - 1)

abbrev pub add64 : ℤ → ℤ → ℤ
add64 a b = wrap64 (sub_ℕ (pos_part a + pos_part b) (neg_part a + neg_part b))

-- The product with a literal that is not negative.
abbrev pub mul64 : ℤ → ℕ → ℤ
mul64 a k = wrap64 (sub_ℕ (pos_part a * k) (neg_part a * k))

abbrev pub sub64 : ℤ → ℤ → ℤ
sub64 a b = wrap64 (sub_ℕ (pos_part a + neg_part b) (neg_part a + pos_part b))

-- The product of any two.
abbrev pub times64 : ℤ → ℤ → ℤ
times64 a b = wrap64 (
    sub_ℕ (pos_part a * pos_part b + neg_part a * neg_part b)
      (pos_part a * neg_part b + neg_part a * pos_part b))

-- Go's `/` by a positive literal truncates towards zero.
abbrev pub quot64 : ℤ → ℕ → ℤ
quot64 (pos n) d = pos (n / d)
quot64 (negsuc n) d = sub_ℕ 0 (suc n / d)

pub record IsInt64 (z : ℤ) : Type 0 where
  pub above : pos_part z < 2 ^ 63
  pub below : neg_part z ≤ 2 ^ 63
