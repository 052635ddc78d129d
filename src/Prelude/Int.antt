-- ===== src/Prelude/Int.antt =====
-- Signed integers on the native numbers, under the library's names: what the clock needs.
use Prim.Native.Nat.{ℕ, suc, ◌+◌, ◌-◌, ◌*◌}
use mathlib.Core.Bool.{Bool}
use reco_nic.Prelude.Tests.{ltb, leb, if◌then◌else◌}

-- `negsuc n` is -(n + 1).
pub data ℤ : Type 0 where
  pos : ℕ → ℤ
  negsuc : ℕ → ℤ

-- An integer is the difference of these two numbers.
abbrev pub pos_part : ℤ → ℕ
pos_part (pos n) = n
pos_part (negsuc n) = 0

abbrev pub neg_part : ℤ → ℕ
neg_part (pos n) = 0
neg_part (negsuc n) = suc n

abbrev pub difference : ℕ → ℕ → ℤ
difference a b = if leb b a then pos (a - b) else negsuc (b - a - 1)

infixl 65 ◌+ℤ◌ ◌-ℤ◌
infixl 70 ◌*ℤ◌
abbrev pub ◌+ℤ◌ : ℤ → ℤ → ℤ
x +ℤ y = difference (pos_part x + pos_part y) (neg_part x + neg_part y)

abbrev pub ◌-ℤ◌ : ℤ → ℤ → ℤ
x -ℤ y = difference (pos_part x + neg_part y) (neg_part x + pos_part y)

-- Times a number that is not negative.
abbrev pub ◌*ℤ◌ : ℤ → ℕ → ℤ
x *ℤ n = difference (pos_part x * n) (neg_part x * n)

abbrev pub ltb_ℤ : ℤ → ℤ → Bool
ltb_ℤ x y = ltb (pos_part x + neg_part y) (pos_part y + neg_part x)
