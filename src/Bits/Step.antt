-- ===== src/Bits/Step.antt =====
-- One binary digit at a time: the equations of `&` and `|` for the lowest digit.
use Prim.Native.Nat.{min, max, digits, bit_and-bitwise, bit_or-bitwise}
use reco_nic.Prelude.{ℕ, zero, suc, ◌+◌, ◌*◌, ◌/◌, ◌%◌, ◌≤◌, bit_and, bit_or, ◌≡◌, refl, arith}

-- The count of digits to go does not matter once it is enough.
module _ (rest : ℕ → ℕ) (op : ℕ → ℕ → ℕ) where
  enough_digits : (a n m b : ℕ) → a ≤ n → a ≤ m → digits rest op n a b ≡ digits rest op m a b
  enough_digits a n m b = loop n m a b
    where
      loop : (n m a b : ℕ) → a ≤ n → a ≤ m → digits rest op n a b ≡ digits rest op m a b
      loop zero zero a b p q = refl
      loop zero (suc m) zero b p q = refl
      loop (suc n) zero zero b p q = refl
      loop (suc n) (suc m) zero b p q = refl
      loop zero (suc m) (suc a) b p q = absurd (omega arith)
      loop (suc n) zero (suc a) b p q = absurd (omega arith)
      loop (suc n) (suc m) (suc a) b p q =
          omega (arith, loop n m (suc a / 2) (b / 2) (omega arith) (omega arith))

pub bit_and_step : (a b : ℕ) → bit_and a b ≡ bit_and (a / 2) (b / 2) * 2 + min (a % 2) (b % 2)
bit_and_step zero b = omega (arith, bit_and-bitwise 0 b, bit_and-bitwise 0 (b / 2))
bit_and_step (suc a) b = omega (
  arith,
  bit_and-bitwise (suc a) b,
  bit_and-bitwise (suc a / 2) (b / 2),
  enough_digits (λ _. 0) min (suc a / 2) a (suc a / 2) (b / 2) (omega arith) (omega arith),
)

pub bit_or_step : (a b : ℕ) → bit_or a b ≡ bit_or (a / 2) (b / 2) * 2 + max (a % 2) (b % 2)
bit_or_step zero b = omega (arith, bit_or-bitwise 0 b, bit_or-bitwise 0 (b / 2))
bit_or_step (suc a) b = omega (
  arith,
  bit_or-bitwise (suc a) b,
  bit_or-bitwise (suc a / 2) (b / 2),
  enough_digits (λ y. y) max (suc a / 2) a (suc a / 2) (b / 2) (omega arith) (omega arith),
)

pub zero-bit_and : (b : ℕ) → bit_and 0 b ≡ 0
zero-bit_and b = bit_and-bitwise 0 b

up_to : (n a : ℕ) → a ≤ n → (bit_and a 0 ≡ 0) × (bit_or a 0 ≡ a)
up_to n zero h = (refl, refl)
up_to zero (suc a) h = absurd (omega arith)
up_to (suc n) (suc a) h =
    let ih = up_to n (suc a / 2) (omega arith) in
    (omega (arith, bit_and_step (suc a) 0, ih.0), omega (arith, bit_or_step (suc a) 0, ih.1))

pub bit_and-zero : (a : ℕ) → bit_and a 0 ≡ 0
bit_and-zero a = (up_to a a (omega arith)).0

pub bit_or-zero : (a : ℕ) → bit_or a 0 ≡ a
bit_or-zero a = (up_to a a (omega arith)).1

or_comm_up_to : (n a b : ℕ) → a ≤ n → b ≤ n → bit_or a b ≡ bit_or b a
or_comm_up_to zero a b p q = rw (let e : a ≡ 0 = omega arith in e, let e : b ≡ 0 = omega arith in e)
or_comm_up_to (suc n) a b p q = omega (
  arith,
  bit_or_step a b,
  bit_or_step b a,
  or_comm_up_to n (a / 2) (b / 2) (omega arith) (omega arith),
)

pub bit_or_comm : (a b : ℕ) → bit_or a b ≡ bit_or b a
bit_or_comm a b = or_comm_up_to (a + b) a b (omega arith) (omega arith)
