-- ===== src/Bits.antt =====
-- `&` with a mask and `|` of fields that do not overlap, as arithmetic: what the register words
-- and the address masks of the program are made of.
mod Step
use Step.{bit_and_step, bit_or_step, bit_and-zero, bit_or_comm}
pub use Step.{bit_or-zero, zero-bit_and}
use native.Mathlib.Nat.{pow-suc, one-le-pow}
use reco_nic.Prelude.{
  ℕ, zero, suc, ◌+◌, ◌-◌, ◌*◌, ◌/◌, ◌%◌, ◌^◌, ◌≤◌, ◌<◌, bit_and, bit_or, ◌≡◌, ap, ◌∙◌, arith,
}

double : (q k : ℕ) → q * 2 ^ suc k ≡ q * 2 ^ k * 2
double q k = omega (arith, ap (λ (t : ℕ). q * t) (pow-suc 2 k))

-- A word whose low `k` bits are free, joined with a word of `k` bits.
pub or_field : (k q r : ℕ) → r < 2 ^ k → bit_or (q * 2 ^ k) r ≡ q * 2 ^ k + r
or_field zero q r h = ground (arith, bit_or-zero q)
or_field (suc k) q r h = ground (
  arith,
  bit_or_step (q * 2 ^ suc k) r,
  double q k,
  or_field k q (r / 2) (omega (arith, pow-suc 2 k)),
)

-- The same with the fields in the other order.
pub field_or : (k q r : ℕ) → r < 2 ^ k → bit_or r (q * 2 ^ k) ≡ q * 2 ^ k + r
field_or k q r h = bit_or_comm r (q * 2 ^ k) ∙ or_field k q r h

-- A mask whose low `k` bits are clear acts on the bits above them alone.
high_field : (k q r m : ℕ) → r < 2 ^ k → bit_and (q * 2 ^ k + r) (m * 2 ^ k) ≡ bit_and q m * 2 ^ k
high_field zero q r m h =
    let e : r ≡ 0 = omega arith in
    let one : (n : ℕ) → n * 2 ^ 0 ≡ n = λ n. omega arith in
    rw (e, one, one, one) (ap (λ (t : ℕ). bit_and t m) (omega arith))
high_field (suc k) q r m h = ground (
  arith,
  bit_and_step (q * 2 ^ suc k + r) (m * 2 ^ suc k),
  double q k,
  double m k,
  double (bit_and q m) k,
  high_field k q (r / 2) m (omega (arith, pow-suc 2 k)),
)

pub and_high : (k a m : ℕ) → bit_and a (m * 2 ^ k) ≡ bit_and (a / 2 ^ k) m * 2 ^ k
and_high k a m = ground (arith, one-le-pow k 2, high_field k (a / 2 ^ k) (a % 2 ^ k) m)

low_field : (k q r : ℕ) → r < 2 ^ k → bit_and (q * 2 ^ k + r) (2 ^ k - 1) ≡ r
low_field zero q r h = rw bit_and-zero (omega arith)
low_field (suc k) q r h = ground (
  arith,
  bit_and_step (q * 2 ^ suc k + r) (2 ^ suc k - 1),
  double q k,
  pow-suc 2 k,
  low_field k q (r / 2) (omega (arith, pow-suc 2 k)),
)

-- A mask of `k` ones is the remainder by `2 ^ k`.
pub and_low : (k a : ℕ) → bit_and a (2 ^ k - 1) ≡ a % 2 ^ k
and_low k a = ground (arith, one-le-pow k 2, low_field k (a / 2 ^ k) (a % 2 ^ k))

-- A mask of `k` ones from bit `j` upwards, as the C writes it.
pub and_field : (k j a : ℕ) → bit_and a ((2 ^ k - 1) * 2 ^ j) ≡ a / 2 ^ j % 2 ^ k * 2 ^ j
and_field k j a = rw (and_high j a (2 ^ k - 1), and_low k (a / 2 ^ j))
