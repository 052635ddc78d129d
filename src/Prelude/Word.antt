-- ===== src/Prelude/Word.antt =====
-- The fixed-width integers of C. A value is kept as its bit pattern; an `int` is compared by
-- moving the sign bit, so that -1 is `0xffffffff`.
use Prim.Native.Nat.{ℕ, ◌+◌, ◌*◌, ◌/◌, ◌%◌, ◌^◌}
use mathlib.Core.Bool.{Bool}
use reco_nic.Prelude.Tests.{ltb}

abbrev pub u8 : ℕ → ℕ
u8 n = n % 2 ^ 8

abbrev pub u16 : ℕ → ℕ
u16 n = n % 2 ^ 16

abbrev pub u32 : ℕ → ℕ
u32 n = n % 2 ^ 32

abbrev pub u64 : ℕ → ℕ
u64 n = n % 2 ^ 64

-- `x << k` on a `uint32_t`, and `x >> k`.
abbrev pub shl32 : ℕ → ℕ → ℕ
shl32 x k = u32 (x * 2 ^ k)

abbrev pub shr : ℕ → ℕ → ℕ
shr x k = x / 2 ^ k

-- `a < b` on two values of type `int`.
abbrev pub slt32 : ℕ → ℕ → Bool
slt32 a b = ltb ((a + 2 ^ 31) % 2 ^ 32) ((b + 2 ^ 31) % 2 ^ 32)

-- The bit pattern of -1.
abbrev pub minus_one : ℕ
minus_one = 0xffff_ffff
