-- ===== src/Reconic/Buffer/Offsets.antt =====
-- The offsets that buffers are cut at.
use reco_nic.Prelude.{
  ℕ, ◌+◌, ◌*◌, ◌/◌, ◌%◌, ◌^◌, ◌≤◌, ◌<◌, ◌≡◌, ◌⊎◌, arith, ◌==◌, leb, ltb, if◌then◌else◌, u64,
}
use reco_nic.Bits.{and_low, and_field}
use reco_nic.Reconic.Buffer.{start_offset}

-- Both masks of the code as arithmetic.
start_offset_cases :
    (o s : ℕ)
    → o < 2 ^ 63
    → s < 2 ^ 63
    → start_offset o s ≡ (
        if leb s 4096
        then (if ltb 4096 (o % 4096 + s) then (o / 4096 + 1) * 4096 else o)
        else (if o % 4096 == 0 then o else (o / 4096 + 1) * 4096))
unfolding start_offset
start_offset_cases o s p q = ground (arith, and_low 12 o, and_field 52 12 (u64 (o + 4096)))

-- A buffer starts at or behind the first free byte, less than a page behind it.
pub start_offset_bounds :
    (o s : ℕ) → o < 2 ^ 63 → s < 2 ^ 63 → (o ≤ start_offset o s) × (start_offset o s < o + 4096)
start_offset_bounds o s p q = rw (start_offset_cases o s p q) (ground arith)

-- A place for a buffer: in one page, or at the start of one.
abbrev pub IsPlace : (s start : ℕ) → Type 0
IsPlace s start = ((s ≤ 4096) × (start % 4096 + s ≤ 4096)) ⊎ ((4096 < s) × (start % 4096 ≡ 0))

-- No offset between the first free byte and the chosen one would do: a small buffer would cross a
-- page there, a larger one would not begin at one.
pub start_offset_least :
    (o s x : ℕ) → o < 2 ^ 63 → s < 2 ^ 63 → o ≤ x → IsPlace s x → start_offset o s ≤ x
start_offset_least o s x p q from place = rw (start_offset_cases o s p q) (ground arith)

-- A buffer of at most 4096 bytes lies in one page; a larger one starts at a page.
pub start_offset_pages : (o s : ℕ) → o < 2 ^ 63 → s < 2 ^ 63 → IsPlace s (start_offset o s)
start_offset_pages o s p q = rw (start_offset_cases o s p q) (ground arith)
