-- ===== src/Reconic/Paging/Laws.antt =====
-- The physical address is that of the byte, in the frame that the page map names.
use reco_nic.Prelude.{ℕ, ◌+◌, ◌*◌, ◌/◌, ◌%◌, ◌^◌, ◌<◌, some, ◌≡◌, false, arith}
use reco_nic.Bits.{and_low}
use reco_nic.Machine.{Machine, Env, ret}
use reco_nic.Reconic.Paging.{get_buffer_paddr}

-- The page map names a frame for the page of the byte at `a`.
pub record InFrame (env : Env) (a bytes : ℕ) : Type 0 where
  pub page_size : env.page_size ≡ 4096
  pub sought : env.pagemap_seek_fails (a / 4096) ≡ false
  pub found : env.pagemap (a / 4096) ≡ some bytes
  pub fits : bytes % 2 ^ 55 < 2 ^ 52

-- The physical address of the byte at `a` in that frame.
abbrev pub physical : (bytes a : ℕ) → ℕ
physical bytes a = bytes % 2 ^ 55 * 4096 + a % 4096

-- Where pages have 4096 bytes and the page map gives a frame of at most 52 bits, `get_buffer_paddr`
-- gives the address in that frame at the distance that the byte has in its page, and changes
-- nothing.
pub get_buffer_paddr-frame :
    (env : Env) (m : Machine) (buffer bytes : ℕ)
    → env.page_size ≡ 4096
    → env.pagemap_seek_fails (buffer / 4096) ≡ false
    → env.pagemap (buffer / 4096) ≡ some bytes
    → bytes % 2 ^ 55 < 2 ^ 52
    → get_buffer_paddr env buffer m ≡ ret (bytes % 2 ^ 55 * 4096 + buffer % 4096) m
unfolding get_buffer_paddr
get_buffer_paddr-frame env m buffer bytes size sought found fits =
    rw (size, sought, found) (ground (arith, and_low 55 bytes))
