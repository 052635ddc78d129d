-- ===== src/Reconic/Paging.antt =====
-- From a virtual to a physical address by /proc/self/pagemap (lib/reconic.c).
pub mod Laws
use reco_nic.Prelude.{
  ℕ, ◌+◌, ◌-◌, ◌*◌, ◌/◌, ◌%◌, ◌^◌, Option, none, some, bit_and, ◌==◌, if◌then◌else◌, u32, u64,
}
use reco_nic.Machine.{Machine, Env, Cmd, Outcome, ret, exit_failure, ◌>>=◌}

module _ (env : Env) where
  -- `exit(1)` where the page map cannot be positioned, -1 where it cannot be read. The seven bytes
  -- hold bits 0 to 55 of an entry.
  unfoldable pub get_page_frame_number_of_address : ℕ → Cmd ℕ
  get_page_frame_number_of_address addr m =
      if env.pagemap_seek_fails (addr / env.page_size)
      then exit_failure m
      else elim (env.pagemap (addr / env.page_size)) [
        | none ↦ ret (2 ^ 64 - 1) m
        | some bytes ↦ ret (bit_and bytes 0x7FFFFFFFFFFFFF) m
      ]

  -- PAGE_SHIFT is 12.
  unfoldable pub get_buffer_paddr : ℕ → Cmd ℕ
  unfolding get_page_frame_number_of_address
  get_buffer_paddr buffer = do
    page_frame_number ← get_page_frame_number_of_address buffer
    let distance_from_page_boundary = u32 (buffer % env.page_size)
    λ m. ret (u64 (u64 (page_frame_number * 2 ^ 12) + distance_from_page_boundary)) m
