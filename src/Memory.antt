-- ===== src/Memory.antt =====
-- lib/memory_api.c: moving bytes between a host buffer and the card's memory, in transfers that
-- the character device can do.
pub mod Content
pub mod Device
pub mod Laws
pub mod Read
pub mod Ends
use reco_nic.Prelude.{
  ℕ, zero, suc, ◌+◌, ◌-◌, ◌/◌, List, [], ◌∷◌, ◌++◌, Option, none, some, Bool, true, false, bit_and,
  not, ltb, ◌==◌, if◌then◌else◌, take, drop, length,
}
use reco_nic.Machine.{Machine, Env, Cmd, seek, file_read, file_write, ret, out_of_fuel, pure, ◌>>=◌}

abbrev pub device_memory_address_mask : ℕ
device_memory_address_mask = 0x0000001FFFFFFFFF

abbrev pub rw_max_size : ℕ
rw_max_size = 0x7ffff000

-- How many bytes the next transfer moves.
unfoldable pub chunk : (size count : ℕ) → ℕ
chunk size count = if ltb rw_max_size (size - count) then rw_max_size else size - count

module _ (env : Env) where
  abbrev pub lseek : ℕ → Cmd (Option ℕ)
  lseek offset m =
      let rc = env.seek m.file offset in ret rc (record m { file = seek offset rc ∷ m.file })

  abbrev pub read_fd : ℕ → Cmd (Option (List ℕ))
  read_fd bytes m =
      let rc = env.file_read m.file bytes in
      ret rc (record m { file = file_read bytes rc ∷ m.file })

  abbrev pub write_fd : List ℕ → Cmd (Option ℕ)
  write_fd bytes m =
      let rc = env.file_write m.file bytes in
      ret rc (record m { file = file_write bytes rc ∷ m.file })

  -- One transfer: where it goes, and whether the loop's body goes on behind it. `none` is -EIO.
  abbrev pub seek_to : ℕ → Cmd Bool
  seek_to offset = do
    rc ← lseek offset
    λ m. elim rc [ none ↦ ret false m | some at ↦ ret (at == offset) m ]

  -- The loop, with the bytes that are still to be written. `none` is -EIO, `some` the count.
  unfoldable pub write_loop : (fuel size count offset : ℕ) (buf : List ℕ) → Cmd (Option ℕ)
  write_loop zero size count offset buf = λ m. out_of_fuel m
  write_loop (suc fuel) size count offset buf = do
    let bytes = chunk size count
    let rest = write_loop fuel size (count + bytes) (offset + bytes) (drop bytes buf)
    found ← seek_to offset
    if not found then pure none else do
      rc ← write_fd (take bytes buf)
      written ← (λ m. elim rc [ none ↦ ret false m | some n ↦ ret (n == bytes) m ])
      if not written
          then pure none
          else if ltb (count + bytes) size
          then rest
          else if count + bytes == size
          then pure (some (count + bytes))
          else pure none

  -- The same for reading; `buf` is what the buffer holds so far.
  unfoldable pub read_loop : (fuel size count offset : ℕ) (buf : List ℕ) → Cmd (Option ℕ × List ℕ)
  read_loop zero size count offset buf = λ m. out_of_fuel m
  read_loop (suc fuel) size count offset buf = do
    let bytes = chunk size count
    let rest = λ (got : List ℕ). read_loop fuel size (count + bytes) (offset + bytes) (buf ++ got)
    found ← seek_to offset
    if not found then pure (none, buf) else do
      rc ← read_fd bytes
      got ← (λ m. elim rc [ none ↦ ret [] m | some b ↦ ret b m ])
      complete ← (λ m. elim rc [ none ↦ ret false m | some b ↦ ret (length b == bytes) m ])
      if not complete
          then pure (none, buf ++ got)
          else if ltb (count + bytes) size
          then rest got
          else if count + bytes == size
          then pure (some (count + bytes), buf ++ got)
          else pure (none, buf ++ got)

  -- `size / rw_max_size + 1` transfers are enough.
  unfoldable pub write_from_buffer : (buffer : List ℕ) (size dev_offset : ℕ) → Cmd (Option ℕ)
  write_from_buffer buffer size dev_offset =
      write_loop (size / rw_max_size + 1) size 0 (bit_and dev_offset device_memory_address_mask)
        buffer

  unfoldable pub read_to_buffer : (size dev_offset : ℕ) → Cmd (Option ℕ × List ℕ)
  read_to_buffer size dev_offset =
      read_loop (size / rw_max_size + 1) size 0 (bit_and dev_offset device_memory_address_mask) []
