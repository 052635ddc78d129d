-- ===== src/Examples/Dma/Small.antt =====
-- examples/dma_test/dma_utils.c: transfers that one call of the device can do, on any device that
-- does them whole.
use reco_nic.Prelude.{
  ℕ, suc, ◌+◌, ◌/◌, ◌≤◌, ◌≡◌, ◌≢◌, List, ◌∷◌, some, false, ==-refl, arith, ltb, ◌==◌, take_all,
  length,
}
use reco_nic.Machine.{Machine, Env, seek, file_read, file_write, ret}
use reco_nic.Memory.{rw_max_size, chunk}
use reco_nic.Memory.Laws.{chunk-min}
use reco_nic.Examples.Dma.{write_loop, read_loop, write_from_buffer, read_to_buffer}

module _ (env : Env) (buffer : List ℕ) (m : Machine) (small : length buffer ≤ rw_max_size) where
  abbrev size : ℕ
  size = length buffer

  -- At base 0 the transfer starts wherever the descriptor stands.
  pub write_from_buffer-here :
      env.file_write m.file buffer ≡ some (length buffer)
      → write_from_buffer env buffer (length buffer) 0 m
        ≡ ret
            (some (length buffer))
            (record m { file = file_write buffer (some (length buffer)) ∷ m.file })
  unfolding write_from_buffer write_loop
  write_from_buffer-here writes =
      let whole : chunk size 0 ≡ size = ground (arith, chunk-min size 0) in
      let fuel : size / rw_max_size + 1 ≡ suc (size / rw_max_size) = omega arith in
      let last : ltb size size ≡ false = ground arith in
      let from_zero : 0 + size ≡ size = omega arith in
      rw (fuel, write_loop)
        (simp (whole, take_all size buffer (omega arith), writes, ==-refl, from_zero, last))

  pub write_from_buffer-there :
      (base : ℕ)
      → base ≢ 0
      → env.seek m.file base ≡ some base
      → env.file_write (seek base (some base) ∷ m.file) buffer ≡ some (length buffer)
      → write_from_buffer env buffer (length buffer) base m
        ≡ ret (some (length buffer)) (record m {
          file = file_write buffer (some (length buffer)) ∷ seek base (some base) ∷ m.file;
        })
  unfolding write_from_buffer write_loop
  write_from_buffer-there base real seeks writes =
      let whole : chunk size 0 ≡ size = ground (arith, chunk-min size 0) in
      let fuel : size / rw_max_size + 1 ≡ suc (size / rw_max_size) = omega arith in
      let last : ltb size size ≡ false = ground arith in
      let from_zero : 0 + size ≡ size = omega arith in
      let at : (base == 0) ≡ false = ground arith in
      rw (fuel, write_loop)
        (simp
          (at, seeks, whole, take_all size buffer (omega arith), writes, ==-refl, from_zero, last))

pub read_to_buffer-there :
    (env : Env) (bytes : List ℕ) (size base : ℕ) (m : Machine)
    → size ≤ rw_max_size
    → length bytes ≡ size
    → base ≢ 0
    → env.seek m.file base ≡ some base
    → env.file_read (seek base (some base) ∷ m.file) size ≡ some bytes
    → read_to_buffer env size base m
      ≡ ret
          (some size, bytes)
          (record m { file = file_read size (some bytes) ∷ seek base (some base) ∷ m.file })
unfolding read_to_buffer read_loop
read_to_buffer-there env bytes size base m small len real seeks reads =
    let whole : chunk size 0 ≡ size = ground (arith, chunk-min size 0) in
    let fuel : size / rw_max_size + 1 ≡ suc (size / rw_max_size) = omega arith in
    let last : ltb size size ≡ false = ground arith in
    let from_zero : 0 + size ≡ size = omega arith in
    let at : (base == 0) ≡ false = ground arith in
    rw (fuel, read_loop) (simp (at, seeks, whole, reads, len, ==-refl, from_zero, last))
