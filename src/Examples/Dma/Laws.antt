-- ===== src/Examples/Dma/Laws.antt =====
-- examples/dma_test/dma_utils.c: its transfers against those of lib/memory_api.c.
use reco_nic.Prelude.{
  ℕ, zero, suc, ◌+◌, ◌-◌, ◌%◌, ◌^◌, ◌≤◌, ◌<◌, ◌≡◌, ◌≢◌, refl, ap, ◌∙◌, List, [], ◌∷◌, ◌++◌, some,
  false, arith, ◌==◌, drop, length, u64,
}
use reco_nic.Bits.{and_low}
use reco_nic.Machine.{Machine, Env, file_write, ret}
use reco_nic.Memory
use reco_nic.Memory.{rw_max_size, chunk}
use reco_nic.Memory.Device.{IsRegular}
use reco_nic.Memory.Laws.{chunk-min}
use reco_nic.Examples.Dma.Small.{write_from_buffer-here}
use reco_nic.Examples.Dma.{write_loop, read_loop, write_from_buffer, read_to_buffer}

module _ (env : Env) where
  write_loop_same :
      (fuel size count offset : ℕ) (buf : List ℕ)
      → offset ≢ 0
      → count ≤ size
      → offset + (size - count) < 2 ^ 64
      → write_loop env fuel size count offset buf ≡ Memory.write_loop env fuel size count offset buf
  unfolding write_loop Memory.write_loop
  write_loop_same zero size count offset buf nz le fits = refl
  write_loop_same (suc fuel) size count offset buf nz le fits =
      let b = chunk size count in
      let at : (offset == 0) ≡ false = ground arith in
      let wrap : u64 (offset + b) ≡ offset + b = omega (arith, chunk-min size count) in
      let ih =
        write_loop_same fuel size (count + b) (offset + b) (drop b buf) (omega arith)
          (omega (arith, chunk-min size count)) (omega (arith, chunk-min size count)) in
      rw at (rw wrap (rw ih refl))

  read_loop_same :
      (fuel size count offset : ℕ) (buf : List ℕ)
      → offset ≢ 0
      → count ≤ size
      → offset + (size - count) < 2 ^ 64
      → read_loop env fuel size count offset buf ≡ Memory.read_loop env fuel size count offset buf
  unfolding read_loop Memory.read_loop
  read_loop_same zero size count offset buf nz le fits = refl
  read_loop_same (suc fuel) size count offset buf nz le fits =
      let b = chunk size count in
      let at : (offset == 0) ≡ false = ground arith in
      let wrap : u64 (offset + b) ≡ offset + b = omega (arith, chunk-min size count) in
      let ih : (got : List ℕ)
          → read_loop env fuel size (count + b) (offset + b) (buf ++ got)
            ≡ Memory.read_loop env fuel size (count + b) (offset + b) (buf ++ got) =
        λ got.
          read_loop_same fuel size (count + b) (offset + b) (buf ++ got) (omega arith)
            (omega (arith, chunk-min size count)) (omega (arith, chunk-min size count)) in
      rw at (rw wrap (simp ih))

  -- At a base that is not 0 and lies in the card's memory, the transfers of the benchmark are those
  -- of the library: the same calls on the device in the same order, and the same result, whatever
  -- the device answers.
  pub transfers-same :
      (buffer : List ℕ) (size base : ℕ)
      → base ≢ 0
      → base < 2 ^ 37
      → base + size < 2 ^ 64
      → (write_from_buffer env buffer size base ≡ Memory.write_from_buffer env buffer size base)
        × (read_to_buffer env size base ≡ Memory.read_to_buffer env size base)
  unfolding write_from_buffer read_to_buffer Memory.write_from_buffer Memory.read_to_buffer
  transfers-same buffer size base nz low fits =
      let mask = and_low 37 base in
      let at : base % 2 ^ 37 ≡ base = omega arith in
      (
        rw mask (rw at (write_loop_same _ size 0 base buffer nz (omega arith) (omega arith))),
        rw mask (rw at (read_loop_same _ size 0 base [] nz (omega arith) (omega arith))),
      )

  module _ (initial : ℕ → ℕ) (regular : IsRegular env initial) where
    -- At base 0 a transfer that one call can do starts wherever the descriptor stands.
    pub write_from_buffer-base_zero :
        (buffer : List ℕ) (m : Machine)
        → length buffer ≤ rw_max_size
        → write_from_buffer env buffer (length buffer) 0 m
          ≡ ret
              (some (length buffer))
              (record m { file = file_write buffer (some (length buffer)) ∷ m.file })
    write_from_buffer-base_zero buffer m small =
        write_from_buffer-here env buffer m small
          (regular.writes m.file buffer ∙ ap some (omega arith))
