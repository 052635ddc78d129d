-- ===== src/Memory/Laws.antt =====
-- lib/memory_api.c, `write_from_buffer`: the loop moves every byte.
use Prim.Native.Nat.{min}
use reco_nic.Prelude.{
  ℕ, zero, suc, ◌+◌, ◌-◌, ◌*◌, ◌/◌, ◌%◌, ◌^◌, ◌≤◌, ◌<◌, ◌≡◌, refl, sym, ap, ◌∙◌, List, ◌∷◌, Option,
  some, inl, inr, Bool-cases, ==-refl, arith, ltb, if◌then◌else◌, take, drop, length,
  take-append-drop, take-take, take_all, length-take, length-drop,
}
use reco_nic.Bits.{and_low}
use reco_nic.Machine.{Machine, Env, Outcome, seek, file_write, ret}
use reco_nic.Memory.{write_loop, write_from_buffer, rw_max_size, chunk}
use reco_nic.Memory.Content.{store, store-append}
use reco_nic.Memory.Device.{IsRegular, replay, transfer_limit}

pub chunk-min : (size count : ℕ) → chunk size count ≡ min rw_max_size (size - count)
unfolding chunk
chunk-min size count = ground arith

module _ (env : Env) (initial : ℕ → ℕ) (regular : IsRegular env initial) where
  -- The result of a loop that has `left` bytes to write at `offset`.
  abbrev Written : (size offset : ℕ) → List ℕ → Machine → Outcome (Option ℕ) → Type 0
  Written size offset buf m r =
      (m' : Machine) × (r ≡ ret (some size) m')
      × ((replay initial m'.file).content ≡ store (replay initial m.file).content offset buf)
      × (m' ≡ record m { file = m'.file })

  -- The machine after one transfer of the first `b` bytes.
  abbrev sent : (offset b : ℕ) → List ℕ → Machine → Machine
  sent offset b buf m = record m {
    file = file_write (take b buf) (some b) ∷ seek offset (some offset) ∷ m.file;
  }

  joined :
      (buf : List ℕ) (m : Machine) (offset b : ℕ)
      → b ≤ length buf
      → store (replay initial (sent offset b buf m).file).content (offset + b) (drop b buf)
        ≡ store (replay initial m.file).content offset buf
  joined buf m offset b h =
      let c = (replay initial m.file).content in
      let len : length (take b buf) ≡ b = omega (arith, length-take b buf) in
      rw (take-take b buf) (
        ap (λ (k : ℕ). store (store c offset (take b buf)) (offset + k) (drop b buf)) (sym len)
        ∙ sym (store-append c offset (take b buf) (drop b buf))
        ∙ ap (λ (t : List ℕ). store c offset t) (take-append-drop b buf))

  write_loop_step :
      (fuel size count offset : ℕ) (buf : List ℕ) (m : Machine)
      → count + length buf ≡ size
      → let b = chunk size count in
        write_loop env (suc fuel) size count offset buf m ≡ (
          if ltb (count + b) size
          then write_loop env fuel size (count + b) (offset + b) (drop b buf) (sent offset b buf m)
          else ret (some size) (sent offset b buf m))
  unfolding write_loop
  write_loop_step fuel size count offset buf m whole =
      let b = chunk size count in
      let all : min (length (take b buf)) transfer_limit ≡ b =
        omega (arith, chunk-min size count, length-take b buf) in
      simp (regular.seeks, regular.writes, ==-refl, all)
        (elim (Bool-cases (ltb (count + b) size)) [
          | inl more ↦ rw more
          | inr last ↦
              let e : count + b ≡ size = ground (arith, chunk-min size count) in
              rw last (rw (e, ==-refl))
        ])

  write_loop-Written :
      (fuel size count offset : ℕ) (buf : List ℕ) (m : Machine)
      → count + length buf ≡ size
      → size - count < fuel * rw_max_size
      → Written size offset buf m (write_loop env fuel size count offset buf m)
  write_loop-Written zero size count offset buf m whole enough = absurd (omega arith)
  write_loop-Written (suc fuel) size count offset buf m whole enough =
      let b = chunk size count in
      rw (write_loop_step fuel size count offset buf m whole)
        (elim (Bool-cases (ltb (count + b) size)) [
          | inl more ↦
              let (m', run, content, frame) =
                write_loop-Written fuel size (count + b) (offset + b) (drop b buf)
                  (sent offset b buf m) (ground (arith, chunk-min size count, length-drop b buf))
                  (ground (arith, chunk-min size count)) in
              rw more (
                m',
                run,
                content ∙ joined buf m offset b (omega (arith, chunk-min size count)),
                frame,
              )
          | inr last ↦ rw last (
            sent offset b buf m,
            refl,
            ap (λ (t : List ℕ). store (replay initial m.file).content offset t)
                (take-take b buf ∙ take_all b buf (ground (arith, chunk-min size count))),
            refl,
          )
        ])

-- On a regular device `write_from_buffer` returns the size that it was given, whatever that is; the
-- card's memory then holds the buffer at the masked offset and is unchanged elsewhere, and of the
-- program's own state nothing has changed.
pub write_from_buffer-store :
    (env : Env) (initial : ℕ → ℕ) (buffer : List ℕ) (dev_offset : ℕ) (m : Machine)
    → IsRegular env initial
    → (m' : Machine) × (write_from_buffer env buffer (length buffer) dev_offset m
        ≡ ret (some (length buffer)) m')
      × ((replay initial m'.file).content
          ≡ store (replay initial m.file).content (dev_offset % 2 ^ 37) buffer)
      × (m' ≡ record m { file = m'.file })
unfolding write_from_buffer
write_from_buffer-store env initial buffer dev_offset m regular = rw (and_low 37 dev_offset) (
    write_loop-Written env initial regular (length buffer / rw_max_size + 1) (length buffer) 0
      (dev_offset % 2 ^ 37) buffer m (omega arith) (omega arith))
