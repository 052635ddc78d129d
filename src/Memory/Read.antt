-- ===== src/Memory/Read.antt =====
-- lib/memory_api.c, `read_to_buffer`: the loop moves every byte, and reads back what was written.
use Prim.Native.Nat.{min}
use reco_nic.Prelude.{
  ℕ, zero, suc, ◌+◌, ◌-◌, ◌*◌, ◌/◌, ◌%◌, ◌^◌, ◌≤◌, ◌<◌, ◌≡◌, refl, sym, ap, ◌∙◌, List, [], ◌∷◌,
  ◌++◌, Option, some, inl, inr, Bool-cases, ==-refl, arith, ltb, if◌then◌else◌, length,
}
use reco_nic.Bits.{and_low}
use reco_nic.Machine.{Machine, Env, Outcome, seek, file_read, ret}
use mathlib.Core.List.{append_assoc}
use reco_nic.Memory.{read_loop, write_from_buffer, read_to_buffer, rw_max_size, chunk}
use reco_nic.Memory.Content.{load, load-append, load-store, length-load}
use reco_nic.Memory.Device.{IsRegular, replay, transfer_limit}
use reco_nic.Memory.Laws.{chunk-min, write_from_buffer-store}

module _ (env : Env) (initial : ℕ → ℕ) (regular : IsRegular env initial) where
  -- The machine after one transfer of `b` bytes from the card.
  abbrev got : (offset b : ℕ) → Machine → Machine
  got offset b m = record m {
    file =
        file_read b (some (load (replay initial m.file).content offset b))
        ∷ seek offset (some offset)
        ∷ m.file;
  }

  abbrev Read : (size left offset : ℕ) → List ℕ → Machine → Outcome (Option ℕ × List ℕ) → Type 0
  Read size left offset buf m r =
      let c = (replay initial m.file).content in
      (m' : Machine) × (r ≡ ret (some size, buf ++ load c offset left) m')
      × ((replay initial m'.file).content ≡ c)
      × (m' ≡ record m { file = m'.file })

  read_loop_step :
      (fuel size count offset : ℕ) (buf : List ℕ) (m : Machine)
      → count ≤ size
      → let b = chunk size count in
        let more = buf ++ load (replay initial m.file).content offset b in
        read_loop env (suc fuel) size count offset buf m ≡ (
          if ltb (count + b) size
          then read_loop env fuel size (count + b) (offset + b) more (got offset b m)
          else ret (some size, more) (got offset b m))
  unfolding read_loop
  read_loop_step fuel size count offset buf m le =
      let b = chunk size count in
      let all : min b transfer_limit ≡ b = omega (arith, chunk-min size count) in
      simp (regular.seeks, regular.reads, ==-refl, all, length-load)
        (elim (Bool-cases (ltb (count + b) size)) [
          | inl more ↦ rw more
          | inr last ↦
              let e : count + b ≡ size = ground (arith, chunk-min size count) in
              rw last (rw (e, ==-refl))
        ])

  read_loop-Read :
      (fuel size count left offset : ℕ) (buf : List ℕ) (m : Machine)
      → count + left ≡ size
      → left < fuel * rw_max_size
      → Read size left offset buf m (read_loop env fuel size count offset buf m)
  read_loop-Read zero size count left offset buf m le enough = absurd (omega arith)
  read_loop-Read (suc fuel) size count left offset buf m le enough =
      let b = chunk size count in
      let c = (replay initial m.file).content in
      rw (read_loop_step fuel size count offset buf m (omega arith))
        (elim (Bool-cases (ltb (count + b) size)) [
          | inl more ↦
              let (m', run, content, frame) =
                read_loop-Read fuel size (count + b) (left - b) (offset + b)
                  (buf ++ load c offset b) (got offset b m) (ground (arith, chunk-min size count))
                  (ground (arith, chunk-min size count)) in
              let whole : b + (left - b) ≡ left = ground (arith, chunk-min size count) in
              let bytes : (buf ++ load c offset b) ++ load c (offset + b) (left - b)
                  ≡ buf ++ load c offset left =
                append_assoc buf (load c offset b) (load c (offset + b) (left - b))
                ∙ ap (λ (t : List ℕ). buf ++ t) (sym (load-append c offset b (left - b)))
                ∙ ap (λ (k : ℕ). buf ++ load c offset k) whole in
              rw more (m', run ∙ ap (λ (t : List ℕ). ret (some size, t) m') bytes, content, frame)
          | inr last ↦
              let e : b ≡ left = ground (arith, chunk-min size count) in
              rw last (got offset b m, rw e, refl, refl)
        ])

-- Reading gives back what stands at the masked offset, and leaves the card's memory as it is.
pub read_to_buffer-load :
    (env : Env) (initial : ℕ → ℕ) (size dev_offset : ℕ) (m : Machine)
    → IsRegular env initial
    → (m' : Machine) × (read_to_buffer env size dev_offset m
        ≡ ret (some size, load (replay initial m.file).content (dev_offset % 2 ^ 37) size) m')
      × ((replay initial m'.file).content ≡ (replay initial m.file).content)
      × (m' ≡ record m { file = m'.file })
unfolding read_to_buffer
read_to_buffer-load env initial size dev_offset m regular = rw (and_low 37 dev_offset) (
    read_loop-Read env initial regular (size / rw_max_size + 1) size 0 size (dev_offset % 2 ^ 37) []
      m (omega arith) (omega arith))

-- On a regular device, what `write_from_buffer` wrote is what `read_to_buffer` reads at the same
-- offset, for buffers of any size.
pub read_to_buffer-write_from_buffer :
    (env : Env) (initial : ℕ → ℕ) (buffer : List ℕ) (dev_offset : ℕ) (m : Machine)
    → IsRegular env initial
    → (m1 m2 : Machine) × (write_from_buffer env buffer (length buffer) dev_offset m
        ≡ ret (some (length buffer)) m1)
      × (read_to_buffer env (length buffer) dev_offset m1 ≡ ret (some (length buffer), buffer) m2)
read_to_buffer-write_from_buffer env initial buffer dev_offset m regular =
    let (m1, wrote, content, _) = write_from_buffer-store env initial buffer dev_offset m regular in
    let (m2, read, _, _) = read_to_buffer-load env initial (length buffer) dev_offset m1 regular in
    let c = (replay initial m.file).content in
    (
      m1,
      m2,
      wrote,
      read
          ∙ ap (λ (t : List ℕ). ret (some (length buffer), t) m2)
              (ap (λ (d : ℕ → ℕ). load d (dev_offset % 2 ^ 37) (length buffer)) content
                ∙ load-store c (dev_offset % 2 ^ 37) buffer),
    )
