-- ===== src/Memory/Ends.antt =====
-- lib/memory_api.c: both loops end, whatever the character device answers.
use reco_nic.Prelude.{
  ℕ, zero, suc, ◌+◌, ◌-◌, ◌*◌, ◌/◌, ◌≤◌, ◌<◌, ◌≡◌, refl, List, ◌∷◌, Option, none, some, ◌⊎◌, inl,
  inr, Bool-cases, Option-cases, arith, ==-refl, bit_and, ltb, ◌==◌, take, drop,
}
use reco_nic.Machine.{Machine, Env, Outcome, seek, file_write, ret}
use reco_nic.Memory.{write_loop, write_from_buffer, rw_max_size, chunk, device_memory_address_mask}
use reco_nic.Memory.Laws.{chunk-min}

abbrev Ends : ℕ → Outcome (Option ℕ) → Type 0
Ends size r = (m' : Machine) × ((r ≡ ret none m') ⊎ (r ≡ ret (some size) m'))

write_loop-Ends :
    (env : Env) (fuel size count offset : ℕ) (buf : List ℕ) (m : Machine)
    → count ≤ size
    → size - count < fuel * rw_max_size
    → Ends size (write_loop env fuel size count offset buf m)
unfolding write_loop
write_loop-Ends env zero size count offset buf m le enough = absurd (omega arith)
write_loop-Ends env (suc fuel) size count offset buf m le enough =
    let b = chunk size count in
    let rc = env.seek m.file offset in
    let m1 = record m { file = seek offset rc ∷ m.file } in
    let sent = env.file_write m1.file (take b buf) in
    let m2 = record m1 { file = file_write (take b buf) sent ∷ m1.file } in
    elim (Option-cases rc) [
      | inl failed ↦ rw failed (m1, inl refl)
      | inr (at, found) ↦ rw found (elim (Bool-cases (at == offset)) [
        | inr elsewhere ↦ rw elsewhere (m1, inl refl)
        | inl there ↦ rw there (elim (Option-cases sent) [
          | inl failed ↦ rw failed (m2, inl refl)
          | inr (n, wrote) ↦ rw wrote (elim (Bool-cases (n == b)) [
            | inr short ↦ rw short (m2, inl refl)
            | inl whole ↦ rw whole (elim (Bool-cases (ltb (count + b) size)) [
              | inl more ↦ rw more (
                  write_loop-Ends env fuel size (count + b) (offset + b) (drop b buf) m2
                    (ground arith) (ground (arith, chunk-min size count)))
              | inr last ↦
                  let e : count + b ≡ size = ground (arith, chunk-min size count) in
                  rw last (rw (e, ==-refl) (m2, inr refl))
            ])
          ])
        ])
      ])
    ]

-- Whatever the device answers to seeks and to writes, `write_from_buffer` ends: it returns -EIO or
-- the whole size, never a part of it.
pub write_from_buffer-ends :
    (env : Env) (buffer : List ℕ) (size dev_offset : ℕ) (m : Machine)
    → (m' : Machine) × ((write_from_buffer env buffer size dev_offset m ≡ ret none m')
        ⊎ (write_from_buffer env buffer size dev_offset m ≡ ret (some size) m'))
unfolding write_from_buffer
write_from_buffer-ends env buffer size dev_offset m =
    write_loop-Ends env (size / rw_max_size + 1) size 0
      (bit_and dev_offset device_memory_address_mask) buffer m (omega arith) (omega arith)
