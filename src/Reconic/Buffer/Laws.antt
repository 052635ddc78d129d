-- ===== src/Reconic/Buffer/Laws.antt =====
-- What `allocate_rdma_buffer` does, and what a row of its calls does.
use reco_nic.Prelude.{
  ℕ, ◌+◌, ◌%◌, ◌^◌, ◌≤◌, ◌<◌, ◌≡◌, ◌≢◌, refl, ◌⊎◌, inl, inr, List, [], ◌∷◌, false, Bool-cases,
  leb→le, Option, some, arith, bit_or, ◌==◌, leb, if◌then◌else◌, u32, u64,
}
use reco_nic.Bits.{field_or}
use reco_nic.Machine.{
  Machine, Env, Cmd, Ptr, null, RnDev, RdmaBuff, Outcome, pure, ret, exit_failure, abort, fault,
  out_of_fuel, update, ◌>>=◌, and_then,
}
use reco_nic.Reconic.Address.{device_mem_offset}
use reco_nic.Reconic.Buffer.{allocate_rdma_buffer, start_offset, device_mem}
use reco_nic.Reconic.Buffer.Offsets.{start_offset_bounds, start_offset_pages}

-- `|` with the device tag adds it.
or_tag : (o : ℕ) → o < 2 ^ 52 → bit_or o device_mem_offset ≡ device_mem_offset + o
or_tag o h = field_or 52 0xa35 o h

-- The machine after a device buffer of `s` bytes has been put at `start`.
abbrev pub with_device_buffer : Machine → Ptr → RnDev → (start s : ℕ) → Machine
with_device_buffer m p rn start s = record m {
  next = m.next + 1;
  rn_devs = update m.rn_devs p (some (record rn { dev_buffer_offset = start + s }));
  buffs = update m.buffs m.next (
      some (record {
        buffer = device_mem_offset + start;
        dma_addr = device_mem_offset + start;
        buf_size = s;
      }));
}

abbrev pub Sized : List ℕ → Type 0
Sized [] = Unit
Sized (s ∷ sizes) = (s < 2 ^ 32) × Sized sizes

-- Buffers of these sizes stand in the device's memory in the order of the list, none before the
-- offset `lo`, each behind the one before it, within the 4 GB, and not across a 4 KB page unless
-- they start at one.
abbrev pub Placed : (Ptr → Option RdmaBuff) → ℕ → List ℕ → List Ptr → Type 0
Placed buffs lo [] [] = Unit
Placed buffs lo [] (q ∷ qs) = ⊥
Placed buffs lo (s ∷ sizes) [] = ⊥
Placed buffs lo (s ∷ sizes) (q ∷ qs) =
    (start : ℕ) × (lo ≤ start)
    × (start + s ≤ 4294967296)
    × ((start % 4096 + s ≤ 4096) ⊎ (start % 4096 ≡ 0))
    × (buffs q
        ≡ some (record {
          buffer = device_mem_offset + start;
          dma_addr = device_mem_offset + start;
          buf_size = s;
        }))
    × Placed buffs (start + s) sizes qs

-- Room that is enough for the buffers and the gaps between them.
abbrev pub room : List ℕ → ℕ
room [] = 0
room (s ∷ sizes) = s + 4095 + room sizes

-- How a row of allocations ends: with the buffers in place and older ones untouched, or in the
-- `assert`, and that only if the memory is short. It never exits, faults or hangs.
abbrev pub InRow : ℕ → ℕ → Machine → List ℕ → Outcome (List Ptr) → Type 0
InRow next lo m sizes (ret qs m') =
    Placed m'.buffs lo sizes qs × ((q : Ptr) → q < next → m'.buffs q ≡ m.buffs q)
InRow next lo m sizes (exit_failure m') = ⊥
InRow next lo m sizes (abort m') = 4294967296 < lo + room sizes
InRow next lo m sizes fault = ⊥
InRow next lo m sizes (out_of_fuel m') = ⊥

InRow-cons :
    (m : Machine) (p : Ptr) (rn : RnDev) (s : ℕ) (sizes : List ℕ) (start : ℕ)
    (r : Outcome (List Ptr))
    → rn.dev_buffer_offset ≤ start
    → start < rn.dev_buffer_offset + 4096
    → start + s ≤ 4294967296
    → (start % 4096 + s ≤ 4096) ⊎ (start % 4096 ≡ 0)
    → InRow (m.next + 1) (start + s) (with_device_buffer m p rn start s) sizes r
    → InRow m.next rn.dev_buffer_offset m (s ∷ sizes) (and_then r (λ qs. pure (m.next ∷ qs)))
InRow-cons m p rn s sizes start (ret qs m') lo hi fits page (placed, same) =
    ((start, lo, fits, page, ground (arith, same m.next), placed), λ q h. ground (arith, same q))
InRow-cons m p rn s sizes start (exit_failure m') lo hi fits page row = row
InRow-cons m p rn s sizes start (abort m') lo hi fits page row = omega arith
InRow-cons m p rn s sizes start fault lo hi fits page row = row
InRow-cons m p rn s sizes start (out_of_fuel m') lo hi fits page row = row

module _ (env : Env) (p : Ptr) where
  -- The calls of a program that wants device buffers of the sizes `sizes`.
  unfoldable pub allocate_device_buffers : List ℕ → Cmd (List Ptr)
  allocate_device_buffers [] = pure []
  allocate_device_buffers (s ∷ sizes) = do
    q ← allocate_rdma_buffer env p s device_mem
    qs ← allocate_device_buffers sizes
    pure (q ∷ qs)

module _ (env : Env) (p : Ptr) (enough_memory : (n : ℕ) → env.malloc_fails n ≡ false) where
  -- Device memory: the buffer is put at the offset that `start_offset` gives, unless that passes the
  -- end of the memory, where the `assert` stops the program.
  pub allocate_rdma_buffer-device :
      (m : Machine) (rn : RnDev) (s : ℕ)
      → m.next ≢ 0
      → m.rn_devs p ≡ some rn
      → rn.dev_buffer_offset ≤ 2 ^ 32
      → s < 2 ^ 32
      → let start = start_offset rn.dev_buffer_offset s in
        let m' = with_device_buffer m p rn start s in
        allocate_rdma_buffer env p s device_mem m
        ≡ (if leb (start + s) 4294967296 then ret m.next m' else abort m')
  unfolding allocate_rdma_buffer
  allocate_rdma_buffer-device m rn s fresh at_p low small =
      let b = start_offset_bounds rn.dev_buffer_offset s (omega arith) (omega arith) in
      let start = start_offset rn.dev_buffer_offset s in
      let no_null : (m.next == null) ≡ false = ground arith in
      let tag = or_tag start (omega (arith, b)) in
      let no_wrap : u64 (start + s) ≡ start + s = omega (arith, b) in
      let whole : u32 s ≡ s = omega arith in
      rw (enough_memory m.next, no_null, at_p, tag, no_wrap, whole)
        (elim (Bool-cases (leb (start + s) 4294967296)) [ inl e ↦ rw e | inr e ↦ rw e ])

  device_buffers_from :
      (sizes : List ℕ) (m : Machine) (rn : RnDev)
      → m.next ≢ 0
      → m.rn_devs p ≡ some rn
      → rn.dev_buffer_offset ≤ 2 ^ 32
      → Sized sizes
      → InRow m.next rn.dev_buffer_offset m sizes (allocate_device_buffers env p sizes m)
  unfolding allocate_device_buffers
  device_buffers_from [] m rn fresh at_p low small = (tt, λ q h. refl)
  device_buffers_from (s ∷ sizes) m rn fresh at_p low small =
      let o = rn.dev_buffer_offset in
      let start = start_offset o s in
      let m' = with_device_buffer m p rn start s in
      let b = start_offset_bounds o s (omega arith) (omega arith) in
      let page : (start % 4096 + s ≤ 4096) ⊎ (start % 4096 ≡ 0) =
        ground (arith, start_offset_pages o s (omega arith) (omega arith)) in
      rw (allocate_rdma_buffer-device m rn s fresh at_p low small.0)
        (elim (Bool-cases (leb (start + s) 4294967296)) [
          | inl e ↦ rw e (
              InRow-cons m p rn s sizes start _ b.0 b.1 (leb→le _ _ e) page (
                device_buffers_from sizes m' (record rn { dev_buffer_offset = start + s })
                  (omega arith) (ground arith) (omega (arith, leb→le _ _ e)) small.1))
          | inr e ↦ rw e (ground arith)
        ])

-- Device buffers that are allocated one after the other, from a device with no more than 4 GB in
-- use, where `malloc` does not fail: either all are in place, disjoint, in the order of the calls,
-- inside the memory and fit for transfers by pages, and no older buffer object has changed, or the
-- `assert` on the memory's size ends the program, which it does only if the sizes and the gaps
-- between the buffers need more than the memory has.
pub allocate_device_buffers-InRow :
    (env : Env) (p : Ptr) (sizes : List ℕ) (m : Machine) (rn : RnDev)
    → ((n : ℕ) → env.malloc_fails n ≡ false)
    → m.next ≢ 0
    → m.rn_devs p ≡ some rn
    → rn.dev_buffer_offset ≤ 2 ^ 32
    → Sized sizes
    → InRow m.next rn.dev_buffer_offset m sizes (allocate_device_buffers env p sizes m)
allocate_device_buffers-InRow env p sizes m rn enough fresh at_p low small =
    device_buffers_from env p enough sizes m rn fresh at_p low small
