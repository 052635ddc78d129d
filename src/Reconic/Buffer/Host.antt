-- ===== src/Reconic/Buffer/Host.antt =====
-- `allocate_rdma_buffer` of lib/reconic.c with a buffer in host memory.
use reco_nic.Prelude.{ℕ, ◌+◌, ◌^◌, ◌<◌, ◌≡◌, ◌≢◌, refl, some, false, arith, ◌==◌, u32, u64, ◌≤◌}
use reco_nic.Machine.{Machine, Env, Ptr, RnDev, RdmaBuff, ret, update, deref}
use reco_nic.Reconic.Paging.Laws.{InFrame, physical, get_buffer_paddr-frame}
use reco_nic.Reconic.Buffer.{allocate_rdma_buffer, start_offset, host_mem}
use reco_nic.Reconic.Buffer.Offsets.{
  IsPlace, start_offset_bounds, start_offset_pages, start_offset_least,
}

-- With memory for the object and a page map that names a frame for the buffer's first byte, a host
-- buffer is cut from the huge pages at the first place for it from the next free offset on. A place
-- for at most 4096 bytes lies in one page, a place for more begins at a page. The device address is
-- the physical address of the first byte, and the next free offset is the end of the buffer.
-- Nothing compares the offset with the size of the huge pages.
pub allocate_rdma_buffer-host :
    (env : Env) (m : Machine) (p : Ptr) (rn : RnDev) (base : RdmaBuff) (s bytes : ℕ)
    → env.malloc_fails m.next ≡ false
    → m.next ≢ 0
    → m.rn_devs p ≡ some rn
    → m.buffs rn.base_buf ≡ some base
    → rn.buffer_offset < 2 ^ 62
    → base.buffer < 2 ^ 62
    → s < 2 ^ 32
    → InFrame env (base.buffer + start_offset rn.buffer_offset s) bytes
    → (start : ℕ) × (rn.buffer_offset ≤ start)
      × IsPlace s start
      × ((x : ℕ) → rn.buffer_offset ≤ x → IsPlace s x → start ≤ x)
      × (allocate_rdma_buffer env p s host_mem m
          ≡ ret m.next (record m {
            next = m.next + 1;
            rn_devs = update m.rn_devs p (some (record rn { buffer_offset = start + s }));
            buffs = update m.buffs m.next (
                some (record {
                  buffer = base.buffer + start;
                  dma_addr = physical bytes (base.buffer + start);
                  buf_size = s;
                }));
          }))
unfolding allocate_rdma_buffer
allocate_rdma_buffer-host env m p rn base s bytes enough fresh at_p at_base low lowb small frame =
    let start = start_offset rn.buffer_offset s in
    let b = start_offset_bounds rn.buffer_offset s (omega arith) (omega arith) in
    let real : (m.next == 0) ≡ false = ground arith in
    let sum : u64 (base.buffer + start) ≡ base.buffer + start = omega (arith, b) in
    let end : u64 (start + s) ≡ start + s = omega (arith, b) in
    let whole : u32 s ≡ s = omega arith in
    let m1 = record m {
      next = m.next + 1;
      rn_devs = update m.rn_devs p (some (record rn { buffer_offset = start + s }));
    } in
    (
      start,
      b.0,
      start_offset_pages rn.buffer_offset s (omega arith) (omega arith),
      λ x from place.
          start_offset_least rn.buffer_offset s x (omega arith) (omega arith) from place,
      rw enough (
          rw real (
            rw (at_p, deref)
              (rw (at_base, deref)
                (rw sum (
                  rw end (
                    rw
                      (get_buffer_paddr-frame env m1 (base.buffer + start) bytes frame.page_size
                        frame.sought frame.found frame.fits)
                      (rw whole refl))))))),
    )
