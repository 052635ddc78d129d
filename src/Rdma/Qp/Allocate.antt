-- ===== src/Rdma/Qp/Allocate.antt =====
-- `allocate_rdma_qp` with its queues in device memory, from the call to the registers.
use reco_nic.Prelude.{
  ℕ, ◌+◌, ◌-◌, ◌*◌, ◌^◌, ◌≤◌, ◌<◌, ◌≡◌, ◌≢◌, ◌∙◌, ◌++◌, some, ◌⊎◌, true, false, arith, ◌==◌, leb,
  u32, length, set, lt→ltb,
}
use reco_nic.Machine.{
  Machine, Env, Ptr, RnDev, RdmaDev, RdmaQp, RdmaBuff, RdmaPd, MacAddr, ret, update, deref,
}
use reco_nic.Machine.Trace.{last_write, last_write-append_outside}
use reco_nic.Reconic.Address.{device_mem_offset}
use reco_nic.Reconic.Address.Laws.{bar_window}
use reco_nic.Reconic.Buffer.{allocate_rdma_buffer, device_mem, start_offset}
use reco_nic.Reconic.Buffer.Offsets.{start_offset_bounds}
use reco_nic.Reconic.Buffer.Laws.{allocate_rdma_buffer-device, with_device_buffer}
use reco_nic.Rdma.Qp.{QpArgs, new_qp, setup_qp, allocate_rdma_qp}
use reco_nic.Rdma.Qp.Laws.{
  address_writes, control_writes, config_qp_addresses-writes, config_qp_control-writes,
  writes-WritesWithin,
}
use reco_nic.Rdma.Qp.Registers.{
  IsConfigured, IsConnected, IsQpWide, writes-IsConfigured, new_qp-IsConnected,
}

-- The device buffer at an offset of the device's memory.
abbrev pub device_buffer : (start s : ℕ) → RdmaBuff
device_buffer start s = record {
  buffer = device_mem_offset + start;
  dma_addr = device_mem_offset + start;
  buf_size = s;
}

-- Where the three queues start: each behind the one before it.
module _ (rn : RnDev) (n : ℕ) where
  abbrev pub sq_start : ℕ
  sq_start = start_offset rn.dev_buffer_offset (n * 64)

  abbrev pub cq_start : ℕ
  cq_start = start_offset (sq_start + n * 64) (n * 4)

  abbrev pub rq_start : ℕ
  rq_start = start_offset (cq_start + n * 4) (n * 512)

module _ (env : Env) (p : Ptr) (m : Machine) (d : RdmaDev) (rn : RnDev) (a : QpArgs)
    (enough_memory : (k : ℕ) → env.malloc_fails k ≡ false) (fresh : m.next ≢ 0)
    (at_p : m.rdma_devs p ≡ some d) (at_rn : m.rn_devs d.rn_dev ≡ some rn)
    (fits : rn.dev_buffer_offset + d.num_qp * a.qdepth * 580 + 12285 ≤ 2 ^ 32)
    (known : a.qpid < length d.qps_ptr) where
  abbrev n : ℕ
  n = d.num_qp * a.qdepth

  abbrev m1 : Machine
  m1 = with_device_buffer (record m { next = m.next + 1 }) d.rn_dev rn (sq_start rn n) (n * 64)

  abbrev rn1 : RnDev
  rn1 = record rn { dev_buffer_offset = sq_start rn n + n * 64 }

  abbrev m2 : Machine
  m2 = with_device_buffer m1 d.rn_dev rn1 (cq_start rn n) (n * 4)

  abbrev rn2 : RnDev
  rn2 = record rn1 { dev_buffer_offset = cq_start rn n + n * 4 }

  abbrev m3 : Machine
  m3 = with_device_buffer m2 d.rn_dev rn2 (rq_start rn n) (n * 512)

  abbrev qp : RdmaQp
  qp = new_qp p (m.next + 1) (m.next + 1 + 1) (m.next + 1 + 1 + 1) a

  abbrev m4 : Machine
  m4 = record m3 {
    qps = update m3.qps m.next (some qp);
    rdma_devs = update m3.rdma_devs p (some (record d { qps_ptr = set d.qps_ptr a.qpid m.next }));
  }

  sq_bounds : (rn.dev_buffer_offset ≤ sq_start rn n) × (sq_start rn n < rn.dev_buffer_offset + 4096)
  sq_bounds = start_offset_bounds rn.dev_buffer_offset (n * 64) (omega arith) (omega arith)

  cq_bounds :
      (sq_start rn n + n * 64 ≤ cq_start rn n) × (cq_start rn n < sq_start rn n + n * 64 + 4096)
  cq_bounds =
      start_offset_bounds (sq_start rn n + n * 64) (n * 4) (omega (arith, sq_bounds)) (omega arith)

  rq_bounds :
      (cq_start rn n + n * 4 ≤ rq_start rn n) × (rq_start rn n < cq_start rn n + n * 4 + 4096)
  rq_bounds =
      start_offset_bounds (cq_start rn n + n * 4) (n * 512) (omega (arith, sq_bounds, cq_bounds))
        (omega arith)

  allocate_sq :
      allocate_rdma_buffer env d.rn_dev (n * 64) device_mem (record m { next = m.next + 1 })
      ≡ ret (m.next + 1) m1
  allocate_sq =
      let in_memory : leb (sq_start rn n + n * 64) 4294967296 ≡ true = ground (arith, sq_bounds) in
      allocate_rdma_buffer-device env d.rn_dev enough_memory (record m { next = m.next + 1 }) rn
        (n * 64) (omega arith) at_rn (omega arith) (omega arith)
      ∙ rw in_memory

  allocate_cq : allocate_rdma_buffer env d.rn_dev (n * 4) device_mem m1 ≡ ret (m.next + 1 + 1) m2
  allocate_cq =
      let in_memory : leb (cq_start rn n + n * 4) 4294967296 ≡ true =
        ground (arith, sq_bounds, cq_bounds) in
      allocate_rdma_buffer-device env d.rn_dev enough_memory m1 rn1 (n * 4) (omega arith)
        (ground arith) (omega (arith, sq_bounds)) (omega arith)
      ∙ rw in_memory

  allocate_rq :
      allocate_rdma_buffer env d.rn_dev (n * 512) device_mem m2 ≡ ret (m.next + 1 + 1 + 1) m3
  allocate_rq =
      let in_memory : leb (rq_start rn n + n * 512) 4294967296 ≡ true =
        ground (arith, sq_bounds, cq_bounds, rq_bounds) in
      allocate_rdma_buffer-device env d.rn_dev enough_memory m2 rn2 (n * 512) (omega arith)
        (ground arith) (omega (arith, sq_bounds, cq_bounds)) (omega arith)
      ∙ rw in_memory

  setup_qp-device : setup_qp env p device_mem a m ≡ ret m.next m4
  unfolding setup_qp
  setup_qp-device =
      let real : (m.next == 0) ≡ false = ground arith in
      let sq : u32 (u32 n * 64) ≡ n * 64 = omega arith in
      let cq : u32 (u32 n * 4) ≡ n * 4 = omega arith in
      let rq : u32 (u32 n * 512) ≡ n * 512 = omega arith in
      rw (at_p, deref)
        (rw (enough_memory m.next, real)
          (rw (sq, cq, rq)
            (rw allocate_sq (rw allocate_cq (rw allocate_rq (rw (lt→ltb _ _ known)))))))

  -- The machine behind the allocation: the objects, and the registers' trace.
  abbrev pub configured : MacAddr → RdmaPd → Machine
  configured mac pd =
      let sq = device_buffer (sq_start rn n) (n * 64) in
      let cq = device_buffer (cq_start rn n) (n * 4) in
      let rq = device_buffer (rq_start rn n) (n * 512) in
      let first = address_writes d.axil_ctl bar_window qp mac sq cq rq in
      let second = control_writes d.axil_ctl bar_window qp a.partion_key pd.pd_num in
      record m4 { bus = (second ++ first) ++ m.bus }

  abbrev pub IsAllocatable : MacAddr → RdmaPd → Type 0
  IsAllocatable mac pd =
      IsQpWide a mac (device_buffer (sq_start rn n) (n * 64))
        (device_buffer (cq_start rn n) (n * 4)) (device_buffer (rq_start rn n) (n * 512)) pd.pd_num

  pub allocate_rdma_qp-run :
      (mac : MacAddr) (pd : RdmaPd)
      → d.axil_ctl ≢ 0
      → m.win_sizes d.win_size ≡ some bar_window
      → m.macs a.dst_mac ≡ some mac
      → m.pds a.pd_entry ≡ some pd
      → IsAllocatable mac pd
      → allocate_rdma_qp env p device_mem a m ≡ ret m.next (configured mac pd)
  unfolding allocate_rdma_qp new_qp
  allocate_rdma_qp-run mac pd mapped at_win at_mac at_pd wide =
      let sq = device_buffer (sq_start rn n) (n * 64) in
      let cq = device_buffer (cq_start rn n) (n * 4) in
      let rq = device_buffer (rq_start rn n) (n * 512) in
      let m5 = record m4 { bus = address_writes d.axil_ctl bar_window qp mac sq cq rq ++ m.bus } in
      let real : (d.axil_ctl == 0) ≡ false = ground arith in
      let at_qp : m4.qps m.next ≡ some qp = ground arith in
      let addresses =
        config_qp_addresses-writes d.axil_ctl bar_window qp m4 mac sq cq rq wide.numbered wide.qpid
          at_mac (ground arith) (ground arith) (ground arith) in
      let control =
        config_qp_control-writes d.axil_ctl bar_window qp m5 pd a.partion_key wide.numbered
          wide.qpid at_pd in
      rw (at_p, deref)
        (rw (at_win, deref)
          (rw setup_qp-device (rw (at_qp, deref) (rw real (rw addresses (rw control))))))

  -- `allocate_rdma_qp` with the queues in device memory, for a device whose bridge window is set,
  -- that is mapped, with room for the three queues, a number from 1 to 2^16 - 1 in reach of
  -- `qps_ptr`, a depth below 2^16, and memory for the objects: it returns; the object is at the
  -- pointer that it returns and in `qps_ptr`, with the arguments of the call, its three new queues
  -- on the card and all indices 0; the registers of this queue pair hold the connection of the
  -- arguments, the addresses of the three queues and of the arguments' doorbells, the depth and the
  -- control words; every register outside this queue pair's block keeps its last value.
  pub allocate_rdma_qp-IsConfigured :
      (mac : MacAddr) (pd : RdmaPd)
      → d.axil_ctl ≢ 0
      → m.win_sizes d.win_size ≡ some bar_window
      → m.macs a.dst_mac ≡ some mac
      → m.pds a.pd_entry ≡ some pd
      → IsQpWide a mac
          (device_buffer (sq_start rn n) (n * 64))
          (device_buffer (cq_start rn n) (n * 4))
          (device_buffer (rq_start rn n) (n * 512))
          pd.pd_num
      → (m' : Machine) × (allocate_rdma_qp env p device_mem a m ≡ ret m.next m')
        × (q : RdmaQp) × (m'.qps m.next ≡ some q)
        × IsConnected q p (m.next + 1) (m.next + 1 + 1) (m.next + 1 + 1 + 1) a
        × (m'.buffs (m.next + 1) ≡ some (device_buffer (sq_start rn n) (n * 64)))
        × (m'.buffs (m.next + 1 + 1) ≡ some (device_buffer (cq_start rn n) (n * 4)))
        × (m'.buffs (m.next + 1 + 1 + 1) ≡ some (device_buffer (rq_start rn n) (n * 512)))
        × (m'.rdma_devs p ≡ some (record d { qps_ptr = set d.qps_ptr a.qpid m.next }))
        × IsConfigured d.axil_ctl m'.bus a mac
            (device_buffer (sq_start rn n) (n * 64))
            (device_buffer (cq_start rn n) (n * 4))
            (device_buffer (rq_start rn n) (n * 512))
            pd.pd_num
        × ((r : ℕ)
            → (r < d.axil_ctl + (0x60200 + 0x100 * (a.qpid - 1)))
              ⊎ (d.axil_ctl + (0x60300 + 0x100 * (a.qpid - 1)) ≤ r)
            → last_write m'.bus r ≡ last_write m.bus r)
  unfolding allocate_rdma_qp new_qp
  allocate_rdma_qp-IsConfigured mac pd mapped at_win at_mac at_pd wide =
      let sq = device_buffer (sq_start rn n) (n * 64) in
      let cq = device_buffer (cq_start rn n) (n * 4) in
      let rq = device_buffer (rq_start rn n) (n * 512) in
      let first = address_writes d.axil_ctl bar_window qp mac sq cq rq in
      let second = control_writes d.axil_ctl bar_window qp a.partion_key pd.pd_num in
      (
        configured mac pd,
        allocate_rdma_qp-run mac pd mapped at_win at_mac at_pd wide,
        qp,
        ground arith,
        new_qp-IsConnected p (m.next + 1) (m.next + 1 + 1) (m.next + 1 + 1 + 1) a,
        ground arith,
        ground arith,
        ground arith,
        ground arith,
        writes-IsConfigured d.axil_ctl a p (m.next + 1) (m.next + 1 + 1) (m.next + 1 + 1 + 1) mac sq
            cq rq pd.pd_num m.bus wide,
        λ r out.
            last_write-append_outside (d.axil_ctl + (0x60200 + 0x100 * (a.qpid - 1)))
              (d.axil_ctl + (0x60300 + 0x100 * (a.qpid - 1))) r (second ++ first) m.bus
              (writes-WritesWithin d.axil_ctl bar_window qp mac sq cq rq a.partion_key pd.pd_num)
              out,
      )
