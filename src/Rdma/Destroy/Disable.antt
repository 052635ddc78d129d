-- ===== src/Rdma/Destroy/Disable.antt =====
-- lib/rdma_api.c, `destroy_rdma_qp`: the registers of a queue pair that is taken out of service.
use reco_nic.Prelude.{
  ℕ, ◌+◌, ◌^◌, ◌≤◌, ◌<◌, ◌≡◌, refl, List, ◌∷◌, some, true, false, arith, bit_and, bit_or, ◌==◌, u32,
}
use reco_nic.Machine.{Machine, Env, Ptr, Access, read, write, ret}
use reco_nic.Machine.Trace.{last_write, accesses_at}
use reco_nic.Registers.{
  rn_rdma_gcsr_xrnicadconf, rn_rdma_qcsr_statqp_i, rn_rdma_qcsr_cqhead_i, rn_rdma_qcsr_sqpi_i,
  rn_rdma_qcsr_qpconf_i, rn_rdma_qcsr_rqwptrdbadd_i, rn_rdma_qcsr_rqci_i, rn_rdma_qcsr_statrqpidb_i,
  rn_rdma_qcsr_statcursqptr_i, rn_rdma_qcsr_sqpsn_i, rn_rdma_qcsr_lstrqreq_i,
  rn_rdma_qcsr_statmsn_i,
}
use reco_nic.Control.{read32_data, write32_data}
use reco_nic.Rdma.Qp.{get_rdma_per_q_config_addr, write_q}
use reco_nic.Rdma.Send.{read_q}
use reco_nic.Rdma.Destroy.{fatal_status, check_qp, reset_registers, disable_qp}

-- A register of queue pair `qpid` on the bus.
abbrev pub at_q : (axil_ctl qpid r : ℕ) → ℕ
at_q axil_ctl qpid r = axil_ctl + get_rdma_per_q_config_addr r qpid

-- The queue pair has been taken out of service. Its indices, counters and doorbell address are 0.
-- The last four accesses to its configuration register clear bit 0 of the word read, which enables
-- it, and set bit 6 of the next word read, which marks it as under recovery. The last four to the
-- engine's advanced configuration set bit 0, the software override, and clear it again.
pub record IsDisabled (t : List Access) (axil_ctl qpid : ℕ) : Type 0 where
  pub rqwptrdbadd : last_write t (at_q axil_ctl qpid rn_rdma_qcsr_rqwptrdbadd_i) ≡ some 0
  pub sqpi : last_write t (at_q axil_ctl qpid rn_rdma_qcsr_sqpi_i) ≡ some 0
  pub cqhead : last_write t (at_q axil_ctl qpid rn_rdma_qcsr_cqhead_i) ≡ some 0
  pub rqci : last_write t (at_q axil_ctl qpid rn_rdma_qcsr_rqci_i) ≡ some 0
  pub statrqpidb : last_write t (at_q axil_ctl qpid rn_rdma_qcsr_statrqpidb_i) ≡ some 0
  pub statcursqptr : last_write t (at_q axil_ctl qpid rn_rdma_qcsr_statcursqptr_i) ≡ some 0
  pub sqpsn : last_write t (at_q axil_ctl qpid rn_rdma_qcsr_sqpsn_i) ≡ some 0
  pub lstrqreq : last_write t (at_q axil_ctl qpid rn_rdma_qcsr_lstrqreq_i) ≡ some 0
  pub statmsn : last_write t (at_q axil_ctl qpid rn_rdma_qcsr_statmsn_i) ≡ some 0
  pub qpconf :
      (v w : ℕ) × (earlier : List Access) × (accesses_at
          (at_q axil_ctl qpid rn_rdma_qcsr_qpconf_i)
          t
        ≡ write (at_q axil_ctl qpid rn_rdma_qcsr_qpconf_i) (u32 (bit_or w 0x40))
          ∷ read (at_q axil_ctl qpid rn_rdma_qcsr_qpconf_i) w
          ∷ write (at_q axil_ctl qpid rn_rdma_qcsr_qpconf_i) (u32 (bit_and v 0xfffffffe))
          ∷ read (at_q axil_ctl qpid rn_rdma_qcsr_qpconf_i) v
          ∷ earlier)
  pub xrnicadconf :
      (v w : ℕ) × (earlier : List Access) × (accesses_at (axil_ctl + rn_rdma_gcsr_xrnicadconf) t
        ≡ write (axil_ctl + rn_rdma_gcsr_xrnicadconf) (u32 (bit_and w 0xfffffffe))
          ∷ read (axil_ctl + rn_rdma_gcsr_xrnicadconf) w
          ∷ write (axil_ctl + rn_rdma_gcsr_xrnicadconf) (u32 (bit_or v 0x1))
          ∷ read (axil_ctl + rn_rdma_gcsr_xrnicadconf) v
          ∷ earlier)

module _ (env : Env) (axil_ctl qpid : ℕ) where
  -- The trace with one more read of `a`.
  abbrev pub then_read : ℕ → List Access → List Access
  then_read a t = read a (u32 (env.hardware t a)) ∷ t

  abbrev pub conf : ℕ
  conf = at_q axil_ctl qpid rn_rdma_qcsr_qpconf_i

  abbrev pub adconf : ℕ
  adconf = axil_ctl + rn_rdma_gcsr_xrnicadconf

  abbrev pub head : ℕ
  head = at_q axil_ctl qpid rn_rdma_qcsr_cqhead_i

  -- The trace behind `disable_qp`, from its start to the reset, and from there on.
  abbrev pub overridden : List Access → List Access
  overridden t = write adconf (u32 (bit_or (u32 (env.hardware t adconf)) 0x1)) ∷ then_read adconf t

  abbrev pub override : List Access → List Access
  override t =
      let t1 = overridden t in
      let v2 = u32 (env.hardware t1 conf) in
      write conf (u32 (bit_and v2 0xfffffffe)) ∷ then_read conf t1

  abbrev pub reset : List Access → List Access
  reset t =
      write (at_q axil_ctl qpid rn_rdma_qcsr_statmsn_i) 0
      ∷ write (at_q axil_ctl qpid rn_rdma_qcsr_lstrqreq_i) 0
      ∷ write (at_q axil_ctl qpid rn_rdma_qcsr_sqpsn_i) 0
      ∷ write (at_q axil_ctl qpid rn_rdma_qcsr_statcursqptr_i) 0
      ∷ write (at_q axil_ctl qpid rn_rdma_qcsr_statrqpidb_i) 0
      ∷ write (at_q axil_ctl qpid rn_rdma_qcsr_rqci_i) 0
      ∷ write (at_q axil_ctl qpid rn_rdma_qcsr_cqhead_i) 0
      ∷ write (at_q axil_ctl qpid rn_rdma_qcsr_sqpi_i) 0
      ∷ write (at_q axil_ctl qpid rn_rdma_qcsr_rqwptrdbadd_i) 0
      ∷ t

  abbrev pub marked : List Access → List Access
  marked t =
      let v3 = u32 (env.hardware t conf) in
      then_read head (write conf (u32 (bit_or v3 0x40)) ∷ then_read head (then_read conf t))

  abbrev pub recover : List Access → List Access
  recover t =
      let t1 = marked t in
      let v4 = u32 (env.hardware t1 adconf) in
      then_read head (write adconf (u32 (bit_and v4 0xfffffffe)) ∷ then_read adconf t1)

  abbrev pub disabled : List Access → List Access
  disabled t = recover (reset (override t))

  pub disable_qp-disabled :
      (m : Machine) → disable_qp env axil_ctl qpid m ≡ ret tt (record m { bus = disabled m.bus })
  unfolding disable_qp read_q write_q reset_registers read32_data write32_data
  disable_qp-disabled m = refl

  pub disabled-IsDisabled :
      (t : List Access) → 1 ≤ qpid → qpid < 2 ^ 16 → IsDisabled (disabled t) axil_ctl qpid
  unfolding get_rdma_per_q_config_addr
  disabled-IsDisabled t low high = record {
    rqwptrdbadd = ground arith;
    sqpi = ground arith;
    cqhead = ground arith;
    rqci = ground arith;
    statrqpidb = ground arith;
    statcursqptr = ground arith;
    sqpsn = ground arith;
    lstrqreq = ground arith;
    statmsn = ground arith;
    qpconf = (
      u32 (env.hardware (overridden t) conf),
      u32 (env.hardware (reset (override t)) conf),
      accesses_at conf t,
      ground arith,
    );
    xrnicadconf = (
      u32 (env.hardware t adconf),
      u32 (env.hardware (marked (reset (override t))) adconf),
      accesses_at adconf t,
      ground arith,
    );
  }

  -- The trace behind the three reads that decide whether a recovery is needed.
  abbrev pub checked : List Access → List Access
  checked t =
      then_read (at_q axil_ctl qpid rn_rdma_qcsr_sqpi_i)
        (then_read head (then_read (at_q axil_ctl qpid rn_rdma_qcsr_statqp_i) t))

  -- The card says that the queue pair is idle: no fatal status, empty queues, and equal heads.
  pub record IsIdle (t : List Access) : Type 0 where
    pub status :
        fatal_status (u32 (env.hardware t (at_q axil_ctl qpid rn_rdma_qcsr_statqp_i))) ≡ false
    pub heads :
        (u32 (env.hardware (then_read (at_q axil_ctl qpid rn_rdma_qcsr_statqp_i) t) head)
          == u32 (
              env.hardware
                (then_read head (then_read (at_q axil_ctl qpid rn_rdma_qcsr_statqp_i) t))
                (at_q axil_ctl qpid rn_rdma_qcsr_sqpi_i)))
        ≡ true

  pub check_qp-idle :
      (fuel : ℕ) (rdma_dev : Ptr) (m : Machine)
      → IsIdle m.bus
      → check_qp env fuel axil_ctl rdma_dev qpid m ≡ ret tt (record m { bus = checked m.bus })
  unfolding check_qp read_q read32_data
  check_qp-idle fuel rdma_dev m idle = rw idle.status (rw idle.heads refl)
