-- ===== src/Rdma/Destroy.antt =====
-- lib/rdma_api.c: recovery of a queue pair from a fatal state, and the destruction of queue pairs
-- and devices. Where C leaves the order of two reads in one expression open, the left one is first.
pub mod Waits
pub mod Recovery
pub mod Disable
pub mod Laws
pub mod Fresh
use reco_nic.Prelude.{
  ℕ, zero, suc, ◌+◌, ◌-◌, ◌^◌, Bool, Option, none, some, List, [], ◌∷◌, bit_and, bit_or, not, ltb,
  ◌==◌, ◌&&◌, if◌then◌else◌, u32, shr, get_elem?,
}
use reco_nic.Machine.{
  Machine, Env, Cmd, Ptr, null, ret, exit_failure, out_of_fuel, pure, when, deref, modify, update,
  ◌>>=◌, ◌>>◌,
}
use reco_nic.Registers.{
  rn_rdma_gcsr_xrnicadconf, rn_rdma_gcsr_xrnicconf, rn_rdma_qcsr_statqp_i, rn_rdma_qcsr_cqhead_i,
  rn_rdma_qcsr_sqpi_i, rn_rdma_qcsr_qpconf_i, rn_rdma_qcsr_rqwptrdbadd_i, rn_rdma_qcsr_rqci_i,
  rn_rdma_qcsr_statrqpidb_i, rn_rdma_qcsr_statcursqptr_i, rn_rdma_qcsr_sqpsn_i,
  rn_rdma_qcsr_lstrqreq_i, rn_rdma_qcsr_statmsn_i,
}
use reco_nic.Control.{read32_data, write32_data}
use reco_nic.Rdma.Pd.{destroy_rdma_pd_entry}
use reco_nic.Rdma.Qp.{qp_pointer, write_q}
use reco_nic.Rdma.Send.{read_q}

-- `free` of a buffer's object; what is not allocated cannot be freed.
abbrev pub free_buff : Ptr → Cmd (Unit {0})
free_buff p =
    if p == null
    then pure tt
    else do old ← deref (λ m. m.buffs) p; modify (λ m. record m { buffs = update m.buffs p none })

abbrev pub free_glb_csr : Ptr → Cmd (Unit {0})
free_glb_csr p = if p == null then pure tt else do
  old ← deref (λ m. m.glb_csrs) p
  modify (λ m. record m { glb_csrs = update m.glb_csrs p none })

-- The number of rounds after which the heads must agree.
abbrev pub heads_threshold : ℕ
heads_threshold = 100000

-- The nine registers that `destroy_rdma_qp` resets.
unfoldable pub reset_registers : (axil_ctl qpid : ℕ) → Cmd (Unit {0})
reset_registers axil_ctl qpid = do
  write_q axil_ctl qpid rn_rdma_qcsr_rqwptrdbadd_i 0
  write_q axil_ctl qpid rn_rdma_qcsr_sqpi_i 0
  write_q axil_ctl qpid rn_rdma_qcsr_cqhead_i 0
  write_q axil_ctl qpid rn_rdma_qcsr_rqci_i 0
  write_q axil_ctl qpid rn_rdma_qcsr_statrqpidb_i 0
  write_q axil_ctl qpid rn_rdma_qcsr_statcursqptr_i 0
  write_q axil_ctl qpid rn_rdma_qcsr_sqpsn_i 0
  write_q axil_ctl qpid rn_rdma_qcsr_lstrqreq_i 0
  write_q axil_ctl qpid rn_rdma_qcsr_statmsn_i 0

-- The test of `destroy_rdma_qp` on the status register.
unfoldable pub fatal_status : (rt_value : ℕ) → Bool
fatal_status rt_value =
    not ((bit_and rt_value 0x000000ff == 0) && (bit_and (shr rt_value 9) 0x00000003 == 0x3))

module _ (env : Env) where
  -- The wait for the send queue to be empty. It has no bound of its own.
  unfoldable pub wait_empty : (fuel axil_ctl qpid : ℕ) → Cmd (Unit {0})
  unfolding read_q
  wait_empty zero axil_ctl qpid = λ m. out_of_fuel m
  wait_empty (suc fuel) axil_ctl qpid = do
    rt_value ← read_q env axil_ctl qpid rn_rdma_qcsr_statqp_i
    let rest = wait_empty fuel axil_ctl qpid
    if bit_and (shr rt_value 9) 0x3 == 0 then rest else pure tt

  -- The wait for the two heads to agree, behind `timeout_cnt` rounds. The two reads in front of the
  -- exit are those of the message.
  unfoldable pub wait_heads : (fuel axil_ctl qpid timeout_cnt : ℕ) → Cmd (Unit {0})
  unfolding read_q
  wait_heads zero axil_ctl qpid timeout_cnt = λ m. out_of_fuel m
  wait_heads (suc fuel) axil_ctl qpid timeout_cnt = do
    cq_head ← read_q env axil_ctl qpid rn_rdma_qcsr_cqhead_i
    sq_pi ← read_q env axil_ctl qpid rn_rdma_qcsr_sqpi_i
    let rest = wait_heads fuel axil_ctl qpid (timeout_cnt + 1)
    if cq_head == sq_pi
        then pure tt
        else if ltb heads_threshold (timeout_cnt + 1)
        then (do
          a ← read_q env axil_ctl qpid rn_rdma_qcsr_cqhead_i
          b ← read_q env axil_ctl qpid rn_rdma_qcsr_sqpi_i
          exit_failure)
        else rest

  unfoldable pub rdma_qp_fatal_recovery :
      (fuel : ℕ) → (rdma_dev : Ptr) → (qpid : ℕ) → Cmd (Unit {0})
  unfolding read_q write_q
  rdma_qp_fatal_recovery fuel rdma_dev qpid = do
    d ← deref (λ m. m.rdma_devs) rdma_dev
    wait_empty fuel d.axil_ctl qpid
    wait_heads (heads_threshold + 1) d.axil_ctl qpid 0
    v ← read_q env d.axil_ctl qpid rn_rdma_qcsr_qpconf_i
    write_q d.axil_ctl qpid rn_rdma_qcsr_qpconf_i (bit_and v 0xfffffffe)
    v ← read_q env d.axil_ctl qpid rn_rdma_qcsr_qpconf_i
    write_q d.axil_ctl qpid rn_rdma_qcsr_qpconf_i (bit_or v 0x40)
    v ← read_q env d.axil_ctl qpid rn_rdma_qcsr_qpconf_i
    pure tt

  -- The registers' part of the destruction, from the override on.
  unfoldable pub disable_qp : (axil_ctl qpid : ℕ) → Cmd (Unit {0})
  unfolding read_q write_q reset_registers read32_data write32_data
  disable_qp axil_ctl qpid = do
    v ← read32_data env axil_ctl rn_rdma_gcsr_xrnicadconf
    write32_data axil_ctl rn_rdma_gcsr_xrnicadconf (bit_or v 0x1)
    v ← read_q env axil_ctl qpid rn_rdma_qcsr_qpconf_i
    write_q axil_ctl qpid rn_rdma_qcsr_qpconf_i (bit_and v 0xfffffffe)
    reset_registers axil_ctl qpid
    v ← read_q env axil_ctl qpid rn_rdma_qcsr_qpconf_i
    test ← read_q env axil_ctl qpid rn_rdma_qcsr_cqhead_i
    write_q axil_ctl qpid rn_rdma_qcsr_qpconf_i (bit_or v 0x40)
    test ← read_q env axil_ctl qpid rn_rdma_qcsr_cqhead_i
    v ← read32_data env axil_ctl rn_rdma_gcsr_xrnicadconf
    write32_data axil_ctl rn_rdma_gcsr_xrnicadconf (bit_and v 0xfffffffe)
    test ← read_q env axil_ctl qpid rn_rdma_qcsr_cqhead_i
    pure tt

  -- The checks that come first: a queue pair in fatal status or with work left is recovered.
  unfoldable pub check_qp : (fuel axil_ctl : ℕ) → (rdma_dev : Ptr) → (qpid : ℕ) → Cmd (Unit {0})
  unfolding read_q
  check_qp fuel axil_ctl rdma_dev qpid = do
    status ← read_q env axil_ctl qpid rn_rdma_qcsr_statqp_i
    when (fatal_status status) (rdma_qp_fatal_recovery fuel rdma_dev qpid)
    cq_head ← read_q env axil_ctl qpid rn_rdma_qcsr_cqhead_i
    sq_pi ← read_q env axil_ctl qpid rn_rdma_qcsr_sqpi_i
    when (not (cq_head == sq_pi)) (rdma_qp_fatal_recovery fuel rdma_dev qpid)

  unfoldable pub destroy_rdma_qp : (fuel : ℕ) → (qp : Ptr) → Cmd ℕ
  destroy_rdma_qp fuel qp = if qp == null then pure 0 else do
    q ← deref (λ m. m.qps) qp
    d ← deref (λ m. m.rdma_devs) q.rdma_dev
    check_qp fuel d.axil_ctl q.rdma_dev q.qpid
    disable_qp d.axil_ctl q.qpid
    free_buff q.sq
    free_buff q.rq
    free_buff q.cq
    destroy_rdma_pd_entry q.pd_entry
    pure 0

  -- The loop of `destroy_rdma_dev` from queue pair `i` on, with `left` rounds to go.
  unfoldable pub destroy_qps : (fuel left i : ℕ) → (rdma_dev : Ptr) → Cmd (Unit {0})
  destroy_qps fuel zero i rdma_dev = pure tt
  destroy_qps fuel (suc left) i rdma_dev = do
    d ← deref (λ m. m.rdma_devs) rdma_dev
    qp ← qp_pointer d i
    rc ← destroy_rdma_qp fuel qp
    destroy_qps fuel left (i + 1) rdma_dev

  unfoldable pub destroy_rdma_dev : (fuel : ℕ) → (rdma_dev : Ptr) → Cmd ℕ
  unfolding write32_data
  destroy_rdma_dev fuel rdma_dev = if rdma_dev == null then pure 0 else do
    d ← deref (λ m. m.rdma_devs) rdma_dev
    free_glb_csr d.glb_csr
    destroy_qps fuel d.num_qp 0 rdma_dev
    write32_data d.axil_ctl rn_rdma_gcsr_xrnicconf 0
    pure 0

  unfoldable pub destroy_rn_dev : (fuel : ℕ) → (rn_dev : Ptr) → Cmd ℕ
  destroy_rn_dev fuel rn_dev = if rn_dev == null then pure 0 else do
    rn ← deref (λ m. m.rn_devs) rn_dev
    free_buff rn.base_buf
    destroy_rdma_dev fuel rn.rdma_dev
