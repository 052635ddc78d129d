-- ===== src/Rdma/Send.antt =====
-- lib/rdma_api.c: ringing the send doorbell and polling for completions. `int` values are kept as
-- bit patterns, and an index that passes the largest `int` wraps.
pub mod Poll
pub mod Post
pub mod Loop
pub mod Batch
pub mod Session
use reco_nic.Prelude.{
  ℕ, zero, suc, ◌+◌, Bool, Option, none, some, ltb, ◌==◌, ◌||◌, if◌then◌else◌, u32, slt32,
  minus_one,
}
use reco_nic.Machine.{
  Env, Cmd, Ptr, null, ret, exit_failure, out_of_fuel, pure, deref, set_qp, ◌>>=◌, ◌>>◌,
}
use reco_nic.Registers.{rn_rdma_qcsr_cqhead_i, rn_rdma_qcsr_sqpi_i, timeout_threshold}
use reco_nic.Control.{read32_data}
use reco_nic.Rdma.Qp.{get_rdma_per_q_config_addr, qp_pointer, write_q}
use reco_nic.Rdma.Dump.{dump_registers}

module _ (env : Env) where
  -- A read of a register of queue pair `qpid`.
  unfoldable pub read_q : (axil_ctl qpid register : ℕ) → Cmd ℕ
  unfolding read32_data
  read_q axil_ctl qpid register =
      read32_data env axil_ctl (get_rdma_per_q_config_addr register qpid)

  -- The loop of `poll_cq_cidb`, behind the read that gave `cq_cidb`; `none` is the timeout.
  unfoldable pub poll_cq_loop :
      (fuel axil_ctl qpid sq_cidb timeout_cnt cq_cidb : ℕ) → Cmd (Option ℕ)
  unfolding read_q
  poll_cq_loop zero axil_ctl qpid sq_cidb timeout_cnt cq_cidb = λ m. out_of_fuel m
  poll_cq_loop (suc fuel) axil_ctl qpid sq_cidb timeout_cnt cq_cidb =
      if cq_cidb == sq_cidb
      then (do
        next ← read_q axil_ctl qpid rn_rdma_qcsr_cqhead_i
        let rest = poll_cq_loop fuel axil_ctl qpid sq_cidb (timeout_cnt + 1) next
        if ltb timeout_threshold (timeout_cnt + 1) then pure none else rest)
      else pure (some cq_cidb)

  -- The counter leaves the loop after `timeout_threshold + 1` rounds.
  unfoldable pub poll_cq_cidb : (rdma_dev : Ptr) → (qpid sq_cidb : ℕ) → Cmd ℕ
  unfolding read_q
  poll_cq_cidb rdma_dev qpid sq_cidb = do
    d ← deref (λ m. m.rdma_devs) rdma_dev
    cq_cidb ← read_q d.axil_ctl qpid rn_rdma_qcsr_cqhead_i
    polled ← poll_cq_loop (timeout_threshold + 1) d.axil_ctl qpid sq_cidb 0 cq_cidb
    elim polled [
      | some value ↦ pure value
      | none ↦ do dump_registers env rdma_dev 1 qpid; pure minus_one
    ]

  unfoldable pub rdma_post_send : (rdma_dev : Ptr) → (qpid : ℕ) → Cmd ℕ
  rdma_post_send rdma_dev qpid = if rdma_dev == null then exit_failure else do
    d ← deref (λ m. m.rdma_devs) rdma_dev
    qp ← qp_pointer d qpid
    q ← deref (λ m. m.qps) qp
    let rung = record q { sq_pidb = u32 (q.sq_pidb + 1) }
    set_qp qp rung
    write_q d.axil_ctl qpid rn_rdma_qcsr_sqpi_i rung.sq_pidb
    cq_cidb ← poll_cq_cidb rdma_dev qpid rung.sq_cidb
    q' ← deref (λ m. m.qps) qp
    set_qp qp (record q' { cq_cidb = cq_cidb; sq_cidb = u32 (q'.sq_cidb + 1) })
    if slt32 cq_cidb 0 then pure minus_one else pure 0

  -- The loop of `rdma_post_batch_send`. It has no bound of its own.
  unfoldable pub batch_loop :
      (fuel : ℕ) → (rdma_dev : Ptr) → (qpid : ℕ) → (qp : Ptr) → Cmd (Unit {0})
  batch_loop zero rdma_dev qpid qp = λ m. out_of_fuel m
  batch_loop (suc fuel) rdma_dev qpid qp = do
    q ← deref (λ m. m.qps) qp
    let rest = batch_loop fuel rdma_dev qpid qp
    if slt32 q.cq_cidb q.sq_pidb
        then (do
          cq_cidb ← poll_cq_cidb rdma_dev qpid q.sq_cidb
          q' ← deref (λ m. m.qps) qp
          set_qp qp (record q' { cq_cidb = cq_cidb; sq_cidb = cq_cidb })
          rest)
        else pure tt

  -- `qdepth` is unsigned, so both comparisons are.
  unfoldable pub rdma_post_batch_send :
      (fuel : ℕ) → (rdma_dev : Ptr) → (qpid batch_size : ℕ) → Cmd ℕ
  rdma_post_batch_send fuel rdma_dev qpid batch_size = if rdma_dev == null then exit_failure else do
    d ← deref (λ m. m.rdma_devs) rdma_dev
    qp ← qp_pointer d qpid
    q ← deref (λ m. m.qps) qp
    let rung = record q { sq_pidb = u32 (q.sq_pidb + batch_size) }
    set_qp qp rung
    if ltb q.qdepth batch_size || ltb q.qdepth rung.sq_pidb then exit_failure else do
      write_q d.axil_ctl qpid rn_rdma_qcsr_sqpi_i rung.sq_pidb
      batch_loop fuel rdma_dev qpid qp
      q' ← deref (λ m. m.qps) qp
      if slt32 q'.cq_cidb 0 then pure minus_one else pure 0
