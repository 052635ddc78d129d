-- ===== src/Rdma/Receive.antt =====
-- lib/rdma_api.c: waiting for a receive queue element, and giving it back.
pub mod Laws
use reco_nic.Prelude.{
  ℕ, zero, suc, ◌+◌, ◌-◌, ◌*◌, ◌^◌, ◌==◌, if◌then◌else◌, u32, u64, slt32, minus_one,
}
use reco_nic.Machine.{
  Env, Cmd, Ptr, null, exit_failure, out_of_fuel, pure, when, deref, set_qp, ◌>>=◌, ◌>>◌,
}
use reco_nic.Registers.{rn_rdma_qcsr_statrqpidb_i, rn_rdma_qcsr_rqci_i}
use reco_nic.Rdma.Qp.{qp_pointer, write_q, rqe_size}
use reco_nic.Rdma.Dump.{dump_registers}
use reco_nic.Rdma.Send.{read_q}

-- The conversion of an `int` to `uint64_t`, which extends the sign.
abbrev pub sign_extend : ℕ → ℕ
sign_extend x = if slt32 x 0 then x + (2 ^ 64 - 2 ^ 32) else x

-- The address of receive queue element `rq_pidb`, counted from 1; index 0 is the last element.
unfoldable pub rqe_pointer : (buffer qdepth rq_pidb : ℕ) → ℕ
rqe_pointer buffer qdepth rq_pidb =
    if rq_pidb == 0
    then u64 (buffer + u32 (u32 (qdepth + 2 ^ 32 - 1) * rqe_size))
    else u64 (buffer + sign_extend (u32 (u32 (rq_pidb + 2 ^ 32 - 1) * rqe_size)))

unfoldable pub write_rq_cidb : (rdma_dev qp : Ptr) → (db_val : ℕ) → Cmd (Unit {0})
write_rq_cidb rdma_dev qp db_val = do
  q ← deref (λ m. m.qps) qp
  set_qp qp (record q { rq_cidb = db_val })
  d ← deref (λ m. m.rdma_devs) rdma_dev
  write_q d.axil_ctl q.qpid rn_rdma_qcsr_rqci_i db_val

module _ (env : Env) where
  -- The loop of `poll_rq_pidb`, with the index that it waits to see changed. It has no bound.
  unfoldable pub poll_rq_loop : (fuel axil_ctl qpid old rq_pidb : ℕ) → Cmd ℕ
  unfolding read_q
  poll_rq_loop zero axil_ctl qpid old rq_pidb = λ m. out_of_fuel m
  poll_rq_loop (suc fuel) axil_ctl qpid old rq_pidb =
      if rq_pidb == old
      then (do
        next ← read_q env axil_ctl qpid rn_rdma_qcsr_statrqpidb_i
        poll_rq_loop fuel axil_ctl qpid old next)
      else pure rq_pidb

  unfoldable pub poll_rq_pidb : (fuel : ℕ) → (rdma_dev : Ptr) → (qpid : ℕ) → Cmd ℕ
  unfolding read_q
  poll_rq_pidb fuel rdma_dev qpid = do
    d ← deref (λ m. m.rdma_devs) rdma_dev
    qp ← qp_pointer d qpid
    rq_pidb ← read_q env d.axil_ctl qpid rn_rdma_qcsr_statrqpidb_i
    when env.debug_env (dump_registers env rdma_dev 0 qpid)
    q ← deref (λ m. m.qps) qp
    value ← poll_rq_loop fuel d.axil_ctl qpid q.rq_pidb rq_pidb
    set_qp qp (record q { rq_pidb = value })
    pure value

  -- The address of the element that was received.
  unfoldable pub rdma_post_receive : (fuel : ℕ) → (rdma_dev qp : Ptr) → Cmd ℕ
  rdma_post_receive fuel rdma_dev qp =
      if rdma_dev == null then pure null else if qp == null then pure null else do
        q ← deref (λ m. m.qps) qp
        rq_pidb ← poll_rq_pidb fuel rdma_dev q.qpid
        if rq_pidb == minus_one then exit_failure else do
          q' ← deref (λ m. m.qps) qp
          rq ← deref (λ m. m.buffs) q'.rq
          pure (rqe_pointer rq.buffer q'.qdepth rq_pidb)

  unfoldable pub rdma_release_rq_consumed : (rdma_dev qp : Ptr) → Cmd ℕ
  rdma_release_rq_consumed rdma_dev qp = do
    q ← deref (λ m. m.qps) qp
    d ← deref (λ m. m.rdma_devs) rdma_dev
    rq_pidb ← read_q env d.axil_ctl q.qpid rn_rdma_qcsr_statrqpidb_i
    write_rq_cidb rdma_dev qp q.rq_pidb
    if rq_pidb == q.rq_pidb then pure 0 else pure 1
