-- ===== src/Rdma/Receive/Laws.antt =====
-- lib/rdma_api.c: the receive side gives pointers into the queue, and moves its doorbell.
use reco_nic.Prelude.{
  ℕ, zero, suc, ◌+◌, ◌*◌, ◌^◌, ◌≤◌, ◌<◌, ◌≡◌, ◌≢◌, refl, ap, ◌∙◌, ◌∷◌, some, ◌⊎◌, inl, inr, false,
  Bool-cases, arith, ◌==◌, if◌then◌else◌, u32, minus_one,
}
use reco_nic.Machine.{Machine, Env, Ptr, RdmaDev, RdmaQp, RdmaBuff, read, write, ret, update, deref}
use reco_nic.Machine.Trace.{last_write}
use reco_nic.Machine.Poll.{after_reads, nth_read}
use reco_nic.Registers.{rn_rdma_qcsr_statrqpidb_i, rn_rdma_qcsr_rqci_i}
use reco_nic.Control.{write32_data}
use reco_nic.Rdma.Qp.{get_rdma_per_q_config_addr, qp_pointer, write_q, rqe_size}
use reco_nic.Rdma.Send.{read_q}
use reco_nic.Rdma.Send.Post.{HasQp, update_self}
use reco_nic.Rdma.Receive.{
  poll_rq_loop, poll_rq_pidb, rqe_pointer, rdma_post_receive, write_rq_cidb,
  rdma_release_rq_consumed,
}

-- Where the producer index of the receive queue is read, and where its consumer index is written.
abbrev pub producer : (axil_ctl qpid : ℕ) → ℕ
producer axil_ctl qpid = axil_ctl + get_rdma_per_q_config_addr rn_rdma_qcsr_statrqpidb_i qpid

abbrev pub consumer : (axil_ctl qpid : ℕ) → ℕ
consumer axil_ctl qpid = axil_ctl + get_rdma_per_q_config_addr rn_rdma_qcsr_rqci_i qpid

-- An index that the card can show for a queue of depth `qdepth` gives an element of the queue: the
-- one before the index, and the last one for index 0.
pub rqe_pointer-element :
    (buffer qdepth rq_pidb : ℕ)
    → 1 ≤ qdepth
    → qdepth * rqe_size < 2 ^ 31
    → buffer + qdepth * rqe_size < 2 ^ 64
    → rq_pidb ≤ qdepth
    → (slot : ℕ) × (slot < qdepth)
      × (rqe_pointer buffer qdepth rq_pidb ≡ buffer + slot * rqe_size)
      × (((rq_pidb ≡ 0) × (slot + 1 ≡ qdepth)) ⊎ (rq_pidb ≡ slot + 1))
unfolding rqe_pointer
rqe_pointer-element buffer zero rq_pidb some_room small wrap shown = absurd (omega arith)
rqe_pointer-element buffer (suc d) zero some_room small wrap shown =
    (d, omega arith, ground arith, inl (refl, omega arith))
rqe_pointer-element buffer (suc d) (suc slot) some_room small wrap shown =
    (slot, omega arith, ground arith, inr (omega arith))

module _ (env : Env) (axil_ctl qpid : ℕ) where
  abbrev at_reads : ℕ → Machine → Machine
  at_reads n m = record m { bus = after_reads env.hardware (producer axil_ctl qpid) n m.bus }

  poll_rq_loop-now :
      (fuel old rq_pidb : ℕ) (m : Machine)
      → rq_pidb ≢ old
      → poll_rq_loop env (suc fuel) axil_ctl qpid old rq_pidb m ≡ ret rq_pidb m
  unfolding poll_rq_loop
  poll_rq_loop-now fuel old rq_pidb m ne = ground arith

  poll_rq_loop-later :
      (n fuel old : ℕ) (m : Machine)
      → ((i : ℕ) → i < n → nth_read env.hardware (producer axil_ctl qpid) i m.bus ≡ old)
      → nth_read env.hardware (producer axil_ctl qpid) n m.bus ≢ old
      → n + 1 < fuel
      → poll_rq_loop env fuel axil_ctl qpid old old m
        ≡ ret (nth_read env.hardware (producer axil_ctl qpid) n m.bus) (at_reads (suc n) m)
  unfolding poll_rq_loop
  poll_rq_loop-later n zero old m same ne enough = absurd (omega arith)
  poll_rq_loop-later zero (suc zero) old m same ne enough = absurd (omega arith)
  poll_rq_loop-later zero (suc (suc fuel)) old m same ne enough = ground (
    arith,
    poll_rq_loop-now fuel old (nth_read env.hardware (producer axil_ctl qpid) 0 m.bus)
        (at_reads 1 m) ne,
  )
  poll_rq_loop-later (suc n) (suc fuel) old m same ne enough = ground (
    arith,
    same 0 (omega arith),
    poll_rq_loop-later n fuel old (at_reads 1 m) (λ i p. same (suc i) (omega arith)) ne
        (omega arith),
  )

  poll_rq_loop-first :
      (n fuel old : ℕ) (m : Machine)
      → ((i : ℕ) → i < n → nth_read env.hardware (producer axil_ctl qpid) i m.bus ≡ old)
      → nth_read env.hardware (producer axil_ctl qpid) n m.bus ≢ old
      → n < fuel
      → poll_rq_loop env fuel axil_ctl qpid old
          (nth_read env.hardware (producer axil_ctl qpid) 0 m.bus)
          (at_reads 1 m)
        ≡ ret (nth_read env.hardware (producer axil_ctl qpid) n m.bus) (at_reads (suc n) m)
  poll_rq_loop-first n zero old m same ne enough = absurd (omega arith)
  poll_rq_loop-first zero (suc fuel) old m same ne enough =
      poll_rq_loop-now fuel old (nth_read env.hardware (producer axil_ctl qpid) 0 m.bus)
        (at_reads 1 m) ne
  poll_rq_loop-first (suc n) (suc fuel) old m same ne enough =
      ap (λ (c : ℕ). poll_rq_loop env (suc fuel) axil_ctl qpid old c (at_reads 1 m))
        (same 0 (omega arith))
      ∙ poll_rq_loop-later n (suc fuel) old (at_reads 1 m) (λ i p. same (suc i) (omega arith)) ne
          (omega arith)

module _ (env : Env) (m : Machine) (p qpid : ℕ) (d : RdmaDev) (qp : Ptr) (q : RdmaQp)
    (h : HasQp m p qpid d qp q) where
  -- Without DEBUG, waiting returns the first producer index that differs from the last one seen,
  -- and remembers it, after as many reads as it takes.
  pub poll_rq_pidb-first :
      (n fuel : ℕ)
      → env.debug_env ≡ false
      → ((i : ℕ) → i < n → nth_read env.hardware (producer d.axil_ctl qpid) i m.bus ≡ q.rq_pidb)
      → nth_read env.hardware (producer d.axil_ctl qpid) n m.bus ≢ q.rq_pidb
      → n < fuel
      → let v = nth_read env.hardware (producer d.axil_ctl qpid) n m.bus in
        poll_rq_pidb env fuel p qpid m
        ≡ ret v (record m {
          qps = update m.qps qp (some (record q { rq_pidb = v }));
          bus = after_reads env.hardware (producer d.axil_ctl qpid) (suc n) m.bus;
        })
  unfolding poll_rq_pidb poll_rq_loop get_rdma_per_q_config_addr
  poll_rq_pidb-first n fuel quiet same ne enough =
      rw (h.at_dev, deref)
        (rw (h.at_pointer, qp_pointer)
          (rw quiet (
            rw (h.at_qp, deref)
              (rw (poll_rq_loop-first env d.axil_ctl qpid n fuel q.rq_pidb m same ne enough)
                refl))))

module _ (env : Env) (m : Machine) (p : ℕ) (d : RdmaDev) (qp : Ptr) (q : RdmaQp)
    (h : HasQp m p q.qpid d qp q) where
  -- A receive on a queue whose producer index moves to one of its `qdepth` elements returns a
  -- pointer to an element of the queue's buffer, the one that the index names.
  pub rdma_post_receive-element :
      (n fuel : ℕ) (rq : RdmaBuff)
      → env.debug_env ≡ false
      → ((i : ℕ) → i < n → nth_read env.hardware (producer d.axil_ctl q.qpid) i m.bus ≡ q.rq_pidb)
      → nth_read env.hardware (producer d.axil_ctl q.qpid) n m.bus ≢ q.rq_pidb
      → n < fuel
      → qp ≢ 0
      → m.buffs q.rq ≡ some rq
      → 1 ≤ q.qdepth
      → q.qdepth * rqe_size < 2 ^ 31
      → rq.buffer + q.qdepth * rqe_size < 2 ^ 64
      → nth_read env.hardware (producer d.axil_ctl q.qpid) n m.bus ≤ q.qdepth
      → (slot : ℕ) × (m' : Machine) × (rdma_post_receive env fuel p qp m
          ≡ ret (rq.buffer + slot * rqe_size) m')
        × (slot < q.qdepth)
        × (((nth_read env.hardware (producer d.axil_ctl q.qpid) n m.bus ≡ 0)
              × (slot + 1 ≡ q.qdepth))
            ⊎ (nth_read env.hardware (producer d.axil_ctl q.qpid) n m.bus ≡ slot + 1))
  unfolding rdma_post_receive
  rdma_post_receive-element n fuel rq quiet same ne enough real at_rq room small wrap shown =
      let v = nth_read env.hardware (producer d.axil_ctl q.qpid) n m.bus in
      let q1 = record q { rq_pidb = v } in
      let m1 = record m {
        qps = update m.qps qp (some q1);
        bus = after_reads env.hardware (producer d.axil_ctl q.qpid) (suc n) m.bus;
      } in
      let p_real : (p == 0) ≡ false = ground (arith, h.real) in
      let qp_real : (qp == 0) ≡ false = ground arith in
      let good : (v == minus_one) ≡ false = ground arith in
      let (slot, lt, address, which) =
        rqe_pointer-element rq.buffer q.qdepth v room small wrap shown in
      (
        slot,
        m1,
        rw p_real (
            rw qp_real (
              rw (h.at_qp, deref)
                (rw (poll_rq_pidb-first env m p q.qpid d qp q h n fuel quiet same ne enough) (
                  rw good (
                    rw (update_self m.qps qp (some q1), deref)
                      (rw (at_rq, deref) (rw address refl))))))),
        lt,
        which,
      )

  -- Giving an element back programs the consumer index with the producer index that was seen last,
  -- keeps it in the queue pair, changes no other register, and tells by 1 that more has come since.
  pub rdma_release_rq_consumed-programs :
      let v = nth_read env.hardware (producer d.axil_ctl q.qpid) 0 m.bus in
      (m' : Machine) × (rdma_release_rq_consumed env p qp m
        ≡ ret (if v == q.rq_pidb then 0 else 1) m')
      × (m'.qps qp ≡ some (record q { rq_cidb = q.rq_pidb }))
      × ((a : ℕ)
          → last_write m'.bus a ≡ (
              if consumer d.axil_ctl q.qpid == a then some (u32 q.rq_pidb) else last_write m.bus a))
  unfolding rdma_release_rq_consumed write_rq_cidb read_q write_q write32_data
  rdma_release_rq_consumed-programs =
      let v = nth_read env.hardware (producer d.axil_ctl q.qpid) 0 m.bus in
      let q1 = record q { rq_cidb = q.rq_pidb } in
      (
        record m {
          qps = update m.qps qp (some q1);
          bus =
              write (consumer d.axil_ctl q.qpid) (u32 q.rq_pidb)
              ∷ read (producer d.axil_ctl q.qpid) v
              ∷ m.bus;
        },
        rw (h.at_qp, deref)
            (rw (h.at_dev, deref)
              (rw (h.at_qp, deref)
                (rw (h.at_dev, deref)
                  (elim (Bool-cases (v == q.rq_pidb)) [
                    | inl all ↦ rw all refl
                    | inr more ↦ rw more refl
                  ])))),
        update_self m.qps qp (some q1),
        λ a. refl,
      )
