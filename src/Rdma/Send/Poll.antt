-- ===== src/Rdma/Send/Poll.antt =====
-- lib/rdma_api.c, `poll_cq_cidb`: at most 1,002 reads, and what they lead to.
use reco_nic.Prelude.{
  ℕ, zero, suc, ◌+◌, ◌≤◌, ◌<◌, ◌≡◌, ◌≢◌, refl, ap, ◌∙◌, none, some, ◌⊎◌, inl, inr, arith, minus_one,
}
use reco_nic.Machine.{Machine, Env, RdmaDev, ret, deref}
use reco_nic.Machine.Poll.{after_reads, nth_read, first_change, last_write-after_reads}
use reco_nic.Registers.{rn_rdma_qcsr_cqhead_i, timeout_threshold}
use reco_nic.Rdma.Qp.{get_rdma_per_q_config_addr}
use reco_nic.Rdma.Dump.Laws.{OnlyReads, trans_reads, dump_registers-OnlyReads}
use reco_nic.Rdma.Send.{poll_cq_loop, poll_cq_cidb}

-- Where the head of the completion queue is read.
abbrev pub head : (axil_ctl qpid : ℕ) → ℕ
head axil_ctl qpid = axil_ctl + get_rdma_per_q_config_addr rn_rdma_qcsr_cqhead_i qpid

module _ (env : Env) (axil_ctl qpid sq_cidb : ℕ) where
  abbrev at_reads : ℕ → Machine → Machine
  at_reads n m = record m { bus = after_reads env.hardware (head axil_ctl qpid) n m.bus }

  poll_cq_loop-now :
      (fuel timeout_cnt cq_cidb : ℕ) (m : Machine)
      → cq_cidb ≢ sq_cidb
      → poll_cq_loop env (suc fuel) axil_ctl qpid sq_cidb timeout_cnt cq_cidb m
        ≡ ret (some cq_cidb) m
  unfolding poll_cq_loop
  poll_cq_loop-now fuel timeout_cnt cq_cidb m ne = ground arith

  poll_cq_loop-later :
      (n fuel timeout_cnt : ℕ) (m : Machine)
      → ((i : ℕ) → i < n → nth_read env.hardware (head axil_ctl qpid) i m.bus ≡ sq_cidb)
      → nth_read env.hardware (head axil_ctl qpid) n m.bus ≢ sq_cidb
      → timeout_cnt + n < timeout_threshold
      → n + 1 < fuel
      → poll_cq_loop env fuel axil_ctl qpid sq_cidb timeout_cnt sq_cidb m
        ≡ ret (some (nth_read env.hardware (head axil_ctl qpid) n m.bus)) (at_reads (suc n) m)
  unfolding poll_cq_loop
  poll_cq_loop-later n zero timeout_cnt m same ne room enough = absurd (omega arith)
  poll_cq_loop-later zero (suc zero) timeout_cnt m same ne room enough = absurd (omega arith)
  poll_cq_loop-later zero (suc (suc fuel)) timeout_cnt m same ne room enough = ground (
    arith,
    poll_cq_loop-now fuel (timeout_cnt + 1) (nth_read env.hardware (head axil_ctl qpid) 0 m.bus)
        (at_reads 1 m) ne,
  )
  poll_cq_loop-later (suc n) (suc fuel) timeout_cnt m same ne room enough = ground (
    arith,
    same 0 (omega arith),
    poll_cq_loop-later n fuel (timeout_cnt + 1) (at_reads 1 m) (λ i p. same (suc i) (omega arith))
        ne (omega arith) (omega arith),
  )

  poll_cq_loop-timeout :
      (left fuel timeout_cnt : ℕ) (m : Machine)
      → ((i : ℕ) → i < left → nth_read env.hardware (head axil_ctl qpid) i m.bus ≡ sq_cidb)
      → timeout_cnt + left ≡ timeout_threshold
      → left < fuel
      → poll_cq_loop env fuel axil_ctl qpid sq_cidb timeout_cnt sq_cidb m
        ≡ ret none (at_reads (suc left) m)
  unfolding poll_cq_loop
  poll_cq_loop-timeout left zero timeout_cnt m same room enough = absurd (omega arith)
  poll_cq_loop-timeout zero (suc fuel) timeout_cnt m same room enough = ground arith
  poll_cq_loop-timeout (suc left) (suc fuel) timeout_cnt m same room enough = ground (
    arith,
    same 0 (omega arith),
    poll_cq_loop-timeout left fuel (timeout_cnt + 1) (at_reads 1 m)
        (λ i p. same (suc i) (omega arith)) (omega arith) (omega arith),
  )

module _ (env : Env) (m : Machine) (p qpid sq_cidb : ℕ) (d : RdmaDev) where
  -- Polling stops at the first answer that differs from `sq_cidb`, if it is among the first 1,001,
  -- and returns it. It has then read the register until there, and done nothing else.
  pub poll_cq_cidb-first :
      (n : ℕ)
      → m.rdma_devs p ≡ some d
      → ((i : ℕ) → i < n → nth_read env.hardware (head d.axil_ctl qpid) i m.bus ≡ sq_cidb)
      → nth_read env.hardware (head d.axil_ctl qpid) n m.bus ≢ sq_cidb
      → n ≤ timeout_threshold
      → poll_cq_cidb env p qpid sq_cidb m
        ≡ ret
            (nth_read env.hardware (head d.axil_ctl qpid) n m.bus)
            (at_reads env d.axil_ctl qpid sq_cidb (suc n) m)
  unfolding poll_cq_cidb
  poll_cq_cidb-first zero at_dev same ne room =
      rw (at_dev, deref)
        (rw
          (poll_cq_loop-now env d.axil_ctl qpid sq_cidb timeout_threshold 0
            (nth_read env.hardware (head d.axil_ctl qpid) 0 m.bus)
            (at_reads env d.axil_ctl qpid sq_cidb 1 m) ne)
          refl)
  poll_cq_cidb-first (suc n) at_dev same ne room =
      let m1 = at_reads env d.axil_ctl qpid sq_cidb 1 m in
      let polled : poll_cq_loop env (timeout_threshold + 1) d.axil_ctl qpid sq_cidb 0
            (nth_read env.hardware (head d.axil_ctl qpid) 0 m.bus) m1
          ≡ ret (some (nth_read env.hardware (head d.axil_ctl qpid) n m1.bus))
              (at_reads env d.axil_ctl qpid sq_cidb (suc n) m1) =
        ap (λ (c : ℕ). poll_cq_loop env (timeout_threshold + 1) d.axil_ctl qpid sq_cidb 0 c m1)
          (same 0 (omega arith))
        ∙ poll_cq_loop-later env d.axil_ctl qpid sq_cidb n (timeout_threshold + 1) 0 m1
            (λ i p. same (suc i) (omega arith)) ne (omega arith) (omega arith) in
      rw (at_dev, deref) (rw polled refl)

  -- If the first 1,001 answers are all `sq_cidb`, polling returns -1; it has only read registers.
  pub poll_cq_cidb-timeout :
      m.rdma_devs p ≡ some d
      → ((i : ℕ)
          → i < timeout_threshold + 1
          → nth_read env.hardware (head d.axil_ctl qpid) i m.bus ≡ sq_cidb)
      → (m' : Machine) × (poll_cq_cidb env p qpid sq_cidb m ≡ ret minus_one m') × OnlyReads m m'
  unfolding poll_cq_cidb
  poll_cq_cidb-timeout at_dev same =
      let m1 = at_reads env d.axil_ctl qpid sq_cidb 1 m in
      let m2 = at_reads env d.axil_ctl qpid sq_cidb (timeout_threshold + 1) m1 in
      let polled : poll_cq_loop env (timeout_threshold + 1) d.axil_ctl qpid sq_cidb 0
            (nth_read env.hardware (head d.axil_ctl qpid) 0 m.bus) m1
          ≡ ret none m2 =
        ap (λ (c : ℕ). poll_cq_loop env (timeout_threshold + 1) d.axil_ctl qpid sq_cidb 0 c m1)
          (same 0 (omega arith))
        ∙ poll_cq_loop-timeout env d.axil_ctl qpid sq_cidb timeout_threshold (timeout_threshold + 1)
            0 m1 (λ i p. same (suc i) (omega arith)) (omega arith) (omega arith) in
      let (m3, dumped, reads) = dump_registers-OnlyReads env m2 p 1 qpid d at_dev in
      let before : OnlyReads m m2 = (
        (λ a.
            last_write-after_reads env.hardware (head d.axil_ctl qpid) (suc (timeout_threshold + 1))
              m.bus a),
        refl,
      ) in
      (m3, rw (at_dev, deref) (rw polled (rw dumped refl)), trans_reads m m2 m3 before reads)

  -- Polling always returns, with -1 or a value that differs from `sq_cidb`, and only reads.
  pub poll_cq_cidb-returns :
      m.rdma_devs p ≡ some d
      → (v : ℕ) × (m' : Machine) × (poll_cq_cidb env p qpid sq_cidb m ≡ ret v m')
        × ((v ≡ minus_one) ⊎ (v ≢ sq_cidb))
        × OnlyReads m m'
  poll_cq_cidb-returns at_dev =
      elim (first_change env.hardware (head d.axil_ctl qpid) sq_cidb (timeout_threshold + 1)
        m.bus) [
          | inl same ↦
              let (m', run, reads) = poll_cq_cidb-timeout at_dev same in
              (minus_one, m', run, inl refl, reads)
          | inr (n, lt, same, ne) ↦ (
            nth_read env.hardware (head d.axil_ctl qpid) n m.bus,
            at_reads env d.axil_ctl qpid sq_cidb (suc n) m,
            poll_cq_cidb-first n at_dev same ne (omega arith),
            inr ne,
            (
              (λ a. last_write-after_reads env.hardware (head d.axil_ctl qpid) (suc n) m.bus a),
              refl,
            ),
          )
        ]
