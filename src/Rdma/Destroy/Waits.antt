-- ===== src/Rdma/Destroy/Waits.antt =====
-- lib/rdma_api.c, `rdma_qp_fatal_recovery`: how its two waits end.
use reco_nic.Prelude.{
  ℕ, zero, suc, ◌+◌, ◌≤◌, ◌<◌, ◌≡◌, ◌≢◌, refl, List, ◌∷◌, ◌⊎◌, inl, inr, true, false, Bool-cases,
  arith, bit_and, ltb, ◌==◌, u32, shr,
}
use reco_nic.Machine.{Machine, Env, Access, read, ret, exit_failure}
use reco_nic.Machine.Poll.{after_reads, nth_read}
use reco_nic.Registers.{
  rn_rdma_qcsr_statqp_i, rn_rdma_qcsr_cqhead_i, rn_rdma_qcsr_sqpi_i, rn_rdma_qcsr_qpconf_i,
}
use reco_nic.Control.{read32_data}
use reco_nic.Rdma.Qp.{get_rdma_per_q_config_addr}
use reco_nic.Rdma.Send.{read_q}
use reco_nic.Rdma.Destroy.{wait_empty, wait_heads, heads_threshold}

-- Where the status of the queue pair is read.
abbrev pub status_at : (axil_ctl qpid : ℕ) → ℕ
status_at axil_ctl qpid = axil_ctl + get_rdma_per_q_config_addr rn_rdma_qcsr_statqp_i qpid

abbrev pub conf_at : (axil_ctl qpid : ℕ) → ℕ
conf_at axil_ctl qpid = axil_ctl + get_rdma_per_q_config_addr rn_rdma_qcsr_qpconf_i qpid

abbrev pub head_at : (axil_ctl qpid : ℕ) → ℕ
head_at axil_ctl qpid = axil_ctl + get_rdma_per_q_config_addr rn_rdma_qcsr_cqhead_i qpid

abbrev pub index_at : (axil_ctl qpid : ℕ) → ℕ
index_at axil_ctl qpid = axil_ctl + get_rdma_per_q_config_addr rn_rdma_qcsr_sqpi_i qpid

-- The two bits of the status word for empty queues. The wait goes on while both are 0.
abbrev pub queue_bits : (status : ℕ) → ℕ
queue_bits status = bit_and (shr status 9) 0x3

module _ (env : Env) (axil_ctl qpid : ℕ) where
  -- The trace after `n` rounds, each of which reads the completion head and the producer index.
  unfoldable pub after_rounds : ℕ → List Access → List Access
  after_rounds zero t = t
  after_rounds (suc n) t =
      let t1 = read (head_at axil_ctl qpid) (u32 (env.hardware t (head_at axil_ctl qpid))) ∷ t in
      after_rounds n
        (read (index_at axil_ctl qpid) (u32 (env.hardware t1 (index_at axil_ctl qpid))) ∷ t1)

  -- The completion head and the producer index that round `n` reads.
  abbrev pub nth_head : ℕ → List Access → ℕ
  nth_head n t = u32 (env.hardware (after_rounds n t) (head_at axil_ctl qpid))

  abbrev pub nth_index : ℕ → List Access → ℕ
  nth_index n t = u32 (
      env.hardware (read (head_at axil_ctl qpid) (nth_head n t) ∷ after_rounds n t)
        (index_at axil_ctl qpid))

  -- Whether one of the first `k` rounds finds the heads equal, and which is the first.
  pub first_agreement :
      (k : ℕ) (t : List Access)
      → ((i : ℕ) → i < k → nth_head i t ≢ nth_index i t)
        ⊎ ((j : ℕ) × (j < k)
            × ((i : ℕ) → i < j → nth_head i t ≢ nth_index i t)
            × (nth_head j t ≡ nth_index j t))
  first_agreement zero t = inl (λ i p. absurd (omega arith))
  first_agreement (suc k) t = elim (first_agreement k t) [
    | inr (j, lt, differ, same) ↦ inr (j, omega arith, differ, same)
    | inl differ ↦ elim (Bool-cases (nth_head k t == nth_index k t)) [
      | inl same ↦ inr (k, omega arith, differ, ground arith)
      | inr ne ↦ inl (λ i p. elim (Bool-cases (i == k)) [
        | inl last ↦ ground arith
        | inr before ↦ differ i (ground arith)
      ])
    ]
  ]

  pub wait_empty-returns :
      (n fuel : ℕ) (m : Machine)
      → queue_bits (nth_read env.hardware (status_at axil_ctl qpid) n m.bus) ≢ 0
      → n < fuel
      → (k : ℕ) × (k ≤ n)
        × ((i : ℕ)
            → i < k
            → queue_bits (nth_read env.hardware (status_at axil_ctl qpid) i m.bus) ≡ 0)
        × (queue_bits (nth_read env.hardware (status_at axil_ctl qpid) k m.bus) ≢ 0)
        × (wait_empty env fuel axil_ctl qpid m
            ≡ ret tt (record m {
              bus = after_reads env.hardware (status_at axil_ctl qpid) (suc k) m.bus;
            }))
  unfolding wait_empty read_q read32_data
  wait_empty-returns n zero m ready enough = absurd (omega arith)
  wait_empty-returns zero (suc fuel) m ready enough =
      let found : (queue_bits (nth_read env.hardware (status_at axil_ctl qpid) 0 m.bus) == 0)
          ≡ false =
        ground arith in
      (0, omega arith, λ i p. absurd (omega arith), ready, rw found refl)
  wait_empty-returns (suc n) (suc fuel) m ready enough =
      let v = nth_read env.hardware (status_at axil_ctl qpid) 0 m.bus in
      let m1 = record m { bus = read (status_at axil_ctl qpid) v ∷ m.bus } in
      elim (Bool-cases (queue_bits v == 0)) [
        | inr found ↦ (0, omega arith, λ i p. absurd (omega arith), ground arith, rw found refl)
        | inl again ↦
            let (k, below, busy, done, run) = wait_empty-returns n fuel m1 ready (omega arith) in
            (
              suc k,
              omega arith,
              elim [ zero ↦ λ p. ground arith | suc i ↦ λ p. busy i (omega arith) ],
              done,
              rw again run,
            )
      ]

  pub wait_heads-agrees :
      (j fuel timeout_cnt : ℕ) (m : Machine)
      → ((i : ℕ) → i < j → nth_head i m.bus ≢ nth_index i m.bus)
      → nth_head j m.bus ≡ nth_index j m.bus
      → j < fuel
      → timeout_cnt + j ≤ heads_threshold
      → wait_heads env fuel axil_ctl qpid timeout_cnt m
        ≡ ret tt (record m { bus = after_rounds (suc j) m.bus })
  unfolding wait_heads read_q read32_data after_rounds
  wait_heads-agrees j zero timeout_cnt m differ same enough below = absurd (omega arith)
  wait_heads-agrees zero (suc fuel) timeout_cnt m differ same enough below =
      let found : (nth_head 0 m.bus == nth_index 0 m.bus) ≡ true = ground arith in rw found refl
  wait_heads-agrees (suc j) (suc fuel) timeout_cnt m differ same enough below =
      let again : (nth_head 0 m.bus == nth_index 0 m.bus) ≡ false =
        ground (arith, differ 0 (omega arith)) in
      let more : ltb heads_threshold (timeout_cnt + 1) ≡ false = ground arith in
      rw again (
        rw more (
          wait_heads-agrees j fuel (timeout_cnt + 1) (record m { bus = after_rounds 1 m.bus })
            (λ i p. differ (suc i) (omega arith)) same (omega arith) (omega arith)))

  pub wait_heads-exits :
      (n fuel timeout_cnt : ℕ) (m : Machine)
      → ((i : ℕ) → i < suc n → nth_head i m.bus ≢ nth_index i m.bus)
      → n < fuel
      → timeout_cnt + n ≡ heads_threshold
      → wait_heads env fuel axil_ctl qpid timeout_cnt m
        ≡ exit_failure (record m { bus = after_rounds (suc (suc n)) m.bus })
  unfolding wait_heads read_q read32_data after_rounds
  wait_heads-exits n zero timeout_cnt m differ enough last = absurd (omega arith)
  wait_heads-exits zero (suc fuel) timeout_cnt m differ enough last =
      let again : (nth_head 0 m.bus == nth_index 0 m.bus) ≡ false =
        ground (arith, differ 0 (omega arith)) in
      let over : ltb heads_threshold (timeout_cnt + 1) ≡ true = ground arith in
      rw again (rw over refl)
  wait_heads-exits (suc n) (suc fuel) timeout_cnt m differ enough last =
      let again : (nth_head 0 m.bus == nth_index 0 m.bus) ≡ false =
        ground (arith, differ 0 (omega arith)) in
      let more : ltb heads_threshold (timeout_cnt + 1) ≡ false = ground arith in
      rw again (
        rw more (
          wait_heads-exits n fuel (timeout_cnt + 1) (record m { bus = after_rounds 1 m.bus })
            (λ i p. differ (suc i) (omega arith)) (omega arith) (omega arith)))
