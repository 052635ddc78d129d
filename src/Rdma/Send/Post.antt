-- ===== src/Rdma/Send/Post.antt =====
-- lib/rdma_api.c, `rdma_post_send`: one doorbell, one wait, one result.
use reco_nic.Prelude.{
  ℕ, ◌+◌, ◌<◌, ◌≡◌, ◌≢◌, refl, sym, ap, ◌∙◌, ◌∷◌, Option, some, ◌⊎◌, inl, inr, false, Bool-cases,
  arith, ◌==◌, if◌then◌else◌, ==-refl, get_elem?, u32, slt32, minus_one,
}
use reco_nic.Machine.{Machine, Env, Ptr, RdmaDev, RdmaQp, write, ret, ret_machine, update, deref}
use reco_nic.Machine.Trace.{last_write}
use reco_nic.Machine.Poll.{nth_read}
use reco_nic.Registers.{rn_rdma_qcsr_sqpi_i, timeout_threshold}
use reco_nic.Control.{write32_data}
use reco_nic.Rdma.Qp.{get_rdma_per_q_config_addr, qp_pointer, write_q}
use reco_nic.Rdma.Send.{rdma_post_send, poll_cq_cidb}
use reco_nic.Rdma.Send.Poll.{head, poll_cq_cidb-timeout, poll_cq_cidb-returns}

-- The objects behind queue pair `qpid` of the device at `p`.
pub record HasQp (m : Machine) (p qpid : ℕ) (d : RdmaDev) (qp : Ptr) (q : RdmaQp) : Type 0 where
  pub real : p ≢ 0
  pub at_dev : m.rdma_devs p ≡ some d
  pub at_pointer : get_elem? d.qps_ptr qpid ≡ some qp
  pub at_qp : m.qps qp ≡ some q

-- Where the producer index of the send queue is written.
abbrev pub doorbell : (axil_ctl qpid : ℕ) → ℕ
doorbell axil_ctl qpid = axil_ctl + get_rdma_per_q_config_addr rn_rdma_qcsr_sqpi_i qpid

-- The queue pair's object and the card, with the producer index moved to `pidb`.
abbrev pub ring : (m : Machine) (axil_ctl qpid : ℕ) (qp : Ptr) (q : RdmaQp) (pidb : ℕ) → Machine
ring m axil_ctl qpid qp q pidb = record m {
  qps = update m.qps qp (some (record q { sq_pidb = pidb }));
  bus = write (doorbell axil_ctl qpid) (u32 pidb) ∷ m.bus;
}

-- The queue pair's object after a post that polling answered with `v`.
abbrev pub posted : RdmaQp → (v : ℕ) → RdmaQp
posted q v = record q { sq_pidb = u32 (q.sq_pidb + 1); sq_cidb = u32 (q.sq_cidb + 1); cq_cidb = v }

-- Every register has the value that it had, but the doorbell, which has the new producer index.
abbrev pub Rang : (m m' : Machine) (axil_ctl qpid pidb : ℕ) → Type 0
Rang m m' axil_ctl qpid pidb =
    (a : ℕ)
    → last_write m'.bus a
      ≡ (if doorbell axil_ctl qpid == a then some (u32 pidb) else last_write m.bus a)

pub update_self : (f : ℕ → Option RdmaQp) (x : ℕ) (v : Option RdmaQp) → update f x v x ≡ v
update_self f x v = rw (==-refl x) refl

module _ (env : Env) (m : Machine) (p qpid : ℕ) (d : RdmaDev) (qp : Ptr) (q : RdmaQp)
    (h : HasQp m p qpid d qp q) where
  abbrev rung : Machine
  rung = ring m d.axil_ctl qpid qp q (u32 (q.sq_pidb + 1))

  after_poll :
      (v : ℕ) (m2 : Machine)
      → poll_cq_cidb env p qpid q.sq_cidb rung ≡ ret v m2
      → m2 ≡ record rung { bus = m2.bus }
      → rdma_post_send env p qpid m
        ≡ ret
            (if slt32 v 0 then minus_one else 0)
            (record m2 { qps = update m2.qps qp (some (posted q v)) })
  unfolding rdma_post_send write_q write32_data
  after_poll v m2 polled frame =
      let p_real : (p == 0) ≡ false = ground (arith, h.real) in
      let at_qp2 : m2.qps qp ≡ some (record q { sq_pidb = u32 (q.sq_pidb + 1) }) =
        ap (λ (x : Machine). x.qps qp) frame
        ∙ update_self m.qps qp (some (record q { sq_pidb = u32 (q.sq_pidb + 1) })) in
      rw p_real (
        rw (h.at_dev, deref)
          (rw (h.at_pointer, qp_pointer)
            (rw (h.at_qp, deref)
              (rw polled (
                rw (at_qp2, deref)
                  (elim (Bool-cases (slt32 v 0)) [
                    | inl negative ↦ rw negative refl
                    | inr positive ↦ rw positive refl
                  ]))))))

  -- When the head is `sq_cidb` in all of the first 1,001 reads, a post returns -1. The doorbell has
  -- been rung all the same, no other register has been written, and both indices have moved on.
  pub rdma_post_send-timeout :
      ((i : ℕ)
        → i < timeout_threshold + 1
        → nth_read env.hardware (head d.axil_ctl qpid) i rung.bus ≡ q.sq_cidb)
      → (m' : Machine) × (rdma_post_send env p qpid m ≡ ret minus_one m')
        × (m'.qps qp ≡ some (posted q minus_one))
        × Rang m m' d.axil_ctl qpid (u32 (q.sq_pidb + 1))
  rdma_post_send-timeout same =
      let (m2, polled, reads) = poll_cq_cidb-timeout env rung p qpid q.sq_cidb d h.at_dev same in
      (
        record m2 { qps = update m2.qps qp (some (posted q minus_one)) },
        after_poll minus_one m2 polled reads.1,
        update_self m2.qps qp (some (posted q minus_one)),
        reads.0,
      )

  pub rdma_post_send-returns :
      (r v : ℕ) × (m' : Machine) × (rdma_post_send env p qpid m ≡ ret r m')
      × ((r ≡ 0) ⊎ (r ≡ minus_one))
      × Rang m m' d.axil_ctl qpid (u32 (q.sq_pidb + 1))
      × (m'.qps qp ≡ some (posted q v))
      × (m' ≡ record m { bus = m'.bus; qps = m'.qps })
  rdma_post_send-returns =
      let (v, m2, polled, _, reads) = poll_cq_cidb-returns env rung p qpid q.sq_cidb d h.at_dev in
      let after = update m2.qps qp (some (posted q v)) in
      (
        if slt32 v 0 then minus_one else 0,
        v,
        record m2 { qps = after },
        after_poll v m2 polled reads.1,
        elim (Bool-cases (slt32 v 0)) [
          | inl negative ↦ rw negative (inr refl)
          | inr positive ↦ rw positive (inl refl)
        ],
        reads.0,
        update_self m2.qps qp (some (posted q v)),
        ap (λ (x : Machine). record x { qps = after }) reads.1,
      )

  -- A post does not touch another queue pair's object.
  pub rdma_post_send-other :
      (x : Ptr) (r : ℕ) (m' : Machine)
      → qp ≢ x
      → rdma_post_send env p qpid m ≡ ret r m'
      → m'.qps x ≡ m.qps x
  rdma_post_send-other x r m' apart run =
      let (v, m2, polled, _, reads) = poll_cq_cidb-returns env rung p qpid q.sq_cidb d h.at_dev in
      let out : (qp == x) ≡ false = ground arith in
      let same = ret_machine _ _ _ _ (sym run ∙ after_poll v m2 polled reads.1) in
      let kept = ap (λ (y : Machine). y.qps x) reads.1 in
      ap (λ (y : Machine). y.qps x) same ∙ rw out (kept ∙ rw out refl)
