-- ===== src/Rdma/Destroy/Laws.antt =====
-- lib/rdma_api.c, `destroy_rdma_qp`: the registers it leaves, the objects it frees.
use reco_nic.Prelude.{ℕ, ◌^◌, ◌≤◌, ◌<◌, ◌≡◌, ◌≢◌, refl, ◌∙◌, Option, none, some, false, arith, ◌==◌}
use reco_nic.Machine.{
  Machine, Env, Ptr, RdmaDev, RdmaQp, RdmaBuff, RdmaPd, ret, fault, pure, update, deref, ◌>>=◌,
}
use reco_nic.Rdma.Pd.{destroy_rdma_pd_entry}
use reco_nic.Rdma.Destroy.{destroy_rdma_qp, free_buff}
use reco_nic.Rdma.Destroy.Disable.{
  IsDisabled, disabled, disable_qp-disabled, disabled-IsDisabled, checked, IsIdle, check_qp-idle,
}

-- The objects that the destruction of a queue pair reads and frees.
pub record OwnsQueues (m : Machine) (qp : Ptr) (q : RdmaQp) (d : RdmaDev) : Type 0 where
  pub real : qp ≢ 0
  pub at_qp : m.qps qp ≡ some q
  pub at_dev : m.rdma_devs q.rdma_dev ≡ some d
  pub sq : RdmaBuff
  pub rq : RdmaBuff
  pub cq : RdmaBuff
  pub at_sq : m.buffs q.sq ≡ some sq
  pub at_rq : m.buffs q.rq ≡ some rq
  pub at_cq : m.buffs q.cq ≡ some cq
  pub real_sq : q.sq ≢ 0
  pub real_rq : q.rq ≢ 0
  pub real_cq : q.cq ≢ 0
  pub sq_rq : q.sq ≢ q.rq
  pub sq_cq : q.sq ≢ q.cq
  pub rq_cq : q.rq ≢ q.cq

free_buff-allocated :
    (m : Machine) (p : Ptr) (b : RdmaBuff)
    → p ≢ 0
    → m.buffs p ≡ some b
    → free_buff p m ≡ ret tt (record m { buffs = update m.buffs p none })
free_buff-allocated m p b real at_p =
    let p_real : (p == 0) ≡ false = ground arith in rw p_real (rw (at_p, deref) refl)

elsewhere : (f : Ptr → Option RdmaBuff) (p r : Ptr) → p ≢ r → update f p none r ≡ f r
elsewhere f p r ne = ground arith

module _ (env : Env) (fuel : ℕ) (m : Machine) (qp : Ptr) (q : RdmaQp) (d : RdmaDev)
    (h : OwnsQueues m qp q d) (idle : IsIdle env d.axil_ctl q.qpid m.bus) where
  abbrev freed : Machine
  freed = record m {
    bus = disabled env d.axil_ctl q.qpid (checked env d.axil_ctl q.qpid m.bus);
    buffs = update (update (update m.buffs q.sq none) q.rq none) q.cq none;
  }

  to_pd :
      destroy_rdma_qp env fuel qp m ≡ (destroy_rdma_pd_entry q.pd_entry >>= λ done. pure 0) freed
  unfolding destroy_rdma_qp
  to_pd =
      let qp_real : (qp == 0) ≡ false = ground (arith, h.real) in
      let m1 = record m { bus = checked env d.axil_ctl q.qpid m.bus } in
      let m2 = record m1 { bus = disabled env d.axil_ctl q.qpid m1.bus } in
      let m3 = record m2 { buffs = update m.buffs q.sq none } in
      let m4 = record m3 { buffs = update m3.buffs q.rq none } in
      let rq_left : m3.buffs q.rq ≡ some h.rq = elsewhere m.buffs q.sq q.rq h.sq_rq ∙ h.at_rq in
      let cq_left : m4.buffs q.cq ≡ some h.cq =
        elsewhere m3.buffs q.rq q.cq h.rq_cq ∙ elsewhere m.buffs q.sq q.cq h.sq_cq ∙ h.at_cq in
      rw qp_real (
        rw (h.at_qp, deref)
          (rw (h.at_dev, deref)
            (rw (check_qp-idle env d.axil_ctl q.qpid fuel q.rdma_dev m idle) (
              rw (disable_qp-disabled env d.axil_ctl q.qpid m1) (
                rw (free_buff-allocated m2 q.sq h.sq h.real_sq h.at_sq) (
                  rw (free_buff-allocated m3 q.rq h.rq h.real_rq rq_left)
                    (rw (free_buff-allocated m4 q.cq h.cq h.real_cq cq_left) refl)))))))

  -- Destroying an idle queue pair, with a number from 1 to 2^16 - 1, that owns its three queues and
  -- its protection domain returns 0 and frees the four objects. In the registers, the queue pair is
  -- disabled and then marked as under recovery, its indices, counters and doorbell address are 0,
  -- and the software override of the engine has been set and cleared again.
  pub destroy_rdma_qp-IsDisabled :
      (pd : RdmaPd)
      → m.pds q.pd_entry ≡ some pd
      → q.pd_entry ≢ 0
      → 1 ≤ q.qpid
      → q.qpid < 2 ^ 16
      → (m' : Machine) × (destroy_rdma_qp env fuel qp m ≡ ret 0 m')
        × IsDisabled m'.bus d.axil_ctl q.qpid
        × (m'.buffs q.sq ≡ none)
        × (m'.buffs q.rq ≡ none)
        × (m'.buffs q.cq ≡ none)
        × (m'.pds q.pd_entry ≡ none)
  unfolding destroy_rdma_pd_entry
  destroy_rdma_qp-IsDisabled pd at_pd real low high =
      let pd_real : (q.pd_entry == 0) ≡ false = ground arith in
      let m' = record freed { pds = update m.pds q.pd_entry none } in
      (
        m',
        to_pd ∙ rw pd_real (rw (at_pd, deref) refl),
        disabled-IsDisabled env d.axil_ctl q.qpid (checked env d.axil_ctl q.qpid m.bus) low high,
        ground arith,
        ground arith,
        ground arith,
        ground arith,
      )

  -- If the protection domain of an idle queue pair that owns its three queues has been freed
  -- already, as after the destruction of another queue pair with the same one, destroying the queue
  -- pair frees it a second time, which is a fault.
  pub destroy_rdma_qp-shared_pd :
      q.pd_entry ≢ 0 → m.pds q.pd_entry ≡ none → destroy_rdma_qp env fuel qp m ≡ fault
  unfolding destroy_rdma_pd_entry
  destroy_rdma_qp-shared_pd real gone =
      let pd_real : (q.pd_entry == 0) ≡ false = ground arith in
      to_pd ∙ rw pd_real (rw (gone, deref) refl)
