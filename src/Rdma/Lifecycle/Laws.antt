-- ===== src/Rdma/Lifecycle/Laws.antt =====
-- lib/rdma_api.c: what no sequence of calls on a device breaks.
use reco_nic.Prelude.{
  ℕ, ◌+◌, ◌-◌, ◌*◌, ◌^◌, ◌≤◌, ◌<◌, ◌≡◌, ◌≢◌, refl, sym, ap, ◌∙◌, some, false, inl, inr, Bool-cases,
  arith, ==-refl, ◌==◌, leb, u32,
}
use reco_nic.Machine.{Machine, Env, Ptr, RdmaDev, RdmaQp, ret, ret_machine, abort}
use reco_nic.Machine.Trace.{last_write}
use reco_nic.Registers.{rn_rdma_qcsr_sqpi_i}
use reco_nic.Reconic.Address.Laws.{bar_window}
use reco_nic.Reconic.Buffer.{start_offset, allocate_rdma_buffer, device_mem}
use reco_nic.Reconic.Buffer.Laws.{with_device_buffer, allocate_rdma_buffer-device}
use reco_nic.Rdma.Dump.Laws.{dump_registers-OnlyReads}
use reco_nic.Rdma.Pd.{rdma_register_memory_region}
use reco_nic.Rdma.Pd.Laws.{registered_machine, rdma_register_memory_region-run, registered_outside}
use reco_nic.Rdma.Pd.Table.Refine.{Registration, IsReady}
use reco_nic.Rdma.Qp.{get_rdma_per_q_config_addr}
use reco_nic.Rdma.Qp.Laws.{get_rdma_per_q_config_addr-register, q_register-disjoint}
use reco_nic.Rdma.Send.{rdma_post_send}
use reco_nic.Rdma.Send.Poll.{poll_cq_cidb-returns}
use reco_nic.Rdma.Send.Post.{HasQp, doorbell, posted, rdma_post_send-returns, rdma_post_send-other}
use reco_nic.Rdma.Wqe.Laws.{create_a_wqe-host}
use reco_nic.Rdma.Lifecycle.{
  Step, post, other_post, poll, dump, element, buffer, region, Steps, begin, then_step, InSync,
  shown_index,
}

module _ (env : Env) (p qpid : ℕ) (d : RdmaDev) (qp : Ptr) (low : 1 ≤ qpid)
    (high : qpid < 2 ^ 16) where
  -- What a step does that leaves the object, the device and the doorbell alone.
  keep-InSync :
      (m m' : Machine)
      → m'.rdma_devs p ≡ m.rdma_devs p
      → m'.qps qp ≡ m.qps qp
      → last_write m'.bus (doorbell d.axil_ctl qpid) ≡ last_write m.bus (doorbell d.axil_ctl qpid)
      → InSync p qpid d qp m
      → InSync p qpid d qp m'
  keep-InSync m m' devs qps bell s = record {
    q = s.q;
    has = record {
      real = s.has.real;
      at_dev = devs ∙ s.has.at_dev;
      at_pointer = s.has.at_pointer;
      at_qp = qps ∙ s.has.at_qp;
    };
    shown = ap shown_index bell ∙ s.shown;
    none_left = s.none_left;
    fits = s.fits;
  }

  post-InSync :
      (m m' : Machine) (v : ℕ)
      → rdma_post_send env p qpid m ≡ ret v m'
      → InSync p qpid d qp m
      → InSync p qpid d qp m'
  post-InSync m m' v run s =
      let (r, v', m1, run1, _, rang, at_qp, frame) =
        rdma_post_send-returns env m p qpid d qp s.q s.has in
      let same : m1 ≡ m' = ret_machine r v m1 m' (sym run1 ∙ run) in
      let rung : last_write m1.bus (doorbell d.axil_ctl qpid) ≡ some (u32 (u32 (s.q.sq_pidb + 1))) =
        rang (doorbell d.axil_ctl qpid) ∙ rw (==-refl (doorbell d.axil_ctl qpid)) refl in
      let after : InSync p qpid d qp m1 = record {
        q = posted s.q v';
        has = record {
          real = s.has.real;
          at_dev = ap (λ (x : Machine). x.rdma_devs p) frame ∙ s.has.at_dev;
          at_pointer = s.has.at_pointer;
          at_qp = at_qp;
        };
        shown = ap shown_index rung ∙ omega arith;
        none_left = ap (λ (i : ℕ). u32 (i + 1)) s.none_left;
        fits = omega arith;
      } in
      rw same at after

  -- The doorbells of different queue pairs are different registers.
  doorbell-apart :
      (k : ℕ)
      → k ≢ qpid
      → 1 ≤ k
      → k < 2 ^ 16
      → (doorbell d.axil_ctl k == doorbell d.axil_ctl qpid) ≡ false
  doorbell-apart k ne from to =
      let apart =
        q_register-disjoint rn_rdma_qcsr_sqpi_i rn_rdma_qcsr_sqpi_i k qpid (omega arith)
          (omega arith) (omega arith) (omega arith) from to low high ne in
      elim (Bool-cases (doorbell d.axil_ctl k == doorbell d.axil_ctl qpid)) [
        | inl e ↦ absurd (apart (ground arith))
        | inr e ↦ e
      ]

  other-InSync :
      (m m' : Machine) (v k : ℕ) (qp' : Ptr) (q' : RdmaQp)
      → HasQp m p k d qp' q'
      → k ≢ qpid
      → 1 ≤ k
      → k < 2 ^ 16
      → qp' ≢ qp
      → rdma_post_send env p k m ≡ ret v m'
      → InSync p qpid d qp m
      → InSync p qpid d qp m'
  other-InSync m m' v k qp' q' h ne from to apart run s =
      let (r, v', m1, run1, _, rang, _, frame) = rdma_post_send-returns env m p k d qp' q' h in
      let same : m1 ≡ m' = ret_machine r v m1 m' (sym run1 ∙ run) in
      let bell : last_write m1.bus (doorbell d.axil_ctl qpid)
          ≡ last_write m.bus (doorbell d.axil_ctl qpid) =
        rang (doorbell d.axil_ctl qpid) ∙ rw (doorbell-apart k ne from to) refl in
      let kept = rdma_post_send-other env m p k d qp' q' h qp r m1 apart run1 in
      let devs = ap (λ (x : Machine). x.rdma_devs p) frame in
      rw same at (keep-InSync m m1 devs kept bell s)

  region-InSync :
      (m m' : Machine) (r : Registration)
      → IsReady m r
      → m.win_sizes d.win_size ≡ some bar_window
      → d.axil_ctl ≢ 0
      → rdma_register_memory_region p r.pd_ptr r.r_key r.buf_ptr m ≡ ret tt m'
      → InSync p qpid d qp m
      → InSync p qpid d qp m'
  region-InSync m m' r ready at_win mapped run s =
      let m1 = registered_machine d.axil_ctl r.r_key r.pd_ptr r.buf_ptr ready.pd r.buf m in
      let run1 =
        rdma_register_memory_region-run m p r.pd_ptr r.buf_ptr d ready.pd r.buf r.r_key s.has.real
          ready.real_pd ready.real_buf mapped s.has.at_dev at_win ready.at_pd ready.at_buf
          ready.region in
      let at : get_rdma_per_q_config_addr rn_rdma_qcsr_sqpi_i qpid
          ≡ rn_rdma_qcsr_sqpi_i + 0x100 * (qpid - 1) =
        get_rdma_per_q_config_addr-register rn_rdma_qcsr_sqpi_i qpid (omega arith) low high in
      let bell =
        registered_outside m p r.pd_ptr r.buf_ptr d ready.pd r.buf r.r_key s.has.real ready.real_pd
          ready.real_buf mapped s.has.at_dev at_win ready.at_pd ready.at_buf ready.region
          (doorbell d.axil_ctl qpid) (inr (omega (arith, at, ready.region.pd_num))) in
      let same : m1 ≡ m' = ret_machine tt tt m1 m' (sym run1 ∙ run) in
      rw same at (keep-InSync m m1 refl refl bell s)

  step-InSync :
      (m m' : Machine) → Step env p qpid d qp m m' → InSync p qpid d qp m → InSync p qpid d qp m'
  step-InSync _ _ (post m m' v run) s = post-InSync m m' v run s
  step-InSync _ _ (other_post m m' v k qp' q' h ne from to apart run) s =
      other-InSync m m' v k qp' q' h ne from to apart run s
  step-InSync _ _ (poll m m' v k sq_cidb run) s =
      let (v', m1, run1, _, reads) = poll_cq_cidb-returns env m p k sq_cidb d s.has.at_dev in
      let same : m1 ≡ m' = ret_machine v' v m1 m' (sym run1 ∙ run) in
      rw same at (
        keep-InSync m m1 (ap (λ (x : Machine). x.rdma_devs p) reads.1)
          (ap (λ (x : Machine). x.qps qp) reads.1) (reads.0 (doorbell d.axil_ctl qpid)) s)
  step-InSync _ _ (dump m m' is_sender k run) s =
      let (m1, run1, reads) = dump_registers-OnlyReads env m p is_sender k d s.has.at_dev in
      let same : m1 ≡ m' = ret_machine tt tt m1 m' (sym run1 ∙ run) in
      rw same at (
        keep-InSync m m1 (ap (λ (x : Machine). x.rdma_devs p) reads.1)
          (ap (λ (x : Machine). x.qps qp) reads.1) (reads.0 (doorbell d.axil_ctl qpid)) s)
  step-InSync _ _ (element m m' k wqe_idx r sq queue fits host at room run) s =
      let (m1, run1, _, frame) = create_a_wqe-host env m p k wqe_idx r sq queue fits host at room in
      let same : m1 ≡ m' = ret_machine tt tt m1 m' (sym run1 ∙ run) in
      rw same at (
        keep-InSync m m1 (ap (λ (x : Machine). x.rdma_devs p) frame)
          (ap (λ (x : Machine). x.qps qp) frame)
          (ap (λ (x : Machine). last_write x.bus (doorbell d.axil_ctl qpid)) frame) s)
  step-InSync _ _ (buffer m m' rn_dev b rn size memory fresh at_rn few small run) s =
      let start = start_offset rn.dev_buffer_offset size in
      let m1 = with_device_buffer m rn_dev rn start size in
      let ends = allocate_rdma_buffer-device env rn_dev memory m rn size fresh at_rn few small in
      elim (Bool-cases (leb (start + size) 4294967296)) [
        | inl fits ↦
            let run1 : allocate_rdma_buffer env rn_dev size device_mem m ≡ ret m.next m1 =
              ends ∙ rw fits refl in
            let same : m1 ≡ m' = ret_machine m.next b m1 m' (sym run1 ∙ run) in
            rw same at (keep-InSync m m1 refl refl refl s)
        | inr full ↦
            let run1 : allocate_rdma_buffer env rn_dev size device_mem m ≡ abort m1 =
              ends ∙ rw full refl in
            absurd (cc (sym run1 ∙ run))
      ]
  step-InSync _ _ (region m m' r ready at_win mapped run) s =
      region-InSync m m' r ready at_win mapped run s

  -- Whatever a program does with a device once software and card agree on a queue pair, as long as
  -- its calls return: posts on it and on other queue pairs, polls, dumps, elements in the host's
  -- memory, buffers on the card and registrations, in any order and number. Software and card still
  -- agree: the queue pair is in its place, its doorbell register shows the producer index of its
  -- object, and the consumer index has caught up with it.
  pub Steps-InSync :
      (m m' : Machine) → Steps env p qpid d qp m m' → InSync p qpid d qp m → InSync p qpid d qp m'
  Steps-InSync _ _ (begin m) s = s
  Steps-InSync _ _ (then_step m m1 m2 before step) s =
      step-InSync m1 m2 step (Steps-InSync m m1 before s)
