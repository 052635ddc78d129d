-- ===== src/Rdma/Lifecycle/Create.antt =====
-- lib/rdma_api.c: the life of a queue pair from `allocate_rdma_qp` on.
use reco_nic.Prelude.{
  ℕ, ◌+◌, ◌-◌, ◌*◌, ◌^◌, ◌≤◌, ◌<◌, ◌≡◌, ◌≢◌, refl, sym, ap, ◌∙◌, some, false, arith, ==-refl,
  get_elem?-set_self, length, set,
}
use reco_nic.Machine.{Machine, Env, Ptr, RnDev, RdmaDev, RdmaPd, MacAddr, ret, ret_machine}
use reco_nic.Machine.Trace.{last_write}
use reco_nic.Registers.{rn_rdma_qcsr_sqpi_i}
use reco_nic.Reconic.Address.Laws.{bar_window}
use reco_nic.Reconic.Buffer.{device_mem}
use reco_nic.Rdma.Qp.{QpArgs, new_qp, allocate_rdma_qp, get_rdma_per_q_config_addr}
use reco_nic.Rdma.Qp.Laws.{get_rdma_per_q_config_addr-register}
use reco_nic.Rdma.Qp.Registers.{writes-doorbell}
use reco_nic.Rdma.Qp.Allocate.{
  device_buffer, sq_start, cq_start, rq_start, configured, IsAllocatable, allocate_rdma_qp-run,
}
use reco_nic.Rdma.Send.Post.{doorbell}
use reco_nic.Rdma.Lifecycle.{Steps, InSync, shown_index}
use reco_nic.Rdma.Lifecycle.Laws.{Steps-InSync}

module _ (env : Env) (p : Ptr) (m : Machine) (d : RdmaDev) (rn : RnDev) (a : QpArgs)
    (enough_memory : (k : ℕ) → env.malloc_fails k ≡ false) (fresh : m.next ≢ 0) (real : p ≢ 0)
    (at_p : m.rdma_devs p ≡ some d) (at_rn : m.rn_devs d.rn_dev ≡ some rn)
    (fits : rn.dev_buffer_offset + d.num_qp * a.qdepth * 580 + 12285 ≤ 2 ^ 32)
    (known : a.qpid < length d.qps_ptr) (mac : MacAddr) (pd : RdmaPd) (mapped : d.axil_ctl ≢ 0)
    (at_win : m.win_sizes d.win_size ≡ some bar_window) (at_mac : m.macs a.dst_mac ≡ some mac)
    (at_pd : m.pds a.pd_entry ≡ some pd)
    (wide : IsAllocatable env p m d rn a enough_memory fresh at_p at_rn fits known mac pd) where
  abbrev allocated : Machine
  allocated = configured env p m d rn a enough_memory fresh at_p at_rn fits known mac pd

  abbrev device : RdmaDev
  device = record d { qps_ptr = set d.qps_ptr a.qpid m.next }

  first-InSync :
      shown_index (last_write m.bus (doorbell d.axil_ctl a.qpid)) ≡ 0
      → InSync p a.qpid device m.next allocated
  unfolding new_qp
  first-InSync silent =
      let qp = new_qp p (m.next + 1) (m.next + 1 + 1) (m.next + 1 + 1 + 1) a in
      let n = d.num_qp * a.qdepth in
      let at : get_rdma_per_q_config_addr rn_rdma_qcsr_sqpi_i a.qpid
          ≡ rn_rdma_qcsr_sqpi_i + 0x100 * (a.qpid - 1) =
        get_rdma_per_q_config_addr-register rn_rdma_qcsr_sqpi_i a.qpid (omega arith) wide.numbered
          wide.qpid in
      let same : last_write allocated.bus (doorbell d.axil_ctl a.qpid)
          ≡ last_write m.bus (doorbell d.axil_ctl a.qpid) =
        rw at (
          writes-doorbell d.axil_ctl qp mac (device_buffer (sq_start rn n) (n * 64))
            (device_buffer (cq_start rn n) (n * 4)) (device_buffer (rq_start rn n) (n * 512))
            a.partion_key pd.pd_num m.bus) in
      record {
        q = qp;
        has = record {
          real = real;
          at_dev = rw (==-refl p) refl;
          at_pointer = get_elem?-set_self d.qps_ptr a.qpid m.next known;
          at_qp = rw (==-refl m.next) refl;
        };
        shown = ap shown_index same ∙ silent;
        none_left = refl;
        fits = omega arith;
      }

  -- A queue pair whose queues `allocate_rdma_qp` has put in the card's memory, on a mapped device
  -- with room for them and a doorbell that has not been rung, or was set back to 0. Whatever a
  -- program then does with the device, as long as its calls return: posts on this queue pair and on
  -- others, polls, dumps, elements in queues of the host's memory, buffers on the card and
  -- registrations of regions, in any order and number. The queue pair stays in its place, its
  -- doorbell register shows the producer index of its object, and the consumer index is the same.
  pub allocate_rdma_qp-InSync :
      (q : Ptr) (m1 m' : Machine)
      → shown_index (last_write m.bus (doorbell d.axil_ctl a.qpid)) ≡ 0
      → allocate_rdma_qp env p device_mem a m ≡ ret q m1
      → Steps env p a.qpid device m.next m1 m'
      → InSync p a.qpid device m.next m'
  allocate_rdma_qp-InSync q m1 m' silent run steps =
      let run' =
        allocate_rdma_qp-run env p m d rn a enough_memory fresh at_p at_rn fits known mac pd mapped
          at_win at_mac at_pd wide in
      let same : allocated ≡ m1 = ret_machine m.next q allocated m1 (sym run' ∙ run) in
      let first : InSync p a.qpid device m.next m1 = rw same at (first-InSync silent) in
      Steps-InSync env p a.qpid device m.next wide.numbered wide.qpid m1 m' steps first
