-- ===== src/Rdma/Qp/Registers.antt =====
-- What `allocate_rdma_qp` leaves in the registers of its queue pair.
use reco_nic.Prelude.{
  ℕ, ◌+◌, ◌*◌, ◌/◌, ◌%◌, ◌^◌, ◌≤◌, ◌<◌, ◌≡◌, refl, ap, List, ◌++◌, some, arith, bit_or,
  same_address, u32, shl32,
}
use reco_nic.Bits.{and_field, or_field, field_or, bit_or-zero}
use reco_nic.Machine.{Ptr, RdmaQp, RdmaBuff, MacAddr, Access}
use reco_nic.Machine.Trace.{last_write}
use reco_nic.Registers.{
  rn_rdma_qcsr_ipdesaddr1_i, rn_rdma_qcsr_macdesaddlsb_i, rn_rdma_qcsr_macdesaddmsb_i,
  rn_rdma_qcsr_sqba_i, rn_rdma_qcsr_sqbamsb_i, rn_rdma_qcsr_cqba_i, rn_rdma_qcsr_cqbamsb_i,
  rn_rdma_qcsr_rqba_i, rn_rdma_qcsr_rqbamsb_i, rn_rdma_qcsr_cqdbadd_i, rn_rdma_qcsr_cqdbaddmsb_i,
  rn_rdma_qcsr_rqwptrdbadd_i, rn_rdma_qcsr_rqwptrdbaddmsb_i, rn_rdma_qcsr_destqpconf_i,
  rn_rdma_qcsr_qdepth_i, rn_rdma_qcsr_qpconf_i, rn_rdma_qcsr_qpadvconf_i, rn_rdma_qcsr_pd_i,
  rn_rdma_qcsr_sqpi_i,
}
use reco_nic.Reconic.Address.{address_lsb, address_msb}
use reco_nic.Reconic.Address.Laws.{bar_window}
use reco_nic.Rdma.Device.Writes.{card_address, Holds64, address_lsb-mod, address_msb-div}
use reco_nic.Rdma.Qp.{QpArgs, new_qp, qp_config_word, qp_adv_conf_word}
use reco_nic.Rdma.Qp.Laws.{q_register, address_writes, control_writes}

-- The words that the registers of a queue pair with the arguments `a` hold: who the peer is, where the queues and the
-- doorbells are, how deep the queues are, and the control words.
pub record IsConfigured (base : ℕ) (t : List Access) (a : QpArgs) (mac : MacAddr)
    (sq cq rq : RdmaBuff) (pd_num : ℕ) : Type 0 where
  pub peer_ip : last_write t (base + q_register rn_rdma_qcsr_ipdesaddr1_i a.qpid) ≡ some a.dst_ip
  pub peer_mac_lsb :
      last_write t (base + q_register rn_rdma_qcsr_macdesaddlsb_i a.qpid) ≡ some mac.mac_lsb
  pub peer_mac_msb :
      last_write t (base + q_register rn_rdma_qcsr_macdesaddmsb_i a.qpid) ≡ some mac.mac_msb
  pub peer_qp : last_write t (base + q_register rn_rdma_qcsr_destqpconf_i a.qpid) ≡ some a.dst_qpid
  pub send_queue :
      Holds64 t
        (base + q_register rn_rdma_qcsr_sqba_i a.qpid)
        (base + q_register rn_rdma_qcsr_sqbamsb_i a.qpid)
        (card_address sq.dma_addr)
  pub completion_queue :
      Holds64 t
        (base + q_register rn_rdma_qcsr_cqba_i a.qpid)
        (base + q_register rn_rdma_qcsr_cqbamsb_i a.qpid)
        (card_address cq.dma_addr)
  pub receive_queue :
      Holds64 t
        (base + q_register rn_rdma_qcsr_rqba_i a.qpid)
        (base + q_register rn_rdma_qcsr_rqbamsb_i a.qpid)
        (card_address rq.dma_addr)
  pub cq_doorbell :
      Holds64 t
        (base + q_register rn_rdma_qcsr_cqdbadd_i a.qpid)
        (base + q_register rn_rdma_qcsr_cqdbaddmsb_i a.qpid)
        (card_address a.cq_cidb_addr)
  pub rq_doorbell :
      Holds64 t
        (base + q_register rn_rdma_qcsr_rqwptrdbadd_i a.qpid)
        (base + q_register rn_rdma_qcsr_rqwptrdbaddmsb_i a.qpid)
        (card_address a.rq_cidb_addr)
  pub depth :
      last_write t (base + q_register rn_rdma_qcsr_qdepth_i a.qpid)
      ≡ some (a.qdepth * 2 ^ 16 + a.qdepth)
  pub conf : last_write t (base + q_register rn_rdma_qcsr_qpconf_i a.qpid) ≡ some 0x0200043d
  pub adv_conf :
      last_write t (base + q_register rn_rdma_qcsr_qpadvconf_i a.qpid)
      ≡ some (a.partion_key % 2 ^ 16 * 2 ^ 16 + 64 * 256)
  pub domain : last_write t (base + q_register rn_rdma_qcsr_pd_i a.qpid) ≡ some pd_num

-- The arguments have the widths of their C types; a queue depth fits the 16 bits of its register.
pub record IsQpWide (a : QpArgs) (mac : MacAddr) (sq cq rq : RdmaBuff) (pd_num : ℕ) : Type 0 where
  pub numbered : 1 ≤ a.qpid
  pub qpid : a.qpid < 2 ^ 16
  pub dst_ip : a.dst_ip < 2 ^ 32
  pub dst_qpid : a.dst_qpid < 2 ^ 32
  pub qdepth : a.qdepth < 2 ^ 16
  pub mac_lsb : mac.mac_lsb < 2 ^ 32
  pub mac_msb : mac.mac_msb < 2 ^ 32
  pub sq_addr : sq.dma_addr < 2 ^ 64
  pub cq_addr : cq.dma_addr < 2 ^ 64
  pub rq_addr : rq.dma_addr < 2 ^ 64
  pub cq_cidb_addr : a.cq_cidb_addr < 2 ^ 64
  pub rq_cidb_addr : a.rq_cidb_addr < 2 ^ 64
  pub domain : pd_num < 2 ^ 32

-- The object of a new queue pair with the arguments `a`: it has its queues, the connection, the
-- addresses of the doorbells and the depth, and its indices are 0.
pub record IsConnected (qp : RdmaQp) (rdma_dev sq cq rq : Ptr) (a : QpArgs) : Type 0 where
  pub at_rdma_dev : qp.rdma_dev ≡ rdma_dev
  pub at_qpid : qp.qpid ≡ a.qpid
  pub at_sq : qp.sq ≡ sq
  pub at_cq : qp.cq ≡ cq
  pub at_rq : qp.rq ≡ rq
  pub at_sq_pidb : qp.sq_pidb ≡ 0
  pub at_sq_cidb : qp.sq_cidb ≡ 0
  pub at_cq_cidb : qp.cq_cidb ≡ 0
  pub at_rq_pidb : qp.rq_pidb ≡ 0
  pub at_rq_cidb : qp.rq_cidb ≡ 0
  pub at_cq_cidb_addr : qp.cq_cidb_addr ≡ a.cq_cidb_addr
  pub at_rq_cidb_addr : qp.rq_cidb_addr ≡ a.rq_cidb_addr
  pub at_pd_entry : qp.pd_entry ≡ a.pd_entry
  pub at_dst_qpid : qp.dst_qpid ≡ a.dst_qpid
  pub at_dst_mac : qp.dst_mac ≡ a.dst_mac
  pub at_dst_ip : qp.dst_ip ≡ a.dst_ip
  pub at_qdepth : qp.qdepth ≡ a.qdepth

pub new_qp-IsConnected :
    (rdma_dev sq cq rq : Ptr) (a : QpArgs)
    → IsConnected (new_qp rdma_dev sq cq rq a) rdma_dev sq cq rq a
unfolding new_qp
new_qp-IsConnected rdma_dev sq cq rq a = record {
  at_rdma_dev = refl;
  at_qpid = refl;
  at_sq = refl;
  at_cq = refl;
  at_rq = refl;
  at_sq_pidb = refl;
  at_sq_cidb = refl;
  at_cq_cidb = refl;
  at_rq_pidb = refl;
  at_rq_cidb = refl;
  at_cq_cidb_addr = refl;
  at_rq_cidb_addr = refl;
  at_pd_entry = refl;
  at_dst_qpid = refl;
  at_dst_mac = refl;
  at_dst_ip = refl;
  at_qdepth = refl;
}

depth_word : (d : ℕ) → d < 2 ^ 16 → u32 (bit_or d (shl32 d 16)) ≡ d * 2 ^ 16 + d
depth_word d h = ground (arith, field_or 16 d d h)

adv_word : (k : ℕ) → u32 (qp_adv_conf_word k) ≡ k % 2 ^ 16 * 2 ^ 16 + 64 * 256
unfolding qp_adv_conf_word
adv_word k = ground (
  arith,
  and_field 16 16 (shl32 k 16),
  or_field 16 (k % 2 ^ 16) 0x4000 (omega arith),
  bit_or-zero (k % 2 ^ 16 * 2 ^ 16 + 0x4000),
)

abbrev both :
    (a : ℕ)
    → a < 2 ^ 64
    → (some (u32 (address_lsb bar_window a)) ≡ some (card_address a % 2 ^ 32))
      × (some (u32 (address_msb bar_window a)) ≡ some (card_address a / 2 ^ 32))
both a h = (ap some (address_lsb-mod a h), ap some (address_msb-div a h))

pub writes-IsConfigured :
    (base : ℕ) (a : QpArgs) (p sp cp rp : Ptr) (mac : MacAddr) (sq cq rq : RdmaBuff) (pd_num : ℕ)
    (old : List Access)
    → IsQpWide a mac sq cq rq pd_num
    → let qp = new_qp p sp cp rp a in
      IsConfigured base
        ((control_writes base bar_window qp a.partion_key pd_num
            ++ address_writes base bar_window qp mac sq cq rq)
          ++ old)
        a
        mac
        sq
        cq
        rq
        pd_num
unfolding qp_config_word new_qp
writes-IsConfigured base a p sp cp rp mac sq cq rq pd_num old h = record {
  peer_ip = simp same_address (ap some (omega arith));
  peer_mac_lsb = simp same_address (ap some (omega arith));
  peer_mac_msb = simp same_address (ap some (omega arith));
  peer_qp = simp same_address (ap some (omega arith));
  send_queue = simp same_address (both sq.dma_addr h.sq_addr);
  completion_queue = simp same_address (both cq.dma_addr h.cq_addr);
  receive_queue = simp same_address (both rq.dma_addr h.rq_addr);
  cq_doorbell = simp same_address (both a.cq_cidb_addr h.cq_cidb_addr);
  rq_doorbell = simp same_address (both a.rq_cidb_addr h.rq_cidb_addr);
  depth = simp same_address (ap some (depth_word a.qdepth h.qdepth));
  conf = simp same_address;
  adv_conf = simp same_address (ap some (adv_word a.partion_key));
  domain = simp same_address (ap some (omega arith));
}

-- The producer index of the send queue is not among the registers that are set.
pub writes-doorbell :
    (base : ℕ) (qp : RdmaQp) (mac : MacAddr) (sq cq rq : RdmaBuff) (k pd_num : ℕ)
    (old : List Access)
    → let bell = base + q_register rn_rdma_qcsr_sqpi_i qp.qpid in
      last_write
        ((control_writes base bar_window qp k pd_num
            ++ address_writes base bar_window qp mac sq cq rq)
          ++ old)
        bell
      ≡ last_write old bell
writes-doorbell base qp mac sq cq rq k pd_num old = simp same_address
