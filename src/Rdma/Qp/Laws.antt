-- ===== src/Rdma/Qp/Laws.antt =====
-- The registers of a queue pair: where they are, and what `allocate_rdma_qp` leaves in them.
use reco_nic.Prelude.{
  ℕ, ◌+◌, ◌-◌, ◌*◌, ◌^◌, ◌≤◌, ◌<◌, ◌≡◌, ◌≢◌, List, [], ◌∷◌, ◌++◌, some, arith, bit_or, u32, shl32,
}
use reco_nic.Machine.{
  Machine, RdmaQp, RdmaBuff, RdmaPd, MacAddr, WinSize, Access, write, ret, deref,
}
use reco_nic.Machine.Trace.{WritesWithin}
use reco_nic.Registers.{
  rn_rdma_qcsr_ipdesaddr1_i, rn_rdma_qcsr_macdesaddlsb_i, rn_rdma_qcsr_macdesaddmsb_i,
  rn_rdma_qcsr_sqba_i, rn_rdma_qcsr_sqbamsb_i, rn_rdma_qcsr_cqba_i, rn_rdma_qcsr_cqbamsb_i,
  rn_rdma_qcsr_rqba_i, rn_rdma_qcsr_rqbamsb_i, rn_rdma_qcsr_cqdbadd_i, rn_rdma_qcsr_cqdbaddmsb_i,
  rn_rdma_qcsr_rqwptrdbadd_i, rn_rdma_qcsr_rqwptrdbaddmsb_i, rn_rdma_qcsr_destqpconf_i,
  rn_rdma_qcsr_qdepth_i, rn_rdma_qcsr_qpconf_i, rn_rdma_qcsr_qpadvconf_i, rn_rdma_qcsr_pd_i,
}
use reco_nic.Reconic.Address.{address_lsb, address_msb}
use reco_nic.Rdma.Qp.{
  get_rdma_per_q_config_addr, config_qp_addresses, config_qp_control, qp_config_word,
  qp_adv_conf_word,
}

-- The block of queue pair `qpid`, from its number 1 on: register `r` of queue pair 1, moved up.
abbrev pub q_register : (r qpid : ℕ) → ℕ
q_register r qpid = r + 0x100 * (qpid - 1)

-- No wrap for any queue pair number that the engine has (8 bits) and well beyond.
pub get_rdma_per_q_config_addr-register :
    (r qpid : ℕ)
    → r < 2 ^ 20
    → 1 ≤ qpid
    → qpid < 2 ^ 16
    → get_rdma_per_q_config_addr r qpid ≡ q_register r qpid
unfolding get_rdma_per_q_config_addr
get_rdma_per_q_config_addr-register r qpid h p q = omega arith

-- The registers of different queue pairs are different, whichever they are.
pub q_register-disjoint :
    (r r' i j : ℕ)
    → 0x60200 ≤ r
    → r < 0x60300
    → 0x60200 ≤ r'
    → r' < 0x60300
    → 1 ≤ i
    → i < 2 ^ 16
    → 1 ≤ j
    → j < 2 ^ 16
    → i ≢ j
    → get_rdma_per_q_config_addr r i ≢ get_rdma_per_q_config_addr r' j
unfolding get_rdma_per_q_config_addr
q_register-disjoint r r' i j a b c d p q s t ne = omega arith

module _ (base : ℕ) (w : WinSize) (qp : RdmaQp) where
  abbrev pub block : ℕ
  block = 0x100 * (qp.qpid - 1)

  -- Every access of `config_qp_addresses`, newest first.
  abbrev pub address_writes : MacAddr → (sq cq rq : RdmaBuff) → List Access
  address_writes mac sq cq rq =
      write (base + (rn_rdma_qcsr_rqwptrdbaddmsb_i + block)) (u32 (address_msb w qp.rq_cidb_addr))
      ∷ write (base + (rn_rdma_qcsr_rqwptrdbadd_i + block)) (u32 (address_lsb w qp.rq_cidb_addr))
      ∷ write (base + (rn_rdma_qcsr_cqdbaddmsb_i + block)) (u32 (address_msb w qp.cq_cidb_addr))
      ∷ write (base + (rn_rdma_qcsr_cqdbadd_i + block)) (u32 (address_lsb w qp.cq_cidb_addr))
      ∷ write (base + (rn_rdma_qcsr_rqbamsb_i + block)) (u32 (address_msb w rq.dma_addr))
      ∷ write (base + (rn_rdma_qcsr_rqba_i + block)) (u32 (address_lsb w rq.dma_addr))
      ∷ write (base + (rn_rdma_qcsr_cqbamsb_i + block)) (u32 (address_msb w cq.dma_addr))
      ∷ write (base + (rn_rdma_qcsr_cqba_i + block)) (u32 (address_lsb w cq.dma_addr))
      ∷ write (base + (rn_rdma_qcsr_sqbamsb_i + block)) (u32 (address_msb w sq.dma_addr))
      ∷ write (base + (rn_rdma_qcsr_sqba_i + block)) (u32 (address_lsb w sq.dma_addr))
      ∷ write (base + (rn_rdma_qcsr_macdesaddmsb_i + block)) (u32 mac.mac_msb)
      ∷ write (base + (rn_rdma_qcsr_macdesaddlsb_i + block)) (u32 mac.mac_lsb)
      ∷ write (base + (rn_rdma_qcsr_ipdesaddr1_i + block)) (u32 qp.dst_ip)
      ∷ []

  pub config_qp_addresses-writes :
      (m : Machine) (mac : MacAddr) (sq cq rq : RdmaBuff)
      → 1 ≤ qp.qpid
      → qp.qpid < 2 ^ 16
      → m.macs qp.dst_mac ≡ some mac
      → m.buffs qp.sq ≡ some sq
      → m.buffs qp.cq ≡ some cq
      → m.buffs qp.rq ≡ some rq
      → config_qp_addresses base w qp m
        ≡ ret tt (record m { bus = address_writes mac sq cq rq ++ m.bus })
  unfolding config_qp_addresses get_rdma_per_q_config_addr
  config_qp_addresses-writes m mac sq cq rq p q at_mac at_sq at_cq at_rq =
      rw (at_mac, deref) (rw (at_sq, deref) (rw (at_cq, deref) (rw (at_rq, deref) (ground arith))))

  abbrev pub control_writes : (partion_key pd_num : ℕ) → List Access
  control_writes partion_key pd_num =
      write (base + (rn_rdma_qcsr_pd_i + block)) (u32 pd_num)
      ∷ write (base + (rn_rdma_qcsr_qpadvconf_i + block)) (u32 (qp_adv_conf_word partion_key))
      ∷ write (base + (rn_rdma_qcsr_qpconf_i + block)) (u32 qp_config_word)
      ∷ write (base + (rn_rdma_qcsr_qdepth_i + block)) (u32 (bit_or qp.qdepth (shl32 qp.qdepth 16)))
      ∷ write (base + (rn_rdma_qcsr_destqpconf_i + block)) (u32 qp.dst_qpid)
      ∷ []

  pub config_qp_control-writes :
      (m : Machine) (pd : RdmaPd) (partion_key : ℕ)
      → 1 ≤ qp.qpid
      → qp.qpid < 2 ^ 16
      → m.pds qp.pd_entry ≡ some pd
      → config_qp_control base partion_key qp m
        ≡ ret tt (record m { bus = control_writes partion_key pd.pd_num ++ m.bus })
  unfolding config_qp_control get_rdma_per_q_config_addr
  config_qp_control-writes m pd partion_key p q at_pd = rw (at_pd, deref) (ground arith)

  pub writes-WritesWithin :
      (mac : MacAddr) (sq cq rq : RdmaBuff) (partion_key pd_num : ℕ)
      → WritesWithin
          (base + (0x60200 + block))
          (base + (0x60300 + block))
          (control_writes partion_key pd_num ++ address_writes mac sq cq rq)
  writes-WritesWithin mac sq cq rq partion_key pd_num = omega arith
