-- ===== src/Rdma/Qp.antt =====
-- Queue pairs: the object, its three queues, and its block of 256 bytes among the registers.
pub mod Allocate
pub mod Laws
pub mod Registers
use Prim.Native.String.{String}
use reco_nic.Prelude.{
  ℕ, ◌+◌, ◌-◌, ◌*◌, ◌^◌, Option, none, some, List, bit_and, bit_or, ltb, ◌==◌, if◌then◌else◌, u32,
  shl32, get_elem?, set, length,
}
use reco_nic.Machine.{
  Machine, Env, Cmd, Ptr, null, WinSize, RdmaDev, RdmaQp, RdmaBuff, ret, fault, exit_failure, pure,
  deref, not_null, malloc, set_qp, set_rdma_dev, ◌>>=◌, ◌>>◌,
}
use reco_nic.Registers.{
  rn_rdma_qcsr_ipdesaddr1_i, rn_rdma_qcsr_macdesaddlsb_i, rn_rdma_qcsr_macdesaddmsb_i,
  rn_rdma_qcsr_sqba_i, rn_rdma_qcsr_sqbamsb_i, rn_rdma_qcsr_cqba_i, rn_rdma_qcsr_cqbamsb_i,
  rn_rdma_qcsr_rqba_i, rn_rdma_qcsr_rqbamsb_i, rn_rdma_qcsr_cqdbadd_i, rn_rdma_qcsr_cqdbaddmsb_i,
  rn_rdma_qcsr_rqwptrdbadd_i, rn_rdma_qcsr_rqwptrdbaddmsb_i, rn_rdma_qcsr_destqpconf_i,
  rn_rdma_qcsr_qdepth_i, rn_rdma_qcsr_qpconf_i, rn_rdma_qcsr_qpadvconf_i, rn_rdma_qcsr_pd_i,
  rn_rdma_qcsr_lstrqreq_i, rn_rdma_qcsr_sqpsn_i,
}
use reco_nic.Control.{write32_data}
use reco_nic.Reconic.Address.{address_lsb, address_msb}
use reco_nic.Reconic.Buffer.{allocate_rdma_buffer}

unfoldable pub get_rdma_per_q_config_addr : (offset qpid : ℕ) → ℕ
get_rdma_per_q_config_addr offset qpid = u32 (offset + u32 (0x100 * u32 (qpid + 2 ^ 32 - 1)))

abbrev pub rqe_size : ℕ
rqe_size = 512

-- The pointer `qps_ptr[qpid]`; past the array it is a fault.
abbrev pub qp_pointer : RdmaDev → ℕ → Cmd Ptr
qp_pointer d qpid m = elim (get_elem? d.qps_ptr qpid) [ none ↦ fault | some qp ↦ ret qp m ]

-- A write to a register of queue pair `qpid`.
unfoldable pub write_q : (axil_ctl qpid register value : ℕ) → Cmd (Unit {0})
unfolding write32_data
write_q axil_ctl qpid register value =
    write32_data axil_ctl (get_rdma_per_q_config_addr register qpid) value

-- The first half of the registers that `allocate_rdma_qp` programs: the peer, the queues and the
-- doorbells.
unfoldable pub config_qp_addresses : (axil_ctl : ℕ) → WinSize → RdmaQp → Cmd (Unit {0})
unfolding write_q
config_qp_addresses axil_ctl w qp = do
  write_q axil_ctl qp.qpid rn_rdma_qcsr_ipdesaddr1_i qp.dst_ip
  dst_mac ← deref (λ m. m.macs) qp.dst_mac
  write_q axil_ctl qp.qpid rn_rdma_qcsr_macdesaddlsb_i dst_mac.mac_lsb
  write_q axil_ctl qp.qpid rn_rdma_qcsr_macdesaddmsb_i dst_mac.mac_msb
  sq ← deref (λ m. m.buffs) qp.sq
  write_q axil_ctl qp.qpid rn_rdma_qcsr_sqba_i (address_lsb w sq.dma_addr)
  write_q axil_ctl qp.qpid rn_rdma_qcsr_sqbamsb_i (address_msb w sq.dma_addr)
  cq ← deref (λ m. m.buffs) qp.cq
  write_q axil_ctl qp.qpid rn_rdma_qcsr_cqba_i (address_lsb w cq.dma_addr)
  write_q axil_ctl qp.qpid rn_rdma_qcsr_cqbamsb_i (address_msb w cq.dma_addr)
  rq ← deref (λ m. m.buffs) qp.rq
  write_q axil_ctl qp.qpid rn_rdma_qcsr_rqba_i (address_lsb w rq.dma_addr)
  write_q axil_ctl qp.qpid rn_rdma_qcsr_rqbamsb_i (address_msb w rq.dma_addr)
  write_q axil_ctl qp.qpid rn_rdma_qcsr_cqdbadd_i (address_lsb w qp.cq_cidb_addr)
  write_q axil_ctl qp.qpid rn_rdma_qcsr_cqdbaddmsb_i (address_msb w qp.cq_cidb_addr)
  write_q axil_ctl qp.qpid rn_rdma_qcsr_rqwptrdbadd_i (address_lsb w qp.rq_cidb_addr)
  write_q axil_ctl qp.qpid rn_rdma_qcsr_rqwptrdbaddmsb_i (address_msb w qp.rq_cidb_addr)

unfoldable pub qp_config_word : ℕ
qp_config_word =
    let en_qp : ℕ = 1 in
    let mtu_config : ℕ = 4 in
    let rq_buffer_entry_size = rqe_size in
    bit_or
      (bit_or
        (bit_or (bit_or (bit_and en_qp 0x00000001) (bit_and 0xc 0x0000000c))
          (bit_and 0x30 0x000000f0))
        (bit_and (shl32 mtu_config 8) 0x0000ff00))
      (bit_and (shl32 rq_buffer_entry_size 16) 0xffff0000)

unfoldable pub qp_adv_conf_word : (partion_key : ℕ) → ℕ
qp_adv_conf_word partion_key =
    let traffic_class : ℕ = 0 in
    let time_to_live : ℕ = 64 in
    bit_or
      (bit_or (bit_and (shl32 partion_key 16) 0xffff0000)
        (bit_and (shl32 time_to_live 8) 0x0000ff00))
      (bit_and traffic_class 0x000000ff)

-- The second half: the destination, the depth and the control words.
unfoldable pub config_qp_control : (axil_ctl partion_key : ℕ) → RdmaQp → Cmd (Unit {0})
unfolding write_q qp_config_word qp_adv_conf_word
config_qp_control axil_ctl partion_key qp = do
  write_q axil_ctl qp.qpid rn_rdma_qcsr_destqpconf_i qp.dst_qpid
  write_q axil_ctl qp.qpid rn_rdma_qcsr_qdepth_i (bit_or qp.qdepth (shl32 qp.qdepth 16))
  write_q axil_ctl qp.qpid rn_rdma_qcsr_qpconf_i qp_config_word
  write_q axil_ctl qp.qpid rn_rdma_qcsr_qpadvconf_i (qp_adv_conf_word partion_key)
  pd ← deref (λ m. m.pds) qp.pd_entry
  write_q axil_ctl qp.qpid rn_rdma_qcsr_pd_i pd.pd_num

-- The parameters that describe the connection of a queue pair.
pub record QpArgs : Type 0 where
  pub qpid : ℕ
  pub dst_qpid : ℕ
  pub pd_entry : Ptr
  pub cq_cidb_addr : ℕ
  pub rq_cidb_addr : ℕ
  pub qdepth : ℕ
  pub dst_mac : Ptr
  pub dst_ip : ℕ
  pub partion_key : ℕ

-- The object that `allocate_rdma_qp` fills in. `sq_psn`, `pd_num` and `last_rq_psn` stay as `malloc`
-- left them.
unfoldable pub new_qp : (rdma_dev sq cq rq : Ptr) → QpArgs → RdmaQp
new_qp rdma_dev sq cq rq a = record {
  rdma_dev = rdma_dev;
  qpid = a.qpid;
  sq = sq;
  sq_psn = 0;
  sq_pidb = 0;
  sq_cidb = 0;
  cq = cq;
  cq_cidb_addr = a.cq_cidb_addr;
  cq_cidb = 0;
  rq = rq;
  rq_cidb_addr = a.rq_cidb_addr;
  rq_cidb = 0;
  rq_pidb = 0;
  pd_num = 0;
  pd_entry = a.pd_entry;
  dst_qpid = a.dst_qpid;
  qdepth = a.qdepth;
  last_rq_psn = 0;
  dst_mac = a.dst_mac;
  dst_ip = a.dst_ip;
}

-- What stands before the registers are programmed: the three queues, and the entry in `qps_ptr`.
unfoldable pub setup_qp : Env → (rdma_dev : Ptr) → (buf_location : String) → QpArgs → Cmd Ptr
unfolding new_qp
setup_qp env rdma_dev buf_location a = do
  d ← deref (λ m. m.rdma_devs) rdma_dev
  qp ← malloc env
  not_null qp
  sq ← allocate_rdma_buffer env d.rn_dev (u32 (u32 (d.num_qp * a.qdepth) * 64)) buf_location
  cq ← allocate_rdma_buffer env d.rn_dev (u32 (u32 (d.num_qp * a.qdepth) * 4)) buf_location
  rq ← allocate_rdma_buffer env d.rn_dev (u32 (u32 (d.num_qp * a.qdepth) * rqe_size)) buf_location
  set_qp qp (new_qp rdma_dev sq cq rq a)
  if ltb a.qpid (length d.qps_ptr)
      then (do set_rdma_dev rdma_dev (record d { qps_ptr = set d.qps_ptr a.qpid qp }); pure qp)
      else (λ m. fault)

-- The parameter `r_key` of the source is not used by it.
unfoldable pub allocate_rdma_qp :
    Env → (rdma_dev : Ptr) → (buf_location : String) → QpArgs → Cmd Ptr
allocate_rdma_qp env rdma_dev buf_location a = do
  d ← deref (λ m. m.rdma_devs) rdma_dev
  w ← deref (λ m. m.win_sizes) d.win_size
  qp ← setup_qp env rdma_dev buf_location a
  q ← deref (λ m. m.qps) qp
  if d.axil_ctl == 0 then exit_failure else do
    config_qp_addresses d.axil_ctl w q
    config_qp_control d.axil_ctl a.partion_key q
    pure qp

-- The opcode 0x0a is arbitrary: it avoids an error on the order of opcodes.
unfoldable pub last_rq_word : (last_rq_psn : ℕ) → ℕ
last_rq_word last_rq_psn =
    let rq_opcode : ℕ = 0x0000000a in
    bit_or (bit_and (shl32 rq_opcode 24) 0xff000000) (bit_and last_rq_psn 0x00ffffff)

unfoldable pub config_last_rq_psn : (rdma_dev : Ptr) → (qpid last_rq_psn : ℕ) → Cmd (Unit {0})
unfolding write_q last_rq_word
config_last_rq_psn rdma_dev qpid last_rq_psn = do
  d ← deref (λ m. m.rdma_devs) rdma_dev
  write_q d.axil_ctl qpid rn_rdma_qcsr_lstrqreq_i (last_rq_word last_rq_psn)
  qp ← qp_pointer d qpid
  q ← deref (λ m. m.qps) qp
  set_qp qp (record q { last_rq_psn = last_rq_psn })

unfoldable pub config_sq_psn : (rdma_dev : Ptr) → (qpid sq_psn : ℕ) → Cmd (Unit {0})
unfolding write_q
config_sq_psn rdma_dev qpid sq_psn = do
  d ← deref (λ m. m.rdma_devs) rdma_dev
  write_q d.axil_ctl qpid rn_rdma_qcsr_sqpsn_i sq_psn
  qp ← qp_pointer d qpid
  q ← deref (λ m. m.qps) qp
  set_qp qp (record q { sq_psn = sq_psn })
