-- ===== src/Machine/Heap.antt =====
-- The structs of lib/reconic.h and lib/rdma_api.h, and the store that holds them. A pointer is a
-- number, `null` is 0, and each struct has a map of its own, in which a freed object is `none`.
use reco_nic.Prelude.{ℕ, Option, List, ◌==◌, if◌then◌else◌}

abbrev pub Ptr : Type 0
Ptr = ℕ

abbrev pub null : Ptr
null = 0

pub record MacAddr : Type 0 where
  pub mac_lsb : ℕ
  pub mac_msb : ℕ

pub record WinSize : Type 0 where
  pub win_size_lsb : ℕ
  pub win_size_msb : ℕ

pub record RdmaBuff : Type 0 where
  pub buffer : ℕ
  pub dma_addr : ℕ
  pub buf_size : ℕ

pub record RnDev : Type 0 where
  pub axil_ctl : ℕ
  pub axil_map_size : ℕ
  pub base_buf : Ptr
  pub rdma_dev : Ptr
  pub buffer_offset : ℕ
  pub dev_buffer_offset : ℕ
  pub num_qp : ℕ
  pub win_size : Ptr

pub record RdmaGlbCsr : Type 0 where
  pub data_buf_size : ℕ
  pub data_buf_baseaddr : ℕ
  pub ipkt_err_stat_q_size : ℕ
  pub ipkt_err_stat_q_baseaddr : ℕ
  pub err_buf_baseaddr : ℕ
  pub err_buf_size : ℕ
  pub resp_err_pkt_buf_baseaddr : ℕ
  pub resp_err_pkt_buf_size : ℕ
  pub interrupt_enable : ℕ
  pub src_mac : MacAddr
  pub src_ip : ℕ
  pub udp_sport : ℕ
  pub num_qp_enabled : ℕ
  pub xrnic_conf : ℕ
  pub xrnic_advanced_conf : ℕ

-- The array behind `qps_ptr` is kept in the struct that points to it.
pub record RdmaDev : Type 0 where
  pub rn_dev : Ptr
  pub glb_csr : Ptr
  pub qps_ptr : List Ptr
  pub axil_ctl : ℕ
  pub num_qp : ℕ
  pub win_size : Ptr

pub record RdmaPd : Type 0 where
  pub pd_num : ℕ
  pub virtual_addr_lsb : ℕ
  pub virtual_addr_msb : ℕ
  pub dma_addr_lsb : ℕ
  pub dma_addr_msb : ℕ
  pub r_key : ℕ
  pub buffer_size_lsb : ℕ
  pub buffer_size_msb : ℕ
  pub pd_access_type : ℕ
  pub mr_buffer : Ptr

pub record RdmaQp : Type 0 where
  pub rdma_dev : Ptr
  pub qpid : ℕ
  pub sq : Ptr
  pub sq_psn : ℕ
  pub sq_pidb : ℕ
  pub sq_cidb : ℕ
  pub cq : Ptr
  pub cq_cidb_addr : ℕ
  pub cq_cidb : ℕ
  pub rq : Ptr
  pub rq_cidb_addr : ℕ
  pub rq_cidb : ℕ
  pub rq_pidb : ℕ
  pub pd_num : ℕ
  pub pd_entry : Ptr
  pub dst_qpid : ℕ
  pub qdepth : ℕ
  pub last_rq_psn : ℕ
  pub dst_mac : Ptr
  pub dst_ip : ℕ

-- One access to a memory-mapped register: its address and the word that was moved.
pub data Access : Type 0 where
  read : ℕ → ℕ → Access
  write : ℕ → ℕ → Access

-- One call on the character device of the card, with what it returned; `none` is -1.
pub data FileOp : Type 0 where
  seek : ℕ → Option ℕ → FileOp
  file_read : ℕ → Option (List ℕ) → FileOp
  file_write : List ℕ → Option ℕ → FileOp

-- `bus` and `file` have the newest entry first. `next` is the address that `malloc` gives next.
pub record Machine : Type 0 where
  pub bus : List Access
  pub file : List FileOp
  pub next : Ptr
  pub rn_devs : Ptr → Option RnDev
  pub win_sizes : Ptr → Option WinSize
  pub buffs : Ptr → Option RdmaBuff
  pub rdma_devs : Ptr → Option RdmaDev
  pub glb_csrs : Ptr → Option RdmaGlbCsr
  pub pds : Ptr → Option RdmaPd
  pub qps : Ptr → Option RdmaQp
  pub macs : Ptr → Option MacAddr
  pub memory : ℕ → ℕ

abbrev pub update {ℓ} : {A : Type ℓ} → (ℕ → A) → ℕ → A → ℕ → A
update f p v q = if p == q then v else f q
