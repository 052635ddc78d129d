-- ===== src/Registers/Base.antt =====
-- Addresses, sizes and opcodes of lib/reconic_reg.h that belong to no RDMA register group.
use reco_nic.Prelude.{ℕ, ◌+◌}

abbrev pub axi_bar_size : ℕ
axi_bar_size = 0x000000ffffffffff

abbrev pub addr_mask : ℕ
addr_mask = 0xffffffff

abbrev pub rn_pc_base_address : ℕ
rn_pc_base_address = 0x100000

abbrev pub rn_scr_offset : ℕ
rn_scr_offset = 0x2000

abbrev pub rn_clr_offset : ℕ
rn_clr_offset = 0x3000

abbrev pub rn_scr_map_size : ℕ
rn_scr_map_size = 0x00400000

abbrev pub timeout_threshold : ℕ
timeout_threshold = 1000

abbrev pub rn_scr_version : ℕ
rn_scr_version = rn_pc_base_address + rn_scr_offset + 0x0

abbrev pub rn_scr_fatal_err : ℕ
rn_scr_fatal_err = rn_pc_base_address + rn_scr_offset + 0x4

abbrev pub rn_scr_trmhr_reg : ℕ
rn_scr_trmhr_reg = rn_pc_base_address + rn_scr_offset + 0x8

abbrev pub rn_scr_trmlr_reg : ℕ
rn_scr_trmlr_reg = rn_pc_base_address + rn_scr_offset + 0xC

abbrev pub rn_scr_trrmhr_reg : ℕ
rn_scr_trrmhr_reg = rn_pc_base_address + rn_scr_offset + 0x10

abbrev pub rn_scr_trrmlr_reg : ℕ
rn_scr_trrmlr_reg = rn_pc_base_address + rn_scr_offset + 0x14

abbrev pub rn_scr_template_reg : ℕ
rn_scr_template_reg = rn_pc_base_address + rn_scr_offset + 0x200

abbrev pub rn_clr_ctl_cmd : ℕ
rn_clr_ctl_cmd = rn_pc_base_address + rn_clr_offset + 0x0

abbrev pub rn_clr_ker_sts : ℕ
rn_clr_ker_sts = rn_pc_base_address + rn_clr_offset + 0x4

abbrev pub rn_clr_job_submitted : ℕ
rn_clr_job_submitted = rn_pc_base_address + rn_clr_offset + 0x8

abbrev pub rn_clr_job_completed_not_read : ℕ
rn_clr_job_completed_not_read = rn_pc_base_address + rn_clr_offset + 0xC

abbrev pub rn_clr_template : ℕ
rn_clr_template = rn_pc_base_address + rn_clr_offset + 0x200

abbrev pub rn_rdma_base_address : ℕ
rn_rdma_base_address = 0x00040000

abbrev pub rnic_op_write : ℕ
rnic_op_write = 0

abbrev pub rnic_op_write_immdt : ℕ
rnic_op_write_immdt = 1

abbrev pub rnic_op_send : ℕ
rnic_op_send = 2

abbrev pub rnic_op_send_immdt : ℕ
rnic_op_send_immdt = 3

abbrev pub rnic_op_read : ℕ
rnic_op_read = 4

abbrev pub rnic_op_send_inv : ℕ
rnic_op_send_inv = 12

abbrev pub rn_qdma_csr_base_address : ℕ
rn_qdma_csr_base_address = 0x00014000

abbrev pub axib_bdf_addr_translate_addr_lsb : ℕ
axib_bdf_addr_translate_addr_lsb = rn_qdma_csr_base_address + 0x00002420

abbrev pub axib_bdf_addr_translate_addr_msb : ℕ
axib_bdf_addr_translate_addr_msb = rn_qdma_csr_base_address + 0x00002424

abbrev pub axib_bdf_pasid_reserved_addr : ℕ
axib_bdf_pasid_reserved_addr = rn_qdma_csr_base_address + 0x00002428

abbrev pub axib_bdf_function_num_addr : ℕ
axib_bdf_function_num_addr = rn_qdma_csr_base_address + 0x0000242C

abbrev pub axib_bdf_map_control_addr : ℕ
axib_bdf_map_control_addr = rn_qdma_csr_base_address + 0x00002430

abbrev pub axib_bdf_reserved_addr : ℕ
axib_bdf_reserved_addr = rn_qdma_csr_base_address + 0x00002434

abbrev pub axib_bdf_map_control : ℕ
axib_bdf_map_control = 0xC1000000
