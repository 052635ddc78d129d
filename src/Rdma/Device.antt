-- ===== src/Rdma/Device.antt =====
-- Creating the RDMA device object and programming the global registers.
pub mod Writes
pub mod Laws
use reco_nic.Prelude.{
  ℕ, ◌+◌, bit_and, bit_or, not, ltb, ◌==◌, ◌&&◌, if◌then◌else◌, u8, u16, u32, shl32, shr, replicate,
}
use reco_nic.Machine.{
  Machine, Env, Cmd, Ptr, null, MacAddr, RdmaGlbCsr, ret, fault, pure, when, deref, not_null,
  malloc, set_rn_dev, set_rdma_dev, set_glb_csr, ◌>>=◌, ◌>>◌,
}
use reco_nic.Registers.{
  rn_rdma_gcsr_datbufba, rn_rdma_gcsr_datbufbamsb, rn_rdma_gcsr_datbufsz, rn_rdma_gcsr_ipkterrqba,
  rn_rdma_gcsr_ipkterrqbamsb, rn_rdma_gcsr_ipkterrqsz, rn_rdma_gcsr_errbufba,
  rn_rdma_gcsr_errbufbamsb, rn_rdma_gcsr_errbufsz, rn_rdma_gcsr_resperrpktba,
  rn_rdma_gcsr_resperrpktbamsb, rn_rdma_gcsr_resperrsz, rn_rdma_gcsr_resperrszmsb,
  rn_rdma_gcsr_inten, rn_rdma_gcsr_macxaddlsb, rn_rdma_gcsr_macxaddmsb, rn_rdma_gcsr_ipv4xadd,
  rn_rdma_gcsr_xrnicconf, rn_rdma_gcsr_xrnicadconf,
}
use reco_nic.Control.{write32_data}
use reco_nic.Reconic.Address.{address_lsb, address_msb}

-- What `malloc` leaves in the struct: nothing reads it before `open_rdma_dev` has set it.
abbrev pub unset_csr : RdmaGlbCsr
unset_csr = record {
  data_buf_size = 0;
  data_buf_baseaddr = 0;
  ipkt_err_stat_q_size = 0;
  ipkt_err_stat_q_baseaddr = 0;
  err_buf_baseaddr = 0;
  err_buf_size = 0;
  resp_err_pkt_buf_baseaddr = 0;
  resp_err_pkt_buf_size = 0;
  interrupt_enable = 0;
  src_mac = record { mac_lsb = 0; mac_msb = 0 };
  src_ip = 0;
  udp_sport = 0;
  num_qp_enabled = 0;
  xrnic_conf = 0;
  xrnic_advanced_conf = 0;
}

-- The loop writes through the array's pointer, so a NULL there is a fault unless `num_qp` is 0.
unfoldable pub create_rdma_dev : Env → Ptr → Cmd Ptr
create_rdma_dev env rn_dev = do
  rn ← deref (λ m. m.rn_devs) rn_dev
  rdma_dev ← malloc env
  not_null rdma_dev
  glb_csr ← malloc env
  when (not (glb_csr == null)) (set_glb_csr glb_csr unset_csr)
  qps_ptr ← malloc env
  when (ltb 0 rn.num_qp && (qps_ptr == null)) (λ m. fault)
  set_rdma_dev rdma_dev (record {
    rn_dev = rn_dev;
    glb_csr = glb_csr;
    qps_ptr = replicate rn.num_qp null;
    axil_ctl = rn.axil_ctl;
    num_qp = rn.num_qp;
    win_size = rn.win_size;
  })
  set_rn_dev rn_dev (record rn { rdma_dev = rdma_dev })
  pure rdma_dev

unfoldable pub config_rdma_global_csr : Ptr → Cmd (Unit {0})
unfolding write32_data
config_rdma_global_csr rdma_dev = do
  d ← deref (λ m. m.rdma_devs) rdma_dev
  csr ← deref (λ m. m.glb_csrs) d.glb_csr
  w ← deref (λ m. m.win_sizes) d.win_size
  write32_data d.axil_ctl rn_rdma_gcsr_datbufba (address_lsb w csr.data_buf_baseaddr)
  write32_data d.axil_ctl rn_rdma_gcsr_datbufbamsb (address_msb w csr.data_buf_baseaddr)
  write32_data d.axil_ctl rn_rdma_gcsr_datbufsz csr.data_buf_size
  write32_data d.axil_ctl rn_rdma_gcsr_ipkterrqba (address_lsb w csr.ipkt_err_stat_q_baseaddr)
  write32_data d.axil_ctl rn_rdma_gcsr_ipkterrqbamsb (address_msb w csr.ipkt_err_stat_q_baseaddr)
  write32_data d.axil_ctl rn_rdma_gcsr_ipkterrqsz csr.ipkt_err_stat_q_size
  write32_data d.axil_ctl rn_rdma_gcsr_errbufba (address_lsb w csr.err_buf_baseaddr)
  write32_data d.axil_ctl rn_rdma_gcsr_errbufbamsb (address_msb w csr.err_buf_baseaddr)
  write32_data d.axil_ctl rn_rdma_gcsr_errbufsz csr.err_buf_size
  write32_data d.axil_ctl rn_rdma_gcsr_resperrpktba (address_lsb w csr.resp_err_pkt_buf_baseaddr)
  write32_data d.axil_ctl rn_rdma_gcsr_resperrpktbamsb (address_msb w csr.resp_err_pkt_buf_baseaddr)
  write32_data d.axil_ctl rn_rdma_gcsr_resperrsz
      (u32 (bit_and csr.resp_err_pkt_buf_size 0x00000000ffffffff))
  write32_data d.axil_ctl rn_rdma_gcsr_resperrszmsb
      (u32 (bit_and (shr csr.resp_err_pkt_buf_size 32) 0x00000000ffffffff))
  write32_data d.axil_ctl rn_rdma_gcsr_inten csr.interrupt_enable
  write32_data d.axil_ctl rn_rdma_gcsr_macxaddlsb csr.src_mac.mac_lsb
  write32_data d.axil_ctl rn_rdma_gcsr_macxaddmsb csr.src_mac.mac_msb
  write32_data d.axil_ctl rn_rdma_gcsr_ipv4xadd csr.src_ip
  write32_data d.axil_ctl rn_rdma_gcsr_xrnicconf csr.xrnic_conf
  write32_data d.axil_ctl rn_rdma_gcsr_xrnicadconf csr.xrnic_advanced_conf

-- The word of XRNICCONF, from the values that `open_rdma_dev` sets its parts to.
unfoldable pub xrnic_conf_word : (udp_sport num_qp : ℕ) → ℕ
xrnic_conf_word udp_sport num_qp =
    let reserved1 : ℕ = 0 in
    let reserved2 : ℕ = 0 in
    let err_buf_en : ℕ = 1 in
    let tx_ack_gen : ℕ = 0 in
    let en_ernic : ℕ = 1 in
    let config_8bit =
      bit_or
        (bit_or
          (bit_or
            (bit_or (bit_and (shl32 reserved1 6) 0x000000c0)
              (bit_and (shl32 err_buf_en 5) 0x00000020))
            (bit_and (shl32 tx_ack_gen 3) 0x00000018))
          (bit_and (shl32 reserved2 1) 0x00000006))
        (bit_and en_ernic 0x00000001) in
    bit_or (bit_or (bit_and (shl32 udp_sport 16) 0xffff0000) (bit_and (shl32 num_qp 8) 0x0000ff00))
      (bit_and config_8bit 0x000000ff)

unfoldable pub xrnic_advanced_conf_word : ℕ
xrnic_advanced_conf_word =
    let sw_override_enable : ℕ = 0 in
    let retry_cnt_fatal_dis : ℕ = 1 in
    let base_count_width : ℕ = 10 in
    let sw_override_qp_num : ℕ = 0 in
    let config_16bit = bit_and 0x0000000f (
      bit_or (bit_and sw_override_enable 0x00000001)
        (bit_and (shl32 retry_cnt_fatal_dis 2) 0x00000004)) in
    bit_or (bit_or config_16bit (bit_and (shl32 base_count_width 16) 0x000f0000))
      (bit_and (shl32 sw_override_qp_num 24) 0xff000000)

-- The parameters that describe the buffers of the engine.
pub record DevBuffers : Type 0 where
  pub num_data_buf : ℕ
  pub per_data_buf_size : ℕ
  pub data_buf_baseaddr : ℕ
  pub ipkt_err_stat_q_size : ℕ
  pub ipkt_err_stat_q_baseaddr : ℕ
  pub num_err_buf : ℕ
  pub per_err_buf_size : ℕ
  pub err_buf_baseaddr : ℕ
  pub resp_err_pkt_buf_size : ℕ
  pub resp_err_pkt_buf_baseaddr : ℕ

-- What `open_rdma_dev` stores in the global configuration of a device with `num_qp` queue pairs.
unfoldable pub global_config : MacAddr → (local_ip udp_sport num_qp : ℕ) → DevBuffers → RdmaGlbCsr
unfolding xrnic_conf_word xrnic_advanced_conf_word
global_config local_mac local_ip udp_sport num_qp b = record {
  data_buf_size = bit_or (shl32 b.per_data_buf_size 16) b.num_data_buf;
  data_buf_baseaddr = b.data_buf_baseaddr;
  ipkt_err_stat_q_size = b.ipkt_err_stat_q_size;
  ipkt_err_stat_q_baseaddr = b.ipkt_err_stat_q_baseaddr;
  err_buf_baseaddr = b.err_buf_baseaddr;
  err_buf_size = bit_or (shl32 b.per_err_buf_size 16) b.num_err_buf;
  resp_err_pkt_buf_baseaddr = b.resp_err_pkt_buf_baseaddr;
  resp_err_pkt_buf_size = b.resp_err_pkt_buf_size;
  interrupt_enable = 0x000000FF;
  src_mac = local_mac;
  src_ip = local_ip;
  udp_sport = u16 udp_sport;
  num_qp_enabled = u8 num_qp;
  xrnic_conf = xrnic_conf_word udp_sport num_qp;
  xrnic_advanced_conf = xrnic_advanced_conf_word;
}

unfoldable pub open_rdma_dev :
    Ptr → MacAddr → (local_ip udp_sport : ℕ) → DevBuffers → Cmd (Unit {0})
unfolding config_rdma_global_csr
open_rdma_dev rdma_dev local_mac local_ip udp_sport b = do
  d ← deref (λ m. m.rdma_devs) rdma_dev
  old ← deref (λ m. m.glb_csrs) d.glb_csr
  set_glb_csr d.glb_csr (global_config local_mac local_ip udp_sport d.num_qp b)
  config_rdma_global_csr rdma_dev
