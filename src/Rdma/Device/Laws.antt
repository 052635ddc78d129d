-- ===== src/Rdma/Device/Laws.antt =====
-- What the global registers hold once the device is open.
use reco_nic.Prelude.{
  ℕ, ◌+◌, ◌*◌, ◌/◌, ◌%◌, ◌^◌, ◌≤◌, ◌<◌, ◌≡◌, ap, List, ◌++◌, some, ◌⊎◌, arith, bit_and, bit_or,
  same_address, u32, shl32, shr,
}
use reco_nic.Bits.{and_low, or_field}
use reco_nic.Machine.{Machine, Ptr, RdmaDev, RdmaGlbCsr, MacAddr, Access, ret, update, deref}
use reco_nic.Machine.Trace.{last_write, last_write-append_outside}
use reco_nic.Registers.{
  rn_rdma_gcsr_datbufba, rn_rdma_gcsr_datbufbamsb, rn_rdma_gcsr_datbufsz, rn_rdma_gcsr_ipkterrqba,
  rn_rdma_gcsr_ipkterrqbamsb, rn_rdma_gcsr_ipkterrqsz, rn_rdma_gcsr_errbufba,
  rn_rdma_gcsr_errbufbamsb, rn_rdma_gcsr_errbufsz, rn_rdma_gcsr_resperrpktba,
  rn_rdma_gcsr_resperrpktbamsb, rn_rdma_gcsr_resperrsz, rn_rdma_gcsr_resperrszmsb,
  rn_rdma_gcsr_inten, rn_rdma_gcsr_macxaddlsb, rn_rdma_gcsr_macxaddmsb, rn_rdma_gcsr_ipv4xadd,
  rn_rdma_gcsr_xrnicconf, rn_rdma_gcsr_xrnicadconf,
}
use reco_nic.Reconic.Address.Laws.{bar_window}
use reco_nic.Rdma.Device.{open_rdma_dev, global_config, DevBuffers}
use reco_nic.Rdma.Device.Writes.{
  xrnic_conf_word_fields, card_address, Holds64, address_lsb-mod, address_msb-div, global_writes,
  config_rdma_global_csr-writes, global_writes-WritesWithin,
}

-- The global registers of a device that is mapped at `base` and has been opened with these values.
pub record IsOpen (base : ℕ) (t : List Access) (mac : MacAddr) (ip udp_sport num_qp : ℕ)
    (b : DevBuffers) : Type 0 where
  pub data_buffer :
      Holds64 t
        (base + rn_rdma_gcsr_datbufba)
        (base + rn_rdma_gcsr_datbufbamsb)
        (card_address b.data_buf_baseaddr)
  pub data_buffer_size :
      last_write t (base + rn_rdma_gcsr_datbufsz)
      ≡ some (b.per_data_buf_size * 2 ^ 16 + b.num_data_buf)
  pub packet_errors :
      Holds64 t
        (base + rn_rdma_gcsr_ipkterrqba)
        (base + rn_rdma_gcsr_ipkterrqbamsb)
        (card_address b.ipkt_err_stat_q_baseaddr)
  pub packet_errors_size :
      last_write t (base + rn_rdma_gcsr_ipkterrqsz) ≡ some b.ipkt_err_stat_q_size
  pub error_buffer :
      Holds64 t
        (base + rn_rdma_gcsr_errbufba)
        (base + rn_rdma_gcsr_errbufbamsb)
        (card_address b.err_buf_baseaddr)
  pub error_buffer_size :
      last_write t (base + rn_rdma_gcsr_errbufsz)
      ≡ some (b.per_err_buf_size * 2 ^ 16 + b.num_err_buf)
  pub response_errors :
      Holds64 t
        (base + rn_rdma_gcsr_resperrpktba)
        (base + rn_rdma_gcsr_resperrpktbamsb)
        (card_address b.resp_err_pkt_buf_baseaddr)
  pub response_errors_size :
      Holds64 t
        (base + rn_rdma_gcsr_resperrsz)
        (base + rn_rdma_gcsr_resperrszmsb)
        b.resp_err_pkt_buf_size
  pub interrupts : last_write t (base + rn_rdma_gcsr_inten) ≡ some 0xff
  pub mac_lsb : last_write t (base + rn_rdma_gcsr_macxaddlsb) ≡ some mac.mac_lsb
  pub mac_msb : last_write t (base + rn_rdma_gcsr_macxaddmsb) ≡ some mac.mac_msb
  pub address : last_write t (base + rn_rdma_gcsr_ipv4xadd) ≡ some ip
  pub conf :
      last_write t (base + rn_rdma_gcsr_xrnicconf)
      ≡ some (udp_sport % 2 ^ 16 * 2 ^ 16 + num_qp % 256 * 256 + 0x21)
  pub advanced_conf : last_write t (base + rn_rdma_gcsr_xrnicadconf) ≡ some 0x000a0004

-- The arguments have the widths of their C types.
pub record IsWide (mac : MacAddr) (ip : ℕ) (b : DevBuffers) : Type 0 where
  pub num_data_buf : b.num_data_buf < 2 ^ 16
  pub per_data_buf_size : b.per_data_buf_size < 2 ^ 16
  pub data_buf_baseaddr : b.data_buf_baseaddr < 2 ^ 64
  pub ipkt_err_stat_q_size : b.ipkt_err_stat_q_size < 2 ^ 16
  pub ipkt_err_stat_q_baseaddr : b.ipkt_err_stat_q_baseaddr < 2 ^ 64
  pub num_err_buf : b.num_err_buf < 2 ^ 16
  pub per_err_buf_size : b.per_err_buf_size < 2 ^ 16
  pub err_buf_baseaddr : b.err_buf_baseaddr < 2 ^ 64
  pub resp_err_pkt_buf_size : b.resp_err_pkt_buf_size < 2 ^ 64
  pub resp_err_pkt_buf_baseaddr : b.resp_err_pkt_buf_baseaddr < 2 ^ 64
  pub mac_lsb : mac.mac_lsb < 2 ^ 32
  pub mac_msb : mac.mac_msb < 2 ^ 32
  pub address : ip < 2 ^ 32

size_word :
    (hi lo : ℕ) → hi < 2 ^ 16 → lo < 2 ^ 16 → u32 (bit_or (shl32 hi 16) lo) ≡ hi * 2 ^ 16 + lo
size_word hi lo p q = ground (arith, or_field 16 hi lo q)

halves :
    (v : ℕ)
    → v < 2 ^ 64
    → (u32 (u32 (bit_and v 0xffffffff)) ≡ v % 2 ^ 32)
      × (u32 (u32 (bit_and (shr v 32) 0xffffffff)) ≡ v / 2 ^ 32)
halves v h = (ground (arith, and_low 32 v), ground (arith, and_low 32 (shr v 32)))

global_writes-IsOpen :
    (base ip udp_sport num_qp : ℕ) (mac : MacAddr) (b : DevBuffers) (old : List Access)
    → IsWide mac ip b
    → IsOpen base
        (global_writes base bar_window (global_config mac ip udp_sport num_qp b) ++ old)
        mac
        ip
        udp_sport
        num_qp
        b
unfolding global_config
global_writes-IsOpen base ip udp_sport num_qp mac b old h = record {
  data_buffer = simp same_address (
    ap some (address_lsb-mod b.data_buf_baseaddr h.data_buf_baseaddr),
    ap some (address_msb-div b.data_buf_baseaddr h.data_buf_baseaddr),
  );
  data_buffer_size =
      simp same_address
        (ap some (size_word b.per_data_buf_size b.num_data_buf h.per_data_buf_size h.num_data_buf));
  packet_errors = simp same_address (
    ap some (address_lsb-mod b.ipkt_err_stat_q_baseaddr h.ipkt_err_stat_q_baseaddr),
    ap some (address_msb-div b.ipkt_err_stat_q_baseaddr h.ipkt_err_stat_q_baseaddr),
  );
  packet_errors_size = simp same_address (ap some (omega arith));
  error_buffer = simp same_address (
    ap some (address_lsb-mod b.err_buf_baseaddr h.err_buf_baseaddr),
    ap some (address_msb-div b.err_buf_baseaddr h.err_buf_baseaddr),
  );
  error_buffer_size =
      simp same_address
        (ap some (size_word b.per_err_buf_size b.num_err_buf h.per_err_buf_size h.num_err_buf));
  response_errors = simp same_address (
    ap some (address_lsb-mod b.resp_err_pkt_buf_baseaddr h.resp_err_pkt_buf_baseaddr),
    ap some (address_msb-div b.resp_err_pkt_buf_baseaddr h.resp_err_pkt_buf_baseaddr),
  );
  response_errors_size = simp same_address (
    ap some (halves b.resp_err_pkt_buf_size h.resp_err_pkt_buf_size).0,
    ap some (halves b.resp_err_pkt_buf_size h.resp_err_pkt_buf_size).1,
  );
  interrupts = simp same_address;
  mac_lsb = simp same_address (ap some (omega arith));
  mac_msb = simp same_address (ap some (omega arith));
  address = simp same_address (ap some (omega arith));
  conf = simp same_address (ap some (omega (arith, xrnic_conf_word_fields udp_sport num_qp)));
  advanced_conf = simp same_address;
}

-- Opening a device whose bridge window is set: the global registers hold what `open_rdma_dev` was
-- called with, each 64-bit value in its two registers, and every register outside the global block
-- keeps what was last written to it.
pub open_rdma_dev-IsOpen :
    (m : Machine) (p : Ptr) (d : RdmaDev) (old : RdmaGlbCsr) (mac : MacAddr) (ip udp_sport : ℕ)
    (b : DevBuffers)
    → m.rdma_devs p ≡ some d
    → m.glb_csrs d.glb_csr ≡ some old
    → m.win_sizes d.win_size ≡ some bar_window
    → IsWide mac ip b
    → (m' : Machine) × (open_rdma_dev p mac ip udp_sport b m ≡ ret tt m')
      × IsOpen d.axil_ctl m'.bus mac ip udp_sport d.num_qp b
      × ((a : ℕ)
          → (a < d.axil_ctl + 0x60000) ⊎ (d.axil_ctl + 0x60200 ≤ a)
          → last_write m'.bus a ≡ last_write m.bus a)
unfolding open_rdma_dev
open_rdma_dev-IsOpen m p d old mac ip udp_sport b at_p at_csr at_win wide =
    let csr = global_config mac ip udp_sport d.num_qp b in
    let m1 = record m { glb_csrs = update m.glb_csrs d.glb_csr (some csr) } in
    let new = global_writes d.axil_ctl bar_window csr in
    (
      record m1 { bus = new ++ m.bus },
      rw (at_p, deref)
          (rw (at_csr, deref)
            (config_rdma_global_csr-writes m1 p d csr bar_window at_p (ground arith) at_win)),
      global_writes-IsOpen d.axil_ctl ip udp_sport d.num_qp mac b m.bus wide,
      λ a out.
          last_write-append_outside (d.axil_ctl + 0x60000) (d.axil_ctl + 0x60200) a new m.bus
            (global_writes-WritesWithin d.axil_ctl bar_window csr) out,
    )
