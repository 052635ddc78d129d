-- ===== src/Rdma/Device/Writes.antt =====
-- lib/rdma_api.c: the words that `config_rdma_global_csr` writes, and addresses in two registers.
use reco_nic.Prelude.{
  ℕ, ◌+◌, ◌*◌, ◌/◌, ◌%◌, ◌^◌, ◌<◌, ◌≡◌, refl, List, [], ◌∷◌, ◌++◌, some, arith, bit_and,
  if◌then◌else◌, u32, shl32, shr,
}
use reco_nic.Bits.{and_field, or_field}
use reco_nic.Machine.{Machine, Ptr, RdmaDev, RdmaGlbCsr, WinSize, Access, write, ret, deref}
use reco_nic.Machine.Trace.{last_write, WritesWithin}
use reco_nic.Registers.{
  rn_rdma_gcsr_datbufba, rn_rdma_gcsr_datbufbamsb, rn_rdma_gcsr_datbufsz, rn_rdma_gcsr_ipkterrqba,
  rn_rdma_gcsr_ipkterrqbamsb, rn_rdma_gcsr_ipkterrqsz, rn_rdma_gcsr_errbufba,
  rn_rdma_gcsr_errbufbamsb, rn_rdma_gcsr_errbufsz, rn_rdma_gcsr_resperrpktba,
  rn_rdma_gcsr_resperrpktbamsb, rn_rdma_gcsr_resperrsz, rn_rdma_gcsr_resperrszmsb,
  rn_rdma_gcsr_inten, rn_rdma_gcsr_macxaddlsb, rn_rdma_gcsr_macxaddmsb, rn_rdma_gcsr_ipv4xadd,
  rn_rdma_gcsr_xrnicconf, rn_rdma_gcsr_xrnicadconf,
}
use reco_nic.Reconic.Address.{address_lsb, address_msb, is_device_address}
use reco_nic.Reconic.Address.Laws.{bar_window, address_words, address_words-lt}
use reco_nic.Rdma.Device.{config_rdma_global_csr, xrnic_conf_word}

-- The fields of XRNICCONF: the UDP source port above, the number of queue pairs in bits 8 to 15,
-- and in the low byte the enable bit and the error buffer bit, nothing else.
pub xrnic_conf_word_fields :
    (udp_sport num_qp : ℕ)
    → xrnic_conf_word udp_sport num_qp ≡ udp_sport % 2 ^ 16 * 2 ^ 16 + num_qp % 256 * 256 + 0x21
unfolding xrnic_conf_word
xrnic_conf_word_fields udp_sport num_qp = ground (
  arith,
  and_field 16 16 (shl32 udp_sport 16),
  and_field 8 8 (shl32 num_qp 8),
  or_field 16 (udp_sport % 2 ^ 16) (num_qp % 256 * 256) (omega arith),
  or_field 8 (udp_sport % 2 ^ 16 * 256 + num_qp % 256) 0x21 (omega arith),
)

-- The address that the card is to use: device addresses whole, host addresses in their window.
abbrev pub card_address : ℕ → ℕ
card_address a = if is_device_address a then a else a % 2 ^ 40

-- Two registers that hold the halves of a 64-bit value.
abbrev pub Holds64 : List Access → (lsb msb value : ℕ) → Type 0
Holds64 t lsb msb value =
    (last_write t lsb ≡ some (value % 2 ^ 32)) × (last_write t msb ≡ some (value / 2 ^ 32))

pub address_lsb-mod :
    (a : ℕ) → a < 2 ^ 64 → u32 (address_lsb bar_window a) ≡ card_address a % 2 ^ 32
address_lsb-mod a h = omega (arith, address_words a h, address_words-lt bar_window a refl)

pub address_msb-div :
    (a : ℕ) → a < 2 ^ 64 → u32 (address_msb bar_window a) ≡ card_address a / 2 ^ 32
address_msb-div a h = omega (arith, address_words a h, address_words-lt bar_window a refl)

-- Every access of `config_rdma_global_csr`, newest first.
abbrev pub global_writes : ℕ → WinSize → RdmaGlbCsr → List Access
global_writes base w csr =
    write (base + rn_rdma_gcsr_xrnicadconf) (u32 csr.xrnic_advanced_conf)
    ∷ write (base + rn_rdma_gcsr_xrnicconf) (u32 csr.xrnic_conf)
    ∷ write (base + rn_rdma_gcsr_ipv4xadd) (u32 csr.src_ip)
    ∷ write (base + rn_rdma_gcsr_macxaddmsb) (u32 csr.src_mac.mac_msb)
    ∷ write (base + rn_rdma_gcsr_macxaddlsb) (u32 csr.src_mac.mac_lsb)
    ∷ write (base + rn_rdma_gcsr_inten) (u32 csr.interrupt_enable)
    ∷ write (base + rn_rdma_gcsr_resperrszmsb)
        (u32 (u32 (bit_and (shr csr.resp_err_pkt_buf_size 32) 0xffffffff)))
    ∷ write (base + rn_rdma_gcsr_resperrsz)
        (u32 (u32 (bit_and csr.resp_err_pkt_buf_size 0xffffffff)))
    ∷ write (base + rn_rdma_gcsr_resperrpktbamsb)
        (u32 (address_msb w csr.resp_err_pkt_buf_baseaddr))
    ∷ write (base + rn_rdma_gcsr_resperrpktba) (u32 (address_lsb w csr.resp_err_pkt_buf_baseaddr))
    ∷ write (base + rn_rdma_gcsr_errbufsz) (u32 csr.err_buf_size)
    ∷ write (base + rn_rdma_gcsr_errbufbamsb) (u32 (address_msb w csr.err_buf_baseaddr))
    ∷ write (base + rn_rdma_gcsr_errbufba) (u32 (address_lsb w csr.err_buf_baseaddr))
    ∷ write (base + rn_rdma_gcsr_ipkterrqsz) (u32 csr.ipkt_err_stat_q_size)
    ∷ write (base + rn_rdma_gcsr_ipkterrqbamsb) (u32 (address_msb w csr.ipkt_err_stat_q_baseaddr))
    ∷ write (base + rn_rdma_gcsr_ipkterrqba) (u32 (address_lsb w csr.ipkt_err_stat_q_baseaddr))
    ∷ write (base + rn_rdma_gcsr_datbufsz) (u32 csr.data_buf_size)
    ∷ write (base + rn_rdma_gcsr_datbufbamsb) (u32 (address_msb w csr.data_buf_baseaddr))
    ∷ write (base + rn_rdma_gcsr_datbufba) (u32 (address_lsb w csr.data_buf_baseaddr))
    ∷ []

pub config_rdma_global_csr-writes :
    (m : Machine) (p : Ptr) (d : RdmaDev) (csr : RdmaGlbCsr) (w : WinSize)
    → m.rdma_devs p ≡ some d
    → m.glb_csrs d.glb_csr ≡ some csr
    → m.win_sizes d.win_size ≡ some w
    → config_rdma_global_csr p m
      ≡ ret tt (record m { bus = global_writes d.axil_ctl w csr ++ m.bus })
unfolding config_rdma_global_csr
config_rdma_global_csr-writes m p d csr w at_p at_csr at_win =
    rw (at_p, deref) (rw (at_csr, deref) (rw (at_win, deref)))

pub global_writes-WritesWithin :
    (base : ℕ) (w : WinSize) (csr : RdmaGlbCsr)
    → WritesWithin (base + 0x60000) (base + 0x60200) (global_writes base w csr)
global_writes-WritesWithin base w csr = omega arith
