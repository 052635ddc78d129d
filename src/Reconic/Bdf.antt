-- ===== src/Reconic/Bdf.antt =====
-- `config_rn_dev_axib_bdf` of lib/reconic.c: eight windows of the PCIe bridge, for the terabyte
-- that holds the host's buffer.
pub mod Laws
use reco_nic.Prelude.{ℕ, zero, suc, ◌+◌, ◌-◌, ◌*◌, bit_and, bit_or, ◌==◌, if◌then◌else◌, u32, shr}
use reco_nic.Machine.{Cmd, Ptr, null, ret, exit_failure, pure, deref, set_win_size, ◌>>=◌, ◌>>◌}
use reco_nic.Registers.{
  axi_bar_size, addr_mask, axib_bdf_addr_translate_addr_lsb, axib_bdf_addr_translate_addr_msb,
  axib_bdf_pasid_reserved_addr, axib_bdf_function_num_addr, axib_bdf_map_control_addr,
  axib_bdf_reserved_addr,
}
use reco_nic.Control.{write32_data}
use reco_nic.Reconic.Address.{get_win_size}

-- The six registers of window `i`.
unfoldable pub config_window :
    (axil_ctl bdf_addr_low bdf_addr_high bdf_win_config i : ℕ) → Cmd (Unit {0})
unfolding write32_data
config_window axil_ctl bdf_addr_low bdf_addr_high bdf_win_config i = do
  write32_data axil_ctl (axib_bdf_addr_translate_addr_lsb + i * 0x20) bdf_addr_low
  write32_data axil_ctl (axib_bdf_addr_translate_addr_msb + i * 0x20)
      (u32 (bdf_addr_high + i * 0x20))
  write32_data axil_ctl (axib_bdf_pasid_reserved_addr + i * 0x20) 0
  write32_data axil_ctl (axib_bdf_function_num_addr + i * 0x20) 0
  write32_data axil_ctl (axib_bdf_map_control_addr + i * 0x20) bdf_win_config
  write32_data axil_ctl (axib_bdf_reserved_addr + i * 0x20) 0

-- The loop from window `i` on, with `rounds` windows left.
unfoldable pub config_windows : (axil_ctl low high config rounds i : ℕ) → Cmd (Unit {0})
unfolding config_window
config_windows axil_ctl low high config zero i = pure tt
config_windows axil_ctl low high config (suc rounds) i = do
  config_window axil_ctl low high config i
  config_windows axil_ctl low high config rounds (i + 1)

unfoldable pub config_rn_dev_axib_bdf : Ptr → (high_addr low_addr : ℕ) → Cmd (Unit {0})
unfolding config_windows get_win_size
config_rn_dev_axib_bdf rn_dev high_addr low_addr = if rn_dev == null then exit_failure else do
  rn ← deref (λ m. m.rn_devs) rn_dev
  old ← deref (λ m. m.win_sizes) rn.win_size
  let win_size_msb = u32 (shr (bit_and get_win_size 0xffffffff00000000) 32)
  let win_size_lsb = u32 (bit_and get_win_size 0x00000000ffffffff)
  set_win_size rn.win_size (record { win_size_lsb = win_size_lsb; win_size_msb = win_size_msb })
  let bdf_addr_high = bit_and high_addr (addr_mask - win_size_msb)
  let bdf_addr_low = bit_and low_addr (addr_mask - win_size_lsb)
  let pages = u32 (bit_and (shr (shr axi_bar_size 3 + 1) 12) 0x00000000ffffffff)
  config_windows rn.axil_ctl bdf_addr_low bdf_addr_high (bit_or 0xC0000000 pages) 8 0
