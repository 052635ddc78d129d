-- ===== src/Reconic/Address.antt =====
-- Addresses as the card sees them: device memory is marked in the top 12 bits, and a host address
-- is cut to the window of the PCIe bridge (lib/reconic.c, lib/rdma_api.c). MAC addresses as words.
pub mod Laws
use reco_nic.Prelude.{
  ℕ, ◌+◌, ◌-◌, Bool, List, bit_and, bit_or, ◌==◌, if◌then◌else◌, u32, u64, shl32, shr,
}
use reco_nic.Machine.{WinSize, MacAddr}
use reco_nic.Registers.{axi_bar_size}

abbrev pub device_mem_offset : ℕ
device_mem_offset = 0xa350000000000000

unfoldable pub is_device_address : ℕ → Bool
is_device_address address = bit_and address 0xfff0000000000000 == device_mem_offset

unfoldable pub get_win_size : ℕ
get_win_size = axi_bar_size

-- The two words that the card is given for an address. The same lines stand at each address that
-- `config_rdma_global_csr`, `rdma_register_memory_region` and `allocate_rdma_qp` program.
unfoldable pub address_lsb : WinSize → ℕ → ℕ
address_lsb w a =
    if is_device_address a
    then u32 (bit_and a 0x00000000ffffffff)
    else bit_and (u32 (bit_and a 0x00000000ffffffff)) w.win_size_lsb

unfoldable pub address_msb : WinSize → ℕ → ℕ
address_msb w a =
    if is_device_address a
    then u32 (bit_and (shr a 32) 0x00000000ffffffff)
    else bit_and (u32 (bit_and (shr a 32) 0x00000000ffffffff)) w.win_size_msb

-- The bytes of a hardware address, first byte first.
unfoldable pub convert_mac_addr_to_uint : (b0 b1 b2 b3 b4 b5 : ℕ) → MacAddr
convert_mac_addr_to_uint b0 b1 b2 b3 b4 b5 = record {
  mac_lsb =
      bit_and (bit_or (bit_or (bit_or (shl32 b2 24) (shl32 b3 16)) (shl32 b4 8)) b5) 0xffffffff;
  mac_msb = bit_and (bit_or (shl32 b0 8) b1) 0x0000ffff;
}

-- The address whose four bytes `sscanf` found in the string; a byte that it does not find is 0.
unfoldable pub convert_ip_addr_to_uint : (ip0 ip1 ip2 ip3 : ℕ) → ℕ
convert_ip_addr_to_uint ip0 ip1 ip2 ip3 =
    bit_or (bit_or (bit_or (shl32 ip0 24) (shl32 ip1 16)) (shl32 ip2 8)) ip3

-- The same for the six words of a hardware address, which are not cut to bytes.
unfoldable pub convert_mac_addr_str_to_uint : (w0 w1 w2 w3 w4 w5 : ℕ) → MacAddr
convert_mac_addr_str_to_uint w0 w1 w2 w3 w4 w5 = record {
  mac_lsb =
      bit_and (bit_or (bit_or (bit_or (shl32 w2 24) (shl32 w3 16)) (shl32 w4 8)) w5) 0xffffffff;
  mac_msb = bit_and (bit_or (shl32 w0 8) w1) 0x0000ffff;
}
