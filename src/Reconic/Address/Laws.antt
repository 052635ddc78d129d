-- ===== src/Reconic/Address/Laws.antt =====
-- The card gets every bit of a device address, and of a host address the bits of the 1 TB window.
use reco_nic.Prelude.{
  refl, ℕ, ◌+◌, ◌*◌, ◌/◌, ◌%◌, ◌^◌, ◌<◌, true, ◌≡◌, ◌↔◌, arith, bit_and, if◌then◌else◌, u32, shr,
}
use reco_nic.Bits.{and_low, and_field, or_field}
use reco_nic.Machine.{WinSize}
use reco_nic.Reconic.Address.{
  is_device_address, address_lsb, address_msb, convert_mac_addr_to_uint,
  convert_mac_addr_str_to_uint, convert_ip_addr_to_uint,
}

-- The window that `config_rn_dev_axib_bdf` sets up: 40 bits.
abbrev pub bar_window : WinSize
bar_window = record { win_size_lsb = 0xffffffff; win_size_msb = 0xff }

-- An address is a device address exactly when its top 12 bits are the device tag.
pub is_device_address_iff :
    (a : ℕ) → a < 2 ^ 64 → (is_device_address a ≡ true) ↔ (a / 2 ^ 52 ≡ 0xa35)
unfolding is_device_address
is_device_address_iff a h = ground (arith, and_field 12 52 a)

-- A device address reaches the card whole; of a host address the low 40 bits do, whatever the rest.
pub address_words :
    (a : ℕ)
    → a < 2 ^ 64
    → address_msb bar_window a * 2 ^ 32 + address_lsb bar_window a
      ≡ (if is_device_address a then a else a % 2 ^ 40)
unfolding address_lsb address_msb
address_words a h = ground (
  arith,
  and_low 32 a,
  and_low 32 (shr a 32),
  and_low 32 (u32 (bit_and a 0xffffffff)),
  and_low 8 (u32 (bit_and (shr a 32) 0xffffffff)),
)

pub address_words-lt :
    (w : WinSize) (a : ℕ) → w ≡ bar_window → (address_lsb w a < 2 ^ 32) × (address_msb w a < 2 ^ 32)
unfolding address_lsb address_msb
address_words-lt w a e = rw e (
    ground (
      arith,
      and_low 32 (u32 (bit_and a 0xffffffff)),
      and_low 8 (u32 (bit_and (shr a 32) 0xffffffff)),
    ))

-- The words of a MAC address hold its six bytes in network order, whether the bytes come from the
-- interface or have been scanned from a string; an IPv4 address is its four bytes in network order.
pub convert_addr_bytes :
    (b0 b1 b2 b3 b4 b5 : ℕ)
    → b0 < 256
    → b1 < 256
    → b2 < 256
    → b3 < 256
    → b4 < 256
    → b5 < 256
    → let w = convert_mac_addr_to_uint b0 b1 b2 b3 b4 b5 in
      (w.mac_msb * 2 ^ 32 + w.mac_lsb
        ≡ ((((b0 * 256 + b1) * 256 + b2) * 256 + b3) * 256 + b4) * 256 + b5)
      × (convert_mac_addr_str_to_uint b0 b1 b2 b3 b4 b5 ≡ w)
      × (convert_ip_addr_to_uint b0 b1 b2 b3 ≡ ((b0 * 256 + b1) * 256 + b2) * 256 + b3)
unfolding convert_mac_addr_to_uint convert_mac_addr_str_to_uint convert_ip_addr_to_uint
convert_addr_bytes b0 b1 b2 b3 b4 b5 h0 h1 h2 h3 h4 h5 = (
  ground (
    arith,
    or_field 8 b0 b1 (omega arith),
    and_low 16 (b0 * 256 + b1),
    or_field 24 b2 (b3 * 2 ^ 16) (omega arith),
    or_field 16 (b2 * 256 + b3) (b4 * 2 ^ 8) (omega arith),
    or_field 8 ((b2 * 256 + b3) * 256 + b4) b5 (omega arith),
    and_low 32 (((b2 * 256 + b3) * 256 + b4) * 256 + b5),
  ),
  refl,
  ground (
    arith,
    or_field 24 b0 (b1 * 2 ^ 16) (omega arith),
    or_field 16 (b0 * 256 + b1) (b2 * 2 ^ 8) (omega arith),
    or_field 8 ((b0 * 256 + b1) * 256 + b2) b3 (omega arith),
  ),
)
