-- ===== src/Tests/Lookup.antt =====
-- Tests of the lookup of an interface and of the option for a location.
use Prim.Native.String.{String}
use reco_nic.Prelude.{◌≡◌, ◌⊎◌, ◌++◌, refl, none, some, [], ◌∷◌, true, false, arith}
use reco_nic.Machine.{ret, exit_failure, fault}
use reco_nic.Reconic.Address.{convert_mac_addr_to_uint}
use reco_nic.Reconic.Interface.{
  HwAddr, IfAddr, get_mac_addr_from_str_ip, get_mac_addr_from_str_ip-first, other_family,
  other_address,
}
use reco_nic.Reconic.Buffer.{host_mem, device_mem, allocate_rdma_buffer}
use reco_nic.Examples.Rdma.Setup.{qp_location, parsed, parse_option}
use reco_nic.Examples.Rdma.Location.{parse_option-location}
use reco_nic.Tests.{card, machine}
use reco_nic.Tests.Programs.{options}

abbrev hw_addr : HwAddr
hw_addr = record { b0 = 0x00; b1 = 0x0a; b2 = 0x35; b3 = 0x02; b4 = 0x9d; b5 = 0x2f }

abbrev interface : String → IfAddr
interface ip = record { is_inet = true; name_info = some ip; hw_addr = hw_addr }

abbrev packet_socket : IfAddr
packet_socket = record { is_inet = false; name_info = none; hw_addr = hw_addr }

get_mac_addr_from_str_ip-first_example :
    (get_mac_addr_from_str_ip
        (some (
          (some packet_socket ∷ some (interface "127.0.0.1") ∷ [])
          ++ some (interface "10.0.0.1") ∷ none ∷ []))
        "10.0.0.1"
        (machine 0)
      ≡ ret (convert_mac_addr_to_uint 0x00 0x0a 0x35 0x02 0x9d 0x2f) (machine 0))
    × (get_mac_addr_from_str_ip
          (some (some packet_socket ∷ some (interface "127.0.0.1") ∷ []))
          "10.0.0.1"
          (machine 0)
        ≡ exit_failure (machine 0))
    × (get_mac_addr_from_str_ip
          (some ((some packet_socket ∷ some (interface "127.0.0.1") ∷ []) ++ none ∷ none ∷ []))
          "10.0.0.1"
          (machine 0)
        ≡ fault)
get_mac_addr_from_str_ip-first_example =
    get_mac_addr_from_str_ip-first "10.0.0.1"
      (some packet_socket ∷ some (interface "127.0.0.1") ∷ []) (none ∷ []) (interface "10.0.0.1")
      (machine 0)
      (
        other_family packet_socket refl,
        (other_address (interface "127.0.0.1") "127.0.0.1" refl refl refl, tt),
      )
      refl refl

parse_option-location_example :
    (parse_option (qp_location "hostmem") options
      ≡ parsed (record options { qp_location = "hostmem" }))
    × ((("hostmem" ≡ host_mem) ⊎ ("hostmem" ≡ device_mem))
        ⊎ (allocate_rdma_buffer (card 0) 9 64 "hostmem" (machine 0)
            ≡ exit_failure (record (machine 0) { next = 101 })))
parse_option-location_example =
    parse_option-location "hostmem" options (card 0) 9 64 (machine 0) refl (omega arith)
