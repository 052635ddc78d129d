-- ===== src/Reconic/Interface.antt =====
-- `get_mac_addr_from_str_ip` of lib/reconic.c. The interfaces, the text of an address and the answer
-- of `ioctl` come from the system.
use text.Mathlib.Text.{◌==◌ as str_eq}
use text.Mathlib.TextEquality.{eq_iff}
use Prim.Native.String.{String}
use mathlib.Core.List.{append-nil}
use reco_nic.Prelude.{
  ℕ, Option, none, some, List, [], ◌∷◌, ◌++◌, Bool, true, false, not, if◌then◌else◌, ◌≡◌, refl, sym,
  ap, ◌∙◌,
}
use reco_nic.Machine.{Machine, Cmd, MacAddr, ret, exit_failure, fault}
use reco_nic.Reconic.Address.{convert_mac_addr_to_uint}

-- The six bytes that SIOCGIFHWADDR leaves in `ifreq_local`.
pub record HwAddr : Type 0 where
  pub b0 : ℕ
  pub b1 : ℕ
  pub b2 : ℕ
  pub b3 : ℕ
  pub b4 : ℕ
  pub b5 : ℕ

-- An address of an interface: whether it is an IPv4 one, and its text, or `none` where `getnameinfo`
-- fails.
pub record IfAddr : Type 0 where
  pub is_inet : Bool
  pub name_info : Option String
  pub hw_addr : HwAddr

-- The loop over the interfaces; one without an address has a NULL there, which is read.
unfoldable pub search_interfaces : (ip_str : String) → List (Option IfAddr) → Cmd MacAddr
search_interfaces ip_str [] m = exit_failure m
search_interfaces ip_str (none ∷ ifas) m = fault
search_interfaces ip_str (some ifa ∷ ifas) m =
    let rest = search_interfaces ip_str ifas in
    let h = ifa.hw_addr in
    if not ifa.is_inet then rest m else elim ifa.name_info [
      | none ↦ exit_failure m
      | some tmp_ip ↦
          if str_eq tmp_ip ip_str
          then ret (convert_mac_addr_to_uint h.b0 h.b1 h.b2 h.b3 h.b4 h.b5) m
          else rest m
    ]

-- `none` is a failure of `getifaddrs`.
unfoldable pub get_mac_addr_from_str_ip : Option (List (Option IfAddr)) → String → Cmd MacAddr
unfolding search_interfaces
get_mac_addr_from_str_ip none ip_str m = exit_failure m
get_mac_addr_from_str_ip (some ifaddr) ip_str m = search_interfaces ip_str ifaddr m

-- An interface that the search passes by: one that has no IPv4 address, or another one.
pub data Passed (ip_str : String) : Option IfAddr → Type 0 where
  other_family : (ifa : IfAddr) → ifa.is_inet ≡ false → Passed ip_str (some ifa)
  other_address :
      (ifa : IfAddr) (tmp_ip : String)
      → ifa.is_inet ≡ true
      → ifa.name_info ≡ some tmp_ip
      → str_eq tmp_ip ip_str ≡ false
      → Passed ip_str (some ifa)

abbrev pub AllPassed : String → List (Option IfAddr) → Type 0
AllPassed ip_str [] = Unit
AllPassed ip_str (i ∷ is) = Passed ip_str i × AllPassed ip_str is

pass_by :
    (ip_str : String) (i : Option IfAddr) (is : List (Option IfAddr)) (m : Machine)
    → Passed ip_str i
    → search_interfaces ip_str (i ∷ is) m ≡ search_interfaces ip_str is m
unfolding search_interfaces
pass_by ip_str _ is m (other_family ifa family) = rw family refl
pass_by ip_str _ is m (other_address ifa tmp_ip family text differs) =
    rw family (rw text (rw differs refl))

pass_all :
    (ip_str : String) (before after : List (Option IfAddr)) (m : Machine)
    → AllPassed ip_str before
    → search_interfaces ip_str (before ++ after) m ≡ search_interfaces ip_str after m
pass_all ip_str [] after m h = refl
pass_all ip_str (i ∷ is) after m h =
    pass_by ip_str i (is ++ after) m h.0 ∙ pass_all ip_str is after m h.1

found :
    (ip_str : String) (after : List (Option IfAddr)) (ifa : IfAddr) (m : Machine)
    → ifa.is_inet ≡ true
    → ifa.name_info ≡ some ip_str
    → let h = ifa.hw_addr in
      search_interfaces ip_str (some ifa ∷ after) m
      ≡ ret (convert_mac_addr_to_uint h.b0 h.b1 h.b2 h.b3 h.b4 h.b5) m
unfolding search_interfaces
found ip_str after ifa m family text =
    let same : str_eq ip_str ip_str ≡ true = (eq_iff ip_str ip_str).1 refl in
    rw family (rw text (rw same refl))

faults :
    (ip_str : String) (after : List (Option IfAddr)) (m : Machine)
    → search_interfaces ip_str (none ∷ after) m ≡ fault
unfolding search_interfaces
faults ip_str after m = refl

fails : (ip_str : String) (m : Machine) → search_interfaces ip_str [] m ≡ exit_failure m
unfolding search_interfaces
fails ip_str m = refl

-- The lookup returns the hardware address of the first interface whose IPv4 address reads as the
-- text that is asked for, whatever comes behind it, if those before it have another address or none
-- of this family. Where all have, it stops the program. A NULL address on the way is a fault.
pub get_mac_addr_from_str_ip-first :
    (ip_str : String) (before after : List (Option IfAddr)) (ifa : IfAddr) (m : Machine)
    → AllPassed ip_str before
    → ifa.is_inet ≡ true
    → ifa.name_info ≡ some ip_str
    → let h = ifa.hw_addr in
      (get_mac_addr_from_str_ip (some (before ++ some ifa ∷ after)) ip_str m
        ≡ ret (convert_mac_addr_to_uint h.b0 h.b1 h.b2 h.b3 h.b4 h.b5) m)
      × (get_mac_addr_from_str_ip (some before) ip_str m ≡ exit_failure m)
      × (get_mac_addr_from_str_ip (some (before ++ none ∷ after)) ip_str m ≡ fault)
unfolding get_mac_addr_from_str_ip
get_mac_addr_from_str_ip-first ip_str before after ifa m passed family text = (
  pass_all ip_str before (some ifa ∷ after) m passed ∙ found ip_str after ifa m family text,
  ap (λ (is : List (Option IfAddr)). search_interfaces ip_str is m) (sym (append-nil before))
      ∙ pass_all ip_str before [] m passed
      ∙ fails ip_str m,
  pass_all ip_str before (none ∷ after) m passed ∙ faults ip_str after m,
)
