-- ===== src/Tap/Darwin.antt =====
-- internal/tap/tap_darwin.go. The package strings, net.Interfaces, net.ParseCIDR and the package
-- water are arguments.
use anylan.Base.{
  ℕ, map, Bool, true, false, List, [], ◌∷◌, Option, none, some, if◌then◌else◌, Result, ok, err,
}
use anylan.Base.Bytes.{Bytes, text}
use anylan.Base.Int.{ℤ}
use anylan.Tap.{
  DeviceInfo, TapError, not_opened, layer_ip, Cidrs, ipv4_and_mask, Shell, run_commands, strict,
  itoa,
}

unfoldable pub open_device :
    {I : Type 0} → (Bytes → Bytes) → (Bytes → Result Bytes I) → Bytes → Result TapError (I × ℕ)
open_device trim_space new_tun name = elim (new_tun (trim_space name)) [
  | err e ↦ err (not_opened e)
  | ok iface ↦ ok (iface, layer_ip)
]

abbrev pub auto_device : DeviceInfo
auto_device = record {
  name = [];
  display = text "Auto-detect utun adapter";
  default = true;
  virtual = true;
  selectable = true;
}

abbrev pub interface_device : (Bytes → Bytes → Bool) → Bytes → DeviceInfo
interface_device has_prefix name = record {
  name = name;
  display = name;
  default = false;
  virtual = has_prefix name (text "utun");
  selectable = has_prefix name (text "utun");
}

unfoldable pub list_devices :
    (Bytes → Bytes → Bool) → Result Bytes (List Bytes) → List DeviceInfo × Option Bytes
list_devices has_prefix (err e) = (auto_device ∷ [], some e)
list_devices has_prefix (ok names) = (auto_device ∷ map (interface_device has_prefix) names, none)

unfoldable pub network_cidr : Cidrs → Bytes → Bytes
network_cidr c cidr = elim (c.parse_cidr cidr) [
  | none ↦ cidr
  | some (ip, net, mask) ↦ c.net_string net mask
]

-- The commands of `Configure`. A failure of the second is passed over where it printed that the
-- route is there already.
unfoldable pub commands_of :
    (Bytes → Bytes → Bool)
    → Bytes
    → Bytes
    → Bytes
    → Bytes
    → ℤ
    → Bool
    → List ((Bytes → Bool) × List Bytes)
commands_of contains name ip mask net mtu prioritize =
    strict (
      text "ifconfig"
      ∷ name
      ∷ text "inet"
      ∷ ip
      ∷ ip
      ∷ text "netmask"
      ∷ mask
      ∷ text "mtu"
      ∷ itoa mtu
      ∷ text "up"
      ∷ [])
    ∷ (
      (λ output. contains output (text "File exists")),
      text "route" ∷ text "add" ∷ text "-net" ∷ net ∷ text "-interface" ∷ name ∷ [],
    )
    ∷ (if prioritize
        then strict (text "ifconfig" ∷ name ∷ text "metric" ∷ text "1" ∷ []) ∷ []
        else [])

unfoldable pub configure :
    {E : Type 0}
    → Cidrs
    → (Bytes → Bytes → Bool)
    → Shell E
    → Bytes
    → Bytes
    → ℤ
    → Bool
    → E
    → E × Result TapError (Unit {0})
configure c contains shell name cidr mtu prioritize s = elim (ipv4_and_mask c cidr) [
  | err e ↦ (s, err e)
  | ok (ip, mask) ↦
      run_commands shell (commands_of contains name ip mask (network_cidr c cidr) mtu prioritize) s
]
