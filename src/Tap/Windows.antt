-- ===== src/Tap/Windows.antt =====
-- internal/tap/tap_windows.go and advertise_mac_windows.go. net.Interfaces, net.ParseCIDR and the
-- package water are arguments.
use anylan.Base.{
  ℕ, map, Bool, true, false, List, [], ◌∷◌, ◌++◌, Option, none, some, if◌then◌else◌, Result, ok,
  err,
}
use anylan.Base.Bytes.{Bytes, text}
use anylan.Base.Int.{ℤ}
use anylan.Base.Formatting.{mac_string}
use anylan.Tap.{
  hardware_addr, DeviceInfo, TapError, not_opened, layer_ethernet, Cidrs, ipv4_and_mask, Shell,
  run_commands, strict, itoa,
}

-- The loop over the component identifiers, with the last error so far.
unfoldable pub open_first :
    {I : Type 0} → (Bytes → Result Bytes I) → Bytes → List Bytes → Result TapError (I × ℕ)
open_first new_tap last [] = err (not_opened last)
open_first new_tap last (id ∷ ids) = elim (new_tap id) [
  | ok iface ↦ ok (iface, layer_ethernet)
  | err e ↦ open_first new_tap e ids
]

-- `Open`, which does not look at the name.
unfoldable pub open_device : {I : Type 0} → (Bytes → Result Bytes I) → Result TapError (I × ℕ)
open_device new_tap = open_first new_tap [] (text "tap0901" ∷ text "root\\tap0901" ∷ [])

abbrev pub auto_device : DeviceInfo
auto_device = record {
  name = [];
  display = text "Auto-detect TAP adapter";
  default = true;
  virtual = true;
  selectable = true;
}

abbrev pub interface_device : Bytes → DeviceInfo
interface_device name = record {
  name = name;
  display = name;
  default = false;
  virtual = false;
  selectable = true;
}

unfoldable pub list_devices : Result Bytes (List Bytes) → List DeviceInfo × Option Bytes
list_devices (err e) = (auto_device ∷ [], some e)
list_devices (ok names) = (auto_device ∷ map interface_device names, none)

unfoldable pub commands_of : Bytes → Bytes → Bytes → ℤ → Bool → List (List Bytes)
commands_of name ip mask mtu prioritize =
    (text "netsh"
      ∷ text "interface"
      ∷ text "ip"
      ∷ text "set"
      ∷ text "address"
      ∷ name
      ∷ text "static"
      ∷ ip
      ∷ mask
      ∷ [])
    ∷ (text "netsh"
        ∷ text "interface"
        ∷ text "ipv4"
        ∷ text "set"
        ∷ text "subinterface"
        ∷ name
        ∷ (text "mtu=" ++ itoa mtu)
        ∷ text "store=active"
        ∷ [])
    ∷ (if prioritize
        then (text "netsh"
            ∷ text "interface"
            ∷ text "ipv4"
            ∷ text "set"
            ∷ text "interface"
            ∷ name
            ∷ text "metric=1"
            ∷ text "store=active"
            ∷ [])
          ∷ []
        else [])

unfoldable pub configure :
    {E : Type 0} → Cidrs → Shell E → Bytes → Bytes → ℤ → Bool → E → E × Result TapError (Unit {0})
configure c shell name cidr mtu prioritize s = elim (ipv4_and_mask c cidr) [
  | err e ↦ (s, err e)
  | ok (ip, mask) ↦ run_commands shell (map strict (commands_of name ip mask mtu prioritize)) s
]

abbrev pub should_advertise_mac : Bool
should_advertise_mac = true

-- The text of the address of the device of that name.
unfoldable pub advertise_mac : (Bytes → Result Bytes Bytes) → Bytes → Result TapError Bytes
advertise_mac interface_by_name name = elim (hardware_addr interface_by_name name) [
  | err e ↦ err e
  | ok mac ↦ ok (mac_string mac)
]
