-- ===== src/Tap/Linux.antt =====
-- internal/tap/tap_linux.go. os.Stat, os.Readlink, path/filepath, net.Interfaces and the package
-- water are arguments.
pub mod Listing
use anylan.Base.{
  ℕ, map, Bool, true, false, ◌&&◌, ◌||◌, List, ◌∷◌, ◌++◌, Option, none, some, if◌then◌else◌, Result,
  ok, err, [],
}
use anylan.Base.Bytes.{Bytes, text, bytes_eq}
use anylan.Base.Int.{ℤ}
use anylan.Tap.{DeviceInfo, TapError, not_opened, layer_ethernet, Shell, run_commands, strict, itoa}

abbrev pub default_device_name : Bytes
default_device_name = text "anylan0"

abbrev is_empty : Bytes → Bool
is_empty [] = true
is_empty (b ∷ s) = false

-- `Open`: the interface that water made for a name, with its layer. The name is not empty.
unfoldable pub open_device :
    {I : Type 0} → (Bytes → Result Bytes I) → Bytes → Result TapError (I × ℕ)
open_device new_tap name = elim (new_tap (if is_empty name then default_device_name else name)) [
  | err e ↦ err (not_opened e)
  | ok iface ↦ ok (iface, layer_ethernet)
]

-- What `linuxInterfaceKind` reads of the file system, and the functions on paths that it uses.
pub record Files : Type 0 where
  pub stat : Bytes → Bool
  pub readlink : Bytes → Option Bytes
  pub join : List Bytes → Bytes
  pub is_abs : Bytes → Bool
  pub base : Bytes → Bytes
  pub dir : Bytes → Bytes

-- Is the interface virtual, and can it be selected?
unfoldable pub linux_interface_kind : Files → Bytes → Bool × Bool
linux_interface_kind f name =
    if is_empty name
    then (false, false)
    else if f.stat (f.join (text "/sys/class/net" ∷ name ∷ text "tun_flags" ∷ []))
    then (true, true)
    else elim (f.readlink (f.join (text "/sys/class/net" ∷ name ∷ []))) [
      | none ↦ (false, false)
      | some target ↦ (
        f.is_abs target && bytes_eq (f.base (f.dir target)) (text "virtual")
            || bytes_eq (f.base (f.dir (f.dir target))) (text "virtual"),
        false,
      )
    ]

unfoldable pub default_device : DeviceInfo
default_device = record {
  name = default_device_name;
  display = default_device_name ++ text " (default)";
  default = true;
  virtual = true;
  selectable = true;
}

unfoldable pub interface_device : Files → Bytes → DeviceInfo
interface_device f name =
    let (virtual, selectable) = linux_interface_kind f name in
    record {
      name = name;
      display = name;
      default = false;
      virtual = virtual;
      selectable = selectable;
    }

-- `seen[name]`
unfoldable pub is_seen : Bytes → List Bytes → Bool
is_seen name [] = false
is_seen name (s ∷ seen) = bytes_eq s name || is_seen name seen

-- The loop over the interfaces, from the names seen before.
unfoldable pub list_new : Files → List Bytes → List Bytes → List DeviceInfo
list_new f seen [] = []
list_new f seen (name ∷ names) =
    if is_seen name seen
    then list_new f seen names
    else interface_device f name ∷ list_new f (name ∷ seen) names

-- `ListDevices`, with the names of net.Interfaces or its error: the devices, and the error.
unfoldable pub list_devices : Files → Result Bytes (List Bytes) → List DeviceInfo × Option Bytes
list_devices f (err e) = (default_device ∷ [], some e)
list_devices f (ok names) = (default_device ∷ list_new f (default_device_name ∷ []) names, none)

-- The commands of `Configure`.
unfoldable pub commands_of : Bytes → Bytes → Bytes → ℤ → List (List Bytes)
commands_of name mac cidr mtu =
    (text "ip" ∷ text "link" ∷ text "set" ∷ text "dev" ∷ name ∷ text "address" ∷ mac ∷ [])
    ∷ (text "ip" ∷ text "link" ∷ text "set" ∷ text "dev" ∷ name ∷ text "mtu" ∷ itoa mtu ∷ [])
    ∷ (text "ip" ∷ text "addr" ∷ text "add" ∷ cidr ∷ text "dev" ∷ name ∷ [])
    ∷ (text "ip" ∷ text "link" ∷ text "set" ∷ text "dev" ∷ name ∷ text "up" ∷ [])
    ∷ []

unfoldable pub configure :
    {E : Type 0} → Shell E → Bytes → Bytes → Bytes → ℤ → E → E × Result TapError (Unit {0})
configure shell name mac cidr mtu s =
    run_commands shell (map strict (commands_of name mac cidr mtu)) s
