-- ===== src/Tap.antt =====
-- internal/tap: the devices of a client. What the operating system and the package water do is an
-- argument: the interfaces, the commands that are run and what they print. The texts of errors are
-- left out.
pub mod Linux
pub mod Darwin
pub mod Windows
pub mod Commands
mod Tests
use anylan.Base.{
  ℕ, ◌+◌, Bool, false, not, List, ◌∷◌, Option, none, some, length, ◌==◌, if◌then◌else◌, Result, ok,
  err, [],
}
use anylan.Base.Bytes.{Bytes, text}
use anylan.Base.Int.{ℤ, pos, negsuc}
use anylan.Base.Formatting.{decimal}

pub record DeviceInfo : Type 0 where
  pub name : Bytes
  pub display : Bytes
  pub default : Bool
  pub virtual : Bool
  pub selectable : Bool

-- A Layer is an int; 0 is that of a Device whose layer is not set.
abbrev pub layer_ethernet : ℕ
layer_ethernet = 1

abbrev pub layer_ip : ℕ
layer_ip = 2

unfoldable pub layer_string : ℕ → Bytes
layer_string l =
    if l == layer_ethernet
    then text "ethernet"
    else if l == layer_ip
    then text "ip"
    else text "unknown"

-- `d.Layer()`
unfoldable pub device_layer : ℕ → ℕ
device_layer l = if l == 0 then layer_ethernet else l

pub data TapError : Type 0 where
  no_interface : Bytes → TapError
  no_ethernet_mac : Bytes → TapError
  bad_cidr : TapError
  not_ipv4_cidr : Bytes → TapError
  not_ipv4_mask : Bytes → TapError
  not_opened : Bytes → TapError
  command_failed : List Bytes → Bytes → Bytes → TapError

-- `HardwareAddr` of the device of that name. net.InterfaceByName gives the address or its error.
unfoldable pub hardware_addr : (Bytes → Result Bytes Bytes) → Bytes → Result TapError Bytes
hardware_addr interface_by_name name = elim (interface_by_name name) [
  | err e ↦ err (no_interface e)
  | ok addr ↦ if not (length addr == 6) then err (no_ethernet_mac name) else ok addr
]

-- net.ParseCIDR: the address, and the address and the mask of the network; `ip.To4()`; and the text
-- of an address.
pub record Cidrs : Type 0 where
  pub parse_cidr : Bytes → Option (Bytes × Bytes × Bytes)
  pub to4 : Bytes → Option Bytes
  pub ip_string : Bytes → Bytes
  pub net_string : Bytes → Bytes → Bytes

unfoldable pub ipv4_and_mask : Cidrs → Bytes → Result TapError (Bytes × Bytes)
ipv4_and_mask c cidr = elim (c.parse_cidr cidr) [
  | none ↦ err bad_cidr
  | some (ip, net, mask) ↦ elim (c.to4 ip) [
    | none ↦ err (not_ipv4_cidr cidr)
    | some ipv4 ↦
        if not (length mask == 4)
        then err (not_ipv4_mask cidr)
        else ok (c.ip_string ipv4, c.ip_string mask)
  ]
]

-- `cmd.CombinedOutput()` in a system of which `E` is the state: what was printed, and the error.
abbrev pub Shell : Type 0 → Type 0
Shell E = List Bytes → E → E × (Bytes × Option Bytes)

-- `strconv.Itoa`
abbrev pub itoa : ℤ → Bytes
itoa (pos n) = decimal n
itoa (negsuc n) = b'-' ∷ decimal (n + 1)

-- One command of `Configure`, where `pardons` says of which output a failure is passed over.
abbrev pub outcome : (Bytes → Bool) → List Bytes → Bytes → Option Bytes → Result TapError (Unit {0})
outcome pardons args output none = ok tt
outcome pardons args output (some e) =
    if pardons output then ok tt else err (command_failed args e output)

-- The loop over the commands: it stops at the first failure that is not passed over.
unfoldable pub run_commands :
    {E : Type 0} → Shell E → List ((Bytes → Bool) × List Bytes) → E → E × Result TapError (Unit {0})
run_commands shell [] s = (s, ok tt)
run_commands shell ((pardons, args) ∷ commands) s =
    let (s', (output, failed)) = shell args s in
    elim (outcome pardons args output failed) [
      | ok u ↦ run_commands shell commands s'
      | err e ↦ (s', err e)
    ]

abbrev pub strict : List Bytes → (Bytes → Bool) × List Bytes
strict args = ((λ output. false), args)
