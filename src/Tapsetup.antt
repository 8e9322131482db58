-- ===== src/Tapsetup.antt =====
-- cmd/tapsetup/main_windows.go: the TAP adapter is there, or made by devcon.exe. The registry, the
-- files, the paths and the command are arguments; `E` is the state of the system.
pub mod Adapter
mod Tests
use anylan.Base.{
  ℕ, Bool, true, false, not, ◌||◌, List, ◌∷◌, ◌++◌, Option, none, some, if◌then◌else◌, Result, ok,
  err, [],
}
use anylan.Base.Bytes.{Bytes, text, bytes_eq}
use anylan.Tap.{Shell}

abbrev pub component_id : Bytes
component_id = text "tap0901"

abbrev pub tap_driver_key : Bytes
tap_driver_key =
    text "SYSTEM\\CurrentControlSet\\Control\\Class\\{4D36E972-E325-11CE-BFC1-08002BE10318}"

abbrev driver_files : List Bytes
driver_files =
    text "devcon.exe" ∷ text "OemVista.inf" ∷ text "tap0901.cat" ∷ text "tap0901.sys" ∷ []

pub data SetupError : Type 0 where
  no_executable : SetupError
  driver_file_missing : Bytes → SetupError
  devcon_failed : Bytes → List Bytes → Bytes → Bytes → SetupError
  adapter_not_found : SetupError

-- What is read of the system: the names below a key of the registry, the string value of a key of
-- that name, whether a file is there, and the path of the program.
pub record System (E : Type 0) : Type 0 where
  pub sub_keys : E → Bytes → Option (List Bytes)
  pub string_value : E → Bytes → Bytes → Option Bytes
  pub file_exists : E → Bytes → Bool
  pub executable : E → Option Bytes
  pub equal_fold : Bytes → Bytes → Bool
  pub join : List Bytes → Bytes
  pub dir : Bytes → Bytes
  pub shell : Shell E

module _ {E : Type 0} (y : System E) where
  abbrev is_tap : Option Bytes → Bool
  is_tap none = false
  is_tap (some value) =
      y.equal_fold value component_id || y.equal_fold value (text "root\\" ++ component_id)

  -- The loop over the sub-keys.
  unfoldable pub any_tap : E → List Bytes → Bool
  any_tap s [] = false
  any_tap s (subkey ∷ keys) =
      if is_tap (y.string_value s (tap_driver_key ++ (text "\\" ++ subkey)) (text "ComponentId"))
      then true
      else any_tap s keys

  unfoldable pub has_adapter : E → Bool
  has_adapter s = elim (y.sub_keys s tap_driver_key) [ none ↦ false | some keys ↦ any_tap s keys ]

  -- The loop over the files of the driver.
  unfoldable pub check_files : E → Bytes → List Bytes → Result SetupError Bytes
  check_files s dir [] = ok dir
  check_files s dir (name ∷ names) =
      let path = y.join (dir ∷ name ∷ []) in
      if y.file_exists s path then check_files s dir names else err (driver_file_missing path)

  unfoldable pub driver_dir : E → Result SetupError Bytes
  driver_dir s = elim (y.executable s) [
    | none ↦ err no_executable
    | some exe ↦
        check_files s (y.join (y.dir exe ∷ text "tap-windows6" ∷ text "amd64" ∷ [])) driver_files
  ]

  abbrev pub install_args : Bytes → List Bytes
  install_args dir = text "install" ∷ y.join (dir ∷ text "OemVista.inf" ∷ []) ∷ component_id ∷ []

  abbrev pub after_devcon :
      Bytes → List Bytes → E × (Bytes × Option Bytes) → E × Result SetupError (Unit {0})
  after_devcon path args (s, (output, some e)) = (s, err (devcon_failed path args e output))
  after_devcon path args (s, (output, none)) =
      (s, if has_adapter s then ok tt else err adapter_not_found)

  abbrev pub devcon : Bytes → E → E × Result SetupError (Unit {0})
  devcon dir s =
      let path = y.join (dir ∷ text "devcon.exe" ∷ []) in
      after_devcon path (install_args dir) (y.shell (path ∷ install_args dir) s)

  unfoldable pub ensure_adapter : E → E × Result SetupError (Unit {0})
  ensure_adapter s =
      if has_adapter s
      then (s, ok tt)
      else elim (driver_dir s) [ err e ↦ (s, err e) | ok dir ↦ devcon dir s ]

  -- What `main` prints and exits with: the code 2 for other arguments than `ensure`, 1 for a
  -- failure.
  unfoldable pub exit_code : List Bytes → E → E × ℕ
  exit_code (program ∷ command ∷ []) s =
      if not (bytes_eq command (text "ensure"))
      then (s, 2)
      else let (s', done) = ensure_adapter s in (s', elim done [ ok u ↦ 0 | err e ↦ 1 ])
  exit_code args s = (s, 2)
