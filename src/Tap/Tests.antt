-- ===== src/Tap/Tests.antt =====
-- The theorems on devices, on a system of two interfaces, and one in which a command fails.
use anylan.Base.{ℕ, ◌+◌, ◌≡◌, refl, false, [], ◌∷◌, none, some, map, ok, ◌==◌, if◌then◌else◌}
use anylan.Base.Bytes.{text, bytes_eq}
use anylan.Base.Int.{pos}
use anylan.Tap.{Shell, run_commands, strict}
use anylan.Tap.Commands.{Runs, run_commands-Runs}
use anylan.Tap.Linux.{
  list_new, is_seen, default_device, interface_device, linux_interface_kind, list_devices,
  configure, commands_of, Files,
}
use anylan.Tap.Linux.Listing.{names_of}

abbrev no_files : Files
no_files = record {
  stat = λ path. false;
  readlink = λ path. none;
  join = λ parts. [];
  is_abs = λ path. false;
  base = λ path. path;
  dir = λ path. path;
}

-- A system that counts the commands; the third fails.
abbrev third_fails : Shell ℕ
third_fails args n =
    if n == 2 then (3, (text "exists", some (text "exit status 2"))) else (n + 1, ([], none))

run_commands-Runs_example :
    Runs third_fails
      (map strict (commands_of (text "anylan0") [] [] (pos 1300)))
      0
      (run_commands third_fails (map strict (commands_of (text "anylan0") [] [] (pos 1300))) 0)
run_commands-Runs_example =
    run_commands-Runs third_fails (map strict (commands_of (text "anylan0") [] [] (pos 1300))) 0

-- The fourth command is not run.
stopped_at_third : (configure third_fails (text "anylan0") [] [] (pos 1300) 0).0 ≡ 3
unfolding configure run_commands commands_of
stopped_at_third = refl

-- The default device is listed once, though the system has it too.
listed_once :
    names_of (list_devices no_files (ok (text "eth0" ∷ text "anylan0" ∷ []))).0
    ≡ text "anylan0" ∷ text "eth0" ∷ []
unfolding list_devices list_new is_seen default_device interface_device linux_interface_kind
    bytes_eq
listed_once = refl
