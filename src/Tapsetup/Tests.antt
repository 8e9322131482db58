-- ===== src/Tapsetup/Tests.antt =====
-- The set-up of the adapter, in a system where devcon makes it.
use anylan.Base.{◌≡◌, refl, Bool, true, false, [], ◌∷◌, none, some, if◌then◌else◌}
use anylan.Base.Bytes.{text, bytes_eq}
use anylan.Tapsetup.{
  System, has_adapter, any_tap, driver_dir, check_files, ensure_adapter, exit_code, component_id,
}

-- Is there an adapter? devcon makes one.
abbrev windows : System Bool
windows = record {
  sub_keys = λ there key. some (if there then text "0001" ∷ [] else []);
  string_value = λ there key name. some component_id;
  file_exists = λ there path. true;
  executable = λ there. some (text "setup");
  equal_fold = bytes_eq;
  join = λ parts. [];
  dir = λ path. path;
  shell = λ args there. (true, ([], none));
}

made_by_devcon : exit_code windows (text "setup" ∷ text "ensure" ∷ []) false ≡ (true, 0)
unfolding exit_code ensure_adapter has_adapter any_tap driver_dir check_files bytes_eq
made_by_devcon = refl
