-- ===== src/Client/Config.antt =====
-- internal/client/client.go:40-57 and 98-125, and internal/client/local_config.go: what a client is
-- told to do, and the file that remembers it. strings.TrimSpace, encoding/json, the default name of
-- the device and the files of the system are arguments.
pub mod Saving
use anylan.Base.{
  Bool, true, false, [], ◌∷◌, ◌++◌, Option, none, some, if◌then◌else◌, Result, ok, err,
}
use anylan.Base.Bytes.{Bytes}

-- Capture, a pointer that is passed on, is an argument where it is used.
pub record Config : Type 0 where
  pub server : Bytes
  pub room : Bytes
  pub display_name : Bytes
  pub device_name : Bytes
  pub insecure_skip_verify : Bool
  pub prioritize_virtual_adapter : Bool

pub record JoinRequest : Type 0 where
  pub server : Bytes
  pub room : Bytes
  pub display_name : Bytes
  pub device_name : Bytes
  pub insecure_skip_verify : Bool
  pub prioritize_virtual_adapter : Bool

unfoldable pub config_from_join_request : JoinRequest → Config
config_from_join_request req = record {
  server = req.server;
  room = req.room;
  display_name = req.display_name;
  device_name = req.device_name;
  insecure_skip_verify = req.insecure_skip_verify;
  prioritize_virtual_adapter = req.prioritize_virtual_adapter;
}

-- The errors of the configuration and of its file.
pub data ConfigError : Type 0 where
  server_required room_required no_config_dir unreadable unparsed unmarshalled unwritten :
      ConfigError

abbrev pub is_empty : Bytes → Bool
is_empty [] = true
is_empty (b ∷ s) = false

abbrev or_default : Bytes → Bytes → Bytes
or_default default s = if is_empty s then default else s

unfoldable pub normalize_config : (Bytes → Bytes) → Bytes → Config → Result ConfigError Config
normalize_config trim_space default_device cfg =
    if is_empty (trim_space cfg.server)
    then err server_required
    else if is_empty (trim_space cfg.room)
    then err room_required
    else ok (record cfg {
      server = trim_space cfg.server;
      room = trim_space cfg.room;
      display_name = trim_space cfg.display_name;
      device_name = or_default default_device (trim_space cfg.device_name);
    })

pub record LocalClientConfig : Type 0 where
  pub server : Bytes
  pub room : Bytes
  pub display_name : Bytes
  pub device_name : Bytes
  pub insecure_skip_verify : Bool
  pub prioritize_virtual_adapter : Option Bool

unfoldable pub default_control_config : Bytes → Config
default_control_config default_device = record {
  server = [];
  room = [];
  display_name = [];
  device_name = default_device;
  insecure_skip_verify = false;
  prioritize_virtual_adapter = true;
}

-- os.ReadFile: the bytes, no such file, or another error.
pub data ReadFile : Type 0 where
  contents : Bytes → ReadFile
  not_exist : ReadFile
  read_failed : ReadFile

-- The files as the system has them: what a path reads as, and what os.MkdirAll for the directory of
-- a path and os.WriteFile leave, with whether both succeeded. A failure may leave new directories, or
-- a file that was cut.
pub record Files (F : Type 0) : Type 0 where
  pub read : F → Bytes → ReadFile
  pub write : F → Bytes → Bytes → F × Bool
  -- `filepath.Join(os.UserConfigDir(), "anylan", "client.json")`
  pub config_path : Option Bytes

-- json.MarshalIndent and json.Unmarshal of a LocalClientConfig.
pub record ConfigCodec : Type 0 where
  pub marshal : LocalClientConfig → Option Bytes
  pub unmarshal : Bytes → Option LocalClientConfig

abbrev bool_or : Bool → Option Bool → Bool
bool_or b none = b
bool_or b (some c) = c

module _ {F : Type 0} (files : Files F) (json : ConfigCodec) (default_device : Bytes) where
  -- The path that is meant: the given one, or that of the user's configuration.
  abbrev path_or_default : Bytes → Option Bytes
  path_or_default path = if is_empty path then files.config_path else some path

  unfoldable of_stored : LocalClientConfig → Config
  unfolding default_control_config
  of_stored stored = record {
    server = stored.server;
    room = stored.room;
    display_name = stored.display_name;
    device_name = or_default default_device stored.device_name;
    insecure_skip_verify = stored.insecure_skip_verify;
    prioritize_virtual_adapter = bool_or true stored.prioritize_virtual_adapter;
  }

  abbrev of_contents : Option LocalClientConfig → Result ConfigError Config
  of_contents none = err unparsed
  of_contents (some stored) = ok (of_stored stored)

  abbrev of_file : ReadFile → Result ConfigError Config
  of_file (contents data_read) = of_contents (json.unmarshal data_read)
  of_file not_exist = ok (default_control_config default_device)
  of_file read_failed = err unreadable

  -- With an error the caller gets the default configuration too.
  unfoldable pub load_client_config : F → Bytes → Result ConfigError Config
  unfolding of_stored default_control_config
  load_client_config f path = elim (path_or_default path) [
    | none ↦ err no_config_dir
    | some p ↦ of_file (files.read f p)
  ]

  abbrev to_stored : Config → LocalClientConfig
  to_stored cfg = record {
    server = cfg.server;
    room = cfg.room;
    display_name = cfg.display_name;
    device_name = cfg.device_name;
    insecure_skip_verify = cfg.insecure_skip_verify;
    prioritize_virtual_adapter = some cfg.prioritize_virtual_adapter;
  }

  abbrev written : F × Bool → F × Option ConfigError
  written (f, true) = (f, none)
  written (f, false) = (f, some unwritten)

  -- The files after it, and the error.
  unfoldable pub save_client_config : F → Bytes → Config → F × Option ConfigError
  save_client_config f path cfg = elim (path_or_default path) [
    | none ↦ (f, some no_config_dir)
    | some p ↦ elim (json.marshal (to_stored cfg)) [
      | none ↦ (f, some unmarshalled)
      | some bytes ↦ written (files.write f p (bytes ++ b'\n' ∷ []))
    ]
  ]
