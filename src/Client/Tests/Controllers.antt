-- ===== src/Client/Tests/Controllers.antt =====
-- The theorems on the controller, on one client that joins one room.
use anylan.Base.{
  ℕ, ◌≡◌, refl, Bool, true, false, ◌&&◌, [], ◌∷◌, ◌++◌, Option, none, some, arith, ok, err,
  if◌then◌else◌, ◌⊎◌,
}
use anylan.Base.Bytes.{Bytes, text, bytes_eq, bytes_eq_iff}
use anylan.Client.Config.{
  Config, ConfigError, JoinRequest, LocalClientConfig, Files, ConfigCodec, ReadFile, contents,
  not_exist, load_client_config, normalize_config, save_client_config, config_from_join_request,
}
use anylan.Client.Config.Saving.{ReadsBack, RoundTrips}
use anylan.Client.Status.{new_idle_status, start_session}
use anylan.Client.Controller.{
  Setting, Controller, new_controller, join, join_config, begin, joins, Reach, here, next, looping,
  leave, mark, cancel, error_text, already_joined,
}
use anylan.Client.Controller.OneSession.{loops_once, join-Reach, saved, begun_with, is_busy}
use anylan.Client.Controller.Leaving.{join-load_client_config}
use anylan.Webui.{api_error}

abbrev same_text : Bytes → Bytes
same_text s = s

-- A system with one file.
abbrev of_file : Option Bytes → ReadFile
of_file none = not_exist
of_file (some b) = contents b

abbrev files : Files (Option Bytes)
files = record {
  read = λ f p. of_file f;
  write = λ f p b. (some b, true);
  config_path = some (text "c");
}

abbrev stored : LocalClientConfig
stored = record {
  server = text "s";
  room = text "r";
  display_name = [];
  device_name = text "t";
  insecure_skip_verify = false;
  prioritize_virtual_adapter = some true;
}

abbrev is_yes : Option Bool → Bool
is_yes none = false
is_yes (some b) = b

abbrev is_no : Bool → Bool
is_no true = false
is_no false = true

abbrev is_stored : LocalClientConfig → Bool
is_stored v =
    bytes_eq v.server (text "s")
    && bytes_eq v.room (text "r")
    && bytes_eq v.display_name []
    && bytes_eq v.device_name (text "t")
    && is_no v.insecure_skip_verify
    && is_yes v.prioritize_virtual_adapter

-- A codec of that one configuration.
abbrev json : ConfigCodec
json = record {
  marshal = λ v. if is_stored v then some (b'j' ∷ []) else none;
  unmarshal = λ b. some stored;
}

abbrev request : JoinRequest
request = record {
  server = text "s";
  room = text "r";
  display_name = [];
  device_name = [];
  insecure_skip_verify = false;
  prioritize_virtual_adapter = true;
}

abbrev env : Setting (Option Bytes)
env = record {
  files = files;
  json = json;
  unmarshal = λ b. some request;
  trim_space = same_text;
  default_device = text "t";
  config_path = [];
  os_text = λ e. [];
}

abbrev config : Config
config = record {
  server = text "s";
  room = text "r";
  display_name = [];
  device_name = text "t";
  insecure_skip_verify = false;
  prioritize_virtual_adapter = true;
}

abbrev idle : Controller (Option Bytes)
idle = new_controller env 3 none

-- In the room since the time 5.
abbrev in_room : Controller (Option Bytes)
in_room = (join env (b'p' ∷ []) 5 idle).1

in_room-Reach : Reach env idle in_room
in_room-Reach =
    next here
      (joins {c = idle} {c' = in_room} (b'p' ∷ []) 5 {res = (join env (b'p' ∷ []) 5 idle).0} refl)

in_room_loops : in_room.phase 0 ≡ looping
unfolding new_controller join join_config begin bytes_eq normalize_config save_client_config
    config_from_join_request load_client_config
in_room_loops = refl

abbrev first : ℕ
first = 0

loops_once_example : (first ≡ first) × (in_room.current ≡ some first)
loops_once_example =
    loops_once env 3 none in_room first first in_room-Reach in_room_loops in_room_loops

valid_request : join_config env (b'q' ∷ []) ≡ ok config
unfolding join_config normalize_config config_from_join_request
valid_request = refl

join-Reach_example :
    ((n : ℕ) × (is_busy (in_room.phase n) ≡ true)
      × (join env (b'q' ∷ []) 9 in_room ≡ (err already_joined, in_room)))
    ⊎ (((n : ℕ) → is_busy (in_room.phase n) ≡ false)
        × (((x : ConfigError) × (g : Option Bytes) × (saved env config in_room ≡ (g, some x))
              × (join env (b'q' ∷ []) 9 in_room ≡ (
                err (api_error 500 (text "save client config: " ++ error_text env x)),
                record in_room { files = g },
              )))
            ⊎ ((g : Option Bytes) × (saved env config in_room ≡ (g, none))
                × (join env (b'q' ∷ []) 9 in_room
                    ≡ (ok in_room.begun, begun_with env config 9 g in_room)))))
join-Reach_example = join-Reach env 3 none in_room (b'q' ∷ []) config 9 in_room-Reach valid_request

-- The client in the room, where somebody leaves it.
abbrev out_of_room : Controller (Option Bytes)
out_of_room = cancel 4 0 (mark 4 0 7 (leave 4 in_room))

files-ReadsBack : ReadsBack files
files-ReadsBack f g path bytes e = ground (arith, e)

json-RoundTrips : RoundTrips json
json-RoundTrips v bytes e = ground (
  arith,
  e,
  bytes_eq_iff v.server (text "s"),
  bytes_eq_iff v.room (text "r"),
  bytes_eq_iff v.display_name [],
  bytes_eq_iff v.device_name (text "t"),
)

joined_now : join env (b'p' ∷ []) 5 idle ≡ (ok 0, in_room)
unfolding new_controller join join_config begin bytes_eq normalize_config save_client_config
    config_from_join_request load_client_config
joined_now = refl

join-load_client_config_example :
    (cfg : Config) × (join_config env (b'p' ∷ []) ≡ ok cfg)
    × (load_client_config env.files env.json env.default_device in_room.files env.config_path
        ≡ ok cfg)
    × (in_room.status ≡ start_session cfg 5 idle.status)
    × ((new_controller env 20 in_room.files).status ≡ new_idle_status cfg 20)
join-load_client_config_example =
    join-load_client_config env (b'p' ∷ []) 5 20 idle in_room 0 files-ReadsBack json-RoundTrips
      (λ s. refl) refl refl joined_now
