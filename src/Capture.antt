-- ===== src/Capture.antt =====
-- internal/capture/recorder.go: the ring of captured frames and the record of one frame. The clock
-- is an argument, and so is net.IP.String, whose text of an address of 16 bytes is the library's
-- own. The methods on a nil recorder are those of `Option Recorder` at `none`.
pub mod Frames
pub mod Ring
mod Tests
use anylan.Base.{
  ℕ, suc, ◌+◌, ◌*◌, ◌/◌, ◌%◌, ◌^◌, Bool, true, false, not, ◌||◌, List, [], ◌∷◌, ◌++◌, Option, none,
  some, length, ltb, leb, ◌==◌, if◌then◌else◌,
}
use anylan.Base.Bytes.{Bytes, text, bytes_eq}
use anylan.Base.Int.{ℤ, pos, negsuc}
use anylan.Base.Slices.{◌>>=◌, byte, slice, slice_from, uint16_at, shift_in}
use anylan.Base.Formatting.{decimal, hex16, mac_string}

abbrev pub default_limit : ℕ
default_limit = 100

pub record Event : Type 0 where
  pub seq : ℕ
  pub time : ℕ
  pub direction : Bytes
  pub room : Bytes
  pub peer_id : Bytes
  pub peer_name : Bytes
  pub size : ℕ
  pub valid : Bool
  pub ether_type : Bytes
  pub type_name : Bytes
  pub summary : Bytes
  pub src_mac : Bytes
  pub dst_mac : Bytes
  pub src_ip : Bytes
  pub dst_ip : Bytes
  pub ip_proto : Bytes
  pub src_port : ℕ
  pub dst_port : ℕ
  pub vlan : Bool
  pub reason : Bytes

pub record Snapshot : Type 0 where
  pub generated_at : ℕ
  pub enabled : Bool
  pub limit : ℕ
  pub count : ℕ
  pub events : List Event

pub record Metadata : Type 0 where
  pub direction : Bytes
  pub room : Bytes
  pub peer_id : Bytes
  pub peer_name : Bytes

pub record Recorder : Type 0 where
  pub enabled : Bool
  pub limit : ℕ
  pub next_seq : ℕ
  pub events : List Event

-- `limit` is an int, and one that is not positive is replaced.
abbrev pub positive_limit : ℤ → ℕ
positive_limit (pos n) = if n == 0 then default_limit else n
positive_limit (negsuc n) = default_limit

unfoldable pub new_recorder : ℤ → Recorder
new_recorder limit = record {
  enabled = false;
  limit = positive_limit limit;
  next_seq = 0;
  events = [];
}

-- The event of a frame before anything of it is read.
abbrev pub empty_event : ℕ → Event
empty_event size = record {
  seq = 0;
  time = 0;
  direction = [];
  room = [];
  peer_id = [];
  peer_name = [];
  size = size;
  valid = false;
  ether_type = text "unknown";
  type_name = text "Unknown";
  summary = text "Invalid frame";
  src_mac = [];
  dst_mac = [];
  src_ip = [];
  dst_ip = [];
  ip_proto = [];
  src_port = 0;
  dst_port = 0;
  vlan = false;
  reason = [];
}

abbrev pub nil_snapshot : ℕ → Snapshot
nil_snapshot now = record {
  generated_at = now;
  enabled = false;
  limit = default_limit;
  count = 0;
  events = [];
}

unfoldable pub snapshot : Recorder → ℕ → Snapshot
snapshot r now = record {
  generated_at = now;
  enabled = r.enabled;
  limit = r.limit;
  count = length r.events;
  events = r.events;
}

unfoldable pub snapshot_of : Option Recorder → ℕ → Snapshot
unfolding snapshot
snapshot_of none now = nil_snapshot now
snapshot_of (some r) now = snapshot r now

unfoldable pub set_enabled : Bool → Option Recorder → ℕ → Option Recorder × Snapshot
unfolding snapshot
set_enabled b none now = (none, nil_snapshot now)
set_enabled b (some r) now = let r' = record r { enabled = b } in (some r', snapshot r' now)

unfoldable pub enable : Option Recorder → ℕ → Option Recorder × Snapshot
unfolding set_enabled
enable r now = set_enabled true r now

unfoldable pub disable : Option Recorder → ℕ → Option Recorder × Snapshot
unfolding set_enabled
disable r now = set_enabled false r now

unfoldable pub is_enabled : Option Recorder → Bool
is_enabled none = false
is_enabled (some r) = r.enabled
