-- ===== src/Client/Status.antt =====
-- internal/client/client.go:395-423, 461-557 and 643-726: the Status of a client. A method takes
-- the status as its lock protects it. Times are nanoseconds from Go's zero time; the counters are
-- uint64.
pub mod Probing
pub mod Next
pub mod Answers
use anylan.Base.{
  ℕ, suc, ◌+◌, ◌-◌, ◌*◌, ◌≡◌, Bool, true, false, ◌&&◌, ◌||◌, not, List, [], ◌∷◌, Option, none, some,
  leb, ltb, if◌then◌else◌,
}
use anylan.Base.Bytes.{Bytes, text, bytes_eq}
use anylan.Base.Dictionary.{Dictionary, lookup, insert}
use anylan.Base.Int.{ℤ, pos, negsuc, int_ltb}
use anylan.Protocol.Messages.{PeerInfo, PeerPong, PeerList, JoinAccept, feature_peer_latency}
use anylan.Relay.Mac.{Entropy}
use anylan.Relay.Peer.{add64}
use anylan.Client.Config.{Config}

pub record PeerLatency : Type 0 where
  pub state : Bytes
  pub rtt : ℕ
  pub pending : Bool
  pub probe_id : Bytes
  pub sent_at : ℕ
  pub next_probe : ℕ
  pub updated_at : ℕ
  pub index : ℕ
  pub order : ℤ

-- `peer_latency` is nil or a map.
pub record Status : Type 0 where
  pub server : Bytes
  pub room : Bytes
  pub display_name : Bytes
  pub device_name : Bytes
  pub insecure_skip_verify : Bool
  pub prioritize_virtual_adapter : Bool
  pub state : Bytes
  pub last_error : Bytes
  pub peer_id : Bytes
  pub ipv4 : Bytes
  pub cidr : Bytes
  pub mac : Bytes
  pub mtu : ℤ
  pub joined_at : ℕ
  pub updated_at : ℕ
  pub room_created_at : ℕ
  pub peers : List PeerInfo
  pub peer_latency : Option (Dictionary PeerLatency)
  pub rx_bytes : ℕ
  pub rx_frames : ℕ
  pub tx_bytes : ℕ
  pub tx_frames : ℕ
  pub reconnects : ℕ

unfoldable pub new_status : Config → ℕ → Status
new_status cfg now = record {
  server = cfg.server;
  room = cfg.room;
  display_name = cfg.display_name;
  device_name = cfg.device_name;
  insecure_skip_verify = cfg.insecure_skip_verify;
  prioritize_virtual_adapter = cfg.prioritize_virtual_adapter;
  state = text "starting";
  last_error = [];
  peer_id = [];
  ipv4 = [];
  cidr = [];
  mac = [];
  mtu = pos 0;
  joined_at = 0;
  updated_at = now;
  room_created_at = 0;
  peers = [];
  peer_latency = none;
  rx_bytes = 0;
  rx_frames = 0;
  tx_bytes = 0;
  tx_frames = 0;
  reconnects = 0;
}

unfoldable pub new_idle_status : Config → ℕ → Status
unfolding new_status
new_idle_status cfg now = record (new_status cfg now) { state = text "idle" }

unfoldable pub start_session : Config → ℕ → Status → Status
start_session cfg now s = record s {
  server = cfg.server;
  room = cfg.room;
  display_name = cfg.display_name;
  device_name = cfg.device_name;
  insecure_skip_verify = cfg.insecure_skip_verify;
  prioritize_virtual_adapter = cfg.prioritize_virtual_adapter;
  state = text "starting";
  last_error = [];
  peer_id = [];
  ipv4 = [];
  cidr = [];
  mac = [];
  mtu = pos 0;
  joined_at = 0;
  room_created_at = 0;
  peers = [];
  peer_latency = none;
  rx_bytes = 0;
  rx_frames = 0;
  tx_bytes = 0;
  tx_frames = 0;
  reconnects = 0;
  updated_at = now;
}

unfoldable pub set_state : Bytes → ℕ → Status → Status
set_state state now s = record s { state = state; updated_at = now }

-- The zero value of a map's entry.
abbrev pub no_latency : PeerLatency
no_latency = record {
  state = [];
  rtt = 0;
  pending = false;
  probe_id = [];
  sent_at = 0;
  next_probe = 0;
  updated_at = 0;
  index = 0;
  order = pos 0;
}

-- A nil map reads as an empty one.
abbrev pub entries : Option (Dictionary PeerLatency) → Dictionary PeerLatency
entries none = []
entries (some m) = m

abbrev found_or : Option PeerLatency → PeerLatency
found_or none = no_latency
found_or (some l) = l

-- `m[id]`
abbrev pub entry : Bytes → Dictionary PeerLatency → PeerLatency
entry id m = found_or (lookup id m)

abbrev pub is_empty : Bytes → Bool
is_empty [] = true
is_empty (b ∷ s) = false

abbrev pub noted : ℕ → PeerLatency → PeerLatency
noted i l = record l {
  state = if is_empty l.state then text "unknown" else l.state;
  index = i;
  order = pos i;
}

-- The loop over the peers, from the index `i` on.
unfoldable pub note_peers : ℕ → List PeerInfo → Dictionary PeerLatency → Dictionary PeerLatency
note_peers i [] m = m
note_peers i (p ∷ ps) m = note_peers (suc i) ps (insert p.id (noted i (entry p.id m)) m)

-- `seen`
unfoldable pub has_peer : Bytes → List PeerInfo → Bool
has_peer id [] = false
has_peer id (p ∷ ps) = bytes_eq p.id id || has_peer id ps

-- The loop that deletes what was not seen.
unfoldable pub keep_seen : List PeerInfo → Dictionary PeerLatency → Dictionary PeerLatency
keep_seen peers [] = []
keep_seen peers ((id, l) ∷ m) =
    let rest = keep_seen peers m in if has_peer id peers then (id, l) ∷ rest else rest

unfoldable pub keep_latency_peers : Status → Status
keep_latency_peers s = record s {
  peer_latency = some (keep_seen s.peers (note_peers 0 s.peers (entries s.peer_latency)));
}

unfoldable pub joined : JoinAccept → ℕ → Status → Status
joined accept now s =
    let t = keep_latency_peers (record s {
      state = text "connected";
      last_error = [];
      peer_id = accept.peer_id;
      ipv4 = accept.ipv4;
      cidr = accept.cidr;
      mac = accept.mac;
      mtu = accept.mtu;
      room_created_at = accept.room_created_at;
      peers = accept.peers;
    }) in
    record t { joined_at = now; updated_at = now }

unfoldable pub update_peers : PeerList → ℕ → Status → Status
update_peers pl now s =
    let t =
      keep_latency_peers (record s { room_created_at = pl.room_created_at; peers = pl.peers }) in
    record t { updated_at = now }

abbrev error_or : Bytes → Option Bytes → Bytes
error_or old none = old
error_or old (some e) = e

-- `err` by its text.
unfoldable pub end_session : Option Bytes → Bytes → ℕ → Status → Status
end_session e state now s = record s {
  state = state;
  last_error = error_or s.last_error e;
  peer_id = [];
  ipv4 = [];
  cidr = [];
  mac = [];
  mtu = pos 0;
  joined_at = 0;
  room_created_at = 0;
  peers = [];
  peer_latency = none;
  updated_at = now;
}

unfoldable pub record_rx : ℕ → Status → Status
record_rx size s = record s { rx_frames = add64 s.rx_frames 1; rx_bytes = add64 s.rx_bytes size }

unfoldable pub record_tx : ℕ → Status → Status
record_tx size s = record s { tx_frames = add64 s.tx_frames 1; tx_bytes = add64 s.tx_bytes size }
