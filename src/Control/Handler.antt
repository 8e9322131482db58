-- ===== src/Control/Handler.antt =====
-- internal/control/handler.go:43-160: how the handler lets a peer in, greets it, and cleans up
-- after it, with no other goroutine in between. The streams are writers of the protocol, and
-- whether the data stream could be opened is an argument. `none` and `panics` are panics.
pub mod Entering
pub mod Greeting
pub mod Listed
pub mod Leaving
use anylan.Base.{
  ℕ, Bool, true, false, ◌∷◌, Option, none, some, ltb, if◌then◌else◌, Result, ok, err, [],
}
use anylan.Base.Bytes.{Bytes, text}
use anylan.Base.Int.{ℤ, pos, int_eq}
use anylan.Base.Slices.{◌>>=◌}
use anylan.Base.Formatting.{mac_string}
use anylan.Protocol.{
  Writer, Reader, write_message, max_control_size, default_mtu, type_join_room, type_join_accept,
  type_join_reject, type_ping,
}
use anylan.Protocol as Protocol
use anylan.Protocol.Json.{Codec, write_json, read_json}
use anylan.Protocol.Messages.{JoinRoom, JoinAccept, JoinReject, PeerList, feature_peer_latency}
use anylan.Control.{to_peer_infos, build_peer_list_msg}
use anylan.Control.Session.{check_join, version}
use anylan.Relay.Error.{Error}
use anylan.Relay.Address.{Addr, Prefix}
use anylan.Relay.Mac.{Entropy}
use anylan.Relay.Peer.{Peer}
use anylan.Relay.Room.{Room, JoinOptions, peer_count}
use anylan.Relay.Manager.{World, Run, returns, panics, runs_on, join, remove_peer}
use anylan.Relay.Snapshots.{RoomSnapshot, room_snapshot}
use anylan.Relay.Notifications.{broadcast_notify}

-- What the handler uses of the packages strings, net, netip, errors and encoding/json.
pub record Services : Type 0 where
  pub trim_space : Bytes → Bytes
  pub parse_mac : Bytes → Option Bytes
  pub error_text : Error → Bytes
  pub addr_string : Addr → Bytes
  pub prefix_string : Prefix → Bytes
  pub joins : Codec JoinRoom
  pub accepts : Codec JoinAccept
  pub rejects : Codec JoinReject
  pub peer_lists : Codec PeerList

-- `if h.MTU == 0 { h.MTU = protocol.DefaultMTU }`
unfoldable pub mtu_or_default : ℤ → ℤ
mtu_or_default mtu = if int_eq mtu (pos 0) then pos default_mtu else mtu

-- The request at the head of the control stream and the rest of that stream, or the reason to
-- refuse it.
unfoldable pub read_request : Services → Reader → Result Bytes ((Bytes × JoinOptions) × Reader)
read_request v r = elim (read_json v.joins r type_join_room max_control_size) [
  | err e ↦ err (text "invalid join request")
  | ok (join, rest) ↦ elim (check_join v.trim_space v.parse_mac join) [
    | err reason ↦ err reason
    | ok request ↦ ok (request, rest)
  ]
]

-- The writing side of a stream.
pub record Stream (W : Type 0) : Type 0 where
  pub written : W
  pub finished : Bool

-- Where `handleStream` stands after the request: it returned `errRejected`, or it has a peer.
pub data Admission (W : Type 0) : Type 0 where
  turned_away : Stream W → Admission W
  admitted : Bytes → Peer → Reader → Admission W

module _ {W : Type 0} ⦃s : Writer W⦄ where
  unfoldable pub reject : Services → W → Bytes → W × Option Protocol.Error
  reject v w reason = write_json v.rejects w type_join_reject (record { reason = reason })

  unfoldable pub reject_and_close_stream : Services → Stream W → Bytes → Stream W
  unfolding reject
  reject_and_close_stream v stream reason = record {
    written = (reject v stream.written reason).0;
    finished = true;
  }

  abbrev pub admit_joined :
      Services
      → Stream W
      → Bytes
      → Reader
      → Run (Result Error Peer × World)
      → Run (Admission W × World)
  admit_joined v stream room rest (returns (ok p, w)) = returns (admitted room p rest, w)
  admit_joined v stream room rest (returns (err e, w)) =
      returns (turned_away (reject_and_close_stream v stream (v.error_text e)), w)
  admit_joined v stream room rest panics = panics
  admit_joined v stream room rest runs_on = runs_on

  -- `fuel` bounds the rounds of `Manager.Join`.
  unfoldable pub enter :
      Services → ℕ → Reader → Stream W → Entropy → ℕ → World → Run (Admission W × World)
  enter v fuel r stream rand now w = elim (read_request v r) [
    | err reason ↦ returns (turned_away (reject_and_close_stream v stream reason), w)
    | ok ((room, opt), rest) ↦ admit_joined v stream room rest (join fuel room opt rand now w)
  ]

-- The message that accepts a peer.
unfoldable pub join_accept : Services → ℤ → Bytes → Peer → Room → RoomSnapshot → JoinAccept
join_accept v mtu room p r snap = record {
  version = version;
  room = room;
  peer_id = p.id;
  ipv4 = v.addr_string p.ip;
  cidr = v.prefix_string (record { addr = p.ip; bits = r.prefix.bits });
  mac = mac_string p.mac;
  mtu = mtu_or_default mtu;
  room_created_at = snap.created_at;
  peers = to_peer_infos snap.peers;
  features = feature_peer_latency ∷ [];
}

-- What was written to the two streams; the data stream only if it was opened.
pub record Greeted (W D : Type 0) : Type 0 where
  pub failed : Bool
  pub control : W
  pub data_stream : Option D
  pub world : World

module _ {W D : Type 0} ⦃s : Writer W⦄ ⦃t : Writer D⦄ where
  -- After the data stream was opened.
  abbrev pub announce_joined :
      Services
      → Peer
      → Room
      → RoomSnapshot
      → W
      → World
      → D × Option Protocol.Error
      → Option (Greeted W D)
  announce_joined v p r snap c w (d, some e) =
      some (record { failed = true; control = c; data_stream = some d; world = w })
  announce_joined v p r snap c w (d, none) = do
    w' ← broadcast_notify r (build_peer_list_msg v.peer_lists snap) (some p) w
    some (record { failed = false; control = c; data_stream = some d; world = w' })

  abbrev pub open_data :
      Services
      → Peer
      → Room
      → RoomSnapshot
      → Option D
      → World
      → W × Option Protocol.Error
      → Option (Greeted W D)
  open_data v p r snap opened w (c, some e) =
      some (record { failed = true; control = c; data_stream = none; world = w })
  open_data v p r snap none w (c, none) =
      some (record { failed = true; control = c; data_stream = none; world = w })
  open_data v p r snap (some d) w (c, none) =
      announce_joined v p r snap c w (write_message d type_ping [])

  -- From the snapshot of the room to the start of the goroutines.
  unfoldable pub greet : Services → ℤ → Bytes → Peer → W → Option D → World → Option (Greeted W D)
  greet v mtu room p c opened w = do
    r ← w.room_at p.room
    snap ← room_snapshot v.addr_string v.prefix_string w r
    open_data v p r snap opened w
        (write_json v.accepts c type_join_accept (join_accept v mtu room p r snap))

-- The peer list goes to everybody that is left.
abbrev pub announce_left : Services → Room → World → Option World
announce_left v r w =
    if ltb 0 (peer_count r)
    then (room_snapshot v.addr_string v.prefix_string w r >>= λ snap.
        broadcast_notify r (build_peer_list_msg v.peer_lists snap) none w)
    else some w

-- The deferred clean-up of `handleStream`, less its log.
unfoldable pub clean_up : Services → Peer → World → Option World
clean_up v p w = do w' ← remove_peer p.room p w; r ← w'.room_at p.room; announce_left v r w'
