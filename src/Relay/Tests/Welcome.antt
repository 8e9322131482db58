-- ===== src/Relay/Tests/Welcome.antt =====
-- The welcome of a peer into a room of two, and the client that reads it.
use anylan.Base.{◌≡◌, ◌≢◌, refl, ◌∙◌, false, [], ◌∷◌, ◌++◌, Option, none, some, ok, arith, map}
use mathlib.Core.Path.{ap}
use mathlib.Core.List.{Perm}
use mathlib.Core.Logic.{ite, if_pos, if_neg}
use native.Mathlib.Decide.{ℕ_discrete}
use anylan.Base.Bytes.{Bytes, text, bytes_eq}
use anylan.Base.Int.{pos}
use anylan.Base.Dictionary.{lookup, values, insert}
use anylan.Base.Formatting.{mac_string}
use anylan.Protocol.{
  buffer, eof, valid, read_message, write_message, type_join_accept, max_control_size,
}
use anylan.Protocol.Json.{Codec, RoundTrips, write_json}
use anylan.Protocol.Messages.{JoinAccept, PeerInfo}
use anylan.Relay.Peer.{Peer, new_state, try_send}
use anylan.Relay.Mac.{random_mac, random_hex, hex, clone_mac}
use anylan.Relay.Address.{ipv4_to_uint32, uint32_to_ipv4}
use anylan.Base.Sorting.{sort_by, insert_by}
use anylan.Relay.Notifications.{broadcast_notify, notify_all, notify_peer}
use anylan.Relay.Notifications.Broadcast.{informed}
use anylan.Control.{build_peer_list_msg, to_peer_infos}
use anylan.Relay.Room.{add_peer, draw_identity, choose_mac, allocate_host, host_addr, finish_add}
use anylan.Relay.Manager.{
  set_peer, new_manager, get_or_create_room, create_room, allocate_room_index, max_rooms,
  room_add_peer,
}
use anylan.Relay.Snapshots.{
  PeerSnapshot, RoomSnapshot, room_snapshot, snapshots_of, peer_snapshot, joined_before,
}
use anylan.Control.Handler.{Services, Greeted, greet, join_accept, mtu_or_default}
use anylan.Client.Session.{check_response}
use anylan.Client.Session.Welcome.{join_accepted}
use anylan.Relay.Tests.{base, ann, bob, home, home_found, fits, with_bob}
use anylan.Relay.Tests.Views.{tidy}
use anylan.Relay.Tests.Handlers.{no_codec, services}

JoinAccept-discrete : Discrete JoinAccept
JoinAccept-discrete = hlevel ℕ_discrete

abbrev shown : Peer → PeerInfo
shown p = record {
  id = p.id;
  display_name = p.display_name;
  ipv4 = [];
  mac = mac_string p.mac;
  features = p.features;
}

abbrev welcome : JoinAccept
welcome = record {
  version = pos 1;
  room = text "lan";
  peer_id = bob.id;
  ipv4 = [];
  cidr = [];
  mac = mac_string bob.mac;
  mtu = pos 1300;
  room_created_at = 5;
  peers = shown ann ∷ shown bob ∷ [];
  features = text "peer_latency" ∷ [];
}

-- A codec that knows one message.
abbrev welcomes : Codec JoinAccept
welcomes = record {
  marshal = λ v. ite (JoinAccept-discrete v welcome) (some (9 ∷ [])) none;
  unmarshal = λ p. some welcome;
}

welcomes-RoundTrips : RoundTrips welcomes
welcomes-RoundTrips v p e = elim (JoinAccept-discrete v welcome) [
  | yes same ↦ cc same
  | no other ↦
      absurd (
        cc
          (e, if_neg {C = Option Bytes} (JoinAccept-discrete v welcome) other (some (9 ∷ [])) none))
]

abbrev welcoming : Services
welcoming = record services { accepts = welcomes; rejects = no_codec; peer_lists = no_codec }

abbrev greeted : Greeted Bytes Bytes
greeted = record {
  failed = false;
  control = 2 ∷ 0 ∷ 0 ∷ 0 ∷ 1 ∷ 9 ∷ [];
  data_stream = some (5 ∷ 0 ∷ 0 ∷ 0 ∷ 0 ∷ []);
  world = set_peer with_bob 1 (informed (record { info = ann; state = new_state }) []);
}

abbrev shot : Peer → PeerSnapshot
shot p = record {
  id = p.id;
  display_name = p.display_name;
  features = p.features;
  ip = [];
  mac = mac_string p.mac;
  connected_at = p.connected_at;
  rx_bytes = 0;
  rx_frames = 0;
  tx_bytes = 0;
  tx_frames = 0;
  drop_bytes = 0;
  drop_frames = 0;
}

abbrev home_shot : RoomSnapshot
home_shot = record {
  name = text "lan";
  prefix = [];
  created_at = 5;
  peers = shot ann ∷ shot bob ∷ [];
}

home_shown :
    room_snapshot welcoming.addr_string welcoming.prefix_string with_bob home ≡ some home_shot
unfolding room_snapshot snapshots_of peer_snapshot joined_before insert_by sort_by lookup insert
    values new_manager get_or_create_room create_room allocate_room_index max_rooms room_add_peer
    ipv4_to_uint32 uint32_to_ipv4 add_peer draw_identity random_hex hex choose_mac clone_mac
    random_mac allocate_host host_addr finish_add bytes_eq new_state
home_shown = refl

bob_accepted : join_accept welcoming (pos 0) (text "lan") bob home home_shot ≡ welcome
unfolding join_accept mtu_or_default to_peer_infos
bob_accepted = refl

write_json-marshalled :
    {A : Type 0} (c : Codec A) (v : A) (p : Bytes)
    → c.marshal v ≡ some p
    → write_json c {W = Bytes} [] type_join_accept v ≡ write_message [] type_join_accept p
unfolding write_json
write_json-marshalled c v p made = ground (arith, made)

welcome_written :
    write_json welcomes {W = Bytes} [] type_join_accept welcome ≡ (greeted.control, none)
unfolding write_message valid
welcome_written =
    write_json-marshalled welcomes welcome (9 ∷ [])
      (if_pos {C = Option Bytes} (JoinAccept-discrete welcome welcome) refl (some (9 ∷ [])) none)

bob_answered :
    write_json welcoming.accepts {W = Bytes} [] type_join_accept
      (join_accept welcoming (pos 0) (text "lan") bob home home_shot)
    ≡ (greeted.control, none)
bob_answered =
    ap (λ (a : JoinAccept). write_json welcomes {W = Bytes} [] type_join_accept a) bob_accepted
    ∙ welcome_written

ann_told :
    broadcast_notify home (build_peer_list_msg no_codec home_shot) (some bob) with_bob
    ≡ some greeted.world
unfolding build_peer_list_msg broadcast_notify notify_all notify_peer try_send lookup insert values
    new_manager get_or_create_room create_room allocate_room_index max_rooms room_add_peer
    ipv4_to_uint32 uint32_to_ipv4 add_peer draw_identity random_hex hex choose_mac clone_mac
    random_mac allocate_host host_addr finish_add bytes_eq new_state
ann_told = refl

bob-greeted : greet welcoming (pos 0) (text "lan") bob [] (some []) with_bob ≡ some greeted
unfolding greet write_message valid
bob-greeted = ground (arith, home_found, home_shown, bob_answered, ann_told)

join_accepted_example :
    (accept : JoinAccept) × (payload : Bytes) × (read_message
        (record { pending = greeted.control ++ []; ending = eof })
        max_control_size
      ≡ ok (type_join_accept, payload, record { pending = []; ending = eof }))
    × (check_response no_codec welcomes [] type_join_accept payload ≡ ok accept)
    × (accept.peer_id ≡ bob.id)
    × (accept.mac ≡ mac_string bob.mac)
    × (accept.mtu ≢ pos 0)
    × Perm (map (λ i. i.id) accept.peers) (map (λ q. q.id) (values home.peers))
join_accepted_example =
    join_accepted welcoming (pos 0) (text "lan") bob base with_bob home (some []) greeted [] [] eof
      welcomes-RoundTrips fits tidy home_found bob-greeted refl
