-- ===== src/Relay/Tests/Turns.antt =====
-- The theorems on the handler's turn and its effect, on one frame of a peer.
use anylan.Base.{◌≡◌, arith, refl, true, [], ◌∷◌, none, some}
use anylan.Base.Bytes.{Bytes, bytes_eq}
use anylan.Base.Dictionary.{lookup, insert}
use anylan.Capture.{is_enabled}
use anylan.Control.Data.{relay_frame}
use anylan.Control.Data.Relaying.{relay_frame_total}
use anylan.Control.Data.Delivering.{Delivered, relay_frame-Delivered}
use anylan.Relay.Peer.{new_state, allow_frame}
use anylan.Relay.Mac.{random_mac, random_hex, hex, clone_mac}
use anylan.Relay.Address.{ipv4_to_uint32, uint32_to_ipv4}
use anylan.Relay.Manager.{
  World, new_manager, get_or_create_room, create_room, allocate_room_index, max_rooms,
  room_add_peer,
}
use anylan.Relay.Room.{
  is_current, add_peer, draw_identity, choose_mac, allocate_host, host_addr, finish_add,
}
use anylan.Relay.Manager.Invariant.{WorldFits}
use anylan.Relay.Manager.Leaving.{IsHandle}
use anylan.Relay.Tests.{base, ann, home, home_found, fits, with_bob}

abbrev frame : Bytes
frame = 255 ∷ 255 ∷ 255 ∷ 255 ∷ 255 ∷ 255 ∷ 6 ∷ 7 ∷ 7 ∷ 7 ∷ 7 ∷ 7 ∷ 8 ∷ 0 ∷ []

abbrev same_text : Bytes → Bytes
same_text s = s

ann_cell : with_bob.peer_at 1 ≡ some (record { info = ann; state = new_state })
unfolding new_manager get_or_create_room create_room allocate_room_index max_rooms room_add_peer
    lookup insert ipv4_to_uint32 uint32_to_ipv4 add_peer draw_identity random_hex hex choose_mac
    clone_mac random_mac allocate_host host_addr finish_add bytes_eq new_state
ann_cell = refl

abbrev ann-IsHandle : IsHandle with_bob ann
ann-IsHandle = record {
  cell = record { info = ann; state = new_state };
  found = ann_cell;
  same = refl;
}

relay_frame_total_example :
    (w' : World) × (relay_frame same_text ann frame 9 (none, with_bob) ≡ some (none, w'))
    × WorldFits base w'
unfolding is_enabled
relay_frame_total_example =
    relay_frame_total base ann frame same_text 9 none with_bob home fits ann-IsHandle home_found
      refl

ann_here : is_current home ann ≡ true
unfolding is_current lookup bytes_eq
ann_here = refl

relay_frame-Delivered_example :
    (w' : World) × (relay_frame same_text ann frame 9 (none, with_bob) ≡ some (none, w'))
    × Delivered with_bob home ann frame w'
unfolding is_enabled allow_frame new_state
relay_frame-Delivered_example =
    relay_frame-Delivered base ann frame 9 with_bob home fits ann-IsHandle home_found same_text none
      ann_here refl (omega arith) refl refl
