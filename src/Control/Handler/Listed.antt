-- ===== src/Control/Handler/Listed.antt =====
-- The bytes of a peer list, which the handler queues for the peers of a room.
use anylan.Base.{
  ◌*◌, ◌≡◌, refl, [], ◌∷◌, ◌++◌, Option, none, some, arith, length, leb, if◌then◌else◌, map,
  Option-cases, inl, inr,
}
use anylan.Base.Bytes.{Bytes}
use anylan.Base.Binary.{put_uint32}
use anylan.Protocol.{buffer, write_message, valid, type_peer_list}
use anylan.Protocol.Json.{Codec, write_json}
use anylan.Protocol.Messages.{PeerInfo, PeerList}
use anylan.Relay.Snapshots.{PeerSnapshot, RoomSnapshot}
use anylan.Control.{build_peer_list_msg, to_peer_infos}

-- One entry of the list.
abbrev info_of : PeerSnapshot → PeerInfo
info_of p = record {
  id = p.id;
  display_name = p.display_name;
  ipv4 = p.ip;
  mac = p.mac;
  features = p.features;
}

-- The list that a snapshot of the room amounts to.
abbrev pub list_of : RoomSnapshot → PeerList
list_of snap = record { room_created_at = snap.created_at; peers = map info_of snap.peers }

-- The type byte, the size in four bytes and the text, if there is one of at most 64 KiB.
abbrev pub on_wire : Option Bytes → Bytes
on_wire none = []
on_wire (some p) = if leb (length p) (64 * 1024) then 7 ∷ put_uint32 (length p) ++ p else []

written : (p : Bytes) → (write_message [] type_peer_list p).0 ≡ on_wire (some p)
unfolding write_message valid
written [] = ground arith
written (b ∷ p) = ground arith

pub build_peer_list_msg-on_wire :
    (c : Codec PeerList) (snap : RoomSnapshot)
    → build_peer_list_msg c snap ≡ on_wire (c.marshal (list_of snap))
unfolding build_peer_list_msg to_peer_infos write_json
build_peer_list_msg-on_wire c snap = elim (Option-cases (c.marshal (list_of snap))) [
  | inl failed ↦ rw (failed, build_peer_list_msg, write_json) refl
  | inr (p, made) ↦ rw (made, build_peer_list_msg, write_json) (written p)
]
