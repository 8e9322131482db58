-- ===== src/Control/Tests.antt =====
-- A probe under another name is passed on under the name of its sender.
use anylan.Base.{◌≡◌, refl, [], ◌∷◌, some, ok}
use anylan.Base.Bytes.{Bytes, text, bytes_eq}
use anylan.Base.Int.{pos}
use anylan.Protocol.{write_message, valid, buffer}
use anylan.Protocol.Json.{marshal_message, write_json}
use anylan.Protocol.Messages.{PeerPing}
use anylan.Control.Codecs.{to_bytes, probe}
use anylan.Relay.Address.{v4}
use anylan.Relay.Peer.{Peer}
use anylan.Control.Probes.{forward_peer_ping}

abbrev ann : Peer
ann = record {
  address = 1;
  id = b'a' ∷ [];
  display_name = text "ann";
  features = [];
  room = 0;
  ip = v4 10 0 0 2;
  mac = 6 ∷ 7 ∷ 7 ∷ 7 ∷ 7 ∷ 7 ∷ [];
  connected_at = 6;
}

abbrev forged : PeerPing
forged = record {
  id = [];
  from_peer_id = b'z' ∷ [];
  to_peer_id = b'b' ∷ [];
  sent_at_unix_nano = pos 4;
}

abbrev wire : Bytes
wire = 5 ∷ 0 ∷ 0 ∷ 0 ∷ 6 ∷ 0 ∷ 4 ∷ 0 ∷ 1 ∷ b'a' ∷ b'b' ∷ []

passed_on : forward_peer_ping probe ann (to_bytes forged) ≡ ok (some (b'b' ∷ [], wire))
unfolding forward_peer_ping marshal_message write_json write_message valid bytes_eq
passed_on = refl
