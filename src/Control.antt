-- ===== src/Control.antt =====
-- internal/control/handler.go: the features, the peer list, and, in the children, the session of a
-- peer. encoding/json, strings.TrimSpace, net.ParseMAC and the text of an address are arguments.
pub mod Probes
pub mod Session
pub mod Data
pub mod Handler
pub mod Streams
pub mod Codecs
mod Tests
use anylan.Base.{not, List, map, keep, []}
use anylan.Base.Bytes.{Bytes, text, bytes_eq}
use anylan.Protocol.{buffer, type_peer_list}
use anylan.Protocol.Json.{Codec, write_json}
use anylan.Protocol.Messages.{PeerInfo, PeerList, feature_peer_latency}
use anylan.Relay.Snapshots.{PeerSnapshot, RoomSnapshot}

abbrev to_peer_info : PeerSnapshot → PeerInfo
to_peer_info p = record {
  id = p.id;
  display_name = p.display_name;
  ipv4 = p.ip;
  mac = p.mac;
  features = p.features;
}

unfoldable pub to_peer_infos : List PeerSnapshot → List PeerInfo
to_peer_infos peers = map to_peer_info peers

unfoldable pub filter_supported_features : List Bytes → List Bytes
filter_supported_features features = keep (λ f. bytes_eq f feature_peer_latency) features

-- The buffer is empty when the list could not be written.
unfoldable pub build_peer_list_msg : Codec PeerList → RoomSnapshot → Bytes
unfolding to_peer_infos write_json
build_peer_list_msg c snap =
    (write_json c [] type_peer_list
      (record { room_created_at = snap.created_at; peers = to_peer_infos snap.peers })).0
