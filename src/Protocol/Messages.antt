-- ===== src/Protocol/Messages.antt =====
-- The payloads that travel as JSON. A time is its distance in nanoseconds from Go's zero time.
use anylan.Base.{ℕ, List}
use anylan.Base.Bytes.{Bytes, text}
use anylan.Base.Int.{ℤ}

abbrev pub feature_peer_latency : Bytes
feature_peer_latency = text "peer_latency"

pub record JoinRoom : Type 0 where
  pub version : ℤ
  pub room : Bytes
  pub display_name : Bytes
  pub mac : Bytes
  pub nonce : Bytes
  pub features : List Bytes

pub record PeerInfo : Type 0 where
  pub id : Bytes
  pub display_name : Bytes
  pub ipv4 : Bytes
  pub mac : Bytes
  pub features : List Bytes

pub record JoinAccept : Type 0 where
  pub version : ℤ
  pub room : Bytes
  pub peer_id : Bytes
  pub ipv4 : Bytes
  pub cidr : Bytes
  pub mac : Bytes
  pub mtu : ℤ
  pub room_created_at : ℕ
  pub peers : List PeerInfo
  pub features : List Bytes

pub record JoinReject : Type 0 where
  pub reason : Bytes

pub record PeerList : Type 0 where
  pub room_created_at : ℕ
  pub peers : List PeerInfo

pub record PeerPing : Type 0 where
  pub id : Bytes
  pub from_peer_id : Bytes
  pub to_peer_id : Bytes
  pub sent_at_unix_nano : ℤ

pub record PeerPong : Type 0 where
  pub id : Bytes
  pub from_peer_id : Bytes
  pub to_peer_id : Bytes
  pub sent_at_unix_nano : ℤ
