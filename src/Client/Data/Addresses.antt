-- ===== src/Client/Data/Addresses.antt =====
-- The frames of a client with a TUN device: what it makes of its packets, what it answers, and that
-- it never panics.
use anylan.Base.{◌≡◌, false, Option, some}
use anylan.Base.Bytes.{Bytes, bytes_eq}
use anylan.Protocol.Messages.{PeerInfo}
use anylan.Protocol.{buffer}
use anylan.Relay.Peer.{Peer}
use anylan.Relay.Room.{Room}

-- The peer that an address is that of, as the client sees it.
abbrev Owns : (Bytes → Option Bytes) → Bytes → Bytes → PeerInfo → Type 0
Owns parse_ip own ip p = (bytes_eq p.ipv4 own ≡ false) × (parse_ip p.ipv4 ≡ some ip)
