-- ===== src/Client/Tests.antt =====
-- The theorems on the frames of a client, on short ones.
mod Controllers
mod Sessions
mod Streams
mod Probes
use anylan.Base.{
  ◌⊎◌, ◌+◌, ◌*◌, ◌≡◌, refl, true, false, [], ◌∷◌, ◌++◌, some, length, take, drop, get_or,
}
use anylan.Base.Bytes.{Bytes, text, bytes_eq}
use anylan.Base.Int.{pos}
use anylan.Base.Dictionary.{lookup}
use anylan.Protocol.Messages.{PeerPong}
use anylan.Client.Frames.{
  is_ipv4_packet, is_ipv4_ethernet_frame, ethernet_frame_from_ipv4, is_arp_request_for_ipv4,
  arp_reply, is_ipv4_ethernet_frame-ethernet_frame_from_ipv4, arp_reply-is_arp_request_for_ipv4,
}

abbrev mac : Bytes
mac = 6 ∷ 7 ∷ 7 ∷ 7 ∷ 7 ∷ 7 ∷ []

abbrev address : Bytes
address = 10 ∷ 0 ∷ 0 ∷ 2 ∷ []

abbrev request : Bytes
request =
    (255 ∷ 255 ∷ 255 ∷ 255 ∷ 255 ∷ 255 ∷ 2 ∷ 1 ∷ 1 ∷ 1 ∷ 1 ∷ 1 ∷ 8 ∷ 6 ∷ 0 ∷ 1 ∷ 8 ∷ 0 ∷ 6 ∷ 4 ∷ 0
      ∷ 1 ∷ [])
    ++ (2 ∷ 1 ∷ 1 ∷ 1 ∷ 1 ∷ 1 ∷ 10 ∷ 0 ∷ 0 ∷ 3 ∷ 0 ∷ 0 ∷ 0 ∷ 0 ∷ 0 ∷ 0 ∷ address)

arp_reply-is_arp_request_for_ipv4_example :
    (reply : Bytes) × (arp_reply request mac address ≡ some reply)
    × (length reply ≡ 42)
    × (take 6 reply ≡ take 6 (drop 6 request))
    × (take 6 (drop 6 reply) ≡ mac)
    × (take 2 (drop 12 reply) ≡ 0x08 ∷ 0x06 ∷ [])
    × (take 6 (drop 14 reply) ≡ take 6 (drop 14 request))
    × (get_or reply 20 0 * 256 + get_or reply 21 0 ≡ 2)
    × (take 6 (drop 22 reply) ≡ mac)
    × (take 4 (drop 28 reply) ≡ address)
    × (take 6 (drop 32 reply) ≡ take 6 (drop 22 request))
    × (take 4 (drop 38 reply) ≡ take 4 (drop 28 request))
    × (is_arp_request_for_ipv4 reply address ≡ false)
unfolding is_arp_request_for_ipv4 bytes_eq
arp_reply-is_arp_request_for_ipv4_example =
    arp_reply-is_arp_request_for_ipv4 request mac address refl refl refl
