-- ===== src/Client/Data.antt =====
-- internal/client/client.go:863-909 and 985-1044: what a client does with the frames of its device
-- and those of its data stream, turn by turn. The stream and the device are what was written to
-- them. net.ParseIP, net.ParseMAC, net.ParseCIDR and the text of an address are arguments.
pub mod EndToEnd
pub mod Addresses
pub mod Safety
use Prim.Native.Nat.{bit_or}
use anylan.Base.{
  ℕ, ◌-◌, ◌≡◌, Bool, true, false, not, ◌||◌, List, [], ◌∷◌, Option, none, some, length, drop, ◌==◌,
  if◌then◌else◌, Result, ok, err,
}
use anylan.Base.Bytes.{Bytes, text, bytes_eq}
use anylan.Protocol.{Error, MessageType, Writer, write_message, type_ethernet_frame}
use anylan.Protocol.Messages.{PeerInfo}
use anylan.Capture.{Metadata, Recorder}
use anylan.Capture.Ring.{record_frame}
use anylan.Client.Status.{Status, is_empty, record_rx, record_tx}
use anylan.Client.Frames.{
  ethernet_frame_from_ipv4, is_ipv4_packet, is_ipv4_ethernet_frame, ipv4_dst,
  should_deliver_ipv4_to_tun, broadcast_mac, is_arp_request_for_ipv4, arp_reply,
}
use anylan.Client.Loops.{Turn, goes_on, ends, panics}

-- What the two goroutines of a session work on.
pub record Link (W D : Type 0) : Type 0 where
  pub stream : W
  pub device : D
  pub status : Status
  pub captures : Option Recorder

-- `peerMACForIPv4`, on the addresses of the client and of its peers.
unfoldable pub mac_for :
    (Bytes → Option Bytes) → (Bytes → Option Bytes) → Bytes → Bytes → List PeerInfo → Option Bytes
mac_for parse_ip parse_mac own ip [] = none
mac_for parse_ip parse_mac own ip (p ∷ ps) =
    let later = mac_for parse_ip parse_mac own ip ps in
    if bytes_eq p.ipv4 own || is_empty p.ipv4 || is_empty p.mac
    then later
    else elim (parse_ip p.ipv4) [
      | none ↦ later
      | some peer_ip ↦ if not (bytes_eq peer_ip ip) then later else parse_mac p.mac
    ]

unfoldable pub peer_mac_for_ipv4 :
    (Bytes → Option Bytes) → (Bytes → Option Bytes) → Option Bytes → Status → Option Bytes
peer_mac_for_ipv4 parse_ip parse_mac none s = none
peer_mac_for_ipv4 parse_ip parse_mac (some ip) s = mac_for parse_ip parse_mac s.ipv4 ip s.peers

-- `out[i] = ip[i] | ^network.Mask[i]`
unfoldable pub set_host_bits : Bytes → Bytes → Bytes
set_host_bits [] mask = []
set_host_bits (a ∷ ip) [] = []
set_host_bits (a ∷ ip) (m ∷ mask) = bit_or a (255 - m) ∷ set_host_bits ip mask

-- The network's IP is `none` where it has no four bytes.
unfoldable pub broadcast_ipv4 : (Bytes → Option (Option Bytes × Bytes)) → Bytes → Option Bytes
unfolding set_host_bits
broadcast_ipv4 parse_cidr cidr = elim (parse_cidr cidr) [
  | none ↦ none
  | some (none, mask) ↦ none
  | some (some ip, mask) ↦ if not (length mask == 4) then none else some (set_host_bits ip mask)
]

abbrev mac_or_broadcast : Option Bytes → Bytes
mac_or_broadcast none = broadcast_mac
mac_or_broadcast (some mac) = mac

module _ {W D : Type 0} ⦃stream_writer : Writer W⦄ ⦃device_writer : Writer D⦄
    (ip_string : Bytes → Bytes) (meta : Metadata) where
  -- `captures.Record(meta, frame)` at the end of a turn.
  unfoldable pub capture : Bytes → Bytes → ℕ → Link W D → Turn (Link W D)
  capture direction frame now l =
      elim (record_frame ip_string l.captures (record meta { direction = direction }) frame now) [
        | none ↦ panics
        | some captures ↦ goes_on (record l { captures = captures })
      ]

  -- After the write of a frame to the stream.
  unfoldable pub sent : Bytes → ℕ → Link W D → W × Option Error → Turn (Link W D)
  unfolding capture
  sent frame now l (w, some e) = ends e (record l { stream = w })
  sent frame now l (w, none) =
      capture (text "tx") frame now
        (record l { stream = w; status = record_tx (length frame) l.status })

  -- After the write to the device of what came in a frame.
  unfoldable pub delivered : Bytes → ℕ → Link W D → D × Option Error → Turn (Link W D)
  unfolding capture
  delivered frame now l (d, some e) = ends e (record l { device = d })
  delivered frame now l (d, none) =
      capture (text "rx") frame now
        (record l { device = d; status = record_rx (length frame) l.status })

  -- A turn of `readTAP`, on what the device's read gave.
  unfoldable pub read_tap : Result Error Bytes → ℕ → Link W D → Turn (Link W D)
  unfolding sent
  read_tap (err e) now l = ends e l
  read_tap (ok frame) now l =
      if length frame == 0
      then goes_on l
      else sent frame now l (write_message l.stream type_ethernet_frame frame)

  -- A turn of `writeTAP`.
  unfoldable pub write_tap : MessageType → Bytes → ℕ → Link W D → Turn (Link W D)
  unfolding delivered
  write_tap typ payload now l =
      if typ == type_ethernet_frame
      then delivered payload now l (device_writer.write l.device payload)
      else goes_on l

  -- The write of the ARP reply, whose frame is neither counted nor captured.
  unfoldable pub replied : Link W D → W × Option Error → Turn (Link W D)
  replied l (w, some e) = ends e (record l { stream = w })
  replied l (w, none) = goes_on (record l { stream = w })

  -- A turn of `readIPAsEthernet`.
  unfoldable pub read_ip_as_ethernet :
      (Bytes → Option Bytes)
      → (Bytes → Option Bytes)
      → Bytes
      → Result Error Bytes
      → ℕ
      → Link W D
      → Turn (Link W D)
  unfolding sent peer_mac_for_ipv4
  read_ip_as_ethernet parse_ip parse_mac own_mac (err e) now l = ends e l
  read_ip_as_ethernet parse_ip parse_mac own_mac (ok packet) now l =
      if length packet == 0 || not (is_ipv4_packet packet)
      then goes_on l
      else elim (ipv4_dst packet) [
        | none ↦ panics
        | some dst ↦
            let dst_mac =
              mac_or_broadcast (peer_mac_for_ipv4 parse_ip parse_mac (some dst) l.status) in
            let frame = ethernet_frame_from_ipv4 packet dst_mac own_mac in
            sent frame now l (write_message l.stream type_ethernet_frame frame)
      ]

  -- A turn of `writeEthernetAsIP`.
  unfoldable pub write_ethernet_as_ip :
      Bytes → Bytes → Option Bytes → MessageType → Bytes → ℕ → Link W D → Turn (Link W D)
  unfolding delivered replied
  write_ethernet_as_ip own_mac own_ip room_broadcast typ payload now l =
      if not (typ == type_ethernet_frame)
      then goes_on l
      else if is_arp_request_for_ipv4 payload own_ip
      then elim (arp_reply payload own_mac own_ip) [
        | none ↦ panics
        | some reply ↦ replied l (write_message l.stream type_ethernet_frame reply)
      ]
      else if not (is_ipv4_ethernet_frame payload)
      then goes_on l
      else elim (should_deliver_ipv4_to_tun (drop 14 payload) own_ip room_broadcast) [
        | none ↦ panics
        | some false ↦ goes_on l
        | some true ↦ delivered payload now l (device_writer.write l.device (drop 14 payload))
      ]
