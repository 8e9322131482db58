-- ===== src/Capture/Frames.antt =====
-- internal/capture/recorder.go:127-327: what the record of a frame says of it. Each function takes
-- the event so far and returns the event that the Go code leaves behind its pointer; `none` is a
-- panic.
pub mod Total
use anylan.Base.{
  ℕ, ◌*◌, ◌/◌, ◌%◌, true, false, not, ◌||◌, List, [], ◌∷◌, ◌++◌, Option, some, length, ltb, ◌==◌,
  if◌then◌else◌,
}
use anylan.Base.Bytes.{Bytes, text, bytes_eq}
use anylan.Base.Slices.{◌>>=◌, byte, slice, slice_from, uint16_at}
use anylan.Base.Formatting.{decimal, hex16, mac_string}
use anylan.Capture.{Event, empty_event}

unfoldable pub ip_protocol_name : ℕ → Bytes
ip_protocol_name proto =
    if proto == 1
    then text "ICMP"
    else if proto == 6
    then text "TCP"
    else if proto == 17
    then text "UDP"
    else if proto == 58
    then text "ICMPv6"
    else decimal proto

-- The names that the switch of etherTypeName lists.
abbrev ether_types : List (ℕ × Bytes)
ether_types =
    (0x0800, text "IPv4")
    ∷ (0x0806, text "ARP")
    ∷ (0x0842, text "Wake-on-LAN")
    ∷ (0x22f0, text "AVTP")
    ∷ (0x6003, text "DECnet")
    ∷ (0x8035, text "RARP")
    ∷ (0x809b, text "AppleTalk")
    ∷ (0x80f3, text "AARP")
    ∷ (0x8100, text "VLAN")
    ∷ (0x86dd, text "IPv6")
    ∷ (0x8808, text "Ethernet Flow Control")
    ∷ (0x8819, text "CobraNet")
    ∷ (0x8847, text "MPLS unicast")
    ∷ (0x8848, text "MPLS multicast")
    ∷ (0x8863, text "PPPoE discovery")
    ∷ (0x8864, text "PPPoE session")
    ∷ (0x8870, text "Jumbo Frames")
    ∷ (0x888e, text "EAPOL")
    ∷ (0x88a8, text "Provider Bridge VLAN")
    ∷ (0x88cc, text "LLDP")
    ∷ (0x88e5, text "MACsec")
    ∷ (0x88f7, text "PTP")
    ∷ []

unfoldable name_in : List (ℕ × Bytes) → ℕ → Bytes
name_in [] ether_type = text "Unknown"
name_in ((n, name) ∷ rest) ether_type = if n == ether_type then name else name_in rest ether_type

unfoldable pub ether_type_name : ℕ → Bytes
unfolding name_in
ether_type_name ether_type = name_in ether_types ether_type

-- ` src -> dst`
abbrev pair_of : Event → Bytes
pair_of e = text " " ++ e.src_ip ++ text " -> " ++ e.dst_ip

abbrev said : Event → Bytes → Event
said e summary = record e { summary = summary }

unfoldable pub parse_ports : Event → Bytes → Bytes → Option Event
parse_ports e payload prefix =
    if ltb (length payload) 4 then some (said e (prefix ++ text " truncated" ++ pair_of e)) else do
      src ← uint16_at payload 0
      dst ← uint16_at payload 2
      some (record e {
        src_port = src;
        dst_port = dst;
        summary =
            prefix
            ++ text " "
            ++ e.src_ip
            ++ text ":"
            ++ decimal src
            ++ text " -> "
            ++ e.dst_ip
            ++ text ":"
            ++ decimal dst;
      })

unfoldable pub parse_icmpv4 : Event → Bytes → Option Event
parse_icmpv4 e payload =
    if ltb (length payload) 2 then some (said e (text "IPv4 ICMP truncated" ++ pair_of e)) else do
      kind ← byte payload 0
      code ← byte payload 1
      some (
          said e (
            if kind == 0
            then text "IPv4 ICMP echo reply (ping)" ++ pair_of e
            else if kind == 8
            then text "IPv4 ICMP echo request (ping)" ++ pair_of e
            else text "IPv4 ICMP type "
              ++ decimal kind
              ++ text " code "
              ++ decimal code
              ++ pair_of e))

unfoldable pub parse_icmpv6 : Event → Bytes → Option Event
parse_icmpv6 e payload =
    if ltb (length payload) 2 then some (said e (text "IPv6 ICMPv6 truncated" ++ pair_of e)) else do
      kind ← byte payload 0
      code ← byte payload 1
      some (
          said e (
            if kind == 128
            then text "IPv6 ICMPv6 echo request (ping)" ++ pair_of e
            else if kind == 129
            then text "IPv6 ICMPv6 echo reply (ping)" ++ pair_of e
            else if kind == 135
            then text "IPv6 ICMPv6 neighbor solicitation" ++ pair_of e
            else if kind == 136
            then text "IPv6 ICMPv6 neighbor advertisement" ++ pair_of e
            else text "IPv6 ICMPv6 type "
              ++ decimal kind
              ++ text " code "
              ++ decimal code
              ++ pair_of e))

-- The event with the addresses of a frame.
unfoldable pub addressed : ℕ → Bytes → Bytes → Event
addressed size dst src = record (empty_event size) {
  valid = true;
  dst_mac = mac_string dst;
  src_mac = mac_string src;
}

-- The event with the type of the frame.
unfoldable pub typed : Event → ℕ → Event
typed e ether_type = record e {
  ether_type = hex16 ether_type;
  type_name = ether_type_name ether_type;
  summary =
      if bytes_eq (ether_type_name ether_type) (text "Unknown")
      then text "Unknown EtherType " ++ hex16 ether_type
      else ether_type_name ether_type;
}

module _ (ip_string : Bytes → Bytes) where
  unfoldable pub parse_arp : Event → Bytes → Option Event
  parse_arp e payload = if ltb (length payload) 28 then some (said e (text "ARP truncated")) else do
    hardware_type ← uint16_at payload 0
    protocol_type ← uint16_at payload 2
    hardware_size ← byte payload 4
    protocol_size ← byte payload 5
    opcode ← uint16_at payload 6
    if not (hardware_type == 1)
          || not (protocol_type == 0x0800)
          || not (hardware_size == 6)
          || not (protocol_size == 4)
        then some (said e (text "ARP opcode " ++ decimal opcode))
        else do
          sender_mac ← slice payload 8 14
          sender_ip ← slice payload 14 18
          target_ip ← slice payload 24 28
          let sender = ip_string sender_ip
          let target = ip_string target_ip
          some (record e {
            src_ip = sender;
            dst_ip = target;
            summary =
                if opcode == 1
                then text "ARP request who-has " ++ target ++ text " tell " ++ sender
                else if opcode == 2
                then text "ARP reply " ++ sender ++ text " is-at " ++ mac_string sender_mac
                else text "ARP opcode " ++ decimal opcode;
          })

  unfoldable pub parse_ipv4 : Event → Bytes → Option Event
  unfolding parse_icmpv4 parse_ports
  parse_ipv4 e payload =
      if ltb (length payload) 20 then some (said e (text "IPv4 truncated")) else do
        first ← byte payload 0
        let version = first / 16
        let ihl = first % 16 * 4
        if not (version == 4) || ltb ihl 20 || ltb (length payload) ihl
            then some (said e (text "IPv4 invalid header"))
            else do
              proto ← byte payload 9
              src ← slice payload 12 16
              dst ← slice payload 16 20
              let e' = record e {
                src_ip = ip_string src;
                dst_ip = ip_string dst;
                ip_proto = ip_protocol_name proto;
              }
              transport ← slice_from payload ihl
              if proto == 1
                  then parse_icmpv4 e' transport
                  else if proto == 6
                  then parse_ports e' transport (text "IPv4 TCP")
                  else if proto == 17
                  then parse_ports e' transport (text "IPv4 UDP")
                  else some (said e' (text "IPv4 protocol " ++ decimal proto ++ pair_of e'))

  unfoldable pub parse_ipv6 : Event → Bytes → Option Event
  unfolding parse_icmpv6 parse_ports
  parse_ipv6 e payload =
      if ltb (length payload) 40 then some (said e (text "IPv6 truncated")) else do
        first ← byte payload 0
        if not (first / 16 == 6) then some (said e (text "IPv6 invalid header")) else do
          next_header ← byte payload 6
          src ← slice payload 8 24
          dst ← slice payload 24 40
          let e' = record e {
            src_ip = ip_string src;
            dst_ip = ip_string dst;
            ip_proto = ip_protocol_name next_header;
          }
          transport ← slice_from payload 40
          if next_header == 58
              then parse_icmpv6 e' transport
              else if next_header == 6
              then parse_ports e' transport (text "IPv6 TCP")
              else if next_header == 17
              then parse_ports e' transport (text "IPv6 UDP")
              else some (said e' (text "IPv6 next-header " ++ decimal next_header ++ pair_of e'))

  unfoldable pub parse_payload : Event → ℕ → Bytes → Option Event
  unfolding parse_ipv4 parse_arp parse_ipv6
  parse_payload e ether_type payload =
      if ether_type == 0x0800
      then parse_ipv4 e payload
      else if ether_type == 0x0806
      then parse_arp e payload
      else if ether_type == 0x86dd
      then parse_ipv6 e payload
      else some e

  -- From the type of the frame on, with the payload from `at` on.
  unfoldable pub parse_typed : Event → ℕ → Bytes → ℕ → Option Event
  unfolding parse_payload
  parse_typed e ether_type frame at = do
    payload ← slice_from frame at
    parse_payload (typed e ether_type) ether_type payload

  unfoldable pub parse_frame : Bytes → Option Event
  unfolding parse_typed
  parse_frame frame =
      if ltb (length frame) 14
      then some (record (empty_event (length frame)) { reason = text "frame too short" })
      else do
        dst ← slice frame 0 6
        src ← slice frame 6 12
        ether_type ← uint16_at frame 12
        let e = addressed (length frame) dst src
        let tagged = record e { vlan = true }
        let short = ltb (length frame) 18
        let short_event = record tagged { valid = false; reason = text "vlan frame too short" }
        if not (ether_type == 0x8100 || ether_type == 0x88a8)
            then parse_typed e ether_type frame 14
            else if short
            then some short_event
            else do inner ← uint16_at frame 16; parse_typed tagged inner frame 18
