-- ===== src/Relay/Room.antt =====
-- The Room of internal/relay/room.go. A method takes the room as its lock protects it and returns
-- the room that it leaves. The room of a pointer, and the manager, are in Relay.Manager.
pub mod Hosts
pub mod Members
pub mod Joining
pub mod Leaving
pub mod Forwarding
pub mod Delivery
pub mod Recipients
use anylan.Base.{
  ℕ, ◌+◌, ◌%◌, ◌^◌, Bool, true, false, not, ◌&&◌, ◌||◌, List, [], ◌∷◌, ◌++◌, Option, none, some,
  length, take, drop, contains, keep, ltb, ◌==◌, if◌then◌else◌, Result, ok, err, ◌>>=◌,
}
use anylan.Base.Bytes.{Bytes, bytes_eq}
use anylan.Base.Dictionary.{Dictionary, lookup, insert, delete, delete_where, values}
use anylan.Base.Slices.{slice}
use anylan.Base.Sorting.{sort_by}
use anylan.Relay.Error.{
  Error, room_full, room_closed, mac_in_use, mac_invalid, invalid_frame, source_mac_invalid,
}
use anylan.Relay.Address.{Addr, no_addr, v4, v6, Prefix, ipv4_to_uint32, uint32_to_ipv4}
use anylan.Relay.Mac.{
  is_broadcast, is_multicast, valid_peer_mac, clone_mac, random_mac, random_hex, Entropy,
}
use anylan.Relay.Peer.{Peer, same_peer}

abbrev pub first_usable_host : ℕ
first_usable_host = 2

abbrev pub last_usable_host : ℕ
last_usable_host = 254

-- `address` stands for the pointer to the room, and `managed` says that `manager` is not nil.
-- `next_host` and the free hosts are uint8.
pub record Room : Type 0 where
  pub address : ℕ
  pub managed : Bool
  pub index : ℕ
  pub name : Bytes
  pub prefix : Prefix
  pub created_at : ℕ
  pub peers : Dictionary Peer
  pub mac_to_peer : Dictionary Peer
  pub next_host : ℕ
  pub free_hosts : List ℕ
  pub closed : Bool

pub record JoinOptions : Type 0 where
  pub display_name : Bytes
  pub requested_mac : Option Bytes
  pub features : List Bytes

unfoldable pub peer_count : Room → ℕ
peer_count r = length r.peers

unfoldable pub allocate_host : Room → Result Error ℕ × Room
allocate_host r = elim r.free_hosts [
  | host ∷ rest ↦ (ok host, record r { free_hosts = rest })
  | [] ↦
      if ltb last_usable_host r.next_host
      then (err room_full, r)
      else (ok r.next_host, record r { next_host = (r.next_host + 1) % 2 ^ 8 })
]

-- The choice of the new peer's address: the requested one, checked, or a random one.
unfoldable pub choose_mac : Room → Option Bytes → Entropy → Result Error Bytes
choose_mac r requested rand = elim (clone_mac requested) [
  | none ↦ random_mac rand
  | some mac ↦
      if not (valid_peer_mac mac)
      then err mac_invalid
      else elim (lookup mac r.mac_to_peer) [ none ↦ ok mac | some owner ↦ err mac_in_use ]
]

-- `uint32ToIPv4(ipBase + uint32(host))`
unfoldable pub host_addr : Room → ℕ → Result Error Addr
host_addr r host =
    ipv4_to_uint32 r.prefix.addr >>= λ base. ok (uint32_to_ipv4 ((base + host) % 2 ^ 32))

abbrev pub register : Room → Peer → Room
register r p = record r {
  peers = insert p.id p r.peers;
  mac_to_peer = insert p.mac p r.mac_to_peer;
}

abbrev pub build_peer : Room → ℕ → JoinOptions → ℕ → Bytes → Bytes → Addr → Peer
build_peer r address opt now id mac ip = record {
  address = address;
  id = id;
  display_name = opt.display_name;
  features = opt.features;
  room = r.address;
  ip = ip;
  mac = mac;
  connected_at = now;
}

-- The rest of the call, on the allocated host number.
unfoldable pub finish_add :
    ℕ → JoinOptions → ℕ → Bytes → Bytes → Result Error ℕ × Room → Result Error Peer × Room
finish_add address opt now id mac (err e, r) = (err e, r)
finish_add address opt now id mac (ok host, r) = elim (host_addr r host) [
  | err e ↦ (err e, r)
  | ok ip ↦ let p = build_peer r address opt now id mac ip in (ok p, register r p)
]

-- The new peer's identifier, drawn first, and its address.
unfoldable pub draw_identity : Room → JoinOptions → Entropy → Result Error (Bytes × Bytes)
unfolding choose_mac
draw_identity r opt rand = do
  id ← random_hex 8 rand
  mac ← choose_mac r opt.requested_mac rand
  ok (id, mac)

-- `address` is that of the Peer that the call allocates, `now` is `time.Now()`.
unfoldable pub add_peer : Room → ℕ → JoinOptions → Entropy → ℕ → Result Error Peer × Room
unfolding finish_add
add_peer r address opt rand now =
    if r.closed then (err room_closed, r) else elim (draw_identity r opt rand) [
      | err e ↦ (err e, r)
      | ok (id, mac) ↦ finish_add address opt now id mac (allocate_host r)
    ]

-- `ip.As4()[3]`, for an IPv4 address.
abbrev pub last_byte : Addr → ℕ
last_byte (v4 a b c d) = d
last_byte no_addr = 0
last_byte (v6 bytes zone) = 0

unfoldable pub release_host_byte : ℕ → Room → Room
release_host_byte host r =
    if (ltb host first_usable_host || ltb last_usable_host host) || contains host r.free_hosts
    then r
    else record r { free_hosts = sort_by ltb (r.free_hosts ++ host ∷ []) }

unfoldable pub release_host : Addr → Room → Room
unfolding release_host_byte
release_host (v4 a b c d) r = release_host_byte d r
release_host no_addr r = r
release_host (v6 bytes zone) r = r

-- `r.peers[p.ID] == p`, on pointers.
unfoldable pub is_current : Room → Peer → Bool
is_current r p = elim (lookup p.id r.peers) [ none ↦ false | some q ↦ same_peer q p ]

abbrev drop_owner : Peer → Room → Room
drop_owner p r = record r { mac_to_peer = delete_where (λ q. same_peer q p) r.mac_to_peer }

-- The critical section of `RemovePeer`: was the peer there, and the room after it.
unfoldable pub detach : Room → Peer → Bool × Room
unfolding is_current release_host
detach r p =
    if is_current r p
    then (true, drop_owner p (release_host p.ip (record r { peers = delete p.id r.peers })))
    else (false, r)

-- The peers but `from`. `none` is a panic: `make` with capacity `len(r.peers)-1` below 0.
unfoldable pub other_peers : Room → Peer → Option (List Peer)
other_peers r from =
    if length r.peers == 0 then none else some (keep (λ p. not (same_peer p from)) (values r.peers))

-- The owner of the destination, if it is another peer and still in the room.
unfoldable pub unicast_target : Room → Peer → Bytes → Option Peer
unicast_target r from dst = elim (lookup dst r.mac_to_peer) [
  | none ↦ none
  | some target ↦ if not (same_peer target from) && is_current r target then some target else none
]

abbrev pub frame_dst : Bytes → Bytes
frame_dst = take 6

abbrev pub frame_src : Bytes → Bytes
frame_src frame = take 6 (drop 6 frame)

unfoldable pub route : Room → Peer → Bytes → Option (List Peer)
route r from dst =
    if is_broadcast dst || is_multicast dst
    then other_peers r from
    else elim (unicast_target r from dst) [
      | some target ↦ some (target ∷ [])
      | none ↦ other_peers r from
    ]

-- `r.macToPeer[string(from.MAC)] = from`
abbrev pub learn : Room → Peer → Room
learn r from = record r { mac_to_peer = insert from.mac from r.mac_to_peer }

unfoldable pub pass_on : Room → Peer → Bytes → Option (Result Error (List Peer) × Room)
pass_on r from dst = elim (route r from dst) [ none ↦ none | some targets ↦ some (ok targets, r) ]

-- After the addresses were cut out of the frame.
unfoldable pub forward_from : Room → Peer → Bytes → Bytes → Option (Result Error (List Peer) × Room)
unfolding pass_on
forward_from r from dst src =
    if not (bytes_eq src from.mac)
    then some (err source_mac_invalid, r)
    else if not (is_current r from)
    then some (ok [], r)
    else pass_on (learn r from) from dst

-- `none` is a panic.
unfoldable pub forward : Room → Peer → Bytes → Option (Result Error (List Peer) × Room)
unfolding forward_from
forward r from frame =
    if ltb (length frame) 14 then some (err invalid_frame, r) else elim (slice frame 0 6) [
      | none ↦ none
      | some dst ↦ elim (slice frame 6 12) [ none ↦ none | some src ↦ forward_from r from dst src ]
    ]
