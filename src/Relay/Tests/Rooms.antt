-- ===== src/Relay/Tests/Rooms.antt =====
-- The theorems on rooms, on a room of two peers.
use anylan.Base.{
  ℕ, ◌≡◌, refl, true, [], ◌∷◌, ◌++◌, none, some, arith, contains, zero, suc, length, ◌+◌, ◌≤◌, ok,
}
use mathlib.Core.Path.{subst}
use anylan.Base.Bytes.{Bytes, bytes_eq, AreBytes}
use anylan.Base.Dictionary.{lookup, insert, values}
use anylan.Relay.Address.{v4, uint32_to_ipv4, ipv4_to_uint32}
use anylan.Relay.Mac.{
  Fills, random_mac, random_hex, hex, clone_mac, valid_peer_mac, is_broadcast, is_multicast,
  any_nonzero,
}
use anylan.Relay.Peer.{Peer}
use anylan.Relay.Room.{
  Room, JoinOptions, add_peer, draw_identity, choose_mac, allocate_host, host_addr, finish_add,
  detach, forward, forward_from, pass_on, route, other_peers, unicast_target, is_current,
}
use anylan.Relay.Room.Members.{host_of}
use anylan.Relay.Room.Joining.{add_peer_address}
use anylan.Relay.Room.Leaving.{IsGenuine, detach_frees}
use anylan.Relay.Room.Delivery.{forward_own_source}
use anylan.Relay.Tests.{base, options, rand_of, repeated, ann, bob, home, home-IsConsistent}

abbrev to_all : Bytes
to_all = 255 ∷ 255 ∷ 255 ∷ 255 ∷ 255 ∷ 255 ∷ 6 ∷ 7 ∷ 7 ∷ 7 ∷ 7 ∷ 7 ∷ 8 ∷ 0 ∷ []

abbrev to_bob : Bytes
to_bob = 10 ∷ 9 ∷ 9 ∷ 9 ∷ 9 ∷ 9 ∷ 6 ∷ 7 ∷ 7 ∷ 7 ∷ 7 ∷ 7 ∷ 8 ∷ 0 ∷ []

flooded : forward home ann to_all ≡ some (ok (bob ∷ []), home)
unfolding forward forward_from pass_on route other_peers unicast_target is_current is_broadcast
    is_multicast lookup insert values bytes_eq
flooded = refl

sent_on : forward home ann to_bob ≡ some (ok (bob ∷ []), home)
unfolding forward forward_from pass_on route other_peers unicast_target is_current is_broadcast
    is_multicast lookup insert values bytes_eq
sent_on = refl

forward_own_source_example : (6 ∷ 7 ∷ 7 ∷ 7 ∷ 7 ∷ 7 ∷ [] ≡ ann.mac) × (is_current home ann ≡ true)
forward_own_source_example =
    forward_own_source home home ann to_all (bob ∷ []) flooded (λ e. ground (arith, e))

abbrev asking : JoinOptions
asking = record options { requested_mac = some (2 ∷ 1 ∷ 1 ∷ 1 ∷ 1 ∷ 1 ∷ []) }

abbrev cat : Peer
cat = record ann {
  address = 9;
  id = repeated 48 0 ++ hex (repeated 11 8);
  ip = v4 10 0 0 4;
  mac = 2 ∷ 1 ∷ 1 ∷ 1 ∷ 1 ∷ 1 ∷ [];
  connected_at = 8;
}

abbrev joined : Room
joined = (add_peer home 9 asking (rand_of 11) 8).1

cat_joins : add_peer home 9 asking (rand_of 11) 8 ≡ (ok cat, joined)
unfolding add_peer draw_identity random_hex hex choose_mac clone_mac random_mac allocate_host
    host_addr finish_add lookup insert bytes_eq ipv4_to_uint32 uint32_to_ipv4 valid_peer_mac
    any_nonzero is_broadcast is_multicast
cat_joins = refl

add_peer_address_example :
    (cat.ip ≡ uint32_to_ipv4 (base + host_of cat))
    × (2 ≤ host_of cat)
    × (host_of cat ≤ 254)
    × (lookup cat.id joined.peers ≡ some cat)
    × (lookup cat.mac joined.mac_to_peer ≡ some cat)
add_peer_address_example =
    add_peer_address base home joined 9 asking (rand_of 11) 8 cat home-IsConsistent cat_joins

abbrev dan : Peer
dan = record cat { mac = 10 ∷ 11 ∷ 11 ∷ 11 ∷ 11 ∷ 11 ∷ [] }

dan_joins :
    add_peer home 9 options (rand_of 11) 8 ≡ (ok dan, (add_peer home 9 options (rand_of 11) 8).1)
unfolding add_peer draw_identity random_hex hex choose_mac clone_mac random_mac allocate_host
    host_addr finish_add lookup insert bytes_eq ipv4_to_uint32 uint32_to_ipv4 valid_peer_mac
    any_nonzero is_broadcast is_multicast
dan_joins = refl

repeated-AreBytes : (n : ℕ) → (length (repeated 11 n) ≡ n) × AreBytes (repeated 11 n)
repeated-AreBytes zero = (refl, tt)
repeated-AreBytes (suc n) = ground (arith, repeated-AreBytes n)

rand-Fills : Fills (rand_of 11)
rand-Fills n buf e =
    let same : repeated 11 n ≡ buf = cc e in
    subst (λ b. (length b ≡ n) × AreBytes b) same (repeated-AreBytes n)

ann-IsGenuine : IsGenuine home ann
unfolding lookup bytes_eq
ann-IsGenuine q e same = cc e

detach_frees_example :
    (lookup ann.id (detach home ann).1.peers ≡ none)
    × (contains 2 (detach home ann).1.free_hosts ≡ true)
    × (lookup bob.mac (detach home ann).1.mac_to_peer ≡ some bob)
unfolding lookup bytes_eq is_current
detach_frees_example =
    detach_frees base home ann ann.id bob.mac home-IsConsistent ann-IsGenuine refl
