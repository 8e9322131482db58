-- ===== src/Relay/Room/Members.antt =====
-- The room's invariant: every peer of the room has an address of its own inside the room's subnet.
use anylan.Base.{
  ℕ, ◌+◌, ◌%◌, ◌^◌, ◌≤◌, ◌<◌, ◌≡◌, ◌≢◌, ◌∙◌, ap, sym, refl, true, false, ◌⊎◌, inl, inr, some, arith,
  contains, ok,
}
use anylan.Base.Bytes.{Bytes, bytes_eq_iff}
use mathlib.Core.Path.{subst₂}
use anylan.Base.Dictionary.{Dictionary, lookup, insert, lookup-insert, IsUnique, insert-IsUnique}
use anylan.Relay.Address.{Prefix, ipv4_to_uint32, uint32_to_ipv4}
use anylan.Relay.Peer.{Peer}
use anylan.Relay.Room.{Room, last_byte, register}
use anylan.Relay.Room.Hosts.{HostsFit, Allocated}

abbrev pub host_of : Peer → ℕ
host_of p = last_byte p.ip

-- What holds of the peer `p` under the key `id` of a room whose subnet starts at `base`.
pub record IsMember (base : ℕ) (r : Room) (id : Bytes) (p : Peer) : Type 0 where
  pub own_id : p.id ≡ id
  pub own_room : p.room ≡ r.address
  pub own_ip : p.ip ≡ uint32_to_ipv4 (base + host_of p)
  pub low : 2 ≤ host_of p
  pub below : host_of p < r.next_host
  pub taken : contains (host_of p) r.free_hosts ≡ false

pub record IsConsistent (base : ℕ) (r : Room) : Type 0 where
  pub aligned : base % 256 ≡ 0
  pub in_range : base + 256 ≤ 2 ^ 32
  pub subnet : ipv4_to_uint32 r.prefix.addr ≡ ok base
  pub hosts : HostsFit r.next_host r.free_hosts
  pub member : (id : Bytes) (p : Peer) → lookup id r.peers ≡ some p → IsMember base r id p
  pub differ :
      (i j : Bytes) (p q : Peer)
      → lookup i r.peers ≡ some p
      → lookup j r.peers ≡ some q
      → host_of p ≡ host_of q
      → i ≡ j
  pub peers_unique : IsUnique r.peers
  pub macs_unique : IsUnique r.mac_to_peer
  pub mac_owner : (mac : Bytes) (p : Peer) → lookup mac r.mac_to_peer ≡ some p → p.mac ≡ mac

-- The byte that an address takes from its host number.
host_of-uint32_to_ipv4 :
    (base h : ℕ) → base % 256 ≡ 0 → h < 256 → last_byte (uint32_to_ipv4 (base + h)) ≡ h
unfolding uint32_to_ipv4
host_of-uint32_to_ipv4 base h a l = omega arith

-- A look-up after an insertion finds the new value or an old one.
pub insert_cases :
    (k j : Bytes) (p q : Peer) (m n : Dictionary Peer)
    → m ≡ n
    → lookup j (insert k p m) ≡ some q
    → ((k ≡ j) × (p ≡ q)) ⊎ (lookup j n ≡ some q)
insert_cases k j p q m n same e = ground (arith, lookup-insert k j p m, bytes_eq_iff k j)

module _ (base : ℕ) (r s : Room) (h : ℕ) (p : Peer) (c : IsConsistent base r)
    (a : Allocated r s h) where
  pub old_host : (id : Bytes) (q : Peer) → lookup id r.peers ≡ some q → host_of q ≢ h
  old_host id q e same =
      let m = c.member id q e in
      elim a.was_free [ inl free ↦ cc (m.taken, free, same) | inr next ↦ omega (arith, m.below) ]

  old-IsMember :
      (id : Bytes) (q : Peer) → lookup id r.peers ≡ some q → IsMember base (register s p) id q
  old-IsMember id q e =
      let m = c.member id q e in
      record {
        own_id = m.own_id;
        own_room = m.own_room ∙ sym (ap (λ (x : Room). x.address) a.rest);
        own_ip = m.own_ip;
        low = m.low;
        below = omega (arith, m.below, a.grows);
        taken = a.same_free (host_of q) (old_host id q e) ∙ m.taken;
      }

  module _ (room : p.room ≡ r.address) (ip : p.ip ≡ uint32_to_ipv4 (base + h)) where
    pub new_host : host_of p ≡ h
    new_host = ap last_byte ip ∙ host_of-uint32_to_ipv4 base h c.aligned (omega (arith, a.high))

    new-IsMember : IsMember base (register s p) p.id p
    new-IsMember = record {
      own_id = refl;
      own_room = room ∙ sym (ap (λ (x : Room). x.address) a.rest);
      own_ip = rw new_host ip;
      low = omega (arith, new_host, a.low);
      below = omega (arith, new_host, a.below);
      taken = rw new_host a.taken;
    }

    pub register-IsConsistent : IsConsistent base (register s p)
    register-IsConsistent =
        let peers : s.peers ≡ r.peers = ap (λ (x : Room). x.peers) a.rest in
        let macs : s.mac_to_peer ≡ r.mac_to_peer = ap (λ (x : Room). x.mac_to_peer) a.rest in
        let prefix : s.prefix ≡ r.prefix = ap (λ (x : Room). x.prefix) a.rest in
        record {
          aligned = c.aligned;
          in_range = c.in_range;
          subnet = ap (λ (x : Prefix). ipv4_to_uint32 x.addr) prefix ∙ c.subnet;
          hosts = a.fits;
          member = λ id q e. elim (insert_cases p.id id p q s.peers r.peers peers e) [
            | inl (k, v) ↦ subst₂ (λ j x. IsMember base (register s p) j x) k v new-IsMember
            | inr old ↦ old-IsMember id q old
          ];
          differ = λ i j q q' e e' same. elim (insert_cases p.id i p q s.peers r.peers peers e) [
            | inl (k, v) ↦ elim (insert_cases p.id j p q' s.peers r.peers peers e') [
              | inl (k', v') ↦ sym k ∙ k'
              | inr old' ↦ absurd (old_host j q' old' (sym same ∙ ap host_of (sym v) ∙ new_host))
            ]
            | inr old ↦ elim (insert_cases p.id j p q' s.peers r.peers peers e') [
              | inl (k', v') ↦ absurd (old_host i q old (same ∙ ap host_of (sym v') ∙ new_host))
              | inr old' ↦ c.differ i j q q' old old' same
            ]
          ];
          peers_unique = rw peers (insert-IsUnique p.id p r.peers c.peers_unique);
          macs_unique = rw macs (insert-IsUnique p.mac p r.mac_to_peer c.macs_unique);
          mac_owner = λ mac q e.
              elim (insert_cases p.mac mac p q s.mac_to_peer r.mac_to_peer macs e) [
                | inl (k, v) ↦ ap (λ (x : Peer). x.mac) (sym v) ∙ k
                | inr old ↦ c.mac_owner mac q old
              ];
        }

-- `deleteEmptyRoom` marks the room, and nothing else of it changes.
pub closed-IsConsistent :
    (base : ℕ) (r : Room) → IsConsistent base r → IsConsistent base (record r { closed = true })
closed-IsConsistent base r c = record {
  aligned = c.aligned;
  in_range = c.in_range;
  subnet = c.subnet;
  hosts = c.hosts;
  member = λ id q e.
      let m = c.member id q e in
      record {
        own_id = m.own_id;
        own_room = m.own_room;
        own_ip = m.own_ip;
        low = m.low;
        below = m.below;
        taken = m.taken;
      };
  differ = c.differ;
  peers_unique = c.peers_unique;
  macs_unique = c.macs_unique;
  mac_owner = c.mac_owner;
}
