-- ===== src/Relay/Room/Leaving.antt =====
-- RemovePeer's critical section: the peer's addresses are free again, and the others keep theirs.
use anylan.Base.{
  ℕ, ◌≡◌, ◌≢◌, ◌∙◌, ap, refl, true, false, inl, inr, [], none, some, arith, contains, if◌then◌else◌,
  Bool-cases, Option-cases,
}
use anylan.Base.Bytes.{Bytes, bytes_eq, bytes_eq_refl}
use anylan.Base.Dictionary.{
  Dictionary, lookup, delete, delete_where, lookup-delete, lookup-delete_where, delete-IsUnique,
  delete_where-IsUnique, unless,
}
use anylan.Relay.Address.{Addr, Prefix, no_addr, v4, v6, ipv4_to_uint32}
use anylan.Relay.Peer.{Peer, same_peer}
use anylan.Relay.Room.{Room, release_host, release_host_byte, last_byte, is_current, detach}
use anylan.Relay.Room.Hosts.{release-HostsFit, contains-release, contains-release_self}
use anylan.Relay.Room.Members.{IsConsistent, IsMember, host_of}

-- A handle that `is_current` accepts is the registered value, as a pointer is to what it points at.
abbrev pub IsGenuine : Room → Peer → Type 0
IsGenuine r p = (q : Peer) → lookup p.id r.peers ≡ some q → q.address ≡ p.address → q ≡ p

pub current_lookup :
    (r : Room) (p : Peer) → IsGenuine r p → is_current r p ≡ true → lookup p.id r.peers ≡ some p
unfolding is_current
current_lookup r p g e = elim (Option-cases (lookup p.id r.peers)) [
  | inl n ↦ cc (n, e)
  | inr (q, s) ↦ s ∙ ap some (g q s (ground arith))
]

-- Any other address than an IPv4 one has no host number to release.
release_host-byte : (a : Addr) (r : Room) → release_host a r ≡ release_host_byte (last_byte a) r
unfolding release_host
release_host-byte (v4 a b c d) r = refl
release_host-byte no_addr r = refl
release_host-byte (v6 bytes zone) r = refl

release-peers :
    (d : ℕ) (r : Room) (m : Dictionary Peer)
    → release_host_byte d (record r { peers = m }) ≡ record (release_host_byte d r) { peers = m }
unfolding release_host_byte
release-peers d r m = ground arith

release-macs : (d : ℕ) (r : Room) → (release_host_byte d r).mac_to_peer ≡ r.mac_to_peer
unfolding release_host_byte
release-macs d r = ground arith

detach-absent : (r : Room) (p : Peer) → is_current r p ≡ false → detach r p ≡ (false, r)
unfolding detach
detach-absent r p e = rw e

-- The room after the three parts of `detach`.
module _ (base : ℕ) (r : Room) (p : Peer) (c : IsConsistent base r)
    (here : lookup p.id r.peers ≡ some p) where
  abbrev freed : Room
  freed = release_host_byte (host_of p) r

  left-IsMember :
      (id : Bytes) (q : Peer)
      → bytes_eq p.id id ≡ false
      → lookup id r.peers ≡ some q
      → IsMember base freed id q
  unfolding release_host_byte
  left-IsMember id q ne e =
      let m = c.member id q e in
      let apart : host_of q ≢ host_of p =
        λ same. cc (ne, c.differ id p.id q p e here same, bytes_eq_refl id) in
      record {
        own_id = m.own_id;
        own_room = ground (arith, m.own_room);
        own_ip = m.own_ip;
        low = m.low;
        below = ground (arith, m.below);
        taken = elim (Bool-cases (contains (host_of q) freed.free_hosts)) [
          | inl t ↦ elim (contains-release (host_of q) (host_of p) r t) [
            | inl same ↦ absurd (apart same)
            | inr old ↦ cc (old, m.taken)
          ]
          | inr t ↦ t
        ];
      }

  abbrev detached : Room
  detached = record freed {
    peers = delete p.id r.peers;
    mac_to_peer = delete_where (λ q. same_peer q p) r.mac_to_peer;
  }

  freed_fields :
      (freed.next_host ≡ r.next_host) × (freed.prefix ≡ r.prefix) × (freed.address ≡ r.address)
  unfolding release_host_byte
  freed_fields = ground arith

  delete_cases :
      (id : Bytes) (q : Peer)
      → lookup id (delete p.id r.peers) ≡ some q
      → (bytes_eq p.id id ≡ false) × (lookup id r.peers ≡ some q)
  delete_cases id q e = ground (arith, lookup-delete p.id id r.peers)

  pub detached-IsConsistent : IsConsistent base detached
  detached-IsConsistent = record {
    aligned = c.aligned;
    in_range = c.in_range;
    subnet = ap (λ (x : Prefix). ipv4_to_uint32 x.addr) freed_fields.1 ∙ c.subnet;
    hosts = release-HostsFit (host_of p) r (c.member p.id p here).below c.hosts;
    member = λ id q e.
        let (ne, old) = delete_cases id q e in
        let m = left-IsMember id q ne old in
        record {
          own_id = m.own_id;
          own_room = m.own_room;
          own_ip = m.own_ip;
          low = m.low;
          below = m.below;
          taken = m.taken;
        };
    differ = λ i j q q' e e' same.
        c.differ i j q q' (delete_cases i q e).1 (delete_cases j q' e').1 same;
    peers_unique = delete-IsUnique p.id r.peers c.peers_unique;
    macs_unique = delete_where-IsUnique (λ q. same_peer q p) r.mac_to_peer c.macs_unique;
    mac_owner = λ mac q e. ground (
      arith,
      c.mac_owner mac q,
      lookup-delete_where (λ (q : Peer). same_peer q p) mac r.mac_to_peer c.macs_unique,
    );
  }

  pub detach-detached : is_current r p ≡ true → detach r p ≡ (true, detached)
  unfolding detach
  detach-detached e =
      rw (e, release_host-byte p.ip (record r { peers = delete p.id r.peers }))
        (rw (release-peers (host_of p) r (delete p.id r.peers), release-macs (host_of p) r))

-- A peer that leaves keeps the room consistent.
pub detach-IsConsistent :
    (base : ℕ) (r : Room) (p : Peer)
    → IsConsistent base r
    → IsGenuine r p
    → IsConsistent base (detach r p).1
detach-IsConsistent base r p c g = elim (Bool-cases (is_current r p)) [
  | inl e ↦
      let here = current_lookup r p g e in
      rw (detach-detached base r p c here e) (detached-IsConsistent base r p c here)
  | inr e ↦ rw (detach-absent r p e) c
]

-- When a peer leaves, its identifier is gone and every other one stays, its host number is free,
-- and exactly the hardware addresses that led to it lead nowhere.
pub detach_frees :
    (base : ℕ) (r : Room) (p : Peer) (id mac : Bytes)
    → IsConsistent base r
    → IsGenuine r p
    → is_current r p ≡ true
    → let r' = (detach r p).1 in
      (lookup id r'.peers ≡ (if bytes_eq p.id id then none else lookup id r.peers))
      × (contains (host_of p) r'.free_hosts ≡ true)
      × (lookup mac r'.mac_to_peer ≡ unless (λ q. same_peer q p) (lookup mac r.mac_to_peer))
detach_frees base r p id mac c g e =
    let here = current_lookup r p g e in
    let m = c.member p.id p here in
    rw (detach-detached base r p c here e) (
      lookup-delete p.id id r.peers,
      contains-release_self (host_of p) r m.low (omega (arith, m.below, c.hosts.next_high)),
      lookup-delete_where (λ (x : Peer). same_peer x p) mac r.mac_to_peer c.macs_unique,
    )

-- Whoever is found after a peer left was found before.
pub detach_old :
    (base : ℕ) (r : Room) (p q : Peer) (id mac : Bytes)
    → IsConsistent base r
    → IsGenuine r p
    → let r' = (detach r p).1 in
      (lookup id r'.peers ≡ some q → lookup id r.peers ≡ some q)
      × (lookup mac r'.mac_to_peer ≡ some q → lookup mac r.mac_to_peer ≡ some q)
detach_old base r p q id mac c g = elim (Bool-cases (is_current r p)) [
  | inr e ↦ rw (detach-absent r p e) ((λ h. h), (λ h. h))
  | inl e ↦
      let (peers, _, macs) = detach_frees base r p id mac c g e in
      rw (peers, macs) ((λ h. ground arith), (λ h. ground arith))
]

-- `detach` assigns neither the room's name nor its number, and a room without peers stays as it is.
pub detach_same :
    (base : ℕ) (r : Room) (p : Peer)
    → IsConsistent base r
    → IsGenuine r p
    → let r' = (detach r p).1 in
      (r'.address ≡ r.address)
      × (r'.managed ≡ r.managed)
      × (r'.index ≡ r.index)
      × (r'.name ≡ r.name)
      × (r'.closed ≡ r.closed)
unfolding release_host_byte
detach_same base r p c g = elim (Bool-cases (is_current r p)) [
  | inr e ↦ rw (detach-absent r p e) (refl, refl, refl, refl, refl)
  | inl e ↦ rw (detach-detached base r p c (current_lookup r p g e) e) (ground arith)
]

pub detach_empty : (r : Room) (p : Peer) → r.peers ≡ [] → (detach r p).1.peers ≡ []
unfolding is_current lookup
detach_empty r p e = rw (detach-absent r p (ground arith)) e
