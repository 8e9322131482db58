-- ===== src/Relay/Room/Joining.antt =====
-- AddPeer: what a successful call registers, and when it fails.
use anylan.Base.{
  ℕ, ◌+◌, ◌%◌, ◌^◌, ◌≤◌, ◌≡◌, ◌≢◌, ◌∙◌, ap, refl, true, false, ◌⊎◌, inl, inr, none, some, arith, ok,
  err, Bool-cases, Result-cases,
}
use anylan.Base.Bytes.{Bytes, bytes_eq_refl}
use anylan.Base.Dictionary.{lookup, lookup-insert}
use anylan.Relay.Error.{Error, room_full, room_closed}
use anylan.Relay.Address.{Prefix, ipv4_to_uint32, uint32_to_ipv4}
use mathlib.Core.Path.{subst₂}
use anylan.Relay.Mac.{clone_mac, valid_peer_mac, random_mac-valid, Fills, Entropy}
use anylan.Relay.Peer.{Peer}
use anylan.Relay.Room.{
  Room, JoinOptions, host_addr, last_byte, add_peer, choose_mac, draw_identity, register,
  build_peer,
}
use anylan.Relay.Room.Hosts.{Allocated, allocate_host-Allocated, allocate_host_cases}
use anylan.Relay.Room.Members.{IsConsistent, host_of, register-IsConsistent, old_host, new_host}

-- What a call that returns `p` and leaves `r'` has done.
pub record Joined (base : ℕ) (r r' : Room) (address : ℕ) (opt : JoinOptions) (rand : Entropy)
    (now : ℕ) (p : Peer) : Type 0 where
  pub host : ℕ
  pub mid : Room
  pub allocated : Allocated r mid host
  pub registered : r' ≡ register mid p
  pub was_open : r.closed ≡ false
  pub identity : draw_identity r opt rand ≡ ok (p.id, p.mac)
  pub built : p ≡ build_peer r address opt now p.id p.mac (uint32_to_ipv4 (base + host))

host_addr-Allocated :
    (base : ℕ) (r s : Room) (h : ℕ)
    → IsConsistent base r
    → Allocated r s h
    → host_addr s h ≡ ok (uint32_to_ipv4 (base + h))
unfolding host_addr
host_addr-Allocated base r s h c a =
    let prefix : s.prefix ≡ r.prefix = ap (λ (x : Room). x.prefix) a.rest in
    let subnet : ipv4_to_uint32 s.prefix.addr ≡ ok base =
      ap (λ (x : Prefix). ipv4_to_uint32 x.addr) prefix ∙ c.subnet in
    let fits : (base + h) % 2 ^ 32 ≡ base + h = omega (arith, c.in_range, a.high) in
    rw subnet (ap (λ (v : ℕ). ok (uint32_to_ipv4 v)) fits)

module _ (base : ℕ) (r : Room) (address : ℕ) (opt : JoinOptions) (rand : Entropy) (now : ℕ) where
  -- The three ways in which a call can end.
  pub add_peer_cases :
      IsConsistent base r
      → ((p : Peer) × (r' : Room) × (add_peer r address opt rand now ≡ (ok p, r'))
          × Joined base r r' address opt rand now p)
        ⊎ ((e : Error) × (add_peer r address opt rand now ≡ (err e, r)))
  unfolding add_peer
  add_peer_cases c = elim (Bool-cases r.closed) [
    | inl shut ↦ inr (room_closed, rw shut)
    | inr live ↦ elim (Result-cases (draw_identity r opt rand)) [
      | inr (e, failed) ↦ inr (e, ground arith)
      | inl ((id, mac), drawn) ↦ elim (allocate_host_cases r) [
        | inr full ↦ inr (room_full, ground arith)
        | inl (h, s, taken) ↦
            let a = allocate_host-Allocated r s h c.hosts taken in
            let addr = host_addr-Allocated base r s h c a in
            let room : s.address ≡ r.address = ap (λ (x : Room). x.address) a.rest in
            let p : Peer = build_peer s address opt now id mac (uint32_to_ipv4 (base + h)) in
            inl (
              p,
              register s p,
              ground arith,
              record {
                host = h;
                mid = s;
                allocated = a;
                registered = refl;
                was_open = live;
                identity = drawn;
                built = rw room refl;
              },
            )
      ]
    ]
  ]

-- Every call of `AddPeer`, whether it succeeds or not, keeps the room consistent.
pub add_peer-IsConsistent :
    (base : ℕ) (r : Room) (address : ℕ) (opt : JoinOptions) (rand : Entropy) (now : ℕ)
    → IsConsistent base r
    → IsConsistent base (add_peer r address opt rand now).1
add_peer-IsConsistent base r address opt rand now c =
    elim (add_peer_cases base r address opt rand now c) [
      | inl (p, r', e, j) ↦
          rw (e, j.registered)
            (register-IsConsistent base r j.mid j.host p c j.allocated
              (ap (λ (x : Peer). x.room) j.built) (ap (λ (x : Peer). x.ip) j.built))
      | inr (x, e) ↦ rw e c
    ]

module _ (base : ℕ) (r r' : Room) (address : ℕ) (opt : JoinOptions) (rand : Entropy) (now : ℕ)
    (p : Peer) where
  pub add_peer-Joined :
      IsConsistent base r
      → add_peer r address opt rand now ≡ (ok p, r')
      → Joined base r r' address opt rand now p
  add_peer-Joined c e = elim (add_peer_cases base r address opt rand now c) [
    | inl (q, s, e', j) ↦
        subst₂ (λ s' q'. Joined base r s' address opt rand now q') (cc (e, e')) (cc (e, e')) j
    | inr (x, e') ↦ cc (e, e')
  ]

  -- A peer that joins gets an address of the room's subnet, with a host number from 2 to 254, and
  -- is found by its identifier and by its hardware address.
  pub add_peer_address :
      IsConsistent base r
      → add_peer r address opt rand now ≡ (ok p, r')
      → (p.ip ≡ uint32_to_ipv4 (base + host_of p))
        × (2 ≤ host_of p)
        × (host_of p ≤ 254)
        × (lookup p.id r'.peers ≡ some p)
        × (lookup p.mac r'.mac_to_peer ≡ some p)
  add_peer_address c e =
      let j = add_peer-Joined c e in
      let a = j.allocated in
      let ip : p.ip ≡ uint32_to_ipv4 (base + j.host) = ap (λ (x : Peer). x.ip) j.built in
      let host = new_host base r j.mid j.host p c a (ap (λ (x : Peer). x.room) j.built) ip in
      (
        rw host ip,
        omega (arith, host, a.low),
        omega (arith, host, a.high),
        rw (j.registered, lookup-insert p.id p.id p j.mid.peers, bytes_eq_refl) refl,
        rw (j.registered, lookup-insert p.mac p.mac p j.mid.mac_to_peer, bytes_eq_refl) refl,
      )

  -- No peer that is in the room has the address of one that joins.
  pub add_peer_own_address :
      (id : Bytes) (q : Peer)
      → IsConsistent base r
      → add_peer r address opt rand now ≡ (ok p, r')
      → lookup id r.peers ≡ some q
      → q.ip ≢ p.ip
  add_peer_own_address id q c e here same =
      let j = add_peer-Joined c e in
      let host =
        new_host base r j.mid j.host p c j.allocated (ap (λ (x : Peer). x.room) j.built)
          (ap (λ (x : Peer). x.ip) j.built) in
      old_host base r j.mid j.host p c j.allocated id q here (ap last_byte same ∙ host)

  -- A requested hardware address is given only if it is valid and nobody in the room has it.
  pub add_peer_requested :
      (mac : Bytes)
      → IsConsistent base r
      → clone_mac opt.requested_mac ≡ some mac
      → add_peer r address opt rand now ≡ (ok p, r')
      → (p.mac ≡ mac) × (valid_peer_mac mac ≡ true) × (lookup mac r.mac_to_peer ≡ none)
  unfolding draw_identity choose_mac
  add_peer_requested mac c want e = ground (arith, (add_peer-Joined c e).identity)

  -- Without a request the address is a random one, and it is valid too.
  pub add_peer_valid_mac :
      IsConsistent base r
      → Fills rand
      → add_peer r address opt rand now ≡ (ok p, r')
      → valid_peer_mac p.mac ≡ true
  unfolding draw_identity choose_mac
  add_peer_valid_mac c fills e =
      ground (arith, (add_peer-Joined c e).identity, random_mac-valid rand p.mac fills)
