-- ===== src/Relay/Notifications/Apart.antt =====
-- The peers of a room stand on the heap at different addresses.
use anylan.Base.{
  ℕ, ◌≡◌, Bool, true, false, inl, inr, List, [], ◌∷◌, some, map, keep, arith, ◌==◌, contains,
  Bool-cases, All,
}
use anylan.Base.Bytes.{Bytes, bytes_eq_iff}
use anylan.Base.Dictionary.{Dictionary, lookup, values, IsUnique}
use anylan.Base.Sorting.{IsDistinct}
use anylan.Relay.Peer.{Peer}
use anylan.Relay.Room.{Room}
use anylan.Relay.Room.Forwarding.{All-values}
use anylan.Relay.Manager.{World}
use anylan.Relay.Manager.Invariant.{WorldFits}
use anylan.Relay.Manager.Leaving.{IsHandle}

abbrev pub addresses : List Peer → List ℕ
addresses ps = map (λ p. p.address) ps

-- An address among those of a map's values belongs to one of them.
pub owner_of :
    (b : ℕ) (m : Dictionary Peer)
    → IsUnique m
    → contains b (addresses (values m)) ≡ true
    → (k : Bytes) × (p : Peer) × (lookup k m ≡ some p) × (p.address ≡ b)
unfolding values contains lookup
owner_of b [] u h = cc
owner_of b ((k, p) ∷ m) u h = elim (Bool-cases (p.address == b)) [
  | inl own ↦ (k, p, ground (arith, bytes_eq_iff k k), ground (arith, own))
  | inr other ↦
      let (j, q, e, same) = owner_of b m u.1 (ground (arith, other, h)) in
      (j, q, ground (arith, bytes_eq_iff k j, e, u.0), same)
]

values-IsDistinct :
    (m : Dictionary Peer)
    → IsUnique m
    → ((j k : Bytes) (p q : Peer)
        → lookup j m ≡ some p
        → lookup k m ≡ some q
        → p.address ≡ q.address
        → j ≡ k)
    → IsDistinct (addresses (values m))
unfolding values lookup
values-IsDistinct [] u apart = tt
values-IsDistinct ((k, p) ∷ m) u apart = (
  elim (Bool-cases (contains p.address (addresses (values m)))) [
    | inr new ↦ new
    | inl old ↦
        let (j, q, e, same) = owner_of p.address m u.1 old in
        let key : j ≡ k =
          apart j k q p (ground (arith, bytes_eq_iff k j, e, u.0))
            (ground (arith, bytes_eq_iff k k)) same in
        absurd (cc (u.0, e, key))
  ],
  values-IsDistinct m u.1 (λ i j a b e f same.
      apart i j a b (ground (arith, bytes_eq_iff k i, e, u.0))
        (ground (arith, bytes_eq_iff k j, f, u.0)) same),
)

pub contains-keep :
    (b : ℕ) (test : Peer → Bool) (ps : List Peer)
    → contains b (addresses ps) ≡ false
    → contains b (addresses (keep test ps)) ≡ false
unfolding contains
contains-keep b test [] h = h
contains-keep b test (p ∷ ps) h = ground (arith, contains-keep b test ps)

pub keep-IsDistinct :
    (test : Peer → Bool) (ps : List Peer)
    → IsDistinct (addresses ps)
    → IsDistinct (addresses (keep test ps))
keep-IsDistinct test [] d = tt
keep-IsDistinct test (p ∷ ps) d = elim (Bool-cases (test p)) [
  | inl e ↦ rw e (contains-keep p.address test ps d.0, keep-IsDistinct test ps d.1)
  | inr e ↦ rw e (keep-IsDistinct test ps d.1)
]

pub kept-contains :
    (id : Bytes) (p : Peer) (test : Peer → Bool) (m : Dictionary Peer)
    → lookup id m ≡ some p
    → test p ≡ true
    → contains p.address (addresses (keep test (values m))) ≡ true
unfolding contains lookup values
kept-contains id p test [] e h = cc
kept-contains id p test ((j, q) ∷ m) e h = ground (arith, e, h, kept-contains id p test m)

-- The peers of a room stand on the heap at different addresses.
pub peers_apart :
    (base : ℕ) (w : World) (a : ℕ) (r : Room)
    → WorldFits base w
    → w.room_at a ≡ some r
    → All (IsHandle w) (values r.peers) × IsDistinct (addresses (values r.peers))
peers_apart base w a r f at =
    let g = f.room a r at in
    (
      All-values (IsHandle w) r.peers g.consistent.peers_unique (λ k p e.
          let l = g.live k p e in record { cell = l.cell; found = l.found; same = l.same }),
      values-IsDistinct r.peers g.consistent.peers_unique (λ j k p q e h same.
          let l = g.live j p e in
          let m = g.live k q h in
          let one : p ≡ q = cc (l.found, l.same, m.found, m.same, same) in
          let own : p.id ≡ j = (g.consistent.member j p e).own_id in
          let own' : q.id ≡ k = (g.consistent.member k q h).own_id in cc (one, own, own')),
    )
