-- ===== src/Relay/Manager/Safety.antt =====
-- What the invariant gives: addresses of their own, and sends that do not panic.
use anylan.Base.{
  ℕ, ◌+◌, ◌*◌, ◌<◌, ◌≡◌, ◌≢◌, ◌∙◌, ap, Bool, false, inl, inr, [], none, some, arith, Bool-cases,
  Option-cases, ok,
}
use mathlib.Core.Path.{subst}
use anylan.Base.Bytes.{Bytes}
use anylan.Base.Dictionary.{lookup}
use anylan.Relay.Address.{ipv4_to_uint32, ipv4_to_uint32-uint32_to_ipv4}
use anylan.Relay.Peer.{Peer, PeerState, enqueue}
use anylan.Relay.Room.{Room}
use anylan.Relay.Room.Members.{host_of}
use anylan.Relay.Manager.{World, enqueue_to, set_peer}
use anylan.Relay.Manager.Invariant.{WorldFits}

-- A peer of the room at `a`, under its identifier.
pub record IsIn (w : World) (a : ℕ) (id : Bytes) (p : Peer) : Type 0 where
  pub room : Room
  pub at : w.room_at a ≡ some room
  pub registered : lookup id room.peers ≡ some p

in_open_room :
    (base : ℕ) (w : World) (a : ℕ) (id : Bytes) (p : Peer)
    → WorldFits base w
    → (i : IsIn w a id p) → i.room.closed ≡ false
unfolding lookup
in_open_room base w a id p f i = elim (Bool-cases i.room.closed) [
  | inr live ↦ live
  | inl shut ↦
      let nobody = (f.room a i.room i.at).closed_empty shut in
      let found : lookup id [] ≡ some p = subst (λ m. lookup id m ≡ some p) nobody i.registered in
      cc found
]

-- The address of a peer as a number, and that it fits 32 bits.
in_address :
    (base : ℕ) (w : World) (a : ℕ) (id : Bytes) (p : Peer)
    → WorldFits base w
    → (i : IsIn w a id p)
    → (ipv4_to_uint32 p.ip ≡ ok (base + i.room.index * 256 + host_of p)) × (host_of p < 255)
in_address base w a id p f i =
    let g = f.room a i.room i.at in
    let m = g.consistent.member id p i.registered in
    let small : host_of p < 255 = omega (arith, m.below, g.consistent.hosts.next_high) in
    (
      ap ipv4_to_uint32 m.own_ip
          ∙ ipv4_to_uint32-uint32_to_ipv4 (base + i.room.index * 256 + host_of p)
              (omega (arith, g.consistent.in_range, small)),
      small,
    )

-- No two peers of the manager have the same virtual address, whatever rooms they are in.
pub peer_address_unique :
    (base : ℕ) (w : World) (a b : ℕ) (id jd : Bytes) (p q : Peer)
    → WorldFits base w
    → IsIn w a id p
    → IsIn w b jd q
    → p.ip ≡ q.ip
    → (a ≡ b) × (id ≡ jd)
peer_address_unique base w a b id jd p q f i j e =
    let (pa, pl) = in_address base w a id p f i in
    let (qa, ql) = in_address base w b jd q f j in
    let sums : base + i.room.index * 256 + host_of p ≡ base + j.room.index * 256 + host_of q =
      cc (pa, qa, ap ipv4_to_uint32 e) in
    let rooms : a ≡ b =
      f.differ a b i.room j.room i.at j.at (in_open_room base w a id p f i)
        (in_open_room base w b jd q f j) (omega arith) in
    let one : j.room ≡ i.room = cc (i.at, j.at, rooms) in
    (
      rooms,
      (f.room a i.room i.at).consistent.differ id jd p q i.registered
          (subst (λ (x : Room). lookup jd x.peers ≡ some q) one j.registered) (omega arith),
    )

enqueue_open : (s : PeerState) (frame : Bytes) → s.frames.closed ≡ false → enqueue s frame ≢ none
unfolding enqueue
enqueue_open s frame h = ground arith

-- A send to a peer that is in a room does not panic.
pub enqueue_to_total :
    (base : ℕ) (w : World) (a : ℕ) (id : Bytes) (p : Peer) (frame : Bytes)
    → WorldFits base w
    → IsIn w a id p
    → (sent : Bool) × (w' : World) × (enqueue_to p frame w ≡ some (sent, w'))
unfolding enqueue_to
enqueue_to_total base w a id p frame f i =
    let l = (f.room a i.room i.at).live id p i.registered in
    elim (Option-cases (enqueue l.cell.state frame)) [
      | inl n ↦ absurd (enqueue_open l.cell.state frame l.is_open n)
      | inr ((s, sent), e) ↦
          (sent, set_peer w p.address (record (l.cell) { state = s }), ground (arith, l.found))
    ]
