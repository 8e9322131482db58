-- ===== src/Relay/Manager/Sending.antt =====
-- Forward, as a section of a goroutine that may hold a peer that left, keeps the invariant.
use anylan.Base.{
  ℕ, ◌+◌, ◌*◌, ◌≡◌, refl, ◌⊎◌, inl, inr, List, Option, some, arith, Option-cases, Result,
}
use mathlib.Core.Path.{subst}
use anylan.Base.Bytes.{Bytes}
use anylan.Relay.Error.{Error}
use anylan.Relay.Peer.{Peer}
use anylan.Relay.Room.{Room, forward, learn}
use anylan.Relay.Room.Members.{insert_cases}
use anylan.Relay.Room.Forwarding.{
  Outcome, refused, absent, passed, forward-Outcome, learn-IsConsistent,
}
use anylan.Relay.Manager.{World, set_room, forward_in}
use anylan.Relay.Manager.Invariant.{WorldFits}
use anylan.Relay.Manager.Joining.{set_room-WorldFits}
use anylan.Relay.Manager.Leaving.{IsHandle, shrunk-WorldFits}

learned-WorldFits :
    (base : ℕ) (w : World) (a : ℕ) (r : Room) (p : Peer)
    → WorldFits base w
    → w.room_at a ≡ some r
    → IsHandle w p
    → WorldFits base (set_room w a (learn r p))
learned-WorldFits base w a r p f at h =
    let g = f.room a r at in
    shrunk-WorldFits base w a r (learn r p) f at
      (record { address = refl; managed = refl; index = refl; name = refl; closed = refl })
      (learn-IsConsistent (base + r.index * 256) r p g.consistent) g.closed_empty g.live
      (λ mac q e. elim (insert_cases p.mac mac p q r.mac_to_peer r.mac_to_peer refl e) [
        | inl (_, v) ↦ subst (IsHandle w) v h
        | inr old ↦
            let (x, found, same) = g.known mac q old in
            record { cell = x; found = found; same = same }
      ])

room_after :
    (r : Room) (p : Peer) (frame : Bytes) (r' : Room) (res : Result Error (List Peer))
    {o : Option (Result Error (List Peer) × Room)}
    → Outcome r p frame o
    → o ≡ some (res, r')
    → (r' ≡ r) ⊎ (r' ≡ learn r p)
room_after r p frame r' res (refused x) e = inl cc
room_after r p frame r' res (absent gone) e = inl cc
room_after r p frame r' res (passed ts present own found) e = inr cc

pub forward_in-WorldFits :
    (base : ℕ) (w w' : World) (a : ℕ) (p : Peer) (frame : Bytes) (res : Result Error (List Peer))
    → WorldFits base w
    → IsHandle w p
    → forward_in a p frame w ≡ some (res, w')
    → WorldFits base w'
unfolding forward_in
forward_in-WorldFits base w w' a p frame res f h e = elim (Option-cases (w.room_at a)) [
  | inl n ↦ cc (n, e)
  | inr (r, at) ↦ elim (Option-cases (forward r p frame)) [
    | inl n ↦ cc (at, n, e)
    | inr ((x, r'), q) ↦
        let after : set_room w a r' ≡ w' = ground (arith, at, q) in
        subst (WorldFits base) after
          (elim (room_after r p frame r' x (forward-Outcome r p frame) q) [
            | inl same ↦ rw same (set_room-WorldFits base w a r f at)
            | inr learned ↦ rw learned (learned-WorldFits base w a r p f at h)
          ])
  ]
]
