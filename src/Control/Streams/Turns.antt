-- ===== src/Control/Streams/Turns.antt =====
-- The turns of a session's goroutines: none panics, and all keep the manager consistent.
use anylan.Base.{
  ℕ, ◌≡◌, ◌⊎◌, inl, inr, refl, [], Option, none, some, arith, length, ◌==◌, Result, ok, err,
  Option-cases, Bool-cases,
}
use anylan.Base.Bytes.{Bytes}
use anylan.Base.Dictionary.{lookup}
use anylan.Protocol.{Writer, Error, MessageType, write_message, type_ping, type_pong}
use anylan.Protocol.Json.{Codec}
use anylan.Protocol.Messages.{PeerPing, PeerPong}
use anylan.Relay.Peer.{Peer}
use anylan.Relay.Room.{Room}
use anylan.Relay.Manager.{World, Cell, set_peer}
use anylan.Relay.Manager.Invariant.{WorldFits}
use anylan.Relay.Manager.Steps.{state-WorldFits}
use anylan.Relay.Manager.Tidy.{IsTidy, state-IsTidy}
use anylan.Relay.Notifications.{send_notify}
use anylan.Relay.Notifications.Broadcast.{notify_peer-informed, informed}
use anylan.Control.Probes.{Outgoing, forward_peer_ping, forward_peer_pong, send_outgoing}
use anylan.Control.Streams.{control_turn, pass_probe}

-- The manager after a probe: as it was, or with one more message offered to the peer of the room
-- that the probe names.
abbrev pub Probed : World → Room → World → Type 0
Probed w r w' =
    (w' ≡ w)
    ⊎ ((to msg : Bytes) × (q : Peer) × (x : Cell) × (lookup to r.peers ≡ some q)
        × (w.peer_at q.address ≡ some x)
        × (w' ≡ set_peer w q.address (informed x msg)))

informed_fits :
    (base : ℕ) (w : World) (q : Peer) (x : Cell) (msg : Bytes)
    → WorldFits base w
    → IsTidy w
    → w.peer_at q.address ≡ some x
    → WorldFits base (set_peer w q.address (informed x msg))
      × IsTidy (set_peer w q.address (informed x msg))
informed_fits base w q x msg f t found = (
  state-WorldFits base w q x (informed x msg).state f found refl,
  state-IsTidy w q.address x (informed x msg).state t found (ground arith),
)

module _ {W : Type 0} ⦃s : Writer W⦄ (base : ℕ) (w : World) (p : Peer) (r : Room)
    (f : WorldFits base w) (t : IsTidy w) (at : w.room_at p.room ≡ some r) where
  -- What a turn may be: no panic, a consistent manager, and at most one message for a peer.
  abbrev pub Turned : Option (Option Error × W × World) → Type 0
  Turned o =
      (e : Option Error) × (c' : W) × (w' : World) × (o ≡ some (e, c', w'))
      × WorldFits base w'
      × IsTidy w'
      × Probed w r w'

  pass_probe-Turned : (c : W) (out : Result Error Outgoing) → Turned (pass_probe p c w out)
  unfolding send_outgoing send_notify
  pass_probe-Turned c (err e) = (some e, c, w, refl, f, t, inl refl)
  pass_probe-Turned c (ok none) = (none, c, w, ground (arith, at), f, t, inl refl)
  pass_probe-Turned c (ok (some (to, msg))) = elim (Option-cases (lookup to r.peers)) [
    | inl nobody ↦ (none, c, w, ground (arith, at, nobody), f, t, inl refl)
    | inr (q, reg) ↦
        let l = (f.room p.room r at).live to q reg in
        let (sent, e) = notify_peer-informed w q msg l.cell t l.found in
        let (fits, tidy) = informed_fits base w q l.cell msg f t l.found in
        (
          none,
          c,
          set_peer w q.address (informed l.cell msg),
          ground (arith, at, reg, e),
          fits,
          tidy,
          inr (to, msg, q, l.cell, reg, l.found, refl),
        )
  ]

  -- Whatever a peer whose room is on the heap of a consistent manager writes to its control stream,
  -- the turn that reads it does not panic, leaves the manager consistent, and changes nothing there
  -- but the notifications of one peer of the room.
  pub control_turn_total :
      (pings : Codec PeerPing) (pongs : Codec PeerPong) (typ : MessageType) (payload : Bytes)
      (c : W)
      → Turned (control_turn pings pongs p typ payload c w)
  unfolding control_turn
  control_turn_total pings pongs typ payload c = elim (Bool-cases (typ == type_ping)) [
    | inl ping ↦ elim (Bool-cases (length payload == 0)) [
      | inl plain ↦
          let (c', e) = write_message c type_pong [] in
          (e, c', w, ground (arith, ping, plain), f, t, inl refl)
      | inr probe ↦
          let (e, c', w', done, fits, tidy, probed) =
            pass_probe-Turned c (forward_peer_ping pings p payload) in
          (e, c', w', ground (arith, ping, probe, done), fits, tidy, probed)
    ]
    | inr other ↦ elim (Bool-cases (typ == type_pong)) [
      | inl answer ↦
          let (e, c', w', done, fits, tidy, probed) =
            pass_probe-Turned c (forward_peer_pong pongs p payload) in
          (e, c', w', ground (arith, other, answer, done), fits, tidy, probed)
      | inr unknown ↦ (none, c, w, ground (arith, other, unknown), f, t, inl refl)
    ]
  ]
