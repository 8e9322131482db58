-- ===== src/Relay/Manager/Closing.antt =====
-- closeFrames and Enqueue keep the invariant.
use anylan.Base.{
  ℕ, ◌≡◌, ◌∙◌, refl, Bool, true, false, inl, inr, some, arith, ◌==◌, Bool-cases, Option-cases,
}
use mathlib.Core.Path.{subst}
use anylan.Base.Bytes.{Bytes}
use anylan.Base.Dictionary.{lookup}
use anylan.Relay.Peer.{Peer, PeerState, close_frames, enqueue}
use anylan.Relay.Room.{Room, is_current}
use anylan.Relay.Manager.{World, Cell, set_peer, close_peer, enqueue_to}
use anylan.Relay.Manager.Invariant.{WorldFits, Keeps, RoomFits-Keeps}
use anylan.Relay.Manager.Leaving.{IsHandle}

-- A step that changes the state of one peer. If it closes the queue, no room has that peer.
pub set_peer-WorldFits :
    (base : ℕ) (w : World) (p : Peer) (c : Cell) (s : PeerState)
    → WorldFits base w
    → w.peer_at p.address ≡ some c
    → ((b : ℕ) (r : Room) (id : Bytes) (q : Peer)
        → w.room_at b ≡ some r
        → lookup id r.peers ≡ some q
        → q.address ≡ p.address
        → c.state.frames.closed ≡ false
        → s.frames.closed ≡ false)
    → WorldFits base (set_peer w p.address (record c { state = s }))
set_peer-WorldFits base w p c s f at opens =
    let d : Cell = record c { state = s } in
    let w' = set_peer w p.address d in
    let kept : Keeps w w' = record {
      address_grows = omega arith;
      room_grows = omega arith;
      cells = λ b x e. elim (Bool-cases (p.address == b)) [
        | inl hit ↦ (d, ground arith, ground arith)
        | inr miss ↦ (x, ground arith, refl)
      ];
    } in
    record {
      pool = f.pool;
      indices = f.indices;
      room = λ b r e.
          RoomFits-Keeps base w w' b r kept
            (λ id q h l. elim (Bool-cases (p.address == q.address)) [
              | inl hit ↦ record {
                cell = d;
                found = ground arith;
                same = ground (arith, l.found, l.same);
                is_open = opens b r id q e h (ground arith) (ground (arith, l.found, l.is_open));
              }
              | inr miss ↦ record {
                cell = l.cell;
                found = ground (arith, l.found);
                same = l.same;
                is_open = l.is_open;
              }
            ])
            (λ o l. l) (λ o l. l) (f.room b r e);
      registry = λ name b e.
          let o = f.registry name b e in
          record { room = o.room; found = o.found; named = o.named; is_open = o.is_open };
      differ = f.differ;
      cell = λ b x e. elim (Bool-cases (p.address == b)) [
        | inl hit ↦ ground (arith, f.cell p.address c at)
        | inr miss ↦ f.cell b x (ground arith)
      ];
    }

-- A registered peer is in the room that it names, under its own identifier.
pub registered_at_home :
    (base : ℕ) (w : World) (b : ℕ) (r : Room) (id : Bytes) (p : Peer)
    → WorldFits base w
    → w.room_at b ≡ some r
    → lookup id r.peers ≡ some p
    → (p.room ≡ b) × (is_current r p ≡ true)
unfolding is_current
registered_at_home base w b r id p f e h =
    let g = f.room b r e in
    let m = g.consistent.member id p h in (m.own_room ∙ g.own_address, ground (arith, m.own_id))

-- `closeFrames` on a peer that has left its room.
pub close_peer-WorldFits :
    (base : ℕ) (w w' : World) (r : Room) (p : Peer)
    → WorldFits base w
    → IsHandle w p
    → w.room_at p.room ≡ some r
    → is_current r p ≡ false
    → close_peer p w ≡ some w'
    → WorldFits base w'
unfolding close_peer
close_peer-WorldFits base w w' r p f h home gone e =
    let next : set_peer w p.address (record (h.cell) { state = close_frames (h.cell.state) }) ≡ w' =
      ground (arith, h.found) in
    subst (WorldFits base) next (
      set_peer-WorldFits base w p h.cell (close_frames (h.cell.state)) f h.found
        (λ b t id q here reg same _.
          let l = (f.room b t here).live id q reg in
          let one : q ≡ p = cc (l.found, l.same, h.found, h.same, same) in
          let (room, there) = registered_at_home base w b t id q f here reg in
          cc (one, room, there, here, home, gone)))

enqueue_closed :
    (s t : PeerState) (frame : Bytes) (sent : Bool)
    → enqueue s frame ≡ some (t, sent)
    → t.frames.closed ≡ s.frames.closed
unfolding enqueue
enqueue_closed s t frame sent e = ground arith

-- `Enqueue` leaves an open queue open.
pub enqueue_to-WorldFits :
    (base : ℕ) (w w' : World) (p : Peer) (frame : Bytes) (sent : Bool)
    → WorldFits base w
    → IsHandle w p
    → enqueue_to p frame w ≡ some (sent, w')
    → WorldFits base w'
unfolding enqueue_to
enqueue_to-WorldFits base w w' p frame sent f h e =
    elim (Option-cases (enqueue h.cell.state frame)) [
      | inl n ↦ cc (n, e, h.found)
      | inr ((s, ok'), q) ↦
          let next : set_peer w p.address (record (h.cell) { state = s }) ≡ w' =
            ground (arith, h.found, q) in
          subst (WorldFits base) next (
            set_peer-WorldFits base w p h.cell s f h.found
              (λ b t id x _ _ _ live. enqueue_closed h.cell.state s frame ok' q ∙ live))
    ]
