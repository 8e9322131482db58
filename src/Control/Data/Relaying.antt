-- ===== src/Control/Data/Relaying.antt =====
-- The handler's turn for one frame, on a heap that fits: it does not panic, and the heap fits after
-- it.
use anylan.Base.{
  ℕ, ◌+◌, ◌*◌, ◌≡◌, refl, ◌∙◌, ◌⊎◌, Bool, true, false, List, [], ◌∷◌, Option, some, arith, length,
  All, All-map, ◌==◌, Bool-cases, Option-cases, inl, inr, ok, err, Result-cases,
}
use mathlib.Core.Path.{ap}
use anylan.Base.Bytes.{Bytes, text}
use anylan.Base.Dictionary.{lookup}
use anylan.Capture.{Metadata, Recorder, is_enabled}
use anylan.Capture.Ring.{record_frame-is_enabled}
use anylan.Relay.Error.{Error}
use anylan.Relay.Peer.{Peer, PeerState, enqueue, allow_frame, record_drop_frame, record_rx_frame}
use anylan.Relay.Room.{Room, forward, is_current}
use anylan.Relay.Room.Forwarding.{IsTarget}
use anylan.Relay.Room.Delivery.{forward_total, forward-IsTarget}
use anylan.Relay.Manager.{World, Cell, set_peer, set_room, forward_in, enqueue_to}
use anylan.Relay.Manager.Invariant.{WorldFits}
use anylan.Relay.Manager.Leaving.{IsHandle}
use anylan.Relay.Manager.Sending.{forward_in-WorldFits}
use anylan.Relay.Manager.Steps.{state-WorldFits, allow_frame_closed}
use anylan.Control.Data.{count_at, admit, deliver_all, relay_allowed, relay_frame}

-- The peer stands on the heap, with its queue open.
abbrev pub CanSend : World → Peer → Type 0
CanSend w t = (c : Cell) × (w.peer_at t.address ≡ some c) × (c.state.frames.closed ≡ false)

module _ (w : World) (p : Peer) (c : Cell) (s : PeerState) (at : w.peer_at p.address ≡ some c)
    (same : s.frames.closed ≡ c.state.frames.closed) where
  pub changed-WorldFits :
      (base : ℕ) → WorldFits base w → WorldFits base (set_peer w p.address (record c { state = s }))
  changed-WorldFits base f = state-WorldFits base w p c s f at same

  pub changed-CanSend :
      (t : Peer) → CanSend w t → CanSend (set_peer w p.address (record c { state = s })) t
  changed-CanSend t (d, there, free) = elim (Bool-cases (p.address == t.address)) [
    | inl hit ↦
        (record c { state = s }, ground (arith, hit), ground (arith, hit, there, at, same, free))
    | inr miss ↦ (d, ground (arith, miss, there), free)
  ]

  pub changed-IsHandle : IsHandle w p → IsHandle (set_peer w p.address (record c { state = s })) p
  changed-IsHandle h = record {
    cell = record c { state = s };
    found = ground arith;
    same = ground (arith, h.same, h.found, at);
  }

pub enqueue_total :
    (s : PeerState) (frame : Bytes)
    → s.frames.closed ≡ false
    → (t : PeerState) × (sent : Bool) × (enqueue s frame ≡ some (t, sent))
      × (t.frames.closed ≡ s.frames.closed)
unfolding enqueue
enqueue_total s frame free = elim (Option-cases (enqueue s frame)) [
  | inl n ↦ absurd (ground (arith, n, free))
  | inr ((t, sent), e) ↦ (t, sent, e, ground (arith, e))
]

deliver_all_total :
    (base : ℕ) (w : World) (ts : List Peer) (frame : Bytes)
    → WorldFits base w
    → All (CanSend w) ts
    → (w' : World) × (deliver_all ts frame w ≡ some w') × WorldFits base w'
unfolding deliver_all enqueue_to
deliver_all_total base w [] frame f all = (w, refl, f)
deliver_all_total base w (t ∷ ts) frame f ((c, there, free), all) =
    let (s, sent, e, same) = enqueue_total c.state frame free in
    let next = set_peer w t.address (record c { state = s }) in
    let (w', rest, fits) =
      deliver_all_total base next ts frame (changed-WorldFits w t c s there same base f)
        (All-map (changed-CanSend w t c s there same) ts all) in
    (w', ground (arith, there, e, rest), fits)

pub targets-CanSend :
    (base : ℕ) (w : World) (a : ℕ) (r : Room) (from : Peer) (ts : List Peer)
    → WorldFits base w
    → w.room_at a ≡ some r
    → All (IsTarget r from) ts
    → All (CanSend w) ts
unfolding is_current
targets-CanSend base w a r from ts f at all =
    All-map
      (λ t i. elim (Option-cases (lookup t.id r.peers)) [
        | inl n ↦ absurd (ground (arith, n, i.0))
        | inr (q, e) ↦
            let l = (f.room a r at).live t.id q e in
            (l.cell, ground (arith, l.found, e, i.0), l.is_open)
      ])
      ts all

module _ (base : ℕ) (p : Peer) (payload : Bytes) where
  count_at_total :
      (w : World) (f : PeerState → PeerState)
      → WorldFits base w
      → (h : IsHandle w p) → (f (h.cell.state)).frames.closed ≡ h.cell.state.frames.closed
      → let w' = set_peer w p.address (record (h.cell) { state = f (h.cell.state) }) in
        (count_at p f w ≡ some w') × WorldFits base w' × IsHandle w' p
  unfolding count_at
  count_at_total w f fits h same = (
    ground (arith, h.found),
    changed-WorldFits w p h.cell (f (h.cell.state)) h.found same base fits,
    changed-IsHandle w p h.cell (f (h.cell.state)) h.found same h,
  )

  forward_in_total :
      (w : World) (r : Room)
      → WorldFits base w
      → IsHandle w p
      → w.room_at p.room ≡ some r
      → (w' : World) × (((e : Error) × (forward_in p.room p payload w ≡ some (err e, w'))
            × IsHandle w' p)
          ⊎ ((ts : List Peer) × (forward_in p.room p payload w ≡ some (ok ts, w'))
              × All (CanSend w') ts))
        × WorldFits base w'
  unfolding forward_in
  forward_in_total w r f h at =
      let g = f.room p.room r at in
      let (res, r', e, kept) = forward_total (base + r.index * 256) r p payload g.consistent in
      let w' = set_room w p.room r' in
      let found : forward_in p.room p payload w ≡ some (res, w') = ground (arith, at, e) in
      let fits = forward_in-WorldFits base w w' p.room p payload res f h found in
      elim (Result-cases res) [
        | inr (x, failed) ↦ (
          w',
          inl (
            x,
            found ∙ ap (λ y. some (y, w')) failed,
            record { cell = h.cell; found = h.found; same = h.same },
          ),
          fits,
        )
        | inl (ts, passed) ↦
            let sent : forward r p payload ≡ some (ok ts, r') = e ∙ ap (λ y. some (y, r')) passed in
            let all =
              targets-CanSend base w p.room r p ts f at
                (forward-IsTarget r r' p payload ts sent (base + r.index * 256) g.consistent) in
            (w', inr (ts, found ∙ ap (λ y. some (y, w')) passed, all), fits)
      ]

  relay_allowed_total :
      (w : World) (r : Room) (allowed : Bool)
      → WorldFits base w
      → IsHandle w p
      → w.room_at p.room ≡ some r
      → (w' : World) × (relay_allowed p payload (allowed, w) ≡ some w') × WorldFits base w'
  unfolding relay_allowed record_drop_frame record_rx_frame
  relay_allowed_total w r false f h at =
      let (e, fits, _) = count_at_total w (record_drop_frame (length payload)) f h refl in
      (
        set_peer w p.address
            (record (h.cell) { state = record_drop_frame (length payload) (h.cell.state) }),
        e,
        fits,
      )
  relay_allowed_total w r true f h at =
      let counted = count_at_total w (record_rx_frame (length payload)) f h refl in
      let w1 =
        set_peer w p.address
          (record (h.cell) { state = record_rx_frame (length payload) (h.cell.state) }) in
      let (w2, outcome, fits) = forward_in_total w1 r counted.1 counted.2 at in
      elim outcome [
        | inl (x, e, h2) ↦
            let dropped = count_at_total w2 (record_drop_frame (length payload)) fits h2 refl in
            (
              set_peer w2 p.address
                  (record (h2.cell) { state = record_drop_frame (length payload) (h2.cell.state) }),
              ground (arith, counted.0, e, dropped.0),
              dropped.1,
            )
        | inr (ts, e, all) ↦
            let (w3, sent, done) = deliver_all_total base w2 ts payload fits all in
            (w3, ground (arith, counted.0, e, sent), done)
      ]

  -- A frame from a peer whose room is on the heap, with no capture running and no other goroutine
  -- in between: whatever the frame is, the handler's turn does not panic, and the manager, its
  -- rooms and their peers are consistent after it.
  pub relay_frame_total :
      (ip_string : Bytes → Bytes) (now : ℕ) (captures : Option Recorder) (w : World) (r : Room)
      → WorldFits base w
      → IsHandle w p
      → w.room_at p.room ≡ some r
      → is_enabled captures ≡ false
      → (w' : World) × (relay_frame ip_string p payload now (captures, w) ≡ some (captures, w'))
        × WorldFits base w'
  unfolding relay_frame admit
  relay_frame_total ip_string now captures w r f h at off =
      let meta : Metadata = record {
        direction = text "ingress";
        room = r.name;
        peer_id = p.id;
        peer_name = p.display_name;
      } in
      let (s, allowed) = allow_frame now (length payload) (h.cell.state) in
      let same : s.frames.closed ≡ h.cell.state.frames.closed =
        allow_frame_closed now (length payload) (h.cell.state) in
      let w1 = set_peer w p.address (record (h.cell) { state = s }) in
      let fits = changed-WorldFits w p h.cell s h.found same base f in
      let handle = changed-IsHandle w p h.cell s h.found same h in
      let (w', e, done) = relay_allowed_total w1 r allowed fits handle at in
      (
        w',
        ground (
          arith,
          at,
          h.found,
          record_frame-is_enabled ip_string captures payload now meta off,
          e,
        ),
        done,
      )
