-- ===== src/Control/Data/Delivering.antt =====
-- Where a frame that the handler relays ends up: in the queues of those who should receive it.
use anylan.Base.{
  ℕ, ◌+◌, ◌*◌, ◌≤◌, ◌≡◌, ◌∙◌, refl, ap, ◌||◌, Bool, true, false, not, keep, List, [], ◌∷◌, Option,
  some, arith, length, All, All-map, ◌==◌, if◌then◌else◌, contains, Bool-cases, Option-cases, inl,
  inr, ok,
}
use mathlib.Core.Path.{subst}
use anylan.Base.Bytes.{Bytes, text, bytes_eq_iff}
use anylan.Base.Dictionary.{lookup, values}
use anylan.Base.Sorting.{IsDistinct}
use anylan.Capture.{Metadata, Recorder, is_enabled}
use anylan.Capture.Ring.{record_frame-is_enabled}
use anylan.Relay.Mac.{is_broadcast, is_multicast}
use anylan.Relay.Peer.{Peer, PeerState, Channel, same_peer, enqueue, allow_frame, record_rx_frame}
use anylan.Relay.Room.{
  Room, forward, forward_from, pass_on, route, other_peers, unicast_target, learn, is_current,
  frame_src, frame_dst,
}
use anylan.Relay.Room.Forwarding.{forward_cut}
use anylan.Relay.Room.Delivery.{reaches, forward-IsTarget}
use anylan.Relay.Room.Recipients.{Receives, forward_iff}
use anylan.Relay.Manager.{World, Cell, set_peer, set_room, forward_in, enqueue_to}
use anylan.Relay.Manager.Invariant.{WorldFits}
use anylan.Relay.Manager.Leaving.{IsHandle}
use anylan.Relay.Manager.Closing.{registered_at_home}
use anylan.Relay.Notifications.Apart.{addresses, keep-IsDistinct, peers_apart}
use anylan.Relay.Notifications.Broadcast.{offered}
use anylan.Control.Data.{count_at, admit, deliver_all, relay_allowed, relay_frame}
use anylan.Control.Data.Relaying.{CanSend, changed-CanSend, targets-CanSend, enqueue_total}

-- The queue of the peer at the address `b`.
abbrev pub QueueAt : World → ℕ → Channel → Type 0
QueueAt w b ch = (c : Cell) × (w.peer_at b ≡ some c) × (c.state.frames ≡ ch)

enqueue-offered :
    (s t : PeerState) (frame : Bytes) (sent : Bool)
    → enqueue s frame ≡ some (t, sent)
    → t.frames ≡ offered s.frames frame
unfolding enqueue
enqueue-offered s t frame sent e = ground (arith, e)

-- Each of the peers gets one offer, and nobody else any.
deliver_all-offered :
    (ts : List Peer) (payload : Bytes) (w : World)
    → All (CanSend w) ts
    → IsDistinct (addresses ts)
    → (w' : World) × (deliver_all ts payload w ≡ some w')
      × ((b : ℕ) (ch : Channel)
          → QueueAt w b ch
          → QueueAt w' b (if contains b (addresses ts) then offered ch payload else ch))
unfolding deliver_all enqueue_to contains
deliver_all-offered [] payload w all d = (w, refl, λ b ch q. q)
deliver_all-offered (t ∷ ts) payload w ((c, there, free), all) (new, d) =
    let (s, sent, e, same) = enqueue_total c.state payload free in
    let v = set_peer w t.address (record c { state = s }) in
    let (w', rest, each) =
      deliver_all-offered ts payload v (All-map (changed-CanSend w t c s there same) ts all) d in
    (
      w',
      ground (arith, there, e, rest),
      λ b ch (x, at, queue). elim (Bool-cases (t.address == b)) [
        | inl own ↦
            let put = enqueue-offered c.state s payload sent e in
            let (y, at', queue') = each b (offered ch payload) (
              record c { state = s },
              ground (arith, own),
              ground (arith, own, at, there, put, queue),
            ) in
            (y, at', ground (arith, queue', own, new))
        | inr other ↦
            let (y, at', queue') = each b ch (x, ground (arith, other, at), queue) in
            (y, at', ground (arith, queue', other))
      ],
    )

route-IsDistinct :
    (r : Room) (from : Peer) (dst : Bytes) (ts : List Peer)
    → IsDistinct (addresses (values r.peers))
    → route (learn r from) from dst ≡ some ts
    → IsDistinct (addresses ts)
unfolding route other_peers contains
route-IsDistinct r from dst ts d e =
    let test : Peer → Bool = λ p. not (same_peer p from) in
    let flooded = keep-IsDistinct test (values r.peers) d in
    elim (Bool-cases (is_broadcast dst || is_multicast dst)) [
      | inl group ↦
          let same : keep test (values r.peers) ≡ ts = ground (arith, group, e) in
          subst (λ us. IsDistinct (addresses us)) same flooded
      | inr single ↦ elim (Option-cases (unicast_target (learn r from) from dst)) [
        | inl n ↦
            let same : keep test (values r.peers) ≡ ts = ground (arith, single, n, e) in
            subst (λ us. IsDistinct (addresses us)) same flooded
        | inr (t, found) ↦
            let same : t ∷ [] ≡ ts = ground (arith, single, found, e) in
            subst (λ us. IsDistinct (addresses us)) same (refl, tt)
      ]
    ]

-- A change of the state of one peer that leaves its queue.
QueueAt-changed :
    (w : World) (a b : ℕ) (c : Cell) (s : PeerState) (ch : Channel)
    → w.peer_at a ≡ some c
    → s.frames ≡ c.state.frames
    → QueueAt w b ch
    → QueueAt (set_peer w a (record c { state = s })) b ch
QueueAt-changed w a b c s ch at same (x, there, queue) = elim (Bool-cases (a == b)) [
  | inl own ↦
      (record c { state = s }, ground (arith, own), ground (arith, own, at, there, same, queue))
  | inr other ↦ (x, ground (arith, other, there), queue)
]

forward_routed :
    (r r' : Room) (p : Peer) (payload : Bytes) (ts : List Peer)
    → 14 ≤ length payload
    → frame_src payload ≡ p.mac
    → is_current r p ≡ true
    → forward r p payload ≡ some (ok ts, r')
    → route (learn r p) p (frame_dst payload) ≡ some ts
unfolding forward_from pass_on
forward_routed r r' p payload ts long own here e =
    let cut = forward_cut r p payload (ground (arith, long)) in
    elim (Option-cases (route (learn r p) p (frame_dst payload))) [
      | inl n ↦
          absurd (ground (arith, cut, here, bytes_eq_iff (frame_src payload) p.mac, own, n, e))
      | inr (us, found) ↦
          found ∙ ground (arith, cut, here, bytes_eq_iff (frame_src payload) p.mac, own, found, e)
    ]

-- The queues after a frame: an offer more for those who should receive it, and the same for others.
abbrev pub Delivered : World → Room → Peer → Bytes → World → Type 0
Delivered w r p payload w' =
    (id : Bytes) (q : Peer) (ch : Channel)
    → lookup id r.peers ≡ some q
    → QueueAt w q.address ch
    → (Receives r p (frame_dst payload) q → QueueAt w' q.address (offered ch payload))
      × (¬ Receives r p (frame_dst payload) q → QueueAt w' q.address ch)

module _ (base : ℕ) (p : Peer) (payload : Bytes) (now : ℕ) (w : World) (r : Room)
    (f : WorldFits base w) (h : IsHandle w p) (at : w.room_at p.room ≡ some r) where
  abbrev admitted_state : PeerState
  admitted_state = (allow_frame now (length payload) (h.cell.state)).0

  abbrev admitted_world : World
  admitted_world = set_peer w p.address (record (h.cell) { state = admitted_state })

  abbrev counted_state : PeerState
  counted_state = record_rx_frame (length payload) admitted_state

  abbrev counted_world : World
  counted_world = set_peer admitted_world p.address (record (h.cell) { state = counted_state })

  admitted_frames : admitted_state.frames ≡ h.cell.state.frames
  unfolding allow_frame
  admitted_frames = ground arith

  counted_frames : counted_state.frames ≡ admitted_state.frames
  unfolding record_rx_frame
  counted_frames = refl

  counted_queue : (b : ℕ) (ch : Channel) → QueueAt w b ch → QueueAt counted_world b ch
  counted_queue b ch q =
      QueueAt-changed admitted_world p.address b (record (h.cell) { state = admitted_state })
        counted_state ch (ground arith) counted_frames
        (QueueAt-changed w p.address b h.cell admitted_state ch h.found admitted_frames q)

  counted_targets : (ts : List Peer) → All (CanSend w) ts → All (CanSend counted_world) ts
  counted_targets ts all =
      All-map
        (λ t c.
          changed-CanSend admitted_world p (record (h.cell) { state = admitted_state })
            counted_state (ground arith) (ap (λ (x : Channel). x.closed) counted_frames) t
            (changed-CanSend w p h.cell admitted_state h.found
              (ap (λ (x : Channel). x.closed) admitted_frames) t c))
        ts all

  -- On a consistent manager, with no capture running and no other goroutine in between: a frame of
  -- at least 14 bytes with the sender's own source, from a peer that is in its room and within the
  -- limits of its rate, is relayed with no panic, and put once into the queue of each peer of the
  -- room that should receive it, unless that is full, and of nobody else in the room.
  pub relay_frame-Delivered :
      (ip_string : Bytes → Bytes) (captures : Option Recorder)
      → is_current r p ≡ true
      → is_enabled captures ≡ false
      → 14 ≤ length payload
      → frame_src payload ≡ p.mac
      → (allow_frame now (length payload) (h.cell.state)).1 ≡ true
      → (w' : World) × (relay_frame ip_string p payload now (captures, w) ≡ some (captures, w'))
        × Delivered w r p payload w'
  unfolding relay_frame admit relay_allowed count_at forward_in
  relay_frame-Delivered ip_string captures here off long own allowed =
      let g = f.room p.room r at in
      let (ts, e, iff) =
        forward_iff (base + r.index * 256) r p payload g.consistent long own here in
      let (_, apart) = peers_apart base w p.room r f at in
      let distinct =
        route-IsDistinct r p (frame_dst payload) ts apart
          (forward_routed r (learn r p) p payload ts long own here e) in
      let targets =
        targets-CanSend base w p.room r p ts f at
          (forward-IsTarget r (learn r p) p payload ts e (base + r.index * 256) g.consistent) in
      let meta : Metadata = record {
        direction = text "ingress";
        room = r.name;
        peer_id = p.id;
        peer_name = p.display_name;
      } in
      let (w', sent, each) =
        deliver_all-offered ts payload (set_room counted_world p.room (learn r p))
          (counted_targets ts targets) distinct in
      (
        w',
        ground (
          arith,
          at,
          h.found,
          record_frame-is_enabled ip_string captures payload now meta off,
          allowed,
          e,
          sent,
        ),
        λ id q ch reg queue.
            let (_, there) = registered_at_home base w p.room r id q f at reg in
            let (x, found, after) = each q.address ch (counted_queue q.address ch queue) in
            (
              λ should. let hit = (iff q there).1 should in (x, found, ground (arith, after, hit)),
              λ should_not. elim (Bool-cases (reaches ts q)) [
                | inl hit ↦ absurd (should_not ((iff q there).0 hit))
                | inr miss ↦ (x, found, ground (arith, after, miss))
              ],
            ),
      )
