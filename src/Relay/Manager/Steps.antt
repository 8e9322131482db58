-- ===== src/Relay/Manager/Steps.antt =====
-- All interleavings of the program's critical sections, as a step relation, and what holds after
-- any number of them.
use anylan.Base.{
  ◌∷◌, ℕ, ◌≡◌, refl, sym, Bool, false, inl, inr, List, some, arith, contains, Option-cases, Result,
  ok, err,
}
use mathlib.Core.Path.{subst}
use anylan.Base.Bytes.{Bytes}
use anylan.Base.Dictionary.{lookup}
use anylan.Relay.Error.{Error}
use anylan.Relay.Address.{Prefix}
use anylan.Relay.Mac.{Entropy}
use anylan.Relay.Peer.{
  Peer, PeerState, Channel, try_send, allow_frame, record_rx_frame, record_drop_frame,
}
use anylan.Relay.Notifications.{notify_peer}
use anylan.Relay.Room.{Room, JoinOptions, is_current}
use anylan.Relay.Manager.{
  World, Cell, set_peer, new_manager, get_or_create_room, room_add_peer, detach_peer, close_peer,
  delete_empty_room, forward_in, enqueue_to,
}
use anylan.Relay.Manager.Invariant.{PoolFits, WorldFits}
use anylan.Relay.Manager.Creating.{Given, get_or_create_room-Given}
use anylan.Relay.Manager.Joining.{room_add_peer-WorldFits}
use anylan.Relay.Manager.Leaving.{IsHandle, detach_peer-WorldFits}
use anylan.Relay.Manager.Sending.{forward_in-WorldFits}
use anylan.Relay.Manager.Closing.{set_peer-WorldFits, close_peer-WorldFits, enqueue_to-WorldFits}
use anylan.Relay.Manager.Deleting.{delete_empty_room-WorldFits}

-- One critical section of some goroutine. The goroutines hold pointers to rooms and peers, also to
-- closed rooms and to peers that left; `close` runs only for a peer that was taken out of its room.
pub data Step : World → World → Type 0 where
  create :
      {w w' : World} (name : Bytes) (now : ℕ) {res : Result Error ℕ}
      → get_or_create_room name now w ≡ (res, w')
      → Step w w'
  add :
      {w w' : World} (a : ℕ) {r : Room} (opt : JoinOptions) (rand : Entropy) (now : ℕ)
      {res : Result Error Peer}
      → w.room_at a ≡ some r
      → room_add_peer a opt rand now w ≡ some (res, w')
      → Step w w'
  leave :
      {w w' : World} (a : ℕ) {p : Peer} {found : Bool}
      → IsHandle w p
      → detach_peer a p w ≡ some (found, w')
      → Step w w'
  close :
      {w w' : World} {r : Room} {p : Peer}
      → IsHandle w p
      → w.room_at p.room ≡ some r
      → is_current r p ≡ false
      → close_peer p w ≡ some w'
      → Step w w'
  sweep : {w w' : World} (a : ℕ) → delete_empty_room a w ≡ some w' → Step w w'
  send :
      {w w' : World} (a : ℕ) {p : Peer} (frame : Bytes) {res : Result Error (List Peer)}
      → IsHandle w p
      → forward_in a p frame w ≡ some (res, w')
      → Step w w'
  deliver :
      {w w' : World} {p : Peer} (frame : Bytes) {sent : Bool}
      → IsHandle w p
      → enqueue_to p frame w ≡ some (sent, w')
      → Step w w'
  announce :
      {w w' : World} {p : Peer} (msg : Bytes) {sent : Bool}
      → IsHandle w p
      → notify_peer p msg w ≡ some (sent, w')
      → Step w w'
  allow :
      {w : World} (p : Peer) {c : Cell} (now size : ℕ)
      → w.peer_at p.address ≡ some c
      → Step w (set_peer w p.address (record c { state = (allow_frame now size c.state).0 }))
  received :
      {w : World} (p : Peer) {c : Cell} (size : ℕ)
      → w.peer_at p.address ≡ some c
      → Step w (set_peer w p.address (record c { state = record_rx_frame size c.state }))
  dropped :
      {w : World} (p : Peer) {c : Cell} (size : ℕ)
      → w.peer_at p.address ≡ some c
      → Step w (set_peer w p.address (record c { state = record_drop_frame size c.state }))
  take_frame :
      {w : World} (p : Peer) {c : Cell} {frame : Bytes} {rest : List Bytes}
      → w.peer_at p.address ≡ some c
      → c.state.frames.buffer ≡ frame ∷ rest
      → Step w (
          set_peer w p.address (record c {
            state = record (c.state) { frames = record (c.state.frames) { buffer = rest } };
          }))
  take_notice :
      {w : World} (p : Peer) {c : Cell} {msg : Bytes} {rest : List Bytes}
      → w.peer_at p.address ≡ some c
      → c.state.notify.buffer ≡ msg ∷ rest
      → Step w (
          set_peer w p.address (record c {
            state = record (c.state) { notify = record (c.state.notify) { buffer = rest } };
          }))

pub data Reach (w : World) : World → Type 0 where
  here : Reach w w
  next : {u v : World} → Reach w u → Step u v → Reach w v

Given-WorldFits :
    (base : ℕ) (w w' : World) (name : Bytes) (res : Result Error ℕ)
    → WorldFits base w
    → Given base w name (res, w')
    → WorldFits base w'
Given-WorldFits base w w' name (ok a) f g = g.0
Given-WorldFits base w w' name (err e) f g = rw (g.0) f

-- A change of the state of one peer that leaves its queue as it was.
pub state-WorldFits :
    (base : ℕ) (w : World) (p : Peer) (c : Cell) (s : PeerState)
    → WorldFits base w
    → w.peer_at p.address ≡ some c
    → s.frames.closed ≡ c.state.frames.closed
    → WorldFits base (set_peer w p.address (record c { state = s }))
state-WorldFits base w p c s f at same =
    set_peer-WorldFits base w p c s f at (λ b r id q _ _ _ live. ground (arith, same, live))

pub allow_frame_closed :
    (now size : ℕ) (s : PeerState) → (allow_frame now size s).0.frames.closed ≡ s.frames.closed
unfolding allow_frame
allow_frame_closed now size s = ground arith

-- The two ways in which a notification can end without a panic.
pub notify_peer_cases :
    (p : Peer) (msg : Bytes) (sent : Bool) (w w' : World) (c : Cell)
    → w.peer_at p.address ≡ some c
    → notify_peer p msg w ≡ some (sent, w')
    → (ch : Channel) × (try_send c.state.notify msg ≡ some (ch, sent))
      × (w' ≡ set_peer w p.address (record c { state = record (c.state) { notify = ch } }))
unfolding notify_peer
notify_peer_cases p msg sent w w' c at e = elim (Option-cases (try_send c.state.notify msg)) [
  | inl n ↦ absurd (ground (arith, at, n, e))
  | inr ((ch, s), h) ↦ (ch, ground (arith, at, h, e), ground (arith, at, h, e))
]

-- Every step keeps the invariant.
pub Step-WorldFits : (base : ℕ) {w w' : World} → Step w w' → WorldFits base w → WorldFits base w'
Step-WorldFits base {w} {w'} (create name now {res} e) f =
    Given-WorldFits base w w' name res f
      (subst (Given base w name) e (get_or_create_room-Given base w name now f))
Step-WorldFits base {w} {w'} (add a {r} opt rand now at e) f =
    let (res, x, e', _, fits, _) = room_add_peer-WorldFits base w a r opt rand now f at in
    subst (WorldFits base) (cc (e, e')) fits
Step-WorldFits base {w} {w'} (leave a {p} {found} h e) f =
    detach_peer-WorldFits base w w' a p found f h e
Step-WorldFits base {w} {w'} (close {r} {p} h at gone e) f =
    close_peer-WorldFits base w w' r p f h at gone e
Step-WorldFits base {w} {w'} (sweep a e) f = delete_empty_room-WorldFits base w w' a f e
Step-WorldFits base {w} {w'} (send a {p} frame {res} h e) f =
    forward_in-WorldFits base w w' a p frame res f h e
Step-WorldFits base {w} {w'} (deliver {p} frame {sent} h e) f =
    enqueue_to-WorldFits base w w' p frame sent f h e
Step-WorldFits base {w} {w'} (announce {p} msg {sent} h e) f =
    let (ch, _, after) = notify_peer_cases p msg sent w w' h.cell h.found e in
    subst (WorldFits base) (sym after)
      (state-WorldFits base w p h.cell (record (h.cell.state) { notify = ch }) f h.found refl)
Step-WorldFits base {w} (allow p {c} now size at) f =
    state-WorldFits base w p c (allow_frame now size c.state).0 f at
      (allow_frame_closed now size c.state)
Step-WorldFits base {w} (received p {c} size at) f =
    state-WorldFits base w p c (record_rx_frame size c.state) f at (unfold record_rx_frame in refl)
Step-WorldFits base {w} (dropped p {c} size at) f =
    state-WorldFits base w p c (record_drop_frame size c.state) f at
      (unfold record_drop_frame in refl)
Step-WorldFits base {w} (take_frame p {c} {frame} {rest} at _) f =
    state-WorldFits base w p c
      (record (c.state) { frames = record (c.state.frames) { buffer = rest } }) f at refl
Step-WorldFits base {w} (take_notice p {c} {msg} {rest} at _) f =
    state-WorldFits base w p c
      (record (c.state) { notify = record (c.state.notify) { buffer = rest } }) f at refl

-- The invariant holds after any number of steps, in any order, from a heap on which it holds.
pub Reach-WorldFits : (base : ℕ) {w w' : World} → WorldFits base w → Reach w w' → WorldFits base w'
Reach-WorldFits base f here = f
Reach-WorldFits base f (next r s) = Step-WorldFits base s (Reach-WorldFits base f r)

-- A manager over a pool that LoadPool made starts well.
pub new_manager-WorldFits :
    (base : ℕ) (pool : Prefix) → PoolFits base pool → WorldFits base (new_manager pool)
unfolding new_manager lookup contains
new_manager-WorldFits base pool p = record {
  pool = p;
  indices = record { limited = omega arith; free_distinct = tt; free_below = λ i e. cc };
  room = λ a r e. cc;
  registry = λ name a e. cc;
  differ = λ a b r s e. cc;
  cell = λ a c e. cc;
}
