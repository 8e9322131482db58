-- ===== src/Relay/Manager/Tidy.antt =====
-- Two more invariants of the manager: a name stands once in its map, and no Notify channel is
-- closed.
use anylan.Base.{
  ℕ, ◌≡◌, refl, ◌∙◌, sym, ap, Option, Bool, false, inl, inr, some, arith, Option-cases, Bool-cases,
  ◌==◌, length, not, ◌||◌, Result, Result-cases,
}
use mathlib.Core.Path.{subst}
use anylan.Base.Bytes.{Bytes}
use anylan.Base.Dictionary.{lookup, insert, delete, IsUnique, insert-IsUnique, delete-IsUnique}
use anylan.Relay.Error.{Error}
use anylan.Relay.Address.{Prefix}
use anylan.Relay.Peer.{
  Peer, PeerState, Channel, new_state, try_send, close_frames, enqueue, allow_frame,
  record_rx_frame, record_drop_frame,
}
use anylan.Relay.Mac.{Entropy}
use anylan.Relay.Room.{JoinOptions}
use anylan.Relay.Manager.{
  World, Cell, set_peer, is_pointer, new_manager, create_room, allocate_room_index,
  get_or_create_room, room_add_peer, detach_peer, close_peer, delete_empty_room, forward_in,
  enqueue_to,
}
use anylan.Relay.Manager.Leaving.{IsHandle}
use anylan.Relay.Manager.Steps.{
  Step, Reach, here, next, create, add, leave, close, sweep, send, deliver, announce, allow,
  received, dropped, take_frame, take_notice, notify_peer_cases,
}

pub record IsTidy (w : World) : Type 0 where
  pub names_unique : IsUnique w.rooms
  pub notify_open : (a : ℕ) (c : Cell) → w.peer_at a ≡ some c → c.state.notify.closed ≡ false

-- A step that leaves the map of names, and changes the state of one peer but its notifications.
pub state-IsTidy :
    (w : World) (a : ℕ) (c : Cell) (s : PeerState)
    → IsTidy w
    → w.peer_at a ≡ some c
    → s.notify.closed ≡ c.state.notify.closed
    → IsTidy (set_peer w a (record c { state = s }))
state-IsTidy w a c s t at same = record {
  names_unique = t.names_unique;
  notify_open = λ b d e. elim (Bool-cases (a == b)) [
    | inl hit ↦ ground (arith, hit, e, t.notify_open a c at, same)
    | inr miss ↦ t.notify_open b d (ground (arith, miss, e))
  ];
}

IsTidy-renamed : (w w' : World) → IsTidy w → IsUnique w'.rooms → w'.peer_at ≡ w.peer_at → IsTidy w'
IsTidy-renamed w w' t names peers = record {
  names_unique = names;
  notify_open = λ a c e. t.notify_open a c (sym (ap (λ (f : ℕ → Option Cell). f a) peers) ∙ e);
}

IsTidy-same : (w w' : World) → IsTidy w → w'.rooms ≡ w.rooms → w'.peer_at ≡ w.peer_at → IsTidy w'
IsTidy-same w w' t names peers =
    IsTidy-renamed w w' t (subst IsUnique (sym names) t.names_unique) peers

created-IsTidy :
    (name : Bytes) (now : ℕ) (w w' : World) (res : Result Error ℕ)
    → IsTidy w
    → get_or_create_room name now w ≡ (res, w')
    → IsTidy w'
unfolding get_or_create_room create_room allocate_room_index
created-IsTidy name now w w' res t e = elim (Option-cases (lookup name w.rooms)) [
  | inr (a, known) ↦ IsTidy-same w w' t (ground (arith, known, e)) (ground (arith, known, e))
  | inl new ↦ elim (Result-cases (get_or_create_room name now w).0) [
    | inr (x, failed) ↦
        IsTidy-same w w' t (ground (arith, new, failed, e)) (ground (arith, new, failed, e))
    | inl (a, made) ↦
        let names : w'.rooms ≡ insert name w.next_address w.rooms = ground (arith, new, made, e) in
        let peers : w'.peer_at ≡ w.peer_at = ground (arith, new, made, e) in
        IsTidy-renamed w w' t
          (subst IsUnique (sym names) (insert-IsUnique name w.next_address w.rooms t.names_unique))
          peers
  ]
]

added-IsTidy :
    (a : ℕ) (opt : JoinOptions) (rand : Entropy) (now : ℕ) (w w' : World) (res : Result Error Peer)
    → IsTidy w
    → room_add_peer a opt rand now w ≡ some (res, w')
    → IsTidy w'
unfolding room_add_peer new_state
added-IsTidy a opt rand now w w' res t e = record {
  names_unique = subst IsUnique (ground (arith, e)) t.names_unique;
  notify_open = λ b c h. ground (arith, e, h, t.notify_open b c);
}

close_peer-IsTidy :
    (p : Peer) (w w' : World) → IsTidy w → IsHandle w p → close_peer p w ≡ some w' → IsTidy w'
unfolding close_peer close_frames
close_peer-IsTidy p w w' t h e =
    let after : set_peer w p.address (record (h.cell) { state = close_frames (h.cell.state) })
        ≡ w' =
      ground (arith, h.found) in
    subst IsTidy after
      (state-IsTidy w p.address h.cell (close_frames (h.cell.state)) t h.found (ground arith))

enqueue_to-IsTidy :
    (p : Peer) (frame : Bytes) (sent : Bool) (w w' : World)
    → IsTidy w
    → IsHandle w p
    → enqueue_to p frame w ≡ some (sent, w')
    → IsTidy w'
unfolding enqueue_to
enqueue_to-IsTidy p frame sent w w' t h e = elim (Option-cases (enqueue h.cell.state frame)) [
  | inl n ↦ absurd (ground (arith, h.found, n, e))
  | inr ((s, x), put) ↦
      let after : set_peer w p.address (record (h.cell) { state = s }) ≡ w' =
        ground (arith, h.found, put, e) in
      subst IsTidy after
        (state-IsTidy w p.address h.cell s t h.found (unfold enqueue in ground (arith, put)))
]

swept-IsTidy : (a : ℕ) (w w' : World) → IsTidy w → delete_empty_room a w ≡ some w' → IsTidy w'
unfolding delete_empty_room
swept-IsTidy a w w' t e = elim (Option-cases (w.room_at a)) [
  | inl n ↦ absurd (ground (arith, n, e))
  | inr (r, at) ↦
      elim (Bool-cases (not (is_pointer a (lookup r.name w.rooms)) || not (length r.peers == 0))) [
        | inl kept ↦ IsTidy-same w w' t (ground (arith, at, kept, e)) (ground (arith, at, kept, e))
        | inr gone ↦
            let names : w'.rooms ≡ delete r.name w.rooms = ground (arith, at, gone, e) in
            let peers : w'.peer_at ≡ w.peer_at = ground (arith, at, gone, e) in
            IsTidy-renamed w w' t
              (subst IsUnique (sym names) (delete-IsUnique r.name w.rooms t.names_unique)) peers
      ]
]

try_send_closed :
    (c c' : Channel) (msg : Bytes) (sent : Bool)
    → try_send c msg ≡ some (c', sent)
    → c'.closed ≡ c.closed
unfolding try_send
try_send_closed c c' msg sent e = ground (arith, e)

-- Every step keeps the names apart and the notifications open.
pub Step-IsTidy : {w w' : World} → Step w w' → IsTidy w → IsTidy w'
Step-IsTidy {w} {w'} (create name now {res} e) t = created-IsTidy name now w w' res t e
Step-IsTidy {w} {w'} (add a opt rand now {res} at e) t = added-IsTidy a opt rand now w w' res t e
Step-IsTidy {w} {w'} (leave a {p} {found} h e) t =
    IsTidy-same w w' t (unfold detach_peer in ground (arith, e))
      (unfold detach_peer in ground (arith, e))
Step-IsTidy {w} {w'} (close {r} {p} h at gone e) t = close_peer-IsTidy p w w' t h e
Step-IsTidy {w} {w'} (sweep a e) t = swept-IsTidy a w w' t e
Step-IsTidy {w} {w'} (send a {p} frame {res} h e) t =
    IsTidy-same w w' t (unfold forward_in in ground (arith, e))
      (unfold forward_in in ground (arith, e))
Step-IsTidy {w} {w'} (deliver {p} frame {sent} h e) t = enqueue_to-IsTidy p frame sent w w' t h e
Step-IsTidy {w} {w'} (announce {p} msg {sent} h e) t =
    let (ch, put, after) = notify_peer_cases p msg sent w w' h.cell h.found e in
    subst IsTidy (sym after) (
      state-IsTidy w p.address h.cell (record (h.cell.state) { notify = ch }) t h.found
        (try_send_closed h.cell.state.notify ch msg sent put))
Step-IsTidy {w} (allow p {c} now size at) t =
    state-IsTidy w p.address c (allow_frame now size c.state).0 t at
      (unfold allow_frame in ground arith)
Step-IsTidy {w} (received p {c} size at) t =
    state-IsTidy w p.address c (record_rx_frame size c.state) t at (unfold record_rx_frame in refl)
Step-IsTidy {w} (dropped p {c} size at) t =
    state-IsTidy w p.address c (record_drop_frame size c.state) t at
      (unfold record_drop_frame in refl)
Step-IsTidy {w} (take_frame p {c} {frame} {rest} at _) t =
    state-IsTidy w p.address c
      (record (c.state) { frames = record (c.state.frames) { buffer = rest } }) t at refl
Step-IsTidy {w} (take_notice p {c} {msg} {rest} at _) t =
    state-IsTidy w p.address c
      (record (c.state) { notify = record (c.state.notify) { buffer = rest } }) t at refl

-- After any run a name stands once in the manager's map, and no Notify channel is closed.
pub Reach-IsTidy : {w w' : World} → IsTidy w → Reach w w' → IsTidy w'
Reach-IsTidy t here = t
Reach-IsTidy t (next r s) = Step-IsTidy s (Reach-IsTidy t r)

pub new_manager-IsTidy : (pool : Prefix) → IsTidy (new_manager pool)
unfolding new_manager
new_manager-IsTidy pool = record { names_unique = tt; notify_open = λ a c e. cc }
