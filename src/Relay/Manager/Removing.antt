-- ===== src/Relay/Manager/Removing.antt =====
-- RemovePeer as a whole, while no other goroutine runs between its sections.
use anylan.Base.{
  ℕ, ◌+◌, ◌*◌, ◌≡◌, refl, sym, ap, ◌∙◌, Option, true, false, [], ◌∷◌, ◌++◌, some, arith, length,
  ◌==◌, Bool-cases, inl, inr,
}
use anylan.Base.Bytes.{bytes_eq_refl}
use anylan.Base.Dictionary.{lookup, delete}
use anylan.Base.Sorting.{sort_by}
use anylan.Relay.Peer.{Peer, close_frames}
use anylan.Relay.Room.{Room, is_current, detach}
use anylan.Relay.Room.Leaving.{detach_frees, detach_same}
use anylan.Relay.Manager.{
  World, Cell, set_room, set_peer, update, detach_peer, close_peer, delete_empty_room, remove_peer,
  gtb,
}
use anylan.Relay.Manager.Invariant.{WorldFits}
use anylan.Relay.Manager.Leaving.{IsHandle, handle-IsGenuine, detach_peer-WorldFits}
use anylan.Relay.Manager.Closing.{close_peer-WorldFits}
use anylan.Relay.Manager.Steps.{Reach, here, next, leave, close, sweep}
use anylan.Relay.Manager.Deleting.{delete_empty_room-WorldFits}

-- A room with a peer is open.
open_with_peer :
    (base : ℕ) (w : World) (a : ℕ) (r : Room) (p : Peer)
    → WorldFits base w
    → w.room_at a ≡ some r
    → is_current r p ≡ true
    → r.closed ≡ false
unfolding is_current lookup
open_with_peer base w a r p f at present = elim (Bool-cases r.closed) [
  | inr live ↦ live
  | inl shut ↦ absurd (ground (arith, (f.room a r at).closed_empty shut, present))
]

detach_found : (r : Room) (p : Peer) → is_current r p ≡ true → (detach r p).0 ≡ true
unfolding detach
detach_found r p h = ground (arith, h)

-- The sweep of a room that is open and empty.
swept :
    (base : ℕ) (w : World) (a : ℕ) (r : Room)
    → WorldFits base w
    → w.room_at a ≡ some r
    → r.closed ≡ false
    → length r.peers ≡ 0
    → (w' : World) × (delete_empty_room a w ≡ some w')
      × (w'.room_at a ≡ some (record r { closed = true }))
      × WorldFits base w'
      × (w'.peer_at ≡ w.peer_at)
unfolding delete_empty_room
swept base w a r f at live none_left =
    let listed = (f.room a r at).listed live in
    let w' : World = record w {
      room_at = update w.room_at a (record r { closed = true });
      rooms = delete r.name w.rooms;
      free_room = sort_by gtb (w.free_room ++ r.index ∷ []);
    } in
    let e : delete_empty_room a w ≡ some w' = ground (arith, at, listed, none_left) in
    (w', e, ground arith, delete_empty_room-WorldFits base w w' a f e, refl)

-- A run of RemovePeer on the heap `w`, the room and the peer `p`: it is made of steps, leaves the
-- state of other peers, and takes nobody else out of the room.
pub record Removed (base : ℕ) (w : World) (r : Room) (p : Peer) (w' : World) (r' : Room)
    : Type 0 where
  pub runs : remove_peer p.room p w ≡ some w'
  pub steps : Reach w w'
  pub fits : WorldFits base w'
  pub at_room : w'.room_at p.room ≡ some r'
  pub away : is_current r' p ≡ false
  pub closed_empty : r'.closed ≡ (length r'.peers == 0)
  pub others : (b : ℕ) → p.address == b ≡ false → w'.peer_at b ≡ w.peer_at b
  pub peers : r'.peers ≡ (detach r p).1.peers

pub remove_peer-Removed :
    (base : ℕ) (w : World) (r : Room) (p : Peer)
    → WorldFits base w
    → IsHandle w p
    → w.room_at p.room ≡ some r
    → is_current r p ≡ true
    → (w' : World) × (r' : Room) × Removed base w r p w' r'
unfolding remove_peer is_current
remove_peer-Removed base w r p f h at present =
    let a = p.room in
    let g = f.room a r at in
    let start = base + r.index * 256 in
    let genuine = handle-IsGenuine base w a r p g h in
    let live = open_with_peer base w a r p f at present in
    let (sa, sm, si, sn, sc) = detach_same start r p g.consistent genuine in
    let (gone, _, _) = detach_frees start r p p.id [] g.consistent genuine present in
    let r1 = (detach r p).1 in
    let away : is_current r1 p ≡ false = ground (arith, gone, bytes_eq_refl p.id) in
    let w1 = set_room w a r1 in
    let out : detach_peer a p w ≡ some (true, w1) =
      unfold detach_peer in ground (arith, at, detach_found r p present) in
    let f1 = detach_peer-WorldFits base w w1 a p true f h out in
    let at1 : w1.room_at a ≡ some r1 = ground arith in
    let h1 : IsHandle w1 p = record { cell = h.cell; found = h.found; same = h.same } in
    let w2 = set_peer w1 p.address (record (h.cell) { state = close_frames (h.cell.state) }) in
    let shut : close_peer p w1 ≡ some w2 = unfold close_peer in ground (arith, h.found) in
    let f2 = close_peer-WorldFits base w1 w2 r1 p f1 h1 at1 away shut in
    let left : Reach w w2 = next (next here (leave a h out)) (close h1 at1 away shut) in
    let managed = (f1.room a r1 at1).managed in
    elim (Bool-cases (length r1.peers == 0)) [
      | inr some_left ↦ (
        w2,
        r1,
        record {
          runs = ground (arith, out, shut, at1, some_left);
          steps = left;
          fits = f2;
          at_room = at1;
          away = away;
          closed_empty = sc ∙ live ∙ sym some_left;
          others = λ b other. ground (arith, other);
          peers = refl;
        },
      )
      | inl none_left ↦
          let (w3, e, at3, f3, same) =
            swept base w2 a r1 f2 at1 (sc ∙ live) (ground (arith, none_left)) in
          (
            w3,
            record r1 { closed = true },
            record {
              runs = ground (arith, out, shut, at1, none_left, managed, e);
              steps = next left (sweep a e);
              fits = f3;
              at_room = at3;
              away = away;
              closed_empty = sym none_left;
              others = λ b other. ap (λ (x : ℕ → Option Cell). x b) same ∙ ground (arith, other);
              peers = refl;
            },
          )
    ]

-- RemovePeer of a peer that is in its room does not panic and keeps the invariant. The peer is not
-- in the room afterwards, and the room is closed exactly when nobody is left in it.
pub remove_peer_total :
    (base : ℕ) (w : World) (r : Room) (p : Peer)
    → WorldFits base w
    → IsHandle w p
    → w.room_at p.room ≡ some r
    → is_current r p ≡ true
    → (w' : World) × (r' : Room) × (remove_peer p.room p w ≡ some w')
      × WorldFits base w'
      × (w'.room_at p.room ≡ some r')
      × (is_current r' p ≡ false)
      × (r'.closed ≡ (length r'.peers == 0))
remove_peer_total base w r p f h at present =
    let (w', r', d) = remove_peer-Removed base w r p f h at present in
    (w', r', d.runs, d.fits, d.at_room, d.away, d.closed_empty)
