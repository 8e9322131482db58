-- ===== src/Relay/Manager.antt =====
-- The Manager of internal/relay/room.go, with the heap on which rooms and peers live. A pointer is
-- an address, a number that is given out once. Each function below is one critical section of the
-- program, or says that it is a sequence of them; `none` is a panic.
pub mod Invariant
pub mod Indices
pub mod Creating
pub mod Replacing
pub mod Joining
pub mod Leaving
pub mod Closing
pub mod Deleting
pub mod Removing
pub mod Sending
pub mod Steps
pub mod Tidy
pub mod Safety
pub mod Join
use anylan.Base.{
  ℕ, zero, suc, ◌+◌, ◌-◌, ◌*◌, ◌%◌, ◌^◌, Bool, true, false, not, ◌&&◌, ◌||◌, List, [], ◌∷◌, ◌++◌,
  Option, none, some, length, ltb, leb, ◌==◌, if◌then◌else◌, Result, ok, err,
}
use anylan.Base.Bytes.{Bytes}
use anylan.Base.Dictionary.{Dictionary, lookup, insert, delete}
use anylan.Base.Sorting.{sort_by}
use anylan.Relay.Error.{
  Error, room_full, room_closed, pool_full, mac_in_use, mac_invalid, invalid_frame,
  source_mac_invalid, rand_failure, not_ipv4,
}
use anylan.Relay.Address.{Prefix, ipv4_to_uint32, uint32_to_ipv4}
use anylan.Relay.Mac.{Entropy}
use anylan.Relay.Peer.{Peer, PeerState, new_state, close_frames, enqueue, try_send}
use anylan.Relay.Room.{Room, JoinOptions, first_usable_host, add_peer, detach, forward}

-- A Peer on the heap.
pub record Cell : Type 0 where
  pub info : Peer
  pub state : PeerState

-- `rooms` holds pointers. `next_room` is a uint32, as are the indices.
pub record World : Type 0 where
  pub pool : Prefix
  pub rooms : Dictionary ℕ
  pub next_room : ℕ
  pub free_room : List ℕ
  pub room_at : ℕ → Option Room
  pub peer_at : ℕ → Option Cell
  pub next_address : ℕ

abbrev pub update {ℓ} : {A : Type ℓ} → (ℕ → Option A) → ℕ → A → ℕ → Option A
update f a v b = if a == b then some v else f b

abbrev pub set_room : World → ℕ → Room → World
set_room w a r = record w { room_at = update w.room_at a r }

abbrev pub set_peer : World → ℕ → Cell → World
set_peer w a c = record w { peer_at = update w.peer_at a c }

unfoldable pub new_manager : Prefix → World
new_manager pool = record {
  pool = pool;
  rooms = [];
  next_room = 0;
  free_room = [];
  room_at = λ a. none;
  peer_at = λ a. none;
  next_address = 0;
}

-- `uint32(1) << uint32(24-bits)`: with more than 24 bits the count wraps, and the shift gives 0.
unfoldable pub max_rooms : ℕ → ℕ
max_rooms bits = if leb bits 24 then 2 ^ (24 - bits) % 2 ^ 32 else 0

-- `m.freeRoom[:n-1]` and `m.freeRoom[n-1]`.
unfoldable pub split_last : ℕ → List ℕ → List ℕ × ℕ
split_last x [] = ([], x)
split_last x (y ∷ ys) = let (front, last) = split_last y ys in (x ∷ front, last)

unfoldable pub allocate_room_index : World → Result Error ℕ × World
allocate_room_index w = elim w.free_room [
  | x ∷ xs ↦ let (front, last) = split_last x xs in (ok last, record w { free_room = front })
  | [] ↦
      if leb (max_rooms w.pool.bits) w.next_room
      then (err pool_full, w)
      else (ok w.next_room, record w { next_room = (w.next_room + 1) % 2 ^ 32 })
]

-- `uint32ToIPv4(base + (roomIndex << 8))`, in uint32.
abbrev pub room_base : ℕ → ℕ → ℕ
room_base base index = (base + index * 2 ^ 8 % 2 ^ 32) % 2 ^ 32

abbrev pub new_room : ℕ → ℕ → ℕ → Bytes → ℕ → Room
new_room address base index name now = record {
  address = address;
  managed = true;
  index = index;
  name = name;
  prefix = record { addr = uint32_to_ipv4 (room_base base index); bits = 24 };
  created_at = now;
  peers = [];
  mac_to_peer = [];
  next_host = first_usable_host;
  free_hosts = [];
  closed = false;
}

unfoldable pub create_room : Bytes → ℕ → Result Error ℕ × World → Result Error ℕ × World
create_room name now (err e, w) = (err e, w)
create_room name now (ok index, w) = elim (ipv4_to_uint32 w.pool.addr) [
  | err e ↦ (err e, w)
  | ok base ↦ (
    ok w.next_address,
    record w {
      rooms = insert name w.next_address w.rooms;
      room_at = update w.room_at w.next_address (new_room w.next_address base index name now);
      next_address = w.next_address + 1;
    },
  )
]

unfoldable pub get_or_create_room : Bytes → ℕ → World → Result Error ℕ × World
get_or_create_room name now w = elim (lookup name w.rooms) [
  | some a ↦ (ok a, w)
  | none ↦ create_room name now (allocate_room_index w)
]

-- `room.AddPeer(opt)`: the new Peer gets the next address.
abbrev pub store_peer : World → ℕ → Result Error Peer × Room → Result Error Peer × World
store_peer w a (err e, r) = (err e, set_room w a r)
store_peer w a (ok p, r) = (
  ok p,
  record w {
    room_at = update w.room_at a r;
    peer_at = update w.peer_at w.next_address (record { info = p; state = new_state });
    next_address = w.next_address + 1;
  },
)

unfoldable pub room_add_peer :
    ℕ → JoinOptions → Entropy → ℕ → World → Option (Result Error Peer × World)
room_add_peer a opt rand now w = elim (w.room_at a) [
  | none ↦ none
  | some r ↦ some (store_peer w a (add_peer r w.next_address opt rand now))
]

-- The end of a loop of the program: it returned, it panicked, or the fuel of the model ran out.
pub data Run {ℓ} (A : Type ℓ) : Type ℓ where
  returns : A → Run A
  panics : Run A
  runs_on : Run A

-- `errors.Is(err, ErrRoomClosed)`
abbrev pub is_room_closed : Error → Bool
is_room_closed room_closed = true
is_room_closed e = false

abbrev join_again :
    Run (Result Error Peer × World)
    → Option (Result Error Peer × World)
    → Run (Result Error Peer × World)
join_again more none = panics
join_again more (some (ok p, w)) = returns (ok p, w)
join_again more (some (err e, w)) = if is_room_closed e then more else returns (err e, w)

-- The loop of `Join`, while no other goroutine runs. A closed room is met before anything is drawn,
-- so one `rand` serves all rounds.
unfoldable pub join :
    ℕ → Bytes → JoinOptions → Entropy → ℕ → World → Run (Result Error Peer × World)
join zero name opt rand now w = runs_on
join (suc fuel) name opt rand now w =
    let (room, w') = get_or_create_room name now w in
    let more = join fuel name opt rand now w' in
    elim room [
      | err e ↦ returns (err e, w')
      | ok a ↦ join_again more (room_add_peer a opt rand now w')
    ]

-- Descending, so that the lowest index is handed out first.
abbrev pub gtb : ℕ → ℕ → Bool
gtb a b = ltb b a

-- Is this the pointer that a look-up gave?
abbrev pub is_pointer : ℕ → Option ℕ → Bool
is_pointer a none = false
is_pointer a (some b) = b == a

unfoldable pub delete_empty_room : ℕ → World → Option World
delete_empty_room a w = elim (w.room_at a) [
  | none ↦ none
  | some r ↦
      if not (is_pointer a (lookup r.name w.rooms)) || not (length r.peers == 0)
      then some w
      else some (record w {
        room_at = update w.room_at a (record r { closed = true });
        rooms = delete r.name w.rooms;
        free_room = sort_by gtb (w.free_room ++ r.index ∷ []);
      })
]

-- The critical section of `RemovePeer` on the room at `a`.
unfoldable pub detach_peer : ℕ → Peer → World → Option (Bool × World)
detach_peer a p w = elim (w.room_at a) [
  | none ↦ none
  | some r ↦ let (found, r') = detach r p in some (found, set_room w a r')
]

-- `peer.closeFrames()`
unfoldable pub close_peer : Peer → World → Option World
close_peer p w = elim (w.peer_at p.address) [
  | none ↦ none
  | some c ↦ some (set_peer w p.address (record c { state = close_frames c.state }))
]

-- `len(r.peers) == 0` and `manager != nil`, as `RemovePeer` read them in its critical section.
abbrev pub is_deserted : ℕ → World → Bool
is_deserted a w = elim (w.room_at a) [ none ↦ false | some r ↦ (length r.peers == 0) && r.managed ]

-- `RemovePeer`, its three sections in a row.
unfoldable pub remove_peer : ℕ → Peer → World → Option World
remove_peer a p w = elim (detach_peer a p w) [
  | none ↦ none
  | some (false, w') ↦ some w'
  | some (true, w') ↦ elim (close_peer p w') [
    | none ↦ none
    | some w'' ↦ if is_deserted a w' then delete_empty_room a w'' else some w''
  ]
]

-- `peer.Room.Forward(peer, frame)`
unfoldable pub forward_in : ℕ → Peer → Bytes → World → Option (Result Error (List Peer) × World)
forward_in a p frame w = elim (w.room_at a) [
  | none ↦ none
  | some r ↦ elim (forward r p frame) [ none ↦ none | some (res, r') ↦ some (res, set_room w a r') ]
]

-- `target.Enqueue(frame)`
unfoldable pub enqueue_to : Peer → Bytes → World → Option (Bool × World)
enqueue_to p frame w = elim (w.peer_at p.address) [
  | none ↦ none
  | some c ↦ elim (enqueue c.state frame) [
    | none ↦ none
    | some (s, sent) ↦ some (sent, set_peer w p.address (record c { state = s }))
  ]
]
