-- ===== src/Capture/Ring.antt =====
-- internal/capture/recorder.go:89-110: what the ring of captured frames holds.
use anylan.Base.{
  ℕ, suc, ◌+◌, ◌%◌, ◌^◌, ◌≤◌, ◌<◌, ◌≡◌, refl, true, false, not, [], ◌∷◌, ◌++◌, Option, none, some,
  arith, length, leb, if◌then◌else◌, length-append, Bool-cases, inl, inr, drop, length-drop, ◌-◌,
}
use mathlib.Core.Path.{subst}
use anylan.Base.Bytes.{Bytes}
use anylan.Base.Slices.{
  ◌>>=◌, shift_in, IsCounted, IsCounted-append_one, IsCounted-drop, shift_in-drop,
}
use anylan.Base.Int.{ℤ, pos, negsuc}
use anylan.Capture.{Event, Metadata, Recorder, new_recorder, is_enabled}
use anylan.Capture.Frames.{parse_frame}
use anylan.Capture.Frames.Total.{parse_frame_total}

-- The event with the next number at the end of the ring. `none` is a panic.
unfoldable pub store_event : Recorder → Event → Option Recorder
store_event r e =
    let seq' = (r.next_seq + 1) % 2 ^ 64 in
    let event : Event = record e { seq = seq' } in
    if leb r.limit (length r.events)
    then (shift_in r.events event >>= λ events.
        some (record r { next_seq = seq'; events = events }))
    else some (record r { next_seq = seq'; events = r.events ++ event ∷ [] })

unfoldable pub described : Event → Metadata → ℕ → Event
described e meta now = record e {
  time = now;
  direction = meta.direction;
  room = meta.room;
  peer_id = meta.peer_id;
  peer_name = meta.peer_name;
}

-- `Record`, at the time `now`.
unfoldable pub record_frame :
    (Bytes → Bytes) → Option Recorder → Metadata → Bytes → ℕ → Option (Option Recorder)
record_frame ip_string none meta frame now = some none
record_frame ip_string (some r) meta frame now = if not r.enabled then some (some r) else do
  e ← parse_frame ip_string frame
  r' ← store_event r (described e meta now)
  some (some r')

-- A recorder that is off keeps nothing.
pub record_frame-is_enabled :
    (ip_string : Bytes → Bytes) (r : Option Recorder) (frame : Bytes) (now : ℕ) (m : Metadata)
    → is_enabled r ≡ false
    → record_frame ip_string r m frame now ≡ some r
unfolding record_frame is_enabled
record_frame-is_enabled ip_string none frame now m off = refl
record_frame-is_enabled ip_string (some r) frame now m off = ground (arith, off)

-- A recorder between two calls: at most `limit` events, with the last numbers that were given out.
pub record IsRing (r : Recorder) : Type 0 where
  pub positive : 0 < r.limit
  pub bounded : length r.events ≤ r.limit
  pub enough : length r.events ≤ r.next_seq
  pub counted : IsCounted (λ (e : Event). e.seq) (suc (r.next_seq - length r.events)) r.events

pub new_recorder-IsRing : (limit : ℤ) → IsRing (new_recorder limit)
unfolding new_recorder
new_recorder-IsRing (pos n) = record {
  positive = ground arith;
  bounded = omega arith;
  enough = omega arith;
  counted = tt;
}
new_recorder-IsRing (negsuc n) = record {
  positive = omega arith;
  bounded = omega arith;
  enough = omega arith;
  counted = tt;
}

-- The ring with the event at its end, and the oldest gone where there was no room.
abbrev pub after : Recorder → Event → Recorder
after r e = record r {
  next_seq = r.next_seq + 1;
  events =
      drop (suc (length r.events) - r.limit) (r.events ++ record e { seq = r.next_seq + 1 } ∷ []);
}

store_event-after :
    (r : Recorder) (e : Event)
    → IsRing r
    → r.next_seq + 1 < 2 ^ 64
    → store_event r e ≡ some (after r e)
unfolding store_event
store_event-after r e i h =
    let fits : (r.next_seq + 1) % 2 ^ 64 ≡ r.next_seq + 1 = omega (arith, h) in
    elim (Bool-cases (leb r.limit (length r.events))) [
      | inl full ↦
          let some_left : 0 < length r.events = ground (arith, full, i.positive) in
          let one : suc (length r.events) - r.limit ≡ 1 = ground (arith, full, i.bounded) in
          rw (fits, full, one, shift_in-drop r.events (record e { seq = r.next_seq + 1 }) some_left)
            refl
      | inr room ↦
          let nothing : suc (length r.events) - r.limit ≡ 0 = ground (arith, room) in
          rw (fits, room, nothing) refl
    ]

after-IsRing : (r : Recorder) (e : Event) → IsRing r → IsRing (after r e)
after-IsRing r e i =
    let event : Event = record e { seq = r.next_seq + 1 } in
    let k = suc (length r.events) - r.limit in
    let size = length-drop k (r.events ++ event ∷ []) in
    let whole = length-append r.events (event ∷ []) in
    record {
      positive = i.positive;
      bounded = omega (arith, size, whole);
      enough = omega (arith, size, whole, i.enough, i.positive);
      counted =
          subst (λ n. IsCounted (λ (e : Event). e.seq) n (after r e).events)
            (omega (arith, size, whole, i.enough, i.positive, i.bounded))
            (IsCounted-drop (λ (e : Event). e.seq) (suc (r.next_seq - length r.events)) k
              (r.events ++ event ∷ [])
              (IsCounted-append_one (λ (e : Event). e.seq) (suc (r.next_seq - length r.events))
                r.events event i.counted (omega (arith, i.enough))));
    }

-- `Record` on a ring that is enabled and has given out fewer than 2 ^ 64 - 1 numbers does not
-- panic. It leaves a ring again: the last `limit` of the events of before and of a new one,
-- numbered one after the other and last the new one, which describes the frame.
pub record_frame-IsRing :
    (ip_string : Bytes → Bytes) (r : Recorder) (meta : Metadata) (frame : Bytes) (now : ℕ)
    → IsRing r
    → r.enabled ≡ true
    → r.next_seq + 1 < 2 ^ 64
    → (e : Event) × (parse_frame ip_string frame ≡ some e)
      × (record_frame ip_string (some r) meta frame now
          ≡ some (some (after r (described e meta now))))
      × IsRing (after r (described e meta now))
unfolding record_frame
record_frame-IsRing ip_string r meta frame now i on h =
    let (e, returned, sized, _, whole) = parse_frame_total ip_string frame in
    let stored = store_event-after r (described e meta now) i h in
    (e, returned, ground (arith, on, returned, stored), after-IsRing r (described e meta now) i)
