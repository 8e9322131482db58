-- ===== src/Relay/Peer.antt =====
-- The Peer of internal/relay/room.go, in two parts. `Peer` holds the fields that are never assigned
-- after `AddPeer` built it, with the address by which Go's pointers to it are compared; `PeerState`
-- holds what changes: the two channels, the counters and the window of the frame rate.
pub mod Queue
pub mod Rate
use anylan.Base.{
  ℕ, ◌+◌, ◌-◌, ◌*◌, ◌%◌, ◌^◌, Bool, true, false, ◌||◌, List, [], ◌∷◌, ◌++◌, Option, none, some,
  length, ltb, leb, ◌==◌, if◌then◌else◌,
}
use anylan.Base.Bytes.{Bytes}
use anylan.Relay.Address.{Addr}

pub record Peer : Type 0 where
  pub address : ℕ
  pub id : Bytes
  pub display_name : Bytes
  pub features : List Bytes
  pub room : ℕ
  pub ip : Addr
  pub mac : Bytes
  pub connected_at : ℕ

-- Equality of pointers.
abbrev pub same_peer : Peer → Peer → Bool
same_peer p q = p.address == q.address

-- A buffered channel of byte slices, oldest first.
pub record Channel : Type 0 where
  pub buffer : List Bytes
  pub capacity : ℕ
  pub closed : Bool

-- `select { case c <- msg: true; default: false }`. `none` is a panic: Go panics on a send to a
-- closed channel, also under select.
unfoldable pub try_send : Channel → Bytes → Option (Channel × Bool)
try_send c msg =
    if c.closed
    then none
    else if ltb (length c.buffer) c.capacity
    then some (record c { buffer = c.buffer ++ msg ∷ [] }, true)
    else some (c, false)

-- Times count nanoseconds from Go's zero time, which is 0. `window_frames` and `window_bytes` are
-- Go ints of 64 bits, which the limits keep far from wrapping.
pub record PeerState : Type 0 where
  pub frames : Channel
  pub notify : Channel
  pub closing : Bool
  pub rx_bytes : ℕ
  pub rx_frames : ℕ
  pub tx_bytes : ℕ
  pub tx_frames : ℕ
  pub drop_bytes : ℕ
  pub drop_frames : ℕ
  pub window_start : ℕ
  pub window_frames : ℕ
  pub window_bytes : ℕ

abbrev pub frame_rate_window : ℕ
frame_rate_window = 1_000_000_000

abbrev pub max_peer_frames : ℕ
max_peer_frames = 5000

abbrev pub max_peer_bytes : ℕ
max_peer_bytes = 20 * 1024 * 1024

abbrev open_channel : ℕ → Channel
open_channel n = record { buffer = []; capacity = n; closed = false }

-- The mutable fields as `AddPeer` sets them.
unfoldable pub new_state : PeerState
new_state = record {
  frames = open_channel 128;
  notify = open_channel 16;
  closing = false;
  rx_bytes = 0;
  rx_frames = 0;
  tx_bytes = 0;
  tx_frames = 0;
  drop_bytes = 0;
  drop_frames = 0;
  window_start = 0;
  window_frames = 0;
  window_bytes = 0;
}

-- `atomic.Uint64.Add`
abbrev pub add64 : ℕ → ℕ → ℕ
add64 a b = (a + b) % 2 ^ 64

unfoldable pub record_rx_frame : ℕ → PeerState → PeerState
record_rx_frame size s = record s {
  rx_frames = add64 s.rx_frames 1;
  rx_bytes = add64 s.rx_bytes size;
}

unfoldable pub record_tx_frame : ℕ → PeerState → PeerState
record_tx_frame size s = record s {
  tx_frames = add64 s.tx_frames 1;
  tx_bytes = add64 s.tx_bytes size;
}

unfoldable pub record_drop_frame : ℕ → PeerState → PeerState
record_drop_frame size s = record s {
  drop_frames = add64 s.drop_frames 1;
  drop_bytes = add64 s.drop_bytes size;
}

-- What `Enqueue` does after the send.
abbrev count_sent : PeerState → ℕ → Option (Channel × Bool) → Option (PeerState × Bool)
count_sent s size none = none
count_sent s size (some (c, true)) = some (record_tx_frame size (record s { frames = c }), true)
count_sent s size (some (c, false)) = some (record_drop_frame size (record s { frames = c }), false)

unfoldable pub enqueue : PeerState → Bytes → Option (PeerState × Bool)
unfolding try_send record_tx_frame record_drop_frame
enqueue s frame = count_sent s (length frame) (try_send s.frames frame)

-- The reset at the head of `AllowFrame`: `now.Sub(windowStart)` below 0 starts no window.
abbrev pub open_window : ℕ → PeerState → PeerState
open_window now s =
    if (s.window_start == 0) || leb frame_rate_window (now - s.window_start)
    then record s { window_start = now; window_frames = 0; window_bytes = 0 }
    else s

abbrev count_frame : ℕ → PeerState → PeerState × Bool
count_frame size s =
    if ltb max_peer_frames (s.window_frames + 1) || ltb max_peer_bytes (s.window_bytes + size)
    then (s, false)
    else (
      record s { window_frames = s.window_frames + 1; window_bytes = s.window_bytes + size },
      true,
    )

unfoldable pub allow_frame : ℕ → ℕ → PeerState → PeerState × Bool
allow_frame now size s = count_frame size (open_window now s)

-- `p.closing.Do(func() { close(p.Frames) })`
unfoldable pub close_frames : PeerState → PeerState
close_frames s =
    if s.closing
    then s
    else record s { closing = true; frames = record (s.frames) { closed = true } }
