-- ===== src/Relay/Peer/Queue.antt =====
-- The queue of frames to a peer: bounded, first in first out, with every frame counted once.
use anylan.Base.{
  ℕ, ◌≤◌, ◌<◌, ◌≡◌, refl, Bool, true, false, ◌⊎◌, [], ◌∷◌, ◌++◌, none, some, arith, length,
  length-append,
}
use anylan.Base.Bytes.{Bytes}
use anylan.Relay.Peer.{PeerState, enqueue, close_frames, new_state, allow_frame, add64}

-- A queue is open exactly until `closeFrames`, and never longer than its capacity.
pub record IsWellFormed (s : PeerState) : Type 0 where
  pub once : s.frames.closed ≡ s.closing
  pub frames_fit : length s.frames.buffer ≤ s.frames.capacity
  pub notify_fit : length s.notify.buffer ≤ s.notify.capacity
  pub notify_open : s.notify.closed ≡ false

pub new_state-IsWellFormed : IsWellFormed new_state
unfolding new_state
new_state-IsWellFormed = record {
  once = refl;
  frames_fit = omega arith;
  notify_fit = omega arith;
  notify_open = refl;
}

-- The three outcomes of a send.
abbrev pub Enqueued : PeerState → Bytes → Type 0
Enqueued s frame =
    ((s.frames.closed ≡ true) × (enqueue s frame ≡ none))
    ⊎ ((s.frames.closed ≡ false)
        × (length s.frames.buffer < s.frames.capacity)
        × (enqueue s frame
            ≡ some (
              record s {
                frames = record (s.frames) { buffer = s.frames.buffer ++ frame ∷ [] };
                tx_frames = add64 s.tx_frames 1;
                tx_bytes = add64 s.tx_bytes (length frame);
              },
              true,
            )))
    ⊎ ((s.frames.closed ≡ false)
        × (s.frames.capacity ≤ length s.frames.buffer)
        × (enqueue s frame
            ≡ some (
              record s {
                drop_frames = add64 s.drop_frames 1;
                drop_bytes = add64 s.drop_bytes (length frame);
              },
              false,
            )))

-- On an open queue `enqueue` appends the frame and counts it as sent while there is room, and
-- otherwise keeps the queue and counts the frame as dropped; on a closed one it panics.
pub enqueue_cases : (s : PeerState) (frame : Bytes) → Enqueued s frame
unfolding enqueue
enqueue_cases s frame = ground arith

-- `enqueue`, `allow_frame` and `close_frames` keep the channels well formed.
pub enqueue-IsWellFormed :
    (s t : PeerState) (frame : Bytes) (sent : Bool)
    → enqueue s frame ≡ some (t, sent)
    → IsWellFormed s
    → IsWellFormed t
unfolding enqueue
enqueue-IsWellFormed s t frame sent e v = ground (arith, length-append s.frames.buffer (frame ∷ []))

pub close_frames-IsWellFormed : (s : PeerState) → IsWellFormed s → IsWellFormed (close_frames s)
unfolding close_frames
close_frames-IsWellFormed s v = ground arith

pub allow_frame-IsWellFormed :
    (now size : ℕ) (s : PeerState) → IsWellFormed s → IsWellFormed (allow_frame now size s).0
unfolding allow_frame
allow_frame-IsWellFormed now size s v = ground arith

-- Closing twice is closing once, and nothing can be sent after it.
pub enqueue-close_frames :
    (s : PeerState) (frame : Bytes)
    → IsWellFormed s
    → (close_frames (close_frames s) ≡ close_frames s) × (enqueue (close_frames s) frame ≡ none)
unfolding close_frames enqueue
enqueue-close_frames s frame v = ground arith
