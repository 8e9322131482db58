-- ===== src/Control/Data.antt =====
-- internal/control/handler.go:246-260: what the handler does with one frame that it read from the
-- data stream of a peer, with no other goroutine in between. `none` is a panic.
pub mod Relaying
pub mod Delivering
use anylan.Base.{ℕ, Bool, true, false, List, [], ◌∷◌, Option, some, length, Result, ok, err}
use anylan.Base.Bytes.{Bytes, text}
use anylan.Base.Slices.{◌>>=◌}
use anylan.Capture.{Metadata, Recorder}
use anylan.Capture.Ring.{record_frame}
use anylan.Relay.Error.{Error}
use anylan.Relay.Peer.{Peer, PeerState, allow_frame, record_drop_frame, record_rx_frame}
use anylan.Relay.Manager.{World, set_peer, forward_in, enqueue_to}

-- A change of the counters of the peer.
unfoldable pub count_at : Peer → (PeerState → PeerState) → World → Option World
count_at p f w = do
  c ← w.peer_at p.address
  some (set_peer w p.address (record c { state = f c.state }))

-- `peer.AllowFrame(len(payload))`
unfoldable pub admit : Peer → ℕ → ℕ → World → Option (Bool × World)
admit p now size w = do
  c ← w.peer_at p.address
  let (s, allowed) = allow_frame now size c.state
  some (allowed, set_peer w p.address (record c { state = s }))

-- `for _, target := range targets { target.Enqueue(payload) }`
unfoldable pub deliver_all : List Peer → Bytes → World → Option World
deliver_all [] payload w = some w
deliver_all (t ∷ targets) payload w = do
  (sent, w') ← enqueue_to t payload w
  deliver_all targets payload w'

-- The targets of the frame, or one more frame that is dropped.
abbrev pass_targets : Peer → Bytes → Result Error (List Peer) × World → Option World
pass_targets p payload (err e, w) = count_at p (record_drop_frame (length payload)) w
pass_targets p payload (ok targets, w) = deliver_all targets payload w

-- The frame after `AllowFrame`.
unfoldable pub relay_allowed : Peer → Bytes → Bool × World → Option World
relay_allowed p payload (false, w) = count_at p (record_drop_frame (length payload)) w
relay_allowed p payload (true, w) = do
  w' ← count_at p (record_rx_frame (length payload)) w
  forwarded ← forward_in p.room p payload w'
  pass_targets p payload forwarded

unfoldable pub relay_frame :
    (Bytes → Bytes) → Peer → Bytes → ℕ → Option Recorder × World → Option (Option Recorder × World)
relay_frame ip_string p payload now (captures, w) = do
  room ← w.room_at p.room
  let meta : Metadata = record {
    direction = text "ingress";
    room = room.name;
    peer_id = p.id;
    peer_name = p.display_name;
  }
  captures' ← record_frame ip_string captures meta payload now
  allowed ← admit p now (length payload) w
  w' ← relay_allowed p payload allowed
  some (captures', w')
