-- ===== src/Control/Streams.antt =====
-- internal/control/handler.go:162-245: one turn of each goroutine of a session around its data
-- loop. A turn gives the error with which its goroutine ends, if it does; `none` is a panic.
pub mod Turns
use anylan.Base.{List, ◌∷◌, Option, none, some, length, ◌==◌, if◌then◌else◌, Result, ok, err, []}
use anylan.Base.Slices.{◌>>=◌}
use anylan.Base.Bytes.{Bytes}
use anylan.Protocol.{
  Writer, Error, eof, MessageType, write_message, type_ping, type_pong, type_ethernet_frame,
}
use anylan.Protocol.Json.{Codec}
use anylan.Protocol.Messages.{PeerPing, PeerPong}
use anylan.Relay.Peer.{Peer}
use anylan.Relay.Manager.{World, Cell, set_peer}
use anylan.Control.Probes.{Outgoing, forward_peer_ping, forward_peer_pong, send_outgoing}

-- `if errors.Is(err, io.EOF) { return nil }; return err`
unfoldable pub session_error : Error → Option Error
session_error eof = none
session_error e = some e

abbrev pub with_frames : Cell → List Bytes → Cell
with_frames x rest = record x {
  state = record (x.state) { frames = record (x.state.frames) { buffer = rest } };
}

abbrev pub with_notify : Cell → List Bytes → Cell
with_notify x rest = record x {
  state = record (x.state) { notify = record (x.state.notify) { buffer = rest } };
}

module _ {W : Type 0} ⦃s : Writer W⦄ where
  abbrev pub pass_probe :
      Peer → W → World → Result Error Outgoing → Option (Option Error × W × World)
  pass_probe p c w (err e) = some (some e, c, w)
  pass_probe p c w (ok out) = do
    r ← w.room_at p.room
    (sent, w') ← send_outgoing r out w
    some (none, c, w')

  abbrev pub pong : W → World → Option (Option Error × W × World)
  pong c w = let (c', failed) = write_message c type_pong [] in some (failed, c', w)

  -- A message of the control stream.
  unfoldable pub control_turn :
      Codec PeerPing
      → Codec PeerPong
      → Peer
      → MessageType
      → Bytes
      → W
      → World
      → Option (Option Error × W × World)
  control_turn pings pongs p typ payload c w =
      if typ == type_ping
      then if length payload == 0
        then pong c w
        else pass_probe p c w (forward_peer_ping pings p payload)
      else if typ == type_pong
      then pass_probe p c w (forward_peer_pong pongs p payload)
      else some (none, c, w)

  abbrev pub write_frame : Peer → W → World → Cell → List Bytes → Option (Option Error × W × World)
  write_frame p d w x [] = some (none, d, w)
  write_frame p d w x (frame ∷ rest) =
      let (d', failed) = write_message d type_ethernet_frame frame in
      some (failed, d', set_peer w p.address (with_frames x rest))

  -- `for frame := range peer.Frames`: the next frame, or nothing while the queue is empty.
  unfoldable pub frames_turn : Peer → W → World → Option (Option Error × W × World)
  frames_turn p d w = do x ← w.peer_at p.address; write_frame p d w x x.state.frames.buffer

  abbrev pub write_notice : Peer → W → World → Cell → List Bytes → Option (Option Error × W × World)
  write_notice p c w x [] = some (none, c, w)
  write_notice p c w x (msg ∷ rest) =
      let (c', failed) = s.write c msg in
      some (failed, c', set_peer w p.address (with_notify x rest))

  -- `msg, ok := <-peer.Notify`, and the write of the message as it is.
  unfoldable pub notify_turn : Peer → W → World → Option (Option Error × W × World)
  notify_turn p c w = do x ← w.peer_at p.address; write_notice p c w x x.state.notify.buffer
