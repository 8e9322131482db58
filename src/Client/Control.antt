-- ===== src/Client/Control.antt =====
-- internal/client/client.go:911-983 and 1124-1164: the control stream of a session: the lists of
-- peers, and the probes that measure the latency to them.
pub mod Steps
pub mod Probing
use anylan.Base.{
  ℕ, ◌≡◌, Bool, true, false, not, ◌||◌, [], Option, none, some, length, ◌==◌, if◌then◌else◌,
}
use anylan.Base.Bytes.{Bytes, bytes_eq}
use anylan.Protocol.{Error, MessageType, Writer, json_failure, type_ping, type_pong, type_peer_list}
use anylan.Protocol.Json.{Codec, write_json}
use anylan.Protocol.Messages.{PeerList, PeerPing, PeerPong}
use anylan.Relay.Mac.{Entropy}
use anylan.Client.Status.{Status, is_empty, update_peers}
use anylan.Client.Status.Next.{PeerProbe, next_latency_probe, unix_nano}
use anylan.Client.Status.Answers.{record_latency_pong, expire_latency_probes}
use anylan.Client.Loops.{Turn, goes_on, ends}

-- `peerLatencyTracker`: the status, and what was written to the control stream.
pub record Tracker (W : Type 0) : Type 0 where
  pub stream : W
  pub status : Status

abbrev pub ping_of : PeerProbe → PeerPing
ping_of probe = record {
  id = probe.id;
  from_peer_id = [];
  to_peer_id = probe.peer_id;
  sent_at_unix_nano = unix_nano probe.sent_at;
}

module _ {W : Type 0} ⦃stream_writer : Writer W⦄ where
  abbrev written : Tracker W → W × Option Error → Turn (Tracker W)
  written t (w, some e) = ends e (record t { stream = w })
  written t (w, none) = goes_on (record t { stream = w })

  abbrev ping_sent : Codec PeerPing → Tracker W → Option PeerProbe × Status → Turn (Tracker W)
  ping_sent pings t (none, s) = goes_on (record t { status = s })
  ping_sent pings t (some probe, s) =
      written (record t { status = s }) (write_json pings t.stream type_ping (ping_of probe))

  -- What `run` does at a tick.
  unfoldable pub tick : Codec PeerPing → Entropy → ℕ → Tracker W → Turn (Tracker W)
  tick pings rand now t =
      ping_sent pings t (next_latency_probe rand now (expire_latency_probes now t.status))

  unfoldable pub handle_ping : Codec PeerPong → PeerPing → Tracker W → Turn (Tracker W)
  handle_ping pongs ping t =
      if is_empty ping.from_peer_id || not (bytes_eq ping.to_peer_id t.status.peer_id)
      then goes_on t
      else written t (
          write_json pongs t.stream type_pong (record {
            id = ping.id;
            from_peer_id = [];
            to_peer_id = ping.from_peer_id;
            sent_at_unix_nano = ping.sent_at_unix_nano;
          }))

  unfoldable pub handle_pong : PeerPong → ℕ → Tracker W → Tracker W
  handle_pong pong now t =
      if is_empty pong.from_peer_id || not (bytes_eq pong.to_peer_id t.status.peer_id)
      then t
      else record t { status = record_latency_pong pong now t.status }

  -- A turn of `readControl`.
  unfoldable pub read_control :
      Codec PeerList
      → Codec PeerPing
      → Codec PeerPong
      → MessageType
      → Bytes
      → ℕ
      → Tracker W
      → Turn (Tracker W)
  unfolding handle_ping handle_pong
  read_control lists pings pongs typ payload now t =
      if typ == type_peer_list
      then elim (lists.unmarshal payload) [
        | none ↦ goes_on t
        | some pl ↦ goes_on (record t { status = update_peers pl now t.status })
      ]
      else if typ == type_ping
      then if length payload == 0 then goes_on t else elim (pings.unmarshal payload) [
        | none ↦ ends json_failure t
        | some ping ↦ handle_ping pongs ping t
      ]
      else if typ == type_pong
      then if length payload == 0 then goes_on t else elim (pongs.unmarshal payload) [
        | none ↦ ends json_failure t
        | some pong ↦ goes_on (handle_pong pong now t)
      ]
      else goes_on t
