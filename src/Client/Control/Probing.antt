-- ===== src/Client/Control/Probing.antt =====
-- A latency probe on its way from one client through the server to another, and back.
use anylan.Base.{ℕ, ◌-◌, ◌≡◌, sym, ◌∙◌, true, false, [], ◌++◌, some, ok}
use mathlib.Core.Path.{subst}
use anylan.Base.Bytes.{Bytes, text, bytes_eq}
use anylan.Protocol.{buffer, type_ping, type_pong}
use anylan.Protocol.Framing.{encoding}
use anylan.Protocol.Json.{Codec, RoundTrips}
use anylan.Protocol.Messages.{PeerList, PeerPing, PeerPong}
use anylan.Relay.Mac.{Entropy}
use anylan.Relay.Peer.{Peer}
use anylan.Control.Probes.{forward_peer_ping, forward_peer_pong}
use anylan.Client.Status.{Status, is_empty, entry, entries}
use anylan.Client.Status.Next.{PeerProbe, next_latency_probe}
use anylan.Client.Status.Next.Choice.{next_latency_probe-start}
use anylan.Client.Status.Answers.{record_latency_pong, expire_latency_probes}
use anylan.Client.Control.{Tracker, tick, ping_of, read_control}
use anylan.Client.Loops.{goes_on}
use anylan.Client.Control.Steps.{
  Marshals, record_latency_pong-answered, expire-peer_id, forward_peer_ping-Marshals,
  forward_peer_pong-Marshals, tick-Marshals, read_control-ping, read_control-pong,
}

-- The ping with its sender, as the server passes it on, and the answer.
abbrev pub ping_at_server : Peer → PeerProbe → PeerPing
ping_at_server a probe = record (ping_of probe) { from_peer_id = a.id }

abbrev pub pong_of_client : Peer → PeerProbe → PeerPong
pong_of_client a probe = record {
  id = probe.id;
  from_peer_id = [];
  to_peer_id = a.id;
  sent_at_unix_nano = (ping_of probe).sent_at_unix_nano;
}

-- The client that probes has the tracker `x` and is the peer `a` of the server; the one that
-- answers has `u` and is the peer `b`. The messages on the way are `p1` to `p4`.
module _ (lists : Codec PeerList) (pings : Codec PeerPing) (pongs : Codec PeerPong) (a b : Peer)
    (x u : Tracker Bytes) (probe : PeerProbe) (t : Status) (rand : Entropy) (now at later : ℕ)
    (p1 p2 p3 p4 : Bytes) where
  -- A probe that a client sends at a tick to a peer with another identifier is passed on by the
  -- server under its sender's identifier; the other client answers it; the server passes the answer
  -- on; and the first client then has the time from the tick to the answer as the latency of the
  -- other one. The messages on the way are not empty, fit a control message and are decoded as they
  -- were encoded.
  pub probe_round_trip :
      RoundTrips pings
      → RoundTrips pongs
      → next_latency_probe rand now (expire_latency_probes now x.status) ≡ (some probe, t)
      → x.status.peer_id ≡ a.id
      → u.status.peer_id ≡ b.id
      → probe.peer_id ≡ b.id
      → bytes_eq b.id a.id ≡ false
      → bytes_eq a.id b.id ≡ false
      → Marshals pings (ping_of probe) p1
      → Marshals pings (ping_at_server a probe) p2
      → Marshals pongs (pong_of_client a probe) p3
      → Marshals pongs (record (pong_of_client a probe) { from_peer_id = b.id }) p4
      → (tick pings rand now x
          ≡ goes_on (record { stream = x.stream ++ encoding type_ping p1; status = t }))
        × (forward_peer_ping pings a p1 ≡ ok (some (b.id, encoding type_ping p2)))
        × (read_control lists pings pongs type_ping p2 at u
            ≡ goes_on (record u { stream = u.stream ++ encoding type_pong p3 }))
        × (forward_peer_pong pongs b p3 ≡ ok (some (a.id, encoding type_pong p4)))
        × (v : Tracker Bytes) × (read_control lists pings pongs type_pong p4 later
              (record { stream = x.stream ++ encoding type_ping p1; status = t })
            ≡ goes_on v)
        × ((entry b.id (entries v.status.peer_latency)).state ≡ text "ok")
        × ((entry b.id (entries v.status.peer_latency)).rtt ≡ later - now)
        × ((entry b.id (entries v.status.peer_latency)).pending ≡ false)
  probe_round_trip ping_trips pong_trips probing own other to_b apart apart' m1 m2 m3 m4 =
      let facts =
        next_latency_probe-start rand now (expire_latency_probes now x.status) t probe probing in
      let own_t : t.peer_id ≡ a.id = facts.4 ∙ expire-peer_id now x.status ∙ own in
      let named_a : is_empty a.id ≡ false =
        subst (λ s. is_empty s ≡ false) (expire-peer_id now x.status ∙ own) facts.5 in
      let named_b : is_empty b.id ≡ false = subst (λ s. is_empty s ≡ false) to_b facts.3 in
      let y : Tracker Bytes = record { stream = x.stream ++ encoding type_ping p1; status = t } in
      let pong : PeerPong = record (pong_of_client a probe) { from_peer_id = b.id } in
      let answered =
        record_latency_pong-answered pong later now t
          (subst (λ id. (entry id (entries t.peer_latency)).pending ≡ true) to_b facts.1)
          (subst (λ id. (entry id (entries t.peer_latency)).probe_id ≡ probe.id) to_b facts.2)
          (subst (λ id. (entry id (entries t.peer_latency)).sent_at ≡ now) to_b facts.0) in
      (
        tick-Marshals pings rand now x probe t p1 probing m1,
        subst (λ id. forward_peer_ping pings a p1 ≡ ok (some (id, encoding type_ping p2))) to_b
            (forward_peer_ping-Marshals pings (ping_of probe) a p1 p2 ping_trips facts.3
              (subst (λ s. bytes_eq s a.id ≡ false) (sym to_b) apart) m1 m2),
        read_control-ping lists pings pongs (ping_at_server a probe) p2 p3 at u ping_trips named_a
            (other ∙ sym to_b) m2 m3,
        forward_peer_pong-Marshals pongs (pong_of_client a probe) b p3 p4 pong_trips named_a apart'
            m3 m4,
        record y { status = record_latency_pong pong later y.status },
        read_control-pong lists pings pongs pong p4 later y pong_trips named_b own_t m4,
        answered.0,
        answered.1,
        answered.2,
      )
