-- ===== src/Client/Tests/Probes.antt =====
-- The theorem on latency probes, on one probe between two clients.
use anylan.Base.{ℕ, ◌≡◌, ◌-◌, refl, false, [], ◌∷◌, ◌++◌, none, some, arith, ok}
use anylan.Base.Bytes.{Bytes, text, bytes_eq}
use anylan.Base.Dictionary.{lookup, insert}
use anylan.Protocol.{buffer, type_ping, type_pong}
use anylan.Protocol.Framing.{encoding}
use anylan.Protocol.Json.{Codec}
use anylan.Protocol.Messages.{PeerList, PeerPong}
use anylan.Relay.Address.{v4}
use anylan.Relay.Mac.{hex}
use anylan.Relay.Peer.{Peer}
use anylan.Control.Codecs.{to_bytes, probe, probe-RoundTrips, answer, answer-RoundTrips}
use anylan.Control.Probes.{forward_peer_ping, forward_peer_pong}
use anylan.Client.Status.{
  Status, entry, entries, joined, new_idle_status, keep_latency_peers, note_peers, keep_seen,
  has_peer,
}
use anylan.Client.Status.Answers.{expire_latency_probes, expire_all}
use anylan.Client.Status.Next.{
  next_latency_probe, primed, start_probe, pick, is_due, has_feature, unix_nano,
}
use anylan.Client.Control.{Tracker, tick, ping_of, read_control}
use anylan.Client.Control.Probing.{ping_at_server, pong_of_client, probe_round_trip}
use anylan.Client.Loops.{goes_on}
use anylan.Client.Tests.Sessions.{connected, idle, sixteen, sent_probe}

abbrev peer : ℕ → Bytes → Peer
peer i id = record {
  address = i;
  id = id;
  display_name = [];
  features = [];
  room = 0;
  ip = v4 10 0 0 2;
  mac = 6 ∷ 7 ∷ 7 ∷ 7 ∷ 7 ∷ 7 ∷ [];
  connected_at = 6;
}

abbrev ann : Peer
ann = peer 1 (text "a")

abbrev bob : Peer
bob = peer 2 (text "b")

abbrev lists : Codec PeerList
lists = record { marshal = λ p. none; unmarshal = λ b. none }

abbrev prober : Tracker Bytes
prober = record { stream = []; status = connected }

abbrev answerer : Tracker Bytes
answerer = record { stream = []; status = record idle { peer_id = text "b" } }

abbrev after : Status
after = (next_latency_probe (λ n. some sixteen) 50 (expire_latency_probes 50 connected)).1

probing :
    next_latency_probe (λ n. some sixteen) 50 (expire_latency_probes 50 connected)
    ≡ (some sent_probe, after)
unfolding next_latency_probe joined keep_latency_peers note_peers keep_seen has_peer primed
    start_probe pick is_due has_feature lookup bytes_eq hex insert new_idle_status
    expire_latency_probes expire_all
probing = refl

abbrev p1 : Bytes
p1 = to_bytes (ping_of sent_probe)

abbrev p2 : Bytes
p2 = to_bytes (ping_at_server ann sent_probe)

abbrev answer_of : PeerPong → Bytes
answer_of p = to_bytes (record {
  id = p.id;
  from_peer_id = p.from_peer_id;
  to_peer_id = p.to_peer_id;
  sent_at_unix_nano = p.sent_at_unix_nano;
})

abbrev p3 : Bytes
p3 = answer_of (pong_of_client ann sent_probe)

abbrev p4 : Bytes
p4 = answer_of (record (pong_of_client ann sent_probe) { from_peer_id = text "b" })

prober_named : prober.status.peer_id ≡ ann.id
unfolding joined keep_latency_peers
prober_named = refl

probe_round_trip_example :
    (tick probe (λ n. some sixteen) 50 prober
      ≡ goes_on (record { stream = prober.stream ++ encoding type_ping p1; status = after }))
    × (forward_peer_ping probe ann p1 ≡ ok (some (bob.id, encoding type_ping p2)))
    × (read_control lists probe answer type_ping p2 60 answerer
        ≡ goes_on (record answerer { stream = answerer.stream ++ encoding type_pong p3 }))
    × (forward_peer_pong answer bob p3 ≡ ok (some (ann.id, encoding type_pong p4)))
    × (v : Tracker Bytes) × (read_control lists probe answer type_pong p4 70
          (record { stream = prober.stream ++ encoding type_ping p1; status = after })
        ≡ goes_on v)
    × ((entry bob.id (entries v.status.peer_latency)).state ≡ text "ok")
    × ((entry bob.id (entries v.status.peer_latency)).rtt ≡ 70 - 50)
    × ((entry bob.id (entries v.status.peer_latency)).pending ≡ false)
unfolding bytes_eq unix_nano
probe_round_trip_example =
    probe_round_trip lists probe answer ann bob prober answerer sent_probe after (λ n. some sixteen)
      50 60 70 p1 p2 p3 p4 probe-RoundTrips answer-RoundTrips probing prober_named refl refl refl
      refl (refl, omega arith, omega arith) (refl, omega arith, omega arith)
      (refl, omega arith, omega arith) (refl, omega arith, omega arith)
