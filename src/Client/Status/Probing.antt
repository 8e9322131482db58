-- ===== src/Client/Status/Probing.antt =====
-- internal/client/client.go:577-641: which peers have an entry, and which is probed next.
use anylan.Base.{
  ℕ, suc, ◌≡◌, refl, Bool, true, false, ◌||◌, ◌⊎◌, List, [], ◌∷◌, Option, none, some, arith,
  if◌then◌else◌,
}
use anylan.Base.Bytes.{Bytes, bytes_eq_iff}
use anylan.Base.Dictionary.{Dictionary, lookup, insert, lookup-insert}
use anylan.Protocol.Messages.{PeerInfo}
use anylan.Client.Status.{
  PeerLatency, Status, entries, entry, noted, note_peers, has_peer, keep_seen, keep_latency_peers,
}

-- What a probe of a peer is about.
abbrev pub SameProbe : PeerLatency → PeerLatency → Type 0
SameProbe k l =
    (k.pending ≡ l.pending)
    × (k.probe_id ≡ l.probe_id)
    × (k.sent_at ≡ l.sent_at)
    × (k.next_probe ≡ l.next_probe)
    × (k.rtt ≡ l.rtt)

note_peers-SameProbe :
    (i : ℕ) (ps : List PeerInfo) (m : Dictionary PeerLatency) (id : Bytes)
    → SameProbe (entry id (note_peers i ps m)) (entry id m)
unfolding note_peers
note_peers-SameProbe i [] m id = (refl, refl, refl, refl, refl)
note_peers-SameProbe i (p ∷ ps) m id = ground (
  arith,
  note_peers-SameProbe (suc i) ps (insert p.id (noted i (entry p.id m)) m) id,
  lookup-insert p.id id (noted i (entry p.id m)) m,
  bytes_eq_iff p.id id,
)

abbrev pub is_some : Option PeerLatency → Bool
is_some none = false
is_some (some l) = true

is_some-note_peers :
    (i : ℕ) (ps : List PeerInfo) (m : Dictionary PeerLatency) (id : Bytes)
    → is_some (lookup id (note_peers i ps m)) ≡ (has_peer id ps || is_some (lookup id m))
unfolding note_peers has_peer
is_some-note_peers i [] m id = refl
is_some-note_peers i (p ∷ ps) m id = ground (
  arith,
  is_some-note_peers (suc i) ps (insert p.id (noted i (entry p.id m)) m) id,
  lookup-insert p.id id (noted i (entry p.id m)) m,
)

lookup-keep_seen :
    (ps : List PeerInfo) (m : Dictionary PeerLatency) (id : Bytes)
    → lookup id (keep_seen ps m) ≡ (if has_peer id ps then lookup id m else none)
unfolding keep_seen lookup
lookup-keep_seen ps [] id = ground arith
lookup-keep_seen ps ((j, l) ∷ m) id = ground (arith, lookup-keep_seen ps m id, bytes_eq_iff j id)

-- Exactly the peers that are listed have an entry, and what an entry says of its probe is kept.
pub keep_latency_peers_lem :
    (s : Status) (id : Bytes)
    → let m = entries (keep_latency_peers s).peer_latency in
      (is_some (lookup id m) ≡ has_peer id s.peers)
      × ((has_peer id s.peers ≡ false) ⊎ SameProbe (entry id m) (entry id (entries s.peer_latency)))
unfolding keep_latency_peers
keep_latency_peers_lem s id = ground (
  arith,
  lookup-keep_seen s.peers (note_peers 0 s.peers (entries s.peer_latency)) id,
  is_some-note_peers 0 s.peers (entries s.peer_latency) id,
  note_peers-SameProbe 0 s.peers (entries s.peer_latency) id,
)
