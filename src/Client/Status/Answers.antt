-- ===== src/Client/Status/Answers.antt =====
-- internal/client/client.go:643-677: the answers to latency probes and their time-outs.
use anylan.Base.{
  ℕ, ◌-◌, ◌≡◌, Bool, true, false, ◌&&◌, ◌⊎◌, ◌*◌, [], ◌∷◌, none, some, arith, leb, if◌then◌else◌,
  Bool-cases, Option-cases, inl, inr,
}
use anylan.Base.Bytes.{Bytes, text, bytes_eq, bytes_eq_refl}
use anylan.Base.Dictionary.{Dictionary, lookup, insert, lookup-insert}
use anylan.Protocol.Messages.{PeerPong}
use anylan.Client.Status.{PeerLatency, Status, entries}

-- Is this the probe that the entry waits for?
abbrev awaits : PeerPong → PeerLatency → Bool
awaits pong l = l.pending && bytes_eq l.probe_id pong.id

abbrev pub answered_entry : ℕ → PeerLatency → PeerLatency
answered_entry now l = record l {
  rtt = now - l.sent_at;
  state = text "ok";
  updated_at = now;
  pending = false;
  probe_id = [];
}

-- `now.Sub(SentAt)` is not negative: `now` is read from the same clock later.
unfoldable pub record_latency_pong : PeerPong → ℕ → Status → Status
record_latency_pong pong now s = elim (lookup pong.from_peer_id (entries s.peer_latency)) [
  | none ↦ s
  | some l ↦
      if awaits pong l
      then record s {
        peer_latency =
            some (insert pong.from_peer_id (answered_entry now l) (entries s.peer_latency));
        updated_at = now;
      }
      else s
]

abbrev peer_latency_probe_timeout : ℕ
peer_latency_probe_timeout = 3 * 1_000_000_000

abbrev is_late : ℕ → PeerLatency → Bool
is_late now l = l.pending && leb peer_latency_probe_timeout (now - l.sent_at)

abbrev timed_out : ℕ → PeerLatency → PeerLatency
timed_out now l = record l {
  pending = false;
  probe_id = [];
  state = text "timeout";
  updated_at = now;
}

-- The entries after the loop, and whether it changed one.
unfoldable pub expire_all : ℕ → Dictionary PeerLatency → Dictionary PeerLatency × Bool
expire_all now [] = ([], false)
expire_all now ((id, l) ∷ rest) =
    let (rest', changed) = expire_all now rest in
    if is_late now l then ((id, timed_out now l) ∷ rest', true) else ((id, l) ∷ rest', changed)

unfoldable pub expire_latency_probes : ℕ → Status → Status
unfolding expire_all
expire_latency_probes now s =
    let (latencies, changed) = expire_all now (entries s.peer_latency) in
    if changed then record s { peer_latency = some latencies; updated_at = now } else s

-- A pong changes no entry but that of the peer it comes from, and the same pong again, at any time,
-- changes nothing.
pub record_latency_pong_once :
    (pong : PeerPong) (now later : ℕ) (id : Bytes) (s : Status)
    → let t = record_latency_pong pong now s in
      (record_latency_pong pong later t ≡ t)
      × (t.peers ≡ s.peers)
      × ((bytes_eq pong.from_peer_id id ≡ true)
          ⊎ (lookup id (entries t.peer_latency) ≡ lookup id (entries s.peer_latency)))
unfolding record_latency_pong
record_latency_pong_once pong now later id s =
    elim (Option-cases (lookup pong.from_peer_id (entries s.peer_latency))) [
      | inl n ↦ ground (arith, n)
      | inr (l, e) ↦ elim (Bool-cases (awaits pong l)) [
        | inr other ↦ ground (arith, e, other)
        | inl due ↦
            let at_sender =
              lookup-insert pong.from_peer_id pong.from_peer_id (answered_entry now l)
                (entries s.peer_latency) in
            let at_id =
              lookup-insert pong.from_peer_id id (answered_entry now l) (entries s.peer_latency) in
            let self = bytes_eq_refl pong.from_peer_id in
            ground (arith, e, due, at_sender, at_id, self)
      ]
    ]

late_in :
    (now : ℕ) (id : Bytes) (m : Dictionary PeerLatency) (l : PeerLatency)
    → lookup id m ≡ some l
    → lookup id (expire_all now m).0 ≡ some (if is_late now l then timed_out now l else l)
unfolding lookup expire_all
late_in now id [] l e = cc e
late_in now id ((j, k) ∷ m) l e = ground (arith, e, late_in now id m l)

all_timely :
    (now : ℕ) (id : Bytes) (m : Dictionary PeerLatency) (l : PeerLatency)
    → (expire_all now m).1 ≡ false
    → lookup id m ≡ some l
    → is_late now l ≡ false
unfolding lookup expire_all
all_timely now id [] l same e = cc e
all_timely now id ((j, k) ∷ m) l same e = ground (arith, e, same, all_timely now id m l)

-- After a sweep every entry of before is there: one whose probe has waited for three seconds or
-- more is marked as timed out and waits no more, and every other one stays as it is.
pub expire_latency_probes_lem :
    (now : ℕ) (id : Bytes) (s : Status) (l : PeerLatency)
    → lookup id (entries s.peer_latency) ≡ some l
    → lookup id (entries (expire_latency_probes now s).peer_latency)
      ≡ some (if is_late now l then timed_out now l else l)
unfolding expire_latency_probes
expire_latency_probes_lem now id s l e =
    elim (Bool-cases (expire_all now (entries s.peer_latency)).1) [
      | inl changed ↦ ground (arith, changed, late_in now id (entries s.peer_latency) l e)
      | inr same ↦
          let old = all_timely now id (entries s.peer_latency) l same e in
          ground (arith, same, old, e)
    ]
