-- ===== src/Client/Status/Next.antt =====
-- internal/client/client.go:599-641: the peer that is probed next, and the entry that is made for
-- it.
pub mod Ready
pub mod Choice
use anylan.Base.{
  ℕ, ◌+◌, ◌-◌, ◌*◌, Bool, true, false, ◌&&◌, ◌||◌, not, List, [], ◌∷◌, Option, none, some, leb, ltb,
  if◌then◌else◌,
}
use anylan.Base.Bytes.{Bytes, text, bytes_eq}
use anylan.Base.Dictionary.{Dictionary, insert}
use anylan.Base.Int.{ℤ, pos, negsuc, int_ltb}
use anylan.Protocol.Messages.{PeerInfo, feature_peer_latency}
use anylan.Relay.Mac.{Entropy, hex}
use anylan.Client.Status.{PeerLatency, Status, entries, entry, is_empty, keep_latency_peers}

unfoldable pub has_feature : List Bytes → Bytes → Bool
has_feature [] want = false
has_feature (f ∷ features) want = if bytes_eq f want then true else has_feature features want

pub record PeerProbe : Type 0 where
  pub peer_id : Bytes
  pub id : Bytes
  pub sent_at : ℕ

abbrev pub peer_latency_probe_interval : ℕ
peer_latency_probe_interval = 10 * 1_000_000_000

-- `UnixNano`: nanoseconds from 1970, in the years in which they fit 64 bits.
abbrev unix_epoch : ℕ
unix_epoch = 62_135_596_800 * 1_000_000_000

unfoldable pub unix_nano : ℕ → ℤ
unix_nano now = if leb unix_epoch now then pos (now - unix_epoch) else negsuc (unix_epoch - now - 1)

-- The two tests at the head of the loop.
unfoldable pub is_due : Bytes → ℕ → Dictionary PeerLatency → PeerInfo → Bool
unfolding has_feature
is_due own now m p =
    if bytes_eq p.id own || not (has_feature p.features feature_peer_latency)
    then false
    else not ((entry p.id m).pending || ltb now (entry p.id m).next_probe)

abbrev pub better : (PeerInfo → Bool) → (PeerInfo → ℤ) → PeerInfo → Bytes × ℤ → Bytes × ℤ
better due order p (id, o) =
    if due p && (is_empty id || int_ltb (order p) o) then (p.id, order p) else (id, o)

-- The loop, with the best peer so far and its order.
unfoldable pub pick : (PeerInfo → Bool) → (PeerInfo → ℤ) → List PeerInfo → Bytes × ℤ → Bytes × ℤ
pick due order [] best = best
pick due order (p ∷ ps) best = pick due order ps (better due order p best)

abbrev pub is_nil : Option (Dictionary PeerLatency) → Bool
is_nil none = true
is_nil (some m) = false

-- The status with its map made.
unfoldable pub primed : Status → Status
primed s = if is_nil s.peer_latency then keep_latency_peers s else s

abbrev pub probed : Bytes → ℕ → PeerLatency → PeerLatency
probed probe_id now l = record l {
  pending = true;
  probe_id = probe_id;
  sent_at = now;
  next_probe = now + peer_latency_probe_interval;
  state = text "pending";
  updated_at = now;
  order = unix_nano now;
}

-- The end of the function, on the best peer.
unfoldable pub start_probe : Entropy → ℕ → Bytes → Status → Option PeerProbe × Status
start_probe rand now best s = if is_empty best then (none, s) else elim (rand 16) [
  | none ↦ (none, s)
  | some buf ↦ (
    some (record { peer_id = best; id = hex buf; sent_at = now }),
    record s {
      peer_latency = some (
          insert best (probed (hex buf) now (entry best (entries s.peer_latency)))
            (entries s.peer_latency));
      updated_at = now;
    },
  )
]

abbrev pub order_in : Dictionary PeerLatency → PeerInfo → ℤ
order_in m p = (entry p.id m).order

abbrev pub best_of : ℕ → Status → Bytes × ℤ
best_of now s =
    let m = entries s.peer_latency in pick (is_due s.peer_id now m) (order_in m) s.peers ([], pos 0)

unfoldable pub next_latency_probe : Entropy → ℕ → Status → Option PeerProbe × Status
unfolding start_probe primed
next_latency_probe rand now s =
    if not (bytes_eq s.state (text "connected")) || is_empty s.peer_id
    then (none, s)
    else start_probe rand now (best_of now (primed s)).0 (primed s)
