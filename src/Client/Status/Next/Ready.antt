-- ===== src/Client/Status/Next/Ready.antt =====
-- When a peer may be probed.
use anylan.Base.{
  ℕ, ◌≤◌, ◌≡◌, ◌≢◌, ◌↔◌, List, true, false, List, [], ◌∷◌, arith, Bool-cases, inl, inr, Any,
}
use anylan.Base.Bytes.{Bytes, bytes_eq, bytes_eq_iff}
use anylan.Base.Dictionary.{Dictionary}
use anylan.Protocol.Messages.{PeerInfo, feature_peer_latency}
use anylan.Client.Status.{PeerLatency, entry}
use anylan.Client.Status.Next.{has_feature, is_due}

-- A peer to which a probe may go: it is not the client, it answers probes, none is pending, and its
-- time has come.
pub record IsReady (own : Bytes) (now : ℕ) (m : Dictionary PeerLatency) (p : PeerInfo)
    : Type 0 where
  pub another : p.id ≢ own
  pub answers : Any (λ (f : Bytes). f ≡ feature_peer_latency) p.features
  pub idle : (entry p.id m).pending ≡ false
  pub late : (entry p.id m).next_probe ≤ now

has_feature-Any :
    (fs : List Bytes) (want : Bytes) → has_feature fs want ≡ true → Any (λ (f : Bytes). f ≡ want) fs
unfolding has_feature
has_feature-Any [] want e = absurd (cc e)
has_feature-Any (f ∷ fs) want e = elim (Bool-cases (bytes_eq f want)) [
  | inl same ↦ inl ((bytes_eq_iff f want).0 same)
  | inr other ↦ inr (has_feature-Any fs want (ground (arith, other, e)))
]

Any-has_feature :
    (fs : List Bytes) (want : Bytes) → Any (λ (f : Bytes). f ≡ want) fs → has_feature fs want ≡ true
unfolding has_feature
Any-has_feature [] want x = absurd x
Any-has_feature (f ∷ fs) want (inl same) = ground (arith, (bytes_eq_iff f want).1 same)
Any-has_feature (f ∷ fs) want (inr later) = ground (arith, Any-has_feature fs want later)

pub is_due_iff :
    (own : Bytes) (now : ℕ) (m : Dictionary PeerLatency) (p : PeerInfo)
    → (is_due own now m p ≡ true) ↔ IsReady own now m p
unfolding is_due
is_due_iff own now m p = (
  λ due. record {
    another = λ same. absurd (ground (arith, (bytes_eq_iff p.id own).1 same, due));
    answers = has_feature-Any p.features feature_peer_latency (ground (arith, due));
    idle = ground (arith, due);
    late = ground (arith, due);
  },
  λ ready.
      let apart : bytes_eq p.id own ≡ false = elim (Bool-cases (bytes_eq p.id own)) [
        | inl same ↦ absurd (ready.another ((bytes_eq_iff p.id own).0 same))
        | inr other ↦ other
      ] in
      ground (
        arith,
        apart,
        Any-has_feature p.features feature_peer_latency ready.answers,
        ready.idle,
        ready.late,
      ),
)
