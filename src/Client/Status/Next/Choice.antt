-- ===== src/Client/Status/Next/Choice.antt =====
-- Which peer a client probes next, and what it notes of the probe.
use anylan.Base.{
  ℕ, ◌≡◌, List, refl, ◌∙◌, Bool, true, false, ◌&&◌, ◌||◌, not, ◌⊎◌, List, [], ◌∷◌, some, arith,
  Bool-cases, Option-cases, inl, inr, Any,
}
use anylan.Base.Bytes.{Bytes, text, bytes_eq, bytes_eq_refl}
use anylan.Base.Dictionary.{lookup-insert}
use anylan.Base.Int.{ℤ, int_ltb}
use anylan.Protocol.Messages.{PeerInfo}
use anylan.Relay.Mac.{Entropy, hex}
use anylan.Client.Status.{Status, entries, entry, is_empty, keep_latency_peers}
use anylan.Client.Status.Next.{
  PeerProbe, better, primed, start_probe, pick, probed, best_of, next_latency_probe,
}

module _ (due : PeerInfo → Bool) (order : PeerInfo → ℤ) where
  -- The peer that a result of the loop stands for.
  abbrev pub IsPicked : Bytes × ℤ → PeerInfo → Type 0
  IsPicked r p = (due p ≡ true) × (p.id ≡ r.0) × (order p ≡ r.1)

  pub pick-IsPicked :
      (ps : List PeerInfo) (best : Bytes × ℤ)
      → (pick due order ps best ≡ best) ⊎ Any (IsPicked (pick due order ps best)) ps
  unfolding pick
  pick-IsPicked [] best = inl refl
  pick-IsPicked (p ∷ ps) (id, o) = elim (pick-IsPicked ps (better due order p (id, o))) [
    | inr later ↦ inr (inr later)
    | inl here ↦ elim (Bool-cases (due p && (is_empty id || int_ltb (order p) o))) [
      | inl yes_p ↦ inr (inl (ground (arith, here, yes_p)))
      | inr no_p ↦ inl (ground (arith, here, no_p))
    ]
  ]

  -- A result is not above a start.
  abbrev Stays : Bytes × ℤ → Bytes × ℤ → Type 0
  Stays (id, o) r = (is_empty id ≡ true) ⊎ ((is_empty r.0 ≡ false) × (int_ltb o r.1 ≡ false))

primed_same : (s : Status) → ((primed s).peers ≡ s.peers) × ((primed s).peer_id ≡ s.peer_id)
unfolding primed keep_latency_peers
primed_same s = ground arith

start_probe_sent :
    (rand : Entropy) (now : ℕ) (best : Bytes) (s t : Status) (probe : PeerProbe)
    → start_probe rand now best s ≡ (some probe, t)
    → ((entry probe.peer_id (entries t.peer_latency)).sent_at ≡ now)
      × ((entry probe.peer_id (entries t.peer_latency)).pending ≡ true)
      × ((entry probe.peer_id (entries t.peer_latency)).probe_id ≡ probe.id)
      × (is_empty probe.peer_id ≡ false)
      × (t.peer_id ≡ s.peer_id)
unfolding start_probe
start_probe_sent rand now best s t probe e = elim (Bool-cases (is_empty best)) [
  | inl nobody ↦ absurd (ground (arith, nobody, e))
  | inr somebody ↦ elim (Option-cases (rand 16)) [
    | inl failed ↦ absurd (ground (arith, somebody, failed, e))
    | inr (buf, drawn) ↦
        let m = entries s.peer_latency in
        let l = probed (hex buf) now (entry best m) in
        ground (arith, somebody, drawn, e, bytes_eq_refl best, lookup-insert best best l m)
  ]
]

-- The state of a client that just sent a probe.
pub next_latency_probe-start :
    (rand : Entropy) (now : ℕ) (s t : Status) (probe : PeerProbe)
    → next_latency_probe rand now s ≡ (some probe, t)
    → ((entry probe.peer_id (entries t.peer_latency)).sent_at ≡ now)
      × ((entry probe.peer_id (entries t.peer_latency)).pending ≡ true)
      × ((entry probe.peer_id (entries t.peer_latency)).probe_id ≡ probe.id)
      × (is_empty probe.peer_id ≡ false)
      × (t.peer_id ≡ s.peer_id)
      × (is_empty s.peer_id ≡ false)
unfolding next_latency_probe
next_latency_probe-start rand now s t probe e =
    elim (Bool-cases (not (bytes_eq s.state (text "connected")) || is_empty s.peer_id)) [
      | inl idle ↦ absurd (ground (arith, idle, e))
      | inr live ↦
          let (peers, own) = primed_same s in
          let started : start_probe rand now (best_of now (primed s)).0 (primed s)
              ≡ (some probe, t) =
            ground (arith, live, e) in
          let facts =
            start_probe_sent rand now (best_of now (primed s)).0 (primed s) t probe started in
          (facts.0, facts.1, facts.2, facts.3, facts.4 ∙ own, ground (arith, live))
    ]
