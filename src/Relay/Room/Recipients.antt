-- ===== src/Relay/Room/Recipients.antt =====
-- Forward against an independent description of who should receive a frame.
use anylan.Base.{
  ℕ, ◌≤◌, ◌≡◌, ◌≢◌, ◌∙◌, true, false, ◌||◌, ◌↔◌, inl, inr, List, [], ◌∷◌, some, arith, length,
  contains, All, All-map, ok, Bool-cases, Option-cases,
}
use anylan.Base.Bytes.{Bytes, bytes_eq_iff}
use anylan.Base.Dictionary.{lookup, lookup-insert}
use anylan.Relay.Mac.{is_broadcast, is_multicast}
use anylan.Relay.Peer.{Peer, same_peer}
use anylan.Relay.Room.{
  Room, is_current, other_peers, unicast_target, route, learn, pass_on, forward, forward_from,
  frame_dst, frame_src,
}
use anylan.Relay.Room.Members.{IsConsistent}
use anylan.Relay.Room.Forwarding.{
  forward_cut, IsTarget, route-IsTarget, route_total, learn-IsConsistent, learn-is_current,
}
use anylan.Relay.Room.Delivery.{reaches, other_peers-reaches}

-- The destination is the known address of the peer `t`, which is in the room and not the sender.
abbrev pub Owns : Room → Peer → Bytes → Peer → Type 0
Owns r from dst t =
    (is_broadcast dst || is_multicast dst ≡ false)
    × (from.mac ≢ dst)
    × (lookup dst r.mac_to_peer ≡ some t)
    × (is_current r t ≡ true)
    × (same_peer t from ≡ false)

-- A peer should get a frame that it did not send, unless another peer owns the destination.
abbrev pub Receives : Room → Peer → Bytes → Peer → Type 0
Receives r from dst q =
    (same_peer q from ≡ false) × ((t : Peer) → Owns r from dst t → same_peer q t ≡ true)

unicast_target-Owns :
    (r : Room) (from : Peer) (dst : Bytes) (t : Peer)
    → is_broadcast dst || is_multicast dst ≡ false
    → unicast_target (learn r from) from dst ≡ some t
    → Owns r from dst t
unfolding unicast_target
unicast_target-Owns r from dst t single e =
    let learned = lookup-insert from.mac dst from r.mac_to_peer in
    let same = bytes_eq_iff from.mac dst in
    (
      single,
      λ own. ground (arith, e, learned, same, own),
      ground (arith, e, learned, same),
      ground (arith, e, learned, same, learn-is_current r from t),
      ground (arith, e, learned, same),
    )

Owns-unicast_target :
    (r : Room) (from : Peer) (dst : Bytes) (t : Peer)
    → Owns r from dst t
    → unicast_target (learn r from) from dst ≡ some t
unfolding unicast_target
Owns-unicast_target r from dst t (single, other, known, here, d) = ground (
  arith,
  lookup-insert from.mac dst from r.mac_to_peer,
  bytes_eq_iff from.mac dst,
  learn-is_current r from t,
  known,
  here,
)

reaches-All :
    (from q : Peer) (ts : List Peer)
    → All (λ t. same_peer t from ≡ false) ts
    → reaches ts q ≡ true
    → same_peer q from ≡ false
unfolding contains
reaches-All from q [] all e = cc
reaches-All from q (t ∷ ts) all e = ground (arith, reaches-All from q ts all.1)

current_lookup :
    (r : Room) (q : Peer)
    → is_current r q ≡ true
    → (p : Peer) × (lookup q.id r.peers ≡ some p) × (same_peer p q ≡ true)
unfolding is_current
current_lookup r q e = elim (Option-cases (lookup q.id r.peers)) [
  | inl n ↦ absurd (ground (arith, n, e))
  | inr (p, h) ↦ (p, h, ground (arith, h, e))
]

-- Who is reached, when the frame is flooded and when it has one owner.
flooded_iff :
    (base : ℕ) (r : Room) (from q : Peer) (dst : Bytes) (ts : List Peer)
    → IsConsistent base (learn r from)
    → is_current r q ≡ true
    → ((t : Peer) → ¬ Owns r from dst t)
    → All (IsTarget (learn r from) from) ts
    → other_peers (learn r from) from ≡ some ts
    → (reaches ts q ≡ true) ↔ Receives r from dst q
flooded_iff base r from q dst ts c here nobody all e = (
  λ h. (reaches-All from q ts (All-map (λ t i. i.1) ts all) h, λ t o. absurd (nobody t o)),
  λ (d, _).
      let (p, found, same) = current_lookup r q here in
      let there =
        other_peers-reaches (learn r from) q.id p from ts found (ground (arith, same, d)) e in
      ground (arith, there, same),
)

owned_iff :
    (r : Room) (from q : Peer) (dst : Bytes) (t : Peer)
    → Owns r from dst t
    → (reaches (t ∷ []) q ≡ true) ↔ Receives r from dst q
unfolding contains
owned_iff r from q dst t o = (
  λ h. (ground (arith, o.4, h), λ u own. ground (arith, own.2, o.2, h)),
  λ (_, only). ground (arith, only t o),
)

route_iff :
    (base : ℕ) (r : Room) (from : Peer) (dst : Bytes)
    → IsConsistent base r
    → is_current r from ≡ true
    → (ts : List Peer) × (route (learn r from) from dst ≡ some ts)
      × ((q : Peer) → is_current r q ≡ true → (reaches ts q ≡ true) ↔ Receives r from dst q)
unfolding route
route_iff base r from dst c here =
    let c' = learn-IsConsistent base r from c in
    let (ts, e) = route_total (learn r from) from dst (learn-is_current r from from ∙ here) in
    let all = route-IsTarget base (learn r from) from dst ts c' e in
    elim (Bool-cases (is_broadcast dst || is_multicast dst)) [
      | inl group ↦ (
        ts,
        e,
        λ q there.
            flooded_iff base r from q dst ts c' there (λ t o. cc (o.0, group)) all
              (ground (arith, e, group)),
      )
      | inr single ↦ elim (Option-cases (unicast_target (learn r from) from dst)) [
        | inl n ↦ (
          ts,
          e,
          λ q there.
              flooded_iff base r from q dst ts c' there
                (λ t o. cc (n, Owns-unicast_target r from dst t o)) all
                (ground (arith, e, single, n)),
        )
        | inr (t, found) ↦ (
          t ∷ [],
          ground (arith, single, found),
          λ q _. owned_iff r from q dst t (unicast_target-Owns r from dst t single found),
        )
      ]
    ]

-- A frame of at least 14 bytes with its sender's own source, from a peer of a consistent room, is
-- forwarded without a panic or an error, and of the peers in the room it reaches exactly those that
-- should get it: the owner of the destination, if that is known and another peer than the sender,
-- and everybody but the sender else.
pub forward_iff :
    (base : ℕ) (r : Room) (from : Peer) (frame : Bytes)
    → IsConsistent base r
    → 14 ≤ length frame
    → frame_src frame ≡ from.mac
    → is_current r from ≡ true
    → (ts : List Peer) × (forward r from frame ≡ some (ok ts, learn r from))
      × ((q : Peer)
          → is_current r q ≡ true
          → (reaches ts q ≡ true) ↔ Receives r from (frame_dst frame) q)
unfolding forward_from pass_on
forward_iff base r from frame c long own here =
    let (ts, e, iff) = route_iff base r from (frame_dst frame) c here in
    let cut = forward_cut r from frame (ground (arith, long)) in
    (ts, ground (arith, cut, bytes_eq_iff (frame_src frame) from.mac, e), iff)
