-- ===== src/Relay/Room/Delivery.antt =====
-- Forward: who gets a frame, and who does not.
use anylan.Base.{
  ℕ, ◌≡◌, ◌≢◌, ◌∙◌, sym, refl, Bool, true, false, not, ◌||◌, ◌⊎◌, inl, inr, List, [], ◌∷◌, Option,
  none, some, map, arith, contains, keep, All, Result, ok, err,
}
use anylan.Base.Bytes.{Bytes}
use anylan.Base.Dictionary.{Dictionary, lookup, values, lookup-insert}
use mathlib.Core.Path.{subst}
use anylan.Base.Bytes.{bytes_eq_iff}
use anylan.Relay.Error.{Error}
use anylan.Relay.Mac.{is_broadcast, is_multicast}
use anylan.Relay.Peer.{Peer, same_peer}
use anylan.Relay.Room.{
  Room, is_current, other_peers, unicast_target, route, learn, forward, frame_dst, frame_src,
}
use anylan.Relay.Room.Members.{IsConsistent}
use anylan.Relay.Room.Forwarding.{
  IsTarget, Outcome, refused, absent, passed, forward-Outcome, route-IsTarget, learn-IsConsistent,
  learn-is_current,
}

-- What a successful call did: nothing for a sender that left, and else it learned and routed.
abbrev Sent : Room → Peer → Bytes → List Peer → Room → Type 0
Sent r from frame ts r' =
    ((is_current r from ≡ false) × (ts ≡ []) × (r' ≡ r))
    ⊎ ((is_current r from ≡ true)
        × (frame_src frame ≡ from.mac)
        × (r' ≡ learn r from)
        × (route (learn r from) from (frame_dst frame) ≡ some ts))

Outcome-Sent :
    (r : Room) (from : Peer) (frame : Bytes) (ts : List Peer) (r' : Room)
    {o : Option (Result Error (List Peer) × Room)}
    → Outcome r from frame o
    → o ≡ some (ok ts, r')
    → Sent r from frame ts r'
Outcome-Sent r from frame ts r' (refused x) e = cc
Outcome-Sent r from frame ts r' (absent gone) e = inl (gone, cc, cc)
Outcome-Sent r from frame ts r' (passed us here own found) e = inr (here, own, cc, found ∙ cc)

Outcome-total :
    (base : ℕ) (r : Room) (from : Peer) (frame : Bytes)
    {o : Option (Result Error (List Peer) × Room)}
    → IsConsistent base r
    → Outcome r from frame o
    → (res : Result Error (List Peer)) × (r' : Room) × (o ≡ some (res, r')) × IsConsistent base r'
Outcome-total base r from frame c (refused x) = (err x, r, refl, c)
Outcome-total base r from frame c (absent gone) = (ok [], r, refl, c)
Outcome-total base r from frame c (passed us here own found) =
    (ok us, learn r from, refl, learn-IsConsistent base r from c)

-- `Forward` does not panic, and keeps the room consistent.
pub forward_total :
    (base : ℕ) (r : Room) (from : Peer) (frame : Bytes)
    → IsConsistent base r
    → (res : Result Error (List Peer)) × (r' : Room) × (forward r from frame ≡ some (res, r'))
      × IsConsistent base r'
forward_total base r from frame c = Outcome-total base r from frame c (forward-Outcome r from frame)

-- Is the peer among the targets, by its pointer?
abbrev pub reaches : List Peer → Peer → Bool
reaches ts q = contains q.address (map (λ t. t.address) ts)

values-reaches :
    (id : Bytes) (q from : Peer) (m : Dictionary Peer)
    → lookup id m ≡ some q
    → same_peer q from ≡ false
    → reaches (keep (λ t. not (same_peer t from)) (values m)) q ≡ true
unfolding lookup values contains
values-reaches id q from [] e d = cc
values-reaches id q from ((j, p) ∷ m) e d = ground (arith, values-reaches id q from m)

pub other_peers-reaches :
    (r : Room) (id : Bytes) (q from : Peer) (ts : List Peer)
    → lookup id r.peers ≡ some q
    → same_peer q from ≡ false
    → other_peers r from ≡ some ts
    → reaches ts q ≡ true
unfolding other_peers
other_peers-reaches r id q from ts e d h =
    let same : keep (λ (t : Peer). not (same_peer t from)) (values r.peers) ≡ ts = ground arith in
    subst (λ us. reaches us q ≡ true) same (values-reaches id q from r.peers e d)

-- The destinations that are flooded: group addresses, and those that the room has not learned.
abbrev pub IsFlooded : Room → Peer → Bytes → Type 0
IsFlooded r from dst =
    (is_broadcast dst || is_multicast dst ≡ true) ⊎ (lookup dst (learn r from).mac_to_peer ≡ none)

route_flooded :
    (r : Room) (from : Peer) (dst : Bytes)
    → IsFlooded r from dst
    → route (learn r from) from dst ≡ other_peers (learn r from) from
unfolding route unicast_target
route_flooded r from dst (inl group) = ground arith
route_flooded r from dst (inr unknown) = ground arith

module _ (r r' : Room) (from : Peer) (frame : Bytes) (ts : List Peer)
    (sent : forward r from frame ≡ some (ok ts, r')) where
  forward-Sent : Sent r from frame ts r'
  forward-Sent = Outcome-Sent r from frame ts r' (forward-Outcome r from frame) sent

  -- A frame goes to peers of the room only, and never back to the peer that sent it.
  pub forward-IsTarget : (base : ℕ) → IsConsistent base r → All (IsTarget r from) ts
  unfolding is_current
  forward-IsTarget base c = elim forward-Sent [
    | inl (gone, e, _) ↦ rw e tt
    | inr (here, own, _, found) ↦
        route-IsTarget base (learn r from) from (frame_dst frame) ts
          (learn-IsConsistent base r from c) found
  ]

  -- What is forwarded to anybody comes from a peer of the room under that peer's own address.
  pub forward_own_source : ts ≢ [] → (frame_src frame ≡ from.mac) × (is_current r from ≡ true)
  forward_own_source some_target = elim forward-Sent [
    | inl (gone, e, _) ↦ absurd (some_target e)
    | inr (here, own, _, _) ↦ (own, here)
  ]

  -- A frame to a group address, or to one that nobody is known to own, reaches every other peer.
  pub forward_floods :
      (id : Bytes) (q : Peer)
      → is_current r from ≡ true
      → IsFlooded r from (frame_dst frame)
      → lookup id r.peers ≡ some q
      → same_peer q from ≡ false
      → reaches ts q ≡ true
  forward_floods id q here flooded e d = elim forward-Sent [
    | inl (gone, _, _) ↦ cc (here, gone)
    | inr (_, own, _, found) ↦
        other_peers-reaches (learn r from) id q from ts e d
          (sym (route_flooded r from (frame_dst frame) flooded) ∙ found)
  ]

  -- A frame to the known address of another peer that is in the room goes to that peer alone.
  pub forward_unicasts :
      (t : Peer)
      → is_current r from ≡ true
      → is_broadcast (frame_dst frame) || is_multicast (frame_dst frame) ≡ false
      → from.mac ≢ frame_dst frame
      → lookup (frame_dst frame) r.mac_to_peer ≡ some t
      → is_current r t ≡ true
      → same_peer t from ≡ false
      → ts ≡ t ∷ []
  unfolding route unicast_target
  forward_unicasts t here single other owner there d = elim forward-Sent [
    | inl (gone, _, _) ↦ cc (here, gone)
    | inr (_, own, _, found) ↦ ground (
      arith,
      found,
      learn-is_current r from t,
      lookup-insert from.mac (frame_dst frame) from r.mac_to_peer,
      bytes_eq_iff from.mac (frame_dst frame),
    )
  ]
