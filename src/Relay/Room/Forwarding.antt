-- ===== src/Relay/Room/Forwarding.antt =====
-- Forward: how a call can end, and the peers that a destination leads to.
use anylan.Base.{
  ℕ, ◌≡◌, ◌≢◌, ◌∙◌, refl, Bool, true, false, not, ◌||◌, inl, inr, List, [], ◌∷◌, Option, some,
  arith, length, keep, All, ltb, leb, Result, ok, err, Bool-cases, Option-cases,
}
use mathlib.Core.Path.{subst}
use anylan.Base.Bytes.{Bytes, bytes_eq, bytes_eq_iff, bytes_eq_refl}
use anylan.Base.Dictionary.{Dictionary, lookup, values, IsUnique, lookup-insert, insert-IsUnique}
use anylan.Relay.Error.{Error, invalid_frame, source_mac_invalid}
use anylan.Relay.Mac.{is_broadcast, is_multicast}
use anylan.Relay.Peer.{Peer, same_peer}
use anylan.Relay.Room.{
  Room, is_current, other_peers, unicast_target, route, learn, pass_on, forward, forward_from,
  frame_dst, frame_src,
}
use anylan.Relay.Room.Members.{IsConsistent}

-- Every value of a map stands under a key.
pub All-values {ℓ κ} :
    {V : Type ℓ} (P : V → Type κ) (m : Dictionary V)
    → IsUnique m
    → ((k : Bytes) (v : V) → lookup k m ≡ some v → P v)
    → All P (values m)
unfolding lookup values
All-values P [] u f = tt
All-values P ((k, v) ∷ m) u f = (
  f k v (ground (arith, bytes_eq_refl k)),
  All-values P m u.1 (λ j w e. f j w (ground (arith, bytes_eq_iff k j, e, u.0))),
)

pub All-keep {ℓ κ} :
    {A : Type ℓ} (P Q : A → Type κ) (p : A → Bool) (xs : List A)
    → ((a : A) → P a → p a ≡ true → Q a)
    → All P xs
    → All Q (keep p xs)
All-keep P Q p [] f h = tt
All-keep P Q p (x ∷ xs) f h = elim (Bool-cases (p x)) [
  | inl e ↦ rw e (f x h.0 e, All-keep P Q p xs f h.1)
  | inr e ↦ rw e (All-keep P Q p xs f h.1)
]

-- A target is in the room, as pointers go, and is not the sender.
abbrev pub IsTarget : Room → Peer → Peer → Type 0
IsTarget r from t = (is_current r t ≡ true) × (same_peer t from ≡ false)

registered_current :
    (r : Room) (id : Bytes) (p : Peer)
    → p.id ≡ id
    → lookup id r.peers ≡ some p
    → is_current r p ≡ true
unfolding is_current
registered_current r id p e h = ground arith

other_peers-IsTarget :
    (base : ℕ) (r : Room) (from : Peer) (ts : List Peer)
    → IsConsistent base r
    → other_peers r from ≡ some ts
    → All (IsTarget r from) ts
unfolding other_peers
other_peers-IsTarget base r from ts c e =
    let current : All (λ t. is_current r t ≡ true) (values r.peers) =
      All-values (λ t. is_current r t ≡ true) r.peers c.peers_unique
        (λ k t h. registered_current r k t (c.member k t h).own_id h) in
    let same : keep (λ (t : Peer). not (same_peer t from)) (values r.peers) ≡ ts = ground arith in
    subst (All (IsTarget r from)) same (
      All-keep (λ t. is_current r t ≡ true) (IsTarget r from) (λ t. not (same_peer t from))
        (values r.peers) (λ t h d. (h, ground arith)) current)

-- Learning an address changes nothing else.
pub learn-IsConsistent :
    (base : ℕ) (r : Room) (p : Peer) → IsConsistent base r → IsConsistent base (learn r p)
learn-IsConsistent base r p c = record {
  aligned = c.aligned;
  in_range = c.in_range;
  subnet = c.subnet;
  hosts = c.hosts;
  member = λ id q e.
      let m = c.member id q e in
      record {
        own_id = m.own_id;
        own_room = m.own_room;
        own_ip = m.own_ip;
        low = m.low;
        below = m.below;
        taken = m.taken;
      };
  differ = c.differ;
  peers_unique = c.peers_unique;
  macs_unique = insert-IsUnique p.mac p r.mac_to_peer c.macs_unique;
  mac_owner = λ mac q e.
      ground
        (arith, c.mac_owner mac q, lookup-insert p.mac mac p r.mac_to_peer, bytes_eq_iff p.mac mac);
}

unicast_target-IsTarget :
    (r : Room) (from : Peer) (dst : Bytes) (t : Peer)
    → unicast_target r from dst ≡ some t
    → IsTarget r from t
unfolding unicast_target
unicast_target-IsTarget r from dst t e = ground arith

pub route-IsTarget :
    (base : ℕ) (r : Room) (from : Peer) (dst : Bytes) (ts : List Peer)
    → IsConsistent base r
    → route r from dst ≡ some ts
    → All (IsTarget r from) ts
unfolding route
route-IsTarget base r from dst ts c e = elim (Bool-cases (is_broadcast dst || is_multicast dst)) [
  | inl group ↦ other_peers-IsTarget base r from ts c (ground arith)
  | inr single ↦ elim (Option-cases (unicast_target r from dst)) [
    | inl n ↦ other_peers-IsTarget base r from ts c (ground arith)
    | inr (t, s) ↦
        let same : t ∷ [] ≡ ts = ground arith in
        subst (All (IsTarget r from)) same (unicast_target-IsTarget r from dst t s, tt)
  ]
]

pub learn-is_current : (r : Room) (p q : Peer) → is_current (learn r p) q ≡ is_current r q
unfolding is_current
learn-is_current r p q = refl

pub lookup-length :
    (id : Bytes) (p : Peer) (m : Dictionary Peer) → lookup id m ≡ some p → length m ≢ 0
unfolding lookup
lookup-length id p [] e = cc
lookup-length id p (q ∷ m) e = λ z. omega arith

-- With the sender in the room there is somebody, so `make` gets no negative capacity.
pub route_total :
    (r : Room) (from : Peer) (dst : Bytes)
    → is_current r from ≡ true
    → (ts : List Peer) × (route r from dst ≡ some ts)
unfolding route other_peers is_current
route_total r from dst e = elim (Option-cases (lookup from.id r.peers)) [
  | inl n ↦ cc (n, e)
  | inr (q, s) ↦ elim (Option-cases (route r from dst)) [
    | inr found ↦ found
    | inl n ↦ absurd (lookup-length from.id q r.peers s (ground arith))
  ]
]

-- A frame that is long enough has both addresses, and no cut is out of range.
pub forward_cut :
    (r : Room) (from : Peer) (frame : Bytes)
    → ltb (length frame) 14 ≡ false
    → forward r from frame ≡ forward_from r from (frame_dst frame) (frame_src frame)
unfolding forward
forward_cut r from frame long =
    let dst_there : leb 6 (length frame) ≡ true = ground (arith, long) in
    let src_there : leb 12 (length frame) ≡ true = ground (arith, long) in
    rw (long, dst_there, src_there) refl

forward_short :
    (r : Room) (from : Peer) (frame : Bytes)
    → ltb (length frame) 14 ≡ true
    → forward r from frame ≡ some (err invalid_frame, r)
unfolding forward
forward_short r from frame short = rw short refl

module _ (r : Room) (from : Peer) (frame : Bytes) where
  -- How a call can end.
  pub data Outcome : Option (Result Error (List Peer) × Room) → Type 0 where
    refused : (e : Error) → Outcome (some (err e, r))
    absent : is_current r from ≡ false → Outcome (some (ok [], r))
    passed :
        (ts : List Peer)
        → is_current r from ≡ true
        → frame_src frame ≡ from.mac
        → route (learn r from) from (frame_dst frame) ≡ some ts
        → Outcome (some (ok ts, learn r from))

  pub forward-Outcome : Outcome (forward r from frame)
  unfolding forward_from
  forward-Outcome = elim (Bool-cases (ltb (length frame) 14)) [
    | inl short ↦ rw (forward_short r from frame short) (refused invalid_frame)
    | inr long ↦ elim (Bool-cases (bytes_eq (frame_src frame) from.mac)) [
      | inr other ↦ rw (forward_cut r from frame long, other) (refused source_mac_invalid)
      | inl own ↦ elim (Bool-cases (is_current r from)) [
        | inr gone ↦ rw (forward_cut r from frame long, own, gone) (absent gone)
        | inl here ↦
            let (ts, e) =
              route_total (learn r from) from (frame_dst frame)
                (learn-is_current r from from ∙ here) in
            rw (forward_cut r from frame long, own, here, pass_on, e)
              (passed ts here ((bytes_eq_iff (frame_src frame) from.mac).0 own) e)
      ]
    ]
  ]
