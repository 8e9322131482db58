-- ===== src/Relay/Notifications/Broadcast.antt =====
-- BroadcastNotify: what the channel of every peer is afterwards.
use anylan.Base.{
  ℕ, ◌≡◌, refl, ◌∙◌, Bool, true, false, not, inl, inr, List, [], ◌∷◌, ◌++◌, Option, none, some,
  keep, arith, length, ltb, ◌==◌, contains, if◌then◌else◌, Bool-cases, All, All-map,
}
use anylan.Base.Bytes.{Bytes}
use anylan.Base.Dictionary.{lookup, values}
use anylan.Base.Sorting.{IsDistinct}
use anylan.Relay.Peer.{Peer, Channel, try_send}
use anylan.Relay.Room.{Room}
use anylan.Relay.Room.Forwarding.{All-keep}
use anylan.Relay.Manager.{World, Cell, set_peer}
use anylan.Relay.Manager.Invariant.{WorldFits}
use anylan.Relay.Manager.Leaving.{IsHandle}
use anylan.Relay.Manager.Tidy.{IsTidy, Step-IsTidy}
use anylan.Relay.Manager.Steps.{Step, Reach, here, next, announce}
use anylan.Relay.Notifications.Apart.{addresses, kept-contains, keep-IsDistinct, peers_apart}
use anylan.Relay.Notifications.{notify_peer, notify_all, broadcast_notify, is_excluded}

-- What a channel is after an offer that does not block: the message is last, or it was full.
abbrev pub offered : Channel → Bytes → Channel
offered c msg =
    if ltb (length c.buffer) c.capacity then record c { buffer = c.buffer ++ msg ∷ [] } else c

abbrev pub informed : Cell → Bytes → Cell
informed c msg = record c { state = record (c.state) { notify = offered c.state.notify msg } }

try_send-offered :
    (c : Channel) (msg : Bytes)
    → c.closed ≡ false
    → (sent : Bool) × (try_send c msg ≡ some (offered c msg, sent))
unfolding try_send
try_send-offered c msg open_now = elim (Bool-cases (ltb (length c.buffer) c.capacity)) [
  | inl space ↦ (true, ground (arith, open_now, space))
  | inr full ↦ (false, ground (arith, open_now, full))
]

pub notify_peer-informed :
    (w : World) (p : Peer) (msg : Bytes) (c : Cell)
    → IsTidy w
    → w.peer_at p.address ≡ some c
    → (sent : Bool) × (notify_peer p msg w ≡ some (sent, set_peer w p.address (informed c msg)))
unfolding notify_peer
notify_peer-informed w p msg c t at =
    let (sent, e) = try_send-offered c.state.notify msg (t.notify_open p.address c at) in
    (sent, ground (arith, at, e))

set_peer-IsHandle :
    (w : World) (p q : Peer) (c d : Cell)
    → w.peer_at p.address ≡ some c
    → d.info ≡ c.info
    → IsHandle w q
    → IsHandle (set_peer w p.address d) q
set_peer-IsHandle w p q c d at same h = elim (Bool-cases (p.address == q.address)) [
  | inl hit ↦ record {
    cell = d;
    found = ground (arith, hit);
    same = same ∙ ground (arith, hit, at, h.found, h.same);
  }
  | inr miss ↦ record { cell = h.cell; found = ground (arith, miss, h.found); same = h.same }
]

-- A run of notifications: it is made of steps, leaves the cells of others, and gives every peer of
-- the list one offer.
record Notified (w : World) (ps : List Peer) (msg : Bytes) (w' : World) : Type 0 where
  run : Reach w w'
  rooms : w'.room_at ≡ w.room_at
  others : (b : ℕ) → contains b (addresses ps) ≡ false → w'.peer_at b ≡ w.peer_at b
  each :
      (b : ℕ) (c : Cell)
      → contains b (addresses ps) ≡ true
      → w.peer_at b ≡ some c
      → w'.peer_at b ≡ some (informed c msg)

Reach-before : {w v u : World} → Step w v → Reach v u → Reach w u
Reach-before s here = next here s
Reach-before s (next r t) = next (Reach-before s r) t

notify_all_total :
    (ps : List Peer) (msg : Bytes) (w : World)
    → IsTidy w
    → All (IsHandle w) ps
    → IsDistinct (addresses ps)
    → (w' : World) × (notify_all ps msg w ≡ some w') × Notified w ps msg w'
unfolding notify_all contains
notify_all_total [] msg w t all d =
    (w, refl, record { run = here; rooms = refl; others = λ b h. refl; each = λ b c h e. cc })
notify_all_total (p ∷ ps) msg w t (h, all) (new, d) =
    let c = h.cell in
    let (sent, e) = notify_peer-informed w p msg c t h.found in
    let v = set_peer w p.address (informed c msg) in
    let step : Step w v = announce msg h e in
    let (w', rest, n) =
      notify_all_total ps msg v (Step-IsTidy step t)
        (All-map (λ q k. set_peer-IsHandle w p q c (informed c msg) h.found refl k) ps all) d in
    (
      w',
      ground (arith, e, rest),
      record {
        run = Reach-before step n.run;
        rooms = n.rooms;
        others = λ b out. n.others b (ground (arith, out)) ∙ ground (arith, out);
        each = λ b x hit at. elim (Bool-cases (p.address == b)) [
          | inl own ↦ n.others b (ground (arith, own, new)) ∙ ground (arith, own, at, h.found)
          | inr other ↦ n.each b x (ground (arith, other, hit)) (ground (arith, other, at))
        ];
      },
    )

left_out :
    (test : Peer → Bool) (b : ℕ) (ps : List Peer)
    → ((q : Peer) → q.address ≡ b → test q ≡ false)
    → contains b (addresses (keep test ps)) ≡ false
unfolding contains
left_out test b [] out = refl
left_out test b (p ∷ ps) out = ground (arith, out p, left_out test b ps out)

excluded_same :
    (exclude : Option Peer) (p q : Peer)
    → q.address ≡ p.address
    → is_excluded exclude p ≡ true
    → not (is_excluded exclude q) ≡ false
excluded_same none p q same out = cc
excluded_same (some x) p q same out = ground (arith, same, out)

-- The channel of the registered peers after a broadcast.
abbrev pub Told : World → Room → Bytes → Option Peer → World → Type 0
Told w r msg exclude w' =
    (id : Bytes) (p : Peer) (c : Cell)
    → lookup id r.peers ≡ some p
    → w.peer_at p.address ≡ some c
    → w'.peer_at p.address ≡ some (if is_excluded exclude p then c else informed c msg)

-- BroadcastNotify to a room of the heap does not panic, is made of steps, leaves the rooms, and
-- offers the message once to every peer of the room but the excluded one.
pub broadcast_notify_total :
    (base : ℕ) (w : World) (a : ℕ) (r : Room) (msg : Bytes) (exclude : Option Peer)
    → WorldFits base w
    → IsTidy w
    → w.room_at a ≡ some r
    → (w' : World) × (broadcast_notify r msg exclude w ≡ some w')
      × Reach w w'
      × (w'.room_at ≡ w.room_at)
      × Told w r msg exclude w'
unfolding broadcast_notify
broadcast_notify_total base w a r msg exclude f t at =
    let test : Peer → Bool = λ p. not (is_excluded exclude p) in
    let (all, d) = peers_apart base w a r f at in
    let (w', e, n) =
      notify_all_total (keep test (values r.peers)) msg w t
        (All-keep (IsHandle w) (IsHandle w) test (values r.peers) (λ p h _. h) all)
        (keep-IsDistinct test (values r.peers) d) in
    (
      w',
      e,
      n.run,
      n.rooms,
      λ id p c reg found. elim (Bool-cases (is_excluded exclude p)) [
        | inl out ↦
            n.others p.address (
              left_out test p.address (values r.peers)
                (λ q same. excluded_same exclude p q same out))
            ∙ ground (arith, out, found)
        | inr told ↦
            n.each p.address c (kept-contains id p test r.peers reg (ground (arith, told))) found
            ∙ ground (arith, told)
      ],
    )
