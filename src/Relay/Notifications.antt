-- ===== src/Relay/Notifications.antt =====
-- The notifications of internal/relay/room.go: SendNotify and BroadcastNotify, which put a message
-- into the `Notify` channel of peers and drop it where that is full. `none` is a panic.
pub mod Apart
pub mod Broadcast
use anylan.Base.{Bool, false, not, List, ◌∷◌, Option, none, some, keep, []}
use anylan.Base.Bytes.{Bytes}
use anylan.Base.Dictionary.{lookup, values}
use anylan.Relay.Peer.{Peer, same_peer, try_send}
use anylan.Relay.Room.{Room}
use anylan.Relay.Manager.{World, set_peer}

-- A send to `p.Notify`, which does not block. `none` is a panic.
unfoldable pub notify_peer : Peer → Bytes → World → Option (Bool × World)
unfolding try_send
notify_peer p msg w = elim (w.peer_at p.address) [
  | none ↦ none
  | some c ↦ elim (try_send c.state.notify msg) [
    | none ↦ none
    | some (channel, sent) ↦
        some
          (sent, set_peer w p.address (record c { state = record (c.state) { notify = channel } }))
  ]
]

unfoldable pub send_notify : Room → Bytes → Bytes → World → Option (Bool × World)
unfolding notify_peer
send_notify r to msg w = elim (lookup to r.peers) [
  | none ↦ some (false, w)
  | some p ↦ notify_peer p msg w
]

-- Is this the pointer to exclude, which may be nil?
abbrev pub is_excluded : Option Peer → Peer → Bool
is_excluded none p = false
is_excluded (some q) p = same_peer p q

unfoldable pub notify_all : List Peer → Bytes → World → Option World
notify_all [] msg w = some w
notify_all (p ∷ ps) msg w =
    let rest = notify_all ps msg in
    elim (notify_peer p msg w) [ none ↦ none | some (sent, w') ↦ rest w' ]

unfoldable pub broadcast_notify : Room → Bytes → Option Peer → World → Option World
broadcast_notify r msg exclude w =
    notify_all (keep (λ p. not (is_excluded exclude p)) (values r.peers)) msg w
