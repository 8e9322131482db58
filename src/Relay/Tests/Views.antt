-- ===== src/Relay/Tests/Views.antt =====
-- The theorems on snapshots, notifications, the handler and its streams, on a room of two peers.
use anylan.Base.{◌≡◌, ◌↔◌, List, refl, true, [], ◌∷◌, some, ok, arith, All, map}
use mathlib.Core.List.{Perm}
use anylan.Base.Bytes.{Bytes, bytes_eq}
use anylan.Base.Sorting.{IsOrdered}
use anylan.Base.Dictionary.{lookup}
use anylan.Relay.Address.{Addr, Prefix}
use anylan.Relay.Peer.{Peer}
use anylan.Relay.Room.{forward, is_current, learn, frame_dst}
use anylan.Relay.Room.Delivery.{reaches}
use anylan.Relay.Room.Recipients.{Receives, forward_iff}
use anylan.Relay.Manager.Tidy.{IsTidy, Reach-IsTidy, new_manager-IsTidy}
use anylan.Relay.Snapshots.{ManagerSnapshot, manager_snapshot}
use anylan.Relay.Snapshots.Listing.{ShowsRoom, manager_snapshot_total, older, shown_room_key}
use anylan.Relay.Tests.{base, ann, home, fits, with_bob, reached, pool, home-IsConsistent}

abbrev no_text : Addr → Bytes
no_text a = []

abbrev no_prefix : Prefix → Bytes
no_prefix p = []

abbrev to_all : Bytes
to_all = 255 ∷ 255 ∷ 255 ∷ 255 ∷ 255 ∷ 255 ∷ 6 ∷ 7 ∷ 7 ∷ 7 ∷ 7 ∷ 7 ∷ 8 ∷ 0 ∷ []

forward_iff_example :
    (ts : List Peer) × (forward home ann to_all ≡ some (ok ts, learn home ann))
    × ((q : Peer)
        → is_current home q ≡ true
        → (reaches ts q ≡ true) ↔ Receives home ann (frame_dst to_all) q)
unfolding is_current lookup bytes_eq
forward_iff_example = forward_iff base home ann to_all home-IsConsistent (omega arith) refl refl

pub tidy : IsTidy with_bob
tidy = Reach-IsTidy (new_manager-IsTidy pool) reached

manager_snapshot_total_example :
    (s : ManagerSnapshot) × (manager_snapshot no_text no_prefix 9 with_bob ≡ some s)
    × Perm (map (λ t. t.name) s.rooms) (map (λ e. e.0) with_bob.rooms)
    × IsOrdered older (map shown_room_key s.rooms)
    × All (ShowsRoom no_text no_prefix with_bob) s.rooms
manager_snapshot_total_example = manager_snapshot_total no_text no_prefix base 9 with_bob fits tidy
