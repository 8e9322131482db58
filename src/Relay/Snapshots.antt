-- ===== src/Relay/Snapshots.antt =====
-- The views that internal/relay/room.go gives of a manager: Manager.Room, Manager.Snapshot,
-- Room.Snapshot, Peer.Snapshot and the accessors. The text of an address and of a prefix, and
-- time.Now, are arguments.
pub mod Listing
use anylan.Base.{ℕ, Bool, true, false, List, ◌∷◌, Option, some, ltb, ◌==◌, if◌then◌else◌, []}
use anylan.Base.Slices.{◌>>=◌}
use anylan.Base.Bytes.{Bytes}
use anylan.Base.Dictionary.{lookup, values}
use anylan.Base.Sorting.{sort_by}
use anylan.Base.Formatting.{mac_string}
use anylan.Relay.Address.{Addr, Prefix}
use anylan.Relay.Peer.{Peer, PeerState}
use anylan.Relay.Room.{Room}
use anylan.Relay.Manager.{World}

pub record PeerSnapshot : Type 0 where
  pub id : Bytes
  pub display_name : Bytes
  pub features : List Bytes
  pub ip : Bytes
  pub mac : Bytes
  pub connected_at : ℕ
  pub rx_bytes : ℕ
  pub rx_frames : ℕ
  pub tx_bytes : ℕ
  pub tx_frames : ℕ
  pub drop_bytes : ℕ
  pub drop_frames : ℕ

unfoldable pub peer_snapshot : (Addr → Bytes) → Peer → PeerState → PeerSnapshot
peer_snapshot addr_string p s = record {
  id = p.id;
  display_name = p.display_name;
  features = p.features;
  ip = addr_string p.ip;
  mac = mac_string p.mac;
  connected_at = p.connected_at;
  rx_bytes = s.rx_bytes;
  rx_frames = s.rx_frames;
  tx_bytes = s.tx_bytes;
  tx_frames = s.tx_frames;
  drop_bytes = s.drop_bytes;
  drop_frames = s.drop_frames;
}

-- `<` on strings.
unfoldable pub bytes_ltb : Bytes → Bytes → Bool
bytes_ltb xs [] = false
bytes_ltb [] (y ∷ ys) = true
bytes_ltb (x ∷ xs) (y ∷ ys) = if x == y then bytes_ltb xs ys else ltb x y

-- The order of `Room.Snapshot`: oldest connection first, and then by identifier.
unfoldable pub joined_before : Peer → Peer → Bool
joined_before p q =
    if p.connected_at == q.connected_at
    then bytes_ltb p.id q.id
    else ltb p.connected_at q.connected_at

pub record RoomSnapshot : Type 0 where
  pub name : Bytes
  pub prefix : Bytes
  pub created_at : ℕ
  pub peers : List PeerSnapshot

pub record ManagerSnapshot : Type 0 where
  pub generated_at : ℕ
  pub pool : Bytes
  pub rooms : List RoomSnapshot

-- The order of `Manager.Snapshot`: oldest room first, and then by name.
unfoldable pub created_before : Room → Room → Bool
created_before r s =
    if r.created_at == s.created_at then bytes_ltb r.name s.name else ltb r.created_at s.created_at

-- `m.Room(roomName)`: the pointer, if there is one.
unfoldable pub room_named : Bytes → World → Option ℕ
room_named name w = lookup name w.rooms

-- What the pointers lead to. `none` is a pointer that leads nowhere.
unfoldable pub rooms_at : World → List ℕ → Option (List Room)
rooms_at w [] = some []
rooms_at w (a ∷ rest) = do r ← w.room_at a; rs ← rooms_at w rest; some (r ∷ rs)

module _ (addr_string : Addr → Bytes) (prefix_string : Prefix → Bytes) where
  -- The counters are read from the heap, each peer's after the room's lock is released.
  unfoldable pub snapshots_of : World → List Peer → Option (List PeerSnapshot)
  snapshots_of w [] = some []
  snapshots_of w (p ∷ peers) = do
    c ← w.peer_at p.address
    rest ← snapshots_of w peers
    some (peer_snapshot addr_string p c.state ∷ rest)

  unfoldable pub room_snapshot : World → Room → Option RoomSnapshot
  room_snapshot w r = do
    peers ← snapshots_of w (sort_by joined_before (values r.peers))
    some (record {
      name = r.name;
      prefix = prefix_string r.prefix;
      created_at = r.created_at;
      peers = peers;
    })

  unfoldable pub room_snapshots : World → List Room → Option (List RoomSnapshot)
  room_snapshots w [] = some []
  room_snapshots w (r ∷ rooms) = do
    s ← room_snapshot w r
    rest ← room_snapshots w rooms
    some (s ∷ rest)

  unfoldable pub manager_snapshot : ℕ → World → Option ManagerSnapshot
  manager_snapshot now w = do
    found ← rooms_at w (values w.rooms)
    rooms ← room_snapshots w (sort_by created_before found)
    some (record { generated_at = now; pool = prefix_string w.pool; rooms = rooms })
