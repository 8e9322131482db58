-- ===== src/Relay/Manager/Invariant.antt =====
-- The manager's invariant.
use anylan.Base.{
  ℕ, ◌+◌, ◌*◌, ◌%◌, ◌^◌, ◌≤◌, ◌<◌, ◌≡◌, ◌≢◌, ◌∙◌, ap, refl, true, false, ◌⊎◌, inl, inr, List, [],
  Option, some, arith, contains, ok,
}
use anylan.Base.Bytes.{Bytes}
use anylan.Base.Dictionary.{lookup}
use anylan.Base.Sorting.{IsDistinct}
use anylan.Relay.Address.{Prefix, ipv4_to_uint32}
use anylan.Relay.Peer.{Peer}
use anylan.Relay.Room.{Room}
use anylan.Relay.Room.Members.{IsConsistent}
use anylan.Relay.Manager.{World, Cell, max_rooms}

-- What LoadPool (internal/server/server.go) makes sure of: an IPv4 pool with the address bits below
-- the prefix cleared, so that it holds its rooms' subnets of 256 addresses.
pub record PoolFits (base : ℕ) (pool : Prefix) : Type 0 where
  pub is_ipv4 : ipv4_to_uint32 pool.addr ≡ ok base
  pub aligned : base % 256 ≡ 0
  pub holds : base + max_rooms pool.bits * 256 ≤ 2 ^ 32

-- The numbers of the rooms: those handed out, less those given back.
pub record IndicesFit (limit next : ℕ) (free : List ℕ) : Type 0 where
  pub limited : next ≤ limit
  pub free_distinct : IsDistinct free
  pub free_below : (i : ℕ) → contains i free ≡ true → i < next

-- The peer stands on the heap as its pointer says, with its queue open.
pub record IsLive (w : World) (p : Peer) : Type 0 where
  pub cell : Cell
  pub found : w.peer_at p.address ≡ some cell
  pub same : cell.info ≡ p
  pub is_open : cell.state.frames.closed ≡ false

-- What holds of the room at the address `a`.
pub record RoomFits (base : ℕ) (w : World) (a : ℕ) (r : Room) : Type 0 where
  pub own_address : r.address ≡ a
  pub old : a < w.next_address
  pub managed : r.managed ≡ true
  pub numbered : r.index < w.next_room
  pub consistent : IsConsistent (base + r.index * 256) r
  pub listed : r.closed ≡ false → lookup r.name w.rooms ≡ some a
  pub in_use : r.closed ≡ false → contains r.index w.free_room ≡ false
  pub closed_empty : r.closed ≡ true → r.peers ≡ []
  pub live : (id : Bytes) (p : Peer) → lookup id r.peers ≡ some p → IsLive w p
  pub known :
      (mac : Bytes) (p : Peer)
      → lookup mac r.mac_to_peer ≡ some p
      → (c : Cell) × (w.peer_at p.address ≡ some c) × (c.info ≡ p)

-- A name of the manager's map leads to an open room of that name.
pub record IsOpenRoom (w : World) (name : Bytes) (a : ℕ) : Type 0 where
  pub room : Room
  pub found : w.room_at a ≡ some room
  pub named : room.name ≡ name
  pub is_open : room.closed ≡ false

pub record WorldFits (base : ℕ) (w : World) : Type 0 where
  pub pool : PoolFits base w.pool
  pub indices : IndicesFit (max_rooms w.pool.bits) w.next_room w.free_room
  pub room : (a : ℕ) (r : Room) → w.room_at a ≡ some r → RoomFits base w a r
  pub registry : (name : Bytes) (a : ℕ) → lookup name w.rooms ≡ some a → IsOpenRoom w name a
  pub differ :
      (a b : ℕ) (r s : Room)
      → w.room_at a ≡ some r
      → w.room_at b ≡ some s
      → r.closed ≡ false
      → s.closed ≡ false
      → r.index ≡ s.index
      → a ≡ b
  pub cell : (a : ℕ) (c : Cell) → w.peer_at a ≡ some c → (c.info.address ≡ a) × (a < w.next_address)

-- The heap still has the peers that it had, the same for all that is not in their state.
pub record Keeps (w w' : World) : Type 0 where
  pub address_grows : w.next_address ≤ w'.next_address
  pub room_grows : w.next_room ≤ w'.next_room
  pub cells :
      (a : ℕ) (c : Cell)
      → w.peer_at a ≡ some c
      → (c' : Cell) × (w'.peer_at a ≡ some c') × (c'.info ≡ c.info)

pub Keeps-refl : (w : World) → Keeps w w
Keeps-refl w = record {
  address_grows = omega arith;
  room_grows = omega arith;
  cells = λ a c e. (c, e, refl);
}

-- A room that a step leaves alone fits as before, if its peers stay and the manager keeps its name
-- and its number.
pub RoomFits-Keeps :
    (base : ℕ) (w w' : World) (a : ℕ) (r : Room)
    → Keeps w w'
    → ((id : Bytes) (p : Peer) → lookup id r.peers ≡ some p → IsLive w p → IsLive w' p)
    → (r.closed ≡ false → lookup r.name w.rooms ≡ some a → lookup r.name w'.rooms ≡ some a)
    → (r.closed ≡ false
        → contains r.index w.free_room ≡ false
        → contains r.index w'.free_room ≡ false)
    → RoomFits base w a r
    → RoomFits base w' a r
RoomFits-Keeps base w w' a r k live listed in_use f = record {
  own_address = f.own_address;
  old = omega (arith, f.old, k.address_grows);
  managed = f.managed;
  numbered = omega (arith, f.numbered, k.room_grows);
  consistent = f.consistent;
  listed = λ e. listed e (f.listed e);
  in_use = λ e. in_use e (f.in_use e);
  closed_empty = f.closed_empty;
  live = λ id p e. live id p e (f.live id p e);
  known = λ mac p e.
      let (c, found, same) = f.known mac p e in
      let (c', found', same') = k.cells p.address c found in (c', found', same' ∙ same);
}

-- Where the heap of the peers is the same, so are the live ones.
pub IsLive-same : (w w' : World) (p : Peer) → w'.peer_at ≡ w.peer_at → IsLive w p → IsLive w' p
IsLive-same w w' p e l = record {
  cell = l.cell;
  found = ap (λ (f : ℕ → Option Cell). f p.address) e ∙ l.found;
  same = l.same;
  is_open = l.is_open;
}

-- The number of an open room is not one that is given out.
pub index_apart :
    (base : ℕ) (w : World) (a : ℕ) (r : Room) (i : ℕ)
    → RoomFits base w a r
    → r.closed ≡ false
    → (contains i w.free_room ≡ true) ⊎ (i ≡ w.next_room)
    → r.index ≢ i
index_apart base w a r i f live (inl free) same = cc (f.in_use live, free, same)
index_apart base w a r i f live (inr next) same = omega (arith, f.numbered)
