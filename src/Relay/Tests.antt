-- ===== src/Relay/Tests.antt =====
-- A manager with one room and two peers, built by the program's own steps, on which the theorems of
-- this part are applied.
mod Rooms
mod Peers
mod Turns
mod Views
mod Handlers
mod Welcome
use anylan.Base.{
  ℕ, zero, suc, ◌+◌, ◌*◌, ◌^◌, ◌≡◌, ◌≢◌, refl, Bool, true, false, inl, inr, List, [], ◌∷◌, Option,
  none, some, arith, length, Result, ok, err,
}
use anylan.Base.Bytes.{Bytes, text, bytes_eq}
use anylan.Base.Dictionary.{lookup, insert, delete}
use anylan.Relay.Error.{Error}
use anylan.Relay.Address.{Prefix, v4, uint32_to_ipv4, ipv4_to_uint32}
use anylan.Relay.Mac.{Entropy, random_mac, random_hex, hex, clone_mac, valid_peer_mac}
use anylan.Relay.Peer.{Peer, new_state}
use anylan.Relay.Room.{
  Room, JoinOptions, add_peer, draw_identity, choose_mac, allocate_host, host_addr, finish_add,
}
use anylan.Relay.Manager.{
  World, new_manager, max_rooms, get_or_create_room, create_room, allocate_room_index, split_last,
  room_add_peer,
}
use anylan.Base.Sorting.{sort_by, insert_by}
use anylan.Relay.Room.Members.{IsConsistent}
use anylan.Relay.Manager.{update, enqueue_to, join, returns, delete_empty_room}
use anylan.Relay.Manager.Safety.{IsIn, peer_address_unique, enqueue_to_total}
use anylan.Relay.Manager.Join.{Answers, join_total}
use anylan.Relay.Manager.Creating.{Given, get_or_create_room-Given}
use anylan.Relay.Manager.Deleting.{delete_empty_room-WorldFits}
use anylan.Relay.Manager.Invariant.{PoolFits, WorldFits}
use anylan.Relay.Manager.Steps.{
  Step, Reach, here, next, create, add, Reach-WorldFits, new_manager-WorldFits,
}

abbrev pub base : ℕ
base = 10 * 2 ^ 24

abbrev pub pool : Prefix
pool = record { addr = v4 10 0 0 0; bits = 16 }

abbrev start : World
start = new_manager pool

start-WorldFits : WorldFits base start
unfolding ipv4_to_uint32 max_rooms
start-WorldFits =
    new_manager-WorldFits base pool (record { is_ipv4 = refl; aligned = refl; holds = omega arith })

abbrev pub repeated : ℕ → ℕ → Bytes
repeated b zero = []
repeated b (suc n) = b ∷ repeated b n

abbrev pub rand_of : ℕ → Entropy
rand_of b n = some (repeated b n)

abbrev pub options : JoinOptions
options = record { display_name = text "ann"; requested_mac = none; features = [] }

abbrev pub lan : Bytes
lan = text "lan"

abbrev world_or {ℓ} : {A : Type ℓ} → World → Option (A × World) → World
world_or w none = w
world_or w (some (x, v)) = v

abbrev with_room : World
with_room = (get_or_create_room lan 5 start).1

abbrev with_ann : World
with_ann = world_or with_room (room_add_peer 0 options (rand_of 7) 6 with_room)

abbrev pub with_bob : World
with_bob = world_or with_ann (room_add_peer 0 options (rand_of 9) 7 with_ann)

abbrev pub ann : Peer
ann = record {
  address = 1;
  id = text "0707070707070707";
  display_name = text "ann";
  features = [];
  room = 0;
  ip = v4 10 0 0 2;
  mac = 6 ∷ 7 ∷ 7 ∷ 7 ∷ 7 ∷ 7 ∷ [];
  connected_at = 6;
}

abbrev pub bob : Peer
bob = record ann {
  address = 2;
  id = text "0909090909090909";
  ip = v4 10 0 0 3;
  mac = 10 ∷ 9 ∷ 9 ∷ 9 ∷ 9 ∷ 9 ∷ [];
  connected_at = 7;
}

abbrev pub home : Room
home = record {
  address = 0;
  managed = true;
  index = 0;
  name = lan;
  prefix = record { addr = v4 10 0 0 0; bits = 24 };
  created_at = 5;
  peers = (ann.id, ann) ∷ (bob.id, bob) ∷ [];
  mac_to_peer = (ann.mac, ann) ∷ (bob.mac, bob) ∷ [];
  next_host = 4;
  free_hosts = [];
  closed = false;
}

pub home_found : with_bob.room_at 0 ≡ some home
unfolding new_manager get_or_create_room create_room allocate_room_index max_rooms room_add_peer
    lookup insert ipv4_to_uint32 uint32_to_ipv4 add_peer draw_identity random_hex hex choose_mac
    clone_mac random_mac allocate_host host_addr finish_add bytes_eq
home_found = refl

pub reached : Reach start with_bob
unfolding new_manager get_or_create_room create_room allocate_room_index max_rooms room_add_peer
    lookup insert ipv4_to_uint32 uint32_to_ipv4 add_peer draw_identity random_hex hex choose_mac
    clone_mac random_mac allocate_host host_addr finish_add bytes_eq
reached =
    next
      (next (next here (create lan 5 {res = ok 0} refl))
        (add 0 options (rand_of 7) 6 {res = ok ann} refl refl))
      (add 0 options (rand_of 9) 7 {res = ok bob} refl refl)

pub fits : WorldFits base with_bob
fits = Reach-WorldFits base start-WorldFits reached

pub home-IsConsistent : IsConsistent base home
home-IsConsistent = (fits.room 0 home home_found).consistent

Reach-WorldFits_example : WorldFits base with_bob
Reach-WorldFits_example = Reach-WorldFits base start-WorldFits reached

ann-IsIn : IsIn with_bob 0 ann.id ann
unfolding lookup bytes_eq
ann-IsIn = record { room = home; at = home_found; registered = refl }

peer_address_unique_example : (home.address ≡ home.address) × (ann.id ≡ ann.id)
peer_address_unique_example =
    peer_address_unique base with_bob 0 0 ann.id ann.id ann ann fits ann-IsIn ann-IsIn refl

join_total_example :
    (res : Result Error Peer) × (w : World) × (join 1 lan options (rand_of 11) 8 with_bob
      ≡ returns (res, w))
    × WorldFits base w
    × Answers w lan res
join_total_example = join_total base 0 with_bob lan options (rand_of 11) 8 fits

get_or_create_room-Given_example : Given base with_bob lan (get_or_create_room lan 8 with_bob)
get_or_create_room-Given_example = get_or_create_room-Given base with_bob lan 8 fits
