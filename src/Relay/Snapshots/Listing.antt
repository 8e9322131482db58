-- ===== src/Relay/Snapshots/Listing.antt =====
-- The snapshots list what there is, in their order.
use anylan.Base.{
  ℕ, ◌≡◌, refl, ◌∙◌, sym, ap, Bool, true, false, List, [], ◌∷◌, some, map, arith, ltb, ◌==◌,
  if◌then◌else◌, All,
}
use mathlib.Core.Path.{subst}
use mathlib.Core.List.{Perm}
use mathlib.Core.List.Perm
use anylan.Base.Bytes.{Bytes, bytes_eq_iff}
use anylan.Base.Dictionary.{Dictionary, lookup, values, IsUnique}
use anylan.Base.Sorting.{
  IsOrdered, sort_by, sort_by-perm, sort_by-IsOrdered, sort_by-All, map-IsOrdered,
}
use anylan.Relay.Address.{Addr, Prefix}
use anylan.Relay.Peer.{Peer}
use anylan.Relay.Room.{Room}
use anylan.Relay.Room.Forwarding.{All-values}
use anylan.Relay.Manager.{World}
use anylan.Relay.Manager.Invariant.{WorldFits, IsOpenRoom}
use anylan.Relay.Manager.Leaving.{IsHandle}
use anylan.Relay.Manager.Tidy.{IsTidy}
use anylan.Relay.Snapshots.{
  PeerSnapshot, RoomSnapshot, ManagerSnapshot, peer_snapshot, bytes_ltb, joined_before,
  created_before, rooms_at, snapshots_of, room_snapshot, room_snapshots, manager_snapshot,
}

-- By time, and then by text.
abbrev pub older : ℕ × Bytes → ℕ × Bytes → Bool
older (s, x) (t, y) = if s == t then bytes_ltb x y else ltb s t

abbrev pub peer_key : Peer → ℕ × Bytes
peer_key p = (p.connected_at, p.id)

abbrev pub shown_peer_key : PeerSnapshot → ℕ × Bytes
shown_peer_key s = (s.connected_at, s.id)

abbrev pub room_key : Room → ℕ × Bytes
room_key r = (r.created_at, r.name)

abbrev pub shown_room_key : RoomSnapshot → ℕ × Bytes
shown_room_key s = (s.created_at, s.name)

bytes_ltb_asym : (xs ys : Bytes) → bytes_ltb xs ys ≡ true → bytes_ltb ys xs ≡ false
unfolding bytes_ltb
bytes_ltb_asym xs [] h = ground (arith, h)
bytes_ltb_asym [] (y ∷ ys) h = refl
bytes_ltb_asym (x ∷ xs) (y ∷ ys) h = ground (arith, bytes_ltb_asym xs ys, h)

joined_before_asym : (p q : Peer) → joined_before p q ≡ true → joined_before q p ≡ false
unfolding joined_before
joined_before_asym p q h = ground (arith, bytes_ltb_asym p.id q.id, h)

created_before_asym : (r s : Room) → created_before r s ≡ true → created_before s r ≡ false
unfolding created_before
created_before_asym r s h = ground (arith, bytes_ltb_asym r.name s.name, h)

-- The peers of a room, each once, oldest connection first.
pub record Shows (addr_string : Addr → Bytes) (prefix_string : Prefix → Bytes) (r : Room)
    (s : RoomSnapshot) : Type 0 where
  pub name : s.name ≡ r.name
  pub prefix : s.prefix ≡ prefix_string r.prefix
  pub created_at : s.created_at ≡ r.created_at
  pub all : Perm (map shown_peer_key s.peers) (map peer_key (values r.peers))
  pub ordered : IsOrdered older (map shown_peer_key s.peers)

module _ (addr_string : Addr → Bytes) (prefix_string : Prefix → Bytes) where
  snapshots_of_total :
      (w : World) (ps : List Peer)
      → All (IsHandle w) ps
      → (ss : List PeerSnapshot) × (snapshots_of addr_string prefix_string w ps ≡ some ss)
        × (map shown_peer_key ss ≡ map peer_key ps)
  unfolding snapshots_of peer_snapshot
  snapshots_of_total w [] all = ([], refl, refl)
  snapshots_of_total w (p ∷ ps) (h, all) =
      let (ss, e, keys) = snapshots_of_total w ps all in
      (
        peer_snapshot addr_string p h.cell.state ∷ ss,
        ground (arith, h.found, e),
        ap (λ (ks : List (ℕ × Bytes)). peer_key p ∷ ks) keys,
      )

  -- The snapshot of a room of the heap succeeds, and lists the peers of the room, each once, oldest
  -- connection first, and those of one moment by identifier.
  pub room_snapshot_total :
      (base : ℕ) (w : World) (a : ℕ) (r : Room)
      → WorldFits base w
      → w.room_at a ≡ some r
      → (s : RoomSnapshot) × (room_snapshot addr_string prefix_string w r ≡ some s)
        × Shows addr_string prefix_string r s
  unfolding room_snapshot
  room_snapshot_total base w a r f at =
      let g = f.room a r at in
      let all : All (IsHandle w) (values r.peers) =
        All-values (IsHandle w) r.peers g.consistent.peers_unique (λ k p e.
          let l = g.live k p e in record { cell = l.cell; found = l.found; same = l.same }) in
      let ps = sort_by joined_before (values r.peers) in
      let (ss, e, keys) =
        snapshots_of_total w ps (sort_by-All joined_before (IsHandle w) (values r.peers) all) in
      (
        record {
          name = r.name;
          prefix = prefix_string r.prefix;
          created_at = r.created_at;
          peers = ss;
        },
        ground (arith, e),
        record {
          name = refl;
          prefix = refl;
          created_at = refl;
          all =
              subst (λ ks. Perm ks (map peer_key (values r.peers))) (sym keys)
                (Perm.map peer_key (sort_by-perm joined_before (values r.peers)));
          ordered = subst (IsOrdered older) (sym keys) (
              map-IsOrdered peer_key older ps (
                unfold joined_before in
                sort_by-IsOrdered joined_before joined_before_asym (values r.peers)));
        },
      )

-- A room that is on the heap, under the name that the manager has for it.
abbrev IsNamed : World → Room → Type 0
IsNamed w r = (a : ℕ) × (w.room_at a ≡ some r) × (lookup r.name w.rooms ≡ some a)

rooms_at_total :
    (w : World) (m : Dictionary ℕ)
    → IsUnique m
    → ((name : Bytes) (a : ℕ)
        → lookup name m ≡ some a
        → IsOpenRoom w name a × (lookup name w.rooms ≡ some a))
    → (rs : List Room) × (rooms_at w (values m) ≡ some rs)
      × (map (λ r. r.name) rs ≡ map (λ e. e.0) m)
      × All (IsNamed w) rs
unfolding rooms_at values lookup
rooms_at_total w [] u f = ([], refl, refl, tt)
rooms_at_total w ((k, a) ∷ m) u f =
    let (o, listed) = f k a (ground (arith, bytes_eq_iff k k)) in
    let (rs, e, names, all) =
      rooms_at_total w m u.1 (λ j b h. f j b (ground (arith, bytes_eq_iff k j, h, u.0))) in
    (
      o.room ∷ rs,
      ground (arith, o.found, e),
      ground (arith, o.named, names),
      ((a, o.found, ap (λ n. lookup n w.rooms) o.named ∙ listed), all),
    )

module _ (addr_string : Addr → Bytes) (prefix_string : Prefix → Bytes) where
  -- The snapshot is that of a room of the heap that the manager lists under that name.
  abbrev pub ShowsRoom : World → RoomSnapshot → Type 0
  ShowsRoom w s =
      (a : ℕ) × (r : Room) × (lookup s.name w.rooms ≡ some a)
      × (w.room_at a ≡ some r)
      × Shows addr_string prefix_string r s

  room_snapshots_total :
      (base : ℕ) (w : World) (rs : List Room)
      → WorldFits base w
      → All (IsNamed w) rs
      → (ss : List RoomSnapshot) × (room_snapshots addr_string prefix_string w rs ≡ some ss)
        × (map shown_room_key ss ≡ map room_key rs)
        × All (ShowsRoom w) ss
  unfolding room_snapshots
  room_snapshots_total base w [] f all = ([], refl, refl, tt)
  room_snapshots_total base w (r ∷ rs) f ((a, at, listed), all) =
      let (s, e, shows) = room_snapshot_total addr_string prefix_string base w a r f at in
      let (ss, rest, keys, shown) = room_snapshots_total base w rs f all in
      (
        s ∷ ss,
        ground (arith, e, rest),
        ground (arith, shows.name, shows.created_at, keys),
        ((a, r, ap (λ n. lookup n w.rooms) shows.name ∙ listed, at, shows), shown),
      )

  names_of_keys :
      (ss : List RoomSnapshot) (rs : List Room)
      → map shown_room_key ss ≡ map room_key rs
      → map (λ (x : RoomSnapshot). x.name) ss ≡ map (λ (x : Room). x.name) rs
  names_of_keys [] [] e = refl
  names_of_keys [] (r ∷ rs) e = cc
  names_of_keys (s ∷ ss) [] e = cc
  names_of_keys (s ∷ ss) (r ∷ rs) e = ground (arith, e, names_of_keys ss rs)

  -- The snapshot of a consistent manager whose names are apart succeeds. It lists the rooms of the
  -- manager, each once, oldest first, and those of one moment by name; each is shown with all its
  -- peers in their order.
  pub manager_snapshot_total :
      (base now : ℕ) (w : World)
      → WorldFits base w
      → IsTidy w
      → (s : ManagerSnapshot) × (manager_snapshot addr_string prefix_string now w ≡ some s)
        × Perm (map (λ t. t.name) s.rooms) (map (λ e. e.0) w.rooms)
        × IsOrdered older (map shown_room_key s.rooms)
        × All (ShowsRoom w) s.rooms
  unfolding manager_snapshot
  manager_snapshot_total base now w f t =
      let (rs, found, names, all) =
        rooms_at_total w w.rooms t.names_unique (λ name a e. (f.registry name a e, e)) in
      let sorted = sort_by created_before rs in
      let (ss, e, keys, shown) =
        room_snapshots_total base w sorted f (sort_by-All created_before (IsNamed w) rs all) in
      let shown_names : map (λ (x : RoomSnapshot). x.name) ss ≡ map (λ (x : Room). x.name) sorted =
        names_of_keys ss sorted keys in
      (
        record { generated_at = now; pool = prefix_string w.pool; rooms = ss },
        ground (arith, found, e),
        subst (λ ns. Perm ns (map (λ x. x.0) w.rooms)) (sym shown_names)
            (subst (Perm (map (λ (x : Room). x.name) sorted)) names
              (Perm.map (λ (x : Room). x.name) (sort_by-perm created_before rs))),
        subst (IsOrdered older) (sym keys) (
            map-IsOrdered room_key older sorted
              (unfold created_before in sort_by-IsOrdered created_before created_before_asym rs)),
        shown,
      )
