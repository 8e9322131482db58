-- ===== src/Relay/Manager/Deleting.antt =====
-- deleteEmptyRoom keeps the invariant: the room's name and number are free again.
use anylan.Base.{
  ℕ, ◌+◌, ◌*◌, ◌≡◌, ◌≢◌, ap, refl, true, false, not, ◌||◌, ◌⊎◌, inl, inr, List, [], ◌∷◌, ◌++◌,
  Option, none, some, arith, length, contains, ◌==◌, if◌then◌else◌, Bool-cases, Option-cases,
}
use mathlib.Core.Path.{subst, subst₂}
use anylan.Base.Bytes.{Bytes, bytes_eq_iff}
use anylan.Base.Sorting.{
  sort_by, contains-append_one, contains-sort_by, IsDistinct-append_one, sort_by-IsDistinct,
}
use anylan.Base.Dictionary.{lookup, delete, lookup-delete}
use anylan.Relay.Room.Members.{closed-IsConsistent}
use anylan.Relay.Room.{Room}
use anylan.Relay.Manager.{World, update, delete_empty_room, is_pointer, gtb}
use anylan.Relay.Manager.Invariant.{RoomFits, WorldFits, Keeps, RoomFits-Keeps, IsLive-same}

-- The room at `a` is listed and has no peers.
module _ (base : ℕ) (w : World) (a : ℕ) (r : Room) (f : WorldFits base w)
    (here : w.room_at a ≡ some r) (listed : lookup r.name w.rooms ≡ some a)
    (empty : r.peers ≡ []) where
  abbrev deleted : World
  deleted = record w {
    room_at = update w.room_at a (record r { closed = true });
    rooms = delete r.name w.rooms;
    free_room = sort_by gtb (w.free_room ++ r.index ∷ []);
  }

  -- The manager lists open rooms only.
  was_open : r.closed ≡ false
  was_open = let o = f.registry r.name a listed in ground (arith, o.found, o.is_open, here)

  contains-freed :
      (n : ℕ)
      → contains n deleted.free_room ≡ (if r.index == n then true else contains n w.free_room)
  contains-freed n = ground (
    arith,
    contains-sort_by gtb n (w.free_room ++ r.index ∷ []),
    contains-append_one n r.index w.free_room,
  )

  deleted_cases :
      (b : ℕ) (s : Room)
      → deleted.room_at b ≡ some s
      → ((a ≡ b) × (record r { closed = true } ≡ s)) ⊎ ((a ≢ b) × (w.room_at b ≡ some s))
  deleted_cases b s e = elim (Bool-cases (a == b)) [
    | inl hit ↦ inl (ground arith, ground arith)
    | inr miss ↦ inr (ground arith, ground arith)
  ]

  deleted-Keeps : Keeps w deleted
  deleted-Keeps = record {
    address_grows = omega arith;
    room_grows = omega arith;
    cells = λ b x e. (x, e, refl);
  }

  closed_fits : RoomFits base deleted a (record r { closed = true })
  unfolding lookup
  closed_fits =
      let g = f.room a r here in
      record {
        own_address = g.own_address;
        old = g.old;
        managed = g.managed;
        numbered = g.numbered;
        consistent = closed-IsConsistent (base + r.index * 256) r g.consistent;
        listed = λ e. cc;
        in_use = λ e. cc;
        closed_empty = λ e. empty;
        live = λ id p e. cc (empty, e);
        known = g.known;
      }

  other_fits : (b : ℕ) (s : Room) → a ≢ b → w.room_at b ≡ some s → RoomFits base deleted b s
  other_fits b s ne e =
      RoomFits-Keeps base w deleted b s deleted-Keeps (λ id q _ l. IsLive-same w deleted q refl l)
        (λ o l.
          ground (arith, lookup-delete r.name s.name w.rooms, bytes_eq_iff r.name s.name, listed))
        (λ o l. ground (arith, contains-freed s.index, f.differ a b r s here e was_open o))
        (f.room b s e)

  deleted-WorldFits : WorldFits base deleted
  deleted-WorldFits =
      let g = f.room a r here in
      record {
        pool = f.pool;
        indices = record {
          limited = f.indices.limited;
          free_distinct = sort_by-IsDistinct gtb (w.free_room ++ r.index ∷ []) (
              IsDistinct-append_one r.index w.free_room (g.in_use was_open)
                f.indices.free_distinct);
          free_below = λ n h. ground (arith, contains-freed n, f.indices.free_below n, g.numbered);
        };
        room = λ b s e. elim (deleted_cases b s e) [
          | inl (p, q) ↦ subst₂ (λ x y. RoomFits base deleted x y) p q closed_fits
          | inr (ne, old) ↦ other_fits b s ne old
        ];
        registry = λ name b e.
            let (ne, old) = left name b e in
            let o = f.registry name b old in
            record {
              room = o.room;
              found = ground (arith, o.found, o.named, here);
              named = o.named;
              is_open = o.is_open;
            };
        differ = λ b d s t eb ed ob od i. elim (deleted_cases b s eb) [
          | inl (p, q) ↦ cc (ap (λ (x : Room). x.closed) q, ob)
          | inr (_, old) ↦ elim (deleted_cases d t ed) [
            | inl (p', q') ↦ cc (ap (λ (x : Room). x.closed) q', od)
            | inr (_, old') ↦ f.differ b d s t old old' ob od i
          ]
        ];
        cell = f.cell;
      }
    where
      left :
          (name : Bytes) (b : ℕ)
          → lookup name deleted.rooms ≡ some b
          → (r.name ≢ name) × (lookup name w.rooms ≡ some b)
      left name b e = ground (arith, lookup-delete r.name name w.rooms, bytes_eq_iff r.name name)

no_items {ℓ} : {A : Type ℓ} (xs : List A) → length xs ≡ 0 → xs ≡ []
no_items [] e = refl
no_items (x ∷ xs) e = absurd (omega arith)

points_at : (a : ℕ) (o : Option ℕ) → is_pointer a o ≡ true → o ≡ some a
points_at a none e = cc
points_at a (some b) e = ground arith

-- `deleteEmptyRoom` on any room of the heap keeps the invariant, whenever it runs: a room that got
-- a peer, or that is listed no more, stays as it is.
pub delete_empty_room-WorldFits :
    (base : ℕ) (w w' : World) (a : ℕ)
    → WorldFits base w
    → delete_empty_room a w ≡ some w'
    → WorldFits base w'
unfolding delete_empty_room
delete_empty_room-WorldFits base w w' a f e = elim (Option-cases (w.room_at a)) [
  | inl n ↦ cc (n, e)
  | inr (r, here) ↦
      elim (Bool-cases (not (is_pointer a (lookup r.name w.rooms)) || not (length r.peers == 0))) [
        | inl stays ↦ subst (WorldFits base) (ground arith) f
        | inr goes ↦
            let empty : r.peers ≡ [] = no_items r.peers (ground arith) in
            subst (WorldFits base) (ground arith) (
              deleted-WorldFits base w a r f here
                (points_at a (lookup r.name w.rooms) (ground arith)) empty)
      ]
]
