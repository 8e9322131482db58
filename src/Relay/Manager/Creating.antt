-- ===== src/Relay/Manager/Creating.antt =====
-- getOrCreateRoom keeps the invariant, and what it returns is the open room of that name.
use anylan.Base.{
  ℕ, ◌+◌, ◌*◌, ◌%◌, ◌^◌, ◌≤◌, ◌<◌, ◌≡◌, ◌∙◌, ap, sym, refl, ◌⊎◌, inl, inr, List, [], none, some,
  arith, contains, Result, ok, err, Bool-cases, Option-cases,
}
use mathlib.Core.Path.{subst, subst₂}
use anylan.Base.Bytes.{Bytes, bytes_eq, bytes_eq_iff, bytes_eq_refl}
use anylan.Base.Dictionary.{lookup, insert, lookup-insert}
use anylan.Relay.Error.{Error, pool_full}
use anylan.Relay.Address.{ipv4_to_uint32-uint32_to_ipv4}
use anylan.Relay.Room.{Room}
use anylan.Relay.Room.Members.{IsConsistent}
use anylan.Relay.Manager.{
  World, max_rooms, allocate_room_index, create_room, get_or_create_room, new_room, room_base,
  update,
}
use anylan.Relay.Manager.Invariant.{
  RoomFits, WorldFits, IsOpenRoom, Keeps, Keeps-refl, RoomFits-Keeps, IsLive-same, index_apart,
}
use anylan.Relay.Manager.Indices.{Numbered, allocate_room_index_cases}

-- A new room has no peers, and its subnet is the part of the pool that its number says.
new_room-IsConsistent :
    (base a i now limit : ℕ) (name : Bytes)
    → base % 256 ≡ 0
    → base + limit * 256 ≤ 2 ^ 32
    → i < limit
    → IsConsistent (base + i * 256) (new_room a base i name now)
unfolding lookup contains
new_room-IsConsistent base a i now limit name al holds l =
    let start : room_base base i ≡ base + i * 256 = omega arith in
    record {
      aligned = omega arith;
      in_range = omega arith;
      subnet = rw start (ipv4_to_uint32-uint32_to_ipv4 (base + i * 256) (omega arith));
      hosts = record {
        next_low = omega arith;
        next_high = omega arith;
        free_distinct = tt;
        free_range = λ h e. cc;
      };
      member = λ id p e. cc;
      differ = λ x y p q e e' h. cc;
      peers_unique = tt;
      macs_unique = tt;
      mac_owner = λ mac p e. cc;
    }

module _ (base : ℕ) (w : World) (name : Bytes) (now i next : ℕ) (free : List ℕ) where
  abbrev numbered : World
  numbered = record w { next_room = next; free_room = free }

  abbrev created : World
  created = record numbered {
    rooms = insert name w.next_address w.rooms;
    room_at = update w.room_at w.next_address (new_room w.next_address base i name now);
    next_address = w.next_address + 1;
  }

  module _ (f : WorldFits base w) (absent : lookup name w.rooms ≡ none)
      (n : Numbered w numbered i) where
    created-Keeps : Keeps w created
    created-Keeps = record {
      address_grows = omega arith;
      room_grows = n.grows;
      cells = λ a c e. (c, e, refl);
    }

    new_fits : RoomFits base created w.next_address (new_room w.next_address base i name now)
    unfolding lookup
    new_fits = record {
      own_address = refl;
      old = omega arith;
      managed = refl;
      numbered = n.below;
      consistent =
          new_room-IsConsistent base w.next_address i now (max_rooms w.pool.bits) name
            f.pool.aligned f.pool.holds (omega (arith, n.below, n.fits.limited));
      listed =
          λ e. ground (arith, lookup-insert name name w.next_address w.rooms, bytes_eq_refl name);
      in_use = λ e. n.taken;
      closed_empty = λ e. cc;
      live = λ id p e. cc;
      known = λ mac p e. cc;
    }

    old_fits : (a : ℕ) (r : Room) → w.room_at a ≡ some r → RoomFits base created a r
    old_fits a r e =
        let g = f.room a r e in
        RoomFits-Keeps base w created a r created-Keeps (λ id p _ l. IsLive-same w created p refl l)
          (λ live l.
            ground
              (arith, lookup-insert name r.name w.next_address w.rooms, bytes_eq_iff name r.name))
          (λ live l. n.same_free r.index (index_apart base w a r i g live n.was_free) ∙ l) g

    -- The heap of the rooms after the call.
    room_cases :
        (a : ℕ) (r : Room)
        → created.room_at a ≡ some r
        → ((w.next_address ≡ a) × (new_room w.next_address base i name now ≡ r))
          ⊎ (w.room_at a ≡ some r)
    room_cases a r e = ground arith

    created-WorldFits : WorldFits base created
    created-WorldFits = record {
      pool = f.pool;
      indices = n.fits;
      room = λ a r e. elim (room_cases a r e) [
        | inl (p, q) ↦ subst₂ (λ b s. RoomFits base created b s) p q new_fits
        | inr old ↦ old_fits a r old
      ];
      registry = λ k a e. elim (Bool-cases (bytes_eq name k)) [
        | inl same ↦ record {
          room = new_room w.next_address base i name now;
          found = ground (arith, lookup-insert name k w.next_address w.rooms);
          named = (bytes_eq_iff name k).0 same;
          is_open = refl;
        }
        | inr other ↦
            let o = f.registry k a (ground (arith, lookup-insert name k w.next_address w.rooms)) in
            record {
              room = o.room;
              found = ground (arith, o.found, (f.room a o.room o.found).old);
              named = o.named;
              is_open = o.is_open;
            }
      ];
      differ = λ a b r s ea eb oa ob same. elim (room_cases a r ea) [
        | inl (p, q) ↦ elim (room_cases b s eb) [
          | inl (p', q') ↦ sym p ∙ p'
          | inr old' ↦ absurd (
              index_apart base w b s i (f.room b s old') ob n.was_free
                (sym same ∙ ap (λ (x : Room). x.index) (sym q)))
        ]
        | inr old ↦ elim (room_cases b s eb) [
          | inl (p', q') ↦ absurd (
              index_apart base w a r i (f.room a r old) oa n.was_free
                (same ∙ ap (λ (x : Room). x.index) (sym q')))
          | inr old' ↦ f.differ a b r s old old' oa ob same
        ]
      ];
      cell = λ a c e. let (own, old) = f.cell a c e in (own, omega arith);
    }

    created-call : create_room name now (ok i, numbered) ≡ (ok w.next_address, created)
    unfolding create_room
    created-call = ground (arith, f.pool.is_ipv4)

    created-IsOpenRoom : IsOpenRoom created name w.next_address
    created-IsOpenRoom = record {
      room = new_room w.next_address base i name now;
      found = ground arith;
      named = refl;
      is_open = refl;
    }

-- After a call the world fits, and the room that it gives is the open one of that name.
abbrev pub Given : ℕ → World → Bytes → Result Error ℕ × World → Type 0
Given base w name (ok a, w') =
    WorldFits base w' × IsOpenRoom w' name a × (lookup name w'.rooms ≡ some a) × Keeps w w'
Given base w name (err e, w') =
    (w' ≡ w) × (e ≡ pool_full) × (w.free_room ≡ []) × (w.next_room ≡ max_rooms w.pool.bits)

create_room-Given :
    (base : ℕ) (w s : World) (name : Bytes) (now i : ℕ)
    → WorldFits base w
    → lookup name w.rooms ≡ none
    → Numbered w s i
    → Given base w name (create_room name now (ok i, s))
create_room-Given base w s name now i f absent n =
    let t : World = record w { next_room = s.next_room; free_room = s.free_room } in
    let m : Numbered w t i = subst (λ x. Numbered w x i) n.rest n in
    rw n.rest (
      rw (created-call base w name now i s.next_room s.free_room f absent m) (
        created-WorldFits base w name now i s.next_room s.free_room f absent m,
        created-IsOpenRoom base w name now i s.next_room s.free_room f absent m,
        ground (arith, lookup-insert name name w.next_address w.rooms, bytes_eq_refl name),
        created-Keeps base w name now i s.next_room s.free_room f absent m,
      ))

get_or_create_room_old :
    (w : World) (name : Bytes) (now a : ℕ)
    → lookup name w.rooms ≡ some a
    → get_or_create_room name now w ≡ (ok a, w)
unfolding get_or_create_room
get_or_create_room_old w name now a e = ground arith

get_or_create_room_new :
    (w : World) (name : Bytes) (now : ℕ)
    → lookup name w.rooms ≡ none
    → get_or_create_room name now w ≡ create_room name now (allocate_room_index w)
unfolding get_or_create_room
get_or_create_room_new w name now e = ground arith

create_room-full :
    (w : World) (name : Bytes) (now : ℕ)
    → create_room name now (err pool_full, w) ≡ (err pool_full, w)
unfolding create_room
create_room-full w name now = refl

-- `getOrCreateRoom` keeps the invariant. It gives the open room of that name, old or new, and fails
-- only when every number of the pool is in use.
pub get_or_create_room-Given :
    (base : ℕ) (w : World) (name : Bytes) (now : ℕ)
    → WorldFits base w
    → Given base w name (get_or_create_room name now w)
get_or_create_room-Given base w name now f = elim (Option-cases (lookup name w.rooms)) [
  | inr (a, e) ↦
      rw (get_or_create_room_old w name now a e) (f, f.registry name a e, e, Keeps-refl w)
  | inl absent ↦ elim (allocate_room_index_cases base w f.pool f.indices) [
    | inl (i, s, e, n) ↦
        rw (get_or_create_room_new w name now absent, e)
          (create_room-Given base w s name now i f absent n)
    | inr (e, none_free, all_used) ↦
        rw (get_or_create_room_new w name now absent, e, create_room-full w name now)
          (refl, refl, none_free, all_used)
  ]
]
