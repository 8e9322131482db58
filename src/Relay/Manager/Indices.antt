-- ===== src/Relay/Manager/Indices.antt =====
-- The allocator of room numbers.
use anylan.Base.{
  ℕ, ◌+◌, ◌%◌, ◌^◌, ◌≤◌, ◌<◌, ◌≡◌, ◌≢◌, ◌∙◌, ap, refl, true, false, ◌||◌, ◌⊎◌, inl, inr, List, [],
  ◌∷◌, arith, contains, leb, ◌==◌, ok, err, Bool-cases,
}
use mathlib.Core.Path.{subst}
use anylan.Base.Sorting.{IsDistinct}
use anylan.Relay.Error.{pool_full}
use anylan.Relay.Manager.{World, max_rooms, allocate_room_index, split_last}
use anylan.Relay.Manager.Invariant.{PoolFits, IndicesFit}

-- What one allocation does: `i` leaves the free numbers, or is the next one.
pub record Numbered (w w' : World) (i : ℕ) : Type 0 where
  pub below : i < w'.next_room
  pub grows : w.next_room ≤ w'.next_room
  pub taken : contains i w'.free_room ≡ false
  pub was_free : (contains i w.free_room ≡ true) ⊎ (i ≡ w.next_room)
  pub same_free : (n : ℕ) → n ≢ i → contains n w'.free_room ≡ contains n w.free_room
  pub fits : IndicesFit (max_rooms w.pool.bits) w'.next_room w'.free_room
  pub rest : w' ≡ record w { next_room = w'.next_room; free_room = w'.free_room }

contains-split_last :
    (n x : ℕ) (xs : List ℕ)
    → let (front, last) = split_last x xs in contains n (x ∷ xs) ≡ (last == n || contains n front)
unfolding contains split_last
contains-split_last n x [] = refl
contains-split_last n x (y ∷ ys) = ground (arith, contains-split_last n y ys)

split_last-IsDistinct :
    (x : ℕ) (xs : List ℕ)
    → IsDistinct (x ∷ xs)
    → let (front, last) = split_last x xs in (contains last front ≡ false) × IsDistinct front
unfolding contains split_last
split_last-IsDistinct x [] d = (refl, tt)
split_last-IsDistinct x (y ∷ ys) d = ground (
  arith,
  split_last-IsDistinct y ys d.1,
  contains-split_last x y ys,
  contains-split_last (split_last y ys).1 y ys,
)

module _ (w : World) (f : IndicesFit (max_rooms w.pool.bits) w.next_room w.free_room) where
  take_last :
      (x : ℕ) (xs : List ℕ)
      → w.free_room ≡ x ∷ xs
      → Numbered w (record w { free_room = (split_last x xs).0 }) (split_last x xs).1
  take_last x xs e =
      let (front, last) = split_last x xs in
      let parts = λ (n : ℕ). ap (contains n) e ∙ contains-split_last n x xs in
      let d : IsDistinct (x ∷ xs) = subst IsDistinct e f.free_distinct in
      let range : last < w.next_room = f.free_below last (ground (arith, parts last)) in
      record {
        below = range;
        grows = omega arith;
        taken = (split_last-IsDistinct x xs d).0;
        was_free = inl (ground (arith, parts last));
        same_free = λ n ne. ground (arith, parts n);
        fits = record {
          limited = f.limited;
          free_distinct = (split_last-IsDistinct x xs d).1;
          free_below = λ n h. f.free_below n (ground (arith, parts n));
        };
        rest = refl;
      }

  take_next :
      (max_rooms w.pool.bits ≤ 2 ^ 24)
      → w.next_room < max_rooms w.pool.bits
      → w.free_room ≡ []
      → Numbered w (record w { next_room = (w.next_room + 1) % 2 ^ 32 }) w.next_room
  unfolding contains
  take_next small l e =
      let step : (w.next_room + 1) % 2 ^ 32 ≡ w.next_room + 1 = omega arith in
      record {
        below = omega (arith, step);
        grows = omega (arith, step);
        taken = ap (contains w.next_room) e;
        was_free = inr refl;
        same_free = λ n ne. refl;
        fits = record {
          limited = omega (arith, step);
          free_distinct = f.free_distinct;
          free_below = λ n h. omega (arith, step, f.free_below n h);
        };
        rest = refl;
      }

-- An allocation succeeds, or fails with `pool_full` and leaves the manager as it was.
pub allocate_room_index_cases :
    (base : ℕ) (w : World)
    → PoolFits base w.pool
    → IndicesFit (max_rooms w.pool.bits) w.next_room w.free_room
    → ((i : ℕ) × (w' : World) × (allocate_room_index w ≡ (ok i, w')) × Numbered w w' i)
      ⊎ ((allocate_room_index w ≡ (err pool_full, w))
          × (w.free_room ≡ [])
          × (w.next_room ≡ max_rooms w.pool.bits))
unfolding allocate_room_index
allocate_room_index_cases base w p f =
    go w.free_room refl (Bool-cases (leb (max_rooms w.pool.bits) w.next_room))
  where
    go :
        (free : List ℕ)
        → w.free_room ≡ free
        → (leb (max_rooms w.pool.bits) w.next_room ≡ true)
          ⊎ (leb (max_rooms w.pool.bits) w.next_room ≡ false)
        → ((i : ℕ) × (w' : World) × (allocate_room_index w ≡ (ok i, w')) × Numbered w w' i)
          ⊎ ((allocate_room_index w ≡ (err pool_full, w))
              × (w.free_room ≡ [])
              × (w.next_room ≡ max_rooms w.pool.bits))
    go (x ∷ xs) e t = inl (
      (split_last x xs).1,
      record w { free_room = (split_last x xs).0 },
      ground arith,
      take_last w f x xs e,
    )
    go [] e (inl full) = inr (ground arith, e, ground (arith, f.limited))
    go [] e (inr more) = inl (
      w.next_room,
      record w { next_room = (w.next_room + 1) % 2 ^ 32 },
      ground arith,
      take_next w f (omega (arith, p.holds)) (ground arith) e,
    )
