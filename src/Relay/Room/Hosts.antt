-- ===== src/Relay/Room/Hosts.antt =====
-- The allocator of host numbers: the numbers 2 to 254, handed out in order and again after release.
use anylan.Base.{
  ℕ, ◌+◌, ◌%◌, ◌^◌, ◌≤◌, ◌<◌, ◌≡◌, ◌≢◌, ◌↔◌, refl, true, false, ◌⊎◌, inl, inr, List, [], ◌∷◌, ◌++◌,
  arith, contains, ltb, ok, err, Bool-cases,
}
use mathlib.Core.Path.{subst₂}
use anylan.Base.Sorting.{
  IsDistinct, contains-append_one, contains-sort_by, IsDistinct-append_one, sort_by-IsDistinct,
}
use anylan.Relay.Error.{room_full}
use anylan.Relay.Room.{Room, allocate_host, release_host_byte, last_usable_host}

-- The state of the allocator alone.
pub record HostsFit (next : ℕ) (free : List ℕ) : Type 0 where
  pub next_low : 2 ≤ next
  pub next_high : next ≤ 255
  pub free_distinct : IsDistinct free
  pub free_range : (h : ℕ) → contains h free ≡ true → (2 ≤ h) × (h < next)

-- What one allocation does: `h` leaves the free numbers, or is the next one.
pub record Allocated (r r' : Room) (h : ℕ) : Type 0 where
  pub low : 2 ≤ h
  pub high : h ≤ 254
  pub below : h < r'.next_host
  pub grows : r.next_host ≤ r'.next_host
  pub taken : contains h r'.free_hosts ≡ false
  pub was_free : (contains h r.free_hosts ≡ true) ⊎ (h ≡ r.next_host)
  pub same_free : (n : ℕ) → n ≢ h → contains n r'.free_hosts ≡ contains n r.free_hosts
  pub fits : HostsFit r'.next_host r'.free_hosts
  pub rest : r' ≡ record r { next_host = r'.next_host; free_hosts = r'.free_hosts }

take_free :
    (r : Room) (h : ℕ) (free : List ℕ)
    → r.free_hosts ≡ h ∷ free
    → HostsFit r.next_host r.free_hosts
    → Allocated r (record r { free_hosts = free }) h
unfolding contains
take_free r h free e f =
    let range = f.free_range h (rw e (ground arith)) in
    record {
      low = range.0;
      high = omega (arith, f.next_high);
      below = range.1;
      grows = omega arith;
      taken = ground arith;
      was_free = inl (ground arith);
      same_free = λ n ne. ground arith;
      fits = record {
        next_low = f.next_low;
        next_high = f.next_high;
        free_distinct = ground arith;
        free_range = λ n hn. f.free_range n (ground arith);
      };
      rest = refl;
    }

take_next :
    (r : Room)
    → r.free_hosts ≡ []
    → r.next_host < 255
    → HostsFit r.next_host r.free_hosts
    → Allocated r (record r { next_host = (r.next_host + 1) % 2 ^ 8 }) r.next_host
unfolding contains
take_next r e l f =
    let step : (r.next_host + 1) % 2 ^ 8 ≡ r.next_host + 1 = omega arith in
    record {
      low = f.next_low;
      high = omega arith;
      below = omega (arith, step);
      grows = omega (arith, step);
      taken = ground arith;
      was_free = inr refl;
      same_free = λ n ne. refl;
      fits = record {
        next_low = omega (arith, step, f.next_low);
        next_high = omega (arith, step);
        free_distinct = f.free_distinct;
        free_range = λ n hn. ground arith;
      };
      rest = refl;
    }

pub allocate_host-Allocated :
    (r r' : Room) (h : ℕ)
    → HostsFit r.next_host r.free_hosts
    → allocate_host r ≡ (ok h, r')
    → Allocated r r' h
unfolding allocate_host
allocate_host-Allocated r r' h f e = go r.free_hosts refl
  where
    go : (free : List ℕ) → r.free_hosts ≡ free → Allocated r r' h
    go [] p =
        subst₂ (λ s k. Allocated r s k) (ground arith) (ground arith)
          (take_next r p (ground arith) f)
    go (x ∷ free) p =
        subst₂ (λ s k. Allocated r s k) (ground arith) (ground arith) (take_free r x free p f)

-- The allocator fails, and changes nothing, exactly when every number up to 254 has been handed out
-- and none is free.
pub allocate_host_full :
    (r : Room)
    → HostsFit r.next_host r.free_hosts
    → (allocate_host r ≡ (err room_full, r)) ↔ ((r.free_hosts ≡ []) × (r.next_host ≡ 255))
unfolding allocate_host
allocate_host_full r f = ground arith

pub contains-release :
    (n d : ℕ) (r : Room)
    → contains n (release_host_byte d r).free_hosts ≡ true
    → (n ≡ d) ⊎ (contains n r.free_hosts ≡ true)
unfolding release_host_byte
contains-release n d r h =
    ground
      (arith, contains-sort_by ltb n (r.free_hosts ++ d ∷ []), contains-append_one n d r.free_hosts)

pub contains-release_self :
    (d : ℕ) (r : Room) → 2 ≤ d → d ≤ 254 → contains d (release_host_byte d r).free_hosts ≡ true
unfolding release_host_byte
contains-release_self d r l h =
    ground
      (arith, contains-sort_by ltb d (r.free_hosts ++ d ∷ []), contains-append_one d d r.free_hosts)

pub release-HostsFit :
    (d : ℕ) (r : Room)
    → d < r.next_host
    → HostsFit r.next_host r.free_hosts
    → HostsFit (release_host_byte d r).next_host (release_host_byte d r).free_hosts
unfolding release_host_byte
release-HostsFit d r l f = record {
  next_low = ground (arith, f.next_low);
  next_high = ground (arith, f.next_high);
  free_distinct = ground (
    arith,
    f.free_distinct,
    sort_by-IsDistinct ltb (r.free_hosts ++ d ∷ []),
    IsDistinct-append_one d r.free_hosts,
  );
  free_range = λ n hn. ground (
    arith,
    f.free_range n,
    contains-sort_by ltb n (r.free_hosts ++ d ∷ []),
    contains-append_one n d r.free_hosts,
  );
}

-- An allocation succeeds, or fails with `room_full` and leaves the room as it was.
pub allocate_host_cases :
    (r : Room)
    → ((h : ℕ) × (s : Room) × (allocate_host r ≡ (ok h, s)))
      ⊎ (allocate_host r ≡ (err room_full, r))
unfolding allocate_host
allocate_host_cases r = go r.free_hosts refl (Bool-cases (ltb last_usable_host r.next_host))
  where
    go :
        (free : List ℕ)
        → r.free_hosts ≡ free
        → (ltb last_usable_host r.next_host ≡ true) ⊎ (ltb last_usable_host r.next_host ≡ false)
        → ((h : ℕ) × (s : Room) × (allocate_host r ≡ (ok h, s)))
          ⊎ (allocate_host r ≡ (err room_full, r))
    go (x ∷ free) p t = inl (x, record r { free_hosts = free }, rw (p, allocate_host) refl)
    go [] p (inl t) = inr (ground arith)
    go [] p (inr t) =
        inl (r.next_host, record r { next_host = (r.next_host + 1) % 2 ^ 8 }, ground arith)
