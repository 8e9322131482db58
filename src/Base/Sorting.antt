-- ===== src/Base/Sorting.antt =====
-- Go's sort.Slice and sort.SliceStable, as a stable insertion sort by the caller's `less`. On
-- values that `less` tells apart every sort gives the same list.
use anylan.Base.Tests.{◌==◌, if◌then◌else◌, Bool-cases}
use anylan.Base.Lists.{contains, All}
use Prim.Native.Nat.{ℕ}
use mathlib.Core.Path.{◌≡◌, refl, ◌∙◌}
use mathlib.Core.Logic.{inl, inr}
use mathlib.Core.Bool.{Bool, true, false, ◌||◌}
use mathlib.Core.List.{List, [], ◌∷◌, ◌++◌, map, Perm}
use mathlib.Core.List.Perm
use native.Mathlib.Omega.{arith}

module _ {ℓ} {A : Type ℓ} (less : A → A → Bool) where
  unfoldable pub insert_by : A → List A → List A
  insert_by x [] = x ∷ []
  insert_by x (y ∷ ys) = if less y x then y ∷ insert_by x ys else x ∷ y ∷ ys

  unfoldable pub sort_by : List A → List A
  unfolding insert_by
  sort_by [] = []
  sort_by (x ∷ xs) = insert_by x (sort_by xs)

  -- No item is less than the one before it.
  abbrev pub IsOrdered : List A → Type 0
  IsOrdered [] = Unit {0}
  IsOrdered (x ∷ []) = Unit {0}
  IsOrdered (x ∷ y ∷ ys) = (less y x ≡ false) × IsOrdered (y ∷ ys)

  insert_by-perm : (x : A) (ys : List A) → Perm (insert_by x ys) (x ∷ ys)
  unfolding insert_by
  insert_by-perm x [] = Perm.refl (x ∷ [])
  insert_by-perm x (y ∷ ys) = elim (Bool-cases (less y x)) [
    | inl h ↦ rw h (Perm.trans (Perm.cons y (insert_by-perm x ys)) (Perm.swap x y ys))
    | inr h ↦ rw h (Perm.refl (x ∷ y ∷ ys))
  ]

  pub sort_by-perm : (xs : List A) → Perm (sort_by xs) xs
  unfolding sort_by
  sort_by-perm [] = Perm.refl []
  sort_by-perm (x ∷ xs) = Perm.trans (insert_by-perm x (sort_by xs)) (Perm.cons x (sort_by-perm xs))

  insert_by-IsOrdered :
      ((x y : A) → less x y ≡ true → less y x ≡ false)
      → (x : A) (ys : List A) → IsOrdered ys
      → IsOrdered (insert_by x ys)
  unfolding insert_by
  insert_by-IsOrdered asym x [] h = tt
  insert_by-IsOrdered asym x (y ∷ []) h = ground (arith, asym y x)
  insert_by-IsOrdered asym x (y ∷ z ∷ zs) h =
      ground (arith, asym y x, insert_by-IsOrdered asym x (z ∷ zs) h.1)

  pub sort_by-IsOrdered :
      ((x y : A) → less x y ≡ true → less y x ≡ false) → (xs : List A) → IsOrdered (sort_by xs)
  unfolding sort_by
  sort_by-IsOrdered asym [] = tt
  sort_by-IsOrdered asym (x ∷ xs) =
      insert_by-IsOrdered asym x (sort_by xs) (sort_by-IsOrdered asym xs)

  -- What holds of all items holds of them in order.
  insert_by-All {κ} :
      (P : A → Type κ) (x : A) (ys : List A) → P x → All P ys → All P (insert_by x ys)
  unfolding insert_by
  insert_by-All P x [] h all = (h, tt)
  insert_by-All P x (y ∷ ys) h all = elim (Bool-cases (less y x)) [
    | inl e ↦ rw e (all.0, insert_by-All P x ys h all.1)
    | inr e ↦ rw e (h, all)
  ]

  pub sort_by-All {κ} : (P : A → Type κ) (xs : List A) → All P xs → All P (sort_by xs)
  unfolding sort_by
  sort_by-All P [] all = tt
  sort_by-All P (x ∷ xs) all = insert_by-All P x (sort_by xs) all.0 (sort_by-All P xs all.1)

-- Items that are in order by a key have their keys in order.
pub map-IsOrdered {ℓ κ} :
    {A : Type ℓ} {B : Type κ} (f : A → B) (less : B → B → Bool) (xs : List A)
    → IsOrdered (λ x y. less (f x) (f y)) xs
    → IsOrdered less (map f xs)
map-IsOrdered f less [] h = tt
map-IsOrdered f less (x ∷ []) h = tt
map-IsOrdered f less (x ∷ y ∷ ys) h = (h.0, map-IsOrdered f less (y ∷ ys) h.1)

-- No number occurs twice.
abbrev pub IsDistinct : List ℕ → Type 0
IsDistinct [] = Unit {0}
IsDistinct (x ∷ xs) = (contains x xs ≡ false) × IsDistinct xs

pub contains-append_one :
    (n x : ℕ) (xs : List ℕ) → contains n (xs ++ x ∷ []) ≡ (x == n || contains n xs)
unfolding contains
contains-append_one n x [] = ground arith
contains-append_one n x (y ∷ ys) = ground (arith, contains-append_one n x ys)

pub IsDistinct-append_one :
    (x : ℕ) (xs : List ℕ) → contains x xs ≡ false → IsDistinct xs → IsDistinct (xs ++ x ∷ [])
unfolding contains
IsDistinct-append_one x [] h d = (refl, tt)
IsDistinct-append_one x (y ∷ ys) h d =
    ground (arith, contains-append_one y x ys, IsDistinct-append_one x ys)

module _ (less : ℕ → ℕ → Bool) where
  contains-insert_by :
      (n x : ℕ) (ys : List ℕ) → contains n (insert_by less x ys) ≡ (x == n || contains n ys)
  unfolding contains insert_by
  contains-insert_by n x [] = refl
  contains-insert_by n x (y ∷ ys) = ground (arith, contains-insert_by n x ys)

  pub contains-sort_by : (n : ℕ) (xs : List ℕ) → contains n (sort_by less xs) ≡ contains n xs
  unfolding contains sort_by
  contains-sort_by n [] = refl
  contains-sort_by n (x ∷ xs) =
      ground (arith, contains-insert_by n x (sort_by less xs), contains-sort_by n xs)

  insert_by-IsDistinct :
      (x : ℕ) (ys : List ℕ)
      → contains x ys ≡ false
      → IsDistinct ys
      → IsDistinct (insert_by less x ys)
  unfolding contains insert_by
  insert_by-IsDistinct x [] h d = (refl, tt)
  insert_by-IsDistinct x (y ∷ ys) h d =
      ground (arith, contains-insert_by y x ys, insert_by-IsDistinct x ys)

  pub sort_by-IsDistinct : (xs : List ℕ) → IsDistinct xs → IsDistinct (sort_by less xs)
  unfolding sort_by
  sort_by-IsDistinct [] d = tt
  sort_by-IsDistinct (x ∷ xs) d =
      insert_by-IsDistinct x (sort_by less xs) (contains-sort_by x xs ∙ d.0)
        (sort_by-IsDistinct xs d.1)
