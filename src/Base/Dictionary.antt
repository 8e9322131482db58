-- ===== src/Base/Dictionary.antt =====
-- Go's map with string keys, as an association list. The order of the entries is one of the orders
-- in which `range` may visit the map.
use anylan.Base.Tests.{if◌then◌else◌}
use anylan.Base.Bytes.{Bytes, bytes_eq, bytes_eq_iff}
use mathlib.Core.Path.{◌≡◌, refl}
use mathlib.Core.Bool.{Bool}
use mathlib.Core.Option.{Option, none, some}
use mathlib.Core.List.{List, [], ◌∷◌}
use native.Mathlib.Omega.{arith}

abbrev pub Dictionary {ℓ} : Type ℓ → Type ℓ
Dictionary V = List (Bytes × V)

module _ {ℓ} {V : Type ℓ} where
  unfoldable pub lookup : Bytes → Dictionary V → Option V
  lookup k [] = none
  lookup k ((j, v) ∷ m) = if bytes_eq j k then some v else lookup k m

  -- `m[k] = v`
  unfoldable pub insert : Bytes → V → Dictionary V → Dictionary V
  insert k v [] = (k, v) ∷ []
  insert k v ((j, w) ∷ m) = if bytes_eq j k then (k, v) ∷ m else (j, w) ∷ insert k v m

  -- `delete(m, k)`
  unfoldable pub delete : Bytes → Dictionary V → Dictionary V
  delete k [] = []
  delete k ((j, w) ∷ m) = if bytes_eq j k then delete k m else (j, w) ∷ delete k m

  -- `for k, v := range m { if p(v) { delete(m, k) } }`
  unfoldable pub delete_where : (V → Bool) → Dictionary V → Dictionary V
  delete_where p [] = []
  delete_where p ((j, w) ∷ m) = if p w then delete_where p m else (j, w) ∷ delete_where p m

  -- The values, as `range` visits them.
  unfoldable pub values : Dictionary V → List V
  values [] = []
  values ((j, w) ∷ m) = w ∷ values m

  pub lookup-insert :
      (k j : Bytes) (v : V) (m : Dictionary V)
      → lookup j (insert k v m) ≡ (if bytes_eq k j then some v else lookup j m)
  unfolding lookup insert
  lookup-insert k j v [] = refl
  lookup-insert k j v ((i, w) ∷ m) =
      ground (arith, bytes_eq_iff k j, bytes_eq_iff i k, bytes_eq_iff i j, lookup-insert k j v m)

  pub lookup-delete :
      (k j : Bytes) (m : Dictionary V)
      → lookup j (delete k m) ≡ (if bytes_eq k j then none else lookup j m)
  unfolding lookup delete
  lookup-delete k j [] = ground arith
  lookup-delete k j ((i, w) ∷ m) =
      ground (arith, bytes_eq_iff k j, bytes_eq_iff i k, bytes_eq_iff i j, lookup-delete k j m)

  -- No key stands twice, as in every Go map.
  abbrev pub IsUnique : Dictionary V → Type ℓ
  IsUnique [] = Unit {ℓ}
  IsUnique ((k, v) ∷ m) = (lookup k m ≡ none) × IsUnique m

  pub insert-IsUnique :
      (k : Bytes) (v : V) (m : Dictionary V) → IsUnique m → IsUnique (insert k v m)
  unfolding lookup insert
  insert-IsUnique k v [] u = (refl, tt)
  insert-IsUnique k v ((j, w) ∷ m) u =
      ground (
        arith,
        bytes_eq_iff j k,
        bytes_eq_iff k j,
        lookup-insert k j v m,
        insert-IsUnique k v m u.1,
      )

  pub delete-IsUnique : (k : Bytes) (m : Dictionary V) → IsUnique m → IsUnique (delete k m)
  unfolding lookup delete
  delete-IsUnique k [] u = tt
  delete-IsUnique k ((j, w) ∷ m) u = ground (arith, lookup-delete k j m, delete-IsUnique k m u.1)

  -- The value that a test lets stand.
  abbrev pub unless : (V → Bool) → Option V → Option V
  unless p none = none
  unless p (some v) = if p v then none else some v

  pub lookup-delete_where :
      (p : V → Bool) (k : Bytes) (m : Dictionary V)
      → IsUnique m
      → lookup k (delete_where p m) ≡ unless p (lookup k m)
  unfolding lookup delete_where
  lookup-delete_where p k [] u = refl
  lookup-delete_where p k ((j, w) ∷ m) u =
      ground (arith, bytes_eq_iff j k, lookup-delete_where p k m u.1)

  pub delete_where-IsUnique :
      (p : V → Bool) (m : Dictionary V) → IsUnique m → IsUnique (delete_where p m)
  unfolding lookup delete_where
  delete_where-IsUnique p [] u = tt
  delete_where-IsUnique p ((j, w) ∷ m) u =
      ground (arith, lookup-delete_where p j m u.1, delete_where-IsUnique p m u.1)
