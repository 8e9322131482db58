-- ===== src/Base/Slices.antt =====
-- Go's indexing and slicing of a byte slice, where `none` is the panic of an access out of range.
use anylan.Base.Tests.{ltb, leb, if◌then◌else◌}
use anylan.Base.Lists.{length, take, drop, get_or}
use anylan.Base.Bytes.{Bytes}
use anylan.Base.Binary.{uint16}
use Prim.Native.Nat.{ℕ, zero, suc, ◌+◌, ◌-◌, ◌<◌}
use mathlib.Core.Path.{◌≡◌, refl, subst}
use mathlib.Core.Bool.{◌&&◌}
use mathlib.Core.List.{List, [], ◌∷◌, ◌++◌}
use mathlib.Core.Option.{Option, none, some}
use native.Mathlib.Omega.{arith}

-- A computation that a panic stops.
infixl 5 ◌>>=◌
abbrev pub ◌>>=◌ {ℓ κ} : {A : Type ℓ} {B : Type κ} → Option A → (A → Option B) → Option B
none >>= f = none
some a >>= f = f a

-- `p[i]`
abbrev pub byte : Bytes → ℕ → Option ℕ
byte p i = if ltb i (length p) then some (get_or p i 0) else none

-- `p[i:j]`
abbrev pub slice : Bytes → ℕ → ℕ → Option Bytes
slice p i j = if leb i j && leb j (length p) then some (take (j - i) (drop i p)) else none

-- `p[i:]`
abbrev pub slice_from : Bytes → ℕ → Option Bytes
slice_from p i = if leb i (length p) then some (drop i p) else none

-- `binary.BigEndian.Uint16(p[i:i+2])`
abbrev pub uint16_at : Bytes → ℕ → Option ℕ
uint16_at p i =
    if ltb (suc i) (length p) then some (uint16 (get_or p i 0) (get_or p (suc i) 0)) else none

-- `copy(xs, xs[1:]); xs[len(xs)-1] = x`
abbrev pub shift_in {ℓ} : {A : Type ℓ} → List A → A → Option (List A)
shift_in [] x = none
shift_in (y ∷ ys) x = some (ys ++ x ∷ [])

-- The items have the numbers `n`, `n + 1`, and so on.
abbrev pub IsCounted {ℓ} : {A : Type ℓ} → (A → ℕ) → ℕ → List A → Type 0
IsCounted f n [] = Unit {0}
IsCounted f n (x ∷ xs) = (f x ≡ n) × IsCounted f (suc n) xs

pub IsCounted-append_one {ℓ} :
    {A : Type ℓ} (f : A → ℕ) (n : ℕ) (xs : List A) (x : A)
    → IsCounted f n xs
    → f x ≡ n + length xs
    → IsCounted f n (xs ++ x ∷ [])
IsCounted-append_one f n [] x c e = (omega (arith, e), tt)
IsCounted-append_one f n (y ∷ ys) x c e =
    (c.0, IsCounted-append_one f (suc n) ys x c.1 (omega (arith, e)))

pub shift_in-drop {ℓ} :
    {A : Type ℓ} (xs : List A) (x : A)
    → 0 < length xs
    → shift_in xs x ≡ some (drop 1 (xs ++ x ∷ []))
shift_in-drop [] x h = absurd (omega (arith, h))
shift_in-drop (y ∷ ys) x h = refl

pub IsCounted-drop {ℓ} :
    {A : Type ℓ} (f : A → ℕ) (n k : ℕ) (xs : List A)
    → IsCounted f n xs
    → IsCounted f (n + k) (drop k xs)
IsCounted-drop f n zero xs c = subst (λ m. IsCounted f m xs) (omega arith) c
IsCounted-drop f n (suc k) [] c = tt
IsCounted-drop f n (suc k) (x ∷ xs) c =
    subst (λ m. IsCounted f m (drop k xs)) (omega arith) (IsCounted-drop f (suc n) k xs c.1)
