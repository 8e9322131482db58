-- ===== src/Base/Binary.antt =====
-- Go's encoding/binary: big-endian unsigned integers of 16 and 32 bits.
use anylan.Base.Bytes.{Bytes, AreBytes}
use Prim.Native.Nat.{ℕ, ◌+◌, ◌*◌, ◌/◌, ◌%◌, ◌^◌, ◌<◌}
use mathlib.Core.Path.{◌≡◌}
use mathlib.Core.List.{[], ◌∷◌}
use native.Mathlib.Omega.{arith}

-- `binary.BigEndian.Uint16` of two bytes.
abbrev pub uint16 : ℕ → ℕ → ℕ
uint16 a b = a * 2 ^ 8 + b

-- `binary.BigEndian.Uint32` of four bytes.
abbrev pub uint32 : ℕ → ℕ → ℕ → ℕ → ℕ
uint32 a b c d = a * 2 ^ 24 + b * 2 ^ 16 + c * 2 ^ 8 + d

-- The byte of `v` that counts multiples of `2 ^ k`.
abbrev pub byte_at : ℕ → ℕ → ℕ
byte_at k v = v / 2 ^ k % 256

-- `binary.BigEndian.PutUint32`.
abbrev pub put_uint32 : ℕ → Bytes
put_uint32 v = byte_at 24 v ∷ byte_at 16 v ∷ byte_at 8 v ∷ byte_at 0 v ∷ []

-- `binary.BigEndian.PutUint16`.
abbrev pub put_uint16 : ℕ → Bytes
put_uint16 v = byte_at 8 v ∷ byte_at 0 v ∷ []

pub uint32-put_uint32 :
    (v : ℕ) → v < 2 ^ 32 → uint32 (byte_at 24 v) (byte_at 16 v) (byte_at 8 v) (byte_at 0 v) ≡ v
uint32-put_uint32 v h = omega arith

pub put_uint32-AreBytes : (v : ℕ) → AreBytes (put_uint32 v)
put_uint32-AreBytes v = omega arith

pub put_uint32-uint32 :
    (a b c d : ℕ)
    → AreBytes (a ∷ b ∷ c ∷ d ∷ [])
    → (byte_at 24 (uint32 a b c d) ≡ a)
      × (byte_at 16 (uint32 a b c d) ≡ b)
      × (byte_at 8 (uint32 a b c d) ≡ c)
      × (byte_at 0 (uint32 a b c d) ≡ d)
put_uint32-uint32 a b c d h = omega arith
