-- ===== src/Base/Formatting.antt =====
-- The verbs of Go's fmt that the program uses, and the text forms of net.HardwareAddr.
use anylan.Base.Tests.{ltb, if◌then◌else◌}
use anylan.Base.Bytes.{Bytes}
use Prim.Native.Nat.{ℕ, zero, suc, ◌+◌, ◌-◌, ◌/◌, ◌%◌}
use mathlib.Core.List.{[], ◌∷◌}

abbrev pub hex_digit : ℕ → ℕ
hex_digit d = if ltb d 10 then b'0' + d else b'a' + (d - 10)

-- The decimal digits of a number, before those that are given. The fuel is above the number, which
-- is more than it has digits.
unfoldable digits : ℕ → ℕ → Bytes → Bytes
digits zero n rest = rest
digits (suc fuel) n rest =
    let rest' = digits fuel (n / 10) ((b'0' + n % 10) ∷ rest) in
    if ltb n 10 then (b'0' + n) ∷ rest else rest'

-- `%d` of a number that is not negative.
unfoldable pub decimal : ℕ → Bytes
unfolding digits
decimal n = digits (suc n) n []

-- `0x%04x` of a uint16.
abbrev pub hex16 : ℕ → Bytes
hex16 n =
    b'0'
    ∷ b'x'
    ∷ hex_digit (n / 4096 % 16)
    ∷ hex_digit (n / 256 % 16)
    ∷ hex_digit (n / 16 % 16)
    ∷ hex_digit (n % 16)
    ∷ []

-- net.HardwareAddr.String
unfoldable pub mac_string : Bytes → Bytes
mac_string [] = []
mac_string (b ∷ []) = hex_digit (b / 16) ∷ hex_digit (b % 16) ∷ []
mac_string (b ∷ c ∷ mac) = hex_digit (b / 16) ∷ hex_digit (b % 16) ∷ b':' ∷ mac_string (c ∷ mac)
