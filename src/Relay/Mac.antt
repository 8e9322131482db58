-- ===== src/Relay/Mac.antt =====
-- Hardware addresses: the classes of Ethernet destinations, the check of a requested address, and
-- random addresses and identifiers. crypto/rand is an argument: what a read of `n` bytes gives.
use Prim.Native.Nat.{bit_and, bit_or}
use mathlib.Core.Path.{subst}
use anylan.Base.Formatting.{hex_digit}
use anylan.Base.{
  ◌≤◌, Bool-cases, inl, inr, if◌then◌else◌, ℕ, zero, suc, ◌/◌, ◌%◌, ◌≡◌, refl, Bool, true, false,
  not, ◌&&◌, ◌||◌, [], ◌∷◌, Option-cases, inl, inr, Option, none, some, arith, length, ltb, ◌==◌,
  if◌then◌else◌, Result, ok, err,
}
use anylan.Base.Bytes.{Bytes, AreBytes}
use anylan.Relay.Error.{Error, rand_failure}

unfoldable pub is_broadcast : Bytes → Bool
is_broadcast [] = true
is_broadcast (b ∷ mac) = if not (b == 0xff) then false else is_broadcast mac

unfoldable pub is_multicast : Bytes → Bool
is_multicast [] = false
is_multicast (b ∷ mac) = bit_and b 1 == 1

-- `for _, b := range mac { if b != 0 { return true } }; return false`
unfoldable pub any_nonzero : Bytes → Bool
any_nonzero [] = false
any_nonzero (b ∷ mac) = if not (b == 0) then true else any_nonzero mac

unfoldable pub valid_peer_mac : Bytes → Bool
unfolding any_nonzero
valid_peer_mac mac =
    if (not (length mac == 6) || is_broadcast mac) || is_multicast mac
    then false
    else any_nonzero mac

-- A nil slice is `none`. `append(nil, mac...)` of no bytes is nil too.
unfoldable pub clone_mac : Option Bytes → Option Bytes
clone_mac none = none
clone_mac (some []) = none
clone_mac (some (b ∷ mac)) = some (b ∷ mac)

-- `rand.Read` into a buffer of that length; `none` is its error.
abbrev pub Entropy : Type 0
Entropy = ℕ → Option Bytes

-- crypto/rand documents that a read with no error fills the buffer.
abbrev pub Fills : Entropy → Type 0
Fills rand = (n : ℕ) (buf : Bytes) → rand n ≡ some buf → (length buf ≡ n) × AreBytes buf

-- `mac[0] = (mac[0] | 0x02) & 0xfe`
abbrev mark_local : Bytes → Bytes
mark_local [] = []
mark_local (b ∷ mac) = bit_and (bit_or b 0x02) 0xfe ∷ mac

unfoldable pub random_mac : Entropy → Result Error Bytes
random_mac rand = elim (rand 6) [ none ↦ err rand_failure | some mac ↦ ok (mark_local mac) ]

-- `fmt.Sprintf("%x", buf)`
unfoldable pub hex : Bytes → Bytes
hex [] = []
hex (b ∷ buf) = hex_digit (b / 16) ∷ hex_digit (b % 16) ∷ hex buf

unfoldable pub random_hex : ℕ → Entropy → Result Error Bytes
random_hex n rand = elim (rand n) [ none ↦ err rand_failure | some buf ↦ ok (hex buf) ]

local_bits : ℕ → Bool
local_bits b =
    let c = bit_and (bit_or b 0x02) 0xfe in
    (not (bit_and c 1 == 1) && not (c == 0)) && (not (c == 0xff) && ltb c 256)

-- Does every first byte up to this one give a local address?
local_up_to : ℕ → Bool
local_up_to zero = local_bits 0
local_up_to (suc top) = if local_bits (suc top) then local_up_to top else false

local_up_to_lem : (top b : ℕ) → local_up_to top ≡ true → b ≤ top → local_bits b ≡ true
unfolding local_up_to
local_up_to_lem zero b all le =
    let first : 0 ≡ b = omega (arith, le) in subst (λ c. local_bits c ≡ true) first all
local_up_to_lem (suc top) b all le = elim (Bool-cases (b == suc top)) [
  | inl last ↦ ground (arith, all, last)
  | inr other ↦ ground (arith, all, other, local_up_to_lem top b)
]

all_local : local_up_to 255 ≡ true
unfolding local_up_to local_bits
all_local = refl

mark_local-valid :
    (mac : Bytes) → length mac ≡ 6 → AreBytes mac → valid_peer_mac (mark_local mac) ≡ true
unfolding valid_peer_mac is_broadcast is_multicast local_bits
mark_local-valid [] h bs = absurd (omega arith)
mark_local-valid (b ∷ mac) h bs =
    ground (arith, local_up_to_lem 255 b all_local (omega (arith, bs.0)))

-- Every random address passes the check that a requested address must pass.
pub random_mac-valid :
    (rand : Entropy) (mac : Bytes)
    → Fills rand
    → random_mac rand ≡ ok mac
    → (valid_peer_mac mac ≡ true)
unfolding random_mac
random_mac-valid rand mac f e = elim (Option-cases (rand 6)) [
  | inl n ↦ cc (n, e)
  | inr (buf, s) ↦ ground (arith, mark_local-valid buf (f 6 buf s).0 (f 6 buf s).1)
]
