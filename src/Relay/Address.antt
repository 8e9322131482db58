-- ===== src/Relay/Address.antt =====
-- netip.Addr as the package uses it, and the conversions between IPv4 addresses and uint32.
use anylan.Base.{ℕ, ◌^◌, ◌<◌, ◌≡◌, ap, Bool, true, false, arith, Result, ok, err}
use anylan.Base.Bytes.{Bytes, IsByte}
use anylan.Base.Binary.{uint32, byte_at}
use anylan.Relay.Error.{Error, not_ipv4}

-- The zero Addr, an IPv4 address by its bytes, and an IPv6 address (4in6 too) by its bytes and
-- zone.
pub data Addr : Type 0 where
  no_addr : Addr
  v4 : ℕ → ℕ → ℕ → ℕ → Addr
  v6 : Bytes → Bytes → Addr

unfoldable pub is4 : Addr → Bool
is4 (v4 a b c d) = true
is4 no_addr = false
is4 (v6 bytes zone) = false

-- A subnet: netip.Prefix, for a valid one.
pub record Prefix : Type 0 where
  pub addr : Addr
  pub bits : ℕ

unfoldable pub ipv4_to_uint32 : Addr → Result Error ℕ
ipv4_to_uint32 (v4 a b c d) = ok (uint32 a b c d)
ipv4_to_uint32 no_addr = err not_ipv4
ipv4_to_uint32 (v6 bytes zone) = err not_ipv4

unfoldable pub uint32_to_ipv4 : ℕ → Addr
uint32_to_ipv4 v = v4 (byte_at 24 v) (byte_at 16 v) (byte_at 8 v) (byte_at 0 v)

-- An address whose parts are bytes, which every Addr of the program is.
abbrev pub IsIpv4 : Addr → Type 0
IsIpv4 (v4 a b c d) = IsByte a × IsByte b × IsByte c × IsByte d
IsIpv4 no_addr = ⊥
IsIpv4 (v6 bytes zone) = ⊥

-- The two conversions are inverse to each other, on every uint32 and on every IPv4 address.
pub ipv4_to_uint32-uint32_to_ipv4 : (v : ℕ) → v < 2 ^ 32 → ipv4_to_uint32 (uint32_to_ipv4 v) ≡ ok v
unfolding ipv4_to_uint32 uint32_to_ipv4
ipv4_to_uint32-uint32_to_ipv4 v h = ap ok (omega arith)

pub uint32_to_ipv4-ipv4_to_uint32 :
    (a : Addr) (v : ℕ) → IsIpv4 a → ipv4_to_uint32 a ≡ ok v → uint32_to_ipv4 v ≡ a
unfolding ipv4_to_uint32 uint32_to_ipv4
uint32_to_ipv4-ipv4_to_uint32 (v4 a b c d) v h e = ground arith
uint32_to_ipv4-ipv4_to_uint32 no_addr v h e = absurd h
uint32_to_ipv4-ipv4_to_uint32 (v6 bytes zone) v h e = absurd h
