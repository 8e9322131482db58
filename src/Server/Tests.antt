-- ===== src/Server/Tests.antt =====
-- The theorem on the pool, on the default one.
use native.Mathlib.Nat.{div-mul-le_self}
use mathlib.Core.Path.{subst, ap}
use anylan.Base.{
  ℕ, ◌≡◌, ◌<◌, ◌/◌, ◌*◌, ◌^◌, ◌-◌, refl, ◌∙◌, [], Option, some, arith, Result, ok, err,
}
use anylan.Base.Bytes.{Bytes}
use anylan.Relay.Address.{
  Addr, Prefix, IsIpv4, ipv4_to_uint32, uint32_to_ipv4, ipv4_to_uint32-uint32_to_ipv4,
}
use anylan.Relay.Error.{Error}
use anylan.Relay.Manager.{new_manager}
use anylan.Relay.Manager.Steps.{here}
use anylan.Relay.Manager.Invariant.{PoolFits, WorldFits}
use anylan.Server.{load_pool, must_parse_default}
use anylan.Server.Pool.{Clears, ParsesBytes, ten_240, load_pool-WorldFits, uint32_bound}

abbrev parse : Bytes → Option Prefix
parse value = some ten_240

abbrev first_of : Addr → ℕ → Result Error ℕ → Addr
first_of a bits (err e) = a
first_of a bits (ok v) = uint32_to_ipv4 (v / 2 ^ (32 - bits) * 2 ^ (32 - bits))

abbrev masked : Prefix → Prefix
masked p = record { addr = first_of p.addr p.bits (ipv4_to_uint32 p.addr); bits = p.bits }

masked-Clears : Clears masked
masked-Clears p v i e =
    let n = v / 2 ^ (32 - p.bits) * 2 ^ (32 - p.bits) in
    let low : n < 2 ^ 32 =
      omega (arith, uint32_bound p.addr v i e, div-mul-le_self v (2 ^ (32 - p.bits))) in
    (
      refl,
      ap (λ r. ipv4_to_uint32 (first_of p.addr p.bits r)) e ∙ ipv4_to_uint32-uint32_to_ipv4 n low,
    )

parse-ParsesBytes : ParsesBytes parse
parse-ParsesBytes value p e h =
    subst (λ (q : Prefix). IsIpv4 q.addr) (let same : ten_240 ≡ p = ground (arith, e) in same)
      (omega arith, omega arith, omega arith, omega arith)

default_loaded : load_pool parse masked [] ≡ some (ok ten_240)
unfolding load_pool must_parse_default
default_loaded = refl

load_pool-WorldFits_example :
    (base : ℕ) × PoolFits base ten_240 × WorldFits base (new_manager ten_240)
load_pool-WorldFits_example =
    load_pool-WorldFits parse masked [] ten_240 (new_manager ten_240) masked-Clears
      parse-ParsesBytes refl default_loaded here
