-- ===== src/Server/Pool.antt =====
-- The pools that the server accepts are pools that the relay can hand out.
use native.Mathlib.Nat.{two-pow-succ, mul_assoc, mul-le-mul_right, div-lt_iff_lt-mul, one-le-pow}
use anylan.Base.{
  ℕ, suc, zero, ◌+◌, ◌-◌, ◌*◌, ◌/◌, ◌%◌, ◌^◌, ◌≤◌, ◌<◌, ◌≡◌, refl, sym, ◌∙◌, true, Option, some,
  arith, ltb, ok, Bool-cases, Option-cases, inl, inr,
}
use mathlib.Core.Path.{subst, ap}
use anylan.Base.Bytes.{Bytes}
use anylan.Base.Binary.{uint32}
use anylan.Relay.Address.{Addr, Prefix, v4, v6, no_addr, is4, ipv4_to_uint32, IsIpv4}
use anylan.Relay.Manager.{World, new_manager, max_rooms}
use anylan.Relay.Manager.Invariant.{PoolFits, WorldFits}
use anylan.Relay.Manager.Steps.{Reach, Reach-WorldFits, new_manager-WorldFits}
use anylan.Server.{load_pool, check_pool, default_pool, must_parse_default, is_empty}

pow_add : (a b : ℕ) → 2 ^ a * 2 ^ b ≡ 2 ^ (a + b)
pow_add a zero = let same : a + 0 ≡ a = omega arith in rw same (omega arith)
pow_add a (suc b) =
    let next : a + suc b ≡ suc (a + b) = omega arith in
    let here = pow_add a b in
    rw next
      (ap (λ x. 2 ^ a * x) (two-pow-succ b) ∙ grind (arith, here) ∙ sym (two-pow-succ (a + b)))

aligned_multiple : (q m n : ℕ) → n ≡ m * 256 → q * n % 256 ≡ 0
aligned_multiple q m n e = rw (e, sym (mul_assoc q m 256)) (omega arith)

next_multiple : (q m n limit : ℕ) → n ≡ m * 256 → suc q * n ≤ limit → q * n + m * 256 ≤ limit
next_multiple q m n limit e h = grind (arith, e, h)

max_rooms_below : (b : ℕ) → b ≤ 24 → max_rooms b ≤ 2 ^ (24 - b)
unfolding max_rooms
max_rooms_below b small = ground arith

-- The address with its low bits cleared, as a number, is the first of a subnet that fits 32 bits
-- and whose parts of 256 addresses `max_rooms` counts.
masked_fits :
    (b v : ℕ)
    → b ≤ 24
    → v < 2 ^ 32
    → (v / 2 ^ (32 - b) * 2 ^ (32 - b) % 256 ≡ 0)
      × (v / 2 ^ (32 - b) * 2 ^ (32 - b) + max_rooms b * 256 ≤ 2 ^ 32)
masked_fits b v small low =
    let k = 24 - b in
    let whole : 2 ^ (32 - b) ≡ 2 ^ k * 256 =
      (let split : 32 - b ≡ k + 8 = omega (arith, small) in rw split (sym (pow_add k 8))) in
    let all : 2 ^ b * 2 ^ (32 - b) ≡ 2 ^ 32 =
      (let split : b + (32 - b) ≡ 32 = omega (arith, small) in
        pow_add b (32 - b) ∙ ap (λ n. 2 ^ n) split) in
    let positive : 0 < 2 ^ (32 - b) = one-le-pow (32 - b) 2 (omega arith) in
    let q = v / 2 ^ (32 - b) in
    let few : q < 2 ^ b = (div-lt_iff_lt-mul positive).1 (omega (arith, all, low)) in
    let fits : suc q * 2 ^ (32 - b) ≤ 2 ^ b * 2 ^ (32 - b) = mul-le-mul_right (2 ^ (32 - b)) few in
    (
      aligned_multiple q (2 ^ k) (2 ^ (32 - b)) whole,
      omega (
        arith,
        next_multiple q (2 ^ k) (2 ^ (32 - b)) (2 ^ 32) whole (omega (arith, fits, all)),
        max_rooms_below b small,
      ),
    )

-- netip documents of `Masked` that it keeps the number of bits and clears the others of the
-- address.
abbrev pub Clears : (Prefix → Prefix) → Type 0
Clears masked =
    (p : Prefix) (v : ℕ)
    → IsIpv4 p.addr
    → ipv4_to_uint32 p.addr ≡ ok v
    → ((masked p).bits ≡ p.bits)
      × (ipv4_to_uint32 (masked p).addr ≡ ok (v / 2 ^ (32 - p.bits) * 2 ^ (32 - p.bits)))

-- What a prefix with an IPv4 address is made of.
abbrev pub ParsesBytes : (Bytes → Option Prefix) → Type 0
ParsesBytes parse_prefix =
    (value : Bytes) (p : Prefix) → parse_prefix value ≡ some p → is4 p.addr ≡ true → IsIpv4 p.addr

pub uint32_bound : (a : Addr) (v : ℕ) → IsIpv4 a → ipv4_to_uint32 a ≡ ok v → v < 2 ^ 32
unfolding ipv4_to_uint32
uint32_bound (v4 a b c d) v i e = ground (arith, i, e)
uint32_bound no_addr v i e = absurd i
uint32_bound (v6 bytes zone) v i e = absurd i

is4-uint32 :
    (a : Addr) → is4 a ≡ true → IsIpv4 a → (v : ℕ) × (ipv4_to_uint32 a ≡ ok v) × (v < 2 ^ 32)
unfolding is4 ipv4_to_uint32
is4-uint32 (v4 a b c d) h i = (uint32 a b c d, refl, omega (arith, i))
is4-uint32 no_addr h i = absurd i
is4-uint32 (v6 bytes zone) h i = absurd i

abbrev pub ten_240 : Prefix
ten_240 = record { addr = v4 10 240 0 0; bits = 12 }

ten_240-PoolFits : PoolFits (uint32 10 240 0 0) ten_240
unfolding ipv4_to_uint32 max_rooms
ten_240-PoolFits = record { is_ipv4 = refl; aligned = refl; holds = omega arith }

module _ (parse_prefix : Bytes → Option Prefix) (masked : Prefix → Prefix) where
  check_pool-PoolFits :
      (given pool : Prefix)
      → Clears masked
      → (is4 given.addr ≡ true → IsIpv4 given.addr)
      → check_pool parse_prefix masked given ≡ ok pool
      → (base : ℕ) × PoolFits base pool
  unfolding check_pool
  check_pool-PoolFits given pool clears bytes e = elim (Bool-cases (is4 given.addr)) [
    | inr other ↦ absurd (ground (arith, other, e))
    | inl ipv4 ↦ elim (Bool-cases (ltb 24 given.bits)) [
      | inl small ↦ absurd (ground (arith, ipv4, small, e))
      | inr large ↦
          let (v, number, low) = is4-uint32 given.addr ipv4 (bytes ipv4) in
          let (bits, addr) = clears given v (bytes ipv4) number in
          let same : masked given ≡ pool = ground (arith, ipv4, large, e) in
          let (aligned, holds) = masked_fits given.bits v (ground (arith, large)) low in
          let base = v / 2 ^ (32 - given.bits) * 2 ^ (32 - given.bits) in
          (
            base,
            subst (PoolFits base) same (record {
              is_ipv4 = addr;
              aligned = aligned;
              holds = subst (λ n. base + max_rooms n * 256 ≤ 2 ^ 32) (sym bits) holds;
            }),
          )
    ]
  ]

  load_pool-PoolFits :
      (value : Bytes) (pool : Prefix)
      → Clears masked
      → ParsesBytes parse_prefix
      → parse_prefix default_pool ≡ some ten_240
      → load_pool parse_prefix masked value ≡ some (ok pool)
      → (base : ℕ) × PoolFits base pool
  unfolding load_pool must_parse_default
  load_pool-PoolFits value pool clears bytes default e = elim (Bool-cases (is_empty value)) [
    | inl unset ↦
        let same : ten_240 ≡ pool = ground (arith, unset, default, e) in
        (uint32 10 240 0 0, subst (PoolFits (uint32 10 240 0 0)) same ten_240-PoolFits)
    | inr given ↦ elim (Option-cases (parse_prefix value)) [
      | inl n ↦ absurd (ground (arith, given, n, e))
      | inr (p, parsed) ↦
          let checked : check_pool parse_prefix masked p ≡ ok pool =
            ground (arith, given, parsed, e) in
          check_pool-PoolFits p pool clears (bytes value p parsed) checked
    ]
  ]

  -- A pool that the server loads, from what is given or from the default, where net/netip parses
  -- and clears as it documents: whatever then happens in the manager that the server makes over it,
  -- its rooms and peers stay consistent.
  pub load_pool-WorldFits :
      (value : Bytes) (pool : Prefix) (w : World)
      → Clears masked
      → ParsesBytes parse_prefix
      → parse_prefix default_pool ≡ some ten_240
      → load_pool parse_prefix masked value ≡ some (ok pool)
      → Reach (new_manager pool) w
      → (base : ℕ) × PoolFits base pool × WorldFits base w
  load_pool-WorldFits value pool w clears bytes default e r =
      let (base, fits) = load_pool-PoolFits value pool clears bytes default e in
      (base, fits, Reach-WorldFits base (new_manager-WorldFits base pool fits) r)
