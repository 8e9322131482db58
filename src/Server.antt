-- ===== src/Server.antt =====
-- internal/server/server.go:48-73 and 204-219: the subnet that the server gives out, and what it
-- takes where nothing is set. netip.ParsePrefix and netip.Prefix.Masked are arguments; the
-- listener, its certificates and the goroutines of the connections are outside.
pub mod Pool
mod Tests
use anylan.Base.{
  ℕ, Bool, true, false, not, ltb, ◌||◌, List, ◌∷◌, Option, none, some, if◌then◌else◌, Result, ok,
  err, [],
}
use anylan.Base.Bytes.{Bytes, text}
use anylan.Base.Int.{ℤ, pos, int_eq}
use anylan.Capture.{Recorder, new_recorder, default_limit}
use anylan.Protocol.{default_mtu}
use anylan.Relay.Address.{Prefix, is4}

pub data PoolError : Type 0 where
  unparsed_pool pool_not_ipv4 pool_too_small : PoolError

abbrev pub default_pool : Bytes
default_pool = text "10.240.0.0/12"

abbrev pub is_empty : Bytes → Bool
is_empty [] = true
is_empty (b ∷ s) = false

-- What is set of a `Server`: a Pool that is not valid is `none`.
pub record Settings : Type 0 where
  pub addr : Bytes
  pub pool : Option Prefix
  pub mtu : ℤ

-- What is set of the certificate; `insecure_dev_cert` makes no difference.
pub record TlsSettings : Type 0 where
  pub tls_cert_file : Bytes
  pub tls_key_file : Bytes
  pub insecure_dev_cert : Bool

pub data TlsError : Type 0 where
  files_incomplete : TlsError
  no_certificate : Bytes → TlsError

abbrev pub alpn : Bytes
alpn = text "anylan-mvp"

-- `tls.VersionTLS13`
abbrev pub tls_13 : ℕ
tls_13 = 0x0304

pub record TlsConfig (C : Type 0) : Type 0 where
  pub certificates : List C
  pub next_protos : List Bytes
  pub min_version : ℕ

module _ {C : Type 0} where
  abbrev with_certificate : Result Bytes C → Result TlsError (TlsConfig C)
  with_certificate (err e) = err (no_certificate e)
  with_certificate (ok cert) =
      ok (record { certificates = cert ∷ []; next_protos = alpn ∷ []; min_version = tls_13 })

  -- `tlsConfig`, with `tls.LoadX509KeyPair` and the certificate that `devCertificate` makes.
  unfoldable pub tls_config :
      (Bytes → Bytes → Result Bytes C)
      → Result Bytes C
      → TlsSettings
      → Result TlsError (TlsConfig C)
  tls_config load_key_pair dev_certificate s =
      if not (is_empty s.tls_cert_file) || not (is_empty s.tls_key_file)
      then if is_empty s.tls_cert_file || is_empty s.tls_key_file
        then err files_incomplete
        else with_certificate (load_key_pair s.tls_cert_file s.tls_key_file)
      else if s.insecure_dev_cert
      then with_certificate dev_certificate
      else with_certificate dev_certificate

-- The recorder of `Serve`: the one that is set, or a new one where there is a web interface. Its
-- capture is off until it is enabled.
unfoldable pub captures_of : Option Recorder → Bytes → Option Recorder
captures_of (some captures) web_addr = some captures
captures_of none web_addr =
    if is_empty web_addr then none else some (new_recorder (pos default_limit))

module _ (parse_prefix : Bytes → Option Prefix) where
  -- `netip.MustParsePrefix`, where `none` is a panic.
  unfoldable pub must_parse_default : Option Prefix
  must_parse_default = parse_prefix default_pool

  -- The defaults of `ListenAndServe`; `Serve` repeats those of the pool and of the MTU.
  abbrev with_pool : Settings → Option Prefix → Option Settings
  with_pool s none = none
  with_pool s (some pool) = some (record {
    addr = if is_empty s.addr then text ":4433" else s.addr;
    pool = some pool;
    mtu = if int_eq s.mtu (pos 0) then pos default_mtu else s.mtu;
  })

  unfoldable pub with_defaults : Settings → Option Settings
  unfolding must_parse_default
  with_defaults s = elim s.pool [
    | none ↦ with_pool s must_parse_default
    | some pool ↦ with_pool s (some pool)
  ]

  module _ (masked : Prefix → Prefix) where
    abbrev must : Option Prefix → Option (Result PoolError Prefix)
    must none = none
    must (some pool) = some (ok pool)

    unfoldable pub check_pool : Prefix → Result PoolError Prefix
    check_pool pool =
        if not (is4 pool.addr)
        then err pool_not_ipv4
        else if ltb 24 pool.bits
        then err pool_too_small
        else ok (masked pool)

    -- `LoadPool`, where `none` is the panic of a default that does not parse.
    unfoldable pub load_pool : Bytes → Option (Result PoolError Prefix)
    unfolding must_parse_default check_pool
    load_pool value =
        if is_empty value then must must_parse_default else elim (parse_prefix value) [
          | none ↦ some (err unparsed_pool)
          | some pool ↦ some (check_pool pool)
        ]
