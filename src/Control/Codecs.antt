-- ===== src/Control/Codecs.antt =====
-- Codecs of the probes, concrete ones for the tests.
use mathlib.Core.Path.{subst, ap}
use anylan.Base.{
  ℕ, zero, suc, take, drop, length, take-append_length, drop-append_length, ◌≡◌, refl, [], ◌∷◌,
  ◌++◌, Option, none, some,
}
use anylan.Base.Bytes.{Bytes}
use anylan.Base.Int.{ℤ, pos, negsuc}
use anylan.Protocol.Json.{Codec, RoundTrips}
use anylan.Protocol.Messages.{PeerPing, PeerPong}

abbrev sign_of : ℤ → ℕ
sign_of (pos n) = 0
sign_of (negsuc n) = 1

abbrev size_of : ℤ → ℕ
size_of (pos n) = n
size_of (negsuc n) = n

abbrev number : ℕ → ℕ → ℤ
number zero n = pos n
number (suc k) n = negsuc n

-- A codec of probes: the two strings before the last have their lengths before them.
abbrev pub to_bytes : PeerPing → Bytes
to_bytes p =
    sign_of p.sent_at_unix_nano
      ∷ size_of p.sent_at_unix_nano
      ∷ length p.id
      ∷ length p.from_peer_id
      ∷ p.id
    ++ (p.from_peer_id ++ p.to_peer_id)

abbrev of_bytes : Bytes → Option PeerPing
of_bytes [] = none
of_bytes (s ∷ []) = none
of_bytes (s ∷ n ∷ []) = none
of_bytes (s ∷ n ∷ i ∷ []) = none
of_bytes (s ∷ n ∷ i ∷ f ∷ rest) = some (record {
  id = take i rest;
  from_peer_id = take f (drop i rest);
  to_peer_id = drop f (drop i rest);
  sent_at_unix_nano = number s n;
})

abbrev pub probe : Codec PeerPing
probe = record { marshal = λ p. some (to_bytes p); unmarshal = of_bytes }

number_of : (z : ℤ) → number (sign_of z) (size_of z) ≡ z
number_of (pos n) = refl
number_of (negsuc n) = refl

of_bytes-to_bytes : (p : PeerPing) → of_bytes (to_bytes p) ≡ some p
of_bytes-to_bytes p =
    rw
      (
        take-append_length p.id (p.from_peer_id ++ p.to_peer_id),
        drop-append_length p.id (p.from_peer_id ++ p.to_peer_id),
        take-append_length p.from_peer_id p.to_peer_id,
        drop-append_length p.from_peer_id p.to_peer_id,
        number_of p.sent_at_unix_nano,
      )
      refl

pub probe-RoundTrips : RoundTrips probe
probe-RoundTrips v p e =
    let same : to_bytes v ≡ p = cc e in subst (λ q. of_bytes q ≡ some v) same (of_bytes-to_bytes v)

-- A pong has the fields of a ping.
abbrev of_ping : Option PeerPing → Option PeerPong
of_ping none = none
of_ping (some p) = some (record {
  id = p.id;
  from_peer_id = p.from_peer_id;
  to_peer_id = p.to_peer_id;
  sent_at_unix_nano = p.sent_at_unix_nano;
})

abbrev to_ping : PeerPong → PeerPing
to_ping p = record {
  id = p.id;
  from_peer_id = p.from_peer_id;
  to_peer_id = p.to_peer_id;
  sent_at_unix_nano = p.sent_at_unix_nano;
}

abbrev pub answer : Codec PeerPong
answer = record {
  marshal = λ p. some (to_bytes (to_ping p));
  unmarshal = λ b. of_ping (of_bytes b);
}

pub answer-RoundTrips : RoundTrips answer
answer-RoundTrips v p e =
    let same : to_bytes (to_ping v) ≡ p = cc e in
    subst (λ q. of_ping (of_bytes q) ≡ some v) same (ap of_ping (of_bytes-to_bytes (to_ping v)))
