-- ===== src/Client/Loops/Ending.antt =====
-- The loops over the messages of a stream come to an end.
use anylan.Base.{
  ℕ, suc, zero, ◌≡◌, ◌<◌, refl, Bool, true, false, arith, length, ok, Result-cases, inl, inr, ◌⊎◌,
  length-append,
}
use mathlib.Core.Path.{ap}
use anylan.Base.Bytes.{Bytes}
use anylan.Protocol.{
  Error, MessageType, Reader, read_message, read_body, read_payload, read_full, header_type,
  header_size,
}
use anylan.Protocol.Framing.{read_full_sound, read_body_sound}
use anylan.Client.Loops.{Turn, goes_on, ends, panics, pump}

abbrev pub has_ended : {S : Type 0} → Turn S → Bool
has_ended (goes_on s) = false
has_ended (ends e s) = true
has_ended panics = true

Turn-cases :
    {S : Type 0} (t : Turn S)
    → (((s : S) × (t ≡ goes_on s)) ⊎ ((e : Error) × (s : S) × (t ≡ ends e s))) ⊎ (t ≡ panics)
Turn-cases (goes_on s) = inl (inl (s, refl))
Turn-cases (ends e s) = inl (inr (e, s, refl))
Turn-cases panics = inr refl

-- A message takes the five bytes of its header from the stream, at least.
shorter :
    (r r' : Reader) (limit typ : ℕ) (payload : Bytes)
    → read_message r limit ≡ ok (typ, payload, r')
    → length r'.pending < length r.pending
unfolding read_message read_full read_body read_payload
shorter r r' limit typ payload e = elim (Result-cases (read_full 5 r)) [
  | inr (x, bad) ↦ absurd (ground (arith, bad, e))
  | inl ((header, next), taken) ↦
      let whole = read_full_sound 5 r next header taken in
      let body =
        read_body_sound limit (header_type header) (header_size header) typ next r' payload
          (ground (arith, taken, e)) in
      omega (
        arith,
        whole.1,
        ap length whole.0,
        length-append header next.pending,
        ap length body.1,
        length-append payload r'.pending,
      )
]

-- The loop over the messages of a stream comes to an end, whatever its turns do: in as many turns
-- as the stream has bytes, and one, it returned with an error, or panicked.
pub pump_ends :
    {S : Type 0} (turn : MessageType → Bytes → ℕ → S → Turn S) (clock : ℕ → ℕ) (limit fuel : ℕ)
    (r : Reader) (s : S)
    → length r.pending < fuel
    → has_ended (pump turn clock limit fuel r s) ≡ true
unfolding pump
pump_ends turn clock limit zero r s h = absurd (omega (arith, h))
pump_ends turn clock limit (suc n) r s h = elim (Result-cases (read_message r limit)) [
  | inr (x, bad) ↦ ground (arith, bad)
  | inl ((typ, payload, r'), good) ↦ elim (Turn-cases (turn typ payload (clock n) s)) [
    | inl (inl (s', e)) ↦ ground (
      arith,
      good,
      e,
      pump_ends turn clock limit n r' s' (omega (arith, h, shorter r r' limit typ payload good)),
    )
    | inl (inr (x, s', e)) ↦ ground (arith, good, e)
    | inr e ↦ ground (arith, good, e)
  ]
]
