-- ===== src/Protocol/Tests.antt =====
-- The theorems on messages, on short ones.
use anylan.Base.{ℕ, ◌≡◌, refl, inr, [], ◌∷◌, ◌++◌, none, some, arith, ok, err}
use mathlib.Core.Path.{subst}
use anylan.Base.Bytes.{Bytes}
use anylan.Protocol.{
  eof, unexpected_eof, unexpected_type, Reader, valid, write_message, read_message, buffer,
  type_ping, type_pong, max_control_size,
}
use anylan.Protocol.Framing.{Fits, read_message-write_message}
use anylan.Protocol.Errors.{read_message_truncated}
use anylan.Protocol.Json.{
  Codec, RoundTrips, write_json, marshal_message, read_json, read_json-marshal_message,
}

abbrev payload : Bytes
payload = 1 ∷ 2 ∷ []

payload-Fits : Fits type_ping payload
unfolding valid
payload-Fits = record { known = refl; control = omega arith; frame = inr (omega arith) }

read_message-write_message_example :
    read_message
      (record { pending = (write_message [] type_ping payload).0 ++ 9 ∷ []; ending = eof })
      max_control_size
    ≡ ok (type_ping, payload, record { pending = 9 ∷ []; ending = eof })
read_message-write_message_example =
    read_message-write_message type_ping payload (9 ∷ []) eof max_control_size payload-Fits
      (inr (omega arith))

abbrev stream : Reader
stream = record { pending = 5 ∷ 0 ∷ 0 ∷ 0 ∷ 1 ∷ 7 ∷ 9 ∷ []; ending = eof }

read_message_truncated_example :
    read_message (record { pending = 5 ∷ 0 ∷ 0 ∷ []; ending = eof }) 10 ≡ err unexpected_eof
unfolding write_message valid
read_message_truncated_example =
    read_message_truncated type_ping 0 payload (5 ∷ 0 ∷ 0 ∷ []) (2 ∷ 1 ∷ 2 ∷ []) 10 payload-Fits
      (inr (omega arith)) refl

-- A codec of numbers.
abbrev number : Codec ℕ
number = record {
  marshal = λ n. some (n ∷ []);
  unmarshal = λ p. elim p [ [] ↦ none | n ∷ rest ↦ some n ];
}

number-RoundTrips : RoundTrips number
number-RoundTrips v p e =
    let same : v ∷ [] ≡ p = cc e in subst (λ q. number.unmarshal q ≡ some v) same refl

read_json-marshal_message_example :
    read_json number
      (record { pending = (5 ∷ 0 ∷ 0 ∷ 0 ∷ 1 ∷ 4 ∷ []) ++ 9 ∷ []; ending = eof })
      type_pong
      max_control_size
    ≡ err (unexpected_type type_pong type_ping)
unfolding marshal_message write_json write_message valid
read_json-marshal_message_example =
    read_json-marshal_message number type_ping type_pong 4 (5 ∷ 0 ∷ 0 ∷ 0 ∷ 1 ∷ 4 ∷ []) (9 ∷ []) eof
      number-RoundTrips refl
