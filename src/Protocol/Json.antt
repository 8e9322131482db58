-- ===== src/Protocol/Json.antt =====
-- JSON payloads in frames. encoding/json is a parameter: a codec for the type of the payload.
use anylan.Base.{
  ℕ, ◌≡◌, inl, inr, [], ◌++◌, Option, none, some, arith, Option-cases, ◌==◌, if◌then◌else◌, Result,
  ok, err, ◌>>=◌,
}
use anylan.Base.Bytes.{Bytes}
use anylan.Protocol.{
  MessageType, Error, Reader, Writer, buffer, write_message, read_message, max_control_size,
  unexpected_type, json_failure,
}
use anylan.Protocol.Framing.{Fits, read_message-write_message}
use anylan.Protocol.Errors.{write_message_cases}

-- `json.Marshal` and `json.Unmarshal` at one type.
pub record Codec (A : Type 0) : Type 0 where
  pub marshal : A → Option Bytes
  pub unmarshal : Bytes → Option A

-- What encoding/json documents of the program's records, whose fields are all exported.
abbrev pub RoundTrips : {A : Type 0} → Codec A → Type 0
RoundTrips {A} c = (v : A) (p : Bytes) → c.marshal v ≡ some p → c.unmarshal p ≡ some v

module _ {A : Type 0} (c : Codec A) where
  unfoldable pub write_json : {W : Type 0} ⦃s : Writer W⦄ → W → MessageType → A → W × Option Error
  write_json w typ v = elim (c.marshal v) [
    | none ↦ (w, some json_failure)
    | some payload ↦ write_message w typ payload
  ]

  -- `buf.Bytes()`, unless the write into the buffer failed.
  abbrev buffered : Bytes × Option Error → Result Error Bytes
  buffered (buf, none) = ok buf
  buffered (buf, some e) = err e

  unfoldable pub marshal_message : MessageType → A → Result Error Bytes
  unfolding write_json
  marshal_message typ v = buffered (write_json [] typ v)

  abbrev decode : MessageType → MessageType × Bytes × Reader → Result Error (A × Reader)
  decode want (typ, payload, r) =
      if typ == want
      then elim (c.unmarshal payload) [ none ↦ err json_failure | some v ↦ ok (v, r) ]
      else err (unexpected_type want typ)

  unfoldable pub read_json : Reader → MessageType → ℕ → Result Error (A × Reader)
  read_json r want max_payload = read_message r max_payload >>= decode want

  marshal_message-encoding :
      (typ : MessageType) (v : A) (msg : Bytes)
      → marshal_message typ v ≡ ok msg
      → (payload : Bytes) × (c.marshal v ≡ some payload)
        × Fits typ payload
        × (msg ≡ (write_message [] typ payload).0)
  unfolding marshal_message
  marshal_message-encoding typ v msg e = elim (Option-cases (c.marshal v)) [
    | inl n ↦ cc (n, e)
    | inr (payload, s) ↦ elim (write_message_cases [] typ payload) [
      | inl (f, w) ↦ (payload, s, f, ground arith)
      | inr (_, w) ↦ cc (s, w, e)
    ]
  ]

  -- A message built by `marshal_message` is read back by a reader of its type, and refused with
  -- `unexpected_type` by a reader of another.
  pub read_json-marshal_message :
      (typ want : MessageType) (v : A) (msg rest : Bytes) (ending : Error)
      → RoundTrips c
      → marshal_message typ v ≡ ok msg
      → read_json (record { pending = msg ++ rest; ending = ending }) want max_control_size ≡ (
          if typ == want
          then ok (v, record { pending = rest; ending = ending })
          else err (unexpected_type want typ))
  unfolding read_json
  read_json-marshal_message typ want v msg rest ending trips e =
      let (payload, s, f, w) = marshal_message-encoding typ v msg e in
      let back =
        read_message-write_message typ payload rest ending max_control_size f (inr f.control) in
      rw w (ground (arith, back, trips v payload s))
