-- ===== src/Protocol/Errors.antt =====
-- The refusals of `write_message` and `read_message`, and streams that end early.
use anylan.Base.{
  ℕ, ◌<◌, ◌≡◌, sym, ◌∙◌, ap, Bool, true, false, not, ◌&&◌, ◌||◌, ◌⊎◌, inl, inr, Bool-cases, [], ◌∷◌,
  ◌++◌, Option, none, some, arith, length, length-append, ltb, ◌==◌, if◌then◌else◌, err,
}
use anylan.Base.Bytes.{Bytes}
use anylan.Base.Binary.{put_uint32, uint32-put_uint32}
use Prim.Native.Nat.{◌^◌}
use anylan.Protocol.{
  MessageType, Error, buffer, valid, write_message, read_message, read_body, max_frame_size,
  max_control_size, type_ethernet_frame, payload_too_large, unknown_message, eof, unexpected_eof,
}
use anylan.Protocol.Framing.{
  encoding, Fits, Within, write_message-encoding, read_message_header, read_message_short,
}

-- The three tests of `write_message` as one.
fits : MessageType → Bytes → Bool
fits typ payload =
    valid typ
    && (not ((typ == type_ethernet_frame) && ltb max_frame_size (length payload))
        && not (ltb max_control_size (length payload)))

fits→Fits : (typ : MessageType) (payload : Bytes) → fits typ payload ≡ true → Fits typ payload
unfolding fits
fits→Fits typ payload h = ground arith

Fits→fits : (typ : MessageType) (payload : Bytes) → Fits typ payload → fits typ payload ≡ true
unfolding fits
Fits→fits typ payload f = ground (arith, f.frame)

write_message_refused :
    (w : Bytes) (typ : MessageType) (payload : Bytes)
    → fits typ payload ≡ false
    → write_message w typ payload
      ≡ (w, some (if valid typ then payload_too_large else unknown_message))
unfolding write_message fits
write_message_refused w typ payload h = ground arith

-- The two outcomes of a write into a buffer.
abbrev pub Written : Bytes → MessageType → Bytes → Type 0
Written w typ payload =
    (Fits typ payload × (write_message w typ payload ≡ (w ++ encoding typ payload, none)))
    ⊎ (¬ Fits typ payload
        × (write_message w typ payload
            ≡ (w, some (if valid typ then payload_too_large else unknown_message))))

-- Into a buffer, `write_message` either appends the whole message, which it does exactly when the
-- message fits, or appends nothing and names the reason.
pub write_message_cases : (w : Bytes) (typ : MessageType) (payload : Bytes) → Written w typ payload
write_message_cases w typ payload = elim (Bool-cases (fits typ payload)) [
  | inl h ↦
      let f : Fits typ payload = fits→Fits typ payload h in
      inl (f, write_message-encoding w typ payload f)
  | inr h ↦ inr ((λ f. cc (h, Fits→fits typ payload f)), write_message_refused w typ payload h)
]

-- An announced size over a limit is refused on the header alone, whatever follows it.
pub read_message_too_large :
    (typ size : ℕ) (tail : Bytes) (ending : Error) (max_payload : ℕ)
    → size < 2 ^ 32
    → valid typ ≡ true
    → ((0 < max_payload) × (max_payload < size))
      ⊎ ((typ ≡ type_ethernet_frame) × (max_frame_size < size))
    → read_message (record { pending = typ ∷ put_uint32 size ++ tail; ending = ending }) max_payload
      ≡ err payload_too_large
unfolding read_body
read_message_too_large typ size tail ending max_payload h v over =
    read_message_header typ _ _ _ _ tail ending max_payload
    ∙ rw (uint32-put_uint32 size h) (ground arith)

read_body_truncated :
    (typ : ℕ) (payload tail : Bytes) (max_payload : ℕ)
    → Fits typ payload
    → Within max_payload payload
    → length tail < length payload
    → read_body max_payload typ (length payload) (record { pending = tail; ending = eof })
      ≡ err (if length tail == 0 then eof else unexpected_eof)
unfolding read_body
read_body_truncated typ payload tail max_payload h m less = ground (arith, h.frame, m)

module _ (typ x : ℕ) (payload back : Bytes) (max_payload : ℕ) where
  truncated :
      (front : Bytes)
      → Fits typ payload
      → Within max_payload payload
      → encoding typ payload ≡ front ++ (x ∷ back)
      → read_message (record { pending = front; ending = eof }) max_payload
        ≡ err (if length front == 0 || length front == 5 then eof else unexpected_eof)
  truncated (t ∷ a ∷ b ∷ c ∷ d ∷ tail) h m e = ground (
    arith,
    read_message_header t a b c d tail eof max_payload,
    uint32-put_uint32 (length payload) (omega (arith, h.control)),
    read_body_truncated typ payload tail max_payload h m,
    length-append tail (x ∷ back),
  )
  truncated front h m e = read_message_short front eof max_payload (omega arith) ∙ ground arith

-- A stream that ends inside a message gives no message: `eof` if it ends before the message or
-- between header and payload, and `unexpected_eof` elsewhere.
pub read_message_truncated :
    (typ x : ℕ) (payload front back : Bytes) (max_payload : ℕ)
    → Fits typ payload
    → Within max_payload payload
    → (write_message [] typ payload).0 ≡ front ++ (x ∷ back)
    → read_message (record { pending = front; ending = eof }) max_payload
      ≡ err (if length front == 0 || length front == 5 then eof else unexpected_eof)
read_message_truncated typ x payload front back max_payload h m e =
    truncated typ x payload back max_payload front h m
      (sym (ap (λ (p : Bytes × Option Error). p.0) (write_message-encoding [] typ payload h)) ∙ e)
