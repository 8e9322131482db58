-- ===== src/Protocol/Framing.antt =====
-- The frame on the wire: what is written is read back, and what is read was written so.
use anylan.Base.{
  ◌⊎◌, ◌≢◌, ℕ, ◌≤◌, ◌<◌, ◌≡◌, refl, sym, ◌∙◌, true, [], ◌∷◌, ◌++◌, none, arith, length,
  length-append, take-append_length, take-append-drop, length-take, drop-append_length, ◌==◌,
  if◌then◌else◌, le→leb, ok, err,
}
use anylan.Base.Bytes.{Bytes, AreBytes}
use anylan.Base.Binary.{uint32, put_uint32, uint32-put_uint32, put_uint32-uint32}
use mathlib.Core.List.{append_assoc}
use anylan.Protocol.{
  cut_short, MessageType, Error, Reader, buffer, valid, read_full, write_message, read_message,
  read_body, max_frame_size, max_control_size, type_ethernet_frame,
}

-- The bytes of a message.
abbrev pub encoding : MessageType → Bytes → Bytes
encoding typ payload = typ ∷ put_uint32 (length payload) ++ payload

-- What `write_message` lets through.
pub record Fits (typ : MessageType) (payload : Bytes) : Type 0 where
  pub known : valid typ ≡ true
  pub control : length payload ≤ max_control_size
  pub frame : (typ ≢ type_ethernet_frame) ⊎ (length payload ≤ max_frame_size)

-- A message that fits is appended whole, and nothing fails.
pub write_message-encoding :
    (w : Bytes) (typ : MessageType) (payload : Bytes)
    → Fits typ payload
    → write_message w typ payload ≡ (w ++ encoding typ payload, none)
unfolding write_message
write_message-encoding w typ [] h = ground (arith, h.frame)
write_message-encoding w typ (x ∷ payload) h =
    ground (arith, h.frame, append_assoc w (typ ∷ put_uint32 (length (x ∷ payload))) (x ∷ payload))

-- The limit that a reader sets, 0 for none.
abbrev pub Within : ℕ → Bytes → Type 0
Within max_payload payload = (max_payload ≡ 0) ⊎ (length payload ≤ max_payload)

read_full-append :
    (front rest : Bytes) (ending : Error)
    → read_full (length front) (record { pending = front ++ rest; ending = ending })
      ≡ ok (front, record { pending = rest; ending = ending })
unfolding read_full
read_full-append front rest ending =
    ground (
      arith,
      length-append front rest,
      take-append_length front rest,
      drop-append_length front rest,
    )

pub read_message_header :
    (typ a b c d : ℕ) (tail : Bytes) (ending : Error) (max_payload : ℕ)
    → read_message (record { pending = typ ∷ a ∷ b ∷ c ∷ d ∷ tail; ending = ending }) max_payload
      ≡ read_body max_payload typ (uint32 a b c d) (record { pending = tail; ending = ending })
unfolding read_message
read_message_header typ a b c d tail ending max_payload =
    rw (le→leb 5 (length (typ ∷ a ∷ b ∷ c ∷ d ∷ tail)) (omega arith)) (unfold read_body in refl)

read_body-Fits :
    (typ : MessageType) (payload rest : Bytes) (ending : Error) (max_payload : ℕ)
    → Fits typ payload
    → Within max_payload payload
    → read_body max_payload typ
        (length payload)
        (record { pending = payload ++ rest; ending = ending })
      ≡ ok (typ, payload, record { pending = rest; ending = ending })
unfolding read_body
read_body-Fits typ [] rest ending max_payload h m = ground (arith, h.frame, m)
read_body-Fits typ (x ∷ payload) rest ending max_payload h m =
    ground (arith, h.frame, m, read_full-append (x ∷ payload) rest ending)

-- A message that was written whole is read back, and what follows it is left for the next read.
pub read_message-write_message :
    (typ : MessageType) (payload rest : Bytes) (ending : Error) (max_payload : ℕ)
    → Fits typ payload
    → Within max_payload payload
    → read_message
        (record { pending = (write_message [] typ payload).0 ++ rest; ending = ending })
        max_payload
      ≡ ok (typ, payload, record { pending = rest; ending = ending })
read_message-write_message typ payload rest ending max_payload h m =
    rw (write_message-encoding [] typ payload h) (
      read_message_header typ _ _ _ _ (payload ++ rest) ending max_payload
      ∙ rw (uint32-put_uint32 (length payload) (omega (arith, h.control)))
          (read_body-Fits typ payload rest ending max_payload h m))

pub read_message_short :
    (p : Bytes) (ending : Error) (max_payload : ℕ)
    → length p < 5
    → read_message (record { pending = p; ending = ending }) max_payload
      ≡ err (if length p == 0 then ending else cut_short ending)
unfolding read_message
read_message_short p ending max_payload h = ground arith

pub read_full_sound :
    (n : ℕ) (r r' : Reader) (p : Bytes)
    → read_full n r ≡ ok (p, r')
    → (r.pending ≡ p ++ r'.pending) × (length p ≡ n) × (r'.ending ≡ r.ending)
unfolding read_full
read_full_sound n r r' p e = ground (arith, take-append-drop n r.pending, length-take n r.pending)

pub read_body_sound :
    (max_payload typ size t : ℕ) (r r' : Reader) (payload : Bytes)
    → read_body max_payload typ size r ≡ ok (t, payload, r')
    → (t ≡ typ)
      × (r.pending ≡ payload ++ r'.pending)
      × (length payload ≡ size)
      × (r'.ending ≡ r.ending)
      × (valid typ ≡ true)
      × Within max_payload payload
      × ((typ ≢ type_ethernet_frame) ⊎ (length payload ≤ max_frame_size))
unfolding read_body
read_body_sound max_payload typ size t r r' payload e =
    ground (arith, read_full_sound size r r' payload)

module _ (ending : Error) (r' : Reader) (max_payload typ : ℕ) (payload : Bytes) where
  abbrev Took : Bytes → Type 0
  Took p =
      (p ≡ encoding typ payload ++ r'.pending)
      × (r'.ending ≡ ending)
      × (valid typ ≡ true)
      × Within max_payload payload
      × ((typ ≢ type_ethernet_frame) ⊎ (length payload ≤ max_frame_size))

  Took-header :
      (t a b c d : ℕ) (tail : Bytes)
      → AreBytes (a ∷ b ∷ c ∷ d ∷ [])
      → read_body max_payload t (uint32 a b c d) (record { pending = tail; ending = ending })
        ≡ ok (typ, payload, r')
      → Took (t ∷ a ∷ b ∷ c ∷ d ∷ tail)
  Took-header t a b c d tail h e =
      let body =
        read_body_sound max_payload t (uint32 a b c d) typ
          (record { pending = tail; ending = ending }) r' payload e in
      ground (arith, body, put_uint32-uint32 a b c d h)

  took :
      (p : Bytes)
      → AreBytes p
      → read_message (record { pending = p; ending = ending }) max_payload ≡ ok (typ, payload, r')
      → Took p
  took (t ∷ a ∷ b ∷ c ∷ d ∷ tail) h e =
      Took-header t a b c d tail (omega arith)
        (sym (read_message_header t a b c d tail ending max_payload) ∙ e)
  took p h e = cc (read_message_short p ending max_payload (omega arith))

-- What a successful read took off the stream is the encoding of what it returned.
pub read_message_sound :
    (r r' : Reader) (max_payload : ℕ) (typ : MessageType) (payload : Bytes)
    → AreBytes r.pending
    → read_message r max_payload ≡ ok (typ, payload, r')
    → (r.pending ≡ encoding typ payload ++ r'.pending)
      × (r'.ending ≡ r.ending)
      × (valid typ ≡ true)
      × Within max_payload payload
      × ((typ ≢ type_ethernet_frame) ⊎ (length payload ≤ max_frame_size))
read_message_sound r r' max_payload typ payload hb e =
    took r.ending r' max_payload typ payload r.pending hb e
