-- ===== src/Protocol.antt =====
-- internal/protocol/protocol.go: messages of a five-byte header (type, big-endian length) and a
-- payload, written to an io.Writer and read from an io.Reader.
pub mod Framing
pub mod Errors
pub mod Json
pub mod Messages
mod Tests
use anylan.Base.{
  ℕ, ◌+◌, ◌*◌, ◌-◌, Bool, true, ◌&&◌, List, [], ◌∷◌, ◌++◌, Option, none, some, length, take, drop,
  get_or, ltb, leb, ◌==◌, if◌then◌else◌, Result, ok, err, ◌>>=◌,
}
use anylan.Base.Bytes.{Bytes}
use anylan.Base.Binary.{uint32, put_uint32}

abbrev pub version : ℕ
version = 1

abbrev pub default_mtu : ℕ
default_mtu = 1300

abbrev pub max_frame_size : ℕ
max_frame_size = 1600

abbrev pub max_control_size : ℕ
max_control_size = 64 * 1024

-- The Go type is a byte: values outside the constants exist, and `valid` refuses them.
abbrev pub MessageType : Type 0
MessageType = ℕ

abbrev pub type_join_room : MessageType
type_join_room = 1

abbrev pub type_join_accept : MessageType
type_join_accept = 2

abbrev pub type_join_reject : MessageType
type_join_reject = 3

abbrev pub type_ethernet_frame : MessageType
type_ethernet_frame = 4

abbrev pub type_ping : MessageType
type_ping = 5

abbrev pub type_pong : MessageType
type_pong = 6

abbrev pub type_peer_list : MessageType
type_peer_list = 7

-- The package's errors, those of package io that it passes on, and those of encoding/json.
pub data Error : Type 0 where
  payload_too_large unknown_message eof unexpected_eof io_failure json_failure : Error
  unexpected_type : MessageType → MessageType → Error

unfoldable pub valid : MessageType → Bool
valid t = leb type_join_room t && leb t type_peer_list

-- io.Writer: a write appends to the stream that `W` stands for, or fails after some of it.
pub record Writer (W : Type 0) : Type 0 where
  pub write : W → Bytes → W × Option Error

-- bytes.Buffer, whose writes do not fail.
instance abbrev pub buffer : Writer Bytes
buffer = record { write = λ w p. (w ++ p, none) }

-- io.Reader: the bytes that will come, and the error that ends them.
pub record Reader : Type 0 where
  pub pending : Bytes
  pub ending : Error

-- What io.ReadFull answers when `ending` comes after some of the bytes.
abbrev pub cut_short : Error → Error
cut_short eof = unexpected_eof
cut_short e = e

-- io.ReadFull into a slice of `n` bytes. A failed read consumes all; no caller reads on after one.
unfoldable pub read_full : ℕ → Reader → Result Error (Bytes × Reader)
read_full n r =
    if leb n (length r.pending)
    then ok (take n r.pending, record r { pending = drop n r.pending })
    else err (if length r.pending == 0 then r.ending else cut_short r.ending)

module _ {W : Type 0} ⦃s : Writer W⦄ where
  -- The write of the payload, skipped where that is empty.
  abbrev write_payload : Bytes → W × Option Error → W × Option Error
  write_payload payload (w, some e) = (w, some e)
  write_payload payload (w, none) = if length payload == 0 then (w, none) else s.write w payload

  unfoldable pub write_message : W → MessageType → Bytes → W × Option Error
  unfolding valid
  write_message w typ payload =
      if valid typ
      then if (typ == type_ethernet_frame) && ltb max_frame_size (length payload)
        then (w, some payload_too_large)
        else if ltb max_control_size (length payload)
        then (w, some payload_too_large)
        else write_payload payload (s.write w (typ ∷ put_uint32 (length payload)))
      else (w, some unknown_message)

-- The checks on the header's size field. `int(uint32)` does not wrap: Go's int has 64 bits.
abbrev pub check_size : ℕ → MessageType → ℕ → Bool
check_size max_payload typ size =
    if ltb 0 max_payload && ltb max_payload size
    then true
    else (typ == type_ethernet_frame) && ltb max_frame_size size

unfoldable pub read_payload : MessageType → ℕ → Reader → Result Error (MessageType × Bytes × Reader)
unfolding read_full
read_payload typ size r =
    if size == 0
    then ok (typ, [], r)
    else read_full size r >>= λ (payload, r'). ok (typ, payload, r')

-- `header[0]`, and the number in `header[1:]`, of the five bytes that `read_full` returned.
abbrev pub header_type : Bytes → MessageType
header_type h = get_or h 0 0

abbrev pub header_size : Bytes → ℕ
header_size h = uint32 (get_or h 1 0) (get_or h 2 0) (get_or h 3 0) (get_or h 4 0)

unfoldable pub read_body :
    ℕ → MessageType → ℕ → Reader → Result Error (MessageType × Bytes × Reader)
unfolding valid read_payload
read_body max_payload typ size r =
    if valid typ
    then if check_size max_payload typ size then err payload_too_large else read_payload typ size r
    else err unknown_message

-- `maxPayload` at 0 is no limit, as a negative one in Go.
unfoldable pub read_message : Reader → ℕ → Result Error (MessageType × Bytes × Reader)
unfolding read_full read_body
read_message r max_payload = read_full 5 r >>= λ (header, r').
    read_body max_payload (header_type header) (header_size header) r'
