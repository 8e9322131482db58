-- ===== src/Capture/Tests.antt =====
-- The theorems on captures, on short frames.
use anylan.Base.{◌≡◌, refl, true, not, ◌||◌, ◌&&◌, [], ◌∷◌, some, arith, length, leb}
use anylan.Base.Bytes.{Bytes, text}
use anylan.Base.Int.{pos}
use anylan.Capture.{Event, Metadata, Recorder, new_recorder}
use anylan.Capture.Frames.{parse_frame}
use anylan.Capture.Frames.Total.{parse_frame_total, is_tagged}
use anylan.Capture.Ring.{
  record_frame, described, after, IsRing, new_recorder-IsRing, record_frame-IsRing,
}

-- A text of an address.
abbrev same_text : Bytes → Bytes
same_text ip = ip

abbrev frame : Bytes
frame = 255 ∷ 255 ∷ 255 ∷ 255 ∷ 255 ∷ 255 ∷ 6 ∷ 7 ∷ 7 ∷ 7 ∷ 7 ∷ 7 ∷ 8 ∷ 6 ∷ 0 ∷ []

parse_frame_total_example :
    (e : Event) × (parse_frame same_text frame ≡ some e)
    × (e.size ≡ length frame)
    × (e.vlan ≡ is_tagged frame)
    × (e.valid ≡ (leb 14 (length frame) && (leb 18 (length frame) || not (is_tagged frame))))
parse_frame_total_example = parse_frame_total same_text frame

abbrev on : Recorder
on = record (new_recorder (pos 3)) { enabled = true }

on-IsRing : IsRing on
unfolding new_recorder
on-IsRing =
    let ring = new_recorder-IsRing (pos 3) in
    record { positive = ring.positive; bounded = ring.bounded; enough = ring.enough; counted = tt }

abbrev meta : Metadata
meta = record { direction = text "rx"; room = text "lan"; peer_id = []; peer_name = [] }

record_frame-IsRing_example :
    (e : Event) × (parse_frame same_text frame ≡ some e)
    × (record_frame same_text (some on) meta frame 5 ≡ some (some (after on (described e meta 5))))
    × IsRing (after on (described e meta 5))
unfolding new_recorder
record_frame-IsRing_example =
    record_frame-IsRing same_text on meta frame 5 on-IsRing refl (omega arith)
