-- ===== src/Client/Data/EndToEnd.antt =====
-- What one client's device gives is what another's gets, when the stream of the one is read by the
-- other.
use anylan.Base.{
  ℕ, suc, zero, ◌≡◌, ◌<◌, refl, sym, false, List, [], ◌∷◌, ◌++◌, Option, none, arith, length,
  Result, ok, All, map, inr,
}
use mathlib.Core.List.{append_assoc, append-nil}
use mathlib.Core.Path.{subst, ap}
use anylan.Base.Bytes.{Bytes, text}
use anylan.Protocol.{Error, Writer, buffer, read_message, type_ethernet_frame, max_frame_size}
use anylan.Protocol.Framing.{
  Fits, encoding, write_message-encoding, read_message-write_message, read_message_short,
}
use anylan.Capture.{Metadata, is_enabled}
use anylan.Capture.Ring.{record_frame-is_enabled}
use anylan.Client.Status.{Status, record_rx, record_tx}
use anylan.Client.Data.{Link, read_tap, write_tap, sent, delivered, capture}
use anylan.Client.Loops.{goes_on, ends, feed, pump}

-- A frame that `WriteMessage` takes, and that is there: a read of no bytes is skipped.
abbrev pub IsSendable : Bytes → Type 0
IsSendable frame = Fits type_ethernet_frame frame × (0 < length frame)

-- The bytes of a run of frames.
abbrev pub wire : List Bytes → Bytes
wire [] = []
wire (f ∷ fs) = encoding type_ethernet_frame f ++ wire fs

abbrev pub write_all : {D : Type 0} → Writer D → D → List Bytes → D
write_all w d [] = d
write_all w d (f ∷ fs) = write_all w (w.write d f).0 fs

abbrev pub sent_all : List Bytes → Status → Status
sent_all [] s = s
sent_all (f ∷ fs) s = sent_all fs (record_tx (length f) s)

abbrev pub received_all : List Bytes → Status → Status
received_all [] s = s
received_all (f ∷ fs) s = received_all fs (record_rx (length f) s)

sent_all-received_all :
    (frames : List Bytes) (s t : Status)
    → s.tx_bytes ≡ t.rx_bytes
    → s.tx_frames ≡ t.rx_frames
    → ((sent_all frames s).tx_bytes ≡ (received_all frames t).rx_bytes)
      × ((sent_all frames s).tx_frames ≡ (received_all frames t).rx_frames)
unfolding record_rx record_tx
sent_all-received_all [] s t bytes counts = (bytes, counts)
sent_all-received_all (f ∷ fs) s t bytes counts =
    sent_all-received_all fs (record_tx (length f) s) (record_rx (length f) t)
      (ground (arith, bytes)) (ground (arith, counts))

read_encoding :
    (f rest : Bytes) (ending : Error)
    → Fits type_ethernet_frame f
    → read_message
        (record { pending = encoding type_ethernet_frame f ++ rest; ending = ending })
        max_frame_size
      ≡ ok (type_ethernet_frame, f, record { pending = rest; ending = ending })
read_encoding f rest ending fits =
    subst
      (λ (w : Bytes).
        read_message (record { pending = w ++ rest; ending = ending }) max_frame_size
        ≡ ok (type_ethernet_frame, f, record { pending = rest; ending = ending }))
      (ap (λ (r : Bytes × Option Error). r.0)
        (write_message-encoding [] type_ethernet_frame f fits))
      (read_message-write_message type_ethernet_frame f rest ending max_frame_size fits
        (inr (ground (arith, fits.frame))))

module _ {D : Type 0} ⦃device : Writer D⦄ (ip_string : Bytes → Bytes) (meta : Metadata) where
  read_tap-IsSendable :
      (f : Bytes) (now : ℕ) (l : Link Bytes D)
      → IsSendable f
      → is_enabled l.captures ≡ false
      → read_tap ip_string meta (ok f) now l
        ≡ goes_on (record l {
          stream = l.stream ++ encoding type_ethernet_frame f;
          status = record_tx (length f) l.status;
        })
  unfolding read_tap sent capture
  read_tap-IsSendable f now l fits off = ground (
    arith,
    fits.1,
    write_message-encoding l.stream type_ethernet_frame f fits.0,
    record_frame-is_enabled ip_string l.captures f now (record meta { direction = text "tx" }) off,
  )

  write_tap_frame :
      (f : Bytes) (now : ℕ) (m : Link Bytes D)
      → is_enabled m.captures ≡ false
      → (device.write m.device f).1 ≡ none
      → write_tap ip_string meta type_ethernet_frame f now m
        ≡ goes_on (record m {
          device = (device.write m.device f).0;
          status = record_rx (length f) m.status;
        })
  unfolding write_tap delivered capture
  write_tap_frame f now m off works = ground (
    arith,
    works,
    record_frame-is_enabled ip_string m.captures f now (record meta { direction = text "rx" }) off,
  )

module _ {D : Type 0} ⦃device : Writer D⦄ (ip_string : Bytes → Bytes) (meta : Metadata)
    (clock : ℕ → ℕ) where
  -- The loop over the reads of the device, with no capture.
  feed-read_tap :
      (frames : List Bytes) (l : Link Bytes D)
      → All IsSendable frames
      → is_enabled l.captures ≡ false
      → feed (read_tap ip_string meta) clock (map ok frames) l
        ≡ goes_on (record l { stream = l.stream ++ wire frames; status = sent_all frames l.status })
  unfolding feed
  feed-read_tap [] l all off = ground (arith, append-nil l.stream)
  feed-read_tap (f ∷ fs) l all off =
      let reads : List (Result Error Bytes) = map ok fs in
      let now = clock (length reads) in
      let l' : Link Bytes D = record l {
        stream = l.stream ++ encoding type_ethernet_frame f;
        status = record_tx (length f) l.status;
      } in
      ground (
        arith,
        read_tap-IsSendable ip_string meta f now l all.0 off,
        feed-read_tap fs l' all.1 off,
        append_assoc l.stream (encoding type_ethernet_frame f) (wire fs),
      )

  pump-write_tap :
      (frames : List Bytes) (m : Link Bytes D) (ending : Error) (fuel : ℕ)
      → All IsSendable frames
      → is_enabled m.captures ≡ false
      → ((d : D) (p : Bytes) → (device.write d p).1 ≡ none)
      → length frames < fuel
      → pump
          (write_tap ip_string meta)
          clock
          max_frame_size
          fuel
          (record { pending = wire frames; ending = ending })
          m
        ≡ ends ending (record m {
          device = write_all device m.device frames;
          status = received_all frames m.status;
        })
  unfolding pump
  pump-write_tap frames m ending zero all off works h = absurd (omega (arith, h))
  pump-write_tap [] m ending (suc n) all off works h =
      ground (arith, read_message_short [] ending max_frame_size (omega arith))
  pump-write_tap (f ∷ fs) m ending (suc n) all off works h =
      let m' : Link Bytes D = record m {
        device = (device.write m.device f).0;
        status = record_rx (length f) m.status;
      } in
      ground (
        arith,
        read_encoding f (wire fs) ending all.0.0,
        write_tap_frame ip_string meta f (clock n) m off (works m.device f),
        pump-write_tap fs m' ending n all.1 off works (omega (arith, h)),
      )

  -- Two clients whose captures are off. What the device of the one gives, in frames that the
  -- protocol takes and that are not empty, goes to an empty stream, and all of it, in its order, to
  -- the device of the other, if that takes every write; then the stream ends. If the counters of
  -- the one for what it sent were those of the other for what it received, they are again.
  pub write_tap-read_tap :
      (frames : List Bytes) (l : Link Bytes D) (m : Link Bytes D) (ending : Error) (fuel : ℕ)
      → All IsSendable frames
      → is_enabled l.captures ≡ false
      → is_enabled m.captures ≡ false
      → ((d : D) (p : Bytes) → (device.write d p).1 ≡ none)
      → length frames < fuel
      → l.stream ≡ []
      → l.status.tx_bytes ≡ m.status.rx_bytes
      → l.status.tx_frames ≡ m.status.rx_frames
      → (l' m' : Link Bytes D) × (feed (read_tap ip_string meta) clock (map ok frames) l
          ≡ goes_on l')
        × (pump
              (write_tap ip_string meta)
              clock
              max_frame_size
              fuel
              (record { pending = l'.stream; ending = ending })
              m
            ≡ ends ending m')
        × (m'.device ≡ write_all device m.device frames)
        × (l'.status.tx_bytes ≡ m'.status.rx_bytes)
        × (l'.status.tx_frames ≡ m'.status.rx_frames)
  write_tap-read_tap frames l m ending fuel all off_l off_m works enough fresh bytes counts =
      let l' : Link Bytes D = record l {
        stream = l.stream ++ wire frames;
        status = sent_all frames l.status;
      } in
      let m' : Link Bytes D = record m {
        device = write_all device m.device frames;
        status = received_all frames m.status;
      } in
      let (same_bytes, same_counts) = sent_all-received_all frames l.status m.status bytes counts in
      (
        l',
        m',
        feed-read_tap frames l all off_l,
        subst
            (λ (w : Bytes).
              pump (write_tap ip_string meta) clock max_frame_size fuel
                (record { pending = w ++ wire frames; ending = ending }) m
              ≡ ends ending m')
            (sym fresh) (pump-write_tap frames m ending fuel all off_m works enough),
        refl,
        same_bytes,
        same_counts,
      )
