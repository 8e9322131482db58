-- ===== src/Client/Tests/Streams.antt =====
-- The theorems on the streams of a client, on two frames, and one packet.
use anylan.Base.{
  ℕ, ◌≡◌, ◌+◌, ◌<◌, ◌≤◌, refl, true, false, List, [], ◌∷◌, ◌++◌, none, arith, length, map, ok, inr,
}
use anylan.Base.Bytes.{Bytes, text}
use anylan.Protocol.{eof, Writer, buffer, max_frame_size, valid}
use anylan.Capture.{Metadata, is_enabled}
use anylan.Relay.Address.{v4}
use anylan.Relay.Peer.{Peer}
use anylan.Relay.Room.{Room}
use anylan.Client.Status.{new_idle_status}
use anylan.Client.Loops.{goes_on, ends, feed, pump}
use anylan.Client.Loops.Ending.{has_ended, pump_ends}
use anylan.Client.Data.{Link, read_tap, write_tap}
use anylan.Client.Data.EndToEnd.{IsSendable, write_all, write_tap-read_tap}
use anylan.Client.Tests.Sessions.{idle}

-- A device that takes every frame.
instance abbrev frames_written : Writer (List Bytes)
frames_written = record { write = λ d p. (d ++ p ∷ [], none) }

abbrev same_text : Bytes → Bytes
same_text s = s

abbrev meta : Metadata
meta = record { direction = []; room = text "r"; peer_id = text "a"; peer_name = [] }

abbrev link : Link Bytes (List Bytes)
link = record { stream = []; device = []; status = idle; captures = none }

abbrev frames : List Bytes
frames = (1 ∷ 2 ∷ 3 ∷ []) ∷ (4 ∷ []) ∷ []

abbrev clock : ℕ → ℕ
clock n = 100 + n

link_off : is_enabled link.captures ≡ false
unfolding is_enabled
link_off = refl

sendable : (f : Bytes) → 0 < length f → length f ≤ 3 → IsSendable f
sendable f h k = (
  record {
    known = unfold valid in refl;
    control = omega (arith, k);
    frame = inr (omega (arith, k));
  },
  h,
)

pump_ends_example :
    has_ended (
      pump
        (write_tap same_text meta)
        clock
        max_frame_size
        8
        (record { pending = 4 ∷ 0 ∷ 0 ∷ 0 ∷ 1 ∷ 9 ∷ 7 ∷ []; ending = eof })
        link)
    ≡ true
pump_ends_example =
    pump_ends (write_tap same_text meta) clock max_frame_size 8
      (record { pending = 4 ∷ 0 ∷ 0 ∷ 0 ∷ 1 ∷ 9 ∷ 7 ∷ []; ending = eof }) link (omega arith)

zero_bytes : link.status.tx_bytes ≡ link.status.rx_bytes
unfolding new_idle_status
zero_bytes = refl

zero_counts : link.status.tx_frames ≡ link.status.rx_frames
unfolding new_idle_status
zero_counts = refl

write_tap-read_tap_example :
    (l' : Link Bytes (List Bytes)) × (m' : Link Bytes (List Bytes)) × (feed
        (read_tap same_text meta)
        clock
        (map ok frames)
        link
      ≡ goes_on l')
    × (pump
          (write_tap same_text meta)
          clock
          max_frame_size
          3
          (record { pending = l'.stream; ending = eof })
          link
        ≡ ends eof m')
    × (m'.device ≡ write_all frames_written link.device frames)
    × (l'.status.tx_bytes ≡ m'.status.rx_bytes)
    × (l'.status.tx_frames ≡ m'.status.rx_frames)
write_tap-read_tap_example =
    write_tap-read_tap same_text meta clock frames link link eof 3
      (
        sendable (1 ∷ 2 ∷ 3 ∷ []) (omega arith) (omega arith),
        (sendable (4 ∷ []) (omega arith) (omega arith), tt),
      )
      link_off link_off (λ d p. refl) (omega arith) refl zero_bytes zero_counts

abbrev peer : ℕ → ℕ → Peer
peer i h = record {
  address = i;
  id = h ∷ [];
  display_name = [];
  features = [];
  room = 0;
  ip = v4 10 0 0 h;
  mac = 6 ∷ 7 ∷ 7 ∷ 7 ∷ 7 ∷ h ∷ [];
  connected_at = 6;
}

abbrev packet : Bytes
packet = 69 ∷ 0 ∷ 0 ∷ 20 ∷ 0 ∷ 0 ∷ 0 ∷ 0 ∷ 64 ∷ 17 ∷ 0 ∷ 0 ∷ 10 ∷ 0 ∷ 0 ∷ 2 ∷ 10 ∷ 0 ∷ 0 ∷ 9 ∷ []

abbrev ann : Peer
ann = peer 1 2

abbrev bob : Peer
bob = peer 4 3

abbrev room : Room
room = record {
  address = 0;
  managed = true;
  index = 0;
  name = text "r";
  prefix = record { addr = v4 10 0 0 0; bits = 24 };
  created_at = 1;
  peers = (ann.id, ann) ∷ (bob.id, bob) ∷ [];
  mac_to_peer = (ann.mac, ann) ∷ (bob.mac, bob) ∷ [];
  next_host = 4;
  free_hosts = [];
  closed = false;
}
