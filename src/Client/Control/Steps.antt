-- ===== src/Client/Control/Steps.antt =====
-- What each step of a latency probe does, at the clients and at the server.
use anylan.Base.{
  ℕ, ◌-◌, ◌≡◌, ◌≤◌, ◌<◌, refl, true, false, [], ◌∷◌, ◌++◌, none, some, arith, length, ok,
  Option-cases, inl, inr,
}
use anylan.Base.Bytes.{Bytes, text, bytes_eq, bytes_eq_refl}
use anylan.Base.Dictionary.{lookup, lookup-insert}
use anylan.Protocol.{buffer, valid, type_ping, type_pong, max_control_size, MessageType}
use anylan.Protocol.Framing.{Fits, encoding, write_message-encoding}
use anylan.Protocol.Json.{Codec, RoundTrips, write_json, marshal_message}
use anylan.Protocol.Messages.{PeerList, PeerPing, PeerPong}
use anylan.Relay.Mac.{Entropy}
use anylan.Relay.Peer.{Peer}
use anylan.Control.Probes.{forward_peer_ping, forward_peer_pong}
use anylan.Client.Status.{Status, is_empty, entry, entries}
use anylan.Client.Status.Next.{PeerProbe, next_latency_probe}
use anylan.Client.Status.Answers.{record_latency_pong, expire_latency_probes, answered_entry}
use anylan.Client.Control.{Tracker, tick, ping_of, read_control, handle_ping, handle_pong}
use anylan.Client.Loops.{goes_on}

-- What a value becomes in a control message, if it fits one.
abbrev pub Marshals : {A : Type 0} → Codec A → A → Bytes → Type 0
Marshals c v p = (c.marshal v ≡ some p) × (0 < length p) × (length p ≤ max_control_size)

module _ {A : Type 0} (c : Codec A) (v : A) (p : Bytes) where
  pub write_json-encoding :
      (w : Bytes) (typ : MessageType)
      → Fits typ p
      → c.marshal v ≡ some p
      → write_json c w typ v ≡ (w ++ encoding typ p, none)
  unfolding write_json
  write_json-encoding w typ fits e = ground (arith, e, write_message-encoding w typ p fits)

  pub marshal_message-encoding :
      (typ : MessageType)
      → Fits typ p
      → c.marshal v ≡ some p
      → marshal_message c typ v ≡ ok (encoding typ p)
  unfolding marshal_message
  marshal_message-encoding typ fits e = ground (arith, write_json-encoding [] typ fits e)

pub ping-Fits : (p : Bytes) → length p ≤ max_control_size → Fits type_ping p
ping-Fits p h = record { known = unfold valid in refl; control = h; frame = inl (omega arith) }

pub pong-Fits : (p : Bytes) → length p ≤ max_control_size → Fits type_pong p
pong-Fits p h = record { known = unfold valid in refl; control = h; frame = inl (omega arith) }

-- The entry of a peer after the answer to the probe that it waits for.
pub record_latency_pong-answered :
    (pong : PeerPong) (now sent_at : ℕ) (s : Status)
    → let l = entry pong.from_peer_id (entries s.peer_latency) in
      l.pending ≡ true
      → l.probe_id ≡ pong.id
      → l.sent_at ≡ sent_at
      → let l' = entry pong.from_peer_id (entries (record_latency_pong pong now s).peer_latency) in
        (l'.state ≡ text "ok") × (l'.rtt ≡ now - sent_at) × (l'.pending ≡ false)
unfolding record_latency_pong
record_latency_pong-answered pong now sent_at s pending same at =
    elim (Option-cases (lookup pong.from_peer_id (entries s.peer_latency))) [
      | inl n ↦ absurd (ground (arith, n, pending))
      | inr (l, e) ↦ ground (
        arith,
        e,
        pending,
        same,
        at,
        bytes_eq_refl pong.id,
        bytes_eq_refl pong.from_peer_id,
        lookup-insert pong.from_peer_id pong.from_peer_id (answered_entry now l)
            (entries s.peer_latency),
      )
    ]

pub expire-peer_id : (now : ℕ) (s : Status) → (expire_latency_probes now s).peer_id ≡ s.peer_id
unfolding expire_latency_probes
expire-peer_id now s = ground arith

pub nonempty : (s : Bytes) → is_empty s ≡ false → bytes_eq s [] ≡ false
unfolding bytes_eq
nonempty [] h = absurd (ground (arith, h))
nonempty (b ∷ s) h = refl

module _ (pings : Codec PeerPing) (ping : PeerPing) (from : Peer) (p1 p2 : Bytes) where
  pub forward_peer_ping-Marshals :
      RoundTrips pings
      → is_empty ping.to_peer_id ≡ false
      → bytes_eq ping.to_peer_id from.id ≡ false
      → Marshals pings ping p1
      → Marshals pings (record ping { from_peer_id = from.id }) p2
      → forward_peer_ping pings from p1 ≡ ok (some (ping.to_peer_id, encoding type_ping p2))
  unfolding forward_peer_ping
  forward_peer_ping-Marshals trips named apart m1 m2 = ground (
    arith,
    trips ping p1 m1.0,
    nonempty ping.to_peer_id named,
    apart,
    marshal_message-encoding pings (record ping { from_peer_id = from.id }) p2 type_ping
        (ping-Fits p2 m2.2) m2.0,
  )

module _ (pongs : Codec PeerPong) (pong : PeerPong) (from : Peer) (p1 p2 : Bytes) where
  pub forward_peer_pong-Marshals :
      RoundTrips pongs
      → is_empty pong.to_peer_id ≡ false
      → bytes_eq pong.to_peer_id from.id ≡ false
      → Marshals pongs pong p1
      → Marshals pongs (record pong { from_peer_id = from.id }) p2
      → forward_peer_pong pongs from p1 ≡ ok (some (pong.to_peer_id, encoding type_pong p2))
  unfolding forward_peer_pong
  forward_peer_pong-Marshals trips named apart m1 m2 = ground (
    arith,
    trips pong p1 m1.0,
    nonempty pong.to_peer_id named,
    apart,
    marshal_message-encoding pongs (record pong { from_peer_id = from.id }) p2 type_pong
        (pong-Fits p2 m2.2) m2.0,
  )

pub tick-Marshals :
    (pings : Codec PeerPing) (rand : Entropy) (now : ℕ) (x : Tracker Bytes) (probe : PeerProbe)
    (t : Status) (p : Bytes)
    → next_latency_probe rand now (expire_latency_probes now x.status) ≡ (some probe, t)
    → Marshals pings (ping_of probe) p
    → tick pings rand now x
      ≡ goes_on (record { stream = x.stream ++ encoding type_ping p; status = t })
unfolding tick
tick-Marshals pings rand now x probe t p e m =
    rw e (
      rw (write_json-encoding pings (ping_of probe) p x.stream type_ping (ping-Fits p m.2) m.0)
        refl)

module _ (lists : Codec PeerList) (pings : Codec PeerPing) (pongs : Codec PeerPong) where
  pub read_control-ping :
      (ping : PeerPing) (p2 p3 : Bytes) (at : ℕ) (u : Tracker Bytes)
      → RoundTrips pings
      → is_empty ping.from_peer_id ≡ false
      → u.status.peer_id ≡ ping.to_peer_id
      → Marshals pings ping p2
      → Marshals pongs
          (record {
            id = ping.id;
            from_peer_id = [];
            to_peer_id = ping.from_peer_id;
            sent_at_unix_nano = ping.sent_at_unix_nano;
          })
          p3
      → read_control lists pings pongs type_ping p2 at u
        ≡ goes_on (record u { stream = u.stream ++ encoding type_pong p3 })
  unfolding read_control handle_ping
  read_control-ping ping p2 p3 at u trips named mine m2 m3 = ground (
    arith,
    m2.1,
    trips ping p2 m2.0,
    named,
    mine,
    bytes_eq_refl ping.to_peer_id,
    write_json-encoding pongs
        (record {
          id = ping.id;
          from_peer_id = [];
          to_peer_id = ping.from_peer_id;
          sent_at_unix_nano = ping.sent_at_unix_nano;
        })
        p3 u.stream type_pong (pong-Fits p3 m3.2) m3.0,
  )

  pub read_control-pong :
      (pong : PeerPong) (p4 : Bytes) (later : ℕ) (y : Tracker Bytes)
      → RoundTrips pongs
      → is_empty pong.from_peer_id ≡ false
      → y.status.peer_id ≡ pong.to_peer_id
      → Marshals pongs pong p4
      → read_control lists pings pongs type_pong p4 later y
        ≡ goes_on (record y { status = record_latency_pong pong later y.status })
  unfolding read_control handle_pong
  read_control-pong pong p4 later y trips named mine m4 =
      ground (arith, m4.1, trips pong p4 m4.0, named, mine, bytes_eq_refl pong.to_peer_id)
