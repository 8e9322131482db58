-- ===== src/Control/Probes.antt =====
-- internal/control/handler.go:283-327: the latency probes that peers send each other.
use anylan.Base.{
  ◌≡◌, Bool, false, Option, none, some, arith, if◌then◌else◌, Result, ok, err, ◌||◌, [], ◌++◌,
  Bool-cases, Option-cases, inl, inr, Result-cases,
}
use mathlib.Core.Path.{subst}
use anylan.Base.Bytes.{Bytes, bytes_eq}
use anylan.Protocol.{Error, json_failure, type_ping, type_pong, max_control_size}
use anylan.Protocol.Json.{Codec, RoundTrips, marshal_message, read_json, read_json-marshal_message}
use anylan.Protocol.Messages.{PeerPing, PeerPong}
use anylan.Relay.Peer.{Peer}
use anylan.Relay.Room.{Room}
use anylan.Relay.Manager.{World}
use anylan.Relay.Notifications.{send_notify}

-- The receiver and the message for it, if there is one to send.
abbrev pub Outgoing : Type 0
Outgoing = Option (Bytes × Bytes)

abbrev outgoing : Bytes → Result Error Bytes → Result Error Outgoing
outgoing to (err e) = err e
outgoing to (ok msg) = ok (some (to, msg))

-- `forwardPeerPing`, up to the send.
unfoldable pub forward_peer_ping : Codec PeerPing → Peer → Bytes → Result Error Outgoing
forward_peer_ping c from payload = elim (c.unmarshal payload) [
  | none ↦ err json_failure
  | some ping ↦
      if bytes_eq ping.to_peer_id [] || bytes_eq ping.to_peer_id from.id
      then ok none
      else outgoing ping.to_peer_id
          (marshal_message c type_ping (record ping { from_peer_id = from.id }))
]

-- `forwardPeerPong`, up to the send.
unfoldable pub forward_peer_pong : Codec PeerPong → Peer → Bytes → Result Error Outgoing
forward_peer_pong c from payload = elim (c.unmarshal payload) [
  | none ↦ err json_failure
  | some pong ↦
      if bytes_eq pong.to_peer_id [] || bytes_eq pong.to_peer_id from.id
      then ok none
      else outgoing pong.to_peer_id
          (marshal_message c type_pong (record pong { from_peer_id = from.id }))
]

-- The send, whose result the handler does not look at.
unfoldable pub send_outgoing : Room → Outgoing → World → Option (Bool × World)
unfolding send_notify
send_outgoing r none w = some (false, w)
send_outgoing r (some (to, msg)) w = send_notify r to msg w

-- A ping that is passed on reads back, at its receiver, as the ping that was sent, under the
-- sender's own identifier, whatever the sender wrote there; its receiver is the peer that it names,
-- who is not the sender.
pub forward_peer_ping_sender :
    (c : Codec PeerPing) (from : Peer) (payload to msg rest : Bytes) (ending : Error)
    → RoundTrips c
    → forward_peer_ping c from payload ≡ ok (some (to, msg))
    → (ping : PeerPing) × (c.unmarshal payload ≡ some ping)
      × (ping.to_peer_id ≡ to)
      × (bytes_eq to from.id ≡ false)
      × (read_json c (record { pending = msg ++ rest; ending = ending }) type_ping max_control_size
          ≡ ok (record ping { from_peer_id = from.id }, record { pending = rest; ending = ending }))
unfolding forward_peer_ping
forward_peer_ping_sender c from payload to msg rest ending trips e =
    elim (Option-cases (c.unmarshal payload)) [
      | inl n ↦ cc (n, e)
      | inr (ping, s) ↦
          let sent : PeerPing = record ping { from_peer_id = from.id } in
          elim (Bool-cases (bytes_eq ping.to_peer_id [] || bytes_eq ping.to_peer_id from.id)) [
            | inl own ↦ absurd (ground (arith, s, own, e))
            | inr other ↦ elim (Result-cases (marshal_message c type_ping sent)) [
              | inr (x, m) ↦ absurd (ground (arith, s, other, m, e))
              | inl (wire, m) ↦
                  let named : ping.to_peer_id ≡ to = ground (arith, s, other, m, e) in
                  let same : wire ≡ msg = ground (arith, s, other, m, e) in
                  let foreign : bytes_eq ping.to_peer_id from.id ≡ false = ground (arith, other) in
                  let back =
                    read_json-marshal_message c type_ping type_ping sent msg rest ending trips
                      (subst (λ x. marshal_message c type_ping sent ≡ ok x) same m) in
                  (ping, s, named, subst (λ x. bytes_eq x from.id ≡ false) named foreign, back)
            ]
          ]
    ]
