-- ===== src/Client/SetUp.antt =====
-- internal/client/client.go:262-387: the set-up of a session, from the connection to the start of
-- the goroutines. What QUIC, the device and the text of an error are is a `Network`; the control
-- stream is a writer and a reader of the protocol.
pub mod Stages
pub mod Outcomes
mod Tests
use anylan.Base.{
  ℕ, Bool, true, false, not, [], ◌∷◌, ◌++◌, Option, none, some, ◌==◌, if◌then◌else◌, Result, ok,
  err,
}
use anylan.Base.Bytes.{Bytes, text}
use anylan.Base.Int.{ℤ, pos}
use anylan.Protocol.{Error, Writer, Reader, read_message, type_join_room, max_control_size}
use anylan.Protocol.Json.{Codec, write_json}
use anylan.Protocol.Messages.{JoinRoom, JoinAccept, JoinReject, feature_peer_latency}
use anylan.Relay.Mac.{Entropy, hex}
use anylan.Tap.{layer_ip, device_layer}
use anylan.Client.Config.{Config}
use anylan.Client.Status.{Status, joined}
use anylan.Client.Session.{SessionError, fatal_error, other_error, check_response}

pub record Device : Type 0 where
  pub name : Bytes
  pub layer : ℕ

-- What a session meets. An error is its text; `rand_text` is that of a failed read of crypto/rand,
-- and that of the connection may be one of the certificate.
pub record Network : Type 0 where
  pub dial : Option (Bool × Bytes)
  pub should_advertise_mac : Bool
  pub open_device : Bytes → Result Bytes Device
  pub advertise_mac : Device → Result Bytes Bytes
  pub open_stream : Option Bytes
  pub rand : Entropy
  pub rand_text : Bytes
  pub configure : Bytes → Bytes → Bytes → ℤ → Bool → Option Bytes
  pub accept_stream : Option Bytes
  pub parse_mac : Bytes → Result Bytes Bytes
  pub parse_ipv4 : Bytes → Option Bytes
  pub error_text : Error → Bytes
  pub json_text : Bytes
  pub joins : Codec JoinRoom
  pub rejects : Codec JoinReject
  pub accepts : Codec JoinAccept

-- Which goroutines start: those of a device with IP packets, or with Ethernet frames.
pub data Start : Type 0 where
  ip_loops : Bytes → Bytes → Start
  ethernet_loops : Start

module _ (n : Network) where
  -- The error of a failed connection.
  abbrev pub dial_error : Bool × Bytes → SessionError
  dial_error (true, e) = fatal_error (text "TLS certificate verification failed: " ++ e)
  dial_error (false, e) = other_error e

  unfoldable pub open_tap : Config → Result SessionError Device
  open_tap cfg = elim (n.open_device cfg.device_name) [
    | err e ↦ err (fatal_error (text "open TAP device: " ++ e))
    | ok device ↦ ok device
  ]

  abbrev advertised : Device → Result SessionError (Option Device × Bytes)
  advertised device = elim (n.advertise_mac device) [
    | err e ↦ err (fatal_error (text "read TAP MAC address: " ++ e))
    | ok mac ↦ ok (some device, mac)
  ]

  -- The device that is opened before the request, where its address is asked for.
  unfoldable pub early_device : Config → Result SessionError (Option Device × Bytes)
  unfolding open_tap
  early_device cfg =
      if n.should_advertise_mac
      then elim (open_tap cfg) [ err e ↦ err e | ok device ↦ advertised device ]
      else ok (none, [])

  unfoldable pub nonce_hex : Option Bytes
  nonce_hex = elim (n.rand 16) [ none ↦ none | some buf ↦ some (hex buf) ]

  unfoldable pub join_request : Config → Bytes → Bytes → JoinRoom
  join_request cfg mac nonce = record {
    version = pos 1;
    room = cfg.room;
    display_name = cfg.display_name;
    mac = mac;
    nonce = nonce;
    features = feature_peer_latency ∷ [];
  }

  -- The device of the session, opened now if it was not before.
  unfoldable pub session_device : Config → Option Device → Result SessionError Device
  unfolding open_tap
  session_device cfg (some device) = ok device
  session_device cfg none = open_tap cfg

  unfoldable pub choose_loops : Device → JoinAccept → Result SessionError Start
  choose_loops device accept =
      if device_layer device.layer == layer_ip
      then elim (n.parse_mac accept.mac) [
        | err e ↦ err (fatal_error (text "parse assigned MAC: " ++ e))
        | ok mac ↦ elim (n.parse_ipv4 accept.ipv4) [
          | none ↦ err (fatal_error (text "parse assigned IPv4: " ++ accept.ipv4))
          | some ip ↦ ok (ip_loops mac ip)
        ]
      ]
      else ok ethernet_loops

  -- From the accept on.
  unfoldable pub start_device : Config → Option Device → JoinAccept → Result SessionError Start
  start_device cfg early accept = elim (session_device cfg early) [
    | err e ↦ err e
    | ok device ↦
        elim (n.configure device.name accept.mac accept.cidr accept.mtu
          cfg.prioritize_virtual_adapter) [
            | some e ↦ err (fatal_error (text "configure TAP device: " ++ e))
            | none ↦ elim n.accept_stream [
              | some e ↦ err (other_error e)
              | none ↦ choose_loops device accept
            ]
          ]
  ]

  -- The answer that arrives on the control stream.
  unfoldable pub read_answer : Reader → Result SessionError JoinAccept
  read_answer r = elim (read_message r max_control_size) [
    | err e ↦ err (other_error (n.error_text e))
    | ok (typ, payload, rest) ↦ check_response n.rejects n.accepts n.json_text typ payload
  ]

  module _ {W : Type 0} ⦃s : Writer W⦄ where
    -- After the request was written.
    abbrev pub await_answer :
        Config
        → Option Device
        → Reader
        → ℕ
        → Status
        → W × Option Error
        → W × (Status × Result SessionError Start)
    await_answer cfg early r now t (c, some e) = (c, (t, err (other_error (n.error_text e))))
    await_answer cfg early r now t (c, none) = elim (read_answer r) [
      | err e ↦ (c, (t, err e))
      | ok accept ↦ (c, (joined accept now t, start_device cfg early accept))
    ]

    abbrev pub send_request :
        Config
        → Option Device × Bytes
        → W
        → Reader
        → ℕ
        → Status
        → W × (Status × Result SessionError Start)
    send_request cfg (early, mac) c r now t = elim n.open_stream [
      | some e ↦ (c, (t, err (other_error e)))
      | none ↦ elim nonce_hex [
        | none ↦ (c, (t, err (other_error n.rand_text)))
        | some nonce ↦
            await_answer cfg early r now t
              (write_json n.joins c type_join_room (join_request cfg mac nonce))
      ]
    ]

    -- What was written to the control stream, the status, and how the set-up ends.
    unfoldable pub set_up :
        Config → W → Reader → ℕ → Status → W × (Status × Result SessionError Start)
    set_up cfg c r now t = elim n.dial [
      | some e ↦ (c, (t, err (dial_error e)))
      | none ↦ elim (early_device cfg) [
        | err e ↦ (c, (t, err e))
        | ok early ↦ send_request cfg early c r now t
      ]
    ]
