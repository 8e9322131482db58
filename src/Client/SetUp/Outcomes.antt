-- ===== src/Client/SetUp/Outcomes.antt =====
-- How the set-up of a session can end, and what it does to the status.
use anylan.Base.{ℕ, ◌≡◌, Bool, ◌∷◌, [], ◌++◌, Option, none, some, if◌then◌else◌, Result, ok, err}
use anylan.Base.Bytes.{Bytes, text}
use anylan.Base.Int.{pos}
use anylan.Protocol.{Error, Writer, Reader, type_join_room}
use anylan.Protocol.Json.{write_json}
use anylan.Protocol.Messages.{JoinRoom, JoinAccept}
use anylan.Relay.Mac.{hex}
use anylan.Client.Config.{Config}
use anylan.Client.Status.{Status, joined}
use anylan.Client.Session.{SessionError, fatal_error, other_error}
use anylan.Client.SetUp.{Network, Device, Start}
use anylan.Client.SetUp.Stages.{Early, Answer, Started}

-- The request of a client.
abbrev pub request_of : Config → Bytes → Bytes → JoinRoom
request_of cfg mac nonce = record {
  version = pos 1;
  room = cfg.room;
  display_name = cfg.display_name;
  mac = mac;
  nonce = nonce;
  features = text "peer_latency" ∷ [];
}

module _ (n : Network) (cfg : Config) {W : Type 0} ⦃s : Writer W⦄ (c : W) (r : Reader) (now : ℕ)
    (t : Status) where
  -- What happened before the request is written.
  pub record Ready (early : Option Device) (mac nonce : Bytes) : Type 0 where
    pub dialled : n.dial ≡ none
    pub device : Early n cfg (ok (early, mac))
    pub stream : n.open_stream ≡ none
    pub random : (buf : Bytes) × (n.rand 16 ≡ some buf) × (nonce ≡ hex buf)

  -- What was written, the status and the result, for each way in which the set-up can end.
  pub data SetUp : W × (Status × Result SessionError Start) → Type 0 where
    unconnected :
        (of_certificate : Bool) (x : Bytes)
        → n.dial ≡ some (of_certificate, x)
        → SetUp (
          c,
          (
            t,
            err (
                if of_certificate
                then fatal_error (text "TLS certificate verification failed: " ++ x)
                else other_error x),
          ),
        )
    no_device : (e : SessionError) → n.dial ≡ none → Early n cfg (err e) → SetUp (c, (t, err e))
    no_stream :
        (early : Option Device × Bytes) (x : Bytes)
        → n.dial ≡ none
        → Early n cfg (ok early)
        → n.open_stream ≡ some x
        → SetUp (c, (t, err (other_error x)))
    no_nonce :
        (early : Option Device × Bytes)
        → n.dial ≡ none
        → Early n cfg (ok early)
        → n.open_stream ≡ none
        → n.rand 16 ≡ none
        → SetUp (c, (t, err (other_error n.rand_text)))
    unsent :
        (early : Option Device) (mac nonce : Bytes) (c' : W) (x : Error)
        → Ready early mac nonce
        → write_json n.joins c type_join_room (request_of cfg mac nonce) ≡ (c', some x)
        → SetUp (c', (t, err (other_error (n.error_text x))))
    unanswered :
        (early : Option Device) (mac nonce : Bytes) (c' : W) (e : SessionError)
        → Ready early mac nonce
        → write_json n.joins c type_join_room (request_of cfg mac nonce) ≡ (c', none)
        → Answer n r (err e)
        → SetUp (c', (t, err e))
    connected :
        (early : Option Device) (mac nonce : Bytes) (c' : W) (accept : JoinAccept)
        (res : Result SessionError Start)
        → Ready early mac nonce
        → write_json n.joins c type_join_room (request_of cfg mac nonce) ≡ (c', none)
        → Answer n r (ok accept)
        → Started n cfg early accept res
        → SetUp (c', (joined accept now t, res))
