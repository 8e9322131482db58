-- ===== src/Client/Session.antt =====
-- internal/client/client.go:231-260 and 316-341: the loop that keeps a client connected, over the
-- rounds that the network gives it. A round is what happened to the status in one session, how that
-- ended, and where the context was cancelled, if it was.
pub mod Backoff
pub mod Tracked
pub mod Handshake
pub mod Welcome
use anylan.Base.{
  ℕ, ◌*◌, Bool, true, false, not, List, [], ◌∷◌, ◌++◌, Option, none, some, ltb, if◌then◌else◌, ◌==◌,
  Result, ok, err,
}
use anylan.Base.Bytes.{Bytes, text}
use anylan.Base.Formatting.{decimal}
use anylan.Protocol.{MessageType, type_join_accept, type_join_reject}
use anylan.Protocol.Json.{Codec}
use anylan.Protocol.Messages.{JoinAccept, JoinReject, PeerList, PeerPong}
use anylan.Relay.Mac.{Entropy}
use anylan.Relay.Peer.{add64}
use anylan.Client.Status.{
  Status, set_state, joined, update_peers, end_session, record_rx, record_tx,
}
use anylan.Client.Status.Answers.{record_latency_pong, expire_latency_probes}
use anylan.Client.Status.Next.{next_latency_probe}

-- An error by its text: one that ends the loop, or one that is retried. `cancelled` is the
-- context's.
pub data SessionError : Type 0 where
  fatal_error : Bytes → SessionError
  other_error : Bytes → SessionError

abbrev pub is_fatal : SessionError → Bool
is_fatal (fatal_error e) = true
is_fatal (other_error e) = false

abbrev pub message : SessionError → Bytes
message (fatal_error e) = e
message (other_error e) = e

-- What the goroutines of a session do to the status.
pub data Event : Type 0 where
  accepted : JoinAccept → ℕ → Event
  listed : PeerList → ℕ → Event
  ticked : Entropy → ℕ → Event
  answered : PeerPong → ℕ → Event
  received : ℕ → Event
  sent : ℕ → Event

-- A tick of the tracker expires the late probes and starts one.
unfoldable pub apply : Event → Status → Status
apply (accepted accept now) s = joined accept now s
apply (listed pl now) s = update_peers pl now s
apply (ticked rand now) s = (next_latency_probe rand now (expire_latency_probes now s)).1
apply (answered pong now) s = record_latency_pong pong now s
apply (received size) s = record_rx size s
apply (sent size) s = record_tx size s

unfoldable pub apply_all : List Event → Status → Status
unfolding apply
apply_all [] s = s
apply_all (e ∷ es) s = apply_all es (apply e s)

-- `ended` is none where runSession returned nil.
pub record Round : Type 0 where
  pub events : List Event
  pub ended : Option SessionError
  pub cancelled_in_session : Bool
  pub cancelled_in_wait : Bool
  pub connecting_at : ℕ
  pub ended_at : ℕ

pub data LoopEnd : Type 0 where
  cancelled : Status → LoopEnd
  stopped : SessionError → Status → LoopEnd
  -- The rounds are used up, and the next wait would be this long.
  going : Status → ℕ → LoopEnd

abbrev pub second : ℕ
second = 1_000_000_000

unfoldable pub next_backoff : ℕ → ℕ
next_backoff backoff = if ltb backoff (15 * second) then backoff * 2 else backoff

-- The status after the session of a round.
unfoldable pub after_session : Round → Status → Status
unfolding apply_all
after_session r s = apply_all r.events (set_state (text "connecting") r.connecting_at s)

-- `status.endSession(err, "reconnecting")` and `status.reconnects.Add(1)`
unfoldable pub retried : Round → Option Bytes → Status → Status
retried r e s =
    let t = end_session e (text "reconnecting") r.ended_at s in
    record t { reconnects = add64 t.reconnects 1 }

abbrev is_fatal_end : Option SessionError → Bool
is_fatal_end none = false
is_fatal_end (some e) = is_fatal e

abbrev text_of : Option SessionError → Option Bytes
text_of none = none
text_of (some e) = some (message e)

-- The loop stops here, or goes on with a status.
pub data RoundEnd : Type 0 where
  returns : LoopEnd → RoundEnd
  goes_on : Status → RoundEnd

-- What follows a session that was not cancelled.
unfoldable pub finish_round : Round → Option SessionError → Status → RoundEnd
unfolding retried
finish_round r (some (fatal_error e)) s =
    returns (stopped (fatal_error e) (end_session (some e) (text "stopped") r.ended_at s))
finish_round r (some (other_error e)) s =
    if r.cancelled_in_wait
    then returns (cancelled (end_session (some e) (text "reconnecting") r.ended_at s))
    else goes_on (retried r (some e) s)
finish_round r none s =
    if r.cancelled_in_wait
    then returns (cancelled (end_session none (text "reconnecting") r.ended_at s))
    else goes_on (retried r none s)

unfoldable pub run_round : Round → Status → RoundEnd
run_round r s =
    if r.cancelled_in_session
    then returns (cancelled (after_session r s))
    else finish_round r r.ended (after_session r s)

-- A wait that was sat out, before what follows it.
abbrev pub waited : ℕ → List ℕ × LoopEnd → List ℕ × LoopEnd
waited backoff (waits, e) = (backoff ∷ waits, e)

-- The loop from a wait on: the durations given to `time.After` that it sat out, and its end.
unfoldable pub loop_from : List Round → ℕ → Status → List ℕ × LoopEnd
loop_from [] backoff s = ([], going s backoff)
loop_from (r ∷ rounds) backoff s = elim (run_round r s) [
  | returns e ↦ ([], e)
  | goes_on t ↦ waited backoff (loop_from rounds (next_backoff backoff) t)
]

-- `backoff := time.Second`
unfoldable pub run_loop : List Round → Status → List ℕ × LoopEnd
unfolding loop_from
run_loop rounds s = loop_from rounds second s

-- The answer to a request to join, from `ReadMessage` on. `json_text` is the text of a failed
-- decoding.
unfoldable pub check_response :
    Codec JoinReject
    → Codec JoinAccept
    → Bytes
    → MessageType
    → Bytes
    → Result SessionError JoinAccept
check_response rejects accepts json_text typ payload =
    if typ == type_join_reject
    then elim (rejects.unmarshal payload) [
      | none ↦ err (fatal_error (text "decode join reject: " ++ json_text))
      | some reject ↦ err (fatal_error (text "join rejected: " ++ reject.reason))
    ]
    else if not (typ == type_join_accept)
    then err (fatal_error (text "unexpected join response type " ++ decimal typ))
    else elim (accepts.unmarshal payload) [
      | none ↦ err (fatal_error (text "decode join accept: " ++ json_text))
      | some accept ↦ ok accept
    ]
