-- ===== src/Client/Session/Handshake.antt =====
-- The handler's refusal of a request to join (internal/control/handler.go), at the client that
-- asked.
use anylan.Base.{
  ℕ, ◌≡◌, ◌≢◌, ◌≤◌, refl, sym, ap, true, false, List, [], ◌∷◌, ◌++◌, Option, some, none, arith,
  length, Result, ok, err, inl, inr, Bool-cases,
}
use mathlib.Core.Path.{subst}
use anylan.Base.Bytes.{Bytes, text}
use anylan.Base.Int.{pos, int_eq, int_eq_iff}
use anylan.Protocol.{
  buffer, Writer, Reader, valid, write_message, Error, read_message, type_join_room,
  type_join_reject, max_control_size,
}
use anylan.Protocol.Framing.{Fits, read_message-write_message}
use anylan.Protocol.Json.{RoundTrips, write_json, read_json}
use anylan.Protocol.Messages.{JoinRoom}
use anylan.Relay.Mac.{Entropy}
use anylan.Relay.Manager.{World, returns}
use anylan.Control.Session.{check_join, requested_mac, is_empty}
use anylan.Control.Handler.{
  Services, Stream, turned_away, read_request, reject, reject_and_close_stream, enter,
}
use anylan.Client.Config.{Config}
use anylan.Client.Status.{Status, end_session}
use anylan.Client.Session.{
  SessionError, fatal_error, Round, run_loop, loop_from, run_round, finish_round, after_session,
  stopped, check_response,
}
use anylan.Client.SetUp.{
  Network, Device, Start, early_device, nonce_hex, join_request, read_answer, set_up,
}

-- Why a request is refused, and the reason that is given.
pub data Unfit (v : Services) (join : JoinRoom) : Bytes → Type 0 where
  other_version : join.version ≢ pos 1 → Unfit v join (text "unsupported protocol version")
  no_room :
      join.version ≡ pos 1
      → is_empty (v.trim_space join.room) ≡ true
      → Unfit v join (text "room is required")
  no_mac :
      join.version ≡ pos 1
      → is_empty (v.trim_space join.room) ≡ false
      → is_empty (v.trim_space join.mac) ≡ false
      → v.parse_mac join.mac ≡ none
      → Unfit v join (text "invalid mac address")

Unfit-check_join :
    (v : Services) (join : JoinRoom) (reason : Bytes)
    → Unfit v join reason
    → check_join v.trim_space v.parse_mac join ≡ err reason
unfolding check_join requested_mac
Unfit-check_join v join reason (other_version other) =
    elim (Bool-cases (int_eq join.version (pos 1))) [
      | inl same ↦ absurd (other ((int_eq_iff join.version (pos 1)).0 same))
      | inr apart ↦ rw apart refl
    ]
Unfit-check_join v join reason (no_room same empty) =
    rw ((int_eq_iff join.version (pos 1)).1 same, empty) refl
Unfit-check_join v join reason (no_mac same named asked bad) =
    rw ((int_eq_iff join.version (pos 1)).1 same, named, asked, bad) refl

abbrev pub rejected : Bytes → SessionError
rejected reason = fatal_error (text "join rejected: " ++ reason)

-- The error with which `runSession` returns from its set-up.
abbrev pub ended_by : Result SessionError Start → Option SessionError
ended_by (ok loops) = none
ended_by (err e) = some e

-- What a client meets whose request is written whole.
pub record Asks (n : Network) {W : Type 0} ⦃s : Writer W⦄ (cfg : Config) (c : W) : Type 0 where
  pub early : Option Device
  pub mac : Bytes
  pub nonce : Bytes
  pub dialled : n.dial ≡ none
  pub found : early_device n cfg ≡ ok (early, mac)
  pub opened : n.open_stream ≡ none
  pub drawn : nonce_hex n ≡ some nonce
  pub written : (write_json n.joins c type_join_room (join_request n cfg mac nonce)).1 ≡ none

-- The refusal is read by the client.
read_refusal :
    (v : Services) (n : Network) (reason p rest : Bytes) (ending : Error)
    → RoundTrips n.rejects
    → n.rejects ≡ v.rejects
    → v.rejects.marshal (record { reason = reason }) ≡ some p
    → length p ≤ max_control_size
    → read_answer n (record { pending = (reject v [] reason).0 ++ rest; ending = ending })
      ≡ err (rejected reason)
unfolding read_answer check_response reject write_json
read_refusal v n reason p rest ending trips codec made small =
    let fits : Fits type_join_reject p = record {
      known = unfold valid in refl;
      control = small;
      frame = inl (omega arith);
    } in
    let back =
      read_message-write_message type_join_reject p rest ending max_control_size fits (inr small) in
    let decoded : n.rejects.unmarshal p ≡ some (record { reason = reason }) =
      trips (record { reason = reason }) p (rw (codec) made) in
    let same : (reject v [] reason).0 ≡ (write_message [] type_join_reject p).0 =
      ground (arith, made) in
    let read : read_message (record { pending = (reject v [] reason).0 ++ rest; ending = ending })
          max_control_size
        ≡ ok (type_join_reject, p, record { pending = rest; ending = ending }) =
      subst
        (λ (w : Bytes).
          read_message (record { pending = w ++ rest; ending = ending }) max_control_size
          ≡ ok (type_join_reject, p, record { pending = rest; ending = ending }))
        (sym same) back in
    ground (arith, read, decoded)

set_up-refused :
    (n : Network) {W : Type 0} ⦃s : Writer W⦄ (cfg : Config) (c : W) (r : Reader) (now : ℕ)
    (t : Status) (e : SessionError)
    → Asks n cfg c
    → read_answer n r ≡ err e
    → (set_up n cfg c r now t).1 ≡ (t, err e)
unfolding set_up
set_up-refused n cfg c r now t e asks answer =
    ground (arith, asks.dialled, asks.found, asks.opened, asks.drawn, asks.written, answer)

-- A session that ended with a fatal error ends the loop with it.
run_loop-fatal_error :
    (r : Round) (rounds : List Round) (s : Status) (e : Bytes)
    → r.cancelled_in_session ≡ false
    → r.ended ≡ some (fatal_error e)
    → run_loop (r ∷ rounds) s ≡ (
      [],
      stopped
          (fatal_error e)
          (end_session (some e) (text "stopped") r.ended_at (after_session r s)),
    )
unfolding run_loop loop_from run_round finish_round
run_loop-fatal_error r rounds s e here ended = ground (arith, here, ended)

-- A request to join that is unfit, in its version, its room or its address, and a client that wrote
-- its whole request and is answered by what the handler then writes. Over a codec that decodes what
-- it encoded, and a refusal of at most 64 KiB: the handler lets nobody in, closes the stream and
-- leaves the manager; the set-up of the client's session leaves its status and ends with the
-- refusal and its reason; and if nobody cancels that session, the client's loop stops without a
-- wait, tries no more, and shows the reason.
pub join_rejected :
    (v : Services) (fuel : ℕ) (request : Reader) (join : JoinRoom) (unread : Reader)
    (rand : Entropy) (w : World) (n : Network) {C : Type 0} ⦃s : Writer C⦄ (cfg : Config) (c : C)
    (reason p rest : Bytes) (ending : Error) (now : ℕ) (t : Status) (r : Round)
    (rounds : List Round)
    → read_json v.joins request type_join_room max_control_size ≡ ok (join, unread)
    → Unfit v join reason
    → RoundTrips n.rejects
    → n.rejects ≡ v.rejects
    → v.rejects.marshal (record { reason = reason }) ≡ some p
    → length p ≤ max_control_size
    → Asks n cfg c
    → r.cancelled_in_session ≡ false
    → (out : Stream Bytes) × (enter v fuel request
          (record { written = []; finished = false })
          rand
          now
          w
        ≡ returns (turned_away out, w))
      × (out.finished ≡ true)
      × (let arriving : Reader = record { pending = out.written ++ rest; ending = ending } in
          let (status, res) = (set_up n cfg c arriving now t).1 in
          (status ≡ t)
          × (res ≡ err (rejected reason))
          × (u : Status) × (run_loop (record r { ended = ended_by res } ∷ rounds) status
              ≡ ([], stopped (rejected reason) u))
          × (u.state ≡ text "stopped")
          × (u.last_error ≡ text "join rejected: " ++ reason)
          × (u.peers ≡ []))
unfolding enter read_request reject_and_close_stream end_session
join_rejected v fuel request join unread rand w n cfg c reason p rest ending now t r rounds arrived
      unfit trips codec made small asks here =
    let refused = Unfit-check_join v join reason unfit in
    let arriving : Reader = record { pending = (reject v [] reason).0 ++ rest; ending = ending } in
    let answer = read_refusal v n reason p rest ending trips codec made small in
    let ends = set_up-refused n cfg c arriving now t (rejected reason) asks answer in
    let status = ap (λ (x : Status × Result SessionError Start). x.0) ends in
    let res = ap (λ (x : Status × Result SessionError Start). x.1) ends in
    let shown = set_up n cfg c arriving now t in
    let last : Round = record r { ended = ended_by shown.1.1 } in
    (
      record { written = (reject v [] reason).0; finished = true },
      ground (arith, arrived, refused),
      refl,
      (
        status,
        res,
        end_session (some (text "join rejected: " ++ reason)) (text "stopped") r.ended_at
            (after_session last shown.1.0),
        run_loop-fatal_error last rounds shown.1.0 (text "join rejected: " ++ reason) here
            (ap ended_by res),
        refl,
        refl,
        refl,
      ),
    )
