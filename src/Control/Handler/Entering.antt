-- ===== src/Control/Handler/Entering.antt =====
-- What the answer to a request to join can be.
use anylan.Base.{◌≡◌, ◌⊎◌, false, true, Result, ok, err}
use anylan.Base.Bytes.{Bytes}
use anylan.Protocol.{Writer, Reader, type_join_reject}
use anylan.Protocol.Json.{write_json}
use anylan.Relay.Error.{Error}
use anylan.Relay.Peer.{Peer}
use anylan.Relay.Room.{JoinOptions}
use anylan.Relay.Manager.{World, Run, returns, is_room_closed}
use anylan.Relay.Manager.Join.{IsJoined}
use anylan.Control.Handler.{Services, Stream, Admission, turned_away, admitted, read_request}

-- The answers, where `joins` is `Manager.Join`: a peer that is in the room that was asked for, or a
-- stream that ends with the refusal and its reason, which comes from the request or from the manager.
abbrev pub Entered :
    {W : Type 0} ⦃s : Writer W⦄
    → Services
    → (Bytes → JoinOptions → Run (Result Error Peer × World))
    → Reader
    → Stream W
    → World
    → Admission W
    → World
    → Type 0
Entered v joins r stream w (admitted room p rest) w' =
    IsJoined w' room p
    × ((opt : JoinOptions) × (read_request v r ≡ ok ((room, opt), rest))
        × (joins room opt ≡ returns (ok p, w')))
Entered v joins r stream w (turned_away t) w' =
    (reason : Bytes) × (t.finished ≡ true)
    × (t.written
        ≡ (write_json v.rejects stream.written type_join_reject (record { reason = reason })).0)
    × (((read_request v r ≡ err reason) × (w' ≡ w))
        ⊎ ((room : Bytes) × (opt : JoinOptions) × (rest : Reader) × (e : Error) × (read_request v r
              ≡ ok ((room, opt), rest))
            × (joins room opt ≡ returns (err e, w'))
            × (is_room_closed e ≡ false)
            × (reason ≡ v.error_text e)))
