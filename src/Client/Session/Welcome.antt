-- ===== src/Client/Session/Welcome.antt =====
-- The handler's accept (internal/control/handler.go), at the client that asked.
use anylan.Base.{
  ℕ, ◌≡◌, ◌≢◌, ◌∙◌, refl, sym, ap, false, [], ◌++◌, Option, none, some, map, arith, ok, inl, inr,
  Option-cases,
}
use mathlib.Core.Path.{subst}
use mathlib.Core.List.{Perm}
use anylan.Base.Bytes.{Bytes}
use anylan.Base.Int.{ℤ, pos, int_eq_iff}
use anylan.Base.Dictionary.{values}
use anylan.Base.Formatting.{mac_string}
use anylan.Protocol.{
  Writer, buffer, write_message, Error, read_message, type_join_accept, max_control_size,
}
use anylan.Protocol.Framing.{read_message-write_message}
use anylan.Protocol.Errors.{write_message_cases}
use anylan.Protocol.Json.{Codec, RoundTrips, write_json}
use anylan.Protocol.Messages.{JoinAccept, JoinReject}
use anylan.Relay.Peer.{Peer}
use anylan.Relay.Room.{Room}
use anylan.Relay.Manager.{World}
use anylan.Relay.Manager.Invariant.{WorldFits}
use anylan.Relay.Manager.Tidy.{IsTidy}
use anylan.Control.Handler.{Services, Greeted, greet}
use anylan.Control.Handler.Greeting.{greet_total, accept_of}
use anylan.Client.Session.{check_response}

-- An accept that was written into an empty stream is read back by the client.
accept_read :
    (accepts : Codec JoinAccept) (rejects : Codec JoinReject) (json_text rest : Bytes)
    (ending : Error) (accept : JoinAccept)
    → RoundTrips accepts
    → (write_json accepts {W = Bytes} [] type_join_accept accept).1 ≡ none
    → (p : Bytes) × (read_message
          (record {
            pending = (write_json accepts {W = Bytes} [] type_join_accept accept).0 ++ rest;
            ending = ending;
          })
          max_control_size
        ≡ ok (type_join_accept, p, record { pending = rest; ending = ending }))
      × (check_response rejects accepts json_text type_join_accept p ≡ ok accept)
unfolding write_json check_response
accept_read accepts rejects json_text rest ending accept trips good =
    elim (Option-cases (accepts.marshal accept)) [
      | inl n ↦ absurd (ground (arith, n, good))
      | inr (p, made) ↦ elim (write_message_cases [] type_join_accept p) [
        | inl (fits, w) ↦
            let written : (write_json accepts {W = Bytes} [] type_join_accept accept).0
                ≡ (write_message {W = Bytes} [] type_join_accept p).0 =
              ground (arith, made) in
            (
              p,
              subst
                  (λ (x : Bytes).
                    read_message (record { pending = x ++ rest; ending = ending }) max_control_size
                    ≡ ok (type_join_accept, p, record { pending = rest; ending = ending }))
                  (sym written)
                  (read_message-write_message type_join_accept p rest ending max_control_size fits
                    (inr fits.control)),
              ground (arith, trips accept p made),
            )
        | inr (_, w) ↦ absurd (ground (arith, made, w, good))
      ]
    ]

-- When the greeting of a peer of a consistent manager succeeds, over a codec that decodes what it
-- encoded, the client that asked reads the accept. It has the peer's identifier and hardware
-- address, an MTU that is not 0, and lists the peers of the room, each once.
pub join_accepted :
    {D : Type 0} ⦃t : Writer D⦄ (v : Services) (mtu : ℤ) (room : Bytes) (p : Peer) (base : ℕ)
    (w : World) (r : Room) (opened : Option D) (g : Greeted Bytes D) (json_text rest : Bytes)
    (ending : Error)
    → RoundTrips v.accepts
    → WorldFits base w
    → IsTidy w
    → w.room_at p.room ≡ some r
    → greet v mtu room p [] opened w ≡ some g
    → g.failed ≡ false
    → (accept : JoinAccept) × (payload : Bytes) × (read_message
          (record { pending = g.control ++ rest; ending = ending })
          max_control_size
        ≡ ok (type_join_accept, payload, record { pending = rest; ending = ending }))
      × (check_response v.rejects v.accepts json_text type_join_accept payload ≡ ok accept)
      × (accept.peer_id ≡ p.id)
      × (accept.mac ≡ mac_string p.mac)
      × (accept.mtu ≢ pos 0)
      × Perm (map (λ i. i.id) accept.peers) (map (λ q. q.id) (values r.peers))
join_accepted {D} v mtu room p base w r opened g json_text rest ending trips f tidy at e succeeded =
    let (h, snap, done, _, _, shows, listed, control, ends) =
      greet_total {W = Bytes} v mtu room p [] base w r opened f tidy at in
    let same : h ≡ g = ground (arith, done, e) in
    let accept = accept_of v mtu room p r snap in
    let good : (write_json v.accepts {W = Bytes} [] type_join_accept accept).1 ≡ none = elim ends [
      | inl (failed, _, _) ↦ absurd (cc (same, failed, succeeded))
      | inr (_, ok_accept, _, _) ↦ ok_accept
    ] in
    let (payload, read, checked) =
      accept_read v.accepts v.rejects json_text rest ending accept trips good in
    let out : (write_json v.accepts {W = Bytes} [] type_join_accept accept).0 ≡ g.control =
      sym control ∙ ap (λ (x : Greeted Bytes D). x.control) same in
    (
      accept,
      payload,
      subst
          (λ (x : Bytes).
            read_message (record { pending = x ++ rest; ending = ending }) max_control_size
            ≡ ok (type_join_accept, payload, record { pending = rest; ending = ending }))
          out read,
      checked,
      refl,
      refl,
      ground (arith, int_eq_iff mtu (pos 0)),
      listed,
    )
