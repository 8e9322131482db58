-- ===== src/Control/Handler/Greeting.antt =====
-- What the greeting of a peer writes, and who hears of it.
use anylan.Base.{
  ℕ, ◌≡◌, ◌≢◌, ◌⊎◌, inl, inr, refl, sym, ap, true, false, List, [], ◌∷◌, Option, none, some, map,
  arith, Option-cases, if◌then◌else◌,
}
use mathlib.Core.Path.{subst}
use mathlib.Core.List.{Perm}
use mathlib.Core.List.Perm
use anylan.Base.Bytes.{Bytes, text}
use anylan.Base.Formatting.{mac_string}
use anylan.Base.Int.{ℤ, pos, int_eq}
use anylan.Base.Dictionary.{values}
use anylan.Protocol.{Error, Writer, write_message, type_join_accept, type_ping, default_mtu}
use anylan.Protocol.Json.{write_json}
use anylan.Protocol.Messages.{PeerInfo, JoinAccept}
use anylan.Relay.Peer.{Peer}
use anylan.Relay.Room.{Room}
use anylan.Relay.Manager.{World}
use anylan.Relay.Manager.Invariant.{WorldFits}
use anylan.Relay.Manager.Steps.{Reach-WorldFits}
use anylan.Relay.Manager.Tidy.{IsTidy, Reach-IsTidy}
use anylan.Relay.Snapshots.{RoomSnapshot, PeerSnapshot}
use anylan.Relay.Snapshots.Listing.{Shows, room_snapshot_total, shown_peer_key, peer_key}
use anylan.Relay.Notifications.Broadcast.{broadcast_notify_total, Told}
use anylan.Control.Handler.Listed.{on_wire, list_of, build_peer_list_msg-on_wire}
use anylan.Control.{build_peer_list_msg, to_peer_infos}
use anylan.Control.Handler.{Services, Greeted, join_accept, mtu_or_default, greet, open_data}

-- The peers that the snapshot lists are those of the room.
infos_keys :
    (ss : List PeerSnapshot) (ks : List (ℕ × Bytes))
    → map shown_peer_key ss ≡ ks
    → map (λ (i : PeerInfo). i.id) (to_peer_infos ss) ≡ map (λ k. k.1) ks
unfolding to_peer_infos
infos_keys [] [] e = refl
infos_keys [] (k ∷ ks) e = cc
infos_keys (s ∷ ss) [] e = cc
infos_keys (s ∷ ss) (k ∷ ks) e = ground (arith, e, infos_keys ss ks)

ids_of_keys :
    (ps : List Peer) → map (λ (k : ℕ × Bytes). k.1) (map peer_key ps) ≡ map (λ (p : Peer). p.id) ps
ids_of_keys [] = refl
ids_of_keys (p ∷ ps) = ap (λ (is : List Bytes). p.id ∷ is) (ids_of_keys ps)

pub listed_peers :
    (v : Services) (r : Room) (snap : RoomSnapshot)
    → Shows v.addr_string v.prefix_string r snap
    → Perm
        (map (λ (i : PeerInfo). i.id) (list_of snap).peers)
        (map (λ (p : Peer). p.id) (values r.peers))
unfolding to_peer_infos
listed_peers v r snap shows =
    subst (λ is. Perm is (map (λ (p : Peer). p.id) (values r.peers)))
      (sym (infos_keys snap.peers (map shown_peer_key snap.peers) refl))
      (subst (Perm (map (λ (k : ℕ × Bytes). k.1) (map shown_peer_key snap.peers)))
        (ids_of_keys (values r.peers)) (Perm.map (λ (k : ℕ × Bytes). k.1) shows.all))

-- The accept of the peer `p` in the room `r`, named `room` in the request.
abbrev pub accept_of : Services → ℤ → Bytes → Peer → Room → RoomSnapshot → JoinAccept
accept_of v mtu room p r snap = record {
  version = pos 1;
  room = room;
  peer_id = p.id;
  ipv4 = v.addr_string p.ip;
  cidr = v.prefix_string (record { addr = p.ip; bits = r.prefix.bits });
  mac = mac_string p.mac;
  mtu = if int_eq mtu (pos 0) then pos default_mtu else mtu;
  room_created_at = snap.created_at;
  peers = (list_of snap).peers;
  features = text "peer_latency" ∷ [];
}

module _ {W : Type 0} ⦃s : Writer W⦄ (v : Services) (mtu : ℤ) (room : Bytes) (p : Peer)
    (c : W) where
  abbrev pub accepted : Room → RoomSnapshot → W × Option Error
  accepted r snap = write_json v.accepts c type_join_accept (accept_of v mtu room p r snap)

  module _ {D : Type 0} ⦃t : Writer D⦄ where
    -- How the greeting can end: with an error of a stream, and the manager as it was; or with the
    -- accept and the ping written, and the peer list sent to everybody else in the room.
    abbrev pub Ends : World → Room → RoomSnapshot → Option D → Greeted W D → Type 0
    Ends w r snap opened g =
        ((g.failed ≡ true)
          × (g.world ≡ w)
          × (((accepted r snap).1 ≢ none)
              ⊎ (opened ≡ none)
              ⊎ ((d : D) × (opened ≡ some d) × ((write_message d type_ping []).1 ≢ none))))
        ⊎ ((g.failed ≡ false)
            × ((accepted r snap).1 ≡ none)
            × ((d : D) × (opened ≡ some d)
                × ((write_message d type_ping []).1 ≡ none)
                × (g.data_stream ≡ some (write_message d type_ping []).0))
            × Told w r (on_wire (v.peer_lists.marshal (list_of snap))) (some p) g.world)

    open_data_total :
        (base : ℕ) (w : World) (r : Room) (snap : RoomSnapshot) (opened : Option D)
        → WorldFits base w
        → IsTidy w
        → w.room_at p.room ≡ some r
        → (g : Greeted W D) × (open_data v p r snap opened w (accepted r snap) ≡ some g)
          × WorldFits base g.world
          × IsTidy g.world
          × (g.control ≡ (accepted r snap).0)
          × Ends w r snap opened g
    open_data_total base w r snap opened f tidy at = elim (Option-cases (accepted r snap).1) [
      | inr (x, bad) ↦ (
        record { failed = true; control = (accepted r snap).0; data_stream = none; world = w },
        ground (arith, bad),
        f,
        tidy,
        refl,
        inl (refl, refl, inl (λ n. cc (n, bad))),
      )
      | inl good ↦ elim (Option-cases opened) [
        | inl shut ↦ (
          record { failed = true; control = (accepted r snap).0; data_stream = none; world = w },
          ground (arith, good, shut),
          f,
          tidy,
          refl,
          inl (refl, refl, inr (inl shut)),
        )
        | inr (d, is_open) ↦ elim (Option-cases (write_message d type_ping []).1) [
          | inr (x, bad) ↦ (
            record {
              failed = true;
              control = (accepted r snap).0;
              data_stream = some (write_message d type_ping []).0;
              world = w;
            },
            ground (arith, good, is_open, bad),
            f,
            tidy,
            refl,
            inl (refl, refl, inr (inr (d, is_open, λ n. cc (n, bad)))),
          )
          | inl pinged ↦
              let (w', sent, run, _, told) =
                broadcast_notify_total base w p.room r (build_peer_list_msg v.peer_lists snap)
                  (some p) f tidy at in
              (
                record {
                  failed = false;
                  control = (accepted r snap).0;
                  data_stream = some (write_message d type_ping []).0;
                  world = w';
                },
                ground (arith, good, is_open, pinged, sent),
                Reach-WorldFits base f run,
                Reach-IsTidy tidy run,
                refl,
                inr (
                  refl,
                  good,
                  (d, is_open, pinged, refl),
                  subst (λ m. Told w r m (some p) w')
                      (build_peer_list_msg-on_wire v.peer_lists snap) told,
                ),
              )
        ]
      ]
    ]

    -- The greeting of a peer whose room is on the heap of a consistent manager does not panic and
    -- leaves the manager consistent. It writes the accept, with the peer's identifier and addresses
    -- and with the peers that are in the room. If that, opening the data stream and the ping on it
    -- succeed, everybody in the room but the peer, and but those whose channel is full, gets the
    -- list of those who are in the room as one message: its type, its size and its text. That
    -- message is empty where the list has no text or one of more than 64 KiB. If one fails, the
    -- manager is as it was.
    pub greet_total :
        (base : ℕ) (w : World) (r : Room) (opened : Option D)
        → WorldFits base w
        → IsTidy w
        → w.room_at p.room ≡ some r
        → (g : Greeted W D) × (snap : RoomSnapshot) × (greet v mtu room p c opened w ≡ some g)
          × WorldFits base g.world
          × IsTidy g.world
          × Shows v.addr_string v.prefix_string r snap
          × Perm
              (map (λ (i : PeerInfo). i.id) (list_of snap).peers)
              (map (λ (q : Peer). q.id) (values r.peers))
          × (g.control ≡ (accepted r snap).0)
          × Ends w r snap opened g
    unfolding greet join_accept mtu_or_default to_peer_infos
    greet_total base w r opened f tidy at =
        let (snap, e, shows) =
          room_snapshot_total v.addr_string v.prefix_string base w p.room r f at in
        let (g, done, fits, kept, control, ends) = open_data_total base w r snap opened f tidy at in
        (
          g,
          snap,
          ground (arith, at, e, done),
          fits,
          kept,
          shows,
          listed_peers v r snap shows,
          control,
          ends,
        )
