-- ===== src/Control/Handler/Leaving.antt =====
-- The clean-up after a session: the room without the peer, and the news to those that are left.
use anylan.Base.{
  ℕ, ◌+◌, ◌*◌, ◌≡◌, ◌∙◌, sym, ap, refl, true, false, inl, inr, Option, none, some, arith, length,
  ltb, ◌==◌, Bool-cases,
}
use anylan.Base.Bytes.{Bytes}
use anylan.Base.Dictionary.{lookup}
use anylan.Relay.Peer.{Peer}
use anylan.Relay.Room.{Room, is_current, peer_count}
use anylan.Relay.Room.Forwarding.{lookup-length}
use anylan.Relay.Room.Leaving.{detach_old}
use anylan.Relay.Manager.{World, Cell}
use anylan.Relay.Manager.Invariant.{WorldFits}
use anylan.Relay.Manager.Leaving.{IsHandle, handle-IsGenuine}
use anylan.Relay.Manager.Removing.{Removed, remove_peer-Removed}
use anylan.Relay.Manager.Steps.{Reach, here, Reach-WorldFits}
use anylan.Relay.Manager.Tidy.{IsTidy, Reach-IsTidy}
use anylan.Relay.Snapshots.{RoomSnapshot}
use anylan.Relay.Snapshots.Listing.{Shows, room_snapshot_total}
use anylan.Relay.Notifications.Broadcast.{broadcast_notify_total, informed, Told}
use anylan.Control.{build_peer_list_msg}
use mathlib.Core.Path.{subst}
use anylan.Control.Handler.Listed.{on_wire, list_of, build_peer_list_msg-on_wire}
use anylan.Control.Handler.{Services, clean_up, announce_left}

-- Everybody that is left in the room `r` got the message with the peers that are left, in addition
-- to what the channel held, unless the channel was full.
abbrev pub Informed : Services → World → Room → World → Type 0
Informed v w r w' =
    (snap : RoomSnapshot) × Shows v.addr_string v.prefix_string r snap
    × ((id : Bytes) (q : Peer) (c : Cell)
        → lookup id r.peers ≡ some q
        → w.peer_at q.address ≡ some c
        → w'.peer_at q.address ≡ some (informed c (on_wire (v.peer_lists.marshal (list_of snap)))))

module _ (v : Services) (base : ℕ) where
  announce_left_total :
      (w : World) (a : ℕ) (r : Room)
      → WorldFits base w
      → IsTidy w
      → w.room_at a ≡ some r
      → (w' : World) × (announce_left v r w ≡ some w')
        × Reach w w'
        × (w'.room_at ≡ w.room_at)
        × Informed v w r w'
  unfolding peer_count
  announce_left_total w a r f t at =
      let (snap, e, shows) = room_snapshot_total v.addr_string v.prefix_string base w a r f at in
      let msg = build_peer_list_msg v.peer_lists snap in
      elim (Bool-cases (ltb 0 (length r.peers))) [
        | inl left ↦
            let (w', sent, run, same, told) = broadcast_notify_total base w a r msg none f t at in
            let heard =
              subst (λ m. Told w r m none w') (build_peer_list_msg-on_wire v.peer_lists snap)
                told in
            (w', ground (arith, left, e, sent), run, same, (snap, shows, heard))
        | inr empty ↦ (
          w,
          ground (arith, empty),
          here,
          refl,
          (
            snap,
            shows,
            λ id q c reg _. absurd (lookup-length id q r.peers reg (ground (arith, empty))),
          ),
        )
      ]

  -- Somebody who is left is another peer than the one that went.
  left_apart :
      (w w' : World) (r r' : Room) (p : Peer) (id : Bytes) (q : Peer)
      → WorldFits base w
      → IsHandle w p
      → w.room_at p.room ≡ some r
      → Removed base w r p w' r'
      → lookup id r'.peers ≡ some q
      → p.address == q.address ≡ false
  left_apart w w' r r' p id q f h at d reg = elim (Bool-cases (p.address == q.address)) [
    | inr other ↦ other
    | inl one ↦
        let g = f.room p.room r at in
        let old =
          (detach_old (base + r.index * 256) r p q id id g.consistent
              (handle-IsGenuine base w p.room r p g h)).0
            (sym (ap (λ m. lookup id m) d.peers) ∙ reg) in
        let l = g.live id q old in
        let same_address : p.address ≡ q.address = ground (arith, one) in
        let same : q ≡ p = cc (l.found, l.same, h.found, h.same, same_address) in
        let own = (g.consistent.member id q old).own_id in
        let back : is_current r' q ≡ true = unfold is_current in ground (arith, reg, own) in
        absurd (cc (back, same, d.away))
  ]

  -- The clean-up for a peer that is in its room, on a consistent manager, does not panic, and
  -- leaves the manager consistent. The peer is not in the room afterwards, the room is closed
  -- exactly when it is empty, and everybody who is left, but those whose channel is full, gets the
  -- list of those who are left as one message: its type, its size and its text. That message is
  -- empty where the list has no text or one of more than 64 KiB.
  pub clean_up_total :
      (w : World) (r : Room) (p : Peer)
      → WorldFits base w
      → IsTidy w
      → IsHandle w p
      → w.room_at p.room ≡ some r
      → is_current r p ≡ true
      → (w' : World) × (r' : Room) × (clean_up v p w ≡ some w')
        × WorldFits base w'
        × IsTidy w'
        × (w'.room_at p.room ≡ some r')
        × (is_current r' p ≡ false)
        × (r'.closed ≡ (length r'.peers == 0))
        × Informed v w r' w'
  unfolding clean_up
  clean_up_total w r p f t h at present =
      let (w1, r1, d) = remove_peer-Removed base w r p f h at present in
      let t1 = Reach-IsTidy t d.steps in
      let (w', e, run, same, told) = announce_left_total w1 p.room r1 d.fits t1 d.at_room in
      (
        w',
        r1,
        ground (arith, d.runs, d.at_room, e),
        Reach-WorldFits base d.fits run,
        Reach-IsTidy t1 run,
        ap (λ (x : ℕ → Option Room). x p.room) same ∙ d.at_room,
        d.away,
        d.closed_empty,
        (
          told.0,
          told.1,
          λ id q c reg found.
              told.2 id q c reg
                (d.others q.address (left_apart w w1 r r1 p id q f h at d reg) ∙ found),
        ),
      )
