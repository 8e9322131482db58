-- ===== src/Relay/Manager/Joining.antt =====
-- AddPeer on a room of the manager, and Join.
use anylan.Base.{
  ℕ, ◌+◌, ◌*◌, ◌<◌, ◌≡◌, ◌∙◌, ap, sym, refl, inl, inr, Option, some, arith, ◌==◌, Bool-cases,
  Result, ok, err,
}
use mathlib.Core.Path.{subst}
use anylan.Base.Dictionary.{lookup, insert}
use anylan.Relay.Error.{Error}
use anylan.Relay.Mac.{Entropy}
use anylan.Relay.Peer.{Peer, new_state}
use anylan.Relay.Room.{Room, JoinOptions, add_peer, register}
use anylan.Relay.Room.Members.{IsConsistent, insert_cases}
use anylan.Relay.Room.Joining.{Joined, add_peer_cases, add_peer-IsConsistent}
use anylan.Relay.Manager.{World, Cell, update, set_room, room_add_peer}
use anylan.Relay.Manager.Invariant.{WorldFits, IsLive, IsLive-same}
use anylan.Relay.Manager.Replacing.{SameRoom, replaced, replaced-WorldFits, replaced-RoomFits}

SameRoom-refl : (r : Room) → SameRoom r r
SameRoom-refl r = record {
  address = refl;
  managed = refl;
  index = refl;
  name = refl;
  closed = refl;
}

-- A room put back as it was.
pub set_room-WorldFits :
    (base : ℕ) (w : World) (a : ℕ) (r : Room)
    → WorldFits base w
    → w.room_at a ≡ some r
    → WorldFits base (set_room w a r)
set_room-WorldFits base w a r f here =
    let g = f.room a r here in
    let w' = replaced base w a r r w.peer_at w.next_address in
    let live = λ (p : Peer) (l : IsLive w p). IsLive-same w w' p refl l in
    replaced-WorldFits base w a r r w.peer_at w.next_address f here (SameRoom-refl r)
      (record {
        address_grows = omega arith;
        room_grows = omega arith;
        cells = λ b c e. (c, e, refl);
      })
      (λ b s id p _ _ l. live p l) f.cell
      (replaced-RoomFits base w a r r w.peer_at w.next_address g (SameRoom-refl r) (omega arith)
        g.consistent g.closed_empty (λ id p e. live p (g.live id p e)) g.known)

module _ (base : ℕ) (w : World) (a : ℕ) (r r' : Room) (opt : JoinOptions) (rand : Entropy) (now : ℕ)
    (p : Peer) where
  -- The heap after a peer joined.
  abbrev grown : ℕ → Option Cell
  grown = update w.peer_at w.next_address (record { info = p; state = new_state })

  abbrev joined : World
  joined = replaced base w a r r' grown (w.next_address + 1)

  module _ (f : WorldFits base w) (here : w.room_at a ≡ some r)
      (j : Joined (base + r.index * 256) r r' w.next_address opt rand now p)
      (c : IsConsistent (base + r.index * 256) r') where
    -- The call changed the room's allocator and its two maps.
    whole :
        r' ≡ register (record r { next_host = j.mid.next_host; free_hosts = j.mid.free_hosts }) p
    whole = j.registered ∙ ap (λ m. register m p) j.allocated.rest

    joined_same : SameRoom r r'
    joined_same = record {
      address = ap (λ (x : Room). x.address) whole;
      managed = ap (λ (x : Room). x.managed) whole;
      index = ap (λ (x : Room). x.index) whole;
      name = ap (λ (x : Room). x.name) whole;
      closed = ap (λ (x : Room). x.closed) whole;
    }

    own_address : p.address ≡ w.next_address
    own_address = ap (λ (x : Peer). x.address) j.built

    kept : (b : ℕ) (x : Cell) → w.peer_at b ≡ some x → grown b ≡ some x
    kept b x e = let (_, old) = f.cell b x e in ground arith

    IsLive-kept : (q : Peer) → IsLive w q → IsLive joined q
    IsLive-kept q l = record {
      cell = l.cell;
      found = kept q.address l.cell l.found;
      same = l.same;
      is_open = l.is_open;
    }

    new-IsLive : IsLive joined p
    unfolding new_state
    new-IsLive = record {
      cell = record { info = p; state = new_state };
      found = ground (arith, own_address);
      same = refl;
      is_open = refl;
    }

    new_cell :
        (b : ℕ) (x : Cell) → grown b ≡ some x → (x.info.address ≡ b) × (b < w.next_address + 1)
    new_cell b x e = elim (Bool-cases (w.next_address == b)) [
      | inl hit ↦ ground (arith, own_address)
      | inr miss ↦ let (own, old) = f.cell b x (ground arith) in (own, omega arith)
    ]

    joined-WorldFits : WorldFits base joined
    joined-WorldFits =
        let g = f.room a r here in
        let peers : r'.peers ≡ insert p.id p r.peers = ap (λ (x : Room). x.peers) whole in
        let macs : r'.mac_to_peer ≡ insert p.mac p r.mac_to_peer =
          ap (λ (x : Room). x.mac_to_peer) whole in
        replaced-WorldFits base w a r r' grown (w.next_address + 1) f here joined_same
          (record {
            address_grows = omega arith;
            room_grows = omega arith;
            cells = λ b x e. (x, kept b x e, refl);
          })
          (λ b s id q _ _ l. IsLive-kept q l) (λ b x e. new_cell b x e)
          (replaced-RoomFits base w a r r' grown (w.next_address + 1) g joined_same (omega arith) c
            (λ e. cc (e, j.was_open))
            (λ id q e.
              elim (insert_cases p.id id p q r.peers r.peers refl
                (ap (lookup id) (sym peers) ∙ e)) [
                  | inl (k, v) ↦ subst (IsLive joined) v new-IsLive
                  | inr old ↦ IsLive-kept q (g.live id q old)
                ])
            (λ mac q e.
              elim (insert_cases p.mac mac p q r.mac_to_peer r.mac_to_peer refl
                (ap (lookup mac) (sym macs) ∙ e)) [
                  | inl (k, v) ↦
                      (record { info = p; state = new_state }, ground (arith, own_address), v)
                  | inr old ↦
                      let (x, found, same) = g.known mac q old in (x, kept q.address x found, same)
                ]))

-- `AddPeer` on a room of the heap keeps the invariant, on every branch.
pub room_add_peer-WorldFits :
    (base : ℕ) (w : World) (a : ℕ) (r : Room) (opt : JoinOptions) (rand : Entropy) (now : ℕ)
    → WorldFits base w
    → w.room_at a ≡ some r
    → (res : Result Error Peer) × (w' : World) × (room_add_peer a opt rand now w ≡ some (res, w'))
      × (res ≡ (add_peer r w.next_address opt rand now).0)
      × WorldFits base w'
      × (w'.rooms ≡ w.rooms)
unfolding room_add_peer
room_add_peer-WorldFits base w a r opt rand now f here =
    let g = f.room a r here in
    let start = base + r.index * 256 in
    elim (add_peer_cases start r w.next_address opt rand now g.consistent) [
      | inl (p, r', e, j) ↦
          let c =
            subst (λ (x : Result Error Peer × Room). IsConsistent start x.1) e
              (add_peer-IsConsistent start r w.next_address opt rand now g.consistent) in
          (
            ok p,
            joined base w a r r' opt rand now p,
            ground arith,
            ground arith,
            joined-WorldFits base w a r r' opt rand now p f here j c,
            refl,
          )
      | inr (x, e) ↦ (
        err x,
        set_room w a r,
        ground arith,
        ground arith,
        set_room-WorldFits base w a r f here,
        refl,
      )
    ]
