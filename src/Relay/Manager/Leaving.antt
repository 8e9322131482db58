-- ===== src/Relay/Manager/Leaving.antt =====
-- The sections of RemovePeer, and deleteEmptyRoom, keep the invariant.
use anylan.Base.{ℕ, ◌+◌, ◌*◌, ◌≡◌, refl, Bool, true, inl, inr, [], some, arith, Option-cases}
use mathlib.Core.Path.{subst}
use anylan.Base.Bytes.{Bytes}
use anylan.Base.Dictionary.{lookup}
use anylan.Relay.Peer.{Peer}
use anylan.Relay.Room.{Room, detach}
use anylan.Relay.Room.Members.{IsConsistent}
use anylan.Relay.Room.Leaving.{
  IsGenuine, detach-IsConsistent, detach_old, detach_same, detach_empty,
}
use anylan.Relay.Manager.{World, Cell, set_room, detach_peer}
use anylan.Relay.Manager.Invariant.{RoomFits, WorldFits, IsLive, IsLive-same}
use anylan.Relay.Manager.Replacing.{SameRoom, replaced, replaced-WorldFits, replaced-RoomFits}

-- The value `p` is what its pointer points at.
pub record IsHandle (w : World) (p : Peer) : Type 0 where
  pub cell : Cell
  pub found : w.peer_at p.address ≡ some cell
  pub same : cell.info ≡ p

pub handle-IsGenuine :
    (base : ℕ) (w : World) (a : ℕ) (r : Room) (p : Peer)
    → RoomFits base w a r
    → IsHandle w p
    → IsGenuine r p
handle-IsGenuine base w a r p g h q e same =
    let l = g.live p.id q e in cc (l.found, l.same, h.found, h.same, same)

-- A room of the heap whose peers and addresses are among those that it had.
pub shrunk-WorldFits :
    (base : ℕ) (w : World) (a : ℕ) (r r' : Room)
    → WorldFits base w
    → w.room_at a ≡ some r
    → SameRoom r r'
    → IsConsistent (base + r.index * 256) r'
    → (r.closed ≡ true → r'.peers ≡ [])
    → ((id : Bytes) (q : Peer) → lookup id r'.peers ≡ some q → IsLive w q)
    → ((mac : Bytes) (q : Peer) → lookup mac r'.mac_to_peer ≡ some q → IsHandle w q)
    → WorldFits base (set_room w a r')
shrunk-WorldFits base w a r r' f here same c shut live known =
    let g = f.room a r here in
    let w' = replaced base w a r r' w.peer_at w.next_address in
    let move = λ (p : Peer) (l : IsLive w p). IsLive-same w w' p refl l in
    replaced-WorldFits base w a r r' w.peer_at w.next_address f here same
      (record {
        address_grows = omega arith;
        room_grows = omega arith;
        cells = λ b x e. (x, e, refl);
      })
      (λ b s id p _ _ l. move p l) f.cell
      (replaced-RoomFits base w a r r' w.peer_at w.next_address g same (omega arith) c shut
        (λ id p e. move p (live id p e))
        (λ mac p e. let h = known mac p e in (h.cell, h.found, h.same)))

-- The section of `RemovePeer` that takes the peer out of its room.
pub detach_peer-WorldFits :
    (base : ℕ) (w w' : World) (a : ℕ) (p : Peer) (found : Bool)
    → WorldFits base w
    → IsHandle w p
    → detach_peer a p w ≡ some (found, w')
    → WorldFits base w'
unfolding detach_peer
detach_peer-WorldFits base w w' a p found f h e = elim (Option-cases (w.room_at a)) [
  | inl n ↦ cc (n, e)
  | inr (r, here) ↦
      let g = f.room a r here in
      let genuine = handle-IsGenuine base w a r p g h in
      let start = base + r.index * 256 in
      let (sa, sm, si, sn, sc) = detach_same start r p g.consistent genuine in
      let same : SameRoom r (detach r p).1 = record {
        address = sa;
        managed = sm;
        index = si;
        name = sn;
        closed = sc;
      } in
      let next : set_room w a (detach r p).1 ≡ w' = ground arith in
      subst (WorldFits base) next (
        shrunk-WorldFits base w a r (detach r p).1 f here same
          (detach-IsConsistent start r p g.consistent genuine)
          (λ shut. detach_empty r p (g.closed_empty shut))
          (λ id q l. g.live id q ((detach_old start r p q id id g.consistent genuine).0 l))
          (λ mac q l.
            let (x, at, is) =
              g.known mac q ((detach_old start r p q mac mac g.consistent genuine).1 l) in
            record { cell = x; found = at; same = is }))
]
