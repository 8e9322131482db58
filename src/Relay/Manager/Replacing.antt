-- ===== src/Relay/Manager/Replacing.antt =====
-- A step that changes one room, and perhaps peers on the heap, keeps the invariant.
use anylan.Base.{
  ℕ, ◌+◌, ◌*◌, ◌≤◌, ◌<◌, ◌≡◌, ◌∙◌, ap, sym, true, ◌⊎◌, inl, inr, Option, some, arith, ◌==◌,
  Bool-cases,
}
use mathlib.Core.Path.{subst, subst₂}
use anylan.Base.Bytes.{Bytes}
use anylan.Base.Dictionary.{lookup}
use anylan.Relay.Peer.{Peer}
use anylan.Relay.Room.{Room}
use anylan.Relay.Room.Members.{IsConsistent}
use mathlib.Core.List.{[]}
use anylan.Relay.Manager.{World, Cell, update}
use anylan.Relay.Manager.Invariant.{RoomFits, WorldFits, IsLive, Keeps, RoomFits-Keeps}

-- The fields of a room that no method but `deleteEmptyRoom` assigns.
pub record SameRoom (r r' : Room) : Type 0 where
  pub address : r'.address ≡ r.address
  pub managed : r'.managed ≡ r.managed
  pub index : r'.index ≡ r.index
  pub name : r'.name ≡ r.name
  pub closed : r'.closed ≡ r.closed

module _ (base : ℕ) (w : World) (a : ℕ) (r r' : Room) (peer_at : ℕ → Option Cell) (next : ℕ) where
  abbrev pub replaced : World
  replaced = record w { room_at = update w.room_at a r'; peer_at = peer_at; next_address = next }

  replaced_cases :
      (b : ℕ) (s : Room)
      → replaced.room_at b ≡ some s
      → ((a ≡ b) × (r' ≡ s)) ⊎ (w.room_at b ≡ some s)
  replaced_cases b s e = ground arith

  pub replaced-WorldFits :
      WorldFits base w
      → w.room_at a ≡ some r
      → SameRoom r r'
      → Keeps w replaced
      → ((b : ℕ) (s : Room) (id : Bytes) (p : Peer)
          → w.room_at b ≡ some s
          → lookup id s.peers ≡ some p
          → IsLive w p
          → IsLive replaced p)
      → ((b : ℕ) (c : Cell) → peer_at b ≡ some c → (c.info.address ≡ b) × (b < next))
      → RoomFits base replaced a r'
      → WorldFits base replaced
  replaced-WorldFits f here same k live cells new = record {
    pool = f.pool;
    indices = f.indices;
    room = λ b s e. elim (replaced_cases b s e) [
      | inl (p, q) ↦ subst₂ (λ x y. RoomFits base replaced x y) p q new
      | inr old ↦
          RoomFits-Keeps base w replaced b s k (λ id p h l. live b s id p old h l) (λ o l. l)
            (λ o l. l) (f.room b s old)
    ];
    registry = λ name b e.
        let o = f.registry name b e in
        elim (Bool-cases (a == b)) [
          | inl hit ↦
              let one : r ≡ o.room = ground (arith, here, o.found) in
              record {
                room = r';
                found = ground arith;
                named = same.name ∙ ap (λ (x : Room). x.name) one ∙ o.named;
                is_open = same.closed ∙ ap (λ (x : Room). x.closed) one ∙ o.is_open;
              }
          | inr miss ↦ record {
            room = o.room;
            found = ground (arith, o.found);
            named = o.named;
            is_open = o.is_open;
          }
        ];
    differ = λ b d s t eb ed ob od i. elim (replaced_cases b s eb) [
      | inl (p, q) ↦ elim (replaced_cases d t ed) [
        | inl (p', q') ↦ sym p ∙ p'
        | inr old' ↦
            sym p
            ∙ f.differ a d r t here old' (sym same.closed ∙ ap (λ (x : Room). x.closed) q ∙ ob) od
                (sym same.index ∙ ap (λ (x : Room). x.index) q ∙ i)
      ]
      | inr old ↦ elim (replaced_cases d t ed) [
        | inl (p', q') ↦
            f.differ b a s r old here ob (sym same.closed ∙ ap (λ (x : Room). x.closed) q' ∙ od)
              (i ∙ ap (λ (x : Room). x.index) (sym q') ∙ same.index)
            ∙ p'
        | inr old' ↦ f.differ b d s t old old' ob od i
      ]
    ];
    cell = cells;
  }

  -- The room itself fits again if its own part of the invariant does.
  pub replaced-RoomFits :
      RoomFits base w a r
      → SameRoom r r'
      → w.next_address ≤ next
      → IsConsistent (base + r.index * 256) r'
      → (r.closed ≡ true → r'.peers ≡ [])
      → ((id : Bytes) (p : Peer) → lookup id r'.peers ≡ some p → IsLive replaced p)
      → ((mac : Bytes) (p : Peer)
          → lookup mac r'.mac_to_peer ≡ some p
          → (c : Cell) × (peer_at p.address ≡ some c) × (c.info ≡ p))
      → RoomFits base replaced a r'
  replaced-RoomFits f same grows c shut live known = record {
    own_address = same.address ∙ f.own_address;
    old = omega (arith, f.old);
    managed = same.managed ∙ f.managed;
    numbered = omega (arith, same.index, f.numbered);
    consistent = subst (λ i. IsConsistent (base + i * 256) r') (sym same.index) c;
    listed = λ e. rw same.name (f.listed (sym same.closed ∙ e));
    in_use = λ e. rw same.index (f.in_use (sym same.closed ∙ e));
    closed_empty = λ e. shut (sym same.closed ∙ e);
    live = live;
    known = known;
  }
