-- ===== src/Relay/Manager/Join.antt =====
-- Join: its loop ends in the first round while no other goroutine runs, and a peer that it returns
-- is in the room that the manager lists.
use anylan.Base.{
  ℕ, suc, ◌+◌, ◌*◌, ◌≡◌, ◌∙◌, ap, refl, Bool, true, false, inl, inr, some, arith, if◌then◌else◌,
  Result, ok, err, Result-cases,
}
use anylan.Base.Bytes.{Bytes}
use anylan.Base.Dictionary.{lookup}
use anylan.Relay.Error.{Error}
use anylan.Relay.Mac.{Entropy, random_hex, random_mac}
use anylan.Relay.Peer.{Peer}
use anylan.Relay.Room.{
  Room, JoinOptions, add_peer, draw_identity, choose_mac, allocate_host, host_addr, finish_add,
  register,
}
use anylan.Relay.Room.Joining.{add_peer_address, add_peer-Joined}
use anylan.Relay.Address.{ipv4_to_uint32}
use anylan.Relay.Manager.{
  World, room_add_peer, get_or_create_room, join, Run, returns, is_room_closed, join_again,
}
use anylan.Relay.Manager.Invariant.{WorldFits, IsOpenRoom}
use anylan.Relay.Manager.Creating.{Given, get_or_create_room-Given}
use anylan.Relay.Manager.Joining.{room_add_peer-WorldFits}

-- The errors of an open room are others than `room_closed`.
abbrev pub stays_open : Result Error Peer → Bool
stays_open (ok p) = true
stays_open (err e) = if is_room_closed e then false else true

draw_identity-stays_open :
    (r : Room) (opt : JoinOptions) (rand : Entropy) (e : Error)
    → draw_identity r opt rand ≡ err e
    → is_room_closed e ≡ false
unfolding draw_identity choose_mac random_hex random_mac
draw_identity-stays_open r opt rand e h = ground arith

finish_add-stays_open :
    (address : ℕ) (opt : JoinOptions) (now : ℕ) (id mac : Bytes) (r : Room)
    → stays_open (finish_add address opt now id mac (allocate_host r)).0 ≡ true
unfolding finish_add allocate_host host_addr ipv4_to_uint32
finish_add-stays_open address opt now id mac r = ground arith

add_peer-stays_open :
    (r : Room) (address : ℕ) (opt : JoinOptions) (rand : Entropy) (now : ℕ)
    → r.closed ≡ false
    → stays_open (add_peer r address opt rand now).0 ≡ true
unfolding add_peer
add_peer-stays_open r address opt rand now live = elim (Result-cases (draw_identity r opt rand)) [
  | inl ((id, mac), e) ↦ ground (arith, finish_add-stays_open address opt now id mac r)
  | inr (x, e) ↦ ground (arith, draw_identity-stays_open r opt rand x e)
]

-- A peer in the room that the manager lists under `name`.
pub record IsJoined (w : World) (name : Bytes) (p : Peer) : Type 0 where
  pub address : ℕ
  pub room : Room
  pub listed : lookup name w.rooms ≡ some address
  pub found : w.room_at address ≡ some room
  pub is_open : room.closed ≡ false
  pub registered : lookup p.id room.peers ≡ some p
  pub own_room : p.room ≡ address

-- What a call of `Join` gives.
abbrev pub Answers : World → Bytes → Result Error Peer → Type 0
Answers w name (ok p) = IsJoined w name p
Answers w name (err e) = is_room_closed e ≡ false

room_add_peer-Answers :
    (base : ℕ) (w : World) (name : Bytes) (a : ℕ) (opt : JoinOptions) (rand : Entropy) (now : ℕ)
    → WorldFits base w
    → IsOpenRoom w name a
    → lookup name w.rooms ≡ some a
    → (res : Result Error Peer) × (w' : World) × (room_add_peer a opt rand now w ≡ some (res, w'))
      × WorldFits base w'
      × Answers w' name res
unfolding room_add_peer
room_add_peer-Answers base w name a opt rand now f o listed =
    let (res, w', e, same, fits, rooms) =
      room_add_peer-WorldFits base w a o.room opt rand now f o.found in
    (res, w', e, fits, go res w' e same rooms)
  where
    go :
        (res : Result Error Peer) (w' : World)
        → room_add_peer a opt rand now w ≡ some (res, w')
        → res ≡ (add_peer o.room w.next_address opt rand now).0
        → w'.rooms ≡ w.rooms
        → Answers w' name res
    go (err e) w' call same rooms =
        ground (arith, add_peer-stays_open o.room w.next_address opt rand now o.is_open)
    go (ok p) w' call same rooms =
        let g = f.room a o.room o.found in
        let start = base + o.room.index * 256 in
        let r' = (add_peer o.room w.next_address opt rand now).1 in
        let added : add_peer o.room w.next_address opt rand now ≡ (ok p, r') = ground arith in
        let j = add_peer-Joined start o.room r' w.next_address opt rand now p g.consistent added in
        let whole = j.registered ∙ ap (λ (m : Room). register m p) j.allocated.rest in
        record {
          address = a;
          room = r';
          listed = ap (lookup name) rooms ∙ listed;
          found = ground (arith, o.found);
          is_open = ap (λ (x : Room). x.closed) whole ∙ o.is_open;
          registered =
              (add_peer_address start o.room r' w.next_address opt rand now p g.consistent added).3;
          own_room = ap (λ (x : Peer). x.room) j.built ∙ g.own_address;
        }

last_round :
    (res : Result Error Peer) (name : Bytes) (w : World) (more : Run (Result Error Peer × World))
    → Answers w name res
    → join_again more (some (res, w)) ≡ returns (res, w)
last_round (ok p) name w more h = refl
last_round (err e) name w more h = ground arith

-- `Join` ends in its first round: it returns a peer that is in the open room that the manager lists
-- under the name, or an error, which is never that the room is closed.
pub join_total :
    (base fuel : ℕ) (w : World) (name : Bytes) (opt : JoinOptions) (rand : Entropy) (now : ℕ)
    → WorldFits base w
    → (res : Result Error Peer) × (w' : World) × (join (suc fuel) name opt rand now w
        ≡ returns (res, w'))
      × WorldFits base w'
      × Answers w' name res
unfolding join
join_total base fuel w name opt rand now f =
    go (get_or_create_room name now w) refl (get_or_create_room-Given base w name now f)
  where
    go :
        (g : Result Error ℕ × World)
        → get_or_create_room name now w ≡ g
        → Given base w name g
        → (res : Result Error Peer) × (w' : World) × (join (suc fuel) name opt rand now w
            ≡ returns (res, w'))
          × WorldFits base w'
          × Answers w' name res
    go (err x, s) e (same, full, _, _) = (err x, s, ground arith, rw same f, ground arith)
    go (ok a, s) e (fits, o, listed, _) =
        let (res, w', call, fits', answers) =
          room_add_peer-Answers base s name a opt rand now fits o listed in
        (
          res,
          w',
          ground (arith, e, call, last_round res name w' (join fuel name opt rand now s) answers),
          fits',
          answers,
        )
