-- ===== src/Client/Session/Tracked.antt =====
-- Through all that happens to a client, the latency map has entries for listed peers only.
use anylan.Base.{
  ℕ, ◌≡◌, refl, sym, Bool, true, false, not, ◌&&◌, List, [], ◌∷◌, Option, none, some, arith,
  if◌then◌else◌, Bool-cases, Option-cases, inl, inr, ◌⊎◌, Any,
}
use mathlib.Core.Path.{subst}
use anylan.Base.Bytes.{Bytes, text, bytes_eq_iff}
use anylan.Base.Dictionary.{Dictionary, lookup, insert, lookup-insert}
use anylan.Base.Int.{ℤ, pos}
use anylan.Protocol.Messages.{JoinAccept, PeerInfo, PeerList, PeerPong}
use anylan.Relay.Mac.{Entropy, hex}
use anylan.Client.Status.{
  Status, PeerLatency, entries, entry, is_empty, has_peer, keep_latency_peers, set_state, joined,
  update_peers, end_session, record_rx, record_tx,
}
use anylan.Client.Status.Probing.{is_some, keep_latency_peers_lem}
use anylan.Client.Status.Answers.{
  record_latency_pong, expire_latency_probes, expire_all, answered_entry,
}
use anylan.Client.Status.Next.{
  next_latency_probe, start_probe, primed, best_of, is_due, order_in, probed,
}
use anylan.Client.Status.Next.Choice.{pick-IsPicked, IsPicked}
use anylan.Client.Session.{
  Event, accepted, listed, ticked, answered, received, sent, apply, apply_all, Round, LoopEnd,
  going, cancelled, stopped, RoundEnd, returns, goes_on, SessionError, fatal_error, other_error,
  run_round, finish_round, after_session, run_loop, loop_from, second, next_backoff, retried,
}

-- Every entry is that of a peer that is listed.
abbrev pub IsTracked : Status → Type 0
IsTracked s =
    (id : Bytes)
    → (is_some (lookup id (entries s.peer_latency)) && not (has_peer id s.peers)) ≡ false

keep_latency_peers-IsTracked : (s : Status) → IsTracked (keep_latency_peers s)
unfolding keep_latency_peers
keep_latency_peers-IsTracked s id = ground (arith, keep_latency_peers_lem s id)

joined-IsTracked : (accept : JoinAccept) (now : ℕ) (s : Status) → IsTracked (joined accept now s)
unfolding joined
joined-IsTracked accept now s = keep_latency_peers-IsTracked (record s {
  state = text "connected";
  last_error = [];
  peer_id = accept.peer_id;
  ipv4 = accept.ipv4;
  cidr = accept.cidr;
  mac = accept.mac;
  mtu = accept.mtu;
  room_created_at = accept.room_created_at;
  peers = accept.peers;
})

update_peers-IsTracked : (pl : PeerList) (now : ℕ) (s : Status) → IsTracked (update_peers pl now s)
unfolding update_peers
update_peers-IsTracked pl now s =
    keep_latency_peers-IsTracked
      (record s { room_created_at = pl.room_created_at; peers = pl.peers })

-- A write to an entry of a listed peer.
insert-IsTracked :
    (k : Bytes) (l : PeerLatency) (s : Status) (id : Bytes)
    → IsTracked s
    → has_peer k s.peers ≡ true
    → (is_some (lookup id (insert k l (entries s.peer_latency))) && not (has_peer id s.peers))
      ≡ false
insert-IsTracked k l s id h there =
    ground (arith, h id, there, lookup-insert k id l (entries s.peer_latency), bytes_eq_iff k id)

record_latency_pong-IsTracked :
    (pong : PeerPong) (now : ℕ) (s : Status)
    → IsTracked s
    → IsTracked (record_latency_pong pong now s)
unfolding record_latency_pong
record_latency_pong-IsTracked pong now s h id =
    elim (Option-cases (lookup pong.from_peer_id (entries s.peer_latency))) [
      | inl n ↦ ground (arith, n, h id)
      | inr (l, e) ↦ ground (
        arith,
        e,
        h id,
        insert-IsTracked pong.from_peer_id (answered_entry now l) s id h
            (ground (arith, e, h pong.from_peer_id)),
      )
    ]

is_some-expire_all :
    (now : ℕ) (id : Bytes) (m : Dictionary PeerLatency)
    → is_some (lookup id (expire_all now m).0) ≡ is_some (lookup id m)
unfolding lookup expire_all
is_some-expire_all now id [] = refl
is_some-expire_all now id ((j, l) ∷ m) = ground (arith, is_some-expire_all now id m)

expire_latency_probes-IsTracked :
    (now : ℕ) (s : Status) → IsTracked s → IsTracked (expire_latency_probes now s)
unfolding expire_latency_probes
expire_latency_probes-IsTracked now s h id =
    ground (arith, h id, is_some-expire_all now id (entries s.peer_latency))

primed-IsTracked : (s : Status) → IsTracked s → IsTracked (primed s)
unfolding primed
primed-IsTracked s h id = ground (arith, h id, keep_latency_peers-IsTracked s id)

picked_listed :
    (due : PeerInfo → Bool) (order : PeerInfo → ℤ) (r : Bytes × ℤ) (ps : List PeerInfo)
    → Any (IsPicked due order r) ps
    → has_peer r.0 ps ≡ true
unfolding has_peer
picked_listed due order r [] h = elim h [ ]
picked_listed due order r (p ∷ ps) (inl (d, e, o)) = ground (arith, e, bytes_eq_iff p.id r.0)
picked_listed due order r (p ∷ ps) (inr h) = ground (arith, picked_listed due order r ps h)

start_probe-IsTracked :
    (rand : Entropy) (now : ℕ) (best : Bytes) (s : Status)
    → IsTracked s
    → (is_empty best ≡ true) ⊎ (has_peer best s.peers ≡ true)
    → IsTracked (start_probe rand now best s).1
unfolding start_probe
start_probe-IsTracked rand now best s h (inl nobody) id = ground (arith, nobody, h id)
start_probe-IsTracked rand now best s h (inr there) id = elim (Option-cases (rand 16)) [
  | inl n ↦ ground (arith, n, h id)
  | inr (buf, e) ↦ ground (
    arith,
    e,
    h id,
    insert-IsTracked best (probed (hex buf) now (entry best (entries s.peer_latency))) s id h there,
  )
]

next_latency_probe-IsTracked :
    (rand : Entropy) (now : ℕ) (s : Status)
    → IsTracked s
    → IsTracked (next_latency_probe rand now s).1
unfolding next_latency_probe
next_latency_probe-IsTracked rand now s h id =
    let p = primed s in
    let m = entries p.peer_latency in
    let best = best_of now p in
    let found : (is_empty best.0 ≡ true) ⊎ (has_peer best.0 p.peers ≡ true) =
      elim (pick-IsPicked (is_due p.peer_id now m) (order_in m) p.peers ([], pos 0)) [
        | inl none_due ↦ inl (ground (arith, none_due))
        | inr one ↦ inr (picked_listed (is_due p.peer_id now m) (order_in m) best p.peers one)
      ] in
    ground (arith, h id, start_probe-IsTracked rand now best.0 p (primed-IsTracked s h) found id)

apply-IsTracked : (e : Event) (s : Status) → IsTracked s → IsTracked (apply e s)
unfolding apply record_rx record_tx
apply-IsTracked (accepted accept now) s h = joined-IsTracked accept now s
apply-IsTracked (listed pl now) s h = update_peers-IsTracked pl now s
apply-IsTracked (ticked rand now) s h =
    next_latency_probe-IsTracked rand now (expire_latency_probes now s)
      (expire_latency_probes-IsTracked now s h)
apply-IsTracked (answered pong now) s h = record_latency_pong-IsTracked pong now s h
apply-IsTracked (received size) s h = h
apply-IsTracked (sent size) s h = h

apply_all-IsTracked : (es : List Event) (s : Status) → IsTracked s → IsTracked (apply_all es s)
unfolding apply_all
apply_all-IsTracked [] s h = h
apply_all-IsTracked (e ∷ es) s h = apply_all-IsTracked es (apply e s) (apply-IsTracked e s h)

after_session-IsTracked : (r : Round) (s : Status) → IsTracked s → IsTracked (after_session r s)
unfolding after_session set_state
after_session-IsTracked r s h =
    apply_all-IsTracked r.events (set_state (text "connecting") r.connecting_at s) h

-- A client that waits or has stopped lists no peers and has no address.
abbrev pub IsAway : Status → Type 0
IsAway s =
    (s.peers ≡ []) × (s.peer_latency ≡ none) × (s.peer_id ≡ []) × (s.ipv4 ≡ []) × (s.mac ≡ [])

abbrev pub EndsTracked : LoopEnd → Type 0
EndsTracked (cancelled s) = IsTracked s
EndsTracked (stopped e s) = IsTracked s × IsAway s × (s.state ≡ text "stopped")
EndsTracked (going s backoff) = IsTracked s

abbrev RoundTracked : RoundEnd → Type 0
RoundTracked (returns e) = EndsTracked e
RoundTracked (goes_on s) = IsTracked s

finish_round-RoundTracked :
    (r : Round) (e : Option SessionError) (s : Status) → RoundTracked (finish_round r e s)
unfolding finish_round retried end_session lookup
finish_round-RoundTracked r (some (fatal_error e)) s =
    ((λ id. refl), (refl, refl, refl, refl, refl), refl)
finish_round-RoundTracked r (some (other_error e)) s = elim (Bool-cases r.cancelled_in_wait) [
  | inl c ↦ rw c (λ id. refl)
  | inr c ↦ rw c (λ id. refl)
]
finish_round-RoundTracked r none s = elim (Bool-cases r.cancelled_in_wait) [
  | inl c ↦ rw c (λ id. refl)
  | inr c ↦ rw c (λ id. refl)
]

run_round-RoundTracked : (r : Round) (s : Status) → IsTracked s → RoundTracked (run_round r s)
unfolding run_round
run_round-RoundTracked r s h = elim (Bool-cases r.cancelled_in_session) [
  | inl c ↦
      subst
        (λ b. RoundTracked (
          if b
          then returns (cancelled (after_session r s))
          else finish_round r r.ended (after_session r s)))
        (sym c) (after_session-IsTracked r s h)
  | inr c ↦
      subst
        (λ b. RoundTracked (
          if b
          then returns (cancelled (after_session r s))
          else finish_round r r.ended (after_session r s)))
        (sym c) (finish_round-RoundTracked r r.ended (after_session r s))
]

RoundEnd-cases :
    (e : RoundEnd) → ((x : LoopEnd) × (e ≡ returns x)) ⊎ ((s : Status) × (e ≡ goes_on s))
RoundEnd-cases (returns x) = inl (x, refl)
RoundEnd-cases (goes_on s) = inr (s, refl)

loop_from-EndsTracked :
    (rounds : List Round) (backoff : ℕ) (s : Status)
    → IsTracked s
    → EndsTracked (loop_from rounds backoff s).1
unfolding loop_from
loop_from-EndsTracked [] backoff s h = h
loop_from-EndsTracked (r ∷ rounds) backoff s h = elim (RoundEnd-cases (run_round r s)) [
  | inl (x, e) ↦ rw (e, loop_from) (subst RoundTracked e (run_round-RoundTracked r s h))
  | inr (t, e) ↦
      rw (e, loop_from)
        (loop_from-EndsTracked rounds (next_backoff backoff) t
          (subst RoundTracked e (run_round-RoundTracked r s h)))
]

-- Whatever sessions a client goes through and however its loop ends, its latency map has entries
-- for listed peers only, if that was so at the start; a client that was stopped by a fatal error
-- lists no peers, and has no address.
pub run_loop-EndsTracked :
    (rounds : List Round) (s : Status) → IsTracked s → EndsTracked (run_loop rounds s).1
unfolding run_loop
run_loop-EndsTracked rounds s h = loop_from-EndsTracked rounds second s h
