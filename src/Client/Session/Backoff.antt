-- ===== src/Client/Session/Backoff.antt =====
-- How long the client waits between two rounds, and what ends its loop.
use anylan.Base.{
  ℕ, zero, suc, ◌+◌, ◌*◌, ◌%◌, ◌^◌, ◌≡◌, refl, Bool, true, false, List, [], ◌∷◌, Option, none, some,
  arith, length, All, ◌∙◌, sym, ap,
}
use mathlib.Core.Path.{subst}
use anylan.Base.Bytes.{Bytes, text}
use anylan.Relay.Peer.{add64}
use anylan.Client.Status.{
  Status, set_state, joined, update_peers, end_session, record_rx, record_tx, keep_latency_peers,
}
use anylan.Client.Status.Answers.{record_latency_pong, expire_latency_probes}
use anylan.Client.Status.Next.{next_latency_probe, start_probe, primed}
use anylan.Client.Session.{
  SessionError, fatal_error, other_error, Event, accepted, listed, ticked, answered, received, sent,
  apply, apply_all, Round, going, second, next_backoff, after_session, retried, finish_round,
  run_round, run_loop, loop_from, waited, goes_on,
}

-- The wait before the n-th retry, counted from 0, in seconds: it doubles up to 16.
abbrev pub delay : ℕ → ℕ
delay zero = 1
delay (suc zero) = 2
delay (suc (suc zero)) = 4
delay (suc (suc (suc zero))) = 8
delay (suc (suc (suc (suc n)))) = 16

next_backoff-delay : (n : ℕ) → next_backoff (delay n * second) ≡ delay (suc n) * second
unfolding next_backoff
next_backoff-delay zero = refl
next_backoff-delay (suc zero) = refl
next_backoff-delay (suc (suc zero)) = refl
next_backoff-delay (suc (suc (suc zero))) = refl
next_backoff-delay (suc (suc (suc (suc n)))) = refl

start_probe_reconnects :
    (rand : ℕ → Option Bytes) (now : ℕ) (best : Bytes) (s : Status)
    → (start_probe rand now best s).1.reconnects ≡ s.reconnects
unfolding start_probe
start_probe_reconnects rand now best s = ground arith

primed_reconnects : (s : Status) → (primed s).reconnects ≡ s.reconnects
unfolding primed keep_latency_peers
primed_reconnects s = ground arith

next_latency_probe_reconnects :
    (rand : ℕ → Option Bytes) (now : ℕ) (s : Status)
    → (next_latency_probe rand now s).1.reconnects ≡ s.reconnects
unfolding next_latency_probe
next_latency_probe_reconnects rand now s = grind (arith, start_probe_reconnects, primed_reconnects)

expire_latency_probes_reconnects :
    (now : ℕ) (s : Status) → (expire_latency_probes now s).reconnects ≡ s.reconnects
unfolding expire_latency_probes
expire_latency_probes_reconnects now s = ground arith

apply_reconnects : (e : Event) (s : Status) → (apply e s).reconnects ≡ s.reconnects
unfolding apply joined update_peers keep_latency_peers record_latency_pong record_rx record_tx
apply_reconnects (accepted accept now) s = refl
apply_reconnects (listed pl now) s = refl
apply_reconnects (ticked rand now) s =
    next_latency_probe_reconnects rand now (expire_latency_probes now s)
    ∙ expire_latency_probes_reconnects now s
apply_reconnects (answered pong now) s = ground arith
apply_reconnects (received size) s = refl
apply_reconnects (sent size) s = refl

apply_all_reconnects : (es : List Event) (s : Status) → (apply_all es s).reconnects ≡ s.reconnects
unfolding apply_all
apply_all_reconnects [] s = refl
apply_all_reconnects (e ∷ es) s = apply_all_reconnects es (apply e s) ∙ apply_reconnects e s

abbrev is_retried : Option SessionError → Bool
is_retried none = true
is_retried (some (fatal_error e)) = false
is_retried (some (other_error e)) = true

-- The session ended with no error or one that is not fatal, and nothing was cancelled.
abbrev pub Retries : Round → Type 0
Retries r =
    (r.cancelled_in_session ≡ false) × (r.cancelled_in_wait ≡ false) × (is_retried r.ended ≡ true)

finish_round-Retries :
    (r : Round) (e : Option SessionError) (s : Status)
    → r.cancelled_in_wait ≡ false
    → is_retried e ≡ true
    → (t : Status) × (finish_round r e s ≡ goes_on t)
      × (t.reconnects ≡ add64 s.reconnects 1)
      × (t.state ≡ text "reconnecting")
unfolding finish_round retried end_session
finish_round-Retries r none s w k = (retried r none s, ground (arith, w), refl, refl)
finish_round-Retries r (some (fatal_error e)) s w k = absurd (cc k)
finish_round-Retries r (some (other_error e)) s w k =
    (retried r (some e) s, ground (arith, w), refl, refl)

after_session_reconnects : (r : Round) (s : Status) → (after_session r s).reconnects ≡ s.reconnects
unfolding after_session set_state
after_session_reconnects r s =
    apply_all_reconnects r.events (set_state (text "connecting") r.connecting_at s)

run_round-Retries :
    (r : Round) (s : Status)
    → Retries r
    → (t : Status) × (run_round r s ≡ goes_on t) × (t.reconnects ≡ add64 s.reconnects 1)
unfolding run_round
run_round-Retries r s (a, b, c) =
    let (t, e, n, _) = finish_round-Retries r r.ended (after_session r s) b c in
    (t, ground (arith, a, e), omega (arith, n, after_session_reconnects r s))

-- The waits from the n-th on.
abbrev pub waits : ℕ → ℕ → List ℕ
waits n zero = []
waits n (suc k) = delay n * second ∷ waits (suc n) k

loop_from-Retries :
    (rounds : List Round) (n : ℕ) (s : Status)
    → All Retries rounds
    → (t : Status) × (loop_from rounds (delay n * second) s
        ≡ (waits n (length rounds), going t (delay (n + length rounds) * second)))
      × (t.reconnects % 2 ^ 64 ≡ (s.reconnects + length rounds) % 2 ^ 64)
unfolding loop_from
loop_from-Retries [] n s h = (
  s,
  subst (λ k. loop_from [] (delay n * second) s ≡ ([], going s (delay k * second)))
      (let e : n ≡ n + 0 = omega arith in e) refl,
  omega arith,
)
loop_from-Retries (r ∷ rounds) n s h =
    let (t, goes, counted) = run_round-Retries r s h.0 in
    let (u, ends, more) = loop_from-Retries rounds (suc n) t h.1 in
    let sum : suc n + length rounds ≡ n + suc (length rounds) = omega arith in
    let later =
      subst
        (λ k.
          loop_from rounds (delay (suc n) * second) t
          ≡ (waits (suc n) (length rounds), going u (delay k * second)))
        sum ends in
    let same =
      subst
        (λ b.
          loop_from rounds b t
          ≡ (waits (suc n) (length rounds), going u (delay (n + suc (length rounds)) * second)))
        (sym (next_backoff-delay n)) later in
    (u, rw (goes, loop_from) (ap (waited (delay n * second)) same), omega (arith, counted, more))

-- While the sessions end with errors that are not fatal, and nobody cancels, the loop goes on. It
-- counts its reconnections, modulo 2 ^ 64, one for each round, and waits before each of them: 1, 2,
-- 4 and 8 seconds at first, and then 16 for ever.
pub run_loop-Retries :
    (rounds : List Round) (s : Status)
    → All Retries rounds
    → (t : Status) × (run_loop rounds s
        ≡ (waits 0 (length rounds), going t (delay (length rounds) * second)))
      × (t.reconnects % 2 ^ 64 ≡ (s.reconnects + length rounds) % 2 ^ 64)
unfolding run_loop
run_loop-Retries rounds s h =
    let (t, ends, counted) = loop_from-Retries rounds 0 s h in
    let sum : 0 + length rounds ≡ length rounds = omega arith in
    (
      t,
      subst (λ k. loop_from rounds second s ≡ (waits 0 (length rounds), going t (delay k * second)))
          sum ends,
      counted,
    )
