-- ===== src/Logmem/History.antt =====
-- The log in memory as a window on all that was ever logged.
use anylan.Base.{
  ℕ, zero, suc, ◌+◌, ◌-◌, ◌^◌, ◌≤◌, ◌<◌, ◌≡◌, refl, sym, ◌∙◌, List, [], ◌∷◌, ◌++◌, Option, some,
  arith, length, drop, map, length-append, length-drop, Bool-cases, inl, inr, if◌then◌else◌,
}
use mathlib.Core.Path.{subst, ap}
use mathlib.Core.List.{append_assoc, append-nil}
use anylan.Base.Bytes.{Bytes}
use anylan.Base.Int.{ℤ}
use anylan.Base.Slices.{◌>>=◌}
use anylan.Logmem.{
  Entry, Recorder, new, write, add_lines, split_lines, trim_right, is_empty, IsRing, after,
  add-after, after-IsRing, new-IsRing, snapshot, positive_limit,
}

drop-nothing : {A : Type 0} (n : ℕ) → let none_left : List A = [] in drop n none_left ≡ none_left
drop-nothing zero = refl
drop-nothing (suc n) = refl

drop-drop : {A : Type 0} (k j : ℕ) (xs : List A) → drop k (drop j xs) ≡ drop (j + k) xs
drop-drop k zero xs = ap (λ n. drop n xs) (omega arith)
drop-drop k (suc j) [] = drop-nothing k ∙ sym (drop-nothing (suc j + k))
drop-drop k (suc j) (x ∷ xs) =
    let next : suc (j + k) ≡ suc j + k = omega arith in
    drop-drop k j xs ∙ ap (λ n. drop n (x ∷ xs)) next

drop-append_left :
    {A : Type 0} (j : ℕ) (xs ys : List A) → j ≤ length xs → drop j xs ++ ys ≡ drop j (xs ++ ys)
drop-append_left zero xs ys h = refl
drop-append_left (suc j) [] ys h = absurd (omega (arith, h))
drop-append_left (suc j) (x ∷ xs) ys h = drop-append_left j xs ys (omega (arith, h))

map-drop : {A B : Type 0} (f : A → B) (k : ℕ) (xs : List A) → map f (drop k xs) ≡ drop k (map f xs)
map-drop f zero xs = refl
map-drop f (suc k) [] = refl
map-drop f (suc k) (x ∷ xs) = map-drop f k xs

-- What a call of `Write` adds to the log, without the limit: its lines that are not empty once
-- trimmed.
unfoldable pub messages_in : List Bytes → List Bytes
messages_in [] = []
messages_in (line ∷ lines) =
    let rest = messages_in lines in
    if is_empty (trim_right line) then rest else trim_right line ∷ rest

-- The entries of messages that are logged with the numbers after `k`, each at its time of the clock.
unfoldable pub numbered : (ℕ → ℕ) → ℕ → List Bytes → List Entry
numbered clock k [] = []
numbered clock k (m ∷ ms) =
    record { seq = k + 1; time = clock k; message = m } ∷ numbered clock (suc k) ms

length-numbered :
    (clock : ℕ → ℕ) (k : ℕ) (ms : List Bytes) → length (numbered clock k ms) ≡ length ms
unfolding numbered
length-numbered clock k [] = refl
length-numbered clock k (m ∷ ms) = ap suc (length-numbered clock (suc k) ms)

numbered-append_one :
    (clock : ℕ → ℕ) (k : ℕ) (ms : List Bytes) (m : Bytes) (n : ℕ)
    → n ≡ k + length ms
    → numbered clock k (ms ++ m ∷ [])
      ≡ numbered clock k ms ++ record { seq = n + 1; time = clock n; message = m } ∷ []
unfolding numbered
numbered-append_one clock k [] m n e =
    let same : n ≡ k = omega (arith, e) in
    subst
      (λ j. numbered clock k (m ∷ []) ≡ record { seq = j + 1; time = clock j; message = m } ∷ [])
      (sym same) refl
numbered-append_one clock k (x ∷ ms) m n e =
    ap (λ (es : List Entry). record { seq = k + 1; time = clock k; message = x } ∷ es)
      (numbered-append_one clock (suc k) ms m n (omega (arith, e)))

-- The recorder shows the last `limit` messages of a history, numbered by their places in it.
pub record Shows (clock : ℕ → ℕ) (r : Recorder) (history : List Bytes) : Type 0 where
  pub ring : IsRing r
  pub counted_all : r.seq ≡ length history
  pub window : r.entries ≡ drop (length history - r.limit) (numbered clock 0 history)

after-Shows :
    (message : Bytes) (clock : ℕ → ℕ) (r : Recorder) (history : List Bytes)
    → Shows clock r history
    → Shows clock (after message (clock r.seq) r) (history ++ message ∷ [])
after-Shows message clock r history s =
    let entry : Entry = record { seq = r.seq + 1; time = clock r.seq; message = message } in
    let all = numbered clock 0 history in
    let k = suc (length r.entries) - r.limit in
    let j = length history - r.limit in
    let counted = length-numbered clock 0 history in
    let size : length r.entries ≡ length history - j =
      omega (arith, ap length s.window, length-drop j all, counted) in
    let whole = length-append history (message ∷ []) in
    let longer : numbered clock 0 (history ++ message ∷ []) ≡ all ++ entry ∷ [] =
      numbered-append_one clock 0 history message r.seq (omega (arith, s.counted_all)) in
    record {
      ring = after-IsRing message (clock r.seq) r s.ring;
      counted_all = omega (arith, s.counted_all, whole);
      window =
          ap (λ es. drop k (es ++ entry ∷ [])) s.window
          ∙ ap (drop k) (drop-append_left j all (entry ∷ []) (omega (arith, counted)))
          ∙ drop-drop k j (all ++ entry ∷ [])
          ∙ ap (λ n. drop n (all ++ entry ∷ [])) (omega (arith, size, whole, s.ring.positive))
          ∙ ap (drop (length (history ++ message ∷ []) - r.limit)) (sym longer);
    }

-- A run of calls of `Write`, each with its clock.
unfoldable pub write_all : List Bytes → (ℕ → ℕ) → Recorder → Option Recorder
unfolding write
write_all [] clock r = some r
write_all (p ∷ ps) clock r = let rest = write_all ps clock in write p clock r >>= λ (s, n). rest s

-- All that a run logs.
unfoldable pub messages_of : List Bytes → List Bytes
unfolding messages_in
messages_of [] = []
messages_of (p ∷ ps) = messages_in (split_lines p) ++ messages_of ps

add_lines-Shows :
    (lines : List Bytes) (clock : ℕ → ℕ) (r : Recorder) (history : List Bytes)
    → Shows clock r history
    → length history + length (messages_in lines) < 2 ^ 64
    → (s : Recorder) × (add_lines lines clock r ≡ some s)
      × (s.limit ≡ r.limit)
      × Shows clock s (history ++ messages_in lines)
unfolding add_lines messages_in
add_lines-Shows [] clock r history shows h =
    (r, refl, refl, subst (Shows clock r) (sym (append-nil history)) shows)
add_lines-Shows (line ∷ lines) clock r history shows h =
    elim (Bool-cases (is_empty (trim_right line))) [
      | inl blank ↦
          rw (blank) (add_lines-Shows lines clock r history shows (ground (arith, h, blank)))
      | inr full ↦
          let message = trim_right line in
          let longer = length-append history (message ∷ []) in
          let (s, e, l, shows') =
            add_lines-Shows lines clock (after message (clock r.seq) r) (history ++ message ∷ [])
              (after-Shows message clock r history shows) (ground (arith, h, full, longer)) in
          let added =
            add-after message (clock r.seq) r shows.ring
              (ground (arith, h, full, shows.counted_all)) in
          (
            s,
            ground (arith, full, added, e),
            l,
            rw full (
                subst (Shows clock s) (append_assoc history (message ∷ []) (messages_in lines))
                  shows'),
          )
    ]

write_all-Shows :
    (ps : List Bytes) (clock : ℕ → ℕ) (r : Recorder) (history : List Bytes)
    → Shows clock r history
    → length history + length (messages_of ps) < 2 ^ 64
    → (s : Recorder) × (write_all ps clock r ≡ some s)
      × (s.limit ≡ r.limit)
      × Shows clock s (history ++ messages_of ps)
unfolding write_all messages_of write
write_all-Shows [] clock r history shows h =
    (r, refl, refl, subst (Shows clock r) (sym (append-nil history)) shows)
write_all-Shows (p ∷ ps) clock r history shows h =
    let first = messages_in (split_lines p) in
    let sum = length-append first (messages_of ps) in
    let (s, e, l, one) =
      add_lines-Shows (split_lines p) clock r history shows (omega (arith, h, sum)) in
    let (t, e', l', rest) =
      write_all-Shows ps clock s (history ++ first) one
        (omega (arith, h, sum, length-append history first)) in
    (
      t,
      ground (arith, e, e'),
      l' ∙ l,
      subst (Shows clock t) (append_assoc history first (messages_of ps)) rest,
    )

-- The log implements an unbounded list of messages with a window on its end: after any run of
-- writes to a new recorder, fewer than 2 ^ 64 messages in all, no write panicked, and the snapshot
-- is the last `limit` of all the messages, in their order, each with its place among all of them,
-- counted from 1, as its number, and the time at which it was logged.
pub snapshot-write_all :
    (limit : ℤ) (ps : List Bytes) (clock : ℕ → ℕ)
    → length (messages_of ps) < 2 ^ 64
    → (s : Recorder) × (write_all ps clock (new limit) ≡ some s)
      × (snapshot s
          ≡ drop
              (length (messages_of ps) - positive_limit limit)
              (numbered clock 0 (messages_of ps)))
      × (s.seq ≡ length (messages_of ps))
unfolding snapshot new numbered
snapshot-write_all limit ps clock h =
    let start : Shows clock (new limit) [] = record {
      ring = new-IsRing limit;
      counted_all = refl;
      window = sym (drop-nothing (0 - positive_limit limit));
    } in
    let (s, e, l, shows) = write_all-Shows ps clock (new limit) [] start (omega (arith, h)) in
    (
      s,
      e,
      subst
          (λ n. s.entries ≡ drop (length (messages_of ps) - n) (numbered clock 0 (messages_of ps)))
          l shows.window,
      shows.counted_all,
    )
