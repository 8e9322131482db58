-- ===== src/Logmem.antt =====
-- internal/logmem/recorder.go: the log lines kept in memory. The clock is an argument; standard
-- error, to which InstallDefault copies the log, is outside.
pub mod History
mod Tests
use anylan.Base.{
  ℕ, suc, ◌+◌, ◌-◌, ◌%◌, ◌^◌, ◌≤◌, ◌<◌, ◌≡◌, refl, Bool, true, false, List, [], ◌∷◌, ◌++◌, Option,
  some, arith, length, drop, ◌==◌, if◌then◌else◌, length-append, length-drop, Bool-cases, inl, inr,
}
use mathlib.Core.Path.{subst}
use anylan.Base.Bytes.{Bytes}
use anylan.Base.Int.{ℤ, pos, negsuc}
use anylan.Base.Slices.{
  ◌>>=◌, shift_in, shift_in-drop, IsCounted, IsCounted-append_one, IsCounted-drop,
}

abbrev default_limit : ℕ
default_limit = 100

pub record Entry : Type 0 where
  pub seq : ℕ
  pub time : ℕ
  pub message : Bytes

pub record Recorder : Type 0 where
  pub limit : ℕ
  pub entries : List Entry
  pub seq : ℕ

abbrev pub positive_limit : ℤ → ℕ
positive_limit (pos n) = if n == 0 then default_limit else n
positive_limit (negsuc n) = default_limit

unfoldable pub new : ℤ → Recorder
new limit = record { limit = positive_limit limit; entries = []; seq = 0 }

-- `none` is a panic.
unfoldable pub add : Bytes → ℕ → Recorder → Option Recorder
add message now r =
    let seq' = (r.seq + 1) % 2 ^ 64 in
    let entry : Entry = record { seq = seq'; time = now; message = message } in
    if length r.entries == r.limit
    then (shift_in r.entries entry >>= λ entries. some (record r { seq = seq'; entries = entries }))
    else some (record r { seq = seq'; entries = r.entries ++ entry ∷ [] })

-- A byte at the front of the first piece.
abbrev onto_first : ℕ → List Bytes → List Bytes
onto_first b [] = (b ∷ []) ∷ []
onto_first b (piece ∷ pieces) = (b ∷ piece) ∷ pieces

-- bytes.Split at a newline.
unfoldable pub split_lines : Bytes → List Bytes
split_lines [] = [] ∷ []
split_lines (b ∷ p) = if b == b'\n' then [] ∷ split_lines p else onto_first b (split_lines p)

abbrev pub is_empty : Bytes → Bool
is_empty [] = true
is_empty (b ∷ p) = false

-- strings.TrimRight of carriage returns.
unfoldable pub trim_right : Bytes → Bytes
trim_right [] = []
trim_right (b ∷ p) =
    let rest = trim_right p in
    if b == b'\r' then (if is_empty rest then [] else b ∷ rest) else b ∷ rest

-- The lines of one call of Write, each added at its time of the clock.
unfoldable pub add_lines : List Bytes → (ℕ → ℕ) → Recorder → Option Recorder
unfolding add
add_lines [] clock r = some r
add_lines (line ∷ lines) clock r =
    let message = trim_right line in
    let rest = add_lines lines clock in
    if is_empty message then rest r else (add message (clock r.seq) r >>= λ s. rest s)

-- `Write`, with the count it returns.
unfoldable pub write : Bytes → (ℕ → ℕ) → Recorder → Option (Recorder × ℕ)
unfolding add_lines split_lines
write p clock r = add_lines (split_lines p) clock r >>= λ s. some (s, length p)

unfoldable pub snapshot : Recorder → List Entry
snapshot r = r.entries

-- A recorder between two calls: at most `limit` entries, with the last numbers that were given out.
pub record IsRing (r : Recorder) : Type 0 where
  pub positive : 0 < r.limit
  pub bounded : length r.entries ≤ r.limit
  pub enough : length r.entries ≤ r.seq
  pub counted : IsCounted (λ (e : Entry). e.seq) (suc (r.seq - length r.entries)) r.entries

pub new-IsRing : (limit : ℤ) → IsRing (new limit)
unfolding new
new-IsRing (pos n) = record {
  positive = ground arith;
  bounded = omega arith;
  enough = omega arith;
  counted = tt;
}
new-IsRing (negsuc n) = record {
  positive = omega arith;
  bounded = omega arith;
  enough = omega arith;
  counted = tt;
}

-- The ring with a message at its end, and the oldest gone where there was no room.
abbrev pub after : Bytes → ℕ → Recorder → Recorder
after message now r =
    let entry : Entry = record { seq = r.seq + 1; time = now; message = message } in
    record r {
      seq = r.seq + 1;
      entries = drop (suc (length r.entries) - r.limit) (r.entries ++ entry ∷ []);
    }

pub add-after :
    (message : Bytes) (now : ℕ) (r : Recorder)
    → IsRing r
    → r.seq + 1 < 2 ^ 64
    → add message now r ≡ some (after message now r)
unfolding add
add-after message now r i h =
    let fits : (r.seq + 1) % 2 ^ 64 ≡ r.seq + 1 = omega (arith, h) in
    let entry : Entry = record { seq = r.seq + 1; time = now; message = message } in
    elim (Bool-cases (length r.entries == r.limit)) [
      | inl full ↦
          let some_left : 0 < length r.entries = ground (arith, full, i.positive) in
          let one : suc (length r.entries) - r.limit ≡ 1 = ground (arith, full) in
          rw (fits, full, one, shift_in-drop r.entries entry some_left) refl
      | inr room ↦
          let nothing : suc (length r.entries) - r.limit ≡ 0 = ground (arith, room, i.bounded) in
          rw (fits, room, nothing) refl
    ]

pub after-IsRing :
    (message : Bytes) (now : ℕ) (r : Recorder) → IsRing r → IsRing (after message now r)
after-IsRing message now r i =
    let entry : Entry = record { seq = r.seq + 1; time = now; message = message } in
    let k = suc (length r.entries) - r.limit in
    let size = length-drop k (r.entries ++ entry ∷ []) in
    let whole = length-append r.entries (entry ∷ []) in
    record {
      positive = i.positive;
      bounded = omega (arith, size, whole);
      enough = omega (arith, size, whole, i.enough, i.positive);
      counted =
          subst (λ n. IsCounted (λ (e : Entry). e.seq) n (after message now r).entries)
            (omega (arith, size, whole, i.enough, i.positive, i.bounded))
            (IsCounted-drop (λ (e : Entry). e.seq) (suc (r.seq - length r.entries)) k
              (r.entries ++ entry ∷ [])
              (IsCounted-append_one (λ (e : Entry). e.seq) (suc (r.seq - length r.entries))
                r.entries entry i.counted (omega (arith, i.enough))));
    }

-- The lines that are not empty once trimmed: each takes one number.
unfoldable pub message_count : List Bytes → ℕ
message_count [] = 0
message_count (line ∷ lines) =
    let rest = message_count lines in if is_empty (trim_right line) then rest else suc rest

add_lines-IsRing :
    (lines : List Bytes) (clock : ℕ → ℕ) (r : Recorder)
    → IsRing r
    → r.seq + message_count lines < 2 ^ 64
    → (s : Recorder) × (add_lines lines clock r ≡ some s)
      × (s.seq ≡ r.seq + message_count lines)
      × (s.limit ≡ r.limit)
      × IsRing s
unfolding add_lines message_count
add_lines-IsRing [] clock r i h = (r, refl, omega arith, refl, i)
add_lines-IsRing (line ∷ lines) clock r i h = elim (Bool-cases (is_empty (trim_right line))) [
  | inl blank ↦ rw blank (add_lines-IsRing lines clock r i (ground (arith, h, blank)))
  | inr full ↦
      let next = after (trim_right line) (clock r.seq) r in
      let (s, e, n, l, j) =
        add_lines-IsRing lines clock next (after-IsRing (trim_right line) (clock r.seq) r i)
          (ground (arith, h, full)) in
      let added = add-after (trim_right line) (clock r.seq) r i (ground (arith, h, full)) in
      (s, rw (full, added) e, rw full (omega (arith, n)), l, j)
]

-- On a ring, `Write` returns the count of all the bytes it was given, with no panic, and leaves a
-- ring: at most `limit` entries, with the last numbers, one after the other. Each line that is not
-- empty has taken one number, while the numbers are below 2 ^ 64.
pub write-IsRing :
    (p : Bytes) (clock : ℕ → ℕ) (r : Recorder)
    → IsRing r
    → r.seq + message_count (split_lines p) < 2 ^ 64
    → (s : Recorder) × (write p clock r ≡ some (s, length p))
      × (s.seq ≡ r.seq + message_count (split_lines p))
      × IsRing s
unfolding write
write-IsRing p clock r i h =
    let (s, e, n, l, j) = add_lines-IsRing (split_lines p) clock r i h in (s, rw e refl, n, j)
