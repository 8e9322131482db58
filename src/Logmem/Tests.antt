-- ===== src/Logmem/Tests.antt =====
-- The theorem on the log, on two lines.
use anylan.Base.{◌-◌, drop, ◌≡◌, [], ◌∷◌, some, arith, length}
use anylan.Base.Bytes.{Bytes}
use anylan.Base.Int.{pos}
use anylan.Logmem.History.{write_all, messages_of, messages_in, numbered, snapshot-write_all}
use anylan.Logmem.{Recorder, snapshot, positive_limit, new, split_lines, trim_right}

abbrev lines : Bytes
lines = b'a' ∷ b'\r' ∷ b'\n' ∷ b'b' ∷ []

snapshot-write_all_example :
    (s : Recorder) × (write_all (lines ∷ lines ∷ []) (λ n. n) (new (pos 3)) ≡ some s)
    × (snapshot s
        ≡ drop
            (length (messages_of (lines ∷ lines ∷ [])) - positive_limit (pos 3))
            (numbered (λ n. n) 0 (messages_of (lines ∷ lines ∷ []))))
    × (s.seq ≡ length (messages_of (lines ∷ lines ∷ [])))
unfolding messages_of messages_in split_lines trim_right
snapshot-write_all_example = snapshot-write_all (pos 3) (lines ∷ lines ∷ []) (λ n. n) (omega arith)
