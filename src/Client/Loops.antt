-- ===== src/Client/Loops.antt =====
-- The loops of a client's goroutines (internal/client/client.go:863-909, 985-1044 and 1124-1164): a
-- loop over a device's reads, and one over the messages of a stream. What a turn does is an
-- argument.
pub mod Ending
use anylan.Base.{ℕ, suc, zero, ◌≡◌, List, [], ◌∷◌, length, Result, ok, err}
use anylan.Base.Bytes.{Bytes}
use anylan.Protocol.{Error, MessageType, Reader, read_message}

-- What a turn, or a loop, came to: it goes on, it sent an error to `errCh` and returned, or it
-- panicked.
pub data Turn (S : Type 0) : Type 0 where
  goes_on : S → Turn S
  ends : Error → S → Turn S
  panics : Turn S

-- The loop over the reads of a device. A turn knows its time, by the number of turns that follow
-- it.
unfoldable pub feed : {A S : Type 0} → (A → ℕ → S → Turn S) → (ℕ → ℕ) → List A → S → Turn S
feed turn clock [] s = goes_on s
feed turn clock (x ∷ xs) s = elim (turn x (clock (length xs)) s) [
  | goes_on s' ↦ feed turn clock xs s'
  | ends e s' ↦ ends e s'
  | panics ↦ panics
]

-- The loop over the messages of a stream, on fuel.
unfoldable pub pump :
    {S : Type 0} → (MessageType → Bytes → ℕ → S → Turn S) → (ℕ → ℕ) → ℕ → ℕ → Reader → S → Turn S
pump turn clock limit zero r s = goes_on s
pump turn clock limit (suc n) r s = elim (read_message r limit) [
  | err e ↦ ends e s
  | ok (typ, payload, r') ↦ elim (turn typ payload (clock n) s) [
    | goes_on s' ↦ pump turn clock limit n r' s'
    | ends e s' ↦ ends e s'
    | panics ↦ panics
  ]
]
