-- ===== src/Tap/Commands.antt =====
-- The loop over the commands that set a device up: how it can end.
use anylan.Base.{
  ◌≡◌, ◌⊎◌, inl, inr, none, some, false, true, Option-cases, Bool-cases, refl, Bool, List, [], ◌∷◌,
  ◌++◌, arith, Result, ok, err, Result-cases, ap, sym,
}
use mathlib.Core.Path.{subst}
use anylan.Base.Bytes.{Bytes}
use anylan.Tap.{TapError, command_failed, Shell, outcome, run_commands}

module _ {E : Type 0} (shell : Shell E) where
  abbrev Command : Type 0
  Command = (Bytes → Bool) × List Bytes

  -- The command succeeds, or fails with an output for which that is passed over.
  abbrev pub Passes : Command → E → Type 0
  Passes (pardons, args) s = ((shell args s).1.1 ≡ none) ⊎ (pardons (shell args s).1.0 ≡ true)

  -- The command fails with an output for which that counts, and the error names both.
  abbrev pub Breaks : Command → E → TapError → Type 0
  Breaks (pardons, args) s e =
      (x : Bytes) × ((shell args s).1.1 ≡ some x)
      × (pardons (shell args s).1.0 ≡ false)
      × (e ≡ command_failed args x (shell args s).1.0)

  -- How the command ends in the state `s`.
  abbrev verdict : Command → E → Result TapError (Unit {0})
  verdict (pardons, args) s = outcome pardons args (shell args s).1.0 (shell args s).1.1

  -- The state after the commands, whatever they come to.
  abbrev pub after : List Command → E → E
  after [] s = s
  after (c ∷ commands) s = after commands (shell c.1 s).0

  -- All commands pass, each in the state that those before it leave.
  abbrev pub Succeed : List Command → E → Type 0
  Succeed [] s = Unit {0}
  Succeed (c ∷ commands) s = Passes c s × Succeed commands (shell c.1 s).0

  -- Some command fails, and those before it pass.
  abbrev pub Fails : List Command → E → TapError → E → Type 0
  Fails commands s e s' =
      (done : List Command) × (c : Command) × (rest : List Command) × (commands ≡ done ++ c ∷ rest)
      × Succeed done s
      × Breaks c (after done s) e
      × (s' ≡ (shell c.1 (after done s)).0)

  abbrev pub Runs : List Command → E → E × Result TapError (Unit {0}) → Type 0
  Runs commands s (s', ok u) = Succeed commands s × (s' ≡ after commands s)
  Runs commands s (s', err e) = Fails commands s e s'

  Runs-first :
      (c : Command) (commands : List Command) (s : E) (o : E × Result TapError (Unit {0}))
      → Passes c s
      → Runs commands (shell c.1 s).0 o
      → Runs (c ∷ commands) s o
  Runs-first c commands s (s', ok u) good (all, e) = ((good, all), e)
  Runs-first c commands s (s', err e) good (done, d, rest, split, before, bad, out) =
      (c ∷ done, d, rest, ap (λ (x : List Command). c ∷ x) split, (good, before), bad, out)

  verdict-Passes : (c : Command) (s : E) (u : Unit {0}) → verdict c s ≡ ok u → Passes c s
  verdict-Passes (pardons, args) s u e = elim (Option-cases (shell args s).1.1) [
    | inl fine ↦ inl fine
    | inr (failed, f) ↦ elim (Bool-cases (pardons (shell args s).1.0)) [
      | inl fine ↦ inr fine
      | inr counts ↦ absurd (ground (arith, f, counts, e))
    ]
  ]

  verdict-Breaks : (c : Command) (s : E) (x : TapError) → verdict c s ≡ err x → Breaks c s x
  verdict-Breaks (pardons, args) s x e = elim (Option-cases (shell args s).1.1) [
    | inl fine ↦ absurd (ground (arith, fine, e))
    | inr (failed, f) ↦ elim (Bool-cases (pardons (shell args s).1.0)) [
      | inl fine ↦ absurd (ground (arith, f, fine, e))
      | inr counts ↦ (failed, f, counts, ground (arith, f, counts, e))
    ]
  ]

  -- The commands run in their order. Either all succeed, or fail with an output for which that
  -- is passed over, and the system is as they leave it; or one fails, and its output does not make
  -- up for that, after all before it passed. Then the result names that command, its error and its
  -- output, and none after it runs.
  pub run_commands-Runs :
      (commands : List Command) (s : E) → Runs commands s (run_commands shell commands s)
  unfolding run_commands
  run_commands-Runs [] s = (tt, refl)
  run_commands-Runs (c ∷ commands) s = elim (Result-cases (verdict c s)) [
    | inl (u, good) ↦
        let same : run_commands shell (c ∷ commands) s
            ≡ run_commands shell commands (shell c.1 s).0 =
          ground (arith, good) in
        subst (Runs (c ∷ commands) s) (sym same) (
          Runs-first c commands s (run_commands shell commands (shell c.1 s).0)
            (verdict-Passes c s u good) (run_commands-Runs commands (shell c.1 s).0))
    | inr (e, bad) ↦
        let same : run_commands shell (c ∷ commands) s ≡ ((shell c.1 s).0, err e) =
          ground (arith, bad) in
        subst (Runs (c ∷ commands) s) (sym same)
          ([], c, commands, refl, tt, verdict-Breaks c s e bad, refl)
  ]
