-- ===== src/Client/Controller/OneSession.antt =====
-- A client takes part in at most one room at a time.
use anylan.Base.{
  ℕ, ◌+◌, ◌<◌, ◌≤◌, ◌≡◌, refl, sym, Bool, true, false, ◌⊎◌, inl, inr, ◌++◌, Option, none, some,
  arith, Result, ok, err, leb, Bool-cases, Option-cases, Result-cases,
}
use mathlib.Core.Path.{subst}
use anylan.Base.Bytes.{Bytes, text}
use anylan.Client.Status.{start_session}
use anylan.Client.Config.{Config, ConfigError, save_client_config}
use anylan.Client.Controller.{
  Setting, error_text, Controller, Phase, unstarted, looping, returned, released, finished, update,
  is_current, mark, cancel, release, finish, join, begin, join_config, already_joined,
  new_controller, Step, joins, leave, leaves, aborts, marks, cancels, works, returns, releases,
  finishes, Reach, here, next,
}
use anylan.Webui.{ApiError, api_error}

abbrev pub is_busy : Phase → Bool
is_busy looping = true
is_busy returned = true
is_busy unstarted = false
is_busy released = false
is_busy finished = false

-- The current session is the one whose goroutine is in runLoop or on its way to the second critical
-- section.
pub record IsSingle {F : Type 0} (c : Controller F) : Type 0 where
  pub busy : (n : ℕ) → is_busy (c.phase n) ≡ is_current n c.current
  pub fresh : (n : ℕ) → c.begun ≤ n → c.phase n ≡ unstarted

moved-IsSingle :
    {F : Type 0} (c : Controller F) (n : ℕ) (p : Phase)
    → IsSingle c
    → is_busy p ≡ is_busy (c.phase n)
    → (n < c.begun)
    → IsSingle (record c { phase = update c.phase n p })
moved-IsSingle c n p inv same old = record {
  busy = λ m. ground (arith, inv.busy m, inv.busy n, same);
  fresh = λ m above. ground (arith, inv.fresh m above, old);
}

abbrev is_started : Phase → Bool
is_started unstarted = false
is_started looping = true
is_started returned = true
is_started released = true
is_started finished = true

begun_before :
    {F : Type 0} (c : Controller F) (n : ℕ) (p : Phase)
    → IsSingle c
    → c.phase n ≡ p
    → is_started p ≡ true
    → n < c.begun
begun_before c n p inv e started = elim (Bool-cases (leb c.begun n)) [
  | inl above ↦ absurd (ground (arith, inv.fresh n (ground arith), e, started))
  | inr below ↦ ground arith
]

release-IsSingle :
    {F : Type 0} (c : Controller F) (n : ℕ)
    → IsSingle c
    → c.phase n ≡ returned
    → IsSingle (release n c)
unfolding release
release-IsSingle c n inv e = record {
  busy = λ m. elim (Option-cases c.current) [
    | inl nobody ↦ ground (arith, inv.busy m, inv.busy n, e, nobody)
    | inr (k, current) ↦ ground (arith, inv.busy m, inv.busy n, e, current)
  ];
  fresh = λ m above. ground (arith, inv.fresh m above, begun_before c n returned inv e refl);
}

pub saved_cases :
    {F : Type 0} (o : F × Option ConfigError)
    → ((g : F) × (o ≡ (g, none))) ⊎ ((g : F) × (x : ConfigError) × (o ≡ (g, some x)))
saved_cases (g, none) = inl (g, refl)
saved_cases (g, some x) = inr (g, x, refl)

module _ {F : Type 0} (env : Setting F) where
  -- The session that `begin` starts with a configuration that was saved.
  abbrev pub begun_with : Config → ℕ → F → Controller F → Controller F
  begun_with cfg now f c = record c {
    status = start_session cfg now c.status;
    current = some c.begun;
    begun = c.begun + 1;
    phase = update c.phase c.begun looping;
    files = f;
  }

  -- What a request to join comes to.
  pub data Joined (c : Controller F) : Result ApiError ℕ × Controller F → Type 0 where
    refused : (e : ApiError) (f : F) → Joined c (err e, record c { files = f })
    busy : (n : ℕ) → c.current ≡ some n → Joined c (err already_joined, c)
    started :
        (cfg : Config) (now : ℕ) (f : F)
        → c.current ≡ none
        → save_client_config env.files env.json env.default_device c.files env.config_path cfg
          ≡ (f, none)
        → Joined c (ok c.begun, begun_with cfg now f c)

  begin-Joined : (cfg : Config) (now : ℕ) (c : Controller F) → Joined c (begin env cfg now c)
  unfolding begin
  begin-Joined cfg now c = elim (Option-cases c.current) [
    | inr (k, e) ↦ subst (Joined c) (sym (ground (arith, e))) (busy k e)
    | inl n ↦
        elim (saved_cases
          (save_client_config env.files env.json env.default_device c.files env.config_path cfg)) [
            | inl (f, e) ↦ subst (Joined c) (sym (ground (arith, n, e))) (started cfg now f n e)
            | inr (f, x, e) ↦
                subst (Joined c) (sym (ground (arith, n, e)))
                  (refused (api_error 500 (text "save client config: " ++ error_text env x)) f)
          ]
  ]

  pub join-Joined :
      (payload : Bytes) (now : ℕ) (c : Controller F) → Joined c (join env payload now c)
  unfolding join
  join-Joined payload now c = elim (Result-cases (join_config env payload)) [
    | inl (cfg, e) ↦ rw (e, join) (begin-Joined cfg now c)
    | inr (x, e) ↦ rw (e, join) (refused x c.files)
  ]

  Joined-IsSingle :
      (c : Controller F) (r : Result ApiError ℕ × Controller F)
      → IsSingle c
      → Joined c r
      → IsSingle r.1
  Joined-IsSingle c r inv (refused e f) = record { busy = inv.busy; fresh = inv.fresh }
  Joined-IsSingle c r inv (busy n e) = inv
  Joined-IsSingle c r inv (started cfg now f none_joined saved) = record {
    busy = λ n. ground (arith, inv.busy n, none_joined);
    fresh = λ n above. ground (arith, inv.fresh n);
  }

  Step-IsSingle : {c d : Controller F} → IsSingle c → Step env c d → IsSingle d
  unfolding leave mark cancel finish
  Step-IsSingle {c} {d} inv (joins payload now e) =
      subst (λ r. IsSingle r.1) e
        (Joined-IsSingle c (join env payload now c) inv (join-Joined payload now c))
  Step-IsSingle inv (leaves k e) = record { busy = inv.busy; fresh = inv.fresh }
  Step-IsSingle inv aborts = record { busy = inv.busy; fresh = inv.fresh }
  Step-IsSingle inv (marks k n now e) = record { busy = inv.busy; fresh = inv.fresh }
  Step-IsSingle inv (cancels k n e) = record { busy = inv.busy; fresh = inv.fresh }
  Step-IsSingle inv (works n w e) = record { busy = inv.busy; fresh = inv.fresh }
  Step-IsSingle {c} inv (returns n e) =
      moved-IsSingle c n returned inv (ground (arith, e)) (begun_before c n looping inv e refl)
  Step-IsSingle {c} inv (releases n e) = release-IsSingle c n inv e
  Step-IsSingle {c} inv (finishes n now e) =
      let m =
        moved-IsSingle c n finished inv (ground (arith, e))
          (begun_before c n released inv e refl) in
      record { busy = m.busy; fresh = m.fresh }

  pub Reach-IsSingle : {c d : Controller F} → IsSingle c → Reach env c d → IsSingle d
  Reach-IsSingle inv here = inv
  Reach-IsSingle inv (next r s) = Step-IsSingle (Reach-IsSingle inv r) s

  pub new_controller-IsSingle : (now : ℕ) (f : F) → IsSingle (new_controller env now f)
  unfolding new_controller
  new_controller-IsSingle now f = record { busy = λ n. refl; fresh = λ n above. refl }

  -- Whatever handlers and sessions of a client interleave, no two sessions are in their loops at
  -- once, and the one that is is the one that `Leave` cancels.
  pub loops_once :
      (now : ℕ) (f : F) (c : Controller F) (m n : ℕ)
      → Reach env (new_controller env now f) c
      → c.phase m ≡ looping
      → c.phase n ≡ looping
      → (m ≡ n) × (c.current ≡ some m)
  loops_once now f c m n r first second =
      let inv = Reach-IsSingle (new_controller-IsSingle now f) r in
      elim (Option-cases c.current) [
        | inl nobody ↦ absurd (ground (arith, nobody, inv.busy m, first))
        | inr (k, e) ↦ ground (arith, e, inv.busy m, inv.busy n, first, second)
      ]

  abbrev pub saved : Config → Controller F → F × Option ConfigError
  saved cfg c = save_client_config env.files env.json env.default_device c.files env.config_path cfg

  -- A valid request to join, at any moment: with a session in its loop, or behind it and not
  -- released yet, it is refused by 409 and changes nothing. Without one it is answered by 500
  -- where its configuration cannot be saved, and changes nothing but the files as the failed save
  -- leaves them; it begins a session else.
  pub join-Reach :
      (now : ℕ) (f : F) (c : Controller F) (payload : Bytes) (cfg : Config) (at : ℕ)
      → Reach env (new_controller env now f) c
      → join_config env payload ≡ ok cfg
      → ((n : ℕ) × (is_busy (c.phase n) ≡ true) × (join env payload at c ≡ (err already_joined, c)))
        ⊎ (((n : ℕ) → is_busy (c.phase n) ≡ false)
            × (((x : ConfigError) × (g : F) × (saved cfg c ≡ (g, some x))
                  × (join env payload at c ≡ (
                    err (api_error 500 (text "save client config: " ++ error_text env x)),
                    record c { files = g },
                  )))
                ⊎ ((g : F) × (saved cfg c ≡ (g, none))
                    × (join env payload at c ≡ (ok c.begun, begun_with cfg at g c)))))
  unfolding join begin
  join-Reach now f c payload cfg at r valid =
      let inv = Reach-IsSingle (new_controller-IsSingle now f) r in
      elim (Option-cases c.current) [
        | inr (k, e) ↦ inl (k, ground (arith, e, inv.busy k), ground (arith, valid, e))
        | inl nobody ↦ inr (
          λ n. ground (arith, nobody, inv.busy n),
          elim (saved_cases (saved cfg c)) [
            | inl (g, e) ↦ inr (g, e, ground (arith, valid, nobody, e))
            | inr (g, x, e) ↦ inl (x, g, e, ground (arith, valid, nobody, e))
          ],
        )
      ]
