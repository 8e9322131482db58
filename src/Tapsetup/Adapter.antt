-- ===== src/Tapsetup/Adapter.antt =====
-- What the set-up of the adapter ensures.
use anylan.Base.{
  ◌≡◌, ◌⊎◌, inl, inr, refl, true, false, List, [], ◌∷◌, Option, none, some, Result, ok, err,
  Bool-cases, Result-cases,
}
use anylan.Base.Bytes.{Bytes, text}
use anylan.Tapsetup.{
  System, SetupError, devcon_failed, adapter_not_found, has_adapter, driver_dir, after_devcon,
  ensure_adapter, install_args,
}

module _ {E : Type 0} (y : System E) where
  -- The set-up runs a command only where there is no adapter and the files of the driver are there;
  -- else the system stays as it is. It succeeds exactly when an adapter is there in the end, unless
  -- the command itself fails.
  abbrev pub Ensured : E → E × Result SetupError (Unit {0}) → Type 0
  Ensured s (s', ok u) =
      (has_adapter y s' ≡ true)
      × ((s' ≡ s) ⊎ ((has_adapter y s ≡ false) × ((dir : Bytes) × (driver_dir y s ≡ ok dir))))
  Ensured s (s', err e) =
      (has_adapter y s ≡ false)
      × (((driver_dir y s ≡ err e) × (s' ≡ s))
          ⊎ ((dir : Bytes) × (driver_dir y s ≡ ok dir)
              × (((e ≡ adapter_not_found) × (has_adapter y s' ≡ false))
                  ⊎ ((path : Bytes) × (args : List Bytes) × (why : Bytes) × (output : Bytes) × (e
                        ≡ devcon_failed path args why output)))))

  after_devcon-Ensured :
      (s : E) (dir path : Bytes) (args : List Bytes) (o : E × (Bytes × Option Bytes))
      → has_adapter y s ≡ false
      → driver_dir y s ≡ ok dir
      → Ensured s (after_devcon y path args o)
  after_devcon-Ensured s dir path args (s', (output, some e)) without found =
      (without, inr (dir, found, inr (path, args, e, output, refl)))
  after_devcon-Ensured s dir path args (s', (output, none)) without found =
      elim (Bool-cases (has_adapter y s')) [
        | inl there ↦ rw there (there, inr (without, (dir, found)))
        | inr missing ↦ rw missing (without, inr (dir, found, inl (refl, missing)))
      ]

  -- The set-up succeeds only if an adapter is there in the end. It runs devcon only where there is
  -- none and the files of the driver are there, and fails only for a missing file or program, a
  -- devcon that failed, or an adapter that is not there after devcon.
  pub ensure_adapter-Ensured : (s : E) → Ensured s (ensure_adapter y s)
  unfolding ensure_adapter
  ensure_adapter-Ensured s = elim (Bool-cases (has_adapter y s)) [
    | inl there ↦ rw there (there, inl refl)
    | inr without ↦ elim (Result-cases (driver_dir y s)) [
      | inr (e, bad) ↦ rw (without, bad) (without, inl (bad, refl))
      | inl (dir, found) ↦
          let path = y.join (dir ∷ text "devcon.exe" ∷ []) in
          rw (without, found)
            (after_devcon-Ensured s dir path (install_args y dir)
              (y.shell (path ∷ install_args y dir) s) without found)
    ]
  ]
