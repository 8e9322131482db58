-- ===== src/Client/Config/Saving.antt =====
-- What is saved is what is loaded.
use anylan.Base.{
  ◌≡◌, ◌⊎◌, refl, Bool, true, none, false, [], ◌∷◌, ◌++◌, some, arith, ok, Bool-cases, Option-cases,
  inl, inr,
}
use mathlib.Core.Path.{subst}
use anylan.Base.Bytes.{Bytes}
use anylan.Client.Config.{
  Config, LocalClientConfig, Files, ConfigCodec, contents, is_empty, normalize_config,
  path_or_default, to_stored, load_client_config, save_client_config,
}

-- A file that was written reads as what was written, and json.Unmarshal takes what
-- json.MarshalIndent made, with white space after it.
abbrev pub ReadsBack : {F : Type 0} → Files F → Type 0
ReadsBack {F} files =
    (f g : F) (path bytes : Bytes)
    → files.write f path bytes ≡ (g, true)
    → files.read g path ≡ contents bytes

abbrev pub RoundTrips : ConfigCodec → Type 0
RoundTrips json =
    (v : LocalClientConfig) (bytes : Bytes)
    → json.marshal v ≡ some bytes
    → json.unmarshal (bytes ++ b'\n' ∷ []) ≡ some v

written_whole :
    {F : Type 0} (o : F × Bool) → ((g : F) × (o ≡ (g, true))) ⊎ ((g : F) × (o ≡ (g, false)))
written_whole (g, true) = inl (g, refl)
written_whole (g, false) = inr (g, refl)

module _ {F : Type 0} (files : Files F) (json : ConfigCodec) (default_device : Bytes) where
  -- A configuration that names its device is loaded again, from the file to which it was saved, as
  -- it was.
  pub load_client_config-save_client_config :
      (f g : F) (path : Bytes) (cfg : Config)
      → ReadsBack files
      → RoundTrips json
      → is_empty cfg.device_name ≡ false
      → save_client_config files json default_device f path cfg ≡ (g, none)
      → load_client_config files json default_device g path ≡ ok cfg
  unfolding load_client_config save_client_config
  load_client_config-save_client_config f g path cfg back trips named saved =
      elim (Option-cases (path_or_default files json default_device path)) [
        | inl n ↦ absurd (ground (arith, n, saved))
        | inr (p, e) ↦
            elim (Option-cases (json.marshal (to_stored files json default_device cfg))) [
              | inl n ↦ absurd (ground (arith, e, n, saved))
              | inr (bytes, m) ↦ elim (written_whole (files.write f p (bytes ++ b'\n' ∷ []))) [
                | inr (g', n) ↦ absurd (ground (arith, e, m, n, saved))
                | inl (g', w) ↦
                    let same : g' ≡ g = ground (arith, e, m, w, saved) in
                    let there = back f g' p (bytes ++ b'\n' ∷ []) w in
                    let parsed = trips (to_stored files json default_device cfg) bytes m in
                    subst (λ x. load_client_config files json default_device x path ≡ ok cfg) same
                      (ground (arith, e, there, parsed, named))
              ]
            ]
      ]

-- What `normalizeConfig` lets through names a server, a room and a device, and a configuration that
-- is normal already stays as it is.
pub normalize_config_lem :
    (trim_space : Bytes → Bytes) (default_device : Bytes) (cfg normal : Config)
    → ((s : Bytes) → trim_space (trim_space s) ≡ trim_space s)
    → trim_space default_device ≡ default_device
    → is_empty default_device ≡ false
    → normalize_config trim_space default_device cfg ≡ ok normal
    → (is_empty normal.server ≡ false)
      × (is_empty normal.room ≡ false)
      × (is_empty normal.device_name ≡ false)
      × (normalize_config trim_space default_device normal ≡ ok normal)
unfolding normalize_config
normalize_config_lem trim_space default_device cfg normal twice trimmed named e =
    elim (Bool-cases (is_empty (trim_space cfg.server))) [
      | inl no_server ↦ absurd (ground (arith, no_server, e))
      | inr server ↦ elim (Bool-cases (is_empty (trim_space cfg.room))) [
        | inl no_room ↦ absurd (ground (arith, server, no_room, e))
        | inr room ↦ elim (Bool-cases (is_empty (trim_space cfg.device_name))) [
          | inl unnamed ↦ ground (
            arith,
            e,
            server,
            room,
            unnamed,
            named,
            trimmed,
            twice cfg.server,
            twice cfg.room,
            twice cfg.display_name,
          )
          | inr device ↦ ground (
            arith,
            e,
            server,
            room,
            device,
            twice cfg.server,
            twice cfg.room,
            twice cfg.display_name,
            twice cfg.device_name,
          )
        ]
      ]
    ]
