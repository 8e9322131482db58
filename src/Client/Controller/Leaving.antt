-- ===== src/Client/Controller/Leaving.antt =====
-- What a client that leaves its room comes to, and what a client that starts again remembers.
use anylan.Base.{
  ℕ, ◌≡◌, ◌⊎◌, true, false, [], none, some, arith, ok, Option-cases, Result-cases, inl, inr,
}
use mathlib.Core.Path.{subst}
use anylan.Base.Bytes.{Bytes, text}
use anylan.Client.Config.{
  Config, is_empty, normalize_config, load_client_config, config_from_join_request,
}
use anylan.Client.Config.Saving.{
  ReadsBack, RoundTrips, load_client_config-save_client_config, normalize_config_lem,
}
use anylan.Client.Status.{new_idle_status, start_session}
use anylan.Client.Controller.{
  Controller, Setting, answered, chose, update, leave, finish, join, begin, join_config,
  new_controller, decode,
}
use anylan.Client.Controller.OneSession.{is_busy, saved, saved_cases}

-- A call of `Leave` that returned had called the `cancel` that it read.
abbrev IsHonoured : {F : Type 0} → Controller F → Type 0
IsHonoured c = (k n : ℕ) → c.calls k ≡ answered (some n) → c.cancelled n ≡ true

module _ {F : Type 0} (env : Setting F) where
  -- What a call of `Leave` reads.
  abbrev pub Reads : Controller F → ℕ → Type 0
  Reads c k =
      (((n : ℕ) → is_busy (c.phase n) ≡ false)
        × (leave k c ≡ record c { calls = update c.calls k (answered none) }))
      ⊎ ((n : ℕ) × (is_busy (c.phase n) ≡ true)
          × (leave k c ≡ record c { calls = update c.calls k (chose n) }))

  -- What the end of the session `n` leaves of it.
  abbrev pub IsIdleAfter : Controller F → ℕ → ℕ → Type 0
  IsIdleAfter c n ended =
      ((finish n ended c).status.state ≡ text "idle")
      × ((finish n ended c).status.peers ≡ [])
      × ((finish n ended c).status.peer_latency ≡ none)
      × ((finish n ended c).status.ipv4 ≡ [])

  -- What a valid request names, after `normalizeConfig`.
  join_config-named :
      (payload : Bytes) (cfg : Config)
      → ((s : Bytes) → env.trim_space (env.trim_space s) ≡ env.trim_space s)
      → env.trim_space env.default_device ≡ env.default_device
      → is_empty env.default_device ≡ false
      → join_config env payload ≡ ok cfg
      → is_empty cfg.device_name ≡ false
  unfolding join_config
  join_config-named payload cfg twice trimmed named e =
      elim (Option-cases (decode env.unmarshal payload)) [
        | inl none_sent ↦ absurd (ground (arith, none_sent, e))
        | inr (req, sent) ↦
            elim (Result-cases
              (normalize_config env.trim_space env.default_device (config_from_join_request req))) [
                | inr (x, bad) ↦ absurd (ground (arith, sent, bad, e))
                | inl (g, good) ↦
                    let same : g ≡ cfg = ground (arith, sent, good, e) in
                    let normal =
                      normalize_config_lem env.trim_space env.default_device
                        (config_from_join_request req) g twice trimmed named good in
                    subst (λ (x : Config). is_empty x.device_name ≡ false) same normal.2
              ]
      ]

  -- After a join, a client that is started again has what was joined, where files read back what
  -- was written and the codec its own text, and trimming twice is trimming once: the configuration
  -- is loaded as it was normalized, and the status of the new client shows it.
  pub join-load_client_config :
      (payload : Bytes) (now again : ℕ) (c d : Controller F) (n : ℕ)
      → ReadsBack env.files
      → RoundTrips env.json
      → ((s : Bytes) → env.trim_space (env.trim_space s) ≡ env.trim_space s)
      → env.trim_space env.default_device ≡ env.default_device
      → is_empty env.default_device ≡ false
      → join env payload now c ≡ (ok n, d)
      → (cfg : Config) × (join_config env payload ≡ ok cfg)
        × (load_client_config env.files env.json env.default_device d.files env.config_path
            ≡ ok cfg)
        × (d.status ≡ start_session cfg now c.status)
        × ((new_controller env again d.files).status ≡ new_idle_status cfg again)
  unfolding join begin new_controller
  join-load_client_config payload now again c d n back trips twice trimmed named e =
      elim (Result-cases (join_config env payload)) [
        | inr (x, bad) ↦ absurd (ground (arith, bad, e))
        | inl (cfg, valid) ↦ elim (Option-cases c.current) [
          | inr (k, taken) ↦ absurd (ground (arith, valid, taken, e))
          | inl nobody ↦ elim (saved_cases (saved env cfg c)) [
            | inr (g, x, bad) ↦ absurd (ground (arith, valid, nobody, bad, e))
            | inl (g, kept) ↦
                let named_by = join_config-named payload cfg twice trimmed named valid in
                let there : load_client_config env.files env.json env.default_device g
                      env.config_path
                    ≡ ok cfg =
                  load_client_config-save_client_config env.files env.json env.default_device
                    c.files g env.config_path cfg back trips named_by kept in
                let files_of : d.files ≡ g = ground (arith, valid, nobody, kept, e) in
                let read_again : load_client_config env.files env.json env.default_device d.files
                      env.config_path
                    ≡ ok cfg =
                  rw (files_of) there in
                (
                  cfg,
                  valid,
                  read_again,
                  ground (arith, valid, nobody, kept, e),
                  ground (arith, read_again),
                )
          ]
        ]
      ]
