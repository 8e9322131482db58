-- ===== src/Client/Controller.antt =====
-- internal/client/client.go:126-229: the controller behind the HTTP interface of a client, which
-- joins and leaves rooms. `current` stands for the fields `cancel` and `done`: the session whose
-- function and channel they hold. Sessions are numbered in the order in which they begin.
pub mod OneSession
pub mod Leaving
use anylan.Base.{
  ℕ, ◌+◌, ◌≡◌, Bool, true, false, [], ◌∷◌, ◌++◌, Option, none, some, ◌==◌, if◌then◌else◌, Result,
  ok, err,
}
use anylan.Base.Bytes.{Bytes, text}
use anylan.Client.Config.{
  Config, ConfigError, server_required, room_required, JoinRequest, Files, ConfigCodec,
  config_from_join_request, normalize_config, load_client_config, save_client_config,
  default_control_config,
}
use anylan.Client.Status.{Status, new_idle_status, start_session, set_state, end_session}
use anylan.Client.Session.{Event, apply}
use anylan.Webui.{ApiError, api_error}

-- Where the goroutine of a session stands: in runLoop, behind it, behind the second critical
-- section of `Join`, at its end.
pub data Phase : Type 0 where
  unstarted looping returned released finished : Phase

-- Where a call of `Leave` stands: it read the `cancel` of a session, set the state, and returned,
-- having called `cancel` or having read none.
pub data Call : Type 0 where
  unmade : Call
  chose : ℕ → Call
  marked : ℕ → Call
  answered : Option ℕ → Call

pub record Controller (F : Type 0) : Type 0 where
  pub status : Status
  pub current : Option ℕ
  -- The sessions that began.
  pub begun : ℕ
  pub phase : ℕ → Phase
  pub cancelled : ℕ → Bool
  -- The calls of `Leave`, numbered too.
  pub calls : ℕ → Call
  pub files : F

abbrev pub update : {A : Type 0} → (ℕ → A) → ℕ → A → ℕ → A
update f n a m = if m == n then a else f m

abbrev pub is_current : ℕ → Option ℕ → Bool
is_current n none = false
is_current n (some m) = m == n

-- What a call of `Leave` does with the `cancel` that it read, `if cancel == nil`.
abbrev pub chosen : Option ℕ → Call
chosen none = answered none
chosen (some n) = chose n

-- The critical section of the call `k` of `Leave`, and the test that follows it.
unfoldable pub leave : {F : Type 0} → ℕ → Controller F → Controller F
leave k c = record c { calls = update c.calls k (chosen c.current) }

-- `c.status.setState("leaving")`, for the session `n`.
unfoldable pub mark : {F : Type 0} → ℕ → ℕ → ℕ → Controller F → Controller F
mark k n now c = record c {
  status = set_state (text "leaving") now c.status;
  calls = update c.calls k (marked n);
}

-- `cancel()`
unfoldable pub cancel : {F : Type 0} → ℕ → ℕ → Controller F → Controller F
cancel k n c = record c {
  cancelled = update c.cancelled n true;
  calls = update c.calls k (answered (some n));
}

-- The second critical section of the goroutine of `Join`.
unfoldable pub release : {F : Type 0} → ℕ → Controller F → Controller F
release n c = record c {
  current = if is_current n c.current then none else c.current;
  phase = update c.phase n released;
}

-- What follows it.
unfoldable pub finish : {F : Type 0} → ℕ → ℕ → Controller F → Controller F
finish n now c = record c {
  status = if c.cancelled n then end_session none (text "idle") now c.status else c.status;
  phase = update c.phase n finished;
}

-- What the goroutine of a session does to the status, the loop's own calls included.
pub data Work : Type 0 where
  happens : Event → Work
  connects : ℕ → Work
  ends : Option Bytes → Bytes → ℕ → Work

unfoldable pub work : Work → Status → Status
work (happens e) s = apply e s
work (connects now) s = set_state (text "connecting") now s
work (ends e state now) s = end_session e state now s

abbrev pub config_or_default : Config → Result ConfigError Config → Config
config_or_default default (ok cfg) = cfg
config_or_default default (err e) = default

-- The payload of no bytes is a request with no field set.
abbrev pub decode : (Bytes → Option JoinRequest) → Bytes → Option JoinRequest
decode unmarshal [] = some (record {
  server = [];
  room = [];
  display_name = [];
  device_name = [];
  insecure_skip_verify = false;
  prioritize_virtual_adapter = false;
})
decode unmarshal (b ∷ s) = unmarshal (b ∷ s)

-- What the client finds: the system's files, their codec, its texts of errors and the name of the
-- first device, json.Unmarshal of a request and strings.TrimSpace, and the path of the
-- configuration.
pub record Setting (F : Type 0) : Type 0 where
  pub files : Files F
  pub json : ConfigCodec
  pub unmarshal : Bytes → Option JoinRequest
  pub trim_space : Bytes → Bytes
  pub default_device : Bytes
  pub config_path : Bytes
  pub os_text : ConfigError → Bytes

abbrev pub already_joined : ApiError
already_joined = api_error 409 (text "already joined; leave the current room first")

module _ {F : Type 0} (env : Setting F) where
  abbrev pub error_text : ConfigError → Bytes
  error_text server_required = text "server is required"
  error_text room_required = text "room is required"
  error_text e = env.os_text e

  unfoldable pub new_controller : ℕ → F → Controller F
  new_controller now f = record {
    status =
        new_idle_status
          (config_or_default (default_control_config env.default_device)
            (load_client_config env.files env.json env.default_device f env.config_path))
          now;
    current = none;
    begun = 0;
    phase = λ n. unstarted;
    cancelled = λ n. false;
    calls = λ k. unmade;
    files = f;
  }

  -- The start of a session whose configuration was saved, or the error of that.
  abbrev pub begin_saved :
      Config → ℕ → Controller F → F × Option ConfigError → Result ApiError ℕ × Controller F
  begin_saved cfg now c (f, some e) =
      (err (api_error 500 (text "save client config: " ++ error_text e)), record c { files = f })
  begin_saved cfg now c (f, none) = (
    ok c.begun,
    record c {
      status = start_session cfg now c.status;
      current = some c.begun;
      begun = c.begun + 1;
      phase = update c.phase c.begun looping;
      files = f;
    },
  )

  -- The first critical section of `Join`.
  unfoldable pub begin : Config → ℕ → Controller F → Result ApiError ℕ × Controller F
  begin cfg now c = elim c.current [
    | some n ↦ (err already_joined, c)
    | none ↦
        begin_saved cfg now c
          (save_client_config env.files env.json env.default_device c.files env.config_path cfg)
  ]

  unfoldable pub join_config : Bytes → Result ApiError Config
  join_config payload = elim (decode env.unmarshal payload) [
    | none ↦ err (api_error 400 (text "invalid join request"))
    | some req ↦
        elim (normalize_config env.trim_space env.default_device (config_from_join_request req)) [
          | err e ↦ err (api_error 400 (error_text e))
          | ok cfg ↦ ok cfg
        ]
  ]

  -- `Join`, up to the start of the goroutine: the session that began.
  unfoldable pub join : Bytes → ℕ → Controller F → Result ApiError ℕ × Controller F
  unfolding begin join_config
  join payload now c = elim (join_config payload) [ err e ↦ (err e, c) | ok cfg ↦ begin cfg now c ]

  -- What a handler or a goroutine does between two points where others may run. `Leave` may have
  -- read `cancel` long before it calls it; the end of the process's context cancels all sessions,
  -- also those to come; a loop may return at any time, as its errors have it.
  pub data Step : Controller F → Controller F → Type 0 where
    joins :
        {c c' : Controller F} (payload : Bytes) (now : ℕ) {res : Result ApiError ℕ}
        → join payload now c ≡ (res, c')
        → Step c c'
    leaves : {c : Controller F} (k : ℕ) → c.calls k ≡ unmade → Step c (leave k c)
    marks : {c : Controller F} (k n now : ℕ) → c.calls k ≡ chose n → Step c (mark k n now c)
    cancels : {c : Controller F} (k n : ℕ) → c.calls k ≡ marked n → Step c (cancel k n c)
    aborts : {c : Controller F} → Step c (record c { cancelled = λ n. true })
    works :
        {c : Controller F} (n : ℕ) (w : Work)
        → c.phase n ≡ looping
        → Step c (record c { status = work w c.status })
    returns :
        {c : Controller F} (n : ℕ)
        → c.phase n ≡ looping
        → Step c (record c { phase = update c.phase n returned })
    releases : {c : Controller F} (n : ℕ) → c.phase n ≡ returned → Step c (release n c)
    finishes : {c : Controller F} (n : ℕ) (now : ℕ) → c.phase n ≡ released → Step c (finish n now c)

  pub data Reach (c : Controller F) : Controller F → Type 0 where
    here : Reach c c
    next : {d e : Controller F} → Reach c d → Step d e → Reach c e
