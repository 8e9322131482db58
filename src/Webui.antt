-- ===== src/Webui.antt =====
-- internal/webui/server.go: the HTTP interface of the server and of the client. The state `S` is
-- what the handlers act on and `V` holds the values that are sent as JSON. The requests are those
-- that http.ServeMux passes to a handler, that of the longest pattern that fits the path: one whose
-- path is not clean, or is /assets, it redirects itself. A response is what the client gets once
-- the handler returned.
pub mod Access
mod Tests
use anylan.Base.{
  ℕ, ◌+◌, ◌*◌, ◌≡◌, Bool, true, false, not, ◌&&◌, ◌||◌, List, [], ◌∷◌, ◌++◌, Option, none, some,
  length, ltb, take, ◌==◌, if◌then◌else◌, Result, ok, err,
}
use anylan.Base.Bytes.{Bytes, text, bytes_eq}

pub record Request : Type 0 where
  pub method : Bytes
  pub path : Bytes
  pub authorization : Bytes
  pub body : Bytes

pub record Response : Type 0 where
  pub status : ℕ
  pub content_type : Bytes
  pub challenge : Bytes
  pub body : Bytes

-- An `APIError`, or another error by its text.
pub data ApiError : Type 0 where
  api_error : ℕ → Bytes → ApiError
  other_error : Bytes → ApiError

abbrev pub Handler : Type 0 → Type 0 → Type 0
Handler S V = S → Bytes → Result ApiError (Option V) × S

pub record Server (S V : Type 0) : Type 0 where
  pub token : Bytes
  pub snapshot : S → V
  pub devices : Option (Handler S V)
  pub join : Option (Handler S V)
  pub leave : Option (Handler S V)
  pub logs : Option (S → V)
  pub capture : Option (S → V)
  pub capture_enable : Option (Handler S V)
  pub capture_disable : Option (Handler S V)

-- What the package does not implement: encoding/json with an indent of two spaces, and the answer
-- to the map {"ok": true} and to {"error": message}; the embedded files and the text of a failed
-- read.
pub record Library (V : Type 0) : Type 0 where
  pub encode : V → Result Bytes Bytes
  pub ok_value : V
  pub encode_error : Bytes → Bytes
  pub index_file : Result Bytes Bytes
  pub serve_file : Bytes → Response

abbrev plain_text : Bytes
plain_text = text "text/plain; charset=utf-8"

abbrev json_type : Bytes
json_type = text "application/json"

-- http.Error
abbrev pub http_error : Bytes → ℕ → Response
http_error message status = record {
  status = status;
  content_type = plain_text;
  challenge = [];
  body = message ++ b'\n' ∷ [];
}

abbrev pub not_found : Response
not_found = http_error (text "404 page not found") 404

abbrev pub method_not_allowed : Response
method_not_allowed = http_error (text "method not allowed") 405

unfoldable pub write_api_error : (Bytes → Bytes) → ApiError → Response
write_api_error encode_error (api_error status message) = record {
  status = if status == 0 then 500 else status;
  content_type = json_type;
  challenge = [];
  body = encode_error message;
}
write_api_error encode_error (other_error message) = record {
  status = 500;
  content_type = json_type;
  challenge = [];
  body = encode_error message;
}

-- `strings.Contains(name, "..")`
unfoldable pub has_dots : Bytes → Bool
has_dots [] = false
has_dots (a ∷ []) = false
has_dots (a ∷ b ∷ s) = (a == b'.' && b == b'.') || has_dots (b ∷ s)

-- `strings.TrimPrefix(path, "/")`
unfoldable pub trim_slash : Bytes → Bytes
trim_slash [] = []
trim_slash (b ∷ s) = if b == b'/' then s else b ∷ s

abbrev pub max_body : ℕ
max_body = 64 * 1024

-- `strings.HasPrefix(path, "/assets/")`, for the pattern of that name.
abbrev is_asset : Bytes → Bool
is_asset path = bytes_eq (take 8 path) (text "/assets/")

-- The test of `withAuth`.
unfoldable pub is_refused : Bytes → Request → Bool
is_refused token req =
    not (bytes_eq token []) && not (bytes_eq req.authorization (text "Bearer " ++ token))

abbrev pub unauthorized : Response
unauthorized = record (http_error (text "unauthorized") 401) {
  challenge = text "Bearer realm=\"anylan\"";
}

module _ {V : Type 0} (lib : Library V) where
  abbrev encoded : Result Bytes Bytes → Response
  encoded (ok body) = record { status = 200; content_type = json_type; challenge = []; body = body }
  encoded (err message) = http_error message 500

  abbrev value_or_ok : Option V → V
  value_or_ok none = lib.ok_value
  value_or_ok (some v) = v

  unfoldable pub write_json : Option V → Response
  write_json v = encoded (lib.encode (value_or_ok v))

  abbrev index_page : Result Bytes Bytes → Response
  index_page (ok page) = record {
    status = 200;
    content_type = text "text/html; charset=utf-8";
    challenge = [];
    body = page;
  }
  index_page (err message) = http_error message 500

  unfoldable pub handle_index : Request → Response
  handle_index req = if bytes_eq req.path (text "/") then index_page lib.index_file else not_found

  unfoldable pub handle_asset : Request → Response
  unfolding has_dots trim_slash
  handle_asset req =
      if not (bytes_eq req.method (text "GET"))
      then method_not_allowed
      else if bytes_eq (trim_slash req.path) req.path || has_dots (trim_slash req.path)
      then not_found
      else lib.serve_file (text "dist/" ++ trim_slash req.path)

module _ {S V : Type 0} (lib : Library V) where
  -- `handleStatus`, which has no nil case: ListenAndServe refuses a server without a snapshot.
  unfoldable pub handle_status : (S → V) → Request → S → Response
  unfolding write_json
  handle_status snapshot req s =
      if not (bytes_eq req.method (text "GET"))
      then method_not_allowed
      else encoded lib (lib.encode (snapshot s))

  -- `handleLogs` and `handleCapture`.
  unfoldable pub handle_view : Option (S → V) → Request → S → Response
  unfolding write_json
  handle_view none req s = not_found
  handle_view (some view) req s =
      if not (bytes_eq req.method (text "GET"))
      then method_not_allowed
      else write_json lib (some (view s))

  abbrev pub answer : Result ApiError (Option V) × S → Response × S
  answer (ok v, s) = (write_json lib v, s)
  answer (err e, s) = (write_api_error lib.encode_error e, s)

  unfoldable pub handle_api : Bytes → Option (Handler S V) → Request → S → Response × S
  unfolding write_json write_api_error
  handle_api method none req s = (not_found, s)
  handle_api method (some handler) req s =
      if not (bytes_eq req.method method)
      then (method_not_allowed, s)
      else if ltb max_body (length req.body)
      then (http_error (text "request body too large") 413, s)
      else answer (handler s req.body)

  -- The handlers that act, with their methods.
  unfoldable pub api_route : Server S V → Bytes → Option (Bytes × Option (Handler S V))
  api_route srv path =
      if bytes_eq path (text "/api/devices")
      then some (text "GET", srv.devices)
      else if bytes_eq path (text "/api/join")
      then some (text "POST", srv.join)
      else if bytes_eq path (text "/api/leave")
      then some (text "POST", srv.leave)
      else if bytes_eq path (text "/api/capture/enable")
      then some (text "POST", srv.capture_enable)
      else if bytes_eq path (text "/api/capture/disable")
      then some (text "POST", srv.capture_disable)
      else none

  -- The pages and the views, which change nothing.
  unfoldable pub view_route : Server S V → Request → S → Response
  unfolding handle_index handle_asset handle_status handle_view
  view_route srv req s =
      if bytes_eq req.path (text "/api/status")
      then handle_status srv.snapshot req s
      else if bytes_eq req.path (text "/api/logs")
      then handle_view srv.logs req s
      else if bytes_eq req.path (text "/api/capture")
      then handle_view srv.capture req s
      else if is_asset req.path
      then handle_asset lib req
      else handle_index lib req

  unfoldable pub dispatch : Server S V → Request → S → Response × S
  unfolding api_route handle_api view_route
  dispatch srv req s = elim (api_route srv req.path) [
    | some (method, handler) ↦ handle_api method handler req s
    | none ↦ (view_route srv req s, s)
  ]

  -- `Handler`, whose every handler is wrapped by `withAuth`.
  unfoldable pub serve : Server S V → Request → S → Response × S
  serve srv req s = if is_refused srv.token req then (unauthorized, s) else dispatch srv req s
