-- ===== src/Webui/Tests.antt =====
-- The theorem on the HTTP interface, on one request to leave.
use anylan.Base.{◌++◌, ◌≢◌, ℕ, ◌≡◌, ◌+◌, [], none, some, ok, ◌⊎◌}
use anylan.Base.Bytes.{Bytes, text}
use anylan.Webui.{Request, Server, Library, Handler, serve, unauthorized, http_error}
use anylan.Webui.Access.{Acted, serve_access}

abbrev lib : Library Bytes
lib = record {
  encode = λ v. ok v;
  ok_value = text "{}";
  encode_error = λ message. message;
  index_file = ok [];
  serve_file = λ name. http_error name 404;
}

-- The state counts the calls of `leave`.
abbrev leave : Handler ℕ Bytes
leave n body = (ok none, n + 1)

abbrev server : Server ℕ Bytes
server = record {
  token = text "t";
  snapshot = λ n. [];
  devices = none;
  join = none;
  leave = some leave;
  logs = none;
  capture = none;
  capture_enable = none;
  capture_disable = none;
}

abbrev request : Request
request = record {
  method = text "POST";
  path = text "/api/leave";
  authorization = text "Bearer t";
  body = [];
}

serve_access_example :
    ((server.token ≢ [])
      × (request.authorization ≢ text "Bearer " ++ server.token)
      × (serve lib server request 4 ≡ (unauthorized, 4)))
    ⊎ (((server.token ≡ []) ⊎ (request.authorization ≡ text "Bearer " ++ server.token))
        × (((serve lib server request 4).1 ≡ 4)
            ⊎ Acted lib server request 4 (serve lib server request 4).1))
serve_access_example = serve_access lib server request 4
