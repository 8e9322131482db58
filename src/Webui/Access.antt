-- ===== src/Webui/Access.antt =====
-- Who may do what through the HTTP interface.
use anylan.Base.{
  ◌++◌, ◌≢◌, [], ◌≡◌, ◌≤◌, refl, Bool, true, false, ◌⊎◌, inl, inr, Option, none, some, arith,
  length, ltb, Result, ok, err, Bool-cases, Option-cases, if◌then◌else◌, sym,
}
use mathlib.Core.Path.{subst}
use anylan.Base.Bytes.{Bytes, text, bytes_eq, bytes_eq_iff}
use anylan.Webui.{
  Request, Server, Library, Handler, serve, dispatch, is_refused, unauthorized, answer, ApiError,
  api_route, handle_api, max_body,
}

is_refused_lem :
    (token : Bytes) (req : Request)
    → is_refused token req ≡ true
    → (token ≢ []) × (req.authorization ≢ text "Bearer " ++ token)
unfolding is_refused
is_refused_lem token req h = (
  λ e. ground (arith, h, (bytes_eq_iff token []).1 e),
  λ e. ground (arith, h, (bytes_eq_iff req.authorization (text "Bearer " ++ token)).1 e),
)

not_refused_lem :
    (token : Bytes) (req : Request)
    → is_refused token req ≡ false
    → (token ≡ []) ⊎ (req.authorization ≡ text "Bearer " ++ token)
unfolding is_refused
not_refused_lem token req h = elim (Bool-cases (bytes_eq token [])) [
  | inl none_wanted ↦ inl ((bytes_eq_iff token []).0 none_wanted)
  | inr wanted ↦
      inr ((bytes_eq_iff req.authorization (text "Bearer " ++ token)).0 (ground (arith, h, wanted)))
]

module _ {S V : Type 0} (lib : Library V) (srv : Server S V) where
  -- The request ran a handler that acts, by its method and with a body of at most 64 KiB.
  pub record Acted (req : Request) (s s' : S) : Type 0 where
    pub method : Bytes
    pub handler : Handler S V
    pub routed : api_route lib srv req.path ≡ some (method, some handler)
    pub by_method : req.method ≡ method
    pub small : length req.body ≤ max_body
    pub outcome : s' ≡ (handler s req.body).1

  answer_state : (r : Result ApiError (Option V) × S) → (answer lib r).1 ≡ r.1
  answer_state (ok v, s) = refl
  answer_state (err e, s) = refl

  handle_api_state :
      (method : Bytes) (h : Option (Handler S V)) (req : Request) (s : S)
      → ((handle_api lib method h req s).1 ≡ s)
        ⊎ ((f : Handler S V) × (h ≡ some f)
            × (req.method ≡ method)
            × (length req.body ≤ max_body)
            × ((handle_api lib method h req s).1 ≡ (f s req.body).1))
  unfolding handle_api
  handle_api_state method none req s = inl refl
  handle_api_state method (some f) req s = elim (Bool-cases (bytes_eq req.method method)) [
    | inr n ↦ inl (rw n refl)
    | inl y ↦ elim (Bool-cases (ltb max_body (length req.body))) [
      | inl large ↦ inl (rw (y, large) refl)
      | inr small ↦ inr (
        f,
        refl,
        (bytes_eq_iff req.method method).0 y,
        ground arith,
        rw (y, small) (answer_state (f s req.body)),
      )
    ]
  ]

  dispatch_state :
      (req : Request) (s : S)
      → ((dispatch lib srv req s).1 ≡ s) ⊎ Acted req s (dispatch lib srv req s).1
  unfolding dispatch
  dispatch_state req s = elim (Option-cases (api_route lib srv req.path)) [
    | inl n ↦ inl (rw (n, dispatch) refl)
    | inr ((method, h), e) ↦ elim (handle_api_state method h req s) [
      | inl same ↦ inl (rw (e, dispatch) same)
      | inr (f, is_f, by_method, small, outcome) ↦ inr (record {
        method = method;
        handler = f;
        routed = subst (λ o. api_route lib srv req.path ≡ some (method, o)) is_f e;
        by_method = by_method;
        small = small;
        outcome = rw (e, dispatch) outcome;
      })
    ]
  ]

  -- Of the requests that reach a handler, one that does not carry the token that the server wants
  -- is answered by 401, and nothing runs. Any other, which is every one where the server wants
  -- none, changes the state only through the one handler of its path, if it has the handler's
  -- method and a body of no more than 64 KiB.
  pub serve_access :
      (req : Request) (s : S)
      → ((srv.token ≢ [])
          × (req.authorization ≢ text "Bearer " ++ srv.token)
          × (serve lib srv req s ≡ (unauthorized, s)))
        ⊎ (((srv.token ≡ []) ⊎ (req.authorization ≡ text "Bearer " ++ srv.token))
            × (((serve lib srv req s).1 ≡ s) ⊎ Acted req s (serve lib srv req s).1))
  unfolding serve
  serve_access req s = elim (Bool-cases (is_refused srv.token req)) [
    | inl refused ↦
        let (wanted, other) = is_refused_lem srv.token req refused in
        inl (wanted, other, rw refused refl)
    | inr let_in ↦ inr (
      not_refused_lem srv.token req let_in,
      subst
          (λ (b : Bool).
            let r = if b then (unauthorized, s) else dispatch lib srv req s in
            (r.1 ≡ s) ⊎ Acted req s r.1)
          (sym let_in) (dispatch_state req s),
    )
  ]
