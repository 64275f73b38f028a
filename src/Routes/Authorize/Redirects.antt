-- ===== src/Routes/Authorize/Redirects.antt =====
-- Where `GET /oauth/authorize` of routes/oauth/authorize.ts redirects to.
use text.Mathlib.Text.{◌==◌}
use stellara.Prelude.{
  ℕ, true, Option, none, some, List, [], ◌∷◌, String, ◌⊎◌, inl, inr, ◌≡◌, ◌≢◌, refl, arith,
  Bool-cases, Option-cases,
}
use stellara.Texts.{has}
use stellara.OAuth.Storage.{OAuthStorage, insert_code}
use stellara.OAuth.Resource.{ResolvedClient}
use stellara.OAuth.ClientMetadata.{ClientMetadataError}
use stellara.OAuth.Codes.{issue_auth_code, code_row}
use stellara.OAuth.Session.{SessionManager, resolve_session}
use stellara.Routes.Token.{App, scope_mcp}
use stellara.Routes.Authorize.{
  AuthorizeQuery, redirected, AuthorizeLog, Lookup, send_client_resolution_error,
  read_session_cookie, to_form_state, send_login_form, reply_params, redirect_with,
  validate_resolved_binding, unbound, code_options, issue_code_and_redirect, continue_authorize,
  handle_authorize,
}
use stellara.Routes.Authorize.Issued.{Session-cases, Binding-cases, binding-bound}

error-no_redirect :
    (error : Option ClientMetadataError) (message target : String)
    → send_client_resolution_error error message ≢ redirected target
unfolding send_client_resolution_error
error-no_redirect none message target h = ground arith
error-no_redirect (some error) message target h = ground arith

form-no_redirect :
    (parse_host : String → Option (String × String)) (status : ℕ) (message : Option String)
    (query : AuthorizeQuery) (client : ResolvedClient) (target : String)
    → send_login_form parse_host status message query client ≢ redirected target
unfolding send_login_form
form-no_redirect parse_host status message query client target h =
    elim (Option-cases (to_form_state parse_host query client)) [
      | inl e ↦ ground arith
      | inr (form, e) ↦ ground arith
    ]

module _ (with_params : String → List (String × String) → Option String) (app : App)
    (query : AuthorizeQuery) (target : String) where
  -- The redirect URI of the query with a parameter, the state and the issuer.
  abbrev pub Carries : String → String → Type 0
  Carries name value =
      with_params query.redirect_uri
        ((name, value) ∷ ("state", query.state) ∷ ("iss", app.public_base_url) ∷ [])
      ≡ some target

  redirect_with-target :
      (name value : String)
      → redirect_with with_params app query name value ≡ redirected target
      → Carries name value
  unfolding redirect_with
  redirect_with-target name value h =
      elim (Option-cases (with_params query.redirect_uri (reply_params app query name value))) [
        | inl e ↦ ground arith
        | inr (t, e) ↦ ground arith
      ]

  unbound-target :
      (client : ResolvedClient)
      → validate_resolved_binding with_params app query client ≡ unbound (redirected target)
      → (has query.redirect_uri client.redirect_uris ≡ true)
        × ((error : String) × Carries "error" error)
  unfolding validate_resolved_binding
  unbound-target client h = elim (Bool-cases (has query.redirect_uri client.redirect_uris)) [
    | inr foreign ↦ ground arith
    | inl registered ↦ elim (Bool-cases (query.scope == scope_mcp)) [
      | inr other ↦ (
        registered,
        ("invalid_scope", redirect_with-target "error" "invalid_scope" (ground arith)),
      )
      | inl fine ↦ (
        registered,
        ("invalid_request", redirect_with-target "error" "invalid_request" (ground arith)),
      )
    ]
  ]

  issued-target :
      (fresh : String) (now : ℕ) (user : String) (logs : List AuthorizeLog) (st : OAuthStorage)
      → (issue_code_and_redirect with_params app fresh now query user logs st).reply
        ≡ redirected target
      → Carries "code" fresh
  unfolding issue_code_and_redirect issue_auth_code
  issued-target fresh now user logs st h =
      elim (Option-cases (insert_code (code_row fresh (code_options app query user now)) st)) [
        | inl e ↦ ground arith
        | inr (st', e) ↦ redirect_with-target "code" fresh (ground arith)
      ]

  module _ (parse_host : String → Option (String × String)) (m : SessionManager) (fresh : String)
      (now now' : ℕ) (cookie : Option String) where
    continued-target :
        (client : ResolvedClient) (logs : List AuthorizeLog) (st : OAuthStorage)
        → (continue_authorize with_params app parse_host m fresh now now' cookie query client logs
            st).reply
          ≡ redirected target
        → Carries "code" fresh
    unfolding continue_authorize
    continued-target client logs st h =
        let no_form = form-no_redirect parse_host 200 none query client target in
        elim (Option-cases (read_session_cookie cookie)) [
          | inl e ↦ ground arith
          | inr (id, e) ↦ elim (Session-cases (resolve_session m id now st).0) [
            | inl (u, s, end, live) ↦
                issued-target fresh now' u logs (resolve_session m id now st).1 (ground arith)
            | inr (inl over) ↦ ground arith
            | inr (inr missing) ↦ ground arith
          ]
        ]

    -- A redirect goes to the redirect URI of the query, which the client has registered, with the
    -- state of the query and this issuer. It carries the code or an error.
    pub handle_authorize-redirect :
        (lookup : Lookup) (st : OAuthStorage)
        → (handle_authorize with_params app parse_host m fresh now now' lookup cookie query
            st).reply
          ≡ redirected target
        → (client : ResolvedClient) × (lookup ≡ inr client)
          × (has query.redirect_uri client.redirect_uris ≡ true)
          × (Carries "code" fresh ⊎ ((error : String) × Carries "error" error))
    unfolding handle_authorize
    handle_authorize-redirect (inl error) st h =
        let no = error-no_redirect error "Unable to verify OAuth client" target in ground arith
    handle_authorize-redirect (inr client) st h =
        elim (Binding-cases (validate_resolved_binding with_params app query client)) [
          | inl (reply, e) ↦
              let (registered, error) = unbound-target client (ground arith) in
              (client, refl, registered, inr error)
          | inr (logs, e) ↦
              let (registered, scope) = binding-bound with_params app query client logs e in
              (client, refl, registered, inl (continued-target client logs st (ground arith)))
        ]
