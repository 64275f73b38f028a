-- ===== src/Routes/Authorize/Live.antt =====
-- The steps of the browser flow where they succeed: routes/oauth/login.ts, then routes/oauth/authorize.ts with the cookie,
-- then routes/oauth/token.ts with the code.
use text.Mathlib.Text.{◌==◌}
use stellara.Prelude.{
  ℕ, ◌+◌, ◌-◌, ◌<◌, true, false, Option, none, some, List, [], ◌∷◌, String, inr, ◌≡◌, refl, ◌∙◌,
  arith, eq_iff, ◌/◌,
}
use stellara.Web.{Url}
use stellara.Texts.{has}
use stellara.OAuth.Storage.{
  OAuthStorage, OAuthSessionRow, OAuthCodeRow, get_code, get_session, get_refresh_token,
  insert_code, insert_session, extend_session, delete_session,
}
use stellara.OAuth.Storage.Lookup.{get-insert_code, get-insert_session}
use stellara.Sql.{insert}
use stellara.OAuth.Resource.{
  ResolvedClient, validate_resolved_client_resource, validate_bound_token_resource, match_requested,
}
use stellara.OAuth.Codes.{issue_auth_code, code_row}
use stellara.OAuth.Codes.Flow.{exchange-total}
use stellara.OAuth.Session.{SessionManager, create_session, resolve_session, resolve_row}
use stellara.OAuth.Session.Lifetime.{resolve-live}
use stellara.Auth.{resolve_static_token_constant_time}
use stellara.Routes.Token.{
  App, AccessTokenClaims, TokenRequestAuthCode, token_response, canonical_resource, scope_mcp,
  access_token_claims, build_token_response_body, bound_resource, validate_code_resource,
  emit_legacy_resource_log, finish_exchange, LogEvent, passed, handle_authorization_code_grant,
}
use stellara.Routes.Token.Grants.{exchange_options}
use stellara.Routes.Authorize.{
  AuthorizeQuery, redirected, bound, read_session_cookie, reply_params, redirect_with,
  validate_resolved_binding, code_options, issue_code_and_redirect, continue_authorize,
  handle_authorize,
}
use stellara.Routes.Authorize.Issued.{resolve_session-codes}
use stellara.Routes.Login.{
  LoginForm, LoginConfig, logged_in, build_authorize_url, revalidate_form_state, valid, log_in,
  handle_login,
}

insert_session-total :
    (row : OAuthSessionRow) (st : OAuthStorage)
    → get_session row.session_id st ≡ none
    → (st' : OAuthStorage) × (insert_session row st ≡ some st')
      × ((c : String) → get_code c st' ≡ get_code c st)
      × ((t : String) → get_refresh_token t st' ≡ get_refresh_token t st)
unfolding insert_session get_session insert get_code get_refresh_token
insert_session-total row st h =
    (record st { oauth_sessions = row ∷ st.oauth_sessions }, ground arith, (λ c. refl), (λ t. refl))

insert_code-total :
    (row : OAuthCodeRow) (st : OAuthStorage)
    → get_code row.code st ≡ none
    → (st' : OAuthStorage) × (insert_code row st ≡ some st')
      × ((t : String) → get_refresh_token t st' ≡ get_refresh_token t st)
unfolding insert_code get_code insert get_refresh_token
insert_code-total row st h =
    (record st { oauth_codes = row ∷ st.oauth_codes }, ground arith, (λ t. refl))

resolve_session-tokens :
    (m : SessionManager) (id : String) (now : ℕ) (st : OAuthStorage) (t : String)
    → get_refresh_token t (resolve_session m id now st).1 ≡ get_refresh_token t st
unfolding resolve_session resolve_row get_refresh_token extend_session delete_session
resolve_session-tokens m id now st t = ground arith

module _ (parse_url : String → Option Url) (to_lower_case : String → String) (app : App)
    (mint : AccessTokenClaims → String) (s256 : String → String) where
  own_resource :
      (body : TokenRequestAuthCode) (st : OAuthStorage)
      → body.resource ≡ some (canonical_resource app)
      → (logs : List LogEvent) × (validate_code_resource parse_url to_lower_case app body st
          ≡ passed logs)
  unfolding validate_code_resource bound_resource validate_bound_token_resource match_requested
      emit_legacy_resource_log
  own_resource body st h =
      ([], ground (arith, (eq_iff (canonical_resource app) (canonical_resource app)).1 refl))

  -- A live code of the client with the redirect URI and the challenge gives a token response.
  pub code_grant-live :
      (fresh : String) (now : ℕ) (body : TokenRequestAuthCode) (st : OAuthStorage)
      (row : OAuthCodeRow)
      → get_code body.code st ≡ some row
      → now < row.expires_at
      → row.client_id ≡ body.client_id
      → row.redirect_uri ≡ body.redirect_uri
      → row.code_challenge ≡ s256 body.code_verifier
      → body.resource ≡ some (canonical_resource app)
      → get_refresh_token fresh st ≡ none
      → (handle_authorization_code_grant parse_url to_lower_case app
          (λ c. some (mint c))
          s256
          fresh
          now
          body
          st).reply
        ≡ token_response (
            build_token_response_body app
              (mint (access_token_claims app row.user_id row.client_id row.scope))
              fresh
              row.scope)
  unfolding handle_authorization_code_grant finish_exchange
  code_grant-live fresh now body st row found live client redirect challenge own free =
      let (logs, passed_e) = own_resource body st own in
      let (st', exchanged) =
        exchange-total s256 fresh (exchange_options app now body) st row found live client redirect
          challenge free in
      ground (arith, passed_e, exchanged)

module _ (with_params : String → List (String × String) → Option String) (app : App)
    (parse_host : String → Option (String × String)) (m : SessionManager) where
  own_binding :
      (query : AuthorizeQuery) (client : ResolvedClient)
      → has query.redirect_uri client.redirect_uris ≡ true
      → query.scope ≡ scope_mcp
      → query.resource ≡ some (canonical_resource app)
      → validate_resolved_binding with_params app query client ≡ bound []
  unfolding validate_resolved_binding validate_resolved_client_resource match_requested
  own_binding query client registered scope own = ground (
    arith,
    eq_iff query.scope scope_mcp,
    (eq_iff (canonical_resource app) (canonical_resource app)).1 refl,
  )

  -- A live session gets a code for its user.
  pub authorize-live :
      (fresh session_id : String) (now now' : ℕ) (query : AuthorizeQuery) (client : ResolvedClient)
      (session : OAuthSessionRow) (target : String) (st : OAuthStorage)
      → has query.redirect_uri client.redirect_uris ≡ true
      → query.scope ≡ scope_mcp
      → query.resource ≡ some (canonical_resource app)
      → (session_id == "") ≡ false
      → get_session session_id st ≡ some session
      → now < session.expires_at
      → get_code fresh st ≡ none
      → with_params query.redirect_uri (reply_params app query "code" fresh) ≡ some target
      → ((handle_authorize with_params app parse_host m fresh now now'
            (inr client)
            (some session_id)
            query
            st).reply
          ≡ redirected target)
        × (get_code fresh
              (handle_authorize with_params app parse_host m fresh now now'
                (inr client)
                (some session_id)
                query
                st).storage
            ≡ some (code_row fresh (code_options app query session.user_id now')))
        × ((t : String)
            → get_refresh_token t
                (handle_authorize with_params app parse_host m fresh now now'
                  (inr client)
                  (some session_id)
                  query
                  st).storage
              ≡ get_refresh_token t st)
  unfolding handle_authorize continue_authorize issue_code_and_redirect redirect_with
      read_session_cookie issue_auth_code
  authorize-live fresh id now now' query client session target st registered scope own named found
        live free carries =
      let (e, answered, _, _, _) = resolve-live m id now st session found live in
      let bound_e = own_binding query client registered scope own in
      let after = (resolve_session m id now st).1 in
      let unused = resolve_session-codes m id now st fresh ∙ free in
      let new = code_row fresh (code_options app query session.user_id now') in
      let (st', inserted, tokens) = insert_code-total new after unused in
      let looked = get-insert_code fresh after new inserted in
      (
        ground (arith, bound_e, answered, inserted, named, carries),
        ground (
          arith,
          bound_e,
          answered,
          inserted,
          named,
          carries,
          looked,
          (eq_iff fresh fresh).1 refl,
        ),
        λ t. ground (
          arith,
          bound_e,
          answered,
          inserted,
          named,
          carries,
          tokens t,
          resolve_session-tokens m id now st t,
        ),
      )

module _ (parse_host : String → Option (String × String))
    (encode_query : List (String × String) → String) (digest : String → String) (app : App)
    (config : LoginConfig) (m : SessionManager) where
  revalidated_own :
      (query : AuthorizeQuery) (client : ResolvedClient)
      → has query.redirect_uri client.redirect_uris ≡ true
      → query.scope ≡ scope_mcp
      → query.resource ≡ some (canonical_resource app)
      → revalidate_form_state app (inr client) query ≡ valid client []
  unfolding revalidate_form_state validate_resolved_client_resource match_requested
  revalidated_own query client registered scope own = ground (
    arith,
    eq_iff query.scope scope_mcp,
    (eq_iff (canonical_resource app) (canonical_resource app)).1 refl,
  )

  -- A known token gets a session.
  pub login-live :
      (session_id : String) (now now' : ℕ) (body : LoginForm) (client : ResolvedClient)
      (user : String) (st : OAuthStorage)
      → has body.query.redirect_uri client.redirect_uris ≡ true
      → body.query.scope ≡ scope_mcp
      → body.query.resource ≡ some (canonical_resource app)
      → resolve_static_token_constant_time digest body.token config.tokens config.revoked_tokens
        ≡ some user
      → get_session session_id st ≡ none
      → (st' : OAuthStorage) × (url : String) × (age : ℕ) × ((handle_login parse_host encode_query
            digest app config m session_id now now'
            (inr client)
            body
            st).reply
          ≡ logged_in url session_id age config.is_production)
        × ((handle_login parse_host encode_query digest app config m session_id now now'
              (inr client)
              body
              st).storage
            ≡ st')
        × (get_session session_id st'
            ≡ some (record {
              session_id = session_id;
              user_id = user;
              issued_at = now;
              expires_at = now + m.ttl_ms;
            }))
        × ((c : String) → get_code c st' ≡ get_code c st)
        × ((t : String) → get_refresh_token t st' ≡ get_refresh_token t st)
  unfolding handle_login log_in create_session
  login-live id now now' body client user st registered scope own known free =
      let new : OAuthSessionRow = record {
        session_id = id;
        user_id = user;
        issued_at = now;
        expires_at = now + m.ttl_ms;
      } in
      let checked = revalidated_own body.query client registered scope own in
      let (st', inserted, codes, tokens) = insert_session-total new st free in
      let looked = get-insert_session id st new inserted in
      (
        st',
        build_authorize_url encode_query body.query,
        (now + m.ttl_ms - now') / 1000,
        ground (arith, checked, known, inserted),
        ground (arith, checked, known, inserted),
        ground (arith, looked, (eq_iff id id).1 refl),
        codes,
        tokens,
      )
