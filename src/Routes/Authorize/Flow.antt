-- ===== src/Routes/Authorize/Flow.antt =====
-- The browser flow as a whole: routes/oauth/login.ts, then routes/oauth/authorize.ts with the cookie,
-- then routes/oauth/token.ts with the code.
use text.Mathlib.Text.{◌==◌}
use stellara.Prelude.{
  ℕ, ◌+◌, ◌*◌, ◌<◌, true, false, Option, none, some, List, String, inr, ◌≡◌, refl, sym, ap, ◌∙◌,
}
use stellara.Web.{Url}
use stellara.Texts.{has}
use stellara.OAuth.Storage.{OAuthStorage, get_code, get_session, get_refresh_token}
use stellara.OAuth.Resource.{ResolvedClient}
use stellara.OAuth.Session.{SessionManager}
use stellara.Auth.{resolve_static_token_constant_time}
use stellara.Routes.Token.{
  App, AccessTokenClaims, token_response, canonical_resource, scope_mcp, access_token_claims,
  build_token_response_body, handle_authorization_code_grant,
}
use stellara.Routes.Authorize.{redirected, reply_params, handle_authorize}
use stellara.Routes.Login.{LoginForm, LoginConfig, logged_in, handle_login}
use stellara.Routes.Authorize.Live.{code_grant-live, authorize-live, login-live}

module _ (parse_url : String → Option Url) (to_lower_case : String → String)
    (parse_host : String → Option (String × String))
    (with_params : String → List (String × String) → Option String)
    (encode_query : List (String × String) → String) (digest s256 : String → String) (app : App)
    (config : LoginConfig) (m : SessionManager) (mint : AccessTokenClaims → String) where
  -- The browser flow succeeds. A form with a known token and an authorization request of a client for
  -- its redirect URI, the scope "mcp" and the protected resource gets a session; with its cookie,
  -- before the session is over, the request gets a code; and the code, within ten minutes and with
  -- the verifier, gets an access token for the user of the form and for this client, where the
  -- session id, the code and the refresh token are fresh.
  pub login-authorize-token :
      (session_id code fresh target user verifier : String) (now now' at at' later : ℕ)
      (form : LoginForm) (client : ResolvedClient) (st st' st'' : OAuthStorage)
      → resolve_static_token_constant_time digest form.token config.tokens config.revoked_tokens
        ≡ some user
      → has form.query.redirect_uri client.redirect_uris ≡ true
      → form.query.scope ≡ scope_mcp
      → form.query.resource ≡ some (canonical_resource app)
      → form.query.code_challenge ≡ s256 verifier
      → with_params form.query.redirect_uri (reply_params app form.query "code" code) ≡ some target
      → (session_id == "") ≡ false
      → get_session session_id st ≡ none
      → get_code code st ≡ none
      → get_refresh_token fresh st ≡ none
      → at < now + m.ttl_ms
      → later < at' + 600 * 1000
      → (handle_login parse_host encode_query digest app config m session_id now now'
          (inr client)
          form
          st).storage
        ≡ st'
      → (handle_authorize with_params app parse_host m code at at'
          (inr client)
          (some session_id)
          form.query
          st').storage
        ≡ st''
      → ((url : String) × (age : ℕ) × ((handle_login parse_host encode_query digest app config m
              session_id now now'
              (inr client)
              form
              st).reply
            ≡ logged_in url session_id age config.is_production))
        × ((handle_authorize with_params app parse_host m code at at'
              (inr client)
              (some session_id)
              form.query
              st').reply
            ≡ redirected target)
        × ((handle_authorization_code_grant parse_url to_lower_case app
              (λ c. some (mint c))
              s256
              fresh
              later
              (record {
                code = code;
                redirect_uri = form.query.redirect_uri;
                client_id = form.query.client_id;
                code_verifier = verifier;
                resource = some (canonical_resource app);
              })
              st'').reply
            ≡ token_response (
                build_token_response_body app
                  (mint (access_token_claims app user form.query.client_id form.query.scope))
                  fresh
                  form.query.scope))
  login-authorize-token id code fresh target user verifier now now' at at' later form client st st'
        st'' known registered scope own challenge carries named no_session no_code no_token live
        within logged authorized =
      let (s, url, age, reply, stored, session, codes, tokens) =
        login-live parse_host encode_query digest app config m id now now' form client user st
          registered scope own known no_session in
      let same : s ≡ st' = sym stored ∙ logged in
      let (sent, issued, kept) =
        authorize-live with_params app parse_host m code id at at' form.query client _ target st'
          registered scope own named (ap (get_session id) (sym same) ∙ session) live
          (ap (get_code code) (sym same) ∙ codes code ∙ no_code) carries in
      (
        (url, age, reply),
        sent,
        code_grant-live parse_url to_lower_case app mint s256 fresh later _ st'' _
            (ap (get_code code) (sym authorized) ∙ issued) within refl refl challenge refl
            (ap (get_refresh_token fresh) (sym authorized)
              ∙ kept fresh
              ∙ ap (get_refresh_token fresh) (sym same)
              ∙ tokens fresh
              ∙ no_token),
      )
