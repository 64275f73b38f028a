-- ===== src/Examples/BrowserFlow.antt =====
-- A login, the code and the access token.
use stellara.Prelude.{
  ℕ, ◌+◌, ◌*◌, true, false, List, [], ◌∷◌, Option, none, some, String, ◌≡◌, ◌⊎◌, inr, refl, arith,
}
use stellara.Web.{Url}
use stellara.Texts.{has}
use stellara.Dict.{get}
use stellara.Dict.Laws.{IsUnique}
use stellara.Sql.{select, insert, update}
use stellara.Auth.{resolve_static_token_constant_time, match_token, match_revoked}
use stellara.OAuth.Storage.{
  OAuthStorage, OAuthSessionRow, OAuthCodeRow, empty, get_code, get_session, get_refresh_token,
  insert_code, insert_session, extend_session,
}
use stellara.OAuth.Resource.{
  ResolvedClient, dcr, validate_resolved_client_resource, match_requested,
}
use stellara.OAuth.Codes.{issue_auth_code}
use stellara.OAuth.Session.{SessionManager, create_session, resolve_session, resolve_row}
use stellara.Routes.Token.{
  App, AccessTokenClaims, token_response, scope_mcp, canonical_resource, access_token_claims,
  build_token_response_body, handle_authorization_code_grant,
}
use stellara.Routes.Authorize.{
  AuthorizeQuery, Lookup, redirected, handle_authorize, validate_resolved_binding,
  continue_authorize, read_session_cookie, issue_code_and_redirect, redirect_with,
}
use stellara.Routes.Authorize.Issued.{HasSession}
use stellara.Routes.Authorize.Redirects.{Carries}
use stellara.Routes.Login.{
  LoginForm, LoginConfig, logged_in, handle_login, revalidate_form_state, log_in,
  build_authorize_url,
}
use stellara.Routes.Authorize.Issued.{handle_authorize-code}
use stellara.Routes.Authorize.Redirects.{handle_authorize-redirect}
use stellara.Routes.Login.Sessions.{handle_login-session}
use stellara.Routes.Authorize.Flow.{login-authorize-token}

abbrev parse_url : String → Option Url
parse_url s = some (record { protocol = "https:"; username = ""; password = ""; hostname = "c" })

abbrev to_lower_case : String → String
to_lower_case s = s

abbrev parse_host : String → Option (String × String)
parse_host s = some ("c", "c")

abbrev with_params : String → List (String × String) → Option String
with_params uri ps = some "https://c/cb?code=code&state=s&iss=https%3A%2F%2Fs"

abbrev target : String
target = "https://c/cb?code=code&state=s&iss=https%3A%2F%2Fs"

abbrev encode_query : List (String × String) → String
encode_query ps = "q"

abbrev digest : String → String
digest s = s

abbrev s256 : String → String
s256 s = s

abbrev app : App
app = record {
  public_base_url = "https://s";
  access_token_ttl_seconds = 300;
  refresh_token_ttl_seconds = 60;
  resource_required_since = 1;
}

abbrev config : LoginConfig
config = record { tokens = ("token", "user") ∷ []; revoked_tokens = []; is_production = true }

unique : IsUnique config.tokens
unfolding get
unique = (refl, tt)

abbrev m : SessionManager
m = record { ttl_ms = 1000000; sliding_threshold_ms = 1000 }

abbrev mint : AccessTokenClaims → String
mint claims = claims.user_id

abbrev query : AuthorizeQuery
query = record {
  response_type = "code";
  client_id = "client";
  redirect_uri = "https://c/cb";
  scope = "mcp";
  state = "s";
  code_challenge = "verifier";
  code_challenge_method = "S256";
  resource = some "https://s/mcp";
}

abbrev form : LoginForm
form = record { query = query; token = "token" }

abbrev body : LoginForm
body = form

abbrev client : ResolvedClient
client = record {
  client_id = "client";
  client_name = none;
  redirect_uris = "https://c/cb" ∷ [];
  registration = dcr;
  created_at = some 2;
}

abbrev lookup : Lookup
lookup = inr client

abbrev st : OAuthStorage
st = empty

abbrev session : OAuthSessionRow
session = record { session_id = "sid"; user_id = "user"; issued_at = 10; expires_at = 1000010 }

abbrev st' : OAuthStorage
st' = record empty { oauth_sessions = session ∷ [] }

abbrev code_row : OAuthCodeRow
code_row = record {
  code = "code";
  client_id = "client";
  user_id = "user";
  code_challenge = "verifier";
  redirect_uri = "https://c/cb";
  scope = "mcp";
  expires_at = 600021;
}

abbrev st'' : OAuthStorage
st'' = record st' { oauth_codes = code_row ∷ [] }

abbrev code : String
code = "code"

abbrev sid : String
sid = "sid"

abbrev cookie : Option String
cookie = some "sid"

handle_authorize-code_example :
    (client : ResolvedClient) × (user : String) × (lookup ≡ inr client)
    × (has query.redirect_uri client.redirect_uris ≡ true)
    × (query.scope ≡ scope_mcp)
    × HasSession with_params app parse_host m "code" 20 21 cookie query st' user
    × (code ≡ code)
    × (code_row ≡ record {
      code = "code";
      client_id = query.client_id;
      user_id = user;
      code_challenge = query.code_challenge;
      redirect_uri = query.redirect_uri;
      scope = query.scope;
      expires_at = 21 + 600 * 1000;
    })
unfolding handle_authorize validate_resolved_binding validate_resolved_client_resource
    match_requested continue_authorize read_session_cookie resolve_session resolve_row
    issue_code_and_redirect issue_auth_code redirect_with insert_code get_code get_session select
    insert update has extend_session
handle_authorize-code_example =
    handle_authorize-code with_params app parse_host m code 20 21 cookie query lookup st' code
      code_row refl refl

handle_authorize-redirect_example :
    (client : ResolvedClient) × (lookup ≡ inr client)
    × (has query.redirect_uri client.redirect_uris ≡ true)
    × (Carries with_params app query target "code" "code"
        ⊎ ((error : String) × Carries with_params app query target "error" error))
unfolding handle_authorize validate_resolved_binding validate_resolved_client_resource
    match_requested continue_authorize read_session_cookie resolve_session resolve_row
    issue_code_and_redirect issue_auth_code redirect_with insert_code get_code get_session select
    insert update has extend_session
handle_authorize-redirect_example =
    handle_authorize-redirect with_params app query target parse_host m code 20 21 cookie lookup st'
      refl

handle_login-session_example :
    (user : String) × (client : ResolvedClient) × (has body.token config.revoked_tokens ≡ false)
    × (get body.token config.tokens ≡ some user)
    × (lookup ≡ inr client)
    × (has body.query.redirect_uri client.redirect_uris ≡ true)
    × (body.query.scope ≡ scope_mcp)
    × (sid ≡ sid)
    × (session
        ≡ record { session_id = sid; user_id = user; issued_at = 10; expires_at = 10 + m.ttl_ms })
unfolding handle_login revalidate_form_state validate_resolved_client_resource match_requested
    log_in create_session insert_session build_authorize_url resolve_static_token_constant_time
    match_token match_revoked get_session select insert has get
handle_login-session_example =
    handle_login-session parse_host encode_query digest app config m sid 10 11 ((λ a b e. e)) unique
      lookup body st sid session refl refl

login-authorize-token_example :
    ((url : String) × (age : ℕ) × ((handle_login parse_host encode_query digest app config m "sid"
          10 11
          (inr client)
          form
          st).reply
        ≡ logged_in url "sid" age config.is_production))
    × ((handle_authorize with_params app parse_host m "code" 20 21
          (inr client)
          (some "sid")
          form.query
          st').reply
        ≡ redirected target)
    × ((handle_authorization_code_grant parse_url to_lower_case app
          (λ c. some (mint c))
          s256
          "fresh"
          30
          (record {
            code = "code";
            redirect_uri = form.query.redirect_uri;
            client_id = form.query.client_id;
            code_verifier = "verifier";
            resource = some (canonical_resource app);
          })
          st'').reply
        ≡ token_response (
            build_token_response_body app
              (mint (access_token_claims app "user" form.query.client_id form.query.scope))
              "fresh"
              form.query.scope))
unfolding handle_authorize validate_resolved_binding validate_resolved_client_resource
    match_requested continue_authorize read_session_cookie resolve_session resolve_row
    issue_code_and_redirect issue_auth_code redirect_with insert_code get_code get_session select
    insert update has extend_session handle_login revalidate_form_state log_in create_session
    insert_session build_authorize_url resolve_static_token_constant_time match_token match_revoked
    get_refresh_token
login-authorize-token_example =
    login-authorize-token parse_url to_lower_case parse_host with_params encode_query digest s256
      app config m mint "sid" "code" "fresh" target "user" "verifier" 10 11 20 21 30 form client st
      st' st'' refl refl refl refl refl refl refl refl refl refl ((omega arith)) ((omega arith))
      refl refl
