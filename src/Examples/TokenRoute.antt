-- ===== src/Examples/TokenRoute.antt =====
-- Requests to the token endpoint.
use stellara.Prelude.{
  ℕ, ◌+◌, ◌*◌, ◌<◌, List, [], ◌∷◌, Option, none, some, String, if◌then◌else◌, true, ◌≡◌, ◌⊎◌, refl,
  arith,
}
use Prim.Native.String
use stellara.Web.{Url}
use stellara.Sql.{select, insert, update, delete, changes}
use stellara.OAuth.Storage.{
  in_chain, OAuthStorage, OAuthRefreshTokenRow, OAuthCodeRow, empty, get_refresh_token,
  insert_refresh_token, mark_refresh_token_rotated, get_code, delete_code,
}
use stellara.OAuth.Storage.Invariant.{IsWellFormed}
use stellara.OAuth.Resource.{validate_bound_token_resource, match_requested}
use stellara.OAuth.Tokens.{issue_refresh_token, rotate_refresh_token, rotate_row, rotate_live}
use stellara.OAuth.Codes.{exchange_auth_code, exchange_row, check_pkce, redeem, safe_equal}
use stellara.Routes.Token.Refreshing.{plain_refresh}
use stellara.Routes.Token.Refinement.{TokenCall, run_requests}
use stellara.OAuth.Authorizations.{Move, view}
use stellara.OAuth.Authorizations.Abstract.{Holds}
use stellara.Prelude.{inr}
use stellara.Routes.Token.{
  App, TokenRequestAuthCode, TokenRequestRefresh, TokenRequest, authorization_code, refresh,
  handle_token_request, TokenResponse, AccessTokenClaims, LogEvent, answer, token_response,
  oauth_error, handle_authorization_code_grant, handle_refresh_token_grant, validate_code_resource,
  validate_refresh_preflight, preflight_own, bound_resource, emit_legacy_resource_log,
  finish_exchange, finish_rotation, access_token_claims, build_token_response_body,
}
use stellara.Routes.Token.Grants.{code_grant-only, code_grant-refused}
use stellara.Routes.Token.Refreshing.{grant-refresh, refresh-replay}
use stellara.Routes.Token.Refinement.{request-Move, run_requests-Holds}

-- A function in the place of SHA-256.
abbrev s256 : String → String
s256 s = s

abbrev parse_url : String → Option Url
parse_url s = some (record { protocol = "https:"; username = ""; password = ""; hostname = "h" })

abbrev to_lower_case : String → String
to_lower_case s = s

abbrev app : App
app = record {
  public_base_url = "https://s";
  access_token_ttl_seconds = 300;
  refresh_token_ttl_seconds = 60;
  resource_required_since = 1;
}

abbrev mint : AccessTokenClaims → String
mint claims = claims.user_id

abbrev sign : AccessTokenClaims → Option String
sign claims = some (mint claims)

abbrev row : OAuthCodeRow
row = record {
  code = "code";
  client_id = "client";
  user_id = "user";
  code_challenge = "verifier";
  redirect_uri = "https://c/cb";
  scope = "mcp";
  expires_at = 1000;
}

abbrev st : OAuthStorage
st = record empty { oauth_codes = row ∷ [] }

abbrev body : TokenRequestAuthCode
body = record {
  code = "code";
  redirect_uri = "https://c/cb";
  client_id = "client";
  code_verifier = "verifier";
  resource = some "https://s/mcp";
}

abbrev foreign : TokenRequestAuthCode
foreign = record body { resource = some "https://other/mcp" }

abbrev status : ℕ
status = 400

abbrev error : String
error = "invalid_target"

abbrev description : String
description = "resource does not match the protected MCP resource"

abbrev now : ℕ
now = 10

abbrev fresh : String
fresh = "r1"

abbrev fresh' : String
fresh' = "r2"

abbrev r : TokenResponse
r = record {
  access_token = "user";
  token_type = "Bearer";
  expires_in = 300;
  refresh_token = fresh;
  scope = "mcp";
}

abbrev granted : OAuthStorage
granted = record empty {
  oauth_refresh_tokens =
      record {
        token = fresh;
        client_id = "client";
        user_id = "user";
        scope = "mcp";
        issued_at = now;
        expires_at = 60010;
        rotated_to = none;
      }
      ∷ [];
}

abbrev refresh_body : TokenRequestRefresh
refresh_body = plain_refresh app fresh "client"

abbrev request : TokenRequest
request = authorization_code body

abbrev calls : List TokenCall
calls =
    record { at = now; fresh = fresh; request = request }
    ∷ record { at = 20; fresh = fresh'; request = refresh refresh_body }
    ∷ []

abbrev client : String
client = "client"

abbrev scope : String
scope = "mcp"

code-IsWellFormed : IsWellFormed st
unfolding select
code-IsWellFormed = record {
  meta_keyed = tt;
  clients_keyed = tt;
  codes_keyed = (refl, tt);
  tokens_keyed = tt;
  sessions_keyed = tt;
  keys_keyed = tt;
}

abbrev r' : TokenResponse
r' = record r { refresh_token = fresh' }

abbrev refreshed : OAuthStorage
refreshed = record empty {
  oauth_refresh_tokens =
      record {
        token = fresh';
        client_id = "client";
        user_id = "user";
        scope = "mcp";
        issued_at = now;
        expires_at = 60010;
        rotated_to = none;
      }
      ∷ record {
        token = fresh;
        client_id = "client";
        user_id = "user";
        scope = "mcp";
        issued_at = now;
        expires_at = 60010;
        rotated_to = some fresh';
      }
      ∷ [];
}

-- Another user has got a token meanwhile.
abbrev later : OAuthStorage
later = record empty {
  oauth_refresh_tokens =
      record {
        token = "r9";
        client_id = "client";
        user_id = "other";
        scope = "mcp";
        issued_at = 15;
        expires_at = 60015;
        rotated_to = none;
      }
      ∷ refreshed.oauth_refresh_tokens;
}

later-IsWellFormed : IsWellFormed later
unfolding select
later-IsWellFormed = record {
  meta_keyed = tt;
  clients_keyed = tt;
  codes_keyed = tt;
  tokens_keyed = (refl, (refl, (refl, tt)));
  sessions_keyed = tt;
  keys_keyed = tt;
}

code_grant-only_example :
    (row : OAuthCodeRow) × (get_code body.code st ≡ some row)
    × (now < row.expires_at)
    × (row.client_id ≡ body.client_id)
    × (row.redirect_uri ≡ body.redirect_uri)
    × (row.code_challenge ≡ s256 body.code_verifier)
    × (r.scope ≡ row.scope)
    × (sign (record {
      issuer = app.public_base_url;
      audience = String.◌++◌ app.public_base_url "/mcp";
      user_id = row.user_id;
      client_id = row.client_id;
      scope = row.scope;
      ttl_seconds = app.access_token_ttl_seconds;
    })
        ≡ some r.access_token)
    × (get_code body.code
          (handle_authorization_code_grant parse_url to_lower_case app sign s256 fresh now body
            st).storage
        ≡ none)
    × (get_refresh_token r.refresh_token
          (handle_authorization_code_grant parse_url to_lower_case app sign s256 fresh now body
            st).storage
        ≡ some (record {
          token = r.refresh_token;
          client_id = row.client_id;
          user_id = row.user_id;
          scope = row.scope;
          issued_at = now;
          expires_at = now + app.refresh_token_ttl_seconds * 1000;
          rotated_to = none;
        }))
unfolding handle_authorization_code_grant validate_code_resource bound_resource
    validate_bound_token_resource match_requested emit_legacy_resource_log finish_exchange
    access_token_claims build_token_response_body exchange_auth_code exchange_row check_pkce redeem
    safe_equal issue_refresh_token get_code delete_code insert_refresh_token select insert delete
    changes
code_grant-only_example =
    code_grant-only parse_url to_lower_case app sign s256 fresh now body st r refl

code_grant-refused_example :
    (status ≡ 400)
    × ((error ≡ "invalid_target") ⊎ (error ≡ "invalid_grant"))
    × (((handle_authorization_code_grant parse_url to_lower_case app sign s256 fresh now foreign
            st).storage
          ≡ st)
        ⊎ ((description ≡ "Authorization code expired")
            × ((handle_authorization_code_grant parse_url to_lower_case app sign s256 fresh now
                  foreign st).storage
                ≡ (delete_code foreign.code st).1)))
unfolding handle_authorization_code_grant validate_code_resource bound_resource
    validate_bound_token_resource match_requested emit_legacy_resource_log finish_exchange
    access_token_claims build_token_response_body exchange_auth_code exchange_row check_pkce redeem
    safe_equal issue_refresh_token get_code delete_code insert_refresh_token select insert delete
    changes
code_grant-refused_example =
    code_grant-refused parse_url to_lower_case app sign s256 fresh now foreign st status error
      description refl

grant-refresh_example :
    (access_token : String) × ((handle_refresh_token_grant parse_url to_lower_case app
        (λ c. some (mint c))
        fresh'
        20
        (plain_refresh app r.refresh_token body.client_id)
        granted).reply
      ≡ token_response (record {
        access_token = access_token;
        token_type = "Bearer";
        expires_in = app.access_token_ttl_seconds;
        refresh_token = fresh';
        scope = r.scope;
      }))
unfolding handle_authorization_code_grant validate_code_resource bound_resource
    validate_bound_token_resource match_requested emit_legacy_resource_log finish_exchange
    access_token_claims build_token_response_body exchange_auth_code exchange_row check_pkce redeem
    safe_equal issue_refresh_token get_code delete_code insert_refresh_token select insert delete
    changes get_refresh_token
grant-refresh_example =
    grant-refresh parse_url to_lower_case app mint s256 fresh fresh' now 20 body st granted r refl
      refl (omega arith) refl

refresh-replay_example :
    (user : String) × (next : OAuthRefreshTokenRow) × (st'' : OAuthStorage) × (warnings : List
      LogEvent)
    × (handle_refresh_token_grant parse_url to_lower_case app sign "r3" 20
          (plain_refresh app refresh_body.refresh_token refresh_body.client_id)
          later
        ≡ answer (oauth_error 400 "invalid_grant" "Refresh token replay detected") warnings st'')
    × (get_refresh_token r'.refresh_token refreshed ≡ some next)
    × (in_chain user refresh_body.client_id next ≡ true)
    × (get_refresh_token refresh_body.refresh_token st'' ≡ none)
    × ((t : String)
        → get_refresh_token t st'' ≡ elim (get_refresh_token t later) [
          | none ↦ none
          | some x ↦ if in_chain user refresh_body.client_id x then none else some x
        ])
unfolding handle_refresh_token_grant validate_refresh_preflight preflight_own bound_resource
    validate_bound_token_resource match_requested emit_legacy_resource_log finish_rotation
    access_token_claims build_token_response_body rotate_refresh_token rotate_row rotate_live
    get_refresh_token insert_refresh_token mark_refresh_token_rotated select insert update
refresh-replay_example =
    refresh-replay parse_url to_lower_case app sign sign fresh' "r3" now 20 refresh_body granted
      refreshed later r' later-IsWellFormed refl refl refl

request-Move_example :
    Move now (app.refresh_token_ttl_seconds * 1000) (view st) (
      view
        (handle_token_request parse_url to_lower_case app sign s256 fresh now request st).storage)
request-Move_example =
    request-Move parse_url to_lower_case app sign s256 fresh now request code-IsWellFormed

run_requests-Holds_example : Holds (view st) "user" client scope
unfolding run_requests handle_token_request handle_authorization_code_grant validate_code_resource
    bound_resource validate_bound_token_resource match_requested emit_legacy_resource_log
    finish_exchange access_token_claims build_token_response_body exchange_auth_code exchange_row
    check_pkce redeem safe_equal issue_refresh_token get_code delete_code insert_refresh_token
    select insert delete changes handle_refresh_token_grant validate_refresh_preflight preflight_own
    finish_rotation rotate_refresh_token rotate_row rotate_live get_refresh_token
    mark_refresh_token_rotated update
run_requests-Holds_example =
    run_requests-Holds parse_url to_lower_case app sign s256 calls "user" client scope
      code-IsWellFormed
      ((inr (
        fresh',
        record {
          token = fresh';
          client_id = client;
          user_id = "user";
          scope = scope;
          issued_at = 20;
          expires_at = 60020;
          rotated_to = none;
        },
        refl,
        refl,
        refl,
        refl,
      )))
