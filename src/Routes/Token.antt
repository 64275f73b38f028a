-- ===== src/Routes/Token.antt =====
-- src/routes/oauth/token.ts: `POST /oauth/token`. The body is the one that the schema let through.
-- `s256` is SHA-256 in base64url and `sign` is `signAccessToken` with the active key, `none` where
-- it throws. The random refresh token and the time are arguments.
pub mod Grants
pub mod Refinement
pub mod Refreshing
use Prim.Native.String
use text.Mathlib.Text.{◌==◌}
use stellara.Prelude.{
  ℕ, Bool, false, Option, none, some, List, [], ◌∷◌, ◌++◌, String, if◌then◌else◌, not,
}
use stellara.Web.{Url}
use stellara.OAuth.Storage.{OAuthStorage, OAuthRefreshTokenRow, get_refresh_token}
use stellara.OAuth.Resource.{ResourceValidation, validate_bound_token_resource}
use stellara.OAuth.Codes.{ExchangeResult, exchange_auth_code}
use stellara.OAuth.Tokens.{RotationResult, rotate_refresh_token}

pub record TokenRequestAuthCode : Type 0 where
  pub code : String
  pub redirect_uri : String
  pub client_id : String
  pub code_verifier : String
  pub resource : Option String

pub record TokenRequestRefresh : Type 0 where
  pub refresh_token : String
  pub client_id : String
  pub scope : Option String
  pub resource : Option String

pub data TokenRequest : Type 0 where
  authorization_code : TokenRequestAuthCode → TokenRequest
  refresh : TokenRequestRefresh → TokenRequest

-- What the handlers read of `app.config` and `app.services.oauth`.
pub record App : Type 0 where
  pub public_base_url : String
  pub access_token_ttl_seconds : ℕ
  pub refresh_token_ttl_seconds : ℕ
  pub resource_required_since : ℕ

pub record AccessTokenClaims : Type 0 where
  pub issuer : String
  pub audience : String
  pub user_id : String
  pub client_id : String
  pub scope : String
  pub ttl_seconds : ℕ

pub record TokenResponse : Type 0 where
  pub access_token : String
  pub token_type : String
  pub expires_in : ℕ
  pub refresh_token : String
  pub scope : String

-- The reply: status 200 with a body, an OAuth error with its status, or the exception that goes to
-- the error handler of the server.
pub data Reply : Type 0 where
  token_response : TokenResponse → Reply
  oauth_error : ℕ → String → String → Reply
  thrown : Reply

-- The log entries, the latest first. They hold the hash of the client id in place of the client id itself, and the
-- address of the request.
pub data LogEvent : Type 0 where
  oauth_token_issued : String → String → LogEvent
  oauth_token_refreshed : String → String → LogEvent
  oauth_resource_legacy_default : String → LogEvent
  oauth_refresh_replay_detected : String → ℕ → LogEvent

pub record Answer : Type 0 where
  pub reply : Reply
  pub logs : List LogEvent
  pub storage : OAuthStorage

abbrev pub answer : Reply → List LogEvent → OAuthStorage → Answer
answer reply logs storage = record { reply = reply; logs = logs; storage = storage }

-- A validation before the transaction: it has replied, or the handler goes on.
pub data Preflight : Type 0 where
  replied : Reply → Preflight
  passed : List LogEvent → Preflight

abbrev pub scope_mcp : String
scope_mcp = "mcp"

abbrev pub canonical_resource : App → String
canonical_resource app = String.◌++◌ app.public_base_url "/mcp"

unfoldable pub emit_legacy_resource_log : String → Bool → List LogEvent
emit_legacy_resource_log client_id used_legacy_default =
    if used_legacy_default then oauth_resource_legacy_default client_id ∷ [] else []

unfoldable pub describe_exchange_failure : ExchangeResult → String
describe_exchange_failure ExchangeResult.expired = "Authorization code expired"
describe_exchange_failure ExchangeResult.client_mismatch =
    "Authorization code does not belong to this client"
describe_exchange_failure ExchangeResult.redirect_mismatch =
    "redirect_uri does not match the original authorize call"
describe_exchange_failure ExchangeResult.pkce_mismatch =
    "code_verifier does not match the original code_challenge"
describe_exchange_failure _ = "Unknown authorization code"

unfoldable pub access_token_claims : App → String → String → String → AccessTokenClaims
access_token_claims app user_id client_id scope = record {
  issuer = app.public_base_url;
  audience = String.◌++◌ app.public_base_url "/mcp";
  user_id = user_id;
  client_id = client_id;
  scope = scope;
  ttl_seconds = app.access_token_ttl_seconds;
}

unfoldable pub build_token_response_body : App → String → String → String → TokenResponse
build_token_response_body app access_token refresh_token scope = record {
  access_token = access_token;
  token_type = "Bearer";
  expires_in = app.access_token_ttl_seconds;
  refresh_token = refresh_token;
  scope = scope;
}

-- The failures of a rotation; `ok` is not one and never comes here.
unfoldable pub handle_refresh_failure : RotationResult → TokenRequestRefresh → Reply × List LogEvent
handle_refresh_failure (RotationResult.replay chain_deleted) body = (
  oauth_error 400 "invalid_grant" "Refresh token replay detected",
  oauth_refresh_replay_detected body.client_id chain_deleted ∷ [],
)
handle_refresh_failure RotationResult.expired body =
    (oauth_error 400 "invalid_grant" "Refresh token expired", [])
handle_refresh_failure RotationResult.unknown_client body =
    (oauth_error 400 "invalid_client" "Refresh token does not belong to this client", [])
handle_refresh_failure _ body = (oauth_error 400 "invalid_grant" "Unknown refresh token", [])

-- `body.scope !== undefined && body.scope !== existing.scope`
abbrev pub widens : Option String → String → Bool
widens none granted = false
widens (some scope) granted = not (scope == granted)

module _ (parse_url : String → Option Url) (to_lower_case : String → String) (app : App) where
  unfoldable pub bound_resource : OAuthStorage → String → Option String → ResourceValidation
  bound_resource st client_id requested =
      validate_bound_token_resource parse_url to_lower_case st client_id requested
        (canonical_resource app) app.resource_required_since

  unfoldable pub validate_code_resource : TokenRequestAuthCode → OAuthStorage → Preflight
  validate_code_resource body st = elim (bound_resource st body.client_id body.resource) [
    | ResourceValidation.invalid reason ↦ replied (oauth_error 400 "invalid_target" reason)
    | ResourceValidation.ok _ legacy ↦ passed (emit_legacy_resource_log body.client_id legacy)
  ]

  -- The checks once the token is known to be the client's.
  unfoldable pub preflight_own :
      TokenRequestRefresh → OAuthRefreshTokenRow → OAuthStorage → Preflight
  preflight_own body existing st = elim (bound_resource st body.client_id body.resource) [
    | ResourceValidation.invalid reason ↦ replied (oauth_error 400 "invalid_target" reason)
    | ResourceValidation.ok _ legacy ↦
        if widens body.scope existing.scope
        then replied (oauth_error 400 "invalid_scope" "Refresh cannot widen the granted scope")
        else passed (emit_legacy_resource_log body.client_id legacy)
  ]

  unfoldable pub validate_refresh_preflight : TokenRequestRefresh → OAuthStorage → Preflight
  validate_refresh_preflight body st = elim (get_refresh_token body.refresh_token st) [
    | none ↦ passed []
    | some existing ↦
        if not (existing.client_id == body.client_id)
        then passed []
        else preflight_own body existing st
  ]

  module _ (sign : AccessTokenClaims → Option String) where
    -- The handler after the exchange.
    unfoldable pub finish_exchange : List LogEvent → ExchangeResult → OAuthStorage → Answer
    finish_exchange logs (ExchangeResult.ok user_id client_id scope refresh_token) st =
        elim (sign (access_token_claims app user_id client_id scope)) [
          | none ↦ answer thrown logs st
          | some access_token ↦
              answer
                (token_response (build_token_response_body app access_token refresh_token scope))
                (oauth_token_issued user_id client_id ∷ logs) st
        ]
    finish_exchange logs failure st =
        answer (oauth_error 400 "invalid_grant" (describe_exchange_failure failure)) logs st

    unfoldable pub handle_authorization_code_grant :
        (String → String) → String → ℕ → TokenRequestAuthCode → OAuthStorage → Answer
    handle_authorization_code_grant s256 fresh now body st = elim (validate_code_resource body st) [
      | replied reply ↦ answer reply [] st
      | passed logs ↦
          elim (exchange_auth_code s256 fresh
            (record {
              code = body.code;
              client_id = body.client_id;
              redirect_uri = body.redirect_uri;
              code_verifier = body.code_verifier;
              refresh_token_ttl_seconds = app.refresh_token_ttl_seconds;
              now = now;
            })
            st) [
              | none ↦ answer thrown logs st
              | some (result, st') ↦ finish_exchange logs result st'
            ]
    ]

    -- The handler after the rotation.
    unfoldable pub finish_rotation :
        List LogEvent → TokenRequestRefresh → RotationResult → OAuthStorage → Answer
    finish_rotation logs body (RotationResult.ok row new_token) st =
        elim (sign (access_token_claims app row.user_id row.client_id scope_mcp)) [
          | none ↦ answer thrown logs st
          | some access_token ↦
              answer
                (token_response (build_token_response_body app access_token new_token row.scope))
                (oauth_token_refreshed row.user_id row.client_id ∷ logs) st
        ]
    finish_rotation logs body failure st =
        let (reply, warnings) = handle_refresh_failure failure body in
        answer reply (warnings ++ logs) st

    unfoldable pub handle_refresh_token_grant :
        String → ℕ → TokenRequestRefresh → OAuthStorage → Answer
    handle_refresh_token_grant fresh now body st = elim (validate_refresh_preflight body st) [
      | replied reply ↦ answer reply [] st
      | passed logs ↦
          elim (rotate_refresh_token fresh
            (record {
              presented_token = body.refresh_token;
              expected_client_id = body.client_id;
              ttl_seconds = app.refresh_token_ttl_seconds;
              now = now;
            })
            st) [
              | none ↦ answer thrown logs st
              | some (result, st') ↦ finish_rotation logs body result st'
            ]
    ]

    -- The route: the grant type decides.
    unfoldable pub handle_token_request :
        (String → String) → String → ℕ → TokenRequest → OAuthStorage → Answer
    handle_token_request s256 fresh now (authorization_code body) st =
        handle_authorization_code_grant s256 fresh now body st
    handle_token_request s256 fresh now (refresh body) st =
        handle_refresh_token_grant fresh now body st
