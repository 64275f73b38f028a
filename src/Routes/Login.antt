-- ===== src/Routes/Login.antt =====
-- src/routes/oauth/login.ts: `POST /oauth/login`. The form is the one that the schema let through, and
-- the answer of the client resolver and the database after it are arguments, with the random session
-- id and the times. `encode_query` is `toString` of `URLSearchParams`, `digest` the hash of a token.
pub mod Sessions
use Prim.Native.String
use text.Mathlib.Text.{◌==◌}
use stellara.Prelude.{
  ℕ, ◌-◌, ◌/◌, Bool, not, ◌||◌, Option, none, some, List, [], ◌∷◌, ◌++◌, String, if◌then◌else◌, inl,
  inr, get_or,
}
use stellara.Texts.{has}
use stellara.OAuth.Storage.{OAuthStorage}
use stellara.OAuth.Resource.{ResolvedClient, ResourceValidation}
use stellara.OAuth.ClientMetadata.{ClientMetadataError}
use stellara.OAuth.ClientMetadata
use stellara.OAuth.Session.{SessionManager, create_session}
use stellara.Auth.{resolve_static_token_constant_time}
use stellara.Routes.Token.{App, scope_mcp}
use stellara.Routes.Authorize.{
  AuthorizeQuery, LoginFormState, Lookup, to_form_state, client_resource,
}

pub record LoginForm : Type 0 where
  pub query : AuthorizeQuery
  pub token : String

-- What the handler reads of `app.config`.
pub record LoginConfig : Type 0 where
  pub tokens : List (String × String)
  pub revoked_tokens : List String
  pub is_production : Bool

-- The replies. `logged_in` is the redirect with its target and the cookie: the session id, its age in
-- seconds and whether it is secure; the cookie is always for http only, lax, and for `/oauth/`.
pub data LoginReply : Type 0 where
  form_error : LoginReply
  asked_again : LoginFormState → String → LoginReply
  logged_in : String → String → ℕ → Bool → LoginReply
  lookup_limited : ℕ → LoginReply
  lookup_unavailable thrown : LoginReply

pub data LoginLog : Type 0 where
  oauth_login_failed : String → LoginLog
  oauth_login_succeeded : String → String → LoginLog
  oauth_resource_legacy_default : String → LoginLog

pub record LoginAnswer : Type 0 where
  pub reply : LoginReply
  pub logs : List LoginLog
  pub storage : OAuthStorage

abbrev pub login_answer : LoginReply → List LoginLog → OAuthStorage → LoginAnswer
login_answer reply logs storage = record { reply = reply; logs = logs; storage = storage }

pub data Revalidation : Type 0 where
  refused : LoginReply → Revalidation
  valid : ResolvedClient → List LoginLog → Revalidation

unfoldable pub send_lookup_error : Option ClientMetadataError → LoginReply
send_lookup_error none = form_error
send_lookup_error (some error) = elim error.kind [
  | ClientMetadata.rate_limited ↦ lookup_limited (get_or error.retry_after_seconds 60)
  | ClientMetadata.temporarily_unavailable ↦ lookup_unavailable
  | ClientMetadata.invalid_client ↦ form_error
]

unfoldable pub build_authorize_url : (List (String × String) → String) → AuthorizeQuery → String
build_authorize_url encode_query query = String.◌++◌ "/oauth/authorize?" (
    encode_query (
      ("response_type", query.response_type)
      ∷ ("client_id", query.client_id)
      ∷ ("redirect_uri", query.redirect_uri)
      ∷ ("scope", query.scope)
      ∷ ("state", query.state)
      ∷ ("code_challenge", query.code_challenge)
      ∷ ("code_challenge_method", query.code_challenge_method)
      ∷ elim query.resource [ none ↦ [] | some resource ↦ ("resource", resource) ∷ [] ]))

unfoldable pub revalidate_form_state : App → Lookup → AuthorizeQuery → Revalidation
revalidate_form_state app (inl error) query = refused (send_lookup_error error)
revalidate_form_state app (inr client) query =
    if not (has query.redirect_uri client.redirect_uris) || not (query.scope == scope_mcp)
    then refused form_error
    else elim (client_resource app query client) [
      | ResourceValidation.invalid _ ↦ refused form_error
      | ResourceValidation.ok _ legacy ↦
          valid client (if legacy then oauth_resource_legacy_default query.client_id ∷ [] else [])
    ]

module _ (parse_host : String → Option (String × String)) where
  unfoldable pub render_login_again : AuthorizeQuery → ResolvedClient → LoginReply
  render_login_again query client = elim (to_form_state parse_host query client) [
    | none ↦ thrown
    | some form ↦ asked_again form "Invalid token. Please try again."
  ]

  module _ (encode_query : List (String × String) → String) (digest : String → String) (app : App)
      (config : LoginConfig) (m : SessionManager) where
    -- The session and its cookie, once the token is known. The clock is read for both.
    unfoldable pub log_in :
        String → ℕ → ℕ → AuthorizeQuery → String → List LoginLog → OAuthStorage → LoginAnswer
    log_in fresh now now' query user_id logs st = elim (create_session m fresh now user_id st) [
      | none ↦ login_answer thrown logs st
      | some ((session_id, expires_at), st') ↦
          login_answer
            (logged_in (build_authorize_url encode_query query) session_id
              ((expires_at - now') / 1000) config.is_production)
            (oauth_login_succeeded user_id query.client_id ∷ logs) st'
    ]

    unfoldable pub handle_login : String → ℕ → ℕ → Lookup → LoginForm → OAuthStorage → LoginAnswer
    handle_login fresh now now' lookup body st =
        elim (revalidate_form_state app lookup body.query) [
          | refused reply ↦ login_answer reply [] st
          | valid client logs ↦
              elim (resolve_static_token_constant_time digest body.token config.tokens
                config.revoked_tokens) [
                  | none ↦
                      login_answer (render_login_again body.query client)
                        (oauth_login_failed body.query.client_id ∷ logs) st
                  | some user_id ↦ log_in fresh now now' body.query user_id logs st
                ]
        ]
