-- ===== src/Routes/Authorize.antt =====
-- src/routes/oauth/authorize.ts: `GET /oauth/authorize`. The query is the one that the schema let
-- through, and the answer of the client resolver and the database after it are arguments, with the
-- random code and the times. `with_params` is `new URL` with `searchParams.set` for each parameter and
-- `toString`, and `parse_host` gives `host` and `hostname`; both are `none` where the URL does not parse.
pub mod Issued
pub mod Redirects
pub mod Live
pub mod Flow
use Prim.Native.String
use text.Mathlib.Text.{◌==◌}
use stellara.Prelude.{
  ℕ, Bool, not, ◌||◌, Option, none, some, List, [], ◌∷◌, ◌++◌, String, if◌then◌else◌, ◌⊎◌, inl, inr,
  get_or,
}
use stellara.Texts.{has}
use stellara.OAuth.Storage.{OAuthStorage}
use stellara.OAuth.Resource.{ResolvedClient, ResourceValidation, validate_resolved_client_resource}
use stellara.OAuth.ClientMetadata.{ClientMetadataError}
use stellara.OAuth.ClientMetadata
use stellara.OAuth.Codes.{IssueAuthCodeOptions, auth_code_ttl_seconds, issue_auth_code}
use stellara.OAuth.Session.{SessionManager, ResolveSessionResult, resolve_session}
use stellara.Routes.Token.{App, canonical_resource, scope_mcp}

pub record AuthorizeQuery : Type 0 where
  pub response_type : String
  pub client_id : String
  pub redirect_uri : String
  pub scope : String
  pub state : String
  pub code_challenge : String
  pub code_challenge_method : String
  pub resource : Option String

-- `LoginFormState` of src/oauth/login-form.ts: the query and what is displayed.
pub record LoginFormState : Type 0 where
  pub query : AuthorizeQuery
  pub client_name : String
  pub redirect_host : String
  pub localhost_redirect : Bool

-- The replies: the login form with its status and its message, the page with an error, a redirect,
-- the two answers on a lookup that was refused, and the exception that goes to the error handler.
pub data AuthorizeReply : Type 0 where
  login_page : ℕ → LoginFormState → Option String → AuthorizeReply
  error_page : String → AuthorizeReply
  redirected : String → AuthorizeReply
  lookup_limited : ℕ → AuthorizeReply
  lookup_unavailable thrown : AuthorizeReply

-- The log entries, which hold the hash of the client id in place of the client id itself.
pub data AuthorizeLog : Type 0 where
  oauth_code_issued : String → String → AuthorizeLog
  oauth_resource_legacy_default : String → AuthorizeLog

pub record AuthorizeAnswer : Type 0 where
  pub reply : AuthorizeReply
  pub logs : List AuthorizeLog
  pub storage : OAuthStorage

abbrev pub answer : AuthorizeReply → List AuthorizeLog → OAuthStorage → AuthorizeAnswer
answer reply logs storage = record { reply = reply; logs = logs; storage = storage }

-- What the resolver gave: the client, one of its errors, or any other exception, `none`.
abbrev pub Lookup : Type 0
Lookup = Option ClientMetadataError ⊎ ResolvedClient

pub data Binding : Type 0 where
  unbound : AuthorizeReply → Binding
  bound : List AuthorizeLog → Binding

unfoldable pub send_client_resolution_error : Option ClientMetadataError → String → AuthorizeReply
send_client_resolution_error none message = error_page message
send_client_resolution_error (some error) message = elim error.kind [
  | ClientMetadata.rate_limited ↦ lookup_limited (get_or error.retry_after_seconds 60)
  | ClientMetadata.temporarily_unavailable ↦ lookup_unavailable
  | ClientMetadata.invalid_client ↦ error_page message
]

-- `none` and the empty text are no session.
unfoldable pub read_session_cookie : Option String → Option String
read_session_cookie none = none
read_session_cookie (some raw) = if raw == "" then none else some raw

module _ (parse_host : String → Option (String × String)) where
  unfoldable pub to_form_state : AuthorizeQuery → ResolvedClient → Option LoginFormState
  to_form_state query client = elim (parse_host query.redirect_uri) [
    | none ↦ none
    | some (host, hostname) ↦ some (record {
      query = query;
      client_name = get_or client.client_name "An unnamed client";
      redirect_host = host;
      localhost_redirect = has hostname ("localhost" ∷ "127.0.0.1" ∷ "[::1]" ∷ []);
    })
  ]

  -- The login form with a status and a message.
  unfoldable pub send_login_form :
      ℕ → Option String → AuthorizeQuery → ResolvedClient → AuthorizeReply
  send_login_form status message query client = elim (to_form_state query client) [
    | none ↦ thrown
    | some form ↦ login_page status form message
  ]

module _ (app : App) where
  abbrev pub reply_params : AuthorizeQuery → String → String → List (String × String)
  reply_params query name value =
      (name, value) ∷ ("state", query.state) ∷ ("iss", app.public_base_url) ∷ []

  abbrev pub client_resource : AuthorizeQuery → ResolvedClient → ResourceValidation
  client_resource query client =
      validate_resolved_client_resource client query.resource (canonical_resource app)
        app.resource_required_since

  abbrev pub code_options : AuthorizeQuery → String → ℕ → IssueAuthCodeOptions
  code_options query user_id now = record {
    client_id = query.client_id;
    user_id = user_id;
    redirect_uri = query.redirect_uri;
    scope = query.scope;
    code_challenge = query.code_challenge;
    ttl_seconds = auth_code_ttl_seconds;
    now = now;
  }

module _ (with_params : String → List (String × String) → Option String) (app : App) where
  -- The redirect with the parameters, whether it carries a code or an error.
  unfoldable pub redirect_with : AuthorizeQuery → String → String → AuthorizeReply
  redirect_with query name value =
      elim (with_params query.redirect_uri (reply_params app query name value)) [
        | none ↦ thrown
        | some target ↦ redirected target
      ]

  unfoldable pub validate_resolved_binding : AuthorizeQuery → ResolvedClient → Binding
  validate_resolved_binding query client =
      if not (has query.redirect_uri client.redirect_uris)
      then unbound (error_page "redirect_uri not registered for this client")
      else if not (query.scope == scope_mcp)
      then unbound (redirect_with query "error" "invalid_scope")
      else elim (client_resource app query client) [
        | ResourceValidation.invalid _ ↦ unbound (redirect_with query "error" "invalid_request")
        | ResourceValidation.ok _ legacy ↦
            bound (if legacy then oauth_resource_legacy_default query.client_id ∷ [] else [])
      ]

  unfoldable pub issue_code_and_redirect :
      String → ℕ → AuthorizeQuery → String → List AuthorizeLog → OAuthStorage → AuthorizeAnswer
  issue_code_and_redirect fresh now query user_id logs st =
      elim (issue_auth_code fresh (code_options app query user_id now) st) [
        | none ↦ answer thrown logs st
        | some (code, st') ↦
            answer (redirect_with query "code" code)
              (oauth_code_issued query.client_id user_id ∷ logs) st'
      ]

  module _ (parse_host : String → Option (String × String)) (m : SessionManager) where
    -- The handler once the client is checked. The clock is read for the session and for the code.
    unfoldable pub continue_authorize :
        String
        → ℕ
        → ℕ
        → Option String
        → AuthorizeQuery
        → ResolvedClient
        → List AuthorizeLog
        → OAuthStorage
        → AuthorizeAnswer
    continue_authorize fresh now now' cookie query client logs st =
        elim (read_session_cookie cookie) [
          | none ↦ answer (send_login_form parse_host 200 none query client) logs st
          | some session_id ↦
              let (session, st') = resolve_session m session_id now st in
              elim session [
                | ResolveSessionResult.ok user_id _ _ ↦
                    issue_code_and_redirect fresh now' query user_id logs st'
                | _ ↦ answer (send_login_form parse_host 200 none query client) logs st'
              ]
        ]

    unfoldable pub handle_authorize :
        String → ℕ → ℕ → Lookup → Option String → AuthorizeQuery → OAuthStorage → AuthorizeAnswer
    handle_authorize fresh now now' (inl error) cookie query st =
        answer (send_client_resolution_error error "Unable to verify OAuth client") [] st
    handle_authorize fresh now now' (inr client) cookie query st =
        elim (validate_resolved_binding query client) [
          | unbound reply ↦ answer reply [] st
          | bound logs ↦ continue_authorize fresh now now' cookie query client logs st
        ]
