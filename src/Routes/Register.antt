-- ===== src/Routes/Register.antt =====
-- src/routes/oauth/register.ts: `POST /oauth/register`. The body is the one that the schema let
-- through; `hash_client_id` is the digest for the log.
pub mod Resolved
use stellara.Prelude.{ℕ, Option, none, some, List, [], ◌∷◌, String, length}
use stellara.Web.{Url}
use stellara.OAuth.Storage.{OAuthStorage}
use stellara.OAuth.Clients.{
  ClientRegistrationRequest, ClientRegistrationResponse, ClientRegistrar, invalid_redirect_uri, ok,
  rate_limited, register_client,
}

-- The reply: status 201 with the client, an error with its status, code and message and with the
-- seconds of the header `retry-after`, or the exception that goes to the error handler.
pub data RegisterReply : Type 0 where
  created : ClientRegistrationResponse → RegisterReply
  app_error : ℕ → String → String → Option ℕ → RegisterReply
  thrown : RegisterReply

-- The log entry: the digest of the client id, the name, the number of redirect URIs, the address.
pub data RegisterLog : Type 0 where
  oauth_client_registered : String → Option String → ℕ → String → RegisterLog

pub record RegisterAnswer : Type 0 where
  pub reply : RegisterReply
  pub logs : List RegisterLog
  pub registrar : ClientRegistrar
  pub storage : OAuthStorage

abbrev pub register_answer :
    RegisterReply → List RegisterLog → ClientRegistrar × OAuthStorage → RegisterAnswer
register_answer reply logs (registrar, storage) = record {
  reply = reply;
  logs = logs;
  registrar = registrar;
  storage = storage;
}

unfoldable pub handle_register :
    (String → Option Url)
    → (List String → String)
    → (String → String)
    → String
    → ℕ
    → ℕ
    → ClientRegistrationRequest
    → String
    → ClientRegistrar × OAuthStorage
    → RegisterAnswer
handle_register parse_url stringify hash_client_id client_id now now' body ip state =
    let (outcome, state') = register_client parse_url stringify client_id now now' body ip state in
    elim outcome [
      | none ↦ register_answer thrown [] state'
      | some (invalid_redirect_uri reason) ↦
          register_answer (app_error 400 "VALIDATION_ERROR" reason none) [] state'
      | some (rate_limited seconds) ↦
          register_answer
            (app_error 429 "RATE_LIMITED" "Too many client registrations from this IP"
              (some seconds))
            [] state'
      | some (ok response) ↦
          register_answer (created response)
            (oauth_client_registered (hash_client_id response.client_id) response.client_name
                (length response.redirect_uris) ip
              ∷ [])
            state'
    ]
