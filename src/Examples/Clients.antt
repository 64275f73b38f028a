-- ===== src/Examples/Clients.antt =====
-- Registrations of a client.
use stellara.Prelude.{
  ◌≢◌, ◌⊎◌, length, ℕ, max, List, [], ◌∷◌, Option, none, some, String, ◌≡◌, refl,
}
use stellara.Web.{Url, Json, arr, texts}
use stellara.OAuth.Storage.{OAuthStorage, empty, get_client}
use stellara.Routes.Register.{
  app_error, thrown, RegisterAnswer, handle_register, created, oauth_client_registered,
}
use stellara.OAuth.Clients.Registering.{registered}
use stellara.OAuth.Clients.{
  invalid, valid, validate_redirect_uris, ClientRegistrationRequest, ClientRegistrationResponse,
  ClientRegistrar, consume_bucket, found, resolve_client,
}
use stellara.Routes.Register.Resolved.{handle_register-resolve}

abbrev parse_url : String → Option Url
parse_url s = some (record { protocol = "https:"; username = ""; password = ""; hostname = "c" })

abbrev to_lower_case : String → String
to_lower_case s = s

abbrev uris : List String
uris = "https://c/cb" ∷ []

abbrev stringify : List String → String
stringify ss = "[\"https://c/cb\"]"

abbrev parse_json : String → Option Json
parse_json s = some (arr (texts uris))

abbrev hash_client_id : String → String
hash_client_id s = s

abbrev body : ClientRegistrationRequest
body = record { client_name = some "C"; redirect_uris = uris }

abbrev client_id : String
client_id = "id1"

abbrev now : ℕ
now = 5000

abbrev now' : ℕ
now' = 5001

abbrev later : ℕ
later = 9000

abbrev ip : String
ip = "::1"

abbrev canonical : String
canonical = "https://s/mcp"

abbrev request : ClientRegistrationRequest
request = record { client_name = some "C"; redirect_uris = uris }

abbrev reg : ClientRegistrar
reg = record { buckets = []; max_per_hour = 10; resource_required_since = 6000 }

abbrev reg' : ClientRegistrar
reg' = record reg { buckets = (ip, record { count = 1; reset_at = 3605000 }) ∷ [] }

abbrev st : OAuthStorage
st = empty

abbrev st' : OAuthStorage
st' = record empty { oauth_clients = registered stringify client_id request now' 6000 ∷ [] }

abbrev response : ClientRegistrationResponse
response = record {
  client_id = client_id;
  client_id_issued_at = 5;
  client_name = some "C";
  redirect_uris = uris;
}

abbrev answered : RegisterAnswer
answered = handle_register parse_url stringify hash_client_id client_id now now' body ip (reg, st)

handle_register-resolve_example :
    ((response : ClientRegistrationResponse) × (answered.reply ≡ created response)
      × (answered.logs
          ≡ oauth_client_registered
              (hash_client_id client_id)
              response.client_name
              (length response.redirect_uris)
              ip
            ∷ [])
      × (validate_redirect_uris parse_url body.redirect_uris ≡ valid)
      × ((resolve_client parse_json response.client_id later answered.storage).0
          ≡ some (
              found response.client_id body.client_name
                (max now' reg.resource_required_since)
                body.redirect_uris)))
    ⊎ ((answered.storage ≡ st)
        × (answered.logs ≡ [])
        × (((reason : String) × (answered.reply ≡ app_error 400 "VALIDATION_ERROR" reason none)
              × (validate_redirect_uris parse_url body.redirect_uris ≡ invalid reason))
            ⊎ (((seconds : ℕ) × (answered.reply
                    ≡ app_error 429 "RATE_LIMITED" "Too many client registrations from this IP"
                        (some seconds))
                  × (validate_redirect_uris parse_url body.redirect_uris ≡ valid)
                  × ((consume_bucket reg.max_per_hour ip now reg.buckets).0 ≡ some seconds))
                ⊎ ((answered.reply ≡ thrown)
                    × (validate_redirect_uris parse_url body.redirect_uris ≡ valid)
                    × (get_client client_id st ≢ none)))))
handle_register-resolve_example =
    handle_register-resolve parse_url stringify hash_client_id client_id now now' body ip reg st
      parse_json later refl
