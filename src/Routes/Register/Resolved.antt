-- ===== src/Routes/Register/Resolved.antt =====
-- What the register route promises its clients.
use stellara.Prelude.{
  ℕ, max, Option, none, some, List, [], ◌∷◌, String, length, ◌≡◌, ◌≢◌, refl, arith, inl, inr, ◌⊎◌,
}
use stellara.Web.{Url, Json, arr, texts}
use stellara.Sql.{insert}
use stellara.OAuth.Storage.{OAuthStorage, insert_client, get_client}
use stellara.OAuth.Clients.{
  ClientRegistrationRequest, ClientRegistrationResponse, ClientRegistrar, RegisterClientResult,
  invalid_redirect_uri, ok, rate_limited, register_client, validate_redirect_uris, valid, invalid,
  found, resolve_client, persist_and_shape, consume_bucket,
}
use stellara.OAuth.Clients.Registering.{register-refused, register-resolve, register-ok_inserted}
use stellara.Routes.Register.{
  RegisterAnswer, created, app_error, thrown, oauth_client_registered, handle_register,
}

Outcome-cases :
    (outcome : Option RegisterClientResult)
    → (outcome ≡ none)
      ⊎ (((reason : String) × (outcome ≡ some (invalid_redirect_uri reason)))
          ⊎ (((seconds : ℕ) × (outcome ≡ some (rate_limited seconds)))
              ⊎ ((response : ClientRegistrationResponse) × (outcome ≡ some (ok response)))))
Outcome-cases none = inl refl
Outcome-cases (some (invalid_redirect_uri reason)) = inr (inl (reason, refl))
Outcome-cases (some (rate_limited seconds)) = inr (inr (inl (seconds, refl)))
Outcome-cases (some (ok response)) = inr (inr (inr (response, refl)))

module _ (parse_url : String → Option Url) (stringify : List String → String)
    (hash_client_id : String → String) (client_id : String) (now now' : ℕ)
    (body : ClientRegistrationRequest) (ip : String) (reg : ClientRegistrar)
    (st : OAuthStorage) where
  abbrev answered : RegisterAnswer
  answered = handle_register parse_url stringify hash_client_id client_id now now' body ip (reg, st)

  abbrev outcome : Option RegisterClientResult
  outcome = (register_client parse_url stringify client_id now now' body ip (reg, st)).0

  outcome-invalid :
      (reason : String)
      → outcome ≡ some (invalid_redirect_uri reason)
      → validate_redirect_uris parse_url body.redirect_uris ≡ invalid reason
  unfolding register_client persist_and_shape
  outcome-invalid reason h = ground arith

  outcome-limited :
      (seconds : ℕ)
      → outcome ≡ some (rate_limited seconds)
      → (validate_redirect_uris parse_url body.redirect_uris ≡ valid)
        × ((consume_bucket reg.max_per_hour ip now reg.buckets).0 ≡ some seconds)
  unfolding register_client persist_and_shape
  outcome-limited seconds h = ground arith

  outcome-thrown :
      outcome ≡ none
      → (validate_redirect_uris parse_url body.redirect_uris ≡ valid)
        × (get_client client_id st ≢ none)
  unfolding register_client persist_and_shape insert_client insert get_client
  outcome-thrown h = ground arith

  -- The answer of status 201 has its one log entry with the number of the redirect URIs; every URI is
  -- valid then, and the client is found under the id of the answer with the name and the URIs of the
  -- request. Every other answer leaves the database and the log as they were: it is status 400 with
  -- the reason why a URI is invalid, status 429 with the seconds that the limit of the address says
  -- to wait, or the exception of an id that is taken, where all URIs are valid. The JSON parser is
  -- taken to read back the redirect URIs.
  pub handle_register-resolve :
      (parse_json : String → Option Json) (later : ℕ)
      → parse_json (stringify body.redirect_uris) ≡ some (arr (texts body.redirect_uris))
      → ((response : ClientRegistrationResponse) × (answered.reply ≡ created response)
          × (answered.logs
              ≡ oauth_client_registered
                  (hash_client_id client_id)
                  response.client_name
                  (length response.redirect_uris)
                  ip
                ∷ [])
          × (validate_redirect_uris parse_url body.redirect_uris ≡ valid)
          × ((resolve_client parse_json response.client_id later answered.storage).0
              ≡ some (
                  found response.client_id body.client_name
                    (max now' reg.resource_required_since)
                    body.redirect_uris)))
        ⊎ ((answered.storage ≡ st)
            × (answered.logs ≡ [])
            × (((reason : String) × (answered.reply ≡ app_error 400 "VALIDATION_ERROR" reason none)
                  × (validate_redirect_uris parse_url body.redirect_uris ≡ invalid reason))
                ⊎ (((seconds : ℕ) × (answered.reply
                        ≡ app_error 429 "RATE_LIMITED" "Too many client registrations from this IP"
                            (some seconds))
                      × (validate_redirect_uris parse_url body.redirect_uris ≡ valid)
                      × ((consume_bucket reg.max_per_hour ip now reg.buckets).0 ≡ some seconds))
                    ⊎ ((answered.reply ≡ thrown)
                        × (validate_redirect_uris parse_url body.redirect_uris ≡ valid)
                        × (get_client client_id st ≢ none)))))
  unfolding handle_register
  handle_register-resolve parse_json later parsed =
      let run = register_client parse_url stringify client_id now now' body ip (reg, st) in
      elim (Outcome-cases run.0) [
        | inl e ↦
            let kept =
              register-refused parse_url stringify client_id now now' body ip reg st none run.1.0
                run.1.1 tt (ground arith) in
            let (uris, taken) = outcome-thrown e in
            inr (ground arith, ground arith, inr (inr (ground arith, uris, taken)))
        | inr (inl (reason, e)) ↦
            let kept =
              register-refused parse_url stringify client_id now now' body ip reg st
                (some (invalid_redirect_uri reason)) run.1.0 run.1.1 tt (ground arith) in
            inr (ground arith, ground arith, inl (reason, ground arith, outcome-invalid reason e))
        | inr (inr (inl (seconds, e))) ↦
            let kept =
              register-refused parse_url stringify client_id now now' body ip reg st
                (some (rate_limited seconds)) run.1.0 run.1.1 tt (ground arith) in
            let (uris, limited) = outcome-limited seconds e in
            inr (ground arith, ground arith, inr (inl (seconds, ground arith, uris, limited)))
        | inr (inr (inr (response, e))) ↦
            let made =
              register-ok_inserted parse_url stringify client_id now now' body ip reg st response
                run.1.0 run.1.1 (ground arith) in
            let resolved =
              register-resolve parse_url stringify client_id now now' body ip reg st parse_json
                later response run.1.0 run.1.1 parsed (ground arith) in
            inl (response, ground arith, ground (arith, made.1), made.2, ground arith)
      ]
