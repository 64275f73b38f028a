-- ===== src/Routes/Token/Grants.antt =====
-- The authorization-code grant of routes/oauth/token.ts, from the request to the reply.
use Prim.Native.String
use stellara.Prelude.{
  ℕ, ◌+◌, ◌*◌, ◌<◌, Option, none, some, String, ◌≡◌, refl, sym, ap, ◌∙◌, ◌⊎◌, inl, inr, arith,
  eq_iff, List, Option-cases,
}
use stellara.Web.{Url}
use stellara.OAuth.Storage.{OAuthStorage, OAuthCodeRow, get_code, get_refresh_token, delete_code}
use stellara.OAuth.Storage.Lookup.{get_code-code}
use stellara.OAuth.Resource.{ResourceValidation, invalid}
use stellara.OAuth.Codes.{
  ExchangeResult, client_mismatch, expired, ok, pkce_mismatch, redirect_mismatch, unknown,
  ExchangeAuthCodeOptions, redeem, check_pkce, exchange_row, exchange_auth_code,
}
use stellara.OAuth.Codes.Exchange.{exchange-ok_only, exchange-ok_lookup}
use stellara.OAuth.Codes.Flow.{exchange-mismatch}
use stellara.Routes.Token.{
  TokenRequestAuthCode, App, AccessTokenClaims, TokenResponse, token_response, oauth_error,
  LogEvent, Reply, Preflight, replied, passed, bound_resource, emit_legacy_resource_log,
  validate_code_resource, describe_exchange_failure, access_token_claims, build_token_response_body,
  finish_exchange, handle_authorization_code_grant,
}

exchange-expired :
    (s256 : String → String) (fresh : String) (o : ExchangeAuthCodeOptions) (st : OAuthStorage)
    {st' : OAuthStorage}
    → exchange_auth_code s256 fresh o st ≡ some (expired, st')
    → st' ≡ (delete_code o.code st).1
unfolding exchange_auth_code exchange_row check_pkce redeem
exchange-expired s256 fresh o st h = elim (Option-cases (get_code o.code st)) [
  | inl e ↦ ground arith
  | inr (row, e) ↦ ground (arith, get_code-code o.code st e)
]

abbrev pub exchange_options : App → ℕ → TokenRequestAuthCode → ExchangeAuthCodeOptions
exchange_options app now body = record {
  code = body.code;
  client_id = body.client_id;
  redirect_uri = body.redirect_uri;
  code_verifier = body.code_verifier;
  refresh_token_ttl_seconds = app.refresh_token_ttl_seconds;
  now = now;
}

pub Preflight-cases :
    (p : Preflight)
    → ((reply : Reply) × (p ≡ replied reply)) ⊎ ((logs : List LogEvent) × (p ≡ passed logs))
Preflight-cases (replied reply) = inl (reply, refl)
Preflight-cases (passed logs) = inr (logs, refl)

module _ (parse_url : String → Option Url) (to_lower_case : String → String) (app : App)
    (sign : AccessTokenClaims → Option String) where
  finish_exchange-response :
      (logs : List LogEvent) (result : ExchangeResult) (st : OAuthStorage) (r : TokenResponse)
      → (finish_exchange parse_url to_lower_case app sign logs result st).reply ≡ token_response r
      → (u c sc t a : String) × (result ≡ ok u c sc t)
        × (sign (access_token_claims app u c sc) ≡ some a)
        × (r ≡ build_token_response_body app a t sc)
        × ((finish_exchange parse_url to_lower_case app sign logs result st).storage ≡ st)
  unfolding finish_exchange
  finish_exchange-response logs (ok u c sc t) st r h =
      elim (Option-cases (sign (access_token_claims app u c sc))) [
        | inl e ↦ ground arith
        | inr (a, e) ↦ (u, c, sc, t, a, refl, e, ground arith, ground arith)
      ]
  finish_exchange-response logs expired st r h = ground arith
  finish_exchange-response logs client_mismatch st r h = ground arith
  finish_exchange-response logs redirect_mismatch st r h = ground arith
  finish_exchange-response logs pkce_mismatch st r h = ground arith
  finish_exchange-response logs unknown st r h = ground arith

  pub finish_exchange-storage :
      (logs : List LogEvent) (result : ExchangeResult) (st : OAuthStorage)
      → (finish_exchange parse_url to_lower_case app sign logs result st).storage ≡ st
  unfolding finish_exchange
  finish_exchange-storage logs (ok u c sc t) st =
      elim (Option-cases (sign (access_token_claims app u c sc))) [
        | inl e ↦ ground arith
        | inr (a, e) ↦ ground arith
      ]
  finish_exchange-storage logs expired st = refl
  finish_exchange-storage logs client_mismatch st = refl
  finish_exchange-storage logs redirect_mismatch st = refl
  finish_exchange-storage logs pkce_mismatch st = refl
  finish_exchange-storage logs unknown st = refl

  invalid_target :
      (body : TokenRequestAuthCode) (st : OAuthStorage) (reply : Reply)
      → validate_code_resource parse_url to_lower_case app body st ≡ replied reply
      → (reason : String) × (reply ≡ oauth_error 400 "invalid_target" reason)
  unfolding validate_code_resource
  invalid_target body st reply h =
      elim (bound_resource parse_url to_lower_case app st body.client_id body.resource)
          as (λ v.
            elim v [
              | invalid reason ↦ replied (oauth_error 400 "invalid_target" reason)
              | ResourceValidation.ok _ legacy ↦
                  passed (emit_legacy_resource_log body.client_id legacy)
            ]
              ≡ replied reply
            → (reason : String) × (reply ≡ oauth_error 400 "invalid_target" reason)) [
              | invalid reason ↦ λ e. (reason, ground arith)
              | ResourceValidation.ok _ legacy ↦ λ e. ground arith
            ]
        h

  grant-response :
      (s256 : String → String) (fresh : String) (now : ℕ) (body : TokenRequestAuthCode)
      (st : OAuthStorage) (r : TokenResponse)
      → (handle_authorization_code_grant parse_url to_lower_case app sign s256 fresh now body
          st).reply
        ≡ token_response r
      → (logs : List LogEvent) × (result : ExchangeResult) × (st' : OAuthStorage)
        × (validate_code_resource parse_url to_lower_case app body st ≡ passed logs)
        × (exchange_auth_code s256 fresh (exchange_options app now body) st ≡ some (result, st'))
        × (handle_authorization_code_grant parse_url to_lower_case app sign s256 fresh now body st
            ≡ finish_exchange parse_url to_lower_case app sign logs result st')
  unfolding handle_authorization_code_grant
  grant-response s256 fresh now body st r h =
      elim (Preflight-cases (validate_code_resource parse_url to_lower_case app body st)) [
        | inl (reply, e) ↦ let (reason, e') = invalid_target body st reply e in ground arith
        | inr (logs, e) ↦
            elim (Option-cases (exchange_auth_code s256 fresh (exchange_options app now body) st)) [
              | inl e' ↦ ground arith
              | inr ((result, st'), e') ↦ (logs, result, st', e, e', ground arith)
            ]
      ]

module _ (parse_url : String → Option Url) (to_lower_case : String → String) (app : App)
    (sign : AccessTokenClaims → Option String) (s256 : String → String) (fresh : String) (now : ℕ)
    (body : TokenRequestAuthCode) (st : OAuthStorage) where
  -- Status 200 is the answer only where the request holds a stored code that is not expired, with
  -- the client, the redirect URI and the verifier of that code. The access token is signed for this
  -- server, for the user, client and scope of the code; the code is gone, and the refresh token of
  -- the answer is stored for that user, client and scope.
  pub code_grant-only :
      (r : TokenResponse)
      → (handle_authorization_code_grant parse_url to_lower_case app sign s256 fresh now body
          st).reply
        ≡ token_response r
      → (row : OAuthCodeRow) × (get_code body.code st ≡ some row)
        × (now < row.expires_at)
        × (row.client_id ≡ body.client_id)
        × (row.redirect_uri ≡ body.redirect_uri)
        × (row.code_challenge ≡ s256 body.code_verifier)
        × (r.scope ≡ row.scope)
        × (sign (record {
          issuer = app.public_base_url;
          audience = String.◌++◌ app.public_base_url "/mcp";
          user_id = row.user_id;
          client_id = row.client_id;
          scope = row.scope;
          ttl_seconds = app.access_token_ttl_seconds;
        })
            ≡ some r.access_token)
        × (get_code body.code
              (handle_authorization_code_grant parse_url to_lower_case app sign s256 fresh now body
                st).storage
            ≡ none)
        × (get_refresh_token r.refresh_token
              (handle_authorization_code_grant parse_url to_lower_case app sign s256 fresh now body
                st).storage
            ≡ some (record {
              token = r.refresh_token;
              client_id = row.client_id;
              user_id = row.user_id;
              scope = row.scope;
              issued_at = now;
              expires_at = now + app.refresh_token_ttl_seconds * 1000;
              rotated_to = none;
            }))
  unfolding access_token_claims build_token_response_body
  code_grant-only r h =
      let (logs, result, st', passed_e, exchanged, final) =
        grant-response parse_url to_lower_case app sign s256 fresh now body st r h in
      let (u, c, sc, t, a, is_ok, signed, built, kept) =
        finish_exchange-response parse_url to_lower_case app sign logs result st' r
          (ap (λ x. x.reply) (sym final) ∙ h) in
      let exchanged_ok = exchanged ∙ ap (λ x. some (x, st')) is_ok in
      let o = exchange_options app now body in
      let (row, found, live, client, redirect, challenge, user, client', scope) =
        exchange-ok_only s256 fresh o st u c sc t exchanged_ok in
      let (gone, _) = exchange-ok_lookup s256 fresh o st u c sc t body.code t exchanged_ok in
      let stored = (exchange-ok_lookup s256 fresh o st u c sc t body.code t exchanged_ok).1 in
      let same_code = (eq_iff body.code body.code).1 refl in
      let same_token = (eq_iff t t).1 refl in
      (
        row,
        found,
        live,
        client,
        redirect,
        challenge,
        ground arith,
        ground (arith, signed, user, client', scope, built),
        ground (arith, gone, final, kept, same_code),
        ground (arith, stored, final, kept, same_token, user, client', scope, built),
      )

module _ (parse_url : String → Option Url) (to_lower_case : String → String) (app : App)
    (sign : AccessTokenClaims → Option String) (s256 : String → String) (fresh : String) (now : ℕ)
    (body : TokenRequestAuthCode) (st : OAuthStorage) where
  refused_exchange :
      (logs : List LogEvent) (result : ExchangeResult) (st' : OAuthStorage) (status : ℕ)
      (error description : String)
      → exchange_auth_code s256 fresh (exchange_options app now body) st ≡ some (result, st')
      → (finish_exchange parse_url to_lower_case app sign logs result st').reply
        ≡ oauth_error status error description
      → (status ≡ 400)
        × (error ≡ "invalid_grant")
        × ((st' ≡ st)
            ⊎ ((description ≡ "Authorization code expired") × (st' ≡ (delete_code body.code st).1)))
  unfolding finish_exchange describe_exchange_failure
  refused_exchange logs (ok u c sc t) st' status error description e h =
      elim (Option-cases (sign (access_token_claims app u c sc))) [
        | inl e' ↦ ground arith
        | inr (a, e') ↦ ground arith
      ]
  refused_exchange logs expired st' status error description e h =
      (ground arith, ground arith, inr (ground arith, exchange-expired s256 fresh _ st e))
  refused_exchange logs client_mismatch st' status error description e h =
      (ground arith, ground arith, inl (exchange-mismatch s256 fresh _ st client_mismatch tt e))
  refused_exchange logs redirect_mismatch st' status error description e h =
      (ground arith, ground arith, inl (exchange-mismatch s256 fresh _ st redirect_mismatch tt e))
  refused_exchange logs pkce_mismatch st' status error description e h =
      (ground arith, ground arith, inl (exchange-mismatch s256 fresh _ st pkce_mismatch tt e))
  refused_exchange logs unknown st' status error description e h =
      (ground arith, ground arith, inl (exchange-mismatch s256 fresh _ st unknown tt e))

  -- An OAuth error is answered with status 400 and as `invalid_target` or `invalid_grant`, and it
  -- leaves the database as it was, but that an expired code is deleted.
  pub code_grant-refused :
      (status : ℕ) (error description : String)
      → (handle_authorization_code_grant parse_url to_lower_case app sign s256 fresh now body
          st).reply
        ≡ oauth_error status error description
      → (status ≡ 400)
        × ((error ≡ "invalid_target") ⊎ (error ≡ "invalid_grant"))
        × (((handle_authorization_code_grant parse_url to_lower_case app sign s256 fresh now body
                st).storage
              ≡ st)
            ⊎ ((description ≡ "Authorization code expired")
                × ((handle_authorization_code_grant parse_url to_lower_case app sign s256 fresh now
                      body st).storage
                    ≡ (delete_code body.code st).1)))
  unfolding handle_authorization_code_grant
  code_grant-refused status error description h =
      elim (Preflight-cases (validate_code_resource parse_url to_lower_case app body st)) [
        | inl (reply, e) ↦
            let (reason, e') = invalid_target parse_url to_lower_case app sign body st reply e in
            (ground arith, inl (ground arith), inl (ground arith))
        | inr (logs, e) ↦
            elim (Option-cases (exchange_auth_code s256 fresh (exchange_options app now body) st)) [
              | inl e' ↦ ground arith
              | inr ((result, st'), e') ↦
                  let stays : (finish_exchange parse_url to_lower_case app sign logs result
                        st').storage
                      ≡ st' =
                    finish_exchange-storage parse_url to_lower_case app sign logs result st' in
                  let (code, kind, left) =
                    refused_exchange logs result st' status error description e' (ground arith) in
                  (
                    code,
                    inr kind,
                    elim left [
                      | inl same ↦ inl (ground (arith, same, stays))
                      | inr (why, deleted) ↦ inr (why, ground (arith, deleted, stays))
                    ],
                  )
            ]
      ]
