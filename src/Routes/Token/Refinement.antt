-- ===== src/Routes/Token/Refinement.antt =====
-- The token endpoint of routes/oauth/token.ts against the abstract machine of codes and tokens, one
-- request and a whole history of requests.
use stellara.Prelude.{
  ℕ, ◌*◌, Option, some, List, [], ◌∷◌, String, ◌≡◌, refl, ap, sym, inl, inr, arith, Option-cases,
  subst, ◌⊎◌,
}
use stellara.Web.{Url}
use stellara.OAuth.Storage.{OAuthStorage}
use stellara.OAuth.Storage.Invariant.{IsWellFormed}
use stellara.OAuth.Codes.{ExchangeResult, exchange_auth_code}
use stellara.OAuth.Tokens.{RotationResult, RotateOptions, rotate_refresh_token}
use stellara.OAuth.Tokens.Rotation.{rotate-ok_IsWellFormed}
use stellara.OAuth.Tokens.Replay.{rotate-refused}
use stellara.OAuth.Authorizations.{Move, idle, view}
use stellara.OAuth.Authorizations.Abstract.{Holds, Move-Holds}
use stellara.OAuth.Authorizations.Keyed.{exchange-IsWellFormed, delete_chain-IsWellFormed}
use stellara.OAuth.Authorizations.Refines.{exchange-Move, rotate-Move, rotate-replay_row}
use stellara.Routes.Token.{
  TokenRequestAuthCode, TokenRequestRefresh, TokenRequest, authorization_code, refresh, App,
  AccessTokenClaims, LogEvent, validate_code_resource, validate_refresh_preflight, finish_rotation,
  handle_authorization_code_grant, handle_refresh_token_grant, handle_token_request,
}
use stellara.Routes.Token.Grants.{exchange_options, Preflight-cases, finish_exchange-storage}
use stellara.Routes.Token.Refreshing.{rotate_options}

rotate-IsWellFormed :
    (fresh : String) (o : RotateOptions) {st st' : OAuthStorage} (result : RotationResult)
    → rotate_refresh_token fresh o st ≡ some (result, st')
    → IsWellFormed st
    → IsWellFormed st'
rotate-IsWellFormed fresh o {st} (RotationResult.ok r n) h w =
    rotate-ok_IsWellFormed fresh o st r n h w
rotate-IsWellFormed fresh o {st} (RotationResult.replay k) h w =
    let (row, next, found, used, gone) = rotate-replay_row fresh o st k h in
    subst IsWellFormed (sym gone) (delete_chain-IsWellFormed row.user_id row.client_id w)
rotate-IsWellFormed fresh o {st} RotationResult.expired h w =
    subst IsWellFormed (sym (rotate-refused fresh o st RotationResult.expired tt h)) w
rotate-IsWellFormed fresh o {st} RotationResult.unknown h w =
    subst IsWellFormed (sym (rotate-refused fresh o st RotationResult.unknown tt h)) w
rotate-IsWellFormed fresh o {st} RotationResult.unknown_client h w =
    subst IsWellFormed (sym (rotate-refused fresh o st RotationResult.unknown_client tt h)) w

-- One request with what it draws from the environment: the time and the random token.
pub record TokenCall : Type 0 where
  pub at : ℕ
  pub fresh : String
  pub request : TokenRequest

module _ (parse_url : String → Option Url) (to_lower_case : String → String) (app : App)
    (sign : AccessTokenClaims → Option String) (s256 : String → String) where
  finish_rotation-storage :
      (logs : List LogEvent) (body : TokenRequestRefresh) (result : RotationResult)
      (st : OAuthStorage)
      → (finish_rotation parse_url to_lower_case app sign logs body result st).storage ≡ st
  unfolding finish_rotation
  finish_rotation-storage logs body (RotationResult.ok row new) st = ground arith
  finish_rotation-storage logs body (RotationResult.replay k) st = refl
  finish_rotation-storage logs body RotationResult.expired st = refl
  finish_rotation-storage logs body RotationResult.unknown_client st = refl
  finish_rotation-storage logs body RotationResult.unknown st = refl

  -- The database after a request, by what the request did to it.
  code_grant-storage :
      (fresh : String) (now : ℕ) (body : TokenRequestAuthCode) (st : OAuthStorage)
      → ((handle_authorization_code_grant parse_url to_lower_case app sign s256 fresh now body
            st).storage
          ≡ st)
        ⊎ ((result : ExchangeResult) × (exchange_auth_code s256 fresh
                (exchange_options app now body)
                st
              ≡ some (
                result,
                (handle_authorization_code_grant parse_url to_lower_case app sign s256 fresh now
                    body st).storage,
              )))
  unfolding handle_authorization_code_grant
  code_grant-storage fresh now body st =
      elim (Preflight-cases (validate_code_resource parse_url to_lower_case app body st)) [
        | inl (reply, e) ↦ inl (ground arith)
        | inr (logs, e) ↦
            elim (Option-cases (exchange_auth_code s256 fresh (exchange_options app now body) st)) [
              | inl thrown_e ↦ inl (ground arith)
              | inr ((result, st'), done) ↦
                  let stays =
                    finish_exchange-storage parse_url to_lower_case app sign logs result st' in
                  inr (result, ground (arith, stays))
            ]
      ]

  refresh_grant-storage :
      (fresh : String) (now : ℕ) (body : TokenRequestRefresh) (st : OAuthStorage)
      → ((handle_refresh_token_grant parse_url to_lower_case app sign fresh now body st).storage
          ≡ st)
        ⊎ ((result : RotationResult) × (rotate_refresh_token fresh (rotate_options app now body) st
              ≡ some (
                result,
                (handle_refresh_token_grant parse_url to_lower_case app sign fresh now body
                    st).storage,
              )))
  unfolding handle_refresh_token_grant
  refresh_grant-storage fresh now body st =
      elim (Preflight-cases (validate_refresh_preflight parse_url to_lower_case app body st)) [
        | inl (reply, e) ↦ inl (ground arith)
        | inr (logs, e) ↦
            elim (Option-cases (rotate_refresh_token fresh (rotate_options app now body) st)) [
              | inl thrown_e ↦ inl (ground arith)
              | inr ((result, st'), done) ↦
                  let stays = finish_rotation-storage logs body result st' in
                  inr (result, ground (arith, stays))
            ]
      ]

  -- Every token request is one move of the abstract machine at its time: it changes nothing, or it
  -- drops one expired code, spends one live code, rotates one live token or revokes one chain.
  pub request-Move :
      (fresh : String) (now : ℕ) (request : TokenRequest) {st : OAuthStorage}
      → IsWellFormed st
      → Move now (app.refresh_token_ttl_seconds * 1000) (view st) (
          view
            (handle_token_request parse_url to_lower_case app sign s256 fresh now request
              st).storage)
  unfolding handle_token_request
  request-Move fresh now (authorization_code body) {st} w =
      elim (code_grant-storage fresh now body st) [
        | inl same ↦ idle (ap view same)
        | inr (result, done) ↦
            exchange-Move s256 fresh (exchange_options app now body) st result done
      ]
  request-Move fresh now (refresh body) {st} w = elim (refresh_grant-storage fresh now body st) [
    | inl same ↦ idle (ap view same)
    | inr (result, done) ↦ rotate-Move fresh (rotate_options app now body) st result w done
  ]

  request-IsWellFormed :
      (fresh : String) (now : ℕ) (request : TokenRequest) {st : OAuthStorage}
      → IsWellFormed st
      → IsWellFormed
          (handle_token_request parse_url to_lower_case app sign s256 fresh now request st).storage
  unfolding handle_token_request
  request-IsWellFormed fresh now (authorization_code body) {st} w =
      elim (code_grant-storage fresh now body st) [
        | inl same ↦ subst IsWellFormed (sym same) w
        | inr (result, done) ↦
            exchange-IsWellFormed fresh (exchange_options app now body) result w s256 done
      ]
  request-IsWellFormed fresh now (refresh body) {st} w =
      elim (refresh_grant-storage fresh now body st) [
        | inl same ↦ subst IsWellFormed (sym same) w
        | inr (result, done) ↦ rotate-IsWellFormed fresh (rotate_options app now body) result done w
      ]

  -- The database after a history of token requests.
  unfoldable pub run_requests : List TokenCall → OAuthStorage → OAuthStorage
  run_requests [] st = st
  run_requests (c ∷ cs) st =
      run_requests cs
        (handle_token_request parse_url to_lower_case app sign s256 c.fresh c.at c.request
          st).storage

  -- No history of token requests gains authority: if after it some code or refresh token stands for
  -- a user, a client and a scope, then one did before it.
  pub run_requests-Holds :
      (calls : List TokenCall) (user client scope : String) {st : OAuthStorage}
      → IsWellFormed st
      → Holds (view (run_requests calls st)) user client scope
      → Holds (view st) user client scope
  unfolding run_requests
  run_requests-Holds [] user client scope w h = h
  run_requests-Holds (c ∷ cs) user client scope w h =
      Move-Holds user client scope (request-Move c.fresh c.at c.request w)
        (run_requests-Holds cs user client scope (request-IsWellFormed c.fresh c.at c.request w) h)
