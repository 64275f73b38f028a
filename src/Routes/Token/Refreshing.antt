-- ===== src/Routes/Token/Refreshing.antt =====
-- The refresh grant of routes/oauth/token.ts, alone and after a code grant.
use stellara.Prelude.{
  ℕ, ◌+◌, ◌*◌, ◌<◌, Option, true, if◌then◌else◌, none, some, [], ◌∷◌, String, ◌≡◌, ◌≢◌, inl, inr,
  Option-cases, refl, sym, ap, ◌∙◌, List, arith, eq_iff,
}
use stellara.Web.{Url}
use stellara.OAuth.Storage.{OAuthStorage, OAuthRefreshTokenRow, get_refresh_token, in_chain}
use stellara.OAuth.Resource.{validate_bound_token_resource, match_requested}
use stellara.OAuth.Storage.Invariant.{IsWellFormed}
use stellara.OAuth.Tokens.{
  RotationResult, ok, replay, expired, unknown_client, unknown, RotateOptions, rotate_refresh_token,
}
use stellara.OAuth.Tokens.Rotation.{rotate-total}
use stellara.OAuth.Tokens.Replay.{replay-revokes_chain}
use stellara.Routes.Token.{
  TokenRequestAuthCode, TokenRequestRefresh, App, AccessTokenClaims, TokenResponse, answer,
  LogEvent, oauth_refresh_replay_detected, token_response, oauth_error, replied, passed, scope_mcp,
  canonical_resource, bound_resource, emit_legacy_resource_log, preflight_own,
  validate_refresh_preflight, access_token_claims, build_token_response_body, finish_rotation,
  handle_refresh_failure, handle_refresh_token_grant, handle_authorization_code_grant,
}
use stellara.Routes.Token.Grants.{code_grant-only, Preflight-cases}

abbrev pub rotate_options : App → ℕ → TokenRequestRefresh → RotateOptions
rotate_options app now body = record {
  presented_token = body.refresh_token;
  expected_client_id = body.client_id;
  ttl_seconds = app.refresh_token_ttl_seconds;
  now = now;
}

-- A refresh request for the protected resource that does not ask for another scope.
abbrev pub plain_refresh : App → String → String → TokenRequestRefresh
plain_refresh app refresh_token client_id = record {
  refresh_token = refresh_token;
  client_id = client_id;
  scope = none;
  resource = some (canonical_resource app);
}

module _ (parse_url : String → Option Url) (to_lower_case : String → String) (app : App)
    (sign : AccessTokenClaims → Option String) where
  plain_refresh-passed :
      (t c : String) (st : OAuthStorage)
      → validate_refresh_preflight parse_url to_lower_case app (plain_refresh app t c) st
        ≡ passed []
  unfolding validate_refresh_preflight preflight_own bound_resource validate_bound_token_resource
      match_requested emit_legacy_resource_log
  plain_refresh-passed t c st =
      ground (arith, (eq_iff (canonical_resource app) (canonical_resource app)).1 refl)

  refresh_grant-live :
      (fresh : String) (now : ℕ) (t c a : String) (row : OAuthRefreshTokenRow) (st : OAuthStorage)
      → get_refresh_token t st ≡ some row
      → row.client_id ≡ c
      → row.rotated_to ≡ none
      → now < row.expires_at
      → get_refresh_token fresh st ≡ none
      → sign (access_token_claims app row.user_id row.client_id scope_mcp) ≡ some a
      → (handle_refresh_token_grant parse_url to_lower_case app sign fresh now
          (plain_refresh app t c)
          st).reply
        ≡ token_response (build_token_response_body app a fresh row.scope)
  unfolding handle_refresh_token_grant finish_rotation
  refresh_grant-live fresh now t c a row st found owner unused live free signed =
      let (s, rotated) =
        rotate-total fresh (rotate_options app now (plain_refresh app t c)) st row found owner
          unused live free in
      ground (arith, rotated, plain_refresh-passed t c st, signed)

  preflight-no_response :
      (body : TokenRequestRefresh) (st : OAuthStorage) (r : TokenResponse)
      → validate_refresh_preflight parse_url to_lower_case app body st ≢ replied (token_response r)
  unfolding validate_refresh_preflight preflight_own
  preflight-no_response body st r h =
      elim (Option-cases (get_refresh_token body.refresh_token st)) [
        | inl e ↦ ground arith
        | inr (row, e) ↦ ground arith
      ]

  finish_rotation-response :
      (logs : List LogEvent) (body : TokenRequestRefresh) (result : RotationResult)
      (st : OAuthStorage) (r : TokenResponse)
      → (finish_rotation parse_url to_lower_case app sign logs body result st).reply
        ≡ token_response r
      → (row : OAuthRefreshTokenRow) × (result ≡ ok row r.refresh_token)
        × ((finish_rotation parse_url to_lower_case app sign logs body result st).storage ≡ st)
  unfolding finish_rotation handle_refresh_failure build_token_response_body
  finish_rotation-response logs body (ok row n) st r h =
      elim (Option-cases (sign (access_token_claims app row.user_id row.client_id scope_mcp))) [
        | inl e ↦ ground arith
        | inr (a, e) ↦ (row, ground arith, ground arith)
      ]
  finish_rotation-response logs body (replay k) st r h = ground arith
  finish_rotation-response logs body expired st r h = ground arith
  finish_rotation-response logs body unknown_client st r h = ground arith
  finish_rotation-response logs body unknown st r h = ground arith

  refresh-response :
      (fresh : String) (now : ℕ) (body : TokenRequestRefresh) (st : OAuthStorage)
      (r : TokenResponse)
      → (handle_refresh_token_grant parse_url to_lower_case app sign fresh now body st).reply
        ≡ token_response r
      → (row : OAuthRefreshTokenRow) × (rotate_refresh_token fresh (rotate_options app now body) st
          ≡ some (
            ok row r.refresh_token,
            (handle_refresh_token_grant parse_url to_lower_case app sign fresh now body st).storage,
          ))
  unfolding handle_refresh_token_grant
  refresh-response fresh now body st r h =
      elim (Preflight-cases (validate_refresh_preflight parse_url to_lower_case app body st)) [
        | inl (reply, e) ↦ let no = preflight-no_response body st r in ground arith
        | inr (logs, e) ↦
            elim (Option-cases (rotate_refresh_token fresh (rotate_options app now body) st)) [
              | inl e' ↦ ground arith
              | inr ((result, st'), e') ↦
                  let (row, is_ok, kept) =
                    finish_rotation-response logs body result st' r (ground arith) in
                  (row, ground (arith, e', is_ok, kept))
            ]
      ]

module _ (parse_url : String → Option Url) (to_lower_case : String → String) (app : App) where
  -- A token pair from the code grant is refreshed: when the client of the code grant presents the
  -- refresh token for the protected resource before its lifetime is over, and the new random value
  -- is not taken, the answer is status 200 with the new refresh token and the scope of the first
  -- answer. Signing is taken not to fail.
  pub grant-refresh :
      (mint : AccessTokenClaims → String) (s256 : String → String) (fresh fresh' : String)
      (now now' : ℕ) (body : TokenRequestAuthCode) (st st' : OAuthStorage) (r : TokenResponse)
      → (handle_authorization_code_grant parse_url to_lower_case app
          (λ c. some (mint c))
          s256
          fresh
          now
          body
          st).reply
        ≡ token_response r
      → (handle_authorization_code_grant parse_url to_lower_case app
          (λ c. some (mint c))
          s256
          fresh
          now
          body
          st).storage
        ≡ st'
      → now' < now + app.refresh_token_ttl_seconds * 1000
      → get_refresh_token fresh' st' ≡ none
      → (access_token : String) × ((handle_refresh_token_grant parse_url to_lower_case app
            (λ c. some (mint c))
            fresh'
            now'
            (plain_refresh app r.refresh_token body.client_id)
            st').reply
          ≡ token_response (record {
            access_token = access_token;
            token_type = "Bearer";
            expires_in = app.access_token_ttl_seconds;
            refresh_token = fresh';
            scope = r.scope;
          }))
  unfolding build_token_response_body
  grant-refresh mint s256 fresh fresh' now now' body st st' r h h' live free =
      let (row, found, unexpired, client, redirect, challenge, scope, signed, spent, stored) =
        code_grant-only parse_url to_lower_case app (λ c. some (mint c)) s256 fresh now body st r
          h in
      let granted : get_refresh_token r.refresh_token st'
          ≡ some (record {
            token = r.refresh_token;
            client_id = row.client_id;
            user_id = row.user_id;
            scope = row.scope;
            issued_at = now;
            expires_at = now + app.refresh_token_ttl_seconds * 1000;
            rotated_to = none;
          }) =
        ap (get_refresh_token r.refresh_token) (sym h') ∙ stored in
      (
        mint (access_token_claims app row.user_id row.client_id scope_mcp),
        refresh_grant-live parse_url to_lower_case app (λ c. some (mint c)) fresh' now'
              r.refresh_token body.client_id
              (mint (access_token_claims app row.user_id row.client_id scope_mcp)) _ st' granted
              client refl live free refl
            ∙ ground (arith, scope),
      )

  -- A refresh token that was refreshed with status 200 is presented again by the same client for the
  -- protected resource, at whatever time, in a later well-formed database in which its row still
  -- stands as the refresh left it, whatever else has changed: the answer is status 400 as a replay,
  -- the token is gone, and of all refresh tokens exactly those of its user and client are deleted.
  -- The token that replaced it was stored as one of this user and client.
  pub refresh-replay :
      (sign sign' : AccessTokenClaims → Option String) (fresh fresh' : String) (now now' : ℕ)
      (body : TokenRequestRefresh) (st st' later : OAuthStorage) (r : TokenResponse)
      → IsWellFormed later
      → (handle_refresh_token_grant parse_url to_lower_case app sign fresh now body st).reply
        ≡ token_response r
      → (handle_refresh_token_grant parse_url to_lower_case app sign fresh now body st).storage
        ≡ st'
      → get_refresh_token body.refresh_token later ≡ get_refresh_token body.refresh_token st'
      → (user : String) × (next : OAuthRefreshTokenRow) × (st'' : OAuthStorage) × (warnings : List
          LogEvent)
        × (handle_refresh_token_grant parse_url to_lower_case app sign' fresh' now'
              (plain_refresh app body.refresh_token body.client_id)
              later
            ≡ answer
                (oauth_error 400 "invalid_grant" "Refresh token replay detected")
                warnings
                st'')
        × (get_refresh_token r.refresh_token st' ≡ some next)
        × (in_chain user body.client_id next ≡ true)
        × (get_refresh_token body.refresh_token st'' ≡ none)
        × ((t : String)
            → get_refresh_token t st'' ≡ elim (get_refresh_token t later) [
              | none ↦ none
              | some x ↦ if in_chain user body.client_id x then none else some x
            ])
  unfolding handle_refresh_token_grant finish_rotation handle_refresh_failure
  refresh-replay sign sign' fresh fresh' now now' body st st' later r w h h' stands =
      let (row, rotated) =
        refresh-response parse_url to_lower_case app sign fresh now body st r h in
      let again : TokenRequestRefresh = plain_refresh app body.refresh_token body.client_id in
      let (k, s, next, replayed, stored, chained, old_gone, rest) =
        replay-revokes_chain fresh fresh' (rotate_options app now body)
          (rotate_options app now' again) st st' later row r.refresh_token w
          (rotated ∙ ap (λ x. some (ok row r.refresh_token, x)) h') stands refl refl in
      (
        row.user_id,
        next,
        s,
        oauth_refresh_replay_detected body.client_id k ∷ [],
        ground (
          arith,
          replayed,
          plain_refresh-passed parse_url to_lower_case app sign' body.refresh_token body.client_id
              later,
        ),
        stored,
        chained,
        old_gone,
        rest,
      )
