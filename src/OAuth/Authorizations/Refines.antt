-- ===== src/OAuth/Authorizations/Refines.antt =====
-- The exchange of codes and the rotation of refresh tokens are moves of the abstract machine.
use stellara.Prelude.{ℕ, ◌*◌, ◌≤◌, some, String, ◌≡◌, ap, ◌∙◌, arith, Option-cases, inl, inr}
use stellara.OAuth.Storage.{
  OAuthStorage, OAuthCodeRow, OAuthRefreshTokenRow, get_code, delete_code, get_refresh_token,
  delete_refresh_token_chain, insert_refresh_token, mark_refresh_token_rotated,
}
use stellara.OAuth.Storage.Lookup.{get_code-code, get-delete_code, get-delete_refresh_token_chain}
use stellara.OAuth.Storage.Invariant.{IsWellFormed}
use stellara.OAuth.Tokens.{
  RotateOptions, RotationResult, rotate_live, rotate_row, rotate_refresh_token,
}
use stellara.OAuth.Tokens.Rotation.{rotate-ok_only, rotate-ok_lookup}
use stellara.OAuth.Tokens.Replay.{rotate-refused}
use stellara.OAuth.Codes.{
  ExchangeResult, ExchangeAuthCodeOptions, redeem, check_pkce, exchange_row, exchange_auth_code,
}
use stellara.OAuth.Codes.Exchange.{exchange-ok_only, exchange-ok_lookup, tokens_kept}
use stellara.OAuth.Codes.Flow.{exchange-mismatch}
use stellara.OAuth.Authorizations
use stellara.OAuth.Authorizations.{Move, view}

exchange-expired_row :
    (s256 : String → String) (fresh : String) (o : ExchangeAuthCodeOptions) (st : OAuthStorage)
    {st' : OAuthStorage}
    → exchange_auth_code s256 fresh o st ≡ some (ExchangeResult.expired, st')
    → (row : OAuthCodeRow) × (get_code o.code st ≡ some row)
      × (row.expires_at ≤ o.now)
      × (st' ≡ (delete_code o.code st).1)
unfolding exchange_auth_code exchange_row check_pkce redeem
exchange-expired_row s256 fresh o st h = elim (Option-cases (get_code o.code st)) [
  | inl e ↦ ground arith
  | inr (row, e) ↦
      (row, e, ground (arith, get_code-code o.code st e), ground (arith, get_code-code o.code st e))
]

-- Every outcome of an exchange is a move.
pub exchange-Move :
    (s256 : String → String) (fresh : String) (o : ExchangeAuthCodeOptions) (st : OAuthStorage)
    (result : ExchangeResult) {st' : OAuthStorage}
    → exchange_auth_code s256 fresh o st ≡ some (result, st')
    → Move o.now (o.refresh_token_ttl_seconds * 1000) (view st) (view st')
exchange-Move s256 fresh o st (ExchangeResult.ok u c sc t) {st'} h =
    let (row, found, live, client, redirect, challenge, user, client', scope) =
      exchange-ok_only s256 fresh o st u c sc t h in
    let looked =
      λ (code token : String). exchange-ok_lookup s256 fresh o st u c sc t code token h in
    Authorizations.redeem o.code t row found live (λ k. (looked k t).0)
      (λ k. ground (arith, (looked o.code k).1, user, client', scope))
exchange-Move s256 fresh o st ExchangeResult.expired h =
    let (row, found, over, gone) = exchange-expired_row s256 fresh o st h in
    Authorizations.expire o.code row found over
      (λ c. ap (get_code c) gone ∙ get-delete_code c st o.code)
      (λ t. ap (get_refresh_token t) gone ∙ tokens_kept t o.code st)
exchange-Move s256 fresh o st ExchangeResult.client_mismatch h =
    Authorizations.idle
      (ap view (exchange-mismatch s256 fresh o st ExchangeResult.client_mismatch tt h))
exchange-Move s256 fresh o st ExchangeResult.redirect_mismatch h =
    Authorizations.idle
      (ap view (exchange-mismatch s256 fresh o st ExchangeResult.redirect_mismatch tt h))
exchange-Move s256 fresh o st ExchangeResult.pkce_mismatch h =
    Authorizations.idle
      (ap view (exchange-mismatch s256 fresh o st ExchangeResult.pkce_mismatch tt h))
exchange-Move s256 fresh o st ExchangeResult.unknown h =
    Authorizations.idle (ap view (exchange-mismatch s256 fresh o st ExchangeResult.unknown tt h))

module _ (new_token : String) (o : RotateOptions) (st : OAuthStorage) where
  pub rotate-replay_row :
      (k : ℕ) {st' : OAuthStorage}
      → rotate_refresh_token new_token o st ≡ some (RotationResult.replay k, st')
      → (row : OAuthRefreshTokenRow) × (next : String) × (get_refresh_token o.presented_token st
          ≡ some row)
        × (row.rotated_to ≡ some next)
        × (st' ≡ (delete_refresh_token_chain row.user_id row.client_id st).1)
  unfolding rotate_refresh_token rotate_row rotate_live
  rotate-replay_row k h = elim (Option-cases (get_refresh_token o.presented_token st)) [
    | inl e ↦ ground arith
    | inr (row, e) ↦ elim (Option-cases row.rotated_to) [
      | inl unused ↦ ground arith
      | inr (next, used) ↦ (row, next, e, used, ground arith)
    ]
  ]

  rotate-codes_kept :
      (result : RotationResult) (c : String) {st' : OAuthStorage}
      → rotate_refresh_token new_token o st ≡ some (result, st')
      → get_code c st' ≡ get_code c st
  unfolding rotate_refresh_token rotate_row rotate_live get_code insert_refresh_token
      mark_refresh_token_rotated delete_refresh_token_chain
  rotate-codes_kept result c h = ground arith

  -- Every outcome of a rotation is a move.
  pub rotate-Move :
      (result : RotationResult) {st' : OAuthStorage}
      → IsWellFormed st
      → rotate_refresh_token new_token o st ≡ some (result, st')
      → Move o.now (o.ttl_seconds * 1000) (view st) (view st')
  rotate-Move (RotationResult.ok r n) w h =
      let (found, owner, unused, live, named) = rotate-ok_only new_token o st r n h in
      Authorizations.rotate o.presented_token n r found unused live
        (λ c. rotate-codes_kept (RotationResult.ok r n) c h)
        (λ t. rotate-ok_lookup new_token o st r n t h)
  rotate-Move (RotationResult.replay k) w h =
      let (row, next, found, used, gone) = rotate-replay_row k h in
      Authorizations.revoke o.presented_token next row found used
        (λ c. rotate-codes_kept (RotationResult.replay k) c h)
        (λ t.
          ap (get_refresh_token t) gone
          ∙ get-delete_refresh_token_chain t st row.user_id row.client_id w.tokens_keyed)
  rotate-Move RotationResult.expired w h =
      Authorizations.idle (ap view (rotate-refused new_token o st RotationResult.expired tt h))
  rotate-Move RotationResult.unknown w h =
      Authorizations.idle (ap view (rotate-refused new_token o st RotationResult.unknown tt h))
  rotate-Move RotationResult.unknown_client w h =
      Authorizations.idle
        (ap view (rotate-refused new_token o st RotationResult.unknown_client tt h))
