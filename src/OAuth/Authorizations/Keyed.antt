-- ===== src/OAuth/Authorizations/Keyed.antt =====
-- The exchange of codes and the rotation of refresh tokens keep the primary keys apart.
use text.Mathlib.Text.{◌==◌}
use stellara.Prelude.{leb, ◌⊎◌, some, String, ◌≡◌, arith, Option-cases, Bool-cases, inl, inr, subst}
use stellara.OAuth.Storage.{
  OAuthStorage, OAuthCodeRow, get_code, delete_code, delete_refresh_token_chain,
  insert_refresh_token,
}
use stellara.OAuth.Storage.Invariant
use stellara.OAuth.Storage.Invariant.{
  IsWellFormed, execute, execute-IsWellFormed, insert_refresh_token-IsWellFormed,
}
use stellara.OAuth.Tokens.{issue_refresh_token}
use stellara.OAuth.Codes.{
  ExchangeResult, ExchangeAuthCodeOptions, redeem, check_pkce, exchange_row, exchange_auth_code,
  safe_equal,
}
use stellara.OAuth.Codes.Exchange.{granted}

pub delete_code-IsWellFormed :
    (code : String) {st : OAuthStorage} → IsWellFormed st → IsWellFormed (delete_code code st).1
unfolding execute
delete_code-IsWellFormed code w = execute-IsWellFormed (Invariant.delete_code code) w

pub delete_chain-IsWellFormed :
    (user client : String) {st : OAuthStorage}
    → IsWellFormed st
    → IsWellFormed (delete_refresh_token_chain user client st).1
unfolding execute
delete_chain-IsWellFormed user client w =
    execute-IsWellFormed (Invariant.delete_refresh_token_chain user client) w

module _ (fresh : String) (o : ExchangeAuthCodeOptions) {st st' : OAuthStorage}
    (result : ExchangeResult) (w : IsWellFormed st) where
  redeem-storage :
      (row : OAuthCodeRow)
      → redeem fresh o row st ≡ some (result, st')
      → insert_refresh_token (granted fresh o row) (delete_code row.code st).1 ≡ some st'
  unfolding redeem issue_refresh_token
  redeem-storage row h = ground arith

  redeem-IsWellFormed :
      (row : OAuthCodeRow) → redeem fresh o row st ≡ some (result, st') → IsWellFormed st'
  redeem-IsWellFormed row h =
      insert_refresh_token-IsWellFormed (granted fresh o row) (redeem-storage row h)
        (delete_code-IsWellFormed row.code w)

  kept : st ≡ st' → IsWellFormed st'
  kept e = subst IsWellFormed e w

  check_pkce-cases :
      (s256 : String → String) (row : OAuthCodeRow)
      → check_pkce s256 fresh o row st ≡ some (result, st')
      → (st ≡ st') ⊎ (redeem fresh o row st ≡ some (result, st'))
  unfolding check_pkce
  check_pkce-cases s256 row h =
      elim (Option-cases (safe_equal (s256 o.code_verifier) row.code_challenge)) [
        | inl e ↦ ground arith
        | inr (equal, e) ↦ elim (Bool-cases equal) [
          | inl equal_e ↦ inr (ground arith)
          | inr unequal ↦ inl (ground arith)
        ]
      ]

  exchange_row-cases :
      (s256 : String → String) (row : OAuthCodeRow)
      → exchange_row s256 fresh o row st ≡ some (result, st')
      → (st ≡ st')
        ⊎ ((delete_code row.code st).1 ≡ st')
        ⊎ (check_pkce s256 fresh o row st ≡ some (result, st'))
  unfolding exchange_row
  exchange_row-cases s256 row h = elim (Bool-cases (leb row.expires_at o.now)) [
    | inl over ↦ inr (inl (ground arith))
    | inr live ↦ elim (Bool-cases (row.client_id == o.client_id)) [
      | inl client ↦ elim (Bool-cases (row.redirect_uri == o.redirect_uri)) [
        | inl redirect ↦ inr (inr (ground arith))
        | inr other ↦ inl (ground arith)
      ]
      | inr other ↦ inl (ground arith)
    ]
  ]

  pub exchange-IsWellFormed :
      (s256 : String → String)
      → exchange_auth_code s256 fresh o st ≡ some (result, st')
      → IsWellFormed st'
  unfolding exchange_auth_code
  exchange-IsWellFormed s256 h = elim (Option-cases (get_code o.code st)) [
    | inl e ↦ kept (ground arith)
    | inr (row, e) ↦ elim (exchange_row-cases s256 row (ground arith)) [
      | inl same ↦ kept same
      | inr (inl deleted) ↦ subst IsWellFormed deleted (delete_code-IsWellFormed row.code w)
      | inr (inr checked) ↦ elim (check_pkce-cases s256 row checked) [
        | inl same ↦ kept same
        | inr redeemed ↦ redeem-IsWellFormed row redeemed
      ]
    ]
  ]
