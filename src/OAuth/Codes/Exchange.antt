-- ===== src/OAuth/Codes/Exchange.antt =====
-- The exchange of authorization codes of oauth/codes.ts: who gets a token, and that a code is spent.
use text.Mathlib.Text.{◌==◌}
use stellara.Prelude.{
  ◌+◌, ◌*◌, ◌<◌, none, some, String, if◌then◌else◌, ◌≡◌, refl, arith, eq_iff, true,
}
use stellara.OAuth.Storage.{
  OAuthStorage, OAuthCodeRow, OAuthRefreshTokenRow, get_code, delete_code, get_refresh_token,
  insert_refresh_token,
}
use stellara.OAuth.Storage.Lookup.{get_code-code, get-delete_code, get-insert_refresh_token}
use stellara.OAuth.Tokens.{issue_refresh_token}
use stellara.OAuth.Codes.{
  ok, ExchangeAuthCodeOptions, safe_equal, redeem, check_pkce, exchange_row, exchange_auth_code,
}

codes_kept :
    (c : String) (row : OAuthRefreshTokenRow) (st : OAuthStorage) {st' : OAuthStorage}
    → insert_refresh_token row st ≡ some st'
    → get_code c st' ≡ get_code c st
unfolding insert_refresh_token get_code
codes_kept c row st h = ground arith

pub tokens_kept :
    (t c : String) (st : OAuthStorage)
    → get_refresh_token t (delete_code c st).1 ≡ get_refresh_token t st
unfolding get_refresh_token delete_code
tokens_kept t c st = refl

-- The row of the refresh token that an exchange inserts.
abbrev pub granted : String → ExchangeAuthCodeOptions → OAuthCodeRow → OAuthRefreshTokenRow
granted fresh o row = record {
  token = fresh;
  client_id = row.client_id;
  user_id = row.user_id;
  scope = row.scope;
  issued_at = o.now;
  expires_at = o.now + o.refresh_token_ttl_seconds * 1000;
  rotated_to = none;
}

module _ (fresh : String) (o : ExchangeAuthCodeOptions) (row : OAuthCodeRow) where
  pub redeem-ok :
      (st : OAuthStorage) {st' : OAuthStorage} (u c sc t : String)
      → redeem fresh o row st ≡ some (ok u c sc t, st')
      → (insert_refresh_token (granted fresh o row) (delete_code row.code st).1 ≡ some st')
        × (u ≡ row.user_id)
        × (c ≡ row.client_id)
        × (sc ≡ row.scope)
        × (t ≡ fresh)
  unfolding redeem issue_refresh_token
  redeem-ok st u c sc t h = ground arith

safe_equal-true : (a b : String) → safe_equal a b ≡ some true → b ≡ a
unfolding safe_equal
safe_equal-true a b h = ground (arith, eq_iff a b)

pub safe_equal_self : (a : String) → safe_equal a a ≡ some true
unfolding safe_equal
safe_equal_self a = ground (arith, eq_iff a a)

module _ (s256 : String → String) (fresh : String) (o : ExchangeAuthCodeOptions) where
  exchange_row-ok :
      (st : OAuthStorage) (row : OAuthCodeRow) {st' : OAuthStorage} (u c sc t : String)
      → exchange_row s256 fresh o row st ≡ some (ok u c sc t, st')
      → (o.now < row.expires_at)
        × (row.client_id ≡ o.client_id)
        × (row.redirect_uri ≡ o.redirect_uri)
        × (safe_equal (s256 o.code_verifier) row.code_challenge ≡ some true)
        × (redeem fresh o row st ≡ some (ok u c sc t, st'))
  unfolding exchange_row check_pkce
  exchange_row-ok st row u c sc t h =
      ground (arith, eq_iff row.client_id o.client_id, eq_iff row.redirect_uri o.redirect_uri)

  exchange-ok_row :
      (st : OAuthStorage) {st' : OAuthStorage} (u c sc t : String)
      → exchange_auth_code s256 fresh o st ≡ some (ok u c sc t, st')
      → (row : OAuthCodeRow) × (get_code o.code st ≡ some row)
        × (exchange_row s256 fresh o row st ≡ some (ok u c sc t, st'))
  unfolding exchange_auth_code
  exchange-ok_row st u c sc t h = ground arith

  -- Tokens are issued only for a stored code that is not expired, to the client and at the redirect
  -- URI that it is bound to, and to a verifier whose hash is the stored challenge; user, client and
  -- scope are those of the code.
  pub exchange-ok_only :
      (st : OAuthStorage) {st' : OAuthStorage} (u c sc t : String)
      → exchange_auth_code s256 fresh o st ≡ some (ok u c sc t, st')
      → (row : OAuthCodeRow) × (get_code o.code st ≡ some row)
        × (o.now < row.expires_at)
        × (row.client_id ≡ o.client_id)
        × (row.redirect_uri ≡ o.redirect_uri)
        × (row.code_challenge ≡ s256 o.code_verifier)
        × (u ≡ row.user_id)
        × (c ≡ row.client_id)
        × (sc ≡ row.scope)
  exchange-ok_only st u c sc t h =
      let (row, found, step) = exchange-ok_row st u c sc t h in
      let (live, client, redirect, equal, done) = exchange_row-ok st row u c sc t step in
      let (inserted, user, client', scope, token) = redeem-ok fresh o row st u c sc t done in
      (row, found, live, client, redirect, safe_equal-true _ _ equal, user, client', scope)

  -- A successful exchange deletes this code and no other, and adds this one refresh token, live and
  -- bound to the user, client and scope, and no other.
  pub exchange-ok_lookup :
      (st : OAuthStorage) {st' : OAuthStorage} (u c sc t code token : String)
      → exchange_auth_code s256 fresh o st ≡ some (ok u c sc t, st')
      → (get_code code st' ≡ (if o.code == code then none else get_code code st))
        × (get_refresh_token token st' ≡ (
            if t == token
            then some (record {
              token = t;
              client_id = c;
              user_id = u;
              scope = sc;
              issued_at = o.now;
              expires_at = o.now + o.refresh_token_ttl_seconds * 1000;
              rotated_to = none;
            })
            else get_refresh_token token st))
  exchange-ok_lookup st u c sc t code token h =
      let (row, found, step) = exchange-ok_row st u c sc t h in
      let (live, client, redirect, equal, done) = exchange_row-ok st row u c sc t step in
      let (inserted, user, client', scope, named) = redeem-ok fresh o row st u c sc t done in
      (
        ground (
          arith,
          get_code-code o.code st found,
          get-delete_code code st row.code,
          codes_kept code (granted fresh o row) (delete_code row.code st).1 inserted,
        ),
        ground (
          arith,
          user,
          client',
          scope,
          named,
          tokens_kept token row.code st,
          get-insert_refresh_token token _ (granted fresh o row) inserted,
        ),
      )
