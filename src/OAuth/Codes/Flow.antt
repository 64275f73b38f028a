-- ===== src/OAuth/Codes/Flow.antt =====
-- Codes of oauth/codes.ts over time: issue and exchange, single use, and the refusals.
use Prim.Native.String.{len}
use stellara.Prelude.{
  ◌+◌, ◌*◌, ◌<◌, none, some, String, ◌≡◌, ◌≢◌, arith, eq_iff, List, All, ◌∙◌, sym,
}
use stellara.OAuth.Storage.{
  OAuthStorage, OAuthCodeRow, get_code, delete_code, insert_code, get_refresh_token,
}
use stellara.OAuth.Storage.Lookup.{get-insert_code, insert_refresh_token-total}
use stellara.OAuth.Storage.Invariant.{Statement, run}
use stellara.OAuth.Storage.Absence.{Spares, run-absent}
use stellara.OAuth.Tokens.{issue_refresh_token}
use stellara.OAuth.Codes.{
  IssueAuthCodeOptions, code_row, issue_auth_code, ExchangeResult, client_mismatch, expired, ok,
  pkce_mismatch, redirect_mismatch, unknown, ExchangeAuthCodeOptions, utf16_length, safe_equal,
  redeem, check_pkce, exchange_row, exchange_auth_code,
}
use stellara.OAuth.Codes.Exchange.{exchange-ok_lookup, safe_equal_self, granted, tokens_kept}

module _ (s256 : String → String) where
  -- A code is spent by its exchange: after any further history of statements that does not insert
  -- the same code again, every exchange of it is refused as unknown and changes nothing.
  pub exchange_once :
      (fresh fresh' : String) (o o' : ExchangeAuthCodeOptions) (st st' : OAuthStorage)
      (u c sc t : String) (ss : List Statement)
      → exchange_auth_code s256 fresh o st ≡ some (ok u c sc t, st')
      → All (Spares o.code) ss
      → o'.code ≡ o.code
      → exchange_auth_code s256 fresh' o' (run ss st') ≡ some (unknown, run ss st')
  unfolding exchange_auth_code
  exchange_once fresh fresh' o o' st st' u c sc t ss h spares same =
      let spent = (exchange-ok_lookup s256 fresh o st u c sc t o.code t h).0 in
      let gone = run-absent o.code ss st' spares (ground (arith, spent, eq_iff o.code o.code)) in
      rw (same, gone, exchange_auth_code)

  -- The outcomes that reject the request without looking at the time.
  abbrev pub IsMismatch : ExchangeResult → Type 0
  IsMismatch (ok u c sc t) = ⊥
  IsMismatch expired = ⊥
  IsMismatch _ = Unit

  -- An unknown code, a wrong client, a wrong redirect URI and a wrong verifier leave the database as
  -- it was, so the legitimate client can still redeem the code.
  pub exchange-mismatch :
      (fresh : String) (o : ExchangeAuthCodeOptions) (st : OAuthStorage) (result : ExchangeResult)
      {st' : OAuthStorage}
      → IsMismatch result
      → exchange_auth_code s256 fresh o st ≡ some (result, st')
      → st' ≡ st
  unfolding exchange_auth_code exchange_row check_pkce redeem
  exchange-mismatch fresh o st unknown m h = ground arith
  exchange-mismatch fresh o st client_mismatch m h = ground arith
  exchange-mismatch fresh o st redirect_mismatch m h = ground arith
  exchange-mismatch fresh o st pkce_mismatch m h = ground arith
  exchange-mismatch fresh o st _ m h = absurd m

  -- A stored code is redeemed by its client with the right redirect URI and verifier while it lives,
  -- provided that the random refresh token is not taken.
  pub exchange-total :
      (fresh : String) (o : ExchangeAuthCodeOptions) (st : OAuthStorage) (row : OAuthCodeRow)
      → get_code o.code st ≡ some row
      → o.now < row.expires_at
      → row.client_id ≡ o.client_id
      → row.redirect_uri ≡ o.redirect_uri
      → row.code_challenge ≡ s256 o.code_verifier
      → get_refresh_token fresh st ≡ none
      → (st' : OAuthStorage) × (exchange_auth_code s256 fresh o st
          ≡ some (ok row.user_id row.client_id row.scope fresh, st'))
  unfolding exchange_auth_code exchange_row check_pkce redeem issue_refresh_token
  exchange-total fresh o st row found live client redirect challenge free =
      let (st', inserted) =
        insert_refresh_token-total (delete_code row.code st).1 (granted fresh o row)
          (tokens_kept fresh row.code st ∙ free) in
      (
        st',
        ground (
          arith,
          eq_iff row.client_id o.client_id,
          eq_iff row.redirect_uri o.redirect_uri,
          safe_equal_self row.code_challenge,
          inserted,
        ),
      )

  -- A code that is issued for a challenge is redeemed, before its lifetime is over, by the same
  -- client with the same redirect URI and a verifier with that challenge; the user and the scope of
  -- the answer are those that it was issued for.
  pub issue-exchange :
      (code fresh : String) (i : IssueAuthCodeOptions) (o : ExchangeAuthCodeOptions)
      (st st' : OAuthStorage)
      → issue_auth_code code i st ≡ some (code, st')
      → o.code ≡ code
      → o.client_id ≡ i.client_id
      → o.redirect_uri ≡ i.redirect_uri
      → s256 o.code_verifier ≡ i.code_challenge
      → o.now < i.now + i.ttl_seconds * 1000
      → get_refresh_token fresh st' ≡ none
      → (st'' : OAuthStorage) × (exchange_auth_code s256 fresh o st'
          ≡ some (ok i.user_id i.client_id i.scope fresh, st''))
  unfolding issue_auth_code
  issue-exchange code fresh i o st st' h same client redirect challenge live free =
      let inserted : insert_code (code_row code i) st ≡ some st' = ground arith in
      exchange-total fresh o st' (code_row code i)
        (rw same
          (ground (arith, get-insert_code code st (code_row code i) inserted, eq_iff code code)))
        live (sym client) (sym redirect) (sym challenge) free

-- A live code of this client and redirect URI whose challenge has as many UTF-16 units as the hash
-- but another number of UTF-8 bytes makes the exchange throw instead of answering `pkce_mismatch`.
pub exchange_throws :
    (s256 : String → String) (fresh : String) (o : ExchangeAuthCodeOptions) (st : OAuthStorage)
    (row : OAuthCodeRow)
    → get_code o.code st ≡ some row
    → o.now < row.expires_at
    → row.client_id ≡ o.client_id
    → row.redirect_uri ≡ o.redirect_uri
    → utf16_length (s256 o.code_verifier) ≡ utf16_length row.code_challenge
    → len (s256 o.code_verifier) ≢ len row.code_challenge
    → exchange_auth_code s256 fresh o st ≡ none
unfolding exchange_auth_code exchange_row check_pkce safe_equal
exchange_throws s256 fresh o st row found live client redirect units bytes =
    ground (arith, eq_iff row.client_id o.client_id, eq_iff row.redirect_uri o.redirect_uri)
