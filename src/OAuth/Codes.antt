-- ===== src/OAuth/Codes.antt =====
-- src/oauth/codes.ts: issue and exchange of authorization codes. SHA-256 in base64url is the
-- parameter `s256` of the exchange; random values and the time are arguments.
pub mod Exchange
pub mod Flow
use Prim.Native.Char.{code}
use Prim.Native.String.{len}
use text.Mathlib.Text.{◌==◌}
use stellara.Prelude.{
  ℕ, ◌+◌, ◌*◌, Bool, false, Option, none, some, String, if◌then◌else◌, leb, ltb, ◌==ℕ◌, not,
}
use stellara.OAuth.Storage.{OAuthStorage, OAuthCodeRow, get_code, insert_code, delete_code}
use stellara.OAuth.Tokens.{issue_refresh_token}

pub record IssueAuthCodeOptions : Type 0 where
  pub client_id : String
  pub user_id : String
  pub redirect_uri : String
  pub scope : String
  pub code_challenge : String
  pub ttl_seconds : ℕ
  pub now : ℕ

-- The default of `ttlSeconds`.
abbrev pub auth_code_ttl_seconds : ℕ
auth_code_ttl_seconds = 600

abbrev pub code_row : String → IssueAuthCodeOptions → OAuthCodeRow
code_row code o = record {
  code = code;
  client_id = o.client_id;
  user_id = o.user_id;
  code_challenge = o.code_challenge;
  redirect_uri = o.redirect_uri;
  scope = o.scope;
  expires_at = o.now + o.ttl_seconds * 1000;
}

unfoldable pub issue_auth_code :
    String → IssueAuthCodeOptions → OAuthStorage → Option (String × OAuthStorage)
issue_auth_code code o st = elim (insert_code (code_row code o) st) [
  | none ↦ none
  | some st' ↦ some (code, st')
]

-- `kind: "ok"` carries the user, the client, the scope and the refresh token.
pub data ExchangeResult : Type 0 where
  client_mismatch : ExchangeResult
  expired : ExchangeResult
  ok : String → String → String → String → ExchangeResult
  pkce_mismatch : ExchangeResult
  redirect_mismatch : ExchangeResult
  unknown : ExchangeResult

pub record ExchangeAuthCodeOptions : Type 0 where
  pub code : String
  pub client_id : String
  pub redirect_uri : String
  pub code_verifier : String
  pub refresh_token_ttl_seconds : ℕ
  pub now : ℕ

-- `length` of a JavaScript string: its UTF-16 code units.
abbrev pub utf16_length : String → ℕ
utf16_length String.[] = 0
utf16_length (String.◌∷◌ c s) = (if ltb (code c) 0x10000 then 1 else 2) + utf16_length s

-- `timingSafeEqual` throws on buffers of different sizes, and the buffers hold UTF-8.
unfoldable pub safe_equal : String → String → Option Bool
safe_equal a b =
    if not (utf16_length a ==ℕ utf16_length b)
    then some false
    else if len a ==ℕ len b
    then some (a == b)
    else none

-- The transaction after all checks.
unfoldable pub redeem :
    String
    → ExchangeAuthCodeOptions
    → OAuthCodeRow
    → OAuthStorage
    → Option (ExchangeResult × OAuthStorage)
redeem fresh o row st =
    elim (issue_refresh_token fresh
      (record {
        client_id = row.client_id;
        user_id = row.user_id;
        scope = row.scope;
        ttl_seconds = o.refresh_token_ttl_seconds;
        now = o.now;
      })
      (delete_code row.code st).1) [
        | none ↦ none
        | some (refresh_token, st') ↦
            some (ok row.user_id row.client_id row.scope refresh_token, st')
      ]

module _ (s256 : String → String) where
  unfoldable pub check_pkce :
      String
      → ExchangeAuthCodeOptions
      → OAuthCodeRow
      → OAuthStorage
      → Option (ExchangeResult × OAuthStorage)
  check_pkce fresh o row st = elim (safe_equal (s256 o.code_verifier) row.code_challenge) [
    | none ↦ none
    | some equal ↦ if not equal then some (pkce_mismatch, st) else redeem fresh o row st
  ]

  -- The transaction once the row is found.
  unfoldable pub exchange_row :
      String
      → ExchangeAuthCodeOptions
      → OAuthCodeRow
      → OAuthStorage
      → Option (ExchangeResult × OAuthStorage)
  exchange_row fresh o row st =
      if leb row.expires_at o.now
      then some (expired, (delete_code row.code st).1)
      else if not (row.client_id == o.client_id)
      then some (client_mismatch, st)
      else if not (row.redirect_uri == o.redirect_uri)
      then some (redirect_mismatch, st)
      else check_pkce fresh o row st

  unfoldable pub exchange_auth_code :
      String → ExchangeAuthCodeOptions → OAuthStorage → Option (ExchangeResult × OAuthStorage)
  exchange_auth_code fresh o st = elim (get_code o.code st) [
    | none ↦ some (unknown, st)
    | some row ↦ exchange_row fresh o row st
  ]
