-- ===== src/OAuth/Authorizations.antt =====
-- What the authorization server promises of codes and refresh tokens, whatever the tables hold: the
-- abstract machine that oauth/codes.ts, oauth/tokens.ts and routes/oauth/token.ts implement.
pub mod Abstract
pub mod Keyed
pub mod Refines
use text.Mathlib.Text.{◌==◌}
use stellara.Prelude.{ℕ, ◌+◌, ◌≤◌, ◌<◌, Option, none, some, String, if◌then◌else◌, ◌≡◌}
use stellara.OAuth.Storage.{
  OAuthStorage, OAuthCodeRow, OAuthRefreshTokenRow, get_code, get_refresh_token, in_chain,
}

-- The codes and the refresh tokens that can be presented, by their values.
pub record View : Type 0 where
  pub codes : String → Option OAuthCodeRow
  pub tokens : String → Option OAuthRefreshTokenRow

abbrev pub view : OAuthStorage → View
view st = record { codes = λ c. get_code c st; tokens = λ t. get_refresh_token t st }

-- A live token of this user and client, with this scope.
abbrev pub live_token : String → String → String → String → ℕ → ℕ → OAuthRefreshTokenRow
live_token token client_id user_id scope now ttl_ms = record {
  token = token;
  client_id = client_id;
  user_id = user_id;
  scope = scope;
  issued_at = now;
  expires_at = now + ttl_ms;
  rotated_to = none;
}

-- The moves at a time, with the lifetime of new tokens. A code that is over goes, a code that is not
-- over is spent for one new token, a token that was never rotated and is not over is rotated to one
-- new token, and a token that was rotated before revokes all tokens of its user and client.
pub data Move (now ttl_ms : ℕ) (v w : View) : Type 0 where
  idle : w ≡ v → Move now ttl_ms v w
  expire :
      (code : String) (row : OAuthCodeRow)
      → v.codes code ≡ some row
      → row.expires_at ≤ now
      → ((c : String) → w.codes c ≡ (if code == c then none else v.codes c))
      → ((t : String) → w.tokens t ≡ v.tokens t)
      → Move now ttl_ms v w
  redeem :
      (code token : String) (row : OAuthCodeRow)
      → v.codes code ≡ some row
      → now < row.expires_at
      → ((c : String) → w.codes c ≡ (if code == c then none else v.codes c))
      → ((t : String)
          → w.tokens t ≡ (
              if token == t
              then some (live_token token row.client_id row.user_id row.scope now ttl_ms)
              else v.tokens t))
      → Move now ttl_ms v w
  rotate :
      (old new : String) (row : OAuthRefreshTokenRow)
      → v.tokens old ≡ some row
      → row.rotated_to ≡ none
      → now < row.expires_at
      → ((c : String) → w.codes c ≡ v.codes c)
      → ((t : String)
          → w.tokens t ≡ (
              if old == t
              then some (record row { rotated_to = some new })
              else if new == t
              then some (live_token new row.client_id row.user_id row.scope now ttl_ms)
              else v.tokens t))
      → Move now ttl_ms v w
  revoke :
      (old new : String) (row : OAuthRefreshTokenRow)
      → v.tokens old ≡ some row
      → row.rotated_to ≡ some new
      → ((c : String) → w.codes c ≡ v.codes c)
      → ((t : String)
          → w.tokens t ≡ elim (v.tokens t) [
            | none ↦ none
            | some r ↦ if in_chain row.user_id row.client_id r then none else some r
          ])
      → Move now ttl_ms v w
