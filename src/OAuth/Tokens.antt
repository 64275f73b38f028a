-- ===== src/OAuth/Tokens.antt =====
-- src/oauth/tokens.ts: issue and rotation of refresh tokens. The random value of a new token is an
-- argument, and so is the time. `none` is an exception out of the transaction, which is undone.
pub mod Rotation
pub mod Replay
use text.Mathlib.Text.{◌==◌}
use stellara.Prelude.{ℕ, ◌+◌, ◌*◌, Option, none, some, String, if◌then◌else◌, leb, not}
use stellara.OAuth.Storage.{
  OAuthStorage, OAuthRefreshTokenRow, get_refresh_token, insert_refresh_token,
  mark_refresh_token_rotated, delete_refresh_token_chain,
}

pub record IssueOptions : Type 0 where
  pub client_id : String
  pub user_id : String
  pub scope : String
  pub ttl_seconds : ℕ
  pub now : ℕ

unfoldable pub issue_refresh_token :
    String → IssueOptions → OAuthStorage → Option (String × OAuthStorage)
issue_refresh_token token o st =
    elim (insert_refresh_token
      (record {
        token = token;
        client_id = o.client_id;
        user_id = o.user_id;
        scope = o.scope;
        issued_at = o.now;
        expires_at = o.now + o.ttl_seconds * 1000;
        rotated_to = none;
      })
      st) [ none ↦ none | some st' ↦ some (token, st') ]

pub data RotationResult : Type 0 where
  expired : RotationResult
  ok : OAuthRefreshTokenRow → String → RotationResult
  replay : ℕ → RotationResult
  unknown_client : RotationResult
  unknown : RotationResult

pub record RotateOptions : Type 0 where
  pub presented_token : String
  pub expected_client_id : String
  pub ttl_seconds : ℕ
  pub now : ℕ

-- The row that a rotation inserts.
abbrev pub successor : String → RotateOptions → OAuthRefreshTokenRow → OAuthRefreshTokenRow
successor new_token o row = record {
  token = new_token;
  client_id = row.client_id;
  user_id = row.user_id;
  scope = row.scope;
  issued_at = o.now;
  expires_at = o.now + o.ttl_seconds * 1000;
  rotated_to = none;
}

-- The last three statements of the transaction.
unfoldable pub rotate_live :
    String
    → RotateOptions
    → OAuthRefreshTokenRow
    → OAuthStorage
    → Option (RotationResult × OAuthStorage)
rotate_live new_token o row st = elim (insert_refresh_token (successor new_token o row) st) [
  | none ↦ none
  | some st' ↦ some (ok row new_token, mark_refresh_token_rotated row.token new_token st')
]

-- The transaction once the row is found.
unfoldable pub rotate_row :
    String
    → RotateOptions
    → OAuthRefreshTokenRow
    → OAuthStorage
    → Option (RotationResult × OAuthStorage)
rotate_row new_token o row st =
    if not (row.client_id == o.expected_client_id)
    then some (unknown_client, st)
    else elim row.rotated_to [
      | some _ ↦
          let (deleted, st') = delete_refresh_token_chain row.user_id row.client_id st in
          some (replay deleted, st')
      | none ↦
          if leb row.expires_at o.now then some (expired, st) else rotate_live new_token o row st
    ]

unfoldable pub rotate_refresh_token :
    String → RotateOptions → OAuthStorage → Option (RotationResult × OAuthStorage)
rotate_refresh_token new_token o st = elim (get_refresh_token o.presented_token st) [
  | none ↦ some (unknown, st)
  | some row ↦ rotate_row new_token o row st
]
