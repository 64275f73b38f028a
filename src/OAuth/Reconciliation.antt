-- ===== src/OAuth/Reconciliation.antt =====
-- src/oauth/storage-reconciliation.ts: the transaction that deletes the authorizations of users who
-- lost a static token, and stores the new snapshot.
pub mod Effects
use text.Mathlib.Text.{◌==◌}
use stellara.Prelude.{ℕ, ◌+◌, Bool, true, false, List, [], ◌∷◌, Option, none, some, String, length}
use stellara.Sql.{delete, changes}
use stellara.OAuth.Storage.{OAuthStorage, get_meta, upsert_meta}

abbrev pub snapshot_key : String
snapshot_key = "oauth_static_token_snapshot"

pub record AuthorizationReconciliationResult : Type 0 where
  pub globally_reset : Bool
  pub invalidated_users : ℕ
  pub deleted_codes : ℕ
  pub deleted_refresh_tokens : ℕ
  pub deleted_sessions : ℕ

module _ {R : Type 0} (user_id : R → String) where
  -- The loop runs one DELETE for each user.
  unfoldable pub delete_users : List String → List R → ℕ × List R
  delete_users [] rows = (0, rows)
  delete_users (u ∷ us) rows =
      let (deleted, left) = delete_users us (delete (λ r. user_id r == u) rows) in
      (changes (λ r. user_id r == u) rows + deleted, left)

  -- `none` is `null`: every row is deleted.
  unfoldable pub delete_authorization_rows : Option (List String) → List R → ℕ × List R
  unfolding delete_users
  delete_authorization_rows none rows = (length rows, [])
  delete_authorization_rows (some us) rows = delete_users us rows

abbrev users_of : Option (List String) → ℕ
users_of none = 0
users_of (some us) = length us

abbrev is_null : Option (List String) → Bool
is_null none = true
is_null (some us) = false

-- The entries of the set of users, if there is one, are a list.
unfoldable pub reconcile_snapshot_in_transaction :
    String
    → (Option String → Option (List String))
    → OAuthStorage
    → AuthorizationReconciliationResult × OAuthStorage
reconcile_snapshot_in_transaction next_snapshot removed_users st =
    let removed = removed_users (get_meta snapshot_key st) in
    let (codes, codes_left) = delete_authorization_rows (λ r. r.user_id) removed st.oauth_codes in
    let (tokens, tokens_left) =
      delete_authorization_rows (λ r. r.user_id) removed st.oauth_refresh_tokens in
    let (sessions, sessions_left) =
      delete_authorization_rows (λ r. r.user_id) removed st.oauth_sessions in
    (
      record {
        globally_reset = is_null removed;
        invalidated_users = users_of removed;
        deleted_codes = codes;
        deleted_refresh_tokens = tokens;
        deleted_sessions = sessions;
      },
      upsert_meta snapshot_key next_snapshot (record st {
        oauth_codes = codes_left;
        oauth_refresh_tokens = tokens_left;
        oauth_sessions = sessions_left;
      }),
    )
