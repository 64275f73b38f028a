-- ===== src/OAuth/Storage/Lookup.antt =====
-- What the lookups of oauth/storage.ts find after each statement, in the form that the components
-- use with the statements shut.
use text.Mathlib.Text.{◌==◌}
use stellara.Prelude.{ℕ, ◌∷◌, none, some, String, if◌then◌else◌, ◌≡◌, refl, arith}
use stellara.Sql.{select, insert}
use stellara.Sql.Laws.{IsKeyed, select-key, select-update_key, select-delete, select-delete_key}
use stellara.OAuth.Storage.{
  OAuthStorage, OAuthRefreshTokenRow, OAuthCodeRow, OAuthSessionRow, OAuthClientRow, token_key,
  code_key, session_key, client_key, get_refresh_token, insert_refresh_token,
  mark_refresh_token_rotated, delete_refresh_token_chain, in_chain, get_code, insert_code,
  delete_code, get_session, insert_session, extend_session, delete_session, get_client,
  insert_client, touch_client,
}

-- oauth_refresh_tokens
module _ (t : String) (st : OAuthStorage) where
  pub get_refresh_token-token :
      {r : OAuthRefreshTokenRow} → get_refresh_token t st ≡ some r → r.token ≡ t
  unfolding get_refresh_token
  get_refresh_token-token h = select-key token_key t st.oauth_refresh_tokens h

  pub get-insert_refresh_token :
      (row : OAuthRefreshTokenRow) {st' : OAuthStorage}
      → insert_refresh_token row st ≡ some st'
      → get_refresh_token t st' ≡ (if row.token == t then some row else get_refresh_token t st)
  unfolding get_refresh_token insert_refresh_token insert select
  get-insert_refresh_token row h = ground arith

  pub get-mark_refresh_token_rotated :
      (old new : String)
      → get_refresh_token t (mark_refresh_token_rotated old new st)
        ≡ elim (get_refresh_token t st) [
          | none ↦ none
          | some r ↦ some (if old == t then record r { rotated_to = some new } else r)
        ]
  unfolding get_refresh_token mark_refresh_token_rotated
  get-mark_refresh_token_rotated old new =
      select-update_key token_key t old (λ r. record r { rotated_to = some new })
        st.oauth_refresh_tokens (λ r. refl)

  pub get-delete_refresh_token_chain :
      (user_id client_id : String)
      → IsKeyed token_key st.oauth_refresh_tokens
      → get_refresh_token t (delete_refresh_token_chain user_id client_id st).1
        ≡ elim (get_refresh_token t st) [
          | none ↦ none
          | some r ↦ if in_chain user_id client_id r then none else some r
        ]
  unfolding get_refresh_token delete_refresh_token_chain
  get-delete_refresh_token_chain user_id client_id k =
      select-delete token_key t (in_chain user_id client_id) st.oauth_refresh_tokens k

-- oauth_codes
module _ (c : String) (st : OAuthStorage) where
  pub get_code-code : {r : OAuthCodeRow} → get_code c st ≡ some r → r.code ≡ c
  unfolding get_code
  get_code-code h = select-key code_key c st.oauth_codes h

  pub get-insert_code :
      (row : OAuthCodeRow) {st' : OAuthStorage}
      → insert_code row st ≡ some st'
      → get_code c st' ≡ (if row.code == c then some row else get_code c st)
  unfolding get_code insert_code insert select
  get-insert_code row h = ground arith

  pub get-delete_code :
      (d : String) → get_code c (delete_code d st).1 ≡ (if d == c then none else get_code c st)
  unfolding get_code delete_code
  get-delete_code d = select-delete_key code_key c d st.oauth_codes

-- oauth_sessions
module _ (s : String) (st : OAuthStorage) where
  pub get_session-session_id : {r : OAuthSessionRow} → get_session s st ≡ some r → r.session_id ≡ s
  unfolding get_session
  get_session-session_id h = select-key session_key s st.oauth_sessions h

  pub get-insert_session :
      (row : OAuthSessionRow) {st' : OAuthStorage}
      → insert_session row st ≡ some st'
      → get_session s st' ≡ (if row.session_id == s then some row else get_session s st)
  unfolding get_session insert_session insert select
  get-insert_session row h = ground arith

  pub get-extend_session :
      (d : String) (expires_at : ℕ)
      → get_session s (extend_session d expires_at st) ≡ elim (get_session s st) [
        | none ↦ none
        | some r ↦ some (if d == s then record r { expires_at = expires_at } else r)
      ]
  unfolding get_session extend_session
  get-extend_session d expires_at =
      select-update_key session_key s d (λ r. record r { expires_at = expires_at })
        st.oauth_sessions (λ r. refl)

  pub get-delete_session :
      (d : String)
      → get_session s (delete_session d st).1 ≡ (if d == s then none else get_session s st)
  unfolding get_session delete_session
  get-delete_session d = select-delete_key session_key s d st.oauth_sessions

-- oauth_clients
module _ (c : String) (st : OAuthStorage) where
  pub get_client-client_id : {r : OAuthClientRow} → get_client c st ≡ some r → r.client_id ≡ c
  unfolding get_client
  get_client-client_id h = select-key client_key c st.oauth_clients h

  pub get-insert_client :
      (row : OAuthClientRow) {st' : OAuthStorage}
      → insert_client row st ≡ some st'
      → get_client c st' ≡ (if row.client_id == c then some row else get_client c st)
  unfolding get_client insert_client insert select
  get-insert_client row h = ground arith

  pub get-touch_client :
      (d : String) (now : ℕ)
      → get_client c (touch_client d now st) ≡ elim (get_client c st) [
        | none ↦ none
        | some r ↦ some (if d == c then record r { last_used_at = now } else r)
      ]
  unfolding get_client touch_client
  get-touch_client d now =
      select-update_key client_key c d (λ r. record r { last_used_at = now }) st.oauth_clients
        (λ r. refl)

-- A row with a fresh key is taken in.
module _ (st : OAuthStorage) where
  pub insert_refresh_token-total :
      (row : OAuthRefreshTokenRow)
      → get_refresh_token row.token st ≡ none
      → (st' : OAuthStorage) × (insert_refresh_token row st ≡ some st')
  unfolding get_refresh_token insert_refresh_token insert
  insert_refresh_token-total row h =
      (record st { oauth_refresh_tokens = row ∷ st.oauth_refresh_tokens }, ground arith)

  pub insert_refresh_token-fresh :
      (row : OAuthRefreshTokenRow) {st' : OAuthStorage}
      → insert_refresh_token row st ≡ some st'
      → get_refresh_token row.token st ≡ none
  unfolding get_refresh_token insert_refresh_token insert
  insert_refresh_token-fresh row h = ground arith

  pub insert_code-total :
      (row : OAuthCodeRow)
      → get_code row.code st ≡ none
      → (st' : OAuthStorage) × (insert_code row st ≡ some st')
  unfolding get_code insert_code insert
  insert_code-total row h = (record st { oauth_codes = row ∷ st.oauth_codes }, ground arith)
