-- ===== src/OAuth/Storage.antt =====
-- src/oauth/storage.ts: the rows of the six tables, the database as a record of tables, and the
-- statements of the class `OAuthStorage`. Times are milliseconds. An insertion that violates a
-- primary key throws, which is `none`; the driver then leaves the database as it was.
pub mod Lookup
pub mod Invariant
pub mod Absence
pub mod ActiveKey
use text.Mathlib.Text.{◌==◌}
use stellara.Prelude.{
  ℕ, Bool, true, false, ◌&&◌, List, [], ◌∷◌, Option, none, some, String, if◌then◌else◌, ltb, leb,
}
use stellara.Sql.{select, insert, delete, changes, update}

pub record OAuthMetaRow : Type 0 where
  pub key : String
  pub value : String

pub record OAuthClientRow : Type 0 where
  pub client_id : String
  pub client_name : Option String
  pub redirect_uris : String
  pub created_at : ℕ
  pub last_used_at : ℕ

pub record OAuthCodeRow : Type 0 where
  pub code : String
  pub client_id : String
  pub user_id : String
  pub code_challenge : String
  pub redirect_uri : String
  pub scope : String
  pub expires_at : ℕ

pub record OAuthRefreshTokenRow : Type 0 where
  pub token : String
  pub client_id : String
  pub user_id : String
  pub scope : String
  pub issued_at : ℕ
  pub expires_at : ℕ
  pub rotated_to : Option String

pub record OAuthSessionRow : Type 0 where
  pub session_id : String
  pub user_id : String
  pub issued_at : ℕ
  pub expires_at : ℕ

pub record OAuthKeyRow : Type 0 where
  pub kid : String
  pub public_jwk : String
  pub private_pkcs8 : String
  pub algorithm : String
  pub created_at : ℕ
  pub retired_at : Option ℕ

pub record OAuthStorage : Type 0 where
  pub oauth_meta : List OAuthMetaRow
  pub oauth_clients : List OAuthClientRow
  pub oauth_codes : List OAuthCodeRow
  pub oauth_refresh_tokens : List OAuthRefreshTokenRow
  pub oauth_sessions : List OAuthSessionRow
  pub oauth_keys : List OAuthKeyRow

abbrev pub empty : OAuthStorage
empty = record {
  oauth_meta = [];
  oauth_clients = [];
  oauth_codes = [];
  oauth_refresh_tokens = [];
  oauth_sessions = [];
  oauth_keys = [];
}

-- The primary keys of SCHEMA_DDL.
abbrev pub meta_key : OAuthMetaRow → String
meta_key r = r.key

abbrev pub client_key : OAuthClientRow → String
client_key r = r.client_id

abbrev pub code_key : OAuthCodeRow → String
code_key r = r.code

abbrev pub token_key : OAuthRefreshTokenRow → String
token_key r = r.token

abbrev pub session_key : OAuthSessionRow → String
session_key r = r.session_id

abbrev pub signing_key : OAuthKeyRow → String
signing_key r = r.kid

-- Removes every row whose `expires_at` is in the past.
unfoldable pub sweep_expired : ℕ → OAuthStorage → OAuthStorage
sweep_expired now st = record st {
  oauth_codes = delete (λ r. ltb r.expires_at now) st.oauth_codes;
  oauth_refresh_tokens = delete (λ r. ltb r.expires_at now) st.oauth_refresh_tokens;
  oauth_sessions = delete (λ r. ltb r.expires_at now) st.oauth_sessions;
}

-- oauth_meta

unfoldable pub get_meta : String → OAuthStorage → Option String
get_meta key st = elim (select meta_key key st.oauth_meta) [ none ↦ none | some r ↦ some r.value ]

-- INSERT OR IGNORE
unfoldable pub insert_or_ignore_meta : String → String → OAuthStorage → OAuthStorage
insert_or_ignore_meta key value st =
    elim (insert meta_key (record { key = key; value = value }) st.oauth_meta) [
      | none ↦ st
      | some t ↦ record st { oauth_meta = t }
    ]

-- INSERT … ON CONFLICT(key) DO UPDATE SET value = excluded.value
unfoldable pub upsert_meta : String → String → OAuthStorage → OAuthStorage
upsert_meta key value st =
    elim (insert meta_key (record { key = key; value = value }) st.oauth_meta) [
      | none ↦ record st {
        oauth_meta = update (λ r. r.key == key) (λ r. record r { value = value }) st.oauth_meta;
      }
      | some t ↦ record st { oauth_meta = t }
    ]

-- `none` is the exception for a key that is still absent; the transaction is then undone.
unfoldable pub get_or_initialize_meta :
    String → String → OAuthStorage → Option (String × OAuthStorage)
unfolding insert_or_ignore_meta get_meta
get_or_initialize_meta key value st =
    let st' = insert_or_ignore_meta key value st in
    elim (get_meta key st') [ none ↦ none | some persisted ↦ some (persisted, st') ]

-- The version row; `CREATE TABLE IF NOT EXISTS` leaves the tables that are there.
unfoldable pub apply_migrations : OAuthStorage → OAuthStorage
apply_migrations st = insert_or_ignore_meta "schema_version" "1" st

-- oauth_clients

unfoldable pub insert_client : OAuthClientRow → OAuthStorage → Option OAuthStorage
insert_client row st = elim (insert client_key row st.oauth_clients) [
  | none ↦ none
  | some t ↦ some (record st { oauth_clients = t })
]

unfoldable pub get_client : String → OAuthStorage → Option OAuthClientRow
get_client client_id st = select client_key client_id st.oauth_clients

unfoldable pub touch_client : String → ℕ → OAuthStorage → OAuthStorage
touch_client client_id now st = record st {
  oauth_clients =
      update (λ r. r.client_id == client_id) (λ r. record r { last_used_at = now })
        st.oauth_clients;
}

unfoldable pub sweep_stale_clients : ℕ → OAuthStorage → ℕ × OAuthStorage
sweep_stale_clients cutoff st = (
  changes (λ r. ltb r.last_used_at cutoff) st.oauth_clients,
  record st { oauth_clients = delete (λ r. ltb r.last_used_at cutoff) st.oauth_clients },
)

-- oauth_codes

unfoldable pub insert_code : OAuthCodeRow → OAuthStorage → Option OAuthStorage
insert_code row st = elim (insert code_key row st.oauth_codes) [
  | none ↦ none
  | some t ↦ some (record st { oauth_codes = t })
]

unfoldable pub get_code : String → OAuthStorage → Option OAuthCodeRow
get_code code st = select code_key code st.oauth_codes

unfoldable pub delete_code : String → OAuthStorage → Bool × OAuthStorage
delete_code code st = (
  ltb 0 (changes (λ r. r.code == code) st.oauth_codes),
  record st { oauth_codes = delete (λ r. r.code == code) st.oauth_codes },
)

-- oauth_refresh_tokens

unfoldable pub insert_refresh_token : OAuthRefreshTokenRow → OAuthStorage → Option OAuthStorage
insert_refresh_token row st = elim (insert token_key row st.oauth_refresh_tokens) [
  | none ↦ none
  | some t ↦ some (record st { oauth_refresh_tokens = t })
]

unfoldable pub get_refresh_token : String → OAuthStorage → Option OAuthRefreshTokenRow
get_refresh_token token st = select token_key token st.oauth_refresh_tokens

unfoldable pub mark_refresh_token_rotated : String → String → OAuthStorage → OAuthStorage
mark_refresh_token_rotated old_token new_token st = record st {
  oauth_refresh_tokens =
      update (λ r. r.token == old_token) (λ r. record r { rotated_to = some new_token })
        st.oauth_refresh_tokens;
}

-- The condition of the statement that deletes the tokens of one user and client.
abbrev pub in_chain : String → String → OAuthRefreshTokenRow → Bool
in_chain user_id client_id r = r.user_id == user_id && r.client_id == client_id

unfoldable pub delete_refresh_token_chain : String → String → OAuthStorage → ℕ × OAuthStorage
delete_refresh_token_chain user_id client_id st = (
  changes (in_chain user_id client_id) st.oauth_refresh_tokens,
  record st { oauth_refresh_tokens = delete (in_chain user_id client_id) st.oauth_refresh_tokens },
)

unfoldable pub delete_refresh_tokens_for_user : String → OAuthStorage → ℕ × OAuthStorage
delete_refresh_tokens_for_user user_id st = (
  changes (λ r. r.user_id == user_id) st.oauth_refresh_tokens,
  record st { oauth_refresh_tokens = delete (λ r. r.user_id == user_id) st.oauth_refresh_tokens },
)

-- oauth_sessions

unfoldable pub insert_session : OAuthSessionRow → OAuthStorage → Option OAuthStorage
insert_session row st = elim (insert session_key row st.oauth_sessions) [
  | none ↦ none
  | some t ↦ some (record st { oauth_sessions = t })
]

unfoldable pub get_session : String → OAuthStorage → Option OAuthSessionRow
get_session session_id st = select session_key session_id st.oauth_sessions

unfoldable pub extend_session : String → ℕ → OAuthStorage → OAuthStorage
extend_session session_id expires_at st = record st {
  oauth_sessions =
      update (λ r. r.session_id == session_id) (λ r. record r { expires_at = expires_at })
        st.oauth_sessions;
}

unfoldable pub delete_session : String → OAuthStorage → Bool × OAuthStorage
delete_session session_id st = (
  ltb 0 (changes (λ r. r.session_id == session_id) st.oauth_sessions),
  record st { oauth_sessions = delete (λ r. r.session_id == session_id) st.oauth_sessions },
)

unfoldable pub delete_sessions_for_user : String → OAuthStorage → ℕ × OAuthStorage
delete_sessions_for_user user_id st = (
  changes (λ r. r.user_id == user_id) st.oauth_sessions,
  record st { oauth_sessions = delete (λ r. r.user_id == user_id) st.oauth_sessions },
)

-- oauth_keys

unfoldable pub insert_key : OAuthKeyRow → OAuthStorage → Option OAuthStorage
insert_key row st = elim (insert signing_key row st.oauth_keys) [
  | none ↦ none
  | some t ↦ some (record st { oauth_keys = t })
]

abbrev is_active : OAuthKeyRow → Bool
is_active r = elim r.retired_at [ none ↦ true | some _ ↦ false ]

-- ORDER BY created_at DESC. SQLite does not promise an order of equal times; its sorter leaves them in
-- the order of their insertion, the older row first.
unfoldable place : OAuthKeyRow → List OAuthKeyRow → List OAuthKeyRow
place r [] = r ∷ []
place r (s ∷ rs) = if ltb s.created_at r.created_at then r ∷ s ∷ rs else s ∷ place r rs

unfoldable active_newest_first : List OAuthKeyRow → List OAuthKeyRow
active_newest_first [] = []
active_newest_first (r ∷ rs) =
    let rest = active_newest_first rs in if is_active r then place r rest else rest

unfoldable pub list_active_keys : OAuthStorage → List OAuthKeyRow
unfolding active_newest_first place
list_active_keys st = active_newest_first st.oauth_keys

unfoldable pub get_active_key : OAuthStorage → Option OAuthKeyRow
unfolding list_active_keys
get_active_key st = elim (list_active_keys st) [ [] ↦ none | r ∷ _ ↦ some r ]
