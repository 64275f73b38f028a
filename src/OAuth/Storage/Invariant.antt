-- ===== src/OAuth/Storage/Invariant.antt =====
-- The primary keys of oauth/storage.ts: no table ever holds two rows with one key.
use stellara.Prelude.{ℕ, some, none, String, Option, List, [], ◌∷◌, ◌≡◌, refl}
use stellara.Sql.{insert}
use stellara.Sql.Laws.{IsKeyed, insert-IsKeyed, delete-IsKeyed, update-IsKeyed}
use stellara.OAuth.Storage
use stellara.OAuth.Storage.{OAuthStorage}

-- The invariant of the database.
pub record IsWellFormed (st : OAuthStorage) : Type 0 where
  pub meta_keyed : IsKeyed Storage.meta_key st.oauth_meta
  pub clients_keyed : IsKeyed Storage.client_key st.oauth_clients
  pub codes_keyed : IsKeyed Storage.code_key st.oauth_codes
  pub tokens_keyed : IsKeyed Storage.token_key st.oauth_refresh_tokens
  pub sessions_keyed : IsKeyed Storage.session_key st.oauth_sessions
  pub keys_keyed : IsKeyed Storage.signing_key st.oauth_keys

-- The statements of the class, but the reads.
pub data Statement : Type 0 where
  sweep_expired sweep_stale_clients : ℕ → Statement
  insert_or_ignore_meta upsert_meta : String → String → Statement
  insert_client : Storage.OAuthClientRow → Statement
  touch_client : String → ℕ → Statement
  insert_code : Storage.OAuthCodeRow → Statement
  delete_code : String → Statement
  insert_refresh_token : Storage.OAuthRefreshTokenRow → Statement
  mark_refresh_token_rotated delete_refresh_token_chain : String → String → Statement
  delete_refresh_tokens_for_user : String → Statement
  insert_session : Storage.OAuthSessionRow → Statement
  extend_session : String → ℕ → Statement
  delete_session delete_sessions_for_user : String → Statement
  insert_key : Storage.OAuthKeyRow → Statement

-- `none` is the exception of an insertion.
unfoldable pub execute : Statement → OAuthStorage → Option OAuthStorage
execute (sweep_expired now) st = some (Storage.sweep_expired now st)
execute (sweep_stale_clients cutoff) st = some (Storage.sweep_stale_clients cutoff st).1
execute (insert_or_ignore_meta k v) st = some (Storage.insert_or_ignore_meta k v st)
execute (upsert_meta k v) st = some (Storage.upsert_meta k v st)
execute (insert_client row) st = Storage.insert_client row st
execute (touch_client c now) st = some (Storage.touch_client c now st)
execute (insert_code row) st = Storage.insert_code row st
execute (delete_code c) st = some (Storage.delete_code c st).1
execute (insert_refresh_token row) st = Storage.insert_refresh_token row st
execute (mark_refresh_token_rotated old new) st =
    some (Storage.mark_refresh_token_rotated old new st)
execute (delete_refresh_token_chain u c) st = some (Storage.delete_refresh_token_chain u c st).1
execute (delete_refresh_tokens_for_user u) st = some (Storage.delete_refresh_tokens_for_user u st).1
execute (insert_session row) st = Storage.insert_session row st
execute (extend_session s t) st = some (Storage.extend_session s t st)
execute (delete_session s) st = some (Storage.delete_session s st).1
execute (delete_sessions_for_user u) st = some (Storage.delete_sessions_for_user u st).1
execute (insert_key row) st = Storage.insert_key row st

-- A database after one statement; a statement that throws changes nothing.
abbrev pub after : OAuthStorage → Option OAuthStorage → OAuthStorage
after st none = st
after st (some st') = st'

unfoldable pub run : List Statement → OAuthStorage → OAuthStorage
run [] st = st
run (s ∷ ss) st = run ss (after st (execute s st))

-- One table changes, and keeps its keys apart.
module _ {st : OAuthStorage} (w : IsWellFormed st) where
  with_meta :
      {t : List Storage.OAuthMetaRow}
      → IsKeyed Storage.meta_key t
      → IsWellFormed (record st { oauth_meta = t })
  with_meta k = assumption

  with_clients :
      {t : List Storage.OAuthClientRow}
      → IsKeyed Storage.client_key t
      → IsWellFormed (record st { oauth_clients = t })
  with_clients k = assumption

  with_codes :
      {t : List Storage.OAuthCodeRow}
      → IsKeyed Storage.code_key t
      → IsWellFormed (record st { oauth_codes = t })
  with_codes k = assumption

  with_tokens :
      {t : List Storage.OAuthRefreshTokenRow}
      → IsKeyed Storage.token_key t
      → IsWellFormed (record st { oauth_refresh_tokens = t })
  with_tokens k = assumption

  with_sessions :
      {t : List Storage.OAuthSessionRow}
      → IsKeyed Storage.session_key t
      → IsWellFormed (record st { oauth_sessions = t })
  with_sessions k = assumption

  with_keys :
      {t : List Storage.OAuthKeyRow}
      → IsKeyed Storage.signing_key t
      → IsWellFormed (record st { oauth_keys = t })
  with_keys k = assumption

  after_insert :
      {R : Type 0} (key : R → String) (row : R) (t : List R) (put : List R → OAuthStorage)
      → IsKeyed key t
      → ((t' : List R) → IsKeyed key t' → IsWellFormed (put t'))
      → (o : Option (List R)) → insert key row t ≡ o
      → IsWellFormed (after st (elim o [ none ↦ none | some t' ↦ some (put t') ]))
  after_insert key row t put k keeps none e = w
  after_insert key row t put k keeps (some t') e = keeps t' (insert-IsKeyed key row t e k)

-- The two statements on `oauth_meta` that have an alternative to the exception.
insert_or :
    (row : Storage.OAuthMetaRow) {st other : OAuthStorage}
    → IsWellFormed st
    → IsWellFormed other
    → (o : Option (List Storage.OAuthMetaRow)) → insert Storage.meta_key row st.oauth_meta ≡ o
    → IsWellFormed (elim o [ none ↦ other | some t ↦ record st { oauth_meta = t } ])
insert_or row w w' none e = w'
insert_or row {st} w w' (some t) e =
    with_meta w (insert-IsKeyed Storage.meta_key row st.oauth_meta e w.meta_keyed)

-- Every statement keeps the invariant, also when it throws.
pub execute-IsWellFormed :
    (s : Statement) {st : OAuthStorage} → IsWellFormed st → IsWellFormed (after st (execute s st))
unfolding execute Storage.sweep_expired Storage.sweep_stale_clients Storage.touch_client
    Storage.insert_or_ignore_meta Storage.upsert_meta Storage.insert_client Storage.insert_code
    Storage.delete_code Storage.insert_refresh_token Storage.mark_refresh_token_rotated
    Storage.delete_refresh_token_chain Storage.delete_refresh_tokens_for_user Storage.insert_session
    Storage.extend_session Storage.delete_session Storage.delete_sessions_for_user
    Storage.insert_key
execute-IsWellFormed (sweep_expired now) {st} w =
    with_sessions
      (with_tokens (with_codes w (delete-IsKeyed Storage.code_key _ st.oauth_codes w.codes_keyed))
        (delete-IsKeyed Storage.token_key _ st.oauth_refresh_tokens w.tokens_keyed))
      (delete-IsKeyed Storage.session_key _ st.oauth_sessions w.sessions_keyed)
execute-IsWellFormed (sweep_stale_clients cutoff) {st} w =
    with_clients w (delete-IsKeyed Storage.client_key _ st.oauth_clients w.clients_keyed)
execute-IsWellFormed (insert_or_ignore_meta k v) {st} w = insert_or _ w w _ refl
execute-IsWellFormed (upsert_meta k v) {st} w =
    insert_or _ w
      (with_meta w (update-IsKeyed Storage.meta_key _ _ st.oauth_meta (λ r. refl) w.meta_keyed)) _
      refl
execute-IsWellFormed (insert_client row) {st} w =
    after_insert w Storage.client_key row st.oauth_clients (λ t. record st { oauth_clients = t })
      w.clients_keyed (λ t k. with_clients w k) _ refl
execute-IsWellFormed (touch_client c now) {st} w =
    with_clients w
      (update-IsKeyed Storage.client_key _ _ st.oauth_clients (λ r. refl) w.clients_keyed)
execute-IsWellFormed (insert_code row) {st} w =
    after_insert w Storage.code_key row st.oauth_codes (λ t. record st { oauth_codes = t })
      w.codes_keyed (λ t k. with_codes w k) _ refl
execute-IsWellFormed (delete_code c) {st} w =
    with_codes w (delete-IsKeyed Storage.code_key _ st.oauth_codes w.codes_keyed)
execute-IsWellFormed (insert_refresh_token row) {st} w =
    after_insert w Storage.token_key row st.oauth_refresh_tokens
      (λ t. record st { oauth_refresh_tokens = t }) w.tokens_keyed (λ t k. with_tokens w k) _ refl
execute-IsWellFormed (mark_refresh_token_rotated old new) {st} w =
    with_tokens w
      (update-IsKeyed Storage.token_key _ _ st.oauth_refresh_tokens (λ r. refl) w.tokens_keyed)
execute-IsWellFormed (delete_refresh_token_chain u c) {st} w =
    with_tokens w (delete-IsKeyed Storage.token_key _ st.oauth_refresh_tokens w.tokens_keyed)
execute-IsWellFormed (delete_refresh_tokens_for_user u) {st} w =
    with_tokens w (delete-IsKeyed Storage.token_key _ st.oauth_refresh_tokens w.tokens_keyed)
execute-IsWellFormed (insert_session row) {st} w =
    after_insert w Storage.session_key row st.oauth_sessions (λ t. record st { oauth_sessions = t })
      w.sessions_keyed (λ t k. with_sessions w k) _ refl
execute-IsWellFormed (extend_session s t) {st} w =
    with_sessions w
      (update-IsKeyed Storage.session_key _ _ st.oauth_sessions (λ r. refl) w.sessions_keyed)
execute-IsWellFormed (delete_session s) {st} w =
    with_sessions w (delete-IsKeyed Storage.session_key _ st.oauth_sessions w.sessions_keyed)
execute-IsWellFormed (delete_sessions_for_user u) {st} w =
    with_sessions w (delete-IsKeyed Storage.session_key _ st.oauth_sessions w.sessions_keyed)
execute-IsWellFormed (insert_key row) {st} w =
    after_insert w Storage.signing_key row st.oauth_keys (λ t. record st { oauth_keys = t })
      w.keys_keyed (λ t k. with_keys w k) _ refl

-- In every history of statements that starts from keyed tables, each of the six tables holds at
-- most one row for each primary key.
run-IsWellFormed :
    (ss : List Statement) {st : OAuthStorage} → IsWellFormed st → IsWellFormed (run ss st)
unfolding run
run-IsWellFormed [] w = w
run-IsWellFormed (s ∷ ss) w = run-IsWellFormed ss (execute-IsWellFormed s w)

pub insert_refresh_token-IsWellFormed :
    (row : Storage.OAuthRefreshTokenRow) {st st' : OAuthStorage}
    → Storage.insert_refresh_token row st ≡ some st'
    → IsWellFormed st
    → IsWellFormed st'
unfolding execute
insert_refresh_token-IsWellFormed row h w =
    rw h at (execute-IsWellFormed (insert_refresh_token row) w)

pub mark_refresh_token_rotated-IsWellFormed :
    (old new : String) {st : OAuthStorage}
    → IsWellFormed st
    → IsWellFormed (Storage.mark_refresh_token_rotated old new st)
unfolding execute
mark_refresh_token_rotated-IsWellFormed old new w =
    execute-IsWellFormed (mark_refresh_token_rotated old new) w
