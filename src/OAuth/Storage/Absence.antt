-- ===== src/OAuth/Storage/Absence.antt =====
-- A code that is gone stays gone, as long as no statement of oauth/storage.ts inserts it again.
use stellara.Prelude.{none, String, List, [], ◌∷◌, ◌≡◌, ◌≢◌, arith, eq_iff, All}
use stellara.Sql.{insert, select}
use stellara.Sql.Laws.{select-delete-none}
use stellara.OAuth.Storage
use stellara.OAuth.Storage.{OAuthStorage, get_code, code_key}
use stellara.OAuth.Storage.Invariant.{
  Statement, insert_code, sweep_expired, delete_code, execute, after, run,
}

-- The statement does not insert the code.
abbrev pub Spares : String → Statement → Type 0
Spares c (insert_code row) = row.code ≢ c
Spares c _ = Unit

execute-absent :
    (c : String) (s : Statement) (st : OAuthStorage)
    → Spares c s
    → get_code c st ≡ none
    → get_code c (after st (execute s st)) ≡ none
unfolding execute get_code Storage.sweep_expired Storage.sweep_stale_clients Storage.touch_client
    Storage.insert_or_ignore_meta Storage.upsert_meta Storage.insert_client Storage.insert_code
    Storage.delete_code Storage.insert_refresh_token Storage.mark_refresh_token_rotated
    Storage.delete_refresh_token_chain Storage.delete_refresh_tokens_for_user Storage.insert_session
    Storage.extend_session Storage.delete_session Storage.delete_sessions_for_user
    Storage.insert_key insert select
execute-absent c (sweep_expired now) st spares h = select-delete-none code_key c _ st.oauth_codes h
execute-absent c (delete_code d) st spares h = select-delete-none code_key c _ st.oauth_codes h
execute-absent c (insert_code row) st spares h = ground (arith, eq_iff row.code c)
execute-absent c s st spares h = ground arith

pub run-absent :
    (c : String) (ss : List Statement) (st : OAuthStorage)
    → All (Spares c) ss
    → get_code c st ≡ none
    → get_code c (run ss st) ≡ none
unfolding run
run-absent c [] st spares h = h
run-absent c (s ∷ ss) st spares h =
    run-absent c ss (after st (execute s st)) spares.1 (execute-absent c s st spares.0 h)
