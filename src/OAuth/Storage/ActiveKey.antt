-- ===== src/OAuth/Storage/ActiveKey.antt =====
-- The active signing key of the storage.
use stellara.Prelude.{◌<◌, Option, none, some, List, [], ◌∷◌, ◌≡◌, refl, arith}
use stellara.Sql.{insert}
use stellara.OAuth.Storage.{
  OAuthStorage, OAuthKeyRow, insert_key, list_active_keys, get_active_key, active_newest_first,
  place,
}

head_of : List OAuthKeyRow → Option OAuthKeyRow
head_of [] = none
head_of (r ∷ _) = some r

head-place :
    (row : OAuthKeyRow) (rs : List OAuthKeyRow)
    → ((r : OAuthKeyRow) → head_of rs ≡ some r → r.created_at < row.created_at)
    → head_of (place row rs) ≡ some row
unfolding place head_of
head-place row [] newest = refl
head-place row (s ∷ rs) newest = ground (arith, newest s refl)

-- A key that is inserted and not retired is the active one, if the one before was made earlier.
pub get_active_key-insert :
    (row : OAuthKeyRow) (st st' : OAuthStorage)
    → insert_key row st ≡ some st'
    → row.retired_at ≡ none
    → ((r : OAuthKeyRow) → get_active_key st ≡ some r → r.created_at < row.created_at)
    → get_active_key st' ≡ some row
unfolding head_of insert_key get_active_key list_active_keys insert active_newest_first place
get_active_key-insert row st st' h alive newest =
    ground (arith, head-place row (active_newest_first st.oauth_keys) newest)
