-- ===== src/OAuth/Tokens/Rotation.antt =====
-- A successful rotation of oauth/tokens.ts: when it happens, and what it does to every token.
use text.Mathlib.Text.{◌==◌}
use stellara.Prelude.{◌<◌, none, some, String, if◌then◌else◌, ◌≡◌, arith, eq_iff}
use stellara.OAuth.Storage.{OAuthStorage, OAuthRefreshTokenRow, get_refresh_token}
use stellara.OAuth.Storage.{insert_refresh_token, mark_refresh_token_rotated}
use stellara.OAuth.Storage.Lookup.{
  get_refresh_token-token, get-insert_refresh_token, get-mark_refresh_token_rotated,
  insert_refresh_token-total, insert_refresh_token-fresh,
}
use stellara.OAuth.Storage.Invariant.{
  IsWellFormed, insert_refresh_token-IsWellFormed, mark_refresh_token_rotated-IsWellFormed,
}
use stellara.OAuth.Tokens.{
  ok, RotateOptions, successor, rotate_live, rotate_row, rotate_refresh_token,
}

module _ (new_token : String) (o : RotateOptions) (st : OAuthStorage) {st' : OAuthStorage} where
  rotate_row-ok :
      (row r : OAuthRefreshTokenRow) (n : String)
      → rotate_row new_token o row st ≡ some (ok r n, st')
      → (row.client_id ≡ o.expected_client_id)
        × (row.rotated_to ≡ none)
        × (o.now < row.expires_at)
        × (rotate_live new_token o row st ≡ some (ok r n, st'))
  unfolding rotate_row
  rotate_row-ok row r n h = ground (arith, eq_iff row.client_id o.expected_client_id)

  rotate_live-ok :
      (row r : OAuthRefreshTokenRow) (n : String)
      → rotate_live new_token o row st ≡ some (ok r n, st')
      → (s : OAuthStorage) × (insert_refresh_token (successor new_token o row) st ≡ some s)
        × (st' ≡ mark_refresh_token_rotated row.token new_token s)
        × (r ≡ row)
        × (n ≡ new_token)
  unfolding rotate_live
  rotate_live-ok row r n h = ground arith

  rotate-ok_row :
      (r : OAuthRefreshTokenRow) (n : String)
      → rotate_refresh_token new_token o st ≡ some (ok r n, st')
      → (row : OAuthRefreshTokenRow) × (get_refresh_token o.presented_token st ≡ some row)
        × (rotate_row new_token o row st ≡ some (ok r n, st'))
  unfolding rotate_refresh_token
  rotate-ok_row r n h = ground arith

  -- A rotation succeeds only for a stored token of the presenting client that has not been rotated
  -- and is not expired; the row reported is that token's.
  pub rotate-ok_only :
      (r : OAuthRefreshTokenRow) (n : String)
      → rotate_refresh_token new_token o st ≡ some (ok r n, st')
      → (get_refresh_token o.presented_token st ≡ some r)
        × (r.client_id ≡ o.expected_client_id)
        × (r.rotated_to ≡ none)
        × (o.now < r.expires_at)
        × (n ≡ new_token)
  rotate-ok_only r n h =
      let (row, found, step) = rotate-ok_row r n h in
      let (owner, unused, live, tail) = rotate_row-ok row r n step in
      let (s, inserted, e, same, named) = rotate_live-ok row r n tail in
      rw same (found, owner, unused, live, named)

  pub rotate-ok_IsWellFormed :
      (r : OAuthRefreshTokenRow) (n : String)
      → rotate_refresh_token new_token o st ≡ some (ok r n, st')
      → IsWellFormed st
      → IsWellFormed st'
  rotate-ok_IsWellFormed r n h w =
      let (row, found, step) = rotate-ok_row r n h in
      let (owner, unused, live, tail) = rotate_row-ok row r n step in
      let (s, inserted, e, same, named) = rotate_live-ok row r n tail in
      rw e (
        mark_refresh_token_rotated-IsWellFormed row.token new_token
          (insert_refresh_token-IsWellFormed (successor new_token o row) inserted w))

  -- After a successful rotation the presented token is marked with its successor, the successor is
  -- a live token of the same user, client and scope, and every other token is as it was.
  pub rotate-ok_lookup :
      (r : OAuthRefreshTokenRow) (n t : String)
      → rotate_refresh_token new_token o st ≡ some (ok r n, st')
      → get_refresh_token t st' ≡ (
          if o.presented_token == t
          then some (record r { rotated_to = some n })
          else if n == t
          then some (successor n o r)
          else get_refresh_token t st)
  rotate-ok_lookup r n t h =
      let (row, found, step) = rotate-ok_row r n h in
      let (owner, unused, live, tail) = rotate_row-ok row r n step in
      let (s, inserted, e, same, named) = rotate_live-ok row r n tail in
      ground (
        arith,
        get_refresh_token-token o.presented_token st found,
        eq_iff o.presented_token t,
        eq_iff new_token t,
        eq_iff o.presented_token new_token,
        insert_refresh_token-fresh st (successor new_token o row) inserted,
        get-insert_refresh_token t st (successor new_token o row) inserted,
        get-mark_refresh_token_rotated t s row.token new_token,
      )

module _ (new_token : String) (o : RotateOptions) (st : OAuthStorage) where
  -- A stored token that its client presents, that has not been rotated and is not expired is rotated
  -- to the random value, if no stored token has this value.
  pub rotate-total :
      (row : OAuthRefreshTokenRow)
      → get_refresh_token o.presented_token st ≡ some row
      → row.client_id ≡ o.expected_client_id
      → row.rotated_to ≡ none
      → o.now < row.expires_at
      → get_refresh_token new_token st ≡ none
      → (s : OAuthStorage) × (rotate_refresh_token new_token o st ≡ some (ok row new_token, s))
  unfolding rotate_refresh_token rotate_row rotate_live
  rotate-total row found owner unused live fresh =
      let (s, inserted) = insert_refresh_token-total st (successor new_token o row) fresh in
      (
        mark_refresh_token_rotated row.token new_token s,
        ground (arith, eq_iff row.client_id o.expected_client_id),
      )
