-- ===== src/OAuth/Tokens/Replay.antt =====
-- Replay detection of oauth/tokens.ts, and the refusals, which change nothing else.
use stellara.Prelude.{
  ℕ, ◌+◌, length, true, Option, none, ◌∙◌, ap, some, String, if◌then◌else◌, ◌≡◌, refl, arith,
  eq_iff,
}
use text.Mathlib.Text.{◌==◌}
use stellara.Sql.Counts.{changes-length-delete}
use stellara.OAuth.Storage.{
  OAuthStorage, OAuthRefreshTokenRow, get_refresh_token, in_chain, delete_refresh_token_chain,
}
use stellara.OAuth.Storage.Lookup.{get-delete_refresh_token_chain}
use stellara.OAuth.Storage.Invariant.{IsWellFormed}
use stellara.OAuth.Tokens.{
  RotationResult, ok, expired, replay, unknown_client, unknown, RotateOptions, successor,
  rotate_live, rotate_row, rotate_refresh_token,
}
use stellara.OAuth.Tokens.Rotation.{rotate-ok_only, rotate-ok_lookup}

-- The outcomes that are neither a rotation nor a replay.
abbrev pub IsRefusal : RotationResult → Type 0
IsRefusal (ok row n) = ⊥
IsRefusal (replay k) = ⊥
IsRefusal _ = Unit

module _ (new_token : String) (o : RotateOptions) (st : OAuthStorage) where
  rotate-replay_eq :
      (row : OAuthRefreshTokenRow) (next : String)
      → get_refresh_token o.presented_token st ≡ some row
      → row.client_id ≡ o.expected_client_id
      → row.rotated_to ≡ some next
      → rotate_refresh_token new_token o st
        ≡ some (
          replay (delete_refresh_token_chain row.user_id row.client_id st).0,
          (delete_refresh_token_chain row.user_id row.client_id st).1,
        )
  unfolding rotate_refresh_token rotate_row
  rotate-replay_eq row next found owner rotated =
      ground (arith, eq_iff row.client_id o.expected_client_id)

  -- A rotated token that its client presents again is a replay: exactly the tokens of its user and
  -- client are deleted, and the number reported is the number of rows that are gone.
  pub rotate-replay :
      (row : OAuthRefreshTokenRow) (next t : String)
      → IsWellFormed st
      → get_refresh_token o.presented_token st ≡ some row
      → row.client_id ≡ o.expected_client_id
      → row.rotated_to ≡ some next
      → (k : ℕ) × (s : OAuthStorage) × (rotate_refresh_token new_token o st ≡ some (replay k, s))
        × (k + length s.oauth_refresh_tokens ≡ length st.oauth_refresh_tokens)
        × (get_refresh_token t s ≡ elim (get_refresh_token t st) [
          | none ↦ none
          | some r ↦ if in_chain row.user_id row.client_id r then none else some r
        ])
  unfolding delete_refresh_token_chain
  rotate-replay row next t w found owner rotated = (
    _,
    _,
    rotate-replay_eq row next found owner rotated,
    changes-length-delete (in_chain row.user_id row.client_id) st.oauth_refresh_tokens,
    get-delete_refresh_token_chain t st row.user_id row.client_id w.tokens_keyed,
  )

  -- Unknown, foreign and expired tokens leave the database as it was.
  pub rotate-refused :
      (result : RotationResult) {st' : OAuthStorage}
      → IsRefusal result
      → rotate_refresh_token new_token o st ≡ some (result, st')
      → st' ≡ st
  unfolding rotate_refresh_token rotate_row rotate_live
  rotate-refused expired refused h = ground arith
  rotate-refused unknown refused h = ground arith
  rotate-refused unknown_client refused h = ground arith
  rotate-refused _ refused h = absurd refused

-- A token is rotated, and in a later database, in which its row stands as the rotation left it, it is
-- presented again by its client: the answer is `replay`, and exactly the tokens of its user and client
-- are deleted. Its successor was one of them.
pub replay-revokes_chain :
    (fresh fresh' : String) (o o' : RotateOptions) (st st' later : OAuthStorage)
    (r : OAuthRefreshTokenRow) (n : String)
    → IsWellFormed later
    → rotate_refresh_token fresh o st ≡ some (ok r n, st')
    → get_refresh_token o.presented_token later ≡ get_refresh_token o.presented_token st'
    → o'.presented_token ≡ o.presented_token
    → o'.expected_client_id ≡ o.expected_client_id
    → (k : ℕ) × (s : OAuthStorage) × (next : OAuthRefreshTokenRow) × (rotate_refresh_token fresh' o'
          later
        ≡ some (replay k, s))
      × (get_refresh_token n st' ≡ some next)
      × (in_chain r.user_id o.expected_client_id next ≡ true)
      × (get_refresh_token o.presented_token s ≡ none)
      × ((t : String)
          → get_refresh_token t s ≡ elim (get_refresh_token t later) [
            | none ↦ none
            | some x ↦ if in_chain r.user_id o.expected_client_id x then none else some x
          ])
replay-revokes_chain fresh fresh' o o' st st' later r n w h stands same client =
    let (found, owner, unused, live, named) = rotate-ok_only fresh o st r n h in
    let row : OAuthRefreshTokenRow = record r { rotated_to = some n } in
    let reflexive = (eq_iff o.presented_token o.presented_token).1 refl in
    let marked : get_refresh_token o.presented_token later ≡ some row =
      stands ∙ ground (arith, reflexive, rotate-ok_lookup fresh o st r n o.presented_token h) in
    let gone = λ (t : String).
      get-delete_refresh_token_chain t later row.user_id row.client_id w.tokens_keyed in
    let users = (eq_iff r.user_id r.user_id).1 refl in
    let clients = (eq_iff r.client_id r.client_id).1 refl in
    (
      _,
      _,
      (if o.presented_token == n then row else successor n o r),
      rotate-replay_eq fresh' o' later row n (rw same marked) (rw client owner) refl,
      ground (arith, rotate-ok_lookup fresh o st r n n h, (eq_iff n n).1 refl),
      ground (arith, users, owner, (eq_iff r.client_id o.expected_client_id).1 owner),
      ground (arith, marked, gone o.presented_token, users, clients),
      λ t.
          gone t
          ∙ ap
              (λ c. elim (get_refresh_token t later) as (λ _. Option OAuthRefreshTokenRow) [
                | none ↦ none
                | some x ↦ if in_chain r.user_id c x then none else some x
              ])
              owner,
    )
