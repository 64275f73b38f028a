-- ===== src/OAuth/Reconciliation/Effects.antt =====
-- What the reconciliation of oauth/storage-reconciliation.ts deletes, and what it counts.
use text.Mathlib.Text.{◌==◌}
use stellara.Prelude.{
  ◌+◌, Bool, true, List, [], ◌∷◌, Option, none, some, String, length, ◌≡◌, refl, arith, eq_iff,
  if◌then◌else◌, Option-cases, inl, inr, ◌∙◌,
}
use stellara.Texts.{has}
use stellara.Sql.{select, insert, delete}
use stellara.Sql.Laws.{
  IsKeyed, select-delete, select-insert, insert-fresh, select-update_key, delete-IsKeyed,
}
use stellara.Sql.Counts.{changes-length-delete}
use stellara.OAuth.Storage.{
  OAuthStorage, OAuthMetaRow, get_code, get_refresh_token, get_session, get_meta, upsert_meta,
  meta_key, token_key, code_key, session_key,
}
use stellara.OAuth.Storage.Invariant.{IsWellFormed}
use stellara.OAuth.Reconciliation.{
  snapshot_key, delete_users, delete_authorization_rows, reconcile_snapshot_in_transaction,
}

-- The user is among those whose authorizations are deleted; `none` stands for all.
abbrev pub is_removed : Option (List String) → String → Bool
is_removed none u = true
is_removed (some us) u = has u us

module _ {R : Type 0} (key user_id : R → String) where
  select-delete_users :
      (k : String) (us : List String) (rows : List R)
      → IsKeyed key rows
      → select key k (delete_users user_id us rows).1 ≡ elim (select key k rows) [
        | none ↦ none
        | some r ↦ if has (user_id r) us then none else some r
      ]
  unfolding delete_users has
  select-delete_users k [] rows keyed = ground arith
  select-delete_users k (u ∷ us) rows keyed =
      let p : R → Bool = λ r. user_id r == u in
      let first = select-delete key k p rows keyed in
      let others = select-delete_users k us (delete p rows) (delete-IsKeyed key p rows keyed) in
      elim (Option-cases (select key k rows)) [
        | inl missing ↦ ground (arith, missing, first, others)
        | inr (r, found) ↦
            ground (arith, found, first, others, eq_iff (user_id r) u, eq_iff u (user_id r))
      ]

  select-delete_authorization_rows :
      (k : String) (removed : Option (List String)) (rows : List R)
      → IsKeyed key rows
      → select key k (delete_authorization_rows user_id removed rows).1 ≡ elim (select key k rows) [
        | none ↦ none
        | some r ↦ if is_removed removed (user_id r) then none else some r
      ]
  unfolding delete_authorization_rows select
  select-delete_authorization_rows k none rows keyed = ground arith
  select-delete_authorization_rows k (some us) rows keyed = select-delete_users k us rows keyed

module _ {R : Type 0} (user_id : R → String) where
  count-delete_users :
      (us : List String) (rows : List R)
      → (delete_users user_id us rows).0 + length (delete_users user_id us rows).1 ≡ length rows
  unfolding delete_users
  count-delete_users [] rows = omega arith
  count-delete_users (u ∷ us) rows = omega (
    arith,
    changes-length-delete (λ r. user_id r == u) rows,
    count-delete_users us (delete (λ r. user_id r == u) rows),
  )

  count-delete_authorization_rows :
      (removed : Option (List String)) (rows : List R)
      → (delete_authorization_rows user_id removed rows).0
          + length (delete_authorization_rows user_id removed rows).1
        ≡ length rows
  unfolding delete_authorization_rows
  count-delete_authorization_rows none rows = omega arith
  count-delete_authorization_rows (some us) rows = count-delete_users us rows

upsert_meta-keeps :
    (next : String) (st : OAuthStorage)
    → let st' = upsert_meta snapshot_key next st in
      (st'.oauth_codes ≡ st.oauth_codes)
      × (st'.oauth_refresh_tokens ≡ st.oauth_refresh_tokens)
      × (st'.oauth_sessions ≡ st.oauth_sessions)
      × (st'.oauth_clients ≡ st.oauth_clients)
      × (st'.oauth_keys ≡ st.oauth_keys)
unfolding upsert_meta insert
upsert_meta-keeps next st = ground arith

codes_kept :
    (c next : String) (st : OAuthStorage)
    → get_code c (upsert_meta snapshot_key next st) ≡ get_code c st
unfolding get_code
codes_kept c next st = rw (upsert_meta-keeps next st).0

tokens_kept :
    (t next : String) (st : OAuthStorage)
    → get_refresh_token t (upsert_meta snapshot_key next st) ≡ get_refresh_token t st
unfolding get_refresh_token
tokens_kept t next st = rw (upsert_meta-keeps next st).1

sessions_kept :
    (s next : String) (st : OAuthStorage)
    → get_session s (upsert_meta snapshot_key next st) ≡ get_session s st
unfolding get_session
sessions_kept s next st = rw (upsert_meta-keeps next st).2

stored :
    (next : String) (st : OAuthStorage)
    → get_meta snapshot_key (upsert_meta snapshot_key next st) ≡ some next
unfolding get_meta upsert_meta insert
stored next st = elim (Option-cases (select meta_key snapshot_key st.oauth_meta)) [
  | inl new ↦
      let row : OAuthMetaRow = record { key = snapshot_key; value = next } in
      ground (
        arith,
        new,
        select-insert meta_key snapshot_key row st.oauth_meta
            (insert-fresh meta_key row st.oauth_meta new),
      )
  | inr (r, old) ↦ ground (
    arith,
    old,
    select-update_key meta_key snapshot_key snapshot_key (λ r. record r { value = next })
        st.oauth_meta (λ r. refl),
  )
]

module _ (next : String) (removed_users : Option String → Option (List String)) (st : OAuthStorage)
    (w : IsWellFormed st) where
  -- Afterwards a code, a refresh token and a session are there exactly if they were there before and
  -- their user is not among the removed; the three rows are unchanged.
  pub reconcile-lookup :
      (code token session : String)
      → let removed = removed_users (get_meta snapshot_key st) in
        let st' = (reconcile_snapshot_in_transaction next removed_users st).1 in
        (get_code code st' ≡ elim (get_code code st) [
          | none ↦ none
          | some r ↦ if is_removed removed r.user_id then none else some r
        ])
        × (get_refresh_token token st' ≡ elim (get_refresh_token token st) [
          | none ↦ none
          | some r ↦ if is_removed removed r.user_id then none else some r
        ])
        × (get_session session st' ≡ elim (get_session session st) [
          | none ↦ none
          | some r ↦ if is_removed removed r.user_id then none else some r
        ])
  unfolding reconcile_snapshot_in_transaction get_code get_refresh_token get_session
  reconcile-lookup code token session =
      let removed = removed_users (get_meta snapshot_key st) in
      (
        codes_kept code next _
            ∙ select-delete_authorization_rows code_key (λ r. r.user_id) code removed st.oauth_codes
                w.codes_keyed,
        tokens_kept token next _
            ∙ select-delete_authorization_rows token_key (λ r. r.user_id) token removed
                st.oauth_refresh_tokens w.tokens_keyed,
        sessions_kept session next _
            ∙ select-delete_authorization_rows session_key (λ r. r.user_id) session removed
                st.oauth_sessions w.sessions_keyed,
      )

-- The counts that the transaction reports are the numbers of rows that are gone from each table, the
-- snapshot that it leaves is the new one, and clients and signing keys stay as they were.
pub reconcile-counts :
    (next : String) (removed_users : Option String → Option (List String)) (st : OAuthStorage)
    → let (result, st') = reconcile_snapshot_in_transaction next removed_users st in
      (result.deleted_codes + length st'.oauth_codes ≡ length st.oauth_codes)
      × (result.deleted_refresh_tokens + length st'.oauth_refresh_tokens
          ≡ length st.oauth_refresh_tokens)
      × (result.deleted_sessions + length st'.oauth_sessions ≡ length st.oauth_sessions)
      × (get_meta snapshot_key st' ≡ some next)
      × (st'.oauth_clients ≡ st.oauth_clients)
      × (st'.oauth_keys ≡ st.oauth_keys)
unfolding reconcile_snapshot_in_transaction
reconcile-counts next removed_users st =
    let removed = removed_users (get_meta snapshot_key st) in
    let kept = upsert_meta-keeps next (record st {
      oauth_codes = (delete_authorization_rows (λ r. r.user_id) removed st.oauth_codes).1;
      oauth_refresh_tokens =
          (delete_authorization_rows (λ r. r.user_id) removed st.oauth_refresh_tokens).1;
      oauth_sessions = (delete_authorization_rows (λ r. r.user_id) removed st.oauth_sessions).1;
    }) in
    (
      rw kept.0 (count-delete_authorization_rows (λ r. r.user_id) removed st.oauth_codes),
      rw kept.1 (count-delete_authorization_rows (λ r. r.user_id) removed st.oauth_refresh_tokens),
      rw kept.2 (count-delete_authorization_rows (λ r. r.user_id) removed st.oauth_sessions),
      stored next _,
      kept.3,
      kept.4,
    )
