-- ===== src/OAuth/StaticTokens/Boot.antt =====
-- The reconciliation that oauth/static-token-state.ts runs at each boot.
use stellara.Prelude.{Bool, List, Option, none, some, String, ◌≡◌, arith, Bool-cases, inl, inr, ◌⊎◌}
use stellara.Texts.{has}
use stellara.Web.{Json}
use stellara.OAuth.Storage.{OAuthStorage, OAuthRefreshTokenRow, get_refresh_token, get_meta}
use stellara.OAuth.Storage.Invariant.{IsWellFormed}
use stellara.OAuth.Reconciliation.{snapshot_key}
use stellara.OAuth.Reconciliation.Effects.{reconcile-lookup}
use stellara.OAuth.StaticTokens.{
  Users, build_static_token_snapshot, parse_snapshot, serialize_snapshot, removed_from,
  users_with_removed_tokens, reconcile_static_token_state,
}
use stellara.OAuth.StaticTokens.Removal.{LostBy, removed_from_iff}

module _ (before : String → String → Bool) (fingerprint to_lower_case quote : String → String)
    (quote_array : List String → String) (parse_json : String → Option Json)
    (tokens : List (String × String)) (revoked : List String) (st : OAuthStorage)
    (w : IsWellFormed st) where
  -- At a boot with a readable snapshot a refresh token is deleted if its user lost a static token
  -- since then, and is otherwise as it was.
  pub boot-refresh_token :
      (previous : Users) (t : String) (r : OAuthRefreshTokenRow)
      → parse_snapshot before to_lower_case parse_json (get_meta snapshot_key st) ≡ some previous
      → get_refresh_token t st ≡ some r
      → let current = build_static_token_snapshot before fingerprint to_lower_case tokens revoked in
        let st' =
          (reconcile_static_token_state before fingerprint to_lower_case quote quote_array
            parse_json tokens revoked st).1 in
        (LostBy previous current r.user_id × (get_refresh_token t st' ≡ none))
        ⊎ ((¬ LostBy previous current r.user_id) × (get_refresh_token t st' ≡ some r))
  unfolding reconcile_static_token_state users_with_removed_tokens
  boot-refresh_token previous t r parsed found =
      let current = build_static_token_snapshot before fingerprint to_lower_case tokens revoked in
      let looked =
        (reconcile-lookup (serialize_snapshot before quote quote_array current)
          (λ raw.
            users_with_removed_tokens (parse_snapshot before to_lower_case parse_json raw) current)
          st w "" t "").1 in
      let decided = removed_from_iff previous current r.user_id in
      elim (Bool-cases (has r.user_id (removed_from previous current))) [
        | inl gone ↦ inl (decided.0 gone, ground (arith, looked, parsed, found, gone))
        | inr kept ↦ inr (λ l. cc (decided.1 l), ground (arith, looked, parsed, found, kept))
      ]

  -- At a boot with no readable snapshot every refresh token is deleted.
  pub boot-reset :
      (t : String)
      → parse_snapshot before to_lower_case parse_json (get_meta snapshot_key st) ≡ none
      → get_refresh_token t
          (reconcile_static_token_state before fingerprint to_lower_case quote quote_array
            parse_json tokens revoked st).1
        ≡ none
  unfolding reconcile_static_token_state users_with_removed_tokens
  boot-reset t parsed =
      let current = build_static_token_snapshot before fingerprint to_lower_case tokens revoked in
      let looked =
        (reconcile-lookup (serialize_snapshot before quote quote_array current)
          (λ raw.
            users_with_removed_tokens (parse_snapshot before to_lower_case parse_json raw) current)
          st w "" t "").1 in
      ground (arith, looked, parsed)
