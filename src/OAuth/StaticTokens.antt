-- ===== src/OAuth/StaticTokens.antt =====
-- src/oauth/static-token-state.ts: which users lose their authorizations at a boot. The hash
-- `fingerprint`, `toLowerCase`, the order of `sort` and `JSON.parse` are parameters.
pub mod Removal
pub mod Boot
pub mod Snapshot
use Prim.Native.Char.{code}
use Prim.Native.String
use text.Mathlib.Text.{◌==◌}
use stellara.Prelude.{
  ℕ, ◌+◌, Bool, true, false, not, ◌&&◌, ◌||◌, List, [], ◌∷◌, Option, none, some, String, length,
  leb, ◌==ℕ◌, if◌then◌else◌, any, all, map,
}
use stellara.Dict.{get, set}
use stellara.OAuth.Storage.{OAuthStorage}
use stellara.OAuth.Reconciliation.{
  AuthorizationReconciliationResult, reconcile_snapshot_in_transaction,
}
use stellara.Texts.{has, add}
use stellara.Web.{
  Json, null, bool, num, other_num, str, arr, obj, Items, nil, cons, Members, end, member,
}

-- The `users` of a snapshot: each user's fingerprints.
abbrev pub Users : Type 0
Users = List (String × List String)

abbrev pub or_empty : Option (List String) → List String
or_empty none = []
or_empty (some vs) = vs

module _ (before : String → String → Bool) where
  place : String → List String → List String
  place v [] = v ∷ []
  place v (w ∷ ws) = if before v w then v ∷ w ∷ ws else w ∷ place v ws

  unfoldable pub sort : List String → List String
  unfolding place
  sort [] = []
  sort (v ∷ vs) = place v (sort vs)

module _ (before : String → String → Bool) (fingerprint to_lower_case : String → String) where
  -- The loop over the configured tokens.
  unfoldable pub group_tokens : List (String × String) → List String → Users → Users
  group_tokens [] revoked grouped = grouped
  group_tokens ((token, raw_user_id) ∷ tokens) revoked grouped =
      let user_id = to_lower_case raw_user_id in
      group_tokens tokens revoked (
        if has token revoked
        then grouped
        else set user_id (add (fingerprint token) (or_empty (get user_id grouped))) grouped)

  sorted_users : List String → Users → Users
  sorted_users [] grouped = []
  sorted_users (u ∷ us) grouped =
      (u, sort before (or_empty (get u grouped))) ∷ sorted_users us grouped

  -- Tokens and their users in order, and the revoked tokens.
  unfoldable pub build_static_token_snapshot : List (String × String) → List String → Users
  unfolding sorted_users group_tokens
  build_static_token_snapshot tokens revoked =
      let grouped = group_tokens tokens revoked [] in
      sorted_users (sort before (map (λ e. e.0) grouped)) grouped

-- /^[0-9a-f]{64}$/u
abbrev is_hex_digit : ℕ → Bool
is_hex_digit c = leb b'0' c && leb c b'9' || leb b'a' c && leb c b'f'

hex_of_length : ℕ → String → Bool
hex_of_length n String.[] = n ==ℕ 64
hex_of_length n (String.◌∷◌ c s) = is_hex_digit (code c) && hex_of_length (n + 1) s

unfoldable pub is_fingerprint : String → Bool
unfolding hex_of_length
is_fingerprint s = hex_of_length 0 s

-- The fingerprints of an array, if every entry is one.
unfoldable pub fingerprints_of : Items → Option (List String)
fingerprints_of nil = some []
fingerprints_of (cons (str v) vs) = elim (fingerprints_of vs) [
  | none ↦ none
  | some ws ↦ if is_fingerprint v then some (v ∷ ws) else none
]
fingerprints_of (cons _ vs) = none

abbrev has_duplicates : List String → Bool
has_duplicates [] = false
has_duplicates (v ∷ vs) = has v vs || has_duplicates vs

-- The checks on one user's value.
abbrev valid_values : Json → Option (List String)
valid_values (arr (cons v vs)) = elim (fingerprints_of (cons v vs)) [
  | none ↦ none
  | some ws ↦ if has_duplicates ws then none else some ws
]
valid_values _ = none

-- `.join(",")`
join : List String → String
join [] = ""
join (k ∷ []) = k
join (k ∷ l ∷ ks) = String.◌++◌ k (String.◌++◌ "," (join (l ∷ ks)))

module _ (before : String → String → Bool) (to_lower_case : String → String) where
  -- `isValidUsers`, with the users that it accepts.
  unfoldable pub valid_users : Members → Option Users
  valid_users end = some []
  valid_users (member user_id values rest) =
      let others = valid_users rest in
      if user_id == "" || not (user_id == to_lower_case user_id)
      then none
      else elim (valid_values values) [
        | none ↦ none
        | some ws ↦ elim others [ none ↦ none | some us ↦ some ((user_id, ws) ∷ us) ]
      ]

  keys : Members → List String
  keys end = []
  keys (member k v rest) = k ∷ keys rest

  field : String → Members → Option Json
  field name end = none
  field name (member k v rest) = if k == name then some v else field name rest

  is_one : Option Json → Bool
  is_one (some (num n)) = n ==ℕ 1
  is_one _ = false

  users_field : Option Json → Option Users
  users_field (some (obj members)) = valid_users members
  users_field _ = none

  parse_record : Json → Option Users
  unfolding is_one users_field field join keys
  parse_record (obj members) =
      if not (is_one (field "version" members))
        || not (join (sort before (keys members)) == "users,version")
      then none
      else users_field (field "users" members)
  parse_record _ = none

  -- `none` for metadata that is missing, malformed or of another version.
  unfoldable pub parse_snapshot : (String → Option Json) → Option String → Option Users
  unfolding parse_record
  parse_snapshot parse_json none = none
  parse_snapshot parse_json (some raw) = elim (parse_json raw) [
    | none ↦ none
    | some parsed ↦ parse_record parsed
  ]

module _ (before : String → String → Bool) (quote : String → String)
    (quote_array : List String → String) where
  entries : List String → Users → List String
  entries [] users = []
  entries (u ∷ us) users =
      String.◌++◌ (quote u) (String.◌++◌ ":" (quote_array (or_empty (get u users))))
      ∷ entries us users

  -- `quote` and `quote_array` are `JSON.stringify` of a text and of an array of texts.
  unfoldable pub serialize_snapshot : Users → String
  unfolding entries join
  serialize_snapshot users =
      String.◌++◌ "{\"version\":1,\"users\":{"
        (String.◌++◌ (join (entries (sort before (map (λ e. e.0) users)) users)) "}}")

-- The loop over the previous users.
unfoldable pub removed_from : Users → Users → List String
removed_from [] current = []
removed_from ((user_id, fingerprints) ∷ rest) current =
    let others = removed_from rest current in
    if any (λ v. not (has v (or_empty (get user_id current)))) fingerprints
    then add user_id others
    else others

-- `none` if the previous snapshot cannot be trusted.
unfoldable pub users_with_removed_tokens : Option Users → Users → Option (List String)
users_with_removed_tokens none current = none
users_with_removed_tokens (some previous) current = some (removed_from previous current)

module _ (before : String → String → Bool) (fingerprint to_lower_case quote : String → String)
    (quote_array : List String → String) (parse_json : String → Option Json) where
  unfoldable pub reconcile_static_token_state :
      List (String × String)
      → List String
      → OAuthStorage
      → AuthorizationReconciliationResult × OAuthStorage
  reconcile_static_token_state tokens revoked st =
      let current = build_static_token_snapshot before fingerprint to_lower_case tokens revoked in
      reconcile_snapshot_in_transaction (serialize_snapshot before quote quote_array current)
        (λ previous.
          users_with_removed_tokens (parse_snapshot before to_lower_case parse_json previous)
            current)
        st
