-- ===== src/Examples/StaticTokens.antt =====
-- A boot after a token was taken away, and the primary keys over a history.
use stellara.Prelude.{Bool, false, List, [], ◌∷◌, Option, none, some, String, ◌≡◌, ◌⊎◌, refl}
use stellara.Sql.{select}
use stellara.Texts.{has}
use stellara.Web.{Json, arr, num, str, obj, member, end, cons, nil}
use stellara.OAuth.Storage.{OAuthStorage, OAuthRefreshTokenRow, empty, get_meta, get_refresh_token}
use stellara.OAuth.Storage.Invariant
use stellara.OAuth.Storage.Invariant.{IsWellFormed, Statement, run}
use stellara.OAuth.Reconciliation.{snapshot_key}
use stellara.OAuth.StaticTokens.Removal.{LostBy}
use stellara.OAuth.StaticTokens.{
  Users, sort, is_fingerprint, fingerprints_of, valid_users, parse_snapshot,
  build_static_token_snapshot, reconcile_static_token_state,
}
use stellara.OAuth.StaticTokens.Boot.{boot-refresh_token}

abbrev before : String → String → Bool
before a b = false

abbrev print : String
print = "0123456789abcdef0123456789abcdef0123456789abcdef0123456789abcdef"

abbrev fingerprint : String → String
fingerprint token = token

abbrev to_lower_case : String → String
to_lower_case s = s

abbrev quote : String → String
quote s = s

abbrev quote_array : List String → String
quote_array ss = ""

-- The snapshot in which Ann has one token.
abbrev parse_json : String → Option Json
parse_json s = some (
    obj (
      member "version" (num 1)
        (member "users" (obj (member "ann" (arr (cons (str print) nil)) end)) end)))

abbrev previous : Users
previous = ("ann", print ∷ []) ∷ []

abbrev tokens : List (String × String)
tokens = ("abc", "bob") ∷ []

abbrev revoked : List String
revoked = []

abbrev u : String
u = "bob"

abbrev v : String
v = "abc"

abbrev t : String
t = "t1"

abbrev r : OAuthRefreshTokenRow
r = record {
  token = t;
  client_id = "c";
  user_id = "ann";
  scope = "mcp";
  issued_at = 0;
  expires_at = 9000;
  rotated_to = none;
}

abbrev st : OAuthStorage
st = record empty {
  oauth_meta = record { key = snapshot_key; value = "snapshot" } ∷ [];
  oauth_refresh_tokens = r ∷ [];
}

w : IsWellFormed st
unfolding select
w = record {
  meta_keyed = (refl, tt);
  clients_keyed = tt;
  codes_keyed = tt;
  tokens_keyed = (refl, tt);
  sessions_keyed = tt;
  keys_keyed = tt;
}

abbrev next : String
next = "{}"

abbrev removed_users : Option String → Option (List String)
removed_users raw = some ("ann" ∷ [])

abbrev code : String
code = "code"

abbrev session : String
session = "sid"

abbrev ss : List Statement
ss = Invariant.insert_refresh_token r ∷ Invariant.delete_refresh_tokens_for_user "ann" ∷ []

boot-refresh_token_example :
    let current = build_static_token_snapshot before fingerprint to_lower_case tokens revoked in
    let st' =
      (reconcile_static_token_state before fingerprint to_lower_case quote quote_array parse_json
        tokens revoked st).1 in
    (LostBy previous current r.user_id × (get_refresh_token t st' ≡ none))
    ⊎ ((¬ LostBy previous current r.user_id) × (get_refresh_token t st' ≡ some r))
unfolding parse_snapshot valid_users fingerprints_of is_fingerprint has get_meta get_refresh_token
    select sort
boot-refresh_token_example =
    boot-refresh_token before fingerprint to_lower_case quote quote_array parse_json tokens revoked
      st w previous t r refl refl
