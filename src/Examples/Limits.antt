-- ===== src/Examples/Limits.antt =====
-- The two limiters, sessions and the cutover.
use stellara.Prelude.{
  ◌⊎◌, ℕ, ◌+◌, ◌<◌, ◌≤◌, List, [], ◌∷◌, Option, none, some, String, ◌≡◌, refl, arith,
}
use stellara.Dict.{get, set, delete}
use stellara.Sql.{select, insert}
use stellara.OAuth.SourceLimit.{
  Options, SourceRateLimiter, consume, maybe_prune, admit, finish, consume_existing,
}
use stellara.OAuth.SourceLimit.Bounds.{IsBounded}
use stellara.OAuth.Clients.Quota.{Attempt, allowed_of}
use stellara.OAuth.Storage.{
  OAuthStorage, OAuthSessionRow, empty, get_session, get_or_initialize_meta, insert_or_ignore_meta,
  get_meta,
}
use stellara.OAuth.Session.{SessionManager, ok, create_session_manager, resolve_session}
use stellara.OAuth.Resource.{initialize_resource_cutover}
use stellara.OAuth.SourceLimit.Bounds.{consume-IsBounded}
use stellara.OAuth.SourceLimit.Retry.{retry_suffices}
use stellara.OAuth.Clients.Quota.{allowed_of-hour}
use stellara.OAuth.Session.Lifetime.{resolve-live}
use stellara.OAuth.Resource.Cutover.{cutover_once}

abbrev o : Options
o = record { max_per_minute = 1; max_entries = 2 }

abbrev ip : String
ip = "::1"

abbrev now : ℕ
now = 100

-- The address has used up its one request.
abbrev s : SourceRateLimiter
s = record { buckets = (ip, record { count = 1; reset_at = 30100 }) ∷ []; misses_since_prune = 0 }

s-IsBounded : IsBounded o now s.buckets
unfolding get
s-IsBounded = record {
  unique = (refl, tt);
  sized = omega arith;
  fair = ((omega arith, omega arith), tt);
}

abbrev r : ℕ
r = 30

abbrev limit : ℕ
limit = 2

abbrev attempts : List Attempt
attempts = (ip, 5) ∷ ("::2", 6) ∷ (ip, 7) ∷ (ip, 8) ∷ []

abbrev m : SessionManager
m = create_session_manager 3600 none

abbrev id : String
id = "sid"

abbrev user : String
user = "ann"

abbrev row : OAuthSessionRow
row = record { session_id = id; user_id = user; issued_at = now; expires_at = 3600100 }

abbrev st' : OAuthStorage
st' = record empty { oauth_sessions = row ∷ [] }

abbrev e : ℕ
e = 3600100

abbrev parse_number : String → Option ℕ
parse_number s = some 7

abbrev answer : Option ℕ
answer = some 7

consume-IsBounded_example : IsBounded o now (consume o ip now s).1.buckets
consume-IsBounded_example = consume-IsBounded o ip now s (omega arith) (omega arith) s-IsBounded

retry_suffices_example : (consume o ip 30100 (consume o ip now s).1).0 ≡ none
unfolding consume maybe_prune admit finish consume_existing get set delete
retry_suffices_example =
    retry_suffices o ip now 30100 s r (omega arith) (omega arith) s-IsBounded refl (omega arith)

allowed_of-hour_example : allowed_of limit ip attempts [] ≤ limit
unfolding get
allowed_of-hour_example = allowed_of-hour limit ip 5 attempts ([]) (omega arith) tt (ground arith)

resolve-live_example :
    (e : ℕ) × ((resolve_session m id now st').0 ≡ ok row.user_id id e)
    × (get_session id (resolve_session m id now st').1 ≡ some (record row { expires_at = e }))
    × (row.expires_at ≤ e)
    × (((row.expires_at + m.sliding_threshold_ms < now + m.ttl_ms) × (e ≡ now + m.ttl_ms))
        ⊎ ((now + m.ttl_ms ≤ row.expires_at + m.sliding_threshold_ms) × (e ≡ row.expires_at)))
unfolding get_session select
resolve-live_example = resolve-live m id now st' row refl (omega arith)

cutover_once_example :
    initialize_resource_cutover parse_number "9" (record empty {
      oauth_meta = record { key = "oauth_resource_required_since"; value = "7" } ∷ [];
    })
    ≡ some (
      answer,
      (record empty {
        oauth_meta = record { key = "oauth_resource_required_since"; value = "7" } ∷ [];
      }),
    )
unfolding initialize_resource_cutover get_or_initialize_meta insert_or_ignore_meta get_meta insert
    select
cutover_once_example = cutover_once parse_number "7" "9" empty answer refl
