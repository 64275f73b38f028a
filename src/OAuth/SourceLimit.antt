-- ===== src/OAuth/SourceLimit.antt =====
-- src/oauth/client-metadata-rate-limit.ts: the limiter of metadata fetches per source address. The
-- map of buckets is ordered by use, the oldest first.
pub mod Bounds
pub mod Retry
use stellara.Prelude.{
  ℕ, suc, ◌+◌, ◌-◌, ◌*◌, ◌/◌, ◌||◌, Bool, true, false, List, [], ◌∷◌, Option, none, some, String,
  if◌then◌else◌, leb, length, max,
}
use stellara.Dict.{get, set, delete}

pub record RateBucket : Type 0 where
  pub count : ℕ
  pub reset_at : ℕ

abbrev pub Buckets : Type 0
Buckets = List (String × RateBucket)

pub record SourceRateLimiter : Type 0 where
  pub buckets : Buckets
  pub misses_since_prune : ℕ

pub record Options : Type 0 where
  pub max_per_minute : ℕ
  pub max_entries : ℕ

abbrev pub rate_window_ms : ℕ
rate_window_ms = 60000

abbrev pub prune_interval : ℕ
prune_interval = 64

-- The default of `maxEntries`.
abbrev pub default_max_entries : ℕ
default_max_entries = 4 * 1024

-- `Math.max(1, Math.ceil(ms / 1000))`
abbrev pub retry_seconds : ℕ → ℕ
retry_seconds ms = max 1 ((ms + 999) / 1000)

unfoldable pub prune_expired_buckets : ℕ → Buckets → Buckets
prune_expired_buckets now [] = []
prune_expired_buckets now ((ip, entry) ∷ m) =
    if leb entry.reset_at now
    then prune_expired_buckets now m
    else (ip, entry) ∷ prune_expired_buckets now m

-- The loop deletes the entry in front while the map is full.
unfoldable pub ensure_capacity : ℕ → Buckets → Buckets
ensure_capacity max_entries [] = []
ensure_capacity max_entries (e ∷ m) =
    let rest = ensure_capacity max_entries m in
    if leb max_entries (length (e ∷ m)) then rest else e ∷ m

-- `matched` carries the seconds to wait, if the request is refused.
pub data Existing : Type 0 where
  unmatched : Existing
  matched : Option ℕ → Existing

unfoldable pub consume_existing : ℕ → String → ℕ → Buckets → Existing × Buckets
consume_existing max_per_minute ip now buckets =
    let without = delete ip buckets in
    elim (get ip buckets) [
      | none ↦ (unmatched, without)
      | some entry ↦
          if leb entry.reset_at now
          then (unmatched, without)
          else if leb max_per_minute entry.count
          then (matched (some (retry_seconds (entry.reset_at - now))), set ip entry without)
          else (
            matched none,
            set ip (record { count = entry.count + 1; reset_at = entry.reset_at }) without,
          )
    ]

-- The first part of `consume`.
unfoldable pub maybe_prune : Options → ℕ → SourceRateLimiter → SourceRateLimiter
maybe_prune o now s =
    if leb prune_interval (s.misses_since_prune + 1) || leb o.max_entries (length s.buckets)
    then record { buckets = prune_expired_buckets now s.buckets; misses_since_prune = 0 }
    else record s { misses_since_prune = s.misses_since_prune + 1 }

-- An unmatched request gets a bucket of its own.
unfoldable pub finish : Options → String → ℕ → Existing × Buckets → Option ℕ × Buckets
finish o ip now (matched retry, left) = (retry, left)
finish o ip now (unmatched, left) = (
  none,
  set ip (record { count = 1; reset_at = now + rate_window_ms })
      (ensure_capacity o.max_entries left),
)

-- The rest of `consume`, on the map after the pruning.
unfoldable pub admit : Options → String → ℕ → Buckets → Option ℕ × Buckets
unfolding finish
admit o ip now buckets = finish o ip now (consume_existing o.max_per_minute ip now buckets)

-- The seconds to wait if the request is refused, and the new state.
unfoldable pub consume : Options → String → ℕ → SourceRateLimiter → Option ℕ × SourceRateLimiter
consume o ip now s =
    let pruned = maybe_prune o now s in
    let (retry, left) = admit o ip now pruned.buckets in (retry, record pruned { buckets = left })

unfoldable pub clear : SourceRateLimiter → SourceRateLimiter
clear s = record { buckets = []; misses_since_prune = 0 }
