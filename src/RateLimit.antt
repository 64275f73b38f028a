-- ===== src/RateLimit.antt =====
-- src/rate-limit.ts: the limit per address for requests without a bearer token. The time is an
-- argument. The limit per user is the plugin @fastify/rate-limit.
pub mod Window
use stellara.Prelude.{
  ℕ, ◌+◌, ◌-◌, ◌/◌, ◌||◌, Option, none, some, List, String, if◌then◌else◌, leb, max,
}
use stellara.Dict.{get, set}
use stellara.Auth.{Request, is_public_request, has_bearer_header}

pub record UnauthCounter : Type 0 where
  pub count : ℕ
  pub reset_at : ℕ

abbrev pub Counters : Type 0
Counters = List (String × UnauthCounter)

pub record Limits : Type 0 where
  pub max_hits : ℕ
  pub window_ms : ℕ

-- `none` for `allowed: true`, and otherwise the seconds to wait.
unfoldable pub record_unauth_hit : Limits → String → ℕ → Counters → Option ℕ × Counters
record_unauth_hit limits ip now counters =
    let fresh = set ip (record { count = 1; reset_at = now + limits.window_ms }) counters in
    elim (get ip counters) [
      | none ↦ (none, fresh)
      | some entry ↦ if leb entry.reset_at now then (none, fresh) else (
        if leb (entry.count + 1) limits.max_hits
            then none
            else some (max 1 ((entry.reset_at - now + 999) / 1000)),
        set ip (record { count = entry.count + 1; reset_at = entry.reset_at }) counters,
      )
    ]

-- The hook: `none` lets the request pass, and a number is the answer 429 with these seconds.
unfoldable pub unauth_hook : Limits → Request → ℕ → Counters → Option ℕ × Counters
unauth_hook limits request now counters =
    if is_public_request request || has_bearer_header request.authorization
    then (none, counters)
    else record_unauth_hit limits request.ip now counters
