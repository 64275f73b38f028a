-- ===== src/OAuth/Session.antt =====
-- src/oauth/session.ts: login sessions with sliding renewal. The random session id and the time are
-- arguments; the lifetime and the threshold are those of the manager.
pub mod Lifetime
use stellara.Prelude.{ℕ, ◌+◌, ◌-◌, ◌*◌, Bool, Option, none, some, String, if◌then◌else◌, leb, ltb}
use stellara.OAuth.Storage.{
  OAuthStorage, OAuthSessionRow, insert_session, get_session, extend_session, delete_session,
}

-- `ttlMs` and `slidingThresholdMs` of `createSessionManager`.
pub record SessionManager : Type 0 where
  pub ttl_ms : ℕ
  pub sliding_threshold_ms : ℕ

-- The default of `slidingRenewalThresholdMs`.
abbrev pub default_sliding_renewal_ms : ℕ
default_sliding_renewal_ms = 3600000

abbrev pub create_session_manager : ℕ → Option ℕ → SessionManager
create_session_manager ttl_seconds none = record {
  ttl_ms = ttl_seconds * 1000;
  sliding_threshold_ms = default_sliding_renewal_ms;
}
create_session_manager ttl_seconds (some ms) = record {
  ttl_ms = ttl_seconds * 1000;
  sliding_threshold_ms = ms;
}

pub data ResolveSessionResult : Type 0 where
  expired : ResolveSessionResult
  ok : String → String → ℕ → ResolveSessionResult
  unknown : ResolveSessionResult

-- The answer is the session id with the end of the session; `none` is an exception.
unfoldable pub create_session :
    SessionManager → String → ℕ → String → OAuthStorage → Option ((String × ℕ) × OAuthStorage)
create_session m session_id now user_id st =
    elim (insert_session
      (record {
        session_id = session_id;
        user_id = user_id;
        issued_at = now;
        expires_at = now + m.ttl_ms;
      })
      st) [ none ↦ none | some st' ↦ some ((session_id, now + m.ttl_ms), st') ]

-- The part of `resolveSession` behind the lookup. A negative `ttlMs - slidingThresholdMs` is above
-- no remaining time, and neither is the 0 that stands for it here.
unfoldable pub resolve_row :
    SessionManager
    → String
    → ℕ
    → OAuthSessionRow
    → OAuthStorage
    → ResolveSessionResult × OAuthStorage
resolve_row m session_id now row st =
    if leb row.expires_at now
    then (expired, (delete_session session_id st).1)
    else if ltb (row.expires_at - now) (m.ttl_ms - m.sliding_threshold_ms)
    then (ok row.user_id session_id (now + m.ttl_ms), extend_session session_id (now + m.ttl_ms) st)
    else (ok row.user_id session_id row.expires_at, st)

unfoldable pub resolve_session :
    SessionManager → String → ℕ → OAuthStorage → ResolveSessionResult × OAuthStorage
resolve_session m session_id now st = elim (get_session session_id st) [
  | none ↦ (unknown, st)
  | some row ↦ resolve_row m session_id now row st
]

unfoldable pub destroy_session : String → OAuthStorage → Bool × OAuthStorage
destroy_session session_id st = delete_session session_id st
