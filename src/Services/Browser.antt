-- ===== src/Services/Browser.antt =====
-- src/services/playwright.ts and playwright-pool.ts: the pool of browser sessions. The browser, its
-- contexts and pages are outside the model; what they do in an `await` is the order of the events.
-- The code runs from one `await` to the next without interruption, so that an event is one such
-- run. The session id of `ulid()` and the time are part of the event.
pub mod Capacity
pub mod Overlap
pub mod Ownership
use text.Mathlib.Text.{◌==◌}
use stellara.Prelude.{
  ℕ, ◌+◌, ◌-◌, ◌||◌, Bool, true, false, Option, none, some, List, [], ◌∷◌, String, if◌then◌else◌,
  leb, length, not,
}
use stellara.Dict.{get, set, delete}

abbrev pub idle_timeout_ms : ℕ
idle_timeout_ms = 300000

abbrev pub hard_lifetime_ms : ℕ
hard_lifetime_ms = 1800000

pub record SessionEntry : Type 0 where
  pub session_id : String
  pub user_id : String
  pub created_at : ℕ
  pub last_action_at : ℕ
  pub hard_deadline : ℕ

abbrev pub Sessions : Type 0
Sessions = List (String × SessionEntry)

pub record Caps : Type 0 where
  pub max_sessions : ℕ
  pub max_sessions_per_user : ℕ

-- The `userCount` of the capacity check.
unfoldable pub count_user : String → Sessions → ℕ
count_user user [] = 0
count_user user ((id, entry) ∷ sessions) =
    (if entry.user_id == user then 1 else 0) + count_user user sessions

pub data Refusal : Type 0 where
  global_session_limit : Refusal
  user_session_limit : Refusal

-- `none` where the call returns, and what it throws otherwise.
unfoldable pub enforce_capacity : Caps → String → Sessions → Option Refusal
enforce_capacity caps user sessions =
    if leb caps.max_sessions (length sessions)
    then some global_session_limit
    else if leb caps.max_sessions_per_user (count_user user sessions)
    then some user_session_limit
    else none

abbrev pub new_entry : String → String → ℕ → SessionEntry
new_entry session_id user now = record {
  session_id = session_id;
  user_id = user;
  created_at = now;
  last_action_at = now;
  hard_deadline = now + hard_lifetime_ms;
}

unfoldable pub register_session : String → String → ℕ → Sessions → Sessions
register_session session_id user now sessions =
    set session_id (new_entry session_id user now) sessions

-- `none` is `NOT_FOUND`, for an unknown session and for one of another user.
unfoldable pub get_owned_session : String → String → Sessions → Option SessionEntry
get_owned_session session_id user sessions = elim (get session_id sessions) [
  | none ↦ none
  | some entry ↦ if not (entry.user_id == user) then none else some entry
]

unfoldable pub is_expired : ℕ → SessionEntry → Bool
is_expired now entry =
    leb idle_timeout_ms (now - entry.last_action_at) || leb entry.hard_deadline now

unfoldable pub evict_expired_sessions : ℕ → Sessions → Sessions
evict_expired_sessions now [] = []
evict_expired_sessions now ((id, entry) ∷ sessions) =
    let rest = evict_expired_sessions now sessions in
    if is_expired now entry then rest else (id, entry) ∷ rest

-- `starting` holds the user of every `startSession` that has passed its checks and waits for the
-- browser, the context or the page.
pub record Client : Type 0 where
  pub sessions : Sessions
  pub starting : List String
  pub closed : Bool

unfoldable pub is_starting : String → List String → Bool
is_starting user [] = false
is_starting user (u ∷ us) = u == user || is_starting user us

unfoldable pub remove_one : String → List String → List String
remove_one user [] = []
remove_one user (u ∷ us) = if u == user then us else u ∷ remove_one user us

-- `start` is `startSession` up to its first `await`, `opened` the registration after the page is
-- loaded, and `failed` the error path. `acted` is the end of an action that `runOnContext` runs.
pub data Event : Type 0 where
  start : String → Event
  opened : String → String → ℕ → Event
  failed : String → Event
  acted : String → String → ℕ → Event
  stop : String → String → Event
  sweep : ℕ → Event
  close : Event

unfoldable pub start_session : Caps → String → Client → Client
start_session caps user c = if c.closed then c else elim (enforce_capacity caps user c.sessions) [
  | some refusal ↦ c
  | none ↦ record c { starting = user ∷ c.starting }
]

unfoldable pub open_context : String → String → ℕ → Client → Client
open_context user session_id now c =
    if is_starting user c.starting
    then record c {
      sessions = register_session session_id user now c.sessions;
      starting = remove_one user c.starting;
    }
    else c

-- An action that ends without an error; it may end after the session has left the pool or the
-- client is closed.
unfoldable pub finish_action : String → String → ℕ → Client → Client
finish_action session_id user now c = elim (get_owned_session session_id user c.sessions) [
  | none ↦ c
  | some entry ↦ record c {
    sessions = set session_id (record entry { last_action_at = now }) c.sessions;
  }
]

unfoldable pub stop_session : String → String → Client → Client
stop_session session_id user c =
    if c.closed then c else elim (get_owned_session session_id user c.sessions) [
      | none ↦ c
      | some entry ↦ record c { sessions = delete session_id c.sessions }
    ]

unfoldable pub close_client : Client → Client
close_client c = if c.closed then c else record c { sessions = []; closed = true }

-- The sweeper runs until the client is closed.
unfoldable pub run_sweep : ℕ → Client → Client
run_sweep now c =
    if c.closed then c else record c { sessions = evict_expired_sessions now c.sessions }

unfoldable pub step : Caps → Event → Client → Client
step caps (start user) c = start_session caps user c
step caps (opened user id now) c = open_context user id now c
step caps (failed user) c = record c { starting = remove_one user c.starting }
step caps (acted id user now) c = finish_action id user now c
step caps (stop id user) c = stop_session id user c
step caps (sweep now) c = run_sweep now c
step caps close c = close_client c

unfoldable pub run : Caps → List Event → Client → Client
run caps [] c = c
run caps (e ∷ es) c = run caps es (step caps e c)
