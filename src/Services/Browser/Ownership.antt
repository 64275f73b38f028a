-- ===== src/Services/Browser/Ownership.antt =====
-- Sessions of playwright-pool.ts: what other users can do to them, and when the sweep takes them.
use stellara.Prelude.{
  ℕ, none, some, [], ◌∷◌, String, if◌then◌else◌, ◌≡◌, ◌≢◌, refl, arith, eq_iff, Option-cases, inl,
  inr,
}
use stellara.Dict.{get}
use stellara.Dict.Laws.{get-set, get-delete, IsUnique}
use stellara.Services.Browser.{
  SessionEntry, Sessions, Caps, new_entry, register_session, get_owned_session, is_expired,
  evict_expired_sessions, Client, Event, start, opened, failed, acted, stop, sweep, close,
  start_session, open_context, finish_action, stop_session, step,
}

-- The event is one of this user's requests, or it registers a session under an id that is free.
abbrev pub IsRequestOf : String → Event → Sessions → Type 0
IsRequestOf user (start u) sessions = u ≡ user
IsRequestOf user (opened u id now) sessions = (u ≡ user) × (get id sessions ≡ none)
IsRequestOf user (failed u) sessions = u ≡ user
IsRequestOf user (acted id u now) sessions = u ≡ user
IsRequestOf user (stop id u) sessions = u ≡ user
IsRequestOf user (sweep now) sessions = ⊥
IsRequestOf user close sessions = ⊥

-- A request of one user leaves every session of another user as it was, whatever session id it
-- names; a new session has an id that is free.
pub step-others :
    (caps : Caps) (user : String) (e : Event) (c : Client) (id : String) (entry : SessionEntry)
    → IsRequestOf user e c.sessions
    → get id c.sessions ≡ some entry
    → entry.user_id ≢ user
    → get id (step caps e c).sessions ≡ some entry
unfolding step start_session open_context finish_action stop_session get_owned_session
    register_session
step-others caps user (start u) c id entry mine found other = ground arith
step-others caps user (opened u i now) c id entry mine found other =
    ground (arith, get-set id i (new_entry i u now) c.sessions, eq_iff i id)
step-others caps user (failed u) c id entry mine found other = found
step-others caps user (acted i u now) c id entry mine found other =
    elim (Option-cases (get i c.sessions)) [
      | inl e ↦ ground arith
      | inr (x, e) ↦ ground (
        arith,
        get-set id i (record x { last_action_at = now }) c.sessions,
        eq_iff i id,
        eq_iff x.user_id u,
      )
    ]
step-others caps user (stop i u) c id entry mine found other =
    elim (Option-cases (get i c.sessions)) [
      | inl e ↦ ground arith
      | inr (x, e) ↦ ground (arith, get-delete id i c.sessions, eq_iff i id, eq_iff x.user_id u)
    ]
step-others caps user (sweep now) c id entry mine found other = absurd mine
step-others caps user close c id entry mine found other = absurd mine

-- A sweep removes the sessions that are idle for the idle timeout or have reached their hard
-- deadline, and keeps every other one.
pub get-evict :
    (now : ℕ) (id : String) (sessions : Sessions)
    → IsUnique sessions
    → get id (evict_expired_sessions now sessions) ≡ elim (get id sessions) [
      | none ↦ none
      | some entry ↦ if is_expired now entry then none else some entry
    ]
unfolding evict_expired_sessions get
get-evict now id [] u = refl
get-evict now id ((j, e) ∷ sessions) u = ground (arith, eq_iff j id, get-evict now id sessions u.1)
