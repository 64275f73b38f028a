-- ===== src/Services/Browser/Capacity.antt =====
-- The caps of playwright-pool.ts over histories of events.
use text.Mathlib.Text.{◌==◌}
use stellara.Prelude.{
  ℕ, suc, ◌+◌, ◌≤◌, true, Option, none, some, List, [], ◌∷◌, String, if◌then◌else◌, length, ◌≡◌,
  arith, eq_iff, Option-cases, inl, inr,
}
use stellara.Dict.{get, set, delete}
use stellara.Dict.Laws.{length-set, length-delete-le}
use stellara.Services.Browser.{
  SessionEntry, Sessions, Caps, new_entry, count_user, enforce_capacity, register_session,
  get_owned_session, evict_expired_sessions, Client, is_starting, remove_one, Event, start, opened,
  failed, acted, stop, sweep, close, start_session, open_context, finish_action, stop_session,
  close_client, run_sweep, step, run,
}

abbrev belongs : String → Option SessionEntry → ℕ
belongs user none = 0
belongs user (some entry) = if entry.user_id == user then 1 else 0

count_user-set :
    (user id : String) (entry : SessionEntry) (sessions : Sessions)
    → count_user user (set id entry sessions) + belongs user (get id sessions)
      ≡ count_user user sessions + belongs user (some entry)
unfolding count_user set get
count_user-set user id entry [] = ground arith
count_user-set user id entry ((j, e) ∷ sessions) =
    ground (arith, count_user-set user id entry sessions)

count_user-delete :
    (user id : String) (sessions : Sessions)
    → count_user user (delete id sessions) ≤ count_user user sessions
unfolding count_user delete
count_user-delete user id [] = ground arith
count_user-delete user id ((j, e) ∷ sessions) = ground (arith, count_user-delete user id sessions)

count_user-evict :
    (user : String) (now : ℕ) (sessions : Sessions)
    → count_user user (evict_expired_sessions now sessions) ≤ count_user user sessions
unfolding count_user evict_expired_sessions
count_user-evict user now [] = ground arith
count_user-evict user now ((j, e) ∷ sessions) = ground (arith, count_user-evict user now sessions)

length-evict :
    (now : ℕ) (sessions : Sessions) → length (evict_expired_sessions now sessions) ≤ length sessions
unfolding evict_expired_sessions
length-evict now [] = ground arith
length-evict now ((j, e) ∷ sessions) = ground (arith, length-evict now sessions)

-- The starts of a user that wait.
unfoldable pub count_starting : String → List String → ℕ
count_starting user [] = 0
count_starting user (u ∷ us) = (if u == user then 1 else 0) + count_starting user us

length-remove_one :
    (user : String) (us : List String)
    → is_starting user us ≡ true
    → suc (length (remove_one user us)) ≡ length us
unfolding is_starting remove_one
length-remove_one user [] h = ground arith
length-remove_one user (u ∷ us) h = ground (arith, length-remove_one user us)

length-remove_one-le : (user : String) (us : List String) → length (remove_one user us) ≤ length us
unfolding remove_one
length-remove_one-le user [] = ground arith
length-remove_one-le user (u ∷ us) = ground (arith, length-remove_one-le user us)

pub count_starting-remove_one :
    (who user : String) (us : List String)
    → is_starting user us ≡ true
    → count_starting who (remove_one user us) + (if user == who then 1 else 0)
      ≡ count_starting who us
unfolding is_starting remove_one count_starting
count_starting-remove_one who user [] h = ground arith
count_starting-remove_one who user (u ∷ us) h =
    ground (arith, eq_iff u user, count_starting-remove_one who user us)

count_starting-remove_one-le :
    (who user : String) (us : List String)
    → count_starting who (remove_one user us) ≤ count_starting who us
unfolding remove_one count_starting
count_starting-remove_one-le who user [] = ground arith
count_starting-remove_one-le who user (u ∷ us) =
    ground (arith, count_starting-remove_one-le who user us)

module _ (caps : Caps) (who : String) where
  -- The sessions and the waiting starts are within the caps, in all and of one user.
  abbrev pub IsWithin : Client → Type 0
  IsWithin c =
      (length c.sessions + length c.starting ≤ caps.max_sessions)
      × (count_user who c.sessions + count_starting who c.starting ≤ caps.max_sessions_per_user)

  start-IsWithin :
      (user : String) (c : Client)
      → c.starting ≡ []
      → IsWithin c
      → IsWithin (start_session caps user c)
  unfolding start_session enforce_capacity count_starting
  start-IsWithin user c idle w = ground (arith, eq_iff user who)

  open-IsWithin :
      (user id : String) (now : ℕ) (c : Client) → IsWithin c → IsWithin (open_context user id now c)
  unfolding open_context register_session
  open-IsWithin user id now c w = ground (
    arith,
    length-set id (new_entry id user now) c.sessions,
    length-remove_one user c.starting,
    count_starting-remove_one who user c.starting,
    count_user-set who id (new_entry id user now) c.sessions,
  )

  failed-IsWithin :
      (user : String) (c : Client)
      → IsWithin c
      → IsWithin (record c { starting = remove_one user c.starting })
  failed-IsWithin user c w = ground (
    arith,
    length-remove_one-le user c.starting,
    count_starting-remove_one-le who user c.starting,
  )

  act-IsWithin :
      (id user : String) (now : ℕ) (c : Client)
      → IsWithin c
      → IsWithin (finish_action id user now c)
  unfolding finish_action get_owned_session
  act-IsWithin id user now c w = elim (Option-cases (get id c.sessions)) [
    | inl e ↦ ground arith
    | inr (entry, e) ↦ ground (
      arith,
      length-set id (record entry { last_action_at = now }) c.sessions,
      count_user-set who id (record entry { last_action_at = now }) c.sessions,
    )
  ]

  stop-IsWithin : (id user : String) (c : Client) → IsWithin c → IsWithin (stop_session id user c)
  unfolding stop_session
  stop-IsWithin id user c w =
      ground (arith, length-delete-le id c.sessions, count_user-delete who id c.sessions)

  sweep-IsWithin : (now : ℕ) (c : Client) → IsWithin c → IsWithin (run_sweep now c)
  unfolding run_sweep
  sweep-IsWithin now c w =
      ground (arith, length-evict now c.sessions, count_user-evict who now c.sessions)

  close-IsWithin : (c : Client) → IsWithin c → IsWithin (close_client c)
  unfolding close_client count_user
  close-IsWithin c w = ground arith

-- No start begins while another one waits.
unfoldable pub IsOneAtATime : Caps → List Event → Client → Type 0
IsOneAtATime caps [] c = Unit
IsOneAtATime caps (start user ∷ es) c =
    (c.starting ≡ []) × IsOneAtATime caps es (step caps (start user) c)
IsOneAtATime caps (e ∷ es) c = IsOneAtATime caps es (step caps e c)

module _ (caps : Caps) (who : String) where
  -- Over every history of starts, actions, stops, sweeps and a close in which no start begins while
  -- another one waits, the sessions stay within the caps, in all and of one user.
  pub run-IsWithin :
      (es : List Event) (c : Client)
      → IsOneAtATime caps es c
      → IsWithin caps who c
      → IsWithin caps who (run caps es c)
  unfolding run step IsOneAtATime
  run-IsWithin [] c h w = w
  run-IsWithin (start user ∷ es) c h w =
      run-IsWithin es _ h.1 (start-IsWithin caps who user c h.0 w)
  run-IsWithin (opened user id now ∷ es) c h w =
      run-IsWithin es _ h (open-IsWithin caps who user id now c w)
  run-IsWithin (failed user ∷ es) c h w = run-IsWithin es _ h (failed-IsWithin caps who user c w)
  run-IsWithin (acted id user now ∷ es) c h w =
      run-IsWithin es _ h (act-IsWithin caps who id user now c w)
  run-IsWithin (stop id user ∷ es) c h w = run-IsWithin es _ h (stop-IsWithin caps who id user c w)
  run-IsWithin (sweep now ∷ es) c h w = run-IsWithin es _ h (sweep-IsWithin caps who now c w)
  run-IsWithin (close ∷ es) c h w = run-IsWithin es _ h (close-IsWithin caps who c w)
