-- ===== src/Examples/Browser.antt =====
-- A pool of browser sessions with two users.
use stellara.Prelude.{
  ℕ, ◌+◌, false, List, [], ◌∷◌, ◌++◌, some, String, ◌≡◌, refl, arith, length, eq_iff,
}
use stellara.Dict.{get, set, delete}
use stellara.Services.Browser.Capacity.{IsWithin, IsOneAtATime, count_starting}
use stellara.Services.Browser.Overlap.{starts, openings}
use stellara.Services.Browser.{
  Caps, Client, Sessions, SessionEntry, Event, start, opened, acted, stop, sweep, new_entry, run,
  step, start_session, enforce_capacity, count_user, open_context, register_session, finish_action,
  stop_session, run_sweep, evict_expired_sessions, is_expired, close_client, get_owned_session,
  is_starting, remove_one,
}
use stellara.Services.Browser.Capacity.{run-IsWithin}
use stellara.Services.Browser.Overlap.{overlapping_starts}
use stellara.Services.Browser.Ownership.{step-others}

abbrev caps : Caps
caps = record { max_sessions = 2; max_sessions_per_user = 1 }

abbrev user : String
user = "bob"

abbrev who : String
who = "ann"

abbrev id : String
id = "s1"

abbrev now : ℕ
now = 1900000

abbrev entry : SessionEntry
entry = new_entry id who 100

abbrev sessions : Sessions
sessions = (id, entry) ∷ []

abbrev c : Client
c = record { sessions = sessions; starting = []; closed = false }

abbrev es : List Event
es =
    start user
    ∷ opened user "s2" 200
    ∷ acted "s2" user 300
    ∷ stop id who
    ∷ start who
    ∷ sweep 1900000
    ∷ []

abbrev ids : List (String × ℕ)
ids = ("s2", 200) ∷ ("s3", 201) ∷ []

abbrev e : Event
e = stop id user

run-IsWithin_example : IsWithin caps who (run caps es c)
unfolding IsOneAtATime count_starting step start_session enforce_capacity count_user open_context
    register_session finish_action stop_session run_sweep evict_expired_sessions is_expired
    close_client get_owned_session is_starting remove_one run get set delete
run-IsWithin_example = run-IsWithin caps who es c ((refl, (refl, tt))) ((omega arith, omega arith))

overlapping_starts_example :
    length (run caps (starts user ids ++ openings user ids) c).sessions
    ≡ length ids + length c.sessions
unfolding enforce_capacity count_user register_session get set
overlapping_starts_example = overlapping_starts caps user ids c refl refl ((refl, (refl, tt)))

step-others_example : get id (step caps e c).sessions ≡ some entry
unfolding get
step-others_example = step-others caps user e c id entry refl refl (λ x. cc ((eq_iff who user).1 x))
