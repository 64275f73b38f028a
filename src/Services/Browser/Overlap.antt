-- ===== src/Services/Browser/Overlap.antt =====
-- Starts of playwright.ts that overlap: the check comes before the first `await`, the registration
-- after the last one.
use stellara.Prelude.{
  ℕ, ◌+◌, ◌≤◌, ◌<◌, true, false, none, List, [], ◌∷◌, ◌++◌, String, if◌then◌else◌, length, ◌≡◌,
  refl, arith, eq_iff, ap, ◌∙◌,
}
use stellara.Dict.{get}
use stellara.Dict.Laws.{length-set}
use stellara.Services.Browser.{
  Sessions, Caps, new_entry, enforce_capacity, register_session, Client, is_starting, remove_one,
  Event, start, opened, start_session, open_context, step, run,
}
use stellara.Services.Browser.Capacity.{count_starting, count_starting-remove_one}

-- As many starts of a user as there are ids, and their registrations under these ids.
abbrev pub starts : String → List (String × ℕ) → List Event
starts user [] = []
starts user (_ ∷ ids) = start user ∷ starts user ids

abbrev pub openings : String → List (String × ℕ) → List Event
openings user [] = []
openings user ((id, now) ∷ ids) = opened user id now ∷ openings user ids

-- No id is in the pool, and no two are the same.
abbrev pub IsFresh : String → List (String × ℕ) → Sessions → Type 0
IsFresh user [] sessions = Unit
IsFresh user ((id, now) ∷ ids) sessions =
    (get id sessions ≡ none) × IsFresh user ids (register_session id user now sessions)

run-append :
    (caps : Caps) (es fs : List Event) (c : Client)
    → run caps (es ++ fs) c ≡ run caps fs (run caps es c)
unfolding run
run-append caps [] fs c = refl
run-append caps (e ∷ es) fs c = run-append caps es fs (step caps e c)

waits : (user : String) (us : List String) → 0 < count_starting user us → is_starting user us ≡ true
unfolding count_starting is_starting
waits user [] h = ground arith
waits user (u ∷ us) h = ground (arith, waits user us)

module _ (caps : Caps) (user : String) where
  start-passes :
      (c : Client)
      → c.closed ≡ false
      → enforce_capacity caps user c.sessions ≡ none
      → start_session caps user c ≡ record c { starting = user ∷ c.starting }
  unfolding start_session
  start-passes c live room = ground arith

  run-starts :
      (ids : List (String × ℕ)) (c : Client)
      → c.closed ≡ false
      → enforce_capacity caps user c.sessions ≡ none
      → ((run caps (starts user ids) c).sessions ≡ c.sessions)
        × (count_starting user (run caps (starts user ids) c).starting
            ≡ length ids + count_starting user c.starting)
  unfolding run step count_starting
  run-starts [] c live room = (refl, omega arith)
  run-starts (i ∷ ids) c live room =
      let (same, count) = run-starts ids (record c { starting = user ∷ c.starting }) live room in
      let passes = start-passes c live room in
      (
        ap (λ x. (run caps (starts user ids) x).sessions) passes ∙ same,
        ap (λ x. count_starting user (run caps (starts user ids) x).starting) passes
            ∙ ground (arith, count, (eq_iff user user).1 refl),
      )

  run-openings :
      (ids : List (String × ℕ)) (c : Client)
      → length ids ≤ count_starting user c.starting
      → IsFresh user ids c.sessions
      → length (run caps (openings user ids) c).sessions ≡ length ids + length c.sessions
  unfolding run step open_context register_session
  run-openings [] c enough fresh = omega arith
  run-openings ((id, now) ∷ ids) c enough fresh =
      let waiting = waits user c.starting (omega (arith, enough)) in
      let left = count_starting-remove_one user user c.starting waiting in
      let one = (eq_iff user user).1 refl in
      let later =
        run-openings ids
          (record c {
            sessions = register_session id user now c.sessions;
            starting = remove_one user c.starting;
          })
          (ground (arith, left, one)) fresh.1 in
      ap
        (λ b.
          length
            (run caps (openings user ids) (
              if b
              then record c {
                sessions = register_session id user now c.sessions;
                starting = remove_one user c.starting;
              }
              else c)).sessions)
        waiting
      ∙ ground (arith, later, length-set id (new_entry id user now) c.sessions, fresh.0)

  -- Where one more session is within the caps, any number of starts of one user that all begin
  -- before the first of them is registered ends in as many new sessions, whatever the caps are.
  pub overlapping_starts :
      (ids : List (String × ℕ)) (c : Client)
      → c.closed ≡ false
      → enforce_capacity caps user c.sessions ≡ none
      → IsFresh user ids c.sessions
      → length (run caps (starts user ids ++ openings user ids) c).sessions
        ≡ length ids + length c.sessions
  overlapping_starts ids c live room fresh =
      let (same, count) = run-starts ids c live room in
      rw (run-append caps (starts user ids) (openings user ids) c) (
        run-openings ids (run caps (starts user ids) c) (omega (arith, count)) (rw same fresh)
        ∙ rw same refl)
