-- ===== src/RateLimit/Window.antt =====
-- The limit of rate-limit.ts over a history of requests from many addresses.
use text.Mathlib.Text.{◌==◌}
use stellara.Prelude.{
  ℕ, ◌+◌, ◌≤◌, ◌<◌, max, List, [], ◌∷◌, Option, none, some, String, if◌then◌else◌, ◌≡◌, arith,
  eq_iff, All, Option-cases, Bool-cases, inl, inr, leb, refl, true, false, ◌∙◌, ◌||◌, ◌&&◌, not,
  Bool,
}
use stellara.Dict.{get}
use stellara.Dict.Laws.{get-set}
use stellara.Auth.{Request, is_public_request, has_bearer_header}
use stellara.RateLimit.{UnauthCounter, Counters, Limits, record_unauth_hit, unauth_hook}

-- A request that the hook counts: it is not public and has no bearer token.
abbrev pub is_counted : Request → Bool
is_counted request = not (is_public_request request || has_bearer_header request.authorization)

abbrev let_through : Option ℕ → ℕ
let_through none = 1
let_through (some seconds) = 0

-- The counted requests of one address that a history lets through.
pub passed_of : Limits → String → List (Request × ℕ) → Counters → ℕ
passed_of limits ip [] counters = 0
passed_of limits ip ((request, now) ∷ rest) counters =
    let (decision, left) = unauth_hook limits request now counters in
    (if is_counted request && request.ip == ip then let_through decision else 0)
    + passed_of limits ip rest left

-- The address has no counter, or one whose window is over.
abbrev pub IsClosed : String → ℕ → Counters → Type 0
IsClosed ip now counters = elim (get ip counters) [ none ↦ Unit | some b ↦ b.reset_at ≤ now ]

module _ (limits : Limits) (ip : String) where
  hook-others :
      (request : Request) (now : ℕ) (counters : Counters)
      → (is_counted request && request.ip == ip) ≡ false
      → get ip (unauth_hook limits request now counters).1 ≡ get ip counters
  unfolding unauth_hook record_unauth_hit
  hook-others request now counters h = elim (Option-cases (get request.ip counters)) [
    | inl missing ↦ ground (
      arith,
      missing,
      get-set ip request.ip (record { count = 1; reset_at = now + limits.window_ms }) counters,
    )
    | inr (b, found) ↦ ground (
      arith,
      found,
      get-set ip request.ip (record { count = 1; reset_at = now + limits.window_ms }) counters,
      get-set ip request.ip (record { count = b.count + 1; reset_at = b.reset_at }) counters,
    )
  ]

  hook-open :
      (request : Request) (now : ℕ) (counters : Counters) (b : UnauthCounter)
      → (is_counted request && request.ip == ip) ≡ true
      → get ip counters ≡ some b
      → now < b.reset_at
      → (get ip (unauth_hook limits request now counters).1
          ≡ some (record { count = b.count + 1; reset_at = b.reset_at }))
        × (let_through (unauth_hook limits request now counters).0
            ≡ (if leb (b.count + 1) limits.max_hits then 1 else 0))
  unfolding unauth_hook record_unauth_hit
  hook-open request now counters b h found live = (
    ground (
      arith,
      eq_iff request.ip ip,
      get-set ip ip (record { count = b.count + 1; reset_at = b.reset_at }) counters,
      (eq_iff ip ip).1 refl,
    ),
    ground (arith, eq_iff request.ip ip),
  )

  hook-fresh :
      (request : Request) (now : ℕ) (counters : Counters)
      → (is_counted request && request.ip == ip) ≡ true
      → IsClosed ip now counters
      → (get ip (unauth_hook limits request now counters).1
          ≡ some (record { count = 1; reset_at = now + limits.window_ms }))
        × (let_through (unauth_hook limits request now counters).0 ≡ 1)
  unfolding unauth_hook record_unauth_hit
  hook-fresh request now counters h closed =
      let same = eq_iff request.ip ip in
      let reads =
        get-set ip ip (record { count = 1; reset_at = now + limits.window_ms }) counters in
      let self = (eq_iff ip ip).1 refl in
      elim (Option-cases (get ip counters)) [
        | inl missing ↦ (ground (arith, same, reads, self, missing), ground (arith, same, missing))
        | inr (b, found) ↦
            let over : b.reset_at ≤ now = rw (found, IsClosed) at closed in
            (ground (arith, same, reads, self, found), ground (arith, same, found))
      ]

  -- With an open counter, what is let through before its window ends is what is left of the limit.
  passed_of-open :
      (rest : List (Request × ℕ)) (counters : Counters) (b : UnauthCounter)
      → get ip counters ≡ some b
      → All (λ a. a.1 < b.reset_at) rest
      → passed_of limits ip rest counters + b.count ≤ max limits.max_hits b.count
  unfolding passed_of
  passed_of-open [] counters b found within = omega arith
  passed_of-open ((request, now) ∷ rest) counters b found within =
      elim (Bool-cases (is_counted request && request.ip == ip)) [
        | inl mine ↦
            let (next, decided) = hook-open request now counters b mine found within.0 in
            let later =
              passed_of-open rest (unauth_hook limits request now counters).1
                (record { count = b.count + 1; reset_at = b.reset_at }) next within.1 in
            rw mine (ground (arith, later, decided))
        | inr other ↦
            let later =
              passed_of-open rest (unauth_hook limits request now counters).1 b
                (hook-others request now counters other ∙ found) within.1 in
            rw other (omega (arith, later))
      ]

  All-before :
      (start now : ℕ) (rest : List (Request × ℕ))
      → start ≤ now
      → All (λ a. (start ≤ a.1) × (a.1 < start + limits.window_ms)) rest
      → All (λ a. a.1 < now + limits.window_ms) rest
  All-before start now [] le h = tt
  All-before start now (a ∷ rest) le h = (omega arith, All-before start now rest le h.1)

  -- From a moment at which an address has no open window, the requests of the address that are not
  -- public, carry no bearer token and are let through within one window are at most as many as the
  -- limit, or as one where the limit is 0, whatever other requests come in between.
  pub passed_of-window :
      (start : ℕ) (history : List (Request × ℕ)) (counters : Counters)
      → IsClosed ip start counters
      → All (λ a. (start ≤ a.1) × (a.1 < start + limits.window_ms)) history
      → passed_of limits ip history counters ≤ max limits.max_hits 1
  unfolding passed_of
  passed_of-window start [] counters closed within = omega arith
  passed_of-window start ((request, now) ∷ rest) counters closed within =
      elim (Bool-cases (is_counted request && request.ip == ip)) [
        | inl mine ↦
            let closed' : IsClosed ip now counters = ground arith in
            let (next, decided) = hook-fresh request now counters mine closed' in
            let later =
              passed_of-open rest (unauth_hook limits request now counters).1
                (record { count = 1; reset_at = now + limits.window_ms }) next
                (All-before start now rest within.0.0 within.1) in
            rw mine (omega (arith, later, decided))
        | inr other ↦
            let later =
              passed_of-window start rest (unauth_hook limits request now counters).1
                (rw (hook-others request now counters other, IsClosed) closed) within.1 in
            rw other (omega (arith, later))
      ]
