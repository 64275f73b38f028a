-- ===== src/OAuth/ClientMetadata/Retained.antt =====
-- An answer in the cache of src/oauth/client-metadata.ts, over a history of events.
use text.Mathlib.Text.{◌==◌}
use stellara.Prelude.{
  ℕ, suc, ◌+◌, ◌<◌, ◌≤◌, true, false, Option, none, some, List, [], ◌∷◌, String, inl, inr, ◌≡◌, ap,
  ◌∙◌, arith, eq_iff, Bool-cases, Option-cases, All, subst, length,
}
use stellara.Web.{Url, Json}
use stellara.Dict.{get, set, delete}
use stellara.Dict.Laws.{get-set, get-delete}
use stellara.OAuth.Storage.{OAuthStorage}
use stellara.OAuth.ClientDocument.{DocumentUrl}
use stellara.OAuth.ClientMetadata.{
  CacheValue, ResolverOptions, ResolverState, FlightResult, read_cache, unwrap_cache, lookup,
  settle, end_flight, time_out,
}
use stellara.OAuth.ClientMetadata.Cache.{read_cache-IsCache, write_cache-keeps, read_cache-keeps}
use stellara.OAuth.ClientMetadata.Bounds.{IsSound}
use stellara.OAuth.ClientMetadata.Effects.{lookup-parts, settle-parts}
use stellara.OAuth.ClientMetadata.History.{
  Event, asked, ended, timed_out, closing, closed_down, step, run, resolve-cases, step-IsSound,
}

-- The events before a time, without a shutdown of the resolver.
abbrev pub IsBefore : ℕ → Event → Type 0
IsBefore time (asked now ip k storage) = now < time
IsBefore time (ended now k result) = Unit
IsBefore time (timed_out k) = Unit
IsBefore time _ = ⊥

-- How many of the events are the end of a flight.
abbrev pub ends : List Event → ℕ
ends [] = 0
ends (ended _ _ _ ∷ es) = suc (ends es)
ends (_ ∷ es) = ends es

-- The entry of the client is in the cache, with at most `n` entries, and it has no flight.
pub record IsHeld (o : ResolverOptions) (id : String) (v : CacheValue) (n : ℕ) (st : ResolverState)
    : Type 0 where
  pub held : get id st.cache ≡ some v
  pub landed : get id st.flights ≡ none
  pub running : st.closed ≡ false
  pub fits : length st.cache ≤ n
  pub sound : IsSound o st

module _ (o : ResolverOptions) where
  -- A lookup that finds a live entry changes nothing but the order of the cache.
  pub lookup-hit :
      (now : ℕ) (ip id : String) (v : CacheValue) (st : ResolverState)
      → get id st.cache ≡ some v
      → now < v.expires_at
      → ((lookup o now ip id st).0 ≡ unwrap_cache v id)
        × ((lookup o now ip id st).1.flights ≡ st.flights)
        × ((lookup o now ip id st).1.in_flight ≡ st.in_flight)
  unfolding lookup read_cache
  lookup-hit now ip id v st found live = (ground arith, ground arith, ground arith)

module _ (o : ResolverOptions) (id : String) (v : CacheValue) (n : ℕ) where
  lookup-landed :
      (now : ℕ) (ip k : String) (st : ResolverState)
      → now < v.expires_at
      → IsHeld o id v n st
      → get id (lookup o now ip k st).1.flights ≡ none
  lookup-landed now ip k st live h = elim (Bool-cases (k == id)) [
    | inl e ↦
        let same = (eq_iff k id).0 e in
        let (_, flights, _) =
          lookup-hit o now ip k v st (ap (λ x. get x st.cache) same ∙ h.held) live in
        ap (get id) flights ∙ h.landed
    | inr e ↦
        let (_, flights, _) = lookup-parts o now ip k st in
        elim flights [
          | inl same ↦ ap (get id) same ∙ h.landed
          | inr more ↦ ap (get id) more ∙ ground (arith, get-set id k false st.flights, h.landed)
        ]
  ]

  -- The part of the invariant that the limits of the resolver do not give.
  abbrev pub IsKept : ℕ → ResolverState → Type 0
  IsKept most st =
      (get id st.cache ≡ some v)
      × (get id st.flights ≡ none)
      × (st.closed ≡ false)
      × (length st.cache ≤ most)

  lookup-IsKept :
      (now : ℕ) (ip k : String) (st : ResolverState)
      → now < v.expires_at
      → IsHeld o id v n st
      → IsKept n (lookup o now ip k st).1
  lookup-IsKept now ip k st live h =
      let (cache, _, closed) = lookup-parts o now ip k st in
      let size = read_cache-IsCache n now k st.cache (h.sound.cached, h.fits) in
      (
        ap (get id) cache ∙ read_cache-keeps id k now v st.cache h.held live,
        lookup-landed now ip k st live h,
        closed ∙ h.running,
        ground (arith, cache, size.1),
      )

  end_flight-IsKept :
      (now : ℕ) (k : String) (result : FlightResult) (st : ResolverState)
      → suc n ≤ o.cache_max_entries
      → IsHeld o id v n st
      → IsKept (suc n) (end_flight o now k result st).1
  unfolding end_flight
  end_flight-IsKept now k result st room h = elim (Option-cases (get k st.flights)) [
    | inl e ↦
        let fits = h.fits in
        (
          ground (arith, h.held),
          ground (arith, h.landed),
          ground (arith, h.running),
          ground (arith, fits),
        )
    | inr (aborted, e) ↦
        let fits = h.fits in
        let left = (settle o now k aborted result st).1 in
        let other : (k == id) ≡ false = elim (Bool-cases (k == id)) [
          | inl same ↦
              let there = ap (λ x. get x st.flights) ((eq_iff k id).0 same) in
              ground (arith, h.landed, there)
          | inr different ↦ different
        ] in
        let (flights, cache, closed) = settle-parts o now k aborted result st in
        let gone = get-delete id k left.flights in
        let landed : get id (delete k left.flights) ≡ none =
          gone ∙ ground (arith, other, ap (get id) flights, h.landed) in
        elim cache [
          | inl same ↦ (
            ground (arith, ap (get id) same, h.held),
            ground (arith, landed),
            ground (arith, closed, h.running),
            ground (arith, ap (λ c. length c) same, fits),
          )
          | inr (w, wrote) ↦
              let (found, size) =
                write_cache-keeps o.cache_max_entries id k w st.cache other
                  (omega (arith, fits, room)) in
              (
                ground (arith, ap (get id) wrote, found, h.held),
                ground (arith, landed),
                ground (arith, closed, h.running),
                ground (arith, ap (λ c. length c) wrote, size, fits),
              )
        ]
  ]

module _ (parse_url : String → Option Url) (to_lower_case : String → String)
    (parse_document : String → Option DocumentUrl) (parse_json : String → Option Json)
    (o : ResolverOptions) (id : String) (v : CacheValue) where
  abbrev after : Event → ResolverState → ResolverState
  after = step parse_url to_lower_case parse_document parse_json o

  with_sound :
      (n : ℕ) (e : Event) (st : ResolverState)
      → IsSound o st
      → IsKept o id v n n (after e st)
      → IsHeld o id v n (after e st)
  with_sound n e st s (held, landed, running, fits) = record {
    held = held;
    landed = landed;
    running = running;
    fits = fits;
    sound = step-IsSound parse_url to_lower_case parse_document parse_json o e st s;
  }

  asked-IsHeld :
      (n now : ℕ) (ip k : String) (storage : OAuthStorage) (st : ResolverState)
      → now < v.expires_at
      → IsHeld o id v n st
      → IsHeld o id v n (after (asked now ip k storage) st)
  unfolding step
  asked-IsHeld n now ip k storage st live h =
      elim (resolve-cases parse_url to_lower_case parse_document parse_json o now ip k storage st) [
        | inl same ↦ subst (IsHeld o id v n) same h
        | inr (running, e) ↦
            with_sound n (asked now ip k storage) st h.sound
              (subst (IsKept o id v n n) e (lookup-IsKept o id v n now ip k st live h))
      ]

  ended-IsHeld :
      (n now : ℕ) (k : String) (result : FlightResult) (st : ResolverState)
      → suc n ≤ o.cache_max_entries
      → IsHeld o id v n st
      → IsHeld o id v (suc n) (after (ended now k result) st)
  unfolding step
  ended-IsHeld n now k result st room h =
      with_sound (suc n) (ended now k result) st h.sound
        (end_flight-IsKept o id v n now k result st room h)

  timed_out-IsHeld :
      (n : ℕ) (k : String) (st : ResolverState)
      → IsHeld o id v n st
      → IsHeld o id v n (after (timed_out k) st)
  unfolding step time_out
  timed_out-IsHeld n k st h =
      with_sound n (timed_out k) st h.sound (elim (Option-cases (get k st.flights)) [
        | inl e ↦
            let fits = h.fits in
            (
              ground (arith, h.held),
              ground (arith, h.landed),
              ground (arith, h.running),
              ground (arith, fits),
            )
        | inr (aborted, e) ↦
            let fits = h.fits in
            let own = λ (e' : (k == id) ≡ true). ap (λ x. get x st.flights) ((eq_iff k id).0 e') in
            let landed : get id (set k true st.flights) ≡ none = elim (Bool-cases (k == id)) [
              | inl same ↦ ground (arith, own same, h.landed)
              | inr other ↦ ground (arith, get-set id k true st.flights, h.landed)
            ] in
            (
              ground (arith, h.held),
              ground (arith, landed),
              ground (arith, h.running),
              ground (arith, fits),
            )
      ])

  -- The entry stays while no event comes at its end or later, the resolver is not shut down, and the
  -- flights that end find room in the cache.
  pub run-IsHeld :
      (es : List Event) (n : ℕ) (st : ResolverState)
      → All (IsBefore v.expires_at) es
      → n + ends es ≤ o.cache_max_entries
      → IsHeld o id v n st
      → (m : ℕ) × IsHeld o id v m (run parse_url to_lower_case parse_document parse_json o es st)
  unfolding run
  run-IsHeld [] n st before room h = (n, h)
  run-IsHeld (asked now ip k storage ∷ es) n st before room h =
      run-IsHeld es n (after (asked now ip k storage) st) before.1 room
        (asked-IsHeld n now ip k storage st before.0 h)
  run-IsHeld (ended now k result ∷ es) n st before room h =
      run-IsHeld es (suc n) (after (ended now k result) st) before.1 (omega (arith, room))
        (ended-IsHeld n now k result st (omega (arith, room)) h)
  run-IsHeld (timed_out k ∷ es) n st before room h =
      run-IsHeld es n (after (timed_out k) st) before.1 room (timed_out-IsHeld n k st h)
  run-IsHeld (closing ∷ es) n st before room h = absurd before.0
  run-IsHeld (closed_down ∷ es) n st before room h = absurd before.0
