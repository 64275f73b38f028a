-- ===== src/OAuth/ClientMetadata/Bounds.antt =====
-- The limits of src/oauth/client-metadata.ts and what keeps them: flights, their count and the cache.
use stellara.Prelude.{
  ℕ, ◌+◌, ◌≤◌, Bool, true, false, ◌||◌, none, some, List, [], String, leb, length, inl, inr, ◌≡◌,
  refl, sym, ap, ◌∙◌, arith, Bool-cases, Option-cases, subst,
}
use stellara.Dict.{get}
use stellara.Dict.Laws.{IsUnique, set-IsUnique, delete-IsUnique, length-set, length-delete_present}
use stellara.OAuth.SourceLimit.{consume}
use stellara.OAuth.ClientDocument.{ValidatedClientDocument}
use stellara.OAuth.ClientMetadata.{
  CacheValue, ClientMetadataError, negative, positive, negative_ttl_ms, shutting_down, invalid,
  client_of, normalize_cimd_error, ResolverOptions, ResolverState, FlightResult, fetched,
  metadata_error, other_error, read_cache, write_cache, start_flight, admit_miss, lookup,
  cache_failure, cache_success, settle, end_flight, time_out, close, finish_close,
}
use stellara.OAuth.ClientMetadata.Cache.{
  IsCache, write_cache-IsCache, read_cache-IsCache, length-abort_all, abort_all-IsUnique,
}

-- The limits: as many flights as are counted, one for a client, no more than the cap; a cache within
-- its cap with one entry for a client; nothing cached once the resolver is closed.
pub record IsSound (o : ResolverOptions) (st : ResolverState) : Type 0 where
  pub counted : st.in_flight ≡ length st.flights
  pub single : IsUnique st.flights
  pub few : length st.flights ≤ o.max_in_flight
  pub cached : IsUnique st.cache
  pub small : length st.cache ≤ o.cache_max_entries
  pub shut : st.closed ≡ true → st.cache ≡ []

module _ (o : ResolverOptions) where
  -- The cache changes, within its limits, while the resolver is open.
  with_cache :
      (st : ResolverState) (cache : List (String × CacheValue))
      → IsSound o st
      → st.closed ≡ false
      → IsCache o.cache_max_entries cache
      → IsSound o (record st { cache = cache })
  with_cache st cache s running c = record {
    counted = s.counted;
    single = s.single;
    few = s.few;
    cached = c.0;
    small = c.1;
    shut = λ h. ground (arith, running, h);
  }

  admit_miss-IsSound :
      (now : ℕ) (ip id : String) (st : ResolverState)
      → get id st.flights ≡ none
      → IsSound o st
      → IsSound o (admit_miss o now ip id st).1
  unfolding admit_miss start_flight
  admit_miss-IsSound now ip id st free s = elim (Bool-cases (leb o.max_in_flight st.in_flight)) [
    | inl full ↦ rw (full, admit_miss) s
    | inr room ↦ elim (Option-cases (consume o.rate ip now st.rate_limiter).0) [
      | inr (seconds, e) ↦
          rw (room, admit_miss, e)
            (record {
              counted = s.counted;
              single = s.single;
              few = s.few;
              cached = s.cached;
              small = s.small;
              shut = s.shut;
            })
      | inl e ↦
          let more = length-set id false st.flights in
          let counted = s.counted in
          rw (room, admit_miss, e)
            (record {
              counted = ground (arith, more, free, counted);
              single = set-IsUnique id false st.flights s.single;
              few = ground (arith, more, free, counted, room);
              cached = s.cached;
              small = s.small;
              shut = s.shut;
            })
    ]
  ]

  pub lookup-IsSound :
      (now : ℕ) (ip id : String) (st : ResolverState)
      → st.closed ≡ false
      → IsSound o st
      → IsSound o (lookup o now ip id st).1
  unfolding lookup
  lookup-IsSound now ip id st running s =
      let read =
        with_cache st (read_cache id now st.cache).1 s running
          (read_cache-IsCache o.cache_max_entries now id st.cache (s.cached, s.small)) in
      elim (Option-cases (read_cache id now st.cache).0) [
        | inr (value, hit) ↦ rw (hit, lookup) read
        | inl miss ↦ elim (Option-cases (get id st.flights)) [
          | inr (aborted, there) ↦ rw (miss, lookup, there) read
          | inl free ↦
              rw (miss, lookup, free)
                (admit_miss-IsSound now ip id (record st { cache = (read_cache id now st.cache).1 })
                  free read)
        ]
      ]

  cache_failure-IsSound :
      (now : ℕ) (id : String) (aborted : Bool) (error : ClientMetadataError) (st : ResolverState)
      → IsSound o st
      → IsSound o (cache_failure o now id aborted error st).1
  unfolding cache_failure
  cache_failure-IsSound now id aborted error st s = elim (Bool-cases st.closed) [
    | inl over ↦
        let same : st ≡ (cache_failure o now id aborted error st).1 = ground arith in
        subst (IsSound o) same s
    | inr running ↦ elim (Bool-cases aborted) [
      | inl late ↦
          let same : st ≡ (cache_failure o now id aborted error st).1 = ground arith in
          subst (IsSound o) same s
      | inr fine ↦
          let written =
            write_cache o.cache_max_entries id
              (record { expires_at = now + negative_ttl_ms; value = negative error }) st.cache in
          let same : record st { cache = written } ≡ (cache_failure o now id aborted error st).1 =
            ground arith in
          subst (IsSound o) same (
            with_cache st written s running (
              write_cache-IsCache o.cache_max_entries id
                (record { expires_at = now + negative_ttl_ms; value = negative error }) st.cache
                (s.cached, s.small)))
    ]
  ]

  cache_success-IsSound :
      (now : ℕ) (id : String) (aborted : Bool) (d : ValidatedClientDocument) (st : ResolverState)
      → IsSound o st
      → IsSound o (cache_success o now id aborted d st).1
  unfolding cache_success
  cache_success-IsSound now id aborted d st s = elim (Bool-cases (st.closed || aborted)) [
    | inl late ↦ rw (late, cache_success) (cache_failure-IsSound now id aborted shutting_down st s)
    | inr fine ↦
        rw (fine, cache_success)
          (with_cache st
            (write_cache o.cache_max_entries id
              (record { expires_at = now + d.ttl_ms; value = positive (client_of o d) }) st.cache)
            s (ground arith)
            (write_cache-IsCache o.cache_max_entries id
              (record { expires_at = now + d.ttl_ms; value = positive (client_of o d) }) st.cache
              (s.cached, s.small)))
  ]

  settle-IsSound :
      (now : ℕ) (id : String) (aborted : Bool) (result : FlightResult) (st : ResolverState)
      → IsSound o st
      → IsSound o (settle o now id aborted result st).1
  unfolding settle normalize_cimd_error
  settle-IsSound now id aborted (fetched d) st s = cache_success-IsSound now id aborted d st s
  settle-IsSound now id aborted (metadata_error e) st s =
      cache_failure-IsSound now id aborted e st s
  settle-IsSound now id aborted (other_error m) st s =
      cache_failure-IsSound now id aborted (invalid m) st s

  settle-flights :
      (now : ℕ) (id : String) (aborted : Bool) (result : FlightResult) (st : ResolverState)
      → (settle o now id aborted result st).1.flights ≡ st.flights
  unfolding settle cache_success cache_failure
  settle-flights now id aborted (fetched d) st = ground arith
  settle-flights now id aborted (metadata_error e) st = ground arith
  settle-flights now id aborted (other_error m) st = ground arith

  pub end_flight-IsSound :
      (now : ℕ) (id : String) (result : FlightResult) (st : ResolverState)
      → IsSound o st
      → IsSound o (end_flight o now id result st).1
  unfolding end_flight
  end_flight-IsSound now id result st s = elim (Option-cases (get id st.flights)) [
    | inl missing ↦ rw (missing, end_flight) s
    | inr (aborted, there) ↦
        let after = (settle o now id aborted result st).1 in
        let kept = settle-IsSound now id aborted result st s in
        let here : get id after.flights ≡ some aborted =
          ap (get id) (settle-flights now id aborted result st) ∙ there in
        let less = length-delete_present id after.flights {v = aborted} kept.single here in
        let counted = kept.counted in
        let few = kept.few in
        rw (there, end_flight)
          (record {
            counted = omega (arith, less, counted);
            single = delete-IsUnique id after.flights kept.single;
            few = omega (arith, less, few);
            cached = kept.cached;
            small = kept.small;
            shut = kept.shut;
          })
  ]

  pub time_out-IsSound :
      (id : String) (st : ResolverState) → IsSound o st → IsSound o (time_out id st)
  unfolding time_out
  time_out-IsSound id st s = elim (Option-cases (get id st.flights)) [
    | inl missing ↦ rw (missing, time_out) s
    | inr (aborted, there) ↦
        let same = length-set id true st.flights in
        let counted = s.counted in
        let few = s.few in
        rw (there, time_out)
          (record {
            counted = ground (arith, same, there, counted);
            single = set-IsUnique id true st.flights s.single;
            few = ground (arith, same, there, few);
            cached = s.cached;
            small = s.small;
            shut = s.shut;
          })
  ]

  pub close-IsSound : (st : ResolverState) → IsSound o st → IsSound o (close st)
  unfolding close
  close-IsSound st s = elim (Bool-cases st.closed) [
    | inl over ↦ let same : st ≡ close st = ground arith in subst (IsSound o) same s
    | inr running ↦
        let same = length-abort_all st.flights in
        rw (running, close)
          (record {
            counted = s.counted ∙ sym same;
            single = abort_all-IsUnique st.flights s.single;
            few = rw same s.few;
            cached = tt;
            small = omega arith;
            shut = λ _. refl;
          })
  ]

  pub finish_close-IsSound : (st : ResolverState) → IsSound o st → IsSound o (finish_close st)
  unfolding finish_close
  finish_close-IsSound st s = record {
    counted = s.counted;
    single = s.single;
    few = s.few;
    cached = tt;
    small = omega arith;
    shut = λ _. refl;
  }
