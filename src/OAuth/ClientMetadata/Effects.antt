-- ===== src/OAuth/ClientMetadata/Effects.antt =====
-- What a lookup and the end of a flight do to the state of src/oauth/client-metadata.ts.
use stellara.Prelude.{
  ℕ, ◌+◌, Bool, false, String, inl, inr, ◌≡◌, arith, Bool-cases, Option-cases, leb, ◌⊎◌, ◌||◌, ◌&&◌,
  not,
}
use stellara.Dict.{get, set}
use stellara.OAuth.SourceLimit.{consume}
use stellara.OAuth.ClientMetadata.{
  CacheValue, ResolverOptions, ResolverState, FlightResult, positive, negative, negative_ttl_ms,
  client_of, invalid, normalize_cimd_error, fetched, metadata_error, other_error, read_cache,
  write_cache, start_flight, admit_miss, lookup, cache_failure, cache_success, settle,
}

module _ (o : ResolverOptions) where
  admit_miss-flights :
      (now : ℕ) (ip k : String) (st : ResolverState)
      → ((admit_miss o now ip k st).1.cache ≡ st.cache)
        × (((admit_miss o now ip k st).1.flights ≡ st.flights)
            ⊎ ((admit_miss o now ip k st).1.flights ≡ set k false st.flights))
        × ((admit_miss o now ip k st).1.closed ≡ st.closed)
  unfolding admit_miss start_flight
  admit_miss-flights now ip k st = elim (Bool-cases (leb o.max_in_flight st.in_flight)) [
    | inl full ↦ (ground arith, inl (ground arith), ground arith)
    | inr room ↦ elim (Option-cases (consume o.rate ip now st.rate_limiter).0) [
      | inr (seconds, e) ↦ (ground arith, inl (ground arith), ground arith)
      | inl e ↦ (ground arith, inr (ground arith), ground arith)
    ]
  ]

  -- The end of a flight writes the cache at most once, and leaves the flights to its caller.
  pub settle-parts :
      (now : ℕ) (k : String) (aborted : Bool) (result : FlightResult) (st : ResolverState)
      → ((settle o now k aborted result st).1.flights ≡ st.flights)
        × (((settle o now k aborted result st).1.cache ≡ st.cache)
            ⊎ ((v : CacheValue) × ((settle o now k aborted result st).1.cache
                  ≡ write_cache o.cache_max_entries k v st.cache)))
        × ((settle o now k aborted result st).1.closed ≡ st.closed)
  unfolding settle cache_success cache_failure normalize_cimd_error
  settle-parts now k aborted (fetched d) st = elim (Bool-cases (st.closed || aborted)) [
    | inl lost ↦ (ground arith, inl (ground arith), ground arith)
    | inr kept ↦ (
      ground arith,
      inr (record { expires_at = now + d.ttl_ms; value = positive (client_of o d) }, ground arith),
      ground arith,
    )
  ]
  settle-parts now k aborted (metadata_error e) st =
      elim (Bool-cases (not st.closed && not aborted)) [
        | inl kept ↦ (
          ground arith,
          inr (record { expires_at = now + negative_ttl_ms; value = negative e }, ground arith),
          ground arith,
        )
        | inr lost ↦ (ground arith, inl (ground arith), ground arith)
      ]
  settle-parts now k aborted (other_error m) st = elim (Bool-cases (not st.closed && not aborted)) [
    | inl kept ↦ (
      ground arith,
      inr (
        record { expires_at = now + negative_ttl_ms; value = negative (invalid m) },
        ground arith,
      ),
      ground arith,
    )
    | inr lost ↦ (ground arith, inl (ground arith), ground arith)
  ]

  -- A lookup reads the cache and starts at most one flight.
  pub lookup-parts :
      (now : ℕ) (ip k : String) (st : ResolverState)
      → ((lookup o now ip k st).1.cache ≡ (read_cache k now st.cache).1)
        × (((lookup o now ip k st).1.flights ≡ st.flights)
            ⊎ ((lookup o now ip k st).1.flights ≡ set k false st.flights))
        × ((lookup o now ip k st).1.closed ≡ st.closed)
  unfolding lookup
  lookup-parts now ip k st =
      let read : ResolverState = record st { cache = (read_cache k now st.cache).1 } in
      elim (Option-cases (read_cache k now st.cache).0) [
        | inr (v, hit) ↦ (ground arith, inl (ground arith), ground arith)
        | inl miss ↦ elim (Option-cases (get k st.flights)) [
          | inr (aborted, there) ↦ (ground arith, inl (ground arith), ground arith)
          | inl free ↦
              let (cache, flights, closed) = admit_miss-flights now ip k read in
              (
                ground (arith, cache),
                elim flights [
                  | inl same ↦ inl (ground (arith, same))
                  | inr more ↦ inr (ground (arith, more))
                ],
                ground (arith, closed),
              )
        ]
      ]
