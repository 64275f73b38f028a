-- ===== src/OAuth/ClientMetadata/Caching.antt =====
-- What the resolver of src/oauth/client-metadata.ts spares: a second retrieval while one is under way,
-- and one while its answer is cached.
use stellara.Prelude.{
  ℕ, ◌+◌, ◌<◌, ◌≤◌, Option, length, All, subst, true, false, none, some, List, [], ◌∷◌, String, ◌≡◌,
  refl, sym, ◌∙◌, arith, eq_iff,
}
use stellara.Web.{Url, Json}
use stellara.OAuth.ClientDocument.{DocumentUrl}
use stellara.OAuth.ClientMetadata.Bounds.{IsSound, end_flight-IsSound}
use stellara.OAuth.ClientMetadata.History.{Event, run}
use stellara.OAuth.ClientMetadata.Effects.{settle-parts}
use stellara.OAuth.ClientMetadata.Retained.{IsHeld, IsBefore, ends, lookup-hit, run-IsHeld}
use stellara.Dict.{get, set, delete}
use stellara.Dict.Laws.{get-set, get-delete}
use stellara.OAuth.ClientMetadata.{
  CacheValue, negative, positive, negative_ttl_ms, invalid, client_of, normalize_cimd_error,
  ResolverOptions, ResolverState, FlightResult, fetched, metadata_error, other_error,
  is_oauth_client_id_within_limit, evict, write_cache, unwrap_cache, lookup, cache_failure,
  cache_success, settle, end_flight,
}

get-evict-set :
    (max_entries : ℕ) (k : String) (v : CacheValue) (m : List (String × CacheValue))
    → 0 < max_entries
    → get k m ≡ none
    → get k (evict max_entries (set k v m)) ≡ some v
unfolding evict set get
get-evict-set max_entries k v [] room h = ground (arith, eq_iff k k)
get-evict-set max_entries k v ((j, w) ∷ m) room h =
    ground (arith, get-evict-set max_entries k v m room, get-set k k v m, eq_iff k k)

-- What is written is found.
get-write_cache :
    (max_entries : ℕ) (k : String) (v : CacheValue) (m : List (String × CacheValue))
    → 0 < max_entries
    → is_oauth_client_id_within_limit k ≡ true
    → get k (write_cache max_entries k v m) ≡ some v
unfolding write_cache
get-write_cache max_entries k v m room fine =
    let gone = get-delete k k m in
    let found =
      get-evict-set max_entries k v (delete k m) room (ground (arith, gone, (eq_iff k k).1 refl)) in
    ground (arith, fine, found)

-- How long the answer of a flight is kept.
abbrev pub lifetime : FlightResult → ℕ
lifetime (fetched document) = document.ttl_ms
lifetime (metadata_error _) = negative_ttl_ms
lifetime (other_error _) = negative_ttl_ms

-- The document is that of the client.
abbrev pub IsOwn : String → FlightResult → Type 0
IsOwn client_id (fetched document) = document.client_id ≡ client_id
IsOwn client_id (metadata_error _) = Unit
IsOwn client_id (other_error _) = Unit

module _ (o : ResolverOptions) where
  -- The entry that the end of a flight leaves.
  settle-entry :
      (now : ℕ) (id : String) (result : FlightResult) (st : ResolverState)
      → st.closed ≡ false
      → 0 < o.cache_max_entries
      → is_oauth_client_id_within_limit id ≡ true
      → IsOwn id result
      → (v : CacheValue) × (get id (settle o now id false result st).1.cache ≡ some v)
        × (v.expires_at ≡ now + lifetime result)
        × (unwrap_cache v id ≡ (settle o now id false result st).0)
  unfolding settle cache_success cache_failure unwrap_cache normalize_cimd_error
  settle-entry now id (fetched d) st running room fine own =
      let v : CacheValue = record {
        expires_at = now + d.ttl_ms;
        value = positive (client_of o d);
      } in
      let found = get-write_cache o.cache_max_entries id v st.cache room fine in
      (v, ground arith, refl, ground (arith, eq_iff d.client_id id))
  settle-entry now id (metadata_error e) st running room fine own =
      let v : CacheValue = record { expires_at = now + negative_ttl_ms; value = negative e } in
      let found = get-write_cache o.cache_max_entries id v st.cache room fine in
      (v, ground arith, refl, ground arith)
  settle-entry now id (other_error m) st running room fine own =
      let v : CacheValue = record {
        expires_at = now + negative_ttl_ms;
        value = negative (invalid m);
      } in
      let found = get-write_cache o.cache_max_entries id v st.cache room fine in
      (v, ground arith, refl, ground arith)

  -- What the end of a flight leaves, with the entry of its answer.
  end_flight-IsHeld :
      (now : ℕ) (id : String) (result : FlightResult) (st : ResolverState)
      → IsSound o st
      → get id st.flights ≡ some false
      → st.closed ≡ false
      → 0 < o.cache_max_entries
      → is_oauth_client_id_within_limit id ≡ true
      → IsOwn id result
      → (v : CacheValue) × (v.expires_at ≡ now + lifetime result)
        × (unwrap_cache v id ≡ (end_flight o now id result st).0)
        × IsHeld o id v
            (length (end_flight o now id result st).1.cache)
            (end_flight o now id result st).1
  unfolding end_flight
  end_flight-IsHeld now id result st s there running room fine own =
      let (v, found, expires, same) = settle-entry now id result st running room fine own in
      let left = (settle o now id false result st).1 in
      let (_, _, closed) = settle-parts o now id false result st in
      (
        v,
        expires,
        ground (arith, same),
        record {
          held = ground (arith, found);
          landed = ground (arith, get-delete id id left.flights, (eq_iff id id).1 refl);
          running = ground (arith, closed, running);
          fits = omega arith;
          sound = end_flight-IsSound o now id result st s;
        },
      )

module _ (parse_url : String → Option Url) (to_lower_case : String → String)
    (parse_document : String → Option DocumentUrl) (parse_json : String → Option Json)
    (o : ResolverOptions) (es : List Event) where
  abbrev history : ResolverState → ResolverState
  history = run parse_url to_lower_case parse_document parse_json o es

  -- The answer of a flight that was not aborted is the answer to a lookup of the client, from any
  -- address and without another flight, after every history of events that come before its lifetime
  -- is over: that of the document, or 30 seconds for an error. The history has no shutdown, and the
  -- cache has room for the answers of the flights that end in it, so that none is evicted. This is
  -- for an open resolver within its limits with a cache, a client id within the limits and a
  -- document that names it.
  pub end_flight-cached :
      (now later : ℕ) (ip id : String) (result : FlightResult) (st : ResolverState)
      → IsSound o st
      → get id st.flights ≡ some false
      → st.closed ≡ false
      → 0 < o.cache_max_entries
      → is_oauth_client_id_within_limit id ≡ true
      → IsOwn id result
      → All (IsBefore (now + lifetime result)) es
      → length (end_flight o now id result st).1.cache + ends es ≤ o.cache_max_entries
      → later < now + lifetime result
      → ((lookup o later ip id (history (end_flight o now id result st).1)).0
          ≡ (end_flight o now id result st).0)
        × ((lookup o later ip id (history (end_flight o now id result st).1)).1.flights
            ≡ (history (end_flight o now id result st).1).flights)
        × ((lookup o later ip id (history (end_flight o now id result st).1)).1.in_flight
            ≡ (history (end_flight o now id result st).1).in_flight)
  end_flight-cached now later ip id result st s there running room fine own before fits live =
      let (v, expires, same, held) =
        end_flight-IsHeld o now id result st s there running room fine own in
      let ended = (end_flight o now id result st).1 in
      let (m, still) =
        run-IsHeld parse_url to_lower_case parse_document parse_json o id v es (length ended.cache)
          ended (subst (λ t. All (IsBefore t) es) (sym expires) before) fits held in
      let (hit, flights, count) =
        lookup-hit o later ip id v (history ended) still.held (omega (arith, expires, live)) in
      (hit ∙ same, flights, count)
