-- ===== src/OAuth/ClientMetadata.antt =====
-- src/oauth/client-metadata.ts: the resolver of clients as a machine over events. A lookup runs from its
-- start to its first await in one event; a flight ends in another one, with what the retrieval gave.
-- The abort controllers have the keys of the flights: a flight holds whether its signal is aborted.
pub mod Cache
pub mod Bounds
pub mod History
pub mod Effects
pub mod Waiting
pub mod Retained
pub mod Caching
use Prim.Native.String.{len}
use text.Mathlib.Text.{◌==◌}
use stellara.Prelude.{
  ℕ, ◌+◌, ◌-◌, Bool, true, false, ◌&&◌, ◌||◌, not, Option, none, some, List, [], ◌∷◌, String,
  if◌then◌else◌, leb, ltb, length, ◌⊎◌, inl, inr, is_some,
}
use stellara.Web.{Url, Json}
use stellara.Dict.{get, set, delete}
use stellara.OAuth.Storage.{OAuthStorage}
use stellara.OAuth.Codes.{utf16_length}
use stellara.OAuth.SourceLimit.{SourceRateLimiter, Options, consume, clear}
use stellara.OAuth.Resource.{ResolvedClient, cimd, dcr, is_https_identifier}
use stellara.OAuth.Clients.{resolve_client, found, unknown}
use stellara.OAuth.ClientDocument.{DocumentUrl, ValidatedClientDocument}
use stellara.OAuth.ClientDocument.Fetch.{parse_client_document_url}

abbrev pub negative_ttl_ms : ℕ
negative_ttl_ms = 30000

pub data CimdErrorKind : Type 0 where
  invalid_client rate_limited temporarily_unavailable : CimdErrorKind

pub record ClientMetadataError : Type 0 where
  pub kind : CimdErrorKind
  pub message : String
  pub retry_after_seconds : Option ℕ

pub data Cached : Type 0 where
  negative : ClientMetadataError → Cached
  positive : ResolvedClient → Cached

pub record CacheValue : Type 0 where
  pub expires_at : ℕ
  pub value : Cached

-- What a call gives at once: it throws, it has the client, or it waits for the flight of its client,
-- which was there or is new. `thrown` is an exception of the database or of its JSON.
pub data Resolution : Type 0 where
  rejected : ClientMetadataError → Resolution
  resolved : ResolvedClient → Resolution
  joined started thrown : Resolution

pub record ResolverOptions : Type 0 where
  pub max_in_flight : ℕ
  pub cache_max_entries : ℕ
  pub rate : Options

pub record ResolverState : Type 0 where
  pub cache : List (String × CacheValue)
  pub flights : List (String × Bool)
  pub rate_limiter : SourceRateLimiter
  pub in_flight : ℕ
  pub closed : Bool

-- `createClientResolver`
abbrev pub initial : ResolverState
initial = record {
  cache = [];
  flights = [];
  rate_limiter = record { buckets = []; misses_since_prune = 0 };
  in_flight = 0;
  closed = false;
}

-- `isOAuthClientIdWithinLimit` of src/oauth/client-id.ts.
abbrev pub max_oauth_client_id_length : ℕ
max_oauth_client_id_length = 4096

abbrev pub max_oauth_client_id_bytes : ℕ
max_oauth_client_id_bytes = 8192

unfoldable pub is_oauth_client_id_within_limit : String → Bool
is_oauth_client_id_within_limit client_id =
    ltb 0 (utf16_length client_id)
    && leb (utf16_length client_id) max_oauth_client_id_length
    && leb (len client_id) max_oauth_client_id_bytes

abbrev pub invalid : String → ClientMetadataError
invalid message = record { kind = invalid_client; message = message; retry_after_seconds = none }

abbrev pub unavailable : String → ClientMetadataError
unavailable message = record {
  kind = temporarily_unavailable;
  message = message;
  retry_after_seconds = none;
}

abbrev pub shutting_down : ClientMetadataError
shutting_down = unavailable "OAuth client resolver is shutting down"

unfoldable pub unwrap_cache : CacheValue → String → Resolution
unwrap_cache value original_client_id = elim value.value [
  | negative error ↦ rejected error
  | positive client ↦
      if not (client.client_id == original_client_id)
      then rejected (invalid "CIMD self-binding mismatch")
      else resolved client
]

-- An entry that is read goes to the end of the cache; one that is over goes.
unfoldable pub read_cache :
    String → ℕ → List (String × CacheValue) → Option CacheValue × List (String × CacheValue)
read_cache key now cache =
    let without = delete key cache in
    elim (get key cache) [
      | none ↦ (none, cache)
      | some value ↦
          if leb value.expires_at now then (none, without) else (some value, set key value without)
    ]

-- The loop deletes the oldest entry while there are too many.
unfoldable pub evict : ℕ → List (String × CacheValue) → List (String × CacheValue)
evict max_entries [] = []
evict max_entries (e ∷ cache) =
    let rest = evict max_entries cache in
    if ltb max_entries (length (e ∷ cache)) then rest else e ∷ cache

unfoldable pub write_cache :
    ℕ → String → CacheValue → List (String × CacheValue) → List (String × CacheValue)
write_cache max_entries key value cache =
    if not (is_oauth_client_id_within_limit key)
    then cache
    else evict max_entries (set key value (delete key cache))

-- The signals of all flights are aborted.
unfoldable pub abort_all : List (String × Bool) → List (String × Bool)
abort_all [] = []
abort_all ((key, _) ∷ flights) = (key, true) ∷ abort_all flights

-- What the retrieval of a document gave: the document, an error of the resolver, or another error by
-- its message.
pub data FlightResult : Type 0 where
  fetched : ValidatedClientDocument → FlightResult
  metadata_error : ClientMetadataError → FlightResult
  other_error : String → FlightResult

unfoldable pub normalize_cimd_error : FlightResult → ClientMetadataError
normalize_cimd_error (metadata_error error) = error
normalize_cimd_error (other_error message) = invalid message
normalize_cimd_error (fetched _) = invalid "Unable to resolve client metadata"

module _ (o : ResolverOptions) where
  -- `enforceMissLimits` and `startFlight` up to its await.
  unfoldable pub start_flight : String → ResolverState → ResolverState
  start_flight client_id st = record st {
    in_flight = st.in_flight + 1;
    flights = set client_id false st.flights;
  }

  unfoldable pub admit_miss : ℕ → String → String → ResolverState → Resolution × ResolverState
  admit_miss now source_ip client_id st =
      if leb o.max_in_flight st.in_flight
      then (rejected (unavailable "CIMD lookup capacity exhausted"), st)
      else let (retry, limiter) = consume o.rate source_ip now st.rate_limiter in
        let counted : ResolverState = record st { rate_limiter = limiter } in
        elim retry [
          | some seconds ↦ (
            rejected (record {
              kind = rate_limited;
              message = "CIMD lookup rate limit exceeded";
              retry_after_seconds = some seconds;
            }),
            counted,
          )
          | none ↦ (started, start_flight client_id counted)
        ]

  unfoldable pub lookup : ℕ → String → String → ResolverState → Resolution × ResolverState
  lookup now source_ip client_id st =
      let (cached, cache) = read_cache client_id now st.cache in
      let read : ResolverState = record st { cache = cache } in
      elim cached [
        | some value ↦ (unwrap_cache value client_id, read)
        | none ↦ elim (get client_id st.flights) [
          | some _ ↦ (joined, read)
          | none ↦ admit_miss now source_ip client_id read
        ]
      ]

  unfoldable pub resolve_cimd :
      (String → Option DocumentUrl)
      → ℕ
      → String
      → String
      → ResolverState
      → Resolution × ResolverState
  resolve_cimd parse_document now source_ip client_id st =
      elim (parse_client_document_url parse_document client_id) [
        | inl message ↦ (rejected (invalid message), st)
        | inr _ ↦ lookup now source_ip client_id st
      ]

  -- The end of a flight whose signal is aborted or not: `cacheSuccess`, or else `cacheFailure`.
  unfoldable pub cache_failure :
      ℕ → String → Bool → ClientMetadataError → ResolverState → Resolution × ResolverState
  cache_failure now client_id aborted error st =
      let safe_error = if st.closed then shutting_down else error in
      (
        rejected safe_error,
        if not st.closed && not aborted
            then record st {
              cache =
                  write_cache o.cache_max_entries client_id
                    (record { expires_at = now + negative_ttl_ms; value = negative safe_error })
                    st.cache;
            }
            else st,
      )

  abbrev pub client_of : ValidatedClientDocument → ResolvedClient
  client_of document = record {
    client_id = document.client_id;
    client_name = some document.client_name;
    redirect_uris = document.redirect_uris;
    registration = cimd;
    created_at = none;
  }

  unfoldable pub cache_success :
      ℕ → String → Bool → ValidatedClientDocument → ResolverState → Resolution × ResolverState
  cache_success now client_id aborted document st =
      if st.closed || aborted then cache_failure now client_id aborted shutting_down st else (
        resolved (client_of document),
        record st {
          cache =
              write_cache o.cache_max_entries client_id
                (record {
                  expires_at = now + document.ttl_ms;
                  value = positive (client_of document);
                })
                st.cache;
        },
      )

  unfoldable pub settle :
      ℕ → String → Bool → FlightResult → ResolverState → Resolution × ResolverState
  settle now client_id aborted (fetched document) st =
      cache_success now client_id aborted document st
  settle now client_id aborted failure st =
      cache_failure now client_id aborted (normalize_cimd_error failure) st

  unfoldable pub end_flight : ℕ → String → FlightResult → ResolverState → Resolution × ResolverState
  end_flight now client_id result st = elim (get client_id st.flights) [
    | none ↦ (joined, st)
    | some aborted ↦
        let (answer, left) = settle now client_id aborted result st in
        (
          answer,
          record left { in_flight = left.in_flight - 1; flights = delete client_id left.flights },
        )
  ]

-- The timer of a flight.
unfoldable pub time_out : String → ResolverState → ResolverState
time_out client_id st = elim (get client_id st.flights) [
  | none ↦ st
  | some _ ↦ record st { flights = set client_id true st.flights }
]

-- `closeResolver` up to its await; a second call changes nothing.
unfoldable pub close : ResolverState → ResolverState
close st = if st.closed then st else record st {
  closed = true;
  cache = [];
  rate_limiter = clear st.rate_limiter;
  flights = abort_all st.flights;
}

-- The rest of it, once all flights have ended.
unfoldable pub finish_close : ResolverState → ResolverState
finish_close st = record st { cache = []; rate_limiter = clear st.rate_limiter }

module _ (parse_url : String → Option Url) (to_lower_case : String → String)
    (parse_document : String → Option DocumentUrl) (parse_json : String → Option Json)
    (o : ResolverOptions) where
  -- `resolveClient` up to its first await; the registrar works on the database.
  unfoldable pub resolve :
      ℕ
      → String
      → String
      → ResolverState × OAuthStorage
      → Resolution × (ResolverState × OAuthStorage)
  resolve now source_ip client_id (st, storage) =
      if st.closed
      then (rejected shutting_down, (st, storage))
      else if not (is_oauth_client_id_within_limit client_id)
      then (rejected (invalid "client_id exceeds the safe limit"), (st, storage))
      else if is_https_identifier parse_url to_lower_case client_id
      then (let (answer, st') = resolve_cimd o parse_document now source_ip client_id st in
          (answer, (st', storage)))
      else let (local, storage') = resolve_client parse_json client_id now storage in
        (
          elim local [
            | none ↦ thrown
            | some unknown ↦ rejected (invalid "Unknown client_id")
            | some (found id name created_at redirect_uris) ↦ resolved (record {
              client_id = id;
              client_name = name;
              redirect_uris = redirect_uris;
              registration = dcr;
              created_at = some created_at;
            })
          ],
          (st, storage'),
        )
