-- ===== src/OAuth/ClientMetadata/History.antt =====
-- Every history of the resolver of src/oauth/client-metadata.ts.
use stellara.Prelude.{
  ℕ, false, Option, List, [], ◌∷◌, String, ◌⊎◌, inl, inr, ◌≡◌, refl, arith, Bool-cases, subst,
}
use stellara.Web.{Url, Json}
use stellara.OAuth.Storage.{OAuthStorage}
use stellara.OAuth.Resource.{is_https_identifier}
use stellara.OAuth.ClientDocument.{DocumentUrl}
use stellara.OAuth.ClientDocument.Validated.{Checked-cases}
use stellara.OAuth.ClientDocument.Fetch.{parse_client_document_url}
use stellara.OAuth.ClientMetadata.{
  ResolverOptions, ResolverState, initial, FlightResult, is_oauth_client_id_within_limit, lookup,
  resolve_cimd, end_flight, time_out, close, finish_close, resolve,
}
use stellara.OAuth.ClientMetadata.Bounds.{
  IsSound, lookup-IsSound, end_flight-IsSound, time_out-IsSound, close-IsSound,
  finish_close-IsSound,
}

-- What may happen to a resolver. A lookup has the time, the address, the client id and the database.
pub data Event : Type 0 where
  asked : ℕ → String → String → OAuthStorage → Event
  ended : ℕ → String → FlightResult → Event
  timed_out : String → Event
  closing closed_down : Event

module _ (parse_url : String → Option Url) (to_lower_case : String → String)
    (parse_document : String → Option DocumentUrl) (parse_json : String → Option Json)
    (o : ResolverOptions) where
  unfoldable pub step : Event → ResolverState → ResolverState
  step (asked now ip id storage) st =
      (resolve parse_url to_lower_case parse_document parse_json o now ip id (st, storage)).1.0
  step (ended now id result) st = (end_flight o now id result st).1
  step (timed_out id) st = time_out id st
  step closing st = close st
  step closed_down st = finish_close st

  unfoldable pub run : List Event → ResolverState → ResolverState
  run [] st = st
  run (e ∷ es) st = run es (step e st)

  -- A lookup leaves the resolver as it is, or comes to the cache.
  pub resolve-cases :
      (now : ℕ) (ip id : String) (storage : OAuthStorage) (st : ResolverState)
      → (st
          ≡ (resolve parse_url to_lower_case parse_document parse_json o now ip id
              (st, storage)).1.0)
        ⊎ (st.closed ≡ false)
          × ((lookup o now ip id st).1
              ≡ (resolve parse_url to_lower_case parse_document parse_json o now ip id
                  (st, storage)).1.0)
  unfolding resolve resolve_cimd
  resolve-cases now ip id storage st = elim (Bool-cases st.closed) [
    | inl over ↦ inl (ground arith)
    | inr running ↦ elim (Bool-cases (is_oauth_client_id_within_limit id)) [
      | inr long ↦ inl (ground arith)
      | inl fine ↦ elim (Bool-cases (is_https_identifier parse_url to_lower_case id)) [
        | inr local ↦ inl (ground arith)
        | inl remote ↦ elim (Checked-cases (parse_client_document_url parse_document id)) [
          | inl (message, e) ↦ inl (ground arith)
          | inr (url, e) ↦ inr (running, ground arith)
        ]
      ]
    ]
  ]

  asked-IsSound :
      (now : ℕ) (ip id : String) (storage : OAuthStorage) (st : ResolverState)
      → IsSound o st
      → IsSound o
          (resolve parse_url to_lower_case parse_document parse_json o now ip id (st, storage)).1.0
  asked-IsSound now ip id storage st s = elim (resolve-cases now ip id storage st) [
    | inl same ↦ subst (IsSound o) same s
    | inr (running, e) ↦ subst (IsSound o) e (lookup-IsSound o now ip id st running s)
  ]

  pub step-IsSound : (e : Event) (st : ResolverState) → IsSound o st → IsSound o (step e st)
  unfolding step
  step-IsSound (asked now ip id storage) st s = asked-IsSound now ip id storage st s
  step-IsSound (ended now id result) st s = end_flight-IsSound o now id result st s
  step-IsSound (timed_out id) st s = time_out-IsSound o id st s
  step-IsSound closing st s = close-IsSound o st s
  step-IsSound closed_down st s = finish_close-IsSound o st s

  run_from-IsSound : (es : List Event) (st : ResolverState) → IsSound o st → IsSound o (run es st)
  unfolding run
  run_from-IsSound [] st s = s
  run_from-IsSound (e ∷ es) st s = run_from-IsSound es (step e st) (step-IsSound e st s)

  -- In every history of a resolver the counter of the flights is their number, which is at most the
  -- cap, no client has two of them, the cache is within its cap with one entry for a client, and
  -- nothing is cached once the resolver is closed.
  pub run-IsSound : (es : List Event) → IsSound o (run es initial)
  run-IsSound es = run_from-IsSound es initial (record {
    counted = refl;
    single = tt;
    few = omega arith;
    cached = tt;
    small = omega arith;
    shut = λ _. refl;
  })
