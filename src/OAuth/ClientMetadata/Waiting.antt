-- ===== src/OAuth/ClientMetadata/Waiting.antt =====
-- A retrieval of src/oauth/client-metadata.ts that is under way, over a history of events.
use text.Mathlib.Text.{◌==◌}
use stellara.Prelude.{
  ℕ, Bool, true, false, Option, none, some, List, [], ◌∷◌, String, inl, inr, ◌≡◌, refl, ap, ◌∙◌,
  arith, eq_iff, Bool-cases, Option-cases, All, subst,
}
use stellara.Web.{Url, Json}
use stellara.Dict.{get, set, delete}
use stellara.Dict.Laws.{get-set, get-delete}
use stellara.OAuth.ClientDocument.{DocumentUrl}
use stellara.OAuth.ClientMetadata.{
  CacheValue, ResolverOptions, ResolverState, FlightResult, read_cache, write_cache, lookup, settle,
  end_flight, time_out, close, finish_close, abort_all,
}
use stellara.OAuth.ClientMetadata.Cache.{evict-absent}
use stellara.OAuth.ClientMetadata.Effects.{lookup-parts, settle-parts}
use stellara.OAuth.ClientMetadata.History.{
  Event, asked, ended, timed_out, closing, closed_down, step, run, resolve-cases,
}

-- A flight of the client, aborted or not, and no answer in the cache.
pub record IsPending (id : String) (st : ResolverState) : Type 0 where
  pub missing : get id st.cache ≡ none
  pub aborted : Bool
  pub flying : get id st.flights ≡ some aborted

-- The event is not the end of the flight of this client.
abbrev pub IsOther : String → Event → Type 0
IsOther id (ended now k result) = (k == id) ≡ false
IsOther id _ = Unit

set-flying :
    (id k : String) (b a : Bool) (flights : List (String × Bool))
    → get id flights ≡ some a
    → (a' : Bool) × (get id (set k b flights) ≡ some a')
set-flying id k b a flights h = elim (Bool-cases (k == id)) [
  | inl e ↦ (b, ground (arith, get-set id k b flights))
  | inr e ↦ (a, ground (arith, get-set id k b flights))
]

abort_all-flying :
    (id : String) (a : Bool) (flights : List (String × Bool))
    → get id flights ≡ some a
    → get id (abort_all flights) ≡ some true
unfolding abort_all get
abort_all-flying id a [] h = ground arith
abort_all-flying id a ((j, b) ∷ flights) h = ground (arith, abort_all-flying id a flights)

read_cache-absent :
    (id k : String) (now : ℕ) (m : List (String × CacheValue))
    → get id m ≡ none
    → get id (read_cache k now m).1 ≡ none
unfolding read_cache
read_cache-absent id k now m h = elim (Option-cases (get k m)) [
  | inl missing ↦ ground arith
  | inr (v, e) ↦ ground (arith, get-delete id k m, get-set id k v (delete k m), eq_iff k id)
]

write_cache-absent :
    (max_entries : ℕ) (id k : String) (v : CacheValue) (m : List (String × CacheValue))
    → (k == id) ≡ false
    → get id m ≡ none
    → get id (write_cache max_entries k v m) ≡ none
unfolding write_cache
write_cache-absent max_entries id k v m other h =
    let gone : get id (set k v (delete k m)) ≡ none =
      ground (arith, get-delete id k m, get-set id k v (delete k m)) in
    ground (arith, evict-absent id max_entries (set k v (delete k m)) gone)

module _ (o : ResolverOptions) (id : String) where
  lookup-IsPending :
      (now : ℕ) (ip k : String) (st : ResolverState)
      → IsPending id st
      → IsPending id (lookup o now ip k st).1
  lookup-IsPending now ip k st p =
      let (cache, flights, _) = lookup-parts o now ip k st in
      let missing = ap (get id) cache ∙ read_cache-absent id k now st.cache p.missing in
      elim flights [
        | inl same ↦ record {
          missing = missing;
          aborted = p.aborted;
          flying = ap (get id) same ∙ p.flying;
        }
        | inr more ↦
            let (a, there) = set-flying id k false p.aborted st.flights p.flying in
            record { missing = missing; aborted = a; flying = ap (get id) more ∙ there }
      ]

  settle-absent :
      (now : ℕ) (k : String) (aborted : Bool) (result : FlightResult) (st : ResolverState)
      → (k == id) ≡ false
      → get id st.cache ≡ none
      → (get id (settle o now k aborted result st).1.cache ≡ none)
        × ((settle o now k aborted result st).1.flights ≡ st.flights)
  settle-absent now k aborted result st other h =
      let (flights, cache, _) = settle-parts o now k aborted result st in
      (
        elim cache [
          | inl same ↦ ap (get id) same ∙ h
          | inr (v, wrote) ↦
              ap (get id) wrote ∙ write_cache-absent o.cache_max_entries id k v st.cache other h
        ],
        flights,
      )

  end_flight-IsPending :
      (now : ℕ) (k : String) (result : FlightResult) (st : ResolverState)
      → (k == id) ≡ false
      → IsPending id st
      → IsPending id (end_flight o now k result st).1
  unfolding end_flight
  end_flight-IsPending now k result st other p = elim (Option-cases (get k st.flights)) [
    | inl e ↦ record {
      missing = ground (arith, p.missing);
      aborted = p.aborted;
      flying = ground (arith, p.flying);
    }
    | inr (aborted, e) ↦
        let (missing, flights) = settle-absent now k aborted result st other p.missing in
        let left = (settle o now k aborted result st).1 in
        record {
          missing = ground (arith, missing);
          aborted = p.aborted;
          flying = ground (arith, get-delete id k left.flights, ap (get id) flights, p.flying);
        }
  ]

time_out-IsPending :
    (id k : String) (st : ResolverState) → IsPending id st → IsPending id (time_out k st)
unfolding time_out
time_out-IsPending id k st p = elim (Option-cases (get k st.flights)) [
  | inl e ↦ record {
    missing = ground (arith, p.missing);
    aborted = p.aborted;
    flying = ground (arith, p.flying);
  }
  | inr (aborted, e) ↦
      let (a, there) = set-flying id k true p.aborted st.flights p.flying in
      record { missing = ground (arith, p.missing); aborted = a; flying = ground (arith, there) }
]

close-IsPending : (id : String) (st : ResolverState) → IsPending id st → IsPending id (close st)
unfolding close get
close-IsPending id st p = elim (Bool-cases st.closed) [
  | inl over ↦ record {
    missing = ground (arith, p.missing);
    aborted = p.aborted;
    flying = ground (arith, p.flying);
  }
  | inr running ↦ record {
    missing = ground arith;
    aborted = true;
    flying = ground (arith, abort_all-flying id p.aborted st.flights p.flying);
  }
]

module _ (parse_url : String → Option Url) (to_lower_case : String → String)
    (parse_document : String → Option DocumentUrl) (parse_json : String → Option Json)
    (o : ResolverOptions) (id : String) where
  step-IsPending :
      (e : Event) (st : ResolverState)
      → IsOther id e
      → IsPending id st
      → IsPending id (step parse_url to_lower_case parse_document parse_json o e st)
  unfolding step finish_close get
  step-IsPending (asked now ip k storage) st other p =
      elim (resolve-cases parse_url to_lower_case parse_document parse_json o now ip k storage st) [
        | inl same ↦ subst (IsPending id) same p
        | inr (running, e) ↦ subst (IsPending id) e (lookup-IsPending o id now ip k st p)
      ]
  step-IsPending (ended now k result) st other p = end_flight-IsPending o id now k result st other p
  step-IsPending (timed_out k) st other p = time_out-IsPending id k st p
  step-IsPending closing st other p = close-IsPending id st p
  step-IsPending closed_down st other p = record {
    missing = refl;
    aborted = p.aborted;
    flying = p.flying;
  }

  -- Whatever happens but the end of its flight, a retrieval stays under way.
  pub run-IsPending :
      (es : List Event) (st : ResolverState)
      → All (IsOther id) es
      → IsPending id st
      → IsPending id (run parse_url to_lower_case parse_document parse_json o es st)
  unfolding run
  run-IsPending [] st others p = p
  run-IsPending (e ∷ es) st others p =
      run-IsPending es (step parse_url to_lower_case parse_document parse_json o e st) others.1
        (step-IsPending e st others.0 p)
