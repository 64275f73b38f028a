-- ===== src/Services/HttpFetch/HeaderRules.antt =====
-- The header rules of services/http-fetch.ts: which names survive, and which values they keep.
use text.Mathlib.Text.{◌==◌}
use stellara.Prelude.{
  ℕ, true, false, Option, none, some, List, [], ◌∷◌, String, if◌then◌else◌, ◌≡◌, sym, subst, arith,
  eq_iff, Bool-cases, Option-cases, inl, inr, All, ◌⊎◌,
}
use stellara.Web.{Json}
use stellara.Dict.{get, set}
use stellara.Dict.Laws.{IsUnique, set-IsUnique, get-set}
use stellara.Texts.{has, add}
use stellara.Services.FetchBody.{encode_request_body}
use stellara.Services.HttpFetch.{
  Headers, allowed_response_headers, is_blocked, sanitize_entries, sanitize_request_headers,
  without_content_type, filter_entries, filter_response_headers, build_internal_request,
  RunHttpFetchArgs, InternalRequest, has_content_type,
}

module _ (K : String → Type 0) where
  -- Every name of a bag satisfies the predicate.
  abbrev pub AllNames : Headers → Type 0
  AllNames headers = All (λ e. K e.0) headers

  pub set-AllNames :
      (k v : String) (headers : Headers) → AllNames headers → K k → AllNames (set k v headers)
  unfolding set
  set-AllNames k v [] a p = (p, tt)
  set-AllNames k v ((j, w) ∷ headers) a p = elim (Bool-cases (j == k)) [
    | inl same ↦ rw same a
    | inr other ↦ rw other (a.0, set-AllNames k v headers a.1 p)
  ]

module _ (to_lower_case : String → String) where
  sanitize_entries-allowed :
      (entries kept : Headers) (dropped : List String)
      → AllNames (λ k. is_blocked to_lower_case k ≡ false) kept
      → AllNames
          (λ k. is_blocked to_lower_case k ≡ false)
          (sanitize_entries to_lower_case entries (kept, dropped)).0
  unfolding sanitize_entries
  sanitize_entries-allowed [] kept dropped a = a
  sanitize_entries-allowed ((k, v) ∷ entries) kept dropped a =
      elim (Bool-cases (is_blocked to_lower_case k)) [
        | inl bad ↦
            rw (bad, sanitize_entries)
              (sanitize_entries-allowed entries kept (add (to_lower_case k) dropped) a)
        | inr fine ↦
            rw (fine, sanitize_entries)
              (sanitize_entries-allowed entries (set k v kept) dropped
                (set-AllNames (λ k. is_blocked to_lower_case k ≡ false) k v kept a fine))
      ]

  sanitize_entries-IsUnique :
      (entries kept : Headers) (dropped : List String)
      → IsUnique kept
      → IsUnique (sanitize_entries to_lower_case entries (kept, dropped)).0
  unfolding sanitize_entries
  sanitize_entries-IsUnique [] kept dropped u = u
  sanitize_entries-IsUnique ((k, v) ∷ entries) kept dropped u =
      elim (Bool-cases (is_blocked to_lower_case k)) [
        | inl bad ↦
            rw (bad, sanitize_entries)
              (sanitize_entries-IsUnique entries kept (add (to_lower_case k) dropped) u)
        | inr fine ↦
            rw (fine, sanitize_entries)
              (sanitize_entries-IsUnique entries (set k v kept) dropped (set-IsUnique k v kept u))
      ]

  pub without_content_type-AllNames :
      (K : String → Type 0) (headers out : Headers)
      → AllNames K headers
      → AllNames K out
      → AllNames K (without_content_type to_lower_case headers out)
  unfolding without_content_type
  without_content_type-AllNames K [] out a b = b
  without_content_type-AllNames K ((k, v) ∷ headers) out a b =
      elim (Bool-cases (to_lower_case k == "content-type")) [
        | inl typed ↦ rw typed (without_content_type-AllNames K headers out a.1 b)
        | inr other ↦ rw other (
            without_content_type-AllNames K headers (set k v out) a.1
              (set-AllNames K k v out b a.0))
      ]

  pub without_content_type-IsUnique :
      (headers out : Headers)
      → IsUnique out
      → IsUnique (without_content_type to_lower_case headers out)
  unfolding without_content_type
  without_content_type-IsUnique [] out u = u
  without_content_type-IsUnique ((k, v) ∷ headers) out u =
      elim (Bool-cases (to_lower_case k == "content-type")) [
        | inl typed ↦ rw typed (without_content_type-IsUnique headers out u)
        | inr other ↦
            rw other (without_content_type-IsUnique headers (set k v out) (set-IsUnique k v out u))
      ]

  get-without_content_type_entries :
      (k : String) (headers out : Headers)
      → IsUnique headers
      → get k (without_content_type to_lower_case headers out) ≡ (
          if to_lower_case k == "content-type"
          then get k out
          else elim (get k headers) [ none ↦ get k out | some v ↦ some v ])
  unfolding without_content_type get
  get-without_content_type_entries k [] out u = ground arith
  get-without_content_type_entries k ((j, v) ∷ headers) out u = ground (
    arith,
    get-without_content_type_entries k headers out u.1,
    get-without_content_type_entries k headers (set j v out) u.1,
    get-set k j v out,
    eq_iff j k,
    u.0,
  )

  -- Every header keeps its value but the content type, which is gone.
  pub get-without_content_type :
      (k : String) (headers : Headers)
      → IsUnique headers
      → get k (without_content_type to_lower_case headers [])
        ≡ (if to_lower_case k == "content-type" then none else get k headers)
  unfolding get
  get-without_content_type k headers u =
      ground (arith, get-without_content_type_entries k headers [] u)

  filter_entries-allowed :
      (entries out : Headers)
      → AllNames (λ k. has k allowed_response_headers ≡ true) out
      → AllNames
          (λ k. has k allowed_response_headers ≡ true)
          (filter_entries to_lower_case entries out)
  unfolding filter_entries
  filter_entries-allowed [] out a = a
  filter_entries-allowed ((k, v) ∷ entries) out a =
      elim (Bool-cases (has (to_lower_case k) allowed_response_headers)) [
        | inl fine ↦ rw fine (
            filter_entries-allowed entries (set (to_lower_case k) v out) (
              set-AllNames (λ k. has k allowed_response_headers ≡ true) (to_lower_case k) v out a
                fine))
        | inr bad ↦ rw bad (filter_entries-allowed entries out a)
      ]

  pub filter_response_headers-allowed :
      (headers : Headers)
      → AllNames
          (λ k. has k allowed_response_headers ≡ true)
          (filter_response_headers to_lower_case headers)
  unfolding filter_response_headers
  filter_response_headers-allowed headers = filter_entries-allowed headers [] tt

  module _ (stringify : Json → String) (encode_form : List (String × String) → String)
      (decode_base64 : String → List ℕ) (sort : List String → List String)
      (args : RunHttpFetchArgs) where
    sanitized-allowed :
        (headers : Option Headers)
        → AllNames
            (λ k. is_blocked to_lower_case k ≡ false)
            (sanitize_request_headers to_lower_case sort headers).0
    unfolding sanitize_request_headers
    sanitized-allowed none = tt
    sanitized-allowed (some headers) = sanitize_entries-allowed headers [] [] tt

    sanitized-IsUnique :
        (headers : Option Headers)
        → IsUnique (sanitize_request_headers to_lower_case sort headers).0
    unfolding sanitize_request_headers
    sanitized-IsUnique none = tt
    sanitized-IsUnique (some headers) = sanitize_entries-IsUnique headers [] [] tt

    abbrev initial : Headers → InternalRequest
    initial headers =
        build_internal_request to_lower_case stringify encode_form decode_base64 args headers

    -- The built request has the headers of the caller, with the default content type at most.
    build-headers :
        (headers : Headers)
        → ((initial headers).headers ≡ headers)
          ⊎ ((type : String) × ((initial headers).headers ≡ set "content-type" type headers))
    unfolding build_internal_request
    build-headers headers = elim (Option-cases args.body) [
      | inl e ↦ inl (ground arith)
      | inr (value, e) ↦
          elim (Option-cases (encode_request_body stringify encode_form decode_base64 value).1) [
            | inl untyped ↦ inl (ground arith)
            | inr (type, typed) ↦ elim (Bool-cases (has_content_type to_lower_case headers)) [
              | inl own ↦ inl (ground arith)
              | inr missing ↦ inr (type, ground arith)
            ]
          ]
    ]

    pub run_headers-allowed :
        is_blocked to_lower_case "content-type" ≡ false
        → AllNames
            (λ k. is_blocked to_lower_case k ≡ false)
            (initial (sanitize_request_headers to_lower_case sort args.headers).0).headers
    run_headers-allowed free =
        let kept = (sanitize_request_headers to_lower_case sort args.headers).0 in
        let fine = sanitized-allowed args.headers in
        elim (build-headers kept) [
          | inl same ↦ subst (AllNames (λ k. is_blocked to_lower_case k ≡ false)) (sym same) fine
          | inr (type, typed) ↦
              subst (AllNames (λ k. is_blocked to_lower_case k ≡ false)) (sym typed) (
                set-AllNames (λ k. is_blocked to_lower_case k ≡ false) "content-type" type kept fine
                  free)
        ]

    pub run_headers-IsUnique :
        IsUnique (initial (sanitize_request_headers to_lower_case sort args.headers).0).headers
    run_headers-IsUnique =
        let kept = (sanitize_request_headers to_lower_case sort args.headers).0 in
        let apart = sanitized-IsUnique args.headers in
        elim (build-headers kept) [
          | inl same ↦ subst IsUnique (sym same) apart
          | inr (type, typed) ↦
              subst IsUnique (sym typed) (set-IsUnique "content-type" type kept apart)
        ]
