-- ===== src/OAuth/ClientDocument/Validated.antt =====
-- What a client metadata document is once it is accepted, and where its requests go.
use stellara.Prelude.{
  ℕ, suc, zero, ◌+◌, ◌≤◌, ◌<◌, Bool, Option, none, some, List, [], ◌∷◌, String, ◌==ℕ◌, length, ◌⊎◌,
  inl, inr, ◌≡◌, refl, ap, ◌∙◌, arith, eq_iff, Bool-cases, Option-cases, All, ◌>>=◌,
}
use stellara.Web.{Url, Json}
use stellara.Dict.{get}
use stellara.Services.HttpFetch.{is_redirect}
use stellara.OAuth.Clients.{valid, validate_redirect_uris}
use stellara.OAuth.ClientDocument.{
  DocumentUrl, CimdTransportResponse, HeaderValue, ValidatedClientDocument, max_redirects,
  max_positive_ttl_ms, max_response_bytes, first_header, validate_document_url, read_max_age_ttl,
  find_max_age, max_age, cache_control_directives, compute_positive_ttl, validate_response_media,
  document_schema,
}
use stellara.OAuth.ClientDocument.Fetch.{
  parse_client_document_url, resolve_redirect, fetch_from, fetch_final_response, validate_document,
  validate_document_response, fetch_client_document,
}

pub Checked-cases {ℓ} :
    {A : Type ℓ} (r : String ⊎ A)
    → ((message : String) × (r ≡ inl message)) ⊎ ((a : A) × (r ≡ inr a))
Checked-cases (inl message) = inl (message, refl)
Checked-cases (inr a) = inr (a, refl)

-- A lifetime that lets the cache hold a document, and no longer than the cap.
abbrev pub IsFresh : ℕ → Type 0
IsFresh ttl = (0 < ttl) × (ttl ≤ max_positive_ttl_ms)

read_max_age_ttl-IsFresh :
    (directives : List String) (ttl : ℕ)
    → read_max_age_ttl directives ≡ inr (some ttl)
    → IsFresh ttl
unfolding read_max_age_ttl
read_max_age_ttl-IsFresh directives ttl h = elim (Option-cases (find_max_age directives)) [
  | inl e ↦ ground arith
  | inr (d, e) ↦ elim (Option-cases (max_age d)) [
    | inl e' ↦ ground arith
    | inr (seconds, e') ↦ ground arith
  ]
]

module _ (to_lower_case : String → String) (parse_date : String → Option ℕ) where
  compute_positive_ttl-IsFresh :
      (headers : List (String × HeaderValue)) (now ttl : ℕ)
      → compute_positive_ttl to_lower_case parse_date headers now ≡ inr ttl
      → IsFresh ttl
  unfolding compute_positive_ttl
  compute_positive_ttl-IsFresh headers now ttl h =
      let directives = cache_control_directives to_lower_case (get "cache-control" headers) in
      elim (Checked-cases (read_max_age_ttl directives)) [
        | inl (message, e) ↦ ground arith
        | inr (age, e) ↦ elim (Option-cases age) [
          | inl absent ↦ elim (Option-cases (first_header (get "expires" headers) >>= parse_date)) [
            | inl e' ↦ ground arith
            | inr (expiry, e') ↦ ground arith
          ]
          | inr (t, aged) ↦
              let fresh = read_max_age_ttl-IsFresh directives t (e ∙ ap inr aged) in ground arith
        ]
      ]

-- A URL of a document on an origin: https, no credentials, no fragment, and a path.
abbrev pub IsDocumentUrl : String → DocumentUrl → Type 0
IsDocumentUrl origin url =
    (url.origin ≡ origin)
    × (url.protocol ≡ "https:")
    × (url.username ≡ "")
    × (url.password ≡ "")
    × (url.hash ≡ "")

validated-url :
    (url : DocumentUrl) (origin : String)
    → url.origin ≡ origin
    → validate_document_url url ≡ none
    → IsDocumentUrl origin url
unfolding validate_document_url
validated-url url origin same h = (
  same,
  ground (arith, eq_iff url.protocol "https:"),
  ground (arith, eq_iff url.username ""),
  ground (arith, eq_iff url.password ""),
  ground (arith, eq_iff url.hash ""),
)

module _ (resolve : String → DocumentUrl → Option DocumentUrl) where
  resolved-origin :
      (location : Option HeaderValue) (current target : DocumentUrl) (origin : String)
      → resolve_redirect resolve location current origin ≡ inr target
      → target.origin ≡ origin
  unfolding resolve_redirect
  resolved-origin location current target origin h = elim (Option-cases (first_header location)) [
    | inl e ↦ ground arith
    | inr (raw, e) ↦ elim (Option-cases (resolve raw current)) [
      | inl e' ↦ ground arith
      | inr (url, e') ↦ elim (Option-cases (validate_document_url url)) [
        | inl fine ↦ ground (arith, eq_iff url.origin origin)
        | inr (message, bad) ↦ ground arith
      ]
    ]
  ]

  module _ (transport : ℕ → DocumentUrl → String ⊎ CimdTransportResponse) (origin : String) where
    abbrev fetched_from : ℕ → ℕ → DocumentUrl → (String ⊎ CimdTransportResponse) × List DocumentUrl
    fetched_from = fetch_from resolve transport origin

    -- An iteration sends nothing, is the last one, or follows a redirect.
    fetch_from-cases :
        (left redirects : ℕ) (current : DocumentUrl)
        → ((fetched_from (suc left) redirects current).1 ≡ [])
          ⊎ (validate_document_url current ≡ none)
            × (((fetched_from (suc left) redirects current).1 ≡ current ∷ [])
                ⊎ ((target : DocumentUrl) × (target.origin ≡ origin)
                    × ((fetched_from (suc left) redirects current).1
                        ≡ current ∷ (fetched_from left (redirects + 1) target).1)))
    unfolding fetch_from
    fetch_from-cases left redirects current = elim (Option-cases (validate_document_url current)) [
      | inr (message, bad) ↦ inl (ground arith)
      | inl fine ↦ inr (
        fine,
        elim (Checked-cases (transport redirects current)) [
          | inl (message, e) ↦ inl (ground arith)
          | inr (response, e) ↦ elim (Bool-cases (is_redirect response.status_code)) [
            | inr final ↦ inl (ground arith)
            | inl moved ↦ elim (Bool-cases (redirects ==ℕ max_redirects)) [
              | inl last ↦ inl (ground arith)
              | inr more ↦
                  elim (Checked-cases
                    (resolve_redirect resolve (get "location" response.headers) current origin)) [
                      | inl (message, e') ↦ inl (ground arith)
                      | inr (target, e') ↦ inr (
                        target,
                        resolved-origin (get "location" response.headers) current target origin e',
                        ground arith,
                      )
                    ]
            ]
          ]
        ],
      )
    ]

    pub fetch_from-urls :
        (left redirects : ℕ) (current : DocumentUrl)
        → current.origin ≡ origin
        → All (IsDocumentUrl origin) (fetched_from left redirects current).1
          × (length (fetched_from left redirects current).1 ≤ left)
    unfolding fetch_from
    fetch_from-urls zero redirects current same = (tt, omega arith)
    fetch_from-urls (suc left) redirects current same =
        elim (fetch_from-cases left redirects current) [
          | inl e ↦ rw e (tt, omega arith)
          | inr (fine, inl e) ↦ rw e ((validated-url current origin same fine, tt), omega arith)
          | inr (fine, inr (target, there, e)) ↦
              let (rest, few) = fetch_from-urls left (redirects + 1) target there in
              rw e ((validated-url current origin same fine, rest), omega (arith, few))
        ]

module _ (to_lower_case : String → String) (parse_date : String → Option ℕ)
    (decode_utf8 : List ℕ → String) (parse_json : String → String ⊎ Json) (is_url : String → Bool)
    (parse_url : String → Option Url) (resolve : String → DocumentUrl → Option DocumentUrl)
    (parse_document : String → Option DocumentUrl)
    (transport : ℕ → DocumentUrl → String ⊎ CimdTransportResponse) (client_id : String)
    (now : ℕ) where
  abbrev sent : List DocumentUrl
  sent =
      (fetch_client_document to_lower_case parse_date decode_utf8 parse_json is_url parse_url
        resolve parse_document transport client_id now).1

  -- Every request of a retrieval goes by https to the origin of the client id, without credentials or
  -- a fragment, and there are at most four of them.
  pub fetch_client_document-urls :
      (original : DocumentUrl)
      → parse_document client_id ≡ some original
      → All
          (IsDocumentUrl original.origin)
          (fetch_client_document to_lower_case parse_date decode_utf8 parse_json is_url parse_url
            resolve parse_document transport client_id now).1
        × (length
              (fetch_client_document to_lower_case parse_date decode_utf8 parse_json is_url
                parse_url resolve parse_document transport client_id now).1
            ≤ 4)
  unfolding fetch_client_document fetch_final_response parse_client_document_url
  fetch_client_document-urls original h = elim (Option-cases (validate_document_url original)) [
    | inr (message, bad) ↦ let nothing : sent ≡ [] = ground arith in rw nothing (tt, omega arith)
    | inl fine ↦
        let all_of : sent ≡ (fetch_from resolve transport original.origin 4 0 original).1 =
          ground arith in
        rw all_of (fetch_from-urls resolve transport original.origin 4 0 original refl)
  ]

  validate_document-accepts :
      (response : CimdTransportResponse) (parsed : Json) (d : ValidatedClientDocument)
      → validate_document to_lower_case parse_date decode_utf8 parse_json is_url parse_url client_id
          now response parsed
        ≡ inr d
      → (d.client_id ≡ client_id)
        × (document_schema is_url parsed ≡ some (client_id, d.client_name, d.redirect_uris))
        × IsFresh d.ttl_ms
        × (validate_redirect_uris parse_url d.redirect_uris ≡ valid)
  unfolding validate_document
  validate_document-accepts response parsed d h =
      elim (Option-cases (document_schema is_url parsed)) [
        | inl e ↦ ground arith
        | inr ((id, name, uris), e) ↦
            elim (Checked-cases
              (compute_positive_ttl to_lower_case parse_date response.headers now)) [
                | inl (message, e') ↦ ground arith
                | inr (ttl, e') ↦
                    let fresh =
                      compute_positive_ttl-IsFresh to_lower_case parse_date response.headers now ttl
                        e' in
                    (ground arith, ground (arith, eq_iff id client_id), ground arith, ground arith)
              ]
      ]

  validate_document_response-accepts :
      (response : CimdTransportResponse) (d : ValidatedClientDocument)
      → validate_document_response to_lower_case parse_date decode_utf8 parse_json is_url parse_url
          client_id response now
        ≡ inr d
      → (response.status_code ≡ 200)
        × (length response.body ≤ max_response_bytes)
        × ((parsed : Json) × (parse_json (decode_utf8 response.body) ≡ inr parsed)
            × (validate_document to_lower_case parse_date decode_utf8 parse_json is_url parse_url
                  client_id now response parsed
                ≡ inr d))
  unfolding validate_document_response validate_response_media
  validate_document_response-accepts response d h =
      elim (Option-cases (validate_response_media to_lower_case response)) [
        | inr (message, bad) ↦ ground arith
        | inl fine ↦ elim (Checked-cases (parse_json (decode_utf8 response.body))) [
          | inl (message, e) ↦ ground arith
          | inr (parsed, e) ↦
              elim (Option-cases (first_header (get "content-type" response.headers))) [
                | inl untyped ↦ ground arith
                | inr (type, typed) ↦ (ground arith, ground arith, (parsed, e, ground arith))
              ]
        ]
      ]

  -- An accepted document is the JSON of the last response, which had status 200 and at most 64 KiB. Its
  -- field `client_id` is the client id that it was retrieved for, its name and redirect URIs are the
  -- ones that are kept, the URIs are valid, and its lifetime is above 0 and at most an hour.
  pub fetch_client_document-accepts :
      (d : ValidatedClientDocument)
      → (fetch_client_document to_lower_case parse_date decode_utf8 parse_json is_url parse_url
          resolve parse_document transport client_id now).0
        ≡ inr d
      → (d.client_id ≡ client_id)
        × (0 < d.ttl_ms)
        × (d.ttl_ms ≤ max_positive_ttl_ms)
        × (validate_redirect_uris parse_url d.redirect_uris ≡ valid)
        × ((response : CimdTransportResponse) × (parsed : Json) × ((fetch_final_response resolve
                parse_document transport client_id).0
              ≡ inr response)
            × (response.status_code ≡ 200)
            × (length response.body ≤ max_response_bytes)
            × (parse_json (decode_utf8 response.body) ≡ inr parsed)
            × (document_schema is_url parsed ≡ some (client_id, d.client_name, d.redirect_uris)))
  unfolding fetch_client_document
  fetch_client_document-accepts d h =
      elim (Checked-cases (fetch_final_response resolve parse_document transport client_id).0) [
        | inl (message, e) ↦ ground arith
        | inr (response, e) ↦
            let (status, small, (parsed, json, accepted)) =
              validate_document_response-accepts response d (ground arith) in
            let (own, named, fresh, uris) = validate_document-accepts response parsed d accepted in
            (own, fresh.0, fresh.1, uris, (response, parsed, e, status, small, json, named))
      ]
