-- ===== src/OAuth/ClientDocument/Fetch.antt =====
-- The requests of src/oauth/client-metadata-document.ts and the validation of the last response.
use text.Mathlib.Text.{◌==◌}
use stellara.Prelude.{
  ℕ, suc, zero, ◌+◌, Bool, true, false, not, Option, none, some, List, [], ◌∷◌, String,
  if◌then◌else◌, ◌==ℕ◌, ◌⊎◌, inl, inr,
}
use stellara.Web.{Url, Json}
use stellara.Dict.{get}
use stellara.Services.HttpFetch.{is_redirect}
use stellara.OAuth.Clients.{invalid, valid, validate_redirect_uris}
use stellara.OAuth.ClientDocument.{
  DocumentUrl, CimdTransportResponse, HeaderValue, ValidatedClientDocument, max_redirects,
  first_header, validate_document_url, validate_response_media, document_schema,
  compute_positive_ttl,
}

module _ (parse_document : String → Option DocumentUrl) where
  unfoldable pub parse_client_document_url : String → String ⊎ DocumentUrl
  parse_client_document_url client_id = elim (parse_document client_id) [
    | none ↦ inl "client_id is not a valid CIMD URL"
    | some parsed ↦ elim (validate_document_url parsed) [
      | some message ↦ inl message
      | none ↦ inr parsed
    ]
  ]

-- `new URL(raw, current)`, where `none` is a text that does not parse.
module _ (resolve : String → DocumentUrl → Option DocumentUrl) where
  unfoldable pub resolve_redirect : Option HeaderValue → DocumentUrl → String → String ⊎ DocumentUrl
  resolve_redirect location current origin = elim (first_header location) [
    | none ↦ inl "CIMD redirect is missing Location"
    | some raw ↦ elim (resolve raw current) [
      | none ↦ inl "Invalid URL"
      | some target ↦ elim (validate_document_url target) [
        | some message ↦ inl message
        | none ↦
            if not (target.origin == origin) then inl "CIMD redirect changed origin" else inr target
      ]
    ]
  ]

  module _ (transport : ℕ → DocumentUrl → String ⊎ CimdTransportResponse) (origin : String) where
    -- The loop from a number of redirects on, with the iterations that its condition leaves, and the
    -- URLs that it requests.
    unfoldable pub fetch_from :
        ℕ → ℕ → DocumentUrl → (String ⊎ CimdTransportResponse) × List DocumentUrl
    fetch_from zero redirects current = (inl "Too many CIMD redirects", [])
    fetch_from (suc left) redirects current = elim (validate_document_url current) [
      | some message ↦ (inl message, [])
      | none ↦ elim (transport redirects current) [
        | inl message ↦ (inl message, current ∷ [])
        | inr response ↦ elim (is_redirect response.status_code) [
          | false ↦ (inr response, current ∷ [])
          | true ↦
              if redirects ==ℕ max_redirects
              then (inl "Too many CIMD redirects", current ∷ [])
              else elim (resolve_redirect (get "location" response.headers) current origin) [
                | inl message ↦ (inl message, current ∷ [])
                | inr target ↦
                    let (result, sent) = fetch_from left (redirects + 1) target in
                    (result, current ∷ sent)
              ]
        ]
      ]
    ]

  module _ (parse_document : String → Option DocumentUrl) where
    unfoldable pub fetch_final_response :
        (ℕ → DocumentUrl → String ⊎ CimdTransportResponse)
        → String
        → (String ⊎ CimdTransportResponse) × List DocumentUrl
    fetch_final_response transport original_client_id =
        elim (parse_client_document_url parse_document original_client_id) [
          | inl message ↦ (inl message, [])
          | inr original ↦ fetch_from transport original.origin (max_redirects + 1) 0 original
        ]

-- The JSON parser gives the message of its exception or the value.
module _ (to_lower_case : String → String) (parse_date : String → Option ℕ)
    (decode_utf8 : List ℕ → String) (parse_json : String → String ⊎ Json) (is_url : String → Bool)
    (parse_url : String → Option Url) where
  unfoldable pub validate_document :
      String → ℕ → CimdTransportResponse → Json → String ⊎ ValidatedClientDocument
  validate_document original_client_id now response parsed = elim (document_schema is_url parsed) [
    | none ↦ inl "CIMD document is invalid"
    | some (client_id, client_name, redirect_uris) ↦
        if not (client_id == original_client_id)
        then inl "CIMD self-binding mismatch"
        else elim (validate_redirect_uris parse_url redirect_uris) [
          | invalid _ ↦ inl "CIMD document contains an invalid redirect_uri"
          | valid ↦ elim (compute_positive_ttl to_lower_case parse_date response.headers now) [
            | inl message ↦ inl message
            | inr ttl_ms ↦ inr (record {
              client_id = original_client_id;
              client_name = client_name;
              redirect_uris = redirect_uris;
              ttl_ms = ttl_ms;
            })
          ]
        ]
  ]

  unfoldable pub validate_document_response :
      String → CimdTransportResponse → ℕ → String ⊎ ValidatedClientDocument
  validate_document_response original_client_id response now =
      if not (response.status_code ==ℕ 200)
      then inl "CIMD endpoint did not return HTTP 200"
      else elim (validate_response_media to_lower_case response) [
        | some message ↦ inl message
        | none ↦ elim (parse_json (decode_utf8 response.body)) [
          | inl message ↦ inl message
          | inr parsed ↦ validate_document original_client_id now response parsed
        ]
      ]

  module _ (resolve : String → DocumentUrl → Option DocumentUrl)
      (parse_document : String → Option DocumentUrl) where
    -- The document with the URLs that were requested.
    unfoldable pub fetch_client_document :
        (ℕ → DocumentUrl → String ⊎ CimdTransportResponse)
        → String
        → ℕ
        → (String ⊎ ValidatedClientDocument) × List DocumentUrl
    fetch_client_document transport original_client_id now =
        let (response, sent) =
          fetch_final_response resolve parse_document transport original_client_id in
        (
          elim response [
            | inl message ↦ inl message
            | inr final ↦ validate_document_response original_client_id final now
          ],
          sent,
        )
