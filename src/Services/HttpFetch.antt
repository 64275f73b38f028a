-- ===== src/Services/HttpFetch.antt =====
-- src/services/http-fetch.ts: `runHttpFetch`, from the headers of the caller to the answer. A fetch is a
-- function of the number of the hop, the URL and the request, `none` where it rejects. The parsers,
-- the encodings, `sort`, `toLowerCase` and the check of a URL are parameters.
pub mod Hops
pub mod HeaderRules
pub mod Run
use Prim.Native.String
use text.Mathlib.Text.{◌==◌, starts_with}
use stellara.Prelude.{
  ℕ, suc, zero, ◌+◌, Bool, true, false, ◌&&◌, ◌||◌, not, Option, none, some, List, [], ◌∷◌, String,
  if◌then◌else◌, ◌==ℕ◌, any, ◌⊎◌, inl, inr,
}
use stellara.Web.{Json}
use stellara.Dict.{get, set}
use stellara.Texts.{has, add}
use stellara.Services.FetchBody.{
  Read, Format, DecodeInput, DecodeOutput, response_truncated_json, response_not_json,
  decode_response_body, read_body_with_cap, outcome, timeout, read_error, HttpFetchBody,
  InternalBody, no_body, encode_request_body,
}

abbrev pub blocked_request_headers : List String
blocked_request_headers =
    "host" ∷ "connection" ∷ "transfer-encoding" ∷ "content-length" ∷ "keep-alive" ∷ "te" ∷ "upgrade"
    ∷ "cookie" ∷ []

abbrev pub allowed_response_headers : List String
allowed_response_headers =
    "content-type" ∷ "content-length" ∷ "etag" ∷ "last-modified" ∷ "cache-control" ∷ "location"
    ∷ "retry-after" ∷ []

abbrev pub is_redirect : ℕ → Bool
is_redirect status =
    status ==ℕ 301 || status ==ℕ 302 || status ==ℕ 303 || status ==ℕ 307 || status ==ℕ 308

-- `REDIRECT_METHOD_REWRITES.get(status)`, which is "GET" where it is defined.
abbrev pub rewrites_method : ℕ → Bool
rewrites_method status = status ==ℕ 301 || status ==ℕ 302 || status ==ℕ 303

-- The header bags, in the order of their entries.
abbrev pub Headers : Type 0
Headers = List (String × String)

-- The abort signal is left out: it shows in what the fetch and the reads of a body give.
pub record RunHttpFetchArgs : Type 0 where
  pub url : String
  pub method : String
  pub headers : Option Headers
  pub body : Option HttpFetchBody
  pub response_format : Format
  pub follow_redirects : Bool
  pub max_redirects : ℕ

pub record InternalRequest : Type 0 where
  pub method : String
  pub headers : Headers
  pub body : InternalBody

-- A response; the names of its headers are lower case and distinct, as `Headers` holds them.
pub record Response : Type 0 where
  pub status : ℕ
  pub status_text : String
  pub headers : Headers
  pub body : Option (List Read)

-- `decoded` is one of the three bodies, never an error.
pub record HttpFetchResult : Type 0 where
  pub status : ℕ
  pub status_text : String
  pub headers : Headers
  pub decoded : DecodeOutput
  pub url : String
  pub dropped_request_headers : List String

-- The errors by their `reason`, without the other details.
pub data FetchError : Type 0 where
  upstream redirect_without_location redirect_invalid_location redirect_blocked redirect_loop :
      FetchError
  body_timeout body_read_error truncated_json not_json : FetchError

pub data FetchOutcome : Type 0 where
  failed : FetchError → FetchOutcome
  fetched : HttpFetchResult → FetchOutcome

pub data Redirect : Type 0 where
  refused : FetchError → Redirect
  next : String → InternalRequest → Redirect

module _ (is_safe : String → Bool) (resolve_url : String → String → Option String) where
  unfoldable pub resolve_redirect_url : Response → String → FetchError ⊎ String
  resolve_redirect_url response current_url = elim (get "location" response.headers) [
    | none ↦ inl redirect_without_location
    | some location ↦
        if location == ""
        then inl redirect_without_location
        else elim (resolve_url location current_url) [
          | none ↦ inl redirect_invalid_location
          | some next_url ↦ if not (is_safe next_url) then inl redirect_blocked else inr next_url
        ]
  ]

module _ (to_lower_case : String → String) where
  abbrev pub is_blocked : String → Bool
  is_blocked key =
      has (to_lower_case key) blocked_request_headers || starts_with (to_lower_case key) "proxy-"

  -- The loop over the entries, with what is kept and dropped so far.
  unfoldable pub sanitize_entries : Headers → Headers × List String → Headers × List String
  sanitize_entries [] state = state
  sanitize_entries ((key, value) ∷ entries) (kept, dropped) = sanitize_entries entries (
      if is_blocked key
      then (kept, add (to_lower_case key) dropped)
      else (set key value kept, dropped))

  unfoldable pub sanitize_request_headers :
      (List String → List String) → Option Headers → Headers × List String
  sanitize_request_headers sort none = ([], sort [])
  sanitize_request_headers sort (some headers) =
      let (kept, dropped) = sanitize_entries headers ([], []) in (kept, sort dropped)

  unfoldable pub without_content_type : Headers → Headers → Headers
  without_content_type [] out = out
  without_content_type ((key, value) ∷ entries) out =
      without_content_type entries
        (if not (to_lower_case key == "content-type") then set key value out else out)

  unfoldable pub has_content_type : Headers → Bool
  has_content_type headers = any (λ h. to_lower_case h.0 == "content-type") headers

  unfoldable pub filter_entries : Headers → Headers → Headers
  filter_entries [] out = out
  filter_entries ((key, value) ∷ entries) out = filter_entries entries (
      if has (to_lower_case key) allowed_response_headers
      then set (to_lower_case key) value out
      else out)

  unfoldable pub filter_response_headers : Headers → Headers
  filter_response_headers headers = filter_entries headers []

  module _ (stringify : Json → String) (encode_form : List (String × String) → String)
      (decode_base64 : String → List ℕ) where
    unfoldable pub build_internal_request : RunHttpFetchArgs → Headers → InternalRequest
    build_internal_request args headers = elim args.body [
      | none ↦ record { method = args.method; headers = headers; body = no_body }
      | some value ↦
          let (body, content_type) =
            encode_request_body stringify encode_form decode_base64 value in
          record {
            method = args.method;
            headers = elim content_type [
              | none ↦ headers
              | some type ↦
                  if not (has_content_type headers)
                  then set "content-type" type headers
                  else headers
            ];
            body = body;
          }
    ]

  -- The request of the hop after a 301, 302 or 303.
  abbrev pub as_get : InternalRequest → InternalRequest
  as_get request = record {
    method = "GET";
    headers = without_content_type request.headers [];
    body = no_body;
  }

  module _ (decode_utf8 : List ℕ → String) (encode_base64 : List ℕ → String)
      (parse_json : String → Option Json) where
    unfoldable pub assemble_result : Response → String → List String → Format → FetchOutcome
    assemble_result response final_url dropped format =
        let headers = filter_response_headers response.headers in
        elim (read_body_with_cap response.body) [
          | timeout ↦ failed body_timeout
          | read_error ↦ failed body_read_error
          | outcome bytes truncated ↦
              let decoded =
                decode_response_body to_lower_case decode_utf8 encode_base64 parse_json (record {
                  bytes = bytes;
                  truncated = truncated;
                  requested = format;
                  content_type = get "content-type" headers;
                }) in
              let result = fetched (record {
                status = response.status;
                status_text = response.status_text;
                headers = headers;
                decoded = decoded;
                url = final_url;
                dropped_request_headers = dropped;
              }) in
              elim decoded [
                | response_truncated_json ↦ failed truncated_json
                | response_not_json ↦ failed not_json
                | _ ↦ result
              ]
        ]

  module _ (is_safe : String → Bool) (resolve_url : String → String → Option String) where
    unfoldable pub resolve_redirect : Response → String → InternalRequest → Redirect
    resolve_redirect response current_url request =
        elim (resolve_redirect_url is_safe resolve_url response current_url) [
          | inl error ↦ refused error
          | inr next_url ↦
              next next_url (if rewrites_method response.status then as_get request else request)
        ]

    module _ (decode_utf8 : List ℕ → String) (encode_base64 : List ℕ → String)
        (parse_json : String → Option Json) where
      module _ (fetch : ℕ → String → InternalRequest → Option Response) (args : RunHttpFetchArgs)
          (dropped : List String) where
        -- The loop of `performWithRedirects` from a hop on, with the iterations that its condition
        -- leaves, and the requests that it sends.
        unfoldable pub perform_with_redirects :
            ℕ → ℕ → String → InternalRequest → FetchOutcome × List (String × InternalRequest)
        perform_with_redirects zero hop url request = (failed redirect_loop, [])
        perform_with_redirects (suc left) hop url request = elim (fetch hop url request) [
          | none ↦ (failed upstream, (url, request) ∷ [])
          | some response ↦
              elim (not args.follow_redirects
                || not (is_redirect response.status)
                || hop ==ℕ args.max_redirects) [
                  | true ↦ (
                    assemble_result decode_utf8 encode_base64 parse_json response url dropped
                        args.response_format,
                    (url, request) ∷ [],
                  )
                  | false ↦ elim (resolve_redirect response url request) [
                    | refused error ↦ (failed error, (url, request) ∷ [])
                    | next next_url next_request ↦
                        let (result, sent) =
                          perform_with_redirects left (hop + 1) next_url next_request in
                        (result, (url, request) ∷ sent)
                  ]
                ]
        ]

      module _ (stringify : Json → String) (encode_form : List (String × String) → String)
          (decode_base64 : String → List ℕ) (sort : List String → List String) where
        -- The outcome with the requests that were sent, the first one first.
        unfoldable pub run_http_fetch :
            (ℕ → String → InternalRequest → Option Response)
            → RunHttpFetchArgs
            → FetchOutcome × List (String × InternalRequest)
        run_http_fetch fetch args =
            let (headers, dropped) = sanitize_request_headers sort args.headers in
            perform_with_redirects fetch args dropped (args.max_redirects + 1) 0 args.url
              (build_internal_request stringify encode_form decode_base64 args headers)
