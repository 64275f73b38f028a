-- ===== src/Examples/HttpFetch.antt =====
-- A fetch that follows a redirect.
use stellara.Prelude.{
  ◌++◌, length, ℕ, zero, suc, ◌+◌, ◌≤◌, Bool, true, false, List, [], ◌∷◌, Option, none, some,
  String, if◌then◌else◌, ◌≡◌, ◌≢◌, ◌⊎◌, refl, length, All,
}
use text.Mathlib.Text.{◌==◌}
use stellara.Web.{Json}
use stellara.Dict.{get, set}
use stellara.Texts.{has, add}
use stellara.Services.FetchBody.{
  outcome, Format, plain_text, text_body, encode_request_body, chunk, read_body_with_cap,
  drain_reader, append_chunk_or_truncate, concat_chunks, decode_response_body,
}
use stellara.Services.HttpFetch.HeaderRules.{AllNames}
use stellara.Services.HttpFetch.Run.{Follows}
use stellara.Services.HttpFetch.{
  RunHttpFetchArgs, InternalRequest, Response, FetchOutcome, failed, redirect_loop, HttpFetchResult,
  allowed_response_headers, is_blocked, sanitize_request_headers, sanitize_entries,
  build_internal_request, has_content_type, run_http_fetch, perform_with_redirects,
  resolve_redirect, resolve_redirect_url, assemble_result, without_content_type,
  filter_response_headers, filter_entries,
}
use stellara.Services.HttpFetch.Run.{
  run_http_fetch-urls, run_http_fetch-answers, run_http_fetch-requests, run_http_fetch-allowed,
  run_http_fetch-result,
}

abbrev to_lower_case : String → String
to_lower_case s = if s == "Cookie" then "cookie" else s

abbrev is_safe : String → Bool
is_safe s = s == "https://b/"

abbrev resolve_url : String → String → Option String
resolve_url location base = some location

abbrev decode_utf8 : List ℕ → String
decode_utf8 bytes = "a"

abbrev encode_base64 : List ℕ → String
encode_base64 bytes = ""

abbrev parse_json : String → Option Json
parse_json s = none

abbrev stringify : Json → String
stringify j = "null"

abbrev encode_form : List (String × String) → String
encode_form entries = ""

abbrev decode_base64 : String → List ℕ
decode_base64 s = []

abbrev sort : List String → List String
sort names = names

abbrev args : RunHttpFetchArgs
args = record {
  url = "https://a/";
  method = "POST";
  headers = some (("Cookie", "x") ∷ ("authorization", "y") ∷ []);
  body = some (plain_text "z");
  response_format = Format.text;
  follow_redirects = true;
  max_redirects = 3;
}

abbrev moved : Response
moved = record {
  status = 302;
  status_text = "Found";
  headers = ("location", "https://b/") ∷ [];
  body = none;
}

abbrev final : Response
final = record {
  status = 200;
  status_text = "OK";
  headers = ("etag", "1") ∷ ("set-cookie", "s") ∷ [];
  body = some (chunk (97 ∷ []) ∷ []);
}

abbrev fetch : ℕ → String → InternalRequest → Option Response
fetch zero url request = some moved
fetch (suc k) url request = some final

abbrev run : FetchOutcome × List (String × InternalRequest)
run =
    run_http_fetch to_lower_case is_safe resolve_url decode_utf8 encode_base64 parse_json stringify
      encode_form decode_base64 sort fetch args

abbrev initial : InternalRequest
initial =
    build_internal_request to_lower_case stringify encode_form decode_base64 args
      (sanitize_request_headers to_lower_case sort args.headers).0

abbrev r : HttpFetchResult
r = record {
  status = 200;
  status_text = "OK";
  headers = ("etag", "1") ∷ [];
  decoded = text_body "a" false;
  url = "https://b/";
  dropped_request_headers = "cookie" ∷ [];
}

run_http_fetch-urls_example :
    All (λ sent. (sent.0 ≡ args.url) ⊎ (is_safe sent.0 ≡ true)) run.1
    × (length run.1 ≤ args.max_redirects + 1)
run_http_fetch-urls_example =
    run_http_fetch-urls to_lower_case is_safe resolve_url decode_utf8 encode_base64 parse_json
      stringify encode_form decode_base64 sort fetch args

run_http_fetch-answers_example : run.0 ≢ failed redirect_loop
run_http_fetch-answers_example =
    run_http_fetch-answers to_lower_case is_safe resolve_url decode_utf8 encode_base64 parse_json
      stringify encode_form decode_base64 sort fetch args

run_http_fetch-requests_example :
    (initial.method ≡ args.method) × All (λ sent. Follows to_lower_case initial sent.1) run.1
run_http_fetch-requests_example =
    run_http_fetch-requests to_lower_case is_safe resolve_url decode_utf8 encode_base64 parse_json
      stringify encode_form decode_base64 sort fetch args

run_http_fetch-allowed_example :
    All (λ sent. AllNames (λ k. is_blocked to_lower_case k ≡ false) sent.1.headers) run.1
run_http_fetch-allowed_example =
    run_http_fetch-allowed to_lower_case is_safe resolve_url decode_utf8 encode_base64 parse_json
      stringify encode_form decode_base64 sort fetch args refl

run_http_fetch-result_example :
    AllNames (λ k. has k allowed_response_headers ≡ true) r.headers
    × ((before : List (String × InternalRequest)) × (last : InternalRequest) × (response : Response)
        × (bytes : List ℕ) × (truncated : Bool) × (run.1 ≡ before ++ ((r.url, last) ∷ []))
        × (fetch (length before) r.url last ≡ some response)
        × (r.status ≡ response.status)
        × (r.status_text ≡ response.status_text)
        × (r.headers ≡ filter_response_headers to_lower_case response.headers)
        × (read_body_with_cap response.body ≡ outcome bytes truncated)
        × (r.decoded
            ≡ decode_response_body to_lower_case decode_utf8 encode_base64 parse_json (record {
              bytes = bytes;
              truncated = truncated;
              requested = args.response_format;
              content_type = get "content-type" r.headers;
            })))
unfolding run_http_fetch perform_with_redirects sanitize_request_headers sanitize_entries
    build_internal_request encode_request_body has_content_type resolve_redirect
    resolve_redirect_url assemble_result without_content_type filter_response_headers filter_entries
    get set has add read_body_with_cap drain_reader append_chunk_or_truncate concat_chunks
    decode_response_body
run_http_fetch-result_example =
    run_http_fetch-result to_lower_case is_safe resolve_url decode_utf8 encode_base64 parse_json
      stringify encode_form decode_base64 sort fetch args r refl
