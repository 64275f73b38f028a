-- ===== src/Services/HttpFetch/Run.antt =====
-- `runHttpFetch` of services/http-fetch.ts: the requests that it sends and the answer that it gives.
use text.Mathlib.Text.{◌==◌, starts_with}
use stellara.Prelude.{
  ℕ, suc, ◌+◌, ◌≤◌, Bool, true, false, Option, none, some, List, [], String, if◌then◌else◌, ◌≡◌,
  ◌≢◌, refl, sym, ap, ◌∙◌, arith, ◌⊎◌, ◌||◌, inl, inr, All, length, subst, ◌++◌, ◌∷◌,
}
use stellara.Web.{Json}
use stellara.Dict.{get}
use stellara.Dict.Laws.{IsUnique}
use stellara.Texts.{has}
use stellara.Services.FetchBody.{no_body, outcome, read_body_with_cap, decode_response_body}
use stellara.Services.HttpFetch.{
  Headers, RunHttpFetchArgs, InternalRequest, Response, redirect_loop, FetchOutcome, failed,
  fetched, HttpFetchResult, allowed_response_headers, is_blocked, blocked_request_headers,
  sanitize_request_headers, next, resolve_redirect, as_get, build_internal_request,
  perform_with_redirects, run_http_fetch, filter_response_headers,
}
use stellara.Services.HttpFetch.HeaderRules.{
  AllNames, without_content_type-AllNames, without_content_type-IsUnique, get-without_content_type,
  filter_response_headers-allowed, run_headers-allowed, run_headers-IsUnique,
}
use stellara.Services.HttpFetch.Hops.{
  resolve_redirect-next, perform-All, length-perform-le, perform-no_loop, perform-fetched,
}

-- A request of a later hop: the first one as it was, or a GET without body and content type.
abbrev pub Follows : (String → String) → InternalRequest → InternalRequest → Type 0
Follows to_lower_case initial request =
    (request ≡ initial)
    ⊎ ((request.method ≡ "GET")
        × (request.body ≡ no_body)
        × IsUnique request.headers
        × ((k : String)
            → get k request.headers
              ≡ (if to_lower_case k == "content-type" then none else get k initial.headers)))

content_type-allowed :
    (to_lower_case : String → String)
    → to_lower_case "content-type" ≡ "content-type"
    → is_blocked to_lower_case "content-type" ≡ false
unfolding has
content_type-allowed to_lower_case lower =
    ap (λ k. has k blocked_request_headers || starts_with k "proxy-") lower

build-method :
    (to_lower_case : String → String) (stringify : Json → String)
    (encode_form : List (String × String) → String) (decode_base64 : String → List ℕ)
    (args : RunHttpFetchArgs) (headers : Headers)
    → (build_internal_request to_lower_case stringify encode_form decode_base64 args headers).method
      ≡ args.method
unfolding build_internal_request
build-method to_lower_case stringify encode_form decode_base64 args headers = ground arith

module _ (to_lower_case : String → String) (is_safe : String → Bool)
    (resolve_url : String → String → Option String) where
  Follows-as_get :
      (initial request : InternalRequest)
      → IsUnique initial.headers
      → Follows to_lower_case initial request
      → Follows to_lower_case initial (as_get to_lower_case request)
  Follows-as_get initial request u (inl same) = inr (
    refl,
    refl,
    without_content_type-IsUnique to_lower_case request.headers [] tt,
    λ k.
        get-without_content_type to_lower_case k request.headers
          (subst (λ r. IsUnique r.headers) (sym same) u)
        ∙ ap (λ r. if to_lower_case k == "content-type" then none else get k r.headers) same,
  )
  Follows-as_get initial request u (inr (method, body, apart, kept)) = inr (
    refl,
    refl,
    without_content_type-IsUnique to_lower_case request.headers [] tt,
    λ k. get-without_content_type to_lower_case k request.headers apart ∙ ground (arith, kept k),
  )

  Follows-step :
      (initial : InternalRequest)
      → IsUnique initial.headers
      → (response : Response) (url target : String) (request request' : InternalRequest)
      → resolve_redirect to_lower_case is_safe resolve_url response url request
        ≡ next target request'
      → Follows to_lower_case initial request
      → Follows to_lower_case initial request'
  Follows-step initial u response url target request request' resolved f =
      elim (resolve_redirect-next to_lower_case is_safe resolve_url response url target request
        request' resolved).1 [
          | inl same ↦ subst (Follows to_lower_case initial) (sym same) f
          | inr got ↦
              subst (Follows to_lower_case initial) (sym got) (Follows-as_get initial request u f)
        ]

  allowed-step :
      (response : Response) (url target : String) (request request' : InternalRequest)
      → resolve_redirect to_lower_case is_safe resolve_url response url request
        ≡ next target request'
      → AllNames (λ k. is_blocked to_lower_case k ≡ false) request.headers
      → AllNames (λ k. is_blocked to_lower_case k ≡ false) request'.headers
  allowed-step response url target request request' resolved a =
      elim (resolve_redirect-next to_lower_case is_safe resolve_url response url target request
        request' resolved).1 [
          | inl same ↦
              subst (λ r. AllNames (λ k. is_blocked to_lower_case k ≡ false) r.headers) (sym same) a
          | inr got ↦
              subst (λ r. AllNames (λ k. is_blocked to_lower_case k ≡ false) r.headers) (sym got)
                (without_content_type-AllNames to_lower_case
                  (λ k. is_blocked to_lower_case k ≡ false) request.headers [] a tt)
        ]

module _ (to_lower_case : String → String) (is_safe : String → Bool)
    (resolve_url : String → String → Option String) (decode_utf8 : List ℕ → String)
    (encode_base64 : List ℕ → String) (parse_json : String → Option Json)
    (stringify : Json → String) (encode_form : List (String × String) → String)
    (decode_base64 : String → List ℕ) (sort : List String → List String)
    (fetch : ℕ → String → InternalRequest → Option Response) (args : RunHttpFetchArgs) where
  abbrev run : FetchOutcome × List (String × InternalRequest)
  run =
      run_http_fetch to_lower_case is_safe resolve_url decode_utf8 encode_base64 parse_json
        stringify encode_form decode_base64 sort fetch args

  abbrev initial : InternalRequest
  initial =
      build_internal_request to_lower_case stringify encode_form decode_base64 args
        (sanitize_request_headers to_lower_case sort args.headers).0

  abbrev dropped : List String
  dropped = (sanitize_request_headers to_lower_case sort args.headers).1

  -- Every request goes to the URL of the caller or to one that the check of URLs accepts, and there
  -- are at most `maxRedirects` and one requests.
  pub run_http_fetch-urls :
      All (λ sent. (sent.0 ≡ args.url) ⊎ (is_safe sent.0 ≡ true)) run.1
      × (length run.1 ≤ args.max_redirects + 1)
  unfolding run_http_fetch
  run_http_fetch-urls = (
    perform-All to_lower_case is_safe resolve_url decode_utf8 encode_base64 parse_json fetch args
        dropped (λ url request. (url ≡ args.url) ⊎ (is_safe url ≡ true))
        (λ response url target request request' resolved p.
          inr
            (resolve_redirect-next to_lower_case is_safe resolve_url response url target request
              request' resolved).0)
        (args.max_redirects + 1) 0 args.url initial (inl refl),
    length-perform-le to_lower_case is_safe resolve_url decode_utf8 encode_base64 parse_json fetch
        args dropped (args.max_redirects + 1) 0 args.url initial,
  )

  -- The loop over the redirects always answers before its condition ends it.
  pub run_http_fetch-answers : run.0 ≢ failed redirect_loop
  unfolding run_http_fetch
  run_http_fetch-answers =
      let whole : suc args.max_redirects ≡ args.max_redirects + 1 = omega arith in
      subst
        (λ n.
          (perform_with_redirects to_lower_case is_safe resolve_url decode_utf8 encode_base64
            parse_json fetch args dropped n 0 args.url initial).0
          ≢ failed redirect_loop)
        whole
        (perform-no_loop to_lower_case is_safe resolve_url decode_utf8 encode_base64 parse_json
          fetch args dropped args.max_redirects 0 args.url initial (omega arith))

  -- Every request is the first one, which has the method of the caller, or a GET without a body that
  -- has the headers of the first one but the content type.
  pub run_http_fetch-requests :
      (initial.method ≡ args.method) × All (λ sent. Follows to_lower_case initial sent.1) run.1
  unfolding run_http_fetch build_internal_request
  run_http_fetch-requests = (
    build-method to_lower_case stringify encode_form decode_base64 args
        (sanitize_request_headers to_lower_case sort args.headers).0,
    perform-All to_lower_case is_safe resolve_url decode_utf8 encode_base64 parse_json fetch args
        dropped (λ url request. Follows to_lower_case initial request)
        (Follows-step to_lower_case is_safe resolve_url initial
          (run_headers-IsUnique to_lower_case stringify encode_form decode_base64 sort args))
        (args.max_redirects + 1) 0 args.url initial (inl refl),
  )

  -- No request carries a blocked header or one of a proxy, where "content-type" is in lower case.
  pub run_http_fetch-allowed :
      to_lower_case "content-type" ≡ "content-type"
      → All (λ sent. AllNames (λ k. is_blocked to_lower_case k ≡ false) sent.1.headers) run.1
  unfolding run_http_fetch
  run_http_fetch-allowed lower =
      perform-All to_lower_case is_safe resolve_url decode_utf8 encode_base64 parse_json fetch args
        dropped (λ url request. AllNames (λ k. is_blocked to_lower_case k ≡ false) request.headers)
        (allowed-step to_lower_case is_safe resolve_url) (args.max_redirects + 1) 0 args.url initial
        (run_headers-allowed to_lower_case stringify encode_form decode_base64 sort args
          (content_type-allowed to_lower_case lower))

  -- A result is built from the answer to the last request that was sent, which went to its URL: it has
  -- the status and the status text of that response and the decoding of the bytes that the capped
  -- read took from its body in the format that the caller asks for; its headers are those of the
  -- response that the filter lets through, and each of them is an allowed one.
  pub run_http_fetch-result :
      (r : HttpFetchResult)
      → run.0 ≡ fetched r
      → AllNames (λ k. has k allowed_response_headers ≡ true) r.headers
        × ((before : List (String × InternalRequest)) × (last : InternalRequest)
            × (response : Response) × (bytes : List ℕ) × (truncated : Bool) × (run.1
                ≡ before ++ ((r.url, last) ∷ []))
            × (fetch (length before) r.url last ≡ some response)
            × (r.status ≡ response.status)
            × (r.status_text ≡ response.status_text)
            × (r.headers ≡ filter_response_headers to_lower_case response.headers)
            × (read_body_with_cap response.body ≡ outcome bytes truncated)
            × (r.decoded
                ≡ decode_response_body to_lower_case decode_utf8 encode_base64 parse_json (record {
                  bytes = bytes;
                  truncated = truncated;
                  requested = args.response_format;
                  content_type = get "content-type" r.headers;
                })))
  unfolding run_http_fetch
  run_http_fetch-result r h =
      let (before, last, response, sent, answered, answer) =
        perform-fetched to_lower_case is_safe resolve_url decode_utf8 encode_base64 parse_json fetch
          args dropped (args.max_redirects + 1) 0 args.url initial r h in
      let (bytes, truncated, read, status, text, headers, body, _) = answer in
      let first : 0 + length before ≡ length before = omega arith in
      (
        subst (AllNames (λ k. has k allowed_response_headers ≡ true)) (sym headers)
            (filter_response_headers-allowed to_lower_case response.headers),
        (
          before,
          last,
          response,
          bytes,
          truncated,
          sent,
          subst (λ n. fetch n r.url last ≡ some response) first answered,
          status,
          text,
          headers,
          read,
          body
              ∙ ap
                  (λ hs.
                    decode_response_body to_lower_case decode_utf8 encode_base64 parse_json
                      (record {
                        bytes = bytes;
                        truncated = truncated;
                        requested = args.response_format;
                        content_type = get "content-type" hs;
                      }))
                  (sym headers),
        ),
      )
