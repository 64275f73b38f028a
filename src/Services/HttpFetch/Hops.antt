-- ===== src/Services/HttpFetch/Hops.antt =====
-- The redirect loop of services/http-fetch.ts: where it goes, how often, and that it ends.
use stellara.Prelude.{
  ℕ, suc, zero, ◌+◌, ◌≤◌, Bool, true, ◌||◌, not, Option, some, List, [], ◌∷◌, String, ◌==ℕ◌, ◌≡◌,
  ◌≢◌, refl, sym, ap, ◌∙◌, arith, Bool-cases, Option-cases, ◌⊎◌, inl, inr, All, length, ◌++◌, subst,
}
use stellara.Web.{Json}
use stellara.Dict.{get}
use stellara.Services.FetchBody.{
  Format, BodyRead, outcome, timeout, read_error, DecodeOutput, binary_body, json_body, text_body,
  response_truncated_json, response_not_json, read_body_with_cap, decode_response_body,
}
use stellara.Services.HttpFetch.{
  is_redirect, rewrites_method, RunHttpFetchArgs, InternalRequest, Response, FetchError,
  redirect_loop, truncated_json, not_json, FetchOutcome, failed, fetched, HttpFetchResult, Redirect,
  refused, next, resolve_redirect_url, resolve_redirect, as_get, assemble_result,
  perform_with_redirects, filter_response_headers,
}

Redirect-cases :
    (r : Redirect)
    → ((error : FetchError) × (r ≡ refused error))
      ⊎ ((url : String) × (request : InternalRequest) × (r ≡ next url request))
Redirect-cases (refused error) = inl (error, refl)
Redirect-cases (next url request) = inr (url, request, refl)

Resolved-cases :
    (r : FetchError ⊎ String)
    → ((error : FetchError) × (r ≡ inl error)) ⊎ ((url : String) × (r ≡ inr url))
Resolved-cases (inl error) = inl (error, refl)
Resolved-cases (inr url) = inr (url, refl)

Body-cases :
    (b : BodyRead)
    → (b ≡ timeout)
      ⊎ ((b ≡ read_error) ⊎ ((bytes : List ℕ) × (truncated : Bool) × (b ≡ outcome bytes truncated)))
Body-cases timeout = inl refl
Body-cases read_error = inr (inl refl)
Body-cases (outcome bytes truncated) = inr (inr (bytes, truncated, refl))

-- A result that is given for a decoded body, not for an error, is the one that was built.
kept :
    (d : DecodeOutput) (built r : HttpFetchResult)
    → elim d as (λ _. FetchOutcome) [
      | response_truncated_json ↦ failed truncated_json
      | response_not_json ↦ failed not_json
      | _ ↦ fetched built
    ]
      ≡ fetched r
    → built ≡ r
kept (binary_body s t) built r h = ground arith
kept (json_body j) built r h = ground arith
kept (text_body s t) built r h = ground arith
kept response_truncated_json built r h = ground arith
kept response_not_json built r h = ground arith

module _ (to_lower_case : String → String) (is_safe : String → Bool)
    (resolve_url : String → String → Option String) where
  resolved_safe :
      (response : Response) (url target : String)
      → resolve_redirect_url is_safe resolve_url response url ≡ inr target
      → is_safe target ≡ true
  unfolding resolve_redirect_url
  resolved_safe response url target h = elim (Option-cases (get "location" response.headers)) [
    | inl e ↦ ground arith
    | inr (location, e) ↦ elim (Option-cases (resolve_url location url)) [
      | inl e' ↦ ground arith
      | inr (u, e') ↦ ground arith
    ]
  ]

  -- Where a redirect goes is safe, and the request is the same or has become a GET.
  pub resolve_redirect-next :
      (response : Response) (url target : String) (request request' : InternalRequest)
      → resolve_redirect to_lower_case is_safe resolve_url response url request
        ≡ next target request'
      → (is_safe target ≡ true) × ((request' ≡ request) ⊎ (request' ≡ as_get to_lower_case request))
  unfolding resolve_redirect
  resolve_redirect-next response url target request request' h =
      elim (Resolved-cases (resolve_redirect_url is_safe resolve_url response url)) [
        | inl (error, e) ↦ ground arith
        | inr (u, e) ↦ elim (Bool-cases (rewrites_method response.status)) [
          | inl get_e ↦ (resolved_safe response url target (ground arith), inr (ground arith))
          | inr kept ↦ (resolved_safe response url target (ground arith), inl (ground arith))
        ]
      ]

  refused_loop :
      (response : Response) (url : String) (request : InternalRequest)
      → resolve_redirect to_lower_case is_safe resolve_url response url request
        ≢ refused redirect_loop
  unfolding resolve_redirect resolve_redirect_url
  refused_loop response url request h = elim (Option-cases (get "location" response.headers)) [
    | inl e ↦ ground arith
    | inr (location, e) ↦ elim (Option-cases (resolve_url location url)) [
      | inl e' ↦ ground arith
      | inr (u, e') ↦ ground arith
    ]
  ]

module _ (to_lower_case : String → String) (is_safe : String → Bool)
    (resolve_url : String → String → Option String) (decode_utf8 : List ℕ → String)
    (encode_base64 : List ℕ → String) (parse_json : String → Option Json) where
  assembled :
      (response : Response) (url : String) (dropped : List String) (format : Format)
      → assemble_result to_lower_case decode_utf8 encode_base64 parse_json response url dropped
          format
        ≢ failed redirect_loop
  unfolding assemble_result
  assembled response url dropped format h = ground arith

  -- What `assembleResult` decodes from the bytes that were read.
  abbrev decoded : Response → Format → List ℕ → Bool → DecodeOutput
  decoded response format bytes truncated =
      decode_response_body to_lower_case decode_utf8 encode_base64 parse_json (record {
        bytes = bytes;
        truncated = truncated;
        requested = format;
        content_type = get "content-type" (filter_response_headers to_lower_case response.headers);
      })

  -- The result is built from the response: its status and status text, the headers that are let
  -- through, and the decoding of the bytes that the capped read took.
  abbrev pub IsAnswer : Response → List String → Format → HttpFetchResult → Type 0
  IsAnswer response dropped format r =
      (bytes : List ℕ) × (truncated : Bool) × (read_body_with_cap response.body
        ≡ outcome bytes truncated)
      × (r.status ≡ response.status)
      × (r.status_text ≡ response.status_text)
      × (r.headers ≡ filter_response_headers to_lower_case response.headers)
      × (r.decoded ≡ decoded response format bytes truncated)
      × (r.dropped_request_headers ≡ dropped)

  assembled-fetched :
      (response : Response) (url : String) (dropped : List String) (format : Format)
      (r : HttpFetchResult)
      → assemble_result to_lower_case decode_utf8 encode_base64 parse_json response url dropped
          format
        ≡ fetched r
      → (r.url ≡ url) × IsAnswer response dropped format r
  unfolding assemble_result
  assembled-fetched response url dropped format r h =
      elim (Body-cases (read_body_with_cap response.body)) [
        | inl e ↦ ground arith
        | inr (inl e) ↦ ground arith
        | inr (inr (bytes, truncated, e)) ↦
            let same =
              kept (decoded response format bytes truncated)
                (record {
                  status = response.status;
                  status_text = response.status_text;
                  headers = filter_response_headers to_lower_case response.headers;
                  decoded = decoded response format bytes truncated;
                  url = url;
                  dropped_request_headers = dropped;
                })
                r (ground arith) in
            (
              ap (λ x. x.url) (sym same),
              (
                bytes,
                truncated,
                e,
                ap (λ x. x.status) (sym same),
                ap (λ x. x.status_text) (sym same),
                ap (λ x. x.headers) (sym same),
                ap (λ x. x.decoded) (sym same),
                ap (λ x. x.dropped_request_headers) (sym same),
              ),
            )
      ]

  module _ (fetch : ℕ → String → InternalRequest → Option Response) (args : RunHttpFetchArgs)
      (dropped : List String) where
    abbrev perform :
        ℕ → ℕ → String → InternalRequest → FetchOutcome × List (String × InternalRequest)
    perform =
        perform_with_redirects to_lower_case is_safe resolve_url decode_utf8 encode_base64
          parse_json fetch args dropped

    -- What the last iteration answers: an error other than that of a loop, or the response.
    abbrev Last : ℕ → String → InternalRequest → FetchOutcome → Type 0
    Last hop url request result =
        ((error : FetchError) × (error ≢ redirect_loop) × (result ≡ failed error))
        ⊎ ((response : Response) × (fetch hop url request ≡ some response)
            × (result
                ≡ assemble_result to_lower_case decode_utf8 encode_base64 parse_json response url
                    dropped args.response_format))

    -- An iteration is the last one, or it follows a redirect and is not at the cap.
    perform-cases :
        (left hop : ℕ) (url : String) (request : InternalRequest)
        → ((result : FetchOutcome) × Last hop url request result
            × (perform (suc left) hop url request ≡ (result, (url, request) ∷ [])))
          ⊎ ((response : Response) × (target : String) × (request' : InternalRequest)
              × (resolve_redirect to_lower_case is_safe resolve_url response url request
                  ≡ next target request')
              × (hop ≢ args.max_redirects)
              × (perform (suc left) hop url request ≡ (
                (perform left (hop + 1) target request').0,
                (url, request) ∷ (perform left (hop + 1) target request').1,
              )))
    unfolding perform_with_redirects
    perform-cases left hop url request = elim (Option-cases (fetch hop url request)) [
      | inl e ↦ inl (
        failed FetchError.upstream,
        inl (FetchError.upstream, (λ h. ground arith), refl),
        ground arith,
      )
      | inr (response, e) ↦
          elim (Bool-cases (
            not args.follow_redirects
            || not (is_redirect response.status)
            || hop ==ℕ args.max_redirects)) [
              | inl stop ↦ inl (
                assemble_result to_lower_case decode_utf8 encode_base64 parse_json response url
                    dropped args.response_format,
                inr (response, e, refl),
                ground arith,
              )
              | inr go ↦
                  elim (Redirect-cases
                    (resolve_redirect to_lower_case is_safe resolve_url response url request)) [
                      | inl (error, e') ↦ inl (
                        failed error,
                        inl (
                          error,
                          (λ h.
                              refused_loop to_lower_case is_safe resolve_url response url request
                                (e' ∙ ap refused h)),
                          refl,
                        ),
                        ground arith,
                      )
                      | inr (target, request', e') ↦
                          inr (response, target, request', e', ground arith, ground arith)
                    ]
            ]
    ]

    -- What holds of a hop and of every hop that a redirect makes of one holds of all that are sent.
    module _ (P : String → InternalRequest → Type 0)
        (step : (response : Response) (url target : String) (request request' : InternalRequest)
          → resolve_redirect to_lower_case is_safe resolve_url response url request
            ≡ next target request'
          → P url request
          → P target request') where
      pub perform-All :
          (left hop : ℕ) (url : String) (request : InternalRequest)
          → P url request
          → All (λ sent. P sent.0 sent.1) (perform left hop url request).1
      unfolding perform_with_redirects
      perform-All zero hop url request p = tt
      perform-All (suc left) hop url request p = elim (perform-cases left hop url request) [
        | inl (result, _, e) ↦ rw e (p, tt)
        | inr (response, target, request', resolved, _, e) ↦ rw e (
          p,
          perform-All left (hop + 1) target request'
              (step response url target request request' resolved p),
        )
      ]

    pub length-perform-le :
        (left hop : ℕ) (url : String) (request : InternalRequest)
        → length (perform left hop url request).1 ≤ left
    unfolding perform_with_redirects
    length-perform-le zero hop url request = omega arith
    length-perform-le (suc left) hop url request = elim (perform-cases left hop url request) [
      | inl (result, _, e) ↦ rw e (omega arith)
      | inr (response, target, request', _, _, e) ↦
          rw e (omega (arith, length-perform-le left (hop + 1) target request'))
    ]

    Last-no_loop :
        (hop : ℕ) (url : String) (request : InternalRequest) (result : FetchOutcome)
        → Last hop url request result
        → result ≢ failed redirect_loop
    Last-no_loop hop url request result (inl (error, other, e)) h = other (ground arith)
    Last-no_loop hop url request result (inr (response, answered, e)) h =
        assembled response url dropped args.response_format (sym e ∙ h)

    pub perform-no_loop :
        (left hop : ℕ) (url : String) (request : InternalRequest)
        → hop + left ≡ args.max_redirects
        → (perform (suc left) hop url request).0 ≢ failed redirect_loop
    unfolding perform_with_redirects
    perform-no_loop zero hop url request end h = elim (perform-cases 0 hop url request) [
      | inl (result, last, e) ↦ Last-no_loop hop url request result last (ground arith)
      | inr (response, target, request', _, inside, e) ↦ inside (omega arith)
    ]
    perform-no_loop (suc left) hop url request end h =
        elim (perform-cases (suc left) hop url request) [
          | inl (result, last, e) ↦ Last-no_loop hop url request result last (ground arith)
          | inr (response, target, request', _, inside, e) ↦
              perform-no_loop left (hop + 1) target request' (omega arith)
                (ap (λ x. x.0) (sym e) ∙ h)
        ]

    -- An answer is built from the response to the last request that was sent, which went to its URL.
    pub perform-fetched :
        (left hop : ℕ) (url : String) (request : InternalRequest) (r : HttpFetchResult)
        → (perform left hop url request).0 ≡ fetched r
        → (before : List (String × InternalRequest)) × (last : InternalRequest)
          × (response : Response) × ((perform left hop url request).1
              ≡ before ++ ((r.url, last) ∷ []))
          × (fetch (hop + length before) r.url last ≡ some response)
          × IsAnswer response dropped args.response_format r
    unfolding perform_with_redirects
    perform-fetched zero hop url request r h = ground arith
    perform-fetched (suc left) hop url request r h = elim (perform-cases left hop url request) [
      | inl (result, inl (error, _, failed_e), e) ↦ ground arith
      | inl (result, inr (response, answered, built), e) ↦
          let (same, answer) =
            assembled-fetched response url dropped args.response_format r (ground arith) in
          let here : hop ≡ hop + 0 = omega arith in
          (
            [],
            request,
            response,
            ap (λ x. x.1) e ∙ ap (λ u. (u, request) ∷ []) (sym same),
            subst (λ n. fetch n r.url request ≡ some response) here (rw same answered),
            answer,
          )
      | inr (response, target, request', _, inside, e) ↦
          let (before, last, final, sent, answered, answer) =
            perform-fetched left (hop + 1) target request' r (ap (λ x. x.0) (sym e) ∙ h) in
          let there : (hop + 1) + length before ≡ hop + suc (length before) = omega arith in
          (
            (url, request) ∷ before,
            last,
            final,
            ap (λ x. x.1) e ∙ ap (λ more. (url, request) ∷ more) sent,
            subst (λ n. fetch n r.url last ≡ some final) there answered,
            answer,
          )
    ]
