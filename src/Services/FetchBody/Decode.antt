-- ===== src/Services/FetchBody/Decode.antt =====
-- The decoding of http-fetch-body.ts.
use stellara.Prelude.{ℕ, true, false, Option, some, List, String, ◌≡◌, ◌⊎◌, refl, arith}
use stellara.Web.{Json}
use stellara.Services.FetchBody.{
  Format, DecodeInput, DecodeOutput, binary_body, json_body, text_body, response_truncated_json,
  response_not_json, decode_json_response, decode_auto, decode_response_body,
}

-- An output that tells of the truncation.
abbrev pub IsMarked : DecodeOutput → Type 0
IsMarked (binary_body value truncated) = truncated ≡ true
IsMarked (text_body value truncated) = truncated ≡ true
IsMarked (json_body value) = ⊥
IsMarked response_truncated_json = Unit
IsMarked response_not_json = ⊥

module _ (to_lower_case : String → String) (decode_utf8 : List ℕ → String)
    (encode_base64 : List ℕ → String) (parse_json : String → Option Json) where
  -- A truncated body is never answered as JSON and never passed off as complete: the output is
  -- marked as truncated or is the error for truncated JSON.
  pub decode-truncated :
      (input : DecodeInput)
      → input.truncated ≡ true
      → IsMarked (decode_response_body to_lower_case decode_utf8 encode_base64 parse_json input)
  unfolding decode_response_body decode_json_response decode_auto
  decode-truncated input cut =
      elim input.requested
        as (λ f. IsMarked (
          decode_response_body to_lower_case decode_utf8 encode_base64 parse_json
            (record input { requested = f }))) [
              | Format.binary ↦ cut
              | Format.json ↦ rw cut tt
              | Format.text ↦ cut
              | Format.auto ↦ rw cut refl
            ]

  -- A JSON value in the answer is the parse of the whole body, and JSON or no format was asked for.
  pub decode-json_only :
      (input : DecodeInput) (value : Json)
      → decode_response_body to_lower_case decode_utf8 encode_base64 parse_json input
        ≡ json_body value
      → (input.truncated ≡ false)
        × (parse_json (decode_utf8 input.bytes) ≡ some value)
        × ((input.requested ≡ Format.json) ⊎ (input.requested ≡ Format.auto))
  unfolding decode_response_body decode_json_response decode_auto
  decode-json_only input value h = ground arith
