-- ===== src/Examples/FetchBody.antt =====
-- Bodies of a response.
use stellara.Prelude.{
  ℕ, true, false, List, [], ◌∷◌, Option, none, some, String, ◌≡◌, length, take, ltb,
}
use stellara.Web.{Json, null}
use stellara.Services.FetchBody.Cap.{reads_of}
use stellara.Services.FetchBody.{
  max_body_bytes, outcome, concat_chunks, read_body_with_cap, Format, DecodeInput,
}
use stellara.Services.FetchBody.Cap.{read_body-take}

abbrev chunks : List (List ℕ)
chunks = (1 ∷ 2 ∷ []) ∷ [] ∷ (3 ∷ []) ∷ []

abbrev to_lower_case : String → String
to_lower_case s = s

abbrev decode_utf8 : List ℕ → String
decode_utf8 bytes = "null"

abbrev encode_base64 : List ℕ → String
encode_base64 bytes = "AQ=="

abbrev parse_json : String → Option Json
parse_json s = some null

abbrev input : DecodeInput
input = record { bytes = 1 ∷ []; truncated = false; requested = Format.json; content_type = none }

abbrev cut : DecodeInput
cut = record input { truncated = true; requested = Format.auto }

abbrev value : Json
value = null

read_body-take_example :
    read_body_with_cap (some (reads_of chunks))
    ≡ outcome
        (take max_body_bytes (concat_chunks chunks))
        (ltb max_body_bytes (length (concat_chunks chunks)))
read_body-take_example = read_body-take chunks
