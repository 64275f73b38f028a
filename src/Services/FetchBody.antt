-- ===== src/Services/FetchBody.antt =====
-- src/services/http-fetch-body.ts: the response body up to its cap, and its decoding. The reads of
-- the stream are a list; UTF-8, base64, JSON, `URLSearchParams` and `toLowerCase` are parameters. A
-- byte is a number. The request bodies are at the end.
pub mod Cap
pub mod Decode
use Prim.Native.String
use package.text.Mathlib.Text.{◌==◌, starts_with}
use stellara.Prelude.{
  ℕ, ◌+◌, ◌-◌, Bool, true, false, ◌&&◌, ◌||◌, not, Option, none, some, List, [], ◌∷◌, ◌++◌, String,
  if◌then◌else◌, leb, length, take,
}
use stellara.Web.{Json}
use stellara.Auth.{is_char, trim}

abbrev pub max_body_bytes : ℕ
max_body_bytes = 10485760

-- What a read of the body gives: a chunk, the abort signal, or an error. The body is done where the
-- list ends.
pub data Read : Type 0 where
  chunk : List ℕ → Read
  aborted : Read
  error : Read

pub record DrainState : Type 0 where
  pub chunks : List (List ℕ)
  pub total : ℕ

pub data BodyRead : Type 0 where
  outcome : List ℕ → Bool → BodyRead
  timeout : BodyRead
  read_error : BodyRead

-- The chunks stand in the order in which they came.
unfoldable pub append_chunk_or_truncate : ℕ → DrainState → List ℕ → Bool × DrainState
append_chunk_or_truncate cap state bytes =
    let remaining = cap - state.total in
    if leb (length bytes) remaining
    then (
      false,
      record { chunks = state.chunks ++ (bytes ∷ []); total = state.total + length bytes },
    )
    else (
      true,
      record {
        chunks = state.chunks ++ (take remaining bytes ∷ []);
        total = state.total + remaining;
      },
    )

unfoldable pub concat_chunks : List (List ℕ) → List ℕ
concat_chunks [] = []
concat_chunks (bytes ∷ chunks) = bytes ++ concat_chunks chunks

unfoldable pub drain_reader : ℕ → DrainState → List Read → BodyRead
drain_reader cap state [] = outcome (concat_chunks state.chunks) false
drain_reader cap state (aborted ∷ reads) = timeout
drain_reader cap state (error ∷ reads) = read_error
drain_reader cap state (chunk bytes ∷ reads) =
    let (truncated, state') = append_chunk_or_truncate cap state bytes in
    let rest = drain_reader cap state' reads in
    if truncated then outcome (concat_chunks state'.chunks) true else rest

-- `none` is a response without a body.
unfoldable pub read_body_with_cap : Option (List Read) → BodyRead
read_body_with_cap none = outcome [] false
read_body_with_cap (some reads) =
    drain_reader max_body_bytes (record { chunks = []; total = 0 }) reads

pub data Format : Type 0 where
  auto binary json text : Format

pub record DecodeInput : Type 0 where
  pub bytes : List ℕ
  pub truncated : Bool
  pub requested : Format
  pub content_type : Option String

-- The formats of the output with their bodies; only a JSON body is never truncated. The last two
-- are the errors, without the status and the snippet in their details.
pub data DecodeOutput : Type 0 where
  binary_body : String → Bool → DecodeOutput
  json_body : Json → DecodeOutput
  text_body : String → Bool → DecodeOutput
  response_truncated_json : DecodeOutput
  response_not_json : DecodeOutput

-- The text up to the first `;`, or all of it.
unfoldable pub before_semicolon : String → String
before_semicolon String.[] = String.[]
before_semicolon (String.◌∷◌ c s) =
    let rest = before_semicolon s in if is_char 0x3b c then String.[] else String.◌∷◌ c rest

unfoldable pub ends_with : String → String → Bool
ends_with String.[] suffix = String.[] == suffix
ends_with (String.◌∷◌ c s) suffix = String.◌∷◌ c s == suffix || ends_with s suffix

module _ (to_lower_case : String → String) (decode_utf8 : List ℕ → String)
    (encode_base64 : List ℕ → String) (parse_json : String → Option Json) where
  unfoldable pub is_json_content_type : Option String → Bool
  is_json_content_type none = false
  is_json_content_type (some value) =
      let main = to_lower_case (trim (before_semicolon value)) in
      main == "application/json" || (starts_with main "application/" && ends_with main "+json")

  unfoldable pub decode_json_response : DecodeInput → DecodeOutput
  decode_json_response input =
      if input.truncated
      then response_truncated_json
      else elim (parse_json (decode_utf8 input.bytes)) [
        | none ↦ response_not_json
        | some value ↦ json_body value
      ]

  unfoldable pub decode_auto : DecodeInput → DecodeOutput
  decode_auto input =
      let plain = text_body (decode_utf8 input.bytes) input.truncated in
      if not input.truncated && is_json_content_type input.content_type
      then elim (parse_json (decode_utf8 input.bytes)) [
        | none ↦ plain
        | some value ↦ json_body value
      ]
      else plain

  unfoldable pub decode_response_body : DecodeInput → DecodeOutput
  decode_response_body input = elim input.requested [
    | binary ↦ binary_body (encode_base64 input.bytes) input.truncated
    | json ↦ decode_json_response input
    | text ↦ text_body (decode_utf8 input.bytes) input.truncated
    | auto ↦ decode_auto input
  ]

pub data HttpFetchBody : Type 0 where
  base64 : String → HttpFetchBody
  form : List (String × String) → HttpFetchBody
  json_value : Json → HttpFetchBody
  plain_text : String → HttpFetchBody

-- What `fetch` takes as a body.
pub data InternalBody : Type 0 where
  no_body : InternalBody
  text_value : String → InternalBody
  byte_array : List ℕ → InternalBody

module _ (stringify : Json → String) (encode_form : List (String × String) → String)
    (decode_base64 : String → List ℕ) where
  -- The body with its default content type.
  unfoldable pub encode_request_body : HttpFetchBody → InternalBody × Option String
  encode_request_body (json_value value) = (text_value (stringify value), some "application/json")
  encode_request_body (plain_text value) = (text_value value, some "text/plain; charset=utf-8")
  encode_request_body (form value) =
      (text_value (encode_form value), some "application/x-www-form-urlencoded")
  encode_request_body (base64 value) = (byte_array (decode_base64 value), none)
