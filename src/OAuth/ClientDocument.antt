-- ===== src/OAuth/ClientDocument.antt =====
-- src/oauth/client-metadata-document.ts: the retrieval of a client metadata document and its checks.
-- An error is its message. The transport is a function of the number of the redirect and the URL. The
-- parsers of URLs, JSON and dates, UTF-8 and `toLowerCase` are parameters.
pub mod Fetch
pub mod Validated
use Prim.Native.Char.{code}
use Prim.Native.String
use text.Mathlib.Text.{◌==◌, starts_with}
use stellara.Prelude.{
  ℕ, suc, zero, ◌+◌, ◌-◌, ◌*◌, ◌^◌, min, Bool, true, false, ◌&&◌, ◌||◌, not, Option, none, some,
  List, [], ◌∷◌, String, if◌then◌else◌, ◌==ℕ◌, ltb, leb, any, length, ◌⊎◌, inl, inr, ◌>>=◌,
}
use stellara.Web.{Url, Json, str, arr, obj, Items, nil, cons, Members, end, member}
use stellara.Dict.{get}
use stellara.Texts.Split.{split_on, strip_prefix}
use stellara.Auth.{trim, is_empty}
use stellara.Schemas.UrlGuard.{is_digit, parse_int_from, drop_last}
use stellara.Services.FetchBody.{before_semicolon, ends_with}
use stellara.Services.HttpFetch.{is_redirect}
use stellara.OAuth.Codes.{utf16_length}
use stellara.OAuth.Clients.{UriValidation, invalid, valid, validate_redirect_uris}

abbrev pub max_response_bytes : ℕ
max_response_bytes = 65536

abbrev pub max_redirects : ℕ
max_redirects = 3

abbrev pub max_positive_ttl_ms : ℕ
max_positive_ttl_ms = 3600000

-- What the checks read of a `URL`.
pub record DocumentUrl : Type 0 where
  pub protocol : String
  pub username : String
  pub password : String
  pub hash : String
  pub pathname : String
  pub origin : String

-- `string | string[]`
pub data HeaderValue : Type 0 where
  single : String → HeaderValue
  several : List String → HeaderValue

pub record CimdTransportResponse : Type 0 where
  pub status_code : ℕ
  pub headers : List (String × HeaderValue)
  pub body : List ℕ

pub record ValidatedClientDocument : Type 0 where
  pub client_id : String
  pub client_name : String
  pub redirect_uris : List String
  pub ttl_ms : ℕ

unfoldable pub first_header : Option HeaderValue → Option String
first_header none = none
first_header (some (single value)) = some value
first_header (some (several [])) = none
first_header (some (several (value ∷ _))) = some value

-- `none` where the URL is fine, and else the message.
unfoldable pub validate_document_url : DocumentUrl → Option String
validate_document_url url =
    if not (url.protocol == "https:")
    then some "CIMD client_id must use HTTPS"
    else if not (url.username == "") || not (url.password == "")
    then some "CIMD client_id must not contain credentials"
    else if not (url.hash == "")
    then some "CIMD client_id must not contain a fragment"
    else if url.pathname == "" || url.pathname == "/"
    then some "CIMD client_id must contain a document path"
    else none

-- The directives of `cache-control`, trimmed, in lower case and not empty.
unfoldable pub join_values : List String → String
join_values [] = ""
join_values (v ∷ []) = v
join_values (v ∷ w ∷ vs) = String.◌++◌ v (String.◌++◌ "," (join_values (w ∷ vs)))

abbrev pub before_equals : String → String
before_equals directive = elim (split_on 0x3d directive) [ [] ↦ "" | name ∷ _ ↦ name ]

abbrev pub is_forbidden : String → Bool
is_forbidden directive =
    before_equals directive == "no-store" || before_equals directive == "no-cache"

unfoldable pub all_digits : String → Bool
all_digits String.[] = true
all_digits (String.◌∷◌ c s) = is_digit c && all_digits s

abbrev pub digits : String → Option ℕ
digits s = if is_empty s || not (all_digits s) then none else some (parse_int_from 0 s)

-- The digits of `/^max-age=(?:"(\d+)"|(\d+))$/u`.
unfoldable pub max_age : String → Option ℕ
max_age directive = elim (strip_prefix "max-age=" directive) [
  | none ↦ none
  | some value ↦ elim (strip_prefix "\"" value) [
    | none ↦ digits value
    | some quoted ↦ if ends_with quoted "\"" then digits (drop_last quoted) else none
  ]
]

-- `Number.isFinite` of a whole number that is read as a double.
unfoldable pub is_finite : ℕ → Bool
is_finite n = ltb n (2 ^ 1024 - 2 ^ 970)

unfoldable pub find_max_age : List String → Option String
find_max_age [] = none
find_max_age (d ∷ ds) =
    let rest = find_max_age ds in if starts_with d "max-age" then some d else rest

-- The lifetime by `max-age`, `none` without that directive.
unfoldable pub read_max_age_ttl : List String → String ⊎ Option ℕ
read_max_age_ttl directives = elim (find_max_age directives) [
  | none ↦ inr none
  | some directive ↦ elim (max_age directive) [
    | none ↦ inl "CIMD response has no positive cache freshness"
    | some seconds ↦
        if not (is_finite seconds) || seconds ==ℕ 0
        then inl "CIMD response has no positive cache freshness"
        else inr (some (min (seconds * 1000) max_positive_ttl_ms))
  ]
]

module _ (to_lower_case : String → String) where
  unfoldable pub clean_directives : List String → List String
  clean_directives [] = []
  clean_directives (d ∷ ds) =
      let rest = clean_directives ds in
      let directive = to_lower_case (trim d) in
      if is_empty directive then rest else directive ∷ rest

  unfoldable pub cache_control_directives : Option HeaderValue → List String
  cache_control_directives none = []
  cache_control_directives (some (single value)) = clean_directives (split_on 0x2c value)
  cache_control_directives (some (several values)) =
      clean_directives (split_on 0x2c (join_values values))

  -- A date before 1970 is 0 here, which is above no time.
  unfoldable pub compute_positive_ttl :
      (String → Option ℕ) → List (String × HeaderValue) → ℕ → String ⊎ ℕ
  compute_positive_ttl parse_date headers now =
      let directives = cache_control_directives (get "cache-control" headers) in
      if any is_forbidden directives
      then inl "CIMD response forbids positive caching"
      else elim (read_max_age_ttl directives) [
        | inl message ↦ inl message
        | inr (some ttl) ↦ inr ttl
        | inr none ↦ elim (first_header (get "expires" headers) >>= parse_date) [
          | none ↦ inl "CIMD response has no positive cache freshness"
          | some expiry ↦
              if ltb now expiry
              then inr (min (expiry - now) max_positive_ttl_ms)
              else inl "CIMD response has no positive cache freshness"
        ]
      ]

  unfoldable pub is_json_media : String → Bool
  is_json_media content_type =
      let media_type = to_lower_case (trim (before_semicolon content_type)) in
      media_type == "application/json" || ends_with media_type "+json"

  -- `none` where the media are fine.
  unfoldable pub validate_response_media : CimdTransportResponse → Option String
  validate_response_media response = elim (first_header (get "content-type" response.headers)) [
    | none ↦ some "CIMD endpoint returned a non-JSON content type"
    | some content_type ↦
        if not (is_json_media content_type)
        then some "CIMD endpoint returned a non-JSON content type"
        else if ltb max_response_bytes (length response.body)
        then some "CIMD document is too large"
        else none
  ]

-- The field of an object.
unfoldable pub field : String → Members → Option Json
field name end = none
field name (member key value rest) = if key == name then some value else field name rest

-- `z.array(z.url())`
unfoldable pub url_items : (String → Bool) → Items → Option (List String)
url_items is_url nil = some []
url_items is_url (cons (str value) items) = elim (url_items is_url items) [
  | none ↦ none
  | some rest ↦ if is_url value then some (value ∷ rest) else none
]
url_items is_url (cons _ items) = none

-- `z.string().min(1).max(most)`
unfoldable pub text_field : String → Option ℕ → Members → Option String
text_field name most members = elim (field name members) [
  | some (str value) ↦ if is_empty value then none else elim most [
    | none ↦ some value
    | some limit ↦ if ltb limit (utf16_length value) then none else some value
  ]
  | _ ↦ none
]

unfoldable pub uris_field : (String → Bool) → Members → Option (List String)
uris_field is_url members = elim (field "redirect_uris" members) [
  | some (arr items) ↦ elim (url_items is_url items) [
    | none ↦ none
    | some uris ↦ if leb 1 (length uris) && leb (length uris) 10 then some uris else none
  ]
  | _ ↦ none
]

-- `documentSchema`: the client id, the name and the redirect URIs.
unfoldable pub document_schema : (String → Bool) → Json → Option (String × String × List String)
document_schema is_url (obj members) = elim (text_field "client_id" none members) [
  | none ↦ none
  | some client_id ↦ elim (text_field "client_name" (some 200) members) [
    | none ↦ none
    | some client_name ↦ elim (uris_field is_url members) [
      | none ↦ none
      | some redirect_uris ↦ some (client_id, client_name, redirect_uris)
    ]
  ]
]
document_schema is_url _ = none
