-- ===== src/OAuth/Clients.antt =====
-- src/oauth/clients.ts: dynamic client registration with its limit per address and hour. The random
-- client id, the times, the `URL` parser and the JSON functions are arguments.
pub mod Quota
pub mod Redirects
pub mod Registering
use Prim.Native.String
use text.Mathlib.Text.{◌==◌}
use stellara.Prelude.{
  ℕ, ◌+◌, ◌-◌, ◌*◌, ◌/◌, ◌||◌, Bool, true, false, List, [], ◌∷◌, Option, none, some, String,
  if◌then◌else◌, leb, max,
}
use stellara.Web.{Url, Json, arr, only_texts}
use stellara.Dict.{get, set}
use stellara.OAuth.Storage.{OAuthStorage, insert_client, get_client, touch_client}

abbrev pub default_dcr_max_per_hour : ℕ
default_dcr_max_per_hour = 5

abbrev pub one_hour_ms : ℕ
one_hour_ms = 3600000

pub record RateBucketEntry : Type 0 where
  pub count : ℕ
  pub reset_at : ℕ

abbrev pub Buckets : Type 0
Buckets = List (String × RateBucketEntry)

-- `none` is "allow", and a number the seconds to wait.
unfoldable pub consume_bucket : ℕ → String → ℕ → Buckets → Option ℕ × Buckets
consume_bucket max_per_hour ip now buckets =
    let fresh = set ip (record { count = 1; reset_at = now + one_hour_ms }) buckets in
    elim (get ip buckets) [
      | none ↦ (none, fresh)
      | some existing ↦
          if leb existing.reset_at now
          then (none, fresh)
          else if leb max_per_hour existing.count
          then (some ((existing.reset_at - now + 999) / 1000), buckets)
          else (
            none,
            set ip (record { count = existing.count + 1; reset_at = existing.reset_at }) buckets,
          )
    ]

pub data UriValidation : Type 0 where
  invalid : String → UriValidation
  valid : UriValidation

abbrev pub quoted : String → String
quoted uri = String.◌++◌ "Redirect URI \"" (String.◌++◌ uri "\"")

module _ (parse_url : String → Option Url) where
  unfoldable pub validate_single_redirect_uri : String → UriValidation
  validate_single_redirect_uri uri = elim (parse_url uri) [
    | none ↦ invalid (String.◌++◌ (quoted uri) " is not a valid URL")
    | some parsed ↦
        if parsed.protocol == "https:"
        then valid
        else if parsed.protocol == "http:"
        then (if parsed.hostname == "localhost"
              || parsed.hostname == "127.0.0.1"
              || parsed.hostname == "[::1]"
            then valid
            else invalid
                (String.◌++◌ (quoted uri) " uses HTTP outside the localhost loopback allowlist"))
        else invalid (
            String.◌++◌ (quoted uri)
              (String.◌++◌ " uses unsupported scheme \"" (String.◌++◌ parsed.protocol "\"")))
  ]

  unfoldable pub validate_redirect_uris : List String → UriValidation
  validate_redirect_uris [] = valid
  validate_redirect_uris (uri ∷ uris) =
      let rest = validate_redirect_uris uris in
      elim (validate_single_redirect_uri uri) [ invalid reason ↦ invalid reason | valid ↦ rest ]

pub record ClientRegistrationRequest : Type 0 where
  pub client_name : Option String
  pub redirect_uris : List String

pub record ClientRegistrationResponse : Type 0 where
  pub client_id : String
  pub client_id_issued_at : ℕ
  pub client_name : Option String
  pub redirect_uris : List String

pub data RegisterClientResult : Type 0 where
  invalid_redirect_uri : String → RegisterClientResult
  ok : ClientRegistrationResponse → RegisterClientResult
  rate_limited : ℕ → RegisterClientResult

pub record ClientRegistrar : Type 0 where
  pub buckets : Buckets
  pub max_per_hour : ℕ
  pub resource_required_since : ℕ

-- `none` is the exception of a client id that is taken.
unfoldable pub persist_and_shape :
    (List String → String)
    → String
    → ClientRegistrationRequest
    → ℕ
    → ℕ
    → OAuthStorage
    → Option (ClientRegistrationResponse × OAuthStorage)
persist_and_shape stringify client_id request now since st =
    elim (insert_client
      (record {
        client_id = client_id;
        client_name = request.client_name;
        redirect_uris = stringify request.redirect_uris;
        created_at = max now since;
        last_used_at = max now since;
      })
      st) [
        | none ↦ none
        | some st' ↦ some (
          record {
            client_id = client_id;
            client_id_issued_at = now / 1000;
            client_name = request.client_name;
            redirect_uris = request.redirect_uris;
          },
          st',
        )
      ]

-- The clock is read twice. The result is `none` if the insertion throws; the bucket is spent then.
unfoldable pub register_client :
    (String → Option Url)
    → (List String → String)
    → String
    → ℕ
    → ℕ
    → ClientRegistrationRequest
    → String
    → ClientRegistrar × OAuthStorage
    → Option RegisterClientResult × (ClientRegistrar × OAuthStorage)
register_client parse_url stringify client_id now now' request ip (reg, st) =
    elim (validate_redirect_uris parse_url request.redirect_uris) [
      | invalid reason ↦ (some (invalid_redirect_uri reason), (reg, st))
      | valid ↦
          let (decision, left) = consume_bucket reg.max_per_hour ip now reg.buckets in
          elim decision [
            | some seconds ↦ (some (rate_limited seconds), (record reg { buckets = left }, st))
            | none ↦
                elim (persist_and_shape stringify client_id request now' reg.resource_required_since
                  st) [
                    | none ↦ (none, (record reg { buckets = left }, st))
                    | some (response, st') ↦
                        (some (ok response), (record reg { buckets = left }, st'))
                  ]
          ]
    ]

pub data ClientLookupResult : Type 0 where
  found : String → Option String → ℕ → List String → ClientLookupResult
  unknown : ClientLookupResult

abbrev pub redirect_uris_of : Json → List String
redirect_uris_of (arr items) = only_texts items
redirect_uris_of _ = []

-- The row is touched before its JSON is parsed; `none` is the exception of the parser.
unfoldable pub resolve_client :
    (String → Option Json) → String → ℕ → OAuthStorage → Option ClientLookupResult × OAuthStorage
resolve_client parse_json client_id now st = elim (get_client client_id st) [
  | none ↦ (some unknown, st)
  | some row ↦ elim (parse_json row.redirect_uris) [
    | none ↦ (none, touch_client client_id now st)
    | some parsed ↦ (
      some (found row.client_id row.client_name row.created_at (redirect_uris_of parsed)),
      touch_client client_id now st,
    )
  ]
]

unfoldable pub inspect_bucket : String → ClientRegistrar → Option RateBucketEntry
inspect_bucket ip reg = get ip reg.buckets
