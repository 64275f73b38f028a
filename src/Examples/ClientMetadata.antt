-- ===== src/Examples/ClientMetadata.antt =====
-- The resolver of clients and the retrieval of a document.
use stellara.Prelude.{
  ℕ, zero, suc, ◌≤◌, ◌<◌, Bool, true, false, List, [], ◌∷◌, Option, none, some, String, ◌≡◌, ◌⊎◌,
  inr, refl, arith, All, length,
}
use stellara.Web.{Url, Json, obj, member, end, str, arr, cons, nil}
use stellara.Dict.{get, set, delete}
use stellara.Auth.{trim, trim_start, trim_end, is_white}
use stellara.Texts.Split.{split_on, strip_prefix}
use stellara.Schemas.UrlGuard.{parse_int_from}
use stellara.Services.FetchBody.{before_semicolon}
use stellara.OAuth.Storage.{empty}
use stellara.OAuth.Clients.{valid, validate_redirect_uris, validate_single_redirect_uri}
use stellara.OAuth.ClientDocument.{
  DocumentUrl, CimdTransportResponse, single, ValidatedClientDocument, max_positive_ttl_ms,
  max_response_bytes, validate_document_url, validate_response_media, first_header, is_json_media,
  document_schema, text_field, uris_field, field, url_items, compute_positive_ttl,
  cache_control_directives, clean_directives, read_max_age_ttl, find_max_age, max_age, all_digits,
  is_finite,
}
use stellara.OAuth.ClientDocument.Fetch.{
  resolve_redirect, parse_client_document_url, fetch_from, fetch_final_response,
  fetch_client_document, validate_document_response, validate_document,
}
use stellara.OAuth.ClientDocument.Validated.{IsDocumentUrl}
use stellara.OAuth.ClientMetadata.{
  ResolverOptions, ResolverState, FlightResult, other_error, initial, lookup, end_flight, settle,
  cache_failure, cache_success, normalize_cimd_error, write_cache, evict,
  is_oauth_client_id_within_limit,
}
use stellara.OAuth.ClientMetadata.Bounds.{IsSound}
use stellara.OAuth.ClientMetadata.History.{Event, asked, ended, timed_out, closing, run}
use stellara.OAuth.ClientDocument.Validated.{
  fetch_client_document-urls, fetch_client_document-accepts,
}
use stellara.OAuth.ClientMetadata.History.{run-IsSound}
use stellara.OAuth.ClientMetadata.Caching.{end_flight-cached}

abbrev to_lower_case : String → String
to_lower_case s = s

abbrev parse_date : String → Option ℕ
parse_date s = none

abbrev decode_utf8 : List ℕ → String
decode_utf8 bytes = "{}"

abbrev id : String
id = "https://c/doc"

abbrev client_id : String
client_id = "https://c/doc"

abbrev parsed : Json
parsed = obj (
    member "client_id" (str "https://c/doc") (
      member "client_name" (str "C")
        (member "redirect_uris" (arr (cons (str "https://c/cb") nil)) end)))

abbrev parse_json : String → String ⊎ Json
parse_json s = inr parsed

abbrev parse_row : String → Option Json
parse_row s = none

abbrev is_url : String → Bool
is_url s = true

abbrev parse_url : String → Option Url
parse_url s = some (record { protocol = "https:"; username = ""; password = ""; hostname = "c" })

abbrev original : DocumentUrl
original = record {
  protocol = "https:";
  username = "";
  password = "";
  hash = "";
  pathname = "/doc";
  origin = "https://c";
}

abbrev parse_document : String → Option DocumentUrl
parse_document s = some original

abbrev resolve : String → DocumentUrl → Option DocumentUrl
resolve raw base = some original

abbrev moved : CimdTransportResponse
moved = record { status_code = 302; headers = ("location", single "/doc") ∷ []; body = [] }

abbrev final : CimdTransportResponse
final = record {
  status_code = 200;
  headers =
      ("content-type", single "application/json") ∷ ("cache-control", single "max-age=60") ∷ [];
  body = [];
}

abbrev transport : ℕ → DocumentUrl → String ⊎ CimdTransportResponse
transport zero url = inr moved
transport (suc k) url = inr final

abbrev d : ValidatedClientDocument
d = record {
  client_id = client_id;
  client_name = "C";
  redirect_uris = "https://c/cb" ∷ [];
  ttl_ms = 60000;
}

abbrev now : ℕ
now = 10

abbrev later : ℕ
later = 20

abbrev o : ResolverOptions
o = record {
  max_in_flight = 4;
  cache_max_entries = 2;
  rate = record { max_per_minute = 5; max_entries = 8 };
}

abbrev ip : String
ip = "192.0.2.1"

abbrev ip' : String
ip' = "192.0.2.2"

abbrev st : ResolverState
st = initial

abbrev flying : ResolverState
flying = record initial { flights = (id, false) ∷ []; in_flight = 1 }

abbrev result : FlightResult
result = other_error "CIMD document is invalid"

abbrev others : List Event
others =
    asked 12 ip "https://d/doc" empty
    ∷ timed_out "https://d/doc"
    ∷ ended 15 "https://d/doc" result
    ∷ asked 16 ip id empty
    ∷ []

abbrev history : ResolverState → ResolverState
history = run parse_url to_lower_case parse_document parse_row o others

flying-IsSound : IsSound o flying
unfolding get
flying-IsSound = record {
  counted = refl;
  single = (refl, tt);
  few = omega arith;
  cached = tt;
  small = omega arith;
  shut = λ h. refl;
}

abbrev es : List Event
es = asked now ip id empty ∷ ended later id result ∷ closing ∷ []

fetch_client_document-urls_example :
    All
      (IsDocumentUrl original.origin)
      (fetch_client_document to_lower_case parse_date decode_utf8 parse_json is_url parse_url
        resolve parse_document transport client_id now).1
    × (length
          (fetch_client_document to_lower_case parse_date decode_utf8 parse_json is_url parse_url
            resolve parse_document transport client_id now).1
        ≤ 4)
fetch_client_document-urls_example =
    fetch_client_document-urls to_lower_case parse_date decode_utf8 parse_json is_url parse_url
      resolve parse_document transport client_id now original refl

fetch_client_document-accepts_example :
    (d.client_id ≡ client_id)
    × (0 < d.ttl_ms)
    × (d.ttl_ms ≤ max_positive_ttl_ms)
    × (validate_redirect_uris parse_url d.redirect_uris ≡ valid)
    × ((response : CimdTransportResponse) × (parsed : Json) × ((fetch_final_response resolve
            parse_document transport client_id).0
          ≡ inr response)
        × (response.status_code ≡ 200)
        × (length response.body ≤ max_response_bytes)
        × (parse_json (decode_utf8 response.body) ≡ inr parsed)
        × (document_schema is_url parsed ≡ some (client_id, d.client_name, d.redirect_uris)))
unfolding fetch_client_document fetch_final_response parse_client_document_url fetch_from
    resolve_redirect first_header validate_document_url validate_document_response
    validate_response_media is_json_media before_semicolon trim trim_start trim_end is_white
    validate_document document_schema text_field uris_field field url_items validate_redirect_uris
    validate_single_redirect_uri compute_positive_ttl cache_control_directives clean_directives
    split_on read_max_age_ttl find_max_age max_age strip_prefix all_digits parse_int_from is_finite
    get
fetch_client_document-accepts_example =
    fetch_client_document-accepts to_lower_case parse_date decode_utf8 parse_json is_url parse_url
      resolve parse_document transport client_id now d refl

run-IsSound_example : IsSound o (run parse_url to_lower_case parse_document parse_row o es initial)
run-IsSound_example = run-IsSound parse_url to_lower_case parse_document parse_row o es

end_flight-cached_example :
    ((lookup o later ip id (history (end_flight o now id result flying).1)).0
      ≡ (end_flight o now id result flying).0)
    × ((lookup o later ip id (history (end_flight o now id result flying).1)).1.flights
        ≡ (history (end_flight o now id result flying).1).flights)
    × ((lookup o later ip id (history (end_flight o now id result flying).1)).1.in_flight
        ≡ (history (end_flight o now id result flying).1).in_flight)
unfolding end_flight settle cache_failure cache_success normalize_cimd_error write_cache evict get
    set delete is_oauth_client_id_within_limit
end_flight-cached_example =
    end_flight-cached parse_url to_lower_case parse_document parse_row o others now later ip id
      result flying flying-IsSound refl refl ((omega arith)) refl tt
      (((omega arith), (tt, (tt, ((omega arith), tt))))) ((omega arith)) ((omega arith))
