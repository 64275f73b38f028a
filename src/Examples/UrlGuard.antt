-- ===== src/Examples/UrlGuard.antt =====
-- Accepted and refused URLs.
use stellara.Prelude.{
  ℕ, ◌<◌, Bool, true, false, ◌∷◌, Option, some, String, if◌then◌else◌, ◌≡◌, ◌⊎◌, ◌↔◌, refl, arith,
}
use text.Mathlib.Text.{◌==◌}
use stellara.Web.{Url}
use stellara.Texts.{has}
use stellara.Services.FetchBody.{ends_with}
use stellara.Schemas.UrlGuard.Ipv4.{is_reserved}
use stellara.Schemas.UrlGuard.Accepted.{Spells, mapped_hex}
use stellara.Schemas.UrlGuard.{
  blocked_hostnames, dotted, is_private_ipv4, hex_group, parse_hex_from, hex_digit, unbracketed,
  drop_last, safe_external_url, is_safe_url, is_blocked_hostname,
}
use stellara.Schemas.UrlGuard.Ipv4.{is_private_ipv4_iff}
use stellara.Schemas.UrlGuard.Accepted.{reserved_refused, safe_external_url-only}

abbrev is_ip : String → ℕ
is_ip s = if s == "8.8.8.8" then 4 else if s == "example.org" then 0 else 6

abbrev to_lower_case : String → String
to_lower_case s = s

abbrev is_url_text : String → Bool
is_url_text s = true

abbrev named : Url
named = record { protocol = "https:"; username = ""; password = ""; hostname = "example.org" }

abbrev url : Url
url = record named { hostname = "[::ffff:a01:203]" }

abbrev parse_url : String → Option Url
parse_url s = some (if s == "https://example.org/" then named else url)

abbrev value : String
value = "https://[::ffff:10.1.2.3]/"

abbrev host : String
host = "::ffff:a01:203"

abbrev a : ℕ
a = 10

abbrev b : ℕ
b = 1

abbrev c : ℕ
c = 2

abbrev d : ℕ
d = 3

spelled : Spells is_ip to_lower_case host a b c d
unfolding hex_group parse_hex_from hex_digit
spelled = mapped_hex "a01" "203" refl refl refl refl

is_private_ipv4_iff_example : (is_private_ipv4 "192.168.0.1" ≡ true) ↔ (
    (a b c d : ℕ) × (a < 256)
    × (b < 256)
    × (c < 256)
    × (d < 256)
    × ("192.168.0.1" ≡ dotted a b c d)
    × (is_reserved a b c d ≡ true))
is_private_ipv4_iff_example = is_private_ipv4_iff "192.168.0.1"

reserved_refused_example : safe_external_url is_ip to_lower_case is_url_text parse_url value ≡ false
unfolding unbracketed drop_last ends_with
reserved_refused_example =
    reserved_refused a b c d ((omega arith)) ((omega arith)) ((omega arith)) ((omega arith)) is_ip
      to_lower_case host refl is_url_text parse_url value url refl refl spelled

safe_external_url-only_example :
    (url : Url) × (parse_url "https://example.org/" ≡ some url)
    × ((url.protocol ≡ "http:") ⊎ (url.protocol ≡ "https:"))
    × (url.username ≡ "")
    × (url.password ≡ "")
    × (has (unbracketed (to_lower_case url.hostname)) ("" ∷ blocked_hostnames) ≡ false)
    × (ends_with (unbracketed (to_lower_case url.hostname)) ".internal" ≡ false)
    × (ends_with (unbracketed (to_lower_case url.hostname)) ".local" ≡ false)
unfolding safe_external_url is_safe_url is_blocked_hostname unbracketed has ends_with
safe_external_url-only_example =
    safe_external_url-only is_ip to_lower_case is_url_text parse_url ("https://example.org/") refl
