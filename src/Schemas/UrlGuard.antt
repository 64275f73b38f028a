-- ===== src/Schemas/UrlGuard.antt =====
-- src/schemas/common.ts: `safeExternalUrl` and the checks of addresses and names below it. The shape
-- check `z.url()`, the `URL` parser, `isIP` of node:net and `toLowerCase` are parameters.
pub mod Accepted
pub mod Dotted
pub mod Ipv4
use Prim.Native.Char.{Char, code}
use Prim.Native.String
use text.Mathlib.Text.{◌==◌, starts_with}
use stellara.Prelude.{
  ℕ, ◌+◌, ◌-◌, ◌*◌, ◌/◌, ◌%◌, ◌^◌, ◌<◌, Bool, true, false, ◌&&◌, ◌||◌, not, Option, none, some,
  List, [], ◌∷◌, String, if◌then◌else◌, ◌==ℕ◌, ltb, leb, any, length, ◌>>=◌,
}
use stellara.Web.{Url}
use stellara.Texts.{has}
use stellara.Texts.Split.{split_on, strip_prefix}
use stellara.Auth.{is_char, is_empty}
use stellara.Services.FetchBody.{ends_with}

abbrev pub blocked_hostnames : List String
blocked_hostnames = "localhost" ∷ "qdrant" ∷ "firecrawl" ∷ "stellara" ∷ "embeddings" ∷ []

abbrev pub blocked_host_suffixes : List String
blocked_host_suffixes = ".internal" ∷ ".local" ∷ []

abbrev pub allowed_protocols : List String
allowed_protocols = "http:" ∷ "https:" ∷ []

-- `((a << 24) | (b << 16) | (c << 8) | d) >>> 0`, for octets.
abbrev pub octets_to_int : ℕ → ℕ → ℕ → ℕ → ℕ
octets_to_int a b c d = a * 16777216 + b * 65536 + c * 256 + d

abbrev pub private_ipv4_blocks : List (ℕ × ℕ)
private_ipv4_blocks =
    (octets_to_int 0 0 0 0, 8)
    ∷ (octets_to_int 10 0 0 0, 8)
    ∷ (octets_to_int 100 64 0 0, 10)
    ∷ (octets_to_int 127 0 0 0, 8)
    ∷ (octets_to_int 169 254 0 0, 16)
    ∷ (octets_to_int 172 16 0 0, 12)
    ∷ (octets_to_int 192 0 0 0, 24)
    ∷ (octets_to_int 192 0 2 0, 24)
    ∷ (octets_to_int 192 168 0 0, 16)
    ∷ (octets_to_int 198 18 0 0, 15)
    ∷ (octets_to_int 198 51 100 0, 24)
    ∷ (octets_to_int 203 0 113 0, 24)
    ∷ (octets_to_int 224 0 0 0, 4)
    ∷ (octets_to_int 240 0 0 0, 4)
    ∷ []

abbrev pub is_digit : Char → Bool
is_digit c = leb 48 (code c) && leb (code c) 57

-- `Number.parseInt(part, 10)`: the number of the digits at the start, `none` where there are none. A
-- blank or a sign at the start is skipped by `parseInt`, and is `none` here: the comparison of
-- `parseOctet` refuses such a text in both cases.
unfoldable pub parse_int_from : ℕ → String → ℕ
parse_int_from n String.[] = n
parse_int_from n (String.◌∷◌ c s) =
    let rest = parse_int_from (n * 10 + (code c - 48)) s in if is_digit c then rest else n

unfoldable pub parse_int : String → Option ℕ
parse_int String.[] = none
parse_int (String.◌∷◌ c s) = if is_digit c then some (parse_int_from 0 (String.◌∷◌ c s)) else none

unfoldable pub digit : ℕ → String
digit n =
    if n ==ℕ 0
    then "0"
    else if n ==ℕ 1
    then "1"
    else if n ==ℕ 2
    then "2"
    else if n ==ℕ 3
    then "3"
    else if n ==ℕ 4
    then "4"
    else if n ==ℕ 5
    then "5"
    else if n ==ℕ 6
    then "6"
    else if n ==ℕ 7
    then "7"
    else if n ==ℕ 8
    then "8"
    else "9"

-- `String(value)`, for a value below 1000.
unfoldable pub to_text : ℕ → String
to_text value =
    if ltb value 10
    then digit value
    else if ltb value 100
    then String.◌++◌ (digit (value / 10)) (digit (value % 10))
    else String.◌++◌ (digit (value / 100))
        (String.◌++◌ (digit (value / 10 % 10)) (digit (value % 10)))

unfoldable pub parse_octet : String → Option ℕ
parse_octet part = do
  value ← parse_int part
  if ltb 255 value then none else if not (to_text value == part) then none else some value

unfoldable pub parse_octets : List String → Option (List ℕ)
parse_octets [] = some []
parse_octets (part ∷ parts) = do
  value ← parse_octet part
  octets ← parse_octets parts
  some (value ∷ octets)

unfoldable pub pack : List ℕ → Option ℕ
pack (a ∷ b ∷ c ∷ d ∷ _) = some (octets_to_int a b c d)
pack _ = none

unfoldable pub parse_ipv4 : String → Option ℕ
parse_ipv4 host =
    let parts = split_on 0x2e host in
    if not (length parts ==ℕ 4) then none else parse_octets parts >>= pack

-- `value & mask` with the mask of a prefix length, for 32-bit values.
abbrev pub masked : ℕ → ℕ → ℕ
masked prefix value = if prefix ==ℕ 0 then 0 else value / 2 ^ (32 - prefix) * 2 ^ (32 - prefix)

abbrev pub in_block : ℕ → ℕ × ℕ → Bool
in_block value (network, prefix) = masked prefix value ==ℕ masked prefix network

unfoldable pub is_private_ipv4 : String → Bool
is_private_ipv4 host = elim (parse_ipv4 host) [
  | none ↦ false
  | some value ↦ any (in_block value) private_ipv4_blocks
]

abbrev pub blocked_ipv6_first_hextet_prefixes : List String
blocked_ipv6_first_hextet_prefixes = "fe8" ∷ "fe9" ∷ "fea" ∷ "feb" ∷ "fc" ∷ "fd" ∷ "ff" ∷ []

abbrev pub ipv4_mapped_textual_prefix : String
ipv4_mapped_textual_prefix = "::ffff:"

-- The value of a character of `[\da-f]`.
unfoldable pub hex_digit : Char → Option ℕ
hex_digit c =
    if is_digit c
    then some (code c - 48)
    else if leb 97 (code c) && leb (code c) 102
    then some (code c - 87)
    else none

unfoldable pub parse_hex_from : ℕ → String → Option ℕ
parse_hex_from n String.[] = some n
parse_hex_from n (String.◌∷◌ c s) = do d ← hex_digit c; parse_hex_from (n * 16 + d) s

-- A group `([\da-f]{1,4})` with the number that `parseInt(…, 16)` reads of it.
unfoldable pub hex_group : String → Option ℕ
hex_group s = if is_empty s || ltb 4 (String.count s) then none else parse_hex_from 0 s

-- The two groups of `/^::ffff:([\da-f]{1,4}):([\da-f]{1,4})$/`.
unfoldable pub hex_match : String → Option (ℕ × ℕ)
hex_match lower = do
  tail ← strip_prefix ipv4_mapped_textual_prefix lower
  elim (split_on 0x3a tail) [
    | high ∷ low ∷ [] ↦ do h ← hex_group high; l ← hex_group low; some (h, l)
    | _ ↦ none
  ]

abbrev pub dotted : ℕ → ℕ → ℕ → ℕ → String
dotted a b c d = String.◌++◌ (to_text a) (
    String.◌++◌ "." (
      String.◌++◌ (to_text b)
        (String.◌++◌ "." (String.◌++◌ (to_text c) (String.◌++◌ "." (to_text d))))))

unfoldable pub hex_tail_to_dotted : ℕ → ℕ → Option String
hex_tail_to_dotted high low =
    if ltb 65535 high || ltb 65535 low
    then none
    else some (dotted (high / 256 % 256) (high % 256) (low / 256 % 256) (low % 256))

unfoldable pub is_hex_mapped_private : String → Bool
is_hex_mapped_private lower = elim (hex_match lower) [
  | none ↦ false
  | some (high, low) ↦ elim (hex_tail_to_dotted high low) [
    | none ↦ false
    | some text ↦ is_private_ipv4 text
  ]
]

-- `head.replace(/^0+/, "")`
unfoldable pub strip_zeros : String → String
strip_zeros String.[] = String.[]
strip_zeros (String.◌∷◌ c s) =
    let rest = strip_zeros s in if is_char 0x30 c then rest else String.◌∷◌ c s

unfoldable pub first_hextet : String → String
first_hextet lower =
    let head : String = elim (split_on 0x3a lower) [ [] ↦ "" | w ∷ _ ↦ w ] in
    if is_empty (strip_zeros head) then head else strip_zeros head

unfoldable pub is_blocked_hostname : String → Bool
is_blocked_hostname host =
    host == "" || has host blocked_hostnames || any (ends_with host) blocked_host_suffixes

-- `slice(0, -1)`
unfoldable pub drop_last : String → String
drop_last String.[] = String.[]
drop_last (String.◌∷◌ c s) = let rest = drop_last s in if is_empty s then s else String.◌∷◌ c rest

-- The host without the brackets of an IPv6 literal.
unfoldable pub unbracketed : String → String
unbracketed String.[] = String.[]
unbracketed (String.◌∷◌ c s) =
    if is_char 0x5b c && ends_with s "]" then drop_last s else String.◌∷◌ c s

module _ (is_ip : String → ℕ) where
  unfoldable pub is_mapped_private_ipv4 : String → Bool
  is_mapped_private_ipv4 lower =
      elim (strip_prefix ipv4_mapped_textual_prefix lower) [
        | none ↦ false
        | some embedded ↦ is_ip embedded ==ℕ 4 && is_private_ipv4 embedded
      ]
      || is_hex_mapped_private lower

  module _ (to_lower_case : String → String) where
    unfoldable pub is_private_ipv6 : String → Bool
    is_private_ipv6 host =
        let lower = to_lower_case host in
        lower == "::1"
        || lower == "::"
        || is_mapped_private_ipv4 lower
        || any (starts_with (first_hextet lower)) blocked_ipv6_first_hextet_prefixes

    unfoldable pub is_private_ip : String → Bool
    is_private_ip host =
        if is_ip host ==ℕ 4
        then is_private_ipv4 host
        else if is_ip host ==ℕ 6
        then is_private_ipv6 host
        else false

    -- The refinement of `safeExternalUrl` on a parsed URL.
    unfoldable pub is_safe_url : Url → Bool
    is_safe_url url =
        let host = unbracketed (to_lower_case url.hostname) in
        if not (has url.protocol allowed_protocols)
        then false
        else if not (url.username == "") || not (url.password == "")
        then false
        else if is_blocked_hostname host
        then false
        else if not (is_ip host ==ℕ 0) && is_private_ip host
        then false
        else true

    module _ (is_url_text : String → Bool) (parse_url : String → Option Url) where
      -- `safeExternalUrl.safeParse(value).success`
      unfoldable pub safe_external_url : String → Bool
      safe_external_url value =
          is_url_text value && elim (parse_url value) [ none ↦ false | some url ↦ is_safe_url url ]
