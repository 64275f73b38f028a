-- ===== src/Schemas/UrlGuard/Accepted.antt =====
-- `safeExternalUrl` of src/schemas/common.ts: what an accepted URL satisfies, and the spellings of an
-- address that are refused.
use Prim.Native.Char.{Char}
use Prim.Native.String
use text.Mathlib.Text.{◌==◌}
use stellara.Prelude.{
  ℕ, ◌+◌, ◌*◌, ◌/◌, ◌%◌, ◌<◌, Bool, true, false, Option, some, ◌∷◌, String, ◌≡◌, refl, arith,
  eq_iff, Bool-cases, Option-cases, ◌⊎◌, inl, inr,
}
use stellara.Web.{Url}
use stellara.Texts.{has}
use stellara.Texts.Split.{lacks, split_on-append, split_on-lacks, strip_prefix-append}
use stellara.Services.FetchBody.{ends_with}
use stellara.Schemas.UrlGuard.{
  dotted, blocked_hostnames, hex_digit, parse_hex_from, hex_group, hex_match, hex_tail_to_dotted,
  is_hex_mapped_private, is_mapped_private_ipv4, is_private_ipv6, is_private_ip,
  is_blocked_hostname, unbracketed, is_safe_url, safe_external_url, ipv4_mapped_textual_prefix,
}
use stellara.Schemas.UrlGuard.Ipv4.{is_reserved, is_private_ipv4-dotted}

hex_digit-colon :
    (c : Char) (n : ℕ) → hex_digit c ≡ some n → lacks 0x3a (String.◌∷◌ c String.[]) ≡ true
unfolding hex_digit lacks
hex_digit-colon c n h = ground arith

parse_hex_from-lacks :
    (n : ℕ) (s : String) (m : ℕ) → parse_hex_from n s ≡ some m → lacks 0x3a s ≡ true
unfolding parse_hex_from lacks
parse_hex_from-lacks n String.[] m h = refl
parse_hex_from-lacks n (String.◌∷◌ c s) m h = elim (Option-cases (hex_digit c)) [
  | inl e ↦ ground arith
  | inr (d, e) ↦
      ground (arith, hex_digit-colon c d e, parse_hex_from-lacks (n * 16 + d) s m (ground arith))
]

hex_group-lacks : (s : String) (m : ℕ) → hex_group s ≡ some m → lacks 0x3a s ≡ true
unfolding hex_group
hex_group-lacks s m h = parse_hex_from-lacks 0 s m (ground arith)

-- The three spellings of an IPv4 address: dotted decimal, and the two of an IPv4-mapped IPv6 address,
-- with the dotted decimal or two groups of hexadecimal digits at the end.
pub data Spells (is_ip : String → ℕ) (to_lower_case : String → String) (host : String) (a b c d : ℕ)
    : Type 0 where
  ipv4 : host ≡ dotted a b c d → is_ip host ≡ 4 → Spells is_ip to_lower_case host a b c d
  mapped_dotted :
      to_lower_case host ≡ String.◌++◌ ipv4_mapped_textual_prefix (dotted a b c d)
      → is_ip host ≡ 6
      → is_ip (dotted a b c d) ≡ 4
      → Spells is_ip to_lower_case host a b c d
  mapped_hex :
      (high low : String)
      → to_lower_case host
        ≡ String.◌++◌ ipv4_mapped_textual_prefix (String.◌++◌ high (String.◌∷◌ ":" low))
      → hex_group high ≡ some (a * 256 + b)
      → hex_group low ≡ some (c * 256 + d)
      → is_ip host ≡ 6
      → Spells is_ip to_lower_case host a b c d

module _ (a b c d : ℕ) (ha : a < 256) (hb : b < 256) (hc : c < 256) (hd : d < 256) where
  hex_tail-dotted : hex_tail_to_dotted (a * 256 + b) (c * 256 + d) ≡ some (dotted a b c d)
  unfolding hex_tail_to_dotted
  hex_tail-dotted =
      let ea : (a * 256 + b) / 256 % 256 ≡ a = omega arith in
      let eb : (a * 256 + b) % 256 ≡ b = omega arith in
      let ec : (c * 256 + d) / 256 % 256 ≡ c = omega arith in
      let ed : (c * 256 + d) % 256 ≡ d = omega arith in rw (ea, eb, ec, ed) (ground arith)

  hex_match-groups :
      (high low : String) (x y : ℕ)
      → hex_group high ≡ some x
      → hex_group low ≡ some y
      → hex_match (String.◌++◌ ipv4_mapped_textual_prefix (String.◌++◌ high (String.◌∷◌ ":" low)))
        ≡ some (x, y)
  unfolding hex_match
  hex_match-groups high low x y hx hy =
      let tail =
        strip_prefix-append ipv4_mapped_textual_prefix (String.◌++◌ high (String.◌∷◌ ":" low)) in
      let first = split_on-append ":" high low (hex_group-lacks high x hx) in
      let second = split_on-lacks 0x3a low (hex_group-lacks low y hy) in
      ground (arith, tail, first, second, hx, hy)

  module _ (is_ip : String → ℕ) (to_lower_case : String → String) (host : String)
      (reserved : is_reserved a b c d ≡ true) where
    spelled_private :
        Spells is_ip to_lower_case host a b c d
        → (is_private_ip is_ip to_lower_case host ≡ true) × ((is_ip host ≡ 4) ⊎ (is_ip host ≡ 6))
    unfolding is_private_ip is_private_ipv6 is_mapped_private_ipv4 is_hex_mapped_private
    spelled_private (ipv4 text family) =
        (ground (arith, is_private_ipv4-dotted a b c d ha hb hc hd), inl family)
    spelled_private (mapped_dotted text family inner) = (
      ground (
        arith,
        text,
        family,
        inner,
        strip_prefix-append ipv4_mapped_textual_prefix (dotted a b c d),
        is_private_ipv4-dotted a b c d ha hb hc hd,
      ),
      inr family,
    )
    spelled_private (mapped_hex high low text first second family) = (
      ground (
        arith,
        text,
        family,
        hex_tail-dotted,
        hex_match-groups high low (a * 256 + b) (c * 256 + d) first second,
        is_private_ipv4-dotted a b c d ha hb hc hd,
      ),
      inr family,
    )

    -- A URL whose host is an IPv4 address of a reserved range is refused, whether the host spells it
    -- in dotted decimal or as an IPv4-mapped IPv6 address in either notation.
    pub reserved_refused :
        (is_url_text : String → Bool) (parse_url : String → Option Url) (value : String) (url : Url)
        → parse_url value ≡ some url
        → unbracketed (to_lower_case url.hostname) ≡ host
        → Spells is_ip to_lower_case host a b c d
        → safe_external_url is_ip to_lower_case is_url_text parse_url value ≡ false
    unfolding safe_external_url is_safe_url
    reserved_refused is_url_text parse_url value url parsed named spelled =
        let (private_e, family) = spelled_private spelled in
        elim family [ inl four ↦ ground arith | inr six ↦ ground arith ]

module _ (is_ip : String → ℕ) (to_lower_case : String → String) (is_url_text : String → Bool)
    (parse_url : String → Option Url) where
  -- An accepted URL parses, speaks http or https, has no user and no password, and its host is not
  -- empty, none of the internal names, and has none of the internal suffixes.
  pub safe_external_url-only :
      (value : String)
      → safe_external_url is_ip to_lower_case is_url_text parse_url value ≡ true
      → (url : Url) × (parse_url value ≡ some url)
        × ((url.protocol ≡ "http:") ⊎ (url.protocol ≡ "https:"))
        × (url.username ≡ "")
        × (url.password ≡ "")
        × (has (unbracketed (to_lower_case url.hostname)) ("" ∷ blocked_hostnames) ≡ false)
        × (ends_with (unbracketed (to_lower_case url.hostname)) ".internal" ≡ false)
        × (ends_with (unbracketed (to_lower_case url.hostname)) ".local" ≡ false)
  unfolding safe_external_url is_safe_url is_blocked_hostname has
  safe_external_url-only value h = elim (Option-cases (parse_url value)) [
    | inl e ↦ ground arith
    | inr (url, e) ↦ (
      url,
      e,
      elim (Bool-cases ("http:" == url.protocol)) [
        | inl plain ↦ inl (ground (arith, eq_iff "http:" url.protocol))
        | inr other ↦ inr (ground (arith, eq_iff "https:" url.protocol))
      ],
      ground (arith, eq_iff url.username ""),
      ground (arith, eq_iff url.password ""),
      ground (
        arith,
        eq_iff (unbracketed (to_lower_case url.hostname)) "",
        eq_iff "" (unbracketed (to_lower_case url.hostname)),
      ),
      ground arith,
      ground arith,
    )
  ]
