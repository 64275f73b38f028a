-- ===== src/Schemas/UrlGuard/Dotted.antt =====
-- `parseIpv4` of src/schemas/common.ts and the dotted decimal texts of addresses.
use Prim.Native.String
use text.Mathlib.TextLemmas.{nil-append, cons-append}
use stellara.Prelude.{
  ℕ, suc, zero, ◌<◌, Bool, true, false, ◌&&◌, none, some, List, [], ◌∷◌, String, ◌==ℕ◌, length, ◌≡◌,
  refl, sym, ap, ◌∙◌, arith, eq_iff, Bool-cases, Option-cases, inl, inr,
}
use stellara.Texts.Split.{
  split_on, split_on-append, split_on-lacks, join_with, join_with-split_on, lacks,
}
use stellara.Schemas.UrlGuard.{
  octets_to_int, parse_int_from, parse_int, digit, to_text, parse_octet, parse_octets, pack,
  parse_ipv4, dotted,
}

-- A test that holds of every number below a bound.
abbrev all_below : ℕ → (ℕ → Bool) → Bool
all_below zero p = true
all_below (suc n) p = p n && all_below n p

all_below-at : (n k : ℕ) (p : ℕ → Bool) → all_below n p ≡ true → k < n → p k ≡ true
all_below-at zero k p h lt = ground arith
all_below-at (suc n) k p h lt = elim (Bool-cases (k ==ℕ n)) [
  | inl last ↦ let same : k ≡ n = ground arith in rw same (ground arith)
  | inr other ↦ all_below-at n k p (ground arith) (ground arith)
]

-- An octet is read back from its text, which has no dot.
abbrev reads_back : ℕ → Bool
reads_back n =
    elim (parse_octet (to_text n)) [ none ↦ false | some m ↦ m ==ℕ n ] && lacks 0x2e (to_text n)

reads_all : all_below 256 reads_back ≡ true
unfolding parse_octet to_text digit parse_int parse_int_from lacks
reads_all = refl

octet-text : (n : ℕ) → n < 256 → parse_octet (to_text n) ≡ some n
octet-text n h =
    let t = all_below-at 256 n reads_back reads_all h in
    elim (Option-cases (parse_octet (to_text n))) [
      | inl e ↦ ground arith
      | inr (m, e) ↦ ground arith
    ]

octet-lacks : (n : ℕ) → n < 256 → lacks 0x2e (to_text n) ≡ true
octet-lacks n h = let t = all_below-at 256 n reads_back reads_all h in ground arith

dot-cons : (t : String) → String.◌++◌ "." t ≡ String.◌∷◌ "." t
dot-cons t = cons-append "." "" t ∙ ap (String.◌∷◌ ".") (nil-append t)

split_on-dot :
    (w t : String)
    → lacks 0x2e w ≡ true
    → split_on 0x2e (String.◌++◌ w (String.◌++◌ "." t)) ≡ w ∷ split_on 0x2e t
split_on-dot w t h = rw (dot-cons t) (split_on-append "." w t h)

module _ (a b c d : ℕ) (ha : a < 256) (hb : b < 256) (hc : c < 256) (hd : d < 256) where
  split_on-dotted :
      split_on 0x2e (dotted a b c d) ≡ to_text a ∷ to_text b ∷ to_text c ∷ to_text d ∷ []
  split_on-dotted =
      split_on-dot (to_text a) _ (octet-lacks a ha)
      ∙ ap (λ w. to_text a ∷ w)
          (split_on-dot (to_text b) _ (octet-lacks b hb)
            ∙ ap (λ w. to_text b ∷ w)
                (split_on-dot (to_text c) _ (octet-lacks c hc)
                  ∙ ap (λ w. to_text c ∷ w) (split_on-lacks 0x2e (to_text d) (octet-lacks d hd))))

  -- The text of four octets is read as their number.
  pub parse_ipv4-dotted : parse_ipv4 (dotted a b c d) ≡ some (octets_to_int a b c d)
  unfolding parse_ipv4 parse_octets pack
  parse_ipv4-dotted =
      ground
        (arith, split_on-dotted, octet-text a ha, octet-text b hb, octet-text c hc, octet-text d hd)

parse_octet-only :
    (part : String) (n : ℕ) → parse_octet part ≡ some n → (n < 256) × (part ≡ to_text n)
unfolding parse_octet
parse_octet-only part n h = elim (Option-cases (parse_int part)) [
  | inl e ↦ ground arith
  | inr (v, e) ↦ (ground arith, ground (arith, eq_iff (to_text v) part))
]

parse_octets-cons :
    (part : String) (parts : List String) (octets : List ℕ)
    → parse_octets (part ∷ parts) ≡ some octets
    → (n : ℕ) × (rest : List ℕ) × (n < 256)
      × (part ≡ to_text n)
      × (parse_octets parts ≡ some rest)
      × (octets ≡ n ∷ rest)
unfolding parse_octets
parse_octets-cons part parts octets h = elim (Option-cases (parse_octet part)) [
  | inl e ↦ ground arith
  | inr (n, e) ↦ elim (Option-cases (parse_octets parts)) [
    | inl e' ↦ ground arith
    | inr (rest, e') ↦
        let (small, text) = parse_octet-only part n e in (n, rest, small, text, e', ground arith)
  ]
]

-- The octets of a text that is read as an address.
abbrev pub IsDotted : String → ℕ → Type 0
IsDotted host value =
    (a b c d : ℕ) × (a < 256)
    × (b < 256)
    × (c < 256)
    × (d < 256)
    × (host ≡ dotted a b c d)
    × (value ≡ octets_to_int a b c d)

join-four :
    (p q r s : String)
    → join_with "." (p ∷ q ∷ r ∷ s ∷ [])
      ≡ String.◌++◌ p
          (String.◌++◌ "." (String.◌++◌ q (String.◌++◌ "." (String.◌++◌ r (String.◌++◌ "." s)))))
unfolding join_with
join-four p q r s =
    rw
      (
        dot-cons s,
        dot-cons (String.◌++◌ r (String.◌∷◌ "." s)),
        dot-cons (String.◌++◌ q (String.◌∷◌ "." (String.◌++◌ r (String.◌∷◌ "." s)))),
      )
      refl

parts-IsDotted :
    (host : String) (parts : List String) (octets : List ℕ) (value : ℕ)
    → split_on 0x2e host ≡ parts
    → length parts ≡ 4
    → parse_octets parts ≡ some octets
    → pack octets ≡ some value
    → IsDotted host value
unfolding pack join_with
parts-IsDotted host (p ∷ q ∷ r ∷ s ∷ []) octets value split four read packed =
    let (a, after_a, ha, ea, read', ea') = parse_octets-cons p _ octets read in
    let (b, after_b, hb, eb, read'', eb') = parse_octets-cons q _ after_a read' in
    let (c, after_c, hc, ec, read''', ec') = parse_octets-cons r _ after_b read'' in
    let (d, after_d, hd, ed, _, ed') = parse_octets-cons s _ after_c read''' in
    let whole : join_with "." (p ∷ q ∷ r ∷ s ∷ []) ≡ host =
      ap (join_with ".") (sym split) ∙ join_with-split_on "." host in
    (
      a,
      b,
      c,
      d,
      ha,
      hb,
      hc,
      hd,
      ground (arith, whole, ea, eb, ec, ed, join-four p q r s),
      ground (arith, ea', eb', ec', ed'),
    )
parts-IsDotted host [] octets value split four read packed = ground arith
parts-IsDotted host (p ∷ []) octets value split four read packed = ground arith
parts-IsDotted host (p ∷ q ∷ []) octets value split four read packed = ground arith
parts-IsDotted host (p ∷ q ∷ r ∷ []) octets value split four read packed = ground arith
parts-IsDotted host (p ∷ q ∷ r ∷ s ∷ t ∷ ts) octets value split four read packed = ground arith

pub parse_ipv4-only :
    (host : String) (value : ℕ) → parse_ipv4 host ≡ some value → IsDotted host value
unfolding parse_ipv4
parse_ipv4-only host value h = elim (Option-cases (parse_octets (split_on 0x2e host))) [
  | inl e ↦ ground arith
  | inr (octets, e) ↦
      parts-IsDotted host (split_on 0x2e host) octets value refl (ground arith) e (ground arith)
]
