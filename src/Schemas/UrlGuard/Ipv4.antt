-- ===== src/Schemas/UrlGuard/Ipv4.antt =====
-- The IPv4 checks of src/schemas/common.ts against the reserved ranges written out.
use stellara.Prelude.{
  ℕ, ◌<◌, Bool, true, ◌&&◌, ◌||◌, String, ◌==ℕ◌, leb, any, ◌≡◌, ap, ◌∙◌, arith, Option-cases, inl,
  inr, ◌↔◌,
}
use stellara.Schemas.UrlGuard.Dotted.{parse_ipv4-dotted, parse_ipv4-only}
use stellara.Schemas.UrlGuard.{
  octets_to_int, private_ipv4_blocks, parse_ipv4, in_block, is_private_ipv4, dotted,
}

-- The reserved ranges, octet by octet.
abbrev pub is_reserved : ℕ → ℕ → ℕ → ℕ → Bool
is_reserved a b c d =
    a ==ℕ 0
    || a ==ℕ 10
    || (a ==ℕ 100 && leb 64 b && leb b 127)
    || a ==ℕ 127
    || (a ==ℕ 169 && b ==ℕ 254)
    || (a ==ℕ 172 && leb 16 b && leb b 31)
    || (a ==ℕ 192 && b ==ℕ 0 && (c ==ℕ 0 || c ==ℕ 2))
    || (a ==ℕ 192 && b ==ℕ 168)
    || (a ==ℕ 198 && leb 18 b && leb b 19)
    || (a ==ℕ 198 && b ==ℕ 51 && c ==ℕ 100)
    || (a ==ℕ 203 && b ==ℕ 0 && c ==ℕ 113)
    || leb 224 a

module _ (a b c d : ℕ) (ha : a < 256) (hb : b < 256) (hc : c < 256) (hd : d < 256) where
  block_8 : (n : ℕ) → in_block (octets_to_int a b c d) (octets_to_int n 0 0 0, 8) ≡ (a ==ℕ n)
  block_8 n = ground arith

  block_100 :
      in_block (octets_to_int a b c d) (octets_to_int 100 64 0 0, 10)
      ≡ (a ==ℕ 100 && leb 64 b && leb b 127)
  block_100 = ground arith

  block_172 :
      in_block (octets_to_int a b c d) (octets_to_int 172 16 0 0, 12)
      ≡ (a ==ℕ 172 && leb 16 b && leb b 31)
  block_172 = ground arith

  block_198 :
      in_block (octets_to_int a b c d) (octets_to_int 198 18 0 0, 15)
      ≡ (a ==ℕ 198 && leb 18 b && leb b 19)
  block_198 = ground arith

  block_16 :
      (n m : ℕ)
      → m < 256
      → in_block (octets_to_int a b c d) (octets_to_int n m 0 0, 16) ≡ (a ==ℕ n && b ==ℕ m)
  block_16 n m h = ground arith

  block_24 :
      (n m k : ℕ)
      → m < 256
      → k < 256
      → in_block (octets_to_int a b c d) (octets_to_int n m k 0, 24)
        ≡ (a ==ℕ n && b ==ℕ m && c ==ℕ k)
  block_24 n m k h h' = ground arith

  block_224 :
      in_block (octets_to_int a b c d) (octets_to_int 224 0 0 0, 4) ≡ (leb 224 a && leb a 239)
  block_224 = ground arith

  block_240 : in_block (octets_to_int a b c d) (octets_to_int 240 0 0 0, 4) ≡ leb 240 a
  block_240 = ground arith

  blocks-reserved : any (in_block (octets_to_int a b c d)) private_ipv4_blocks ≡ is_reserved a b c d
  blocks-reserved =
      rw
        (
          block_8 0,
          block_8 10,
          block_100,
          block_8 127,
          block_16 169 254 (omega arith),
          block_172,
          block_24 192 0 0 (omega arith) (omega arith),
          block_24 192 0 2 (omega arith) (omega arith),
          block_16 192 168 (omega arith),
          block_198,
          block_24 198 51 100 (omega arith) (omega arith),
          block_24 203 0 113 (omega arith) (omega arith),
          block_224,
          block_240,
        )
        (ground arith)

  pub is_private_ipv4-dotted : is_private_ipv4 (dotted a b c d) ≡ is_reserved a b c d
  unfolding is_private_ipv4
  is_private_ipv4-dotted =
      rw (parse_ipv4-dotted a b c d ha hb hc hd, is_private_ipv4) blocks-reserved

-- A text is a private IPv4 address exactly where it is the dotted decimal, without leading zeros, of
-- four octets in one of the reserved ranges.
pub is_private_ipv4_iff :
    (host : String)
    → (is_private_ipv4 host ≡ true) ↔ (
        (a b c d : ℕ) × (a < 256)
        × (b < 256)
        × (c < 256)
        × (d < 256)
        × (host ≡ dotted a b c d)
        × (is_reserved a b c d ≡ true))
unfolding is_private_ipv4
is_private_ipv4_iff host = (
  λ private_e. elim (Option-cases (parse_ipv4 host)) [
    | inl e ↦ ground arith
    | inr (value, e) ↦
        let (a, b, c, d, ha, hb, hc, hd, text, number) = parse_ipv4-only host value e in
        (a, b, c, d, ha, hb, hc, hd, text, ground (arith, blocks-reserved a b c d ha hb hc hd))
  ],
  λ h.
      let (a, b, c, d, ha, hb, hc, hd, text, reserved) = h in
      ap is_private_ipv4 text ∙ is_private_ipv4-dotted a b c d ha hb hc hd ∙ reserved,
)
