-- ===== src/OAuth/Authorizations/Abstract.antt =====
-- The abstract machine of codes and refresh tokens by itself: no move creates authority.
use text.Mathlib.Text.{◌==◌}
use stellara.Prelude.{
  ℕ, some, String, ◌≡◌, ◌⊎◌, inl, inr, refl, ap, ◌∙◌, arith, Option-cases, Bool-cases, sym,
}
use stellara.OAuth.Storage.{OAuthCodeRow, OAuthRefreshTokenRow}
use stellara.OAuth.Authorizations.{View, Move, idle, expire, redeem, rotate, revoke}

-- A user, a client and a scope that a stored code or refresh token stands for.
abbrev pub Holds : View → String → String → String → Type 0
Holds v user client scope =
    ((code : String) × (row : OAuthCodeRow) × (v.codes code ≡ some row)
      × (row.user_id ≡ user)
      × (row.client_id ≡ client)
      × (row.scope ≡ scope))
    ⊎ ((token : String) × (row : OAuthRefreshTokenRow) × (v.tokens token ≡ some row)
        × (row.user_id ≡ user)
        × (row.client_id ≡ client)
        × (row.scope ≡ scope))

module _ {now ttl_ms : ℕ} {v w : View} where
  pub Move-code :
      (code : String) (row : OAuthCodeRow)
      → Move now ttl_ms v w
      → w.codes code ≡ some row
      → v.codes code ≡ some row
  Move-code code row (idle e) h = ap (λ x. x.codes code) (sym e) ∙ h
  Move-code code row (expire c r found over codes tokens) h = ground (arith, codes code)
  Move-code code row (redeem c t r found live codes tokens) h = ground (arith, codes code)
  Move-code code row (rotate old new r found unused live codes tokens) h = sym (codes code) ∙ h
  Move-code code row (revoke old new r found used codes tokens) h = sym (codes code) ∙ h

  Move-token :
      (token : String) (row : OAuthRefreshTokenRow)
      → Move now ttl_ms v w
      → w.tokens token ≡ some row
      → Holds v row.user_id row.client_id row.scope
  Move-token token row (idle e) h =
      inr (token, row, ap (λ x. x.tokens token) (sym e) ∙ h, refl, refl, refl)
  Move-token token row (expire c r found over codes tokens) h =
      inr (token, row, sym (tokens token) ∙ h, refl, refl, refl)
  Move-token token row (redeem c t r found live codes tokens) h = elim (Bool-cases (t == token)) [
    | inl new ↦ inl (
      c,
      r,
      found,
      ground (arith, tokens token, new),
      ground (arith, tokens token, new),
      ground (arith, tokens token, new),
    )
    | inr kept ↦ inr (token, row, ground (arith, tokens token, kept), refl, refl, refl)
  ]
  Move-token token row (rotate old new r found unused live codes tokens) h =
      elim (Bool-cases (old == token)) [
        | inl presented ↦ inr (
          old,
          r,
          found,
          ground (arith, tokens token, presented),
          ground (arith, tokens token, presented),
          ground (arith, tokens token, presented),
        )
        | inr other ↦ elim (Bool-cases (new == token)) [
          | inl fresh ↦ inr (
            old,
            r,
            found,
            ground (arith, tokens token, other, fresh),
            ground (arith, tokens token, other, fresh),
            ground (arith, tokens token, other, fresh),
          )
          | inr kept ↦ inr (token, row, ground (arith, tokens token, other, kept), refl, refl, refl)
        ]
      ]
  Move-token token row (revoke old new r found used codes tokens) h =
      elim (Option-cases (v.tokens token)) [
        | inl gone ↦ ground (arith, tokens token, gone)
        | inr (r', kept) ↦ inr (token, row, ground (arith, tokens token, kept), refl, refl, refl)
      ]

  -- What is held after a move was held before it.
  pub Move-Holds :
      (user client scope : String)
      → Move now ttl_ms v w
      → Holds w user client scope
      → Holds v user client scope
  Move-Holds user client scope m (inl (code, row, found, u, c, s)) =
      inl (code, row, Move-code code row m found, u, c, s)
  Move-Holds user client scope m (inr (token, row, found, u, c, s)) =
      rw (← u) (rw (← c) (rw (← s) (Move-token token row m found)))
