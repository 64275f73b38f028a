-- ===== src/Auth/Static.antt =====
-- Static tokens of auth.ts: the constant-time scan against a plain lookup.
use text.Mathlib.Text.{◌==◌}
use stellara.Prelude.{
  Bool, true, false, ◌||◌, Option, none, some, List, [], ◌∷◌, String, if◌then◌else◌, ◌≡◌, refl,
  arith, eq_iff,
}
use stellara.Dict.{get}
use stellara.Dict.Laws.{IsUnique}
use stellara.Texts.{has}
use stellara.Auth.{match_token, match_revoked, resolve_static_token_constant_time}

module _ (digest : String → String) (injective : (a b : String) → digest a ≡ digest b → a ≡ b) where
  digest_eq : (a b : String) → (digest a == digest b) ≡ (b == a)
  digest_eq a b = ground (arith, eq_iff (digest a) (digest b), eq_iff b a, injective a b)

  match_token-get :
      (token : String) (tokens : List (String × String)) (matched : Option String)
      → IsUnique tokens
      → match_token digest token tokens matched
        ≡ elim (get token tokens) [ none ↦ matched | some user_id ↦ some user_id ]
  unfolding match_token get
  match_token-get token [] matched u = refl
  match_token-get token ((known, user_id) ∷ tokens) matched u = ground (
    arith,
    digest_eq token known,
    eq_iff known token,
    match_token-get token tokens matched u.1,
    match_token-get token tokens (some user_id) u.1,
  )

  match_revoked-has :
      (token : String) (tokens : List String) (revoked : Bool)
      → match_revoked digest token tokens revoked ≡ (has token tokens || revoked)
  unfolding match_revoked has
  match_revoked-has token [] revoked = refl
  match_revoked-has token (known ∷ tokens) revoked = ground (
    arith,
    digest_eq token known,
    match_revoked-has token tokens true,
    match_revoked-has token tokens revoked,
  )

  -- Where no two texts have the same digest, the scan of all digests answers what a lookup does: the
  -- user of the token in the map, and none for a revoked token.
  pub resolve_static-get :
      (token : String) (tokens : List (String × String)) (revoked : List String)
      → IsUnique tokens
      → resolve_static_token_constant_time digest token tokens revoked
        ≡ (if has token revoked then none else get token tokens)
  unfolding resolve_static_token_constant_time
  resolve_static-get token tokens revoked u =
      ground (arith, match_token-get token tokens none u, match_revoked-has token revoked false)
