-- ===== src/OAuth/Clients/Redirects.antt =====
-- The redirect URI policy of oauth/clients.ts.
use stellara.Prelude.{
  List, [], ◌∷◌, Option, some, String, ◌≡◌, ◌↔◌, ◌⊎◌, inl, inr, refl, arith, eq_iff, All,
  Option-cases,
}
use stellara.Web.{Url}
use stellara.OAuth.Clients.{valid, validate_single_redirect_uri, validate_redirect_uris}

abbrev pub IsLoopback : String → Type 0
IsLoopback host = (host ≡ "localhost") ⊎ (host ≡ "127.0.0.1") ⊎ (host ≡ "[::1]")

module _ (parse_url : String → Option Url) where
  -- A URL that is HTTPS, or HTTP on a loopback host.
  abbrev pub IsAllowed : String → Type 0
  IsAllowed uri =
      (u : Url) × (parse_url uri ≡ some u)
      × ((u.protocol ≡ "https:") ⊎ ((u.protocol ≡ "http:") × IsLoopback u.hostname))

  valid-IsAllowed :
      (uri : String) → validate_single_redirect_uri parse_url uri ≡ valid → IsAllowed uri
  unfolding validate_single_redirect_uri
  valid-IsAllowed uri h = elim (Option-cases (parse_url uri)) [
    | inl failed ↦ cc (rw (failed, validate_single_redirect_uri) at h)
    | inr (u, parsed) ↦ (
      u,
      parsed,
      ground (
        arith,
        eq_iff u.protocol "https:",
        eq_iff u.protocol "http:",
        eq_iff u.hostname "localhost",
        eq_iff u.hostname "127.0.0.1",
        eq_iff u.hostname "[::1]",
      ),
    )
  ]

  IsAllowed-valid :
      (uri : String) → IsAllowed uri → validate_single_redirect_uri parse_url uri ≡ valid
  unfolding validate_single_redirect_uri
  IsAllowed-valid uri (u, parsed, allowed) = ground (
    arith,
    parsed,
    eq_iff u.protocol "https:",
    eq_iff u.protocol "http:",
    eq_iff u.hostname "localhost",
    eq_iff u.hostname "127.0.0.1",
    eq_iff u.hostname "[::1]",
  )

  valid-All :
      (uris : List String) → validate_redirect_uris parse_url uris ≡ valid → All IsAllowed uris
  unfolding validate_redirect_uris
  valid-All [] h = tt
  valid-All (uri ∷ uris) h = (valid-IsAllowed uri (ground arith), valid-All uris (ground arith))

  All-valid :
      (uris : List String) → All IsAllowed uris → validate_redirect_uris parse_url uris ≡ valid
  unfolding validate_redirect_uris
  All-valid [] h = refl
  All-valid (uri ∷ uris) (a, as') = ground (arith, IsAllowed-valid uri a, All-valid uris as')

  -- The redirect URIs of a registration are accepted exactly if each of them is a URL that is HTTPS,
  -- or HTTP on `localhost`, `127.0.0.1` or `[::1]`.
  pub validate_redirect_uris_iff :
      (uris : List String) → (validate_redirect_uris parse_url uris ≡ valid) ↔ All IsAllowed uris
  validate_redirect_uris_iff uris = (valid-All uris, All-valid uris)
