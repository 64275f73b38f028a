-- ===== src/Auth/Hook.antt =====
-- The authentication hook of auth.ts: whom it authenticates, and as whom.
use Prim.Native.String
use stellara.Prelude.{
  true, false, Option, none, some, [], ◌∷◌, String, ◌≡◌, ◌≢◌, ◌⊎◌, inl, inr, arith, Option-cases,
  Bool-cases,
}
use stellara.Dict.{get}
use stellara.Dict.Laws.{IsUnique}
use stellara.Texts.{has}
use stellara.Web.{Json, str}
use stellara.Auth.{
  AuthConfig, AuthSuccess, success, authenticated, Request, JwtVerify, Payload, is_public_request,
  parse_bearer_token, looks_like_jwt, read_string_claim, extract_claims, split_scopes,
  VerifiedAccessToken, verify_access_token, resolve_static_token_constant_time, resolve_jwt_bearer,
  resolve_static_bearer, resolve_bearer_token, auth_hook,
}
use stellara.Auth.Static.{resolve_static-get}

read_string_claim-some :
    (claim : Option Json) (s : String) → read_string_claim claim ≡ some s → claim ≡ some (str s)
unfolding read_string_claim
read_string_claim-some none s h = ground arith
read_string_claim-some (some (str t)) s h = ground arith
read_string_claim-some (some Json.null) s h = ground arith
read_string_claim-some (some (Json.bool b)) s h = ground arith
read_string_claim-some (some (Json.num n)) s h = ground arith
read_string_claim-some (some (Json.other_num t)) s h = ground arith
read_string_claim-some (some (Json.arr js)) s h = ground arith
read_string_claim-some (some (Json.obj ms)) s h = ground arith

extract_claims-read :
    (payload : Payload) (v : VerifiedAccessToken)
    → extract_claims payload ≡ some v
    → (read_string_claim payload.sub ≡ some v.user_id)
      × (read_string_claim payload.scope ≡ some v.scope)
unfolding extract_claims
extract_claims-read payload v h = (ground arith, ground arith)

module _ (jwt_verify : JwtVerify) where
  resolve_jwt-success :
      (config : AuthConfig) (token : String) (s : AuthSuccess)
      → resolve_jwt_bearer jwt_verify config token ≡ success s
      → (payload : Payload) × (jwt_verify token config.public_base_url
            (String.◌++◌ config.public_base_url "/mcp")
          ≡ some payload)
        × (payload.sub ≡ some (str s.user_id))
        × ((scope : String) × (payload.scope ≡ some (str scope))
            × (has "mcp" (split_scopes scope) ≡ true)
            × (s.scopes ≡ split_scopes scope))
  unfolding resolve_jwt_bearer verify_access_token
  resolve_jwt-success config token s h =
      elim (Option-cases
        (jwt_verify token config.public_base_url (String.◌++◌ config.public_base_url "/mcp"))) [
          | inl e ↦ ground arith
          | inr (payload, e) ↦ elim (Option-cases (extract_claims payload)) [
            | inl e' ↦ ground arith
            | inr (v, e') ↦
                let (user, scope) = extract_claims-read payload v e' in
                (
                  payload,
                  e,
                  read_string_claim-some payload.sub s.user_id (ground (arith, user)),
                  (
                    v.scope,
                    read_string_claim-some payload.scope v.scope scope,
                    ground arith,
                    ground arith,
                  ),
                )
          ]
        ]

module _ (jwt_verify : JwtVerify) (digest : String → String)
    (injective : (a b : String) → digest a ≡ digest b → a ≡ b) (config : AuthConfig)
    (unique : IsUnique config.tokens) where
  static-success :
      (token : String) (s : AuthSuccess)
      → resolve_static_bearer jwt_verify digest config token ≡ success s
      → (has token config.revoked_tokens ≡ false) × (get token config.tokens ≡ some s.user_id)
  unfolding resolve_static_bearer
  static-success token s h =
      let lookup =
        resolve_static-get digest injective token config.tokens config.revoked_tokens unique in
      elim (Option-cases
        (resolve_static_token_constant_time digest token config.tokens config.revoked_tokens)) [
          | inl e ↦ ground arith
          | inr (user_id, e) ↦ (ground (arith, lookup, e), ground (arith, lookup, e))
        ]

  resolve-missing :
      (header : Option String) (s : AuthSuccess)
      → parse_bearer_token header ≡ none
      → resolve_bearer_token jwt_verify digest config header ≢ success s
  unfolding resolve_bearer_token
  resolve-missing header s missing h = ground arith

  resolve-success :
      (token : String) (header : Option String) (s : AuthSuccess)
      → parse_bearer_token header ≡ some token
      → resolve_bearer_token jwt_verify digest config header ≡ success s
      → (has token config.revoked_tokens ≡ false)
        × (((looks_like_jwt token ≡ true)
              × (resolve_jwt_bearer jwt_verify config token ≡ success s))
            ⊎ ((looks_like_jwt token ≡ false) × (get token config.tokens ≡ some s.user_id)))
  unfolding resolve_bearer_token
  resolve-success token header s parsed h = elim (Bool-cases (looks_like_jwt token)) [
    | inl jwt ↦ (ground arith, inl (jwt, ground arith))
    | inr plain ↦
        let (valid, known) = static-success token s (ground arith) in (valid, inr (plain, known))
  ]

  -- The hook authenticates a request as a user only where it carries a bearer token that is not
  -- revoked, and: a token in the form of a JWT is verified for this server, with the user as its
  -- subject, and its `scope` claim is a text with `mcp` among its parts, which are the scopes of the
  -- result, whatever the map of static tokens holds; any other token is
  -- a static token of this user. No two texts are taken to have the same digest.
  pub auth_hook-only :
      (request : Request) (s : AuthSuccess)
      → auth_hook jwt_verify digest config request ≡ authenticated s
      → (token : String) × (parse_bearer_token request.authorization ≡ some token)
        × (has token config.revoked_tokens ≡ false)
        × (((looks_like_jwt token ≡ true)
              × ((payload : Payload) × (jwt_verify token config.public_base_url
                      (String.◌++◌ config.public_base_url "/mcp")
                    ≡ some payload)
                  × (payload.sub ≡ some (str s.user_id))
                  × ((scope : String) × (payload.scope ≡ some (str scope))
                      × (has "mcp" (split_scopes scope) ≡ true)
                      × (s.scopes ≡ split_scopes scope))))
            ⊎ ((looks_like_jwt token ≡ false) × (get token config.tokens ≡ some s.user_id)))
  unfolding auth_hook
  auth_hook-only request s h =
      let resolved : resolve_bearer_token jwt_verify digest config request.authorization
          ≡ success s =
        ground arith in
      elim (Option-cases (parse_bearer_token request.authorization)) [
        | inl e ↦ let missing = resolve-missing request.authorization s e in ground arith
        | inr (token, e) ↦
            let (valid, how) = resolve-success token request.authorization s e resolved in
            (
              token,
              e,
              valid,
              elim how [
                | inl (jwt, done) ↦ inl (jwt, resolve_jwt-success jwt_verify config token s done)
                | inr static ↦ inr static
              ],
            )
      ]

  -- Conversely a request to a path that is not public, with a static token that is in the map and
  -- not revoked, and not in the form of a JWT, is authenticated as the user of that token.
  pub auth_hook-static :
      (request : Request) (token user_id : String)
      → is_public_request request ≡ false
      → parse_bearer_token request.authorization ≡ some token
      → looks_like_jwt token ≡ false
      → has token config.revoked_tokens ≡ false
      → get token config.tokens ≡ some user_id
      → auth_hook jwt_verify digest config request
        ≡ authenticated (record {
          user_id = user_id;
          client_id = String.◌++◌ "static:" user_id;
          expires_at = none;
          jti = none;
          scopes = "mcp" ∷ [];
        })
  unfolding auth_hook resolve_bearer_token resolve_static_bearer
  auth_hook-static request token user_id closed parsed plain valid known =
      ground (
        arith,
        resolve_static-get digest injective token config.tokens config.revoked_tokens unique,
      )
