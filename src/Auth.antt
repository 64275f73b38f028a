-- ===== src/Auth.antt =====
-- src/auth.ts: public paths, bearer tokens and the authentication hook; and `extractClaims` of
-- src/oauth/tokens.ts. SHA-256 is the parameter `digest` and the verification of a JWT by jose the
-- parameter `jwt_verify`, `none` where it throws. A text is a sequence of code points.
pub mod Paths
pub mod Bearer
pub mod Static
pub mod Hook
use Prim.Native.Char.{Char, code}
use Prim.Native.String
use text.Mathlib.Text.{◌==◌}
use stellara.Prelude.{
  ℕ, ◌+◌, Bool, true, false, ◌&&◌, ◌||◌, Option, none, some, List, [], ◌∷◌, String, if◌then◌else◌,
  leb, ◌==ℕ◌, not, ◌>>=◌,
}
use stellara.Texts.{has}
use stellara.Web.{Json, str, num, other_num}

abbrev pub public_paths : List String
public_paths =
    "/health" ∷ "/ready" ∷ "/openapi.json" ∷ "/.well-known/oauth-authorization-server"
    ∷ "/.well-known/oauth-protected-resource" ∷ "/.well-known/oauth-protected-resource/mcp"
    ∷ "/oauth/authorize" ∷ "/oauth/login" ∷ "/oauth/token" ∷ "/oauth/register" ∷ "/oauth/jwks" ∷ []

abbrev pub is_char : ℕ → Char → Bool
is_char n c = code c ==ℕ n

abbrev pub is_empty : String → Bool
is_empty String.[] = true
is_empty (String.◌∷◌ c s) = false

-- The text up to the first `?`, or all of it.
unfoldable pub strip_query : String → String
strip_query String.[] = String.[]
strip_query (String.◌∷◌ c s) =
    let rest = strip_query s in if is_char 0x3f c then String.[] else String.◌∷◌ c rest

-- The text less one `/` at its end, if that is not its first character.
unfoldable pub drop_last_slash : String → String
drop_last_slash String.[] = String.[]
drop_last_slash (String.◌∷◌ c s) =
    let rest = drop_last_slash s in
    if is_empty s && is_char 0x2f c then String.[] else String.◌∷◌ c rest

unfoldable pub strip_trailing_slash : String → String
strip_trailing_slash String.[] = String.[]
strip_trailing_slash (String.◌∷◌ c s) = String.◌∷◌ c (drop_last_slash s)

unfoldable pub is_public_path : String → Bool
is_public_path path_or_url = has (strip_trailing_slash (strip_query path_or_url)) public_paths

-- What the hooks read of a request.
pub record Request : Type 0 where
  pub route_url : Option String
  pub url : String
  pub ip : String
  pub authorization : Option String

unfoldable pub is_public_request : Request → Bool
is_public_request request = elim request.route_url [
  | none ↦ is_public_path request.url
  | some url ↦ is_public_path url
]

-- The white space of `trim` and of `\s`.
unfoldable pub is_white : Char → Bool
is_white c =
    (leb 9 (code c) && leb (code c) 13)
    || is_char 0x20 c
    || is_char 0xa0 c
    || is_char 0x1680 c
    || (leb 0x2000 (code c) && leb (code c) 0x200a)
    || is_char 0x2028 c
    || is_char 0x2029 c
    || is_char 0x202f c
    || is_char 0x205f c
    || is_char 0x3000 c
    || is_char 0xfeff c

unfoldable pub trim_start : String → String
trim_start String.[] = String.[]
trim_start (String.◌∷◌ c s) = let rest = trim_start s in if is_white c then rest else String.◌∷◌ c s

unfoldable pub trim_end : String → String
trim_end String.[] = String.[]
trim_end (String.◌∷◌ c s) =
    let rest = trim_end s in if is_empty rest && is_white c then String.[] else String.◌∷◌ c rest

unfoldable pub trim : String → String
trim s = trim_end (trim_start s)

-- `indexOf(" ")` with the two slices: what stands before and after the first blank.
unfoldable pub split_blank : String → Option (String × String)
split_blank String.[] = none
split_blank (String.◌∷◌ c s) =
    let rest = split_blank s in
    if is_char 0x20 c
    then some (String.[], s)
    else elim rest [ none ↦ none | some (before, after) ↦ some (String.◌∷◌ c before, after) ]

-- `scheme.toLowerCase() === lower`, for a text `lower` of the letters a to z but i and k, which are
-- the lower case of letters outside of ASCII too.
unfoldable pub lower_case_is : String → String → Bool
lower_case_is String.[] lower = is_empty lower
lower_case_is (String.◌∷◌ c s) String.[] = false
lower_case_is (String.◌∷◌ c s) (String.◌∷◌ l ls) =
    (code c ==ℕ code l || code c + 32 ==ℕ code l) && lower_case_is s ls

unfoldable pub parse_bearer_token : Option String → Option String
parse_bearer_token none = none
parse_bearer_token (some header) = elim (split_blank header) [
  | none ↦ none
  | some (scheme, rest) ↦
      if not (lower_case_is scheme "bearer")
      then none
      else if is_empty (trim rest)
      then none
      else some (trim rest)
]

unfoldable pub has_bearer_header : Option String → Bool
has_bearer_header header = elim (parse_bearer_token header) [ none ↦ false | some _ ↦ true ]

unfoldable pub dots : String → ℕ
dots String.[] = 0
dots (String.◌∷◌ c s) = (if is_char 0x2e c then 1 else 0) + dots s

unfoldable pub looks_like_jwt : String → Bool
looks_like_jwt token = dots token ==ℕ 2

pub record AuthSuccess : Type 0 where
  pub user_id : String
  pub client_id : String
  pub expires_at : Option Json
  pub jti : Option String
  pub scopes : List String

pub data AuthResolution : Type 0 where
  failure : String → AuthResolution
  success : AuthSuccess → AuthResolution

-- The hook lets a public request pass, replies with status 401 and the reason, or sets
-- `userId` and `mcpAuth` of the request.
pub data HookResult : Type 0 where
  bypassed : HookResult
  sent_401 : String → HookResult
  authenticated : AuthSuccess → HookResult

-- What the resolution reads of the configuration. `tokens` maps a token to its user.
pub record AuthConfig : Type 0 where
  pub public_base_url : String
  pub revoked_tokens : List String
  pub tokens : List (String × String)

pub record VerifiedAccessToken : Type 0 where
  pub user_id : String
  pub client_id : String
  pub scope : String
  pub jti : String
  pub expires_at : Json

-- The claims of a payload that the code reads, `none` for one that is missing.
pub record Payload : Type 0 where
  pub sub : Option Json
  pub exp : Option Json
  pub jti : Option Json
  pub scope : Option Json
  pub client_id : Option Json

-- A claim that is a text and not empty.
unfoldable pub read_string_claim : Option Json → Option String
read_string_claim (some (str s)) = if is_empty s then none else some s
read_string_claim _ = none

unfoldable pub read_number_claim : Option Json → Option Json
read_number_claim (some (num n)) = some (num n)
read_number_claim (some (other_num t)) = some (other_num t)
read_number_claim _ = none

-- `none` is the `TypeError`.
unfoldable pub extract_claims : Payload → Option VerifiedAccessToken
extract_claims payload = do
  sub ← read_string_claim payload.sub
  exp ← read_number_claim payload.exp
  jti ← read_string_claim payload.jti
  scope ← read_string_claim payload.scope
  client_id ← read_string_claim payload.client_id
  some (record { user_id = sub; client_id = client_id; scope = scope; jti = jti; expires_at = exp })

-- The pieces between single white characters, and those of them that are not empty: the words.
unfoldable pub pieces : String → List String
pieces String.[] = String.[] ∷ []
pieces (String.◌∷◌ c s) = elim (pieces s) [
  | [] ↦ []
  | p ∷ ps ↦ if is_white c then String.[] ∷ p ∷ ps else String.◌∷◌ c p ∷ ps
]

unfoldable pub non_empty : List String → List String
non_empty [] = []
non_empty (s ∷ ss) = let rest = non_empty ss in if is_empty s then rest else s ∷ rest

unfoldable pub split_scopes : String → List String
split_scopes scope = non_empty (pieces scope)

module _ (digest : String → String) where
  -- The scan over the known tokens: the last one with the digest of the input decides.
  unfoldable pub match_token : String → List (String × String) → Option String → Option String
  match_token token [] matched = matched
  match_token token ((known, user_id) ∷ tokens) matched =
      match_token token tokens (if digest token == digest known then some user_id else matched)

  unfoldable pub match_revoked : String → List String → Bool → Bool
  match_revoked token [] revoked = revoked
  match_revoked token (known ∷ tokens) revoked =
      match_revoked token tokens (if digest token == digest known then true else revoked)

  unfoldable pub resolve_static_token_constant_time :
      String → List (String × String) → List String → Option String
  resolve_static_token_constant_time token tokens revoked_tokens =
      let matched = match_token token tokens none in
      let revoked = match_revoked token revoked_tokens false in if revoked then none else matched

-- The call of `jwtVerify`: the token, the issuer and the audience.
abbrev pub JwtVerify : Type 0
JwtVerify = String → String → String → Option Payload

module _ (jwt_verify : JwtVerify) where
  unfoldable pub verify_access_token : String → String → String → Option VerifiedAccessToken
  verify_access_token jwt issuer audience = elim (jwt_verify jwt issuer audience) [
    | none ↦ none
    | some payload ↦ extract_claims payload
  ]

  unfoldable pub resolve_jwt_bearer : AuthConfig → String → AuthResolution
  resolve_jwt_bearer config jwt =
      elim (verify_access_token jwt config.public_base_url
        (String.◌++◌ config.public_base_url "/mcp")) [
          | none ↦ failure "Invalid OAuth access token"
          | some verified ↦
              let scopes = split_scopes verified.scope in
              if not (has "mcp" scopes)
              then failure "OAuth access token lacks required mcp scope"
              else success (record {
                user_id = verified.user_id;
                client_id = verified.client_id;
                expires_at = some verified.expires_at;
                jti = some verified.jti;
                scopes = scopes;
              })
        ]

  module _ (digest : String → String) where
    -- The resolution of a token that is no JWT.
    unfoldable pub resolve_static_bearer : AuthConfig → String → AuthResolution
    resolve_static_bearer config token =
        elim (resolve_static_token_constant_time digest token config.tokens config.revoked_tokens) [
          | none ↦ failure "Unknown bearer token"
          | some user_id ↦ success (record {
            user_id = user_id;
            client_id = String.◌++◌ "static:" user_id;
            expires_at = none;
            jti = none;
            scopes = "mcp" ∷ [];
          })
        ]

    unfoldable pub resolve_bearer_token : AuthConfig → Option String → AuthResolution
    resolve_bearer_token config header = elim (parse_bearer_token header) [
      | none ↦ failure "Missing or malformed Authorization header"
      | some token ↦
          if looks_like_jwt token
          then (if has token config.revoked_tokens
              then failure "Unknown bearer token"
              else resolve_jwt_bearer config token)
          else resolve_static_bearer config token
    ]

    unfoldable pub auth_hook : AuthConfig → Request → HookResult
    auth_hook config request =
        if is_public_request request
        then bypassed
        else elim (resolve_bearer_token config request.authorization) [
          | failure reason ↦ sent_401 reason
          | success resolution ↦ authenticated resolution
        ]
