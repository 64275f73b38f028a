-- ===== src/Examples/Auth.antt =====
-- Requests with a static token and with a JWT.
use stellara.Prelude.{true, false, List, [], ◌∷◌, none, some, String, if◌then◌else◌, ◌≡◌, ◌⊎◌, refl}
use Prim.Native.String
use stellara.Web.{str, num}
use stellara.Dict.{get}
use stellara.Dict.Laws.{IsUnique}
use stellara.Texts.{has}
use stellara.Auth.{
  Request, AuthConfig, AuthSuccess, JwtVerify, Payload, auth_hook, is_public_request,
  is_public_path, strip_query, strip_trailing_slash, drop_last_slash, resolve_bearer_token,
  looks_like_jwt, dots, resolve_static_bearer, resolve_static_token_constant_time, match_token,
  match_revoked, parse_bearer_token, split_blank, lower_case_is, trim, trim_start, trim_end,
  is_white, resolve_jwt_bearer, verify_access_token, extract_claims, read_string_claim,
  read_number_claim, split_scopes, non_empty, pieces,
}
use stellara.Auth.Hook.{auth_hook-only}
use stellara.Auth.Static.{resolve_static-get}

-- A function in the place of SHA-256, and that it tells all texts apart.
abbrev digest : String → String
digest s = s

injective : (a b : String) → digest a ≡ digest b → a ≡ b
injective a b e = e

abbrev payload : Payload
payload = record {
  sub = some (str "ann");
  exp = some (num 9);
  jti = some (str "j");
  scope = some (str "mcp other");
  client_id = some (str "client");
}

abbrev jwt_verify : JwtVerify
jwt_verify jwt issuer audience = some payload

abbrev tokens : List (String × String)
tokens = ("abc", "bob") ∷ ("def", "eve") ∷ []

abbrev revoked : List String
revoked = "def" ∷ []

abbrev config : AuthConfig
config = record { public_base_url = "https://s"; revoked_tokens = revoked; tokens = tokens }

unique : IsUnique config.tokens
unfolding get
unique = (refl, (refl, tt))

abbrev token : String
token = "abc"

abbrev user_id : String
user_id = "bob"

abbrev scheme : String
scheme = "bEarer"

abbrev request : Request
request = record { route_url = none; url = "/mcp"; ip = "::1"; authorization = some "bEarer abc" }

abbrev jwt_request : Request
jwt_request = record request { authorization = some "Bearer a.b.c" }

abbrev s : AuthSuccess
s = record {
  user_id = "ann";
  client_id = "client";
  expires_at = some (num 9);
  jti = some "j";
  scopes = "mcp" ∷ "other" ∷ [];
}

auth_hook-only_example :
    (token : String) × (parse_bearer_token jwt_request.authorization ≡ some token)
    × (has token config.revoked_tokens ≡ false)
    × (((looks_like_jwt token ≡ true)
          × ((payload : Payload) × (jwt_verify token config.public_base_url
                  (String.◌++◌ config.public_base_url "/mcp")
                ≡ some payload)
              × (payload.sub ≡ some (str s.user_id))
              × ((scope : String) × (payload.scope ≡ some (str scope))
                  × (has "mcp" (split_scopes scope) ≡ true)
                  × (s.scopes ≡ split_scopes scope))))
        ⊎ ((looks_like_jwt token ≡ false) × (get token config.tokens ≡ some s.user_id)))
unfolding auth_hook is_public_request is_public_path strip_query strip_trailing_slash
    drop_last_slash has resolve_bearer_token looks_like_jwt dots resolve_static_bearer
    resolve_static_token_constant_time match_token match_revoked get parse_bearer_token split_blank
    lower_case_is trim trim_start trim_end is_white resolve_jwt_bearer verify_access_token
    extract_claims read_string_claim read_number_claim split_scopes non_empty pieces
auth_hook-only_example = auth_hook-only jwt_verify digest injective config unique jwt_request s refl

resolve_static-get_example :
    resolve_static_token_constant_time digest token tokens revoked
    ≡ (if has token revoked then none else get token tokens)
resolve_static-get_example = resolve_static-get digest injective token tokens revoked unique
