-- ===== src/OAuth/Keys.antt =====
-- src/oauth/keys.ts: the signing key. The pair that `generateKeyPairSync` makes, the export of the
-- public key as a JWK, SHA-256, the order of `sort` and the JSON functions are arguments. And
-- src/routes/oauth/jwks.ts, which publishes the key.
pub mod Loading
use Prim.Native.String
use text.Mathlib.Text.{◌==◌}
use stellara.Prelude.{ℕ, zero, suc, Option, none, some, List, [], ◌∷◌, String, if◌then◌else◌, not}
use stellara.Web.{Json, str, obj, arr, nil, cons, Members, end, member}
use stellara.OAuth.Storage.{OAuthStorage, OAuthKeyRow, insert_key, get_active_key}

abbrev pub signing_algorithm : String
signing_algorithm = "RS256"

abbrev pub kid_hex_length : ℕ
kid_hex_length = 16

pub record ActiveSigningKey : Type 0 where
  pub kid : String
  pub algorithm : String
  pub private_pkcs8 : String
  pub public_jwk : Members

-- The key, or the exception: of `JSON.parse`, of the two checks, or of the insertion.
pub data Loaded : Type 0 where
  loaded : ActiveSigningKey → Loaded
  invalid_json : Loaded
  invalid_public_jwk : String → Loaded
  unsupported_algorithm : String → String → Loaded
  kid_taken : Loaded

-- `{ ...o, k: v }`
unfoldable pub assign : String → Json → Members → Members
assign k v end = member k v end
assign k v (member k' v' ms) =
    let rest = assign k v ms in if k' == k then member k v ms else member k' v' rest

-- `Object.keys(o)`
unfoldable pub keys : Members → List String
keys end = []
keys (member k _ ms) = k ∷ keys ms

-- `s.slice(0, n)`
unfoldable pub slice : ℕ → String → String
slice zero s = String.[]
slice (suc n) String.[] = String.[]
slice (suc n) (String.◌∷◌ c s) = String.◌∷◌ c (slice n s)

unfoldable pub compute_kid :
    (String → String)
    → (List String → List String)
    → (Members → List String → String)
    → Members
    → String
compute_kid sha256_hex sort stringify_only public_jwk =
    slice kid_hex_length (sha256_hex (stringify_only public_jwk (sort (keys public_jwk))))

-- `{ ...publicJwkRaw, kid, alg: SIGNING_ALGORITHM, use: "sig" }`
unfoldable pub published : String → Members → Members
published kid raw =
    assign "use" (str "sig") (assign "alg" (str signing_algorithm) (assign "kid" (str kid) raw))

unfoldable pub to_active_signing_key : (String → Option Json) → OAuthKeyRow → Loaded
to_active_signing_key parse_json row = elim (parse_json row.public_jwk) [
  | none ↦ invalid_json
  | some (obj parsed) ↦
      if not (row.algorithm == signing_algorithm)
      then unsupported_algorithm row.algorithm row.kid
      else loaded (record {
        kid = row.kid;
        algorithm = signing_algorithm;
        private_pkcs8 = row.private_pkcs8;
        public_jwk = parsed;
      })
  | some _ ↦ invalid_public_jwk row.kid
]

module _ (sha256_hex : String → String) (sort : List String → List String)
    (stringify_only : Members → List String → String) (stringify : Members → String)
    (export_jwk : String → Members) where
  -- The pair holds the public and the private key.
  abbrev pub new_key : String × String → ActiveSigningKey
  new_key (public_key, private_key) =
      let raw = export_jwk public_key in
      let kid = compute_kid sha256_hex sort stringify_only raw in
      record {
        kid = kid;
        algorithm = signing_algorithm;
        private_pkcs8 = private_key;
        public_jwk = published kid raw;
      }

  abbrev pub key_row : ActiveSigningKey → ℕ → OAuthKeyRow
  key_row key now = record {
    kid = key.kid;
    public_jwk = stringify key.public_jwk;
    private_pkcs8 = key.private_pkcs8;
    algorithm = signing_algorithm;
    created_at = now;
    retired_at = none;
  }

  unfoldable pub bootstrap_new_key : String × String → ℕ → OAuthStorage → Loaded × OAuthStorage
  bootstrap_new_key pair now st =
      let key = new_key pair in
      elim (insert_key (key_row key now) st) [
        | none ↦ (kid_taken, st)
        | some st' ↦ (loaded key, st')
      ]

  unfoldable pub load_or_bootstrap_signing_key :
      (String → Option Json) → String × String → ℕ → OAuthStorage → Loaded × OAuthStorage
  load_or_bootstrap_signing_key parse_json pair now st = elim (get_active_key st) [
    | some existing ↦ (to_active_signing_key parse_json existing, st)
    | none ↦ bootstrap_new_key pair now st
  ]

-- The body of `GET /oauth/jwks`.
unfoldable pub jwks : ActiveSigningKey → Json
jwks key = obj (member "keys" (arr (cons (obj key.public_jwk) nil)) end)
