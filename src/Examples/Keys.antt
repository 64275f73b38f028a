-- ===== src/Examples/Keys.antt =====
-- A signing key that is made at the first boot.
use stellara.Prelude.{ℕ, ◌<◌, List, [], ◌∷◌, Option, none, some, String, ◌≡◌, refl, arith}
use stellara.Web.{Json, str, obj, Members, end, member}
use stellara.Sql.{select, insert}
use stellara.OAuth.Storage.{
  OAuthStorage, OAuthKeyRow, empty, insert_key, get_active_key, list_active_keys,
}
use stellara.OAuth.ClientDocument.{field}
use stellara.OAuth.Keys.{
  ActiveSigningKey, loaded, assign, slice, keys, compute_kid, published, bootstrap_new_key,
  load_or_bootstrap_signing_key,
}
use stellara.OAuth.Keys.Loading.{bootstrap-load}

abbrev sha256_hex : String → String
sha256_hex s = "0123456789abcdef0123456789abcdef"

abbrev sort : List String → List String
sort names = names

abbrev stringify_only : Members → List String → String
stringify_only members names = "{}"

abbrev stringify : Members → String
stringify members = "{}"

abbrev export_jwk : String → Members
export_jwk pem = member "kty" (str "RSA") (member "n" (str pem) end)

abbrev pair : String × String
pair = ("public", "private")

abbrev later_pair : String × String
later_pair = ("other public", "other private")

abbrev public_jwk : Members
public_jwk = member "kty" (str "RSA") (
    member "n" (str "public") (
      member "kid" (str "0123456789abcdef")
        (member "alg" (str "RS256") (member "use" (str "sig") end))))

abbrev parse_json : String → Option Json
parse_json s = some (obj public_jwk)

abbrev key : ActiveSigningKey
key = record {
  kid = "0123456789abcdef";
  algorithm = "RS256";
  private_pkcs8 = "private";
  public_jwk = public_jwk;
}

abbrev now : ℕ
now = 5000

abbrev later : ℕ
later = 9000

abbrev older : OAuthKeyRow
older = record {
  kid = "older";
  public_jwk = "{}";
  private_pkcs8 = "p";
  algorithm = "RS256";
  created_at = 4000;
  retired_at = none;
}

abbrev st : OAuthStorage
st = record empty { oauth_keys = older ∷ [] }

abbrev st' : OAuthStorage
st' = record empty {
  oauth_keys =
      record {
        kid = "0123456789abcdef";
        public_jwk = "{}";
        private_pkcs8 = "private";
        algorithm = "RS256";
        created_at = 5000;
        retired_at = none;
      }
      ∷ older
      ∷ [];
}

older_active : (r : OAuthKeyRow) → get_active_key st ≡ some r → r.created_at < now
unfolding get_active_key list_active_keys
older_active r h = ground arith

bootstrap-load_example :
    (load_or_bootstrap_signing_key sha256_hex sort stringify_only stringify export_jwk parse_json
        later_pair later st'
      ≡ (loaded key, st'))
    × (field "kid" key.public_jwk ≡ some (str key.kid))
    × (field "alg" key.public_jwk ≡ some (str key.algorithm))
    × (field "use" key.public_jwk ≡ some (str "sig"))
unfolding bootstrap_new_key published assign compute_kid slice keys insert_key insert select
bootstrap-load_example =
    bootstrap-load sha256_hex sort stringify_only stringify export_jwk parse_json key pair
      later_pair now later st st' refl older_active refl
