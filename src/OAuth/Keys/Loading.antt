-- ===== src/OAuth/Keys/Loading.antt =====
-- The signing key across restarts.
use text.Mathlib.Text.{◌==◌}
use stellara.Prelude.{
  ℕ, ◌<◌, false, Option, some, List, String, ◌≡◌, refl, ap, arith, eq_iff, Option-cases, Bool-cases,
  inl, inr,
}
use stellara.Web.{Json, str, obj, Members, end, member}
use stellara.OAuth.Storage.{OAuthStorage, OAuthKeyRow, insert_key, get_active_key}
use stellara.OAuth.Storage.ActiveKey.{get_active_key-insert}
use stellara.OAuth.ClientDocument.{field}
use stellara.OAuth.Keys.{
  ActiveSigningKey, loaded, assign, published, to_active_signing_key, new_key, key_row,
  bootstrap_new_key, load_or_bootstrap_signing_key, signing_algorithm,
}

field-assign : (k : String) (v : Json) (ms : Members) → field k (assign k v ms) ≡ some v
unfolding field assign
field-assign k v end = ground (arith, (eq_iff k k).1 refl)
field-assign k v (member k' v' ms) = ground (arith, field-assign k v ms, (eq_iff k k).1 refl)

field-assign_other :
    (j k : String) (v : Json) (ms : Members)
    → (k == j) ≡ false
    → field j (assign k v ms) ≡ field j ms
unfolding field assign
field-assign_other j k v end h = ground arith
field-assign_other j k v (member k' v' ms) h = elim (Bool-cases (k' == k)) [
  | inl e ↦ ground (arith, ap (λ x. x == j) ((eq_iff k' k).0 e))
  | inr e ↦ ground (arith, field-assign_other j k v ms h)
]

-- What `kid`, `alg` and `use` are in the JWK of a new key.
published-fields :
    (kid : String) (raw : Members)
    → (field "kid" (published kid raw) ≡ some (str kid))
      × (field "alg" (published kid raw) ≡ some (str signing_algorithm))
      × (field "use" (published kid raw) ≡ some (str "sig"))
unfolding published
published-fields kid raw =
    let with_kid = assign "kid" (str kid) raw in
    let with_alg = assign "alg" (str signing_algorithm) with_kid in
    (
      ground (
        arith,
        field-assign_other "kid" "use" (str "sig") with_alg refl,
        field-assign_other "kid" "alg" (str signing_algorithm) with_kid refl,
        field-assign "kid" (str kid) raw,
      ),
      ground (
        arith,
        field-assign_other "alg" "use" (str "sig") with_alg refl,
        field-assign "alg" (str signing_algorithm) with_kid,
      ),
      field-assign "use" (str "sig") with_alg,
    )

module _ (sha256_hex : String → String) (sort : List String → List String)
    (stringify_only : Members → List String → String) (stringify : Members → String)
    (export_jwk : String → Members) (parse_json : String → Option Json) (key : ActiveSigningKey)
    (pair later_pair : String × String) (now later : ℕ) (st st' : OAuthStorage) where
  -- A boot on the storage that a new key leaves loads this key, if it was made later than the active
  -- key before it, and the JSON parser reads back its JWK: the boot changes nothing and makes no
  -- other key. The JWK that is published names the id of the key, its algorithm and its use.
  pub bootstrap-load :
      bootstrap_new_key sha256_hex sort stringify_only stringify export_jwk pair now st
        ≡ (loaded key, st')
      → ((r : OAuthKeyRow) → get_active_key st ≡ some r → r.created_at < now)
      → parse_json (stringify key.public_jwk) ≡ some (obj key.public_jwk)
      → (load_or_bootstrap_signing_key sha256_hex sort stringify_only stringify export_jwk
            parse_json later_pair later st'
          ≡ (loaded key, st'))
        × (field "kid" key.public_jwk ≡ some (str key.kid))
        × (field "alg" key.public_jwk ≡ some (str key.algorithm))
        × (field "use" key.public_jwk ≡ some (str "sig"))
  unfolding bootstrap_new_key load_or_bootstrap_signing_key to_active_signing_key
  bootstrap-load h newest parsed =
      let made = new_key sha256_hex sort stringify_only stringify export_jwk pair in
      let row = key_row sha256_hex sort stringify_only stringify export_jwk made now in
      elim (Option-cases (insert_key row st)) [
        | inl e ↦ ground arith
        | inr (inserted, e) ↦
            let active = get_active_key-insert row st inserted e refl newest in
            let raw = export_jwk pair.0 in
            let fields = published-fields made.kid raw in
            (ground arith, ground arith, ground arith, ground arith)
      ]

  -- The key that a boot loads, made or found, is the one that the next boot on the storage it leaves
  -- loads, if the JSON parser reads back its JWK, and that boot changes nothing.
  pub load-again :
      load_or_bootstrap_signing_key sha256_hex sort stringify_only stringify export_jwk parse_json
          pair now st
        ≡ (loaded key, st')
      → parse_json (stringify key.public_jwk) ≡ some (obj key.public_jwk)
      → load_or_bootstrap_signing_key sha256_hex sort stringify_only stringify export_jwk parse_json
          later_pair later st'
        ≡ (loaded key, st')
  unfolding load_or_bootstrap_signing_key
  load-again h parsed = elim (Option-cases (get_active_key st)) [
    | inl e ↦ (bootstrap-load (ground arith) (λ r e'. ground arith) parsed).0
    | inr (row, e) ↦ ground arith
  ]
