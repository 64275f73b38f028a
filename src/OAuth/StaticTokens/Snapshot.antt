-- ===== src/OAuth/StaticTokens/Snapshot.antt =====
-- What the snapshot of oauth/static-token-state.ts records of the configuration.
use text.Mathlib.Text.{◌==◌}
use stellara.Prelude.{
  Bool, true, false, ◌||◌, List, [], ◌∷◌, none, some, String, ◌≡◌, ◌↔◌, ◌⊎◌, inl, inr, refl, arith,
  eq_iff, if◌then◌else◌, Bool-cases, map, is_some,
}
use stellara.Texts.{has, add, has-add}
use stellara.Dict.{get, set}
use stellara.Dict.Laws.{get-set}
use stellara.OAuth.StaticTokens.{
  Users, or_empty, place, sort, group_tokens, sorted_users, build_static_token_snapshot,
}

module _ (before : String → String → Bool) where
  has-place : (v w : String) (vs : List String) → has v (place before w vs) ≡ (w == v || has v vs)
  unfolding place has
  has-place v w [] = refl
  has-place v w (u ∷ vs) = ground (arith, has-place v w vs)

  has-sort : (v : String) (vs : List String) → has v (sort before vs) ≡ has v vs
  unfolding sort has
  has-sort v [] = refl
  has-sort v (w ∷ vs) = ground (arith, has-place v w (sort before vs), has-sort v vs)

has-keys : (u : String) (m : Users) → has u (map (λ e. e.0) m) ≡ is_some (get u m)
unfolding has get
has-keys u [] = refl
has-keys u ((w, vs) ∷ m) = ground (arith, has-keys u m)

module _ (before : String → String → Bool) (fingerprint to_lower_case : String → String) where
  get-sorted_users :
      (u : String) (us : List String) (grouped : Users)
      → get u (sorted_users before fingerprint to_lower_case us grouped)
        ≡ (if has u us then some (sort before (or_empty (get u grouped))) else none)
  unfolding sorted_users get has
  get-sorted_users u [] grouped = refl
  get-sorted_users u (w ∷ us) grouped = ground (arith, eq_iff w u, get-sorted_users u us grouped)

  -- A configured token that is not revoked has this user and this fingerprint.
  abbrev pub Grants : List (String × String) → List String → String → String → Type 0
  Grants [] revoked u v = ⊥
  Grants ((token, raw) ∷ tokens) revoked u v =
      ((has token revoked ≡ false) × (to_lower_case raw ≡ u) × (fingerprint token ≡ v))
      ⊎ Grants tokens revoked u v

  has-group_tokens :
      (tokens : List (String × String)) (revoked : List String) (grouped : Users) (u v : String)
      → (has v (
            or_empty (get u (group_tokens before fingerprint to_lower_case tokens revoked grouped)))
          ≡ true)
        ↔ ((has v (or_empty (get u grouped)) ≡ true) ⊎ Grants tokens revoked u v)
  unfolding group_tokens
  has-group_tokens [] revoked grouped u v = ground arith
  has-group_tokens ((token, raw) ∷ tokens) revoked grouped u v =
      let values = add (fingerprint token) (or_empty (get (to_lower_case raw) grouped)) in
      elim (Bool-cases (has token revoked)) [
        | inl revoked_ ↦ ground (arith, revoked_, has-group_tokens tokens revoked grouped u v)
        | inr live ↦ ground (
          arith,
          live,
          has-group_tokens tokens revoked (set (to_lower_case raw) values grouped) u v,
          get-set u (to_lower_case raw) values grouped,
          eq_iff (to_lower_case raw) u,
          eq_iff (fingerprint token) v,
          has-add v (fingerprint token) (or_empty (get (to_lower_case raw) grouped)),
        )
      ]

  -- The snapshot records a fingerprint for a user exactly if some configured token that is not
  -- revoked belongs to that user, in lower case, and has that fingerprint.
  pub build-has_iff :
      (tokens : List (String × String)) (revoked : List String) (u v : String)
      → (has v (
            or_empty
              (get u (build_static_token_snapshot before fingerprint to_lower_case tokens revoked)))
          ≡ true)
        ↔ Grants tokens revoked u v
  unfolding build_static_token_snapshot get has
  build-has_iff tokens revoked u v =
      let grouped = group_tokens before fingerprint to_lower_case tokens revoked [] in
      ground (
        arith,
        get-sorted_users u (sort before (map (λ e. e.0) grouped)) grouped,
        has-sort before u (map (λ e. e.0) grouped),
        has-keys u grouped,
        has-sort before v (or_empty (get u grouped)),
        has-group_tokens tokens revoked [] u v,
      )
