-- ===== src/OAuth/StaticTokens/Removal.antt =====
-- Which users oauth/static-token-state.ts picks: those who lost a token, and no others.
use stellara.Prelude.{
  true, false, not, List, [], ◌∷◌, some, String, ◌≡◌, ◌↔◌, ◌⊎◌, inl, inr, refl, arith, eq_iff, any,
}
use stellara.Texts.{has, has-add}
use stellara.Dict.{get}
use stellara.OAuth.StaticTokens.{Users, or_empty, removed_from}

-- A fingerprint of the user is gone from the current snapshot.
abbrev pub Lost : Users → String → List String → Type 0
Lost current u [] = ⊥
Lost current u (v ∷ vs) = (has v (or_empty (get u current)) ≡ false) ⊎ Lost current u vs

-- Some entry of the user in the previous snapshot has lost a fingerprint.
abbrev pub LostBy : Users → Users → String → Type 0
LostBy [] current u = ⊥
LostBy ((w, vs) ∷ rest) current u = ((w ≡ u) × Lost current w vs) ⊎ LostBy rest current u

any-Lost :
    (current : Users) (u : String) (vs : List String)
    → (any (λ v. not (has v (or_empty (get u current)))) vs ≡ true) ↔ Lost current u vs
any-Lost current u [] = ground arith
any-Lost current u (v ∷ vs) = ground (arith, any-Lost current u vs)

-- A user is removed exactly if the previous snapshot has a fingerprint of theirs that the current
-- one lacks.
pub removed_from_iff :
    (previous current : Users) (u : String)
    → (has u (removed_from previous current) ≡ true) ↔ LostBy previous current u
unfolding removed_from has
removed_from_iff [] current u = ground arith
removed_from_iff ((w, vs) ∷ rest) current u = ground (
  arith,
  any-Lost current w vs,
  has-add u w (removed_from rest current),
  eq_iff w u,
  removed_from_iff rest current u,
)

has-Lost_self :
    (current : Users) (u : String) (vs ws : List String)
    → get u current ≡ some ws
    → ((v : String) → has v vs ≡ true → has v ws ≡ true)
    → ¬ Lost current u vs
unfolding has
has-Lost_self current u [] ws found sub l = l
has-Lost_self current u (v ∷ vs) ws found sub (inl gone) =
    ground (arith, found, sub v, (eq_iff v v).1 refl)
has-Lost_self current u (v ∷ vs) ws found sub (inr later) =
    has-Lost_self current u vs ws found (λ x h. sub x (ground arith)) later
