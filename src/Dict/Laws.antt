-- ===== src/Dict/Laws.antt =====
-- The laws of a `Map`: what a lookup finds, how many entries there are, what holds of all of them.
use mathlib.Core.Option.{some-injective}
use text.Mathlib.Text.{◌==◌}
use stellara.Prelude.{
  suc, ◌≤◌, List, [], ◌∷◌, none, some, String, if◌then◌else◌, ◌≡◌, refl, arith, eq_iff, length, All,
  Bool-cases, inl, inr, is_some, subst,
}
use stellara.Dict.{get, set, delete}

module _ {ℓ} {V : Type ℓ} where
  pub get-set :
      (j k : String) (v : V) (m : List (String × V))
      → get j (set k v m) ≡ (if k == j then some v else get j m)
  unfolding get set
  get-set j k v [] = refl
  get-set j k v ((i, w) ∷ m) = ground (arith, eq_iff k j, eq_iff i k, eq_iff i j, get-set j k v m)

  pub get-delete :
      (j k : String) (m : List (String × V))
      → get j (delete k m) ≡ (if k == j then none else get j m)
  unfolding get delete
  get-delete j k [] = ground arith
  get-delete j k ((i, w) ∷ m) = ground (arith, eq_iff k j, eq_iff i k, eq_iff i j, get-delete j k m)

  -- No key has two entries.
  abbrev pub IsUnique : List (String × V) → Type ℓ
  IsUnique [] = Unit
  IsUnique ((k, v) ∷ m) = (get k m ≡ none) × IsUnique m

  pub set-IsUnique :
      (k : String) (v : V) (m : List (String × V)) → IsUnique m → IsUnique (set k v m)
  unfolding set get
  set-IsUnique k v [] u = (refl, tt)
  set-IsUnique k v ((j, w) ∷ m) u =
      ground (arith, eq_iff j k, eq_iff k j, set-IsUnique k v m u.1, get-set j k v m)

  pub delete-IsUnique : (k : String) (m : List (String × V)) → IsUnique m → IsUnique (delete k m)
  unfolding delete get
  delete-IsUnique k [] u = tt
  delete-IsUnique k ((j, w) ∷ m) u =
      ground (arith, eq_iff j k, eq_iff k j, delete-IsUnique k m u.1, get-delete j k m)

  pub length-set :
      (k : String) (v : V) (m : List (String × V))
      → length (set k v m) ≡ (if is_some (get k m) then length m else suc (length m))
  unfolding set get
  length-set k v [] = refl
  length-set k v ((j, w) ∷ m) = ground (arith, length-set k v m)

  pub length-delete-le : (k : String) (m : List (String × V)) → length (delete k m) ≤ length m
  unfolding delete
  length-delete-le k [] = omega arith
  length-delete-le k ((j, w) ∷ m) = ground (arith, length-delete-le k m)

  pub delete-absent : (k : String) (m : List (String × V)) → get k m ≡ none → delete k m ≡ m
  unfolding delete get
  delete-absent k [] h = refl
  delete-absent k ((j, w) ∷ m) h = ground (arith, delete-absent k m)

  -- Deleting a key that is there takes one entry away.
  pub length-delete_present :
      (k : String) (m : List (String × V)) {v : V}
      → IsUnique m
      → get k m ≡ some v
      → suc (length (delete k m)) ≡ length m
  unfolding delete get
  length-delete_present k [] u h = ground arith
  length-delete_present k ((j, w) ∷ m) {v} u h =
      ground (arith, eq_iff j k, delete-absent k m, length-delete_present k m {v = v} u.1)

module _ {ℓ κ} {V : Type ℓ} (P : V → Type κ) where
  abbrev pub AllValues : List (String × V) → Type κ
  AllValues m = All (λ e. P e.1) m

  pub AllValues-set :
      (k : String) (v : V) (m : List (String × V)) → AllValues m → P v → AllValues (set k v m)
  unfolding set
  AllValues-set k v [] a p = (p, tt)
  AllValues-set k v ((j, w) ∷ m) a p = elim (Bool-cases (j == k)) [
    | inl e ↦ rw e (p, a.1)
    | inr e ↦ rw e (a.0, AllValues-set k v m a.1 p)
  ]

  pub AllValues-delete : (k : String) (m : List (String × V)) → AllValues m → AllValues (delete k m)
  unfolding delete
  AllValues-delete k [] a = tt
  AllValues-delete k ((j, w) ∷ m) a = elim (Bool-cases (j == k)) [
    | inl e ↦ rw e (AllValues-delete k m a.1)
    | inr e ↦ rw e (a.0, AllValues-delete k m a.1)
  ]

  pub AllValues-get :
      (k : String) (m : List (String × V)) {v : V} → AllValues m → get k m ≡ some v → P v
  unfolding get
  AllValues-get k [] a h = cc
  AllValues-get k ((j, w) ∷ m) {v} a h = elim (Bool-cases (j == k)) [
    | inl e ↦ subst P (some-injective w v (rw e at h)) a.0
    | inr e ↦ AllValues-get k m a.1 (rw e at h)
  ]
