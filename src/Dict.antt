-- ===== src/Dict.antt =====
-- A JavaScript `Map` with text keys, as the list of its entries in insertion order.
pub mod Laws
use text.Mathlib.Text.{◌==◌}
use stellara.Prelude.{ℕ, List, [], ◌∷◌, Option, none, some, String, if◌then◌else◌}

module _ {ℓ} {V : Type ℓ} where
  unfoldable pub get : String → List (String × V) → Option V
  get k [] = none
  get k ((j, v) ∷ m) = if j == k then some v else get k m

  -- An entry that is there keeps its place; a new one goes to the end.
  unfoldable pub set : String → V → List (String × V) → List (String × V)
  set k v [] = (k, v) ∷ []
  set k v ((j, w) ∷ m) = if j == k then (j, v) ∷ m else (j, w) ∷ set k v m

  unfoldable pub delete : String → List (String × V) → List (String × V)
  delete k [] = []
  delete k ((j, w) ∷ m) = if j == k then delete k m else (j, w) ∷ delete k m
