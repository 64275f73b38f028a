-- ===== src/Texts.antt =====
-- A JavaScript `Set` of texts, as a list.
pub mod Split
use text.Mathlib.Text.{◌==◌}
use stellara.Prelude.{Bool, false, ◌||◌, List, [], ◌∷◌, String, if◌then◌else◌, ◌≡◌, arith, eq_iff}

unfoldable pub has : String → List String → Bool
has v [] = false
has v (w ∷ ws) = w == v || has v ws

-- A value that is there is not added again.
unfoldable pub add : String → List String → List String
add v ws = if has v ws then ws else v ∷ ws

pub has-add : (v w : String) (ws : List String) → has v (add w ws) ≡ (w == v || has v ws)
unfolding has add
has-add v w ws = ground (arith, eq_iff w v)
