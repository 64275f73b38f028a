-- ===== src/Texts/Split.antt =====
-- `String.prototype.split` on one character, `startsWith` with the rest, and their laws.
use Prim.Native.Char.{Char, code}
use Prim.Native.String
use text.Mathlib.TextEquality.{Char-path}
use text.Mathlib.TextLemmas.{nil-append, cons-append}
use stellara.Prelude.{
  ℕ, Bool, true, ◌&&◌, Option, none, some, List, [], ◌∷◌, String, if◌then◌else◌, ◌==ℕ◌, ◌≡◌, refl,
  ap, arith, Bool-cases, inl, inr, not,
}

abbrev pub is_code : ℕ → Char → Bool
is_code n c = code c ==ℕ n

-- `s.split(sep)`: always at least one part.
unfoldable pub split_on : ℕ → String → List String
split_on sep String.[] = String.[] ∷ []
split_on sep (String.◌∷◌ c s) =
    let rest = split_on sep s in
    if is_code sep c
    then String.[] ∷ rest
    else elim rest [ [] ↦ String.◌∷◌ c String.[] ∷ [] | w ∷ ws ↦ String.◌∷◌ c w ∷ ws ]

-- What stands after a prefix, if the text has it.
unfoldable pub strip_prefix : String → String → Option String
strip_prefix String.[] s = some s
strip_prefix (String.◌∷◌ p ps) String.[] = none
strip_prefix (String.◌∷◌ p ps) (String.◌∷◌ c s) =
    let rest = strip_prefix ps s in if code p ==ℕ code c then rest else none

unfoldable pub lacks : ℕ → String → Bool
lacks sep String.[] = true
lacks sep (String.◌∷◌ c s) = not (is_code sep c) && lacks sep s

-- The parts with the separator between them.
unfoldable pub join_with : Char → List String → String
join_with c [] = String.[]
join_with c (w ∷ []) = w
join_with c (w ∷ v ∷ ws) = String.◌++◌ w (String.◌∷◌ c (join_with c (v ∷ ws)))

pub split_on-lacks : (sep : ℕ) (w : String) → lacks sep w ≡ true → split_on sep w ≡ w ∷ []
unfolding split_on lacks
split_on-lacks sep String.[] h = refl
split_on-lacks sep (String.◌∷◌ c s) h = ground (arith, split_on-lacks sep s)

pub split_on-append :
    (c : Char) (w s : String)
    → lacks (code c) w ≡ true
    → split_on (code c) (String.◌++◌ w (String.◌∷◌ c s)) ≡ w ∷ split_on (code c) s
unfolding split_on lacks
split_on-append c String.[] s h = rw (nil-append (String.◌∷◌ c s)) (ground arith)
split_on-append c (String.◌∷◌ d w) s h =
    rw (cons-append d w (String.◌∷◌ c s)) (ground (arith, split_on-append c w s))

pub strip_prefix-append : (p s : String) → strip_prefix p (String.◌++◌ p s) ≡ some s
unfolding strip_prefix
strip_prefix-append String.[] s = ap some (nil-append s)
strip_prefix-append (String.◌∷◌ c p) s =
    rw (cons-append c p s) (ground (arith, strip_prefix-append p s))

split_on-cons :
    (sep : ℕ) (s : String) → (w : String) × (ws : List String) × (split_on sep s ≡ w ∷ ws)
unfolding split_on
split_on-cons sep String.[] = (String.[], [], refl)
split_on-cons sep (String.◌∷◌ c s) =
    let (w, ws, e) = split_on-cons sep s in
    elim (Bool-cases (is_code sep c)) [
      | inl here ↦ (String.[], split_on sep s, ground arith)
      | inr there ↦ (String.◌∷◌ c w, ws, ground arith)
    ]

join_with-cons :
    (c d : Char) (w : String) (ws : List String)
    → join_with c (String.◌∷◌ d w ∷ ws) ≡ String.◌∷◌ d (join_with c (w ∷ ws))
unfolding join_with
join_with-cons c d w [] = refl
join_with-cons c d w (v ∷ ws) = cons-append d w (String.◌∷◌ c (join_with c (v ∷ ws)))

join_with-nil :
    (c : Char) (w : String) (ws : List String)
    → join_with c (String.[] ∷ w ∷ ws) ≡ String.◌∷◌ c (join_with c (w ∷ ws))
unfolding join_with
join_with-nil c w ws = nil-append (String.◌∷◌ c (join_with c (w ∷ ws)))

-- Splitting loses nothing.
pub join_with-split_on : (c : Char) (s : String) → join_with c (split_on (code c) s) ≡ s
unfolding split_on join_with
join_with-split_on c String.[] = refl
join_with-split_on c (String.◌∷◌ d s) =
    let (w, ws, e) = split_on-cons (code c) s in
    elim (Bool-cases (is_code (code c) d)) [
      | inl here ↦
          let same = Char-path d c (ground arith) in
          ground (arith, join_with-nil c w ws, join_with-split_on c s)
      | inr there ↦ ground (arith, join_with-cons c d w ws, join_with-split_on c s)
    ]
