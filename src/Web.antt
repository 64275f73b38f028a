-- ===== src/Web.antt =====
-- What the code uses of the JavaScript runtime: parsed URLs and JSON values. The parsers themselves
-- are parameters of the functions that call them.
use mathlib.Core.List.{List}
use stellara.Prelude.{ℕ, Bool, [], ◌∷◌, String}

-- The parts of a parsed `URL` that the code reads.
pub record Url : Type 0 where
  pub protocol : String
  pub username : String
  pub password : String
  pub hostname : String

-- A JSON value. A number is a natural number or, by its text, any other.
mutual
  pub data Json : Type 0 where
    null : Json
    bool : Bool → Json
    num : ℕ → Json
    other_num : String → Json
    str : String → Json
    arr : Items → Json
    obj : Members → Json

  pub data Items : Type 0 where
    nil : Items
    cons : Json → Items → Items

  pub data Members : Type 0 where
    end : Members
    member : String → Json → Members → Members

-- The array of these texts.
abbrev pub texts : List String → Items
texts [] = nil
texts (s ∷ ss) = cons (str s) (texts ss)

-- `parsed.filter((entry): entry is string => typeof entry === "string")`
unfoldable pub only_texts : Items → List String
only_texts nil = []
only_texts (cons (str s) js) = s ∷ only_texts js
only_texts (cons _ js) = only_texts js
