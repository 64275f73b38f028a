-- ===== src/Sql.antt =====
-- The SQL statements of oauth/storage.ts as operations on tables. A table is the list of its rows;
-- the primary key is a text column, read by the argument `key`.
pub mod Laws
pub mod Counts
use text.Mathlib.Text.{◌==◌}
use stellara.Prelude.{ℕ, ◌+◌, Bool, List, [], ◌∷◌, Option, none, some, String, if◌then◌else◌}

module _ {ℓ} {R : Type ℓ} where
  -- SELECT * FROM t WHERE key = k
  unfoldable pub select : (R → String) → String → List R → Option R
  select key k [] = none
  select key k (r ∷ rs) = if key r == k then some r else select key k rs

  -- INSERT INTO t: `none` is the exception that the driver throws on a primary key that is taken.
  unfoldable pub insert : (R → String) → R → List R → Option (List R)
  insert key r rs = elim (select key (key r) rs) [ none ↦ some (r ∷ rs) | some _ ↦ none ]

  -- DELETE FROM t WHERE p
  unfoldable pub delete : (R → Bool) → List R → List R
  delete p [] = []
  delete p (r ∷ rs) = if p r then delete p rs else r ∷ delete p rs

  -- The `changes` of such a statement: the rows that satisfy the condition.
  unfoldable pub changes : (R → Bool) → List R → ℕ
  changes p [] = 0
  changes p (r ∷ rs) = if p r then changes p rs + 1 else changes p rs

  -- UPDATE t SET f WHERE p
  unfoldable pub update : (R → Bool) → (R → R) → List R → List R
  update p f [] = []
  update p f (r ∷ rs) = (if p r then f r else r) ∷ update p f rs
