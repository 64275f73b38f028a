-- ===== src/Sql/Counts.antt =====
-- The number of rows that a deletion removes.
use stellara.Prelude.{
  ◌+◌, Bool, false, List, [], ◌∷◌, ◌≡◌, arith, length, All, Bool-cases, inl, inr,
}
use stellara.Sql.{delete, changes}

module _ {ℓ} {R : Type ℓ} where
  -- The reported count and the rows that are left add up to the rows before.
  pub changes-length-delete :
      (p : R → Bool) (rs : List R) → changes p rs + length (delete p rs) ≡ length rs
  unfolding changes delete
  changes-length-delete p [] = omega arith
  changes-length-delete p (r ∷ rs) = ground (arith, changes-length-delete p rs)

  -- No row that is left satisfies the condition.
  pub delete-All_not : (p : R → Bool) (rs : List R) → All (λ r. p r ≡ false) (delete p rs)
  unfolding delete
  delete-All_not p [] = tt
  delete-All_not p (r ∷ rs) = elim (Bool-cases (p r)) [
    | inl e ↦ rw e (delete-All_not p rs)
    | inr e ↦ rw e (e, delete-All_not p rs)
  ]
