-- ===== src/Sql/Laws.antt =====
-- What a lookup finds after each statement, and what every statement keeps of all rows.
use mathlib.Core.Option.{some-injective}
use text.Mathlib.Text.{◌==◌}
use stellara.Prelude.{
  Bool, List, [], ◌∷◌, none, some, String, if◌then◌else◌, ◌≡◌, refl, arith, eq_iff, All, Bool-cases,
  inl, inr, subst,
}
use stellara.Sql.{select, insert, delete, update}

module _ {ℓ} {R : Type ℓ} (key : R → String) where
  -- No two rows share a primary key.
  abbrev pub IsKeyed : List R → Type ℓ
  IsKeyed [] = Unit
  IsKeyed (r ∷ rs) = (select key (key r) rs ≡ none) × IsKeyed rs

  pub select-key : (k : String) (rs : List R) {r : R} → select key k rs ≡ some r → key r ≡ k
  unfolding select
  select-key k [] h = cc
  select-key k (s ∷ rs) {r} h = ground (arith, eq_iff (key s) k, select-key k rs {r = r})

  pub select-insert :
      (k : String) (r : R) (rs : List R) {t : List R}
      → insert key r rs ≡ some t
      → select key k t ≡ (if key r == k then some r else select key k rs)
  unfolding select insert
  select-insert k r rs h = ground arith

  pub insert-fresh :
      (r : R) (rs : List R) → select key (key r) rs ≡ none → insert key r rs ≡ some (r ∷ rs)
  unfolding insert
  insert-fresh r rs h = rw (h, insert)

  pub insert-eq-some :
      (r : R) (rs : List R) {t : List R}
      → insert key r rs ≡ some t
      → (select key (key r) rs ≡ none) × (t ≡ r ∷ rs)
  unfolding insert
  insert-eq-some r rs h = ground arith

  pub insert-IsKeyed :
      (r : R) (rs : List R) {t : List R} → insert key r rs ≡ some t → IsKeyed rs → IsKeyed t
  insert-IsKeyed r rs h k = let (new, e) = insert-eq-some r rs h in rw e (new, k)

  -- A deletion only removes rows.
  pub select-delete-none :
      (k : String) (p : R → Bool) (rs : List R)
      → select key k rs ≡ none
      → select key k (delete p rs) ≡ none
  unfolding select delete
  select-delete-none k p [] h = refl
  select-delete-none k p (r ∷ rs) h = ground (arith, select-delete-none k p rs)

  -- With unique keys a lookup after a deletion finds the row that it found before, unless the
  -- condition deletes it.
  pub select-delete :
      (k : String) (p : R → Bool) (rs : List R)
      → IsKeyed rs
      → select key k (delete p rs)
        ≡ elim (select key k rs) [ none ↦ none | some r ↦ if p r then none else some r ]
  unfolding select delete
  select-delete k p [] h = refl
  select-delete k p (r ∷ rs) h =
      ground
        (arith, eq_iff (key r) k, select-delete k p rs h.1, select-delete-none (key r) p rs h.0)

  pub select-delete_key :
      (k d : String) (rs : List R)
      → select key k (delete (λ r. key r == d) rs) ≡ (if d == k then none else select key k rs)
  unfolding select delete
  select-delete_key k d [] = ground arith
  select-delete_key k d (r ∷ rs) =
      ground (arith, eq_iff (key r) k, eq_iff (key r) d, eq_iff d k, select-delete_key k d rs)

  pub delete-IsKeyed : (p : R → Bool) (rs : List R) → IsKeyed rs → IsKeyed (delete p rs)
  unfolding delete
  delete-IsKeyed p [] h = tt
  delete-IsKeyed p (r ∷ rs) h =
      ground (arith, delete-IsKeyed p rs h.1, select-delete-none (key r) p rs h.0)

  -- An update that keeps the key acts on the row that a lookup finds.
  pub select-update :
      (k : String) (p : R → Bool) (f : R → R) (rs : List R)
      → ((r : R) → key (f r) ≡ key r)
      → select key k (update p f rs)
        ≡ elim (select key k rs) [ none ↦ none | some r ↦ some (if p r then f r else r) ]
  unfolding select update
  select-update k p f [] h = refl
  select-update k p f (r ∷ rs) h = ground (arith, h r, select-update k p f rs h)

  -- An update of the row with one key.
  pub select-update_key :
      (k d : String) (f : R → R) (rs : List R)
      → ((r : R) → key (f r) ≡ key r)
      → select key k (update (λ r. key r == d) f rs)
        ≡ elim (select key k rs) [ none ↦ none | some r ↦ some (if d == k then f r else r) ]
  unfolding select update
  select-update_key k d f [] h = refl
  select-update_key k d f (r ∷ rs) h =
      ground
        (arith, h r, eq_iff (key r) k, eq_iff (key r) d, eq_iff d k, select-update_key k d f rs h)

  pub update-IsKeyed :
      (p : R → Bool) (f : R → R) (rs : List R)
      → ((r : R) → key (f r) ≡ key r)
      → IsKeyed rs
      → IsKeyed (update p f rs)
  unfolding update
  update-IsKeyed p f [] h k = tt
  update-IsKeyed p f (r ∷ rs) h k =
      ground (arith, h r, update-IsKeyed p f rs h k.1, select-update (key r) p f rs h)

module _ {ℓ κ} {R : Type ℓ} (key : R → String) (P : R → Type κ) where
  pub All-select : (k : String) (rs : List R) {r : R} → All P rs → select key k rs ≡ some r → P r
  unfolding select
  All-select k [] a h = cc
  All-select k (s ∷ rs) {r} a h = elim (Bool-cases (key s == k)) [
    | inl e ↦ subst P (some-injective s r (rw e at h)) a.0
    | inr e ↦ All-select k rs a.1 (rw e at h)
  ]

  pub All-delete : (p : R → Bool) (rs : List R) → All P rs → All P (delete p rs)
  unfolding delete
  All-delete p [] a = tt
  All-delete p (r ∷ rs) a = elim (Bool-cases (p r)) [
    | inl e ↦ rw e (All-delete p rs a.1)
    | inr e ↦ rw e (a.0, All-delete p rs a.1)
  ]

  pub All-update :
      (p : R → Bool) (f : R → R) (rs : List R)
      → ((r : R) → P r → P (f r))
      → All P rs
      → All P (update p f rs)
  unfolding update
  All-update p f [] h a = tt
  All-update p f (r ∷ rs) h a = elim (Bool-cases (p r)) [
    | inl e ↦ rw e (h r a.0, All-update p f rs h a.1)
    | inr e ↦ rw e (a.0, All-update p f rs h a.1)
  ]
