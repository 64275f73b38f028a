-- ===== src/OAuth/ClientMetadata/Cache.antt =====
-- The cache of src/oauth/client-metadata.ts within its cap, and the aborted flights.
use text.Mathlib.Text.{◌==◌}
use stellara.Prelude.{
  ℕ, ◌≤◌, ◌<◌, ◌∙◌, some, false, suc, Bool, none, List, [], ◌∷◌, String, leb, ltb, length, inl, inr,
  ◌≡◌, refl, ap, arith, eq_iff, Bool-cases, Option-cases,
}
use stellara.Dict.{get, set, delete}
use stellara.Dict.Laws.{
  IsUnique, set-IsUnique, delete-IsUnique, length-set, length-delete_present, get-delete, get-set,
  length-delete-le,
}
use stellara.OAuth.ClientMetadata.{
  CacheValue, is_oauth_client_id_within_limit, read_cache, evict, write_cache, abort_all,
}

pub evict-absent :
    (k : String) (max_entries : ℕ) (m : List (String × CacheValue))
    → get k m ≡ none
    → get k (evict max_entries m) ≡ none
unfolding evict get
evict-absent k max_entries [] h = h
evict-absent k max_entries ((j, v) ∷ m) h = ground (arith, evict-absent k max_entries m)

evict-IsUnique :
    (max_entries : ℕ) (m : List (String × CacheValue)) → IsUnique m → IsUnique (evict max_entries m)
unfolding evict
evict-IsUnique max_entries [] u = tt
evict-IsUnique max_entries ((k, v) ∷ m) u =
    elim (Bool-cases (ltb max_entries (length ((k, v) ∷ m)))) [
      | inl full ↦ rw (full, evict) (evict-IsUnique max_entries m u.1)
      | inr fits ↦ rw (fits, evict) u
    ]

length-evict-le :
    (max_entries : ℕ) (m : List (String × CacheValue)) → length (evict max_entries m) ≤ max_entries
unfolding evict
length-evict-le max_entries [] = omega arith
length-evict-le max_entries (e ∷ m) = ground (arith, length-evict-le max_entries m)

-- A cache with its bound.
abbrev pub IsCache : ℕ → List (String × CacheValue) → Type 0
IsCache max_entries m = IsUnique m × (length m ≤ max_entries)

pub write_cache-IsCache :
    (max_entries : ℕ) (k : String) (v : CacheValue) (m : List (String × CacheValue))
    → IsCache max_entries m
    → IsCache max_entries (write_cache max_entries k v m)
unfolding write_cache
write_cache-IsCache max_entries k v m (u, l) =
    elim (Bool-cases (is_oauth_client_id_within_limit k)) [
      | inl fine ↦
          let here = set k v (delete k m) in
          rw (fine, write_cache)
            (
              evict-IsUnique max_entries here
                  (set-IsUnique k v (delete k m) (delete-IsUnique k m u)),
              length-evict-le max_entries here,
            )
      | inr long ↦ rw (long, write_cache) (u, l)
    ]

pub read_cache-IsCache :
    (max_entries now : ℕ) (k : String) (m : List (String × CacheValue))
    → IsCache max_entries m
    → IsCache max_entries (read_cache k now m).1
unfolding read_cache
read_cache-IsCache max_entries now k m (u, l) = elim (Option-cases (get k m)) [
  | inl missing ↦ rw (missing, read_cache) (u, l)
  | inr (v, e) ↦
      let kept = delete-IsUnique k m u in
      let one_less = length-delete_present k m {v = v} u e in
      let gone = get-delete k k m in
      elim (Bool-cases (leb v.expires_at now)) [
        | inl over ↦ rw (e, read_cache, over) (kept, omega (arith, one_less))
        | inr live ↦
            rw (e, read_cache, live)
              (
                set-IsUnique k v (delete k m) kept,
                ground (arith, length-set k v (delete k m), gone, (eq_iff k k).1 refl, one_less),
              )
      ]
]

pub length-abort_all :
    (flights : List (String × Bool)) → length (abort_all flights) ≡ length flights
unfolding abort_all
length-abort_all [] = refl
length-abort_all ((k, b) ∷ flights) = ap suc (length-abort_all flights)

get-abort_all :
    (k : String) (flights : List (String × Bool))
    → get k flights ≡ none
    → get k (abort_all flights) ≡ none
unfolding abort_all get
get-abort_all k [] h = h
get-abort_all k ((j, b) ∷ flights) h = ground (arith, get-abort_all k flights)

pub abort_all-IsUnique :
    (flights : List (String × Bool)) → IsUnique flights → IsUnique (abort_all flights)
unfolding abort_all
abort_all-IsUnique [] u = tt
abort_all-IsUnique ((k, b) ∷ flights) u =
    (get-abort_all k flights u.0, abort_all-IsUnique flights u.1)

evict-fits :
    (max_entries : ℕ) (m : List (String × CacheValue))
    → length m ≤ max_entries
    → evict max_entries m ≡ m
unfolding evict
evict-fits max_entries [] h = refl
evict-fits max_entries (e ∷ m) h = ground arith

-- A write for another key keeps an entry where there is room for one more.
pub write_cache-keeps :
    (max_entries : ℕ) (id k : String) (v : CacheValue) (m : List (String × CacheValue))
    → (k == id) ≡ false
    → suc (length m) ≤ max_entries
    → (get id (write_cache max_entries k v m) ≡ get id m)
      × (length (write_cache max_entries k v m) ≤ suc (length m))
unfolding write_cache
write_cache-keeps max_entries id k v m other room =
    let here = set k v (delete k m) in
    let size : length here ≤ suc (length m) =
      ground (arith, length-set k v (delete k m), length-delete-le k m) in
    let whole = evict-fits max_entries here (omega (arith, size, room)) in
    let found : get id here ≡ get id m =
      ground (arith, get-delete id k m, get-set id k v (delete k m)) in
    elim (Bool-cases (is_oauth_client_id_within_limit k)) [
      | inl fine ↦ (ground (arith, whole, found), ground (arith, whole, size))
      | inr long ↦ (ground arith, ground arith)
    ]

-- A read of any key keeps an entry that is not over.
pub read_cache-keeps :
    (id k : String) (now : ℕ) (v : CacheValue) (m : List (String × CacheValue))
    → get id m ≡ some v
    → now < v.expires_at
    → get id (read_cache k now m).1 ≡ some v
unfolding read_cache
read_cache-keeps id k now v m held live = elim (Bool-cases (k == id)) [
  | inl e ↦
      let same : get k m ≡ some v = ap (λ x. get x m) ((eq_iff k id).0 e) ∙ held in
      ground (arith, same, get-set id k v (delete k m))
  | inr e ↦ elim (Option-cases (get k m)) [
    | inl missing ↦ ground arith
    | inr (w, there) ↦ ground (arith, get-delete id k m, get-set id k w (delete k m))
  ]
]
