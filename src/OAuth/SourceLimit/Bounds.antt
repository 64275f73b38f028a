-- ===== src/OAuth/SourceLimit/Bounds.antt =====
-- The limiter of oauth/client-metadata-rate-limit.ts never holds more buckets than it may, nor a
-- bucket over its limit.
use stellara.Prelude.{
  ℕ, ◌+◌, ◌-◌, ◌≤◌, ◌<◌, none, some, String, ◌≡◌, refl, arith, length, Bool-cases, Option-cases,
  inl, inr, leb, [], ◌∷◌, ◌⊎◌, ◌||◌,
}
use stellara.Dict.{get, set, delete}
use stellara.Dict.Laws.{
  IsUnique, set-IsUnique, delete-IsUnique, length-set, length-delete_present, length-delete-le,
  AllValues, AllValues-set, AllValues-delete, AllValues-get,
}
use stellara.OAuth.SourceLimit.{
  RateBucket, Buckets, SourceRateLimiter, Options, rate_window_ms, matched, unmatched,
  prune_expired_buckets, ensure_capacity, consume_existing, maybe_prune, admit, consume,
  retry_seconds, prune_interval,
}

-- A bucket within its limit whose window ends at most one window after `now`.
abbrev pub IsFair : ℕ → ℕ → RateBucket → Type 0
IsFair limit now b = (b.count ≤ limit) × (b.reset_at ≤ now + rate_window_ms)

-- The invariant of the buckets at a time.
pub record IsBounded (o : Options) (now : ℕ) (m : Buckets) : Type 0 where
  pub unique : IsUnique m
  pub sized : length m ≤ o.max_entries
  pub fair : AllValues (IsFair o.max_per_minute now) m

pub prune-get :
    (now : ℕ) (k : String) (m : Buckets)
    → get k m ≡ none
    → get k (prune_expired_buckets now m) ≡ none
unfolding get prune_expired_buckets
prune-get now k [] h = refl
prune-get now k ((j, b) ∷ m) h = ground (arith, prune-get now k m)

prune-IsUnique : (now : ℕ) (m : Buckets) → IsUnique m → IsUnique (prune_expired_buckets now m)
unfolding prune_expired_buckets
prune-IsUnique now [] u = tt
prune-IsUnique now ((j, b) ∷ m) u = ground (arith, prune-IsUnique now m u.1, prune-get now j m u.0)

length-prune-le : (now : ℕ) (m : Buckets) → length (prune_expired_buckets now m) ≤ length m
unfolding prune_expired_buckets
length-prune-le now [] = omega arith
length-prune-le now ((j, b) ∷ m) = ground (arith, length-prune-le now m)

module _ {κ} (P : RateBucket → Type κ) where
  prune-AllValues :
      (now : ℕ) (m : Buckets) → AllValues P m → AllValues P (prune_expired_buckets now m)
  unfolding prune_expired_buckets
  prune-AllValues now [] a = tt
  prune-AllValues now ((j, b) ∷ m) a = elim (Bool-cases (leb b.reset_at now)) [
    | inl e ↦ rw e (prune-AllValues now m a.1)
    | inr e ↦ rw e (a.0, prune-AllValues now m a.1)
  ]

  capacity-AllValues : (n : ℕ) (m : Buckets) → AllValues P m → AllValues P (ensure_capacity n m)
  unfolding ensure_capacity
  capacity-AllValues n [] a = tt
  capacity-AllValues n (e ∷ m) a = elim (Bool-cases (leb n (length (e ∷ m)))) [
    | inl full ↦ rw full (capacity-AllValues n m a.1)
    | inr room ↦ rw room a
  ]

capacity-IsUnique : (n : ℕ) (m : Buckets) → IsUnique m → IsUnique (ensure_capacity n m)
unfolding ensure_capacity
capacity-IsUnique n [] u = tt
capacity-IsUnique n ((j, b) ∷ m) u = elim (Bool-cases (leb n (length ((j, b) ∷ m)))) [
  | inl full ↦ rw full (capacity-IsUnique n m u.1)
  | inr room ↦ rw room u
]

-- Afterwards there is room for one more entry.
length-capacity-lt : (n : ℕ) (m : Buckets) → 0 < n → length (ensure_capacity n m) < n
unfolding ensure_capacity
length-capacity-lt n [] h = h
length-capacity-lt n (e ∷ m) h = ground (arith, length-capacity-lt n m h)

length-set-le : (k : String) (b : RateBucket) (m : Buckets) → length (set k b m) ≤ length m + 1
length-set-le k b m = ground (arith, length-set k b m)

module _ (o : Options) (ip : String) (now : ℕ) (m : Buckets) (w : IsBounded o now m) where
  prune-IsBounded : IsBounded o now (prune_expired_buckets now m)
  prune-IsBounded = record {
    unique = prune-IsUnique now m w.unique;
    sized = omega (arith, length-prune-le now m, w.sized);
    fair = prune-AllValues (IsFair o.max_per_minute now) now m w.fair;
  }

  delete-IsBounded : IsBounded o now (delete ip m)
  delete-IsBounded = record {
    unique = delete-IsUnique ip m w.unique;
    sized = omega (arith, length-delete-le ip m, w.sized);
    fair = AllValues-delete (IsFair o.max_per_minute now) ip m w.fair;
  }

  set-IsBounded :
      (b : RateBucket)
      → length m < o.max_entries
      → IsFair o.max_per_minute now b
      → IsBounded o now (set ip b m)
  set-IsBounded b room f = record {
    unique = set-IsUnique ip b m w.unique;
    sized = omega (arith, length-set-le ip b m);
    fair = AllValues-set (IsFair o.max_per_minute now) ip b m w.fair f;
  }

  capacity-IsBounded : 0 < o.max_entries → IsBounded o now (ensure_capacity o.max_entries m)
  capacity-IsBounded h = record {
    unique = capacity-IsUnique o.max_entries m w.unique;
    sized = omega (arith, length-capacity-lt o.max_entries m h);
    fair = capacity-AllValues (IsFair o.max_per_minute now) o.max_entries m w.fair;
  }

-- The bucket that `consumeExisting` leaves for a request that it matches.
abbrev pub counted : RateBucket → RateBucket
counted b = record b { count = b.count + 1 }

-- What `consumeExisting` does on each branch.
pub consume_existing-cases :
    (limit : ℕ) (ip : String) (now : ℕ) (m : Buckets)
    → (consume_existing limit ip now m ≡ (unmatched, delete ip m))
      ⊎ ((b : RateBucket) × (get ip m ≡ some b)
          × (now < b.reset_at)
          × (((limit ≤ b.count)
                × (consume_existing limit ip now m
                    ≡ (matched (some (retry_seconds (b.reset_at - now))), set ip b (delete ip m))))
              ⊎ ((b.count < limit)
                  × (consume_existing limit ip now m
                      ≡ (matched none, set ip (counted b) (delete ip m))))))
unfolding consume_existing
consume_existing-cases limit ip now m = elim (Option-cases (get ip m)) [
  | inl missing ↦ inl (rw (missing, consume_existing))
  | inr (b, found) ↦ elim (Bool-cases (leb b.reset_at now)) [
    | inl over ↦ inl (rw (found, consume_existing) (rw over))
    | inr live ↦ elim (Bool-cases (leb limit b.count)) [
      | inl full ↦ inr (b, found, ground arith, inl (ground arith, ground arith))
      | inr room ↦ inr (b, found, ground arith, inr (ground arith, ground arith))
    ]
  ]
]

module _ (o : Options) (ip : String) (now : ℕ) (m : Buckets) (w : IsBounded o now m) where
  room_after_delete : {b : RateBucket} → get ip m ≡ some b → length (delete ip m) < o.max_entries
  room_after_delete found = omega (arith, length-delete_present ip m w.unique found, w.sized)

  admit-IsBounded : 0 < o.max_entries → 0 < o.max_per_minute → IsBounded o now (admit o ip now m).1
  unfolding admit
  admit-IsBounded h k = elim (consume_existing-cases o.max_per_minute ip now m) [
    | inl e ↦ rw e (
        set-IsBounded o ip now _ (capacity-IsBounded o ip now _ (delete-IsBounded o ip now m w) h) _
          (length-capacity-lt o.max_entries (delete ip m) h) (omega arith))
    | inr (b, found, live, inl (full, e)) ↦ rw e (
        set-IsBounded o ip now _ (delete-IsBounded o ip now m w) b (room_after_delete found)
          (AllValues-get (IsFair o.max_per_minute now) ip m w.fair found))
    | inr (b, found, live, inr (room, e)) ↦ rw e (
        set-IsBounded o ip now _ (delete-IsBounded o ip now m w) (counted b)
          (room_after_delete found)
          (omega arith, (AllValues-get (IsFair o.max_per_minute now) ip m w.fair found).1))
  ]

-- With room for at least one bucket and at least one request, every call keeps the map within its
-- capacity, with one bucket for an address, none counted over the limit and none open for longer
-- than a window.
pub consume-IsBounded :
    (o : Options) (ip : String) (now : ℕ) (s : SourceRateLimiter)
    → 0 < o.max_entries
    → 0 < o.max_per_minute
    → IsBounded o now s.buckets
    → IsBounded o now (consume o ip now s).1.buckets
unfolding consume maybe_prune
consume-IsBounded o ip now s h k w =
    elim (Bool-cases
      (leb prune_interval (s.misses_since_prune + 1) || leb o.max_entries (length s.buckets))) [
        | inl prune ↦
            rw prune (admit-IsBounded o ip now _ (prune-IsBounded o ip now s.buckets w) h k)
        | inr keep ↦ rw keep (admit-IsBounded o ip now _ w h k)
      ]
