-- ===== src/OAuth/SourceLimit/Retry.antt =====
-- When the limiter of oauth/client-metadata-rate-limit.ts refuses, and that its advice is right.
use stellara.Prelude.{
  ℕ, ◌+◌, ◌-◌, ◌*◌, ◌≤◌, ◌<◌, none, some, String, ◌≡◌, refl, arith, inl, inr, leb, [], ◌∷◌,
  if◌then◌else◌, eq_iff, ◌∙◌, ap, sym,
}
use mathlib.Core.Option.{some-injective}
use stellara.Dict.{get, set, delete}
use stellara.Dict.Laws.{get-set, IsUnique, AllValues-get}
use stellara.OAuth.SourceLimit.{
  RateBucket, Buckets, SourceRateLimiter, Options, prune_expired_buckets, maybe_prune, admit,
  consume, retry_seconds,
}
use stellara.OAuth.SourceLimit.Bounds.{
  IsFair, IsBounded, consume_existing-cases, prune-get, consume-IsBounded,
}

-- Pruning removes exactly the buckets whose window is over.
pub get-prune :
    (now : ℕ) (k : String) (m : Buckets)
    → IsUnique m
    → get k (prune_expired_buckets now m)
      ≡ elim (get k m) [ none ↦ none | some b ↦ if leb b.reset_at now then none else some b ]
unfolding get prune_expired_buckets
get-prune now k [] u = refl
get-prune now k ((j, b) ∷ m) u =
    ground (arith, eq_iff j k, get-prune now k m u.1, prune-get now j m u.0)

module _ (o : Options) (ip : String) (now : ℕ) where
  admit-refused :
      (m : Buckets) (r : ℕ)
      → (admit o ip now m).0 ≡ some r
      → (b : RateBucket) × (get ip m ≡ some b)
        × (now < b.reset_at)
        × (o.max_per_minute ≤ b.count)
        × (r ≡ retry_seconds (b.reset_at - now))
        × ((admit o ip now m).1 ≡ set ip b (delete ip m))
  unfolding admit
  admit-refused m r h = elim (consume_existing-cases o.max_per_minute ip now m) [
    | inl e ↦ cc (rw e at h)
    | inr (b, found, live, inl (full, e)) ↦
        (b, found, live, full, some-injective _ _ (sym (rw e at h)), rw e)
    | inr (b, found, live, inr (room, e)) ↦ cc (rw e at h)
  ]

  admit-accepts :
      (m : Buckets)
      → ((b : RateBucket) → get ip m ≡ some b → b.reset_at ≤ now)
      → (admit o ip now m).0 ≡ none
  unfolding admit
  admit-accepts m h = elim (consume_existing-cases o.max_per_minute ip now m) [
    | inl e ↦ rw e
    | inr (b, found, live, inl (full, e)) ↦ absurd (omega (arith, h b found))
    | inr (b, found, live, inr (room, e)) ↦ rw e
  ]

  found-maybe_prune :
      (s : SourceRateLimiter) (b : RateBucket)
      → IsUnique s.buckets
      → get ip (maybe_prune o now s).buckets ≡ some b
      → get ip s.buckets ≡ some b
  unfolding maybe_prune
  found-maybe_prune s b u h = ground (arith, get-prune now ip s.buckets u)

  -- A request is refused only while the bucket of its own address is full and its window open; the
  -- advice is between one second and a minute, and the refusal leaves that bucket as it was.
  pub consume-refused :
      (s : SourceRateLimiter) (r : ℕ)
      → IsBounded o now s.buckets
      → (consume o ip now s).0 ≡ some r
      → (b : RateBucket) × (get ip s.buckets ≡ some b)
        × (now < b.reset_at)
        × (o.max_per_minute ≤ b.count)
        × (b.reset_at ≤ now + r * 1000)
        × (1 ≤ r)
        × (r ≤ 60)
        × (get ip (consume o ip now s).1.buckets ≡ some b)
  unfolding consume
  consume-refused s r w h =
      let (b, found, live, full, advice, left) = admit-refused (maybe_prune o now s).buckets r h in
      let held = found-maybe_prune s b w.unique found in
      let fair = AllValues-get (IsFair o.max_per_minute now) ip s.buckets w.fair held in
      (
        b,
        held,
        live,
        full,
        omega (arith, advice),
        omega (arith, advice),
        omega (arith, advice, fair.1),
        rw left (
            ground
              (arith, get-set ip ip b (delete ip (maybe_prune o now s).buckets), eq_iff ip ip)),
      )

  consume-accepts :
      (s : SourceRateLimiter)
      → IsUnique s.buckets
      → ((b : RateBucket) → get ip s.buckets ≡ some b → b.reset_at ≤ now)
      → (consume o ip now s).0 ≡ none
  unfolding consume
  consume-accepts s u h =
      admit-accepts (maybe_prune o now s).buckets (λ b e. h b (found-maybe_prune s b u e))

-- With room for at least one bucket and at least one request and bounded buckets, an address that is
-- refused with a number of seconds is admitted by the next call of the limiter, if that call is this
-- address's and comes after so many seconds.
pub retry_suffices :
    (o : Options) (ip : String) (now later : ℕ) (s : SourceRateLimiter) (r : ℕ)
    → 0 < o.max_entries
    → 0 < o.max_per_minute
    → IsBounded o now s.buckets
    → (consume o ip now s).0 ≡ some r
    → now + r * 1000 ≤ later
    → (consume o ip later (consume o ip now s).1).0 ≡ none
retry_suffices o ip now later s r h k w refused wait =
    let (b, _, _, _, over, _, _, held) = consume-refused o ip now s r w refused in
    consume-accepts o ip later (consume o ip now s).1 (consume-IsBounded o ip now s h k w).unique
      (λ c e.
        omega
          (arith, over, ap (λ (x : RateBucket). x.reset_at) (some-injective _ _ (sym e ∙ held))))
