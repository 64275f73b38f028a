-- ===== src/OAuth/Clients/Quota.antt =====
-- The quota of oauth/clients.ts over a history of registrations from many addresses.
use text.Mathlib.Text.{◌==◌}
use stellara.Prelude.{
  ℕ, ◌+◌, ◌≤◌, ◌<◌, List, [], ◌∷◌, Option, none, some, String, if◌then◌else◌, ◌≡◌, arith, eq_iff,
  All, Option-cases, Bool-cases, inl, inr, leb, refl, false, ◌∙◌,
}
use stellara.Dict.{get}
use stellara.Dict.Laws.{get-set}
use stellara.OAuth.Clients.{RateBucketEntry, Buckets, one_hour_ms, consume_bucket}

-- A registration attempt: its address and its time.
abbrev pub Attempt : Type 0
Attempt = String × ℕ

abbrev allowed : Option ℕ → ℕ
allowed none = 1
allowed (some seconds) = 0

-- The attempts of one address that a history allows.
pub allowed_of : ℕ → String → List Attempt → Buckets → ℕ
allowed_of limit ip [] buckets = 0
allowed_of limit ip ((from, now) ∷ rest) buckets =
    let (decision, left) = consume_bucket limit from now buckets in
    (if from == ip then allowed decision else 0) + allowed_of limit ip rest left

-- The address has no bucket, or one whose window is over.
abbrev pub IsClosed : String → ℕ → Buckets → Type 0
IsClosed ip now buckets = elim (get ip buckets) [ none ↦ Unit | some b ↦ b.reset_at ≤ now ]

IsClosed-mono :
    (ip : String) (now later : ℕ) (buckets : Buckets)
    → now ≤ later
    → IsClosed ip now buckets
    → IsClosed ip later buckets
IsClosed-mono ip now later buckets le h = ground arith

allowed-le : (o : Option ℕ) → allowed o ≤ 1
allowed-le none = omega arith
allowed-le (some n) = omega arith

All-within :
    (start now : ℕ) (attempts : List Attempt)
    → start ≤ now
    → All (λ a. (start ≤ a.1) × (a.1 < start + one_hour_ms)) attempts
    → All (λ a. a.1 < now + one_hour_ms) attempts
All-within start now [] le h = tt
All-within start now (a ∷ rest) le h = (omega arith, All-within start now rest le h.1)

module _ (limit : ℕ) (ip : String) where
  consume-others :
      (from : String) (now : ℕ) (buckets : Buckets)
      → (from == ip) ≡ false
      → get ip (consume_bucket limit from now buckets).1 ≡ get ip buckets
  unfolding consume_bucket
  consume-others from now buckets h = elim (Option-cases (get from buckets)) [
    | inl missing ↦ rw (missing, consume_bucket) (get-set ip from _ buckets ∙ rw h)
    | inr (b, found) ↦ ground (
      arith,
      found,
      get-set ip from (record { count = 1; reset_at = now + one_hour_ms }) buckets,
      get-set ip from (record { count = b.count + 1; reset_at = b.reset_at }) buckets,
    )
  ]

  -- While the window is open the bucket counts the attempts that are allowed, up to the limit.
  consume-open :
      (now : ℕ) (buckets : Buckets) (b : RateBucketEntry)
      → get ip buckets ≡ some b
      → now < b.reset_at
      → b.count ≤ limit
      → (b' : RateBucketEntry) × (get ip (consume_bucket limit ip now buckets).1 ≡ some b')
        × (allowed (consume_bucket limit ip now buckets).0 + b.count ≡ b'.count)
        × (b'.count ≤ limit)
        × (b'.reset_at ≡ b.reset_at)
  unfolding consume_bucket
  consume-open now buckets b found live le = elim (Bool-cases (leb limit b.count)) [
    | inl full ↦ (b, ground arith, ground arith, le, refl)
    | inr room ↦ (
      record { count = b.count + 1; reset_at = b.reset_at },
      ground (
        arith,
        get-set ip ip (record { count = b.count + 1; reset_at = b.reset_at }) buckets,
        (eq_iff ip ip).1 refl,
      ),
      ground arith,
      ground arith,
      refl,
    )
  ]

  -- With no open bucket an attempt opens one.
  consume-fresh :
      (now : ℕ) (buckets : Buckets)
      → IsClosed ip now buckets
      → get ip (consume_bucket limit ip now buckets).1
        ≡ some (record { count = 1; reset_at = now + one_hour_ms })
  unfolding consume_bucket
  consume-fresh now buckets closed = elim (Option-cases (get ip buckets)) [
    | inl missing ↦
        rw (missing, consume_bucket) (get-set ip ip _ buckets ∙ rw ((eq_iff ip ip).1 refl))
    | inr (b, found) ↦
        let over : b.reset_at ≤ now = rw (found, IsClosed) at closed in
        ground (
          arith,
          get-set ip ip (record { count = 1; reset_at = now + one_hour_ms }) buckets,
          (eq_iff ip ip).1 refl,
        )
  ]

  -- With an open bucket, the attempts within its window are bounded by what is left of the quota.
  allowed_of-open :
      (rest : List Attempt) (buckets : Buckets) (b : RateBucketEntry)
      → get ip buckets ≡ some b
      → b.count ≤ limit
      → All (λ a. a.1 < b.reset_at) rest
      → allowed_of limit ip rest buckets + b.count ≤ limit
  unfolding allowed_of
  allowed_of-open [] buckets b found le within = omega arith
  allowed_of-open ((from, now) ∷ rest) buckets b found le within = elim (Bool-cases (from == ip)) [
    | inl same ↦
        let mine : from ≡ ip = (eq_iff from ip).0 same in
        let (b', found', counted, le', reset) = consume-open now buckets b found within.0 le in
        let later =
          allowed_of-open rest (consume_bucket limit ip now buckets).1 b' found' le'
            (rw reset within.1) in
        rw same (rw mine (omega (arith, later, counted)))
    | inr other ↦
        let later =
          allowed_of-open rest (consume_bucket limit from now buckets).1 b
            (consume-others from now buckets other ∙ found) le within.1 in
        rw other (omega (arith, later))
  ]

  -- From a moment at which an address has no open window, at most `maxPerHour` of its registrations
  -- are allowed within the next hour, whatever other addresses do in between.
  pub allowed_of-hour :
      (start : ℕ) (attempts : List Attempt) (buckets : Buckets)
      → 0 < limit
      → IsClosed ip start buckets
      → All (λ a. (start ≤ a.1) × (a.1 < start + one_hour_ms)) attempts
      → allowed_of limit ip attempts buckets ≤ limit
  unfolding allowed_of
  allowed_of-hour start [] buckets h closed within = omega arith
  allowed_of-hour start ((from, now) ∷ rest) buckets h closed within =
      elim (Bool-cases (from == ip)) [
        | inl same ↦
            let mine : from ≡ ip = (eq_iff from ip).0 same in
            let opened =
              consume-fresh now buckets (IsClosed-mono ip start now buckets within.0.0 closed) in
            let later =
              allowed_of-open rest (consume_bucket limit ip now buckets).1
                (record { count = 1; reset_at = now + one_hour_ms }) opened h
                (All-within start now rest within.0.0 within.1) in
            rw same
              (rw mine (omega (arith, later, allowed-le (consume_bucket limit ip now buckets).0)))
        | inr other ↦
            let later =
              allowed_of-hour start rest (consume_bucket limit from now buckets).1 h
                (rw (consume-others from now buckets other, IsClosed) closed) within.1 in
            rw other (omega (arith, later))
      ]
