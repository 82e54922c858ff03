-- ===== src/Limits/Bucket/Recovery.antt =====
-- Scopes do not disturb one another, and a refusal ends when its time has passed.
use querix_semantic_search.Prelude.{
  ℕ, ◌-◌, ◌*◌, ◌≤◌, ◌<◌, ◌≡◌, ap, ◌≢◌, ◌↔◌, Bool, true, none, some, List, arith, ok, Text, lookup,
  text_eq_iff, text_eq_refl,
}
use querix_semantic_search.Limits.Bucket.{
  Bucket, bucket_step, bucket_of, allow_memory, TokenBudget, granted, refused, spend_memory,
  allow_tokens,
}
use querix_semantic_search.Limits.Bucket.Steps.{
  bucket_step-tokens, lookup-allow_memory, allowed-allow_memory,
}

bucket_of-lookup :
    (u burst now : ℕ) (k : Text) (m m' : List (Text × Bucket))
    → lookup k m ≡ lookup k m'
    → bucket_of u burst now k m ≡ bucket_of u burst now k m'
unfolding bucket_of
bucket_of-lookup u burst now k m m' e = cc

-- A call of one scope does not change what the next call of another scope is answered.
pub allow_memory_isolated :
    (u : ℕ) (scope k : Text) (pm burst now pm' burst' now' : ℕ) (buckets : List (Text × Bucket))
    → scope ≢ k
    → (allow_memory u k pm' burst' now' (allow_memory u scope pm burst now buckets).0).1
      ≡ (allow_memory u k pm' burst' now' buckets).1
allow_memory_isolated u scope k pm burst now pm' burst' now' buckets ne =
    simp allowed-allow_memory (
      ap (λ (b : Bucket). (bucket_step u pm' burst' now' b).1)
        (bucket_of-lookup u burst' now' k _ _ unchanged))
  where
    unchanged : lookup k (allow_memory u scope pm burst now buckets).0 ≡ lookup k buckets
    unchanged =
        ground (arith, lookup-allow_memory u k scope pm burst now buckets, text_eq_iff scope k)

bucket_step-recovers :
    (u pm burst later : ℕ) (b : Bucket)
    → 0 < burst
    → u ≤ (later - b.updated_at) * pm
    → (bucket_step u pm burst later b).1 ≡ true
unfolding bucket_step
bucket_step-recovers u pm burst later b pos earned =
    let room : u ≤ burst * u = grind arith in ground arith

-- Whatever a call was answered, the same scope, with a positive burst, is granted one as soon as
-- its rate has earned a token since.
pub allow_memory_recovers :
    (u : ℕ) (k : Text) (pm burst now later : ℕ) (buckets : List (Text × Bucket))
    → 0 < burst
    → u ≤ (later - now) * pm
    → (allow_memory u k pm burst later (allow_memory u k pm burst now buckets).0).1 ≡ true
unfolding bucket_of
allow_memory_recovers u k pm burst now later buckets pos earned =
    rw (allowed-allow_memory, found, bucket_of)
      (bucket_step-recovers u pm burst later after.0 pos (rw stamp earned))
  where
    after : Bucket × Bool × ℕ
    after = bucket_step u pm burst now (bucket_of u burst now k buckets)

    stamp : after.0.updated_at ≡ now
    stamp = (bucket_step-tokens u pm burst now (bucket_of u burst now k buckets)).2

    found : lookup k (allow_memory u k pm burst now buckets).0 ≡ some after.0
    found = ground (arith, lookup-allow_memory u k k pm burst now buckets, text_eq_refl k)

-- When a call within one minute's budget is refused, the budget then holds at most one minute's
-- tokens, the hint is positive, and it is exact: the same call is refused again before that time
-- has passed, and granted once it has.
pub allow_tokens_exact :
    (u estimated now later r : ℕ) (t : TokenBudget) {t' : TokenBudget}
    → 0 < estimated
    → estimated ≤ t.tokens_per_minute
    → allow_tokens u none estimated now t ≡ ok (t', refused r)
    → (0 < r)
      × (t'.bucket.tokens ≤ t.tokens_per_minute * u)
      × ((allow_tokens u none estimated later t'
            ≡ ok ((spend_memory u estimated later t').0, granted))
          ↔ (r ≤ (later - now) * t.tokens_per_minute))
unfolding allow_tokens
allow_tokens_exact u estimated now later r t pos fits e =
    let room : estimated * u ≤ t.tokens_per_minute * u = grind arith in
    (ground arith, ground arith, (λ h. ground arith, λ h. ground arith))
