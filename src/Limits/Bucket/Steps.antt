-- ===== src/Limits/Bucket/Steps.antt =====
-- One call of a bucket limiter: what it spends, and which bucket it touches.
use querix_semantic_search.Prelude.{
  ℕ, ◌+◌, ◌-◌, ◌*◌, ◌≤◌, ◌≡◌, refl, ap, Bool, true, false, ◌&&◌, some, List, arith, if◌then◌else◌,
  Text, text_eq, lookup, lookup-insert,
}
use querix_semantic_search.Limits.Bucket.{Bucket, bucket_step, bucket_of, allow_memory}

-- Refills over adjacent spans add up.
pub span_add : (p a b c : ℕ) → a ≤ b → b ≤ c → (b - a) * p + (c - b) * p ≡ (c - a) * p
span_add p a b c h k =
    let e : (b - a) + (c - b) ≡ c - a = omega arith in omega (arith, ap (λ (t : ℕ). t * p) e)

-- A step spends what it grants, and never holds more than the burst.
pub bucket_step-tokens :
    (u pm burst now : ℕ) (b : Bucket)
    → ((bucket_step u pm burst now b).0.tokens + (if (bucket_step u pm burst now b).1 then u else 0)
        ≤ b.tokens + (now - b.updated_at) * pm)
      × ((bucket_step u pm burst now b).0.tokens ≤ burst * u)
      × ((bucket_step u pm burst now b).0.updated_at ≡ now)
unfolding bucket_step
bucket_step-tokens u pm burst now b = ground arith

pub pay :
    (u g : ℕ) (allowed : Bool) (w total : ℕ)
    → (if allowed then u else 0) + w ≤ total
    → g * u ≤ w
    → (if allowed && true then g + 1 else g) * u ≤ total
pay u g true w total h k = grind arith
pay u g false w total h k = omega arith

-- Only the bucket of the scope that calls changes.
pub lookup-allow_memory :
    (u : ℕ) (k scope : Text) (pm burst now : ℕ) (buckets : List (Text × Bucket))
    → lookup k (allow_memory u scope pm burst now buckets).0 ≡ (
        if text_eq scope k
        then some (bucket_step u pm burst now (bucket_of u burst now scope buckets)).0
        else lookup k buckets)
unfolding allow_memory
lookup-allow_memory u k scope pm burst now buckets = lookup-insert scope k _ buckets

pub allowed-allow_memory :
    (u : ℕ) (scope : Text) (pm burst now : ℕ) (buckets : List (Text × Bucket))
    → (allow_memory u scope pm burst now buckets).1
      ≡ (bucket_step u pm burst now (bucket_of u burst now scope buckets)).1
unfolding allow_memory
allowed-allow_memory u scope pm burst now buckets = refl
