-- ===== src/Limits/Bucket.antt =====
-- The token buckets: `TenantRateLimiter` of src/core/rate_limit.py and `TokenBudgetLimiter` of
-- src/core/request_limit.py. Time is in clock ticks, and a token is `unit` parts, one part being
-- what one tick refills at a budget of one per minute: then `elapsed * budget / 60` is exact.
mod Steps
pub mod Budget
pub mod Recovery
use querix_semantic_search.Prelude.{
  ℕ, zero, suc, ◌+◌, ◌-◌, ◌*◌, ◌/◌, ◌%◌, ◌≤◌, ◌<◌, ◌≡◌, refl, sym, ap, ◌∙◌, ◌≢◌, ◌↔◌, ◌⊎◌, inl, inr,
  Bool, true, false, not, ◌&&◌, ◌||◌, Option, none, some, List, [], ◌∷◌, ◌++◌, map, arith, ltb, leb,
  ◌==◌, if◌then◌else◌, min, is_none, ltb→lt, lt→ltb, leb→le, ==_iff, ==_refl, Bool-cases,
  Option-cases, length, take, drop, keep, any, count, find, update_where, All, length-append,
  count-append, count-le-length, length-take-le, take-append-drop, All-append, All-map, Result, ok,
  err, ◌>>=◌, Text, text_eq, lookup, insert, text_eq_iff, text_eq_refl, lookup-insert,
}
use querix_semantic_search.Limits.Window.{LimitError, budget_not_positive, scope_required}

-- Parts of a token: 60 seconds of ticks.
abbrev pub unit : ℕ → ℕ
unit ticks_per_second = 60 * ticks_per_second

pub record Bucket : Type 0 where
  pub tokens : ℕ
  pub updated_at : ℕ

-- `min(capacity, tokens + max(now - updated_at, 0) * refill_per_second)`, at a capacity in parts.
unfoldable pub refill : ℕ → ℕ → ℕ → Bucket → Bucket
refill capacity per_minute now b = record {
  tokens = min capacity (b.tokens + (now - b.updated_at) * per_minute);
  updated_at = now;
}

module _ (u : ℕ) where
  -- The body of `_allow_memory` of the tenant limiter under the lock: the verdict, and the whole
  -- tokens that remain.
  unfoldable pub take_one : Bucket → Bucket × Bool × ℕ
  take_one b =
      if ltb b.tokens u
      then (b, false, b.tokens / u)
      else (record b { tokens = b.tokens - u }, true, (b.tokens - u) / u)

  unfoldable pub bucket_step : ℕ → ℕ → ℕ → Bucket → Bucket × Bool × ℕ
  unfolding take_one refill
  bucket_step per_minute burst now b = take_one (refill (burst * u) per_minute now b)

  -- The bucket of a scope; a new one is full.
  unfoldable pub bucket_of : ℕ → ℕ → Text → List (Text × Bucket) → Bucket
  bucket_of burst now scope buckets = elim (lookup scope buckets) [
    | none ↦ record { tokens = burst * u; updated_at = now }
    | some b ↦ b
  ]

  unfoldable pub allow_memory :
      Text → ℕ → ℕ → ℕ → List (Text × Bucket) → List (Text × Bucket) × Bool × ℕ
  unfolding bucket_of
  allow_memory scope per_minute burst now buckets =
      let (b, allowed, left) =
        bucket_step per_minute burst now (bucket_of burst now scope buckets) in
      (insert scope b buckets, allowed, left)

-- `f"{company_id}:{credential_digest}"`.
unfoldable pub scope_of : Text → Text → Text
scope_of company_id credential_digest = company_id ++ (b':' ∷ credential_digest)

-- `allow`: the Redis answer decides if there is one.
unfoldable pub allow :
    ℕ
    → Option (Option (Bool × ℕ))
    → Text
    → Text
    → ℕ
    → ℕ
    → ℕ
    → List (Text × Bucket)
    → List (Text × Bucket) × Bool × ℕ
unfolding allow_memory scope_of
allow u (some (some (allowed, left))) company digest per_minute burst now buckets =
    (buckets, allowed, left)
allow u _ company digest per_minute burst now buckets =
    allow_memory u (scope_of company digest) per_minute burst now buckets

pub record TokenBudget : Type 0 where
  pub tokens_per_minute : ℕ
  pub bucket : Bucket

unfoldable pub init : ℕ → ℕ → ℕ → Bool → Option Text → Result LimitError TokenBudget
init u tokens_per_minute now redis scope =
    if tokens_per_minute == 0
    then err budget_not_positive
    else if redis && is_none scope
    then err scope_required
    else ok (record {
      tokens_per_minute = tokens_per_minute;
      bucket = record { tokens = tokens_per_minute * u; updated_at = now };
    })

-- What `TokenBudgetLimiter.allow` returns. A hint is in ticks times `tokens_per_minute`, so that
-- `(estimated - tokens) / refill_per_second` is exact.
pub data Verdict : Type 0 where
  granted : Verdict
  refused : ℕ → Verdict

unfoldable pub spend : ℕ → TokenBudget → Bucket → TokenBudget × Verdict
spend want t b =
    if ltb b.tokens want
    then (record t { bucket = b }, refused (want - b.tokens))
    else (record t { bucket = record b { tokens = b.tokens - want } }, granted)

unfoldable pub spend_memory : ℕ → ℕ → ℕ → TokenBudget → TokenBudget × Verdict
unfolding refill spend
spend_memory u estimated now t =
    spend (estimated * u) t (refill (t.tokens_per_minute * u) t.tokens_per_minute now t.bucket)

pub data BudgetError : Type 0 where
  estimate_not_positive : BudgetError

-- `allow` of the token budget. More than a whole minute's budget is refused for 60 seconds, which
-- are `u` ticks.
unfoldable pub allow_tokens :
    ℕ → Option (Option Verdict) → ℕ → ℕ → TokenBudget → Result BudgetError (TokenBudget × Verdict)
unfolding spend_memory
allow_tokens u redis estimated now t =
    if estimated == 0
    then err estimate_not_positive
    else if ltb t.tokens_per_minute estimated
    then ok (t, refused (u * t.tokens_per_minute))
    else elim redis [
      | some (some answer) ↦ ok (t, answer)
      | _ ↦ ok (spend_memory u estimated now t)
    ]
