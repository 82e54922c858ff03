-- ===== src/Limits/Bucket/Budget.antt =====
-- What each scope of the tenant limiter is granted over any run of calls.
use querix_semantic_search.Prelude.{
  ℕ, ◌+◌, ◌-◌, ◌*◌, ◌≤◌, ◌≡◌, inl, inr, Bool, true, false, ◌&&◌, Option, none, some, List, [], ◌∷◌,
  arith, if◌then◌else◌, Bool-cases, Option-cases, Text, text_eq, lookup, text_eq_iff,
}
use querix_semantic_search.Limits.Bucket.{Bucket, bucket_step, bucket_of, allow_memory}
use querix_semantic_search.Limits.Bucket.Steps.{
  span_add, bucket_step-tokens, lookup-allow_memory, allowed-allow_memory, pay,
}

-- Calls come with a scope and a time; each scope has its requests per minute and its burst.
abbrev pub Calls : Type 0
Calls = List (Text × ℕ)

abbrev pub Monotone : ℕ → Calls → Type 0
Monotone last [] = Unit
Monotone last ((scope, now) ∷ calls) = (last ≤ now) × Monotone now calls

abbrev pub end_of : ℕ → Calls → ℕ
end_of last [] = last
end_of last ((scope, now) ∷ calls) = end_of now calls

end_of-le : (last : ℕ) (calls : Calls) → Monotone last calls → last ≤ end_of last calls
end_of-le last [] m = omega arith
end_of-le last ((scope, now) ∷ calls) m = omega (arith, m.0, end_of-le now calls m.1)

module _ (u : ℕ) (policy : Text → ℕ × ℕ) (k : Text) where
  -- How many of the calls are granted to the scope `k`.
  unfoldable pub granted_to : Calls → List (Text × Bucket) → ℕ
  granted_to [] buckets = 0
  granted_to ((scope, now) ∷ calls) buckets =
      let (per_minute, burst) = policy scope in
      let (buckets', allowed, _) = allow_memory u scope per_minute burst now buckets in
      let later = granted_to calls buckets' in
      if allowed && text_eq scope k then later + 1 else later

  -- What a bucket can still pay for until `finish`.
  abbrev worth : ℕ → ℕ → Option Bucket → ℕ
  worth last finish none = (policy k).1 * u + (finish - last) * (policy k).0
  worth last finish (some b) = b.tokens + (finish - b.updated_at) * (policy k).0

  abbrev Before : ℕ → Option Bucket → Type 0
  Before last none = Unit
  Before last (some b) = b.updated_at ≤ last

  -- A call on the scope: what is granted and what is left is paid for by what there was.
  worth-step :
      (last now finish : ℕ) (buckets : List (Text × Bucket))
      → last ≤ now
      → now ≤ finish
      → Before last (lookup k buckets)
      → (let s =
            bucket_step u (policy k).0 (policy k).1 now (bucket_of u (policy k).1 now k buckets) in
          (if s.1 then u else 0) + (s.0.tokens + (finish - now) * (policy k).0)
          ≤ worth last finish (lookup k buckets))
  unfolding bucket_of
  worth-step last now finish buckets h h' v = elim (Option-cases (lookup k buckets)) [
    | inl new ↦
        rw (new, bucket_of)
          (ground (
            arith,
            bucket_step-tokens u pm burst now (record { tokens = burst * u; updated_at = now }),
            span_add pm last now finish h h',
          ))
    | inr (b, old) ↦
        rw (old, bucket_of)
          (let v' : b.updated_at ≤ last = (rw old at v) in
            ground (
              arith,
              bucket_step-tokens u pm burst now b,
              span_add pm b.updated_at now finish (omega arith) h',
            ))
  ]
    where
      pm : ℕ
      pm = (policy k).0

      burst : ℕ
      burst = (policy k).1

  Before-allow_memory :
      (last now : ℕ) (scope : Text) (buckets : List (Text × Bucket))
      → last ≤ now
      → Before last (lookup k buckets)
      → Before now (lookup k (allow_memory u scope (policy scope).0 (policy scope).1 now buckets).0)
  Before-allow_memory last now scope buckets h v = rw lookup-allow_memory (go (text_eq scope k))
    where
      s : Bucket × Bool × ℕ
      s =
          bucket_step u (policy scope).0 (policy scope).1 now
            (bucket_of u (policy scope).1 now scope buckets)

      later : (o : Option Bucket) → Before last o → Before now o
      later none b = tt
      later (some o) b = omega arith

      go : (same : Bool) → Before now (if same then some s.0 else lookup k buckets)
      go true = omega (
        arith,
        bucket_step-tokens u (policy scope).0 (policy scope).1 now
            (bucket_of u (policy scope).1 now scope buckets),
      )
      go false = later (lookup k buckets) v

  worth_mono :
      (last now finish : ℕ) (o : Option Bucket)
      → last ≤ now
      → now ≤ finish
      → worth now finish o ≤ worth last finish o
  worth_mono last now finish none h h' = omega (arith, span_add (policy k).0 last now finish h h')
  worth_mono last now finish (some b) h h' = omega arith

  worth-step_of_eq :
      (last now finish : ℕ) (scope : Text) (buckets : List (Text × Bucket))
      → scope ≡ k
      → last ≤ now
      → now ≤ finish
      → Before last (lookup k buckets)
      → (let s =
            bucket_step u
              (policy scope).0
              (policy scope).1
              now
              (bucket_of u (policy scope).1 now scope buckets) in
          (if s.1 then u else 0) + (s.0.tokens + (finish - now) * (policy k).0)
          ≤ worth last finish (lookup k buckets))
  worth-step_of_eq last now finish scope buckets e h h' v =
      rw e (worth-step last now finish buckets h h' v)

  granted_to-le :
      (last : ℕ) (calls : Calls) (buckets : List (Text × Bucket))
      → Monotone last calls
      → Before last (lookup k buckets)
      → granted_to calls buckets * u ≤ worth last (end_of last calls) (lookup k buckets)
  unfolding granted_to
  granted_to-le last [] buckets m v = omega arith
  granted_to-le last ((scope, now) ∷ calls) buckets m v =
      let finish = end_of now calls in
      let rest =
        granted_to-le now calls
          (allow_memory u scope (policy scope).0 (policy scope).1 now buckets).0 m.1
          (Before-allow_memory last now scope buckets m.0 v) in
      let rest' = (rw lookup-allow_memory at rest) in
      let stamp =
        (bucket_step-tokens u (policy scope).0 (policy scope).1 now
          (bucket_of u (policy scope).1 now scope buckets)).2 in
      elim (Bool-cases (text_eq scope k)) [
        | inl same ↦
            rw (same, allowed-allow_memory)
              (pay u _ _ _ _
                (worth-step_of_eq last now finish scope buckets ((text_eq_iff scope k).0 same) m.0
                  (end_of-le now calls m.1) v)
                (rw (same, stamp) at rest'))
        | inr other ↦
            ground
              (arith, worth_mono last now finish (lookup k buckets) m.0 (end_of-le now calls m.1))
      ]

-- From an empty store and over any calls of any scopes on a monotonic clock, a scope is granted at
-- most its burst and what its rate earns between the start and the last call; other scopes have no part in it.
pub granted_to_budget :
    (u : ℕ) (policy : Text → ℕ × ℕ) (k : Text) (start : ℕ) (calls : Calls)
    → Monotone start calls
    → granted_to u policy k calls [] * u
      ≤ (policy k).1 * u + (end_of start calls - start) * (policy k).0
unfolding lookup
granted_to_budget u policy k start calls m = granted_to-le u policy k start calls [] m tt
