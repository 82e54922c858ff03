-- ===== src/PlanCache/Answers.antt =====
-- What the plan cache answers after what was stored and asked.
use querix_semantic_search.Prelude.{
  ℕ, ◌+◌, ◌≤◌, ◌<◌, ◌≡◌, ◌≢◌, refl, ap, ◌∙◌, inl, inr, Bool, true, false, Option, none, some, [],
  ◌∷◌, ◌++◌, arith, ltb, Bool-cases, Option-cases, length, length-append, append_assoc, Text,
  text_eq, text_eq_iff, text_eq_refl, text_eq_comm, lookup,
}
use querix_semantic_search.PlanCache.Cache.{
  CachedPlan, PlanCache, disabled, remove, to_end, evict, cache_memory_plan, shared_plan, ask,
  cached_plan, cache_plan,
}
use querix_semantic_search.PlanCache.Recency.{
  lookup-remove, lookup-evict_last, lookup-evict_two, length-evict-le, length-remove-le,
  length-remove-lt, remove-append,
}

module _ {P : Type 0} where
  abbrev entry : ℕ → P → CachedPlan P
  entry expires_at plan = record { expires_at = expires_at; plan = plan }

  enabled-size : (c : PlanCache P) → disabled c ≡ false → 0 < c.size
  enabled-size c h = ground arith

  lookup-stored :
      (key : Text) (plan : P) (now : ℕ) (c : PlanCache P)
      → disabled c ≡ false
      → lookup key (cache_memory_plan key plan now c).entries ≡ some (entry (now + c.ttl) plan)
  unfolding cache_memory_plan
  lookup-stored key plan now c on =
      lookup-evict_last c.size key (entry (now + c.ttl) plan) (remove key c.entries)
        (enabled-size c on) (lookup-remove key key c.entries ∙ rw (text_eq_refl key) refl)

  found-answers :
      (shared : Option (Text → Option P)) (key : Text) (now stored : ℕ) (c : PlanCache P)
      (e : CachedPlan P)
      → disabled c ≡ false
      → lookup key c.entries ≡ some e
      → now < e.expires_at
      → cached_plan shared key now stored c
        ≡ (record c { entries = to_end key e c.entries }, some e.plan)
  unfolding cached_plan remove
  found-answers shared key now stored c e on found early =
      let good : ltb now e.expires_at ≡ true = (ground arith) in
      rw (cached_plan, on, found, good) refl

  -- A plan that was just stored in an enabled cache is the answer of the next look-up of its key, if
  -- that comes before it expires, whatever the shared cache holds.
  pub stored_plan_next :
      (shared : Option (Text → Option P)) (has_shared : Bool) (key : Text) (plan : P)
      (now later stored : ℕ) (c : PlanCache P)
      → disabled c ≡ false
      → later < now + c.ttl
      → (cached_plan shared key later stored (cache_plan has_shared key plan now c).0).1 ≡ some plan
  unfolding cache_plan cache_memory_plan
  stored_plan_next shared has_shared key plan now later stored c on early =
      let c1 = cache_memory_plan key plan now c in
      rw (cache_plan, on)
        (ap (λ (r : PlanCache P × Option P). r.1)
          (found-answers shared key later stored c1 (entry (now + c.ttl) plan) on
            (lookup-stored key plan now c on) early))

  -- In a cache of at least two plans, a plan that was just the answer is still the answer, until it
  -- expires, after a plan of another key has been stored: the eviction took an older one.
  pub used_plan_survives :
      (shared : Option (Text → Option P)) (has_shared : Bool) (key other : Text) (e : CachedPlan P)
      (plan : P) (now stored then_ later : ℕ) (c : PlanCache P)
      → disabled c ≡ false
      → 1 < c.size
      → key ≢ other
      → lookup key c.entries ≡ some e
      → now < e.expires_at
      → later < e.expires_at
      → (cached_plan shared key later stored
          (cache_plan has_shared other plan then_ (cached_plan shared key now stored c).0).0).1
        ≡ some e.plan
  unfolding cache_plan cache_memory_plan
  used_plan_survives shared has_shared key other e plan now stored then_ later c on two ne found
        fresh early =
      let hit = found-answers shared key now stored c e on found fresh in
      let c1 : PlanCache P = record c { entries = to_end key e c.entries } in
      let c2 = cache_memory_plan other plan then_ c1 in
      let apart : text_eq key other ≡ false = (ground (arith, (text_eq_iff key other).0, ne)) in
      let before = remove other (remove key c.entries) in
      let moved : remove other c1.entries ++ (other, entry (then_ + c.ttl) plan) ∷ []
          ≡ before ++ (key, e) ∷ (other, entry (then_ + c.ttl) plan) ∷ [] =
        (ap (λ es. es ++ (other, entry (then_ + c.ttl) plan) ∷ [])
            (remove-append other key e (remove key c.entries) apart)
          ∙ append_assoc before ((key, e) ∷ []) ((other, entry (then_ + c.ttl) plan) ∷ [])) in
      let gone : lookup key before ≡ none =
        (lookup-remove other key (remove key c.entries)
          ∙ rw (text_eq_comm other key, apart)
              (lookup-remove key key c.entries ∙ rw (text_eq_refl key) refl)) in
      let still : lookup key c2.entries ≡ some e =
        (ap (λ es. lookup key (evict c.size es)) moved
          ∙ lookup-evict_two c.size key other e (entry (then_ + c.ttl) plan) before two gone) in
      rw (hit, cache_plan, on)
        (ap (λ (r : PlanCache P × Option P). r.1)
          (found-answers shared key later stored c2 e on still early))

  shared-bound :
      (shared : Text → Option P) (key : Text) (stored : ℕ) (c : PlanCache P)
      → length c.entries ≤ c.size
      → length (shared_plan shared key stored c).0.entries ≤ c.size
  unfolding shared_plan cache_memory_plan
  shared-bound shared key stored c h = elim (Option-cases (shared key)) [
    | inl nothing ↦ rw (shared_plan, nothing) h
    | inr (plan, e) ↦
        rw (shared_plan, e)
          (length-evict-le c.size (to_end key (entry (stored + c.ttl) plan) c.entries))
  ]

  -- Neither a look-up nor a store lets the cache grow beyond its size.
  pub plan_cache_bounded :
      (shared : Option (Text → Option P)) (has_shared : Bool) (key : Text) (plan : P)
      (now stored : ℕ) (c : PlanCache P)
      → length c.entries ≤ c.size
      → (length (cached_plan shared key now stored c).0.entries ≤ c.size)
        × (length (cache_plan has_shared key plan now c).0.entries ≤ c.size)
  unfolding cache_plan cache_memory_plan cached_plan
  plan_cache_bounded shared has_shared key plan now stored c h = (looked, kept)
    where
      looked : length (cached_plan shared key now stored c).0.entries ≤ c.size
      looked = elim (Bool-cases (disabled c)) [
        | inl off ↦ rw (cached_plan, off) h
        | inr on ↦ elim (Option-cases (lookup key c.entries)) [
          | inl missing ↦ rw (cached_plan, on, missing) (shared-bound (ask shared) key stored c h)
          | inr (e, found) ↦ elim (Bool-cases (ltb now e.expires_at)) [
            | inl fresh ↦
                rw (cached_plan, on, found, fresh)
                  (omega (
                    arith,
                    h,
                    length-remove-lt key c.entries found,
                    length-append (remove key c.entries) ((key, e) ∷ []),
                  ))
            | inr stale ↦
                rw (cached_plan, on, found, stale)
                  (shared-bound (ask shared) key stored
                    (record c { entries = remove key c.entries })
                    (omega (arith, h, length-remove-le key c.entries)))
          ]
        ]
      ]

      kept : length (cache_plan has_shared key plan now c).0.entries ≤ c.size
      kept = elim (Bool-cases (disabled c)) [
        | inl off ↦ rw (cache_plan, off) h
        | inr on ↦
            rw (cache_plan, on)
              (length-evict-le c.size (to_end key (entry (now + c.ttl) plan) c.entries))
      ]
