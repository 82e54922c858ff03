-- ===== src/PlanCache/Cache.antt =====
-- `_cached_plan`, `_cache_memory_plan` and `_cache_plan` of src/search/engine_support.py. Entries
-- stand from the least to the most recently used, as in the `OrderedDict`. `shared` is what the
-- shared cache, if there is one, answers.
use querix_semantic_search.Prelude.{
  ℕ, suc, ◌+◌, Bool, ◌||◌, Option, none, some, List, [], ◌∷◌, ◌++◌, ltb, ◌==◌, if◌then◌else◌,
  length, Text, text_eq, lookup,
}

pub record CachedPlan (P : Type 0) : Type 0 where
  pub expires_at : ℕ
  pub plan : P

pub record PlanCache (P : Type 0) : Type 0 where
  pub size : ℕ
  pub ttl : ℕ
  pub entries : List (Text × CachedPlan P)

module _ {P : Type 0} where
  -- `QUERY_PLAN_CACHE_SIZE <= 0 or QUERY_PLAN_CACHE_TTL_SECONDS <= 0`.
  abbrev pub disabled : PlanCache P → Bool
  disabled c = c.size == 0 || c.ttl == 0

  -- `del cache[key]`.
  unfoldable pub remove : Text → List (Text × CachedPlan P) → List (Text × CachedPlan P)
  remove key [] = []
  remove key ((k, v) ∷ es) =
      let rest = remove key es in if text_eq k key then rest else (k, v) ∷ rest

  -- `move_to_end` of a key that has, or has just been given, this value.
  abbrev pub to_end : Text → CachedPlan P → List (Text × CachedPlan P) → List (Text × CachedPlan P)
  to_end key v es = remove key es ++ (key, v) ∷ []

  -- `while len(cache) > size: cache.popitem(last=False)`.
  unfoldable pub evict : ℕ → List (Text × CachedPlan P) → List (Text × CachedPlan P)
  evict size [] = []
  evict size (e ∷ es) =
      let rest = evict size es in if ltb size (suc (length es)) then rest else e ∷ es

  unfoldable pub cache_memory_plan : Text → P → ℕ → PlanCache P → PlanCache P
  unfolding remove evict
  cache_memory_plan key plan now c = record c {
    entries =
        evict c.size (to_end key (record { expires_at = now + c.ttl; plan = plan }) c.entries);
  }

  -- The part after the memory: the shared cache, whose answer goes into the memory.
  unfoldable pub shared_plan : (Text → Option P) → Text → ℕ → PlanCache P → PlanCache P × Option P
  unfolding cache_memory_plan
  shared_plan shared key stored c = elim (shared key) [
    | none ↦ (c, none)
    | some plan ↦ (cache_memory_plan key plan stored c, some plan)
  ]

  abbrev pub ask : Option (Text → Option P) → Text → Option P
  ask none key = none
  ask (some f) key = f key

  -- `_cached_plan`; the clock is read at the look-up and when a shared plan is stored.
  unfoldable pub cached_plan :
      Option (Text → Option P) → Text → ℕ → ℕ → PlanCache P → PlanCache P × Option P
  unfolding lookup remove shared_plan
  cached_plan shared key now stored c =
      if disabled c then (c, none) else elim (lookup key c.entries) [
        | none ↦ shared_plan (ask shared) key stored c
        | some cached ↦
            if ltb now cached.expires_at
            then (record c { entries = to_end key cached c.entries }, some cached.plan)
            else shared_plan (ask shared) key stored (record c { entries = remove key c.entries })
      ]

  -- `_cache_plan`, and what it writes to the shared cache, if there is one.
  unfoldable pub cache_plan : Bool → Text → P → ℕ → PlanCache P → PlanCache P × Option (Text × P)
  unfolding cache_memory_plan
  cache_plan has_shared key plan now c =
      if disabled c
      then (c, none)
      else (cache_memory_plan key plan now c, if has_shared then some (key, plan) else none)
