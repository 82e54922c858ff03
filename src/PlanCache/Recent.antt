-- ===== src/PlanCache/Recent.antt =====
-- A stored plan, through the look-ups and the stores that follow.
use querix_semantic_search.Prelude.{
  ℕ, suc, ◌+◌, ◌≤◌, ◌<◌, ◌≡◌, refl, sym, ap, ◌∙◌, inl, inr, Bool, true, false, Option, none, some,
  List, [], ◌∷◌, ◌++◌, arith, ltb, if◌then◌else◌, Bool-cases, Option-cases, length, length-append,
  append_assoc, All, Text, text_eq, text_eq_iff, text_eq_refl, text_eq_comm, lookup,
}
use mathlib.Core.Path.{subst}
use querix_semantic_search.PlanCache.Cache.{
  CachedPlan, PlanCache, disabled, remove, evict, cache_memory_plan, shared_plan, ask, cached_plan,
  cache_plan,
}
use querix_semantic_search.PlanCache.Recency.{lookup-remove, length-remove-le}

-- A look-up, with what the shared cache answers, or a store.
pub data Use (P : Type 0) : Type 0 where
  looks : (shared : Option (Text → Option P)) (key : Text) (now stored : ℕ) → Use P
  stores : (has_shared : Bool) (key : Text) (plan : P) (now : ℕ) → Use P

module _ {P : Type 0} where
  unfoldable pub use_of : Use P → PlanCache P → PlanCache P
  unfolding cached_plan cache_plan
  use_of (looks shared key now stored) c = (cached_plan shared key now stored c).0
  use_of (stores has_shared key plan now) c = (cache_plan has_shared key plan now c).0

  unfoldable pub uses : List (Use P) → PlanCache P → PlanCache P
  unfolding use_of
  uses [] c = c
  uses (u ∷ us) c = uses us (use_of u c)

  -- The use neither finds the plan of the key expired nor stores another plan for the key.
  abbrev pub leaves : Text → ℕ → Use P → Bool
  leaves key expires (looks shared k now stored) = if text_eq k key then ltb now expires else true
  leaves key expires (stores has_shared k plan now) = if text_eq k key then false else true

  -- The entry is there, with at most `n` after it.
  record Recent (key : Text) (e : CachedPlan P) (n : ℕ) (es : List (Text × CachedPlan P))
      : Type 0 where
    front : List (Text × CachedPlan P)
    back : List (Text × CachedPlan P)
    split : es ≡ front ++ (key, e) ∷ back
    first : lookup key front ≡ none
    few : length back ≤ n

  lookup-split :
      (key : Text) (e : CachedPlan P) (front back : List (Text × CachedPlan P))
      → lookup key front ≡ none
      → lookup key (front ++ (key, e) ∷ back) ≡ some e
  unfolding lookup
  lookup-split key e [] back h = rw (text_eq_refl key) refl
  lookup-split key e ((j, x) ∷ front) back h = elim (Bool-cases (text_eq j key)) [
    | inl hit ↦ absurd (let h' = (rw (lookup, hit) at h) in cc)
    | inr miss ↦ rw miss (lookup-split key e front back (rw (lookup, miss) at h))
  ]

  Recent-lookup :
      (key : Text) (e : CachedPlan P) (n : ℕ) (es : List (Text × CachedPlan P))
      → Recent key e n es
      → lookup key es ≡ some e
  Recent-lookup key e n es r = ap (lookup key) r.split ∙ lookup-split key e r.front r.back r.first

  remove-split :
      (k key : Text) (e : CachedPlan P) (front back : List (Text × CachedPlan P))
      → text_eq key k ≡ false
      → remove k (front ++ (key, e) ∷ back) ≡ remove k front ++ (key, e) ∷ remove k back
  unfolding remove
  remove-split k key e [] back h = rw h refl
  remove-split k key e ((j, x) ∷ front) back h =
      let rest = remove-split k key e front back h in
      elim (Bool-cases (text_eq j k)) [
        | inl hit ↦ rw hit rest
        | inr miss ↦ rw miss (ap (◌∷◌ (j, x)) rest)
      ]

  evict-Recent :
      (size n : ℕ) (key : Text) (e : CachedPlan P) (front back : List (Text × CachedPlan P))
      → lookup key front ≡ none
      → length back ≤ n
      → suc n ≤ size
      → Recent key e n (evict size (front ++ (key, e) ∷ back))
  unfolding evict lookup
  evict-Recent size n key e [] back h few room =
      let fits : ltb size (suc (length back)) ≡ false = (ground arith) in
      record { front = []; back = back; split = rw (evict, fits) refl; first = refl; few = few }
  evict-Recent size n key e ((j, x) ∷ front) back h few room =
      elim (Bool-cases (ltb size (suc (length (front ++ (key, e) ∷ back))))) [
        | inl over ↦
            rw (evict, over) (evict-Recent size n key e front back (later front h) few room)
        | inr fits ↦
            rw (evict, fits)
              (record { front = (j, x) ∷ front; back = back; split = refl; first = h; few = few })
      ]
    where
      later :
          (front : List (Text × CachedPlan P))
          → lookup key ((j, x) ∷ front) ≡ none
          → lookup key front ≡ none
      later front h = elim (Bool-cases (text_eq j key)) [
        | inl hit ↦ absurd (let h' = (rw (lookup, hit) at h) in cc)
        | inr miss ↦ rw (lookup, miss) at h
      ]

  remove-Recent :
      (k key : Text) (e : CachedPlan P) (n : ℕ) (es : List (Text × CachedPlan P))
      → text_eq key k ≡ false
      → Recent key e n es
      → Recent key e n (remove k es)
  remove-Recent k key e n es apart r = record {
    front = remove k r.front;
    back = remove k r.back;
    split = ap (remove k) r.split ∙ remove-split k key e r.front r.back apart;
    first = lookup-remove k key r.front ∙ ground (arith, r.first);
    few = omega (arith, r.few, length-remove-le k r.back);
  }

  -- Another key at the end.
  append-Recent :
      (k key : Text) (e v : CachedPlan P) (n : ℕ) (es : List (Text × CachedPlan P))
      → Recent key e n es
      → Recent key e (suc n) (es ++ (k, v) ∷ [])
  append-Recent k key e v n es r = record {
    front = r.front;
    back = r.back ++ (k, v) ∷ [];
    split =
        ap (λ l. l ++ (k, v) ∷ []) r.split ∙ append_assoc r.front ((key, e) ∷ r.back) ((k, v) ∷ []);
    first = r.first;
    few = omega (arith, r.few, length-append r.back ((k, v) ∷ []));
  }

  -- The cache is enabled, and the entry is recent.
  record Holds (key : Text) (e : CachedPlan P) (n size : ℕ) (c : PlanCache P) : Type 0 where
    on : disabled c ≡ false
    size_of : c.size ≡ size
    recent : Recent key e n c.entries

  Recent-later :
      (key : Text) (e : CachedPlan P) (n : ℕ) (es : List (Text × CachedPlan P))
      → Recent key e n es
      → Recent key e (suc n) es
  Recent-later key e n es r = record {
    front = r.front;
    back = r.back;
    split = r.split;
    first = r.first;
    few = omega (arith, r.few);
  }

  stores-Holds :
      (k key : Text) (e : CachedPlan P) (plan : P) (now n size : ℕ) (c : PlanCache P)
      → text_eq key k ≡ false
      → suc (suc n) ≤ size
      → Holds key e n size c
      → Holds key e (suc n) size (cache_memory_plan k plan now c)
  unfolding cache_memory_plan
  stores-Holds k key e plan now n size c apart room h =
      let v : CachedPlan P = record { expires_at = now + c.ttl; plan = plan } in
      let r =
        append-Recent k key e v n (remove k c.entries)
          (remove-Recent k key e n c.entries apart h.recent) in
      record {
        on = h.on;
        size_of = h.size_of;
        recent =
            subst (λ (es : List (Text × CachedPlan P)). Recent key e (suc n) (evict c.size es))
              (sym r.split)
              (evict-Recent c.size (suc n) key e r.front r.back r.first r.few
                (omega (arith, h.size_of)));
      }

  shared-Holds :
      (shared : Text → Option P) (k key : Text) (e : CachedPlan P) (stored n size : ℕ)
      (c : PlanCache P)
      → text_eq key k ≡ false
      → suc (suc n) ≤ size
      → Holds key e n size c
      → Holds key e (suc n) size (shared_plan shared k stored c).0
  unfolding shared_plan
  shared-Holds shared k key e stored n size c apart room h = elim (Option-cases (shared k)) [
    | inl nothing ↦
        rw (shared_plan, nothing)
          (record {
            on = h.on;
            size_of = h.size_of;
            recent = Recent-later key e n c.entries h.recent;
          })
    | inr (plan, found) ↦
        rw (shared_plan, found) (stores-Holds k key e plan stored n size c apart room h)
  ]

  -- A look-up of the key itself, which is fresh, moves it to the end.
  own-Holds :
      (shared : Option (Text → Option P)) (key : Text) (e : CachedPlan P) (now stored n size : ℕ)
      (c : PlanCache P)
      → now < e.expires_at
      → Holds key e n size c
      → Holds key e (suc n) size (cached_plan shared key now stored c).0
  unfolding cached_plan
  own-Holds shared key e now stored n size c early h =
      let found = Recent-lookup key e n c.entries h.recent in
      let fresh : ltb now e.expires_at ≡ true = (ground arith) in
      rw (cached_plan, h.on, found, fresh)
        (record {
          on = h.on;
          size_of = h.size_of;
          recent = record {
            front = remove key c.entries;
            back = [];
            split = refl;
            first = lookup-remove key key c.entries ∙ rw (text_eq_refl key) refl;
            few = omega arith;
          };
        })

  other-Holds :
      (shared : Option (Text → Option P)) (k key : Text) (e : CachedPlan P) (now stored n size : ℕ)
      (c : PlanCache P)
      → text_eq key k ≡ false
      → suc (suc n) ≤ size
      → Holds key e n size c
      → Holds key e (suc n) size (cached_plan shared k now stored c).0
  unfolding cached_plan
  other-Holds shared k key e now stored n size c apart room h =
      let without = remove-Recent k key e n c.entries apart h.recent in
      elim (Option-cases (lookup k c.entries)) [
        | inl missing ↦
            rw (cached_plan, h.on, missing)
              (shared-Holds (ask shared) k key e stored n size c apart room h)
        | inr (x, found) ↦ elim (Bool-cases (ltb now x.expires_at)) [
          | inl fresh ↦
              rw (cached_plan, h.on, found, fresh)
                (record {
                  on = h.on;
                  size_of = h.size_of;
                  recent = append-Recent k key e x n (remove k c.entries) without;
                })
          | inr stale ↦
              rw (cached_plan, h.on, found, stale)
                (shared-Holds (ask shared) k key e stored n size
                  (record c { entries = remove k c.entries }) apart room
                  (record { on = h.on; size_of = h.size_of; recent = without }))
        ]
      ]

  use-Holds :
      (u : Use P) (key : Text) (e : CachedPlan P) (n size : ℕ) (c : PlanCache P)
      → leaves key e.expires_at u ≡ true
      → suc (suc n) ≤ size
      → Holds key e n size c
      → Holds key e (suc n) size (use_of u c)
  unfolding use_of cache_plan
  use-Holds (looks shared k now stored) key e n size c ok_use room h =
      elim (Bool-cases (text_eq k key)) [
        | inl same ↦
            subst (λ (z : Text). Holds key e (suc n) size (cached_plan shared z now stored c).0)
              (sym ((text_eq_iff k key).0 same))
              (own-Holds shared key e now stored n size c (ground (arith)) h)
        | inr other ↦
            other-Holds shared k key e now stored n size c (text_eq_comm key k ∙ other) room h
      ]
  use-Holds (stores has_shared k plan now) key e n size c ok_use room h =
      elim (Bool-cases (text_eq k key)) [
        | inl same ↦ absurd (ground (arith))
        | inr other ↦
            rw (use_of, cache_plan, h.on)
              (stores-Holds k key e plan now n size c (text_eq_comm key k ∙ other) room h)
      ]

  uses-Holds :
      (us : List (Use P)) (key : Text) (e : CachedPlan P) (n size : ℕ) (c : PlanCache P)
      → All (λ u. leaves key e.expires_at u ≡ true) us
      → n + length us < size
      → Holds key e n size c
      → Holds key e (n + length us) size (uses us c)
  unfolding uses
  uses-Holds [] key e n size c all room h = subst (λ (m : ℕ). Holds key e m size c) (omega arith) h
  uses-Holds (u ∷ us) key e n size c all room h =
      subst (λ (m : ℕ). Holds key e m size (uses us (use_of u c))) (omega arith)
        (uses-Holds us key e (suc n) size (use_of u c) all.1 (omega arith)
          (use-Holds u key e n size c all.0 (omega arith) h))

  -- A plan that was stored in an enabled cache is still the answer after any look-ups and stores
  -- that follow, if they are fewer than the cache's size, none of them stores another plan for its
  -- key, and all look-ups of its key, also the last, come before it expires; whatever the shared
  -- cache holds. More than that the cache does not promise, as it evicts the plan that was used
  -- longest ago.
  pub stored_plan_found :
      (has_shared : Bool) (key : Text) (plan : P) (now : ℕ) (us : List (Use P))
      (shared : Option (Text → Option P)) (later stored : ℕ) (c : PlanCache P)
      → disabled c ≡ false
      → All (λ u. leaves key (now + c.ttl) u ≡ true) us
      → length us < c.size
      → later < now + c.ttl
      → (cached_plan shared key later stored (uses us (cache_plan has_shared key plan now c).0)).1
        ≡ some plan
  unfolding cache_plan cache_memory_plan cached_plan
  stored_plan_found has_shared key plan now us shared later stored c on all room early =
      let e : CachedPlan P = record { expires_at = now + c.ttl; plan = plan } in
      let c1 = cache_memory_plan key plan now c in
      let start : Holds key e 0 c.size c1 = record {
        on = on;
        size_of = refl;
        recent =
            evict-Recent c.size 0 key e (remove key c.entries) []
              (lookup-remove key key c.entries ∙ rw (text_eq_refl key) refl) (omega arith)
              (omega (arith, room));
      } in
      let h = uses-Holds us key e 0 c.size c1 all (omega (arith, room)) start in
      let found = Recent-lookup key e (0 + length us) (uses us c1).entries h.recent in
      let fresh : ltb later (now + c.ttl) ≡ true = (ground arith) in
      rw (cache_plan, on) (rw (cached_plan, h.on, found, fresh) refl)
