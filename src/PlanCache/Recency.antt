-- ===== src/PlanCache/Recency.antt =====
-- The memory of plans is bounded, forgets what has expired, and keeps what was used last.
use querix_semantic_search.Prelude.{
  ℕ, suc, ◌≤◌, ◌<◌, ◌≡◌, refl, ap, ◌∙◌, inl, inr, false, none, some, List, [], ◌∷◌, ◌++◌, arith,
  ltb, if◌then◌else◌, Bool-cases, length, Text, text_eq, text_eq_iff, text_eq_refl, lookup,
}
use querix_semantic_search.PlanCache.Cache.{CachedPlan, remove, evict}

module _ {P : Type 0} where
  pub lookup-remove :
      (key k : Text) (es : List (Text × CachedPlan P))
      → lookup k (remove key es) ≡ (if text_eq key k then none else lookup k es)
  unfolding lookup remove
  lookup-remove key k [] = ground arith
  lookup-remove key k ((j, v) ∷ es) =
      ground (arith, text_eq_iff key k, text_eq_iff j key, text_eq_iff j k, lookup-remove key k es)

  lookup-append :
      (k : Text) (es : List (Text × CachedPlan P)) (j : Text) (v : CachedPlan P)
      → lookup k (es ++ (j, v) ∷ [])
        ≡ (elim (lookup k es) [ some w ↦ some w | none ↦ if text_eq j k then some v else none ])
  unfolding lookup
  lookup-append k [] j v = refl
  lookup-append k ((i, w) ∷ es) j v = elim (Bool-cases (text_eq i k)) [
    | inl hit ↦ rw hit refl
    | inr miss ↦ rw miss (lookup-append k es j v)
  ]

  -- The last entry outlives any eviction to a positive size.
  pub lookup-evict_last :
      (size : ℕ) (k : Text) (v : CachedPlan P) (es : List (Text × CachedPlan P))
      → 0 < size
      → lookup k es ≡ none
      → lookup k (evict size (es ++ (k, v) ∷ [])) ≡ some v
  unfolding lookup evict
  lookup-evict_last size k v [] pos h =
      let fits : ltb size 1 ≡ false = (ground arith) in rw (evict, fits, text_eq_refl k) refl
  lookup-evict_last size k v ((j, w) ∷ es) pos h = elim (Bool-cases (text_eq j k)) [
    | inl hit ↦ absurd (let h' = (rw (lookup, hit) at h) in cc)
    | inr miss ↦
        let h' : lookup k es ≡ none = (rw (lookup, miss) at h) in
        elim (Bool-cases (ltb size (suc (length (es ++ (k, v) ∷ []))))) [
          | inl over ↦ rw (evict, over) (lookup-evict_last size k v es pos h')
          | inr fits ↦
              rw (evict, fits, miss) (lookup-append k es k v ∙ rw (h', text_eq_refl k) refl)
        ]
  ]

  -- Nor does the last but one, when the size is at least two.
  pub lookup-evict_two :
      (size : ℕ) (k o : Text) (v w : CachedPlan P) (es : List (Text × CachedPlan P))
      → 1 < size
      → lookup k es ≡ none
      → lookup k (evict size (es ++ (k, v) ∷ (o, w) ∷ [])) ≡ some v
  unfolding lookup evict
  lookup-evict_two size k o v w [] pos h =
      let fits : ltb size 2 ≡ false = (ground arith) in rw (evict, fits, text_eq_refl k) refl
  lookup-evict_two size k o v w ((j, x) ∷ es) pos h = elim (Bool-cases (text_eq j k)) [
    | inl hit ↦ absurd (let h' = (rw (lookup, hit) at h) in cc)
    | inr miss ↦
        let h' : lookup k es ≡ none = (rw (lookup, miss) at h) in
        elim (Bool-cases (ltb size (suc (length (es ++ (k, v) ∷ (o, w) ∷ []))))) [
          | inl over ↦ rw (evict, over) (lookup-evict_two size k o v w es pos h')
          | inr fits ↦ rw (evict, fits, miss) (lookup-before k v ((o, w) ∷ []) es h')
        ]
  ]
    where
      lookup-before :
          (k : Text) (v : CachedPlan P) (later es : List (Text × CachedPlan P))
          → lookup k es ≡ none
          → lookup k (es ++ (k, v) ∷ later) ≡ some v
      lookup-before k v later [] h = rw (text_eq_refl k) refl
      lookup-before k v later ((j, x) ∷ es) h = elim (Bool-cases (text_eq j k)) [
        | inl hit ↦ absurd (let h' = (rw (lookup, hit) at h) in cc)
        | inr miss ↦ rw miss (lookup-before k v later es (rw (lookup, miss) at h))
      ]

  pub length-evict-le : (size : ℕ) (es : List (Text × CachedPlan P)) → length (evict size es) ≤ size
  unfolding evict
  length-evict-le size [] = omega arith
  length-evict-le size (e ∷ es) = ground (arith, length-evict-le size es)

  pub length-remove-le :
      (key : Text) (es : List (Text × CachedPlan P)) → length (remove key es) ≤ length es
  unfolding remove
  length-remove-le key [] = omega arith
  length-remove-le key ((k, v) ∷ es) = ground (arith, length-remove-le key es)

  pub length-remove-lt :
      (key : Text) (es : List (Text × CachedPlan P)) {v : CachedPlan P}
      → lookup key es ≡ some v
      → length (remove key es) < length es
  unfolding remove lookup
  length-remove-lt key [] h = absurd (cc)
  length-remove-lt key ((k, w) ∷ es) {v} h = elim (Bool-cases (text_eq k key)) [
    | inl hit ↦ rw (remove, hit) (omega (arith, length-remove-le key es))
    | inr miss ↦
        let rest = length-remove-lt key es (rw (lookup, miss) at h) in
        rw (remove, miss) (omega (arith, rest))
  ]

  pub remove-append :
      (key k : Text) (v : CachedPlan P) (es : List (Text × CachedPlan P))
      → text_eq k key ≡ false
      → remove key (es ++ (k, v) ∷ []) ≡ remove key es ++ (k, v) ∷ []
  unfolding remove
  remove-append key k v [] h = rw h refl
  remove-append key k v ((j, w) ∷ es) h =
      let rest = remove-append key k v es h in
      elim (Bool-cases (text_eq j key)) [
        | inl hit ↦ rw hit rest
        | inr miss ↦ rw miss (ap (◌∷◌ (j, w)) rest)
      ]
