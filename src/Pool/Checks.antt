-- ===== src/Pool/Checks.antt =====
-- What the checks and builds of src/api/tenants.py have established when they succeed.
use querix_semantic_search.Prelude.{
  ℕ, ◌≡◌, refl, sym, ap, ◌∙◌, inl, inr, true, Option, none, some, [], ◌∷◌, Bool-cases, Text,
  text_eq, lookup, Result, ok, err, ◌>>=◌, ok-injective, Result-cases,
}
use mathlib.Core.Path.{subst}
use querix_semantic_search.Generations.Manifest.{
  Profile, Manifest, in_slots, profile_for_slot, read_generation_state,
}
use querix_semantic_search.Generations.Operations.{
  ResolvedIndexGeneration, is_ready, is_generation, generation_of, or_text, resolve_generation,
}
use querix_semantic_search.Pool.Services.{
  PoolError, Service, World, Setting, registered, lifted, build_service, resolved, load,
}
use querix_semantic_search.Pool.Swaps.{
  build_for, candidate_checks, checked_candidate, previous_checks, checked_previous,
}
use querix_semantic_search.Pool.Active.{Serves, Sound-Serves, resolves-active, profile-in_slots}
use querix_semantic_search.Pool.Entries.{Opened, Coherent}

-- A chain that succeeds, taken apart.
bind-ok :
    {E A B : Type 0} (r : Result E A) (f : A → Result E B) (b : B)
    → r >>= f ≡ ok b
    → (a : A) × (r ≡ ok a) × (f a ≡ ok b)
bind-ok (ok a) f b e = (a, refl, e)
bind-ok (err x) f b e = absurd (cc)

module _ {E Engine : Type 0} (st : Setting E Engine) where
  registered-ok : (c : Text) (p : Profile) → registered st c ≡ ok p → st.registry c ≡ some p
  registered-ok c p e = go (st.registry c) refl e
    where
      go :
          (o : Option Profile) → st.registry c ≡ o → registered st c ≡ ok p → st.registry c ≡ some p
      go none eo h = absurd (let h1 = (rw (registered, eo) at h) in cc)
      go (some q) eo h = eo ∙ ap some (ok-injective (rw (registered, eo) at h))

  lifted-ok : {A : Type 0} (r : Result _ A) (a : A) → lifted st r ≡ ok a → r ≡ ok a
  lifted-ok (ok b) a e = ap ok (ok-injective e)
  lifted-ok (err x) a e = absurd (cc)

  pub build-slot :
      (p : Profile) (generation slot : Text) (s : Service Engine)
      → build_service st p generation slot ≡ ok s
      → s.slot ≡ slot
  unfolding build_service
  build-slot p generation slot s e = elim (Result-cases (st.open_engine p)) [
    | inl (x, ex) ↦ absurd (let h = (rw (build_service, ex) at e) in cc)
    | inr (g, eg) ↦
        sym (ap (λ (z : Service Engine). z.slot) (ok-injective (rw (build_service, eg) at e)))
  ]

  -- A service that is built on the profile of its slot.
  pub build-Opened :
      (p q : Profile) (generation slot : Text) (s : Service Engine)
      → profile_for_slot st.sha256_hex p slot ≡ ok q
      → build_service st q generation slot ≡ ok s
      → Opened st p s
  unfolding build_service
  build-Opened p q generation slot s eq e = elim (Result-cases (st.open_engine q)) [
    | inl (x, ex) ↦ absurd (let h = (rw (build_service, ex) at e) in cc)
    | inr (g, eg) ↦
        subst (Opened st p) (ok-injective (rw (build_service, eg) at e))
          (record { storage = q; of_slot = eq; opens = eg })
  ]

  -- The generation that is resolved for a company is that of its active slot.
  pub resolved-Serves :
      (c : Text) (now : ℕ) (w : World E Engine) (g : ResolvedIndexGeneration)
      → Coherent st w
      → resolved st c now w ≡ ok g
      → (p : Profile) × (st.registry c ≡ some p)
        × Serves p (w.file c) g.slot
        × (profile_for_slot st.sha256_hex p g.slot ≡ ok g.profile)
  unfolding resolved
  resolved-Serves c now w g k e =
      let (p, ep, e1) = bind-ok (registered st c) _ g e in
      let r = registered-ok c p ep in
      let (slot, v) = Sound-Serves p (w.file c) (k.sound c p r) in
      let (same, storage) =
        resolves-active st.sha256_hex p (w.file c) slot now g v
          (lifted-ok (resolve_generation st.sha256_hex p now none (w.file c)) g e1) in
      (p, r, subst (λ (z : Text). Serves p (w.file c) z) (sym same) v, storage)

  pub load-Serves :
      (c : Text) (now : ℕ) (w : World E Engine) (s : Service Engine)
      → Coherent st w
      → load st c now w ≡ ok s
      → (p : Profile) × (st.registry c ≡ some p) × Serves p (w.file c) s.slot × Opened st p s
  unfolding load
  load-Serves c now w s k e =
      let (g, eg, e1) = bind-ok (resolved st c now w) _ s e in
      let (p, r, v, storage) = resolved-Serves c now w g k eg in
      (
        p,
        r,
        subst (λ (z : Text). Serves p (w.file c) z)
            (sym (build-slot g.profile g.generation g.slot s e1)) v,
        build-Opened p g.profile g.generation g.slot s storage e1,
      )

  -- A service that was built for a company, on one of the two slots.
  pub record Built (c slot generation : Text) (b : Profile × Service Engine) : Type 0 where
    pub registry : st.registry c ≡ some b.0
    pub slot_of : b.1.slot ≡ slot
    pub generation_of : b.1.generation ≡ generation
    pub in_slots_of : in_slots slot ≡ true
    pub opened : Opened st b.0 b.1

  build-generation :
      (p : Profile) (generation slot : Text) (s : Service Engine)
      → build_service st p generation slot ≡ ok s
      → s.generation ≡ generation
  unfolding build_service
  build-generation p generation slot s e = elim (Result-cases (st.open_engine p)) [
    | inl (x, ex) ↦ absurd (let h = (rw (build_service, ex) at e) in cc)
    | inr (g, eg) ↦
        sym (ap (λ (z : Service Engine). z.generation) (ok-injective (rw (build_service, eg) at e)))
  ]

  build_for-Built :
      (c : Text) (p : Profile) (slot generation : Text) (b : Profile × Service Engine)
      → st.registry c ≡ some p
      → build_for st p slot generation ≡ ok b
      → Built c slot generation b
  build_for-Built c p slot generation b r e =
      let (q, eq, e1) = bind-ok (lifted st (profile_for_slot st.sha256_hex p slot)) _ b e in
      let (s, es, e2) = bind-ok (build_service st q generation slot) _ b e1 in
      subst (Built c slot generation) (ok-injective e2) (record {
        registry = r;
        slot_of = build-slot q generation slot s es;
        generation_of = build-generation q generation slot s es;
        opened =
            build-Opened p q generation slot s
              (lifted-ok (profile_for_slot st.sha256_hex p slot) q eq) es;
        in_slots_of =
            profile-in_slots st.sha256_hex p q slot
              (lifted-ok (profile_for_slot st.sha256_hex p slot) q eq);
      })

  pub checked_candidate-Built :
      (c slot generation : Text) (now : ℕ) (w : World E Engine) (b : Profile × Service Engine)
      → checked_candidate st c slot generation now w ≡ ok b
      → Built c slot generation b
  unfolding checked_candidate
  checked_candidate-Built c slot generation now w b e =
      let (p, ep, e1) = bind-ok (registered st c) _ b e in
      let (m, em, e2) = bind-ok (lifted st (read_generation_state p now (w.file c))) _ b e1 in
      build_for-Built c p slot generation b (registered-ok c p ep) (passes p m e2)
    where
      passes :
          (p : Profile) (m : Manifest)
          → candidate_checks st p slot generation m ≡ ok b
          → build_for st p slot generation ≡ ok b
      passes p m h = elim (Bool-cases (text_eq slot m.active_slot)) [
        | inl a ↦ absurd (let x = (rw a at h) in cc)
        | inr a ↦ elim (Bool-cases (is_ready (lookup slot m.slots))) [
          | inr r ↦ absurd (let x = (rw (a, r) at h) in cc)
          | inl r ↦ elim (Bool-cases (is_generation generation (lookup slot m.slots))) [
            | inr g ↦ absurd (let x = (rw (a, r, g) at h) in cc)
            | inl g ↦ rw (a, r, g) at h
          ]
        ]
      ]

  pub checked_previous-Built :
      (c : Text) (now : ℕ) (w : World E Engine) (b : Profile × Service Engine)
      → checked_previous st c now w ≡ ok b
      → (slot : Text) × (generation : Text) × Built c slot generation b
  unfolding checked_previous
  checked_previous-Built c now w b e =
      let (p, ep, e1) = bind-ok (registered st c) _ b e in
      let (m, em, e2) = bind-ok (lifted st (read_generation_state p now (w.file c))) _ b e1 in
      go p (registered-ok c p ep) m m.previous_slot e2
    where
      of_held :
          (p : Profile)
          → st.registry c ≡ some p
          → (slot : Text) (held : Text)
          → (elim held [ [] ↦ err PoolError.not_initialized | d ∷ g ↦ build_for st p slot (d ∷ g) ])
            ≡ ok b
          → (slot : Text) × (generation : Text) × Built c slot generation b
      of_held p r slot [] h = absurd (cc)
      of_held p r slot (d ∷ g) h = (slot, d ∷ g, build_for-Built c p slot (d ∷ g) b r h)

      go :
          (p : Profile)
          → st.registry c ≡ some p
          → (m : Manifest) (o : Option Text) → previous_checks st p o m ≡ ok b
          → (slot : Text) × (generation : Text) × Built c slot generation b
      go p r m none h = absurd (cc)
      go p r m (some slot) h = elim (Bool-cases (in_slots slot)) [
        | inr bad ↦ absurd (let x = (rw bad at h) in cc)
        | inl good ↦ elim (Bool-cases (text_eq slot m.active_slot)) [
          | inl a ↦ absurd (let x = (rw (good, a) at h) in cc)
          | inr a ↦
              of_held p r slot (or_text [] (generation_of (lookup slot m.slots)))
                (rw (good, a) at h)
        ]
      ]
