-- ===== src/Pool/Swaps.antt =====
-- `activate_candidate`, `rollback_generation` and `reload_generation` of `TenantServicePool` in
-- src/api/tenants.py. Each builds a service under the reload lock, and swaps it in under the pool's
-- lock; `meanwhile` is what other threads and the ingestion do to the world between the two.
use querix_semantic_search.Prelude.{
  ℕ, Bool, false, ◌&&◌, ◌||◌, Option, none, some, List, [], ◌∷◌, ◌++◌, not, if◌then◌else◌, Result,
  ok, err, ◌>>=◌, Text, text_eq, lookup,
}
use querix_semantic_search.Generations.Manifest.{
  GenerationError, Profile, Manifest, File, in_slots, profile_for_slot, read_generation_state,
}
use querix_semantic_search.Generations.Operations.{
  ResolvedIndexGeneration, is_ready, is_generation, generation_of, or_text, promote_candidate,
  restore_active_slot,
}
use querix_semantic_search.Pool.Services.{
  PoolError, already_active, not_ready, mismatch, no_previous, not_initialized, generation_error,
  Service, World, Setting, drop_key, put, registered, lifted, build_service, closing, retire,
  resolved,
}

-- The answer of a swap; `unchanged` is for a reload that has nothing to do.
pub data Answer : Type 0 where
  swapped : (slot generation : Text) (previous_generation : Option Text) → Answer
  unchanged : (slot generation : Text) → Answer

module _ {E Engine : Type 0} (st : Setting E Engine) where
  abbrev pub set_file : Text → File → World E Engine → World E Engine
  set_file company_id f w = record w { file = λ c. if text_eq c company_id then f else w.file c }

  abbrev pub previous : Option (Service Engine) → List (Service Engine)
  previous none = []
  previous (some s) = s ∷ []

  abbrev pub service_generation : Option (Service Engine) → Option Text
  service_generation none = none
  service_generation (some s) = some s.generation

  -- The new service takes the place of the one before, which is retired.
  unfoldable pub swap : Text → ℕ → Service Engine → World E Engine → World E Engine
  unfolding drop_key lookup
  swap company_id clock s w = record w {
    services = put company_id s w.services;
    retired = w.retired ++ retire st clock (previous (lookup company_id w.services));
  }

  unfoldable pub answer : Text → Service Engine → World E Engine → Answer
  unfolding lookup
  answer company_id s w =
      swapped s.slot s.generation (service_generation (lookup company_id w.services))

  -- The end of a swap that writes the manifest: an exception closes the new service.
  abbrev pub finish :
      Text
      → ℕ
      → Service Engine
      → World E Engine
      → File × Result GenerationError Manifest
      → World E Engine × Result (PoolError E) Answer
  finish company_id clock s w (f, ok m) =
      (swap company_id clock s (set_file company_id f w), ok (answer company_id s w))
  finish company_id clock s w (f, err x) =
      (closing st (s ∷ []) (set_file company_id f w), err (generation_error x))

  -- A service that was built is closed again if it is not ready.
  abbrev pub if_ready :
      World E Engine
      → (Profile × Service Engine → World E Engine × Result (PoolError E) Answer)
      → Result (PoolError E) (Profile × Service Engine)
      → World E Engine × Result (PoolError E) Answer
  if_ready w next (err x) = (w, err x)
  if_ready w next (ok (p, s)) =
      if st.readiness s.engine then next (p, s) else (closing st (s ∷ []) w, err not_ready)

  abbrev pub build_for : Profile → Text → Text → Result (PoolError E) (Profile × Service Engine)
  build_for p slot generation = lifted st (profile_for_slot st.sha256_hex p slot) >>= λ q.
      build_service st q generation slot >>= λ s. ok (p, s)

  abbrev pub candidate_checks :
      Profile → Text → Text → Manifest → Result (PoolError E) (Profile × Service Engine)
  candidate_checks p slot generation m =
      if text_eq slot m.active_slot
      then err already_active
      else if not (is_ready (lookup slot m.slots))
      then err not_ready
      else if not (is_generation generation (lookup slot m.slots))
      then err mismatch
      else build_for p slot generation

  unfoldable pub checked_candidate :
      Text → Text → Text → ℕ → World E Engine → Result (PoolError E) (Profile × Service Engine)
  unfolding read_generation_state profile_for_slot build_service lookup
  checked_candidate company_id slot generation now w = registered st company_id >>= λ p.
      lifted st (read_generation_state p now (w.file company_id)) >>= λ m.
      candidate_checks p slot generation m

  unfoldable pub activate_candidate :
      (World E Engine → World E Engine)
      → Text
      → Text
      → Text
      → ℕ
      → ℕ
      → ℕ
      → World E Engine
      → World E Engine × Result (PoolError E) Answer
  unfolding checked_candidate promote_candidate swap answer
  activate_candidate meanwhile company_id slot generation now promoted_at clock w =
      if_ready w
        (λ b.
          let w1 = meanwhile w in
          finish company_id clock b.1 w1
            (promote_candidate b.0 now slot generation promoted_at (w1.file company_id)))
        (checked_candidate company_id slot generation now w)

  abbrev pub previous_checks :
      Profile → Option Text → Manifest → Result (PoolError E) (Profile × Service Engine)
  previous_checks p none m = err no_previous
  previous_checks p (some slot) m =
      if not (in_slots slot) || text_eq slot m.active_slot
      then err no_previous
      else elim (or_text [] (generation_of (lookup slot m.slots))) [
        | [] ↦ err not_initialized
        | c ∷ generation ↦ build_for p slot (c ∷ generation)
      ]

  unfoldable pub checked_previous :
      Text → ℕ → World E Engine → Result (PoolError E) (Profile × Service Engine)
  unfolding read_generation_state profile_for_slot build_service lookup in_slots
  checked_previous company_id now w = registered st company_id >>= λ p.
      lifted st (read_generation_state p now (w.file company_id)) >>= λ m.
      previous_checks p m.previous_slot m

  unfoldable pub rollback_generation :
      (World E Engine → World E Engine)
      → Text
      → ℕ
      → ℕ
      → ℕ
      → World E Engine
      → World E Engine × Result (PoolError E) Answer
  unfolding checked_previous restore_active_slot swap answer
  rollback_generation meanwhile company_id now updated_at clock w =
      if_ready w
        (λ b.
          let w1 = meanwhile w in
          finish company_id clock b.1 w1
            (restore_active_slot b.0 now b.1.slot updated_at (w1.file company_id)))
        (checked_previous company_id now w)

  abbrev pub is_current : ResolvedIndexGeneration → Option (Service Engine) → Bool
  is_current g none = false
  is_current g (some s) = text_eq s.generation g.generation && text_eq s.slot g.slot

  unfoldable pub reload_generation :
      (World E Engine → World E Engine)
      → Text
      → ℕ
      → ℕ
      → World E Engine
      → World E Engine × Result (PoolError E) Answer
  unfolding resolved build_service swap answer lookup
  reload_generation meanwhile company_id now clock w = elim (resolved st company_id now w) [
    | err x ↦ (w, err x)
    | ok g ↦
        if is_current g (lookup company_id w.services)
        then (w, ok (unchanged g.slot g.generation))
        else if_ready w
            (λ b.
              let w1 = meanwhile w in (swap company_id clock b.1 w1, ok (answer company_id b.1 w1)))
            (build_service st g.profile g.generation g.slot >>= λ s. ok (g.profile, s))
  ]
