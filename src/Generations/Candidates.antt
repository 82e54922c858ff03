-- ===== src/Generations/Candidates.antt =====
-- The candidate slot, and a slot that is none of the two.
use querix_semantic_search.Prelude.{
  ℕ, ◌≡◌, refl, sym, ap, ◌∙◌, inl, inr, true, false, Option, none, some, Bool-cases, Text, text_eq,
  text_eq_iff, text_eq_refl, ◌++◌, codes, lookup, insert, lookup-insert, Result, ok, err,
}
use mathlib.Core.Path.{subst}
use querix_semantic_search.Generations.Manifest.{
  GenerationError, invalid_active_slot, ready, SlotState, Profile, Manifest, File, in_slots, slot_a,
  generation_manifest_path, read_generation_state, atomic_write, validate_state, validate_active,
  profile_for_slot,
}
use querix_semantic_search.Generations.Operations.{
  written, record_candidate_ready, promote_candidate, other_slot, ResolvedIndexGeneration,
  resolve_generation, candidate_generation, or_text, generation_of,
}
use querix_semantic_search.Generations.Slots.{
  in_slots-cases, other_slot-in_slots, other_slot-differs,
}
use querix_semantic_search.Generations.Invariant.{ready_manifest-OneActive}
use querix_semantic_search.Generations.Reach.{Reach, Reach-Sound, Reach-reads}
use querix_semantic_search.Generations.Promotions.{
  ensured-at, record_candidate_ready-ensured, promotes-written, ready_manifest-ok,
}

profile-of_slot :
    (sha256_hex : Text → Text) (p : Profile) (s : Text)
    → in_slots s ≡ true
    → (q : Profile) × (profile_for_slot sha256_hex p s ≡ ok q)
unfolding profile_for_slot in_slots text_eq
profile-of_slot sha256_hex p s h = elim (in_slots-cases s h) [
  | inl e ↦ subst (λ k. (q : Profile) × (profile_for_slot sha256_hex p k ≡ ok q)) (sym e) (_, refl)
  | inr e ↦ subst (λ k. (q : Profile) × (profile_for_slot sha256_hex p k ≡ ok q)) (sym e) (_, refl)
]

abbrev resolved_at : Profile → Manifest → Text → Profile → ResolvedIndexGeneration
resolved_at p m s q = record {
  slot = s;
  generation = or_text (codes "uninitialized-" ++ s) (generation_of (lookup s m.slots));
  profile = q;
  manifest_path = generation_manifest_path p;
}

pub resolve_generation-ok :
    (sha256_hex : Text → Text) (p : Profile) (now : ℕ) (slot : Option Text) (f : File)
    (m : Manifest) (s : Text)
    → read_generation_state p now f ≡ ok m
    → or_text m.active_slot slot ≡ s
    → in_slots s ≡ true
    → (g : ResolvedIndexGeneration) × (resolve_generation sha256_hex p now slot f ≡ ok g)
      × (g.slot ≡ s)
      × (profile_for_slot sha256_hex p g.slot ≡ ok g.profile)
unfolding resolve_generation
resolve_generation-ok sha256_hex p now slot f m s em es h =
    let (q, eq) = profile-of_slot sha256_hex p s h in
    (resolved_at p m s q, rw (em, es, eq, h) refl, refl, eq)

candidate-resolves :
    (sha256_hex : Text → Text) (p : Profile) (now : ℕ) (f : File) (m : Manifest)
    → read_generation_state p now f ≡ ok m
    → candidate_generation sha256_hex p now f
      ≡ resolve_generation sha256_hex p now (some (other_slot m.active_slot)) f
unfolding candidate_generation
candidate-resolves sha256_hex p now f m em = rw em refl

-- Both the serving generation and the candidate resolve on a reachable manifest, and the candidate
-- is the slot, of the two, that does not serve.
pub candidate_not_serving :
    (sha256_hex : Text → Text) (p : Profile) (now : ℕ) (f : File)
    → Reach p f
    → (serving : ResolvedIndexGeneration) × (candidate : ResolvedIndexGeneration)
      × (resolve_generation sha256_hex p now none f ≡ ok serving)
      × (candidate_generation sha256_hex p now f ≡ ok candidate)
      × (in_slots serving.slot ≡ true)
      × (in_slots candidate.slot ≡ true)
      × (text_eq candidate.slot serving.slot ≡ false)
candidate_not_serving sha256_hex p now f r =
    let (m, em, v) = Reach-reads p f now r in
    let (a, ea, sa, _) =
      resolve_generation-ok sha256_hex p now none f m m.active_slot em refl v.slot in
    let named : or_text m.active_slot (some (other_slot m.active_slot)) ≡ other_slot m.active_slot =
      (elim (Bool-cases (text_eq m.active_slot slot_a)) [
        | inl e ↦ rw e refl
        | inr e ↦ rw e refl
      ]) in
    let (c, ec, sc, _) =
      resolve_generation-ok sha256_hex p now (some (other_slot m.active_slot)) f m
        (other_slot m.active_slot) em named (other_slot-in_slots m.active_slot) in
    (
      a,
      c,
      ea,
      candidate-resolves sha256_hex p now f m em ∙ ec,
      rw sa v.slot,
      rw sc (other_slot-in_slots m.active_slot),
      rw (sa, sc) (other_slot-differs m.active_slot v.slot),
    )

-- A candidate recorded for a slot that is none of the two is accepted, and so is its promotion;
-- the manifest written then is refused by every later read.
pub outside_slot_breaks :
    (p : Profile) (f : File) (now now2 later : ℕ) (slot generation validation : Text) (va ua t : ℕ)
    → Reach p f
    → in_slots slot ≡ false
    → (m2 : Manifest) × (promote_candidate p now2 slot generation t
          (record_candidate_ready p now slot generation validation va ua f).0
        ≡ (atomic_write m2, ok m2))
      × (read_generation_state p later (atomic_write m2) ≡ err invalid_active_slot)
unfolding read_generation_state atomic_write validate_state validate_active
outside_slot_breaks p f now now2 later slot generation validation va ua t r bad =
    let (m, em, _) = Reach-reads p f now r in
    let (e, v) = ensured-at p now f m (Reach-Sound p f r) em in
    let differ : text_eq slot m.active_slot ≡ false =
      (elim (Bool-cases (text_eq slot m.active_slot)) [
        | inr d ↦ d
        | inl same ↦
            absurd (let h = (rw ((text_eq_iff slot m.active_slot).0 same, v.slot) at bad) in cc)
      ]) in
    let entry : SlotState = record {
      generation = some generation;
      status = ready;
      validated_at = some va;
      validation = some validation;
    } in
    let m1 : Manifest = record m { slots = insert slot entry m.slots; updated_at = some ua } in
    let e1 = ready_manifest-ok slot generation validation va ua m differ in
    let v1 = ready_manifest-OneActive p slot generation validation va ua m m1 v e1 in
    let there : lookup slot m1.slots ≡ some entry =
      (rw (lookup-insert slot slot entry m.slots, text_eq_refl slot) refl) in
    let (m2, e2, a, _, k) =
      promotes-written p now2 slot generation t m1 v1 differ (rw there refl)
        (rw (there, text_eq_refl generation) refl) in
    let recorded =
      record_candidate_ready-ensured p now slot generation validation va ua f m e
      ∙ ap (written (atomic_write m)) e1 in
    let owner : m2.company_id ≡ p.company_id =
      (ap (λ (z : Manifest). z.company_id) k.result ∙ v.owner) in
    (
      m2,
      ap
            (λ (z : File × Result GenerationError Manifest).
              promote_candidate p now2 slot generation t z.0)
            recorded
          ∙ e2,
      rw (owner, text_eq_refl p.company_id, a, bad) refl,
    )
