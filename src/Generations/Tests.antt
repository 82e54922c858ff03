-- ===== src/Generations/Tests.antt =====
-- Runs of the generation manifest.
use querix_semantic_search.Prelude.{
  ◌≡◌, refl, true, false, none, some, [], ◌∷◌, Result, ok, err, Text, codes, text_eq, lookup,
}
use querix_semantic_search.Generations.Manifest.{
  not_validated, invalid_active_slot, Profile, Manifest, File, absent, slot_a, slot_b, in_slots,
  default_generation_state, read_generation_state, atomic_write, profile_for_slot, slot_b_table,
}
use querix_semantic_search.Generations.Operations.{
  record_candidate_ready, promote_candidate, restore_active_slot, ResolvedIndexGeneration,
  resolve_generation, candidate_generation,
}
use querix_semantic_search.Generations.Invariant.{OneActive}
use querix_semantic_search.Generations.Reach.{Reach, start, next, records, Reach-reads}
use querix_semantic_search.Generations.Rollback.{promote_then_restore}
use querix_semantic_search.Generations.Candidates.{candidate_not_serving, outside_slot_breaks}

abbrev tenant : Profile
tenant = record {
  company_id = codes "acme";
  storage = record {
    pgvector_table = codes "ads";
    bm25_path = record { parent = codes "data" ∷ []; name = codes "bm25.db" };
  };
}

abbrev same_text : Text → Text
same_text t = t

abbrev profile_b : Profile
profile_b = record {
  company_id = codes "acme";
  storage = record {
    pgvector_table = codes "ads__b";
    bm25_path = record {
      parent = codes "data" ∷ codes "generations" ∷ codes "b" ∷ [];
      name = codes "bm25.db";
    };
  };
}

profile_of_a : profile_for_slot same_text tenant slot_a ≡ ok tenant
unfolding profile_for_slot in_slots text_eq
profile_of_a = refl

profile_of_b : profile_for_slot same_text tenant slot_b ≡ ok profile_b
unfolding profile_for_slot in_slots text_eq slot_b_table
profile_of_b = refl

-- The file after the candidate `g2` was recorded for slot `b`.
abbrev recorded : File
recorded = (record_candidate_ready tenant 1 slot_b (codes "g2") (codes "{}") 2 3 absent).0

recorded_reachable : Reach tenant recorded
recorded_reachable = next absent recorded start (records 1 slot_b (codes "g2") (codes "{}") 2 3)

Reach-reads_example :
    (m : Manifest) × (read_generation_state tenant 4 recorded ≡ ok m) × OneActive tenant m
Reach-reads_example = Reach-reads tenant recorded 4 recorded_reachable

promotion_refused : (promote_candidate tenant 5 slot_b (codes "g3") 6 absent).1 ≡ err not_validated
unfolding promote_candidate text_eq
promotion_refused = refl

b_is_a_slot : in_slots slot_b ≡ true
unfolding in_slots text_eq
b_is_a_slot = refl

b_is_not_a : text_eq slot_b slot_a ≡ false
unfolding text_eq
b_is_not_a = refl

first_read : read_generation_state tenant 1 absent ≡ ok (default_generation_state tenant 1)
unfolding read_generation_state
first_read = refl

b_waits : text_eq slot_b (default_generation_state tenant 1).active_slot ≡ false
unfolding text_eq default_generation_state
b_waits = refl

abbrev value {ℓ κ} : {E : Type κ} {A : Type ℓ} → A → Result E A → A
value d (ok a) = a
value d (err e) = d

abbrev manifest_of : File → Manifest
manifest_of f = value (default_generation_state tenant 1) (read_generation_state tenant 4 f)

recorded_read : read_generation_state tenant 4 recorded ≡ ok (manifest_of recorded)
unfolding record_candidate_ready read_generation_state text_eq in_slots lookup
recorded_read = refl

abbrev promoted : File
promoted = (promote_candidate tenant 4 slot_b (codes "g2") 6 recorded).0

promoted_ok :
    promote_candidate tenant 4 slot_b (codes "g2") 6 recorded
    ≡ (promoted, ok (manifest_of promoted))
unfolding record_candidate_ready promote_candidate read_generation_state text_eq in_slots lookup
promoted_ok = refl

promote_then_restore_example :
    (m2 : Manifest) × (m3 : Manifest) × (restore_active_slot tenant 4
        (manifest_of recorded).active_slot
        9
        promoted
      ≡ (atomic_write m2, ok m2))
    × (m2.active_slot ≡ (manifest_of recorded).active_slot)
    × (m2.previous_slot ≡ some slot_b)
    × (read_generation_state tenant 10 (atomic_write m2) ≡ ok m2)
    × (promote_candidate tenant 10 slot_b (codes "g2") 11 (atomic_write m2)
        ≡ (atomic_write m3, ok m3))
    × (m3.active_slot ≡ slot_b)
promote_then_restore_example =
    promote_then_restore tenant recorded promoted 4 10 slot_b (codes "g2") 6 9 11
      (manifest_of recorded) (manifest_of promoted) recorded_reachable recorded_read b_is_a_slot
      promoted_ok

candidate_not_serving_example :
    (serving : ResolvedIndexGeneration) × (candidate : ResolvedIndexGeneration)
    × (resolve_generation same_text tenant 4 none recorded ≡ ok serving)
    × (candidate_generation same_text tenant 4 recorded ≡ ok candidate)
    × (in_slots serving.slot ≡ true)
    × (in_slots candidate.slot ≡ true)
    × (text_eq candidate.slot serving.slot ≡ false)
candidate_not_serving_example = candidate_not_serving same_text tenant 4 recorded recorded_reachable

c_is_no_slot : in_slots (codes "c") ≡ false
unfolding in_slots text_eq
c_is_no_slot = refl

outside_slot_breaks_example :
    (m2 : Manifest) × (promote_candidate tenant 5
        (codes "c")
        (codes "g2")
        6
        (record_candidate_ready tenant 1 (codes "c") (codes "g2") (codes "{}") 2 3 absent).0
      ≡ (atomic_write m2, ok m2))
    × (read_generation_state tenant 8 (atomic_write m2) ≡ err invalid_active_slot)
outside_slot_breaks_example =
    outside_slot_breaks tenant absent 1 5 8 (codes "c") (codes "g2") (codes "{}") 2 3 6 start
      c_is_no_slot
