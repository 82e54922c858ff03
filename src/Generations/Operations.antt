-- ===== src/Generations/Operations.antt =====
-- The operations of src/storage/index_generations.py: the file after the call, and the manifest
-- returned or the exception.
use querix_semantic_search.Prelude.{
  ℕ, Bool, true, false, not, Option, none, some, List, [], ◌∷◌, ◌++◌, if◌then◌else◌, Result, ok,
  err, ◌>>=◌, Text, codes, text_eq, lookup, insert,
}
use querix_semantic_search.Generations.Manifest.{
  GenerationError, unknown_slot, unsupported_slot, slot_is_active, not_validated,
  generation_changed, Status, active, standby, ready, SlotState, File, absent, Manifest, FilePath,
  Profile, slot_a, slot_b, in_slots, generation_manifest_path, profile_for_slot,
  read_generation_state, atomic_write,
}

-- `ensure_generation_state`.
unfoldable pub ensure_generation_state : Profile → ℕ → File → File × Result GenerationError Manifest
unfolding read_generation_state atomic_write
ensure_generation_state p now absent = elim (read_generation_state p now absent) [
  | ok m ↦ (atomic_write m, ok m)
  | err e ↦ (absent, err e)
]
ensure_generation_state p now f = (f, read_generation_state p now f)

pub record ResolvedIndexGeneration : Type 0 where
  pub slot : Text
  pub generation : Text
  pub profile : Profile
  pub manifest_path : FilePath

-- `x or default` on a text.
abbrev pub or_text : Text → Option Text → Text
or_text d none = d
or_text d (some []) = d
or_text d (some (c ∷ s)) = c ∷ s

abbrev pub generation_of : Option SlotState → Option Text
generation_of none = none
generation_of (some s) = s.generation

unfoldable pub resolve_generation :
    (Text → Text)
    → Profile
    → ℕ
    → Option Text
    → File
    → Result GenerationError ResolvedIndexGeneration
unfolding read_generation_state in_slots profile_for_slot lookup
resolve_generation sha256_hex p now slot f = do
  m ← read_generation_state p now f
  let selected = or_text m.active_slot slot
  if in_slots selected
      then (do
        profile ← profile_for_slot sha256_hex p selected
        ok (record {
          slot = selected;
          generation =
              or_text (codes "uninitialized-" ++ selected)
                (generation_of (lookup selected m.slots));
          profile = profile;
          manifest_path = generation_manifest_path p;
        }))
      else err unknown_slot

-- The slot that does not serve.
abbrev pub other_slot : Text → Text
other_slot serving = if text_eq serving slot_a then slot_b else slot_a

unfoldable pub candidate_generation :
    (Text → Text) → Profile → ℕ → File → Result GenerationError ResolvedIndexGeneration
unfolding read_generation_state resolve_generation
candidate_generation sha256_hex p now f = do
  m ← read_generation_state p now f
  resolve_generation sha256_hex p now (some (other_slot m.active_slot)) f

unfoldable pub set_status : Text → Status → List (Text × SlotState) → List (Text × SlotState)
set_status slot status [] = []
set_status slot status ((k, s) ∷ slots) =
    if text_eq k slot
    then (k, record s { status = status }) ∷ slots
    else (k, s) ∷ set_status slot status slots

-- A successful change is written; an exception leaves the file as it is.
abbrev pub written : File → Result GenerationError Manifest → File × Result GenerationError Manifest
written f (ok m) = (atomic_write m, ok m)
written f (err e) = (f, err e)

unfoldable pub ready_manifest :
    Text → Text → Text → ℕ → ℕ → Manifest → Result GenerationError Manifest
unfolding insert
ready_manifest slot generation validation validated_at updated_at m =
    if text_eq slot m.active_slot
    then err slot_is_active
    else ok (record m {
      slots =
          insert slot
            (record {
              generation = some generation;
              status = ready;
              validated_at = some validated_at;
              validation = some validation;
            })
            m.slots;
      updated_at = some updated_at;
    })

unfoldable pub record_candidate_ready :
    Profile → ℕ → Text → Text → Text → ℕ → ℕ → File → File × Result GenerationError Manifest
unfolding ensure_generation_state ready_manifest atomic_write
record_candidate_ready p now slot generation validation validated_at updated_at f =
    let (f1, r) = ensure_generation_state p now f in
    written f1 (r >>= ready_manifest slot generation validation validated_at updated_at)

abbrev pub is_ready : Option SlotState → Bool
is_ready none = false
is_ready (some s) = elim s.status [ ready ↦ true | _ ↦ false ]

abbrev pub is_generation : Text → Option SlotState → Bool
is_generation g none = false
is_generation g (some s) = elim s.generation [ none ↦ false | some h ↦ text_eq h g ]

unfoldable pub promoted_manifest : Text → Text → ℕ → Manifest → Result GenerationError Manifest
unfolding lookup set_status
promoted_manifest slot generation promoted_at m =
    if text_eq slot m.active_slot
    then err slot_is_active
    else if not (is_ready (lookup slot m.slots))
    then err not_validated
    else if not (is_generation generation (lookup slot m.slots))
    then err generation_changed
    else ok (record m {
      active_slot = slot;
      previous_slot = some m.active_slot;
      promoted_at = some promoted_at;
      updated_at = some promoted_at;
      slots = set_status m.active_slot standby (set_status slot active m.slots);
    })

unfoldable pub promote_candidate :
    Profile → ℕ → Text → Text → ℕ → File → File × Result GenerationError Manifest
unfolding ensure_generation_state promoted_manifest atomic_write
promote_candidate p now slot generation promoted_at f =
    let (f1, r) = ensure_generation_state p now f in
    written f1 (r >>= promoted_manifest slot generation promoted_at)

unfoldable pub restored_manifest : Text → ℕ → Manifest → Manifest
unfolding set_status
restored_manifest slot updated_at m = record m {
  active_slot = slot;
  previous_slot = some m.active_slot;
  updated_at = some updated_at;
  slots =
      if text_eq m.active_slot slot
      then set_status slot active m.slots
      else set_status m.active_slot ready (set_status slot active m.slots);
}

unfoldable pub restore_active_slot :
    Profile → ℕ → Text → ℕ → File → File × Result GenerationError Manifest
unfolding in_slots ensure_generation_state restored_manifest atomic_write
restore_active_slot p now slot updated_at f =
    let (f1, r) = ensure_generation_state p now f in
    if not (in_slots slot)
    then (f, err unsupported_slot)
    else written f1 (r >>= λ m. ok (restored_manifest slot updated_at m))
