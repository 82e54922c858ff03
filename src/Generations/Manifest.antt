-- ===== src/Generations/Manifest.antt =====
-- The manifest of src/storage/index_generations.py, its validation, its file, and the storage of a
-- slot. The company id is unchanged by a write; JSON values of a wrong type count as missing.
use querix_semantic_search.Prelude.{
  ℕ, ◌+◌, Bool, false, not, ◌||◌, Option, none, some, List, [], ◌∷◌, ◌++◌, leb, ◌==◌, if◌then◌else◌,
  length, take, Result, ok, err, Text, codes, text_eq, lookup, is_none,
}

pub data GenerationError : Type 0 where
  not_an_object unsupported_schema company_mismatch invalid_active_slot missing_slot :
      GenerationError
  unreadable_manifest unknown_slot unsupported_slot slot_is_active not_validated : GenerationError
  generation_changed : GenerationError

pub data Status : Type 0 where
  active standby ready empty other_status : Status

pub record SlotState : Type 0 where
  pub generation : Option Text
  pub status : Status
  pub validated_at : Option ℕ
  pub validation : Option Text

pub record Raw : Type 0 where
  pub schema_version : Option ℕ
  pub company_id : Option Text
  pub active_slot : Option Text
  pub updated_at : Option ℕ
  pub previous_slot : Option Text
  pub promoted_at : Option ℕ
  pub slots : Option (List (Text × SlotState))

pub data Document : Type 0 where
  not_object : Document
  object : Raw → Document

-- The manifest's path: no file, one that does not read as JSON, or one that does.
pub data File : Type 0 where
  absent unreadable : File
  present : Document → File

-- A validated manifest.
pub record Manifest : Type 0 where
  pub company_id : Text
  pub active_slot : Text
  pub updated_at : Option ℕ
  pub previous_slot : Option Text
  pub promoted_at : Option ℕ
  pub slots : List (Text × SlotState)

-- A path, as its directories and its name.
pub record FilePath : Type 0 where
  pub parent : List Text
  pub name : Text

pub record Storage : Type 0 where
  pub pgvector_table : Text
  pub bm25_path : FilePath

pub record Profile : Type 0 where
  pub company_id : Text
  pub storage : Storage

abbrev pub slot_a : Text
slot_a = codes "a"

abbrev pub slot_b : Text
slot_b = codes "b"

-- `slot in SLOTS`.
unfoldable pub in_slots : Text → Bool
in_slots slot = text_eq slot slot_a || text_eq slot slot_b

-- `generation_manifest_path`.
abbrev pub generation_manifest_path : Profile → FilePath
generation_manifest_path p = record {
  parent = p.storage.bm25_path.parent;
  name = codes "index-generations.json";
}

-- `_slot_b_table`, by the hexadecimal SHA-256 of the name.
unfoldable pub slot_b_table : (Text → Text) → Text → Text
slot_b_table sha256_hex base =
    if leb (length base + 3) 63
    then base ++ codes "__b"
    else take 51 base ++ codes "_" ++ take 8 (sha256_hex base) ++ codes "_b"

unfoldable pub profile_for_slot : (Text → Text) → Profile → Text → Result GenerationError Profile
unfolding in_slots slot_b_table
profile_for_slot sha256_hex p slot =
    if not (in_slots slot)
    then err unsupported_slot
    else if text_eq slot slot_a
    then ok p
    else ok (record p {
      storage = record {
        pgvector_table = slot_b_table sha256_hex p.storage.pgvector_table;
        bm25_path = record {
          parent = p.storage.bm25_path.parent ++ codes "generations" ∷ codes "b" ∷ [];
          name = p.storage.bm25_path.name;
        };
      };
    })

unfoldable pub default_generation_state : Profile → ℕ → Manifest
default_generation_state p now = record {
  company_id = p.company_id;
  active_slot = slot_a;
  updated_at = some now;
  previous_slot = none;
  promoted_at = none;
  slots =
      (
        slot_a,
        record {
          generation = some (codes "legacy-a");
          status = active;
          validated_at = none;
          validation = none;
        },
      )
      ∷ (
        slot_b,
        record { generation = none; status = empty; validated_at = none; validation = none },
      )
      ∷ [];
}

abbrev is_number : ℕ → Option ℕ → Bool
is_number n none = false
is_number n (some m) = m == n

abbrev is_text : Text → Option Text → Bool
is_text s none = false
is_text s (some t) = text_eq t s

unfoldable pub validate_slots :
    Profile → Raw → Text → Option (List (Text × SlotState)) → Result GenerationError Manifest
unfolding lookup
validate_slots p r serving none = err missing_slot
validate_slots p r serving (some slots) =
    if is_none (lookup slot_a slots) || is_none (lookup slot_b slots)
    then err missing_slot
    else ok (record {
      company_id = p.company_id;
      active_slot = serving;
      updated_at = r.updated_at;
      previous_slot = r.previous_slot;
      promoted_at = r.promoted_at;
      slots = slots;
    })

unfoldable pub validate_active : Profile → Raw → Option Text → Result GenerationError Manifest
unfolding in_slots validate_slots
validate_active p r none = err invalid_active_slot
validate_active p r (some serving) =
    if in_slots serving then validate_slots p r serving r.slots else err invalid_active_slot

-- `_validate_state`.
unfoldable pub validate_state : Profile → Document → Result GenerationError Manifest
unfolding validate_active
validate_state p not_object = err not_an_object
validate_state p (object r) =
    if not (is_number 1 r.schema_version)
    then err unsupported_schema
    else if not (is_text p.company_id r.company_id)
    then err company_mismatch
    else validate_active p r r.active_slot

-- `read_generation_state`.
unfoldable pub read_generation_state : Profile → ℕ → File → Result GenerationError Manifest
unfolding default_generation_state validate_state
read_generation_state p now absent = ok (default_generation_state p now)
read_generation_state p now unreadable = err unreadable_manifest
read_generation_state p now (present d) = validate_state p d

-- `_atomic_write`: what the file then holds.
unfoldable pub atomic_write : Manifest → File
atomic_write m = present (
    object (record {
      schema_version = some 1;
      company_id = some m.company_id;
      active_slot = some m.active_slot;
      updated_at = m.updated_at;
      previous_slot = m.previous_slot;
      promoted_at = m.promoted_at;
      slots = some m.slots;
    }))
