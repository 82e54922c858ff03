-- ===== src/Generations/Slots.antt =====
-- The two slots, and the entries that the writes of src/storage/index_generations.py leave.
use querix_semantic_search.Prelude.{
  ℕ, ◌+◌, ◌≤◌, ◌≡◌, ◌≢◌, refl, sym, ap, ◌∙◌, ◌⊎◌, inl, inr, true, false, Option, none, some, List,
  [], ◌∷◌, ◌++◌, arith, if◌then◌else◌, Bool-cases, is_none, length, take, length-append,
  length-take-le, leb, Text, codes, text_eq, text_eq_iff, lookup, insert, lookup-insert, ok,
  ok-injective,
}
use querix_semantic_search.Generations.Manifest.{
  FilePath, Status, SlotState, Profile, slot_a, slot_b, in_slots, slot_b_table, profile_for_slot,
}
use querix_semantic_search.Generations.Operations.{other_slot, set_status}

pub in_slots-cases : (s : Text) → in_slots s ≡ true → (s ≡ slot_a) ⊎ (s ≡ slot_b)
unfolding in_slots
in_slots-cases s h = elim (Bool-cases (text_eq s slot_a)) [
  | inl a ↦ inl ((text_eq_iff s slot_a).0 a)
  | inr other ↦ inr ((text_eq_iff s slot_b).0 (ground (arith, h, other)))
]

-- Of two different slots each is the other's other.
pub other_slot-of :
    (s t : Text) → in_slots s ≡ true → in_slots t ≡ true → text_eq s t ≡ false → other_slot s ≡ t
unfolding text_eq
other_slot-of s t hs ht differ = elim (in_slots-cases s hs) [
  | inl es ↦ elim (in_slots-cases t ht) [
    | inl et ↦ absurd (let d = (rw (es, et) at differ) in cc)
    | inr et ↦ rw (es, et) refl
  ]
  | inr es ↦ elim (in_slots-cases t ht) [
    | inl et ↦ rw (es, et) refl
    | inr et ↦ absurd (let d = (rw (es, et) at differ) in cc)
  ]
]

pub other_slot-in_slots : (s : Text) → in_slots (other_slot s) ≡ true
unfolding in_slots text_eq
other_slot-in_slots s = elim (Bool-cases (text_eq s slot_a)) [
  | inl a ↦ rw a refl
  | inr b ↦ rw b refl
]

pub other_slot-differs : (s : Text) → in_slots s ≡ true → text_eq (other_slot s) s ≡ false
unfolding text_eq
other_slot-differs s h = elim (in_slots-cases s h) [ inl e ↦ rw e refl | inr e ↦ rw e refl ]

abbrev pub status_of : Option SlotState → Option Status
status_of none = none
status_of (some s) = some s.status

-- The status that the manifest has for a slot.
unfoldable pub status_at : Text → List (Text × SlotState) → Option Status
unfolding lookup
status_at k slots = status_of (lookup k slots)

pub status_at-set_status :
    (k j : Text) (status : Status) (slots : List (Text × SlotState))
    → status_at j (set_status k status slots) ≡ (
        if text_eq k j
        then (if is_none (status_at j slots) then none else some status)
        else status_at j slots)
unfolding status_at lookup set_status
status_at-set_status k j status [] = ground arith
status_at-set_status k j status ((i, s) ∷ slots) = ground (
  arith,
  text_eq_iff k j,
  text_eq_iff i k,
  text_eq_iff i j,
  status_at-set_status k j status slots,
)

pub status_at-insert :
    (k j : Text) (s : SlotState) (slots : List (Text × SlotState))
    → status_at j (insert k s slots) ≡ (if text_eq k j then some s.status else status_at j slots)
unfolding status_at
status_at-insert k j s slots = elim (Bool-cases (text_eq k j)) [
  | inl hit ↦ rw (lookup-insert k j s slots, hit) refl
  | inr miss ↦ rw (lookup-insert k j s slots, miss) refl
]

slot_b_table-longer :
    (sha256_hex : Text → Text) (base : Text)
    → length base ≤ 60
    → length (slot_b_table sha256_hex base) ≡ length base + 3
unfolding slot_b_table
slot_b_table-longer sha256_hex base short =
    let fits : leb (length base + 3) 63 ≡ true = (ground arith) in
    rw fits (length-append base (codes "__b"))

-- The table of slot `b` has a name that PostgreSQL keeps whole, whatever the hash function.
pub slot_b_table_fits :
    (sha256_hex : Text → Text) (base : Text) → length (slot_b_table sha256_hex base) ≤ 63
unfolding slot_b_table
slot_b_table_fits sha256_hex base = elim (Bool-cases (leb (length base + 3) 63)) [
  | inl short ↦ rw short (ground (arith, short, length-append base (codes "__b")))
  | inr long ↦
      let h = length-take-le 51 base in
      let k = length-take-le 8 (sha256_hex base) in
      rw long (
        ground (
          arith,
          h,
          k,
          length-append (take 51 base) (codes "_" ++ take 8 (sha256_hex base) ++ codes "_b"),
          length-append (take 8 (sha256_hex base)) (codes "_b"),
        ))
]

-- When the name of the configured table has at most 60 characters, the two slots of a profile
-- share neither a table nor an index file, and the name of slot `b`'s table is kept whole.
pub slots_disjoint :
    (sha256_hex : Text → Text) (p pa pb : Profile)
    → length p.storage.pgvector_table ≤ 60
    → profile_for_slot sha256_hex p slot_a ≡ ok pa
    → profile_for_slot sha256_hex p slot_b ≡ ok pb
    → (pa.storage.bm25_path ≢ pb.storage.bm25_path)
      × (pa.storage.pgvector_table ≢ pb.storage.pgvector_table)
      × (length pb.storage.pgvector_table ≤ 63)
unfolding profile_for_slot in_slots text_eq
slots_disjoint sha256_hex p pa pb short ea eb =
    let a = ok-injective ea in
    let b = ok-injective eb in
    let base = p.storage.pgvector_table in
    let table_b : pb.storage.pgvector_table ≡ slot_b_table sha256_hex base =
      (ap (λ (x : Profile). x.storage.pgvector_table) (sym b)) in
    let table_a : pa.storage.pgvector_table ≡ base =
      (ap (λ (x : Profile). x.storage.pgvector_table) (sym a)) in
    let parent_b = ap (λ (x : Profile). length x.storage.bm25_path.parent) (sym b) in
    let parent_a = ap (λ (x : Profile). length x.storage.bm25_path.parent) (sym a) in
    let longer = length-append p.storage.bm25_path.parent (codes "generations" ∷ codes "b" ∷ []) in
    (
      λ same.
          let l = ap (λ (x : FilePath). length x.parent) same in
          omega (arith, l, parent_a, parent_b, longer),
      λ same.
          let l = slot_b_table-longer sha256_hex base short in
          let m = ap (length {A = ℕ}) (sym table_a ∙ same ∙ table_b) in omega (arith, l, m),
      rw table_b (slot_b_table_fits sha256_hex base),
    )
