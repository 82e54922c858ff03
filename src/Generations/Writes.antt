-- ===== src/Generations/Writes.antt =====
-- What the writes of src/storage/index_generations.py keep, and that they read back.
use querix_semantic_search.Prelude.{
  ℕ, ◌≡◌, ◌≢◌, refl, ap, ◌∙◌, inl, inr, true, false, some, List, arith, Bool-cases, is_none, Text,
  text_eq, text_eq_iff, text_eq_refl, text_eq_comm, lookup, ok,
}
use mathlib.Core.Path.{subst}
use querix_semantic_search.Generations.Manifest.{
  Status, active, standby, ready, SlotState, Profile, Manifest, slot_a, slot_b, in_slots,
  read_generation_state, validate_state, validate_active, validate_slots, atomic_write,
}
use querix_semantic_search.Generations.Operations.{other_slot, set_status, restored_manifest}
use querix_semantic_search.Generations.Slots.{
  in_slots-cases, other_slot-of, other_slot-differs, status_at, status_at-set_status,
}
use querix_semantic_search.Generations.Invariant.{OneActive, Promoted, status-of_ready}

-- The new pointer, the slot that it names and the slot that it left.
pub switched-OneActive :
    (p : Profile) (slot serving : Text) (left : Status) (slots : List (Text × SlotState))
    (found : Status) (old : Status) (m' : Manifest)
    → left ≢ active
    → in_slots slot ≡ true
    → in_slots serving ≡ true
    → text_eq slot serving ≡ false
    → status_at slot slots ≡ some found
    → status_at serving slots ≡ some old
    → m'.company_id ≡ p.company_id
    → m'.active_slot ≡ slot
    → m'.slots ≡ set_status serving left (set_status slot active slots)
    → OneActive p m'
switched-OneActive p slot serving left slots found old m' idle hs hv differ es ev owner ea ess =
    let back : text_eq serving slot ≡ false = (text_eq_comm serving slot ∙ differ) in
    record {
      owner = owner;
      slot = rw ea hs;
      serving =
          rw
            (
              ea,
              ess,
              status_at-set_status serving slot left (set_status slot active slots),
              back,
              status_at-set_status slot slot active slots,
              text_eq_refl slot,
              es,
            )
            refl;
      idle = left;
      waiting =
          rw
            (
              ea,
              ess,
              other_slot-of slot serving hs hv differ,
              status_at-set_status serving serving left (set_status slot active slots),
              text_eq_refl serving,
              status_at-set_status slot serving active slots,
              differ,
              ev,
            )
            refl;
      not_active = idle;
    }

pub Promoted-OneActive :
    (p : Profile) (slot generation : Text) (promoted_at : ℕ) (m m' : Manifest)
    → in_slots slot ≡ true
    → OneActive p m
    → Promoted slot generation promoted_at m m'
    → OneActive p m'
Promoted-OneActive p slot generation promoted_at m m' hs v x =
    switched-OneActive p slot m.active_slot standby m.slots ready active m' (λ e. cc) hs v.slot
      x.differs (status-of_ready slot m.slots x.was_ready) v.serving
      (ap (λ (y : Manifest). y.company_id) x.result ∙ v.owner)
      (ap (λ (y : Manifest). y.active_slot) x.result) (ap (λ (y : Manifest). y.slots) x.result)

pub restored-OneActive :
    (p : Profile) (slot : Text) (updated_at : ℕ) (m : Manifest)
    → in_slots slot ≡ true
    → OneActive p m
    → OneActive p (restored_manifest slot updated_at m)
unfolding restored_manifest
restored-OneActive p slot updated_at m hs v = elim (Bool-cases (text_eq m.active_slot slot)) [
  | inl same ↦
      let es : m.active_slot ≡ slot = ((text_eq_iff m.active_slot slot).0 same) in
      record {
        owner = v.owner;
        slot = hs;
        serving =
            rw
              (
                same,
                status_at-set_status slot slot active m.slots,
                text_eq_refl slot,
                ← es,
                v.serving,
              )
              refl;
        idle = v.idle;
        waiting =
            rw
              (
                same,
                status_at-set_status slot (other_slot slot) active m.slots,
                text_eq_comm slot (other_slot slot),
                other_slot-differs slot hs,
                ← es,
              )
              v.waiting;
        not_active = v.not_active;
      }
  | inr differ ↦
      let moved : text_eq slot m.active_slot ≡ false = (text_eq_comm slot m.active_slot ∙ differ) in
      let there : status_at slot m.slots ≡ some v.idle =
        (subst (λ k. status_at k m.slots ≡ some v.idle)
          (other_slot-of m.active_slot slot v.slot hs differ) v.waiting) in
      switched-OneActive p slot m.active_slot ready m.slots v.idle active _ (λ e. cc) hs v.slot
        moved there v.serving v.owner refl (rw differ refl)
]

has-of_status :
    (k : Text) (slots : List (Text × SlotState)) {s : Status}
    → status_at k slots ≡ some s
    → is_none (lookup k slots) ≡ false
unfolding status_at
has-of_status k slots h = ground (arith, h)

both-slots :
    (p : Profile) (m : Manifest)
    → OneActive p m
    → (is_none (lookup slot_a m.slots) ≡ false) × (is_none (lookup slot_b m.slots) ≡ false)
unfolding text_eq
both-slots p m v = elim (in_slots-cases m.active_slot v.slot) [
  | inl e ↦ (
    has-of_status slot_a m.slots (rw e at v.serving),
    has-of_status slot_b m.slots (rw e at v.waiting),
  )
  | inr e ↦ (
    has-of_status slot_a m.slots (rw e at v.waiting),
    has-of_status slot_b m.slots (rw e at v.serving),
  )
]

-- A manifest that is written reads back as it was.
pub read-atomic_write :
    (p : Profile) (now : ℕ) (m : Manifest)
    → OneActive p m
    → read_generation_state p now (atomic_write m) ≡ ok m
unfolding read_generation_state atomic_write validate_state validate_active validate_slots
read-atomic_write p now m v =
    let (ha, hb) = both-slots p m v in
    rw (v.owner, text_eq_refl p.company_id, v.slot, ha, hb, ← v.owner) refl
