-- ===== src/Generations/Rollback.antt =====
-- Promoting a recorded candidate, and rolling back.
use querix_semantic_search.Prelude.{
  ℕ, ◌≡◌, refl, sym, ap, ◌∙◌, true, false, some, List, Text, text_eq, text_eq_refl, text_eq_comm,
  lookup, insert, lookup-insert, Result, ok,
}
use querix_semantic_search.Generations.Manifest.{
  GenerationError, active, standby, ready, SlotState, Profile, Manifest, File, in_slots,
  read_generation_state, atomic_write,
}
use querix_semantic_search.Generations.Operations.{
  written, record_candidate_ready, promoted_manifest, promote_candidate, restored_manifest,
  restore_active_slot, is_generation, set_status,
}
use querix_semantic_search.Generations.Slots.{status_at, status_at-set_status}
use querix_semantic_search.Generations.Invariant.{
  ready_manifest-OneActive, Promoted, promoted_manifest-Promoted, status-of_ready,
}
use querix_semantic_search.Generations.Writes.{
  Promoted-OneActive, restored-OneActive, read-atomic_write,
}
use querix_semantic_search.Generations.Reach.{Reach, manifest, Reach-Sound}
use querix_semantic_search.Generations.Promotions.{
  ready-of_status, is_generation-set_status, written-ok, ensured-at, promote_candidate-ensured,
  record_candidate_ready-ensured, restore_active_slot-ensured, promotes-written, ready_manifest-ok,
}

-- On a reachable manifest, a candidate that was recorded as ready for the slot that does not serve
-- is promoted under the generation recorded: the slot becomes the active one, the slot that served
-- becomes the previous one, and a later read finds the new manifest.
pub record_then_promote :
    (p : Profile) (f : File) (now now2 later : ℕ) (slot generation validation : Text) (va ua t : ℕ)
    (m : Manifest)
    → Reach p f
    → read_generation_state p now f ≡ ok m
    → in_slots slot ≡ true
    → text_eq slot m.active_slot ≡ false
    → (m2 : Manifest) × (promote_candidate p now2 slot generation t
          (record_candidate_ready p now slot generation validation va ua f).0
        ≡ (atomic_write m2, ok m2))
      × (m2.active_slot ≡ slot)
      × (m2.previous_slot ≡ some m.active_slot)
      × (read_generation_state p later (atomic_write m2) ≡ ok m2)
record_then_promote p f now now2 later slot generation validation va ua t m r em hs differ =
    let (e, v) = ensured-at p now f m (Reach-Sound p f r) em in
    let entry : SlotState = record {
      generation = some generation;
      status = ready;
      validated_at = some va;
      validation = some validation;
    } in
    let m1 : Manifest = record m { slots = insert slot entry m.slots; updated_at = some ua } in
    let e1 = ready_manifest-ok slot generation validation va ua m differ in
    let v1 = ready_manifest-OneActive p slot generation validation va ua m m1 v e1 in
    let there : lookup slot m1.slots ≡ some entry =
      (rw (lookup-insert slot slot entry m.slots, text_eq_refl slot) refl) in
    let (m2, e2, a, b, k) =
      promotes-written p now2 slot generation t m1 v1 differ (rw there refl)
        (rw (there, text_eq_refl generation) refl) in
    let v2 = Promoted-OneActive p slot generation t m1 m2 hs v1 k in
    let recorded =
      record_candidate_ready-ensured p now slot generation validation va ua f m e
      ∙ ap (written (atomic_write m)) e1 in
    (
      m2,
      ap
            (λ (z : File × Result GenerationError Manifest).
              promote_candidate p now2 slot generation t z.0)
            recorded
          ∙ e2,
      a,
      b,
      read-atomic_write p later m2 v2,
    )

status-restored :
    (slot old : Text) (slots : List (Text × SlotState))
    → text_eq slot old ≡ false
    → status_at slot slots ≡ some ready
    → status_at slot (
        set_status slot ready
          (set_status old active (set_status old standby (set_status slot active slots))))
      ≡ some ready
status-restored slot old slots differ h =
    let back : text_eq old slot ≡ false = (text_eq_comm old slot ∙ differ) in
    rw
      (
        status_at-set_status slot slot ready
            (set_status old active (set_status old standby (set_status slot active slots))),
        text_eq_refl slot,
        status_at-set_status old slot active
            (set_status old standby (set_status slot active slots)),
        back,
        status_at-set_status old slot standby (set_status slot active slots),
        back,
        status_at-set_status slot slot active slots,
        text_eq_refl slot,
        h,
      )
      refl

four-writes :
    (g slot old : Text) (slots : List (Text × SlotState))
    → is_generation g (
        lookup slot (
          set_status slot ready
            (set_status old active (set_status old standby (set_status slot active slots)))))
      ≡ is_generation g (lookup slot slots)
four-writes g slot old slots =
    is_generation-set_status g slot slot ready
      (set_status old active (set_status old standby (set_status slot active slots)))
    ∙ is_generation-set_status g slot old active
        (set_status old standby (set_status slot active slots))
    ∙ is_generation-set_status g slot old standby (set_status slot active slots)
    ∙ is_generation-set_status g slot slot active slots

-- The manifest after a promotion and the restoration of the slot before it.
restored_back :
    (slot generation : Text) (t ua : ℕ) (m m1 : Manifest)
    → Promoted slot generation t m m1
    → ((restored_manifest m.active_slot ua m1).slots
        ≡ set_status slot ready (
            set_status m.active_slot active
              (set_status m.active_slot standby (set_status slot active m.slots))))
      × ((restored_manifest m.active_slot ua m1).active_slot ≡ m.active_slot)
      × ((restored_manifest m.active_slot ua m1).previous_slot ≡ some slot)
unfolding restored_manifest
restored_back slot generation t ua m m1 k =
    let a1 : m1.active_slot ≡ slot = (ap (λ (z : Manifest). z.active_slot) k.result) in
    let s1 = ap (λ (z : Manifest). z.slots) k.result in
    (rw (a1, k.differs, s1) refl, refl, ap some a1)

-- On a reachable manifest, after a promotion the previous slot is restored as the active one, the
-- restored manifest is what a later read finds, and the promoted generation, ready again, can be
-- promoted once more without another validation.
pub promote_then_restore :
    (p : Profile) (f f1 : File) (now later : ℕ) (slot generation : Text) (t ua t2 : ℕ)
    (m m1 : Manifest)
    → Reach p f
    → read_generation_state p now f ≡ ok m
    → in_slots slot ≡ true
    → promote_candidate p now slot generation t f ≡ (f1, ok m1)
    → (m2 : Manifest) × (m3 : Manifest) × (restore_active_slot p now m.active_slot ua f1
        ≡ (atomic_write m2, ok m2))
      × (m2.active_slot ≡ m.active_slot)
      × (m2.previous_slot ≡ some slot)
      × (read_generation_state p later (atomic_write m2) ≡ ok m2)
      × (promote_candidate p later slot generation t2 (atomic_write m2) ≡ (atomic_write m3, ok m3))
      × (m3.active_slot ≡ slot)
promote_then_restore p f f1 now later slot generation t ua t2 m m1 r em hs e =
    let (en, v) = ensured-at p now f m (Reach-Sound p f r) em in
    let (e1, ef) =
      written-ok (atomic_write m) f1 (promoted_manifest slot generation t m) m1
        (sym (promote_candidate-ensured p now slot generation t f m en) ∙ e) in
    let k = promoted_manifest-Promoted slot generation t m m1 e1 in
    let v1 = Promoted-OneActive p slot generation t m m1 hs v k in
    let (en1, _) =
      ensured-at p now (atomic_write m1) m1 (manifest m1 v1) (read-atomic_write p now m1 v1) in
    let m2 = restored_manifest m.active_slot ua m1 in
    let v2 = restored-OneActive p m.active_slot ua m1 v.slot v1 in
    let (s2, a2, b2) = restored_back slot generation t ua m m1 k in
    let ready2 = ready-of_status slot m2.slots (
      rw s2 (
        status-restored slot m.active_slot m.slots k.differs
          (status-of_ready slot m.slots k.was_ready))) in
    let gen2 : is_generation generation (lookup slot m2.slots) ≡ true =
      (rw s2 (four-writes generation slot m.active_slot m.slots ∙ k.same_generation)) in
    let (m3, e3, a3, _, _) =
      promotes-written p later slot generation t2 m2 v2 (ap (text_eq slot) a2 ∙ k.differs) ready2
        gen2 in
    (
      m2,
      m3,
      ap (restore_active_slot p now m.active_slot ua) ef
          ∙ restore_active_slot-ensured p now m.active_slot ua (atomic_write m1) m1 v.slot en1,
      a2,
      b2,
      read-atomic_write p later m2 v2,
      e3,
      a3,
    )
