-- ===== src/Generations/Promotions.antt =====
-- A promotion on a manifest that reads: what it needs, and what a refusal leaves.
use querix_semantic_search.Prelude.{
  ℕ, ◌≡◌, refl, sym, ap, ◌∙◌, true, false, Option, none, some, List, [], ◌∷◌, arith, Text, text_eq,
  text_eq_iff, lookup, insert, Result, ok, err, ok-injective,
}
use mathlib.Core.Path.{subst}
use mathlib.Core.Option.{some-injective}
use querix_semantic_search.Generations.Manifest.{
  GenerationError, Status, active, standby, ready, SlotState, Profile, Manifest, File, in_slots,
  read_generation_state, atomic_write,
}
use querix_semantic_search.Generations.Operations.{
  ensure_generation_state, written, ready_manifest, record_candidate_ready, promoted_manifest,
  promote_candidate, restored_manifest, restore_active_slot, is_ready, is_generation, set_status,
}
use querix_semantic_search.Generations.Slots.{status_of, status_at}
use querix_semantic_search.Generations.Invariant.{OneActive, Promoted, promoted_manifest-Promoted}
use querix_semantic_search.Generations.Writes.{read-atomic_write}
use querix_semantic_search.Generations.Reach.{
  Reach, Sound, manifest, Ensured, Sound-Ensured, Reach-Sound,
}

-- A promotion that is refused changes nothing that a reader sees: the manifest read afterwards is
-- the one read before, and its active slot still serves.
pub refused_promotion :
    (p : Profile) (f : File) (now : ℕ) (slot generation : Text) (promoted_at later : ℕ)
    (e : GenerationError)
    → Reach p f
    → (promote_candidate p now slot generation promoted_at f).1 ≡ err e
    → read_generation_state p later (promote_candidate p now slot generation promoted_at f).0
      ≡ read_generation_state p now f
unfolding promote_candidate
refused_promotion p f now slot generation t later e r h =
    let x = Sound-Ensured p now f (Reach-Sound p f r) in
    go x (promoted_manifest slot generation t x.state) refl (rw x.ensured at h)
  where
    go :
        (x : Ensured p now f) (o : Result GenerationError Manifest)
        → promoted_manifest slot generation t x.state ≡ o
        → (written (atomic_write x.state) (promoted_manifest slot generation t x.state)).1 ≡ err e
        → read_generation_state p later (promote_candidate p now slot generation t f).0
          ≡ read_generation_state p now f
    go x (ok m) eo h' = absurd (let h2 = (rw eo at h') in cc)
    go x (err e') eo h' =
        rw (x.ensured, eo, read-atomic_write p later x.state x.one_active, x.readable) refl

pub is_generation-set_status :
    (g j k : Text) (status : Status) (slots : List (Text × SlotState))
    → is_generation g (lookup j (set_status k status slots)) ≡ is_generation g (lookup j slots)
unfolding lookup set_status
is_generation-set_status g j k status [] = refl
is_generation-set_status g j k status ((i, s) ∷ slots) =
    ground (arith, text_eq_iff i k, text_eq_iff i j, is_generation-set_status g j k status slots)

pub ready-of_status :
    (slot : Text) (slots : List (Text × SlotState))
    → status_at slot slots ≡ some ready
    → is_ready (lookup slot slots) ≡ true
unfolding status_at
ready-of_status slot slots h = go (lookup slot slots) h
  where
    go : (o : Option SlotState) → status_of o ≡ some ready → is_ready o ≡ true
    go none x = absurd (cc)
    go (some s) x = rw (some-injective (s.status) ready x) refl

-- The checks of a promotion, met.
promoted_manifest-ok :
    (slot generation : Text) (t : ℕ) (m : Manifest)
    → text_eq slot m.active_slot ≡ false
    → is_ready (lookup slot m.slots) ≡ true
    → is_generation generation (lookup slot m.slots) ≡ true
    → promoted_manifest slot generation t m
      ≡ ok (record m {
        active_slot = slot;
        previous_slot = some m.active_slot;
        promoted_at = some t;
        updated_at = some t;
        slots = set_status m.active_slot standby (set_status slot active m.slots);
      })
unfolding promoted_manifest
promoted_manifest-ok slot generation t m differ h g = rw (differ, h, g) refl

pub written-ok :
    (f f1 : File) (r : Result GenerationError Manifest) (m1 : Manifest)
    → written f r ≡ (f1, ok m1)
    → (r ≡ ok m1) × (f1 ≡ atomic_write m1)
written-ok f f1 (err e) m1 h =
    absurd (let h1 = ap (λ (x : File × Result GenerationError Manifest). x.1) h in cc)
written-ok f f1 (ok m) m1 h =
    let h1 : m ≡ m1 = ok-injective (ap (λ (x : File × Result GenerationError Manifest). x.1) h) in
    let h0 = ap (λ (x : File × Result GenerationError Manifest). x.0) h in
    (ap ok h1, sym h0 ∙ ap atomic_write h1)

-- The manifest that is read is the one that an operation works on.
pub ensured-at :
    (p : Profile) (now : ℕ) (f : File) (m : Manifest)
    → Sound p f
    → read_generation_state p now f ≡ ok m
    → (ensure_generation_state p now f ≡ (atomic_write m, ok m)) × OneActive p m
ensured-at p now f m s em =
    let x = Sound-Ensured p now f s in
    subst
      (λ (z : Manifest). (ensure_generation_state p now f ≡ (atomic_write z, ok z)) × OneActive p z)
      (ok-injective (sym x.readable ∙ em)) (x.ensured, x.one_active)

pub promote_candidate-ensured :
    (p : Profile) (now : ℕ) (slot generation : Text) (t : ℕ) (f : File) (m : Manifest)
    → ensure_generation_state p now f ≡ (atomic_write m, ok m)
    → promote_candidate p now slot generation t f
      ≡ written (atomic_write m) (promoted_manifest slot generation t m)
unfolding promote_candidate
promote_candidate-ensured p now slot generation t f m e = rw e refl

pub record_candidate_ready-ensured :
    (p : Profile) (now : ℕ) (slot generation validation : Text) (va ua : ℕ) (f : File)
    (m : Manifest)
    → ensure_generation_state p now f ≡ (atomic_write m, ok m)
    → record_candidate_ready p now slot generation validation va ua f
      ≡ written (atomic_write m) (ready_manifest slot generation validation va ua m)
unfolding record_candidate_ready
record_candidate_ready-ensured p now slot generation validation va ua f m e = rw e refl

pub restore_active_slot-ensured :
    (p : Profile) (now : ℕ) (slot : Text) (ua : ℕ) (f : File) (m : Manifest)
    → in_slots slot ≡ true
    → ensure_generation_state p now f ≡ (atomic_write m, ok m)
    → restore_active_slot p now slot ua f
      ≡ (atomic_write (restored_manifest slot ua m), ok (restored_manifest slot ua m))
unfolding restore_active_slot
restore_active_slot-ensured p now slot ua f m hs e = rw (e, hs) refl

-- A promotion on a written manifest that meets its checks.
pub promotes-written :
    (p : Profile) (now : ℕ) (slot generation : Text) (t : ℕ) (m : Manifest)
    → OneActive p m
    → text_eq slot m.active_slot ≡ false
    → is_ready (lookup slot m.slots) ≡ true
    → is_generation generation (lookup slot m.slots) ≡ true
    → (m' : Manifest) × (promote_candidate p now slot generation t (atomic_write m)
        ≡ (atomic_write m', ok m'))
      × (m'.active_slot ≡ slot)
      × (m'.previous_slot ≡ some m.active_slot)
      × Promoted slot generation t m m'
promotes-written p now slot generation t m v differ h g =
    let (e, _) = ensured-at p now (atomic_write m) m (manifest m v) (read-atomic_write p now m v) in
    let k = promoted_manifest-ok slot generation t m differ h g in
    (
      _,
      promote_candidate-ensured p now slot generation t (atomic_write m) m e
          ∙ ap (written (atomic_write m)) k,
      refl,
      refl,
      promoted_manifest-Promoted slot generation t m _ k,
    )

pub ready_manifest-ok :
    (slot generation validation : Text) (va ua : ℕ) (m : Manifest)
    → text_eq slot m.active_slot ≡ false
    → ready_manifest slot generation validation va ua m
      ≡ ok (record m {
        slots =
            insert slot
              (record {
                generation = some generation;
                status = ready;
                validated_at = some va;
                validation = some validation;
              })
              m.slots;
        updated_at = some ua;
      })
unfolding ready_manifest
ready_manifest-ok slot generation validation va ua m differ = rw differ refl
