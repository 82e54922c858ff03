-- ===== src/Pool/Active.antt =====
-- Which slot the reads of a manifest find active, through the operations of
-- src/storage/index_generations.py.
use querix_semantic_search.Prelude.{
  ℕ, ◌≡◌, refl, sym, ap, ◌∙◌, inl, inr, true, none, Bool-cases, Text, text_eq, Result, ok, err,
  ok-injective, Result-cases,
}
use mathlib.Core.Path.{subst}
use querix_semantic_search.Generations.Manifest.{
  GenerationError, Profile, Manifest, File, in_slots, profile_for_slot, read_generation_state,
  atomic_write,
}
use querix_semantic_search.Generations.Operations.{
  ensure_generation_state, ready_manifest, record_candidate_ready, promoted_manifest,
  promote_candidate, restored_manifest, restore_active_slot, ResolvedIndexGeneration,
  resolve_generation,
}
use querix_semantic_search.Generations.Invariant.{
  OneActive, ready_manifest-OneActive, promoted_manifest-Promoted,
}
use querix_semantic_search.Generations.Writes.{
  Promoted-OneActive, restored-OneActive, read-atomic_write,
}
use querix_semantic_search.Generations.Reach.{Sound, manifest}
use querix_semantic_search.Generations.Candidates.{resolve_generation-ok}
use querix_semantic_search.Generations.Promotions.{
  ensured-at, promote_candidate-ensured, record_candidate_ready-ensured,
  restore_active_slot-ensured, ready_manifest-ok,
}

-- Every read of the file succeeds and finds this slot active.
pub record Serves (p : Profile) (f : File) (slot : Text) : Type 0 where
  pub sound : Sound p f
  pub reads :
      (now : ℕ) → (m : Manifest) × (read_generation_state p now f ≡ ok m) × (m.active_slot ≡ slot)

pub Serves-written :
    (p : Profile) (m : Manifest) → OneActive p m → Serves p (atomic_write m) m.active_slot
Serves-written p m v = record {
  sound = manifest m v;
  reads = λ now. (m, read-atomic_write p now m v, refl);
}

pub Sound-Serves : (p : Profile) (f : File) → Sound p f → (slot : Text) × Serves p f slot
unfolding read_generation_state
Sound-Serves p f (Sound.no_file) =
    (_, record { sound = Sound.no_file; reads = λ now. (_, refl, refl) })
Sound-Serves p f (manifest m v) = (m.active_slot, Serves-written p m v)

pub Serves-read :
    (p : Profile) (f : File) (slot : Text) (now : ℕ) (m : Manifest)
    → Serves p f slot
    → read_generation_state p now f ≡ ok m
    → m.active_slot ≡ slot
Serves-read p f slot now m v e =
    let (m1, e1, a1) = v.reads now in
    ap (λ (z : Manifest). z.active_slot) (ok-injective (sym e ∙ e1)) ∙ a1

pub Serves-ensured :
    (p : Profile) (f : File) (slot : Text) (now : ℕ)
    → Serves p f slot
    → (m : Manifest) × (ensure_generation_state p now f ≡ (atomic_write m, ok m))
      × OneActive p m
      × (m.active_slot ≡ slot)
Serves-ensured p f slot now v =
    let (m, e, a) = v.reads now in let (en, o) = ensured-at p now f m v.sound e in (m, en, o, a)

pub ensures-Serves :
    (p : Profile) (f : File) (slot : Text) (now : ℕ)
    → Serves p f slot
    → Serves p (ensure_generation_state p now f).0 slot
ensures-Serves p f slot now v =
    let (m, en, o, a) = Serves-ensured p f slot now v in
    rw en (subst (Serves p (atomic_write m)) a (Serves-written p m o))

ready-active :
    (slot generation validation : Text) (va ua : ℕ) (m m1 : Manifest)
    → ready_manifest slot generation validation va ua m ≡ ok m1
    → m1.active_slot ≡ m.active_slot
unfolding ready_manifest
ready-active slot generation validation va ua m m1 e =
    elim (Bool-cases (text_eq slot m.active_slot)) [
      | inl same ↦ absurd (let h = (rw same at e) in cc)
      | inr differ ↦ sym (
          ap (λ (z : Manifest). z.active_slot)
            (ok-injective (sym (ready_manifest-ok slot generation validation va ua m differ) ∙ e)))
    ]

-- Recording a candidate changes neither, whether it is accepted or refused.
pub records-Serves :
    (p : Profile) (f : File) (active : Text) (now : ℕ) (slot generation validation : Text)
    (va ua : ℕ)
    → Serves p f active
    → Serves p (record_candidate_ready p now slot generation validation va ua f).0 active
records-Serves p f active now slot generation validation va ua v =
    let (m, en, o, a) = Serves-ensured p f active now v in
    rw (record_candidate_ready-ensured p now slot generation validation va ua f m en)
      (elim (Result-cases (ready_manifest slot generation validation va ua m)) [
        | inl (x, e) ↦ rw e (subst (Serves p (atomic_write m)) a (Serves-written p m o))
        | inr (m1, e) ↦ rw e (
            subst (Serves p (atomic_write m1))
              (ready-active slot generation validation va ua m m1 e ∙ a)
              (Serves-written p m1
                (ready_manifest-OneActive p slot generation validation va ua m m1 o e)))
      ])

pub promotes-Serves :
    (p : Profile) (f f1 : File) (active : Text) (now : ℕ) (slot generation : Text) (t : ℕ)
    (m1 : Manifest)
    → Serves p f active
    → in_slots slot ≡ true
    → promote_candidate p now slot generation t f ≡ (f1, ok m1)
    → Serves p f1 slot
promotes-Serves p f f1 active now slot generation t m1 v hs e =
    let (m, en, o, a) = Serves-ensured p f active now v in
    let e1 = sym (promote_candidate-ensured p now slot generation t f m en) ∙ e in
    elim (Result-cases (promoted_manifest slot generation t m)) [
      | inl (x, ex) ↦
          absurd
            (let h = ap (λ (z : File × Result GenerationError Manifest). z.1) (rw ex at e1) in cc)
      | inr (m2, e2) ↦
          let h = (rw e2 at e1) in
          let k = promoted_manifest-Promoted slot generation t m m2 e2 in
          subst (λ (z : File). Serves p z slot)
            (ap (λ (z : File × Result GenerationError Manifest). z.0) h)
            (subst (Serves p (atomic_write m2)) (ap (λ (z : Manifest). z.active_slot) k.result)
              (Serves-written p m2 (Promoted-OneActive p slot generation t m m2 hs o k)))
    ]

pub refused-Serves :
    (p : Profile) (f f1 : File) (active : Text) (now : ℕ) (slot generation : Text) (t : ℕ)
    (x : GenerationError)
    → Serves p f active
    → promote_candidate p now slot generation t f ≡ (f1, err x)
    → Serves p f1 active
refused-Serves p f f1 active now slot generation t x v e =
    let (m, en, o, a) = Serves-ensured p f active now v in
    let e1 = sym (promote_candidate-ensured p now slot generation t f m en) ∙ e in
    elim (Result-cases (promoted_manifest slot generation t m)) [
      | inr (m2, e2) ↦
          absurd
            (let h = ap (λ (z : File × Result GenerationError Manifest). z.1) (rw e2 at e1) in cc)
      | inl (y, e2) ↦
          subst (λ (z : File). Serves p z active)
            (ap (λ (z : File × Result GenerationError Manifest). z.0) (rw e2 at e1))
            (subst (Serves p (atomic_write m)) a (Serves-written p m o))
    ]

pub restores-Serves :
    (p : Profile) (f : File) (active : Text) (now : ℕ) (slot : Text) (ua : ℕ)
    → Serves p f active
    → in_slots slot ≡ true
    → (f1 : File) × (m1 : Manifest) × (restore_active_slot p now slot ua f ≡ (f1, ok m1))
      × Serves p f1 slot
unfolding restored_manifest
restores-Serves p f active now slot ua v hs =
    let (m, en, o, a) = Serves-ensured p f active now v in
    (
      _,
      _,
      restore_active_slot-ensured p now slot ua f m hs en,
      Serves-written p (restored_manifest slot ua m) (restored-OneActive p slot ua m hs o),
    )

-- The generation resolved without a choice is that of the active slot, with the slot's profile.
pub resolves-active :
    (sha256_hex : Text → Text) (p : Profile) (f : File) (active : Text) (now : ℕ)
    (g : ResolvedIndexGeneration)
    → Serves p f active
    → resolve_generation sha256_hex p now none f ≡ ok g
    → (g.slot ≡ active) × (profile_for_slot sha256_hex p g.slot ≡ ok g.profile)
resolves-active sha256_hex p f active now g v e =
    let (m, em, a) = v.reads now in
    let (_, _, o, b) = Serves-ensured p f active now v in
    let (h, eh, sh, ph) =
      resolve_generation-ok sha256_hex p now none f m m.active_slot em refl
        (ap in_slots (a ∙ sym b) ∙ o.slot) in
    subst
      (λ (z : ResolvedIndexGeneration).
        (z.slot ≡ active) × (profile_for_slot sha256_hex p z.slot ≡ ok z.profile))
      (ok-injective (sym eh ∙ e)) (sh ∙ a, ph)

-- A slot that has a profile is one of the two.
pub profile-in_slots :
    (sha256_hex : Text → Text) (p q : Profile) (slot : Text)
    → profile_for_slot sha256_hex p slot ≡ ok q
    → in_slots slot ≡ true
unfolding profile_for_slot
profile-in_slots sha256_hex p q slot e = elim (Bool-cases (in_slots slot)) [
  | inl good ↦ good
  | inr bad ↦ absurd (let h = (rw bad at e) in cc)
]
