-- ===== src/Generations/Reach.antt =====
-- The manifest file as a transition system, and what a reader finds in it.
use querix_semantic_search.Prelude.{
  ℕ, ◌≡◌, refl, ap, inl, inr, true, Bool-cases, Text, Result, ok, err,
}
use querix_semantic_search.Generations.Manifest.{
  GenerationError, Profile, Manifest, File, absent, in_slots, default_generation_state,
  read_generation_state, atomic_write,
}
use querix_semantic_search.Generations.Operations.{
  ensure_generation_state, written, ready_manifest, record_candidate_ready, promoted_manifest,
  promote_candidate, restore_active_slot,
}
use querix_semantic_search.Generations.Invariant.{
  OneActive, default-OneActive, ready_manifest-OneActive, promoted_manifest-Promoted,
}
use querix_semantic_search.Generations.Writes.{
  Promoted-OneActive, restored-OneActive, read-atomic_write,
}

-- One committed or refused call. A promotion names one of the two slots.
pub data Step (p : Profile) (f : File) : File → Type 0 where
  ensures : (now : ℕ) → Step p f (ensure_generation_state p now f).0
  records :
      (now : ℕ) (slot generation validation : Text) (validated_at updated_at : ℕ)
      → Step p f
          (record_candidate_ready p now slot generation validation validated_at updated_at f).0
  promotes :
      (now : ℕ) (slot generation : Text) (promoted_at : ℕ)
      → in_slots slot ≡ true
      → Step p f (promote_candidate p now slot generation promoted_at f).0
  restores :
      (now : ℕ) (slot : Text) (updated_at : ℕ)
      → Step p f (restore_active_slot p now slot updated_at f).0

pub data Reach (p : Profile) : File → Type 0 where
  start : Reach p absent
  next : (f f' : File) → Reach p f → Step p f f' → Reach p f'

-- No file yet, or one with a sound manifest.
pub data Sound (p : Profile) : File → Type 0 where
  no_file : Sound p absent
  manifest : (m : Manifest) → OneActive p m → Sound p (atomic_write m)

-- What `ensure_generation_state` gives the operation that calls it.
pub record Ensured (p : Profile) (now : ℕ) (f : File) : Type 0 where
  pub state : Manifest
  pub one_active : OneActive p state
  pub ensured : ensure_generation_state p now f ≡ (atomic_write state, ok state)
  pub readable : read_generation_state p now f ≡ ok state

pub Sound-Ensured : (p : Profile) (now : ℕ) (f : File) → Sound p f → Ensured p now f
unfolding ensure_generation_state read_generation_state
Sound-Ensured p now f no_file = record {
  state = default_generation_state p now;
  one_active = default-OneActive p now;
  ensured = refl;
  readable = refl;
}
Sound-Ensured p now f (manifest m v) = record {
  state = m;
  one_active = v;
  ensured =
      ap (λ (r : Result GenerationError Manifest). (atomic_write m, r))
        (read-atomic_write p now m v);
  readable = read-atomic_write p now m v;
}

written-Sound :
    (p : Profile) (m : Manifest) (r : Result GenerationError Manifest)
    → OneActive p m
    → ((m' : Manifest) → r ≡ ok m' → OneActive p m')
    → Sound p (written (atomic_write m) r).0
written-Sound p m (ok m') v h = manifest m' (h m' refl)
written-Sound p m (err e) v h = manifest m v

pub Step-Sound : (p : Profile) (f f' : File) → Sound p f → Step p f f' → Sound p f'
unfolding record_candidate_ready promote_candidate restore_active_slot
Step-Sound p f f' s (ensures now) =
    let x = Sound-Ensured p now f s in rw x.ensured (manifest x.state x.one_active)
Step-Sound p f f' s (records now slot generation validation va ua) =
    let x = Sound-Ensured p now f s in
    rw x.ensured (
      written-Sound p x.state (ready_manifest slot generation validation va ua x.state) x.one_active
        (λ m' e.
          ready_manifest-OneActive p slot generation validation va ua x.state m' x.one_active e))
Step-Sound p f f' s (promotes now slot generation at_ hs) =
    let x = Sound-Ensured p now f s in
    rw x.ensured (
      written-Sound p x.state (promoted_manifest slot generation at_ x.state) x.one_active (λ m' e.
        Promoted-OneActive p slot generation at_ x.state m' hs x.one_active
          (promoted_manifest-Promoted slot generation at_ x.state m' e)))
Step-Sound p f f' s (restores now slot ua) =
    let x = Sound-Ensured p now f s in
    elim (Bool-cases (in_slots slot)) [
      | inl hs ↦
          rw (x.ensured, hs) (manifest _ (restored-OneActive p slot ua x.state hs x.one_active))
      | inr bad ↦ rw bad s
    ]

pub Reach-Sound : (p : Profile) (f : File) → Reach p f → Sound p f
Reach-Sound p f start = no_file
Reach-Sound p f (next before _ r s) = Step-Sound p before f (Reach-Sound p before r) s

-- Whatever calls were made on a tenant's manifest, from no file on, as long as a promotion names
-- one of the two slots, the manifest reads, its active slot is one of the two and has the status
-- `active`, and the other slot has another status.
pub Reach-reads :
    (p : Profile) (f : File) (now : ℕ)
    → Reach p f
    → (m : Manifest) × (read_generation_state p now f ≡ ok m) × OneActive p m
Reach-reads p f now r =
    let x = Sound-Ensured p now f (Reach-Sound p f r) in (x.state, x.readable, x.one_active)
