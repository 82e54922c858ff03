-- ===== src/Pool/Steps.antt =====
-- Every step of the pool of src/api/tenants.py keeps its services on the active slots.
use querix_semantic_search.Prelude.{
  ℕ, ◌≡◌, refl, sym, ap, ◌∙◌, inl, inr, Bool, Bool-cases, some, Text, lookup, Result, ok, err,
  Result-cases,
}
use mathlib.Core.Path.{subst}
use querix_semantic_search.Generations.Manifest.{GenerationError, Profile, Manifest, File, in_slots}
use querix_semantic_search.Generations.Operations.{promote_candidate, restore_active_slot}
use querix_semantic_search.Generations.Reach.{no_file}
use querix_semantic_search.Pool.Services.{
  Service, World, Setting, get_service, build_service, resolved,
}
use querix_semantic_search.Pool.Swaps.{
  swap, finish, checked_candidate, activate_candidate, checked_previous, rollback_generation,
  is_current, reload_generation,
}
use querix_semantic_search.Pool.Active.{
  Serves, promotes-Serves, refused-Serves, restores-Serves, Sound-Serves,
}
use querix_semantic_search.Pool.Entries.{
  Opened, Coherent, put-Served, entry_at, swap-Coherent, write-Coherent,
}
use querix_semantic_search.Pool.Checks.{
  resolved-Serves, build-slot, build-Opened, Built, checked_candidate-Built, checked_previous-Built,
}
use querix_semantic_search.Pool.Coherence.{
  Step, outside, activates, rolls_back, reloads, Reach, start, next, get_service-Gotten,
}
use querix_semantic_search.Pool.Kept.{Carried, Outside-Carried, Outsides-Carried}

module _ {E Engine : Type 0} (st : Setting E Engine) where
  -- A promotion's end, and a rollback's.
  promoted-Coherent :
      (c slot generation : Text) (now t clock : ℕ) (w : World E Engine)
      (b : Profile × Service Engine)
      → Coherent st w
      → Built st c slot generation b
      → Coherent st
          (finish st c clock b.1 w (promote_candidate b.0 now slot generation t (w.file c))).0
  promoted-Coherent c slot generation now t clock w b k h =
      go (promote_candidate b.0 now slot generation t (w.file c)) refl
    where
      go :
          (x : File × Result GenerationError Manifest)
          → promote_candidate b.0 now slot generation t (w.file c) ≡ x
          → Coherent st (finish st c clock b.1 w x).0
      go (f, ok m) e =
          let (active, v) = Sound-Serves b.0 (w.file c) (k.sound c b.0 h.registry) in
          swap-Coherent st f c b.0 clock b.1 w k h.registry
            (subst (Serves b.0 f) (sym h.slot_of)
              (promotes-Serves b.0 (w.file c) f active now slot generation t m v h.in_slots_of e))
            h.opened
      go (f, err x) e =
          let kept =
            write-Coherent st f c b.0 w k h.registry
              (λ active v. refused-Serves b.0 (w.file c) f active now slot generation t x v e) in
          record { sound = kept.sound; entries = kept.entries }

  restored-Coherent :
      (c slot generation : Text) (now ua clock : ℕ) (w : World E Engine)
      (b : Profile × Service Engine)
      → Coherent st w
      → Built st c slot generation b
      → Coherent st (finish st c clock b.1 w (restore_active_slot b.0 now b.1.slot ua (w.file c))).0
  restored-Coherent c slot generation now ua clock w b k h =
      let (active, v) = Sound-Serves b.0 (w.file c) (k.sound c b.0 h.registry) in
      let (f, m, e, v1) =
        restores-Serves b.0 (w.file c) active now b.1.slot ua v
          (ap in_slots h.slot_of ∙ h.in_slots_of) in
      rw e (swap-Coherent st f c b.0 clock b.1 w k h.registry v1 h.opened)

  reloaded-Coherent :
      (c : Text) (p : Profile) (clock : ℕ) (s : Service Engine) (w : World E Engine)
      → Coherent st w
      → st.registry c ≡ some p
      → Serves p (w.file c) s.slot
      → Opened st p s
      → Coherent st (swap st c clock s w)
  unfolding swap
  reloaded-Coherent c p clock s w k r v o = record {
    sound = k.sound;
    entries = put-Served st w.file c s w.services k.entries (entry_at st w.file c s p r v o);
  }

  activates-Coherent :
      (meanwhile : World E Engine → World E Engine) (c slot generation : Text)
      (now promoted_at clock : ℕ) (w : World E Engine)
      → Coherent st w
      → Carried st w (meanwhile w)
      → Coherent st (activate_candidate st meanwhile c slot generation now promoted_at clock w).0
  unfolding activate_candidate
  activates-Coherent meanwhile c slot generation now t clock w k a =
      elim (Result-cases (checked_candidate st c slot generation now w)) [
        | inl (x, ex) ↦ rw (activate_candidate, ex) k
        | inr (b, eb) ↦ elim (Bool-cases (st.readiness b.1.engine)) [
          | inr waits ↦
              rw (activate_candidate, eb, waits) (record { sound = k.sound; entries = k.entries })
          | inl ready ↦
              rw (activate_candidate, eb, ready)
                (promoted-Coherent c slot generation now t clock (meanwhile w) b a.coherent
                  (checked_candidate-Built st c slot generation now w b eb))
        ]
      ]

  rolls_back-Coherent :
      (meanwhile : World E Engine → World E Engine) (c : Text) (now updated_at clock : ℕ)
      (w : World E Engine)
      → Coherent st w
      → Carried st w (meanwhile w)
      → Coherent st (rollback_generation st meanwhile c now updated_at clock w).0
  unfolding rollback_generation
  rolls_back-Coherent meanwhile c now ua clock w k a =
      elim (Result-cases (checked_previous st c now w)) [
        | inl (x, ex) ↦ rw (rollback_generation, ex) k
        | inr (b, eb) ↦ elim (Bool-cases (st.readiness b.1.engine)) [
          | inr waits ↦
              rw (rollback_generation, eb, waits) (record { sound = k.sound; entries = k.entries })
          | inl ready ↦
              let (slot, generation, h) = checked_previous-Built st c now w b eb in
              rw (rollback_generation, eb, ready)
                (restored-Coherent c slot generation now ua clock (meanwhile w) b a.coherent h)
        ]
      ]

  reloads-Coherent :
      (meanwhile : World E Engine → World E Engine) (c : Text) (now clock : ℕ) (w : World E Engine)
      → Coherent st w
      → Carried st w (meanwhile w)
      → Coherent st (reload_generation st meanwhile c now clock w).0
  unfolding reload_generation
  reloads-Coherent meanwhile c now clock w k a = elim (Result-cases (resolved st c now w)) [
    | inl (x, ex) ↦ rw (reload_generation, ex) k
    | inr (g, eg) ↦ elim (Bool-cases (is_current st g (lookup c w.services))) [
      | inl same ↦ rw (reload_generation, eg, same) k
      | inr other ↦ elim (Result-cases (build_service st g.profile g.generation g.slot)) [
        | inl (x, ex) ↦ rw (reload_generation, eg, other, ex) k
        | inr (s, es) ↦ elim (Bool-cases (st.readiness s.engine)) [
          | inr waits ↦
              rw (reload_generation, eg, other, es, waits)
                (record { sound = k.sound; entries = k.entries })
          | inl ready ↦
              let (p, r, v, storage) = resolved-Serves st c now w g k eg in
              rw (reload_generation, eg, other, es, ready)
                (reloaded-Coherent c p clock s (meanwhile w) a.coherent r
                  (subst (Serves p ((meanwhile w).file c))
                    (sym (build-slot st g.profile g.generation g.slot s es))
                    (a.serves c p g.slot r v))
                  (build-Opened st p g.profile g.generation g.slot s storage es))
        ]
      ]
    ]
  ]

  pub Step-Coherent : (w w1 : World E Engine) → Coherent st w → Step st w w1 → Coherent st w1
  Step-Coherent w w1 k (outside _ o) = (Outside-Carried st w w1 k o).coherent
  Step-Coherent w w1 k (activates meanwhile c slot generation now t clock o) =
      activates-Coherent meanwhile c slot generation now t clock w k
        (Outsides-Carried st w (meanwhile w) k o)
  Step-Coherent w w1 k (rolls_back meanwhile c now ua clock o) =
      rolls_back-Coherent meanwhile c now ua clock w k (Outsides-Carried st w (meanwhile w) k o)
  Step-Coherent w w1 k (reloads meanwhile c now clock o) =
      reloads-Coherent meanwhile c now clock w k (Outsides-Carried st w (meanwhile w) k o)

  pub Reach-Coherent : (w : World E Engine) → Reach st w → Coherent st w
  Reach-Coherent w (start size) = record { sound = λ c p r. no_file; entries = tt }
  Reach-Coherent w (next w0 _ r s) = Step-Coherent w0 w (Reach-Coherent w0 r) s

  -- In every world that a new pool reaches by calls of `get`, `activate_candidate`,
  -- `rollback_generation` and `reload_generation`, with requests and the ingestion working while a
  -- generation is built, a service that `get` returns for a company has the slot that every read of
  -- the company's manifest finds active, and its engine was opened on the storage of that slot.
  pub get_service-Serves :
      (w : World E Engine) (c : Text) (p : Profile) (now clock : ℕ) (idle : Engine → Bool)
      (s : Service Engine)
      → Reach st w
      → st.registry c ≡ some p
      → (get_service st c now clock idle w).1 ≡ ok s
      → Serves p ((get_service st c now clock idle w).0.file c) s.slot × Opened st p s
  get_service-Serves w c p now clock idle s r rc e =
      let g = get_service-Gotten st c now clock idle w (Reach-Coherent w r) in
      (
        subst (λ (z : Text → File). Serves p (z c) s.slot) (sym g.file)
            ((g.returned s e).serves p rc),
        (g.returned s e).opened p rc,
      )
