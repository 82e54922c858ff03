-- ===== src/Pool/Coherence.antt =====
-- The pool of src/api/tenants.py and the manifests as a transition system: the services that the
-- pool gives out read the slot that their manifest says is active.
use querix_semantic_search.Prelude.{
  ℕ, ◌≡◌, refl, Bool, Option, none, some, [], Text, lookup, Result, ok, err, ok-injective,
}
use mathlib.Core.Path.{subst}
use querix_semantic_search.Generations.Manifest.{Profile, absent}
use querix_semantic_search.Generations.Operations.{ensure_generation_state, record_candidate_ready}
use querix_semantic_search.Pool.Services.{
  PoolError, Service, World, Setting, put, load, add_loaded, collect_retired, get_service,
}
use querix_semantic_search.Pool.Swaps.{
  set_file, activate_candidate, rollback_generation, reload_generation,
}
use querix_semantic_search.Pool.Entries.{
  All-lookup, All-pop_oldest, EntryServes, Coherent, put-Served, entry_at,
}
use querix_semantic_search.Pool.Checks.{load-Serves}

module _ {E Engine : Type 0} (st : Setting E Engine) where
  -- What needs no reload lock: a request's `get`, and the ingestion's work on a manifest.
  pub data Outside (w : World E Engine) : World E Engine → Type 0 where
    gets :
        (c : Text) (now clock : ℕ) (idle : Engine → Bool)
        → Outside w (get_service st c now clock idle w).0
    ensures :
        (c : Text) (p : Profile) (now : ℕ)
        → st.registry c ≡ some p
        → Outside w (set_file st c (ensure_generation_state p now (w.file c)).0 w)
    records :
        (c : Text) (p : Profile) (now : ℕ) (slot generation validation : Text) (va ua : ℕ)
        → st.registry c ≡ some p
        → Outside w (
            set_file st c
              (record_candidate_ready p now slot generation validation va ua (w.file c)).0
              w)

  pub data Outsides (w : World E Engine) : World E Engine → Type 0 where
    nothing : Outsides w w
    then : (w1 w2 : World E Engine) → Outsides w w1 → Outside w1 w2 → Outsides w w2

  -- One of these, or a call under the reload lock, during which some of these happen.
  pub data Step (w : World E Engine) : World E Engine → Type 0 where
    outside : (w1 : World E Engine) → Outside w w1 → Step w w1
    activates :
        (meanwhile : World E Engine → World E Engine) (c slot generation : Text)
        (now promoted_at clock : ℕ)
        → Outsides w (meanwhile w)
        → Step w (activate_candidate st meanwhile c slot generation now promoted_at clock w).0
    rolls_back :
        (meanwhile : World E Engine → World E Engine) (c : Text) (now updated_at clock : ℕ)
        → Outsides w (meanwhile w)
        → Step w (rollback_generation st meanwhile c now updated_at clock w).0
    reloads :
        (meanwhile : World E Engine → World E Engine) (c : Text) (now clock : ℕ)
        → Outsides w (meanwhile w)
        → Step w (reload_generation st meanwhile c now clock w).0

  -- A new pool, before any company has a manifest.
  abbrev pub started : ℕ → World E Engine
  started size = record {
    max_services = size;
    services = [];
    retired = [];
    failures = [];
    closed = [];
    file = λ c. absent;
  }

  pub data Reach : World E Engine → Type 0 where
    start : (size : ℕ) → Reach (started size)
    next : (w w1 : World E Engine) → Reach w → Step w w1 → Reach w1

  -- What `get` leaves, and what it returns.
  pub record Gotten (c : Text) (w : World E Engine)
      (out : World E Engine × Result (PoolError E) (Service Engine)) : Type 0 where
    pub coherent : Coherent st out.0
    pub file : out.0.file ≡ w.file
    pub returned : (s : Service Engine) → out.1 ≡ ok s → EntryServes st w.file (c, s)

  pub get_service-Gotten :
      (c : Text) (now clock : ℕ) (idle : Engine → Bool) (w : World E Engine)
      → Coherent st w
      → Gotten c w (get_service st c now clock idle w)
  unfolding get_service add_loaded
  get_service-Gotten c now clock idle w k = go (lookup c w.services) refl
    where
      w1 : World E Engine
      w1 = record w { retired = (collect_retired st clock idle w.retired).1 }

      missing :
          (r : Result (PoolError E) (Service Engine))
          → load st c now w1 ≡ r
          → lookup c w.services ≡ none
          → Gotten c w (get_service st c now clock idle w)
      missing (err x) er eo =
          rw (get_service, eo, er)
            (record {
              coherent = record { sound = k.sound; entries = k.entries };
              file = refl;
              returned = λ s h. absurd (cc);
            })
      missing (ok s) er eo =
          let (p, r, v, o) =
            load-Serves st c now w1 s (record { sound = k.sound; entries = k.entries }) er in
          let v1 = entry_at st w.file c s p r v o in
          rw (get_service, eo, er)
            (record {
              coherent = record {
                sound = k.sound;
                entries =
                    All-pop_oldest (EntryServes st w.file) w.max_services (put c s w.services)
                      (put-Served st w.file c s w.services k.entries v1);
              };
              file = refl;
              returned = λ t h.
                  subst (λ (z : Service Engine). EntryServes st w.file (c, z)) (ok-injective h) v1;
            })

      go :
          (o : Option (Service Engine))
          → lookup c w.services ≡ o
          → Gotten c w (get_service st c now clock idle w)
      go none eo = missing (load st c now w1) refl eo
      go (some s) eo =
          let v = All-lookup (EntryServes st w.file) c s w.services k.entries eo in
          rw (get_service, eo)
            (record {
              coherent = record {
                sound = k.sound;
                entries = put-Served st w.file c s w.services k.entries v;
              };
              file = refl;
              returned = λ t h.
                  subst (λ (z : Service Engine). EntryServes st w.file (c, z)) (ok-injective h) v;
            })
