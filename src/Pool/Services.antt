-- ===== src/Pool/Services.antt =====
-- The services of `TenantServicePool` in src/api/tenants.py, and its `get`. Services stand from the
-- least to the most recently used, as in the `OrderedDict`. Each company has a manifest file of its
-- own. Times are whole seconds.
use querix_semantic_search.Prelude.{
  ℕ, suc, ◌+◌, Bool, ◌&&◌, Option, none, some, List, [], ◌∷◌, ◌++◌, map, leb, ltb, not, keep,
  if◌then◌else◌, length, Result, ok, err, ◌>>=◌, Text, text_eq, lookup, insert,
}
use querix_semantic_search.Generations.Manifest.{GenerationError, Profile, File}
use querix_semantic_search.Generations.Operations.{ResolvedIndexGeneration, resolve_generation}

pub data PoolError (E : Type 0) : Type 0 where
  unknown_company already_active not_ready mismatch no_previous not_initialized : PoolError E
  generation_error : GenerationError → PoolError E
  build_failed : E → PoolError E

-- A `ProductSearchService`, by what the pool uses of it.
pub record Service (Engine : Type 0) : Type 0 where
  pub engine : Engine
  pub generation : Text
  pub slot : Text

-- The pool, the services that it closed, and the manifest files.
pub record World (E Engine : Type 0) : Type 0 where
  pub max_services : ℕ
  pub services : List (Text × Service Engine)
  pub retired : List (ℕ × Service Engine)
  pub failures : List (Text × PoolError E)
  pub closed : List (Service Engine)
  pub file : Text → File

-- What the pool is given: the profiles, SHA-256, the opening of an engine on a profile's storage,
-- and the readiness of an engine.
pub record Setting (E Engine : Type 0) : Type 0 where
  pub registry : Text → Option Profile
  pub sha256_hex : Text → Text
  pub open_engine : Profile → Result E Engine
  pub readiness : Engine → Bool

-- `SERVICE_RETIRE_GRACE_SECONDS`.
abbrev pub retire_grace : ℕ
retire_grace = 300

-- `pop(key, None)`.
unfoldable pub drop_key : {V : Type 0} → Text → List (Text × V) → List (Text × V)
drop_key key [] = []
drop_key key ((k, v) ∷ es) =
    let rest = drop_key key es in if text_eq k key then rest else (k, v) ∷ rest

-- An assignment and `move_to_end`.
abbrev pub put : {V : Type 0} → Text → V → List (Text × V) → List (Text × V)
put key v es = drop_key key es ++ (key, v) ∷ []

-- `while len(services) > size: services.popitem(last=False)`: what stays, and what goes.
unfoldable pub pop_oldest : {V : Type 0} → ℕ → List V → List V × List V
pop_oldest size [] = ([], [])
pop_oldest size (e ∷ es) =
    let rest = pop_oldest size es in
    if ltb size (suc (length es)) then (rest.0, e ∷ rest.1) else (e ∷ es, [])

module _ {E Engine : Type 0} (st : Setting E Engine) where
  abbrev pub registered : Text → Result (PoolError E) Profile
  registered company_id = elim (st.registry company_id) [
    | none ↦ err unknown_company
    | some p ↦ ok p
  ]

  abbrev pub lifted : {A : Type 0} → Result GenerationError A → Result (PoolError E) A
  lifted (ok a) = ok a
  lifted (err x) = err (generation_error x)

  -- `_build_service`.
  unfoldable pub build_service : Profile → Text → Text → Result (PoolError E) (Service Engine)
  build_service p generation slot = elim (st.open_engine p) [
    | err x ↦ err (build_failed x)
    | ok e ↦ ok (record { engine = e; generation = generation; slot = slot })
  ]

  abbrev pub closing : List (Service Engine) → World E Engine → World E Engine
  closing services w = record w { closed = w.closed ++ services }

  -- `_retire_locked` on several services.
  abbrev pub retire : ℕ → List (Service Engine) → List (ℕ × Service Engine)
  retire clock services = map (λ s. (clock + retire_grace, s)) services

  -- `not_before <= now`, and no request is active.
  abbrev pub may_close : ℕ → (Engine → Bool) → ℕ × Service Engine → Bool
  may_close clock idle r = leb r.0 clock && idle r.1.engine

  -- `_collect_retired_locked`: the services to close, and the rest.
  unfoldable pub collect_retired :
      ℕ
      → (Engine → Bool)
      → List (ℕ × Service Engine)
      → List (Service Engine) × List (ℕ × Service Engine)
  collect_retired clock idle retired = (
    map (λ r. r.1) (keep (may_close clock idle) retired),
    keep (λ r. not (may_close clock idle r)) retired,
  )

  unfoldable pub resolved : Text → ℕ → World E Engine → Result (PoolError E) ResolvedIndexGeneration
  unfolding resolve_generation
  resolved company_id now w = registered company_id >>= λ p.
      lifted (resolve_generation st.sha256_hex p now none (w.file company_id))

  unfoldable pub load : Text → ℕ → World E Engine → Result (PoolError E) (Service Engine)
  unfolding resolved build_service
  load company_id now w =
      resolved company_id now w >>= λ g. build_service g.profile g.generation g.slot

  -- A service that was loaded, with the services that it puts out of the pool.
  unfoldable pub add_loaded : Text → ℕ → Service Engine → World E Engine → World E Engine
  unfolding pop_oldest drop_key
  add_loaded company_id clock s w =
      let (kept, evicted) = pop_oldest w.max_services (put company_id s w.services) in
      record w {
        services = kept;
        retired = w.retired ++ retire clock (map (λ e. e.1) evicted);
        failures = drop_key company_id w.failures;
      }

  -- `get`: `now` is the time of the manifest, `clock` of the pool. What was collected is closed at
  -- the end, which an exception does not reach.
  unfoldable pub get_service :
      Text
      → ℕ
      → ℕ
      → (Engine → Bool)
      → World E Engine
      → World E Engine × Result (PoolError E) (Service Engine)
  unfolding collect_retired load add_loaded lookup insert drop_key
  get_service company_id now clock idle w =
      let (closable, retained) = collect_retired clock idle w.retired in
      let w1 : World E Engine = record w { retired = retained } in
      elim (lookup company_id w.services) [
        | some s ↦ (closing closable (record w1 { services = put company_id s w.services }), ok s)
        | none ↦ elim (load company_id now w1) [
          | err x ↦ (record w1 { failures = insert company_id x w.failures }, err x)
          | ok s ↦ (closing closable (add_loaded company_id clock s w1), ok s)
        ]
      ]
