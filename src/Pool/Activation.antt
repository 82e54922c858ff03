-- ===== src/Pool/Activation.antt =====
-- The outcomes of `activate_candidate` of src/api/tenants.py.
use querix_semantic_search.Prelude.{
  ℕ, ◌≡◌, refl, sym, ◌∙◌, ◌⊎◌, inl, inr, true, some, List, [], ◌∷◌, ◌++◌, Bool-cases, Text, text_eq,
  text_eq_refl, lookup, Result, ok, err, Result-cases,
}
use mathlib.Core.Path.{subst}
use mathlib.Core.Option.{some-injective}
use querix_semantic_search.Generations.Manifest.{GenerationError, Profile, Manifest, File}
use querix_semantic_search.Generations.Operations.{promote_candidate}
use querix_semantic_search.Pool.Services.{PoolError, Service, World, Setting, drop_key, put, retire}
use querix_semantic_search.Pool.Swaps.{
  Answer, swap, previous, finish, checked_candidate, activate_candidate,
}
use querix_semantic_search.Pool.Active.{Serves, Sound-Serves, promotes-Serves, refused-Serves}
use querix_semantic_search.Pool.Entries.{Opened}
use querix_semantic_search.Pool.Checks.{Built, checked_candidate-Built}
use querix_semantic_search.Pool.Coherence.{Outsides, Reach}
use querix_semantic_search.Pool.Kept.{Carried, write-Carried, Outsides-Carried}
use querix_semantic_search.Pool.Steps.{Reach-Coherent}

lookup-drop_key :
    {V : Type 0} (key : Text) (v : V) (es : List (Text × V)) → lookup key (put key v es) ≡ some v
unfolding lookup drop_key
lookup-drop_key key v [] = rw (text_eq_refl key) refl
lookup-drop_key key v ((k, u) ∷ es) = elim (Bool-cases (text_eq k key)) [
  | inl same ↦ rw same (lookup-drop_key key v es)
  | inr differ ↦ rw (differ, differ) (lookup-drop_key key v es)
]

module _ {E Engine : Type 0} (st : Setting E Engine) where
  -- The company's requests are served by a ready service of this generation, whose slot is active
  -- and whose engine was opened on the slot's storage, and the service before is retired.
  pub record Activated (c slot generation : Text) (clock : ℕ) (before after : World E Engine)
      : Type 0 where
    pub service : Service Engine
    pub routed : lookup c after.services ≡ some service
    pub slot_of : service.slot ≡ slot
    pub generation_of : service.generation ≡ generation
    pub ready : st.readiness service.engine ≡ true
    pub active : (p : Profile) → st.registry c ≡ some p → Serves p (after.file c) slot
    pub opened : (p : Profile) → st.registry c ≡ some p → Opened st p service
    pub retires :
        after.retired ≡ before.retired ++ retire st clock (previous st (lookup c before.services))

  -- No request is routed to another service, nothing is retired, and every manifest that was read
  -- still has its active slot.
  pub record Unchanged (start before after : World E Engine) : Type 0 where
    pub services : (after.services ≡ start.services) ⊎ (after.services ≡ before.services)
    pub retired : (after.retired ≡ start.retired) ⊎ (after.retired ≡ before.retired)
    pub serves :
        (c : Text) (p : Profile) (active : Text)
        → st.registry c ≡ some p
        → Serves p (start.file c) active
        → Serves p (after.file c) active

  pub record ActivationOutcome (c slot generation : Text) (clock : ℕ)
      (start before : World E Engine) (out : World E Engine × Result (PoolError E) Answer)
      : Type 0 where
    pub on_success : (a : Answer) → out.1 ≡ ok a → Activated c slot generation clock before out.0
    pub on_failure : (x : PoolError E) → out.1 ≡ err x → Unchanged start before out.0

  unchanged-ActivationOutcome :
      (c slot generation : Text) (clock : ℕ) (w w1 out : World E Engine) (x : PoolError E)
      → out.services ≡ w.services
      → out.retired ≡ w.retired
      → out.file ≡ w.file
      → ActivationOutcome c slot generation clock w w1 (out, err x)
  unchanged-ActivationOutcome c slot generation clock w w1 out x es er ef = record {
    on_success = λ a h. absurd (cc);
    on_failure = λ y h. record {
      services = inl es;
      retired = inl er;
      serves = λ d p active r v. subst (λ (z : Text → File). Serves p (z d) active) (sym ef) v;
    };
  }

  finish-ActivationOutcome :
      (c slot generation : Text) (now t clock : ℕ) (w w1 : World E Engine)
      (b : Profile × Service Engine)
      → Carried st w w1
      → Built st c slot generation b
      → st.readiness b.1.engine ≡ true
      → (x : File × Result GenerationError Manifest)
      → promote_candidate b.0 now slot generation t (w1.file c) ≡ x
      → ActivationOutcome c slot generation clock w w1 (finish st c clock b.1 w1 x)
  unfolding swap
  finish-ActivationOutcome c slot generation now t clock w w1 b a h ready (f, ok m) e =
      let (active, v) = Sound-Serves b.0 (w1.file c) (a.coherent.sound c b.0 h.registry) in
      let v1 = promotes-Serves b.0 (w1.file c) f active now slot generation t m v h.in_slots_of e in
      record {
        on_success = λ an eq. record {
          service = b.1;
          routed = lookup-drop_key c b.1 w1.services;
          slot_of = h.slot_of;
          generation_of = h.generation_of;
          ready = ready;
          opened = λ p r.
              subst (λ (z : Profile). Opened st z b.1) (some-injective b.0 p (sym h.registry ∙ r))
                h.opened;
          active = λ p r. rw (text_eq_refl c) (
              subst (λ (z : Profile). Serves z f slot) (some-injective b.0 p (sym h.registry ∙ r))
                v1);
          retires = refl;
        };
        on_failure = λ x eq. absurd (cc);
      }
  finish-ActivationOutcome c slot generation now t clock w w1 b a h ready (f, err x) e = record {
    on_success = λ an eq. absurd (cc);
    on_failure = λ y eq. record {
      services = inr refl;
      retired = inr refl;
      serves = λ d p active r v.
          (write-Carried st f c b.0 w1 a.coherent h.registry
              (λ was u. refused-Serves b.0 (w1.file c) f was now slot generation t x u e)).serves
            d p active r (a.serves d p active r v);
    };
  }

  -- In every world that a new pool reaches, with requests and the ingestion working while the
  -- service is built: an activation that succeeds routes the company's requests to a ready service
  -- of the generation and the slot asked for, whose engine was opened on that slot's
  -- storage, makes the slot the active one for every read of the
  -- manifest, and retires the service before; one that fails changes no route, retires nothing, and
  -- leaves every manifest with the active slot it had.
  pub activation_outcome :
      (w : World E Engine) (meanwhile : World E Engine → World E Engine) (c slot generation : Text)
      (now promoted_at clock : ℕ)
      → Reach st w
      → Outsides st w (meanwhile w)
      → ActivationOutcome c slot generation clock w
          (meanwhile w)
          (activate_candidate st meanwhile c slot generation now promoted_at clock w)
  unfolding activate_candidate
  activation_outcome w meanwhile c slot generation now t clock r o =
      elim (Result-cases (checked_candidate st c slot generation now w)) [
        | inl (x, ex) ↦
            rw (activate_candidate, ex)
              (unchanged-ActivationOutcome c slot generation clock w (meanwhile w) w x refl refl
                refl)
        | inr (b, eb) ↦ elim (Bool-cases (st.readiness b.1.engine)) [
          | inr waits ↦
              rw (activate_candidate, eb, waits)
                (unchanged-ActivationOutcome c slot generation clock w (meanwhile w) _ _ refl refl
                  refl)
          | inl ready ↦
              rw (activate_candidate, eb, ready)
                (finish-ActivationOutcome c slot generation now t clock w (meanwhile w) b
                  (Outsides-Carried st w (meanwhile w) (Reach-Coherent st w r) o)
                  (checked_candidate-Built st c slot generation now w b eb) ready
                  (promote_candidate b.0 now slot generation t ((meanwhile w).file c)) refl)
        ]
      ]
