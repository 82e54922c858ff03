-- ===== src/Pool/Kept.antt =====
-- What requests and the ingestion do meanwhile keeps the services of src/api/tenants.py on the active
-- slots, and the active slots.
use querix_semantic_search.Prelude.{
  ◌≡◌, sym, ap, ◌∙◌, inl, inr, Bool-cases, some, Text, text_eq, text_eq_iff,
}
use mathlib.Core.Path.{subst}
use mathlib.Core.Option.{some-injective}
use querix_semantic_search.Generations.Manifest.{Profile, File}
use querix_semantic_search.Generations.Operations.{ensure_generation_state, record_candidate_ready}
use querix_semantic_search.Pool.Services.{World, Setting}
use querix_semantic_search.Pool.Swaps.{set_file}
use querix_semantic_search.Pool.Active.{Serves, ensures-Serves, records-Serves}
use querix_semantic_search.Pool.Entries.{Coherent, write-Coherent}
use querix_semantic_search.Pool.Coherence.{
  Outside, gets, ensures, records, Outsides, nothing, then, get_service-Gotten,
}

module _ {E Engine : Type 0} (st : Setting E Engine) where
  -- The pool stays coherent, and no manifest changes its active slot.
  pub record Carried (w w1 : World E Engine) : Type 0 where
    pub coherent : Coherent st w1
    pub serves :
        (c : Text) (p : Profile) (slot : Text)
        → st.registry c ≡ some p
        → Serves p (w.file c) slot
        → Serves p (w1.file c) slot

  -- A manifest that is written and keeps its active slot.
  pub write-Carried :
      (f : File) (c : Text) (p : Profile) (w : World E Engine)
      → Coherent st w
      → st.registry c ≡ some p
      → ((slot : Text) → Serves p (w.file c) slot → Serves p f slot)
      → Carried w (set_file st c f w)
  write-Carried f c p w k r keeps = record {
    coherent = write-Coherent st f c p w k r keeps;
    serves = λ d q slot rq v. elim (Bool-cases (text_eq d c)) [
      | inr differ ↦ rw differ v
      | inl same ↦ rw same (
          subst (λ (z : Profile). Serves z f slot) (same_profile d q rq ((text_eq_iff d c).0 same))
            (keeps slot (
              subst (λ (z : Text). Serves p (w.file z) slot) ((text_eq_iff d c).0 same)
                (subst (λ (z : Profile). Serves z (w.file d) slot)
                  (sym (same_profile d q rq ((text_eq_iff d c).0 same))) v))))
    ];
  }
    where
      same_profile : (d : Text) (q : Profile) → st.registry d ≡ some q → d ≡ c → p ≡ q
      same_profile d q rq same = some-injective p q (sym r ∙ (ap st.registry (sym same) ∙ rq))

  pub Outside-Carried : (w w1 : World E Engine) → Coherent st w → Outside st w w1 → Carried w w1
  Outside-Carried w w1 k (gets c now clock idle) =
      let g = get_service-Gotten st c now clock idle w k in
      record {
        coherent = g.coherent;
        serves = λ d p slot r v. subst (λ (z : Text → File). Serves p (z d) slot) (sym g.file) v;
      }
  Outside-Carried w w1 k (ensures c p now r) =
      write-Carried (ensure_generation_state p now (w.file c)).0 c p w k r
        (λ slot v. ensures-Serves p (w.file c) slot now v)
  Outside-Carried w w1 k (records c p now slot generation validation va ua r) =
      write-Carried (record_candidate_ready p now slot generation validation va ua (w.file c)).0 c p
        w k r
        (λ active v. records-Serves p (w.file c) active now slot generation validation va ua v)

  pub Outsides-Carried : (w w1 : World E Engine) → Coherent st w → Outsides st w w1 → Carried w w1
  Outsides-Carried w w1 k nothing = record { coherent = k; serves = λ c p slot r v. v }
  Outsides-Carried w w2 k (then w1 _ os o) =
      let a = Outsides-Carried w w1 k os in
      let b = Outside-Carried w1 w2 a.coherent o in
      record {
        coherent = b.coherent;
        serves = λ c p slot r v. b.serves c p slot r (a.serves c p slot r v);
      }
