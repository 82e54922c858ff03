-- ===== src/Pool/Tests.antt =====
-- Runs of the pool of src/api/tenants.py, and its theorems at them.
use querix_semantic_search.Prelude.{
  ◌≡◌, refl, Bool, true, false, some, [], ◌∷◌, length, map, if◌then◌else◌, Text, codes, text_eq, ok,
  err,
}
use querix_semantic_search.Generations.Manifest.{Profile, slot_a, slot_b, slot_b_table}
use querix_semantic_search.Generations.Operations.{record_candidate_ready}
use querix_semantic_search.Pool.Services.{World, Setting, get_service}
use querix_semantic_search.Pool.Swaps.{set_file, activate_candidate}
use querix_semantic_search.Pool.Active.{Serves}
use querix_semantic_search.Pool.Entries.{Opened}
use querix_semantic_search.Pool.Coherence.{
  records, nothing, outside, gets, started, Reach, start, next,
}
use querix_semantic_search.Pool.Steps.{get_service-Serves}
use querix_semantic_search.Pool.Activation.{ActivationOutcome, activation_outcome}

abbrev company : Text → Profile
company name = record {
  company_id = name;
  storage = record {
    pgvector_table = name;
    bm25_path = record { parent = name ∷ []; name = codes "bm25" };
  };
}

-- An engine is the table that it reads; the table of `x` does not open.
abbrev two_companies : Setting Text Text
two_companies = record {
  registry = λ c. some (company c);
  sha256_hex = λ t. t;
  open_engine = λ p.
      if text_eq p.storage.pgvector_table (codes "x")
      then err (codes "no table")
      else ok p.storage.pgvector_table;
  readiness = λ e. true;
}

abbrev busy : Text → Bool
busy e = false

abbrev at_rest : Text → Bool
at_rest e = true

abbrev of_size_1 : World Text Text
of_size_1 = started two_companies 1

-- `m` has a service on slot `a`.
abbrev m_loaded : World Text Text
m_loaded = (get_service two_companies (codes "m") 1 1 busy of_size_1).0

-- A candidate of `m` is ready for slot `b`.
abbrev m_recorded : World Text Text
m_recorded =
    set_file two_companies (codes "m")
      (record_candidate_ready (company (codes "m")) 1 slot_b (codes "g2") (codes "{}") 2 2
        (m_loaded.file (codes "m"))).0
      m_loaded

m_recorded-Reach : Reach two_companies m_recorded
m_recorded-Reach =
    next m_loaded m_recorded
      (next of_size_1 m_loaded (start 1) (outside m_loaded (gets (codes "m") 1 1 busy)))
      (outside m_recorded
        (records (codes "m") (company (codes "m")) 1 slot_b (codes "g2") (codes "{}") 2 2 refl))

abbrev m_activated : World Text Text
m_activated =
    (activate_candidate two_companies (λ w. w) (codes "m") slot_b (codes "g2") 3 3 10 m_recorded).0

activated_slot :
    (get_service two_companies (codes "m") 4 20 busy m_activated).1
    ≡ ok (record { engine = codes "m__b"; generation = codes "g2"; slot = slot_b })
unfolding get_service activate_candidate record_candidate_ready text_eq slot_b_table
activated_slot = refl

retired_until : map (λ r. r.0) m_activated.retired ≡ 310 ∷ []
unfolding get_service activate_candidate record_candidate_ready text_eq slot_b_table
retired_until = refl

-- A retired service at rest is closed by the next call.
closes_retired :
    map (λ s. s.slot) (get_service two_companies (codes "m") 4 310 at_rest m_activated).0.closed
    ≡ slot_a ∷ []
unfolding get_service activate_candidate record_candidate_ready text_eq slot_b_table
closes_retired = refl

-- If that call fails, the service is neither closed nor retired any more.
loses_retired : (get_service two_companies (codes "x") 4 310 at_rest m_activated).0.closed ≡ []
unfolding get_service activate_candidate record_candidate_ready text_eq slot_b_table
loses_retired = refl

loses_retired_entry :
    (get_service two_companies (codes "x") 4 310 at_rest m_activated).0.retired ≡ []
unfolding get_service activate_candidate record_candidate_ready text_eq slot_b_table
loses_retired_entry = refl

-- Activating a company whose service is not loaded grows a pool of one service to two.
grows_past_bound :
    length
      (activate_candidate two_companies
        (λ w. w)
        (codes "m")
        slot_b
        (codes "g2")
        3
        3
        10
        (get_service two_companies (codes "n") 2 2 busy m_recorded).0).0.services
    ≡ 2
unfolding get_service activate_candidate record_candidate_ready text_eq slot_b_table
grows_past_bound = refl

m_got :
    (get_service two_companies (codes "m") 4 5 busy m_recorded).1
    ≡ ok (record { engine = codes "m"; generation = codes "legacy-a"; slot = slot_a })
unfolding get_service record_candidate_ready text_eq
m_got = refl

get_service-Serves_example :
    Serves
      (company (codes "m"))
      ((get_service two_companies (codes "m") 4 5 busy m_recorded).0.file (codes "m"))
      slot_a
    × Opened two_companies
        (company (codes "m"))
        (record { engine = codes "m"; generation = codes "legacy-a"; slot = slot_a })
get_service-Serves_example =
    get_service-Serves two_companies m_recorded (codes "m") (company (codes "m")) 4 5 busy
      (record { engine = codes "m"; generation = codes "legacy-a"; slot = slot_a }) m_recorded-Reach
      refl m_got

activation_outcome_example :
    ActivationOutcome two_companies
      (codes "m")
      slot_b
      (codes "g2")
      10
      m_recorded
      m_recorded
      (activate_candidate two_companies (λ w. w) (codes "m") slot_b (codes "g2") 3 3 10 m_recorded)
activation_outcome_example =
    activation_outcome two_companies m_recorded (λ w. w) (codes "m") slot_b (codes "g2") 3 3 10
      m_recorded-Reach nothing
