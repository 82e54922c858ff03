-- ===== src/Reranker/Fallback.antt =====
-- `FallbackReranker` of src/search/reranker.py: the providers in order, until one gives scores.
use querix_semantic_search.Prelude.{
  ℕ, suc, ◌+◌, ◌≡◌, refl, sym, ap, ◌∙◌, Option, none, some, List, [], ◌∷◌, ◌++◌, arith, length,
  Result, ok, err, ok-injective, err-injective, Text,
}
use querix_semantic_search.Reranker.Hosted.{
  ScoreError, Reply, HostedReranker, Readings, compute_score,
}

pub record Provider : Type 0 where
  pub name : Text
  pub model : Text
  pub hosted : HostedReranker

-- One entry of `last_attempts`; the reason of a fallback is the exception.
pub record Attempt : Type 0 where
  pub provider : Text
  pub model : Text
  pub fallback : Option ScoreError
  pub usage : Option ℕ

-- The providers after the call, `last_attempts`, `last_provider`, and the scores or the exception
-- with the failures of all providers.
pub record Scoring (S : Type 0) : Type 0 where
  pub providers : List Provider
  pub last_attempts : List Attempt
  pub last_provider : Option Text
  pub scores : Result (List (Text × ScoreError)) (List S)

abbrev attempt : Provider → HostedReranker → Option ScoreError → Attempt
attempt p h e = record { provider = p.name; model = p.model; fallback = e; usage = h.last_tokens }

module _ {S : Type 0} where
  -- A provider whose `compute_score` raised, before the rest.
  abbrev failed : Provider → HostedReranker → ScoreError → Scoring S → Scoring S
  failed p h e rest = record {
    providers = record p { hosted = h } ∷ rest.providers;
    last_attempts = attempt p h (some e) ∷ rest.last_attempts;
    last_provider = rest.last_provider;
    scores = elim rest.scores [ ok ss ↦ ok ss | err es ↦ err ((p.name, e) ∷ es) ];
  }

  abbrev served : Provider → HostedReranker → List S → List Provider → Scoring S
  served p h scores ps = record {
    providers = record p { hosted = h } ∷ ps;
    last_attempts = attempt p h none ∷ [];
    last_provider = some p.name;
    scores = ok scores;
  }

  abbrev chosen :
      Provider → HostedReranker × Result ScoreError (List S) → List Provider → Scoring S → Scoring S
  chosen p (h, ok scores) ps rest = served p h scores ps
  chosen p (h, err e) ps rest = failed p h e rest

  -- `compute_score`; `world i` is the clock and the network that the provider at place `i` meets.
  unfoldable pub fallback_score :
      (ℕ → Readings × (Text → List Text → Reply S))
      → ℕ
      → List (Text × Text)
      → List Provider
      → Scoring S
  unfolding compute_score
  fallback_score world i pairs [] = record {
    providers = [];
    last_attempts = [];
    last_provider = none;
    scores = err [];
  }
  fallback_score world i pairs (p ∷ ps) =
      let rest = fallback_score world (suc i) pairs ps in
      let step = compute_score (world i).0 (world i).1 pairs p.hosted in chosen p step ps rest

abbrev pub names_of : List Provider → List Text
names_of [] = []
names_of (p ∷ ps) = p.name ∷ names_of ps

abbrev pub failed_names : List (Text × ScoreError) → List Text
failed_names [] = []
failed_names (f ∷ fs) = f.0 ∷ failed_names fs

module _ {S : Type 0} (world : ℕ → Readings × (Text → List Text → Reply S))
    (pairs : List (Text × Text)) where
  -- Every provider raises, at its place in the order.
  abbrev pub Fails : ℕ → List Provider → Type 0
  Fails i [] = Unit
  Fails i (p ∷ ps) =
      ((h : HostedReranker) × (e : ScoreError) × (compute_score (world i).0 (world i).1 pairs
            p.hosted
          ≡ (h, err e)))
      × Fails (suc i) ps

  -- The provider whose scores are returned.
  pub record ServedBy (i : ℕ) (ps : List Provider) (out : Scoring S) (scores : List S)
      : Type 0 where
    pub before : List Provider
    pub provider : Provider
    pub after : List Provider
    pub order : ps ≡ before ++ provider ∷ after
    pub failures : Fails i before
    pub hosted : HostedReranker
    pub answer :
        compute_score
          (world (i + length before)).0
          (world (i + length before)).1
          pairs
          provider.hosted
        ≡ (hosted, ok scores)
    pub reported : out.last_provider ≡ some provider.name
    pub attempts : length out.last_attempts ≡ suc (length before)
    pub written : List Provider
    pub left : out.providers ≡ written ++ record provider { hosted = hosted } ∷ after

  step-served :
      (i : ℕ) (p : Provider) (ps : List Provider) (x : HostedReranker × Result ScoreError (List S))
      (rest : Scoring S) (scores : List S)
      → compute_score (world i).0 (world i).1 pairs p.hosted ≡ x
      → ((ss : List S) → rest.scores ≡ ok ss → ServedBy (suc i) ps rest ss)
      → (chosen p x ps rest).scores ≡ ok scores
      → ServedBy i (p ∷ ps) (chosen p x ps rest) scores
  step-served i p ps (h, ok ss) rest scores ex ih e = record {
    before = [];
    provider = p;
    after = ps;
    order = refl;
    failures = tt;
    hosted = h;
    answer = let z : i + 0 ≡ i = omega arith in rw (z, ← ok-injective e) ex;
    reported = refl;
    attempts = omega arith;
    written = [];
    left = refl;
  }
  step-served i p ps (h, err x) rest scores ex ih e =
      let r = ih scores (passes rest.scores e) in
      record {
        before = p ∷ r.before;
        provider = r.provider;
        after = r.after;
        order = ap (◌∷◌ p) r.order;
        failures = ((h, x, ex), r.failures);
        hosted = r.hosted;
        answer =
            let z : i + suc (length r.before) ≡ suc i + length r.before = omega arith in
            rw z r.answer;
        reported = r.reported;
        attempts = omega (arith, r.attempts);
        written = record p { hosted = h } ∷ r.written;
        left = ap (◌∷◌ (record p { hosted = h })) r.left;
      }
    where
      passes :
          (o : Result (List (Text × ScoreError)) (List S))
          → ◌≡◌ {A = Result (List (Text × ScoreError)) (List S)}
              (elim o [ ok ss ↦ ok ss | err es ↦ err ((p.name, x) ∷ es) ])
              (ok scores)
          → o ≡ ok scores
      passes (ok ss) k = k
      passes (err es) k = absurd (cc)

  -- Scores come from the first provider that gives any: those before it all raised, it is the one
  -- reported, it and they were each tried once, and no provider after it was touched.
  pub fallback_first_success :
      (i : ℕ) (ps : List Provider) (scores : List S)
      → (fallback_score world i pairs ps).scores ≡ ok scores
      → ServedBy i ps (fallback_score world i pairs ps) scores
  unfolding fallback_score
  fallback_first_success i [] scores e = absurd (cc)
  fallback_first_success i (p ∷ ps) scores e =
      step-served i p ps (compute_score (world i).0 (world i).1 pairs p.hosted)
        (fallback_score world (suc i) pairs ps) scores refl
        (λ ss h. fallback_first_success (suc i) ps ss h) e

  step-exhausted :
      (i : ℕ) (p : Provider) (ps : List Provider) (x : HostedReranker × Result ScoreError (List S))
      (rest : Scoring S) (failures : List (Text × ScoreError))
      → compute_score (world i).0 (world i).1 pairs p.hosted ≡ x
      → ((fs : List (Text × ScoreError))
          → rest.scores ≡ err fs
          → Fails (suc i) ps × (failed_names fs ≡ names_of ps) × (rest.last_provider ≡ none))
      → (chosen p x ps rest).scores ≡ err failures
      → Fails i (p ∷ ps)
        × (failed_names failures ≡ names_of (p ∷ ps))
        × ((chosen p x ps rest).last_provider ≡ none)
  step-exhausted i p ps (h, ok ss) rest failures ex ih e = absurd (cc)
  step-exhausted i p ps (h, err x) rest failures ex ih e = go rest.scores refl e
    where
      go :
          (o : Result (List (Text × ScoreError)) (List S))
          → rest.scores ≡ o
          → ◌≡◌ {A = Result (List (Text × ScoreError)) (List S)}
              (elim o [ ok ss ↦ ok ss | err es ↦ err ((p.name, x) ∷ es) ])
              (err failures)
          → Fails i (p ∷ ps)
            × (failed_names failures ≡ names_of (p ∷ ps))
            × (rest.last_provider ≡ none)
      go (ok ss) er k = absurd (cc)
      go (err es) er k =
          let (fs, ns, lp) = ih es er in
          (((h, x, ex), fs), ap failed_names (sym (err-injective k)) ∙ ap (◌∷◌ p.name) ns, lp)

  -- When the chain fails, every provider was tried and raised; the exception names each of them in
  -- order, and no provider is reported.
  pub fallback_exhausted :
      (i : ℕ) (ps : List Provider) (failures : List (Text × ScoreError))
      → (fallback_score world i pairs ps).scores ≡ err failures
      → Fails i ps
        × (failed_names failures ≡ names_of ps)
        × ((fallback_score world i pairs ps).last_provider ≡ none)
  unfolding fallback_score
  fallback_exhausted i [] failures e = (tt, ap failed_names (sym (err-injective e)), refl)
  fallback_exhausted i (p ∷ ps) failures e =
      step-exhausted i p ps (compute_score (world i).0 (world i).1 pairs p.hosted)
        (fallback_score world (suc i) pairs ps) failures refl
        (λ fs h. fallback_exhausted (suc i) ps fs h) e
