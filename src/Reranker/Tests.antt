-- ===== src/Reranker/Tests.antt =====
-- Runs of the hosted reranker and of the chain.
use querix_semantic_search.Prelude.{
  ℕ, zero, suc, ◌<◌, ◌≡◌, refl, true, Option, none, some, List, [], ◌∷◌, length, ok, err, Text,
  codes, text_eq, arith,
}
use querix_semantic_search.Limits.Window.{WindowLimiter, allow_memory, drop_expired}
use querix_semantic_search.Reranker.Hosted.{
  unavailable, cooldown_active, Entry, Reply, replied, http_error, HostedReranker, Readings,
  compute_score, one_query, documents, allow_all,
}
use querix_semantic_search.Reranker.Scores.{last_score, at_index, compute_score_complete}
use querix_semantic_search.Reranker.Cooldown.{rate_limit_respected}
use querix_semantic_search.Reranker.Fallback.{
  Provider, fallback_score, ServedBy, Fails, names_of, failed_names, fallback_first_success,
  fallback_exhausted,
}

abbrev limiter : WindowLimiter
limiter = record { requests_per_window = 2; window_seconds = 60; requests = [] }

abbrev hosted : HostedReranker
hosted = record {
  max_document_chars = 3;
  request_limiters = limiter ∷ [];
  unavailable_until = 0;
  last_tokens = none;
  rate_limit_cooldown = 30;
  failure_cooldown = 5;
}

abbrev readings : ℕ → Readings
readings t = record { checked = t; limits = λ i. (none, t); failed = t }

abbrev single : Text → List Text → Reply ℕ
single query docs = replied 6 (some (some (record { index = some 0; score = 40 }) ∷ []))

abbrev swapped : Text → List Text → Reply ℕ
swapped query docs = replied 12 (
    some (
      some (record { index = some 1; score = 40 })
      ∷ some (record { index = some 0; score = 70 })
      ∷ []))

abbrev busy : Text → List Text → Reply ℕ
busy query docs = http_error 429 none

abbrev q : Text
q = codes "q"

abbrev second : List (Text × Text)
second = (q, codes "dddd") ∷ []

abbrev both : List ℕ
both = 70 ∷ 40 ∷ []

abbrev after_success : HostedReranker
after_success = (compute_score (readings 100) swapped ((q, codes "c") ∷ second) hosted).0

scores_in_order :
    compute_score (readings 100) swapped ((q, codes "c") ∷ second) hosted ≡ (after_success, ok both)
unfolding compute_score text_eq allow_memory drop_expired
scores_in_order = refl

compute_score_complete_example :
    (one_query q second ≡ true)
    × (tokens : ℕ) × (results : List (Option (Entry ℕ))) × (swapped q
          (documents 3 ((q, codes "c") ∷ second))
        ≡ replied tokens (some results))
    × (length both ≡ 2)
    × (at_index 1 both ≡ last_score 1 none results)
compute_score_complete_example =
    compute_score_complete (readings 100) swapped q (codes "c") second 1 hosted after_success both
      (omega arith) scores_in_order

budget_left : (allow_all (readings 100).limits 0 hosted.request_limiters).1 ≡ none
unfolding allow_all allow_memory drop_expired
budget_left = refl

same_query : one_query q [] ≡ true
same_query = refl

rate_limit_respected_example :
    (wait : ℕ) × (0 < wait)
    × (compute_score
          (readings 120)
          swapped
          second
          (compute_score (readings 100) busy second hosted).0
        ≡ (
          record (compute_score (readings 100) busy second hosted).0 { last_tokens = none },
          err (cooldown_active wait),
        ))
rate_limit_respected_example =
    rate_limit_respected (readings 100) (readings 120) busy swapped q (codes "dddd") q
      (codes "dddd") [] [] none hosted (omega arith) same_query budget_left refl (omega arith)
      (omega arith)

abbrev provider : Text → Provider
provider name = record { name = name; model = name; hosted = hosted }

-- The first provider is busy, the second answers.
abbrev world : ℕ → Readings × (Text → List Text → Reply ℕ)
world i = elim i [ zero ↦ (readings 100, busy) | suc k ↦ (readings 100, single) ]

abbrev all_busy : ℕ → Readings × (Text → List Text → Reply ℕ)
all_busy i = (readings 100, busy)

abbrev two : List Provider
two = provider (codes "voyage") ∷ provider (codes "nemotron") ∷ []

both_fail :
    (fallback_score all_busy 0 second two).scores
    ≡ err
        ((codes "voyage", unavailable (some 429)) ∷ (codes "nemotron", unavailable (some 429)) ∷ [])
unfolding fallback_score allow_memory drop_expired
both_fail = refl

fallback_exhausted_example :
    Fails all_busy second 0 two
    × (failed_names (
          (codes "voyage", unavailable (some 429))
          ∷ (codes "nemotron", unavailable (some 429))
          ∷ [])
        ≡ names_of two)
    × ((fallback_score all_busy 0 second two).last_provider ≡ none)
fallback_exhausted_example =
    fallback_exhausted all_busy second 0 two
      ((codes "voyage", unavailable (some 429)) ∷ (codes "nemotron", unavailable (some 429)) ∷ [])
      both_fail

second_serves : (fallback_score world 0 second two).scores ≡ ok (40 ∷ [])
unfolding fallback_score allow_memory drop_expired
second_serves = refl

fallback_first_success_example :
    ServedBy world second 0 two (fallback_score world 0 second two) (40 ∷ [])
fallback_first_success_example = fallback_first_success world second 0 two (40 ∷ []) second_serves
