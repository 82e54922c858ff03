-- ===== src/Analytics/Events.antt =====
-- The events of src/storage/search_analytics.py, their totals, and the rows that the two MySQL
-- tables keep of them. A measure is a whole number of thousandths of a millisecond, and a time is a
-- count of ticks in UTC. The context of an event is its JSON text.
use querix_semantic_search.Prelude.{
  ℕ, ◌+◌, Bool, Option, none, some, List, [], ◌∷◌, ◌++◌, if◌then◌else◌, any, take, Text, codes,
  text_eq, ℤ, pos, negsuc, non_negative,
}

-- What the code calls: `str.isspace`, `json.dumps` of the sanitised context.
pub record Platform : Type 0 where
  pub is_space : ℕ → Bool
  pub context_json : Text → Text

pub record SearchApiUsageEvent : Type 0 where
  pub provider : Text
  pub model : Text
  pub operation : Text
  pub status : Text
  pub api_calls : ℤ
  pub input_tokens : ℤ
  pub output_tokens : ℤ
  pub thought_tokens : ℤ
  pub total_tokens : ℤ
  pub duration_ms : ℤ
  pub failure_reason : Text

-- A measure that is not finite, or not a number, is `none`.
pub record SearchAnalyticsEvent : Type 0 where
  pub request_id : Text
  pub company_id : Text
  pub query_text : Text
  pub execution_path : Text
  pub duration_ms : ℤ
  pub result_count : ℤ
  pub total_results : ℤ
  pub status : Text
  pub api_usage : List SearchApiUsageEvent
  pub plan_cache_hit : Option Bool
  pub result_cache_hit : Option Bool
  pub timings_ms : List (Text × Option ℤ)
  pub context : Text
  pub created_at : ℕ

-- The sum of one counter over the attempts, each at least 0.
unfoldable pub total : (SearchApiUsageEvent → ℤ) → List SearchApiUsageEvent → ℕ
total counter [] = 0
total counter (item ∷ items) = non_negative (counter item) + total counter items

unfoldable pub api_call_count : SearchAnalyticsEvent → ℕ
unfolding total
api_call_count e = total (λ i. i.api_calls) e.api_usage

unfoldable pub input_tokens : SearchAnalyticsEvent → ℕ
unfolding total
input_tokens e = total (λ i. i.input_tokens) e.api_usage

unfoldable pub output_tokens : SearchAnalyticsEvent → ℕ
unfolding total
output_tokens e = total (λ i. i.output_tokens) e.api_usage

unfoldable pub thought_tokens : SearchAnalyticsEvent → ℕ
unfolding total
thought_tokens e = total (λ i. i.thought_tokens) e.api_usage

unfoldable pub total_tokens : SearchAnalyticsEvent → ℕ
unfolding total
total_tokens e = total (λ i. i.total_tokens) e.api_usage

-- SEARCH_ANALYTICS_TIMING_FIELDS.
abbrev pub timing_fields : List Text
timing_fields =
    codes "total_server_ms"
    ∷ codes "planning_ms"
    ∷ codes "query_model_ms"
    ∷ codes "query_model_load_ms"
    ∷ codes "engine_total_ms"
    ∷ codes "result_cache_ms"
    ∷ codes "embedding_ms"
    ∷ codes "embedding_load_ms"
    ∷ codes "vector_search_ms"
    ∷ codes "bm25_search_ms"
    ∷ codes "retrieval_ms"
    ∷ codes "parallel_retrieval_ms"
    ∷ codes "fusion_ms"
    ∷ codes "type_lookup_ms"
    ∷ codes "reranker_load_ms"
    ∷ codes "reranking_ms"
    ∷ codes "related_tail_ms"
    ∷ codes "database_filter_ms"
    ∷ codes "eligibility_ms"
    ∷ codes "hydration_ms"
    ∷ codes "response_mapping_ms"
    ∷ codes "session_storage_ms"
    ∷ codes "usage_recording_ms"
    ∷ codes "recent_search_ms"
    ∷ codes "filter_diagnostics_ms"
    ∷ []

-- The timings of known fields, which are finite and not negative.
unfoldable pub kept_timings : List (Text × Option ℤ) → List (Text × ℕ)
kept_timings [] = []
kept_timings ((name, some (pos v)) ∷ rest) =
    if any (text_eq name) timing_fields then (name, v) ∷ kept_timings rest else kept_timings rest
kept_timings ((name, some (negsuc v)) ∷ rest) = kept_timings rest
kept_timings ((name, none) ∷ rest) = kept_timings rest

pub record Attempt : Type 0 where
  pub attempt_number : ℕ
  pub provider : Text
  pub model : Text
  pub operation : Text
  pub status : Text
  pub api_calls : ℕ
  pub input_tokens : ℕ
  pub output_tokens : ℕ
  pub thought_tokens : ℕ
  pub total_tokens : ℕ
  pub duration_ms : ℕ
  pub failure_reason : Text

-- `enumerate(event.api_usage, start)`, with the texts cut to their columns.
unfoldable pub attempts : ℕ → List SearchApiUsageEvent → List Attempt
attempts number [] = []
attempts number (item ∷ items) =
    (record {
      attempt_number = number;
      provider = take 64 item.provider;
      model = take 191 item.model;
      operation = take 64 item.operation;
      status = take 32 item.status;
      api_calls = non_negative item.api_calls;
      input_tokens = non_negative item.input_tokens;
      output_tokens = non_negative item.output_tokens;
      thought_tokens = non_negative item.thought_tokens;
      total_tokens = non_negative item.total_tokens;
      duration_ms = non_negative item.duration_ms;
      failure_reason = take 255 item.failure_reason;
    })
    ∷ attempts (number + 1) items

-- `" ".join(words)` over `s.split()`: runs of white space become one blank, none at the ends.
-- `pending` says that a blank is due before the next character.
unfoldable pub squeeze : (ℕ → Bool) → Bool → Bool → Text → Text
squeeze is_space started pending [] = []
squeeze is_space started pending (c ∷ s) =
    let skip = squeeze is_space started started s in
    let rest = squeeze is_space Bool.true Bool.false s in
    if is_space c then skip else if pending then codes " " ++ (c ∷ rest) else c ∷ rest

unfoldable pub normalized_query : Platform → Text → Text
unfolding squeeze
normalized_query pl s = squeeze pl.is_space Bool.false Bool.false s
