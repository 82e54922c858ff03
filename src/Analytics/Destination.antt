-- ===== src/Analytics/Destination.antt =====
-- The search history and API usage tables in MySQL, and `write_search_analytics_events` of
-- src/storage/search_analytics.py. Each table has a unique key on `request_id`; its rows stand in
-- the order of their AUTO_INCREMENT ids.
use querix_semantic_search.Prelude.{
  ℕ, Bool, Option, List, [], ◌∷◌, ◌++◌, if◌then◌else◌, any, take, length, Result, ok, err, Text,
  text_eq, non_negative,
}
use querix_semantic_search.Analytics.Events.{
  Platform, SearchAnalyticsEvent, Attempt, api_call_count, input_tokens, output_tokens,
  thought_tokens, total_tokens, kept_timings, attempts, normalized_query,
}

pub record HistoryRow : Type 0 where
  pub request_id : Text
  pub query_text : Text
  pub created_at : ℕ

pub record UsageRow : Type 0 where
  pub request_id : Text
  pub company_id : Text
  pub execution_path : Text
  pub result_count : ℕ
  pub total_results : ℕ
  pub status : Text
  pub api_call_count : ℕ
  pub input_tokens : ℕ
  pub output_tokens : ℕ
  pub thought_tokens : ℕ
  pub total_tokens : ℕ
  pub duration_ms : ℕ
  pub attempts : List Attempt
  pub plan_cache_hit : Option Bool
  pub result_cache_hit : Option Bool
  pub timings : List (Text × ℕ)
  pub context_json : Text
  pub created_at : ℕ

pub record Destination : Type 0 where
  pub history : List HistoryRow
  pub usage : List UsageRow

-- `event.request_id[:32]`, the key of both tables.
abbrev pub key_of : SearchAnalyticsEvent → Text
key_of e = take 32 e.request_id

unfoldable pub history_row : Platform → SearchAnalyticsEvent → HistoryRow
unfolding normalized_query
history_row pl e = record {
  request_id = key_of e;
  query_text = take 1000 (normalized_query pl e.query_text);
  created_at = e.created_at;
}

unfoldable pub usage_row : Platform → SearchAnalyticsEvent → UsageRow
unfolding api_call_count input_tokens output_tokens thought_tokens total_tokens kept_timings
    attempts
usage_row pl e = record {
  request_id = key_of e;
  company_id = take 63 e.company_id;
  execution_path = take 32 e.execution_path;
  result_count = non_negative e.result_count;
  total_results = non_negative e.total_results;
  status = take 32 e.status;
  api_call_count = api_call_count e;
  input_tokens = input_tokens e;
  output_tokens = output_tokens e;
  thought_tokens = thought_tokens e;
  total_tokens = total_tokens e;
  duration_ms = non_negative e.duration_ms;
  attempts = attempts 1 e.api_usage;
  plan_cache_hit = e.plan_cache_hit;
  result_cache_hit = e.result_cache_hit;
  timings = kept_timings e.timings_ms;
  context_json = pl.context_json e.context;
  created_at = e.created_at;
}

-- INSERT … ON DUPLICATE KEY UPDATE id = LAST_INSERT_ID(id): a row of the request stays as it is.
unfoldable pub insert_history : HistoryRow → List HistoryRow → List HistoryRow
insert_history row rows =
    if any (λ r. text_eq r.request_id row.request_id) rows then rows else rows ++ row ∷ []

-- INSERT … ON DUPLICATE KEY UPDATE of every column: the row of the request is replaced.
unfoldable pub upsert_usage : UsageRow → List UsageRow → List UsageRow
upsert_usage row [] = row ∷ []
upsert_usage row (r ∷ rows) =
    if text_eq r.request_id row.request_id then row ∷ rows else r ∷ upsert_usage row rows

unfoldable pub write_event : Platform → SearchAnalyticsEvent → Destination → Destination
unfolding insert_history upsert_usage history_row usage_row
write_event pl e d = record {
  history = insert_history (history_row pl e) d.history;
  usage = upsert_usage (usage_row pl e) d.usage;
}

unfoldable pub write_events : Platform → List SearchAnalyticsEvent → Destination → Destination
unfolding write_event
write_events pl [] d = d
write_events pl (e ∷ es) d = write_events pl es (write_event pl e d)

-- How the transaction ends: committed; failed at a statement or at the commit, and rolled back; or
-- committed by the server with the answer lost, which is an exception too.
pub data Commit : Type 0 where
  committed : Commit
  rolled_back : Commit
  commit_lost : Commit

pub data WriteError : Type 0 where
  database_failed : WriteError

unfoldable pub write_search_analytics_events :
    Platform → Commit → List SearchAnalyticsEvent → Destination → Destination × Result WriteError ℕ
unfolding write_events
write_search_analytics_events pl c [] d = (d, ok 0)
write_search_analytics_events pl committed (e ∷ es) d =
    (write_events pl (e ∷ es) d, ok (length (e ∷ es)))
write_search_analytics_events pl rolled_back (e ∷ es) d = (d, err database_failed)
write_search_analytics_events pl commit_lost (e ∷ es) d =
    (write_events pl (e ∷ es) d, err database_failed)
