-- ===== src/Analytics/Saves.antt =====
-- What the two workers do with an event: `SQLiteSearchAnalyticsSpoolStore._run` inserts it into
-- the spool, `MySQLSearchAnalyticsStore._run` writes it to the tables in at most two attempts.
use querix_semantic_search.Prelude.{
  ℕ, Bool, true, false, [], ◌∷◌, if◌then◌else◌, Result, ok, err, Text,
}
use querix_semantic_search.Analytics.Events.{Platform, SearchAnalyticsEvent}
use querix_semantic_search.Analytics.Destination.{
  Destination, Commit, WriteError, write_search_analytics_events,
}
use querix_semantic_search.Analytics.Spool.{SpoolRow, Spool, insert_or_ignore}

-- One turn of the spool's worker: the time of the insertion, and whether it commits.
pub record Turn : Type 0 where
  pub now : ℕ
  pub commits : Bool

unfoldable pub spool_row : (SearchAnalyticsEvent → Text) → ℕ → SearchAnalyticsEvent → SpoolRow
spool_row serialize now e = record {
  id = 0;
  request_id = e.request_id;
  company_id = e.company_id;
  payload_json = serialize e;
  created_at = e.created_at;
  spooled_at = now;
}

unfoldable pub save_to_spool :
    (SearchAnalyticsEvent → Text) → Turn → SearchAnalyticsEvent → Spool → Spool × Bool
unfolding spool_row
save_to_spool serialize turn e s =
    if turn.commits then (insert_or_ignore (spool_row serialize turn.now e) s, true) else (s, false)

-- One attempt of the MySQL worker: no connection, or the end of the transaction.
pub data Attempt : Type 0 where
  no_connection : Attempt
  writes : Commit → Attempt

abbrev returned : Result WriteError ℕ → Bool
returned (ok n) = true
returned (err x) = false

unfoldable pub try_write :
    Platform → Attempt → SearchAnalyticsEvent → Destination → Destination × Bool
unfolding write_search_analytics_events
try_write pl no_connection e d = (d, false)
try_write pl (writes c) e d =
    let (written, outcome) = write_search_analytics_events pl c (e ∷ []) d in
    (written, returned outcome)

-- The two attempts; the second is not made if the first has written.
unfoldable pub save_to_mysql :
    Platform → Attempt × Attempt → SearchAnalyticsEvent → Destination → Destination × Bool
unfolding try_write
save_to_mysql pl (first, second) e d =
    let (once, saved) = try_write pl first e d in
    let twice = try_write pl second e once in if saved then (once, true) else twice
