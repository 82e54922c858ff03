-- ===== src/AdminLogs/Tests.antt =====
-- Runs of the log buffer.
use querix_semantic_search.Prelude.{
  ℕ, ◌≤◌, ◌≡◌, ◌↔◌, refl, false, none, some, List, [], ◌∷◌, ◌++◌, length, ok, codes, text_eq,
}
use querix_semantic_search.AdminLogs.Buffer.{
  Patterns, LogRecord, LogEvent, AdminLogBuffer, Snapshot, init, last_of, emit, eligible,
  snapshot_at, warning,
}
use querix_semantic_search.AdminLogs.Retention.{emits, log_from, emits_retain}
use querix_semantic_search.AdminLogs.Paging.{page_then_rest}

abbrev patterns : Patterns
patterns = record {
  redact = λ t. t;
  http_status = λ t. none;
  upper = λ t. t;
  tenant_logger_names = [];
}

abbrev warns : ℕ → LogRecord
warns t = record {
  name = codes "app";
  levelno = 30;
  levelname = codes "WARNING";
  created = t;
  message = some (codes "m");
}

abbrev four : List LogRecord
four = warns 1 ∷ warns 2 ∷ warns 3 ∷ warns 4 ∷ []

abbrev empty : AdminLogBuffer
empty = record { capacity = 3; events = []; next_id = 1 }

init_three : init 3 ≡ ok empty
unfolding init
init_three = refl

event : ℕ → LogEvent
event t = record {
  id = t;
  timestamp_utc = t;
  level = codes "WARNING";
  kind = warning;
  logger = codes "app";
  message = codes "m";
}

newest_three : (emits patterns four empty).events ≡ event 2 ∷ event 3 ∷ event 4 ∷ []
unfolding emits emit event text_eq
newest_three = refl

emits_retain_example :
    ((emits patterns four empty).events ≡ last_of 3 (log_from patterns 1 four))
    × (length (emits patterns four empty).events ≤ 3)
emits_retain_example = emits_retain patterns 3 four init_three

abbrev page : Snapshot
page = snapshot_at 1 30 (some 2) (emits patterns four empty)

page_then_rest_example :
    (page.events ++ eligible 30 (some page.next_after_id) (emits patterns four empty).events
      ≡ eligible 30 (some 2) (emits patterns four empty).events)
    × ((page.has_more ≡ false)
        ↔ (eligible 30 (some page.next_after_id) (emits patterns four empty).events ≡ []))
page_then_rest_example = page_then_rest patterns 3 four 1 30 2 init_three
