-- ===== src/Analytics/Tests.antt =====
-- Runs of the spool and its delivery, and each theorem at a concrete input.
use querix_semantic_search.Prelude.{
  ℕ, zero, suc, ◌<◌, ◌≡◌, refl, true, false, Option, none, some, List, [], ◌∷◌, ◌++◌, ◌⊎◌,
  if◌then◌else◌, arith, keep, Result, ok, err, Text, codes, Distinct, text_eq, pos,
}
use querix_semantic_search.Analytics.Events.{Platform, SearchAnalyticsEvent}
use querix_semantic_search.Analytics.Destination.{
  Destination, database_failed, committed, commit_lost, key_of, write_event, write_events,
}
use querix_semantic_search.Analytics.Spool.{
  SpoolRow, Spool, Round, Delivery, DeliveryError, Report, write_failed, decode_all, deliver,
  pending, max_id, in_snapshot,
}
use querix_semantic_search.Analytics.Ordering.{IsSound}
use querix_semantic_search.Analytics.Quiet.{IsQuiet, OwnEvents}
use querix_semantic_search.Analytics.Rounds.{is_other}
use querix_semantic_search.Analytics.Delivery.{own_rows, IsSafe, deliver_complete}
use querix_semantic_search.Analytics.Lossless.{KeepsArrivals, deliver_loses_nothing}
use querix_semantic_search.Analytics.Resume.{resume_exactly_once}
use querix_semantic_search.Analytics.Worker.{
  Store, init, admit, offer, worker_takes, worker_finishes, status,
}
use querix_semantic_search.Analytics.Saves.{save_to_spool, save_to_mysql, writes}
use querix_semantic_search.Analytics.Runs.{
  begin, admits, offers, takes, finishes, finished, is_full, IsFaithful,
}
use querix_semantic_search.Analytics.Accounting.{Run-IsFaithful}
use querix_semantic_search.Analytics.Attempts.{two_attempts_once}

abbrev platform : Platform
platform = record { is_space = λ c. elim c [ zero ↦ false | suc _ ↦ false ]; context_json = λ t. t }

abbrev acme : Text
acme = codes "a"

abbrev other_company : Text
other_company = codes "b"

-- An event whose payload is its request id.
abbrev event_of : Text → SearchAnalyticsEvent
event_of id = record {
  request_id = id;
  company_id = acme;
  query_text = [];
  execution_path = [];
  duration_ms = pos 0;
  result_count = pos 1;
  total_results = pos 1;
  status = [];
  api_usage = [];
  plan_cache_hit = none;
  result_cache_hit = none;
  timings_ms = [];
  context = [];
  created_at = 0;
}

abbrev decode : Text → Option SearchAnalyticsEvent
decode id = some (event_of id)

abbrev row : ℕ → Text → Text → SpoolRow
row id request company = record {
  id = id;
  request_id = request;
  company_id = company;
  payload_json = request;
  created_at = 0;
  spooled_at = 0;
}

abbrev spool : Spool
spool = record {
  rows = row 1 (codes "r") acme ∷ row 2 (codes "s") other_company ∷ row 3 (codes "t") acme ∷ [];
  next_id = 4;
}

abbrev tables : Destination
tables = record { history = []; usage = [] }

abbrev calm : ℕ → Round
calm i = record { before = []; between = []; commit = committed; deletes = true }

-- The commit of the second round goes through, and its answer is lost.
abbrev losing : ℕ → Round
losing zero = record { before = []; between = []; commit = committed; deletes = true }
losing (suc i) = record { before = []; between = []; commit = commit_lost; deletes = true }

-- The same rounds, in the first of which the service inserts a row of another company.
abbrev arriving : ℕ → Round
arriving zero = record {
  before = [];
  between = row 0 (codes "v") other_company ∷ [];
  commit = committed;
  deletes = true;
}
arriving (suc i) = losing (suc i)

abbrev events : List SearchAnalyticsEvent
events = event_of (codes "r") ∷ event_of (codes "t") ∷ []

-- What the losing delivery leaves: the event of row 3 is in the tables, and the row in the spool.
abbrev broken : Delivery
broken = record {
  spool = record {
    rows = row 2 (codes "s") other_company ∷ row 3 (codes "t") acme ∷ [];
    next_id = 4;
  };
  destination = write_events platform events tables;
  uploaded = 1;
  deleted = 1;
}

spool-IsSound : IsSound spool
spool-IsSound = record { starts = omega arith; ascending = omega arith; below = omega arith }

spool-pending : pending acme spool < 3
unfolding pending text_eq
spool-pending = omega arith

broken-pending : pending acme broken.spool < 3
unfolding pending text_eq
broken-pending = omega arith

spool-decodes : decode_all decode (own_rows acme spool.rows) ≡ ok events
unfolding decode_all text_eq
spool-decodes = refl

events-own : OwnEvents acme events
unfolding text_eq
events-own = (refl, (refl, tt))

events-Distinct : Distinct key_of events
unfolding text_eq
events-Distinct = (refl, (refl, tt))

calm-IsQuiet : (i : ℕ) → IsQuiet (calm i)
calm-IsQuiet i = record { commits = refl; deletes = refl }

losing_run :
    deliver platform decode acme 1 losing 3 spool tables
    ≡ some (broken, err (write_failed database_failed))
unfolding deliver text_eq
losing_run = refl

broken-no_arrival :
    own_rows acme broken.spool.rows
    ≡ keep (in_snapshot acme (max_id acme spool.rows)) broken.spool.rows
unfolding max_id text_eq
broken-no_arrival = refl

deliver_loses_nothing_example :
    (d : Delivery) × (outcome : Result DeliveryError Report) × (deliver platform decode acme 1
        arriving 3 spool tables
      ≡ some (d, outcome))
    × IsSafe platform decode acme spool tables d
    × KeepsArrivals platform decode acme 1 arriving spool tables d outcome
deliver_loses_nothing_example =
    deliver_loses_nothing platform decode acme 1 arriving 3 spool tables spool-IsSound (omega arith)
      (omega arith) spool-pending

deliver_complete_example :
    (d : Delivery) × (deliver platform decode acme 1 calm 3 spool tables
      ≡ some (
        d,
        ok (record {
          selected = pending acme spool;
          uploaded = pending acme spool;
          deleted = pending acme spool;
          pending = pending acme d.spool;
        }),
      ))
    × (d.destination ≡ write_events platform events tables)
    × (keep (in_snapshot acme (max_id acme spool.rows)) d.spool.rows ≡ [])
    × (keep (is_other acme (max_id acme spool.rows) spool.next_id) d.spool.rows
        ≡ keep (is_other acme (max_id acme spool.rows) spool.next_id) spool.rows)
deliver_complete_example =
    deliver_complete platform decode acme 1 calm 3 spool tables spool-IsSound (omega arith)
      (omega arith) spool-pending events spool-decodes events-own calm-IsQuiet

resume_exactly_once_example :
    (d' : Delivery) × (report : Report) × (deliver platform decode acme 1 calm 3 broken.spool
        broken.destination
      ≡ some (d', ok report))
    × (d'.destination ≡ write_events platform events tables)
resume_exactly_once_example =
    resume_exactly_once platform decode acme 1 losing calm 3 3 spool tables events broken
      (err (write_failed database_failed)) spool-IsSound (omega arith) (omega arith) spool-pending
      spool-decodes events-own events-Distinct losing_run broken-no_arrival calm-IsQuiet
      broken-pending

abbrev serialize : SearchAnalyticsEvent → Text
serialize e = e.request_id

abbrev empty_spool : Spool
empty_spool = record { rows = []; next_id = 1 }

abbrev store : Store Spool
store = record {
  company_id = acme;
  capacity = 2;
  queue = [];
  admitted = [];
  holding = none;
  closed = false;
  stopped = false;
  submitted = 0;
  written = 0;
  failed = 0;
  dropped = 0;
  sink = empty_spool;
}

abbrev first_event : SearchAnalyticsEvent
first_event = event_of (codes "r")

-- One event is submitted, taken and spooled.
abbrev admitted_store : Store Spool
admitted_store = (admit first_event store).0

abbrev queued_store : Store Spool
queued_store = (offer first_event (record admitted_store { admitted = [] })).0

abbrev spooled_store : Store Spool
spooled_store =
    worker_finishes (save_to_spool serialize (record { now = 5; commits = true }))
      (worker_takes queued_store)

spools :
    status spooled_store
    ≡ record { submitted = 1; written = 1; failed = 0; dropped = 0; queued = 0 }
unfolding status worker_finishes worker_takes offer admit save_to_spool text_eq
spools = refl

admitted_split : admitted_store.admitted ≡ [] ++ first_event ∷ []
unfolding admit text_eq
admitted_split = refl

store-init : init acme 2 empty_spool ≡ ok store
unfolding init
store-init = refl

Run-IsFaithful_example :
    IsFaithful
      (save_to_spool serialize)
      empty_spool
      spooled_store
      (if is_full admitted_store then [] else [] ++ first_event ∷ [])
      ([]
        ++ finished
            (save_to_spool serialize)
            (worker_takes queued_store).holding
            (record { now = 5; commits = true }))
Run-IsFaithful_example = Run-IsFaithful (save_to_spool serialize) acme 2 empty_spool store-init (
    finishes (record { now = 5; commits = true })
      (takes (offers [] [] first_event (admits first_event begin) admitted_split)))

two_attempts_once_example :
    (((save_to_mysql platform (writes commit_lost, writes committed) first_event tables).0 ≡ tables)
      × ((save_to_mysql platform (writes commit_lost, writes committed) first_event tables).1
          ≡ false))
    ⊎ ((save_to_mysql platform (writes commit_lost, writes committed) first_event tables).0
        ≡ write_event platform first_event tables)
two_attempts_once_example =
    two_attempts_once platform first_event tables (writes commit_lost, writes committed)
