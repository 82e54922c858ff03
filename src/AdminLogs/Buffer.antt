-- ===== src/AdminLogs/Buffer.antt =====
-- `AdminLogBuffer` and the classification of records, src/observability/admin_logs.py. The regular
-- expressions are Python's: a `Patterns` gives what their substitutions and the search compute.
use querix_semantic_search.Prelude.{
  ℕ, ◌+◌, ◌-◌, Bool, true, false, not, ◌&&◌, ◌||◌, Option, none, some, List, [], ◌∷◌, ◌++◌, ltb,
  leb, ◌==◌, if◌then◌else◌, length, take, drop, keep, any, Result, ok, err, Text, codes, text_eq,
  lookup,
}

pub record Patterns : Type 0 where
  pub redact : Text → Text
  pub http_status : Text → Option ℕ
  pub upper : Text → Text
  pub tenant_logger_names : List Text

pub data LogError : Type 0 where
  capacity_too_small unsupported_level : LogError

pub data EventKind : Type 0 where
  http_failure error warning application : EventKind
  startup search_completed provider_fallback capacity_wait : EventKind

-- A record; a message that cannot be formatted is `none`.
pub record LogRecord : Type 0 where
  pub name : Text
  pub levelno : ℕ
  pub levelname : Text
  pub created : ℕ
  pub message : Option Text

pub record LogEvent : Type 0 where
  pub id : ℕ
  pub timestamp_utc : ℕ
  pub level : Text
  pub kind : EventKind
  pub logger : Text
  pub message : Text

pub record AdminLogBuffer : Type 0 where
  pub capacity : ℕ
  pub events : List LogEvent
  pub next_id : ℕ

-- `prefix` begins the text.
unfoldable pub starts_with : Text → Text → Bool
starts_with [] text = true
starts_with (c ∷ s) [] = false
starts_with (c ∷ s) (d ∷ text) = (c == d) && starts_with s text

-- `marker in text`.
unfoldable pub contains : Text → Text → Bool
unfolding starts_with
contains marker [] = starts_with marker []
contains marker (c ∷ text) = starts_with marker (c ∷ text) || contains marker text

-- `sanitize_log_message`: the substitutions, then the length.
unfoldable pub sanitize_log_message : Patterns → ℕ → Text → Text
sanitize_log_message pt max_chars message =
    let sanitized = pt.redact message in
    if ltb max_chars (length sanitized)
    then take max_chars sanitized ++ codes "...[truncated]"
    else sanitized

abbrev operational_info_events : List (EventKind × Text)
operational_info_events =
    (startup, codes "startup_warmup status=")
    ∷ (search_completed, codes "step=compat_response status=complete")
    ∷ (provider_fallback, codes "step=query_model status=fallback")
    ∷ (capacity_wait, codes "step=request_coalesce status=waited")
    ∷ []

unfoldable pub info_kind : Text → List (EventKind × Text) → Option EventKind
unfolding contains
info_kind message [] = none
info_kind message ((kind, marker) ∷ events) =
    let rest = info_kind message events in if contains marker message then some kind else rest

abbrev is_success : Option ℕ → Bool
is_success none = false
is_success (some status) = leb 200 status && ltb status 400

unfoldable pub operational_event_kind : Patterns → LogRecord → Text → Option EventKind
unfolding contains info_kind
operational_event_kind pt r message =
    if text_eq r.name (codes "uvicorn.access")
    then (if contains (codes "/api/v1/admin/logs") message
        then none
        else if is_success (pt.http_status message)
        then none
        else some http_failure)
    else if leb 40 r.levelno
    then some error
    else if leb 30 r.levelno
    then some warning
    else if not (any (text_eq r.name) (codes "uvicorn.error" ∷ pt.tenant_logger_names))
    then some application
    else info_kind message operational_info_events

unfoldable pub init : ℕ → Result LogError AdminLogBuffer
init capacity =
    if ltb capacity 1
    then err capacity_too_small
    else ok (record { capacity = capacity; events = []; next_id = 1 })

-- `deque.append` under `maxlen`: the oldest elements give way.
abbrev pub last_of {ℓ} : {A : Type ℓ} → ℕ → List A → List A
last_of n xs = drop (length xs - n) xs

-- The event of a record, but for its id.
unfoldable pub event_of : Patterns → LogRecord → Option LogEvent
unfolding sanitize_log_message operational_event_kind
event_of pt r = elim r.message [
  | none ↦ none
  | some text ↦
      let message = sanitize_log_message pt 2000 text in
      elim (operational_event_kind pt r message) [
        | none ↦ none
        | some kind ↦ some (record {
          id = 0;
          timestamp_utc = r.created;
          level = r.levelname;
          kind = kind;
          logger = r.name;
          message = message;
        })
      ]
]

unfoldable pub append : LogEvent → AdminLogBuffer → AdminLogBuffer
append event b = record b {
  events = last_of b.capacity (b.events ++ record event { id = b.next_id } ∷ []);
  next_id = b.next_id + 1;
}

-- `emit`; an exception leaves the buffer as it is.
unfoldable pub emit : Patterns → LogRecord → AdminLogBuffer → AdminLogBuffer
unfolding event_of append
emit pt r b = elim (event_of pt r) [ none ↦ b | some event ↦ append event b ]

abbrev log_levels : List (Text × ℕ)
log_levels =
    (codes "DEBUG", 10)
    ∷ (codes "INFO", 20)
    ∷ (codes "WARNING", 30)
    ∷ (codes "ERROR", 40)
    ∷ (codes "CRITICAL", 50)
    ∷ []

abbrev number_or : ℕ → Option ℕ → ℕ
number_or d none = d
number_or d (some n) = n

unfoldable pub level_passes : ℕ → LogEvent → Bool
unfolding lookup
level_passes threshold event = leb threshold (number_or 20 (lookup event.level log_levels))

abbrev pub is_after : Option ℕ → LogEvent → Bool
is_after none event = true
is_after (some after) event = ltb after event.id

unfoldable pub eligible : ℕ → Option ℕ → List LogEvent → List LogEvent
unfolding level_passes
eligible threshold after events = keep (λ e. level_passes threshold e && is_after after e) events

abbrev pub last_id : ℕ → List LogEvent → ℕ
last_id d [] = d
last_id d (e ∷ es) = last_id e.id es

abbrev first_id : List LogEvent → ℕ
first_id [] = 0
first_id (e ∷ es) = e.id

-- `eligible[-limit:]`, which is all of it at 0, or `eligible[:limit]`.
abbrev pub select : ℕ → Option ℕ → List LogEvent → List LogEvent
select limit none events = if limit == 0 then events else last_of limit events
select limit (some after) events = take limit events

pub record Snapshot : Type 0 where
  pub capacity : ℕ
  pub retained : ℕ
  pub oldest_id : ℕ
  pub latest_id : ℕ
  pub next_after_id : ℕ
  pub returned : ℕ
  pub has_more : Bool
  pub events : List LogEvent

unfoldable pub snapshot_at : ℕ → ℕ → Option ℕ → AdminLogBuffer → Snapshot
unfolding eligible
snapshot_at limit threshold after b =
    let found = eligible threshold after b.events in
    let selected = select limit after found in
    let latest = last_id 0 b.events in
    record {
      capacity = b.capacity;
      retained = length b.events;
      oldest_id = first_id b.events;
      latest_id = latest;
      next_after_id = last_id (number_or latest after) selected;
      returned = length selected;
      has_more = ltb (length selected) (length found);
      events = selected;
    }

unfoldable pub snapshot : Patterns → ℕ → Text → Option ℕ → AdminLogBuffer → Result LogError Snapshot
unfolding snapshot_at lookup
snapshot pt limit minimum_level after b = elim (lookup (pt.upper minimum_level) log_levels) [
  | none ↦ err unsupported_level
  | some threshold ↦ ok (snapshot_at limit threshold after b)
]
