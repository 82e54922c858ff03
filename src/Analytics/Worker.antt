-- ===== src/Analytics/Worker.antt =====
-- The queue and the worker that `SQLiteSearchAnalyticsSpoolStore` (search_analytics_spool.py) and
-- `MySQLSearchAnalyticsStore` (search_analytics.py) of src/storage have in common: the two classes
-- differ in what the worker does with an event, which is `save` here. Each function is what a
-- thread does between two points where another may run.
use querix_semantic_search.Prelude.{
  ℕ, ◌+◌, Bool, true, false, not, Option, none, some, List, [], ◌∷◌, ◌++◌, leb, ◌==◌, if◌then◌else◌,
  length, Result, ok, err, Text, text_eq,
}
use querix_semantic_search.Analytics.Events.{SearchAnalyticsEvent}

-- What the queue holds: an event, or `_STOP`.
pub data Item : Type 0 where
  event : SearchAnalyticsEvent → Item
  stop : Item

-- `admitted` are the events of the calls of `submit` that are past the lock and before the queue;
-- `holding` is what the worker has taken and not finished; `written` is `_spooled` or `_written`.
pub record Store (Sink : Type 0) : Type 0 where
  pub company_id : Text
  pub capacity : ℕ
  pub queue : List Item
  pub admitted : List SearchAnalyticsEvent
  pub holding : Option Item
  pub closed : Bool
  pub stopped : Bool
  pub submitted : ℕ
  pub written : ℕ
  pub failed : ℕ
  pub dropped : ℕ
  pub sink : Sink

pub data StoreError : Type 0 where
  bad_capacity : StoreError

abbrev held : Option Item → ℕ
held none = 0
held (some item) = 1

pub record Status : Type 0 where
  pub submitted : ℕ
  pub written : ℕ
  pub failed : ℕ
  pub dropped : ℕ
  pub queued : ℕ

module _ {Sink : Type 0} where
  -- `__init__`: the worker starts with an empty queue.
  unfoldable pub init : Text → ℕ → Sink → Result StoreError (Store Sink)
  init company_id capacity sink =
      if capacity == 0
      then err bad_capacity
      else (ok (record {
        company_id = company_id;
        capacity = capacity;
        queue = [];
        admitted = [];
        holding = none;
        closed = false;
        stopped = false;
        submitted = 0;
        written = 0;
        failed = 0;
        dropped = 0;
        sink = sink;
      }))

  -- `submit`, to the end of its first lock: whether the call goes on.
  unfoldable pub admit : SearchAnalyticsEvent → Store Sink → Store Sink × Bool
  admit e s =
      if not (text_eq e.company_id s.company_id)
      then (s, false)
      else if s.closed
      then (s, false)
      else (record s { submitted = s.submitted + 1; admitted = s.admitted ++ e ∷ [] }, true)

  -- `put_nowait`, with the count of a full queue.
  unfoldable pub offer : SearchAnalyticsEvent → Store Sink → Store Sink × Bool
  offer e s =
      if leb s.capacity (length s.queue)
      then (record s { dropped = s.dropped + 1 }, false)
      else (record s { queue = s.queue ++ event e ∷ [] }, true)

  -- A call that no other thread comes between.
  unfoldable pub submit : SearchAnalyticsEvent → Store Sink → Store Sink × Bool
  unfolding admit offer
  submit e s =
      let (next, goes_on) = admit e s in
      if goes_on then offer e (record next { admitted = s.admitted }) else (s, false)

  -- `queue.get`: the worker waits while the queue is empty, and for ever once it has returned.
  unfoldable pub next_item : List Item → Store Sink → Store Sink
  next_item [] s = s
  next_item (item ∷ rest) s = record s { queue = rest; holding = some item }

  unfoldable pub worker_takes : Store Sink → Store Sink
  unfolding next_item
  worker_takes s = elim s.holding [
    | none ↦ (if s.stopped then s else next_item s.queue s)
    | some item ↦ s
  ]

  -- `close`, its first lock: a second call does nothing.
  unfoldable pub close : Store Sink → Store Sink × Bool
  close s = if s.closed then (s, false) else (record s { closed = true }, true)

  -- Its `put(_STOP)`; on a queue that stays full the wait times out.
  unfoldable pub put_stop : Store Sink → Store Sink
  put_stop s =
      if leb s.capacity (length s.queue) then s else (record s { queue = s.queue ++ stop ∷ [] })

  -- `queue.unfinished_tasks`, on which `flush` waits.
  unfoldable pub unfinished_tasks : Store Sink → ℕ
  unfinished_tasks s = length s.queue + held s.holding

  unfoldable pub status : Store Sink → Status
  status s = record {
    submitted = s.submitted;
    written = s.written;
    failed = s.failed;
    dropped = s.dropped;
    queued = length s.queue;
  }

  -- `flush`, by what each of its looks at the queue sees: whether the deadline has passed, and the
  -- store; `none` if it still waits.
  unfoldable pub flush : List (Bool × Store Sink) → Option Bool
  unfolding unfinished_tasks
  flush [] = none
  flush ((late, s) ∷ looks) =
      if unfinished_tasks s == 0 then some true else if late then some false else flush looks

  -- The rest of a turn of `_run`, with the item that it holds. `save` gives the sink after the
  -- event, and whether it was written.
  unfoldable pub worker_finishes :
      (SearchAnalyticsEvent → Sink → Sink × Bool) → Store Sink → Store Sink
  worker_finishes save s = elim s.holding [
    | none ↦ s
    | some (event e) ↦
        let (sink, saved) = save e s.sink in
        if saved
        then (record s { holding = none; sink = sink; written = s.written + 1 })
        else (record s { holding = none; sink = sink; failed = s.failed + 1 })
    | some stop ↦ record s { holding = none; stopped = true }
  ]
