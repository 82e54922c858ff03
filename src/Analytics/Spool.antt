-- ===== src/Analytics/Spool.antt =====
-- The spool table of src/storage/search_analytics_spool.py and its delivery. The rows stand in the
-- order of their ids, which AUTOINCREMENT never uses twice.
use querix_semantic_search.Prelude.{
  ℕ, zero, suc, ◌+◌, Bool, not, ◌&&◌, ◌||◌, Option, none, some, List, [], ◌∷◌, ◌++◌, ltb, leb, ◌==◌,
  if◌then◌else◌, max, length, take, keep, any, count, Result, ok, err, Text, text_eq,
}
use querix_semantic_search.Analytics.Events.{Platform, SearchAnalyticsEvent}
use querix_semantic_search.Analytics.Destination.{
  Destination, Commit, WriteError, write_search_analytics_events,
}

pub record SpoolRow : Type 0 where
  pub id : ℕ
  pub request_id : Text
  pub company_id : Text
  pub payload_json : Text
  pub created_at : ℕ
  pub spooled_at : ℕ

pub record Spool : Type 0 where
  pub rows : List SpoolRow
  pub next_id : ℕ

-- INSERT OR IGNORE under the unique key on `request_id`; the id of the row is assigned here.
unfoldable pub insert_or_ignore : SpoolRow → Spool → Spool
insert_or_ignore row s =
    if any (λ r. text_eq r.request_id row.request_id) s.rows
    then s
    else (record { rows = s.rows ++ record row { id = s.next_id } ∷ []; next_id = suc s.next_id })

unfoldable pub insert_all : List SpoolRow → Spool → Spool
unfolding insert_or_ignore
insert_all [] s = s
insert_all (row ∷ rows) s = insert_all rows (insert_or_ignore row s)

-- SELECT COUNT(*) … WHERE company_id = ?.
unfoldable pub pending : Text → Spool → ℕ
pending company s = count (λ r. text_eq r.company_id company) s.rows

-- SELECT COALESCE(MAX(id), 0) … WHERE company_id = ?.
unfoldable pub max_id : Text → List SpoolRow → ℕ
max_id company [] = 0
max_id company (r ∷ rows) =
    let rest = max_id company rows in if text_eq r.company_id company then max r.id rest else rest

-- WHERE company_id = ? AND id <= ?.
abbrev pub in_snapshot : Text → ℕ → SpoolRow → Bool
in_snapshot company cutoff r = text_eq r.company_id company && leb r.id cutoff

-- The next batch: ORDER BY id LIMIT ?.
unfoldable pub select_batch : Text → ℕ → ℕ → List SpoolRow → List SpoolRow
select_batch company cutoff batch_size rows =
    take batch_size (keep (in_snapshot company cutoff) rows)

abbrev pub has_id : ℕ → List SpoolRow → Bool
has_id i rows = any (λ r. r.id == i) rows

-- DELETE … WHERE id IN (…).
unfoldable pub delete_batch : List SpoolRow → List SpoolRow → List SpoolRow
delete_batch batch rows = keep (λ r. not (has_id r.id batch)) rows

pub data DeliveryError : Type 0 where
  bad_batch_size : DeliveryError
  bad_payload : DeliveryError
  tenant_mismatch : DeliveryError
  write_failed : WriteError → DeliveryError
  delete_failed : DeliveryError

-- `deserialize_search_analytics_event` of each row; the first failure is raised.
unfoldable pub decode_all :
    (Text → Option SearchAnalyticsEvent)
    → List SpoolRow
    → Result DeliveryError (List SearchAnalyticsEvent)
decode_all decode [] = ok []
decode_all decode (r ∷ rows) = elim (decode r.payload_json) [
  | none ↦ err bad_payload
  | some e ↦ elim (decode_all decode rows) [ err x ↦ err x | ok es ↦ ok (e ∷ es) ]
]

-- What one round meets: the rows that the service inserts before the batch is read and after, the
-- end of the MySQL transaction, and whether the DELETE commits.
pub record Round : Type 0 where
  pub before : List SpoolRow
  pub between : List SpoolRow
  pub commit : Commit
  pub deletes : Bool

pub record Delivery : Type 0 where
  pub spool : Spool
  pub destination : Destination
  pub uploaded : ℕ
  pub deleted : ℕ

-- The round after its batch was read, by the decoded events: the new state, and the exception if
-- there is one.
unfoldable pub upload :
    Platform
    → Text
    → Round
    → List SpoolRow
    → List SearchAnalyticsEvent
    → Delivery
    → Delivery × Option DeliveryError
unfolding write_search_analytics_events insert_all delete_batch
upload pl company round batch events d =
    let after = insert_all round.between d.spool in
    let (written, outcome) = write_search_analytics_events pl round.commit events d.destination in
    if any (λ (e : SearchAnalyticsEvent). not (text_eq e.company_id company)) events
    then (record d { spool = after }, some tenant_mismatch)
    else (elim outcome [
      | err x ↦ (record d { spool = after; destination = written }, some (write_failed x))
      | ok n ↦
          if round.deletes
          then (
            record {
              spool = record after { rows = delete_batch batch after.rows };
              destination = written;
              uploaded = d.uploaded + length events;
              deleted = d.deleted + count (λ r. has_id r.id batch) after.rows;
            },
            none,
          )
          else (
            record d {
              spool = after;
              destination = written;
              uploaded = d.uploaded + length events;
            },
            some delete_failed,
          )
    ])

-- The `while` loop, from its n-th round; `none` is out of fuel.
module _ (pl : Platform) (decode : Text → Option SearchAnalyticsEvent) (company : Text)
    (cutoff batch_size : ℕ) (rounds : ℕ → Round) where
  unfoldable pub deliver_loop : ℕ → ℕ → Delivery → Option (Delivery × Option DeliveryError)
  unfolding insert_all select_batch decode_all upload
  deliver_loop zero n d = none
  deliver_loop (suc fuel) n d =
      let current = record d { spool = insert_all (rounds n).before d.spool } in
      let batch = select_batch company cutoff batch_size current.spool.rows in
      elim batch [
        | [] ↦ some (current, none)
        | row ∷ rows ↦ elim (decode_all decode (row ∷ rows)) [
          | err x ↦ some (current, some x)
          | ok events ↦
              let (next, raised) = upload pl company (rounds n) (row ∷ rows) events current in
              elim raised [ some x ↦ some (next, some x) | none ↦ deliver_loop fuel (suc n) next ]
        ]
      ]

pub record Report : Type 0 where
  pub selected : ℕ
  pub uploaded : ℕ
  pub deleted : ℕ
  pub pending : ℕ

-- `deliver_search_analytics_spool`: the state it leaves, and its report or exception. What
-- `_reclaim_spool_space` gives back are free pages, no rows.
unfoldable pub deliver :
    Platform
    → (Text → Option SearchAnalyticsEvent)
    → Text
    → ℕ
    → (ℕ → Round)
    → ℕ
    → Spool
    → Destination
    → Option (Delivery × Result DeliveryError Report)
unfolding max_id deliver_loop pending
deliver pl decode company batch_size rounds fuel spool destination =
    let cutoff = max_id company spool.rows in
    let start : Delivery = record {
      spool = spool;
      destination = destination;
      uploaded = 0;
      deleted = 0;
    } in
    if batch_size == 0 || ltb 5000 batch_size
    then some (start, err bad_batch_size)
    else if cutoff == 0
    then some (
      start,
      ok (record { selected = 0; uploaded = 0; deleted = 0; pending = pending company spool }),
    )
    else (elim (deliver_loop pl decode company cutoff batch_size rounds fuel 0 start) [
      | none ↦ none
      | some (d, some x) ↦ some (d, err x)
      | some (d, none) ↦ some (
        d,
        ok (record {
          selected = d.uploaded;
          uploaded = d.uploaded;
          deleted = d.deleted;
          pending = pending company d.spool;
        }),
      )
    ])
