-- ===== src/Analytics/Redelivery.antt =====
-- Writing an event again changes nothing, so a delivery can be taken up after any failure.
use querix_semantic_search.Prelude.{
  ◌≡◌, refl, ap, ◌∙◌, true, false, some, List, [], ◌∷◌, arith, any, find, All, any-append, Text,
  text_eq, text_eq_iff, text_eq_refl, Distinct,
}
use querix_semantic_search.Analytics.Events.{Platform, SearchAnalyticsEvent}
use querix_semantic_search.Analytics.Destination.{
  HistoryRow, UsageRow, Destination, key_of, history_row, usage_row, insert_history, upsert_usage,
  write_event, write_events,
}

module _ (pl : Platform) where
  -- Both tables have the row of the event, the usage table with its values.
  pub record IsStored (d : Destination) (e : SearchAnalyticsEvent) : Type 0 where
    pub in_history : any (λ (r : HistoryRow). text_eq r.request_id (key_of e)) d.history ≡ true
    pub in_usage :
        find (λ (r : UsageRow). text_eq r.request_id (key_of e)) d.usage ≡ some (usage_row pl e)

  upsert_usage-find_self :
      (row : UsageRow) (rows : List UsageRow)
      → find (λ (r : UsageRow). text_eq r.request_id row.request_id) (upsert_usage row rows)
        ≡ some row
  unfolding upsert_usage
  upsert_usage-find_self row [] = rw (text_eq_refl row.request_id) refl
  upsert_usage-find_self row (r ∷ rows) =
      ground (arith, text_eq_refl row.request_id, upsert_usage-find_self row rows)

  upsert_usage-find_other :
      (row : UsageRow) (k : Text) (rows : List UsageRow)
      → text_eq row.request_id k ≡ false
      → find (λ (r : UsageRow). text_eq r.request_id k) (upsert_usage row rows)
        ≡ find (λ (r : UsageRow). text_eq r.request_id k) rows
  unfolding upsert_usage
  upsert_usage-find_other row k [] h = rw h refl
  upsert_usage-find_other row k (r ∷ rows) h = ground (
    arith,
    text_eq_iff r.request_id row.request_id,
    text_eq_iff r.request_id k,
    text_eq_iff row.request_id k,
    upsert_usage-find_other row k rows h,
  )

  upsert_usage-same :
      (row : UsageRow) (rows : List UsageRow)
      → find (λ (r : UsageRow). text_eq r.request_id row.request_id) rows ≡ some row
      → upsert_usage row rows ≡ rows
  unfolding upsert_usage
  upsert_usage-same row [] h = ground arith
  upsert_usage-same row (r ∷ rows) h = ground (arith, upsert_usage-same row rows)

  insert_history_self :
      (row : HistoryRow) (rows : List HistoryRow)
      → any (λ (r : HistoryRow). text_eq r.request_id row.request_id) (insert_history row rows)
        ≡ true
  unfolding insert_history
  insert_history_self row rows = ground (
    arith,
    any-append (λ (r : HistoryRow). text_eq r.request_id row.request_id) rows row,
    text_eq_refl row.request_id,
  )

  insert_history-keeps :
      (row : HistoryRow) (k : Text) (rows : List HistoryRow)
      → any (λ (r : HistoryRow). text_eq r.request_id k) rows ≡ true
      → any (λ (r : HistoryRow). text_eq r.request_id k) (insert_history row rows) ≡ true
  unfolding insert_history
  insert_history-keeps row k rows h =
      ground (arith, any-append (λ (r : HistoryRow). text_eq r.request_id k) rows row)

  pub write_event-IsStored :
      (e : SearchAnalyticsEvent) (d : Destination) → IsStored (write_event pl e d) e
  unfolding write_event history_row usage_row
  write_event-IsStored e d = record {
    in_history = insert_history_self (history_row pl e) d.history;
    in_usage = upsert_usage-find_self (usage_row pl e) d.usage;
  }

  write_event-keeps :
      (f e : SearchAnalyticsEvent) (d : Destination)
      → text_eq (key_of f) (key_of e) ≡ false
      → IsStored d e
      → IsStored (write_event pl f d) e
  unfolding write_event history_row usage_row
  write_event-keeps f e d h s = record {
    in_history = insert_history-keeps (history_row pl f) (key_of e) d.history s.in_history;
    in_usage = upsert_usage-find_other (usage_row pl f) (key_of e) d.usage h ∙ s.in_usage;
  }

  write_events-keeps :
      (fs : List SearchAnalyticsEvent) (e : SearchAnalyticsEvent) (d : Destination)
      → any (λ (f : SearchAnalyticsEvent). text_eq (key_of f) (key_of e)) fs ≡ false
      → IsStored d e
      → IsStored (write_events pl fs d) e
  unfolding write_events
  write_events-keeps [] e d h s = s
  write_events-keeps (f ∷ fs) e d h s =
      write_events-keeps fs e (write_event pl f d) (ground arith)
        (write_event-keeps f e d (ground arith) s)

  -- What was written is stored.
  pub write_events-IsStored :
      (es : List SearchAnalyticsEvent) (d : Destination)
      → Distinct key_of es
      → All (IsStored (write_events pl es d)) es
  unfolding write_events
  write_events-IsStored [] d h = tt
  write_events-IsStored (e ∷ es) d h = (
    write_events-keeps es e (write_event pl e d) h.0 (write_event-IsStored e d),
    write_events-IsStored es (write_event pl e d) h.1,
  )

  pub write_event-same :
      (e : SearchAnalyticsEvent) (d : Destination) → IsStored d e → write_event pl e d ≡ d
  unfolding write_event insert_history history_row usage_row
  write_event-same e d s =
      let usage = upsert_usage-same (usage_row pl e) d.usage s.in_usage in
      rw (s.in_history, usage) refl

  -- What is stored can be written again.
  pub write_events-same :
      (es : List SearchAnalyticsEvent) (d : Destination)
      → All (IsStored d) es
      → write_events pl es d ≡ d
  unfolding write_events
  write_events-same [] d h = refl
  write_events-same (e ∷ es) d h =
      ap (write_events pl es) (write_event-same e d h.0) ∙ write_events-same es d h.1
