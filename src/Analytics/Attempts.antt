-- ===== src/Analytics/Attempts.antt =====
-- The two attempts of the MySQL worker write an event once.
use querix_semantic_search.Prelude.{◌≡◌, refl, ap, ◌∙◌, ◌⊎◌, inl, inr, false, Bool-cases}
use querix_semantic_search.Analytics.Events.{Platform, SearchAnalyticsEvent}
use querix_semantic_search.Analytics.Destination.{
  Destination, committed, rolled_back, commit_lost, write_event, write_events,
}
use querix_semantic_search.Analytics.Saves.{
  Attempt, no_connection, writes, try_write, save_to_mysql,
}
use querix_semantic_search.Analytics.Redelivery.{write_event-IsStored, write_event-same}

module _ (pl : Platform) (e : SearchAnalyticsEvent) (d : Destination) where
  -- One attempt from a state that may already have the event.
  attempt :
      (a : Attempt) (x : Destination)
      → (x ≡ d) ⊎ (x ≡ write_event pl e d)
      → let (y, saved) = try_write pl a e x in
        ((y ≡ d) × (saved ≡ false)) ⊎ (y ≡ write_event pl e d)
  unfolding try_write write_events
  attempt no_connection x (inl p) = inl (p, refl)
  attempt no_connection x (inr p) = inr p
  attempt (writes rolled_back) x (inl p) = inl (p, refl)
  attempt (writes rolled_back) x (inr p) = inr p
  attempt (writes committed) x (inl p) = inr (ap (write_event pl e) p)
  attempt (writes committed) x (inr p) = inr (
      ap (write_event pl e) p
      ∙ write_event-same pl e (write_event pl e d) (write_event-IsStored pl e d))
  attempt (writes commit_lost) x (inl p) = inr (ap (write_event pl e) p)
  attempt (writes commit_lost) x (inr p) = inr (
      ap (write_event pl e) p
      ∙ write_event-same pl e (write_event pl e d) (write_event-IsStored pl e d))

  -- However its two attempts end, the worker leaves the tables as they were or with the event
  -- written once; as they were only if it counts the event as failed.
  pub two_attempts_once :
      (attempts : Attempt × Attempt)
      → let (after, saved) = save_to_mysql pl attempts e d in
        ((after ≡ d) × (saved ≡ false)) ⊎ (after ≡ write_event pl e d)
  unfolding save_to_mysql
  two_attempts_once (first, second) = elim (Bool-cases (try_write pl first e d).1) [
    | inl saved ↦ rw saved (elim (attempt first d (inl refl)) [
      | inl (same, failed) ↦ absurd (cc)
      | inr once ↦ inr once
    ])
    | inr failed ↦ rw failed (elim (attempt first d (inl refl)) [
      | inl (same, again) ↦ attempt second (try_write pl first e d).0 (inl same)
      | inr once ↦ attempt second (try_write pl first e d).0 (inr once)
    ])
  ]
