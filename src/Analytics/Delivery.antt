-- ===== src/Analytics/Delivery.antt =====
-- What `deliver_search_analytics_spool` promises, whatever fails, and when nothing does.
use querix_semantic_search.Prelude.{
  count-eq-length, ℕ, suc, ◌≤◌, ◌<◌, ◌≡◌, refl, sym, ap, ◌∙◌, inl, inr, false, ◌||◌, Option, none,
  some, List, [], ◌∷◌, ◌++◌, arith, ltb, ◌==◌, Bool-cases, Option-cases, length, take, drop, keep,
  take-append-drop, append-nil, ok-injective, Result, ok, err, Text, text_eq,
}
use querix_semantic_search.Analytics.Events.{Platform, SearchAnalyticsEvent}
use querix_semantic_search.Analytics.Destination.{Destination, write_events}
use querix_semantic_search.Analytics.Spool.{
  SpoolRow, Spool, max_id, pending, in_snapshot, Round, Delivery, DeliveryError, Report, decode_all,
  deliver,
}
use querix_semantic_search.Analytics.Ordering.{IsSound, Ascending, Below}
use querix_semantic_search.Analytics.Rounds.{snapshot_rows, is_other, IsOpen}
use querix_semantic_search.Analytics.Progress.{Progress, loop_progress}
use querix_semantic_search.Analytics.Quiet.{OwnEvents, IsQuiet, loop_quiet}

-- The rows of the company.
abbrev pub own_rows : Text → List SpoolRow → List SpoolRow
own_rows company rows = keep (λ r. text_eq r.company_id company) rows

max_id-le :
    (company : Text) (n : ℕ) (rows : List SpoolRow)
    → 1 ≤ n
    → Below n rows
    → suc (max_id company rows) ≤ n
unfolding max_id
max_id-le company n [] h b = omega arith
max_id-le company n (r ∷ rows) h b = ground (arith, b.0, max_id-le company n rows h b.1)

-- At the start the snapshot is all rows of the company.
snapshot-own :
    (company : Text) (cutoff : ℕ) (rows : List SpoolRow)
    → max_id company rows ≤ cutoff
    → keep (in_snapshot company cutoff) rows ≡ own_rows company rows
unfolding max_id
snapshot-own company cutoff [] h = refl
snapshot-own company cutoff (r ∷ rows) h = ground (arith, snapshot-own company cutoff rows)

-- Ids start at 1, so the largest is 0 only if the company has no row.
max_id-zero :
    (company : Text) (lo : ℕ) (rows : List SpoolRow)
    → 1 ≤ lo
    → Ascending lo rows
    → max_id company rows ≡ 0
    → own_rows company rows ≡ []
unfolding max_id
max_id-zero company lo [] h a e = refl
max_id-zero company lo (r ∷ rows) h a e =
    ground (arith, a.0, max_id-zero company (suc r.id) rows (omega arith) a.1)

take-of_drop {ℓ} : {A : Type ℓ} (n : ℕ) (xs : List A) → drop n xs ≡ [] → take n xs ≡ xs
take-of_drop n xs e =
    sym (append-nil (take n xs)) ∙ ap (◌++◌ (take n xs)) (sym e) ∙ take-append-drop n xs

-- What a delivery has done when it ends: for some `left` and `wrote`, the first `left` rows of the
-- company are gone from the spool and the rest are there, the tables have got the events of just
-- the first `wrote` rows, in order, and every row of another company is as it was.
pub record IsSafe (pl : Platform) (decode : Text → Option SearchAnalyticsEvent) (company : Text)
    (spool : Spool) (destination : Destination) (d : Delivery) : Type 0 where
  pub left : ℕ
  pub wrote : ℕ
  pub events : List SearchAnalyticsEvent
  pub ordered : left ≤ wrote
  pub decoded : decode_all decode (take wrote (own_rows company spool.rows)) ≡ ok events
  pub stored : d.destination ≡ write_events pl events destination
  pub remains :
      keep (in_snapshot company (max_id company spool.rows)) d.spool.rows
      ≡ drop left (own_rows company spool.rows)
  pub others :
      keep (is_other company (max_id company spool.rows) spool.next_id) d.spool.rows
      ≡ keep (is_other company (max_id company spool.rows) spool.next_id) spool.rows
  pub sound_after : IsSound d.spool

module _ (pl : Platform) (decode : Text → Option SearchAnalyticsEvent) (company : Text)
    (batch_size : ℕ) (rounds : ℕ → Round) (fuel : ℕ) (spool : Spool) (destination : Destination)
    (sound : IsSound spool) (positive : 0 < batch_size) (small : batch_size ≤ 5000)
    (enough : pending company spool < fuel) where
  start : Delivery
  start = record { spool = spool; destination = destination; uploaded = 0; deleted = 0 }

  valid : (batch_size == 0 || ltb 5000 batch_size) ≡ false
  valid = ground arith

  abbrev cutoff : ℕ
  cutoff = max_id company spool.rows

  pub own-snapshot : keep (in_snapshot company cutoff) spool.rows ≡ own_rows company spool.rows
  own-snapshot = snapshot-own company cutoff spool.rows (omega arith)

  pub starts_open : IsOpen company cutoff spool.next_id spool
  starts_open = record {
    sound = sound;
    above_cutoff = max_id-le company spool.next_id spool.rows sound.starts sound.below;
    above_bound = omega arith;
  }

  own-pending : length (own_rows company spool.rows) ≡ pending company spool
  unfolding pending
  own-pending = sym (count-eq-length (λ r. text_eq r.company_id company) spool.rows)

  fits : length (snapshot_rows company cutoff spool.next_id spool) < fuel
  fits = omega (arith, enough, own-pending, ap length own-snapshot)

  decoded_nothing :
      (events : List SearchAnalyticsEvent)
      → own_rows company spool.rows ≡ []
      → decode_all decode (own_rows company spool.rows) ≡ ok events
      → events ≡ []
  unfolding decode_all
  decoded_nothing events none_own decodes =
      sym (ok-injective (sym (ap (decode_all decode) none_own) ∙ decodes))

  idle : (cutoff ≡ 0) → IsSafe pl decode company spool destination start
  unfolding start decode_all write_events
  idle zero_cutoff = record {
    left = 0;
    wrote = 0;
    events = [];
    ordered = omega arith;
    decoded = refl;
    stored = refl;
    remains = own-snapshot;
    others = refl;
    sound_after = sound;
  }

  safe :
      (d : Delivery) (raised : Option DeliveryError)
      → Progress company cutoff spool.next_id pl decode start d raised
      → IsSafe pl decode company spool destination d
  unfolding start
  safe d raised p = record {
    left = p.left;
    wrote = p.wrote;
    events = p.events;
    ordered = p.ordered;
    decoded = ap (λ l. decode_all decode (take p.wrote l)) (sym own-snapshot) ∙ p.decoded;
    stored = p.stored;
    remains = p.remains ∙ ap (drop p.left) own-snapshot;
    others = p.others;
    sound_after = p.sound_after;
  }

  -- Whatever raises, and whatever the service inserts meanwhile, a delivery of a valid batch size
  -- with more fuel than the company has rows ends; no row of its snapshot is gone from the spool
  -- whose event is not in the tables, the tables have got a first part of the company's events in their order
  -- and nothing else, and the rows of the other companies are untouched.
  pub deliver-IsSafe :
      (d : Delivery) × (outcome : Result DeliveryError Report) × (deliver pl decode company
          batch_size rounds fuel spool destination
        ≡ some (d, outcome))
      × IsSafe pl decode company spool destination d
  unfolding deliver start
  deliver-IsSafe = elim (Bool-cases (cutoff == 0)) [
    | inl nothing ↦ (
      start,
      ok (record { selected = 0; uploaded = 0; deleted = 0; pending = pending company spool }),
      rw (valid, nothing) refl,
      idle (ground arith),
    )
    | inr more ↦
        let (d, raised, runs, p) =
          loop_progress company cutoff spool.next_id pl decode batch_size positive rounds fuel 0
            start starts_open fits in
        elim (Option-cases raised) [
          | inl calm ↦ (
            d,
            ok (record {
              selected = d.uploaded;
              uploaded = d.uploaded;
              deleted = d.deleted;
              pending = pending company d.spool;
            }),
            rw (valid, more, runs, calm) refl,
            safe d raised p,
          )
          | inr (x, raises) ↦ (d, err x, rw (valid, more, runs, raises) refl, safe d raised p)
        ]
  ]

  -- When every round commits and deletes, and every row of the company decodes to an event of the
  -- company, a delivery returns a report of as many uploaded and deleted rows as the company had;
  -- none of them is left, the tables are as after one write of all their events, however they were
  -- cut into batches, and the rows of the other companies are untouched.
  pub deliver_complete :
      (events : List SearchAnalyticsEvent)
      → decode_all decode (own_rows company spool.rows) ≡ ok events
      → OwnEvents company events
      → ((i : ℕ) → IsQuiet (rounds i))
      → let n = pending company spool in
        (d : Delivery) × (deliver pl decode company batch_size rounds fuel spool destination
          ≡ some (
            d,
            ok (record {
              selected = n;
              uploaded = n;
              deleted = n;
              pending = pending company d.spool;
            }),
          ))
        × (d.destination ≡ write_events pl events destination)
        × (keep (in_snapshot company (max_id company spool.rows)) d.spool.rows ≡ [])
        × (keep (is_other company (max_id company spool.rows) spool.next_id) d.spool.rows
            ≡ keep (is_other company (max_id company spool.rows) spool.next_id) spool.rows)
  unfolding deliver start
  deliver_complete events decodes own quiet = elim (Bool-cases (cutoff == 0)) [
    | inl nothing ↦
        let none_own : own_rows company spool.rows ≡ [] =
          max_id-zero company 1 spool.rows (omega arith) sound.ascending (ground arith) in
        let zero_pending : pending company spool ≡ 0 =
          omega (arith, own-pending, ap length none_own) in
        let no_events : events ≡ [] = decoded_nothing events none_own decodes in
        (
          start,
          rw (valid, nothing) (rw zero_pending refl),
          rw no_events (unfold write_events in refl),
          own-snapshot ∙ none_own,
          refl,
        )
    | inr more ↦
        let (d, raised, runs, p) =
          loop_progress company cutoff spool.next_id pl decode batch_size positive rounds fuel 0
            start starts_open fits in
        let (d', runs') =
          loop_quiet company cutoff spool.next_id pl decode batch_size positive rounds quiet fuel 0
            start events starts_open (ap (decode_all decode) own-snapshot ∙ decodes) own fits in
        let calm : raised ≡ none = cc in
        let (same, empty, up, down) = p.finished calm in
        let up' : d.uploaded ≡ pending company spool =
          omega (arith, up, own-pending, ap length own-snapshot) in
        let down' : d.deleted ≡ pending company spool =
          omega (arith, down, own-pending, ap length own-snapshot) in
        let all_decoded : decode_all decode (own_rows company spool.rows) ≡ ok p.events =
          ap (decode_all decode) (
            sym own-snapshot
            ∙ sym (
                take-of_drop p.wrote (snapshot_rows company cutoff spool.next_id spool) (
                  ap (λ k. drop k (snapshot_rows company cutoff spool.next_id spool)) (sym same)
                  ∙ empty)))
          ∙ p.decoded in
        let same_events : p.events ≡ events = ok-injective (sym all_decoded ∙ decodes) in
        (
          d,
          rw (valid, more, runs, calm) (rw (up', down') refl),
          p.stored ∙ ap (λ es. write_events pl es destination) same_events,
          p.remains ∙ empty,
          p.others,
        )
  ]
