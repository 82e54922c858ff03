-- ===== src/Analytics/Rounds.antt =====
-- One round of the delivery loop.
use mathlib.Core.Path.{subst}
use querix_semantic_search.Prelude.{
  ℕ, suc, ◌+◌, ◌≤◌, ◌≡◌, refl, sym, ap, ◌∙◌, ◌⊎◌, inl, inr, Bool, true, false, not, ◌&&◌, Option,
  none, some, List, arith, ltb, Bool-cases, length, take, drop, keep, any, count, Text, text_eq,
}
use querix_semantic_search.Analytics.Events.{Platform, SearchAnalyticsEvent}
use querix_semantic_search.Analytics.Destination.{write_events, write_search_analytics_events}
use querix_semantic_search.Analytics.Spool.{
  SpoolRow, Spool, insert_all, in_snapshot, delete_batch, Round, Delivery, DeliveryError,
  tenant_mismatch, write_failed, delete_failed, upload, has_id,
}
use querix_semantic_search.Analytics.Ordering.{
  IsSound, insert_all-IsSound, insert_all-next_id, insert_all-unseen, delete_batch-IsSound,
}
use querix_semantic_search.Analytics.Batches.{
  count-batch, delete_batch-snapshot, delete_batch-others,
}
use querix_semantic_search.Analytics.Writes.{write_cases}

module _ (company : Text) (cutoff bound : ℕ) where
  -- The rows of the snapshot that the spool still holds.
  abbrev pub snapshot_rows : Spool → List SpoolRow
  snapshot_rows s = keep (in_snapshot company cutoff) s.rows

  -- A row from before the delivery that is not of its snapshot.
  abbrev pub is_other : SpoolRow → Bool
  is_other r = not (in_snapshot company cutoff r) && ltb r.id bound

  -- What every round starts from.
  pub record IsOpen (s : Spool) : Type 0 where
    pub sound : IsSound s
    pub above_cutoff : suc cutoff ≤ s.next_id
    pub above_bound : bound ≤ s.next_id

  in_snapshot-blind : (r : SpoolRow) → suc cutoff ≤ r.id → in_snapshot company cutoff r ≡ false
  in_snapshot-blind r h = ground arith

  is_other-blind : (r : SpoolRow) → bound ≤ r.id → is_other r ≡ false
  is_other-blind r h = ground arith

  is_other-outside : (r : SpoolRow) → in_snapshot company cutoff r ≡ true → is_other r ≡ false
  is_other-outside r h = ground arith

  -- Arrivals change neither the snapshot nor the other rows.
  pub arrivals :
      (rows : List SpoolRow) (s : Spool)
      → IsOpen s
      → IsOpen (insert_all rows s)
        × (snapshot_rows (insert_all rows s) ≡ snapshot_rows s)
        × (keep is_other (insert_all rows s).rows ≡ keep is_other s.rows)
  arrivals rows s v = (
    record {
      sound = insert_all-IsSound rows s v.sound;
      above_cutoff = omega (arith, insert_all-next_id rows s, v.above_cutoff);
      above_bound = omega (arith, insert_all-next_id rows s, v.above_bound);
    },
    insert_all-unseen (in_snapshot company cutoff) (suc cutoff) in_snapshot-blind rows s
        v.above_cutoff,
    insert_all-unseen is_other bound is_other-blind rows s v.above_bound,
  )

  -- A deletion of the first rows of the snapshot.
  deletion :
      (n : ℕ) (s : Spool) (batch : List SpoolRow)
      → IsOpen s
      → take n (snapshot_rows s) ≡ batch
      → let left : Spool = record s { rows = delete_batch batch s.rows } in
        IsOpen left
        × (snapshot_rows left ≡ drop n (snapshot_rows s))
        × (keep is_other left.rows ≡ keep is_other s.rows)
        × (count (λ r. has_id r.id batch) s.rows ≡ length batch)
  deletion n s batch v e =
      subst
        (λ (b : List SpoolRow).
          let left : Spool = record s { rows = delete_batch b s.rows } in
          IsOpen left
          × (snapshot_rows left ≡ drop n (snapshot_rows s))
          × (keep is_other left.rows ≡ keep is_other s.rows)
          × (count (λ r. has_id r.id b) s.rows ≡ length b))
        e
        (
          record {
            sound = delete_batch-IsSound (take n (snapshot_rows s)) s v.sound;
            above_cutoff = v.above_cutoff;
            above_bound = v.above_bound;
          },
          delete_batch-snapshot company cutoff n s.rows v.sound.ascending,
          delete_batch-others company cutoff n s.rows v.sound.ascending is_other is_other-outside,
          count-batch company cutoff n s.rows v.sound.ascending,
        )

  module _ (pl : Platform) (n : ℕ) (events : List SearchAnalyticsEvent) where
    -- A round that went through: its batch is written, deleted and counted.
    pub record Done (d d' : Delivery) : Type 0 where
      pub stored : d'.destination ≡ write_events pl events d.destination
      pub remains : snapshot_rows d'.spool ≡ drop n (snapshot_rows d.spool)
      pub uploaded : d'.uploaded ≡ d.uploaded + length (take n (snapshot_rows d.spool))
      pub deleted : d'.deleted ≡ d.deleted + length (take n (snapshot_rows d.spool))

    -- A round that raised: its batch is still in the spool, and all or nothing of it is written.
    pub record Failed (d d' : Delivery) : Type 0 where
      pub stored :
          (d'.destination ≡ d.destination) ⊎ (d'.destination ≡ write_events pl events d.destination)
      pub remains : snapshot_rows d'.spool ≡ snapshot_rows d.spool

    pub record RoundResult (d d' : Delivery) (raised : Option DeliveryError) : Type 0 where
      pub open_after : IsOpen d'.spool
      pub others : keep is_other d'.spool.rows ≡ keep is_other d.spool.rows
      pub result :
          ((raised ≡ none) × Done d d') ⊎ ((x : DeliveryError) × (raised ≡ some x) × Failed d d')

    kept :
        (d d' : Delivery) (rows : List SpoolRow) (x : DeliveryError)
        → IsOpen d.spool
        → d'.spool ≡ insert_all rows d.spool
        → (d'.destination ≡ d.destination) ⊎ (d'.destination ≡ write_events pl events d.destination)
        → RoundResult d d' (some x)
    kept d d' rows x v e stored =
        let (opens, snap, others) = arrivals rows d.spool v in
        record {
          open_after = subst IsOpen (sym e) opens;
          others = ap (λ s. keep is_other s.rows) e ∙ others;
          result = inr (x, refl, record { stored = stored; remains = ap snapshot_rows e ∙ snap });
        }

    -- Whatever the round meets, it goes through or raises in one of these ways.
    pub upload-RoundResult :
        (round : Round) (batch : List SpoolRow) (d : Delivery)
        → IsOpen d.spool
        → take n (snapshot_rows d.spool) ≡ batch
        → length events ≡ length batch
        → RoundResult d
            (upload pl company round batch events d).0
            (upload pl company round batch events d).1
    unfolding upload
    upload-RoundResult round batch d v e counted =
        let after = insert_all round.between d.spool in
        let written = write_search_analytics_events pl round.commit events d.destination in
        elim (Bool-cases
          (any (λ (e : SearchAnalyticsEvent). not (text_eq e.company_id company)) events)) [
            | inl mismatch ↦ rw mismatch (kept d _ round.between tenant_mismatch v refl (inl refl))
            | inr own ↦ elim (write_cases pl round.commit events d.destination) [
              | inr (x, raised, stored) ↦
                  rw (own, raised) (kept d _ round.between (write_failed x) v refl stored)
              | inl (answered, stored) ↦ elim (Bool-cases round.deletes) [
                | inr failed ↦
                    rw (own, answered, failed)
                      (kept d _ round.between delete_failed v refl (inr stored))
                | inl deletes ↦
                    let (opens, snap, others) = arrivals round.between d.spool v in
                    let (opens', snap', others', size) =
                      deletion n after batch opens (ap (take n) snap ∙ e) in
                    rw (own, answered, deletes)
                      (record {
                        open_after = opens';
                        others = others' ∙ others;
                        result = inl (
                          refl,
                          record {
                            stored = stored;
                            remains = snap' ∙ ap (drop n) snap;
                            uploaded = omega (arith, counted, ap length e);
                            deleted = omega (arith, size, ap length e);
                          },
                        );
                      })
              ]
            ]
          ]
