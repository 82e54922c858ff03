-- ===== src/Analytics/Progress.antt =====
-- The delivery loop, over all its rounds.
use querix_semantic_search.Prelude.{
  take-add, length-take-drop, take-pos-empty, List-cases, ℕ, zero, suc, ◌+◌, ◌≤◌, ◌<◌, ◌≡◌, refl,
  sym, ap, ◌∙◌, inl, inr, Option, none, some, List, [], ◌∷◌, ◌++◌, arith, Result-cases, length,
  take, drop, keep, drop-drop, ok, Text,
}
use querix_semantic_search.Analytics.Events.{Platform, SearchAnalyticsEvent}
use querix_semantic_search.Analytics.Destination.{write_events}
use querix_semantic_search.Analytics.Spool.{
  insert_all, select_batch, Round, Delivery, DeliveryError, upload, decode_all, deliver_loop,
}
use querix_semantic_search.Analytics.Ordering.{IsSound}
use querix_semantic_search.Analytics.Writes.{
  write_events-append, decode_all-append, decode_all-length,
}
use querix_semantic_search.Analytics.Rounds.{
  snapshot_rows, is_other, IsOpen, arrivals, Done, Failed, upload-RoundResult,
}

module _ {ℓ} {A : Type ℓ} where
  pub shorter-drop :
      (n fuel : ℕ) (xs : List A) (x : A) (rest : List A)
      → take n xs ≡ x ∷ rest
      → length xs < suc fuel
      → length (drop n xs) < fuel
  shorter-drop n fuel xs x rest e h = omega (arith, length-take-drop n xs, ap length e)

module _ (company : Text) (cutoff bound : ℕ) (pl : Platform)
    (decode : Text → Option SearchAnalyticsEvent) where
  -- How far a delivery came with a snapshot: its first `left` rows are gone from the spool, the
  -- events of its first `wrote` rows are in the tables, in one piece, and no others.
  pub record Progress (d d' : Delivery) (raised : Option DeliveryError) : Type 0 where
    pub left : ℕ
    pub wrote : ℕ
    pub events : List SearchAnalyticsEvent
    pub ordered : left ≤ wrote
    pub decoded :
        decode_all decode (take wrote (snapshot_rows company cutoff bound d.spool)) ≡ ok events
    pub stored : d'.destination ≡ write_events pl events d.destination
    pub remains :
        snapshot_rows company cutoff bound d'.spool
        ≡ drop left (snapshot_rows company cutoff bound d.spool)
    pub others :
        keep (is_other company cutoff bound) d'.spool.rows
        ≡ keep (is_other company cutoff bound) d.spool.rows
    pub sound_after : IsSound d'.spool
    pub finished :
        raised ≡ none
        → (left ≡ wrote)
          × (drop left (snapshot_rows company cutoff bound d.spool) ≡ [])
          × (d'.uploaded ≡ d.uploaded + length (snapshot_rows company cutoff bound d.spool))
          × (d'.deleted ≡ d.deleted + length (snapshot_rows company cutoff bound d.spool))

  module _ (d0 d : Delivery)
      (snap : snapshot_rows company cutoff bound d.spool
        ≡ snapshot_rows company cutoff bound d0.spool)
      (others : keep (is_other company cutoff bound) d.spool.rows
        ≡ keep (is_other company cutoff bound) d0.spool.rows)
      (stored : d.destination ≡ d0.destination) where
    -- Nothing was left to do.
    ended :
        IsSound d.spool
        → d.uploaded ≡ d0.uploaded
        → d.deleted ≡ d0.deleted
        → snapshot_rows company cutoff bound d0.spool ≡ []
        → Progress d0 d none
    unfolding decode_all write_events
    ended sound same_uploaded same_deleted empty = record {
      left = 0;
      wrote = 0;
      events = [];
      ordered = omega arith;
      decoded = refl;
      stored = stored;
      remains = snap;
      others = others;
      sound_after = sound;
      finished = λ h. (
        refl,
        empty,
        omega (arith, same_uploaded, ap length empty),
        omega (arith, same_deleted, ap length empty),
      );
    }

    -- A row did not decode.
    stuck : IsSound d.spool → (x : DeliveryError) → Progress d0 d (some x)
    unfolding decode_all write_events
    stuck sound x = record {
      left = 0;
      wrote = 0;
      events = [];
      ordered = omega arith;
      decoded = refl;
      stored = stored;
      remains = snap;
      others = others;
      sound_after = sound;
      finished = λ h. absurd (cc);
    }

    -- The round raised.
    broken :
        (n : ℕ) (events : List SearchAnalyticsEvent) (d' : Delivery) (x : DeliveryError)
        → decode_all decode (take n (snapshot_rows company cutoff bound d.spool)) ≡ ok events
        → keep (is_other company cutoff bound) d'.spool.rows
          ≡ keep (is_other company cutoff bound) d.spool.rows
        → Failed company cutoff bound pl n events d d'
        → IsSound d'.spool
        → Progress d0 d' (some x)
    unfolding decode_all write_events
    broken n events d' x decoded others' f sound = elim f.stored [
      | inl nothing ↦ record {
        left = 0;
        wrote = 0;
        events = [];
        ordered = omega arith;
        decoded = refl;
        stored = nothing ∙ stored;
        remains = f.remains ∙ snap;
        others = others' ∙ others;
        sound_after = sound;
        finished = λ h. absurd (cc);
      }
      | inr all ↦ record {
        left = 0;
        wrote = n;
        events = events;
        ordered = omega arith;
        decoded = ap (λ l. decode_all decode (take n l)) (sym snap) ∙ decoded;
        stored = all ∙ ap (write_events pl events) stored;
        remains = f.remains ∙ snap;
        others = others' ∙ others;
        sound_after = sound;
        finished = λ h. absurd (cc);
      }
    ]

    -- The round went through, and the others came as far as they did.
    further :
        (n : ℕ) (events : List SearchAnalyticsEvent) (d' d'' : Delivery)
        {raised : Option DeliveryError}
        → d.uploaded ≡ d0.uploaded
        → d.deleted ≡ d0.deleted
        → decode_all decode (take n (snapshot_rows company cutoff bound d.spool)) ≡ ok events
        → keep (is_other company cutoff bound) d'.spool.rows
          ≡ keep (is_other company cutoff bound) d.spool.rows
        → Done company cutoff bound pl n events d d'
        → Progress d' d'' raised
        → Progress d0 d'' raised
    further n events d' d'' same_uploaded same_deleted decoded others' f p =
        let all = snapshot_rows company cutoff bound d0.spool in
        let rest : snapshot_rows company cutoff bound d'.spool ≡ drop n all =
          f.remains ∙ ap (drop n) snap in
        let first : decode_all decode (take n all) ≡ ok events =
          ap (λ l. decode_all decode (take n l)) (sym snap) ∙ decoded in
        let last : decode_all decode (take p.wrote (drop n all)) ≡ ok p.events =
          ap (λ l. decode_all decode (take p.wrote l)) (sym rest) ∙ p.decoded in
        record {
          left = n + p.left;
          wrote = n + p.wrote;
          events = events ++ p.events;
          ordered = omega (arith, p.ordered);
          decoded =
              ap (decode_all decode) (take-add n p.wrote all)
              ∙ decode_all-append decode (take n all) (take p.wrote (drop n all)) events p.events
                  first last;
          stored =
              p.stored
              ∙ ap (write_events pl p.events) (f.stored ∙ ap (write_events pl events) stored)
              ∙ sym (write_events-append pl events p.events d0.destination);
          remains = p.remains ∙ ap (drop p.left) rest ∙ drop-drop p.left n all;
          others = p.others ∙ others' ∙ others;
          sound_after = p.sound_after;
          finished = λ h.
              let (same, empty, up, down) = p.finished h in
              (
                ap (λ k. n + k) same,
                sym (drop-drop p.left n all) ∙ ap (drop p.left) (sym rest) ∙ empty,
                omega (
                  arith,
                  up,
                  f.uploaded,
                  same_uploaded,
                  ap length rest,
                  ap length snap,
                  length-take-drop n (snapshot_rows company cutoff bound d.spool),
                  ap (λ l. length (drop n l)) snap,
                ),
                omega (
                  arith,
                  down,
                  f.deleted,
                  same_deleted,
                  ap length rest,
                  ap length snap,
                  length-take-drop n (snapshot_rows company cutoff bound d.spool),
                  ap (λ l. length (drop n l)) snap,
                ),
              );
        }

  module _ (n : ℕ) (positive : 0 < n) (rounds : ℕ → Round) where
    -- With more fuel than the snapshot has rows, the loop ends, and has come to some row.
    pub loop_progress :
        (fuel round : ℕ) (d : Delivery)
        → IsOpen company cutoff bound d.spool
        → length (snapshot_rows company cutoff bound d.spool) < fuel
        → (d' : Delivery) × (raised : Option DeliveryError) × (deliver_loop pl decode company cutoff
              n rounds fuel round d
            ≡ some (d', raised))
          × Progress d d' raised
    unfolding deliver_loop select_batch
    loop_progress zero round d v h = absurd (omega arith)
    loop_progress (suc fuel) round d v h =
        let current : Delivery = record d { spool = insert_all (rounds round).before d.spool } in
        let (opens, snap, others) = arrivals company cutoff bound (rounds round).before d.spool v in
        elim (List-cases (take n (snapshot_rows company cutoff bound current.spool))) [
          | inl none_left ↦
              let empty =
                take-pos-empty n (snapshot_rows company cutoff bound current.spool) positive
                  none_left in
              (
                current,
                none,
                rw (deliver_loop, none_left) refl,
                ended d current snap others refl opens.sound refl refl (sym snap ∙ empty),
              )
          | inr (row, rows, batch) ↦ elim (Result-cases (decode_all decode (row ∷ rows))) [
            | inl (x, bad) ↦ (
              current,
              some x,
              rw (deliver_loop, batch, bad) refl,
              stuck d current snap others refl opens.sound x,
            )
            | inr (events, decoded) ↦
                let decoded' = ap (decode_all decode) batch ∙ decoded in
                let step = upload pl company (rounds round) (row ∷ rows) events current in
                let o =
                  upload-RoundResult company cutoff bound pl n events (rounds round) (row ∷ rows)
                    current opens batch (decode_all-length decode (row ∷ rows) events decoded) in
                elim o.result [
                  | inr (x, raised, failed) ↦ (
                    step.0,
                    some x,
                    rw (deliver_loop, batch, decoded, raised) refl,
                    broken d current snap others refl n events step.0 x decoded' o.others failed
                        o.open_after.sound,
                  )
                  | inl (raised, went) ↦
                      let fits =
                        shorter-drop n fuel (snapshot_rows company cutoff bound current.spool) row
                          rows batch (omega (arith, ap length snap)) in
                      let (d'', last, runs, p) =
                        loop_progress fuel (suc round) step.0 o.open_after
                          (omega (arith, fits, ap length went.remains)) in
                      (
                        d'',
                        last,
                        rw (deliver_loop, batch, decoded, raised) runs,
                        further d current snap others refl n events step.0 d'' refl refl decoded'
                            o.others went p,
                      )
                ]
          ]
        ]
