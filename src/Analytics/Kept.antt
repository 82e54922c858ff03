-- ===== src/Analytics/Kept.antt =====
-- What the delivery loop keeps of the rows that the service inserts while it runs.
use querix_semantic_search.Prelude.{
  ℕ, zero, suc, ◌≤◌, ◌≡◌, refl, sym, ap, ◌∙◌, inl, inr, not, Option, none, some, List, [], ◌∷◌,
  ◌++◌, arith, Bool-cases, List-cases, Result-cases, take, any, All, All-append, ok, Text, text_eq,
}
use mathlib.Core.Path.{subst}
use mathlib.Core.Option.{some-injective}
use querix_semantic_search.Analytics.Events.{Platform, SearchAnalyticsEvent}
use querix_semantic_search.Analytics.Destination.{write_search_analytics_events}
use querix_semantic_search.Analytics.Spool.{
  SpoolRow, Spool, insert_all, delete_batch, select_batch, Round, Delivery, DeliveryError,
  tenant_mismatch, write_failed, delete_failed, decode_all, upload, deliver_loop,
}
use querix_semantic_search.Analytics.Writes.{decode_all-length}
use querix_semantic_search.Analytics.Rounds.{snapshot_rows, IsOpen, arrivals, upload-RoundResult}
use querix_semantic_search.Analytics.Arrivals.{
  has_request, last_between, met, Known, IsRest, inserts-Known, arrived-Known, deletes-Known,
  any-drop, decode_all-raises,
}

module _ (company : Text) (cutoff bound : ℕ) (own : List SpoolRow) (pl : Platform) where
  -- All these rows are known by their request ids.
  abbrev pub AllKnown : Spool → List SpoolRow → Type 0
  AllKnown s xs = All (λ a. Known company cutoff bound own a.request_id s) xs

  AllKnown-carried :
      (s s' : Spool) (xs : List SpoolRow)
      → ((q : Text) → Known company cutoff bound own q s → Known company cutoff bound own q s')
      → AllKnown s xs
      → AllKnown s' xs
  AllKnown-carried s s' [] f h = tt
  AllKnown-carried s s' (x ∷ xs) f h = (f x.request_id h.0, AllKnown-carried s s' xs f h.1)

  AllKnown-append :
      (s : Spool) (xs ys : List SpoolRow) → AllKnown s xs → AllKnown s ys → AllKnown s (xs ++ ys)
  AllKnown-append s xs ys hx hy =
      All-append (λ a. Known company cutoff bound own a.request_id s) xs ys hx hy

  -- What a round leaves: what was known still is, also the rows that came between, and if it
  -- raised, these count as arrived.
  record RoundKeeps (round : Round) (d : Delivery) (out : Delivery × Option DeliveryError)
      : Type 0 where
    known :
        (q : Text)
        → Known company cutoff bound own q d.spool
        → Known company cutoff bound own q out.0.spool
    between : AllKnown out.0.spool round.between
    came_between :
        (x : DeliveryError) → out.1 ≡ some x → last_between (some x) round ≡ round.between

  upload-RoundKeeps :
      (round : Round) (n : ℕ) (batch : List SpoolRow) (events : List SearchAnalyticsEvent)
      (d : Delivery)
      → IsOpen company cutoff bound d.spool
      → IsRest company cutoff bound own d.spool
      → take n (snapshot_rows company cutoff bound d.spool) ≡ batch
      → RoundKeeps round d (upload pl company round batch events d)
  unfolding upload
  upload-RoundKeeps round n batch events d v rest e =
      let after = insert_all round.between d.spool in
      let (opens, snap, _) = arrivals company cutoff bound round.between d.spool v in
      let came = arrived-Known company cutoff bound own round.between d.spool in
      let still = λ (q : Text). inserts-Known company cutoff bound own q round.between d.spool in
      let rest' : IsRest company cutoff bound own after =
        λ q h. rest q (ap (has_request q) (sym snap) ∙ h) in
      let gone = λ (q : Text).
        deletes-Known company cutoff bound own q n after batch opens rest' (ap (take n) snap ∙ e) in
      elim (Bool-cases
        (any (λ (e : SearchAnalyticsEvent). not (text_eq e.company_id company)) events)) [
          | inl mismatch ↦
              rw (upload, mismatch)
                (record {
                  known = still;
                  between = came;
                  came_between = λ x h. rw (sym (some-injective tenant_mismatch x h)) refl;
                })
          | inr fits ↦
              elim (Result-cases
                (write_search_analytics_events pl round.commit events d.destination).1) [
                  | inl (x, raised) ↦
                      rw (upload, fits, raised)
                        (record {
                          known = still;
                          between = came;
                          came_between = λ y h. rw (sym (some-injective (write_failed x) y h)) refl;
                        })
                  | inr (count, answered) ↦ elim (Bool-cases round.deletes) [
                    | inr failed ↦
                        rw (upload, fits, answered, failed)
                          (record {
                            known = still;
                            between = came;
                            came_between = λ y h. rw (sym (some-injective delete_failed y h)) refl;
                          })
                    | inl deletes ↦
                        rw (upload, fits, answered, deletes)
                          (record {
                            known = λ q h. gone q (still q h);
                            between =
                                AllKnown-carried after
                                  (record after { rows = delete_batch batch after.rows })
                                  round.between gone came;
                            came_between = λ y h. absurd (cc);
                          })
                  ]
                ]
        ]

  module _ (decode : Text → Option SearchAnalyticsEvent) (n : ℕ) (rounds : ℕ → Round) where
    -- The rounds that a run of the loop has begun, and what it keeps.
    pub record LoopKeeps (round : ℕ) (d : Delivery) (out : Delivery × Option DeliveryError)
        : Type 0 where
      pub more : ℕ
      pub runs : deliver_loop pl decode company cutoff n rounds (suc more) round d ≡ some out
      pub not_before :
          (f : ℕ) → f ≤ more → deliver_loop pl decode company cutoff n rounds f round d ≡ none
      pub known :
          (q : Text)
          → Known company cutoff bound own q d.spool
          → Known company cutoff bound own q out.0.spool
      pub arrived : AllKnown out.0.spool (met rounds out.1 round more)

    zero_only : (f : ℕ) → f ≤ 0 → f ≡ 0
    zero_only f h = omega arith

    pub loop-LoopKeeps :
        (fuel round : ℕ) (d : Delivery) (out : Delivery × Option DeliveryError)
        → IsOpen company cutoff bound d.spool
        → IsRest company cutoff bound own d.spool
        → deliver_loop pl decode company cutoff n rounds fuel round d ≡ some out
        → LoopKeeps round d out
    unfolding deliver_loop select_batch
    loop-LoopKeeps zero round d out v rest e = absurd (cc)
    loop-LoopKeeps (suc fuel) round d out v rest e =
        let before = (rounds round).before in
        let current : Delivery = record d { spool = insert_all before d.spool } in
        let (opens, snap, _) = arrivals company cutoff bound before d.spool v in
        let came = arrived-Known company cutoff bound own before d.spool in
        let still = λ (q : Text). inserts-Known company cutoff bound own q before d.spool in
        let rest' : IsRest company cutoff bound own current.spool =
          λ q h. rest q (ap (has_request q) (sym snap) ∙ h) in
        let unstarted = λ (f : ℕ) (h : f ≤ 0).
          subst (λ (z : ℕ). deliver_loop pl decode company cutoff n rounds z round d ≡ none)
            (sym (zero_only f h)) refl in
        elim (List-cases (take n (snapshot_rows company cutoff bound current.spool))) [
          | inl none_left ↦
              subst (LoopKeeps round d)
                (some-injective (current, none) out (rw (deliver_loop, none_left) at e))
                (record {
                  more = 0;
                  runs = rw (deliver_loop, none_left) refl;
                  not_before = unstarted;
                  known = still;
                  arrived = AllKnown-append current.spool before [] came tt;
                })
          | inr (row, rows, batch) ↦ elim (Result-cases (decode_all decode (row ∷ rows))) [
            | inl (x, bad) ↦
                subst (LoopKeeps round d)
                  (some-injective (current, some x) out (rw (deliver_loop, batch, bad) at e))
                  (record {
                    more = 0;
                    runs = rw (deliver_loop, batch, bad) refl;
                    not_before = unstarted;
                    known = still;
                    arrived =
                        AllKnown-append current.spool before (last_between (some x) (rounds round))
                          came
                          (subst
                            (λ (z : DeliveryError).
                              AllKnown current.spool (last_between (some z) (rounds round)))
                            (sym (decode_all-raises decode (row ∷ rows) x bad)) tt);
                  })
            | inr (events, decoded) ↦
                let step = upload pl company (rounds round) (row ∷ rows) events current in
                let o =
                  upload-RoundResult company cutoff bound pl n events (rounds round) (row ∷ rows)
                    current opens batch (decode_all-length decode (row ∷ rows) events decoded) in
                let k =
                  upload-RoundKeeps (rounds round) n (row ∷ rows) events current opens rest'
                    batch in
                let first : AllKnown step.0.spool before =
                  AllKnown-carried current.spool step.0.spool before k.known came in
                elim o.result [
                  | inr (x, raised, failed) ↦
                      subst (LoopKeeps round d)
                        (some-injective (step.0, some x) out
                          (rw (deliver_loop, batch, decoded, raised) at e))
                        (record {
                          more = 0;
                          runs = rw (deliver_loop, batch, decoded, raised) refl;
                          not_before = unstarted;
                          known = λ q h. k.known q (still q h);
                          arrived =
                              AllKnown-append step.0.spool before
                                (last_between (some x) (rounds round)) first
                                (rw (k.came_between x raised) k.between);
                        })
                  | inl (raised, went) ↦
                      let r =
                        loop-LoopKeeps fuel (suc round) step.0 out o.open_after
                          (λ q h. rest' q (
                            any-drop (λ r. text_eq r.request_id q) n
                              (snapshot_rows company cutoff bound current.spool)
                              (ap (has_request q) (sym went.remains) ∙ h)))
                          (rw (deliver_loop, batch, decoded, raised) at e) in
                      record {
                        more = suc r.more;
                        runs = rw (deliver_loop, batch, decoded, raised) r.runs;
                        not_before =
                            later round d row rows events batch decoded raised r.more r.not_before;
                        known = λ q h. r.known q (k.known q (still q h));
                        arrived =
                            AllKnown-append out.0.spool (before ++ (rounds round).between)
                              (met rounds out.1 (suc round) r.more)
                              (AllKnown-carried step.0.spool out.0.spool
                                (before ++ (rounds round).between) r.known
                                (AllKnown-append step.0.spool before (rounds round).between first
                                  k.between))
                              r.arrived;
                      }
                ]
          ]
        ]
      where
        later :
            (round : ℕ) (d : Delivery) (row : SpoolRow) (rows : List SpoolRow)
            (events : List SearchAnalyticsEvent)
            → let current : Delivery = record d {
              spool = insert_all (rounds round).before d.spool;
            } in
              take n (snapshot_rows company cutoff bound current.spool) ≡ row ∷ rows
              → decode_all decode (row ∷ rows) ≡ ok events
              → let next = upload pl company (rounds round) (row ∷ rows) events current in
                next.1 ≡ none
                → (more : ℕ)
                → ((f : ℕ)
                    → f ≤ more
                    → deliver_loop pl decode company cutoff n rounds f (suc round) next.0 ≡ none)
                → (f : ℕ) → f ≤ suc more
                → deliver_loop pl decode company cutoff n rounds f round d ≡ none
        later round d row rows events batch decoded raised more h zero le = refl
        later round d row rows events batch decoded raised more h (suc f) le =
            rw (deliver_loop, batch, decoded, raised) (h f (omega arith))
