-- ===== src/Analytics/Quiet.antt =====
-- A delivery that meets no failure raises nothing.
use querix_semantic_search.Prelude.{
  List-cases, ℕ, zero, suc, ◌<◌, ◌≡◌, refl, sym, ap, ◌∙◌, inl, inr, true, false, not, Option, none,
  some, List, [], ◌∷◌, arith, length, take, drop, any, All, ok, Text, text_eq,
}
use querix_semantic_search.Analytics.Events.{Platform, SearchAnalyticsEvent}
use querix_semantic_search.Analytics.Destination.{committed, write_search_analytics_events}
use querix_semantic_search.Analytics.Spool.{
  SpoolRow, insert_all, select_batch, Round, Delivery, upload, decode_all, deliver_loop,
}
use querix_semantic_search.Analytics.Writes.{write_committed, decode_all-length, decode_all-take}
use querix_semantic_search.Analytics.Rounds.{snapshot_rows, IsOpen, arrivals, upload-RoundResult}
use querix_semantic_search.Analytics.Progress.{shorter-drop}

-- Every event is the company's.
abbrev pub OwnEvents : Text → List SearchAnalyticsEvent → Type 0
OwnEvents company es = All (λ (e : SearchAnalyticsEvent). text_eq e.company_id company ≡ true) es

-- The database commits, and the deletion too.
pub record IsQuiet (r : Round) : Type 0 where
  pub commits : r.commit ≡ committed
  pub deletes : r.deletes ≡ true

pub OwnEvents-take :
    (company : Text) (n : ℕ) (es : List SearchAnalyticsEvent)
    → OwnEvents company es
    → OwnEvents company (take n es) × OwnEvents company (drop n es)
OwnEvents-take company zero es h = (tt, h)
OwnEvents-take company (suc n) [] h = (tt, tt)
OwnEvents-take company (suc n) (e ∷ es) h =
    let (first, last) = OwnEvents-take company n es h.1 in ((h.0, first), last)

no_mismatch :
    (company : Text) (es : List SearchAnalyticsEvent)
    → OwnEvents company es
    → any (λ (e : SearchAnalyticsEvent). not (text_eq e.company_id company)) es ≡ false
no_mismatch company [] h = refl
no_mismatch company (e ∷ es) h = rw h.0 (no_mismatch company es h.1)

upload_quiet :
    (pl : Platform) (company : Text) (round : Round) (batch : List SpoolRow)
    (es : List SearchAnalyticsEvent) (d : Delivery)
    → IsQuiet round
    → OwnEvents company es
    → (upload pl company round batch es d).1 ≡ none
unfolding upload
upload_quiet pl company round batch es d q own =
    let (answered, stored) = write_committed pl es d.destination in
    let returns =
      ap (λ c. (write_search_analytics_events pl c es d.destination).1) q.commits ∙ answered in
    rw (no_mismatch company es own, returns, q.deletes) refl

module _ (company : Text) (cutoff bound : ℕ) (pl : Platform)
    (decode : Text → Option SearchAnalyticsEvent) (n : ℕ) (positive : 0 < n) (rounds : ℕ → Round)
    (quiet : (i : ℕ) → IsQuiet (rounds i)) where
  pub loop_quiet :
      (fuel round : ℕ) (d : Delivery) (es : List SearchAnalyticsEvent)
      → IsOpen company cutoff bound d.spool
      → decode_all decode (snapshot_rows company cutoff bound d.spool) ≡ ok es
      → OwnEvents company es
      → length (snapshot_rows company cutoff bound d.spool) < fuel
      → (d' : Delivery) × (deliver_loop pl decode company cutoff n rounds fuel round d
          ≡ some (d', none))
  unfolding deliver_loop select_batch
  loop_quiet zero round d es v decodes own h = absurd (omega arith)
  loop_quiet (suc fuel) round d es v decodes own h =
      let current : Delivery = record d { spool = insert_all (rounds round).before d.spool } in
      let (opens, snap, others) = arrivals company cutoff bound (rounds round).before d.spool v in
      let all = snapshot_rows company cutoff bound current.spool in
      let (first, last) = decode_all-take decode n all es (ap (decode_all decode) snap ∙ decodes) in
      let (own_first, own_last) = OwnEvents-take company n es own in
      elim (List-cases (take n all)) [
        | inl none_left ↦ (current, rw (deliver_loop, none_left) refl)
        | inr (row, rows, batch) ↦
            let decoded : decode_all decode (row ∷ rows) ≡ ok (take n es) =
              ap (decode_all decode) (sym batch) ∙ first in
            let step = upload pl company (rounds round) (row ∷ rows) (take n es) current in
            let raised =
              upload_quiet pl company (rounds round) (row ∷ rows) (take n es) current (quiet round)
                own_first in
            let o =
              upload-RoundResult company cutoff bound pl n (take n es) (rounds round) (row ∷ rows)
                current opens batch (decode_all-length decode (row ∷ rows) (take n es) decoded) in
            elim o.result [
              | inr (x, raises, failed) ↦ absurd (cc)
              | inl (through, went) ↦
                  let fits =
                    shorter-drop n fuel all row rows batch (omega (arith, ap length snap)) in
                  let (d'', runs) =
                    loop_quiet fuel (suc round) step.0 (drop n es) o.open_after
                      (ap (decode_all decode) went.remains ∙ last) own_last
                      (omega (arith, fits, ap length went.remains)) in
                  (d'', rw (deliver_loop, batch, decoded, raised) runs)
            ]
      ]
