-- ===== src/Analytics/Resume.antt =====
-- A delivery that failed, and the one that takes it up.
use mathlib.Core.Path.{subst}
use querix_semantic_search.Prelude.{
  take-add, any-cut, ℕ, zero, suc, ◌+◌, ◌-◌, ◌≤◌, ◌<◌, ◌≡◌, sym, ap, ◌∙◌, Option, some, List, [],
  ◌∷◌, arith, take, drop, keep, take-append-drop, Result, ok, ok-injective, Text, text_eq, Distinct,
}
use querix_semantic_search.Analytics.Events.{Platform, SearchAnalyticsEvent}
use querix_semantic_search.Analytics.Destination.{Destination, key_of, write_events}
use querix_semantic_search.Analytics.Spool.{
  Spool, max_id, pending, in_snapshot, Round, Delivery, DeliveryError, Report, decode_all, deliver,
}
use querix_semantic_search.Analytics.Ordering.{IsSound}
use querix_semantic_search.Analytics.Writes.{write_events-append, decode_all-take}
use querix_semantic_search.Analytics.Quiet.{OwnEvents, OwnEvents-take, IsQuiet}
use querix_semantic_search.Analytics.Delivery.{own_rows, IsSafe, deliver-IsSafe, deliver_complete}
use querix_semantic_search.Analytics.Redelivery.{write_events-IsStored, write_events-same}

module _ {ℓ} {A : Type ℓ} where
  Distinct-cut :
      (key : A → Text) (n : ℕ) (xs : List A)
      → Distinct key xs
      → Distinct key (take n xs) × Distinct key (drop n xs)
  Distinct-cut key zero xs h = (tt, h)
  Distinct-cut key (suc n) [] h = (tt, tt)
  Distinct-cut key (suc n) (x ∷ xs) h =
      let (first, last) = Distinct-cut key n xs h.1 in
      (((any-cut (λ y. text_eq (key y) (key x)) n xs h.0).0, first), last)

-- Writing a first part, and then all from a place within it, is writing all.
write_events-overlap :
    (pl : Platform) (left wrote : ℕ) (es : List SearchAnalyticsEvent) (d : Destination)
    → left ≤ wrote
    → Distinct key_of es
    → write_events pl (drop left es) (write_events pl (take wrote es) d) ≡ write_events pl es d
write_events-overlap pl left wrote es d h distinct =
    let m = wrote - left in
    let rest = drop left es in
    let before = write_events pl (take left es) d in
    let e : wrote ≡ left + m = omega arith in
    let wrote_part : write_events pl (take wrote es) d ≡ write_events pl (take m rest) before =
      (ap (λ k. write_events pl (take k es) d) e
        ∙ ap (λ l. write_events pl l d) (take-add left m es)
        ∙ write_events-append pl (take left es) (take m rest) d) in
    let there = write_events pl (take m rest) before in
    let again : write_events pl (take m rest) there ≡ there =
      write_events-same pl (take m rest) there (
        write_events-IsStored pl (take m rest) before
          (Distinct-cut key_of m rest (Distinct-cut key_of left es distinct).1).0) in
    let whole = λ (x : Destination).
      sym (ap (λ l. write_events pl l x) (take-append-drop m rest))
      ∙ write_events-append pl (take m rest) (drop m rest) x in
    ap (write_events pl rest) wrote_part
    ∙ whole there
    ∙ ap (write_events pl (drop m rest)) again
    ∙ sym (whole before)
    ∙ sym (write_events-append pl (take left es) rest d)
    ∙ ap (λ l. write_events pl l d) (take-append-drop left es)

-- A delivery that ended in any way, followed by one that meets no failure, with no new row of the
-- company between them, leaves the tables as one write of all its events does: each event is there
-- exactly once, also those whose commit or deletion had failed. The events have distinct keys,
-- which are their request ids cut to 32 characters, and decode to events of the company.
pub resume_exactly_once :
    (pl : Platform) (decode : Text → Option SearchAnalyticsEvent) (company : Text) (batch_size : ℕ)
    (rounds again : ℕ → Round) (fuel more : ℕ) (spool : Spool) (destination : Destination)
    (events : List SearchAnalyticsEvent) (d : Delivery) (outcome : Result DeliveryError Report)
    → IsSound spool
    → 0 < batch_size
    → batch_size ≤ 5000
    → pending company spool < fuel
    → decode_all decode (own_rows company spool.rows) ≡ ok events
    → OwnEvents company events
    → Distinct key_of events
    → deliver pl decode company batch_size rounds fuel spool destination ≡ some (d, outcome)
    → own_rows company d.spool.rows
      ≡ keep (in_snapshot company (max_id company spool.rows)) d.spool.rows
    → ((i : ℕ) → IsQuiet (again i))
    → pending company d.spool < more
    → (d' : Delivery) × (report : Report) × (deliver pl decode company batch_size again more d.spool
          d.destination
        ≡ some (d', ok report))
      × (d'.destination ≡ write_events pl events destination)
resume_exactly_once pl decode company batch_size rounds again fuel more spool destination events d
      outcome sound positive small enough decodes own distinct ran no_arrival quiet enough' =
    let (first, outcome', runs, safe) =
      deliver-IsSafe pl decode company batch_size rounds fuel spool destination sound positive small
        enough in
    let same : first ≡ d = some_pair (sym runs ∙ ran) in
    let s = subst (IsSafe pl decode company spool destination) same safe in
    let left_rows : own_rows company d.spool.rows ≡ drop s.left (own_rows company spool.rows) =
      no_arrival ∙ s.remains in
    let (first_ok, x) =
      decode_all-take decode s.wrote (own_rows company spool.rows) events decodes in
    let (y, last_ok) = decode_all-take decode s.left (own_rows company spool.rows) events decodes in
    let wrote : s.events ≡ take s.wrote events = ok-injective (sym s.decoded ∙ first_ok) in
    let (d', runs', stored, gone, others) =
      deliver_complete pl decode company batch_size again more d.spool d.destination s.sound_after
        positive small enough' (drop s.left events) (ap (decode_all decode) left_rows ∙ last_ok)
        (OwnEvents-take company s.left events own).1 quiet in
    (
      d',
      _,
      runs',
      stored
          ∙ ap (write_events pl (drop s.left events))
              (s.stored ∙ ap (λ es. write_events pl es destination) wrote)
          ∙ write_events-overlap pl s.left s.wrote events destination s.ordered distinct,
    )
  where
    some_pair :
        {a b : Delivery} {x y : Result DeliveryError Report}
        → ◌≡◌ {A = Option (Delivery × Result DeliveryError Report)} (some (a, x)) (some (b, y))
        → a ≡ b
    some_pair e = cc
