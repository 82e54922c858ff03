-- ===== src/Analytics/Lossless.antt =====
-- No row is lost in a run of `deliver_search_analytics_spool`.
use querix_semantic_search.Prelude.{
  ℕ, zero, suc, ◌≤◌, ◌<◌, ◌≡◌, refl, sym, ap, ◌∙◌, inl, inr, true, false, ◌||◌, Option, none, some,
  List, [], arith, ltb, ◌==◌, Bool-cases, All, Result, ok, err, Text,
}
use mathlib.Core.Path.{subst}
use mathlib.Core.Option.{some-injective}
use querix_semantic_search.Analytics.Events.{Platform, SearchAnalyticsEvent}
use querix_semantic_search.Analytics.Destination.{Destination}
use querix_semantic_search.Analytics.Spool.{
  SpoolRow, Spool, max_id, pending, Round, Delivery, DeliveryError, deliver_loop, Report, deliver,
}
use querix_semantic_search.Analytics.Ordering.{IsSound}
use querix_semantic_search.Analytics.Arrivals.{has_request, met}
use querix_semantic_search.Analytics.Delivery.{
  own_rows, IsSafe, own-snapshot, starts_open, deliver-IsSafe,
}
use querix_semantic_search.Analytics.Kept.{LoopKeeps, loop-LoopKeeps}

-- The exception of a delivery.
abbrev pub raised_of : Result DeliveryError Report → Option DeliveryError
raised_of (ok r) = none
raised_of (err x) = some x

-- The rows that the service inserts in the rounds that a delivery begins.
abbrev pub met_in : (ℕ → Round) → Option DeliveryError → ℕ → List SpoolRow
met_in rounds raised zero = []
met_in rounds raised (suc more) = met rounds raised 0 more

-- The rounds that a delivery begins are as many as the fuel that it needs; each row that the
-- service inserts in them is in the spool afterwards, unless the insertion found a row with its
-- request id there: one of the company's rows at the start, or one that is there afterwards.
pub record KeepsArrivals (pl : Platform) (decode : Text → Option SearchAnalyticsEvent)
    (company : Text) (batch_size : ℕ) (rounds : ℕ → Round) (spool : Spool)
    (destination : Destination) (d : Delivery) (outcome : Result DeliveryError Report)
    : Type 0 where
  pub begun : ℕ
  pub ends : deliver pl decode company batch_size rounds begun spool destination ≡ some (d, outcome)
  pub not_before :
      (f : ℕ) → f < begun → deliver pl decode company batch_size rounds f spool destination ≡ none
  pub arrived :
      All
        (λ a.
          (has_request a.request_id d.spool.rows
            || has_request a.request_id (own_rows company spool.rows))
          ≡ true)
        (met_in rounds (raised_of outcome) begun)

-- What `deliver` makes of the end of its loop.
abbrev reported :
    Text
    → Option (Delivery × Option DeliveryError)
    → Option (Delivery × Result DeliveryError Report)
reported company none = none
reported company (some (d, some x)) = some (d, err x)
reported company (some (d, none)) = some (
  d,
  ok (record {
    selected = d.uploaded;
    uploaded = d.uploaded;
    deleted = d.deleted;
    pending = pending company d.spool;
  }),
)

module _ (pl : Platform) (decode : Text → Option SearchAnalyticsEvent) (company : Text)
    (batch_size : ℕ) (rounds : ℕ → Round) (fuel : ℕ) (spool : Spool) (destination : Destination)
    (sound : IsSound spool) (positive : 0 < batch_size) (small : batch_size ≤ 5000)
    (enough : pending company spool < fuel) where
  abbrev start : Delivery
  start = record { spool = spool; destination = destination; uploaded = 0; deleted = 0 }

  abbrev cutoff : ℕ
  cutoff = max_id company spool.rows

  valid : (batch_size == 0 || ltb 5000 batch_size) ≡ false
  valid = ground arith

  deliver-reported :
      (f : ℕ)
      → (cutoff == 0) ≡ false
      → deliver pl decode company batch_size rounds f spool destination
        ≡ reported company (deliver_loop pl decode company cutoff batch_size rounds f 0 start)
  unfolding deliver
  deliver-reported f more =
      rw (deliver, valid, more)
        (cases (deliver_loop pl decode company cutoff batch_size rounds f 0 start))
    where
      cases :
          (o : Option (Delivery × Option DeliveryError))
          → (elim o [
            | none ↦ none
            | some (d, some x) ↦ some (d, err x)
            | some (d, none) ↦ some (
              d,
              ok (record {
                selected = d.uploaded;
                uploaded = d.uploaded;
                deleted = d.deleted;
                pending = pending company d.spool;
              }),
            )
          ])
            ≡ reported company o
      cases none = refl
      cases (some (d, none)) = refl
      cases (some (d, some x)) = refl

  kept_arrivals :
      (d : Delivery) (outcome : Result DeliveryError Report)
      → deliver pl decode company batch_size rounds fuel spool destination ≡ some (d, outcome)
      → KeepsArrivals pl decode company batch_size rounds spool destination d outcome
  kept_arrivals d outcome runs = elim (Bool-cases (cutoff == 0)) [
    | inl nothing ↦ record {
      begun = 0;
      ends = same nothing ∙ runs;
      not_before = λ f h. absurd (omega arith);
      arrived = tt;
    }
    | inr more ↦
        by_loop more (deliver_loop pl decode company cutoff batch_size rounds fuel 0 start) refl
          (sym (deliver-reported fuel more) ∙ runs)
  ]
    where
      same :
          (cutoff == 0) ≡ true
          → deliver pl decode company batch_size rounds 0 spool destination
            ≡ deliver pl decode company batch_size rounds fuel spool destination
      same nothing = unfold deliver in rw (valid, nothing) refl

      ended :
          (cutoff == 0) ≡ false
          → (d1 : Delivery) (raised : Option DeliveryError)
          → LoopKeeps company cutoff spool.next_id
              (own_rows company spool.rows)
              pl
              decode
              batch_size
              rounds
              0
              start
              (d1, raised)
          → reported company (some (d1, raised)) ≡ some (d, outcome)
          → KeepsArrivals pl decode company batch_size rounds spool destination d outcome
      ended more d1 none k e =
          subst
            (λ (z : Delivery × Result DeliveryError Report).
              KeepsArrivals pl decode company batch_size rounds spool destination z.0 z.1)
            (some-injective _ (d, outcome) e)
            (record {
              begun = suc k.more;
              ends = deliver-reported (suc k.more) more ∙ ap (reported company) k.runs;
              not_before = λ f h.
                  deliver-reported f more
                  ∙ ap (reported company) (k.not_before f (omega (arith, h)));
              arrived = k.arrived;
            })
      ended more d1 (some x) k e =
          subst
            (λ (z : Delivery × Result DeliveryError Report).
              KeepsArrivals pl decode company batch_size rounds spool destination z.0 z.1)
            (some-injective _ (d, outcome) e)
            (record {
              begun = suc k.more;
              ends = deliver-reported (suc k.more) more ∙ ap (reported company) k.runs;
              not_before = λ f h.
                  deliver-reported f more
                  ∙ ap (reported company) (k.not_before f (omega (arith, h)));
              arrived = k.arrived;
            })

      by_loop :
          (cutoff == 0) ≡ false
          → (o : Option (Delivery × Option DeliveryError))
          → deliver_loop pl decode company cutoff batch_size rounds fuel 0 start ≡ o
          → reported company o ≡ some (d, outcome)
          → KeepsArrivals pl decode company batch_size rounds spool destination d outcome
      by_loop more none loops e = absurd (cc)
      by_loop more (some (d1, raised)) loops e =
          let k =
            loop-LoopKeeps company cutoff spool.next_id (own_rows company spool.rows) pl decode
              batch_size rounds fuel 0 start (d1, raised)
              (starts_open pl decode company batch_size rounds fuel spool destination sound positive
                small enough)
              (λ q h.
                ap (has_request q) (
                  sym (
                    own-snapshot pl decode company batch_size rounds fuel spool destination sound
                      positive small enough))
                ∙ h)
              loops in
          ended more d1 raised k e

  -- Whatever raises, and whatever the service inserts meanwhile, a delivery of a valid batch size
  -- with more fuel than the company has rows ends. No row of the company that was in the spool at
  -- the start is gone whose event is not in the tables; the tables have got a first part of the
  -- events of these rows in their order and nothing else; the other rows that were there are
  -- untouched; and no row is lost that the service inserts in the rounds that the delivery begins:
  -- afterwards the spool has a row of its request id, or the company had one at the start.
  pub deliver_loses_nothing :
      (d : Delivery) × (outcome : Result DeliveryError Report) × (deliver pl decode company
          batch_size rounds fuel spool destination
        ≡ some (d, outcome))
      × IsSafe pl decode company spool destination d
      × KeepsArrivals pl decode company batch_size rounds spool destination d outcome
  deliver_loses_nothing =
      let (d, outcome, runs, safe) =
        deliver-IsSafe pl decode company batch_size rounds fuel spool destination sound positive
          small enough in
      (d, outcome, runs, safe, kept_arrivals d outcome runs)
