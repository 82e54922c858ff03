-- ===== src/Analytics/Accounting.antt =====
-- Every run of a store accounts for every event.
use mathlib.Core.Path.{subst}
use mathlib.Core.List.{map-append}
use querix_semantic_search.Prelude.{
  ℕ, ◌+◌, ◌≡◌, refl, sym, ap, ◌∙◌, inl, inr, Bool, true, false, none, some, List, [], ◌∷◌, ◌++◌,
  map, arith, Bool-cases, Option-cases, length, length-append, append_assoc, append-nil, ok, Text,
}
use querix_semantic_search.Analytics.Events.{SearchAnalyticsEvent}
use querix_semantic_search.Analytics.Worker.{
  Item, event, stop, Store, init, next_item, worker_takes, worker_finishes,
}
use querix_semantic_search.Analytics.Runs.{
  queued, in_hand, finished, Run, begin, admits, offers, takes, finishes, closes, stops, replay,
  successes, IsFaithful, replay-append, successes-append, admit-IsFaithful, offer-IsFaithful,
  close-IsFaithful, put_stop-IsFaithful,
}

module _ {Sink Outcome : Type 0} (save : Outcome → SearchAnalyticsEvent → Sink → Sink × Bool)
    (start : Sink) {s : Store Sink} {accepted : List SearchAnalyticsEvent}
    {done : List (SearchAnalyticsEvent × Outcome)} (f : IsFaithful save start s accepted done) where
  next_item-IsFaithful :
      (q : List Item)
      → s.queue ≡ q
      → s.holding ≡ none
      → IsFaithful save start (next_item q s) accepted done
  unfolding next_item
  next_item-IsFaithful [] e h = f
  next_item-IsFaithful (item ∷ rest) e h = record {
    bounded = omega (arith, f.bounded, ap length e);
    in_order =
        f.in_order
        ∙ ap (λ held. map (λ p. p.0) done ++ (in_hand held ++ queued s.queue)) h
        ∙ ap (λ q. map (λ p. p.0) done ++ queued q) e
        ∙ ap (λ l. map (λ p. p.0) done ++ l) (split item);
    counted = f.counted;
    finished_count = f.finished_count;
    written_count = f.written_count;
    saved = f.saved;
  }
    where
      split : (item : Item) → queued (item ∷ rest) ≡ in_hand (some item) ++ queued rest
      split (event e) = refl
      split stop = refl

  worker_takes-IsFaithful : IsFaithful save start (worker_takes s) accepted done
  unfolding worker_takes
  worker_takes-IsFaithful = elim (Option-cases s.holding) [
    | inr (item, busy) ↦
        let same : s ≡ worker_takes s = ground arith in
        subst (λ t. IsFaithful save start t accepted done) same f
    | inl idle ↦ elim (Bool-cases s.stopped) [
      | inl over ↦
          let same : s ≡ worker_takes s = ground arith in
          subst (λ t. IsFaithful save start t accepted done) same f
      | inr runs ↦
          let same : next_item s.queue s ≡ worker_takes s = ground arith in
          subst (λ t. IsFaithful save start t accepted done) same
            (next_item-IsFaithful s.queue refl idle)
    ]
  ]

  module _ (o : Outcome) where
    moved :
        (t : Store Sink) (more : List (SearchAnalyticsEvent × Outcome))
        → t ≡ worker_finishes (save o) s
        → more ≡ finished save s.holding o
        → IsFaithful save start t accepted (done ++ more)
        → IsFaithful save start
            (worker_finishes (save o) s)
            accepted
            (done ++ finished save s.holding o)
    moved t more e h g =
        subst (λ m. IsFaithful save start (worker_finishes (save o) s) accepted (done ++ m)) h
          (subst (λ u. IsFaithful save start u accepted (done ++ more)) e g)

    -- The event in hand goes to the end of what is done.
    shift :
        (e : SearchAnalyticsEvent)
        → s.holding ≡ some (event e)
        → accepted ≡ map (λ p. p.0) (done ++ (e, o) ∷ []) ++ queued s.queue
    shift e h =
        f.in_order
        ∙ ap (λ held. map (λ p. p.0) done ++ (in_hand held ++ queued s.queue)) h
        ∙ sym (append_assoc (map (λ p. p.0) done) (e ∷ []) (queued s.queue))
        ∙ ap (λ l. l ++ queued s.queue) (sym (map-append (λ p. p.0) done ((e, o) ∷ [])))

    worker_finishes-IsFaithful :
        IsFaithful save start
          (worker_finishes (save o) s)
          accepted
          (done ++ finished save s.holding o)
    unfolding worker_finishes replay successes
    worker_finishes-IsFaithful = elim (Option-cases s.holding) [
      | inl idle ↦
          moved s [] (ground arith) (ap (λ h. finished save h o) (sym idle))
            (subst (λ d. IsFaithful save start s accepted d) (sym (append-nil done)) f)
      | inr (stop, over) ↦
          moved (record s { holding = none; stopped = true }) [] (ground arith)
            (ap (λ h. finished save h o) (sym over))
            (subst
              (λ d. IsFaithful save start (record s { holding = none; stopped = true }) accepted d)
              (sym (append-nil done))
              (record {
                bounded = f.bounded;
                in_order =
                    f.in_order
                    ∙ ap (λ held. map (λ p. p.0) done ++ (in_hand held ++ queued s.queue)) over;
                counted = f.counted;
                finished_count = f.finished_count;
                written_count = f.written_count;
                saved = f.saved;
              }))
      | inr (event e, busy) ↦
          let count = successes-append save done ((e, o) ∷ []) start in
          let now = sym f.saved in
          let sink_after : (save o e s.sink).0 ≡ replay save (done ++ (e, o) ∷ []) start =
            ap (λ k. (save o e k).0) f.saved ∙ sym (replay-append save done ((e, o) ∷ []) start) in
          let size = length-append done ((e, o) ∷ []) in
          elim (Bool-cases (save o e s.sink).1) [
            | inl written ↦
                moved
                  (record s { holding = none; sink = (save o e s.sink).0; written = s.written + 1 })
                  ((e, o) ∷ []) (ground arith) (ap (λ h. finished save h o) (sym busy))
                  (record {
                    bounded = f.bounded;
                    in_order = shift e busy;
                    counted = f.counted;
                    finished_count = omega (arith, f.finished_count, size);
                    written_count =
                        (let hit : (save o e (replay save done start)).1 ≡ true =
                            ap (λ k. (save o e k).1) now ∙ written in
                          ground (arith, f.written_count, count, hit));
                    saved = sink_after;
                  })
            | inr lost ↦
                moved
                  (record s { holding = none; sink = (save o e s.sink).0; failed = s.failed + 1 })
                  ((e, o) ∷ []) (ground arith) (ap (λ h. finished save h o) (sym busy))
                  (record {
                    bounded = f.bounded;
                    in_order = shift e busy;
                    counted = f.counted;
                    finished_count = omega (arith, f.finished_count, size);
                    written_count =
                        (let miss : (save o e (replay save done start)).1 ≡ false =
                            ap (λ k. (save o e k).1) now ∙ lost in
                          ground (arith, f.written_count, count, miss));
                    saved = sink_after;
                  })
          ]
    ]

module _ {Sink Outcome : Type 0} (save : Outcome → SearchAnalyticsEvent → Sink → Sink × Bool) where
  init-IsFaithful :
      (company : Text) (capacity : ℕ) (sink : Sink) {s : Store Sink}
      → init company capacity sink ≡ ok s
      → IsFaithful save sink s [] []
  unfolding init replay successes
  init-IsFaithful company capacity sink {s} e = ground arith

  -- However the calls and the worker interleave: the queue never holds more than its capacity;
  -- what the queue accepted is, in order, what the worker has finished, what it holds and what
  -- waits; every submitted event is accepted, dropped or still on its way to the queue; the
  -- written and failed events are those finished; and the sink is what saving the finished events
  -- in their order makes of the one at the start.
  pub Run-IsFaithful :
      (company : Text) (capacity : ℕ) (sink : Sink) {s0 s : Store Sink}
      {accepted : List SearchAnalyticsEvent} {done : List (SearchAnalyticsEvent × Outcome)}
      → init company capacity sink ≡ ok s0
      → Run save s0 s accepted done
      → IsFaithful save sink s accepted done
  Run-IsFaithful company capacity sink e begin = init-IsFaithful company capacity sink e
  Run-IsFaithful company capacity sink e (admits x r) =
      admit-IsFaithful save sink (Run-IsFaithful company capacity sink e r) x
  Run-IsFaithful company capacity sink e (offers before after x r split) =
      offer-IsFaithful save sink (Run-IsFaithful company capacity sink e r) before after x split
  Run-IsFaithful company capacity sink e (takes r) =
      worker_takes-IsFaithful save sink (Run-IsFaithful company capacity sink e r)
  Run-IsFaithful company capacity sink e (finishes o r) =
      worker_finishes-IsFaithful save sink (Run-IsFaithful company capacity sink e r) o
  Run-IsFaithful company capacity sink e (closes r) =
      close-IsFaithful save sink (Run-IsFaithful company capacity sink e r)
  Run-IsFaithful company capacity sink e (stops r) =
      put_stop-IsFaithful save sink (Run-IsFaithful company capacity sink e r)
