-- ===== src/Analytics/Runs.antt =====
-- The runs of a store: calls of `submit` and `close` by any threads, between the steps of the
-- worker, and what they come to.
use mathlib.Core.Path.{subst}
use querix_semantic_search.Prelude.{
  ℕ, suc, ◌+◌, ◌≤◌, ◌≡◌, refl, sym, ap, ◌∙◌, inl, inr, Bool, Option, none, some, List, [], ◌∷◌,
  ◌++◌, map, arith, leb, if◌then◌else◌, Bool-cases, length, length-append, append_assoc, append-nil,
  text_eq,
}
use querix_semantic_search.Analytics.Events.{SearchAnalyticsEvent}
use querix_semantic_search.Analytics.Worker.{
  Item, event, stop, Store, admit, offer, worker_takes, worker_finishes, close, put_stop,
}

abbrev pub is_full : {S : Type 0} → Store S → Bool
is_full s = leb s.capacity (length s.queue)

-- The events of a queue, and of the worker's hand.
abbrev pub queued : List Item → List SearchAnalyticsEvent
queued [] = []
queued (event e ∷ items) = e ∷ queued items
queued (stop ∷ items) = queued items

abbrev pub in_hand : Option Item → List SearchAnalyticsEvent
in_hand none = []
in_hand (some (event e)) = e ∷ []
in_hand (some stop) = []

module _ {Sink Outcome : Type 0} (save : Outcome → SearchAnalyticsEvent → Sink → Sink × Bool) where
  abbrev pub finished : Option Item → Outcome → List (SearchAnalyticsEvent × Outcome)
  finished none o = []
  finished (some (event e)) o = (e, o) ∷ []
  finished (some stop) o = []

  -- A run to a store, with the events that the queue accepted and those that the worker finished,
  -- each in its order.
  pub data Run (start : Store Sink)
      : Store Sink
        → List SearchAnalyticsEvent
        → List (SearchAnalyticsEvent × Outcome)
        → Type 0 where
    begin : Run start start [] []
    admits :
        {s : Store Sink} {accepted : List SearchAnalyticsEvent}
        {done : List (SearchAnalyticsEvent × Outcome)} (e : SearchAnalyticsEvent)
        → Run start s accepted done
        → Run start (admit e s).0 accepted done
    offers :
        {s : Store Sink} {accepted : List SearchAnalyticsEvent}
        {done : List (SearchAnalyticsEvent × Outcome)} (before after : List SearchAnalyticsEvent)
        (e : SearchAnalyticsEvent)
        → Run start s accepted done
        → s.admitted ≡ before ++ e ∷ after
        → Run start
            (offer e (record s { admitted = before ++ after })).0
            (if is_full s then accepted else accepted ++ e ∷ [])
            done
    takes :
        {s : Store Sink} {accepted : List SearchAnalyticsEvent}
        {done : List (SearchAnalyticsEvent × Outcome)}
        → Run start s accepted done
        → Run start (worker_takes s) accepted done
    finishes :
        {s : Store Sink} {accepted : List SearchAnalyticsEvent}
        {done : List (SearchAnalyticsEvent × Outcome)} (o : Outcome)
        → Run start s accepted done
        → Run start (worker_finishes (save o) s) accepted (done ++ finished s.holding o)
    closes :
        {s : Store Sink} {accepted : List SearchAnalyticsEvent}
        {done : List (SearchAnalyticsEvent × Outcome)}
        → Run start s accepted done
        → Run start (close s).0 accepted done
    stops :
        {s : Store Sink} {accepted : List SearchAnalyticsEvent}
        {done : List (SearchAnalyticsEvent × Outcome)}
        → Run start s accepted done
        → Run start (put_stop s) accepted done

  -- The sink after saving events one after the other, and how many were written.
  unfoldable pub replay : List (SearchAnalyticsEvent × Outcome) → Sink → Sink
  replay [] sink = sink
  replay ((e, o) ∷ done) sink = replay done (save o e sink).0

  unfoldable pub successes : List (SearchAnalyticsEvent × Outcome) → Sink → ℕ
  successes [] sink = 0
  successes ((e, o) ∷ done) sink =
      (if (save o e sink).1 then 1 else 0) + successes done (save o e sink).0

  -- What a run has come to.
  pub record IsFaithful (sink : Sink) (s : Store Sink) (accepted : List SearchAnalyticsEvent)
      (done : List (SearchAnalyticsEvent × Outcome)) : Type 0 where
    pub bounded : length s.queue ≤ s.capacity
    pub in_order : accepted ≡ map (λ p. p.0) done ++ (in_hand s.holding ++ queued s.queue)
    pub counted : s.submitted ≡ length accepted + s.dropped + length s.admitted
    pub finished_count : s.written + s.failed ≡ length done
    pub written_count : s.written ≡ successes done sink
    pub saved : s.sink ≡ replay done sink

  pub replay-append :
      (xs ys : List (SearchAnalyticsEvent × Outcome)) (k : Sink)
      → replay (xs ++ ys) k ≡ replay ys (replay xs k)
  unfolding replay
  replay-append [] ys k = refl
  replay-append ((e, o) ∷ xs) ys k = replay-append xs ys (save o e k).0

  pub successes-append :
      (xs ys : List (SearchAnalyticsEvent × Outcome)) (k : Sink)
      → successes (xs ++ ys) k ≡ successes xs k + successes ys (replay xs k)
  unfolding successes replay
  successes-append [] ys k = omega arith
  successes-append ((e, o) ∷ xs) ys k = omega (arith, successes-append xs ys (save o e k).0)

queued-append : (xs ys : List Item) → queued (xs ++ ys) ≡ queued xs ++ queued ys
queued-append [] ys = refl
queued-append (event e ∷ xs) ys = ap (◌∷◌ e) (queued-append xs ys)
queued-append (stop ∷ xs) ys = queued-append xs ys

module _ {Sink Outcome : Type 0} (save : Outcome → SearchAnalyticsEvent → Sink → Sink × Bool)
    (start : Sink) {s : Store Sink} {accepted : List SearchAnalyticsEvent}
    {done : List (SearchAnalyticsEvent × Outcome)} (f : IsFaithful save start s accepted done) where
  pub admit-IsFaithful :
      (e : SearchAnalyticsEvent) → IsFaithful save start (admit e s).0 accepted done
  unfolding admit
  admit-IsFaithful e = elim (Bool-cases (text_eq e.company_id s.company_id)) [
    | inr other ↦ rw other f
    | inl own ↦ elim (Bool-cases s.closed) [
      | inl closed ↦
          let same : s ≡ (admit e s).0 = ground arith in
          subst (λ t. IsFaithful save start t accepted done) same f
      | inr open_now ↦
          rw (own, open_now)
            (record {
              bounded = f.bounded;
              in_order = f.in_order;
              counted = omega (arith, f.counted, length-append s.admitted (e ∷ []));
              finished_count = f.finished_count;
              written_count = f.written_count;
              saved = f.saved;
            })
    ]
  ]

  pub close-IsFaithful : IsFaithful save start (close s).0 accepted done
  unfolding close
  close-IsFaithful = elim (Bool-cases s.closed) [
    | inl closed ↦
        let same : s ≡ (close s).0 = ground arith in
        subst (λ t. IsFaithful save start t accepted done) same f
    | inr open_now ↦ rw open_now (record {
      bounded = f.bounded;
      in_order = f.in_order;
      counted = f.counted;
      finished_count = f.finished_count;
      written_count = f.written_count;
      saved = f.saved;
    })
  ]

  pub put_stop-IsFaithful : IsFaithful save start (put_stop s) accepted done
  unfolding put_stop
  put_stop-IsFaithful = elim (Bool-cases (is_full s)) [
    | inl full ↦ rw full f
    | inr room ↦ rw room (record {
      bounded = ground (arith, length-append s.queue (stop ∷ []));
      in_order =
          f.in_order
          ∙ ap (λ q. map (λ p. p.0) done ++ (in_hand s.holding ++ q))
              (sym (queued-append s.queue (stop ∷ []) ∙ append-nil (queued s.queue)));
      counted = f.counted;
      finished_count = f.finished_count;
      written_count = f.written_count;
      saved = f.saved;
    })
  ]

  pub offer-IsFaithful :
      (before after : List SearchAnalyticsEvent) (e : SearchAnalyticsEvent)
      → s.admitted ≡ before ++ e ∷ after
      → IsFaithful save start
          (offer e (record s { admitted = before ++ after })).0
          (if is_full s then accepted else accepted ++ e ∷ [])
          done
  unfolding offer
  offer-IsFaithful before after e split =
      let size : length s.admitted ≡ suc (length (before ++ after)) =
        omega
          (arith, ap length split, length-append before (e ∷ after), length-append before after) in
      elim (Bool-cases (is_full s)) [
        | inl full ↦ rw full (record {
          bounded = f.bounded;
          in_order = f.in_order;
          counted = omega (arith, f.counted, size);
          finished_count = f.finished_count;
          written_count = f.written_count;
          saved = f.saved;
        })
        | inr room ↦ rw room (record {
          bounded = ground (arith, length-append s.queue (event e ∷ []));
          in_order =
              ap (λ l. l ++ e ∷ []) f.in_order
              ∙ append_assoc (map (λ p. p.0) done) (in_hand s.holding ++ queued s.queue) (e ∷ [])
              ∙ ap (λ l. map (λ p. p.0) done ++ l)
                  (append_assoc (in_hand s.holding) (queued s.queue) (e ∷ [])
                    ∙ ap (λ q. in_hand s.holding ++ q)
                        (sym (queued-append s.queue (event e ∷ []))));
          counted = omega (arith, f.counted, size, length-append accepted (e ∷ []));
          finished_count = f.finished_count;
          written_count = f.written_count;
          saved = f.saved;
        })
      ]
