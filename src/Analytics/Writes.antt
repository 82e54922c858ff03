-- ===== src/Analytics/Writes.antt =====
-- Writing events to the two tables in parts, and how a transaction can end.
use querix_semantic_search.Prelude.{
  ℕ, ◌≡◌, refl, ap, ◌∙◌, ◌⊎◌, inl, inr, Option, some, List, [], ◌∷◌, ◌++◌, arith, Option-cases,
  Result-cases, take, drop, zero, suc, sym, length, Result, ok, err, Text,
}
use querix_semantic_search.Analytics.Events.{Platform, SearchAnalyticsEvent}
use querix_semantic_search.Analytics.Destination.{
  Destination, write_event, write_events, Commit, committed, rolled_back, commit_lost, WriteError,
  write_search_analytics_events,
}
use querix_semantic_search.Analytics.Spool.{SpoolRow, decode_all}

pub write_events-append :
    (pl : Platform) (xs ys : List SearchAnalyticsEvent) (d : Destination)
    → write_events pl (xs ++ ys) d ≡ write_events pl ys (write_events pl xs d)
unfolding write_events
write_events-append pl [] ys d = refl
write_events-append pl (x ∷ xs) ys d = write_events-append pl xs ys (write_event pl x d)

-- The transaction answered, and has written the events.
abbrev pub Answered :
    Platform → List SearchAnalyticsEvent → Destination → Destination × Result WriteError ℕ → Type 0
Answered pl es d w = (w.1 ≡ ok (length es)) × (w.0 ≡ write_events pl es d)

-- It raised: all or nothing of the events was written.
abbrev pub Raised :
    Platform → List SearchAnalyticsEvent → Destination → Destination × Result WriteError ℕ → Type 0
Raised pl es d w = (x : WriteError) × (w.1 ≡ err x) × ((w.0 ≡ d) ⊎ (w.0 ≡ write_events pl es d))

pub write_cases :
    (pl : Platform) (c : Commit) (es : List SearchAnalyticsEvent) (d : Destination)
    → Answered pl es d (write_search_analytics_events pl c es d)
      ⊎ Raised pl es d (write_search_analytics_events pl c es d)
unfolding write_search_analytics_events
write_cases pl c [] d = inl (refl, refl)
write_cases pl committed (e ∷ es) d = inl (refl, refl)
write_cases pl rolled_back (e ∷ es) d = inr (WriteError.database_failed, refl, inl refl)
write_cases pl commit_lost (e ∷ es) d = inr (WriteError.database_failed, refl, inr refl)

pub write_committed :
    (pl : Platform) (es : List SearchAnalyticsEvent) (d : Destination)
    → Answered pl es d (write_search_analytics_events pl committed es d)
unfolding write_search_analytics_events
write_committed pl [] d = (refl, refl)
write_committed pl (e ∷ es) d = (refl, refl)

module _ (decode : Text → Option SearchAnalyticsEvent) where
  -- A decoded list was decoded row by row.
  pub decode_all-cons :
      (x : SpoolRow) (xs : List SpoolRow) (es : List SearchAnalyticsEvent)
      → decode_all decode (x ∷ xs) ≡ ok es
      → (e : SearchAnalyticsEvent) × (fs : List SearchAnalyticsEvent) × (decode x.payload_json
          ≡ some e)
        × (decode_all decode xs ≡ ok fs)
        × (es ≡ e ∷ fs)
  unfolding decode_all
  decode_all-cons x xs es h = elim (Option-cases (decode x.payload_json)) [
    | inl bad ↦ absurd (ground arith)
    | inr (e, good) ↦ elim (Result-cases (decode_all decode xs)) [
      | inl (raised, later) ↦ absurd (ground arith)
      | inr (fs, decoded) ↦ (e, fs, good, decoded, ground arith)
    ]
  ]

  decode_all-cons_ok :
      (x : SpoolRow) (xs : List SpoolRow) {e : SearchAnalyticsEvent}
      {fs : List SearchAnalyticsEvent}
      → decode x.payload_json ≡ some e
      → decode_all decode xs ≡ ok fs
      → decode_all decode (x ∷ xs) ≡ ok (e ∷ fs)
  unfolding decode_all
  decode_all-cons_ok x xs h k = ground arith

  pub decode_all-append :
      (xs ys : List SpoolRow) (es fs : List SearchAnalyticsEvent)
      → decode_all decode xs ≡ ok es
      → decode_all decode ys ≡ ok fs
      → decode_all decode (xs ++ ys) ≡ ok (es ++ fs)
  unfolding decode_all
  decode_all-append [] ys es fs h k = ground arith
  decode_all-append (x ∷ xs) ys es fs h k =
      let (e, gs, good, rest, split) = decode_all-cons x xs es h in
      let all = decode_all-append xs ys gs fs rest k in
      decode_all-cons_ok x (xs ++ ys) good all ∙ ap (λ l. ok (l ++ fs)) (sym split)

  pub decode_all-length :
      (xs : List SpoolRow) (es : List SearchAnalyticsEvent)
      → decode_all decode xs ≡ ok es
      → length es ≡ length xs
  unfolding decode_all
  decode_all-length [] es h = ground arith
  decode_all-length (x ∷ xs) es h =
      let (e, gs, good, rest, split) = decode_all-cons x xs es h in
      omega (arith, decode_all-length xs gs rest, ap length split)

  -- The first rows decode to the first events.
  pub decode_all-take :
      (n : ℕ) (xs : List SpoolRow) (es : List SearchAnalyticsEvent)
      → decode_all decode xs ≡ ok es
      → (decode_all decode (take n xs) ≡ ok (take n es))
        × (decode_all decode (drop n xs) ≡ ok (drop n es))
  decode_all-take zero xs es h = (unfold decode_all in refl, h)
  decode_all-take (suc n) [] es h =
      let empty : es ≡ [] = unfold decode_all in ground arith in
      rw empty (unfold decode_all in refl, unfold decode_all in refl)
  decode_all-take (suc n) (x ∷ xs) es h =
      let (e, gs, good, rest, split) = decode_all-cons x xs es h in
      let (first, last) = decode_all-take n xs gs rest in
      rw split (decode_all-cons_ok x (take n xs) good first, last)
