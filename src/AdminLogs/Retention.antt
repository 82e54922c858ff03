-- ===== src/AdminLogs/Retention.antt =====
-- The buffer keeps the newest events, numbered in the order of their arrival.
use querix_semantic_search.Prelude.{
  ℕ, ◌+◌, ◌-◌, ◌≤◌, ◌≡◌, refl, sym, ap, ◌∙◌, inl, inr, none, some, List, [], ◌∷◌, ◌++◌, arith,
  Option-cases, length, drop, length-append, ok, drop-append, length-drop, drop-drop, append-nil,
  append_assoc,
}
use querix_semantic_search.AdminLogs.Buffer.{
  Patterns, LogRecord, LogEvent, AdminLogBuffer, init, last_of, event_of, append, emit,
}

unfoldable pub emits : Patterns → List LogRecord → AdminLogBuffer → AdminLogBuffer
unfolding emit
emits pt [] b = b
emits pt (r ∷ rs) b = emits pt rs (emit pt r b)

-- The events of all records, numbered from `n`.
unfoldable pub log_from : Patterns → ℕ → List LogRecord → List LogEvent
unfolding event_of
log_from pt n [] = []
log_from pt n (r ∷ rs) =
    let rest = log_from pt (n + 1) rs in
    let same = log_from pt n rs in
    elim (event_of pt r) [ none ↦ same | some e ↦ record e { id = n } ∷ rest ]

module _ {ℓ} {A : Type ℓ} where
  length-last_of-le : (n : ℕ) (xs : List A) → length (last_of n xs) ≤ n
  length-last_of-le n xs = omega (arith, length-drop (length xs - n) xs)

  last_of-all : (n : ℕ) (xs : List A) → length xs ≤ n → last_of n xs ≡ xs
  last_of-all n xs h = let e : length xs - n ≡ 0 = omega arith in rw e refl

  -- Dropping to the newest `c` can be done at each step or once.
  last_of-append : (c : ℕ) (xs ys : List A) → last_of c (last_of c xs ++ ys) ≡ last_of c (xs ++ ys)
  last_of-append c xs ys =
      let d = drop-append (length xs - c) xs ys (omega arith) in
      let l = length-drop (length xs - c) (xs ++ ys) in
      let la = length-append xs ys in
      rw d (
        drop-drop (length (drop (length xs - c) (xs ++ ys)) - c) (length xs - c) (xs ++ ys)
        ∙ ap (λ n. drop n (xs ++ ys)) (omega (arith, l, la)))

-- Appends one by one, and the whole log cut once.
emits-last_of :
    (pt : Patterns) (rs : List LogRecord) (b : AdminLogBuffer)
    → length b.events ≤ b.capacity
    → ((emits pt rs b).events ≡ last_of b.capacity (b.events ++ log_from pt b.next_id rs))
      × ((emits pt rs b).capacity ≡ b.capacity)
unfolding emits emit log_from append
emits-last_of pt [] b h =
    (sym (ap (last_of b.capacity) (append-nil b.events) ∙ last_of-all b.capacity b.events h), refl)
emits-last_of pt (r ∷ rs) b h = elim (Option-cases (event_of pt r)) [
  | inl e ↦ rw (emits, emit, log_from, e) (emits-last_of pt rs b h)
  | inr (event, e) ↦
      let one : List LogEvent = record event { id = b.next_id } ∷ [] in
      let rest = log_from pt (b.next_id + 1) rs in
      let (same, cap) =
        emits-last_of pt rs (append event b) (length-last_of-le b.capacity (b.events ++ one)) in
      rw (emits, emit, log_from, e)
        (
          same
              ∙ last_of-append b.capacity (b.events ++ one) rest
              ∙ ap (last_of b.capacity) (append_assoc b.events one rest),
          cap,
        )
]

init-empty :
    (capacity : ℕ) {b : AdminLogBuffer}
    → init capacity ≡ ok b
    → b ≡ record { capacity = capacity; events = []; next_id = 1 }
unfolding init
init-empty capacity e = ground arith

-- After any records, a new buffer holds the newest events of the whole log, up to its capacity,
-- each numbered by its place in the log.
pub emits_retain :
    (pt : Patterns) (capacity : ℕ) (rs : List LogRecord) {b : AdminLogBuffer}
    → init capacity ≡ ok b
    → ((emits pt rs b).events ≡ last_of capacity (log_from pt 1 rs))
      × (length (emits pt rs b).events ≤ capacity)
emits_retain pt capacity rs e =
    let (same, _) =
      emits-last_of pt rs (record { capacity = capacity; events = []; next_id = 1 })
        (omega arith) in
    rw (init-empty capacity e, same) (refl, length-last_of-le capacity (log_from pt 1 rs))
