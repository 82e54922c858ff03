-- ===== src/Limits/Window/Budget.antt =====
-- The rolling budget: what any run of calls may be granted, and that a refusal is never spurious.
use querix_semantic_search.Prelude.{
  ℕ, ◌+◌, ◌≤◌, ◌<◌, ◌≡◌, refl, sym, ap, ◌∙◌, Bool, Option, List, [], ◌∷◌, ◌++◌, arith, count, ok,
}
use mathlib.Core.List.{append-nil, append_assoc}
use querix_semantic_search.Limits.Window.{
  init, WindowLimiter, Outcome, granted, refused, index_error, allow_memory,
}
use querix_semantic_search.Limits.Window.Tracks.{
  in_window, noted, Monotone, Tracks, Tracks-allow_memory, allow_memory-refused,
}

-- `allow` called at the given times: the limiter that is left, and the times that were granted.
unfoldable pub run : List ℕ → WindowLimiter → WindowLimiter × List ℕ
run [] l = (l, [])
run (now ∷ calls) l =
    let (l', outcome) = allow_memory now l in
    let (l'', later) = run calls l' in (l'', noted now outcome [] ++ later)

-- The time of the last call.
abbrev pub last_of : ℕ → List ℕ → ℕ
last_of last [] = last
last_of last (now ∷ calls) = last_of now calls

noted-append : (now : ℕ) (o : Outcome) (h : List ℕ) → noted now o h ≡ h ++ noted now o []
noted-append now granted h = refl
noted-append now (refused r) h = sym (append-nil h)
noted-append now index_error h = sym (append-nil h)

Tracks-run :
    (calls : List ℕ) {l : WindowLimiter} {last : ℕ} {h : List ℕ}
    → Tracks l last h
    → Monotone last calls
    → Tracks (run calls l).0 (last_of last calls) (h ++ (run calls l).1)
unfolding run
Tracks-run [] {h = h} v m = rw append-nil v
Tracks-run (now ∷ calls) {l} {last} {h} v m =
    let o = (allow_memory now l).1 in
    let step = Tracks-allow_memory l v now m.0 in
    let rest = Tracks-run calls step m.1 in rw (← append_assoc, ← noted-append) rest

abbrev fresh : ℕ → ℕ → WindowLimiter
fresh n window = record { requests_per_window = n; window_seconds = window; requests = [] }

init-fresh :
    (n window : ℕ) (redis : Bool) (scope : Option ℕ) {l : WindowLimiter}
    → init n window redis scope ≡ ok l
    → (l ≡ fresh n window) × (0 < n) × (0 < window)
unfolding init
init-fresh n window redis scope e = ground arith

Tracks-fresh : (n window : ℕ) → 0 < n → Tracks (fresh n window) 0 []
Tracks-fresh n window h = record {
  positive = h;
  bounded = λ t. omega arith;
  ascending = tt;
  past = tt;
  same = λ t k. refl;
}

run_config :
    (calls : List ℕ) (l : WindowLimiter)
    → ((run calls l).0.requests_per_window ≡ l.requests_per_window)
      × ((run calls l).0.window_seconds ≡ l.window_seconds)
unfolding run allow_memory
run_config [] l = (refl, refl)
run_config (now ∷ calls) l = let (n, w) = run_config calls (allow_memory now l).0 in ground arith

-- Of any calls on a monotonic clock to a new limiter, at most the configured number is granted in
-- each window, wherever it ends.
pub run_budget :
    (n window : ℕ) (redis : Bool) (scope : Option ℕ) (calls : List ℕ) (t : ℕ) {l : WindowLimiter}
    → init n window redis scope ≡ ok l
    → Monotone 0 calls
    → count (in_window window t) (run calls l).1 ≤ n
run_budget n window redis scope calls t e m =
    let (el, pos, _) = init-fresh n window redis scope e in
    let (en, ew) = run_config calls (fresh n window) in
    let b = (Tracks-run calls (Tracks-fresh n window pos) m).bounded t in rw el (rw (en, ew) at b)

-- After any run of calls on a monotonic clock, a refusal at `now` means that the window that ends
-- at `now` holds exactly the configured number of grants; its hint is positive, and a call made
-- when the hint has passed is granted.
pub run_refusal :
    (n window : ℕ) (redis : Bool) (scope : Option ℕ) (calls : List ℕ) (now r : ℕ)
    {l : WindowLimiter}
    → init n window redis scope ≡ ok l
    → Monotone 0 calls
    → last_of 0 calls ≤ now
    → (allow_memory now (run calls l).0).1 ≡ refused r
    → (count (in_window window now) (run calls l).1 ≡ n)
      × (0 < r)
      × ((allow_memory (now + r) (allow_memory now (run calls l).0).0).1 ≡ granted)
run_refusal n window redis scope calls now r {l} e m late x =
    let (el, pos, _) = init-fresh n window redis scope e in
    let (en, ew) = run_config calls l in
    let v : Tracks (run calls l).0 (last_of 0 calls) (run calls l).1 =
      (rw el (Tracks-run calls (Tracks-fresh n window pos) m)) in
    let (a, b, c) = allow_memory-refused (run calls l).0 v now late r x in
    let ew' : (run calls l).0.window_seconds ≡ window =
      ew ∙ ap (λ (x : WindowLimiter). x.window_seconds) el in
    let en' : (run calls l).0.requests_per_window ≡ n =
      en ∙ ap (λ (x : WindowLimiter). x.requests_per_window) el in
    (rw (ew', en') at a, b, c)
