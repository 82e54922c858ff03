-- ===== src/AdminLogs/Paging.antt =====
-- A client that follows `next_after_id` sees every event once, in order.
use querix_semantic_search.Prelude.{
  ℕ, zero, suc, ◌+◌, ◌-◌, ◌≤◌, ◌<◌, ◌≡◌, refl, sym, ap, ◌∙◌, ◌↔◌, inl, inr, Bool, false, ◌&&◌, some,
  List, [], ◌∷◌, ◌++◌, arith, ltb, Bool-cases, Option-cases, length, take, drop, keep,
  take-append-drop, ok,
}
use mathlib.Core.Path.{subst}
use querix_semantic_search.AdminLogs.Buffer.{
  Patterns, LogRecord, LogEvent, AdminLogBuffer, init, event_of, level_passes, eligible, last_id,
  snapshot_at,
}
use querix_semantic_search.AdminLogs.Retention.{emits, log_from, emits_retain}

-- The ids are above `k` and ascend.
abbrev pub Above : ℕ → List LogEvent → Type 0
Above k [] = Unit
Above k (e ∷ es) = (k < e.id) × Above e.id es

Above-le : (j k : ℕ) (es : List LogEvent) → j ≤ k → Above k es → Above j es
Above-le j k [] h a = tt
Above-le j k (e ∷ es) h a = (omega (arith, a.0), a.1)

-- Beyond an earlier id, nothing is filtered by id.
keep-after :
    (q : LogEvent → Bool) (j k : ℕ) (es : List LogEvent)
    → j ≤ k
    → Above k es
    → keep (λ e. q e && ltb j e.id) es ≡ keep q es
keep-after q j k [] h a = refl
keep-after q j k (e ∷ es) h a = ground (arith, a.0, keep-after q j e.id es (omega (arith, a.0)) a.1)

abbrev after_keep : (LogEvent → Bool) → ℕ → List LogEvent → List LogEvent
after_keep q j es = keep (λ e. q e && ltb j e.id) es

keep-Above :
    (q : LogEvent → Bool) (j k : ℕ) (es : List LogEvent) → Above k es → Above j (after_keep q j es)
keep-Above q j k [] a = tt
keep-Above q j k (e ∷ es) a = elim (Bool-cases (q e && ltb j e.id)) [
  | inl hit ↦
      let same : after_keep q j es ≡ after_keep q e.id es =
        keep-after q j e.id es (ground (arith, hit)) a.1
        ∙ sym (keep-after q e.id e.id es (omega arith) a.1) in
      rw hit (ground (arith, hit), rw same (keep-Above q e.id e.id es a.1))
  | inr miss ↦ rw miss (keep-Above q j e.id es a.1)
]

le-last_id : (j n : ℕ) (es : List LogEvent) → Above j es → j ≤ last_id j (take n es)
le-last_id j zero es a = omega arith
le-last_id j (suc n) [] a = omega arith
le-last_id j (suc n) (e ∷ es) a = omega (arith, a.0, le-last_id e.id n es a.1)

-- What comes after a page is what the page left.
after-page :
    (q : LogEvent → Bool) (n j k : ℕ) (es : List LogEvent)
    → Above k es
    → after_keep q (last_id j (take n (after_keep q j es))) es ≡ drop n (after_keep q j es)
after-page q zero j k es a = refl
after-page q (suc n) j k [] a = refl
after-page q (suc n) j k (e ∷ es) a = elim (Bool-cases (q e && ltb j e.id)) [
  | inl hit ↦
      let same : after_keep q j es ≡ after_keep q e.id es =
        keep-after q j e.id es (ground (arith, hit)) a.1
        ∙ sym (keep-after q e.id e.id es (omega arith) a.1) in
      let page : after_keep q j (e ∷ es) ≡ e ∷ after_keep q e.id es = (rw hit (ap (◌∷◌ e) same)) in
      let rest = after-page q n e.id e.id es a.1 in
      let past = le-last_id e.id n (after_keep q e.id es) (keep-Above q e.id e.id es a.1) in
      let out : (q e && ltb (last_id e.id (take n (after_keep q e.id es))) e.id) ≡ false =
        (ground (arith, past)) in
      subst (λ ys. after_keep q (last_id j (take (suc n) ys)) (e ∷ es) ≡ drop (suc n) ys) (sym page)
        (rw out rest)
  | inr miss ↦
      let rest = after-page q (suc n) j e.id es a.1 in
      let past = le-last_id j (suc n) (after_keep q j es) (keep-Above q j e.id es a.1) in
      let out : (q e && ltb (last_id j (take (suc n) (after_keep q j es))) e.id) ≡ false =
        (ground (arith, past, miss)) in
      let page : after_keep q j (e ∷ es) ≡ after_keep q j es = (rw miss refl) in
      subst (λ ys. after_keep q (last_id j (take (suc n) ys)) (e ∷ es) ≡ drop (suc n) ys) (sym page)
        (rw out rest)
]

log_from-Above :
    (pt : Patterns) (k n : ℕ) (rs : List LogRecord) → k < n → Above k (log_from pt n rs)
unfolding log_from
log_from-Above pt k n [] h = tt
log_from-Above pt k n (r ∷ rs) h = elim (Option-cases (event_of pt r)) [
  | inl e ↦ rw (log_from, e) (log_from-Above pt k n rs h)
  | inr (event, e) ↦ rw (log_from, e) (h, log_from-Above pt n (n + 1) rs (omega arith))
]

drop-Above : (n : ℕ) (es : List LogEvent) → Above 0 es → Above 0 (drop n es)
drop-Above zero es a = a
drop-Above (suc n) [] a = tt
drop-Above (suc n) (e ∷ es) a = drop-Above n es (Above-le 0 e.id es (omega arith) a.1)

more-left :
    (n : ℕ) (es : List LogEvent) → (ltb (length (take n es)) (length es) ≡ false) ↔ (drop n es ≡ [])
more-left zero [] = (λ h. refl, λ h. ground arith)
more-left zero (e ∷ es) = (λ h. ground arith, λ h. cc)
more-left (suc n) [] = (λ h. refl, λ h. ground arith)
more-left (suc n) (e ∷ es) =
    let (f, g) = more-left n es in
    (λ h. f (ground (arith, h)), λ h. let k = g h in ground (arith, k))

-- In the buffer after any records, a page that starts after an id, followed by what is eligible
-- after the page's `next_after_id`, is all that was eligible, in order: no event is skipped or
-- shown twice; and the page says `has_more` just when something is left.
pub page_then_rest :
    (pt : Patterns) (capacity : ℕ) (rs : List LogRecord) (limit threshold after : ℕ)
    {b : AdminLogBuffer}
    → init capacity ≡ ok b
    → let now = emits pt rs b in
      let page = snapshot_at limit threshold (some after) now in
      (page.events ++ eligible threshold (some page.next_after_id) now.events
        ≡ eligible threshold (some after) now.events)
      × ((page.has_more ≡ false) ↔ (eligible threshold (some page.next_after_id) now.events ≡ []))
unfolding snapshot_at eligible
page_then_rest pt capacity rs limit threshold after {b} e =
    let (same, _) = emits_retain pt capacity rs e in
    let es = (emits pt rs b).events in
    let log = log_from pt 1 rs in
    let above : Above 0 es =
      (rw same (drop-Above (length log - capacity) log (log_from-Above pt 0 1 rs (omega arith)))) in
    let found = after_keep (level_passes threshold) after es in
    let rest = after-page (level_passes threshold) limit after 0 es above in
    (
      ap (◌++◌ (take limit found)) rest ∙ take-append-drop limit found,
      rw rest (more-left limit found),
    )
