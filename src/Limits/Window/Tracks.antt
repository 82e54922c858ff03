-- ===== src/Limits/Window/Tracks.antt =====
-- The deque against the history of grants: an invariant of `allow`, and what a refusal means.
use querix_semantic_search.Prelude.{
  ℕ, ◌+◌, ◌≤◌, ◌<◌, ◌≡◌, refl, sym, ◌∙◌, ◌≢◌, inl, inr, Bool, ◌&&◌, List, [], ◌∷◌, ◌++◌, arith, ltb,
  leb, Bool-cases, length, count, All, count-append, count-le-length, All-append, All-map,
}
use querix_semantic_search.Limits.Window.{
  WindowLimiter, Outcome, granted, refused, index_error, drop_expired, retry_after, allow_memory,
}

-- `g` was granted in the window that ends at `t`: `t - window < g <= t`.
abbrev pub in_window : ℕ → ℕ → ℕ → Bool
in_window window t g = ltb t (g + window) && leb g t

-- The times granted so far, oldest first, after one more call.
abbrev pub noted : ℕ → Outcome → List ℕ → List ℕ
noted now granted h = h ++ now ∷ []
noted now _ h = h

-- The clock never goes back.
abbrev pub Monotone : ℕ → List ℕ → Type 0
Monotone last [] = Unit
Monotone last (now ∷ calls) = (last ≤ now) × Monotone now calls

-- The state against the times granted so far.
pub record Tracks (l : WindowLimiter) (last : ℕ) (h : List ℕ) : Type 0 where
  pub positive : 0 < l.requests_per_window
  pub bounded : (t : ℕ) → count (in_window l.window_seconds t) h ≤ l.requests_per_window
  pub ascending : Monotone 0 l.requests
  pub past : All (λ g. g ≤ last) l.requests
  pub same :
      (t : ℕ)
      → last ≤ t
      → count (in_window l.window_seconds t) h ≡ count (in_window l.window_seconds t) l.requests

module _ (now window : ℕ) where
  count-drop_expired :
      (t : ℕ) (rs : List ℕ)
      → now ≤ t
      → count (in_window window t) (drop_expired now window rs) ≡ count (in_window window t) rs
  unfolding drop_expired
  count-drop_expired t [] h = refl
  count-drop_expired t (r ∷ rs) h = ground (arith, count-drop_expired t rs)

  past-drop_expired :
      (rs : List ℕ) → All (λ g. g ≤ now) rs → All (λ g. g ≤ now) (drop_expired now window rs)
  unfolding drop_expired
  past-drop_expired [] h = tt
  past-drop_expired (r ∷ rs) h = elim (Bool-cases (leb (r + window) now)) [
    | inl old ↦ rw old (past-drop_expired rs h.1)
    | inr live ↦ rw live h
  ]

  ascending-drop_expired :
      (lo : ℕ) (rs : List ℕ) → Monotone lo rs → Monotone lo (drop_expired now window rs)
  unfolding drop_expired
  ascending-drop_expired lo [] h = tt
  ascending-drop_expired lo (r ∷ rs) h = elim (Bool-cases (leb (r + window) now)) [
    | inl old ↦ rw old (ascending-drop_expired lo rs (lower rs h.1))
    | inr live ↦ rw live h
  ]
    where
      lower : (l : List ℕ) → Monotone r l → Monotone lo l
      lower [] m = tt
      lower (x ∷ xs) m = (omega arith, m.1)

  -- From a live request on, all are live.
  count-live :
      (lo : ℕ) (rs : List ℕ)
      → now < lo + window
      → Monotone lo rs
      → All (λ g. g ≤ now) rs
      → count (in_window window now) rs ≡ length rs
  count-live lo [] live m h = refl
  count-live lo (r ∷ rs) live m h =
      let rest = count-live r rs (omega arith) m.1 h.1 in ground (arith, rest)

  -- What the loop leaves lies in the window that ends now.
  count-drop_expired_now :
      (lo : ℕ) (rs : List ℕ)
      → Monotone lo rs
      → All (λ g. g ≤ now) rs
      → count (in_window window now) (drop_expired now window rs)
        ≡ length (drop_expired now window rs)
  unfolding drop_expired
  count-drop_expired_now lo [] m h = refl
  count-drop_expired_now lo (r ∷ rs) m h = elim (Bool-cases (leb (r + window) now)) [
    | inl old ↦ rw old (count-drop_expired_now r rs m.1 h.1)
    | inr live ↦ rw live (count-live r (r ∷ rs) (ground arith) (omega arith, m.1) h)
  ]

Monotone-append :
    (lo now : ℕ) (rs : List ℕ)
    → lo ≤ now
    → Monotone lo rs
    → All (λ g. g ≤ now) rs
    → Monotone lo (rs ++ now ∷ [])
Monotone-append lo now [] le m h = (le, tt)
Monotone-append lo now (r ∷ rs) le m h = (m.0, Monotone-append r now rs h.0 m.1 h.1)

past_later : (a b : ℕ) → a ≤ b → (g : ℕ) → g ≤ a → g ≤ b
past_later a b h g k = omega arith

noted-retry_after : (now window : ℕ) (rs h : List ℕ) → noted now (retry_after now window rs) h ≡ h
unfolding retry_after
noted-retry_after now window [] h = refl
noted-retry_after now window (r ∷ rs) h = refl

length-drop_expired-le :
    (now window : ℕ) (rs : List ℕ) → length (drop_expired now window rs) ≤ length rs
unfolding drop_expired
length-drop_expired-le now window [] = omega arith
length-drop_expired-le now window (r ∷ rs) = ground (arith, length-drop_expired-le now window rs)

-- A refusal over a list whose requests are all live: its hint is positive, and frees a place.
retry_after-refused :
    (now window r : ℕ) (ks : List ℕ)
    → count (in_window window now) ks ≡ length ks
    → retry_after now window ks ≡ refused r
    → (0 < r) × (length (drop_expired (now + r) window ks) < length ks)
unfolding retry_after drop_expired
retry_after-refused now window r [] c e = cc
retry_after-refused now window r (oldest ∷ rest) c e = ground (
  arith,
  count-le-length (in_window window now) rest,
  length-drop_expired-le (now + r) window rest,
)

module _ (l : WindowLimiter) {last : ℕ} {h : List ℕ} (v : Tracks l last h) where
  module _ (now : ℕ) (le : last ≤ now) where
    kept : List ℕ
    kept = drop_expired now l.window_seconds l.requests

    kept_full : count (in_window l.window_seconds now) kept ≡ length kept
    unfolding kept
    kept_full =
        count-drop_expired_now now l.window_seconds 0 l.requests v.ascending
          (All-map (past_later last now le) l.requests v.past)

    kept_same :
        (t : ℕ)
        → now ≤ t
        → count (in_window l.window_seconds t) h ≡ count (in_window l.window_seconds t) kept
    unfolding kept
    kept_same t k =
        v.same t (omega arith) ∙ sym (count-drop_expired now l.window_seconds t l.requests k)

    kept_past : All (λ g. g ≤ now) kept
    unfolding kept
    kept_past =
        past-drop_expired now l.window_seconds l.requests
          (All-map (past_later last now le) l.requests v.past)

    kept_ascending : Monotone 0 kept
    unfolding kept
    kept_ascending = ascending-drop_expired now l.window_seconds 0 l.requests v.ascending

    Tracks-refused : Tracks (record l { requests = kept }) now h
    Tracks-refused = record {
      positive = v.positive;
      bounded = v.bounded;
      ascending = kept_ascending;
      past = kept_past;
      same = kept_same;
    }

    -- Before `now` nothing changes; from `now` on, the history counts as what the loop leaves.
    bounded_granted :
        length kept < l.requests_per_window
        → (t : ℕ) → count (in_window l.window_seconds t) (h ++ now ∷ []) ≤ l.requests_per_window
    bounded_granted room t =
        let p = in_window l.window_seconds t in
        ground
          (arith, count-append p h (now ∷ []), v.bounded t, kept_same t, count-le-length p kept)

    Tracks-granted :
        length kept < l.requests_per_window
        → Tracks (record l { requests = kept ++ now ∷ [] }) now (h ++ now ∷ [])
    Tracks-granted room = record {
      positive = v.positive;
      bounded = bounded_granted room;
      ascending = Monotone-append 0 now kept (omega arith) kept_ascending kept_past;
      past = All-append (λ g. g ≤ now) kept (now ∷ []) kept_past (omega arith);
      same = λ t k.
          let p = in_window l.window_seconds t in
          omega (arith, count-append p h (now ∷ []), count-append p kept (now ∷ []), kept_same t k);
    }

    -- A call keeps the state in step with the history.
    pub Tracks-allow_memory : Tracks (allow_memory now l).0 now (noted now (allow_memory now l).1 h)
    unfolding allow_memory kept
    Tracks-allow_memory = elim (Bool-cases (leb l.requests_per_window (length kept))) [
      | inl full ↦ rw (full, noted-retry_after) Tracks-refused
      | inr room ↦ rw room (Tracks-granted (ground arith))
    ]

    -- A refusal finds the budget spent, and its hint is honoured.
    pub allow_memory-refused :
        (r : ℕ)
        → (allow_memory now l).1 ≡ refused r
        → (count (in_window l.window_seconds now) h ≡ l.requests_per_window)
          × (0 < r)
          × ((allow_memory (now + r) (allow_memory now l).0).1 ≡ granted)
    unfolding allow_memory kept
    allow_memory-refused r e = elim (Bool-cases (leb l.requests_per_window (length kept))) [
      | inl full ↦
          let e' : retry_after now l.window_seconds kept ≡ refused r = (rw full at e) in
          ground (
            arith,
            retry_after-refused now l.window_seconds r kept kept_full e',
            v.bounded now,
            kept_same now,
            kept_full,
          )
      | inr room ↦ ground arith
    ]

    pub allow_memory-ne-index_error : (allow_memory now l).1 ≢ index_error
    unfolding allow_memory kept retry_after
    allow_memory-ne-index_error e = ground (arith, v.positive)
