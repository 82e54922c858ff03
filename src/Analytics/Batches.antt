-- ===== src/Analytics/Batches.antt =====
-- A batch of the spool: what its deletion takes, what it leaves, and how it is counted.
use mathlib.Core.Path.{subst}
use querix_semantic_search.Prelude.{
  keep-keep_comm, keep-none, keep-same_on, count-eq-length, keep-not, All-take, keep-passes, ℕ,
  zero, suc, ◌≤◌, ◌≡◌, refl, sym, ap, ◌∙◌, inl, inr, Bool, true, false, not, List, [], ◌∷◌, arith,
  ◌==◌, Bool-cases, length, take, drop, keep, count, All, All-map, All-keep, Text,
}
use querix_semantic_search.Analytics.Spool.{SpoolRow, has_id, delete_batch, in_snapshot}
use querix_semantic_search.Analytics.Ordering.{
  Ascending, Ascending-from, Ascending-keep, delete_batch-take,
}

-- An id below all others is not among them.
has_id-below : (i : ℕ) (xs : List SpoolRow) → All (λ x. suc i ≤ x.id) xs → has_id i xs ≡ false
has_id-below i [] h = refl
has_id-below i (x ∷ xs) h = ground (arith, h.0, has_id-below i xs h.1)

keep-nothing : (rows : List SpoolRow) → keep (λ r. has_id r.id []) rows ≡ []
keep-nothing [] = refl
keep-nothing (r ∷ rows) = keep-nothing rows

-- The rows with an id of the batch are the rows of the batch.
keep-batch :
    (p : SpoolRow → Bool) (n lo : ℕ) (rows : List SpoolRow)
    → Ascending lo rows
    → keep (λ r. has_id r.id (take n (keep p rows))) rows ≡ take n (keep p rows)
keep-batch p zero lo rows a = keep-nothing rows
keep-batch p (suc n) lo [] a = refl
keep-batch p (suc n) lo (r ∷ rows) a = elim (Bool-cases (p r)) [
  | inl hit ↦
      let kept : keep p (r ∷ rows) ≡ r ∷ keep p rows = (rw hit refl) in
      let batch = take n (keep p rows) in
      let self : (r.id == r.id) ≡ true = ground arith in
      let same =
        keep-same_on (λ x. has_id x.id (r ∷ batch)) (λ x. has_id x.id batch) rows
          (All-map (λ x h. ground arith) rows (Ascending-from (suc r.id) rows a.1)) in
      subst OwnBatch (sym kept) (rw self (ap (◌∷◌ r) (same ∙ keep-batch p n (suc r.id) rows a.1)))
  | inr miss ↦
      let kept : keep p (r ∷ rows) ≡ keep p rows = (rw miss refl) in
      let batch = take (suc n) (keep p rows) in
      let above =
        All-take (λ x. suc r.id ≤ x.id) (suc n) (keep p rows)
          (All-keep (λ x. suc r.id ≤ x.id) p rows (Ascending-from (suc r.id) rows a.1)) in
      subst OwnBatch (sym kept)
        (rw (has_id-below r.id batch above) (keep-batch p (suc n) (suc r.id) rows a.1))
]
  where
    OwnBatch : List SpoolRow → Type 0
    OwnBatch kept = keep (λ x. has_id x.id (take (suc n) kept)) (r ∷ rows) ≡ take (suc n) kept

module _ (company : Text) (cutoff n : ℕ) (rows : List SpoolRow) (a : Ascending 1 rows) where
  abbrev batch : List SpoolRow
  batch = take n (keep (in_snapshot company cutoff) rows)

  -- As many rows are deleted as the batch has.
  pub count-batch : count (λ r. has_id r.id batch) rows ≡ length batch
  count-batch =
      count-eq-length (λ r. has_id r.id batch) rows
      ∙ ap length (keep-batch (in_snapshot company cutoff) n 1 rows a)

  -- The deletion takes the first rows of the snapshot.
  pub delete_batch-snapshot :
      keep (in_snapshot company cutoff) (delete_batch batch rows)
      ≡ drop n (keep (in_snapshot company cutoff) rows)
  unfolding delete_batch
  delete_batch-snapshot =
      keep-keep_comm (in_snapshot company cutoff) (λ r. not (has_id r.id batch)) rows
      ∙ delete_batch-take n 1 (keep (in_snapshot company cutoff) rows)
          (Ascending-keep (in_snapshot company cutoff) 1 rows a)

  -- The deletion takes no row from outside of the snapshot.
  pub delete_batch-others :
      (q : SpoolRow → Bool)
      → ((r : SpoolRow) → in_snapshot company cutoff r ≡ true → q r ≡ false)
      → keep q (delete_batch batch rows) ≡ keep q rows
  unfolding delete_batch
  delete_batch-others q outside =
      let inside =
        All-take (λ r. in_snapshot company cutoff r ≡ true) n
          (keep (in_snapshot company cutoff) rows)
          (keep-passes (in_snapshot company cutoff) rows) in
      let missed : keep q batch ≡ [] =
        keep-none q batch (All-map (λ r h. outside r h) batch inside) in
      let whole = keep-batch (in_snapshot company cutoff) n 1 rows a in
      let none_of : keep (λ r. has_id r.id batch) (keep q rows) ≡ [] =
        keep-keep_comm (λ r. has_id r.id batch) q rows ∙ ap (keep q) whole ∙ missed in
      keep-keep_comm q (λ r. not (has_id r.id batch)) rows
      ∙ keep-not (λ r. has_id r.id batch) (keep q rows) none_of
