-- ===== src/Analytics/Ordering.antt =====
-- The ids of the spool ascend below the next one, whatever is inserted and deleted.
use querix_semantic_search.Prelude.{
  keep-append, keep_whole, keep-none, ℕ, suc, ◌≤◌, ◌<◌, ◌≡◌, refl, sym, ap, ◌∙◌, inl, inr, Bool,
  true, false, not, List, [], ◌∷◌, ◌++◌, arith, Bool-cases, take, drop, keep, any, All, All-map,
  All-keep, All-append, take-append-drop, text_eq, append-nil,
}
use mathlib.Core.Path.{subst}
use querix_semantic_search.Analytics.Spool.{
  SpoolRow, Spool, insert_or_ignore, insert_all, has_id, delete_batch,
}

-- Ids from `lo` on, each above the one before.
abbrev pub Ascending : ℕ → List SpoolRow → Type 0
Ascending lo [] = Unit
Ascending lo (r ∷ rs) = (lo ≤ r.id) × Ascending (suc r.id) rs

abbrev pub Below : ℕ → List SpoolRow → Type 0
Below n rs = All (λ r. r.id < n) rs

pub record IsSound (s : Spool) : Type 0 where
  pub starts : 1 ≤ s.next_id
  pub ascending : Ascending 1 s.rows
  pub below : Below s.next_id s.rows

pub Ascending-lower : (lo m : ℕ) (rs : List SpoolRow) → lo ≤ m → Ascending m rs → Ascending lo rs
Ascending-lower lo m [] h a = tt
Ascending-lower lo m (r ∷ rs) h a = (omega arith, a.1)

pub Ascending-keep :
    (p : SpoolRow → Bool) (lo : ℕ) (rs : List SpoolRow) → Ascending lo rs → Ascending lo (keep p rs)
Ascending-keep p lo [] a = tt
Ascending-keep p lo (r ∷ rs) a = elim (Bool-cases (p r)) [
  | inl hit ↦ rw hit (a.0, Ascending-keep p (suc r.id) rs a.1)
  | inr miss ↦ rw miss (Ascending-keep p lo rs (Ascending-lower lo (suc r.id) rs (omega arith) a.1))
]

Ascending-append :
    (lo n : ℕ) (rs : List SpoolRow) (row : SpoolRow)
    → lo ≤ n
    → row.id ≡ n
    → Ascending lo rs
    → Below n rs
    → Ascending lo (rs ++ row ∷ [])
Ascending-append lo n [] row h e a b = (omega arith, tt)
Ascending-append lo n (r ∷ rs) row h e a b =
    (a.0, Ascending-append (suc r.id) n rs row (omega arith) e a.1 b.1)

pub Ascending-from : (lo : ℕ) (rs : List SpoolRow) → Ascending lo rs → All (λ r. lo ≤ r.id) rs
Ascending-from lo [] a = tt
Ascending-from lo (r ∷ rs) a =
    (a.0, Ascending-from lo rs (Ascending-lower lo (suc r.id) rs (omega arith) a.1))

pub insert_or_ignore-IsSound :
    (row : SpoolRow) (s : Spool) → IsSound s → IsSound (insert_or_ignore row s)
unfolding insert_or_ignore
insert_or_ignore-IsSound row s v =
    elim (Bool-cases (any (λ r. text_eq r.request_id row.request_id) s.rows)) [
      | inl old ↦ rw old v
      | inr new ↦ rw new (record {
        starts = omega arith;
        ascending =
            Ascending-append 1 s.next_id s.rows (record row { id = s.next_id }) v.starts refl
              v.ascending v.below;
        below =
            All-append (λ r. r.id < suc s.next_id) s.rows _
              (All-map (λ r h. omega arith) s.rows v.below) (omega arith, tt);
      })
    ]

pub insert_all-IsSound :
    (arrivals : List SpoolRow) (s : Spool) → IsSound s → IsSound (insert_all arrivals s)
unfolding insert_all
insert_all-IsSound [] s v = v
insert_all-IsSound (row ∷ rows) s v =
    insert_all-IsSound rows (insert_or_ignore row s) (insert_or_ignore-IsSound row s v)

pub delete_batch-IsSound :
    (batch : List SpoolRow) (s : Spool)
    → IsSound s
    → IsSound (record s { rows = delete_batch batch s.rows })
unfolding delete_batch
delete_batch-IsSound batch s v = record {
  starts = v.starts;
  ascending = Ascending-keep _ 1 s.rows v.ascending;
  below = All-keep (λ r. r.id < s.next_id) _ s.rows v.below;
}

insert_or_ignore-next_id :
    (row : SpoolRow) (s : Spool) → s.next_id ≤ (insert_or_ignore row s).next_id
unfolding insert_or_ignore
insert_or_ignore-next_id row s = ground arith

pub insert_all-next_id :
    (arrivals : List SpoolRow) (s : Spool) → s.next_id ≤ (insert_all arrivals s).next_id
unfolding insert_all
insert_all-next_id [] s = omega arith
insert_all-next_id (row ∷ rows) s =
    omega (arith, insert_all-next_id rows (insert_or_ignore row s), insert_or_ignore-next_id row s)

-- A choice that takes no id from the next one on does not see the rows that are inserted.
module _ (p : SpoolRow → Bool) (bound : ℕ)
    (blind : (r : SpoolRow) → bound ≤ r.id → p r ≡ false) where
  insert_or_ignore-unseen :
      (row : SpoolRow) (s : Spool)
      → bound ≤ s.next_id
      → keep p (insert_or_ignore row s).rows ≡ keep p s.rows
  unfolding insert_or_ignore
  insert_or_ignore-unseen row s h =
      elim (Bool-cases (any (λ r. text_eq r.request_id row.request_id) s.rows)) [
        | inl old ↦ rw old refl
        | inr new ↦
            let added : SpoolRow = record row { id = s.next_id } in
            let miss = keep-none p (added ∷ []) (blind added h, tt) in
            rw new (
              keep-append p s.rows (added ∷ [])
              ∙ ap (◌++◌ (keep p s.rows)) miss
              ∙ append-nil (keep p s.rows))
      ]

  pub insert_all-unseen :
      (arrivals : List SpoolRow) (s : Spool)
      → bound ≤ s.next_id
      → keep p (insert_all arrivals s).rows ≡ keep p s.rows
  unfolding insert_all
  insert_all-unseen [] s h = refl
  insert_all-unseen (row ∷ rows) s h =
      insert_all-unseen rows (insert_or_ignore row s)
        (omega (arith, insert_or_ignore-next_id row s))
      ∙ insert_or_ignore-unseen row s h

-- The rows of an ascending list after a cut have no id from before it.
apart :
    (lo : ℕ) (xs ys : List SpoolRow)
    → Ascending lo (xs ++ ys)
    → All (λ y. has_id y.id xs ≡ false) ys
apart lo [] ys a = All-map (λ y h. refl) ys (Ascending-from lo ys a)
apart lo (x ∷ xs) ys a = both ys (above (suc x.id) xs ys a.1) (apart (suc x.id) xs ys a.1)
  where
    above : (m : ℕ) (us vs : List SpoolRow) → Ascending m (us ++ vs) → All (λ y. m ≤ y.id) vs
    above m [] vs b = Ascending-from m vs b
    above m (u ∷ us) vs b = All-map (λ y h. omega arith) vs (above (suc u.id) us vs b.1)

    both :
        (vs : List SpoolRow)
        → All (λ y. suc x.id ≤ y.id) vs
        → All (λ y. has_id y.id xs ≡ false) vs
        → All (λ y. has_id y.id (x ∷ xs) ≡ false) vs
    both [] h k = tt
    both (v ∷ vs) h k = (ground (arith, h.0, k.0), both vs h.1 k.1)

delete_batch-append :
    (batch xs ys : List SpoolRow)
    → delete_batch batch (xs ++ ys) ≡ delete_batch batch xs ++ delete_batch batch ys
unfolding delete_batch
delete_batch-append batch xs ys = keep-append _ xs ys

-- Deleting a batch from itself leaves nothing, also with more rows in the batch.
delete_batch-own :
    (done xs : List SpoolRow) → All (λ x. has_id x.id done ≡ true) xs → delete_batch done xs ≡ []
unfolding delete_batch
delete_batch-own done xs h = keep-none _ xs (All-map (λ x k. rw k refl) xs h)

own : (lo : ℕ) (xs : List SpoolRow) → All (λ x. has_id x.id xs ≡ true) xs
own lo [] = tt
own lo (x ∷ xs) = (ground arith, All-map (λ y h. ground arith) xs (own lo xs))

-- Deleting the first rows of an ascending list drops them.
pub delete_batch-take :
    (n lo : ℕ) (rows : List SpoolRow)
    → Ascending lo rows
    → delete_batch (take n rows) rows ≡ drop n rows
unfolding delete_batch
delete_batch-take n lo rows a =
    let first = take n rows in
    let rest = drop n rows in
    let cut = take-append-drop n rows in
    let split : Ascending lo (first ++ rest) = subst (Ascending lo) (sym cut) a in
    let gone = delete_batch-own first first (own lo first) in
    let stay =
      keep_whole (λ r. not (has_id r.id first)) rest
        (All-map (λ x k. rw k refl) rest (apart lo first rest split)) in
    ap (delete_batch first) (sym cut)
    ∙ delete_batch-append first first rest
    ∙ ap (λ l. l ++ delete_batch first rest) gone
    ∙ stay
