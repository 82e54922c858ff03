-- ===== src/Retrieval/TailPaging.antt =====
-- Reading the index page by page gives the products of one pass over its listing.
use querix_semantic_search.Prelude.{
  ℕ, zero, suc, ◌+◌, ◌-◌, ◌≤◌, ◌<◌, ◌≡◌, refl, sym, ap, ◌∙◌, inl, inr, Bool, true, false, Option,
  some, List, [], ◌∷◌, ◌++◌, map, arith, ltb, ◌==◌, Bool-cases, length, take, drop,
  take-append-drop, length-take-le, length-append, drop-drop, take-all, Text,
}
use querix_semantic_search.Retrieval.Products.{Value, member, type_in, expected_types}
use querix_semantic_search.Retrieval.Tail.{
  Filters, unfiltered, category_filters, is_empty, scan, tail_loop, page_size,
  related_tail_product_ids,
}

module _ (str : Value → Text) (type_of : Text → Option Text) (expected : List Text) where
  -- A pass over two lists is a pass over the first and then over the second.
  scan-append :
      (room : ℕ) (seen : List Text) (xs ys : List Value)
      → (scan str type_of expected room seen (xs ++ ys)).0
        ≡ (scan str type_of expected room seen xs).0
          ++ (scan str type_of expected
              (room - length (scan str type_of expected room seen xs).0)
              (scan str type_of expected room seen xs).1
              ys).0
  unfolding scan
  scan-append zero seen xs ys = refl
  scan-append (suc room) seen [] ys =
      let e : suc room - 0 ≡ suc room = omega arith in
      ap (λ k. (scan str type_of expected k seen ys).0) (sym e)
  scan-append (suc room) seen (v ∷ xs) ys = elim (Bool-cases (member (str v) seen)) [
    | inl old ↦ rw old (scan-append (suc room) seen xs ys)
    | inr new ↦ elim (Bool-cases (type_in expected (type_of (str v)))) [
      | inr other ↦ rw (new, other) (scan-append (suc room) (str v ∷ seen) xs ys)
      | inl fits ↦
          let rest = scan-append room (str v ∷ seen) xs ys in
          let e : suc room - suc (length (scan str type_of expected room (str v ∷ seen) xs).0)
              ≡ room - length (scan str type_of expected room (str v ∷ seen) xs).0 =
            omega arith in
          rw (new, fits, e) (ap (◌∷◌ v) rest)
    ]
  ]

  length-scan-le :
      (room : ℕ) (seen : List Text) (xs : List Value)
      → length (scan str type_of expected room seen xs).0 ≤ room
  unfolding scan
  length-scan-le zero seen xs = omega arith
  length-scan-le (suc room) seen [] = omega arith
  length-scan-le (suc room) seen (v ∷ xs) = ground (
    arith,
    length-scan-le (suc room) seen xs,
    length-scan-le (suc room) (str v ∷ seen) xs,
    length-scan-le room (str v ∷ seen) xs,
  )

  scan-none : (room : ℕ) (seen : List Text) → (scan str type_of expected room seen []).0 ≡ []
  unfolding scan
  scan-none zero seen = refl
  scan-none (suc room) seen = refl

  is_empty-eq : (xs : List Value) → is_empty xs ≡ true → xs ≡ []
  is_empty-eq [] h = refl
  is_empty-eq (x ∷ xs) h = cc

  full-page :
      (page : ℕ) (got left : List Value)
      → ltb (length got) page ≡ false
      → got ≡ take page left
      → length got ≡ page
  full-page page got left full e = ground (arith, length-take-le page left, ap length e)

  tail_loop-scan :
      (browse : ℕ → ℕ → List Value) (rows : List Value) (page fuel room : ℕ) (seen : List Text)
      (offset : ℕ)
      → ((n o : ℕ) → browse n o ≡ take n (drop o rows))
      → 0 < page
      → length (drop offset rows) < fuel
      → tail_loop str type_of expected browse page fuel room seen offset
        ≡ some (scan str type_of expected room seen (drop offset rows)).0
  unfolding tail_loop scan
  tail_loop-scan browse rows page zero room seen offset listing pos enough = absurd (omega arith)
  tail_loop-scan browse rows page (suc fuel) zero seen offset listing pos enough = refl
  tail_loop-scan browse rows page (suc fuel) (suc room) seen offset listing pos enough =
      let left = drop offset rows in
      let got = browse page offset in
      let e = listing page offset in
      elim (Bool-cases (is_empty got)) [
        | inl nothing ↦
            let got0 : take page left ≡ [] = (sym e ∙ is_empty-eq got nothing) in
            let gone : left ≡ [] = (sym (take-all page left (rw got0 pos)) ∙ got0) in
            rw (tail_loop, nothing)
              (ap some (sym (ap (λ xs. (scan str type_of expected (suc room) seen xs).0) gone)))
        | inr something ↦ elim (Bool-cases (ltb (length got) page)) [
          | inl short ↦
              let l : length (take page left) < page =
                (rw (sym (ap length e)) (ground (arith, short))) in
              let all : got ≡ left = (e ∙ take-all page left l) in
              rw (tail_loop, something, short)
                (ap (λ xs. some (scan str type_of expected (suc room) seen xs).0) all)
          | inr full ↦
              let step = scan str type_of expected (suc room) seen got in
              let next = offset + length got in
              let split : got ++ drop page left ≡ left =
                (ap (λ xs. xs ++ drop page left) e ∙ take-append-drop page left) in
              let size : length got + length (drop page left) ≡ length left =
                (sym (length-append got (drop page left)) ∙ ap length split) in
              let exact : length got ≡ page = (full-page page got left full e) in
              let onward : drop page left ≡ drop next rows =
                (drop-drop page offset rows ∙ ap (λ k. drop (offset + k) rows) (sym exact)) in
              let fewer : length (drop next rows) < fuel =
                (rw (sym (ap length onward)) (omega (arith, size, exact, pos, enough))) in
              let rest =
                tail_loop-scan browse rows page fuel (suc room - length step.0) step.1 next listing
                  pos fewer in
              let whole = scan-append (suc room) seen got (drop page left) in
              rw (tail_loop, something, full, rest)
                (ap some (
                  ap
                    (λ xs.
                      step.0 ++ (scan str type_of expected (suc room - length step.0) step.1 xs).0)
                    (sym onward)
                  ∙ sym whole
                  ∙ ap (λ xs. (scan str type_of expected (suc room) seen xs).0) split))
        ]
      ]

-- The size of a page is between 100 and 500.
page_size-pos : (limit : ℕ) → 0 < page_size limit
page_size-pos limit = ground arith

-- Where there is some filter, and the index lists the rows of the filters in one order and `browse` gives the page asked for,
-- fuel for one more page than there are rows is enough, and the tail is what one pass over all the
-- rows finds: the first `limit` products, each new and of an expected type.
pub related_tail_one_pass :
    (str : Value → Text) (type_of : Text → Option Text)
    (browse : List (Text × Value) → ℕ → ℕ → List Value) (rows : List Value) (fuel : ℕ)
    (filters : Filters) (inferred : List (Text × Value)) (wanted : Bool)
    (allowed : Option (List Text)) (exclude : List Value) (limit : ℕ)
    → ((n o : ℕ)
        → browse (category_filters filters.categorical inferred) n o ≡ take n (drop o rows))
    → length rows < fuel
    → unfiltered filters (category_filters filters.categorical inferred) ≡ false
    → related_tail_product_ids str type_of browse fuel filters inferred wanted allowed exclude limit
      ≡ some (scan str type_of (expected_types wanted allowed) limit (map str exclude) rows).0
unfolding related_tail_product_ids scan
related_tail_one_pass str type_of browse rows fuel filters inferred wanted allowed exclude zero
      listing enough filtered =
    refl
related_tail_one_pass str type_of browse rows fuel filters inferred wanted allowed exclude (suc n)
      listing enough filtered =
    let some_room : (suc n == 0) ≡ false = (ground arith) in
    rw (related_tail_product_ids, some_room, filtered)
      (tail_loop-scan str type_of (expected_types wanted allowed)
        (browse (category_filters filters.categorical inferred)) rows (page_size (suc n)) fuel
        (suc n) (map str exclude) 0 listing (page_size-pos (suc n)) enough)
