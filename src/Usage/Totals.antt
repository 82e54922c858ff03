-- ===== src/Usage/Totals.antt =====
-- A summary adds up the calls that were recorded.
use querix_semantic_search.Prelude.{
  ℕ, ◌+◌, ◌≡◌, refl, ap, ◌∙◌, inl, inr, Bool, true, not, ◌&&◌, Option, List, [], ◌∷◌, if◌then◌else◌,
  arith, Bool-cases, Option-cases, keep, ok, err, Text, codes, text_eq, text_eq_iff, ℤ, pos, negsuc,
  non_negative, false, none, some,
}
use querix_semantic_search.Prelude.Sorting.{sorted, place}
use querix_semantic_search.Usage.Ledger.{
  Calendar, Key, UsageRow, Call, same_key, month_or_current, validate_month, upsert, row_of,
  record_call, is_of, listed_before, sum_by, is_search, Summary, summary_of, summary,
}

module _ {ℓ} {A : Type ℓ} (before : A → A → Bool) (f : A → ℕ) where
  sum_by-place : (x : A) (ys : List A) → sum_by f (place before x ys) ≡ f x + sum_by f ys
  unfolding place
  sum_by-place x [] = refl
  sum_by-place x (y ∷ ys) = ground (arith, sum_by-place x ys)

  sum_by-sorted : (xs : List A) → sum_by f (sorted before xs) ≡ sum_by f xs
  unfolding sorted
  sum_by-sorted [] = refl
  sum_by-sorted (x ∷ xs) = omega (arith, sum_by-place x (sorted before xs), sum_by-sorted xs)

-- The sum over the elements that pass a test.
abbrev pub sum_where {ℓ} : {A : Type ℓ} → (A → Bool) → (A → ℕ) → List A → ℕ
sum_where p f xs = sum_by (λ x. if p x then f x else 0) xs

sum_by-keep {ℓ} :
    {A : Type ℓ} (p : A → Bool) (f : A → ℕ) (xs : List A) → sum_by f (keep p xs) ≡ sum_where p f xs
sum_by-keep p f [] = refl
sum_by-keep p f (x ∷ xs) = ground (arith, sum_by-keep p f xs)

sum_where-keep {ℓ} :
    {A : Type ℓ} (p q : A → Bool) (f : A → ℕ) (xs : List A)
    → sum_where q f (keep p xs) ≡ sum_where (λ x. p x && q x) f xs
sum_where-keep p q f [] = refl
sum_where-keep p q f (x ∷ xs) = ground (arith, sum_where-keep p q f xs)

-- Equal keys are one key.
same_key-eq : (a b : Key) → same_key a b ≡ true → a ≡ b
unfolding same_key
same_key-eq a b h = ground (
  arith,
  (text_eq_iff a.month_utc b.month_utc).0,
  (text_eq_iff a.company_id b.company_id).0,
  (text_eq_iff a.provider b.provider).0,
  (text_eq_iff a.model b.model).0,
  (text_eq_iff a.operation b.operation).0,
  (text_eq_iff a.status b.status).0,
)

-- A counter of the rows, which an upsert adds to.
pub record IsCounter (f : UsageRow → ℕ) : Type 0 where
  pub adds :
      (r row : UsageRow)
      → f (record r {
        requests = r.requests + row.requests;
        input_tokens = r.input_tokens + row.input_tokens;
        output_tokens = r.output_tokens + row.output_tokens;
        total_tokens = r.total_tokens + row.total_tokens;
        updated_at = row.updated_at;
      })
        ≡ f r + f row

-- An upsert adds the row's counter to the sum of the rows that a test on keys chooses.
upsert-sum :
    (p : Key → Bool) (f : UsageRow → ℕ)
    → IsCounter f
    → (row : UsageRow) (rows : List UsageRow)
    → sum_where (λ r. p r.key) f (upsert row rows)
      ≡ (if p row.key then f row else 0) + sum_where (λ r. p r.key) f rows
unfolding upsert
upsert-sum p f c row [] = refl
upsert-sum p f c row (r ∷ rows) = elim (Bool-cases (same_key r.key row.key)) [
  | inr other ↦ rw other (omega (arith, upsert-sum p f c row rows))
  | inl same ↦
      let e : p r.key ≡ p row.key = ap p (same_key-eq r.key row.key same) in
      rw same (ground (arith, e, c.adds r row))
]

-- Calls one after the other; one with a bad month raises and leaves the table as it is.
unfoldable pub record_all : Calendar → List Call → List UsageRow → List UsageRow
unfolding record_call
record_all cal [] rows = rows
record_all cal (c ∷ calls) rows = elim (record_call cal c rows) [
  | err x ↦ record_all cal calls rows
  | ok next ↦ record_all cal calls next
]

-- A call that is counted for a company and a month: its company, its month in the normal form, and
-- its operation, which a test chooses.
abbrev pub counts_for : Calendar → Text → Text → (Text → Bool) → Call → Bool
counts_for cal company month q c = elim (cal.normal_month (month_or_current cal c.month_utc)) [
  | none ↦ false
  | some m ↦ (text_eq c.company_id company && text_eq m month) && q c.operation
]

-- `max(n, 0)`.
abbrev pub at_least_0 : ℤ → ℕ
at_least_0 (pos n) = n
at_least_0 (negsuc n) = 0

-- The calls that are counted, added up by one of their amounts.
abbrev pub recorded : Calendar → Text → Text → (Text → Bool) → (Call → ℤ) → List Call → ℕ
recorded cal company month q amount calls =
    sum_where (counts_for cal company month q) (λ c. at_least_0 (amount c)) calls

-- A counter of the rows that amounts an amount of the calls.
pub record IsCounterOf (f : UsageRow → ℕ) (amount : Call → ℤ) : Type 0 where
  pub counter : IsCounter f
  pub amounts : (month : Text) (c : Call) → f (row_of month c) ≡ at_least_0 (amount c)

abbrev of_operation : Text → Text → (Text → Bool) → Key → Bool
of_operation company month q k =
    (text_eq k.company_id company && text_eq k.month_utc month) && q k.operation

record_all-sum :
    (cal : Calendar) (company month : Text) (q : Text → Bool) (f : UsageRow → ℕ) (amount : Call → ℤ)
    → IsCounterOf f amount
    → (calls : List Call) (rows : List UsageRow)
    → sum_where (λ r. of_operation company month q r.key) f (record_all cal calls rows)
      ≡ recorded cal company month q amount calls
        + sum_where (λ r. of_operation company month q r.key) f rows
unfolding record_all record_call validate_month
record_all-sum cal company month q f amount k [] rows = omega arith
record_all-sum cal company month q f amount k (c ∷ calls) rows =
    elim (Option-cases (cal.normal_month (month_or_current cal c.month_utc))) [
      | inl bad ↦
          rw (counts_for, record_all, record_call, validate_month, bad)
            (omega (arith, record_all-sum cal company month q f amount k calls rows))
      | inr (m, good) ↦
          rw (counts_for, record_all, record_call, validate_month, good)
            (omega (
              arith,
              record_all-sum cal company month q f amount k calls (upsert (row_of m c) rows),
              upsert-sum (of_operation company month q) f k.counter (row_of m c) rows,
              ap (λ (n : ℕ). if of_operation company month q (row_of m c).key then n else 0)
                  (k.amounts m c),
            ))
    ]

abbrev pub any_operation : Text → Bool
any_operation o = true

abbrev pub searching : Text → Bool
searching o = text_eq o (codes "search")

abbrev pub not_searching : Text → Bool
not_searching o = not (text_eq o (codes "search"))

at_least_0-non_negative : (z : ℤ) → non_negative z ≡ at_least_0 z
at_least_0-non_negative (pos n) = refl
at_least_0-non_negative (negsuc n) = refl

requests-IsCounterOf : IsCounterOf (λ r. r.requests) (λ c. c.requests)
requests-IsCounterOf = record {
  counter = record { adds = λ r row. refl };
  amounts = λ month c. at_least_0-non_negative c.requests;
}

input_tokens-IsCounterOf : IsCounterOf (λ r. r.input_tokens) (λ c. c.input_tokens)
input_tokens-IsCounterOf = record {
  counter = record { adds = λ r row. refl };
  amounts = λ month c. at_least_0-non_negative c.input_tokens;
}

output_tokens-IsCounterOf : IsCounterOf (λ r. r.output_tokens) (λ c. c.output_tokens)
output_tokens-IsCounterOf = record {
  counter = record { adds = λ r row. refl };
  amounts = λ month c. at_least_0-non_negative c.output_tokens;
}

total_tokens-IsCounterOf : IsCounterOf (λ r. r.total_tokens) (λ c. c.total_tokens)
total_tokens-IsCounterOf = record {
  counter = record { adds = λ r row. refl };
  amounts = λ month c. at_least_0-non_negative c.total_tokens;
}

module _ (cal : Calendar) (company month : Text) (calls : List Call) where
  ledger : List UsageRow
  ledger = record_all cal calls []

  abbrev breakdown : List UsageRow
  breakdown = sorted listed_before (keep (is_of company month) ledger)

  total-recorded :
      (f : UsageRow → ℕ) (amount : Call → ℤ)
      → IsCounterOf f amount
      → sum_by f breakdown ≡ recorded cal company month any_operation amount calls
  unfolding ledger
  total-recorded f amount k = omega (
    arith,
    sum_by-sorted listed_before f (keep (is_of company month) ledger),
    sum_by-keep (is_of company month) f ledger,
    always (is_of company month) f ledger,
    record_all-sum cal company month any_operation f amount k calls [],
  )
    where
      always :
          (p : UsageRow → Bool) (g : UsageRow → ℕ) (rows : List UsageRow)
          → sum_where (λ r. p r && true) g rows ≡ sum_where p g rows
      always p g [] = refl
      always p g (r ∷ rows) = ground (arith, always p g rows)

  part-recorded :
      (q : Text → Bool) (f : UsageRow → ℕ) (amount : Call → ℤ)
      → IsCounterOf f amount
      → sum_by f (keep (λ r. q r.key.operation) breakdown)
        ≡ recorded cal company month q amount calls
  unfolding ledger
  part-recorded q f amount k =
      sum_by-keep (λ r. q r.key.operation) f breakdown
      ∙ sum_by-sorted listed_before (λ r. if q r.key.operation then f r else 0)
          (keep (is_of company month) ledger)
      ∙ sum_where-keep (is_of company month) (λ r. q r.key.operation) f ledger
      ∙ record_all-sum cal company month q f amount k calls []
      ∙ omega arith

  -- After any calls of `record` on an empty ledger, the summary of a company for a month has the
  -- sums over just the calls with that company and that month, in its normal form, whatever their
  -- provider, model and status and in whatever order they came; a negative amount counts as 0, a
  -- call with a bad month counts nowhere, the searches are the requests of the calls whose
  -- operation is `search`, and the model requests those of the other calls.
  pub summary_totals :
      (month_utc : Option Text)
      → validate_month cal (month_or_current cal month_utc) ≡ ok month
      → (s : Summary) × (summary cal company month_utc (record_all cal calls []) ≡ ok s)
        × (s.requests ≡ recorded cal company month any_operation (λ c. c.requests) calls)
        × (s.searches ≡ recorded cal company month searching (λ c. c.requests) calls)
        × (s.model_requests ≡ recorded cal company month not_searching (λ c. c.requests) calls)
        × (s.input_tokens ≡ recorded cal company month any_operation (λ c. c.input_tokens) calls)
        × (s.output_tokens ≡ recorded cal company month any_operation (λ c. c.output_tokens) calls)
        × (s.total_tokens ≡ recorded cal company month any_operation (λ c. c.total_tokens) calls)
        × (s.requests ≡ s.searches + s.model_requests)
  unfolding summary ledger
  summary_totals month_utc valid = (
    summary_of company month breakdown,
    rw (summary, valid) refl,
    total-recorded (λ r. r.requests) (λ c. c.requests) requests-IsCounterOf,
    part-recorded searching (λ r. r.requests) (λ c. c.requests) requests-IsCounterOf,
    part-recorded not_searching (λ r. r.requests) (λ c. c.requests) requests-IsCounterOf,
    total-recorded (λ r. r.input_tokens) (λ c. c.input_tokens) input_tokens-IsCounterOf,
    total-recorded (λ r. r.output_tokens) (λ c. c.output_tokens) output_tokens-IsCounterOf,
    total-recorded (λ r. r.total_tokens) (λ c. c.total_tokens) total_tokens-IsCounterOf,
    parts is_search breakdown,
  )
    where
      parts :
          (p : UsageRow → Bool) (rows : List UsageRow)
          → sum_by (λ r. r.requests) rows
            ≡ sum_by (λ r. r.requests) (keep p rows)
              + sum_by (λ r. r.requests) (keep (λ r. not (p r)) rows)
      parts p [] = refl
      parts p (r ∷ rows) = ground (arith, parts p rows)
