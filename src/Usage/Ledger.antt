-- ===== src/Usage/Ledger.antt =====
-- `MonthlyUsageStore` of src/storage/usage.py: the table, `record` and `summary`.
use querix_semantic_search.Prelude.{
  ℕ, ◌+◌, Bool, true, false, not, ◌&&◌, Option, none, some, List, [], ◌∷◌, if◌then◌else◌, ltb, ◌==◌,
  keep, Result, ok, err, Text, codes, text_eq, ℤ, non_negative,
}
use querix_semantic_search.Prelude.Sorting.{sorted}

-- `strptime` and then `strftime` by "%Y-%m", if the text parses; and `current_month_utc`.
pub record Calendar : Type 0 where
  pub normal_month : Text → Option Text
  pub current_month : Text

-- The primary key of a row.
pub record Key : Type 0 where
  pub month_utc : Text
  pub company_id : Text
  pub provider : Text
  pub model : Text
  pub operation : Text
  pub status : Text

pub record UsageRow : Type 0 where
  pub key : Key
  pub requests : ℕ
  pub input_tokens : ℕ
  pub output_tokens : ℕ
  pub total_tokens : ℕ
  pub updated_at : ℕ

-- The arguments of one call of `record`, with the time that it reads.
pub record Call : Type 0 where
  pub company_id : Text
  pub provider : Text
  pub model : Text
  pub operation : Text
  pub status : Text
  pub requests : ℤ
  pub input_tokens : ℤ
  pub output_tokens : ℤ
  pub total_tokens : ℤ
  pub month_utc : Option Text
  pub now : ℕ

pub data UsageError : Type 0 where
  bad_month : UsageError

unfoldable pub same_key : Key → Key → Bool
same_key a b =
    text_eq a.month_utc b.month_utc
    && (text_eq a.company_id b.company_id
        && (text_eq a.provider b.provider
            && (text_eq a.model b.model
                && (text_eq a.operation b.operation && text_eq a.status b.status))))

-- `month_utc or current_month_utc()`: an empty text counts as none.
abbrev pub month_or_current : Calendar → Option Text → Text
month_or_current cal none = cal.current_month
month_or_current cal (some []) = cal.current_month
month_or_current cal (some (c ∷ s)) = c ∷ s

-- `validate_month`.
unfoldable pub validate_month : Calendar → Text → Result UsageError Text
validate_month cal value = elim (cal.normal_month value) [ none ↦ err bad_month | some m ↦ ok m ]

-- INSERT … ON CONFLICT DO UPDATE: the counters of the row are added to.
unfoldable pub upsert : UsageRow → List UsageRow → List UsageRow
unfolding same_key
upsert row [] = row ∷ []
upsert row (r ∷ rows) =
    if same_key r.key row.key
    then (record r {
      requests = r.requests + row.requests;
      input_tokens = r.input_tokens + row.input_tokens;
      output_tokens = r.output_tokens + row.output_tokens;
      total_tokens = r.total_tokens + row.total_tokens;
      updated_at = row.updated_at;
    })
      ∷ rows
    else r ∷ upsert row rows

abbrev pub row_of : Text → Call → UsageRow
row_of month c = record {
  key = record {
    month_utc = month;
    company_id = c.company_id;
    provider = c.provider;
    model = c.model;
    operation = c.operation;
    status = c.status;
  };
  requests = non_negative c.requests;
  input_tokens = non_negative c.input_tokens;
  output_tokens = non_negative c.output_tokens;
  total_tokens = non_negative c.total_tokens;
  updated_at = c.now;
}

-- `record`.
unfoldable pub record_call : Calendar → Call → List UsageRow → Result UsageError (List UsageRow)
unfolding validate_month upsert
record_call cal c rows = elim (validate_month cal (month_or_current cal c.month_utc)) [
  | err x ↦ err x
  | ok month ↦ ok (upsert (row_of month c) rows)
]

-- WHERE company_id = ? AND month_utc = ?.
abbrev pub is_of : Text → Text → UsageRow → Bool
is_of company month r = text_eq r.key.company_id company && text_eq r.key.month_utc month

-- The order of two texts by their code points.
unfoldable pub text_below : Text → Text → Bool
text_below s [] = false
text_below [] (b ∷ t) = true
text_below (a ∷ s) (b ∷ t) = if ltb a b then true else if a == b then text_below s t else false

-- ORDER BY provider, model, operation, status.
unfoldable pub listed_before : UsageRow → UsageRow → Bool
unfolding text_below
listed_before a b =
    if text_below a.key.provider b.key.provider
    then true
    else if not (text_eq a.key.provider b.key.provider)
    then false
    else if text_below a.key.model b.key.model
    then true
    else if not (text_eq a.key.model b.key.model)
    then false
    else if text_below a.key.operation b.key.operation
    then true
    else if not (text_eq a.key.operation b.key.operation)
    then false
    else text_below a.key.status b.key.status

abbrev pub sum_by {ℓ} : {A : Type ℓ} → (A → ℕ) → List A → ℕ
sum_by f [] = 0
sum_by f (x ∷ xs) = f x + sum_by f xs

abbrev pub is_search : UsageRow → Bool
is_search r = text_eq r.key.operation (codes "search")

pub record Summary : Type 0 where
  pub company_id : Text
  pub month_utc : Text
  pub requests : ℕ
  pub searches : ℕ
  pub model_requests : ℕ
  pub input_tokens : ℕ
  pub output_tokens : ℕ
  pub total_tokens : ℕ
  pub breakdown : List UsageRow

abbrev pub summary_of : Text → Text → List UsageRow → Summary
summary_of company month rows = record {
  company_id = company;
  month_utc = month;
  requests = sum_by (λ r. r.requests) rows;
  searches = sum_by (λ r. r.requests) (keep is_search rows);
  model_requests = sum_by (λ r. r.requests) (keep (λ r. not (is_search r)) rows);
  input_tokens = sum_by (λ r. r.input_tokens) rows;
  output_tokens = sum_by (λ r. r.output_tokens) rows;
  total_tokens = sum_by (λ r. r.total_tokens) rows;
  breakdown = rows;
}

-- `summary`.
unfoldable pub summary : Calendar → Text → Option Text → List UsageRow → Result UsageError Summary
unfolding validate_month sorted listed_before
summary cal company month_utc rows = elim (validate_month cal (month_or_current cal month_utc)) [
  | err x ↦ err x
  | ok month ↦
      ok (summary_of company month (sorted listed_before (keep (is_of company month) rows)))
]
