-- ===== src/Usage/Tests.antt =====
-- A run of the ledger, and its theorem at it.
use querix_semantic_search.Prelude.{
  ◌+◌, ◌≡◌, refl, none, some, List, [], ◌∷◌, ok, Text, codes, text_eq, pos, negsuc, ℤ, ℕ, Bool,
}
use querix_semantic_search.Usage.Ledger.{
  Calendar, Call, Summary, summary, validate_month, month_or_current,
}
use querix_semantic_search.Usage.Totals.{
  record_all, recorded, any_operation, searching, not_searching, summary_totals,
}

-- Every text is a month in its normal form.
abbrev calendar : Calendar
calendar = record { normal_month = λ t. some t; current_month = codes "m" }

abbrev call : Text → Call
call operation = record {
  company_id = codes "a";
  provider = [];
  model = [];
  operation = operation;
  status = [];
  requests = pos 1;
  input_tokens = pos 7;
  output_tokens = negsuc 2;
  total_tokens = pos 7;
  month_utc = none;
  now = 0;
}

abbrev calls : List Call
calls = call (codes "search") ∷ call (codes "embed") ∷ call (codes "search") ∷ []

two_searches : recorded calendar (codes "a") (codes "m") searching (λ c. c.requests) calls ≡ 2
unfolding text_eq
two_searches = refl

this_month : validate_month calendar (month_or_current calendar none) ≡ ok (codes "m")
unfolding validate_month
this_month = refl

abbrev counted : (Text → Bool) → (Call → ℤ) → ℕ
counted q amount = recorded calendar (codes "a") (codes "m") q amount calls

summary_totals_example :
    (s : Summary) × (summary calendar (codes "a") none (record_all calendar calls []) ≡ ok s)
    × (s.requests ≡ counted any_operation (λ c. c.requests))
    × (s.searches ≡ counted searching (λ c. c.requests))
    × (s.model_requests ≡ counted not_searching (λ c. c.requests))
    × (s.input_tokens ≡ counted any_operation (λ c. c.input_tokens))
    × (s.output_tokens ≡ counted any_operation (λ c. c.output_tokens))
    × (s.total_tokens ≡ counted any_operation (λ c. c.total_tokens))
    × (s.requests ≡ s.searches + s.model_requests)
summary_totals_example = summary_totals calendar (codes "a") (codes "m") calls none this_month
