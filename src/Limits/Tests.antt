-- ===== src/Limits/Tests.antt =====
-- Runs of the limiters.
use querix_semantic_search.Prelude.{
  ℕ, ◌+◌, ◌-◌, ◌*◌, ◌≤◌, ◌<◌, ◌≡◌, ◌≢◌, ◌↔◌, refl, true, false, none, List, [], ◌∷◌, count, ok,
  Text, codes, text_eq, text_eq_iff, arith,
}
use querix_semantic_search.Limits.Window.{
  WindowLimiter, granted, refused, init, allow_memory, drop_expired, retry_after,
}
use querix_semantic_search.Limits.Window.Tracks.{in_window, Monotone}
use querix_semantic_search.Limits.Window.Budget.{run, run_budget, run_refusal}
use querix_semantic_search.Limits.Bucket
use querix_semantic_search.Limits.Bucket.{Bucket, TokenBudget, spend_memory, allow_tokens}
use querix_semantic_search.Limits.Bucket.Budget.{Calls, end_of, granted_to, granted_to_budget}
use querix_semantic_search.Limits.Bucket.Recovery.{allow_memory_recovers, allow_tokens_exact}

abbrev two_a_minute : WindowLimiter
two_a_minute = record { requests_per_window = 2; window_seconds = 60; requests = [] }

init_two : init 2 60 false none ≡ ok two_a_minute
unfolding init
init_two = refl

abbrev calls : List ℕ
calls = 10 ∷ 20 ∷ []

ascending : Monotone 0 calls
ascending = (omega arith, (omega arith, tt))

run_budget_example : count (in_window 60 30) (run calls two_a_minute).1 ≤ 2
run_budget_example = run_budget 2 60 false none calls 30 init_two ascending

third_refused : (allow_memory 30 (run calls two_a_minute).0).1 ≡ refused 40
unfolding run allow_memory drop_expired retry_after
third_refused = refl

run_refusal_example :
    (count (in_window 60 30) (run calls two_a_minute).1 ≡ 2)
    × (0 < 40)
    × ((allow_memory 70 (allow_memory 30 (run calls two_a_minute).0).0).1 ≡ granted)
run_refusal_example =
    run_refusal 2 60 false none calls 30 40 init_two ascending (omega arith) third_refused

abbrev policy : Text → ℕ × ℕ
policy scope = (6, 2)

abbrev k : Text
k = codes "a:k"

abbrev other : Text
other = codes "b:k"

abbrev bucket_calls : Calls
bucket_calls = (k, 100) ∷ (other, 101) ∷ (k, 102) ∷ (k, 103) ∷ []

granted_to_budget_example :
    granted_to 60 policy k bucket_calls [] * 60 ≤ 2 * 60 + (end_of 100 bucket_calls - 100) * 6
granted_to_budget_example =
    granted_to_budget 60 policy k 100 bucket_calls
      (omega arith, (omega arith, (omega arith, (omega arith, tt))))

two_scopes : other ≢ k
unfolding text_eq
two_scopes = λ e. let h = (text_eq_iff other k).1 e in cc

allow_memory_recovers_example :
    (Bucket.allow_memory 60 k 6 2 110 (Bucket.allow_memory 60 k 6 2 100 []).0).1 ≡ true
allow_memory_recovers_example =
    allow_memory_recovers 60 k 6 2 100 110 [] (omega arith) (omega arith)

abbrev budget : TokenBudget
budget = record { tokens_per_minute = 10; bucket = record { tokens = 60; updated_at = 100 } }

abbrev after : TokenBudget
after = record { tokens_per_minute = 10; bucket = record { tokens = 80; updated_at = 102 } }

overdrawn : allow_tokens 60 none 5 102 budget ≡ ok (after, Bucket.refused 220)
unfolding allow_tokens
overdrawn = refl

allow_tokens_exact_example :
    (0 < 220)
    × (after.bucket.tokens ≤ 10 * 60)
    × ((allow_tokens 60 none 5 124 after ≡ ok ((spend_memory 60 5 124 after).0, Bucket.granted))
        ↔ (220 ≤ (124 - 102) * 10))
allow_tokens_exact_example =
    allow_tokens_exact 60 5 102 124 220 budget (omega arith) (omega arith) overdrawn
