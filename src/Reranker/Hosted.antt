-- ===== src/Reranker/Hosted.antt =====
-- `HostedReranker` of src/search/reranker.py. A score is whatever the provider's numbers are read
-- as; the HTTP request is a parameter. Times are those of the limiters.
use querix_semantic_search.Prelude.{
  ℕ, zero, suc, ◌+◌, ◌-◌, Bool, true, not, ◌&&◌, Option, none, some, List, [], ◌∷◌, ltb, ◌==◌,
  if◌then◌else◌, max, length, take, Result, ok, err, ◌>>=◌, Text, text_eq,
}
use querix_semantic_search.Limits.Window.{
  WindowLimiter, Outcome, granted, refused, index_error, allow,
}

pub data ScoreError : Type 0 where
  cooldown_active budget_exhausted : ℕ → ScoreError
  unavailable : Option ℕ → ScoreError
  one_query_required limiter_failed invalid_json no_result_list invalid_result : ScoreError
  not_every_document no_provider : ScoreError

-- A result of the payload: its index, if not negative, and its score.
pub record Entry (S : Type 0) : Type 0 where
  pub index : Option ℕ
  pub score : S

-- What the request gives: a payload with its tokens and its list of results, if it has one, in
-- which `none` is a result that cannot be read; an HTTP status with the `Retry-After` header, if it
-- is a number; a timeout or no connection; another `RequestException`; or a `ValueError`.
pub data Reply (S : Type 0) : Type 0 where
  replied : ℕ → Option (List (Option (Entry S))) → Reply S
  http_error : ℕ → Option ℕ → Reply S
  no_connection request_failed bad_json : Reply S

pub record HostedReranker : Type 0 where
  pub max_document_chars : ℕ
  pub request_limiters : List WindowLimiter
  pub unavailable_until : ℕ
  pub last_tokens : Option ℕ
  pub rate_limit_cooldown : ℕ
  pub failure_cooldown : ℕ

-- The readings of the clock: at the cooldown check, at each limiter, with what its coordinator
-- answers, and after a failure.
pub record Readings : Type 0 where
  pub checked : ℕ
  pub limits : ℕ → Option (Option Outcome) × ℕ
  pub failed : ℕ

-- `_cooldown_retry_after`.
unfoldable pub cooldown_retry_after : ℕ → HostedReranker → ℕ
cooldown_retry_after now h = h.unavailable_until - now

-- `_set_cooldown`.
unfoldable pub set_cooldown : ℕ → ℕ → HostedReranker → HostedReranker
set_cooldown now seconds h =
    if seconds == 0
    then h
    else record h { unavailable_until = max h.unavailable_until (now + seconds) }

-- `_retry_after_seconds(response) or RERANK_RATE_LIMIT_COOLDOWN_SECONDS`.
abbrev pub retry_or : ℕ → Option ℕ → ℕ
retry_or d none = d
retry_or d (some n) = if n == 0 then d else n

-- The loop over the limiters; one that refuses ends it, and the earlier ones keep their grant.
unfoldable pub allow_all :
    (ℕ → Option (Option Outcome) × ℕ)
    → ℕ
    → List WindowLimiter
    → List WindowLimiter × Option ScoreError
unfolding allow
allow_all reading i [] = ([], none)
allow_all reading i (l ∷ ls) =
    let rest = allow_all reading (suc i) ls in
    let step = allow (reading i).0 (reading i).1 l in
    elim step.1 [
      | granted ↦ (step.0 ∷ rest.0, rest.1)
      | refused after ↦ (step.0 ∷ ls, some (budget_exhausted after))
      | index_error ↦ (step.0 ∷ ls, some limiter_failed)
    ]

abbrev pub one_query : Text → List (Text × Text) → Bool
one_query query [] = true
one_query query ((q, d) ∷ pairs) = text_eq q query && one_query query pairs

abbrev pub documents : ℕ → List (Text × Text) → List Text
documents n [] = []
documents n ((q, d) ∷ pairs) = take n d ∷ documents n pairs

module _ {S : Type 0} where
  unfoldable pub no_scores : ℕ → List (Option S)
  no_scores zero = []
  no_scores (suc n) = none ∷ no_scores n

  -- `if 0 <= index < len(scores): scores[index] = score`.
  unfoldable pub set_at : ℕ → S → List (Option S) → List (Option S)
  set_at k s [] = []
  set_at zero s (x ∷ xs) = some s ∷ xs
  set_at (suc k) s (x ∷ xs) = x ∷ set_at k s xs

  unfoldable pub fill :
      List (Option (Entry S)) → List (Option S) → Result ScoreError (List (Option S))
  unfolding set_at
  fill [] scores = ok scores
  fill (none ∷ results) scores = err invalid_result
  fill (some e ∷ results) scores =
      fill results (elim e.index [ none ↦ scores | some k ↦ set_at k e.score scores ])

  unfoldable pub all_scores : List (Option S) → Result ScoreError (List S)
  all_scores [] = ok []
  all_scores (none ∷ xs) = err not_every_document
  all_scores (some s ∷ xs) = all_scores xs >>= λ ss. ok (s ∷ ss)

  -- The scores of the `n` documents from the list of results.
  unfoldable pub scores_of : ℕ → Option (List (Option (Entry S))) → Result ScoreError (List S)
  unfolding no_scores fill all_scores
  scores_of n none = err no_result_list
  scores_of n (some results) = fill results (no_scores n) >>= all_scores

  unfoldable pub read_reply :
      ℕ → ℕ → Reply S → HostedReranker → HostedReranker × Result ScoreError (List S)
  unfolding set_cooldown scores_of
  read_reply now n (replied tokens results) h =
      (record h { last_tokens = some tokens }, scores_of n results)
  read_reply now n (http_error status retry) h = (
    set_cooldown now
        (if status == 429 then retry_or h.rate_limit_cooldown retry else h.failure_cooldown) h,
    err (unavailable (some status)),
  )
  read_reply now n no_connection h = (set_cooldown now h.failure_cooldown h, err (unavailable none))
  read_reply now n request_failed h = (h, err (unavailable none))
  read_reply now n bad_json h = (h, err invalid_json)

  -- The request, once the limiters have answered.
  unfoldable pub request :
      ℕ
      → (Text → List Text → Reply S)
      → Text
      → List (Text × Text)
      → HostedReranker
      → Option ScoreError
      → HostedReranker × Result ScoreError (List S)
  unfolding read_reply
  request now post query pairs h (some e) = (h, err e)
  request now post query pairs h none =
      read_reply now (length pairs) (post query (documents h.max_document_chars pairs)) h

  unfoldable pub compute_score :
      Readings
      → (Text → List Text → Reply S)
      → List (Text × Text)
      → HostedReranker
      → HostedReranker × Result ScoreError (List S)
  unfolding cooldown_retry_after allow_all request
  compute_score r post [] h = (record h { last_tokens = none }, ok [])
  compute_score r post ((query, d) ∷ pairs) h =
      let h1 = record h { last_tokens = none } in
      let wait = cooldown_retry_after r.checked h1 in
      if ltb 0 wait
      then (h1, err (cooldown_active wait))
      else if not (one_query query pairs)
      then (h1, err one_query_required)
      else let limits = allow_all r.limits 0 h1.request_limiters in
        request r.failed post query ((query, d) ∷ pairs) (record h1 { request_limiters = limits.0 })
          limits.1
