-- ===== src/Reranker/Cooldown.antt =====
-- The cooldown of a provider that refused.
use querix_semantic_search.Prelude.{
  ℕ, ◌+◌, ◌-◌, ◌<◌, ◌≤◌, ◌≡◌, refl, inl, inr, true, false, Option, none, some, List, [], ◌∷◌, arith,
  ltb, ◌==◌, if◌then◌else◌, Bool-cases, length, err, Text,
}
use querix_semantic_search.Reranker.Hosted.{
  ScoreError, cooldown_active, Reply, replied, http_error, no_connection, request_failed, bad_json,
  HostedReranker, Readings, read_reply, one_query, documents, request, compute_score, allow_all,
  cooldown_retry_after, set_cooldown, retry_or,
}

le-set_cooldown :
    (now seconds : ℕ) (h : HostedReranker)
    → h.unavailable_until ≤ (set_cooldown now seconds h).unavailable_until
unfolding set_cooldown
le-set_cooldown now seconds h = ground arith

module _ {S : Type 0} where
  le-read_reply :
      (now n : ℕ) (reply : Reply S) (h : HostedReranker)
      → h.unavailable_until ≤ (read_reply now n reply h).0.unavailable_until
  unfolding read_reply
  le-read_reply now n (replied tokens results) h = omega arith
  le-read_reply now n (http_error status retry) h =
      le-set_cooldown now
        (if status == 429 then retry_or h.rate_limit_cooldown retry else h.failure_cooldown) h
  le-read_reply now n no_connection h = le-set_cooldown now h.failure_cooldown h
  le-read_reply now n request_failed h = omega arith
  le-read_reply now n bad_json h = omega arith

  le-request :
      (now : ℕ) (post : Text → List Text → Reply S) (query : Text) (pairs : List (Text × Text))
      (h : HostedReranker) (o : Option ScoreError)
      → h.unavailable_until ≤ (request now post query pairs h o).0.unavailable_until
  unfolding request
  le-request now post query pairs h (some e) = omega arith
  le-request now post query pairs h none =
      le-read_reply now (length pairs) (post query (documents h.max_document_chars pairs)) h

  -- No call, whatever it is answered, shortens a cooldown.
  pub cooldown_never_shortened :
      (r : Readings) (post : Text → List Text → Reply S) (pairs : List (Text × Text))
      (h : HostedReranker)
      → h.unavailable_until ≤ (compute_score r post pairs h).0.unavailable_until
  unfolding compute_score
  cooldown_never_shortened r post [] h = omega arith
  cooldown_never_shortened r post ((query, d) ∷ pairs) h =
      elim (Bool-cases (ltb 0 (cooldown_retry_after r.checked (record h { last_tokens = none })))) [
        | inl cold ↦ rw (compute_score, cold) (omega arith)
        | inr warm ↦ elim (Bool-cases (one_query query pairs)) [
          | inr many ↦ rw (compute_score, warm, many) (omega arith)
          | inl one ↦
              rw (compute_score, warm, one)
                (le-request r.failed post query ((query, d) ∷ pairs)
                  (record h {
                    last_tokens = none;
                    request_limiters = (allow_all r.limits 0 h.request_limiters).0;
                  })
                  (allow_all r.limits 0 h.request_limiters).1)
        ]
      ]

  -- While a provider is unavailable a call makes no request and spends no budget.
  refuses_while_cold :
      (r : Readings) (post : Text → List Text → Reply S) (query d : Text)
      (pairs : List (Text × Text)) (h : HostedReranker)
      → r.checked < h.unavailable_until
      → compute_score r post ((query, d) ∷ pairs) h
        ≡ (record h { last_tokens = none }, err (cooldown_active (h.unavailable_until - r.checked)))
  unfolding compute_score cooldown_retry_after
  refuses_while_cold r post query d pairs h early =
      let cold : ltb 0 (h.unavailable_until - r.checked) ≡ true = (ground arith) in
      rw (compute_score, cold) refl

  reached-429 :
      (now : ℕ) (retry : Option ℕ) (n : ℕ) (reply : Reply S) (h : HostedReranker)
      → 0 < retry_or h.rate_limit_cooldown retry
      → reply ≡ http_error 429 retry
      → now + retry_or h.rate_limit_cooldown retry ≤ (read_reply now n reply h).0.unavailable_until
  unfolding read_reply set_cooldown
  reached-429 now retry n reply h pos answer = rw answer (ground arith)

  reached-post :
      (now : ℕ) (retry : Option ℕ) (post : Text → List Text → Reply S) (query : Text)
      (pairs : List (Text × Text)) (h : HostedReranker) (o : Option ScoreError)
      → 0 < retry_or h.rate_limit_cooldown retry
      → post query (documents h.max_document_chars pairs) ≡ http_error 429 retry
      → o ≡ none
      → now + retry_or h.rate_limit_cooldown retry
        ≤ (request now post query pairs h o).0.unavailable_until
  unfolding request
  reached-post now retry post query pairs h (some e) pos answer reached = absurd (cc)
  reached-post now retry post query pairs h none pos answer reached =
      reached-429 now retry (length pairs) (post query (documents h.max_document_chars pairs)) h pos
        answer

  -- A provider that was available, had budget, and answered a request with 429 is left alone for its
  -- `Retry-After`, or for the configured time if it gave none: any later call in that time fails with
  -- the cooldown, and leaves the limiters and the cooldown as they were.
  pub rate_limit_respected :
      (r later : Readings) (post post2 : Text → List Text → Reply S) (query d query2 d2 : Text)
      (pairs pairs2 : List (Text × Text)) (retry : Option ℕ) (h : HostedReranker)
      → h.unavailable_until ≤ r.checked
      → one_query query pairs ≡ true
      → (allow_all r.limits 0 h.request_limiters).1 ≡ none
      → post query (documents h.max_document_chars ((query, d) ∷ pairs)) ≡ http_error 429 retry
      → 0 < retry_or h.rate_limit_cooldown retry
      → later.checked < r.failed + retry_or h.rate_limit_cooldown retry
      → let h1 = (compute_score r post ((query, d) ∷ pairs) h).0 in
        (wait : ℕ) × (0 < wait)
        × (compute_score later post2 ((query2, d2) ∷ pairs2) h1
            ≡ (record h1 { last_tokens = none }, err (cooldown_active wait)))
  unfolding compute_score cooldown_retry_after
  rate_limit_respected r later post post2 query d query2 d2 pairs pairs2 retry h free one budget
        answer pos early =
      let h1 = (compute_score r post ((query, d) ∷ pairs) h).0 in
      let warm : ltb 0 (h.unavailable_until - r.checked) ≡ false = (ground arith) in
      let until : r.failed + retry_or h.rate_limit_cooldown retry ≤ h1.unavailable_until =
        (rw (compute_score, warm, one)
          (reached-post r.failed retry post query ((query, d) ∷ pairs)
            (record h {
              last_tokens = none;
              request_limiters = (allow_all r.limits 0 h.request_limiters).0;
            })
            (allow_all r.limits 0 h.request_limiters).1 pos answer budget)) in
      let sooner : later.checked < h1.unavailable_until = (omega arith) in
      (
        h1.unavailable_until - later.checked,
        omega arith,
        refuses_while_cold later post2 query2 d2 pairs2 h1 sooner,
      )
