-- ===== src/Reranker/Scores.antt =====
-- Every document has the score that the provider gave last for its index.
use querix_semantic_search.Prelude.{
  ℕ, zero, suc, ◌<◌, ◌≡◌, refl, sym, ap, ◌∙◌, inl, inr, Bool, true, false, Option, none, some, List,
  [], ◌∷◌, arith, ltb, ◌==◌, if◌then◌else◌, Bool-cases, length, Result, ok, >>=-eq-ok, ok-injective,
  Text,
}
use mathlib.Core.Option.{some-injective}
use querix_semantic_search.Reranker.Hosted.{
  ScoreError, Entry, Reply, replied, http_error, no_connection, request_failed, bad_json,
  HostedReranker, Readings, no_scores, set_at, fill, all_scores, scores_of, read_reply, one_query,
  documents, request, compute_score, cooldown_retry_after,
}

abbrev pub at_index {ℓ} : {A : Type ℓ} → ℕ → List A → Option A
at_index k [] = none
at_index zero (x ∷ xs) = some x
at_index (suc k) (x ∷ xs) = at_index k xs

abbrev names : ℕ → Option ℕ → Bool
names k none = false
names k (some i) = i == k

length-no_scores : (A : Type 0) (n : ℕ) → length (no_scores {S = A} n) ≡ n
unfolding no_scores
length-no_scores A zero = omega arith
length-no_scores A (suc n) = omega (arith, length-no_scores A n)

module _ {S : Type 0} where
  -- The last score for an index among the results, or the given one.
  unfoldable pub last_score : ℕ → Option S → List (Option (Entry S)) → Option S
  last_score k d [] = d
  last_score k d (none ∷ results) = last_score k d results
  last_score k d (some e ∷ results) =
      last_score k (if names k e.index then some e.score else d) results

  at_index-set_at :
      (k i : ℕ) (s : S) (xs : List (Option S)) (d : Option S)
      → at_index k xs ≡ some d
      → at_index k (set_at i s xs) ≡ some (if i == k then some s else d)
  unfolding set_at
  at_index-set_at k i s [] d e = absurd (cc)
  at_index-set_at zero zero s (x ∷ xs) d e = ground arith
  at_index-set_at zero (suc i) s (x ∷ xs) d e = ground (arith, e)
  at_index-set_at (suc k) zero s (x ∷ xs) d e = ground (arith, e)
  at_index-set_at (suc k) (suc i) s (x ∷ xs) d e = ground (arith, at_index-set_at k i s xs d e)

  at_index-step :
      (k : ℕ) (o : Option ℕ) (s : S) (xs : List (Option S)) (d : Option S)
      → at_index k xs ≡ some d
      → at_index k (elim o [ none ↦ xs | some i ↦ set_at i s xs ])
        ≡ some (if names k o then some s else d)
  at_index-step k none s xs d e = e
  at_index-step k (some i) s xs d e = at_index-set_at k i s xs d e

  at_index-fill :
      (k : ℕ) (results : List (Option (Entry S))) (xs ys : List (Option S)) (d : Option S)
      → at_index k xs ≡ some d
      → fill results xs ≡ ok ys
      → at_index k ys ≡ some (last_score k d results)
  unfolding fill last_score
  at_index-fill k [] xs ys d e f = ap (at_index k) (sym (ok-injective f)) ∙ e
  at_index-fill k (none ∷ results) xs ys d e f = absurd (cc)
  at_index-fill k (some x ∷ results) xs ys d e f =
      at_index-fill k results (elim x.index [ none ↦ xs | some i ↦ set_at i x.score xs ]) ys
        (if names k x.index then some x.score else d) (at_index-step k x.index x.score xs d e) f

  length-set_at : (k : ℕ) (s : S) (xs : List (Option S)) → length (set_at k s xs) ≡ length xs
  unfolding set_at
  length-set_at k s [] = refl
  length-set_at zero s (x ∷ xs) = omega arith
  length-set_at (suc k) s (x ∷ xs) = omega (arith, length-set_at k s xs)

  length-step :
      (o : Option ℕ) (s : S) (xs : List (Option S))
      → length (elim o [ none ↦ xs | some i ↦ set_at i s xs ]) ≡ length xs
  length-step none s xs = refl
  length-step (some i) s xs = length-set_at i s xs

  length-fill :
      (results : List (Option (Entry S))) (xs ys : List (Option S))
      → fill results xs ≡ ok ys
      → length ys ≡ length xs
  unfolding fill
  length-fill [] xs ys f = ap length (sym (ok-injective f))
  length-fill (none ∷ results) xs ys f = absurd (cc)
  length-fill (some x ∷ results) xs ys f =
      length-fill results (elim x.index [ none ↦ xs | some i ↦ set_at i x.score xs ]) ys f
      ∙ length-step x.index x.score xs

  all_scores-at :
      (k : ℕ) (xs : List (Option S)) (ss : List S) (o : Option S)
      → all_scores xs ≡ ok ss
      → at_index k xs ≡ some o
      → at_index k ss ≡ o
  unfolding all_scores
  all_scores-at k [] ss o e h = absurd (cc)
  all_scores-at k (none ∷ xs) ss o e h = absurd (cc)
  all_scores-at zero (some s ∷ xs) ss o e h =
      let (rest, _, e1) = >>=-eq-ok (all_scores xs) _ e in
      rw (← ok-injective e1) (some-injective _ _ h)
  all_scores-at (suc k) (some s ∷ xs) ss o e h =
      let (rest, e0, e1) = >>=-eq-ok (all_scores xs) _ e in
      rw (← ok-injective e1) (all_scores-at k xs rest o e0 h)

  length-all_scores :
      (xs : List (Option S)) (ss : List S) → all_scores xs ≡ ok ss → length ss ≡ length xs
  unfolding all_scores
  length-all_scores [] ss e = ap length (sym (ok-injective e))
  length-all_scores (none ∷ xs) ss e = absurd (cc)
  length-all_scores (some s ∷ xs) ss e =
      let (rest, e0, e1) = >>=-eq-ok (all_scores xs) _ e in
      let l = length-all_scores xs rest e0 in rw (← ok-injective e1) (omega (arith, l))

  no_scores-at : (k n : ℕ) → k < n → at_index k (no_scores {S = S} n) ≡ some none
  unfolding no_scores
  no_scores-at k zero h = absurd (omega arith)
  no_scores-at zero (suc n) h = refl
  no_scores-at (suc k) (suc n) h = no_scores-at k n (omega arith)

  -- A list of results that is accepted gives as many scores as there are documents, each the last
  -- one that the results have for the document's index.
  scores_of_complete :
      (n k : ℕ) (results : List (Option (Entry S))) (ss : List S)
      → k < n
      → scores_of n (some results) ≡ ok ss
      → (length ss ≡ n) × (at_index k ss ≡ last_score k none results)
  unfolding scores_of
  scores_of_complete n k results ss h e =
      let (ys, f, e1) = >>=-eq-ok (fill results (no_scores n)) _ e in
      (
        length-all_scores ys ss e1 ∙ length-fill results (no_scores n) ys f ∙ length-no_scores S n,
        all_scores-at k ys ss (last_score k none results) e1
            (at_index-fill k results (no_scores n) ys none (no_scores-at k n h) f),
      )

  -- The request behind a success.
  pub record Scored (post : Text → List Text → Reply S) (query : Text) (docs : List Text) (n : ℕ)
      (scores : List S) : Type 0 where
    pub tokens : ℕ
    pub results : List (Option (Entry S))
    pub reply : post query docs ≡ replied tokens (some results)
    pub accepted : scores_of n (some results) ≡ ok scores

  read_reply-ok :
      (now n : ℕ) (reply : Reply S) (h h' : HostedReranker) (scores : List S)
      → read_reply now n reply h ≡ (h', ok scores)
      → (tokens : ℕ) × (results : List (Option (Entry S))) × (reply ≡ replied tokens (some results))
        × (scores_of n (some results) ≡ ok scores)
  unfolding read_reply scores_of
  read_reply-ok now n (replied tokens none) h h' scores e =
      absurd (let e' = ap (λ (x : HostedReranker × Result ScoreError (List S)). x.1) e in cc)
  read_reply-ok now n (replied tokens (some results)) h h' scores e =
      (tokens, results, refl, ap (λ (x : HostedReranker × Result ScoreError (List S)). x.1) e)
  read_reply-ok now n (http_error status retry) h h' scores e =
      absurd (let e' = ap (λ (x : HostedReranker × Result ScoreError (List S)). x.1) e in cc)
  read_reply-ok now n no_connection h h' scores e =
      absurd (let e' = ap (λ (x : HostedReranker × Result ScoreError (List S)). x.1) e in cc)
  read_reply-ok now n request_failed h h' scores e =
      absurd (let e' = ap (λ (x : HostedReranker × Result ScoreError (List S)). x.1) e in cc)
  read_reply-ok now n bad_json h h' scores e =
      absurd (let e' = ap (λ (x : HostedReranker × Result ScoreError (List S)). x.1) e in cc)

  request-ok :
      (now : ℕ) (post : Text → List Text → Reply S) (query : Text) (pairs : List (Text × Text))
      (h h' : HostedReranker) (o : Option ScoreError) (scores : List S)
      → request now post query pairs h o ≡ (h', ok scores)
      → Scored post query (documents h.max_document_chars pairs) (length pairs) scores
  unfolding request
  request-ok now post query pairs h h' (some x) scores e =
      absurd (let e' = ap (λ (x : HostedReranker × Result ScoreError (List S)). x.1) e in cc)
  request-ok now post query pairs h h' none scores e =
      let (tokens, results, reply, accepted) =
        read_reply-ok now (length pairs) (post query (documents h.max_document_chars pairs)) h h'
          scores e in
      record { tokens = tokens; results = results; reply = reply; accepted = accepted }

  -- A list of scores for some pairs comes from one request, for the query that all the pairs have
  -- and their cut documents: it has a score for each document, the last one that the results of the
  -- reply have for the document's index.
  pub compute_score_complete :
      (r : Readings) (post : Text → List Text → Reply S) (query d : Text)
      (pairs : List (Text × Text)) (k : ℕ) (h h' : HostedReranker) (scores : List S)
      → k < length ((query, d) ∷ pairs)
      → compute_score r post ((query, d) ∷ pairs) h ≡ (h', ok scores)
      → (one_query query pairs ≡ true)
        × (tokens : ℕ) × (results : List (Option (Entry S))) × (post query
              (documents h.max_document_chars ((query, d) ∷ pairs))
            ≡ replied tokens (some results))
        × (length scores ≡ length ((query, d) ∷ pairs))
        × (at_index k scores ≡ last_score k none results)
  unfolding compute_score
  compute_score_complete r post query d pairs k h h' scores lt e =
      elim (Bool-cases (ltb 0 (cooldown_retry_after r.checked (record h { last_tokens = none })))) [
        | inl cold ↦ absurd (
            let e0 = (rw (compute_score, cold) at e) in
            let e' = ap (λ (x : HostedReranker × Result ScoreError (List S)). x.1) e0 in cc)
        | inr warm ↦ elim (Bool-cases (one_query query pairs)) [
          | inr many ↦ absurd (
              let e0 = (rw (compute_score, warm, many) at e) in
              let e' = ap (λ (x : HostedReranker × Result ScoreError (List S)). x.1) e0 in cc)
          | inl one ↦
              let s =
                request-ok r.failed post query ((query, d) ∷ pairs) _ h' _ scores
                  (rw (compute_score, warm, one) at e) in
              let (l, a) =
                scores_of_complete (length ((query, d) ∷ pairs)) k s.results scores lt s.accepted in
              (one, s.tokens, s.results, s.reply, l, a)
        ]
      ]
