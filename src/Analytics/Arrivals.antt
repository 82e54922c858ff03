-- ===== src/Analytics/Arrivals.antt =====
-- The rows that the service inserts while `deliver_search_analytics_spool` runs.
use querix_semantic_search.Prelude.{
  ℕ, zero, suc, ◌≡◌, refl, sym, ap, ◌∙◌, inl, inr, Bool, true, false, not, ◌&&◌, ◌||◌, Option, none,
  some, List, [], ◌∷◌, ◌++◌, arith, Bool-cases, Option-cases, Result-cases, take, drop, keep, any,
  any-append, any-cut, All, All-map, err, err-injective, Text, text_eq, text_eq_refl,
}
use mathlib.Core.Path.{subst}
use querix_semantic_search.Analytics.Events.{SearchAnalyticsEvent}
use querix_semantic_search.Analytics.Spool.{
  SpoolRow, Spool, insert_or_ignore, insert_all, in_snapshot, delete_batch, Round, DeliveryError,
  bad_batch_size, bad_payload, tenant_mismatch, write_failed, delete_failed, decode_all,
}
use querix_semantic_search.Analytics.Batches.{delete_batch-others}
use querix_semantic_search.Analytics.Rounds.{snapshot_rows, IsOpen}

-- A row of this request id.
abbrev pub has_request : Text → List SpoolRow → Bool
has_request q rows = any (λ r. text_eq r.request_id q) rows

-- The rows that the service inserted in a round that raised, between reading and deleting: those
-- of a round that never got so far did not arrive.
abbrev pub last_between : Option DeliveryError → Round → List SpoolRow
last_between none round = []
last_between (some bad_batch_size) round = []
last_between (some bad_payload) round = []
last_between (some tenant_mismatch) round = round.between
last_between (some (write_failed x)) round = round.between
last_between (some delete_failed) round = round.between

-- The rows that the service inserts from the n-th round on, over some whole rounds and the last.
abbrev pub met : (ℕ → Round) → Option DeliveryError → ℕ → ℕ → List SpoolRow
met rounds raised n zero = (rounds n).before ++ last_between raised (rounds n)
met rounds raised n (suc k) =
    ((rounds n).before ++ (rounds n).between) ++ met rounds raised (suc n) k

abbrev filled {ℓ} : {A : Type ℓ} → List A → Bool
filled [] = false
filled (x ∷ xs) = true

any-filled {ℓ} : {A : Type ℓ} (p : A → Bool) (xs : List A) → any p xs ≡ filled (keep p xs)
any-filled p [] = refl
any-filled p (x ∷ xs) = elim (Bool-cases (p x)) [
  | inl hit ↦ rw hit refl
  | inr miss ↦ rw miss (any-filled p xs)
]

any-kept {ℓ} :
    {A : Type ℓ} (p : A → Bool) (xs ys : List A) → keep p xs ≡ keep p ys → any p xs ≡ any p ys
any-kept p xs ys e = any-filled p xs ∙ ap filled e ∙ sym (any-filled p ys)

has_request-insert_or_ignore :
    (q : Text) (row : SpoolRow) (s : Spool)
    → has_request q s.rows ≡ true
    → has_request q (insert_or_ignore row s).rows ≡ true
unfolding insert_or_ignore
has_request-insert_or_ignore q row s h =
    elim (Bool-cases (any (λ r. text_eq r.request_id row.request_id) s.rows)) [
      | inl there ↦ rw (insert_or_ignore, there) h
      | inr new ↦
          rw (insert_or_ignore, new)
            (ground (
              arith,
              any-append (λ r. text_eq r.request_id q) s.rows (record row { id = s.next_id }),
            ))
    ]

inserted-has_request :
    (row : SpoolRow) (s : Spool) → has_request row.request_id (insert_or_ignore row s).rows ≡ true
unfolding insert_or_ignore
inserted-has_request row s =
    elim (Bool-cases (any (λ r. text_eq r.request_id row.request_id) s.rows)) [
      | inl there ↦ rw (insert_or_ignore, there) there
      | inr new ↦
          rw (insert_or_ignore, new)
            (ground (
              arith,
              text_eq_refl row.request_id,
              any-append (λ r. text_eq r.request_id row.request_id) s.rows
                  (record row { id = s.next_id }),
            ))
    ]

has_request-insert_all :
    (q : Text) (rows : List SpoolRow) (s : Spool)
    → has_request q s.rows ≡ true
    → has_request q (insert_all rows s).rows ≡ true
unfolding insert_all
has_request-insert_all q [] s h = h
has_request-insert_all q (row ∷ rows) s h =
    has_request-insert_all q rows (insert_or_ignore row s) (has_request-insert_or_ignore q row s h)

inserted_all :
    (rows : List SpoolRow) (s : Spool)
    → All (λ a. has_request a.request_id (insert_all rows s).rows ≡ true) rows
unfolding insert_all
inserted_all [] s = tt
inserted_all (row ∷ rows) s = (
  has_request-insert_all row.request_id rows (insert_or_ignore row s) (inserted-has_request row s),
  inserted_all rows (insert_or_ignore row s),
)

pub any-drop {ℓ} :
    {A : Type ℓ} (p : A → Bool) (n : ℕ) (xs : List A) → any p (drop n xs) ≡ true → any p xs ≡ true
any-drop p n xs h = elim (Bool-cases (any p xs)) [
  | inl there ↦ there
  | inr none_there ↦ absurd (let c = (any-cut p n xs none_there).1 in cc)
]

pub decode_all-raises :
    (decode : Text → Option SearchAnalyticsEvent) (rows : List SpoolRow) (x : DeliveryError)
    → decode_all decode rows ≡ err x
    → x ≡ bad_payload
unfolding decode_all
decode_all-raises decode [] x e = absurd (cc)
decode_all-raises decode (r ∷ rows) x e = elim (Option-cases (decode r.payload_json)) [
  | inl bad ↦ sym (err-injective (rw (decode_all, bad) at e))
  | inr (event, good) ↦ elim (Result-cases (decode_all decode rows)) [
    | inl (y, raised) ↦
        decode_all-raises decode rows x (raised ∙ (rw (decode_all, good, raised) at e))
    | inr (events, decoded) ↦ absurd (let h = (rw (decode_all, good, decoded) at e) in cc)
  ]
]

module _ (company : Text) (cutoff bound : ℕ) (own : List SpoolRow) where
  -- The request id is in the spool, or was in it at the start, among the company's rows.
  abbrev pub Known : Text → Spool → Type 0
  Known q s = (has_request q s.rows || has_request q own) ≡ true

  -- The rest of the snapshot is of the rows at the start.
  abbrev pub IsRest : Spool → Type 0
  IsRest s =
      (q : Text)
      → has_request q (snapshot_rows company cutoff bound s) ≡ true
      → has_request q own ≡ true

  pub inserts-Known :
      (q : Text) (rows : List SpoolRow) (s : Spool) → Known q s → Known q (insert_all rows s)
  inserts-Known q rows s h = elim (Bool-cases (has_request q s.rows)) [
    | inl there ↦ rw (has_request-insert_all q rows s there) refl
    | inr away ↦ ground (arith)
  ]

  pub arrived-Known :
      (rows : List SpoolRow) (s : Spool) → All (λ a. Known a.request_id (insert_all rows s)) rows
  arrived-Known rows s = All-map (λ a h. rw h refl) rows (inserted_all rows s)

  pub deletes-Known :
      (q : Text) (n : ℕ) (s : Spool) (batch : List SpoolRow)
      → IsOpen company cutoff bound s
      → IsRest s
      → take n (snapshot_rows company cutoff bound s) ≡ batch
      → Known q s
      → Known q (record s { rows = delete_batch batch s.rows })
  deletes-Known q n s batch v rest e h = elim (Bool-cases (has_request q own)) [
    | inl at_start ↦ ground (arith)
    | inr new ↦
        let p = λ (r : SpoolRow). text_eq r.request_id q && not (in_snapshot company cutoff r) in
        let none_left : has_request q (snapshot_rows company cutoff bound s) ≡ false =
          (elim (Bool-cases (has_request q (snapshot_rows company cutoff bound s))) [
            | inl there ↦ absurd (let k = rest q there in cc)
            | inr away ↦ away
          ]) in
        let before : any p s.rows ≡ true = outside s.rows none_left (ground (arith)) in
        let kept : any p (delete_batch batch s.rows) ≡ any p s.rows =
          any-kept p (delete_batch batch s.rows) s.rows (
            subst (λ (b : List SpoolRow). keep p (delete_batch b s.rows) ≡ keep p s.rows) e
              (delete_batch-others company cutoff n s.rows v.sound.ascending p (blind))) in
        rw (weaker (delete_batch batch s.rows) (kept ∙ before)) refl
  ]
    where
      blind :
          (r : SpoolRow)
          → in_snapshot company cutoff r ≡ true
          → (text_eq r.request_id q && not (in_snapshot company cutoff r)) ≡ false
      blind r i = ground arith

      outside :
          (rows : List SpoolRow)
          → has_request q (keep (in_snapshot company cutoff) rows) ≡ false
          → has_request q rows ≡ true
          → any (λ r. text_eq r.request_id q && not (in_snapshot company cutoff r)) rows ≡ true
      outside [] a b = b
      outside (r ∷ rows) a b = elim (Bool-cases (in_snapshot company cutoff r)) [
        | inl inside ↦ let a' = (rw inside at a) in rw inside (ground (arith, outside rows))
        | inr out ↦ let a' = (rw out at a) in rw out (ground (arith, outside rows))
      ]

      weaker :
          (rows : List SpoolRow)
          → any (λ r. text_eq r.request_id q && not (in_snapshot company cutoff r)) rows ≡ true
          → has_request q rows ≡ true
      weaker [] h = h
      weaker (r ∷ rows) h = ground (arith, weaker rows)
