-- ===== src/Generations/Invariant.antt =====
-- One slot serves: the invariant of the manifest, and the operations that keep it.
use querix_semantic_search.Prelude.{
  ℕ, ◌≡◌, ◌≢◌, refl, sym, inl, inr, true, false, some, List, arith, Bool-cases, Text, text_eq,
  lookup, ok, ok-injective,
}
use querix_semantic_search.Generations.Manifest.{
  Status, active, standby, ready, empty, SlotState, Profile, Manifest, in_slots,
  default_generation_state,
}
use querix_semantic_search.Generations.Operations.{
  other_slot, set_status, ready_manifest, is_ready, is_generation, promoted_manifest,
}
use querix_semantic_search.Generations.Slots.{status_at, status_at-insert}

-- The active slot is one of the two and has the status `active`; the other has an entry with
-- another status.
pub record OneActive (p : Profile) (m : Manifest) : Type 0 where
  pub owner : m.company_id ≡ p.company_id
  pub slot : in_slots m.active_slot ≡ true
  pub serving : status_at m.active_slot m.slots ≡ some active
  pub idle : Status
  pub waiting : status_at (other_slot m.active_slot) m.slots ≡ some idle
  pub not_active : idle ≢ active

pub default-OneActive : (p : Profile) (now : ℕ) → OneActive p (default_generation_state p now)
unfolding default_generation_state in_slots text_eq status_at lookup
default-OneActive p now = record {
  owner = refl;
  slot = refl;
  serving = refl;
  idle = empty;
  waiting = refl;
  not_active = λ e. cc;
}

pub ready_manifest-OneActive :
    (p : Profile) (slot generation validation : Text) (validated_at updated_at : ℕ)
    (m m' : Manifest)
    → OneActive p m
    → ready_manifest slot generation validation validated_at updated_at m ≡ ok m'
    → OneActive p m'
unfolding ready_manifest
ready_manifest-OneActive p slot generation validation va ua m m' v e =
    elim (Bool-cases (text_eq slot m.active_slot)) [
      | inl same ↦ absurd (let e' = (rw same at e) in cc)
      | inr differ ↦
          rw (← ok-injective (rw differ at e))
            (elim (Bool-cases (text_eq slot (other_slot m.active_slot))) [
              | inl hit ↦ record {
                owner = v.owner;
                slot = v.slot;
                serving = rw (status_at-insert, differ) v.serving;
                idle = ready;
                waiting = rw (status_at-insert, hit) refl;
                not_active = λ e. cc;
              }
              | inr miss ↦ record {
                owner = v.owner;
                slot = v.slot;
                serving = rw (status_at-insert, differ) v.serving;
                idle = v.idle;
                waiting = rw (status_at-insert, miss) v.waiting;
                not_active = v.not_active;
              }
            ])
    ]

-- What a successful promotion has checked and written.
pub record Promoted (slot generation : Text) (promoted_at : ℕ) (m m' : Manifest) : Type 0 where
  pub differs : text_eq slot m.active_slot ≡ false
  pub was_ready : is_ready (lookup slot m.slots) ≡ true
  pub same_generation : is_generation generation (lookup slot m.slots) ≡ true
  pub result : m' ≡ record m {
    active_slot = slot;
    previous_slot = some m.active_slot;
    promoted_at = some promoted_at;
    updated_at = some promoted_at;
    slots = set_status m.active_slot standby (set_status slot active m.slots);
  }

pub promoted_manifest-Promoted :
    (slot generation : Text) (promoted_at : ℕ) (m m' : Manifest)
    → promoted_manifest slot generation promoted_at m ≡ ok m'
    → Promoted slot generation promoted_at m m'
unfolding promoted_manifest
promoted_manifest-Promoted slot generation promoted_at m m' e =
    elim (Bool-cases (text_eq slot m.active_slot)) [
      | inl same ↦ absurd (let e' = (rw same at e) in cc)
      | inr differ ↦ elim (Bool-cases (is_ready (lookup slot m.slots))) [
        | inr unready ↦ absurd (let e' = (rw (differ, unready) at e) in cc)
        | inl is_ready_ ↦ elim (Bool-cases (is_generation generation (lookup slot m.slots))) [
          | inr changed ↦ absurd (let e' = (rw (differ, is_ready_, changed) at e) in cc)
          | inl kept ↦ record {
            differs = differ;
            was_ready = is_ready_;
            same_generation = kept;
            result = sym (ok-injective (rw (differ, is_ready_, kept) at e));
          }
        ]
      ]
    ]

pub status-of_ready :
    (slot : Text) (slots : List (Text × SlotState))
    → is_ready (lookup slot slots) ≡ true
    → status_at slot slots ≡ some ready
unfolding status_at
status-of_ready slot slots h = ground (arith, h)
