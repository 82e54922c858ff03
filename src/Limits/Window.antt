-- ===== src/Limits/Window.antt =====
-- `RequestWindowLimiter` of src/core/request_limit.py, in whole clock ticks.
pub mod Tracks
pub mod Budget
use querix_semantic_search.Prelude.{
  ℕ, zero, suc, ◌+◌, ◌-◌, ◌*◌, ◌/◌, ◌%◌, ◌≤◌, ◌<◌, ◌≡◌, refl, sym, ap, ◌∙◌, ◌≢◌, ◌↔◌, ◌⊎◌, inl, inr,
  Bool, true, false, not, ◌&&◌, ◌||◌, Option, none, some, List, [], ◌∷◌, ◌++◌, map, arith, ltb, leb,
  ◌==◌, if◌then◌else◌, min, is_none, ltb→lt, lt→ltb, leb→le, ==_iff, ==_refl, Bool-cases,
  Option-cases, length, take, drop, keep, any, count, find, update_where, All, length-append,
  count-append, count-le-length, length-take-le, take-append-drop, All-append, All-map, Result, ok,
  err, ◌>>=◌,
}

pub data LimitError : Type 0 where
  budget_not_positive scope_required : LimitError

pub record WindowLimiter : Type 0 where
  pub requests_per_window : ℕ
  pub window_seconds : ℕ
  pub requests : List ℕ

-- What a call of `allow` returns. `index_error` is the exception of `self._requests[0]`.
pub data Outcome : Type 0 where
  granted : Outcome
  refused : ℕ → Outcome
  index_error : Outcome

-- The constructor; `redis` says that a coordinator is given, `scope` is its scope, if not empty.
unfoldable pub init : ℕ → ℕ → Bool → Option ℕ → Result LimitError WindowLimiter
init requests_per_window window_seconds redis scope =
    if requests_per_window == 0 || window_seconds == 0
    then err budget_not_positive
    else if redis && is_none scope
    then err scope_required
    else ok (record {
      requests_per_window = requests_per_window;
      window_seconds = window_seconds;
      requests = [];
    })

-- The `popleft` loop: `request <= now - window`, with the subtraction moved to the other side.
unfoldable pub drop_expired : ℕ → ℕ → List ℕ → List ℕ
drop_expired now window [] = []
drop_expired now window (r ∷ rs) =
    let rest = drop_expired now window rs in if leb (r + window) now then rest else r ∷ rs

-- `max(window - (now - oldest), 0)`.
unfoldable pub retry_after : ℕ → ℕ → List ℕ → Outcome
retry_after now window [] = index_error
retry_after now window (oldest ∷ _) = refused (window + oldest - now)

unfoldable pub allow_memory : ℕ → WindowLimiter → WindowLimiter × Outcome
allow_memory now l =
    let kept = drop_expired now l.window_seconds l.requests in
    if leb l.requests_per_window (length kept)
    then (record l { requests = kept }, retry_after now l.window_seconds kept)
    else (record l { requests = kept ++ now ∷ [] }, granted)

-- `allow`: the coordinator's answer decides if there is one. `none` is no coordinator, `some none`
-- a coordinator that cannot answer.
unfoldable pub allow : Option (Option Outcome) → ℕ → WindowLimiter → WindowLimiter × Outcome
allow (some (some answer)) now l = (l, answer)
allow _ now l = allow_memory now l
