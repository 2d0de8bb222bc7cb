-- ===== src/Advisor/Rounds.antt =====
-- The attempts of `run_external_advisor_loop` of src/advisor_extension.rs.
use postgres_mcp.Prelude.{
  ℕ, zero, suc, ◌+◌, ◌≡◌, refl, ◌↔◌, Bool, true, false, not, ◌&&◌, Option, none, some, List, [],
  ◌∷◌, ◌++◌, map, if◌then◌else◌, ltb, leb, nat_eq, Eq, Text, text_Eq, text_eq, text_eq_iff, codes,
  length, lookup, insert, trim, is_empty, byte_len, Value, arith,
}
use postgres_mcp.Advisor.{
  ExternalAdvisorRecommendation, ExternalAdvisorResponse, RecommendationKey,
  NormalizedRecommendation, to_json, max_recommendations, max_errors, merge_recommendation_reason,
  normalize_external_error_item, normalize_external_recommendation,
}

unfoldable pub texts_eq : List Text → List Text → Bool
texts_eq [] [] = true
texts_eq [] (t ∷ ts) = false
texts_eq (s ∷ ss) [] = false
texts_eq (s ∷ ss) (t ∷ ts) = text_eq s t && texts_eq ss ts

texts_eq_iff : (ss ts : List Text) → (texts_eq ss ts ≡ true) ↔ (ss ≡ ts)
unfolding texts_eq
texts_eq_iff [] [] = (λ _. refl, λ _. refl)
texts_eq_iff [] (t ∷ ts) = (λ e. cc, λ e. cc)
texts_eq_iff (s ∷ ss) [] = (λ e. cc, λ e. cc)
texts_eq_iff (s ∷ ss) (t ∷ ts) = ground (arith, text_eq_iff s t, texts_eq_iff ss ts)

abbrev pub key_eq : RecommendationKey → RecommendationKey → Bool
key_eq a b =
    text_eq a.table b.table && texts_eq a.columns b.columns && text_eq a.using_method b.using_method

pub key_eq_iff : (a b : RecommendationKey) → (key_eq a b ≡ true) ↔ (a ≡ b)
key_eq_iff a b = ground (
  arith,
  text_eq_iff a.table b.table,
  texts_eq_iff a.columns b.columns,
  text_eq_iff a.using_method b.using_method,
)

instance abbrev pub key_Eq : Eq RecommendationKey
key_Eq = record { same = key_eq; decides = key_eq_iff }

pub data FailureReason : Type 0 where
  external_disabled : FailureReason
  external_not_configured : FailureReason
  external_request_encoding_failed : FailureReason
  external_timeout : FailureReason
  external_spawn_failed : FailureReason
  external_io_failed : FailureReason
  external_non_zero_exit : FailureReason
  external_output_too_large : FailureReason
  external_invalid_response : FailureReason
  external_unreachable_state : FailureReason

pub record AdvisorExternalFailure : Type 0 where
  pub reason : FailureReason
  pub attempt_count : ℕ

pub record AdvisorExternalOutcome : Type 0 where
  pub recommendations : List Value
  pub errors : List Value
  pub attempt_count : ℕ
  pub stop_reason : Text

pub data LoopResult : Type 0 where
  ok : AdvisorExternalOutcome → LoopResult
  err : AdvisorExternalFailure → LoopResult

pub data ExternalInvokeErrorKind : Type 0 where
  timeout : ExternalInvokeErrorKind
  spawn : ExternalInvokeErrorKind
  io : ExternalInvokeErrorKind
  non_zero_exit : ExternalInvokeErrorKind
  invalid_utf8 : ExternalInvokeErrorKind
  output_too_large : ExternalInvokeErrorKind

abbrev pub map_invoke_error : ExternalInvokeErrorKind → ℕ → AdvisorExternalFailure
map_invoke_error timeout attempt = record { reason = external_timeout; attempt_count = attempt }
map_invoke_error spawn attempt = record { reason = external_spawn_failed; attempt_count = attempt }
map_invoke_error io attempt = record { reason = external_io_failed; attempt_count = attempt }
map_invoke_error non_zero_exit attempt = record {
  reason = external_non_zero_exit;
  attempt_count = attempt;
}
map_invoke_error invalid_utf8 attempt = record {
  reason = external_invalid_response;
  attempt_count = attempt;
}
map_invoke_error output_too_large attempt = record {
  reason = external_output_too_large;
  attempt_count = attempt;
}

-- What an attempt gives before its answer is looked at: the request not encoded, the process
-- failed, the output no answer, or the answer.
pub data Answer : Type 0 where
  not_encoded : Answer
  not_invoked : ExternalInvokeErrorKind → Answer
  not_parsed : Answer
  answered : ExternalAdvisorResponse → Answer

pub record LoopState : Type 0 where
  pub recommendation_index : List (RecommendationKey × ℕ)
  pub ordered : List NormalizedRecommendation
  pub external_errors : List Value

-- `ordered[i].reason = ..`
abbrev pub merge_at : ℕ → Text → List NormalizedRecommendation → List NormalizedRecommendation
merge_at i incoming [] = []
merge_at zero incoming (r ∷ rs) =
    record r { reason = merge_recommendation_reason r.reason incoming } ∷ rs
merge_at (suc i) incoming (r ∷ rs) = r ∷ merge_at i incoming rs

-- One recommendation that is normalized, by the place of its key, and whether it is new; none
-- where the total is reached.
abbrev pub placed : Option ℕ → NormalizedRecommendation → LoopState → Option (LoopState × ℕ)
placed (some i) r st = some (record st { ordered = merge_at i r.reason st.ordered }, 0)
placed none r st =
    if leb max_recommendations (length st.ordered)
    then none
    else some (
      record st {
        recommendation_index = insert r.key (length st.ordered) st.recommendation_index;
        ordered = st.ordered ++ r ∷ [];
      },
      1,
    )

abbrev pub take_in : NormalizedRecommendation → LoopState → Option (LoopState × ℕ)
take_in r st = placed (lookup r.key st.recommendation_index) r st

-- The loop over the recommendations of one answer, with the number of new ones.
unfoldable pub absorb : List ExternalAdvisorRecommendation → LoopState → ℕ → Option (LoopState × ℕ)
absorb [] st new_items = some (st, new_items)
absorb (rec ∷ recs) st new_items = elim (normalize_external_recommendation rec) [
  | none ↦ none
  | some r ↦ elim (take_in r st) [
    | none ↦ none
    | some (next, added) ↦ absorb recs next (new_items + added)
  ]
]

-- Where the attempt leaves the loop, or the state for the next attempt.
pub data Round : Type 0 where
  finished : LoopResult → Round
  again : LoopState → Round

module _ (serialize : Value → Option Text) where
  unfoldable pub push_errors : List Value → List Value → Option (List Value)
  push_errors external_errors [] = some external_errors
  push_errors external_errors (error ∷ errors) =
      if leb max_errors (length external_errors)
      then none
      else push_errors (external_errors ++ normalize_external_error_item serialize error ∷ [])
          errors

  abbrev pub fail : FailureReason → ℕ → Round
  fail reason attempt = finished (err (record { reason = reason; attempt_count = attempt }))

  abbrev pub outcome : LoopState → ℕ → Text → Round
  outcome st attempt stop_reason = finished (
      ok (record {
        recommendations = map to_json st.ordered;
        errors = st.external_errors;
        attempt_count = attempt;
        stop_reason = stop_reason;
      }))

  abbrev pub conclude : ℕ → ℕ → Option Text → LoopState → ℕ → Round
  conclude max_attempts attempt none st new_items =
      if nat_eq new_items 0
      then outcome st attempt (codes "converged")
      else if nat_eq attempt max_attempts
      then outcome st attempt (codes "max_attempts")
      else again st
  conclude max_attempts attempt (some stop_reason) st new_items =
      if ltb 128 (byte_len stop_reason)
      then fail external_invalid_response attempt
      else outcome st attempt stop_reason

  abbrev pub said : Option Text → Option Text
  said none = none
  said (some raw) = if is_empty (trim raw) then none else some (trim raw)

  abbrev pub with_errors : ℕ → ℕ → Option Text → LoopState → ℕ → Option (List Value) → Round
  with_errors max_attempts attempt stop st new_items none = fail external_invalid_response attempt
  with_errors max_attempts attempt stop st new_items (some errors) =
      conclude max_attempts attempt stop (record st { external_errors = errors }) new_items

  abbrev pub with_absorbed : ℕ → ℕ → ExternalAdvisorResponse → Option (LoopState × ℕ) → Round
  with_absorbed max_attempts attempt parsed none = fail external_invalid_response attempt
  with_absorbed max_attempts attempt parsed (some (st, new_items)) =
      with_errors max_attempts attempt (said parsed.stop_reason) st new_items
        (push_errors st.external_errors parsed.errors)

  unfoldable pub attempt_round : ℕ → ℕ → LoopState → Answer → Round
  unfolding absorb push_errors
  attempt_round max_attempts attempt st not_encoded = fail external_request_encoding_failed attempt
  attempt_round max_attempts attempt st (not_invoked kind) =
      finished (err (map_invoke_error kind attempt))
  attempt_round max_attempts attempt st not_parsed = fail external_invalid_response attempt
  attempt_round max_attempts attempt st (answered parsed) =
      let absorbed =
        with_absorbed max_attempts attempt parsed (absorb parsed.recommendations st 0) in
      if ltb 256 (length parsed.recommendations)
      then fail external_invalid_response attempt
      else if ltb 128 (length parsed.errors)
      then fail external_invalid_response attempt
      else absorbed

  -- The answer to an attempt that is told the recommendations so far.
  module _ (invoke : ℕ → List Value → Answer) where
    -- The attempts that are left, of `1..=max_attempts`.
    unfoldable pub attempts : ℕ → ℕ → ℕ → LoopState → LoopResult
    unfolding attempt_round
    attempts max_attempts zero attempt st =
        err (record { reason = external_unreachable_state; attempt_count = max_attempts })
    attempts max_attempts (suc left) attempt st =
        elim (attempt_round max_attempts attempt st (invoke attempt (map to_json st.ordered))) [
          | finished result ↦ result
          | again next ↦ attempts max_attempts left (suc attempt) next
        ]

    abbrev pub fresh : LoopState
    fresh = record { recommendation_index = []; ordered = []; external_errors = [] }

    unfoldable pub run_external_advisor_loop : Bool → Option Text → ℕ → LoopResult
    unfolding attempts
    run_external_advisor_loop enabled command max_attempts =
        let looped = attempts max_attempts max_attempts 1 fresh in
        if not enabled
        then err (record { reason = external_disabled; attempt_count = 0 })
        else elim command [
          | none ↦ err (record { reason = external_not_configured; attempt_count = 0 })
          | some path ↦ looped
        ]
