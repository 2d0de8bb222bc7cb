-- ===== src/Advisor/Bounds.antt =====
-- How `run_external_advisor_loop` of src/advisor_extension.rs ends.
use postgres_mcp.Prelude.{
  ℕ, zero, suc, ◌+◌, ◌≤◌, ◌≡◌, refl, subst, Bool, true, false, Option, none, some, List, map,
  if_split, ltb, nat_eq, Text, codes, length, all, Distinct, byte_len, Value, arith,
}
use postgres_mcp.Advisor.{
  ExternalAdvisorResponse, NormalizedRecommendation, to_json, max_recommendations, max_errors,
}
use postgres_mcp.Advisor.Rounds.{
  key_Eq, FailureReason, external_unreachable_state, AdvisorExternalOutcome, LoopResult, ok, err,
  ExternalInvokeErrorKind, timeout, spawn, io, non_zero_exit, invalid_utf8, output_too_large,
  map_invoke_error, Answer, not_encoded, not_invoked, not_parsed, answered, LoopState, absorb,
  push_errors, Round, finished, again, conclude, said, with_errors, with_absorbed, attempt_round,
  attempts, fresh, run_external_advisor_loop,
}
use postgres_mcp.Advisor.Keys.{
  index_of, within_limits, IsLoopState, fresh-IsLoopState, absorb-IsLoopState, push_errors-le,
}

abbrev pub is_reached : FailureReason → Bool
is_reached external_unreachable_state = false
is_reached _ = true

-- What an outcome rests on: recommendations under keys that are all different, within the totals
-- and the limits of each.
pub record Sound (o : AdvisorExternalOutcome) : Type 0 where
  pub ordered : List NormalizedRecommendation
  pub listed : o.recommendations ≡ map to_json ordered
  pub distinct : Distinct (index_of 0 ordered)
  pub few : length ordered ≤ max_recommendations
  pub limited : all within_limits ordered ≡ true
  pub few_errors : length o.errors ≤ max_errors

-- The end of an attempt: the outcome or the failure of this attempt, or a state to go on with and
-- an attempt left.
abbrev EndsAt : ℕ → LoopResult → Type 0
EndsAt attempt (ok o) = Sound o × (o.attempt_count ≡ attempt)
EndsAt attempt (err f) = (is_reached f.reason ≡ true) × (f.attempt_count ≡ attempt)

abbrev Goes : ℕ → ℕ → Round → Type 0
Goes max_attempts attempt (finished r) = EndsAt attempt r
Goes max_attempts attempt (again st) = IsLoopState st × (nat_eq attempt max_attempts ≡ false)

invoke_error-reached :
    (kind : ExternalInvokeErrorKind) (attempt : ℕ)
    → (is_reached (map_invoke_error kind attempt).reason ≡ true)
      × ((map_invoke_error kind attempt).attempt_count ≡ attempt)
invoke_error-reached timeout attempt = (refl, refl)
invoke_error-reached spawn attempt = (refl, refl)
invoke_error-reached io attempt = (refl, refl)
invoke_error-reached non_zero_exit attempt = (refl, refl)
invoke_error-reached invalid_utf8 attempt = (refl, refl)
invoke_error-reached output_too_large attempt = (refl, refl)

module _ (serialize : Value → Option Text) where
  outcome-Sound :
      (st : LoopState) (attempt : ℕ) (stop : Text)
      → IsLoopState st
      → Sound (record {
        recommendations = map to_json st.ordered;
        errors = st.external_errors;
        attempt_count = attempt;
        stop_reason = stop;
      })
  outcome-Sound st attempt stop h = record {
    ordered = st.ordered;
    listed = refl;
    distinct = subst Distinct h.indexed h.distinct;
    few = h.few;
    limited = h.limited;
    few_errors = h.few_errors;
  }

  conclude-Goes :
      (max_attempts attempt : ℕ) (stop : Option Text) (st : LoopState) (new_items : ℕ)
      → IsLoopState st
      → Goes max_attempts attempt (conclude serialize max_attempts attempt stop st new_items)
  conclude-Goes max_attempts attempt (some stop) st new_items h =
      if_split (Goes max_attempts attempt) (ltb 128 (byte_len stop)) (λ e. (refl, refl))
        (λ e. (outcome-Sound st attempt stop h, refl))
  conclude-Goes max_attempts attempt none st new_items h =
      if_split (Goes max_attempts attempt) (nat_eq new_items 0)
        (λ e. (outcome-Sound st attempt (codes "converged") h, refl))
        (λ e.
          if_split (Goes max_attempts attempt) (nat_eq attempt max_attempts)
            (λ k. (outcome-Sound st attempt (codes "max_attempts") h, refl)) (λ k. (h, k)))

  with_errors-Goes :
      (max_attempts attempt : ℕ) (stop : Option Text) (st : LoopState) (new_items : ℕ)
      (o : Option (List Value))
      → IsLoopState st
      → ((errors : List Value) → o ≡ some errors → length errors ≤ max_errors)
      → Goes max_attempts attempt (with_errors serialize max_attempts attempt stop st new_items o)
  with_errors-Goes max_attempts attempt stop st new_items none h k = (refl, refl)
  with_errors-Goes max_attempts attempt stop st new_items (some errors) h k =
      conclude-Goes max_attempts attempt stop (record st { external_errors = errors }) new_items
        (record {
          indexed = h.indexed;
          distinct = h.distinct;
          few = h.few;
          few_errors = k errors refl;
          limited = h.limited;
        })

  with_absorbed-Goes :
      (max_attempts attempt : ℕ) (parsed : ExternalAdvisorResponse) (o : Option (LoopState × ℕ))
      → ((next : LoopState) (n : ℕ) → o ≡ some (next, n) → IsLoopState next)
      → Goes max_attempts attempt (with_absorbed serialize max_attempts attempt parsed o)
  with_absorbed-Goes max_attempts attempt parsed none h = (refl, refl)
  with_absorbed-Goes max_attempts attempt parsed (some (st, n)) h =
      with_errors-Goes max_attempts attempt (said serialize parsed.stop_reason) st n
        (push_errors serialize st.external_errors parsed.errors) (h st n refl)
        (λ errors e.
          push_errors-le serialize st.external_errors parsed.errors errors (h st n refl).few_errors
            e)

  round-Goes :
      (max_attempts attempt : ℕ) (st : LoopState) (answer : Answer)
      → IsLoopState st
      → Goes max_attempts attempt (attempt_round serialize max_attempts attempt st answer)
  unfolding attempt_round
  round-Goes max_attempts attempt st not_encoded h = (refl, refl)
  round-Goes max_attempts attempt st (not_invoked kind) h = invoke_error-reached kind attempt
  round-Goes max_attempts attempt st not_parsed h = (refl, refl)
  round-Goes max_attempts attempt st (answered parsed) h =
      if_split (Goes max_attempts attempt) (ltb 256 (length parsed.recommendations))
        (λ e. (refl, refl))
        (λ e.
          if_split (Goes max_attempts attempt) (ltb 128 (length parsed.errors)) (λ k. (refl, refl))
            (λ k.
              with_absorbed-Goes max_attempts attempt parsed (absorb parsed.recommendations st 0)
                (λ next n found. absorb-IsLoopState parsed.recommendations st next 0 n h found)))

  -- The end of the loop at one of the attempts up to the last.
  abbrev pub Ended : ℕ → LoopResult → Type 0
  Ended max_attempts (ok o) = Sound o × (1 ≤ o.attempt_count) × (o.attempt_count ≤ max_attempts)
  Ended max_attempts (err f) = (is_reached f.reason ≡ true) × (f.attempt_count ≤ max_attempts)

  module _ (invoke : ℕ → List Value → Answer) where
    attempt-Ended :
        (max_attempts attempt : ℕ) (r : LoopResult)
        → 1 ≤ attempt
        → attempt ≤ max_attempts
        → EndsAt attempt r
        → Ended max_attempts r
    attempt-Ended max_attempts attempt (ok o) h k e =
        (e.0, omega (arith, e.1, h), omega (arith, e.1, k))
    attempt-Ended max_attempts attempt (err f) h k e = (e.0, omega (arith, e.1, k))

    attempts-Ended :
        (max_attempts left attempt : ℕ) (st : LoopState)
        → left + attempt ≡ suc max_attempts
        → 1 ≤ attempt
        → attempt ≤ max_attempts
        → IsLoopState st
        → Ended max_attempts (attempts serialize invoke max_attempts left attempt st)
    unfolding attempts
    attempts-Ended max_attempts zero attempt st e h k inv = absurd (omega (arith, e, k))
    attempts-Ended max_attempts (suc left) attempt st e h k inv =
        go
          (attempt_round serialize max_attempts attempt st
            (invoke attempt (map to_json st.ordered)))
          (round-Goes max_attempts attempt st (invoke attempt (map to_json st.ordered)) inv)
          (λ next n i.
            attempts-Ended max_attempts left (suc attempt) next (omega (arith, e)) (omega arith) n
              i)
      where
        go :
            (r : Round)
            → Goes max_attempts attempt r
            → ((next : LoopState)
                → suc attempt ≤ max_attempts
                → IsLoopState next
                → Ended max_attempts
                    (attempts serialize invoke max_attempts left (suc attempt) next))
            → Ended max_attempts (elim r [
              | finished result ↦ result
              | again next ↦ attempts serialize invoke max_attempts left (suc attempt) next
            ])
        go (finished r) g ih = attempt-Ended max_attempts attempt r h k g
        go (again next) g ih = ih next (ground (arith, g.1, k)) g.0

    -- With at least one attempt allowed, the loop ends within the allowed attempts, never in the
    -- state it calls unreachable, whatever the advisor answers. Where it succeeds, its
    -- recommendations have keys that are all different, at most 1,024 in number, each with 1 to
    -- 16 columns, a valid index method and a reason of at most 1,024 bytes, and there are at most
    -- 512 error items.
    pub loop-Ended :
        (enabled : Bool) (command : Option Text) (max_attempts : ℕ)
        → 1 ≤ max_attempts
        → Ended max_attempts
            (run_external_advisor_loop serialize invoke enabled command max_attempts)
    unfolding run_external_advisor_loop
    loop-Ended false command max_attempts h = (refl, omega arith)
    loop-Ended true none max_attempts h = (refl, omega arith)
    loop-Ended true (some path) max_attempts h =
        attempts-Ended max_attempts max_attempts 1 (fresh serialize invoke) (omega arith)
          (omega arith) h (fresh-IsLoopState serialize invoke)
