-- ===== src/Circuit/Trace.antt =====
-- Sequences of tool calls against the breaker of src/server.rs.
use postgres_mcp.Prelude.{
  ℕ, ◌+◌, ◌≤◌, ◌<◌, ◌≡◌, ◌≢◌, refl, sym, ap, ◌∙◌, none, some, List, [], ◌∷◌, arith, Text, text_Eq,
  if◌then◌else◌, ltb, length, subst,
}
use postgres_mcp.Circuit.{
  Breaker, CircuitState, CircuitBreakerConfig, ToolCallOutcome, success, retryable_failure,
  non_retryable_failure, closed, circuit_group_key, check_state, group_state,
  circuit_open_retry_after_ms, record_state, record_tool_outcome, u32_max, remaining_ms,
}
use postgres_mcp.Circuit.Bounds.{ConfigIsValid, IsValid, check-IsValid, record-IsValid}
use postgres_mcp.Circuit.Open.{IsLive, record-IsLive, group_state-record_self, check_live}

-- What `call_tool` does to the breaker: the guard's check, or the record of an outcome.
pub data Event : Type 0 where
  check : Text → Event
  outcome : Text → ToolCallOutcome → Event

unfoldable pub step : Breaker → ℕ × Event → Breaker
step b (now, check tool) = (circuit_open_retry_after_ms b tool now).1
step b (now, outcome tool o) = record_tool_outcome b tool o now

unfoldable pub run : Breaker → List (ℕ × Event) → Breaker
unfolding step
run b [] = b
run b (e ∷ es) = run (step b e) es

-- The times of the events do not fall, from the clock on.
abbrev pub InOrder : ℕ → List (ℕ × Event) → Type 0
InOrder clock [] = Unit {0}
InOrder clock ((now, e) ∷ es) = (clock ≤ now) × InOrder now es

abbrev pub last_time : ℕ → List (ℕ × Event) → ℕ
last_time clock [] = clock
last_time clock ((now, e) ∷ es) = last_time now es

step-IsValid :
    (clock now : ℕ) (b : Breaker) (e : Event)
    → clock ≤ now
    → IsValid clock b
    → IsValid now (step b (now, e))
unfolding step
step-IsValid clock now b (check tool) h v = check-IsValid clock now b tool h v
step-IsValid clock now b (outcome tool o) h v = record-IsValid clock now b tool o h v

-- After any events in the order of time, every count is below the threshold and every open
-- circuit ends within one cooldown of the last event.
pub run-IsValid :
    (clock : ℕ) (b : Breaker) (es : List (ℕ × Event))
    → InOrder clock es
    → IsValid clock b
    → IsValid (last_time clock es) (run b es)
unfolding run
run-IsValid clock b [] h v = v
run-IsValid clock b ((now, e) ∷ es) h v =
    run-IsValid now (step b (now, e)) es h.1 (step-IsValid clock now b e h.0 v)

-- Retryable failures of the listed tools at the listed times, one after another.
unfoldable pub fail_all : Breaker → List (Text × ℕ) → Breaker
fail_all b [] = b
fail_all b ((tool, now) ∷ fs) = fail_all (record_tool_outcome b tool retryable_failure now) fs

-- All of the tools share the circuit of the given one.
abbrev pub SameGroup : Text → List (Text × ℕ) → Type 0
SameGroup tool [] = Unit {0}
SameGroup tool ((other, now) ∷ fs) =
    (circuit_group_key other ≡ circuit_group_key tool) × SameGroup tool fs

abbrev pub counting : ℕ → CircuitState
counting n = record { consecutive_retryable_failures = n; open_until = none }

record_state-counting :
    (c : CircuitBreakerConfig) (n now : ℕ)
    → c.failure_threshold ≤ u32_max
    → n + 1 < c.failure_threshold
    → record_state c retryable_failure now (counting n) ≡ counting (n + 1)
unfolding record_state
record_state-counting c n now h k = ground arith

record_state-reached :
    (c : CircuitBreakerConfig) (n now : ℕ)
    → c.failure_threshold ≤ u32_max
    → n + 1 ≡ c.failure_threshold
    → record_state c retryable_failure now (counting n)
      ≡ record { consecutive_retryable_failures = 0; open_until = some (now + c.cooldown) }
unfolding record_state
record_state-reached c n now h k = ground arith

fail_all-IsLive : (b : Breaker) (fs : List (Text × ℕ)) → IsLive b → IsLive (fail_all b fs)
unfolding fail_all
fail_all-IsLive b [] v = v
fail_all-IsLive b ((tool, now) ∷ fs) v =
    fail_all-IsLive (record_tool_outcome b tool retryable_failure now) fs
      (record-IsLive b tool retryable_failure now v)

config-record :
    (b : Breaker) (tool : Text) (o : ToolCallOutcome) (now : ℕ)
    → (record_tool_outcome b tool o now).config ≡ b.config
unfolding record_tool_outcome
config-record b tool o now = ground arith

config-fail_all : (b : Breaker) (fs : List (Text × ℕ)) → (fail_all b fs).config ≡ b.config
unfolding fail_all
config-fail_all b [] = refl
config-fail_all b ((tool, now) ∷ fs) =
    config-fail_all (record_tool_outcome b tool retryable_failure now) fs
    ∙ config-record b tool retryable_failure now

group_state-fail_all :
    (b : Breaker) (tool : Text) (n : ℕ) (fs : List (Text × ℕ))
    → IsLive b
    → b.failure_threshold ≤ u32_max
    → SameGroup tool fs
    → group_state b tool ≡ counting n
    → n + length fs < b.failure_threshold
    → group_state (fail_all b fs) tool ≡ counting (n + length fs)
unfolding fail_all
group_state-fail_all b tool n [] v h g e k = e ∙ ap counting (omega arith)
group_state-fail_all b tool n ((other, now) ∷ fs) v h g e k =
    group_state-fail_all (record_tool_outcome b other retryable_failure now) tool (n + 1) fs
      (record-IsLive b other retryable_failure now v) (omega (arith, threshold_same)) g.1
      (group_state-record_self b tool other retryable_failure now v g.0
        ∙ ap (record_state b.config retryable_failure now) e
        ∙ record_state-counting b.config n now h (omega arith))
      (omega (arith, threshold_same))
    ∙ ap counting (omega arith)
  where
    threshold_same :
        (record_tool_outcome b other retryable_failure now).failure_threshold ≡ b.failure_threshold
    threshold_same = ap (λ c. c.failure_threshold) (config-record b other retryable_failure now)

-- Fewer retryable failures in a row than the threshold never refuse a call, whichever tools of
-- the group they come from.
pub stays_closed_below_threshold :
    (b : Breaker) (tool : Text) (fs : List (Text × ℕ)) (now : ℕ)
    → IsLive b
    → ConfigIsValid b.config
    → SameGroup tool fs
    → group_state b tool ≡ closed
    → length fs < b.failure_threshold
    → (circuit_open_retry_after_ms (fail_all b fs) tool now).0 ≡ none
unfolding check_state
stays_closed_below_threshold b tool fs now v c g e k =
    check_live (fail_all b fs) tool now (fail_all-IsLive b fs v)
    ∙ ap (λ s. (check_state now s).0)
        (group_state-fail_all b tool 0 fs v c.threshold_le g e (omega arith))

-- The failure that completes the threshold, at time `at`, opens the circuit: from then on every
-- call of a tool of the group is refused until one cooldown has passed, and none after that.
pub opens_at_threshold :
    (b : Breaker) (tool other : Text) (fs : List (Text × ℕ)) (at now : ℕ)
    → IsLive b
    → ConfigIsValid b.config
    → SameGroup tool fs
    → circuit_group_key other ≡ circuit_group_key tool
    → group_state b tool ≡ closed
    → length fs + 1 ≡ b.failure_threshold
    → (circuit_open_retry_after_ms
        (record_tool_outcome (fail_all b fs) other retryable_failure at)
        tool
        now).0
      ≡ (if ltb now (at + b.cooldown) then some (remaining_ms now (at + b.cooldown)) else none)
unfolding check_state
opens_at_threshold b tool other fs at now v c g eg e k =
    check_live _ tool now (record-IsLive _ other retryable_failure at live)
    ∙ ap (λ s. (check_state now s).0)
        (group_state-record_self (fail_all b fs) tool other retryable_failure at live eg
          ∙ ap (record_state (fail_all b fs).config retryable_failure at)
              (group_state-fail_all b tool 0 fs v c.threshold_le g e (omega arith))
          ∙ ap (λ d. record_state d retryable_failure at (counting (0 + length fs)))
              (config-fail_all b fs)
          ∙ record_state-reached b.config (0 + length fs) at c.threshold_le (omega arith))
    ∙ ground arith
  where
    live : IsLive (fail_all b fs)
    live = fail_all-IsLive b fs v

-- A success, or a failure that is not retryable, at a closed circuit starts the count again: the
-- next failures refuse a call only if they reach the threshold by themselves.
pub success_resets_count :
    (b : Breaker) (tool : Text) (o : ToolCallOutcome) (fs : List (Text × ℕ)) (at now : ℕ)
    → IsLive b
    → ConfigIsValid b.config
    → o ≢ retryable_failure
    → (group_state b tool).open_until ≡ none
    → SameGroup tool fs
    → length fs < b.failure_threshold
    → (circuit_open_retry_after_ms (fail_all (record_tool_outcome b tool o at) fs) tool now).0
      ≡ none
unfolding record_state
success_resets_count b tool o fs at now v c n e g k =
    stays_closed_below_threshold (record_tool_outcome b tool o at) tool fs now
      (record-IsLive b tool o at v) (subst ConfigIsValid (sym (config-record b tool o at)) c) g
      (group_state-record_self b tool tool o at v refl ∙ reset o n)
      (omega (arith, ap (λ d. d.failure_threshold) (config-record b tool o at)))
  where
    reset :
        (o : ToolCallOutcome)
        → o ≢ retryable_failure
        → record_state b.config o at (group_state b tool) ≡ closed
    reset success n = ground (arith, e)
    reset non_retryable_failure n = ground (arith, e)
    reset retryable_failure n = absurd (n refl)
