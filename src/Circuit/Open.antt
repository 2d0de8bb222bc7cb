-- ===== src/Circuit/Open.antt =====
-- When the breaker of src/server.rs refuses a call, and which calls share a circuit.
use postgres_mcp.Prelude.{
  ℕ, ◌+◌, ◌/◌, ◌≤◌, ◌<◌, ◌≡◌, ◌≢◌, ◌↔◌, refl, sym, ap, ◌∙◌, true, false, Option, none, some, arith,
  Text, text_Eq, text_eq_iff, insert, lookup-insert, ◌==◌, if◌then◌else◌, leb, min, Bool-cases, inl,
  inr,
}
use postgres_mcp.Circuit.{
  Breaker, CircuitState, CircuitBreakerConfig, ToolCallOutcome, success, retryable_failure,
  non_retryable_failure, circuit_group_key, check_state, group_state, circuit_open_retry_after_ms,
  record_state, record_tool_outcome, u32_max, remaining_ms,
}
use postgres_mcp.Circuit.Bounds.{IsValid, StateIsValid, stored-StateIsValid}

-- A breaker that is switched on and whose lock no panic has poisoned.
pub record IsLive (b : Breaker) : Type 0 where
  pub on : b.enabled ≡ true
  pub sound : b.poisoned ≡ false

pub record_live :
    (b : Breaker) (tool : Text) (o : ToolCallOutcome) (now : ℕ)
    → IsLive b
    → record_tool_outcome b tool o now ≡ record b {
      states =
          insert
            (circuit_group_key tool)
            (record_state b.config o now (group_state b tool))
            b.states;
    }
unfolding record_tool_outcome
record_live b tool o now v = ground (arith, v.on, v.sound)

pub record-IsLive :
    (b : Breaker) (tool : Text) (o : ToolCallOutcome) (now : ℕ)
    → IsLive b
    → IsLive (record_tool_outcome b tool o now)
unfolding record_tool_outcome
record-IsLive b tool o now v = ground (arith, v.on, v.sound)

-- Only the group of the tool that was called changes.
pub group_state-record :
    (b : Breaker) (tool other : Text) (o : ToolCallOutcome) (now : ℕ)
    → IsLive b
    → group_state (record_tool_outcome b tool o now) other ≡ (
        if circuit_group_key tool == circuit_group_key other
        then record_state b.config o now (group_state b tool)
        else group_state b other)
group_state-record b tool other o now v =
    rw (record_live b tool o now v) (rw (lookup-insert _ _ _ b.states) (ground arith))

-- The answer of the guard is that of the group's state.
pub check_live :
    (b : Breaker) (tool : Text) (now : ℕ)
    → IsLive b
    → (circuit_open_retry_after_ms b tool now).0 ≡ (check_state now (group_state b tool)).0
unfolding circuit_open_retry_after_ms check_state
check_live b tool now v = ground (arith, v.on, v.sound)

-- A live breaker refuses a call exactly while the circuit of the tool's group is open, that is
-- until the stored instant is reached.
pub refused_iff :
    (b : Breaker) (tool : Text) (now : ℕ)
    → IsLive b
    → ((r : ℕ) × ((circuit_open_retry_after_ms b tool now).0 ≡ some r))
      ↔ ((u : ℕ) × ((group_state b tool).open_until ≡ some u) × (now < u))
unfolding check_state
refused_iff b tool now v =
    rw (check_live b tool now v) (to (group_state b tool), from (group_state b tool))
  where
    to :
        (s : CircuitState)
        → (r : ℕ) × ((check_state now s).0 ≡ some r)
        → (u : ℕ) × (s.open_until ≡ some u) × (now < u)
    to s (r, e) = open_of_some s.open_until refl
      where
        open_of_some :
            (o : Option ℕ) → s.open_until ≡ o → (u : ℕ) × (s.open_until ≡ some u) × (now < u)
        open_of_some none f = absurd (ground arith)
        open_of_some (some u) f = (u, f, ground arith)

    from :
        (s : CircuitState)
        → (u : ℕ) × (s.open_until ≡ some u) × (now < u)
        → (r : ℕ) × ((check_state now s).0 ≡ some r)
    from s (u, e, h) = (remaining_ms now u, ground arith)

check_state-le :
    (c : CircuitBreakerConfig) (clock now r : ℕ) (s : CircuitState) (o : Option ℕ)
    → s.open_until ≡ o
    → StateIsValid c clock s
    → clock ≤ now
    → (check_state now s).0 ≡ some r
    → r ≤ c.cooldown / 1_000_000
unfolding check_state
check_state-le c clock now r s none f w h e = absurd (ground arith)
check_state-le c clock now r s (some u) f w h e = ground (arith, w.bounded u)

-- While a valid, live breaker refuses, the wait it names is at most one cooldown.
pub retry_after_le :
    (b : Breaker) (tool : Text) (clock now r : ℕ)
    → IsLive b
    → IsValid clock b
    → clock ≤ now
    → (circuit_open_retry_after_ms b tool now).0 ≡ some r
    → r ≤ b.cooldown / 1_000_000
retry_after_le b tool clock now r v w h e =
    check_state-le b.config clock now r (group_state b tool) _ refl
      (stored-StateIsValid clock b (circuit_group_key tool) _ w refl) h
      (sym (check_live b tool now v) ∙ e)

-- An outcome of one tool leaves the guard's answer for every tool of another group as it was.
pub record_isolated :
    (b : Breaker) (tool other : Text) (o : ToolCallOutcome) (now later : ℕ)
    → IsLive b
    → circuit_group_key tool ≢ circuit_group_key other
    → (circuit_open_retry_after_ms (record_tool_outcome b tool o now) other later).0
      ≡ (circuit_open_retry_after_ms b other later).0
record_isolated b tool other o now later v n =
    check_live _ other later (record-IsLive b tool o now v)
    ∙ ap (λ s. (check_state later s).0) (group_state-record b tool other o now v ∙ same)
    ∙ sym (check_live b other later v)
  where
    same :
        (if circuit_group_key tool == circuit_group_key other
          then record_state b.config o now (group_state b tool)
          else group_state b other)
        ≡ group_state b other
    same = ground (arith, text_eq_iff (circuit_group_key tool) (circuit_group_key other), n)

-- The state of the tool's own group after an outcome.
pub group_state-record_self :
    (b : Breaker) (tool other : Text) (o : ToolCallOutcome) (now : ℕ)
    → IsLive b
    → circuit_group_key other ≡ circuit_group_key tool
    → group_state (record_tool_outcome b other o now) tool
      ≡ record_state b.config o now (group_state b tool)
group_state-record_self b tool other o now v e =
    group_state-record b other tool o now v
    ∙ ground (arith, text_eq_iff (circuit_group_key other) (circuit_group_key tool), e)

record_state_keeps_open :
    (c : CircuitBreakerConfig) (o : ToolCallOutcome) (now u : ℕ) (s : CircuitState)
    → s.open_until ≡ some u
    → now < u
    → u ≤ now + c.cooldown
    → (u' : ℕ) × ((record_state c o now s).open_until ≡ some u') × (u ≤ u')
unfolding record_state
record_state_keeps_open c success now u s e h k = (u, ground arith, omega arith)
record_state_keeps_open c non_retryable_failure now u s e h k = (u, ground arith, omega arith)
record_state_keeps_open c retryable_failure now u s e h k =
    elim (Bool-cases
      (leb c.failure_threshold (min (s.consecutive_retryable_failures + 1) u32_max))) [
        | inl reached ↦ (now + c.cooldown, ground arith, omega arith)
        | inr under ↦ (u, ground arith, omega arith)
      ]

-- No outcome closes an open circuit early: a call that was under way when the circuit opened
-- leaves it open for at least as long.
pub record_keeps_open :
    (b : Breaker) (tool : Text) (o : ToolCallOutcome) (now u : ℕ)
    → IsLive b
    → (group_state b tool).open_until ≡ some u
    → now < u
    → u ≤ now + b.cooldown
    → (u' : ℕ) × ((group_state (record_tool_outcome b tool o now) tool).open_until ≡ some u')
      × (u ≤ u')
record_keeps_open b tool o now u v e h k =
    rw (group_state-record_self b tool tool o now v refl)
      (record_state_keeps_open b.config o now u (group_state b tool) e h k)
