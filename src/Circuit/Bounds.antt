-- ===== src/Circuit/Bounds.antt =====
-- The invariant of the breaker in src/server.rs, kept by every check and every recorded outcome.
use postgres_mcp.Prelude.{
  ℕ, ◌+◌, ◌^◌, ◌≤◌, ◌<◌, ◌≡◌, refl, Bool, true, false, Option, none, some, arith, Text, text_Eq,
  lookup, insert, lookup-insert, ◌==◌, if◌then◌else◌, trim, parse_unsigned-lt, sym, ◌∙◌, if_both,
  some_eq_some,
}
use mathlib.Core.Path.{subst}
use postgres_mcp.Circuit.{
  Breaker, CircuitState, CircuitBreakerConfig, ToolCallOutcome, success, retryable_failure,
  non_retryable_failure, closed, circuit_group_key, check_state, check_entry,
  circuit_open_retry_after_ms, record_state, record_tool_outcome, u32_max, nanos_per_sec, from_env,
  unwrap_or, parse_u32_env,
}

pub record ConfigIsValid (c : CircuitBreakerConfig) : Type 0 where
  pub threshold_pos : 1 ≤ c.failure_threshold
  pub threshold_le : c.failure_threshold ≤ u32_max
  pub cooldown_pos : nanos_per_sec ≤ c.cooldown

-- The count stays below the threshold, and an open circuit ends within one cooldown of the clock.
pub record StateIsValid (c : CircuitBreakerConfig) (clock : ℕ) (s : CircuitState) : Type 0 where
  pub below : s.consecutive_retryable_failures < c.failure_threshold
  pub bounded : (u : ℕ) → s.open_until ≡ some u → u ≤ clock + c.cooldown

pub record IsValid (clock : ℕ) (b : Breaker) : Type 0 where
  pub config_valid : ConfigIsValid b.config
  pub states_valid :
      (k : Text) (s : CircuitState) → lookup k b.states ≡ some s → StateIsValid b.config clock s

pub closed-StateIsValid :
    (c : CircuitBreakerConfig) (clock : ℕ) → ConfigIsValid c → StateIsValid c clock closed
closed-StateIsValid c clock v = record { below = v.threshold_pos; bounded = λ u e. cc }

check_state-StateIsValid :
    (c : CircuitBreakerConfig) (clock now : ℕ) (s : CircuitState)
    → ConfigIsValid c
    → clock ≤ now
    → StateIsValid c clock s
    → StateIsValid c now (check_state now s).1
unfolding check_state
check_state-StateIsValid c clock now s v h w = record {
  below = ground (arith, v.threshold_pos, w.below);
  bounded = λ u e. ground (arith, w.bounded u);
}

record_state-StateIsValid :
    (c : CircuitBreakerConfig) (o : ToolCallOutcome) (clock now : ℕ) (s : CircuitState)
    → ConfigIsValid c
    → clock ≤ now
    → StateIsValid c clock s
    → StateIsValid c now (record_state c o now s)
unfolding record_state
record_state-StateIsValid c success clock now s v h w = record {
  below = ground (arith, v.threshold_pos);
  bounded = λ u e. ground (arith, w.bounded u);
}
record_state-StateIsValid c retryable_failure clock now s v h w = record {
  below = ground (arith, v.threshold_pos, v.threshold_le, w.below);
  bounded = λ u e. ground (arith, w.bounded u);
}
record_state-StateIsValid c non_retryable_failure clock now s v h w = record {
  below = ground (arith, v.threshold_pos);
  bounded = λ u e. ground (arith, w.bounded u);
}

later :
    {c : CircuitBreakerConfig} {clock now : ℕ} {s : CircuitState}
    → clock ≤ now
    → StateIsValid c clock s
    → StateIsValid c now s
later h w = record { below = w.below; bounded = λ u e. omega (arith, w.bounded u e) }

pub IsValid-later : {clock now : ℕ} {b : Breaker} → clock ≤ now → IsValid clock b → IsValid now b
IsValid-later h v = record {
  config_valid = v.config_valid;
  states_valid = λ k s e. later h (v.states_valid k s e);
}

-- One group's state is replaced by a valid one.
insert-IsValid :
    (clock now : ℕ) (b : Breaker) (key : Text) (s' : CircuitState)
    → clock ≤ now
    → IsValid clock b
    → StateIsValid b.config now s'
    → IsValid now (record b { states = insert key s' b.states })
insert-IsValid clock now b key s' h v w = record {
  config_valid = v.config_valid;
  states_valid = λ k s e. pick k s (key == k) (sym (lookup-insert key k s' b.states) ∙ e);
}
  where
    pick :
        (k : Text) (s : CircuitState) (t : Bool)
        → (if t then some s' else lookup k b.states) ≡ some s
        → StateIsValid b.config now s
    pick k s true e = subst (StateIsValid b.config now) (some_eq_some e) w
    pick k s false e = later h (v.states_valid k s e)

check_entry-IsValid :
    (clock now : ℕ) (b : Breaker) (key : Text) (found : Option CircuitState)
    → clock ≤ now
    → IsValid clock b
    → lookup key b.states ≡ found
    → IsValid now (check_entry key now b found).1
check_entry-IsValid clock now b key none h v e = IsValid-later h v
check_entry-IsValid clock now b key (some s) h v e =
    insert-IsValid clock now b key (check_state now s).1 h v
      (check_state-StateIsValid b.config clock now s v.config_valid h (v.states_valid key s e))

-- A guard check at a later time keeps the invariant.
pub check-IsValid :
    (clock now : ℕ) (b : Breaker) (tool : Text)
    → clock ≤ now
    → IsValid clock b
    → IsValid now (circuit_open_retry_after_ms b tool now).1
unfolding circuit_open_retry_after_ms
check-IsValid clock now b tool h v =
    let P : Option ℕ × Breaker → Type 0 = λ r. IsValid now r.1 in
    if_both P b.enabled
      (if_both P b.poisoned (IsValid-later h v)
        (check_entry-IsValid clock now b (circuit_group_key tool) _ h v refl))
      (IsValid-later h v)

pub stored-StateIsValid :
    (clock : ℕ) (b : Breaker) (key : Text) (found : Option CircuitState)
    → IsValid clock b
    → lookup key b.states ≡ found
    → StateIsValid b.config clock (unwrap_or found closed)
stored-StateIsValid clock b key none v e = closed-StateIsValid b.config clock v.config_valid
stored-StateIsValid clock b key (some s) v e = v.states_valid key s e

-- So does a recorded outcome.
pub record-IsValid :
    (clock now : ℕ) (b : Breaker) (tool : Text) (o : ToolCallOutcome)
    → clock ≤ now
    → IsValid clock b
    → IsValid now (record_tool_outcome b tool o now)
unfolding record_tool_outcome
record-IsValid clock now b tool o h v =
    if_both (IsValid now) b.enabled
      (if_both (IsValid now) b.poisoned (IsValid-later h v) (
        insert-IsValid clock now b _ _ h v (
          record_state-StateIsValid b.config o clock now _ v.config_valid h
            (stored-StateIsValid clock b (circuit_group_key tool) _ v refl))))
      (IsValid-later h v)

default-lt :
    (d limit : ℕ) (o : Option ℕ)
    → d < limit
    → ((n : ℕ) → o ≡ some n → n < limit)
    → unwrap_or o d < limit
default-lt d limit none h f = h
default-lt d limit (some n) h f = f n refl

parse_u32_env-lt : (raw : Option Text) (n : ℕ) → parse_u32_env raw ≡ some n → n < 2 ^ 32
unfolding parse_u32_env
parse_u32_env-lt none n e = cc
parse_u32_env-lt (some raw) n e = parse_unsigned-lt (2 ^ 32) (trim raw) n (omega arith) e

-- The configuration that the environment yields is valid, whatever its variables hold.
pub from_env-ConfigIsValid :
    (enabled threshold cooldown : Option Text) → ConfigIsValid (from_env enabled threshold cooldown)
unfolding from_env
from_env-ConfigIsValid enabled threshold cooldown = record {
  threshold_pos = omega arith;
  threshold_le = omega (
    arith,
    default-lt 3 (2 ^ 32) (parse_u32_env threshold) (omega arith) (parse_u32_env-lt threshold),
  );
  cooldown_pos = omega arith;
}
