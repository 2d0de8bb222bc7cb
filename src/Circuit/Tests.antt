-- ===== src/Circuit/Tests.antt =====
-- The breaker of src/server.rs at concrete inputs.
use postgres_mcp.Prelude.{
  ℕ, ◌≤◌, ◌<◌, ◌/◌, ◌≡◌, ◌↔◌, refl, ◌+◌, ◌*◌, true, false, none, some, List, [], ◌∷◌, Text, text_eq,
  codes, lookup, insert, arith, ltb, if◌then◌else◌,
}
use postgres_mcp.Circuit.{
  Breaker, CircuitBreakerConfig, success, retryable_failure, circuit_group_key, check_state,
  circuit_open_retry_after_ms, group_state, record_state, record_tool_outcome, from_env,
  remaining_ms, nanos_per_sec,
}
use postgres_mcp.Circuit.Bounds.{ConfigIsValid, IsValid, record-IsValid, from_env-ConfigIsValid}
use postgres_mcp.Circuit.Open.{
  IsLive, refused_iff, retry_after_le, record_isolated, record_keeps_open,
}
use postgres_mcp.Circuit.Trace.{
  Event, check, outcome, run, run-IsValid, fail_all, stays_closed_below_threshold,
  opens_at_threshold, success_resets_count,
}

abbrev config : CircuitBreakerConfig
config = record { enabled = true; failure_threshold = 3; cooldown = 30 * nanos_per_sec }

abbrev fresh : Breaker
fresh = record { config = config; poisoned = false; states = [] }

fresh-IsLive : IsLive fresh
fresh-IsLive = record { on = refl; sound = refl }

config-ConfigIsValid : ConfigIsValid config
config-ConfigIsValid = omega arith

fresh-IsValid : IsValid 0 fresh
unfolding lookup
fresh-IsValid = record { config_valid = config-ConfigIsValid; states_valid = λ k s e. absurd (cc) }

abbrev failures : List (Text × ℕ)
failures = (codes "query_sql", 5) ∷ (codes "render_sql", 7) ∷ []

-- Three failures of tools of one group.
abbrev opened : Breaker
opened = record_tool_outcome (fail_all fresh failures) (codes "query_tuples") retryable_failure 9

opened_state :
    group_state opened (codes "admin_sql")
    ≡ record { consecutive_retryable_failures = 0; open_until = some 30_000_000_009 }
unfolding fail_all record_tool_outcome record_state circuit_group_key lookup insert text_eq
opened_state = refl

opened-IsLive : IsLive opened
unfolding fail_all record_tool_outcome
opened-IsLive = record { on = refl; sound = refl }

from_env-ConfigIsValid_test :
    ConfigIsValid (from_env (some (codes " Off ")) (some (codes "0")) (some (codes "x")))
from_env-ConfigIsValid_test =
    from_env-ConfigIsValid (some (codes " Off ")) (some (codes "0")) (some (codes "x"))

refused_iff_test :
    ((r : ℕ) × ((circuit_open_retry_after_ms opened (codes "admin_sql") 100).0 ≡ some r))
    ↔ ((u : ℕ) × ((group_state opened (codes "admin_sql")).open_until ≡ some u) × (100 < u))
refused_iff_test = refused_iff opened (codes "admin_sql") 100 opened-IsLive

abbrev events : List (ℕ × Event)
events = (3, outcome (codes "query_sql") retryable_failure) ∷ (4, check (codes "render_sql")) ∷ []

run-IsValid_test : IsValid 4 (run fresh events)
run-IsValid_test = run-IsValid 0 fresh events (omega arith, (omega arith, tt)) fresh-IsValid

opened-IsValid : IsValid 9 opened
unfolding fail_all
opened-IsValid = record-IsValid 7 9 _ (codes "query_tuples") retryable_failure (omega arith) (
    record-IsValid 5 7 _ (codes "render_sql") retryable_failure (omega arith)
      (record-IsValid 0 5 fresh (codes "query_sql") retryable_failure (omega arith) fresh-IsValid))

opened_refuses : (circuit_open_retry_after_ms opened (codes "admin_sql") 9).0 ≡ some 30_000
unfolding fail_all record_tool_outcome record_state circuit_group_key circuit_open_retry_after_ms
    check_state lookup insert text_eq
opened_refuses = refl

retry_after_le_test : 30_000 ≤ opened.cooldown / 1_000_000
retry_after_le_test =
    retry_after_le opened (codes "admin_sql") 9 9 30_000 opened-IsLive opened-IsValid (omega arith)
      opened_refuses

record_isolated_example :
    (circuit_open_retry_after_ms
      (record_tool_outcome opened (codes "explain_query") success 20)
      (codes "query_sql")
      30).0
    ≡ (circuit_open_retry_after_ms opened (codes "query_sql") 30).0
unfolding circuit_group_key text_eq
record_isolated_example =
    record_isolated opened (codes "explain_query") (codes "query_sql") success 20 30 opened-IsLive
      (λ e. cc e)

record_keeps_open_test :
    (u' : ℕ) × ((group_state
        (record_tool_outcome opened (codes "query_sql") success 20)
        (codes "query_sql")).open_until
      ≡ some u')
    × (30_000_000_009 ≤ u')
unfolding fail_all record_tool_outcome record_state circuit_group_key lookup insert text_eq
record_keeps_open_test =
    record_keeps_open opened (codes "query_sql") success 20 30_000_000_009 opened-IsLive refl
      (omega arith) (omega arith)

stays_closed_below_threshold_example :
    (circuit_open_retry_after_ms (fail_all fresh failures) (codes "admin_sql") 8).0 ≡ none
unfolding circuit_group_key text_eq lookup
stays_closed_below_threshold_example =
    stays_closed_below_threshold fresh (codes "admin_sql") failures 8 fresh-IsLive
      config-ConfigIsValid (refl, (refl, tt)) refl (omega arith)

opens_at_threshold_example : (circuit_open_retry_after_ms opened (codes "admin_sql") 100).0 ≡ (
    if ltb 100 (9 + config.cooldown) then some (remaining_ms 100 (9 + config.cooldown)) else none)
unfolding circuit_group_key text_eq lookup
opens_at_threshold_example =
    opens_at_threshold fresh (codes "admin_sql") (codes "query_tuples") failures 9 100 fresh-IsLive
      config-ConfigIsValid (refl, (refl, tt)) refl refl refl

success_resets_count_test :
    (circuit_open_retry_after_ms
      (fail_all (record_tool_outcome fresh (codes "admin_sql") success 1) failures)
      (codes "admin_sql")
      8).0
    ≡ none
unfolding circuit_group_key text_eq lookup
success_resets_count_test =
    success_resets_count fresh (codes "admin_sql") success failures 1 8 fresh-IsLive
      config-ConfigIsValid (λ e. cc e) refl (refl, (refl, tt)) (omega arith)
