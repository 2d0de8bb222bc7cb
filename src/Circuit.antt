-- ===== src/Circuit.antt =====
-- The circuit breaker around tool calls: src/server.rs, `ToolCircuitBreakerConfig`,
-- `ToolCircuitState`, `circuit_group_key`, `circuit_open_retry_after_ms`, `record_tool_outcome`
-- and the guard at the head of `call_tool`. An `Instant` is a number of nanoseconds, and the
-- clock is an argument of each call. `Instant + Duration` is an unbounded sum here; in the source it
-- panics where the platform cannot represent it.
pub mod Open
pub mod Bounds
pub mod Trace
mod Tests
use postgres_mcp.Prelude.{
  ℕ, ◌+◌, ◌-◌, ◌/◌, ◌%◌, ◌^◌, ◌*◌, min, max, Bool, true, false, ◌&&◌, ◌||◌, Option, none, some,
  List, [], ◌∷◌, ◌==◌, if◌then◌else◌, ltb, leb, Text, text_Eq, codes, elem, is_some, lookup, insert,
  trim, to_ascii_lowercase, parse_unsigned,
}

pub record CircuitBreakerConfig : Type 0 where
  pub enabled : Bool
  pub failure_threshold : ℕ
  pub cooldown : ℕ

-- `parse_bool_env`, `parse_u32_env` and `parse_u64_env`, from the variable's value where it is set.
unfoldable pub parse_bool_env : Option Text → Option Bool
parse_bool_env none = none
parse_bool_env (some raw) =
    let word = to_ascii_lowercase (trim raw) in
    if elem word (codes "1" ∷ codes "true" ∷ codes "yes" ∷ codes "on" ∷ [])
    then some true
    else if elem word (codes "0" ∷ codes "false" ∷ codes "no" ∷ codes "off" ∷ [])
    then some false
    else none

unfoldable pub parse_u32_env : Option Text → Option ℕ
parse_u32_env none = none
parse_u32_env (some raw) = parse_unsigned (2 ^ 32) (trim raw)

unfoldable pub parse_u64_env : Option Text → Option ℕ
parse_u64_env none = none
parse_u64_env (some raw) = parse_unsigned (2 ^ 64) (trim raw)

abbrev pub unwrap_or {ℓ} : {A : Type ℓ} → Option A → A → A
unwrap_or none d = d
unwrap_or (some a) d = a

abbrev pub default_failure_threshold : ℕ
default_failure_threshold = 3

abbrev pub default_cooldown_sec : ℕ
default_cooldown_sec = 30

abbrev pub nanos_per_sec : ℕ
nanos_per_sec = 1_000_000_000

unfoldable pub from_env : Option Text → Option Text → Option Text → CircuitBreakerConfig
unfolding parse_bool_env parse_u32_env parse_u64_env
from_env enabled threshold cooldown = record {
  enabled = unwrap_or (parse_bool_env enabled) true;
  failure_threshold = max (unwrap_or (parse_u32_env threshold) default_failure_threshold) 1;
  cooldown = max (unwrap_or (parse_u64_env cooldown) default_cooldown_sec) 1 * nanos_per_sec;
}

pub record CircuitState : Type 0 where
  pub consecutive_retryable_failures : ℕ
  pub open_until : Option ℕ

abbrev pub closed : CircuitState
closed = record { consecutive_retryable_failures = 0; open_until = none }

pub data ToolCallOutcome : Type 0 where
  success retryable_failure non_retryable_failure : ToolCallOutcome

-- The fields of `PostgresMcp` that the breaker reads. A poisoned lock is one that a panic left.
pub record Breaker : Type 0 where
  pub config : CircuitBreakerConfig
  pub open config use *
  pub poisoned : Bool
  pub states : List (Text × CircuitState)

-- The tools that share one circuit.
abbrev pub sql_surface_tools : List Text
sql_surface_tools =
    codes "query_sql"
    ∷ codes "query_tuples"
    ∷ codes "render_sql"
    ∷ codes "describe_sql"
    ∷ codes "admin_sql"
    ∷ codes "query_job_start"
    ∷ codes "export_job_start"
    ∷ []

unfoldable pub circuit_group_key : Text → Text
circuit_group_key tool = if elem tool sql_surface_tools then codes "sql_surface" else tool

-- `open_until.duration_since(now).as_millis() as u64`
abbrev pub remaining_ms : ℕ → ℕ → ℕ
remaining_ms now until = (until - now) / 1_000_000 % 2 ^ 64

-- The answer for the state of the tool's group, and the state that is stored.
unfoldable pub check_state : ℕ → CircuitState → Option ℕ × CircuitState
check_state now s = elim s.open_until [
  | none ↦ (none, s)
  | some until ↦ if ltb now until then (some (remaining_ms now until), s) else (none, closed)
]

abbrev pub check_entry : Text → ℕ → Breaker → Option CircuitState → Option ℕ × Breaker
check_entry key now b none = (none, b)
check_entry key now b (some s) =
    let (answer, s') = check_state now s in (answer, record b { states = insert key s' b.states })

unfoldable pub circuit_open_retry_after_ms : Breaker → Text → ℕ → Option ℕ × Breaker
circuit_open_retry_after_ms b tool now =
    if b.enabled
    then if b.poisoned
      then (none, b)
      else check_entry (circuit_group_key tool) now b (lookup (circuit_group_key tool) b.states)
    else (none, b)

abbrev pub u32_max : ℕ
u32_max = 4_294_967_295

-- `record_tool_outcome` first forgets a circuit whose time is over.
abbrev pub refresh : ℕ → CircuitState → CircuitState
refresh now s = elim s.open_until [ none ↦ s | some until ↦ if leb until now then closed else s ]

abbrev pub count_failure : CircuitBreakerConfig → ℕ → CircuitState → CircuitState
count_failure c now s =
    let n = min (s.consecutive_retryable_failures + 1) u32_max in
    if leb c.failure_threshold n
    then record { consecutive_retryable_failures = 0; open_until = some (now + c.cooldown) }
    else record s { consecutive_retryable_failures = n }

unfoldable pub record_state :
    CircuitBreakerConfig → ToolCallOutcome → ℕ → CircuitState → CircuitState
record_state c success now s = record (refresh now s) { consecutive_retryable_failures = 0 }
record_state c non_retryable_failure now s = record (refresh now s) {
  consecutive_retryable_failures = 0;
}
record_state c retryable_failure now s = count_failure c now (refresh now s)

unfoldable pub record_tool_outcome : Breaker → Text → ToolCallOutcome → ℕ → Breaker
record_tool_outcome b tool outcome now =
    let key = circuit_group_key tool in
    let s = unwrap_or (lookup key b.states) closed in
    if b.enabled
    then if b.poisoned
      then b
      else record b { states = insert key (record_state b.config outcome now s) b.states }
    else b

-- The state of a tool's group; a group without an entry is closed.
abbrev pub group_state : Breaker → Text → CircuitState
group_state b tool = unwrap_or (lookup (circuit_group_key tool) b.states) closed
