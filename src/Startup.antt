-- ===== src/Startup.antt =====
-- Start-up of the server: src/startup_coordination.rs (the lease, its fence and the journal of
-- phases) and src/startup_dependencies.rs (the relations that must exist). This file holds the
-- coordination's configuration and the text that its statements and errors are made of.
pub mod Lease
pub mod Journal
pub mod Acquire
pub mod Dependencies
pub mod Relations
pub mod Settings
pub mod Literals
pub mod Exclusion
pub mod Fences
pub mod Phases
pub mod Done
mod Tests
use postgres_mcp.Prelude.{
  ℕ, suc, ◌+◌, ◌*◌, ◌^◌, ◌≤◌, ◌<◌, ◌≡◌, refl, Bool, true, false, not, ◌&&◌, ◌||◌, Option, none,
  some, List, [], ◌∷◌, ◌++◌, ◌==◌, if◌then◌else◌, ltb, leb, nat_eq, Text, text_Eq, codes, length,
  all, take, trim, is_empty, byte_len, is_ascii_alphanumeric, to_ascii_lowercase, parse_unsigned,
}
use postgres_mcp.Errors.{StartupRole, runtime, migrator}

-- The errors that the coordination returns, without their wording.
pub data StartupError : Type 0 where
  invalid_setting : StartupError
  lease_busy : StartupError
  lease_lost : StartupError
  invalid_phase : StartupError
  database_failed : StartupError
  work_failed : (message : Text) → StartupError
  journal_failed : (message : Text) → StartupError

pub data Result (A : Type 0) : Type 0 where
  ok : A → Result A
  err : StartupError → Result A

pub data StartupCoordinationMode : Type 0 where
  off : StartupCoordinationMode
  lease : StartupCoordinationMode

unfoldable pub parse_mode : Text → Result StartupCoordinationMode
parse_mode raw =
    let word = to_ascii_lowercase (trim raw) in
    if word == codes "off"
    then ok off
    else if word == codes "lease"
    then ok lease
    else err invalid_setting

-- `parse_u64_env` of a variable that is absent or holds text.
unfoldable pub parse_setting : Option Text → Result (Option ℕ)
parse_setting none = ok none
parse_setting (some raw) = elim (parse_unsigned (2 ^ 64) (trim raw)) [
  | none ↦ err invalid_setting
  | some n ↦ ok (some n)
]

pub record ParsedEnvOptions : Type 0 where
  pub mode : Option StartupCoordinationMode
  pub lease_key : Option Text
  pub lease_ttl_sec : Option ℕ
  pub heartbeat_sec : Option ℕ
  pub acquire_timeout_sec : Option ℕ

-- The durations in seconds.
pub record StartupCoordinationConfig : Type 0 where
  pub mode : StartupCoordinationMode
  pub lease_key : Text
  pub lease_ttl : ℕ
  pub heartbeat_interval : ℕ
  pub acquire_timeout : ℕ

abbrev pub unwrap_or {ℓ} : {A : Type ℓ} → A → Option A → A
unwrap_or d none = d
unwrap_or d (some a) = a

abbrev pub default_mode : StartupRole → StartupCoordinationMode
default_mode runtime = off
default_mode migrator = lease

abbrev pub default_lease_key : Text
default_lease_key = codes "postgres-mcp/startup"

unfoldable pub from_parsed_options :
    ParsedEnvOptions → StartupRole → Result StartupCoordinationConfig
from_parsed_options options role =
    let mode = unwrap_or (default_mode role) options.mode in
    let lease_key = trim (unwrap_or default_lease_key options.lease_key) in
    let lease_ttl_sec = unwrap_or 30 options.lease_ttl_sec in
    let heartbeat_sec = unwrap_or 5 options.heartbeat_sec in
    let acquire_timeout_sec = unwrap_or 60 options.acquire_timeout_sec in
    if is_empty lease_key
    then err invalid_setting
    else if nat_eq lease_ttl_sec 0
    then err invalid_setting
    else if nat_eq heartbeat_sec 0
    then err invalid_setting
    else if leb lease_ttl_sec heartbeat_sec
    then err invalid_setting
    else if nat_eq acquire_timeout_sec 0
    then err invalid_setting
    else ok (record {
      mode = mode;
      lease_key = lease_key;
      lease_ttl = lease_ttl_sec;
      heartbeat_interval = heartbeat_sec;
      acquire_timeout = acquire_timeout_sec;
    })

abbrev pub and_then : {A B : Type 0} → Result A → (A → Result B) → Result B
and_then (ok a) f = f a
and_then (err e) f = err e

-- `env::var(ENV_MODE)`, then the parse.
abbrev pub parse_mode_setting : Option Text → Result (Option StartupCoordinationMode)
parse_mode_setting none = ok none
parse_mode_setting (some raw) = and_then (parse_mode raw) (λ m. ok (some m))

-- The environment's variables, each absent or a text; one that is not Unicode is left out.
pub record Environment : Type 0 where
  pub mode : Option Text
  pub lease_key : Option Text
  pub lease_ttl_sec : Option Text
  pub heartbeat_sec : Option Text
  pub acquire_timeout_sec : Option Text

unfoldable pub from_env : Environment → StartupRole → Result StartupCoordinationConfig
from_env env role = and_then (parse_mode_setting env.mode) (λ mode.
    and_then (parse_setting env.lease_ttl_sec) (λ ttl.
      and_then (parse_setting env.heartbeat_sec) (λ heartbeat.
        and_then (parse_setting env.acquire_timeout_sec) (λ timeout.
          from_parsed_options
            (record {
              mode = mode;
              lease_key = env.lease_key;
              lease_ttl_sec = ttl;
              heartbeat_sec = heartbeat;
              acquire_timeout_sec = timeout;
            })
            role))))

-- `replace('\'', "''")`
unfoldable pub double_quotes : Text → Text
double_quotes [] = []
double_quotes (c ∷ cs) =
    if nat_eq c b'\'' then b'\'' ∷ b'\'' ∷ double_quotes cs else c ∷ double_quotes cs

unfoldable pub sql_literal : Text → Text
unfolding double_quotes
sql_literal value = b'\'' ∷ double_quotes value ++ b'\'' ∷ []

unfoldable pub sql_literal_nullable : Option Text → Text
sql_literal_nullable (some value) = sql_literal value
sql_literal_nullable none = codes "NULL"

abbrev is_phase_char : ℕ → Bool
is_phase_char c =
    is_ascii_alphanumeric c || nat_eq c b'_' || nat_eq c b'-' || nat_eq c b'.' || nat_eq c b':'

unfoldable pub validate_phase_name : Text → Bool
validate_phase_name raw =
    let phase = trim raw in
    if is_empty phase
    then false
    else if ltb 80 (byte_len phase)
    then false
    else all is_phase_char phase

abbrev pub max_recorded_error_len : ℕ
max_recorded_error_len = 320

unfoldable pub clipped_error_text : Text → Text
clipped_error_text message =
    let trimmed = trim message in
    if leb (length trimmed) max_recorded_error_len
    then trimmed
    else take max_recorded_error_len trimmed
