-- ===== src/Errors.antt =====
-- The error payload of a tool result, as each startup role may see it: src/tools.rs,
-- `normalize_error_payload_for_role`, `classify_retryable_error`, `classify_error_class` and
-- `error_fingerprint`. SHA-256 is a third-party function, here the argument `sha256_hex`, from
-- the text that is hashed to the hexadecimal digest.
pub mod Redaction
pub mod Stability
mod Tests
use postgres_mcp.Prelude.{
  ℕ, ◌++◌, Bool, true, false, ◌&&◌, ◌||◌, Option, none, some, List, [], ◌∷◌, ◌==◌, if◌then◌else◌,
  Text, text_Eq, codes, elem, take, lookup, insert, remove, to_ascii_lowercase, Value, bool, str,
  num, arr, null, obj, Object, object, entries, text_at, starts_with, contains,
}

pub data StartupRole : Type 0 where
  runtime migrator : StartupRole

abbrev pub is_runtime : StartupRole → Bool
is_runtime runtime = true
is_runtime migrator = false

abbrev pub detail_level : StartupRole → Text
detail_level runtime = codes "minimal"
detail_level migrator = codes "detailed"

abbrev retryable_codes : List Text
retryable_codes =
    codes "DB_QUERY_TIMEOUT"
    ∷ codes "DB_CONNECT_FAILED"
    ∷ codes "DB_CONNECTION_DRIVER_FAILED"
    ∷ codes "STARTUP_DB_CONNECT_TIMEOUT"
    ∷ codes "QUERY_JOB_CAPACITY_REACHED"
    ∷ []

abbrev retryable_reasons : List Text
retryable_reasons =
    codes "db_connect_failed" ∷ codes "db_query_timeout" ∷ codes "startup_db_connect_timeout" ∷ []

-- On the payload's `code`, `reason` and `sqlstate`.
unfoldable pub retryable : Text → Text → Text → Bool
retryable code reason sqlstate =
    if elem code retryable_codes
    then true
    else if starts_with (codes "08") sqlstate
        || sqlstate == codes "40001"
        || sqlstate == codes "40P01"
        || sqlstate == codes "57P03"
        || starts_with (codes "53") sqlstate
    then true
    else elem reason retryable_reasons

unfoldable pub classify_retryable_error : Object → Bool
classify_retryable_error m =
    retryable (text_at (codes "code") m) (text_at (codes "reason") m) (text_at (codes "sqlstate") m)

pub data ErrorClass : Type 0 where
  invalid_request policy_denied not_found resource_limit statement_timeout : ErrorClass
  client_cancelled configuration transient_network permission syntax : ErrorClass
  object_not_found serialization syntax_or_semantic unknown : ErrorClass

-- The text that the source returns for each class.
unfoldable pub class_text : ErrorClass → Text
class_text invalid_request = codes "invalid_request"
class_text policy_denied = codes "policy_denied"
class_text not_found = codes "not_found"
class_text resource_limit = codes "resource_limit"
class_text statement_timeout = codes "statement_timeout"
class_text client_cancelled = codes "client_cancelled"
class_text configuration = codes "configuration"
class_text transient_network = codes "transient_network"
class_text permission = codes "permission"
class_text syntax = codes "syntax"
class_text object_not_found = codes "object_not_found"
class_text serialization = codes "serialization"
class_text syntax_or_semantic = codes "syntax_or_semantic"
class_text unknown = codes "unknown"

abbrev policy_codes : List Text
policy_codes =
    codes "METADATA_ACCESS_DENIED"
    ∷ codes "RUNTIME_ROLE_DDL_BLOCKED"
    ∷ codes "STARTUP_DEGRADED_READ_ONLY"
    ∷ codes "TOOL_CIRCUIT_OPEN"
    ∷ []

abbrev policy_reasons : List Text
policy_reasons =
    codes "metadata_access_denied"
    ∷ codes "restricted_sql"
    ∷ codes "startup_role_runtime"
    ∷ codes "startup_degraded_read_only"
    ∷ []

abbrev network_codes : List Text
network_codes =
    codes "DB_CONNECT_FAILED"
    ∷ codes "DB_CONNECTION_DRIVER_FAILED"
    ∷ codes "STARTUP_DB_CONNECT_TIMEOUT"
    ∷ []

abbrev network_reasons : List Text
network_reasons =
    codes "db_connect_failed"
    ∷ codes "db_connection_driver_failed"
    ∷ codes "startup_db_connect_timeout"
    ∷ []

-- The tail of the ladder, which looks at the SQLSTATE alone.
unfoldable pub class_of_sqlstate : Text → ErrorClass
class_of_sqlstate s =
    if s == codes "42501"
    then permission
    else if s == codes "42601"
    then syntax
    else if s == codes "42P01" || s == codes "42703"
    then object_not_found
    else if s == codes "40001" || s == codes "40P01"
    then serialization
    else if starts_with (codes "53") s || s == codes "57P03"
    then resource_limit
    else if starts_with (codes "42") s
    then syntax_or_semantic
    else unknown

-- `timed_out` is `timeout_signal || timeout_detail_signal`.
unfoldable pub error_class : Text → Text → Text → Bool → ErrorClass
error_class code reason sqlstate timed_out =
    if code == codes "INVALID_REQUEST"
      || reason == codes "invalid_request"
      || code == codes "SQL_INPUT_INVALID"
    then invalid_request
    else if elem code policy_codes || elem reason policy_reasons
    then policy_denied
    else if code == codes "QUERY_JOB_NOT_FOUND" || reason == codes "query_job_not_found"
    then not_found
    else if code == codes "QUERY_JOB_CAPACITY_REACHED"
        || reason == codes "query_job_capacity_reached"
    then resource_limit
    else if code == codes "QUERY_CANCELED"
        || reason == codes "query_canceled"
        || sqlstate == codes "57014"
    then (if timed_out || code == codes "DB_QUERY_TIMEOUT"
        then statement_timeout
        else client_cancelled)
    else if code == codes "DB_QUERY_TIMEOUT" || timed_out
    then statement_timeout
    else if code == codes "DB_CONNECT_CONFIG_INVALID" || reason == codes "db_connect_config_invalid"
    then configuration
    else if starts_with (codes "08") sqlstate
        || elem code network_codes
        || elem reason network_reasons
    then transient_network
    else class_of_sqlstate sqlstate

abbrev pub mentions_timeout : Text → Bool
mentions_timeout s = contains (codes "statement timeout") (to_ascii_lowercase s)

unfoldable pub classify_error_class : Object → ErrorClass
classify_error_class m =
    error_class (text_at (codes "code") m) (text_at (codes "reason") m)
      (text_at (codes "sqlstate") m)
      (mentions_timeout (text_at (codes "error") m)
        || mentions_timeout (text_at (codes "detail") m))

unfoldable pub error_fingerprint : (Text → Text) → Object → Text → Text
error_fingerprint sha256_hex m level =
    codes "err_"
    ++ take 12 (
        sha256_hex (
          text_at (codes "code") m
          ++ 0 ∷ (text_at (codes "reason") m ++ 0 ∷ (text_at (codes "sqlstate") m ++ 0 ∷ level))))

abbrev pub redact : StartupRole → Object → Object
redact role m = if is_runtime role then remove (codes "position") (remove (codes "detail") m) else m

unfoldable pub normalize_object : (Text → Text) → StartupRole → Object → Object
normalize_object sha256_hex role payload =
    let level = detail_level role in
    let m1 = insert (codes "detail_level") (str level) (redact role payload) in
    let m2 = insert (codes "retryable") (bool (classify_retryable_error m1)) m1 in
    let m3 = insert (codes "error_class") (str (class_text (classify_error_class m2))) m2 in
    insert (codes "fingerprint") (str (error_fingerprint sha256_hex m3 level)) m3

unfoldable pub normalize_error_payload_for_role : (Text → Text) → StartupRole → Value → Value
unfolding normalize_object
normalize_error_payload_for_role sha256_hex role (obj fs) =
    object (normalize_object sha256_hex role (entries fs))
normalize_error_payload_for_role sha256_hex role null = null
normalize_error_payload_for_role sha256_hex role (bool b) = bool b
normalize_error_payload_for_role sha256_hex role (num n) = num n
normalize_error_payload_for_role sha256_hex role (str s) = str s
normalize_error_payload_for_role sha256_hex role (arr xs) = arr xs
