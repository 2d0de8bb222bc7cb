-- ===== src/Lib.antt =====
-- postgres-mcp: a Model Context Protocol server that gives agents guarded access to PostgreSQL.
-- This library models the parts of it that keep state between tool calls, and the rules that
-- they must keep.
--
-- The program. `src/main.rs` starts the server under a role, runtime or migrator. Where it is
-- configured, start-up takes a lease in the database, runs its phases under the lease and checks
-- that the required relations exist. `src/server.rs` then answers tool calls: `call_tool` asks
-- the circuit breaker before a call and records the call's outcome after it; a long query becomes
-- a job in a bounded table, where its task, its watchers and a cancelling client meet; an export
-- leaves a file in a bounded queue; a pinned session keeps a database connection until it is
-- closed or idle for too long. `src/tools.rs` gives every error its class, its detail level and
-- its fingerprint before the client, and through it the breaker, sees it. The tools that read
-- a query check it for a second statement, bind its parameters, split scripts, and hand out
-- pages under signed cursors; the listing tools filter names by patterns and hide the schemas
-- that the settings deny; the index advisor may ask an external process, in rounds.
--
-- The files, with the code that each models:
--   Prelude       shared names; tests on numbers, texts as lists of characters, `HashMap` as an
--                 association list, JSON values, `{:016x}`.
--   Advisor       src/advisor_extension.rs, run_external_advisor_loop and what it normalizes, with
--                 sql_quote_ident of src/db.rs. Rounds has the attempts, Keys what the state keeps,
--                 Bounds how the loop ends.
--   Cursors       src/tools.rs, encode_pagination_cursor, decode_pagination_cursor,
--                 constant_time_eq and the page hashes, with those of src/tools/query_surface.rs.
--                 Fields has the parts of a cursor, Signed what is accepted.
--   Filters       src/tools.rs, compile_discovery_name_filter and its helpers, and
--                 list_objects_sql of src/tools/schema.rs. Like has LIKE as SQL reads it, Patterns
--                 what a filter selects, Literals the escape strings.
--   Keywords      src/db.rs, top_level_bound_query_keyword_tokens, the fetch strategy and the queries
--                 that wrap a query. Inner has what stands in parentheses.
--   Params        src/db.rs, the bound query parameters. Parse has the functions, Kinds the types,
--                 Arrays the ranges, Nulls the arrays without a wrapper.
--   Settings      src/config.rs, the helpers that resolve a setting, and metadata_schema_visible of
--                 src/server.rs. Visibility has the policy over raw lists, Attempts the external
--                 advisor under its setting.
--   Statements    src/db.rs, split_sql_statements and extract_last_statement, and src/tools/query.rs,
--                 contains_top_level_statement_delimiter. Pieces has SQL texts by their parts and
--                 the interface of a scanner, which Split and Guard fill, and Inner of Keywords.
--   Circuit       src/server.rs, ToolCircuitBreakerConfig, ToolCircuitState and the methods
--                 circuit_open_retry_after_ms and record_tool_outcome of PostgresMcp. Open has the
--                 single calls, Bounds the settings and the clock, Trace sequences of calls.
--   Errors        src/tools.rs, normalize_error_payload_for_role, classify_retryable_error,
--                 classify_error_class and error_fingerprint. Redaction has what is kept and left
--                 out, Stability what depends on what.
--   Jobs          src/server.rs, QueryJobHandle. Lifecycle has sequences of its operations, Race
--                 the registration of the abort handle, one critical section at a time, against
--                 a cancellation at any point between them.
--   Registry      src/server.rs, QueryJobRegistry: creation with its pruning and eviction, lookup,
--                 listing. Eviction has the search for the oldest ended job, Capacity the bound,
--                 Identity the ids, Safety the refusals, Turnover what goes and what comes.
--   Artifacts     src/server.rs, ExportArtifactRegistry. Sync has the invariant between the map
--                 and the queue, Fifo the eviction loop, Register a whole registration.
--   Sessions      src/server.rs, PinnedSessionEntry, PinnedSessionRegistry and the methods
--                 open_pinned_session, touch_pinned_session, close_pinned_session and
--                 schedule_pinned_session_expiry of PostgresMcp. Calls has sequences of calls,
--                 Ids and Validity the ids, Openness the connections, Timers the idle timers,
--                 Touches the same with other calls between a timer's check and its removal.
--   Extensions    src/server.rs, ExtensionUnavailableCache. Calls has its bound, Freshness what it
--                 remembers.
--   Startup       src/startup_coordination.rs and src/startup_dependencies.rs. Lease has the lease
--                 row and its statements, Journal the guard and the phases, Acquire the retries
--                 and the release, Dependencies the required relations; Settings, Literals,
--                 Exclusion, Fences, Phases, Done and Relations have what holds of them.
--
-- How state corresponds. A struct is a record and an enum a data type, with the source's names. An
-- operation takes the state and returns the new one beside its result. A mutex is a field that
-- says whether it is poisoned, since the source tests for it. Times are arguments: milliseconds
-- of `unix_time_ms`, nanoseconds of `Instant`, microseconds of the database's `now()`. A sum of an
-- `Instant` and a `Duration` is unbounded, where the source panics once the platform cannot
-- represent it. A counter
-- of w bits wraps at 2 ^ w, and a saturating sum stops at its largest value. What a call does to
-- the outside, such as a file removed, a task aborted, a connection closed or a timer started, is
-- logged in the state. The loops of the source end with their list, so no fuel is needed: the
-- eviction loop takes one handle of the queue per round, the acquisition loop one reading of
-- the clock, and a scanner one character, where a round over several counts those still to come.
-- The external advisor's loop runs on the attempts that are left.
--
-- Parameters. SHA-256, the wrapping of a payload as a tool result, the database's answers to the
-- queries of the dependency check, and the work of a start-up phase are arguments of the
-- definitions that use them, and so are the external advisor's answers, the serializer of JSON
-- values, and what `serde_json` reads off a number. The statements on the lease row are modelled
-- as PostgreSQL documents INSERT .. ON CONFLICT, UPDATE, DELETE and SELECT on one row; the
-- statements of other processes stand between them as a list.
--
-- Not modelled: the protocol's transport and the routing of tools, the connection pool and the
-- conversion of rows, the walk over the syntax tree of sqlparser, the rewriting of queries, the
-- formatting of exports, the scoring of the index advisor and the process of the external one,
-- the parsing of the command line, and the wording of log lines. The order in which a
-- hash map is iterated is that of its association list.
pub mod Advisor
pub mod Artifacts
pub mod Circuit
pub mod Cursors
pub mod Errors
pub mod Extensions
pub mod Filters
pub mod Jobs
pub mod Keywords
pub mod Params
pub mod Prelude
pub mod Registry
pub mod Sessions
pub mod Settings
pub mod Startup
pub mod Statements
