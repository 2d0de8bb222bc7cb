-- ===== src/Jobs.antt =====
-- One query job: src/server.rs, `QueryJobState`, `QueryJobSnapshot` and `QueryJobHandle`. The
-- clock is an argument. A mutex is its content and a flag that says whether a panic has poisoned
-- it; the calls of tokio's `AbortHandle::abort` and `Notify::notify_waiters` are logged. The tool
-- result that `serialize_call_tool_result` makes of a response is the argument `tool_result_of`.
pub mod Lifecycle
pub mod Race
mod Tests
use postgres_mcp.Prelude.{
  ℕ, ◌+◌, ◌%◌, ◌^◌, Bool, true, false, not, ◌||◌, ◌&&◌, Option, none, some, List, [], ◌∷◌,
  if◌then◌else◌, Text, codes, Value, bool, str, num, Object, object,
}
use postgres_mcp.Errors.{StartupRole, normalize_error_payload_for_role}

pub data QueryJobState : Type 0 where
  pending running succeeded failed canceled : QueryJobState

unfoldable pub is_terminal : QueryJobState → Bool
is_terminal pending = false
is_terminal running = false
is_terminal succeeded = true
is_terminal failed = true
is_terminal canceled = true

abbrev pub is_pending : QueryJobState → Bool
is_pending pending = true
is_pending running = false
is_pending succeeded = false
is_pending failed = false
is_pending canceled = false

abbrev pub is_canceled : QueryJobState → Bool
is_canceled pending = false
is_canceled running = false
is_canceled succeeded = false
is_canceled failed = false
is_canceled canceled = true

pub record QueryJobSnapshot : Type 0 where
  pub job_id : Text
  pub kind : Text
  pub query_hash : Text
  pub task_managed : Bool
  pub state : QueryJobState
  pub created_at_unix_ms : ℕ
  pub started_at_unix_ms : Option ℕ
  pub finished_at_unix_ms : Option ℕ
  pub cancel_requested : Bool
  pub response : Option Value
  pub tool_result : Option Value

pub record QueryJobHandle : Type 0 where
  pub snapshot : QueryJobSnapshot
  pub snapshot_poisoned : Bool
  pub update_revision : ℕ
  pub wakeups : ℕ
  pub abort_handle : Option ℕ
  pub abort_poisoned : Bool
  pub aborted : List ℕ

unfoldable pub new_handle : Text → Text → Text → Bool → ℕ → QueryJobHandle
new_handle job_id kind query_hash task_managed now = record {
  snapshot = record {
    job_id = job_id;
    kind = kind;
    query_hash = query_hash;
    task_managed = task_managed;
    state = pending;
    created_at_unix_ms = now;
    started_at_unix_ms = none;
    finished_at_unix_ms = none;
    cancel_requested = false;
    response = none;
    tool_result = none;
  };
  snapshot_poisoned = false;
  update_revision = 0;
  wakeups = 0;
  abort_handle = none;
  abort_poisoned = false;
  aborted = [];
}

abbrev poisoned_error : Object
poisoned_error =
    (codes "error", str (codes "query job lock poisoned"))
    ∷ (codes "code", str (codes "QUERY_JOB_INTERNAL"))
    ∷ (codes "reason", str (codes "query_job_lock_poisoned"))
    ∷ []

abbrev failure : Value → Object
failure error = (codes "ok", bool false) ∷ (codes "error", error) ∷ []

-- What `snapshot` answers when the lock is poisoned.
unfoldable pub poisoned_snapshot : ℕ → QueryJobSnapshot
poisoned_snapshot now = record {
  job_id = codes "unknown";
  kind = codes "unknown";
  query_hash = [];
  task_managed = false;
  state = failed;
  created_at_unix_ms = now;
  started_at_unix_ms = none;
  finished_at_unix_ms = some now;
  cancel_requested = false;
  response = some (object (failure (object poisoned_error)));
  tool_result =
      some (object ((codes "structuredContent", object (failure (object poisoned_error))) ∷ []));
}

unfoldable pub snapshot_of : ℕ → QueryJobHandle → QueryJobSnapshot
snapshot_of now h = if h.snapshot_poisoned then poisoned_snapshot now else h.snapshot

-- `update_revision.fetch_add(1)` wraps; then the waiters are woken.
unfoldable pub publish : QueryJobHandle → QueryJobHandle
publish h = record h { update_revision = (h.update_revision + 1) % 2 ^ 64; wakeups = h.wakeups + 1 }

unfoldable pub mark_running : ℕ → QueryJobHandle → QueryJobSnapshot × QueryJobHandle
mark_running now h =
    let s = record (h.snapshot) { state = running; started_at_unix_ms = some now } in
    if h.snapshot_poisoned
    then (snapshot_of now h, h)
    else if is_pending h.snapshot.state
    then (s, publish (record h { snapshot = s }))
    else (h.snapshot, h)

unfoldable pub complete_snapshot :
    ℕ → QueryJobState → Value → Value → QueryJobSnapshot → QueryJobSnapshot
complete_snapshot now state response tool_result s = record s {
  state = state;
  finished_at_unix_ms = some now;
  response = some response;
  tool_result = some tool_result;
}

-- The slot's content is dropped, unless its lock is poisoned.
abbrev clear_slot : QueryJobHandle → QueryJobHandle
clear_slot h = if h.abort_poisoned then h else record h { abort_handle = none }

-- `complete_payloads` under the snapshot's lock: whether the snapshot changed, and the new one.
unfoldable pub complete_locked :
    ℕ → QueryJobState → Value → Value → QueryJobHandle → Bool × QueryJobHandle
complete_locked now state response tool_result h =
    let s = complete_snapshot now state response tool_result h.snapshot in
    if h.snapshot_poisoned
    then (false, h)
    else if not (is_terminal h.snapshot.state)
    then (true, record h { snapshot = s })
    else (false, h)

-- The rest of it, after a change.
unfoldable pub complete_clear : QueryJobHandle → QueryJobHandle
complete_clear h = publish (clear_slot h)

unfoldable pub complete_payloads :
    ℕ → QueryJobState → Value → Value → QueryJobHandle → QueryJobSnapshot × QueryJobHandle
complete_payloads now state response tool_result h =
    let (changed, h') = complete_locked now state response tool_result h in
    (snapshot_of now h', if changed then complete_clear h' else h')

-- `complete`, which makes the tool result of the response itself.
unfoldable pub complete :
    (Value → Value) → ℕ → QueryJobState → Value → QueryJobHandle → QueryJobSnapshot × QueryJobHandle
complete tool_result_of now state response =
    complete_payloads now state response (tool_result_of response)

abbrev cancel_error : Object
cancel_error =
    (codes "error", str (codes "query canceled by request"))
    ∷ (codes "code", str (codes "QUERY_CANCELED"))
    ∷ (codes "reason", str (codes "query_canceled"))
    ∷ (codes "sqlstate", str (codes "57014"))
    ∷ []

unfoldable pub cancel_response : (Text → Text) → StartupRole → Value
cancel_response sha256_hex role = object (
    (codes "ok", bool false)
    ∷ (codes "error", normalize_error_payload_for_role sha256_hex role (object cancel_error))
    ∷ (codes "meta", object ((codes "elapsed_ms", num (codes "0")) ∷ []))
    ∷ [])

-- `cancel` under the snapshot's lock: the new snapshot, and whether it changed.
unfoldable pub cancel_locked : ℕ → Value → Value → QueryJobHandle → Bool × QueryJobHandle
cancel_locked now response tool_result h =
    let s = record (complete_snapshot now canceled response tool_result h.snapshot) {
      cancel_requested = true;
    } in
    if h.snapshot_poisoned
    then (false, h)
    else if not (is_terminal h.snapshot.state)
    then (true, record h { snapshot = s })
    else (false, h)

abbrev abort_taken : Option ℕ → QueryJobHandle → QueryJobHandle
abort_taken none h = h
abort_taken (some task) h = record h { abort_handle = none; aborted = task ∷ h.aborted }

-- The rest of `cancel`, after a change: abort the task that the slot holds, and publish.
unfoldable pub cancel_abort : QueryJobHandle → QueryJobHandle
cancel_abort h = publish (if h.abort_poisoned then h else abort_taken h.abort_handle h)

unfoldable pub cancel :
    (Value → Value)
    → (Text → Text)
    → StartupRole
    → ℕ
    → QueryJobHandle
    → QueryJobSnapshot × QueryJobHandle
cancel tool_result_of sha256_hex role now h =
    let response = cancel_response sha256_hex role in
    let (changed, h') = cancel_locked now response (tool_result_of response) h in
    (snapshot_of now h', if changed then cancel_abort h' else h')

-- `register_abort_handle` takes its locks one after another; its state between two of them.
pub data Registering : Type 0 where
  checking : Registering
  installing : Bool → Registering
  rechecking : Bool → Bool → Registering
  aborting : Registering
  registered : Registering

-- Whether the snapshot asks for the task to be stopped; a poisoned lock does.
abbrev pub wants_abort : QueryJobHandle → Bool
wants_abort h = h.snapshot_poisoned || h.snapshot.cancel_requested || is_canceled h.snapshot.state

abbrev abort_after : Bool → Registering
abort_after should_abort = if should_abort then aborting else registered

-- One critical section of `register_abort_handle` for the task.
unfoldable pub register_step : ℕ → Registering → QueryJobHandle → Registering × QueryJobHandle
register_step task checking h = (installing (wants_abort h), h)
register_step task (installing should_abort) h =
    if h.abort_poisoned
    then (rechecking false true, h)
    else (rechecking true should_abort, record h { abort_handle = some task })
register_step task (rechecking handle_registered should_abort) h =
    (abort_after (if handle_registered && not should_abort then wants_abort h else should_abort), h)
register_step task aborting h = (
  registered,
  if h.abort_poisoned then record h { aborted = task ∷ h.aborted } else elim h.abort_handle [
    | none ↦ record h { aborted = task ∷ h.aborted }
    | some found ↦ record h { abort_handle = none; aborted = found ∷ h.aborted }
  ],
)
register_step task registered h = (registered, h)

-- With no other thread in between.
unfoldable pub register_abort_handle : ℕ → QueryJobHandle → QueryJobHandle
unfolding register_step
register_abort_handle task h =
    let (r1, h1) = register_step task checking h in
    let (r2, h2) = register_step task r1 h1 in
    let (r3, h3) = register_step task r2 h2 in (register_step task r3 h3).1
