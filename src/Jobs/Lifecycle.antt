-- ===== src/Jobs/Lifecycle.antt =====
-- The life of one job: src/server.rs, the operations of `QueryJobHandle` in any order.
use postgres_mcp.Prelude.{
  ℕ, ◌+◌, ◌≤◌, ◌≡◌, refl, ap, ◌∙◌, Bool, true, false, not, ◌||◌, ◌&&◌, some, List, [], ◌∷◌,
  if◌then◌else◌, Text, Value, is_some, arith,
}
use postgres_mcp.Errors.{StartupRole}
use postgres_mcp.Jobs.{
  QueryJobState, QueryJobHandle, succeeded, failed, canceled, is_terminal, is_pending, is_canceled,
  new_handle, publish, mark_running, complete_snapshot, complete_payloads, complete_locked,
  complete_clear, cancel, cancel_locked, cancel_abort, cancel_response, Registering, checking,
  installing, rechecking, aborting, registered, register_step,
}

-- The two outcomes with which the tools complete a job.
pub data Outcome : Type 0 where
  succeeds fails : Outcome

abbrev pub state_of : Outcome → QueryJobState
state_of succeeds = succeeded
state_of fails = failed

-- An operation on the handle, with the time at which it runs, or one critical section of the
-- registration of a task, wherever that registration stands.
pub data Op : Type 0 where
  starts : ℕ → Op
  completes : ℕ → Outcome → Value → Value → Op
  cancels : ℕ → StartupRole → Op
  attaches : ℕ → Registering → Op

-- Where the snapshot and the counters of a job stand in its life.
pub record IsWellFormed (h : QueryJobHandle) : Type 0 where
  pub finished : is_some h.snapshot.finished_at_unix_ms ≡ is_terminal h.snapshot.state
  pub answered : is_some h.snapshot.response ≡ is_terminal h.snapshot.state
  pub told : is_some h.snapshot.tool_result ≡ is_terminal h.snapshot.state
  pub unstarted : (is_pending h.snapshot.state && is_some h.snapshot.started_at_unix_ms) ≡ false
  pub started :
      (is_pending h.snapshot.state
        || is_terminal h.snapshot.state
        || is_some h.snapshot.started_at_unix_ms)
      ≡ true
  pub requested : (h.snapshot.cancel_requested && not (is_canceled h.snapshot.state)) ≡ false
  pub counted :
      h.update_revision
      ≡ (if is_some h.snapshot.started_at_unix_ms then 1 else 0)
        + (if is_terminal h.snapshot.state then 1 else 0)
  pub woken : h.wakeups ≡ h.update_revision

new_handle-IsWellFormed :
    (job_id kind query_hash : Text) (task_managed : Bool) (now : ℕ)
    → IsWellFormed (new_handle job_id kind query_hash task_managed now)
unfolding new_handle is_terminal
new_handle-IsWellFormed job_id kind query_hash task_managed now = ground arith

module _ (tool_result_of : Value → Value) (sha256_hex : Text → Text) where
  unfoldable pub apply : Op → QueryJobHandle → QueryJobHandle
  apply (starts now) h = (mark_running now h).1
  apply (completes now o response tool_result) h =
      (complete_payloads now (state_of o) response tool_result h).1
  apply (cancels now role) h = (cancel tool_result_of sha256_hex role now h).1
  apply (attaches task r) h = (register_step task r h).1

  unfoldable pub run : List Op → QueryJobHandle → QueryJobHandle
  unfolding apply
  run [] h = h
  run (op ∷ ops) h = run ops (apply op h)

  starts-IsWellFormed :
      (now : ℕ) (h : QueryJobHandle) → IsWellFormed h → IsWellFormed (mark_running now h).1
  unfolding mark_running publish is_terminal
  starts-IsWellFormed now h v = ground arith

  completes-IsWellFormed :
      (now : ℕ) (o : Outcome) (response tool_result : Value) (h : QueryJobHandle)
      → IsWellFormed h
      → IsWellFormed (complete_payloads now (state_of o) response tool_result h).1
  unfolding complete_payloads complete_locked complete_clear complete_snapshot publish is_terminal
  completes-IsWellFormed now o response tool_result h v = ground arith

  cancels-IsWellFormed :
      (now : ℕ) (role : StartupRole) (h : QueryJobHandle)
      → IsWellFormed h
      → IsWellFormed (cancel tool_result_of sha256_hex role now h).1
  unfolding cancel cancel_locked cancel_abort complete_snapshot publish is_terminal
  cancels-IsWellFormed now role h v = ground arith

  attaches-IsWellFormed :
      (task : ℕ) (r : Registering) (h : QueryJobHandle)
      → IsWellFormed h
      → IsWellFormed (register_step task r h).1
  unfolding register_step
  attaches-IsWellFormed task checking h v = v
  attaches-IsWellFormed task (installing b) h v = ground arith
  attaches-IsWellFormed task (rechecking b d) h v = v
  attaches-IsWellFormed task aborting h v = ground arith
  attaches-IsWellFormed task registered h v = v

  apply-IsWellFormed : (op : Op) (h : QueryJobHandle) → IsWellFormed h → IsWellFormed (apply op h)
  unfolding apply
  apply-IsWellFormed (starts now) h v = starts-IsWellFormed now h v
  apply-IsWellFormed (completes now o response tool_result) h v =
      completes-IsWellFormed now o response tool_result h v
  apply-IsWellFormed (cancels now role) h v = cancels-IsWellFormed now role h v
  apply-IsWellFormed (attaches task r) h v = attaches-IsWellFormed task r h v

  run-IsWellFormed :
      (ops : List Op) (h : QueryJobHandle) → IsWellFormed h → IsWellFormed (run ops h)
  unfolding run
  run-IsWellFormed [] h v = v
  run-IsWellFormed (op ∷ ops) h v = run-IsWellFormed ops (apply op h) (apply-IsWellFormed op h v)

  -- Whatever is done to a new job, in any order, the critical sections of a task's registration
  -- included: it has a finish time, a response and a tool result exactly if its state is terminal,
  -- a cancellation request only if it is canceled, and its revision counts the changes, of which
  -- there are at most two.
  pub run-new_handle :
      (job_id kind query_hash : Text) (task_managed : Bool) (now : ℕ) (ops : List Op)
      → IsWellFormed (run ops (new_handle job_id kind query_hash task_managed now))
        × ((run ops (new_handle job_id kind query_hash task_managed now)).update_revision ≤ 2)
  run-new_handle job_id kind query_hash task_managed now ops = (v, two v)
    where
      v : IsWellFormed (run ops (new_handle job_id kind query_hash task_managed now))
      v = run-IsWellFormed ops _ (new_handle-IsWellFormed job_id kind query_hash task_managed now)

      two : {h : QueryJobHandle} → IsWellFormed h → h.update_revision ≤ 2
      two {h} w = ground (arith, w.counted)

  -- The handle has the snapshot, the revision and the wake-ups of the other.
  abbrev Tells : QueryJobHandle → QueryJobHandle → Type 0
  Tells h h' =
      (h'.snapshot ≡ h.snapshot)
      × (h'.update_revision ≡ h.update_revision)
      × (h'.wakeups ≡ h.wakeups)

  apply-Tells :
      (op : Op) (h : QueryJobHandle) → is_terminal h.snapshot.state ≡ true → Tells h (apply op h)
  unfolding apply mark_running complete_payloads complete_locked cancel cancel_locked is_terminal
      register_step
  apply-Tells (starts now) h t = ground arith
  apply-Tells (completes now o response tool_result) h t = ground arith
  apply-Tells (cancels now role) h t = ground arith
  apply-Tells (attaches task checking) h t = (refl, refl, refl)
  apply-Tells (attaches task (installing b)) h t = ground arith
  apply-Tells (attaches task (rechecking b d)) h t = (refl, refl, refl)
  apply-Tells (attaches task aborting) h t = ground arith
  apply-Tells (attaches task registered) h t = (refl, refl, refl)

  -- A cancellation takes effect exactly on a job that has not ended and whose lock is sound: the
  -- job is then canceled with the error response of the role, and the task in the slot is aborted
  -- unless the slot's lock is poisoned.
  pub cancel_takes_effect :
      (now : ℕ) (role : StartupRole) (h : QueryJobHandle) (task : ℕ)
      → h.snapshot_poisoned ≡ false
      → is_terminal h.snapshot.state ≡ false
      → h.abort_handle ≡ some task
      → (let h' : QueryJobHandle = (cancel tool_result_of sha256_hex role now h).1 in
          (h'.snapshot.state ≡ canceled)
          × (h'.snapshot.cancel_requested ≡ true)
          × (h'.snapshot.finished_at_unix_ms ≡ some now)
          × (h'.snapshot.response ≡ some (cancel_response sha256_hex role))
          × (h'.aborted ≡ (if h.abort_poisoned then h.aborted else task ∷ h.aborted)))
  unfolding cancel cancel_locked cancel_abort complete_snapshot publish
  cancel_takes_effect now role h task p t a = ground arith

  -- A job that has ended keeps its snapshot, its revision and its wake-ups, whatever is done to
  -- the handle afterwards: a start, a completion, a cancellation or a critical section of the
  -- registration of a task, which may still change the slot.
  pub terminal_final :
      (ops : List Op) (h : QueryJobHandle)
      → is_terminal h.snapshot.state ≡ true
      → ((run ops h).snapshot ≡ h.snapshot)
        × ((run ops h).update_revision ≡ h.update_revision)
        × ((run ops h).wakeups ≡ h.wakeups)
  unfolding run
  terminal_final [] h t = (refl, refl, refl)
  terminal_final (op ∷ ops) h t =
      let same = apply-Tells op h t in
      let more = terminal_final ops (apply op h) (ap (λ s. is_terminal s.state) same.0 ∙ t) in
      (more.0 ∙ same.0, more.1 ∙ same.1, more.2 ∙ same.2)
