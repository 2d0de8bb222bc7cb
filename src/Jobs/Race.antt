-- ===== src/Jobs/Race.antt =====
-- The race between the registration of a task's abort handle and a cancellation: src/server.rs,
-- `register_abort_handle` against `cancel`, `mark_running` and `complete_payloads`, whose critical
-- sections run in any interleaving.
use postgres_mcp.Prelude.{
  ℕ, ◌≡◌, ◌⊎◌, refl, Bool, true, false, not, ◌&&◌, Option, none, some, if◌then◌else◌, Value, arith,
  elem, ℕ_eq, subst,
}
use postgres_mcp.Jobs.{
  QueryJobState, QueryJobHandle, is_terminal, is_canceled, publish, mark_running, cancel_locked,
  cancel_abort, complete_locked, complete_clear, complete_snapshot, Registering, checking,
  installing, rechecking, aborting, registered, register_step,
}

-- The cancelling thread: before its first critical section, between the two, and after.
pub data Cancelling : Type 0 where
  waiting publishing cancelled : Cancelling

-- The worker, in the same way, as it completes the job.
pub data Completing : Type 0 where
  working clearing completed : Completing

pub record System : Type 0 where
  pub handle : QueryJobHandle
  pub registering : Registering
  pub cancelling : Cancelling
  pub completing : Completing

abbrev after_lock : Bool → Cancelling
after_lock changed = if changed then publishing else cancelled

abbrev after_finish : Bool → Completing
after_finish changed = if changed then clearing else completed

-- One critical section of one of the threads, for the task whose handle is registered.
pub data Step (task : ℕ) : System → System → Type 0 where
  registers :
      (s : System)
      → Step task s (record s {
        handle = (register_step task s.registering s.handle).1;
        registering = (register_step task s.registering s.handle).0;
      })
  locks :
      (s : System) (now : ℕ) (response tool_result : Value)
      → s.cancelling ≡ waiting
      → Step task s (record s {
        handle = (cancel_locked now response tool_result s.handle).1;
        cancelling = after_lock (cancel_locked now response tool_result s.handle).0;
      })
  aborts :
      (s : System)
      → s.cancelling ≡ publishing
      → Step task s (record s { handle = cancel_abort s.handle; cancelling = cancelled })
  finishes :
      (s : System) (now : ℕ) (state : QueryJobState) (response tool_result : Value)
      → s.completing ≡ working
      → is_terminal state ≡ true
      → is_canceled state ≡ false
      → Step task s (record s {
        handle = (complete_locked now state response tool_result s.handle).1;
        completing = after_finish (complete_locked now state response tool_result s.handle).0;
      })
  clears :
      (s : System)
      → s.completing ≡ clearing
      → Step task s (record s { handle = complete_clear s.handle; completing = completed })
  runs : (s : System) (now : ℕ) → Step task s (record s { handle = (mark_running now s.handle).1 })

pub data Reach (task : ℕ) (s : System) : System → Type 0 where
  here : Reach task s s
  next : {t u : System} → Reach task s t → Step task t u → Reach task s u

abbrev pub start : QueryJobHandle → System
start h = record { handle = h; registering = checking; cancelling = waiting; completing = working }

abbrev Mine : ℕ → Option ℕ → Type 0
Mine task none = Unit {0}
Mine task (some found) = found ≡ task

-- No request has been made that the cancelling thread will not still act on.
abbrev Unserved : Cancelling → QueryJobHandle → Type 0
Unserved waiting h = Unit {0}
Unserved publishing h = Unit {0}
Unserved cancelled h = h.snapshot.cancel_requested ≡ false

-- The job ended before any request: none will be recorded.
abbrev Ended : QueryJobHandle → Type 0
Ended h = (is_terminal h.snapshot.state ≡ true) × (h.snapshot.cancel_requested ≡ false)

-- What holds of the slot and the log while the registering thread stands at a point.
abbrev Progress : ℕ → Registering → Cancelling → QueryJobHandle → Type 0
Progress task checking c h = Unit {0}
Progress task (installing b) c h = Unit {0}
Progress task (rechecking true b) c h =
    (h.abort_poisoned ≡ false)
    × ((h.abort_handle ≡ some task) ⊎ ((elem task h.aborted ≡ true) ⊎ Ended h))
Progress task (rechecking false b) c h = b ≡ true
Progress task aborting c h = Unit {0}
Progress task registered c h =
    (elem task h.aborted ≡ true)
    ⊎ (((h.abort_poisoned ≡ false) × (h.abort_handle ≡ some task) × Unserved c h) ⊎ Ended h)

abbrev Unrequested : Cancelling → QueryJobHandle → Type 0
Unrequested waiting h = h.snapshot.cancel_requested ≡ false
Unrequested publishing h = Unit {0}
Unrequested cancelled h = Unit {0}

abbrev Clearing : Completing → QueryJobHandle → Type 0
Clearing working h = Unit {0}
Clearing clearing h = Ended h
Clearing completed h = Unit {0}

record Inv (task : ℕ) (r : Registering) (c : Cancelling) (k : Completing) (h : QueryJobHandle)
    : Type 0 where
  fresh : Unrequested c h
  requested : (h.snapshot.cancel_requested && not (is_terminal h.snapshot.state)) ≡ false
  mine : Mine task h.abort_handle
  progress : Progress task r c h
  cleared : Clearing k h

-- The facts survive each critical section, wherever the registering thread stands.
registers-Inv :
    (task : ℕ) (r : Registering) (c : Cancelling) (k : Completing) (h : QueryJobHandle)
    → Inv task r c k h
    → Inv task (register_step task r h).0 c k (register_step task r h).1
unfolding register_step
registers-Inv task checking c k h v = ground arith
registers-Inv task (installing b) c k h v = ground arith
registers-Inv task (rechecking true b) c k h v = ground arith
registers-Inv task (rechecking false b) c k h v = ground arith
registers-Inv task aborting c k h v = ground arith
registers-Inv task registered c k h v = ground arith

locks-Inv :
    (task : ℕ) (r : Registering) (c : Cancelling) (k : Completing) (h : QueryJobHandle) (now : ℕ)
    (response tool_result : Value)
    → c ≡ waiting
    → Inv task r c k h
    → Inv task r
        (after_lock (cancel_locked now response tool_result h).0)
        k
        (cancel_locked now response tool_result h).1
unfolding cancel_locked complete_snapshot is_terminal
locks-Inv task checking c k h now response tool_result e v = ground arith
locks-Inv task (installing b) c k h now response tool_result e v = ground arith
locks-Inv task (rechecking true b) c k h now response tool_result e v = ground arith
locks-Inv task (rechecking false b) c k h now response tool_result e v = ground arith
locks-Inv task aborting c k h now response tool_result e v = ground arith
locks-Inv task registered c k h now response tool_result e v = ground arith

aborts-Inv :
    (task : ℕ) (r : Registering) (c : Cancelling) (k : Completing) (h : QueryJobHandle)
    → c ≡ publishing
    → Inv task r c k h
    → Inv task r cancelled k (cancel_abort h)
unfolding cancel_abort publish
aborts-Inv task checking c k h e v = ground arith
aborts-Inv task (installing b) c k h e v = ground arith
aborts-Inv task (rechecking true b) c k h e v = ground arith
aborts-Inv task (rechecking false b) c k h e v = ground arith
aborts-Inv task aborting c k h e v = ground arith
aborts-Inv task registered c k h e v = ground arith

finishes-Inv :
    (task : ℕ) (r : Registering) (c : Cancelling) (k : Completing) (h : QueryJobHandle) (now : ℕ)
    (state : QueryJobState) (response tool_result : Value)
    → k ≡ working
    → is_terminal state ≡ true
    → Inv task r c k h
    → Inv task r c
        (after_finish (complete_locked now state response tool_result h).0)
        (complete_locked now state response tool_result h).1
unfolding complete_locked complete_snapshot
finishes-Inv task checking c k h now state response tool_result e t v = ground arith
finishes-Inv task (installing b) c k h now state response tool_result e t v = ground arith
finishes-Inv task (rechecking true b) c k h now state response tool_result e t v = ground arith
finishes-Inv task (rechecking false b) c k h now state response tool_result e t v = ground arith
finishes-Inv task aborting c k h now state response tool_result e t v = ground arith
finishes-Inv task registered c k h now state response tool_result e t v = ground arith

clears-Inv :
    (task : ℕ) (r : Registering) (c : Cancelling) (k : Completing) (h : QueryJobHandle)
    → k ≡ clearing
    → Inv task r c k h
    → Inv task r c completed (complete_clear h)
unfolding complete_clear publish
clears-Inv task checking c k h e v = ground arith
clears-Inv task (installing b) c k h e v = ground arith
clears-Inv task (rechecking true b) c k h e v = ground arith
clears-Inv task (rechecking false b) c k h e v = ground arith
clears-Inv task aborting c k h e v = ground arith
clears-Inv task registered c k h e v = ground arith

runs-Inv :
    (task : ℕ) (r : Registering) (c : Cancelling) (k : Completing) (h : QueryJobHandle) (now : ℕ)
    → Inv task r c k h
    → Inv task r c k (mark_running now h).1
unfolding mark_running publish is_terminal
runs-Inv task checking c k h now v = ground arith
runs-Inv task (installing b) c k h now v = ground arith
runs-Inv task (rechecking true b) c k h now v = ground arith
runs-Inv task (rechecking false b) c k h now v = ground arith
runs-Inv task aborting c k h now v = ground arith
runs-Inv task registered c k h now v = ground arith

abbrev SystemInv : ℕ → System → Type 0
SystemInv task s = Inv task s.registering s.cancelling s.completing s.handle

Step-Inv : {task : ℕ} {s t : System} → Step task s t → SystemInv task s → SystemInv task t
Step-Inv {task} (registers s) v =
    registers-Inv task s.registering s.cancelling s.completing s.handle v
Step-Inv {task} (locks s now response tool_result e) v =
    locks-Inv task s.registering s.cancelling s.completing s.handle now response tool_result e v
Step-Inv {task} (aborts s e) v =
    aborts-Inv task s.registering s.cancelling s.completing s.handle e v
Step-Inv {task} (finishes s now state response tool_result e t n) v =
    finishes-Inv task s.registering s.cancelling s.completing s.handle now state response
      tool_result e t v
Step-Inv {task} (clears s e) v =
    clears-Inv task s.registering s.cancelling s.completing s.handle e v
Step-Inv {task} (runs s now) v =
    runs-Inv task s.registering s.cancelling s.completing s.handle now v

Reach-Inv : {task : ℕ} {s t : System} → SystemInv task s → Reach task s t → SystemInv task t
Reach-Inv v here = v
Reach-Inv v (next r st) = Step-Inv st (Reach-Inv v r)

served :
    (task : ℕ) (h : QueryJobHandle)
    → h.snapshot.cancel_requested ≡ true
    → Progress task registered cancelled h
    → elem task h.aborted ≡ true
served task h q p = ground arith

-- However the critical sections of the registering thread, the cancelling thread and the worker
-- interleave: once the first two are done, a task whose cancellation was recorded has been aborted.
pub no_lost_abort :
    (task : ℕ) (h : QueryJobHandle) (u : System)
    → h.abort_handle ≡ none
    → h.snapshot.cancel_requested ≡ false
    → Reach task (start h) u
    → u.registering ≡ registered
    → u.cancelling ≡ cancelled
    → u.handle.snapshot.cancel_requested ≡ true
    → elem task u.handle.aborted ≡ true
no_lost_abort task h u a q r er ec eq = served task u.handle eq (
    subst (λ c. Progress task registered c u.handle) ec
      (subst (λ g. Progress task g u.cancelling u.handle) er (Reach-Inv initial r).progress))
  where
    initial : Inv task checking waiting working h
    initial = record {
      fresh = q;
      requested = rw q refl;
      mine = rw a tt;
      progress = tt;
      cleared = tt;
    }
