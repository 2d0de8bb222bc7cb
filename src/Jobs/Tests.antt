-- ===== src/Jobs/Tests.antt =====
-- One job of src/server.rs at concrete inputs.
use postgres_mcp.Prelude.{
  ◌≤◌, ◌≡◌, refl, true, false, none, some, List, [], ◌∷◌, Text, codes, Value, null, elem, ℕ_eq,
}
use postgres_mcp.Errors.{runtime}
use postgres_mcp.Jobs.{
  QueryJobHandle, running, failed, canceled, is_terminal, new_handle, complete_payloads,
  complete_locked, complete_clear, complete_snapshot, publish, cancel, cancel_response,
  cancel_locked, cancel_abort, register_step, mark_running, checking, installing, aborting,
}
use postgres_mcp.Jobs.Lifecycle.{
  Op, starts, completes, cancels, attaches, succeeds, run, IsWellFormed, run-new_handle,
  cancel_takes_effect, apply, terminal_final,
}
use postgres_mcp.Jobs.Race.{
  System, Reach, start, registers, locks, aborts, here, next, publishing, cancelled, no_lost_abort,
}

-- Stand-ins for the tool result of a response and for SHA-256.
abbrev wrap : Value → Value
wrap v = v

abbrev digest : Text → Text
digest s = codes "0123456789abcdef"

abbrev job : QueryJobHandle
job = record {
  snapshot = record {
    job_id = codes "qj_1";
    kind = codes "query";
    query_hash = codes "h";
    task_managed = false;
    state = running;
    created_at_unix_ms = 1;
    started_at_unix_ms = some 2;
    finished_at_unix_ms = none;
    cancel_requested = false;
    response = none;
    tool_result = none;
  };
  snapshot_poisoned = false;
  update_revision = 1;
  wakeups = 1;
  abort_handle = some 7;
  abort_poisoned = false;
  aborted = [];
}

abbrev history : List Op
history = starts 2 ∷ cancels 3 runtime ∷ completes 4 succeeds null null ∷ []

run-new_handle_example :
    IsWellFormed (run wrap digest history (new_handle (codes "qj_1") (codes "query") [] true 1))
    × ((run wrap digest history
          (new_handle (codes "qj_1") (codes "query") [] true 1)).update_revision
        ≤ 2)
run-new_handle_example = run-new_handle wrap digest (codes "qj_1") (codes "query") [] true 1 history

abbrev done : QueryJobHandle
done = (complete_payloads 5 failed null null job).1

-- After the end, a task's handle is installed in the slot, and taken from it as it is aborted.
abbrev registration : List Op
registration =
    starts 6
    ∷ attaches 9 checking
    ∷ attaches 9 (installing true)
    ∷ cancels 7 runtime
    ∷ attaches 9 aborting
    ∷ []

terminal_final_example :
    ((run wrap digest registration done).snapshot ≡ done.snapshot)
    × ((run wrap digest registration done).update_revision ≡ done.update_revision)
    × ((run wrap digest registration done).wakeups ≡ done.wakeups)
unfolding complete_payloads complete_locked complete_clear complete_snapshot publish is_terminal
terminal_final_example = terminal_final wrap digest registration done refl

late_task_test : (run wrap digest registration done).aborted ≡ 9 ∷ []
unfolding complete_payloads complete_locked complete_clear complete_snapshot publish is_terminal run
    apply mark_running cancel cancel_locked register_step
late_task_test = refl

cancel_takes_effect_test :
    let h' : QueryJobHandle = (cancel wrap digest runtime 9 job).1 in
    (h'.snapshot.state ≡ canceled)
    × (h'.snapshot.cancel_requested ≡ true)
    × (h'.snapshot.finished_at_unix_ms ≡ some 9)
    × (h'.snapshot.response ≡ some (cancel_response digest runtime))
    × (h'.aborted ≡ 7 ∷ [])
unfolding is_terminal
cancel_takes_effect_test = cancel_takes_effect wrap digest 9 runtime job 7 refl refl refl

abbrev unregistered : QueryJobHandle
unregistered = record job { abort_handle = none }

-- The task's handle is installed between the two critical sections of the cancellation.
abbrev s1 : System
s1 = record (start unregistered) {
  registering = (register_step 7 (start unregistered).registering unregistered).0;
}

abbrev s2 : System
s2 = record s1 { handle = (cancel_locked 9 null null s1.handle).1; cancelling = publishing }

abbrev s3 : System
s3 = record s2 { handle = cancel_abort s2.handle; cancelling = cancelled }

abbrev advance : System → System
advance s = record s {
  handle = (register_step 7 s.registering s.handle).1;
  registering = (register_step 7 s.registering s.handle).0;
}

interleaving : Reach 7 (start unregistered) (advance (advance (advance s3)))
unfolding register_step cancel_locked complete_snapshot is_terminal
interleaving =
    next
      (next
        (next (next (next (next here (registers _)) (locks _ 9 null null refl)) (aborts _ refl))
          (registers _))
        (registers _))
      (registers _)

no_lost_abort_example : elem 7 (advance (advance (advance s3))).handle.aborted ≡ true
unfolding register_step cancel_locked cancel_abort publish complete_snapshot is_terminal
no_lost_abort_example =
    no_lost_abort 7 unregistered (advance (advance (advance s3))) refl refl interleaving refl refl
      refl
