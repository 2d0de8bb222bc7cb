-- ===== src/Registry/Tests.antt =====
-- The job table of src/server.rs at concrete inputs.
use postgres_mcp.Prelude.{
  ℕ, ◌+◌, ◌≤◌, ◌≡◌, ◌↔◌, refl, true, false, Option, none, some, List, [], ◌∷◌, Text, text_Eq,
  text_eq, text_eq_iff, codes, Value, length, lookup, insert, remove, retain, hex_padded, hex_digit,
  if◌then◌else◌, ltb, arith, Bool-cases, inl, inr, sym,
}
use postgres_mcp.Jobs.{
  QueryJobHandle, QueryJobState, running, succeeded, pending, is_terminal, snapshot_of, new_handle,
}
use postgres_mcp.Jobs.Lifecycle.{starts}
use postgres_mcp.Registry.{
  QueryJobRegistry, err, capacity_reached, create_internal, get, with_limits, job_id_of, prefix_of,
  prune_terminal_jobs, rank, oldest_terminal, evict_oldest_terminal_job, ttl_ms,
}
use postgres_mcp.Registry.Capacity.{
  IsBounded, with_limits-IsBounded, Call, creates, gets, operates, run, run-IsBounded, pruned,
}
use postgres_mcp.Registry.Identity.{IsNumbered}
use postgres_mcp.Registry.Safety.{AllLive, create_refused_iff, create_keeps_live}
use postgres_mcp.Registry.Turnover.{IsOldest, dropped-IsOldest, created_is_new, get_by_age}

abbrev wrap : Value → Value
wrap v = v

abbrev digest : Text → Text
digest s = codes "0123456789abcdef"

abbrev job : Text → QueryJobState → Option ℕ → QueryJobHandle
job id state finished = record {
  snapshot = record {
    job_id = id;
    kind = codes "query";
    query_hash = [];
    task_managed = true;
    state = state;
    created_at_unix_ms = 1000;
    started_at_unix_ms = some 1001;
    finished_at_unix_ms = finished;
    cancel_requested = false;
    response = none;
    tool_result = none;
  };
  snapshot_poisoned = false;
  update_revision = 1;
  wakeups = 1;
  abort_handle = none;
  abort_poisoned = false;
  aborted = [];
}

abbrev first : Text
first = codes "qj_0000000000000001"

abbrev second : Text
second = codes "qj_0000000000000002"

-- Full: one job that runs and one that has ended.
abbrev full : QueryJobRegistry
full = record {
  poisoned = false;
  jobs = (first, job first running none) ∷ (second, job second succeeded (some 2000)) ∷ [];
  next_id = 3;
  terminal_ttl = 1_000_000_000;
  max_entries = 2;
}

full-IsBounded : IsBounded full
unfolding lookup text_eq
full-IsBounded = record { room = omega arith; bounded = omega arith; distinct = (refl, (refl, tt)) }

calls : List Call
calls = creates (codes "query") [] true 5 ∷ operates (starts 6) first ∷ gets second 7 ∷ []

run-IsBounded_example : IsBounded (run wrap digest (with_limits 1 5) calls)
run-IsBounded_example =
    run-IsBounded wrap digest (with_limits 1 5) calls (with_limits-IsBounded 1 5)

create_refused_iff_example :
    ((create_internal full (codes "query") [] false 2500).0 ≡ err capacity_reached)
    ↔ ((2 ≤ length (pruned 2500 full)) × AllLive 2500 (pruned 2500 full))
create_refused_iff_example =
    create_refused_iff full (codes "query") [] false 2500 full-IsBounded refl

unlisted :
    (k : Text) → text_eq first k ≡ false → text_eq second k ≡ false → lookup k full.jobs ≡ none
unfolding lookup
unlisted k other neither = rw (other, neither) refl

full-IsNumbered : IsNumbered full
unfolding lookup job_id_of prefix_of hex_padded hex_digit text_eq
full-IsNumbered k h e = elim (Bool-cases (text_eq first k)) [
  | inl same ↦ (codes "query", 1, sym ((text_eq_iff first k).0 same), omega arith)
  | inr other ↦ elim (Bool-cases (text_eq second k)) [
    | inl same ↦ (codes "query", 2, sym ((text_eq_iff second k).0 same), omega arith)
    | inr neither ↦ absurd (cc (e, unlisted k other neither))
  ]
]

create_keeps_live_example :
    lookup first (create_internal full (codes "query") [] false 2500).1.jobs
    ≡ some (job first running none)
unfolding lookup text_eq snapshot_of is_terminal
create_keeps_live_example =
    create_keeps_live full (codes "query") [] false 2500 first _ full-IsBounded full-IsNumbered
      (omega arith) refl refl

dropped-IsOldest_example : IsOldest 2500 (pruned 2500 full) (job second succeeded (some 2000))
unfolding create_internal evict_oldest_terminal_job oldest_terminal prune_terminal_jobs rank lookup
    insert remove retain job_id_of prefix_of hex_padded hex_digit text_eq is_terminal snapshot_of
dropped-IsOldest_example =
    dropped-IsOldest full (codes "query") [] false 2500 second _ full-IsBounded refl refl refl

abbrev roomy : QueryJobRegistry
roomy = record full { max_entries = 3 }

created_is_new_test :
    (lookup (codes "xj_0000000000000003") roomy.jobs ≡ none)
    × (lookup
          (codes "xj_0000000000000003")
          (create_internal roomy (codes "export") [] false 2500).1.jobs
        ≡ some (new_handle (codes "xj_0000000000000003") (codes "export") [] false 2500))
    × (pending ≡ pending)
unfolding create_internal evict_oldest_terminal_job oldest_terminal prune_terminal_jobs rank lookup
    insert remove retain job_id_of prefix_of hex_padded hex_digit text_eq is_terminal snapshot_of
    new_handle
created_is_new_test =
    created_is_new roomy (codes "export") [] false 2500
      (new_handle (codes "xj_0000000000000003") (codes "export") [] false 2500) full-IsNumbered
      (omega arith) refl

get_by_age_test :
    (get full second 3001).0
    ≡ (if ltb (2000 + ttl_ms full) 3001 then none else some (job second succeeded (some 2000)))
unfolding lookup text_eq is_terminal
get_by_age_test = get_by_age full second 3001 2000 _ full-IsBounded refl refl refl refl refl
