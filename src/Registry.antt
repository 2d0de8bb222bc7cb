-- ===== src/Registry.antt =====
-- The table of query jobs: src/server.rs, `QueryJobRegistry`. The clock is read once for each
-- operation and is its argument; a duration is a number of nanoseconds. A job's handle is shared
-- with the worker, so an operation on a listed handle changes the table's entry.
pub mod Eviction
pub mod Capacity
pub mod Identity
pub mod Safety
pub mod Turnover
mod Tests
use postgres_mcp.Prelude.{
  ℕ, ◌+◌, ◌-◌, ◌/◌, ◌%◌, ◌^◌, ◌*◌, max, Bool, true, false, not, ◌&&◌, Option, none, some, List, [],
  ◌∷◌, ◌++◌, map, filter, ◌==◌, if◌then◌else◌, ltb, leb, Text, text_Eq, codes, length, lookup,
  insert, remove, retain, hex_padded,
}
use postgres_mcp.Jobs.{QueryJobSnapshot, QueryJobHandle, is_terminal, new_handle, snapshot_of}

abbrev pub nanos_per_sec : ℕ
nanos_per_sec = 1_000_000_000

pub record QueryJobRegistry : Type 0 where
  pub poisoned : Bool
  pub jobs : List (Text × QueryJobHandle)
  pub next_id : ℕ
  pub terminal_ttl : ℕ
  pub max_entries : ℕ

pub data QueryJobRegistryError : Type 0 where
  capacity_reached unavailable : QueryJobRegistryError

pub data Created : Type 0 where
  ok : QueryJobHandle → Created
  err : QueryJobRegistryError → Created

unfoldable pub with_limits : ℕ → ℕ → QueryJobRegistry
with_limits max_entries terminal_ttl = record {
  poisoned = false;
  jobs = [];
  next_id = 1;
  terminal_ttl = max terminal_ttl nanos_per_sec;
  max_entries = max max_entries 1;
}

-- `as_millis() as u64`
abbrev ttl_ms : QueryJobRegistry → ℕ
ttl_ms r = r.terminal_ttl / 1_000_000 % 2 ^ 64

abbrev recent : ℕ → ℕ → Option ℕ → Bool
recent now ttl none = true
recent now ttl (some finished) = leb (now - finished) ttl

-- The closure of `prune_terminal_jobs_locked`.
unfoldable pub keeps : ℕ → ℕ → QueryJobHandle → Bool
keeps now ttl h =
    let s = snapshot_of now h in
    if not (is_terminal s.state) then true else recent now ttl s.finished_at_unix_ms

unfoldable pub prune_terminal_jobs :
    ℕ → QueryJobRegistry → List (Text × QueryJobHandle) → List (Text × QueryJobHandle)
unfolding keeps
prune_terminal_jobs now r = retain (keeps now (ttl_ms r))

abbrev finished_or_created : QueryJobSnapshot → ℕ
finished_or_created s = elim s.finished_at_unix_ms [ none ↦ s.created_at_unix_ms | some t ↦ t ]

-- The closure of the `filter_map`: the time by which a terminal job is ranked.
unfoldable pub rank : ℕ → QueryJobHandle → Option ℕ
rank now h =
    let s = snapshot_of now h in if is_terminal s.state then some (finished_or_created s) else none

abbrev earlier : Text → Option ℕ → Option (Text × ℕ) → Option (Text × ℕ)
earlier k none best = best
earlier k (some t) none = some (k, t)
earlier k (some t) (some (j, u)) = if ltb u t then some (j, u) else some (k, t)

-- `min_by_key` yields the first of the smallest.
unfoldable pub oldest_terminal : ℕ → List (Text × QueryJobHandle) → Option (Text × ℕ)
oldest_terminal now [] = none
oldest_terminal now ((k, h) ∷ m) = earlier k (rank now h) (oldest_terminal now m)

unfoldable pub evict_oldest_terminal_job :
    ℕ → List (Text × QueryJobHandle) → Bool × List (Text × QueryJobHandle)
evict_oldest_terminal_job now jobs = elim (oldest_terminal now jobs) [
  | none ↦ (false, jobs)
  | some (k, t) ↦ (true, remove k jobs)
]

unfoldable pub prefix_of : Text → Text
prefix_of kind =
    if kind == codes "query"
    then codes "qj"
    else if kind == codes "export"
    then codes "xj"
    else codes "jb"

unfoldable pub job_id_of : Text → ℕ → Text
job_id_of kind raw_id = prefix_of kind ++ b'_' ∷ hex_padded 16 raw_id

abbrev pub insert_new :
    QueryJobRegistry
    → List (Text × QueryJobHandle)
    → Text
    → Text
    → Bool
    → ℕ
    → Created × QueryJobRegistry
insert_new r jobs kind query_hash task_managed now =
    let id = job_id_of kind r.next_id in
    let h = new_handle id kind query_hash task_managed now in
    (ok h, record r { jobs = insert id h jobs; next_id = (r.next_id + 1) % 2 ^ 64 })

-- `jobs.len() >= self.max_entries && !self.evict_oldest_terminal_job_locked(&mut jobs)`
unfoldable pub create_internal :
    QueryJobRegistry → Text → Text → Bool → ℕ → Created × QueryJobRegistry
create_internal r kind query_hash task_managed now =
    let pruned = prune_terminal_jobs now r r.jobs in
    let (evicted, rest) = evict_oldest_terminal_job now pruned in
    if r.poisoned
    then (err unavailable, r)
    else if leb r.max_entries (length pruned)
    then (if evicted
        then insert_new r rest kind query_hash task_managed now
        else (err capacity_reached, record r { jobs = pruned }))
    else insert_new r pruned kind query_hash task_managed now

-- `get`: the job, and the table after the pruning.
unfoldable pub get : QueryJobRegistry → Text → ℕ → Option QueryJobHandle × QueryJobRegistry
get r job_id now =
    let pruned = prune_terminal_jobs now r r.jobs in
    if r.poisoned then (none, r) else (lookup job_id pruned, record r { jobs = pruned })

-- `sort_by_key` with `Reverse` is a stable sort, latest first.
unfoldable pub insert_sorted : QueryJobSnapshot → List QueryJobSnapshot → List QueryJobSnapshot
insert_sorted s [] = s ∷ []
insert_sorted s (t ∷ ts) =
    let rest = insert_sorted s ts in
    if ltb s.created_at_unix_ms t.created_at_unix_ms then t ∷ rest else s ∷ t ∷ ts

unfoldable pub sort_latest_first : List QueryJobSnapshot → List QueryJobSnapshot
unfolding insert_sorted
sort_latest_first [] = []
sort_latest_first (s ∷ ss) = insert_sorted s (sort_latest_first ss)

abbrev pub values : List (Text × QueryJobHandle) → List QueryJobHandle
values [] = []
values ((k, h) ∷ m) = h ∷ values m

unfoldable pub list_tasks : QueryJobRegistry → ℕ → List QueryJobSnapshot × QueryJobRegistry
unfolding sort_latest_first
list_tasks r now =
    let pruned = prune_terminal_jobs now r r.jobs in
    let snapshots = map (snapshot_of now) (values pruned) in
    if r.poisoned
    then ([], r)
    else (sort_latest_first (filter (λ s. s.task_managed) snapshots), record r { jobs = pruned })

-- The worker, or a client that holds the job, operates on its handle.
unfoldable pub on_job :
    (QueryJobHandle → QueryJobHandle) → Text → QueryJobRegistry → QueryJobRegistry
on_job op job_id r = elim (lookup job_id r.jobs) [
  | none ↦ r
  | some h ↦ record r { jobs = insert job_id (op h) r.jobs }
]
