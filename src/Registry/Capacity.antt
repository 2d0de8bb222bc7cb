-- ===== src/Registry/Capacity.antt =====
-- The bound on the job table of src/server.rs, and when a new job is refused.
use postgres_mcp.Prelude.{
  ℕ, ◌+◌, ◌≤◌, ◌<◌, ◌≡◌, refl, sym, subst, inl, inr, Bool, true, false, Option, none, some, List,
  [], ◌∷◌, if◌then◌else◌, leb, leb→le, Text, text_Eq, length, lookup, remove, length-remove,
  length-insert, length-retain-le, Distinct, insert-Distinct, remove-Distinct, retain-Distinct,
  Bool-cases, Option-cases, if_both, if_split, arith, Value,
}
use postgres_mcp.Jobs.{QueryJobHandle, QueryJobSnapshot, new_handle}
use postgres_mcp.Jobs.Lifecycle.{Op, apply}
use postgres_mcp.Registry.{
  QueryJobRegistry, capacity_reached, unavailable, Created, err, prune_terminal_jobs,
  oldest_terminal, evict_oldest_terminal_job, create_internal, insert_new, get, list_tasks, on_job,
  with_limits, job_id_of,
}
use postgres_mcp.Registry.Eviction.{Jobs, oldest_terminal-Found}

abbrev pub pruned : ℕ → QueryJobRegistry → Jobs
pruned now r = prune_terminal_jobs now r r.jobs

-- The three ways in which a creation ends under a sound lock.
pub create_cases {ℓ} :
    (P : Created × QueryJobRegistry → Type ℓ) (r : QueryJobRegistry) (kind query_hash : Text)
    (task_managed : Bool) (now : ℕ)
    → r.poisoned ≡ false
    → (r.max_entries ≤ length (pruned now r)
        → oldest_terminal now (pruned now r) ≡ none
        → P (err capacity_reached, record r { jobs = pruned now r }))
    → (length (pruned now r) < r.max_entries
        → P (insert_new r (pruned now r) kind query_hash task_managed now))
    → ((k : Text) (t : ℕ)
        → r.max_entries ≤ length (pruned now r)
        → oldest_terminal now (pruned now r) ≡ some (k, t)
        → P (insert_new r (remove k (pruned now r)) kind query_hash task_managed now))
    → P (create_internal r kind query_hash task_managed now)
unfolding create_internal evict_oldest_terminal_job
create_cases P r kind query_hash task_managed now sound full room evicts =
    if_split P r.poisoned (λ e. absurd (cc))
      (λ _.
        if_split P (leb r.max_entries (length (pruned now r)))
          (λ h. by_oldest (leb→le _ _ h) (oldest_terminal now (pruned now r)) refl)
          (λ h. room (ground arith)))
  where
    by_oldest :
        r.max_entries ≤ length (pruned now r)
        → (o : Option (Text × ℕ)) → oldest_terminal now (pruned now r) ≡ o
        → P (
            if (elim o as (λ _. Bool × Jobs) [
              | none ↦ (false, pruned now r)
              | some (k, t) ↦ (true, remove k (pruned now r))
            ]).0
            then insert_new r
                (elim o as (λ _. Bool × Jobs) [
                  | none ↦ (false, pruned now r)
                  | some (k, t) ↦ (true, remove k (pruned now r))
                ]).1
                kind
                query_hash
                task_managed
                now
            else (err capacity_reached, record r { jobs = pruned now r }))
    by_oldest h none e = full h e
    by_oldest h (some (k, t)) e = evicts k t h e

pub record IsBounded (r : QueryJobRegistry) : Type 0 where
  pub room : 1 ≤ r.max_entries
  pub bounded : length r.jobs ≤ r.max_entries
  pub distinct : Distinct r.jobs

pub with_limits-IsBounded :
    (max_entries terminal_ttl : ℕ) → IsBounded (with_limits max_entries terminal_ttl)
unfolding with_limits
with_limits-IsBounded max_entries terminal_ttl = record {
  room = omega arith;
  bounded = omega arith;
  distinct = tt;
}

pub length-pruned : (now : ℕ) (r : QueryJobRegistry) → length (pruned now r) ≤ length r.jobs
unfolding prune_terminal_jobs
length-pruned now r = length-retain-le _ r.jobs

pub pruned-Distinct : (now : ℕ) (r : QueryJobRegistry) → Distinct r.jobs → Distinct (pruned now r)
unfolding prune_terminal_jobs
pruned-Distinct now r d = retain-Distinct _ r.jobs d

pruned-IsBounded :
    (now : ℕ) (r : QueryJobRegistry) → IsBounded r → IsBounded (record r { jobs = pruned now r })
pruned-IsBounded now r v = record {
  room = v.room;
  bounded = omega (arith, length-pruned now r, v.bounded);
  distinct = pruned-Distinct now r v.distinct;
}

-- Below the limit there is room for one more.
insert_new-IsBounded :
    (r : QueryJobRegistry) (jobs : Jobs) (kind query_hash : Text) (task_managed : Bool) (now : ℕ)
    → IsBounded r
    → Distinct jobs
    → length jobs + 1 ≤ r.max_entries
    → IsBounded (insert_new r jobs kind query_hash task_managed now).1
insert_new-IsBounded r jobs kind query_hash task_managed now v d h = record {
  room = v.room;
  bounded = ground (arith, length-insert id new jobs);
  distinct = insert-Distinct id new jobs d;
}
  where
    id : Text
    id = job_id_of kind r.next_id

    new : QueryJobHandle
    new = new_handle id kind query_hash task_managed now

pub create_poisoned :
    (r : QueryJobRegistry) (kind query_hash : Text) (task_managed : Bool) (now : ℕ)
    → r.poisoned ≡ true
    → create_internal r kind query_hash task_managed now ≡ (err unavailable, r)
unfolding create_internal
create_poisoned r kind query_hash task_managed now p = ground arith

-- The job that is evicted was listed, so the table shrinks by it.
length-evicted :
    (r : QueryJobRegistry) (now : ℕ) (k : Text) (t : ℕ)
    → IsBounded r
    → oldest_terminal now (pruned now r) ≡ some (k, t)
    → length (remove k (pruned now r)) + 1 ≤ r.max_entries
length-evicted r now k t v e =
    let d = pruned-Distinct now r v.distinct in
    let found = rw e at (oldest_terminal-Found now (pruned now r) d) in
    omega (arith, length-remove k (pruned now r) found.0 d found.1, length-pruned now r, v.bounded)

pub create_internal-IsBounded :
    (r : QueryJobRegistry) (kind query_hash : Text) (task_managed : Bool) (now : ℕ)
    → IsBounded r
    → IsBounded (create_internal r kind query_hash task_managed now).1
create_internal-IsBounded r kind query_hash task_managed now v = elim (Bool-cases r.poisoned) [
  | inl p ↦
      subst (λ c. IsBounded c.1) (sym (create_poisoned r kind query_hash task_managed now p)) v
  | inr sound ↦
      create_cases (λ c. IsBounded c.1) r kind query_hash task_managed now sound
        (λ h e. pruned-IsBounded now r v)
        (λ h.
          insert_new-IsBounded r (pruned now r) kind query_hash task_managed now v
            (pruned-Distinct now r v.distinct) (omega arith))
        (λ k t h e.
          insert_new-IsBounded r (remove k (pruned now r)) kind query_hash task_managed now v
            (remove-Distinct k _ (pruned-Distinct now r v.distinct)) (length-evicted r now k t v e))
]

get-IsBounded :
    (r : QueryJobRegistry) (job_id : Text) (now : ℕ) → IsBounded r → IsBounded (get r job_id now).1
unfolding get
get-IsBounded r job_id now v =
    if_both (λ (c : Option QueryJobHandle × QueryJobRegistry). IsBounded c.1) r.poisoned v
      (pruned-IsBounded now r v)

list_tasks-IsBounded :
    (r : QueryJobRegistry) (now : ℕ) → IsBounded r → IsBounded (list_tasks r now).1
unfolding list_tasks
list_tasks-IsBounded r now v =
    if_both (λ (c : List QueryJobSnapshot × QueryJobRegistry). IsBounded c.1) r.poisoned v
      (pruned-IsBounded now r v)

on_job-IsBounded :
    (op : QueryJobHandle → QueryJobHandle) (job_id : Text) (r : QueryJobRegistry)
    → IsBounded r
    → IsBounded (on_job op job_id r)
unfolding on_job
on_job-IsBounded op job_id r v = elim (Option-cases (lookup job_id r.jobs)) [
  | inl e ↦ rw (e, on_job) v
  | inr (h, e) ↦
      rw (e, on_job)
        (record {
          room = v.room;
          bounded = ground (arith, length-insert job_id (op h) r.jobs, e);
          distinct = insert-Distinct job_id (op h) r.jobs v.distinct;
        })
]

-- What the server does to the table: the operations of the registry and of its handles.
pub data Call : Type 0 where
  creates : Text → Text → Bool → ℕ → Call
  gets : Text → ℕ → Call
  lists : ℕ → Call
  operates : Op → Text → Call

module _ (tool_result_of : Value → Value) (sha256_hex : Text → Text) where
  unfoldable pub step : QueryJobRegistry → Call → QueryJobRegistry
  step r (creates kind query_hash task_managed now) =
      (create_internal r kind query_hash task_managed now).1
  step r (gets job_id now) = (get r job_id now).1
  step r (lists now) = (list_tasks r now).1
  step r (operates op job_id) = on_job (apply tool_result_of sha256_hex op) job_id r

  unfoldable pub run : QueryJobRegistry → List Call → QueryJobRegistry
  unfolding step
  run r [] = r
  run r (c ∷ cs) = run (step r c) cs

  step-IsBounded : (r : QueryJobRegistry) (c : Call) → IsBounded r → IsBounded (step r c)
  unfolding step
  step-IsBounded r (creates kind query_hash task_managed now) v =
      create_internal-IsBounded r kind query_hash task_managed now v
  step-IsBounded r (gets job_id now) v = get-IsBounded r job_id now v
  step-IsBounded r (lists now) v = list_tasks-IsBounded r now v
  step-IsBounded r (operates op job_id) v = on_job-IsBounded _ job_id r v

  -- Whatever the server does to a table that respects its limit, the table still lists no more
  -- jobs than the limit, and none twice.
  pub run-IsBounded : (r : QueryJobRegistry) (cs : List Call) → IsBounded r → IsBounded (run r cs)
  unfolding run
  run-IsBounded r [] v = v
  run-IsBounded r (c ∷ cs) v = run-IsBounded (step r c) cs (step-IsBounded r c v)
