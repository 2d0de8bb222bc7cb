-- ===== src/Registry/Turnover.antt =====
-- Which jobs enter the table of src/server.rs and which leave it.
use postgres_mcp.Prelude.{
  ℕ, ◌+◌, ◌^◌, ◌≤◌, ◌<◌, ◌≡◌, refl, sym, subst, inl, inr, Bool, true, false, none, some,
  if◌then◌else◌, ltb, Text, text_Eq, text_eq_iff, lookup, insert, remove, lookup-insert,
  lookup-insert_self, lookup-remove, lookup-retain, Bool-cases, arith,
}
use postgres_mcp.Jobs.{QueryJobHandle, pending, is_terminal, snapshot_of, new_handle}
use postgres_mcp.Registry.{
  QueryJobRegistry, Created, ok, prune_terminal_jobs, keeps, rank, ttl_ms, oldest_terminal,
  create_internal, get, job_id_of,
}
use postgres_mcp.Registry.Eviction.{
  Jobs, oldest_terminal-Found, oldest_terminal-AtMost, AtMost, Found,
}
use postgres_mcp.Registry.Capacity.{
  pruned, pruned-Distinct, IsBounded, create_cases, create_poisoned,
}
use postgres_mcp.Registry.Identity.{IsNumbered, next_id_unused}

-- The job had a rank, and no listed job an earlier one.
abbrev pub IsOldest : ℕ → Jobs → QueryJobHandle → Type 0
IsOldest now m g =
    (t : ℕ) × (rank now g ≡ some t)
    × ((i : Text) (f : QueryJobHandle) (u : ℕ) → lookup i m ≡ some f → rank now f ≡ some u → t ≤ u)

-- A job that a creation drops although it outlived the pruning is one that ended, and that ended
-- no later than any other ended job of the table.
pub dropped-IsOldest :
    (r : QueryJobRegistry) (kind query_hash : Text) (task_managed : Bool) (now : ℕ) (j : Text)
    (g : QueryJobHandle)
    → IsBounded r
    → r.poisoned ≡ false
    → lookup j (pruned now r) ≡ some g
    → lookup j (create_internal r kind query_hash task_managed now).1.jobs ≡ none
    → IsOldest now (pruned now r) g
dropped-IsOldest r kind query_hash task_managed now j g v sound l =
    create_cases (λ c. lookup j c.1.jobs ≡ none → IsOldest now (pruned now r) g) r kind query_hash
      task_managed now sound (λ h e gone. absurd (cc (l, gone)))
      (λ h gone. absurd (cc (l, left_out (pruned now r) gone)))
      (λ k t h e gone. evicted k t e (left_out (remove k (pruned now r)) gone))
  where
    id : Text
    id = job_id_of kind r.next_id

    left_out :
        (m : Jobs)
        → lookup j (insert id (new_handle id kind query_hash task_managed now) m) ≡ none
        → lookup j m ≡ none
    left_out m e =
        ground (arith, lookup-insert id j (new_handle id kind query_hash task_managed now) m, e)

    evicted :
        (k : Text) (t : ℕ)
        → oldest_terminal now (pruned now r) ≡ some (k, t)
        → lookup j (remove k (pruned now r)) ≡ none
        → IsOldest now (pruned now r) g
    evicted k t e gone =
        let found =
          subst (Found now (pruned now r)) e
            (oldest_terminal-Found now _ (pruned-Distinct now r v.distinct)) in
        (
          t,
          ground
              (arith, lookup-remove k j (pruned now r), text_eq_iff k j, found.1, found.2, l, gone),
          λ i f u at ranked.
              subst (AtMost u) e (oldest_terminal-AtMost now u i f (pruned now r) at ranked),
        )

-- A creation that succeeds lists a pending job under an id that no job had.
pub created_is_new :
    (r : QueryJobRegistry) (kind query_hash : Text) (task_managed : Bool) (now : ℕ)
    (h : QueryJobHandle)
    → IsNumbered r
    → r.next_id < 2 ^ 64
    → (create_internal r kind query_hash task_managed now).0 ≡ ok h
    → (lookup h.snapshot.job_id r.jobs ≡ none)
      × (lookup h.snapshot.job_id (create_internal r kind query_hash task_managed now).1.jobs
          ≡ some h)
      × (h.snapshot.state ≡ pending)
unfolding new_handle
created_is_new r kind query_hash task_managed now h n below = elim (Bool-cases r.poisoned) [
  | inl p ↦ subst P (sym (create_poisoned r kind query_hash task_managed now p)) (λ e. absurd (cc))
  | inr sound ↦
      create_cases P r kind query_hash task_managed now sound (λ _ _ e. absurd (cc))
        (λ _ e. listed (pruned now r) (ok_eq_ok e))
        (λ k t _ _ e. listed (remove k (pruned now r)) (ok_eq_ok e))
]
  where
    P : Created × QueryJobRegistry → Type 0
    P c =
        c.0 ≡ ok h
        → (lookup h.snapshot.job_id r.jobs ≡ none)
          × (lookup h.snapshot.job_id c.1.jobs ≡ some h)
          × (h.snapshot.state ≡ pending)

    id : Text
    id = job_id_of kind r.next_id

    new : QueryJobHandle
    new = new_handle id kind query_hash task_managed now

    ok_eq_ok : {a b : QueryJobHandle} → ok a ≡ ok b → a ≡ b
    ok_eq_ok e = cc

    listed :
        (m : Jobs)
        → new ≡ h
        → (lookup h.snapshot.job_id r.jobs ≡ none)
          × (lookup h.snapshot.job_id (insert id new m) ≡ some h)
          × (h.snapshot.state ≡ pending)
    listed m e =
        subst
          (λ h.
            (lookup h.snapshot.job_id r.jobs ≡ none)
            × (lookup h.snapshot.job_id (insert id new m) ≡ some h)
            × (h.snapshot.state ≡ pending))
          e (next_id_unused r kind n below, lookup-insert_self id new m, refl)

-- A job that has ended is found until its time to live is over, and not after that.
pub get_by_age :
    (r : QueryJobRegistry) (job_id : Text) (now finished : ℕ) (h : QueryJobHandle)
    → IsBounded r
    → r.poisoned ≡ false
    → h.snapshot_poisoned ≡ false
    → lookup job_id r.jobs ≡ some h
    → is_terminal h.snapshot.state ≡ true
    → h.snapshot.finished_at_unix_ms ≡ some finished
    → (get r job_id now).0 ≡ (if ltb (finished + ttl_ms r) now then none else some h)
unfolding get prune_terminal_jobs keeps snapshot_of
get_by_age r job_id now finished h v sound hs l t f =
    ground (arith, lookup-retain (keeps now (ttl_ms r)) job_id r.jobs h v.distinct l)
