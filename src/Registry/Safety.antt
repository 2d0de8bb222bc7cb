-- ===== src/Registry/Safety.antt =====
-- What a creation and a lookup in src/server.rs do to the jobs that are listed.
use postgres_mcp.Prelude.{
  ℕ, ◌^◌, ◌≤◌, ◌<◌, ◌≡◌, ◌↔◌, refl, sym, ◌∙◌, subst, inl, inr, Bool, false, Option, none, some,
  ◌==◌, Text, text_Eq, text_eq_iff, length, lookup, insert, remove, lookup-insert, lookup-remove,
  Distinct, Bool-cases, arith,
}
use postgres_mcp.Jobs.{QueryJobHandle, is_terminal, snapshot_of, new_handle}
use postgres_mcp.Registry.{
  QueryJobRegistry, err, capacity_reached, rank, oldest_terminal, create_internal, job_id_of,
}
use postgres_mcp.Registry.Eviction.{
  Jobs, rank-some, rank_ended, oldest_terminal-Found, oldest_terminal-AtMost, AtMost, Found,
}
use postgres_mcp.Registry.Capacity.{
  pruned, pruned-Distinct, IsBounded, create_cases, create_poisoned,
}
use postgres_mcp.Registry.Identity.{IsNumbered, next_id_unused, lookup-pruned_live}

abbrev pub AllLive : ℕ → Jobs → Type 0
AllLive now m =
    (k : Text) (h : QueryJobHandle)
    → lookup k m ≡ some h
    → is_terminal (snapshot_of now h).state ≡ false

none_oldest-AllLive : (now : ℕ) (m : Jobs) → oldest_terminal now m ≡ none → AllLive now m
none_oldest-AllLive now m e k h l = elim (Bool-cases (is_terminal (snapshot_of now h).state)) [
  | inr live ↦ live
  | inl ended ↦ absurd (ranked (rank_ended now h ended))
]
  where
    ranked : (t : ℕ) × (rank now h ≡ some t) → ⊥
    ranked (t, f) = subst (AtMost t) e (oldest_terminal-AtMost now t k h m l f)

AllLive-none_oldest :
    (now : ℕ) (m : Jobs) → Distinct m → AllLive now m → oldest_terminal now m ≡ none
AllLive-none_oldest now m d live = go (oldest_terminal now m) (oldest_terminal-Found now m d)
  where
    go : (o : Option (Text × ℕ)) → Found now m o → o ≡ none
    go none f = refl
    go (some (k, t)) (h, l, r) = absurd (cc (rank-some now t h r, live k h l))

-- Under a sound lock a creation is refused exactly if, after the pruning, the table is full and
-- none of its jobs has ended.
pub create_refused_iff :
    (r : QueryJobRegistry) (kind query_hash : Text) (task_managed : Bool) (now : ℕ)
    → IsBounded r
    → r.poisoned ≡ false
    → ((create_internal r kind query_hash task_managed now).0 ≡ err capacity_reached)
      ↔ ((r.max_entries ≤ length (pruned now r)) × AllLive now (pruned now r))
create_refused_iff r kind query_hash task_managed now v sound =
    create_cases
      (λ c.
        (c.0 ≡ err capacity_reached)
        ↔ ((r.max_entries ≤ length (pruned now r)) × AllLive now (pruned now r)))
      r kind query_hash task_managed now sound
      (λ h e. ((λ _. (h, none_oldest-AllLive now _ e)), λ _. refl))
      (λ h. ((λ e. absurd (cc)), λ a. absurd (omega (arith, a.0))))
      (λ k t h e. (
        (λ f. absurd (cc)),
        λ a. absurd (cc (e, AllLive-none_oldest now _ (pruned-Distinct now r v.distinct) a.1)),
      ))

-- A job that has not ended is never dropped from the table to make room: a creation leaves every
-- such job listed, with its handle, whether it succeeds or not.
pub create_keeps_live :
    (r : QueryJobRegistry) (kind query_hash : Text) (task_managed : Bool) (now : ℕ) (j : Text)
    (g : QueryJobHandle)
    → IsBounded r
    → IsNumbered r
    → r.next_id < 2 ^ 64
    → lookup j r.jobs ≡ some g
    → is_terminal (snapshot_of now g).state ≡ false
    → lookup j (create_internal r kind query_hash task_managed now).1.jobs ≡ some g
create_keeps_live r kind query_hash task_managed now j g v n below l live =
    elim (Bool-cases r.poisoned) [
      | inl p ↦
          subst (λ c. lookup j c.1.jobs ≡ some g)
            (sym (create_poisoned r kind query_hash task_managed now p)) l
      | inr sound ↦
          create_cases (λ c. lookup j c.1.jobs ≡ some g) r kind query_hash task_managed now sound
            (λ h e. kept) (λ h. inserted (pruned now r) kept)
            (λ k t h e. inserted (remove k (pruned now r)) (unevicted k t e))
    ]
  where
    id : Text
    id = job_id_of kind r.next_id

    kept : lookup j (pruned now r) ≡ some g
    kept = lookup-pruned_live now r j g v.distinct l live

    other : (id == j) ≡ false
    other = ground (arith, text_eq_iff id j, next_id_unused r kind n below, l)

    inserted :
        (m : Jobs)
        → lookup j m ≡ some g
        → lookup j (insert id (new_handle id kind query_hash task_managed now) m) ≡ some g
    inserted m e = lookup-insert id j _ m ∙ ground (arith, other, e)

    unevicted :
        (k : Text) (t : ℕ)
        → oldest_terminal now (pruned now r) ≡ some (k, t)
        → lookup j (remove k (pruned now r)) ≡ some g
    unevicted k t e =
        let found =
          subst (Found now (pruned now r)) e
            (oldest_terminal-Found now _ (pruned-Distinct now r v.distinct)) in
        lookup-remove k j (pruned now r)
        ∙ ground (arith, kept, text_eq_iff k j, found.1, rank-some now t found.0 found.2, live)
