-- ===== src/Registry/Identity.antt =====
-- Job ids: src/server.rs numbers the jobs, so that no two of them share an id.
use postgres_mcp.Prelude.{
  ℕ, ◌^◌, ◌<◌, ◌≡◌, refl, sym, ap, ◌∙◌, inl, inr, false, none, some, [], ◌∷◌, ◌++◌, ◌==◌, Text,
  text_Eq, codes, lookup, lookup-retain-none, lookup-retain, Distinct, Option-cases, if_both,
  hex_padded, hex_padded-injective, arith,
}
use postgres_mcp.Jobs.{QueryJobHandle, is_terminal, snapshot_of}
use postgres_mcp.Registry.{
  QueryJobRegistry, prune_terminal_jobs, keeps, with_limits, job_id_of, prefix_of,
}
use postgres_mcp.Registry.Capacity.{pruned}

-- Every id in the table was given out before the next one.
abbrev pub IsNumbered : QueryJobRegistry → Type 0
IsNumbered r =
    (k : Text) (h : QueryJobHandle)
    → lookup k r.jobs ≡ some h
    → (kind : Text) × (i : ℕ) × (k ≡ job_id_of kind i) × (i < r.next_id)

pub with_limits-IsNumbered :
    (max_entries terminal_ttl : ℕ) → IsNumbered (with_limits max_entries terminal_ttl)
unfolding with_limits lookup
with_limits-IsNumbered max_entries terminal_ttl k h e = absurd (cc)

abbrev drop3 : Text → Text
drop3 [] = []
drop3 (a ∷ []) = []
drop3 (a ∷ b ∷ []) = []
drop3 (a ∷ b ∷ c ∷ s) = s

-- A prefix has two characters.
drop3-job_id_of : (kind : Text) (i : ℕ) → drop3 (job_id_of kind i) ≡ hex_padded 16 i
unfolding job_id_of prefix_of
drop3-job_id_of kind i =
    let P : Text → Type 0 = λ p. drop3 (p ++ b'_' ∷ hex_padded 16 i) ≡ hex_padded 16 i in
    if_both P (kind == codes "query") refl (if_both P (kind == codes "export") refl refl)

pub job_id_of-injective :
    (kind kind' : Text) (i j : ℕ)
    → i < 2 ^ 64
    → j < 2 ^ 64
    → job_id_of kind i ≡ job_id_of kind' j
    → i ≡ j
job_id_of-injective kind kind' i j h k e =
    hex_padded-injective 16 i j h k
      (sym (drop3-job_id_of kind i) ∙ ap drop3 e ∙ drop3-job_id_of kind' j)

-- The next id is not in the table.
pub next_id_unused :
    (r : QueryJobRegistry) (kind : Text)
    → IsNumbered r
    → r.next_id < 2 ^ 64
    → lookup (job_id_of kind r.next_id) r.jobs ≡ none
next_id_unused r kind v h = elim (Option-cases (lookup (job_id_of kind r.next_id) r.jobs)) [
  | inl e ↦ e
  | inr (g, e) ↦ absurd (taken (v (job_id_of kind r.next_id) g e))
]
  where
    taken :
        (kind' : Text) × (i : ℕ) × (job_id_of kind r.next_id ≡ job_id_of kind' i) × (i < r.next_id)
        → ⊥
    taken (kind', i, e, lt) =
        let same : r.next_id ≡ i = job_id_of-injective kind kind' r.next_id i h (omega arith) e in
        omega arith

pub lookup-pruned-none :
    (now : ℕ) (r : QueryJobRegistry) (k : Text)
    → lookup k r.jobs ≡ none
    → lookup k (pruned now r) ≡ none
unfolding prune_terminal_jobs
lookup-pruned-none now r k e = lookup-retain-none _ k r.jobs e

-- A pruned job has ended.
pub lookup-pruned_live :
    (now : ℕ) (r : QueryJobRegistry) (k : Text) (h : QueryJobHandle)
    → Distinct r.jobs
    → lookup k r.jobs ≡ some h
    → is_terminal (snapshot_of now h).state ≡ false
    → lookup k (pruned now r) ≡ some h
unfolding prune_terminal_jobs keeps
lookup-pruned_live now r k h d e live = lookup-retain _ k r.jobs h d e ∙ ground (arith, live)
