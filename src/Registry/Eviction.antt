-- ===== src/Registry/Eviction.antt =====
-- Which job `evict_oldest_terminal_job_locked` of src/server.rs removes.
use postgres_mcp.Prelude.{
  ℕ, ◌≤◌, ◌≡◌, refl, sym, ap, ◌∙◌, inl, inr, true, false, Option, none, some, List, [], ◌∷◌, ◌==◌,
  if◌then◌else◌, ltb, Text, text_Eq, text_eq_iff, lookup, Distinct, Bool-cases, some_eq_some,
  if_both, if_split, arith,
}
use postgres_mcp.Jobs.{QueryJobHandle, is_terminal, snapshot_of}
use postgres_mcp.Registry.{rank, oldest_terminal, earlier, finished_or_created}

abbrev pub Jobs : Type 0
Jobs = List (Text × QueryJobHandle)

-- A job has no rank exactly while it has not ended.
pub rank-none :
    (now : ℕ) (h : QueryJobHandle)
    → is_terminal (snapshot_of now h).state ≡ false
    → rank now h ≡ none
unfolding rank
rank-none now h e = ground arith

pub rank-some :
    (now t : ℕ) (h : QueryJobHandle)
    → rank now h ≡ some t
    → is_terminal (snapshot_of now h).state ≡ true
unfolding rank
rank-some now t h e = ground arith

pub rank_ended :
    (now : ℕ) (h : QueryJobHandle)
    → is_terminal (snapshot_of now h).state ≡ true
    → (t : ℕ) × (rank now h ≡ some t)
unfolding rank
rank_ended now h e = (finished_or_created (snapshot_of now h), ground arith)

-- A job that is listed behind another has another id.
lookup_behind :
    (k j : Text) (h g : QueryJobHandle) (m : Jobs)
    → lookup k m ≡ none
    → lookup j m ≡ some g
    → lookup j ((k, h) ∷ m) ≡ some g
unfolding lookup
lookup_behind k j h g m d e = ground (arith, text_eq_iff k j)

lookup_front : (k : Text) (h : QueryJobHandle) (m : Jobs) → lookup k ((k, h) ∷ m) ≡ some h
unfolding lookup
lookup_front k h m = ground (arith, text_eq_iff k k)

-- The chosen job is listed, with its rank.
abbrev pub Found : ℕ → Jobs → Option (Text × ℕ) → Type 0
Found now m none = Unit {0}
Found now m (some (k, t)) = (h : QueryJobHandle) × (lookup k m ≡ some h) × (rank now h ≡ some t)

earlier-Found :
    (now : ℕ) (k : Text) (h : QueryJobHandle) (m : Jobs) (r : Option ℕ) (best : Option (Text × ℕ))
    → lookup k m ≡ none
    → rank now h ≡ r
    → Found now m best
    → Found now ((k, h) ∷ m) (earlier k r best)
earlier-Found now k h m none none d e f = tt
earlier-Found now k h m none (some (j, u)) d e f = (f.0, lookup_behind k j h f.0 m d f.1, f.2)
earlier-Found now k h m (some t) none d e f = (h, lookup_front k h m, e)
earlier-Found now k h m (some t) (some (j, u)) d e f =
    if_both (Found now ((k, h) ∷ m)) (ltb u t) (f.0, lookup_behind k j h f.0 m d f.1, f.2)
      (h, lookup_front k h m, e)

pub oldest_terminal-Found : (now : ℕ) (m : Jobs) → Distinct m → Found now m (oldest_terminal now m)
unfolding oldest_terminal
oldest_terminal-Found now [] d = tt
oldest_terminal-Found now ((k, h) ∷ m) d =
    earlier-Found now k h m (rank now h) (oldest_terminal now m) d.0 refl
      (oldest_terminal-Found now m d.1)

-- Its rank is at most that of every job that has one.
abbrev pub AtMost : ℕ → Option (Text × ℕ) → Type 0
AtMost u none = ⊥
AtMost u (some (k, t)) = t ≤ u

earlier-AtMost_head :
    (k : Text) (u : ℕ) (best : Option (Text × ℕ)) → AtMost u (earlier k (some u) best)
earlier-AtMost_head k u none = omega arith
earlier-AtMost_head k u (some (j, v)) =
    if_split (AtMost u) (ltb v u) (λ h. ground arith) (λ h. omega arith)

earlier-AtMost :
    (k : Text) (u : ℕ) (r : Option ℕ) (best : Option (Text × ℕ))
    → AtMost u best
    → AtMost u (earlier k r best)
earlier-AtMost k u r none a = absurd a
earlier-AtMost k u none (some (j, v)) a = a
earlier-AtMost k u (some t) (some (j, v)) a =
    if_split (AtMost u) (ltb v t) (λ h. a) (λ h. ground arith)

pub oldest_terminal-AtMost :
    (now u : ℕ) (j : Text) (g : QueryJobHandle) (m : Jobs)
    → lookup j m ≡ some g
    → rank now g ≡ some u
    → AtMost u (oldest_terminal now m)
unfolding oldest_terminal lookup
oldest_terminal-AtMost now u j g [] e r = absurd (cc)
oldest_terminal-AtMost now u j g ((k, h) ∷ m) e r = elim (Bool-cases (k == j)) [
  | inl same ↦
      rw
        (ap (rank now) (some_eq_some (sym (ap (λ t. if t then some h else lookup j m) same) ∙ e))
          ∙ r)
        (earlier-AtMost_head k u (oldest_terminal now m))
  | inr other ↦ earlier-AtMost k u (rank now h) (oldest_terminal now m) (
      oldest_terminal-AtMost now u j g m
        (sym (ap (λ t. if t then some h else lookup j m) other) ∙ e) r)
]
