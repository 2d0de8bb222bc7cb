-- ===== src/Extensions/Calls.antt =====
-- The bound on the cache of unavailable extensions of src/server.rs.
use postgres_mcp.Prelude.{
  ℕ, ◌-◌, ◌≤◌, ◌≡◌, false, not, ◌&&◌, Option, List, [], ◌∷◌, if_both, if_split, leb, nat_eq, Text,
  length, lookup, insert, is_some, Distinct, insert-Distinct, remove-Distinct, retain-Distinct,
  length-insert, length-remove-le, length-retain-le, Option-cases, inl, inr, arith,
}
use postgres_mcp.Extensions.{
  ExtensionCapability, capability_Eq, ExtensionUnavailableStatus, TimedUnavailableStatus, Entries,
  ExtensionUnavailableCache, new_cache, prune_unavailable_entries, get_fresh, record_unavailable,
  clear_extension,
}

-- A call on the cache, and what it does.
pub data Call : Type 0 where
  gets : (extension : ExtensionCapability) → Call
  records : (extension : ExtensionCapability) → (guard_reason message : Text) → Call
  clears : (extension : ExtensionCapability) → Call

unfoldable pub step : ExtensionUnavailableCache → ℕ × Call → ExtensionUnavailableCache
step c (now, gets extension) = (get_fresh extension now c).1
step c (now, records extension guard_reason message) =
    record_unavailable extension guard_reason message now c
step c (now, clears extension) = clear_extension extension c

unfoldable pub run : ExtensionUnavailableCache → List (ℕ × Call) → ExtensionUnavailableCache
unfolding step
run c [] = c
run c (x ∷ xs) = run (step c x) xs

-- No extension twice, and no more of them than the limit.
pub record IsBounded (c : ExtensionUnavailableCache) : Type 0 where
  pub room : 1 ≤ c.max_entries
  pub distinct : Distinct c.entries
  pub bounded : length c.entries ≤ c.max_entries

pub new_cache-IsBounded : (ttl max_entries : ℕ) → IsBounded (new_cache ttl max_entries)
unfolding new_cache
new_cache-IsBounded ttl max_entries = record {
  room = omega arith;
  distinct = tt;
  bounded = omega arith;
}

pub kept-Distinct :
    (ttl now : ℕ) (m : Entries) → Distinct m → Distinct (prune_unavailable_entries ttl now m)
unfolding prune_unavailable_entries
kept-Distinct ttl now m d = if_both Distinct (nat_eq ttl 0) tt (retain-Distinct _ m d)

pub length-kept :
    (ttl now : ℕ) (m : Entries) → length (prune_unavailable_entries ttl now m) ≤ length m
unfolding prune_unavailable_entries
length-kept ttl now m = ground (arith, length-retain-le (λ s. leb (now - s.recorded_at) ttl) m)

abbrev pub pruned : ℕ → ExtensionUnavailableCache → ExtensionUnavailableCache
pruned now c = record c { entries = prune_unavailable_entries c.ttl now c.entries }

pruned-IsBounded :
    (now : ℕ) (c : ExtensionUnavailableCache) → IsBounded c → IsBounded (pruned now c)
pruned-IsBounded now c v = record {
  room = v.room;
  distinct = kept-Distinct c.ttl now c.entries v.distinct;
  bounded = omega (arith, length-kept c.ttl now c.entries, v.bounded);
}

inserted-IsBounded :
    (extension : ExtensionCapability) (s : TimedUnavailableStatus) (c : ExtensionUnavailableCache)
    → IsBounded c
    → (not (is_some (lookup extension c.entries)) && leb c.max_entries (length c.entries)) ≡ false
    → IsBounded (record c { entries = insert extension s c.entries })
inserted-IsBounded extension s c v free = record {
  room = v.room;
  distinct = insert-Distinct extension s c.entries v.distinct;
  bounded = elim (Option-cases (lookup extension c.entries)) [
    | inl e ↦ ground (arith, e, free, length-insert extension s c.entries, v.bounded)
    | inr (t, e) ↦ ground (arith, e, length-insert extension s c.entries, v.bounded)
  ];
}

step-IsBounded :
    (now : ℕ) (x : Call) (c : ExtensionUnavailableCache) → IsBounded c → IsBounded (step c (now, x))
unfolding step get_fresh record_unavailable clear_extension
step-IsBounded now (gets extension) c v =
    if_both (λ (r : Option ExtensionUnavailableStatus × ExtensionUnavailableCache). IsBounded r.1)
      c.poisoned v (pruned-IsBounded now c v)
step-IsBounded now (records extension guard_reason message) c v = if_both IsBounded c.poisoned v (
    if_split IsBounded
      (not (is_some (lookup extension (pruned now c).entries))
        && leb c.max_entries (length (pruned now c).entries))
      (λ full. pruned-IsBounded now c v)
      (λ free. inserted-IsBounded extension _ (pruned now c) (pruned-IsBounded now c v) free))
step-IsBounded now (clears extension) c v = if_both IsBounded c.poisoned v (record {
  room = v.room;
  distinct = remove-Distinct extension c.entries v.distinct;
  bounded = omega (arith, length-remove-le extension c.entries, v.bounded);
})

-- Under any calls the cache holds no extension twice, and no more of them than its limit.
pub cache_run-IsBounded :
    (xs : List (ℕ × Call)) (c : ExtensionUnavailableCache) → IsBounded c → IsBounded (run c xs)
unfolding run
cache_run-IsBounded [] c v = v
cache_run-IsBounded ((now, x) ∷ xs) c v =
    cache_run-IsBounded xs (step c (now, x)) (step-IsBounded now x c v)
