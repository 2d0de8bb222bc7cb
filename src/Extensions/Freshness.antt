-- ===== src/Extensions/Freshness.antt =====
-- What the cache of unavailable extensions of src/server.rs remembers, and for how long.
use postgres_mcp.Prelude.{
  ℕ, ◌+◌, ◌-◌, ◌≤◌, ◌<◌, ◌≡◌, ◌≢◌, refl, true, false, not, ◌&&◌, Option, some, List, [], ◌∷◌,
  if_both, if_split, leb, Text, length, lookup, is_some, All, Distinct, insert-Distinct,
  remove-Distinct, lookup-insert, lookup-insert_self, lookup-remove, lookup-retain, arith,
}
use postgres_mcp.Extensions.{
  ExtensionCapability, capability_Eq, ExtensionUnavailableStatus, TimedUnavailableStatus, Entries,
  ExtensionUnavailableCache, prune_unavailable_entries, get_fresh, record_unavailable,
  clear_extension,
}
use postgres_mcp.Extensions.Calls.{
  Call, gets, records, clears, step, run, IsBounded, pruned, kept-Distinct, length-kept,
}

-- A call leaves an extension alone: it asks for any, or it records or clears another one, and
-- comes before the given time.
abbrev pub LeavesAlone : ExtensionCapability → ℕ → ℕ × Call → Type 0
LeavesAlone extension over (now, gets other) = now ≤ over
LeavesAlone extension over (now, records other guard_reason message) =
    (other ≢ extension) × (now ≤ over)
LeavesAlone extension over (now, clears other) = (other ≢ extension) × (now ≤ over)

-- The record of the extension, in a cache that remembers.
record Remembers (extension : ExtensionCapability) (ttl : ℕ) (s : TimedUnavailableStatus)
    (c : ExtensionUnavailableCache) : Type 0 where
  pub sound : c.poisoned ≡ false
  pub lives : c.ttl ≡ ttl
  pub distinct : Distinct c.entries
  pub listed : lookup extension c.entries ≡ some s

kept_fresh :
    (extension : ExtensionCapability) (ttl now : ℕ) (s : TimedUnavailableStatus) (m : Entries)
    → Distinct m
    → 0 < ttl
    → now ≤ s.recorded_at + ttl
    → lookup extension m ≡ some s
    → lookup extension (prune_unavailable_entries ttl now m) ≡ some s
unfolding prune_unavailable_entries
kept_fresh extension ttl now s m d some_ttl early h =
    ground
      (arith, lookup-retain (λ t. leb (now - t.recorded_at) ttl) extension m s d h, some_ttl, early)

pruned-Remembers :
    (extension : ExtensionCapability) (ttl now : ℕ) (s : TimedUnavailableStatus)
    (c : ExtensionUnavailableCache)
    → 0 < ttl
    → now ≤ s.recorded_at + ttl
    → Remembers extension ttl s c
    → Remembers extension ttl s (pruned now c)
pruned-Remembers extension ttl now s c some_ttl early v = record {
  sound = v.sound;
  lives = v.lives;
  distinct = kept-Distinct c.ttl now c.entries v.distinct;
  listed =
      kept_fresh extension c.ttl now s c.entries v.distinct (omega (arith, v.lives))
        (omega (arith, v.lives)) v.listed;
}

step-Remembers :
    (extension : ExtensionCapability) (ttl now : ℕ) (s : TimedUnavailableStatus) (x : Call)
    (c : ExtensionUnavailableCache)
    → 0 < ttl
    → LeavesAlone extension (s.recorded_at + ttl) (now, x)
    → Remembers extension ttl s c
    → Remembers extension ttl s (step c (now, x))
unfolding step get_fresh record_unavailable clear_extension
step-Remembers extension ttl now s (gets other) c some_ttl h v =
    if_both
      (λ (r : Option ExtensionUnavailableStatus × ExtensionUnavailableCache).
        Remembers extension ttl s r.1)
      c.poisoned v (pruned-Remembers extension ttl now s c some_ttl h v)
step-Remembers extension ttl now s (records other guard_reason message) c some_ttl h v =
    if_both (Remembers extension ttl s) c.poisoned v (
      if_both (Remembers extension ttl s)
        (not (is_some (lookup other (pruned now c).entries))
          && leb c.max_entries (length (pruned now c).entries))
        kept
        (record {
          sound = kept.sound;
          lives = kept.lives;
          distinct = insert-Distinct other new (pruned now c).entries kept.distinct;
          listed = ground (
            arith,
            kept.listed,
            h.0,
            capability_Eq.decides other extension,
            lookup-insert other extension new (pruned now c).entries,
          );
        }))
  where
    new : TimedUnavailableStatus
    new = record { guard_reason = guard_reason; message = message; recorded_at = now }

    kept : Remembers extension ttl s (pruned now c)
    kept = pruned-Remembers extension ttl now s c some_ttl h.1 v
step-Remembers extension ttl now s (clears other) c some_ttl h v =
    if_both (Remembers extension ttl s) c.poisoned v (record {
      sound = v.sound;
      lives = v.lives;
      distinct = remove-Distinct other c.entries v.distinct;
      listed = ground (
        arith,
        v.listed,
        h.0,
        capability_Eq.decides other extension,
        lookup-remove other extension c.entries,
      );
    })

run-Remembers :
    (extension : ExtensionCapability) (ttl : ℕ) (s : TimedUnavailableStatus) (xs : List (ℕ × Call))
    (c : ExtensionUnavailableCache)
    → 0 < ttl
    → All (LeavesAlone extension (s.recorded_at + ttl)) xs
    → Remembers extension ttl s c
    → Remembers extension ttl s (run c xs)
unfolding run
run-Remembers extension ttl s [] c some_ttl h v = v
run-Remembers extension ttl s ((now, x) ∷ xs) c some_ttl h v =
    run-Remembers extension ttl s xs (step c (now, x)) some_ttl h.1
      (step-Remembers extension ttl now s x c some_ttl h.0 v)

record-Remembers :
    (extension : ExtensionCapability) (guard_reason message : Text) (at : ℕ)
    (c : ExtensionUnavailableCache)
    → c.poisoned ≡ false
    → IsBounded c
    → length c.entries < c.max_entries
    → Remembers extension c.ttl
        (record { guard_reason = guard_reason; message = message; recorded_at = at })
        (record_unavailable extension guard_reason message at c)
unfolding record_unavailable
record-Remembers extension guard_reason message at c sound v room =
    if_split (Remembers extension c.ttl new) c.poisoned (λ p. absurd (cc (p, sound)))
      (λ p.
        if_split (Remembers extension c.ttl new)
          (not (is_some (lookup extension (pruned at c).entries))
            && leb c.max_entries (length (pruned at c).entries))
          (λ full. absurd (no_room full))
          (λ free. record {
            sound = sound;
            lives = refl;
            distinct =
                insert-Distinct extension new (pruned at c).entries
                  (kept-Distinct c.ttl at c.entries v.distinct);
            listed = lookup-insert_self extension new (pruned at c).entries;
          }))
  where
    new : TimedUnavailableStatus
    new = record { guard_reason = guard_reason; message = message; recorded_at = at }

    no_room :
        (not (is_some (lookup extension (pruned at c).entries))
            && leb c.max_entries (length (pruned at c).entries))
          ≡ true
        → ⊥
    no_room full = ground (arith, full, length-kept c.ttl at c.entries, room)

-- An extension that was recorded as unavailable, in a sound cache with room and a lifetime, is
-- answered with that reason and message at any time up to the end of the lifetime, whatever was
-- asked, and whatever was recorded or cleared of the other extension, in between.
pub recorded_is_answered :
    (extension : ExtensionCapability) (guard_reason message : Text) (at now : ℕ)
    (xs : List (ℕ × Call)) (c : ExtensionUnavailableCache)
    → c.poisoned ≡ false
    → IsBounded c
    → length c.entries < c.max_entries
    → 0 < c.ttl
    → All (LeavesAlone extension (at + c.ttl)) xs
    → now ≤ at + c.ttl
    → (get_fresh extension now (run (record_unavailable extension guard_reason message at c) xs)).0
      ≡ some (record { guard_reason = guard_reason; message = message })
unfolding get_fresh
recorded_is_answered extension guard_reason message at now xs c sound v room some_ttl h early =
    let s : TimedUnavailableStatus = record {
      guard_reason = guard_reason;
      message = message;
      recorded_at = at;
    } in
    let end =
      run-Remembers extension c.ttl s xs (record_unavailable extension guard_reason message at c)
        some_ttl h (record-Remembers extension guard_reason message at c sound v room) in
    let kept = pruned-Remembers extension c.ttl now s _ some_ttl early end in
    ground (arith, end.sound, kept.listed)
