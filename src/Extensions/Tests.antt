-- ===== src/Extensions/Tests.antt =====
-- The cache of unavailable extensions of src/server.rs at concrete inputs.
use postgres_mcp.Prelude.{
  ℕ, ◌≡◌, ◌≢◌, refl, none, some, List, [], ◌∷◌, Text, codes, lookup, insert, retain, arith,
}
use postgres_mcp.Extensions.{
  hypopg, pg_stat_statements, capability_Eq, new_cache, get_fresh, record_unavailable,
  prune_unavailable_entries,
}
use postgres_mcp.Extensions.Calls.{
  Call, gets, records, run, IsBounded, new_cache-IsBounded, cache_run-IsBounded,
}
use postgres_mcp.Extensions.Freshness.{recorded_is_answered}

abbrev reason : Text
reason = codes "not_installed"

abbrev calls : List (ℕ × Call)
calls = (120, gets pg_stat_statements) ∷ (130, records pg_stat_statements reason []) ∷ []

cache_run-IsBounded_test : IsBounded (run (new_cache 50 1) calls)
cache_run-IsBounded_test = cache_run-IsBounded calls (new_cache 50 1) (new_cache-IsBounded 50 1)

other_extension : pg_stat_statements ≢ hypopg
other_extension e = absurd (cc (e))

recorded_is_answered_example :
    (get_fresh hypopg 150 (run (record_unavailable hypopg reason [] 100 (new_cache 50 1)) calls)).0
    ≡ some (record { guard_reason = reason; message = [] })
unfolding new_cache
recorded_is_answered_example =
    recorded_is_answered hypopg reason [] 100 150 calls (new_cache 50 1) refl
      (new_cache-IsBounded 50 1) (omega arith) (omega arith)
      (omega arith, ((other_extension, omega arith), tt)) (omega arith)

expired_test :
    (get_fresh hypopg 151 (record_unavailable hypopg reason [] 100 (new_cache 50 1))).0 ≡ none
unfolding get_fresh record_unavailable new_cache prune_unavailable_entries lookup insert retain
expired_test = refl
