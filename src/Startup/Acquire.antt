-- ===== src/Startup/Acquire.antt =====
-- `StartupCoordinator::acquire` and `StartupLeaseGuard::release` of src/startup_coordination.rs.
use postgres_mcp.Prelude.{
  ℕ, ◌+◌, false, Option, none, some, List, [], ◌∷◌, if◌then◌else◌, leb, Text, text_Eq, codes,
}
use postgres_mcp.Startup.{
  ok, err, lease_busy, invalid_setting, off, lease, StartupCoordinationConfig,
}
use postgres_mcp.Startup.Lease.{try_acquire_lease, release_lease}
use postgres_mcp.Startup.Journal.{StartupLeaseGuard, Action, bind, execute_sql, record_phase_event}

unfoldable pub release : StartupLeaseGuard → Action (Unit {0})
release g = execute_sql g.config none (λ now w.
    (tt, record w { leases = release_lease g.config.lease_key g.owner_id g.fence_token w.leases }))

abbrev acquired_phase : Text
acquired_phase = codes "startup_lease_acquired"

-- The guard, and its two entries in the journal.
unfoldable pub hand_over : StartupCoordinationConfig → Text → Text → ℕ → Action StartupLeaseGuard
hand_over c owner_id run_id fence_token w =
    let g : StartupLeaseGuard = record {
      config = c;
      owner_id = owner_id;
      run_id = run_id;
      fence_token = fence_token;
    } in
    bind (record_phase_event g acquired_phase (codes "started") none none)
      (λ started.
        bind (record_phase_event g acquired_phase (codes "completed") none none)
          (λ completed w. (ok g, w)))
      (record w { fence_lost = false })

unfoldable pub attempt : StartupCoordinationConfig → Text → Action (Option ℕ)
attempt c owner_id = execute_sql c none (λ now w.
    let (fence, leases) = try_acquire_lease c.lease_key c.lease_ttl owner_id now w.leases in
    (fence, record w { leases = leases }))

abbrev taken :
    StartupCoordinationConfig
    → Text
    → Text
    → Action StartupLeaseGuard
    → Option ℕ
    → Action StartupLeaseGuard
taken c owner_id run_id again none = again
taken c owner_id run_id again (some fence) = hand_over c owner_id run_id fence

-- The loop: `instants` are the times at which it looks at the clock before the deadline or after
-- it; when it looks again after the listed ones, the deadline has passed.
unfoldable pub acquire_by :
    StartupCoordinationConfig → Text → Text → ℕ → List ℕ → Action StartupLeaseGuard
acquire_by c owner_id run_id deadline [] w =
    bind (attempt c owner_id) (taken c owner_id run_id (λ w'. (err lease_busy, w'))) w
acquire_by c owner_id run_id deadline (instant ∷ instants) w =
    bind (attempt c owner_id)
      (taken c owner_id run_id (λ w'.
        let again = acquire_by c owner_id run_id deadline instants w' in
        if leb deadline instant then (err lease_busy, w') else again))
      w

-- `acquire`, with the instant at which it starts. `ensure_tables` takes a turn of its own.
unfoldable pub acquire :
    StartupCoordinationConfig → Text → Text → ℕ → List ℕ → Action StartupLeaseGuard
acquire c owner_id run_id start instants w =
    let tried =
      bind (execute_sql c none (λ now w. (tt, w)))
        (λ ready. acquire_by c owner_id run_id (start + c.acquire_timeout) instants) w in
    elim c.mode [ off ↦ (err invalid_setting, w) | lease ↦ tried ]
