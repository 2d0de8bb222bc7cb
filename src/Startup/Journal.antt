-- ===== src/Startup/Journal.antt =====
-- The guard of src/startup_coordination.rs: the acquisition of the lease, and the phases that run
-- under it. Each statement takes a turn: what the other processes and the guard's own heartbeat
-- did to the lease since the last one, the database's clock, and whether the statement fails.
-- Past the listed turns every statement fails. The ids that `generated_id` draws and the work of
-- a phase are parameters. The log and the wording of the errors are left out.
use postgres_mcp.Prelude.{
  ℕ, Bool, true, false, not, ◌&&◌, ◌||◌, Option, none, some, List, [], ◌∷◌, ◌==◌, if◌then◌else◌,
  nat_eq, Text, text_Eq, codes,
}
use postgres_mcp.Startup.{
  Result, ok, err, lease_lost, invalid_phase, database_failed, work_failed, journal_failed,
  StartupCoordinationConfig, validate_phase_name, clipped_error_text,
}
use postgres_mcp.Startup.Lease.{
  Leases, Step, beats, acquires, releases, step, heartbeat_once, is_held,
}

-- A row of `mcp_startup_phase_events`.
pub record PhaseEvent : Type 0 where
  pub run_id : Text
  pub lease_key : Text
  pub owner_id : Text
  pub fence_token : ℕ
  pub phase : Text
  pub event : Text
  pub error_code : Option Text
  pub error_message : Option Text

pub record Turn : Type 0 where
  pub others : List (ℕ × Step)
  pub now : ℕ
  pub fails : Bool

-- The journal is listed by falling `id`.
pub record World : Type 0 where
  pub leases : Leases
  pub events : List PhaseEvent
  pub fence_lost : Bool
  pub turns : List Turn

pub record StartupLeaseGuard : Type 0 where
  pub config : StartupCoordinationConfig
  pub owner_id : Text
  pub run_id : Text
  pub fence_token : ℕ

abbrev pub Action : Type 0 → Type 0
Action A = World → Result A × World

-- `?` and what follows it.
abbrev pub continue : {A B : Type 0} → Result A × World → (A → Action B) → Result B × World
continue (ok a, w) f = f a w
continue (err e, w) f = (err e, w)

abbrev pub bind : {A B : Type 0} → Action A → (A → Action B) → Action B
bind m f w = continue (m w) f

-- The heartbeat task of the guard that holds the fence finds no row to renew.
unfoldable pub loses : Option StartupLeaseGuard → Leases → ℕ × Step → Bool
loses none m s = false
loses (some g) m (now, acquires owner) = false
loses (some g) m (now, releases owner fence) = false
loses (some g) m (now, beats owner fence) =
    (owner == g.owner_id)
    && nat_eq fence g.fence_token
    && not (heartbeat_once g.config.lease_key g.config.lease_ttl owner fence now m).0

unfoldable pub elapse :
    StartupCoordinationConfig → Option StartupLeaseGuard → List (ℕ × Step) → World → World
elapse c g [] w = w
elapse c g (s ∷ ss) w = elapse c g ss (record w {
  leases = step c.lease_key c.lease_ttl w.leases s;
  fence_lost = w.fence_lost || loses g w.leases s;
})

abbrev pub take_turn :
    {A : Type 0}
    → StartupCoordinationConfig
    → Option StartupLeaseGuard
    → (ℕ → World → A × World)
    → List Turn
    → Action A
take_turn c g statement [] w = (err database_failed, w)
take_turn c g statement (t ∷ ts) w =
    let w' : World = elapse c g t.others (record w { turns = ts }) in
    if t.fails
    then (err database_failed, w')
    else let done = statement t.now w' in (ok done.0, done.1)

unfoldable pub execute_sql :
    {A : Type 0}
    → StartupCoordinationConfig
    → Option StartupLeaseGuard
    → (ℕ → World → A × World)
    → Action A
execute_sql c g statement w = take_turn c g statement w.turns w

unfoldable pub assert_fence : StartupLeaseGuard → Action (Unit {0})
assert_fence g w =
    let looked : Result Bool × World =
      execute_sql g.config (some g)
        (λ now w. (is_held g.config.lease_key g.owner_id g.fence_token now w.leases, w)) w in
    if w.fence_lost
    then (err lease_lost, w)
    else continue looked
        (λ held w'. if held then (ok tt, w') else (err lease_lost, record w' { fence_lost = true }))

unfoldable pub event_of : StartupLeaseGuard → Text → Text → Option Text → Option Text → PhaseEvent
event_of g phase event error_code error_message = record {
  run_id = g.run_id;
  lease_key = g.config.lease_key;
  owner_id = g.owner_id;
  fence_token = g.fence_token;
  phase = phase;
  event = event;
  error_code = error_code;
  error_message = error_message;
}

unfoldable pub record_phase_event :
    StartupLeaseGuard → Text → Text → Option Text → Option Text → Action (Unit {0})
record_phase_event g phase event code message w =
    let written : Result (Unit {0}) × World =
      bind (assert_fence g)
        (λ held.
          execute_sql g.config (some g)
            (λ now w. (tt, record w { events = event_of g phase event code message ∷ w.events })))
        w in
    if validate_phase_name phase then written else (err invalid_phase, w)

unfoldable pub latest : Text → Text → List PhaseEvent → Option Text
latest key phase [] = none
latest key phase (e ∷ es) =
    if e.lease_key == key && e.phase == phase then some e.event else latest key phase es

unfoldable pub latest_phase_event : StartupLeaseGuard → Text → Action (Option Text)
latest_phase_event g phase =
    execute_sql g.config (some g) (λ now w. (latest g.config.lease_key phase w.events, w))

abbrev pub is_completed : Option Text → Bool
is_completed none = false
is_completed (some event) = event == codes "completed"

-- The work of a phase: its error's text, or none.
abbrev pub Work : Type 0
Work = World → Option Text × World

abbrev pub with_error : Text → Text → Result (Unit {0}) × World → Result (Unit {0}) × World
with_error message clipped (ok done, w) = (err (work_failed message), w)
with_error message clipped (err e, w) = (err (journal_failed clipped), w)

abbrev pub failed_phase : StartupLeaseGuard → Text → Text → Action (Unit {0})
failed_phase g phase message w = with_error message (clipped_error_text message) (
    record_phase_event g phase (codes "failed") (some (codes "phase_failed"))
      (some (clipped_error_text message)) w)

abbrev pub finish_phase : StartupLeaseGuard → Text → Option Text → Action (Unit {0})
finish_phase g phase none = record_phase_event g phase (codes "completed") none none
finish_phase g phase (some message) = failed_phase g phase message

unfoldable pub start_phase : StartupLeaseGuard → Text → Work → Action (Unit {0})
start_phase g phase work =
    bind (record_phase_event g phase (codes "started") none none)
      (λ started w. let (outcome, w') = work w in finish_phase g phase outcome w')

unfoldable pub run_phase : StartupLeaseGuard → Text → Bool → Work → Action (Unit {0})
run_phase g phase skip_if_completed work w =
    let looked : Result (Unit {0}) × World =
      bind (latest_phase_event g phase)
        (λ latest_event.
          if is_completed latest_event
          then record_phase_event g phase (codes "skipped") none none
          else start_phase g phase work)
        w in
    if not (validate_phase_name phase)
    then (err invalid_phase, w)
    else if skip_if_completed
    then looked
    else start_phase g phase work w
