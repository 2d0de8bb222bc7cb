-- ===== src/Startup/Phases.antt =====
-- The phases of src/startup_coordination.rs under the lease.
use postgres_mcp.Prelude.{
  ℕ, ◌≡◌, refl, subst, Bool, true, false, not, ◌||◌, Option, none, some, List, [], ◌∷◌, if_both,
  if_split, Text, text_Eq, text_eq, text_eq_iff, codes, Bool-cases, inl, inr, ◌⊎◌, arith,
}
use postgres_mcp.Startup.{
  StartupError, Result, ok, err, database_failed, validate_phase_name, clipped_error_text,
  StartupCoordinationConfig,
}
use postgres_mcp.Startup.Lease.{Step, step}
use postgres_mcp.Startup.Journal.{
  Turn, World, StartupLeaseGuard, Action, elapse, loses, take_turn, execute_sql, assert_fence,
  event_of, record_phase_event, latest, latest_phase_event, is_completed, Work, start_phase,
  finish_phase, run_phase, with_error,
}
use postgres_mcp.Startup.Done.{IfDone, continue-IfDone, IfDone-map, IfDone-Unit, take_turn-IfDone}

-- The journal says the event last of the phase, under the guard's lease.
abbrev pub LastEvent : StartupLeaseGuard → Text → World → Text → Type 0
LastEvent g phase w event = latest g.config.lease_key phase w.events ≡ some event

latest-newest :
    (g : StartupLeaseGuard) (phase event : Text) (code message : Option Text) (w : World)
    → latest g.config.lease_key phase (event_of g phase event code message ∷ w.events) ≡ some event
unfolding latest event_of
latest-newest g phase event code message w =
    ground (arith, text_eq_iff g.config.lease_key g.config.lease_key, text_eq_iff phase phase)

events-elapse :
    (c : StartupCoordinationConfig) (g : Option StartupLeaseGuard) (ss : List (ℕ × Step))
    (w : World)
    → (elapse c g ss w).events ≡ w.events
unfolding elapse
events-elapse c g [] w = refl
events-elapse c g (s ∷ ss) w = events-elapse c g ss (record w {
  leases = step c.lease_key c.lease_ttl w.leases s;
  fence_lost = w.fence_lost || loses g w.leases s;
})

-- An entry in the journal is the phase's last.
record-LastEvent :
    (g : StartupLeaseGuard) (phase event : Text) (code message : Option Text) (w : World)
    → IfDone (λ w'. LastEvent g phase w' event) (record_phase_event g phase event code message w)
unfolding record_phase_event execute_sql IfDone
record-LastEvent g phase event code message w =
    if_both (IfDone Last) (validate_phase_name phase)
      (continue-IfDone (λ w'. Unit {0}) Last (assert_fence g w) write
        (IfDone-Unit (assert_fence g w))
        (λ held w' u.
          take_turn-IfDone Last g.config (some g) entry w'.turns w'
            (λ now w''. latest-newest g phase event code message w'')))
      tt
  where
    Last : World → Type 0
    Last w' = LastEvent g phase w' event

    entry : ℕ → World → Unit {0} × World
    entry now w' = (tt, record w' { events = event_of g phase event code message ∷ w'.events })

    write : Unit {0} → Action (Unit {0})
    write held = execute_sql g.config (some g) entry

finish-LastEvent :
    (g : StartupLeaseGuard) (phase : Text) (outcome : Option Text) (w : World)
    → IfDone (λ w'. LastEvent g phase w' (codes "completed")) (finish_phase g phase outcome w)
unfolding IfDone
finish-LastEvent g phase none w = record-LastEvent g phase (codes "completed") none none w
finish-LastEvent g phase (some message) w = never (
    record_phase_event g phase (codes "failed") (some (codes "phase_failed"))
      (some (clipped_error_text message)) w)
  where
    never :
        (r : Result (Unit {0}) × World)
        → IfDone
            (λ w'. LastEvent g phase w' (codes "completed"))
            (with_error message (clipped_error_text message) r)
    never (ok a, w') = tt
    never (err e, w') = tt

start-LastEvent :
    (g : StartupLeaseGuard) (phase : Text) (work : Work) (w : World)
    → IfDone (λ w'. LastEvent g phase w' (codes "completed")) (start_phase g phase work w)
unfolding start_phase
start-LastEvent g phase work w =
    continue-IfDone (λ w'. Unit {0}) (λ w'. LastEvent g phase w' (codes "completed"))
      (record_phase_event g phase (codes "started") none none w)
      (λ started w'. finish_phase g phase (work w').0 (work w').1)
      (IfDone-Unit (record_phase_event g phase (codes "started") none none w))
      (λ started w' u. finish-LastEvent g phase (work w').0 (work w').1)

-- A phase that returns without an error is, in the journal, completed, or, where the caller lets
-- it skip, skipped. Whatever its work does to the world.
pub done_is_journaled :
    (g : StartupLeaseGuard) (phase : Text) (skip : Bool) (work : Work) (w w' : World)
    → run_phase g phase skip work w ≡ (ok tt, w')
    → LastEvent g phase w' (codes "completed")
      ⊎ ((skip ≡ true) × LastEvent g phase w' (codes "skipped"))
unfolding run_phase IfDone
done_is_journaled g phase skip work w w' e = subst (IfDone Done) e done
  where
    Done : World → Type 0
    Done w' =
        LastEvent g phase w' (codes "completed")
        ⊎ ((skip ≡ true) × LastEvent g phase w' (codes "skipped"))

    started : (w' : World) → IfDone Done (start_phase g phase work w')
    started w' =
        IfDone-map (λ w''. LastEvent g phase w'' (codes "completed")) Done (λ w'' l. inl l)
          (start_phase g phase work w') (start-LastEvent g phase work w')

    skipped :
        skip ≡ true
        → (w' : World) → IfDone Done (record_phase_event g phase (codes "skipped") none none w')
    skipped may w' =
        IfDone-map (λ w''. LastEvent g phase w'' (codes "skipped")) Done (λ w'' l. inr (may, l))
          (record_phase_event g phase (codes "skipped") none none w')
          (record-LastEvent g phase (codes "skipped") none none w')

    done : IfDone Done (run_phase g phase skip work w)
    done = if_both (IfDone Done) (not (validate_phase_name phase)) tt (
        if_split (IfDone Done) skip
          (λ may.
            continue-IfDone (λ w'. Unit {0}) Done (latest_phase_event g phase w) _
              (IfDone-Unit (latest_phase_event g phase w))
              (λ event w' u.
                if_both (λ (f : Action (Unit {0})). IfDone Done (f w')) (is_completed event)
                  (skipped may w') (started w')))
          (λ must. started w))

-- The journal's last event of the phase, read, or no answer.
latest_cases :
    (g : StartupLeaseGuard) (phase : Text) (ts : List Turn) (w : World)
    → (let read =
          take_turn g.config
            (some g)
            (λ now w'. (latest g.config.lease_key phase w'.events, w'))
            ts
            w in
        ((w' : World) × (read ≡ (ok (latest g.config.lease_key phase w.events), w')))
        ⊎ ((e : StartupError) × (w' : World) × (read ≡ (err e, w'))))
latest_cases g phase [] w = inr (_, _, refl)
latest_cases g phase (t ∷ ts) w = elim (Bool-cases t.fails) [
  | inl f ↦ inr (
    database_failed,
    elapse g.config (some g) t.others (record w { turns = ts }),
    ground (arith, f),
  )
  | inr f ↦ inl (
    elapse g.config (some g) t.others (record w { turns = ts }),
    ground (arith, f, events-elapse g.config (some g) t.others (record w { turns = ts })),
  )
]

-- The first turn's statement goes through.
abbrev pub Reachable : World → Turn → List Turn → Type 0
Reachable w t ts = (w.turns ≡ t ∷ ts) × (t.fails ≡ false)

-- After a phase was skipped, the next run that may skip it goes on to start it, if its first
-- statement goes through: the journal's last event is then the skip, not the completion. The
-- check of the fence and the entry "started" come next, and the work after them.
pub skip_forgets_completion :
    (g : StartupLeaseGuard) (phase : Text) (work : Work) (w : World) (t : Turn) (ts : List Turn)
    → validate_phase_name phase ≡ true
    → LastEvent g phase w (codes "skipped")
    → Reachable w t ts
    → run_phase g phase true work w
      ≡ start_phase g phase work (elapse g.config (some g) t.others (record w { turns = ts }))
unfolding run_phase latest_phase_event execute_sql text_eq
skip_forgets_completion g phase work w t ts v s r =
    rw (v, r.0, r.1, events-elapse g.config (some g) t.others (record w { turns = ts }), s) refl

-- A phase whose last event is its completion is not run again: the outcome and the world are the
-- same for any two works.
pub completed_is_skipped :
    (g : StartupLeaseGuard) (phase : Text) (work work' : Work) (w : World)
    → LastEvent g phase w (codes "completed")
    → run_phase g phase true work w ≡ run_phase g phase true work' w
unfolding run_phase latest_phase_event execute_sql text_eq
completed_is_skipped g phase work work' w h = elim (latest_cases g phase w.turns w) [
  | inl (w', e) ↦ rw (e, h) refl
  | inr (e, w', q) ↦ rw q refl
]
