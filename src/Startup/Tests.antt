-- ===== src/Startup/Tests.antt =====
-- The start-up of the server at concrete inputs.
use postgres_mcp.Prelude.{
  starts_with, ℕ, ◌≡◌, ◌≢◌, refl, Bool, true, false, Option, none, some, List, [], ◌∷◌, ◌++◌, ◌==◌,
  if◌then◌else◌, Text, text_Eq, text_eq, text_eq_iff, codes, lookup, insert, remove, trim,
  trim_start, trim_end, is_whitespace, is_ascii_alphanumeric, is_ascii_digit, is_empty, byte_len,
  len_utf8, to_ascii_lowercase, to_ascii_lower, parse_unsigned, parse_digits, All, null, str,
  Object, ◌⊎◌, arith,
}
use postgres_mcp.Errors.{runtime}
use postgres_mcp.Startup.{
  ok, lease, StartupCoordinationConfig, Environment, from_env, from_parsed_options, parse_setting,
  parse_mode, validate_phase_name, sql_literal, double_quotes,
}
use postgres_mcp.Startup.Lease.{
  Lease, Leases, Step, acquires, beats, releases, step, run, try_acquire_lease, heartbeat_once,
  release_lease, is_held, granted,
}
use postgres_mcp.Startup.Journal.{
  PhaseEvent, Turn, World, StartupLeaseGuard, Work, elapse, loses, execute_sql, assert_fence,
  event_of, record_phase_event, latest, start_phase, run_phase,
}
use postgres_mcp.Startup.Acquire.{acquire, acquire_by, attempt, hand_over, release}
use postgres_mcp.Startup.Settings.{IsUsable, startup_from_env-IsUsable}
use postgres_mcp.Startup.Literals.{
  is_apart, goes_on, read_string, read_literal, sql_literal_reads_back,
}
use postgres_mcp.Startup.Exclusion.{
  has_fence, live_lease_is_exclusive, heartbeat_holds, lost_stays_lost,
}
use postgres_mcp.Startup.Fences.{Follows, fence_orders_owners}
use postgres_mcp.Startup.Phases.{
  LastEvent, done_is_journaled, skip_forgets_completion, completed_is_skipped,
}
use postgres_mcp.Startup.Dependencies.{
  degrade_read_only, validate_startup_dependencies, parse_required_relations, parse_tokens,
  split_commas, validate_relation_name, verdict, relation_exists, StartupDependencyConfig,
}
use postgres_mcp.Startup.Relations.{IsNamed, parsed-IsNamed, missed, missing_decide}

abbrev config : StartupCoordinationConfig
config = record {
  mode = lease;
  lease_key = codes "k";
  lease_ttl = 30;
  heartbeat_interval = 5;
  acquire_timeout = 60;
}

abbrev key : Text
key = codes "k"

abbrev a : Text
a = codes "a"

abbrev b : Text
b = codes "b"

abbrev held_by_a : Leases
held_by_a = (key, granted a 1 30 0) ∷ []

b-other : b ≢ a
unfolding text_eq
b-other e = let h : false ≡ true = (text_eq_iff b a).1 e in absurd (cc)

live_lease_is_exclusive_example :
    lookup key (run key 30 held_by_a ((1000, acquires b) ∷ (2000, releases b 1) ∷ []))
    ≡ some (granted a 1 30 0)
unfolding lookup text_eq
live_lease_is_exclusive_example =
    live_lease_is_exclusive key 30 (granted a 1 30 0) _ held_by_a refl
      ((b-other, omega arith), ((b-other, omega arith), tt))

heartbeat_holds_example :
    is_held key a 1 31_000_000
      (run key 30 (step key 30 held_by_a (5_000_000, beats a 1)) ((30_500_000, acquires b) ∷ []))
    ≡ true
unfolding lookup text_eq
heartbeat_holds_example =
    heartbeat_holds key 30 (granted a 1 30 0) 5_000_000 31_000_000 _ held_by_a refl
      ((b-other, omega arith), tt) (omega arith)

abbrev taken_over : List (ℕ × Step)
taken_over = (30_000_000, acquires b) ∷ (31_000_000, beats a 1) ∷ (32_000_000, beats b 2) ∷ []

taken_over_test : lookup key (run key 30 held_by_a taken_over) ≡ some (granted b 2 30 32_000_000)
unfolding run step try_acquire_lease heartbeat_once lookup insert text_eq
taken_over_test = refl

-- A release drops the row, and with it the count of the fences.
restart_test :
    lookup key (
      run key 30 held_by_a
        ((30_000_000, acquires b) ∷ (31_000_000, releases b 2) ∷ (32_000_000, acquires b) ∷ []))
    ≡ some (granted b 1 30 32_000_000)
unfolding run step try_acquire_lease release_lease lookup insert remove text_eq
restart_test = refl

lost_stays_lost_example :
    has_fence key a 1
      (run key 30 ((key, granted b 2 30 0) ∷ []) ((1000, beats a 1) ∷ (2000, releases b 2) ∷ []))
    ≡ false
unfolding lookup text_eq
lost_stays_lost_example =
    lost_stays_lost key 30 a 1 _ ((key, granted b 2 30 0) ∷ []) refl
      ((λ e. absurd (cc)), ((λ e. absurd (cc)), tt))

fence_orders_owners_example :
    (l' : Lease) × (lookup key (run key 30 held_by_a taken_over) ≡ some l')
    × Follows (granted a 1 30 0) l'
unfolding lookup text_eq
fence_orders_owners_example =
    fence_orders_owners key 30 (granted a 1 30 0) taken_over held_by_a refl
      (refl, (refl, (refl, tt)))

abbrev env : Environment
env = record {
  mode = some (codes " Lease ");
  lease_key = some (codes " k ");
  lease_ttl_sec = some (codes "30");
  heartbeat_sec = some (codes "5");
  acquire_timeout_sec = some (codes "60");
}

env_test : from_env env runtime ≡ ok config
unfolding from_env from_parsed_options parse_setting parse_mode trim trim_start trim_end
    is_whitespace is_empty to_ascii_lowercase to_ascii_lower text_eq parse_unsigned parse_digits
    is_ascii_digit
env_test = refl

startup_from_env-IsUsable_example : IsUsable config
startup_from_env-IsUsable_example = startup_from_env-IsUsable env runtime config env_test

sql_literal_reads_back_example :
    read_literal (sql_literal (codes "it's") ++ codes ", 1") ≡ some (codes "it's", codes ", 1")
unfolding is_apart
sql_literal_reads_back_example = sql_literal_reads_back (codes "it's") (codes ", 1") refl

-- Two constants on two lines, a comment between them, are one.
joined_test : read_literal (codes "'a' -- b" ++ 10 ∷ codes "'c';") ≡ some (codes "ac", codes ";")
unfolding read_literal read_string goes_on starts_with
joined_test = refl

abbrev guard : StartupLeaseGuard
guard = record { config = config; owner_id = a; run_id = codes "r"; fence_token = 1 }

abbrev calm : ℕ → Turn
calm now = record { others = []; now = now; fails = false }

abbrev phase : Text
phase = codes "p"

abbrev quiet : Work
quiet w = (none, w)

abbrev past : Text → PhaseEvent
past event = event_of guard phase event none none

abbrev world : List PhaseEvent → World
world events = record {
  leases = held_by_a;
  events = events;
  fence_lost = false;
  turns = calm 1 ∷ calm 2 ∷ calm 3 ∷ calm 4 ∷ calm 5 ∷ calm 6 ∷ [];
}

abbrev fresh_end : World
fresh_end = (run_phase guard phase false quiet (world [])).1

done_test : run_phase guard phase false quiet (world []) ≡ (ok tt, fresh_end)
unfolding run_phase start_phase record_phase_event assert_fence execute_sql elapse is_held
    validate_phase_name lookup text_eq trim trim_start trim_end is_whitespace is_empty byte_len
    len_utf8 is_ascii_alphanumeric is_ascii_digit
done_test = refl

done_is_journaled_example :
    LastEvent guard phase fresh_end (codes "completed")
    ⊎ ((false ≡ true) × LastEvent guard phase fresh_end (codes "skipped"))
done_is_journaled_example = done_is_journaled guard phase false quiet (world []) fresh_end done_test

skip_forgets_completion_test :
    run_phase guard phase true quiet
      (world (past (codes "skipped") ∷ past (codes "completed") ∷ []))
    ≡ start_phase guard phase quiet (
        elapse config
          (some guard)
          []
          (record (world (past (codes "skipped") ∷ past (codes "completed") ∷ [])) {
            turns = calm 2 ∷ calm 3 ∷ calm 4 ∷ calm 5 ∷ calm 6 ∷ [];
          }))
unfolding validate_phase_name latest event_of text_eq trim trim_start trim_end is_whitespace
    is_empty byte_len len_utf8 is_ascii_alphanumeric is_ascii_digit
skip_forgets_completion_test =
    skip_forgets_completion guard phase quiet
      (world (past (codes "skipped") ∷ past (codes "completed") ∷ [])) (calm 1)
      (calm 2 ∷ calm 3 ∷ calm 4 ∷ calm 5 ∷ calm 6 ∷ []) refl refl (refl, refl)

abbrev failing : Work
failing w = (some (codes "no"), w)

completed_is_skipped_test :
    run_phase guard phase true quiet (world (past (codes "completed") ∷ []))
    ≡ run_phase guard phase true failing (world (past (codes "completed") ∷ []))
unfolding latest event_of text_eq
completed_is_skipped_test =
    completed_is_skipped guard phase quiet failing (world (past (codes "completed") ∷ [])) refl

-- Another owner takes the lease between the check of the fence and the write of the entry: the
-- entry is written all the same.
abbrev late_world : World
late_world = record {
  leases = held_by_a;
  events = [];
  fence_lost = false;
  turns =
      calm 1
      ∷ record { others = (30_000_000, acquires b) ∷ []; now = 30_000_001; fails = false }
      ∷ [];
}

late_entry_test :
    (record_phase_event guard phase (codes "completed") none none late_world).1.events
    ≡ event_of guard phase (codes "completed") none none ∷ []
unfolding record_phase_event assert_fence execute_sql elapse loses is_held validate_phase_name
    lookup text_eq trim trim_start trim_end is_whitespace is_empty byte_len len_utf8
    is_ascii_alphanumeric is_ascii_digit
late_entry_test = refl

-- A free lease is acquired at the first attempt, and released to nobody.
abbrev acquired_world : World
acquired_world = record (world []) { leases = [] }

acquire_test : (acquire config a (codes "r") 0 [] acquired_world).0 ≡ ok guard
unfolding acquire acquire_by attempt hand_over record_phase_event assert_fence execute_sql elapse
    is_held try_acquire_lease insert lookup validate_phase_name text_eq trim trim_start trim_end
    is_whitespace is_empty byte_len len_utf8 is_ascii_alphanumeric is_ascii_digit
acquire_test = refl

release_test : (release guard (world [])).1.leases ≡ []
unfolding release execute_sql elapse release_lease lookup remove text_eq
release_test = refl

-- The database of one relation, app.users.
abbrev one_relation : Text → Option (List Object)
one_relation query = some (
    ((
      codes "relation_name",
      if query == codes "SELECT to_regclass('app.users')::text AS relation_name"
          then str (codes "app.users")
          else null,
    )
      ∷ [])
    ∷ [])

abbrev exists : Text → Bool
exists name = name == codes "app.users"

abbrev required : StartupDependencyConfig
required = record {
  mode = degrade_read_only;
  required_relations = codes "app.users" ∷ codes "app.jobs" ∷ [];
}

missing_decide_test :
    validate_startup_dependencies one_relation required
    ≡ verdict degrade_read_only (missed one_relation exists required.required_relations)
unfolding relation_exists sql_literal double_quotes lookup text_eq trim trim_start trim_end
    is_whitespace is_empty
missing_decide_test = missing_decide one_relation exists required (refl, (refl, tt))

parsed_test :
    parse_required_relations (codes " app.users,, b.c ")
    ≡ some (codes "app.users" ∷ codes "b.c" ∷ [])
unfolding parse_required_relations parse_tokens split_commas validate_relation_name text_eq trim
    trim_start trim_end is_whitespace is_empty byte_len len_utf8 is_ascii_alphanumeric
    is_ascii_digit
parsed_test = refl

parsed-IsNamed_example : All IsNamed (codes "app.users" ∷ codes "b.c" ∷ [])
parsed-IsNamed_example = parsed-IsNamed (codes " app.users,, b.c ") _ parsed_test
