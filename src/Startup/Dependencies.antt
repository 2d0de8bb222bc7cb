-- ===== src/Startup/Dependencies.antt =====
-- src/startup_dependencies.rs: the relations that must exist at start-up. The database is a
-- parameter: the rows that a query returns, or none where it fails.
use postgres_mcp.Prelude.{
  ℕ, Bool, true, false, not, ◌||◌, Option, none, some, List, [], ◌∷◌, ◌++◌, ◌==◌, if◌then◌else◌,
  ltb, nat_eq, Text, text_Eq, codes, all, any, trim, is_empty, byte_len, is_ascii_alphanumeric,
  to_ascii_lowercase, Value, Object, str, lookup,
}
use postgres_mcp.Errors.{StartupRole, runtime, migrator}
use postgres_mcp.Startup.{sql_literal}

pub data StartupDependencyMode : Type 0 where
  unchecked : StartupDependencyMode
  fail : StartupDependencyMode
  degrade_read_only : StartupDependencyMode

-- `StartupDependencyMode::parse`, none where it is an error.
unfoldable pub parse_dependency_mode : Text → Option StartupDependencyMode
parse_dependency_mode raw =
    let word = to_ascii_lowercase (trim raw) in
    if word == codes "off"
    then some unchecked
    else if word == codes "fail"
    then some fail
    else if word == codes "degrade-read-only"
        || word == codes "degrade_read_only"
        || word == codes "degrade"
    then some degrade_read_only
    else none

abbrev is_relation_char : ℕ → Bool
is_relation_char c = is_ascii_alphanumeric c || nat_eq c b'_' || nat_eq c b'.'

unfoldable pub validate_relation_name : Text → Bool
validate_relation_name value =
    if ltb 256 (byte_len value)
    then false
    else if not (all is_relation_char value)
    then false
    else any (λ c. nat_eq c b'.') value

-- `split(',')`: a text has one token more than commas.
abbrev to_first : ℕ → List Text → List Text
to_first c [] = (c ∷ []) ∷ []
to_first c (t ∷ ts) = (c ∷ t) ∷ ts

unfoldable pub split_commas : Text → List Text
split_commas [] = [] ∷ []
split_commas (c ∷ cs) =
    let rest = split_commas cs in if nat_eq c b',' then [] ∷ rest else to_first c rest

-- The loop over the tokens; none at the first invalid name.
abbrev pub cons_some : Text → Option (List Text) → Option (List Text)
cons_some t none = none
cons_some t (some ts) = some (t ∷ ts)

unfoldable pub parse_tokens : List Text → Option (List Text)
parse_tokens [] = some []
parse_tokens (t ∷ ts) =
    let rest = parse_tokens ts in
    if is_empty (trim t)
    then rest
    else if validate_relation_name (trim t)
    then cons_some (trim t) rest
    else none

unfoldable pub parse_required_relations : Text → Option (List Text)
unfolding split_commas parse_tokens
parse_required_relations raw = parse_tokens (split_commas raw)

pub record StartupDependencyConfig : Type 0 where
  pub mode : StartupDependencyMode
  pub required_relations : List Text

-- `StartupDependencyConfig::from_env`, with the two variables.
abbrev default_dependency_mode : StartupRole → StartupDependencyMode
default_dependency_mode runtime = unchecked
default_dependency_mode migrator = fail

abbrev mode_setting : StartupRole → Option Text → Option StartupDependencyMode
mode_setting role none = some (default_dependency_mode role)
mode_setting role (some raw) = parse_dependency_mode raw

abbrev relations_setting : Option Text → Option (List Text)
relations_setting none = some []
relations_setting (some raw) = parse_required_relations raw

unfoldable pub dependencies_from_env :
    Option Text → Option Text → StartupRole → Option StartupDependencyConfig
dependencies_from_env mode relations role = elim (mode_setting role mode) [
  | none ↦ none
  | some m ↦ elim (relations_setting relations) [
    | none ↦ none
    | some rs ↦ some (record { mode = m; required_relations = rs })
  ]
]

pub record StartupDependencyOutcome : Type 0 where
  pub degraded_read_only : Bool
  pub reason : Option Text
  pub missing_relations : List Text

pub data Validation : Type 0 where
  validated : StartupDependencyOutcome → Validation
  missing : List Text → Validation
  query_failed : Validation

unfoldable pub healthy : StartupDependencyOutcome
healthy = record { degraded_read_only = false; reason = none; missing_relations = [] }

abbrev as_str : Option Value → Text
as_str (some (str s)) = s
as_str _ = []

abbrev degraded : List Text → StartupDependencyOutcome
degraded names = record {
  degraded_read_only = true;
  reason = some (codes "missing_startup_dependencies");
  missing_relations = names;
}

abbrev pub verdict : StartupDependencyMode → List Text → Validation
verdict mode [] = validated healthy
verdict unchecked (n ∷ ns) = validated healthy
verdict fail (n ∷ ns) = missing (n ∷ ns)
verdict degrade_read_only (n ∷ ns) = validated (degraded (n ∷ ns))

abbrev pub of_missing : StartupDependencyMode → Option (List Text) → Validation
of_missing mode none = query_failed
of_missing mode (some names) = verdict mode names

abbrev pub is_unchecked : StartupDependencyMode → Bool
is_unchecked unchecked = true
is_unchecked fail = false
is_unchecked degrade_read_only = false

module _ (execute_query_readonly : Text → Option (List Object)) where
  abbrev regclass_query : Text → Text
  regclass_query name =
      codes "SELECT to_regclass(" ++ sql_literal name ++ codes ")::text AS relation_name"

  abbrev first_row : List Object → Bool
  first_row [] = false
  first_row (row ∷ rows) = not (is_empty (trim (as_str (lookup (codes "relation_name") row))))

  unfoldable pub relation_exists : Text → Option Bool
  relation_exists name = elim (execute_query_readonly (regclass_query name)) [
    | none ↦ none
    | some rows ↦ some (first_row rows)
  ]

  -- The loop over the required relations; none at the first query that fails.
  abbrev add_missing : Text → Bool → Option (List Text) → Option (List Text)
  add_missing name found none = none
  add_missing name found (some names) = some (if found then names else name ∷ names)

  unfoldable pub collect_missing : List Text → Option (List Text)
  collect_missing [] = some []
  collect_missing (name ∷ names) =
      let rest = collect_missing names in
      elim (relation_exists name) [ none ↦ none | some found ↦ add_missing name found rest ]

  unfoldable pub validate_startup_dependencies : StartupDependencyConfig → Validation
  unfolding collect_missing
  validate_startup_dependencies c =
      let checked = of_missing c.mode (collect_missing c.required_relations) in
      if is_unchecked c.mode || is_empty c.required_relations then validated healthy else checked
