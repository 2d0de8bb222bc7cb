-- ===== src/Startup/Relations.antt =====
-- The checks of src/startup_dependencies.rs on the required relations.
use postgres_mcp.Prelude.{
  ◌≡◌, refl, sym, ap, subst, Bool, true, not, ◌||◌, Option, none, some, List, [], ◌∷◌,
  if◌then◌else◌, if_split, Text, text_Eq, filter, trim, is_empty, All, Object, arith,
}
use postgres_mcp.Startup.Dependencies.{
  StartupDependencyMode, unchecked, fail, degrade_read_only, StartupDependencyConfig, validated,
  healthy, validate_relation_name, split_commas, parse_tokens, parse_required_relations,
  relation_exists, collect_missing, verdict, of_missing, is_unchecked,
  validate_startup_dependencies, cons_some,
}

abbrev pub IsNamed : Text → Type 0
IsNamed name = validate_relation_name name ≡ true

abbrev AllNamed : Option (List Text) → Type 0
AllNamed none = Unit
AllNamed (some names) = All IsNamed names

AllNamed-cons :
    (t : Text) (o : Option (List Text)) → IsNamed t → AllNamed o → AllNamed (cons_some t o)
AllNamed-cons t none v h = tt
AllNamed-cons t (some ts) v h = (v, h)

parse_tokens-AllNamed : (ts : List Text) → AllNamed (parse_tokens ts)
unfolding parse_tokens
parse_tokens-AllNamed [] = tt
parse_tokens-AllNamed (t ∷ ts) =
    if_split AllNamed (is_empty (trim t)) (λ blank. parse_tokens-AllNamed ts)
      (λ e.
        if_split AllNamed (validate_relation_name (trim t))
          (λ valid. AllNamed-cons (trim t) (parse_tokens ts) valid (parse_tokens-AllNamed ts))
          (λ f. tt))

-- Every relation that is read from the environment passes the check on relation names: it is
-- schema-qualified, within 256 bytes, and of letters, digits, underscores and dots.
pub parsed-IsNamed :
    (raw : Text) (names : List Text) → parse_required_relations raw ≡ some names → All IsNamed names
unfolding parse_required_relations
parsed-IsNamed raw names e = subst AllNamed e (parse_tokens-AllNamed (split_commas raw))

module _ (execute_query_readonly : Text → Option (List Object)) (exists : Text → Bool) where
  abbrev pub Answers : List Text → Type 0
  Answers names =
      All (λ name. relation_exists execute_query_readonly name ≡ some (exists name)) names

  abbrev pub missed : List Text → List Text
  missed names = filter (λ name. not (exists name)) names

  collect_missing-missed :
      (names : List Text)
      → Answers names
      → collect_missing execute_query_readonly names ≡ some (missed names)
  unfolding collect_missing
  collect_missing-missed [] h = refl
  collect_missing-missed (name ∷ names) h = ground (arith, h.0, collect_missing-missed names h.1)

  verdict-unchecked : (names : List Text) → verdict unchecked names ≡ validated healthy
  verdict-unchecked [] = refl
  verdict-unchecked (n ∷ ns) = refl

  decide :
      (mode : StartupDependencyMode) (names : List Text)
      → Answers names
      → (if is_unchecked mode || is_empty names
          then validated healthy
          else of_missing mode (collect_missing execute_query_readonly names))
        ≡ verdict mode (missed names)
  unfolding is_empty
  decide unchecked names h = sym (verdict-unchecked (missed names))
  decide fail [] h = refl
  decide fail (n ∷ ns) h = ap (of_missing fail) (collect_missing-missed (n ∷ ns) h)
  decide degrade_read_only [] h = refl
  decide degrade_read_only (n ∷ ns) h =
      ap (of_missing degrade_read_only) (collect_missing-missed (n ∷ ns) h)

  -- Where every query is answered, the outcome is decided by the required relations that the
  -- answers miss, in their order: none is healthy, and otherwise the mode says whether the start
  -- fails with their names, degrades to read-only with their names, or passes them over.
  pub missing_decide :
      (c : StartupDependencyConfig)
      → Answers c.required_relations
      → validate_startup_dependencies execute_query_readonly c
        ≡ verdict c.mode (missed c.required_relations)
  unfolding validate_startup_dependencies
  missing_decide c h = decide c.mode c.required_relations h
