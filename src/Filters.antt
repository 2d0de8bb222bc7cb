-- ===== src/Filters.antt =====
-- Name filters of object discovery: src/tools.rs, from `normalize_optional_name_filter` to
-- `compile_discovery_name_filter`, and `list_objects_sql` of src/tools/schema.rs. An error is the
-- argument that it names, or that several filters were given.
pub mod Like
pub mod Patterns
pub mod Literals
mod Tests
use postgres_mcp.Prelude.{
  ℕ, ◌+◌, ◌<◌, ◌||◌, Bool, true, false, not, Option, none, some, List, [], ◌∷◌, ◌++◌, ◌==◌,
  if◌then◌else◌, ltb, nat_eq, Text, text_Eq, codes, trim, is_empty, is_some, decimal,
}
use postgres_mcp.Startup.{sql_literal}

pub data DiscoveryNameFilterMode : Type 0 where
  exact : DiscoveryNameFilterMode
  prefix : DiscoveryNameFilterMode
  containing : DiscoveryNameFilterMode
  pattern : DiscoveryNameFilterMode

pub data FilterArg : Type 0 where
  name_like : FilterArg
  name_prefix : FilterArg
  name_contains : FilterArg
  name_exact : FilterArg
  name_pattern : FilterArg

pub record CompiledDiscoveryNameFilter : Type 0 where
  pub mode : DiscoveryNameFilterMode
  pub source_arg : FilterArg
  pub compiled : Text

pub data FilterError : Type 0 where
  several_filters : FilterError
  unfinished_escape : (arg : FilterArg) → FilterError

pub data Compiled (A : Type 0) : Type 0 where
  ok : A → Compiled A
  err : FilterError → Compiled A

abbrev non_empty : Text → Option Text
non_empty v = if is_empty v then none else some v

unfoldable pub normalize_optional_name_filter : Option Text → Option Text
normalize_optional_name_filter none = none
normalize_optional_name_filter (some v) = non_empty (trim v)

-- The loop over the characters, at its head and after a backslash.
unfoldable pub ends_in_escape : Text → Bool
ends_in_escape [] = false
ends_in_escape (c ∷ []) = nat_eq c b'\\'
ends_in_escape (c ∷ d ∷ cs) =
    let escaped = ends_in_escape cs in
    let plain = ends_in_escape (d ∷ cs) in if nat_eq c b'\\' then escaped else plain

unfoldable pub ensure_no_dangling_like_escape : Text → FilterArg → Compiled (Unit {0})
unfolding ends_in_escape
ensure_no_dangling_like_escape value arg =
    if ends_in_escape value then err (unfinished_escape arg) else ok tt

unfoldable pub has_wildcard : Text → Bool
has_wildcard [] = false
has_wildcard (c ∷ []) = nat_eq c b'%' || nat_eq c b'_'
has_wildcard (c ∷ d ∷ cs) =
    let escaped = has_wildcard cs in
    let plain = nat_eq c b'%' || nat_eq c b'_' || has_wildcard (d ∷ cs) in
    if nat_eq c b'\\' then escaped else plain

unfoldable pub contains_unescaped_wildcard : Text → FilterArg → Compiled Bool
unfolding ends_in_escape has_wildcard
contains_unescaped_wildcard value arg =
    if ends_in_escape value then err (unfinished_escape arg) else ok (has_wildcard value)

abbrev pub is_special : ℕ → Bool
is_special c = nat_eq c b'\\' || nat_eq c b'%' || nat_eq c b'_'

unfoldable pub escape_like_pattern : Text → Text
escape_like_pattern [] = []
escape_like_pattern (c ∷ cs) =
    let rest = escape_like_pattern cs in if is_special c then b'\\' ∷ c ∷ rest else c ∷ rest

unfoldable pub escape_e_literal : Text → Text
escape_e_literal [] = []
escape_e_literal (c ∷ cs) =
    let rest = escape_e_literal cs in
    if nat_eq c b'\\' || nat_eq c b'\'' then b'\\' ∷ c ∷ rest else c ∷ rest

unfoldable pub sql_quote_e_literal : Text → Text
unfolding escape_e_literal
sql_quote_e_literal value = b'E' ∷ b'\'' ∷ (escape_e_literal value ++ b'\'' ∷ [])

unfoldable pub ilike_literal_predicate : Text → Text → Text
unfolding sql_quote_e_literal
ilike_literal_predicate column_expr like_pattern =
    column_expr ++ codes " ILIKE " ++ sql_quote_e_literal like_pattern ++ codes " ESCAPE E'\\\\'"

abbrev one_if_some : Option Text → ℕ
one_if_some none = 0
one_if_some (some v) = 1

abbrev pub filter_of :
    DiscoveryNameFilterMode → FilterArg → Text → Compiled (Option CompiledDiscoveryNameFilter)
filter_of mode arg s = ok (some (record { mode = mode; source_arg = arg; compiled = s }))

abbrev pub on_ok : {A B : Type 0} → Compiled A → (A → Compiled B) → Compiled B
on_ok (ok a) f = f a
on_ok (err e) f = err e

abbrev pub prefix_of : Text → Text
prefix_of v = escape_like_pattern v ++ b'%' ∷ []

abbrev pub contains_of : Text → Text
contains_of v = b'%' ∷ (escape_like_pattern v ++ b'%' ∷ [])

abbrev pub like_filter : Option Text → Compiled (Option CompiledDiscoveryNameFilter)
like_filter none = ok none
like_filter (some v) = on_ok (contains_unescaped_wildcard v name_like) (λ wild.
    if wild then filter_of pattern name_like v else filter_of containing name_like (contains_of v))

abbrev pub pattern_filter :
    Option Text → Option Text → Compiled (Option CompiledDiscoveryNameFilter)
pattern_filter like (some v) =
    on_ok (ensure_no_dangling_like_escape v name_pattern) (λ _. filter_of pattern name_pattern v)
pattern_filter like none = like_filter like

abbrev pub contains_filter :
    Option Text → Option Text → Option Text → Compiled (Option CompiledDiscoveryNameFilter)
contains_filter like patt (some v) = filter_of containing name_contains (contains_of v)
contains_filter like patt none = pattern_filter like patt

abbrev pub prefix_filter :
    Option Text
    → Option Text
    → Option Text
    → Option Text
    → Compiled (Option CompiledDiscoveryNameFilter)
prefix_filter like patt inner (some v) = filter_of prefix name_prefix (prefix_of v)
prefix_filter like patt inner none = contains_filter like patt inner

abbrev pub exact_filter :
    Option Text
    → Option Text
    → Option Text
    → Option Text
    → Option Text
    → Compiled (Option CompiledDiscoveryNameFilter)
exact_filter like patt inner first (some v) = filter_of exact name_exact (escape_like_pattern v)
exact_filter like patt inner first none = prefix_filter like patt inner first

-- The filters as a caller gives them.
pub record NameFilters : Type 0 where
  pub like : Option Text
  pub first : Option Text
  pub inner : Option Text
  pub whole : Option Text
  pub patt : Option Text

abbrev pub normalized : NameFilters → NameFilters
normalized f = record {
  like = normalize_optional_name_filter f.like;
  first = normalize_optional_name_filter f.first;
  inner = normalize_optional_name_filter f.inner;
  whole = normalize_optional_name_filter f.whole;
  patt = normalize_optional_name_filter f.patt;
}

abbrev pub provided_count : NameFilters → ℕ
provided_count f =
    one_if_some f.like
    + one_if_some f.first
    + one_if_some f.inner
    + one_if_some f.whole
    + one_if_some f.patt

unfoldable pub compile_discovery_name_filter :
    NameFilters → Compiled (Option CompiledDiscoveryNameFilter)
compile_discovery_name_filter given =
    let f = normalized given in
    if ltb 1 (provided_count f)
    then err several_filters
    else exact_filter f.like f.patt f.inner f.first f.whole

unfoldable pub optional_name_filter_clause : Text → Option CompiledDiscoveryNameFilter → Text
unfolding ilike_literal_predicate
optional_name_filter_clause column_expr none = []
optional_name_filter_clause column_expr (some f) =
    codes " AND " ++ ilike_literal_predicate column_expr f.compiled

abbrev window : ℕ → ℕ → Text
window fetch_rows offset =
    codes " LIMIT " ++ decimal fetch_rows ++ codes " OFFSET " ++ decimal offset

abbrev plain_tables : Text
plain_tables =
    codes
      "SELECT table_schema, table_name, table_type FROM information_schema.tables t WHERE t.table_schema = "

abbrev tables_with_columns : Text
tables_with_columns =
    codes
      "SELECT t.table_schema, t.table_name, t.table_type, COALESCE(cols.columns, ARRAY[]::text[]) AS columns FROM information_schema.tables t LEFT JOIN LATERAL (SELECT array_agg(c.column_name ORDER BY c.ordinal_position) AS columns FROM (SELECT c.column_name, c.ordinal_position FROM information_schema.columns c WHERE c.table_schema = t.table_schema AND c.table_name = t.table_name ORDER BY c.ordinal_position LIMIT 128) c) cols ON true WHERE t.table_schema = "

abbrev tables_sql : Text → Text → Option CompiledDiscoveryNameFilter → Bool → ℕ → ℕ → Text
tables_sql schema_name table_type f include_columns fetch_rows offset =
    (if include_columns then tables_with_columns else plain_tables)
    ++ sql_literal schema_name
    ++ codes " AND t.table_type = "
    ++ sql_literal table_type
    ++ optional_name_filter_clause (codes "t.table_name") f
    ++ codes " ORDER BY t.table_name"
    ++ window fetch_rows offset

-- None where the object type is unknown, or has no columns to include.
unfoldable pub list_objects_sql :
    Text → Text → Option CompiledDiscoveryNameFilter → Bool → ℕ → ℕ → Option Text
unfolding optional_name_filter_clause
list_objects_sql schema_name object_type f include_columns fetch_rows offset =
    if object_type == codes "table"
    then some (tables_sql schema_name (codes "BASE TABLE") f include_columns fetch_rows offset)
    else if object_type == codes "view"
    then some (tables_sql schema_name (codes "VIEW") f include_columns fetch_rows offset)
    else if object_type == codes "sequence"
    then (if include_columns
        then none
        else some (
            codes
              "SELECT sequence_schema, sequence_name, data_type FROM information_schema.sequences WHERE sequence_schema = "
            ++ sql_literal schema_name
            ++ optional_name_filter_clause (codes "sequence_name") f
            ++ codes " ORDER BY sequence_name"
            ++ window fetch_rows offset))
    else if object_type == codes "extension"
    then (if include_columns
        then none
        else some (
            codes "SELECT extname, extversion, extrelocatable FROM pg_extension WHERE TRUE"
            ++ optional_name_filter_clause (codes "extname") f
            ++ codes " ORDER BY extname"
            ++ window fetch_rows offset))
    else none
