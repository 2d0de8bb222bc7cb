-- ===== src/Filters/Tests.antt =====
-- The name filters of src/tools.rs at concrete inputs.
use postgres_mcp.Prelude.{
  ◌≡◌, refl, true, none, some, [], ◌++◌, nat_eq, text_eq, codes, trim, trim_start, trim_end,
  is_whitespace, is_empty,
}
use postgres_mcp.Filters.{
  prefix, pattern, name_like, name_prefix, name_pattern, CompiledDiscoveryNameFilter, ok, err,
  several_filters, unfinished_escape, NameFilters, normalized, normalize_optional_name_filter,
  compile_discovery_name_filter, contains_unescaped_wildcard, ensure_no_dangling_like_escape,
  ends_in_escape, has_wildcard, escape_like_pattern, escape_e_literal, sql_quote_e_literal,
  list_objects_sql, optional_name_filter_clause, ilike_literal_predicate,
}
use postgres_mcp.Filters.Patterns.{Selects, filter-Selects}
use postgres_mcp.Startup.Literals.{is_apart}
use postgres_mcp.Filters.Literals.{read_e_literal, e_literal_reads_back}

abbrev no_filters : NameFilters
no_filters = record { like = none; first = none; inner = none; whole = none; patt = none }

abbrev by_prefix : NameFilters
by_prefix = record no_filters { first = some (codes " user_ ") }

abbrev user_prefix : CompiledDiscoveryNameFilter
user_prefix = record { mode = prefix; source_arg = name_prefix; compiled = codes "user\\_%" }

prefix_test : compile_discovery_name_filter by_prefix ≡ ok (some user_prefix)
unfolding compile_discovery_name_filter normalize_optional_name_filter trim trim_start trim_end
    is_whitespace is_empty escape_like_pattern
prefix_test = refl

like_test :
    compile_discovery_name_filter (record no_filters { like = some (codes "a%") })
    ≡ ok (some (record { mode = pattern; source_arg = name_like; compiled = codes "a%" }))
unfolding compile_discovery_name_filter normalize_optional_name_filter trim trim_start trim_end
    is_whitespace is_empty contains_unescaped_wildcard ends_in_escape has_wildcard
like_test = refl

dangling_test :
    compile_discovery_name_filter (record no_filters { patt = some (codes "a\\") })
    ≡ err (unfinished_escape name_pattern)
unfolding compile_discovery_name_filter normalize_optional_name_filter trim trim_start trim_end
    is_whitespace is_empty ensure_no_dangling_like_escape ends_in_escape
dangling_test = refl

several_test :
    compile_discovery_name_filter (record by_prefix { like = some (codes "a") })
    ≡ err several_filters
unfolding compile_discovery_name_filter normalize_optional_name_filter trim trim_start trim_end
    is_whitespace is_empty
several_test = refl

filter-Selects_example : Selects nat_eq (normalized by_prefix) user_prefix
filter-Selects_example = filter-Selects nat_eq by_prefix user_prefix prefix_test

e_literal_reads_back_example :
    read_e_literal (sql_quote_e_literal (codes "a\\'_") ++ codes " ESCAPE")
    ≡ some (codes "a\\'_", codes " ESCAPE")
unfolding is_apart
e_literal_reads_back_example = e_literal_reads_back (codes "a\\'_") (codes " ESCAPE") refl

predicate_test :
    optional_name_filter_clause (codes "extname") (some user_prefix)
    ≡ codes " AND extname ILIKE E'user\\\\_%' ESCAPE E'\\\\'"
unfolding optional_name_filter_clause ilike_literal_predicate sql_quote_e_literal escape_e_literal
predicate_test = refl

no_columns_test : list_objects_sql [] (codes "sequence") none true 10 0 ≡ none
unfolding list_objects_sql text_eq
no_columns_test = refl
