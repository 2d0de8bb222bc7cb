-- ===== src/Keywords/Tests.antt =====
-- The keyword tokens and the fetch strategies of src/db.rs at concrete texts.
use postgres_mcp.Prelude.{
  ◌≡◌, refl, some, List, [], ◌∷◌, ◌++◌, map, codes, text_eq, trim, to_ascii_lowercase,
  is_ascii_alphanumeric,
}
use postgres_mcp.Cursors.{canonicalize_sql}
use postgres_mcp.Statements.{read_dollar_quote_start}
use postgres_mcp.Statements.Pieces.{Piece, plain, single_quoted, opened, closed, written_all, fits}
use postgres_mcp.Advisor.{sql_quote_ident}
use postgres_mcp.Keywords.{
  normal, tokens, top_level_bound_query_keyword_tokens, bound_query_row_fetch_strategy,
  derived_table_wrapper, wrap_query_for_json_rows, wrap_select_like_query_for_json_rows,
}
use postgres_mcp.Keywords.Inner.{tokens-group}

-- (DELETE FROM f(')'))
abbrev group : List Piece
group = map plain (codes "DELETE FROM f") ++ opened ∷ single_quoted (codes ")") ∷ closed ∷ []

tokens-group_example :
    tokens normal 0 0 (b'(' ∷ (written_all group ++ b')' ∷ codes " SELECT 1"))
    ≡ tokens normal 0 0 (codes " SELECT 1")
unfolding fits written_all read_dollar_quote_start is_ascii_alphanumeric
tokens-group_example = tokens-group group (codes " SELECT 1") refl refl

-- A query over a modifying common table expression is fetched from a derived table.
modifying_test :
    bound_query_row_fetch_strategy (codes "WITH t AS (DELETE FROM a RETURNING b) SELECT b FROM t")
    ≡ derived_table_wrapper
unfolding bound_query_row_fetch_strategy top_level_bound_query_keyword_tokens canonicalize_sql trim
    text_eq to_ascii_lowercase is_ascii_alphanumeric
modifying_test = refl

wrap_test :
    wrap_query_for_json_rows (codes "SELECT 1;") (codes "a" ∷ [])
    ≡ some (
        codes
          "SELECT row_to_json(_postgres_mcp_row) AS __row_json FROM (SELECT 1) AS _postgres_mcp_row(\"a\")")
unfolding wrap_query_for_json_rows bound_query_row_fetch_strategy
    top_level_bound_query_keyword_tokens canonicalize_sql trim text_eq to_ascii_lowercase
    is_ascii_alphanumeric wrap_select_like_query_for_json_rows sql_quote_ident
wrap_test = refl
