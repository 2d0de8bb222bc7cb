-- ===== src/Statements/Tests.antt =====
-- The scanners of src/db.rs and src/tools/query.rs at concrete texts.
use postgres_mcp.Prelude.{
  ◌≡◌, refl, true, false, some, List, [], ◌∷◌, ◌++◌, map, Text, codes, trim, trim_start, trim_end,
  is_whitespace, is_empty, is_ascii_alphanumeric, is_ascii_whitespace, starts_with,
}
use postgres_mcp.Cursors.{canonicalize_sql}
use postgres_mcp.Statements.{
  pieces, split_step, split_sql_statements, extract_last_statement, read_dollar_quote_start,
  scan_delimiter, scan_step, after_delimiter, has_top_level_sql_after_delimiter,
  contains_top_level_statement_delimiter, single_quote_uses_backslash_escape,
}
use postgres_mcp.Statements.Pieces.{
  Piece, plain, single_quoted, double_quoted, line_commented, block_commented, dollar_quoted,
  opened, closed, inner_semicolon, written_all, fits,
}
use postgres_mcp.Statements.Split.{stated, script, all_fit, split-script}
use postgres_mcp.Statements.Guard.{contains-statement, contains-two_statements}

abbrev plains : Text → List Piece
plains = map plain

-- SELECT $1, 'a;''b', "c;" -- d;⏎ (;) /* e; */ $t$;$t$
abbrev first_statement : List Piece
first_statement =
    plains (codes "SELECT $1, ")
    ++ single_quoted (codes "a;'b")
      ∷ plain b','
      ∷ double_quoted (codes "c;")
      ∷ line_commented (codes " d;")
      ∷ opened
      ∷ inner_semicolon
      ∷ closed
      ∷ block_commented (codes " e; ")
      ∷ dollar_quoted (codes "t") (codes ";")
      ∷ []

abbrev second_statement : List Piece
second_statement = plains (codes " DELETE FROM t")

abbrev both : Text
both = codes "SELECT $1, 'a;''b',\"c;\"-- d;\n(;)/* e; */$t$;$t$; DELETE FROM t"

script_test : script first_statement (second_statement ∷ []) ≡ both
unfolding script written_all
script_test = refl

split-script_example :
    split_sql_statements (script first_statement (second_statement ∷ []))
    ≡ stated (map written_all (first_statement ∷ second_statement ∷ []))
unfolding all_fit fits written_all script read_dollar_quote_start is_ascii_alphanumeric starts_with
split-script_example = split-script first_statement (second_statement ∷ []) refl

last_test : extract_last_statement (codes "SELECT 1; SELECT 2 ; ") ≡ some (codes "SELECT 2")
unfolding extract_last_statement split_sql_statements pieces split_step read_dollar_quote_start trim
    trim_start trim_end is_whitespace is_empty
last_test = refl

contains-statement_example :
    contains_top_level_statement_delimiter (written_all first_statement) ≡ false
unfolding fits written_all canonicalize_sql trim trim_start trim_end is_whitespace
    read_dollar_quote_start is_ascii_alphanumeric starts_with
contains-statement_example =
    contains-statement (written_all first_statement) first_statement refl refl

contains-two_statements_example : contains_top_level_statement_delimiter both ≡ true
unfolding fits written_all canonicalize_sql trim trim_start trim_end is_whitespace
    read_dollar_quote_start is_ascii_alphanumeric starts_with is_ascii_whitespace is_empty
contains-two_statements_example =
    contains-two_statements both first_statement (codes " ") (codes "DELETE FROM t") refl refl refl
      refl

-- A dollar sign inside a name is taken for the opening of a dollar quote.
dollar_in_name_test :
    contains_top_level_statement_delimiter (codes "SELECT 1 AS a$b$; DELETE FROM t") ≡ false
unfolding contains_top_level_statement_delimiter scan_delimiter scan_step read_dollar_quote_start
    canonicalize_sql trim trim_start trim_end is_whitespace is_ascii_alphanumeric starts_with
dollar_in_name_test = refl

-- The splitter knows neither nested comments nor backslash escapes.
nested_comment_test :
    split_sql_statements (codes "/* /* */ ; */ SELECT 1")
    ≡ codes "/* /* */" ∷ codes "*/ SELECT 1" ∷ []
unfolding split_sql_statements pieces split_step read_dollar_quote_start trim trim_start trim_end
    is_whitespace is_empty
nested_comment_test = refl

escape_test : contains_top_level_statement_delimiter (codes "SELECT E'\\'; x'; SELECT 2") ≡ true
unfolding contains_top_level_statement_delimiter scan_delimiter scan_step read_dollar_quote_start
    canonicalize_sql trim trim_start trim_end is_whitespace single_quote_uses_backslash_escape
    has_top_level_sql_after_delimiter after_delimiter is_ascii_alphanumeric is_empty
    is_ascii_whitespace
escape_test = refl
