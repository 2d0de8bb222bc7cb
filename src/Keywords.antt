-- ===== src/Keywords.antt =====
-- The keyword tokens of src/db.rs, the way in which the rows of a query with bound parameters are
-- fetched, and the queries that wrap it. A text is the list of its
-- characters. Each byte that the scanners test is ASCII, and such a byte is a whole character of a
-- UTF-8 text, so that reading by bytes, as the source does, and by characters meets the same tests
-- and cuts at the same places. An index is
-- the text that follows it.
pub mod Inner
mod Tests
use postgres_mcp.Prelude.{
  ℕ, zero, suc, ◌+◌, ◌-◌, Bool, true, false, not, ◌&&◌, ◌||◌, Option, none, some, List, [], ◌∷◌,
  ◌++◌, if◌then◌else◌, nat_eq, Text, text_Eq, ◌==◌, codes, length, elem, map, within,
  is_ascii_alphanumeric, to_ascii_lowercase,
}
use postgres_mcp.Cursors.{canonicalize_sql}
use postgres_mcp.Statements.{next_is}
use postgres_mcp.Advisor.{sql_quote_ident, join_with}

pub data BoundQueryLexState : Type 0 where
  normal : BoundQueryLexState
  single_quote : BoundQueryLexState
  double_quote : BoundQueryLexState
  line_comment : BoundQueryLexState
  block_comment : BoundQueryLexState

abbrev pub is_bound_query_identifier_token_byte : ℕ → Bool
is_bound_query_identifier_token_byte c = is_ascii_alphanumeric c || nat_eq c b'_'

-- `is_ascii_alphabetic`, or an underscore.
abbrev pub starts_word : ℕ → Bool
starts_word c = within b'A' b'Z' c || within b'a' b'z' c || nat_eq c b'_'

abbrev pub word_rest : Text → Text
word_rest [] = []
word_rest (c ∷ cs) =
    let rest = word_rest cs in if is_bound_query_identifier_token_byte c then c ∷ rest else []

-- One round: the next state and parenthesis depth and the characters gone over, or a word.
pub data LexMove : Type 0 where
  go : BoundQueryLexState → ℕ → ℕ → LexMove
  word : Text → LexMove

unfoldable pub lex_step : BoundQueryLexState → ℕ → ℕ → Text → LexMove
lex_step normal depth b bs =
    if nat_eq b b'-' && next_is b'-' bs
    then go line_comment depth 2
    else if nat_eq b b'/' && next_is b'*' bs
    then go block_comment depth 2
    else if nat_eq b b'\''
    then go single_quote depth 1
    else if nat_eq b b'"'
    then go double_quote depth 1
    else if nat_eq b b'('
    then go normal (suc depth) 1
    else if nat_eq b b')'
    then go normal (depth - 1) 1
    else if nat_eq depth 0 && starts_word b
    then word (b ∷ word_rest bs)
    else go normal depth 1
lex_step single_quote depth b bs =
    if nat_eq b b'\''
    then (if next_is b'\'' bs then go single_quote depth 2 else go normal depth 1)
    else go single_quote depth 1
lex_step double_quote depth b bs =
    if nat_eq b b'"'
    then (if next_is b'"' bs then go double_quote depth 2 else go normal depth 1)
    else go double_quote depth 1
lex_step line_comment depth b bs =
    if nat_eq b b'\n' then go normal depth 1 else go line_comment depth 1
lex_step block_comment depth b bs =
    if nat_eq b b'*' && next_is b'/' bs then go normal depth 2 else go block_comment depth 1

-- The loop, with the characters that the last round goes over and are still to come.
unfoldable pub tokens : BoundQueryLexState → ℕ → ℕ → Text → List Text
unfolding lex_step
tokens q depth skip [] = []
tokens q depth (suc skip) (b ∷ bs) = tokens q depth skip bs
tokens q depth zero (b ∷ bs) = elim (lex_step q depth b bs) [
  | go p d width ↦ tokens p d (width - 1) bs
  | word w ↦ to_ascii_lowercase w ∷ tokens q depth (length w - 1) bs
]

unfoldable pub top_level_bound_query_keyword_tokens : Text → List Text
unfolding tokens
top_level_bound_query_keyword_tokens sql = tokens normal 0 0 (canonicalize_sql sql)

abbrev pub statement_keywords : List Text
statement_keywords =
    codes "select"
    ∷ codes "values"
    ∷ codes "table"
    ∷ codes "insert"
    ∷ codes "update"
    ∷ codes "delete"
    ∷ codes "merge"
    ∷ []

abbrev pub first_statement_keyword : List Text → Option Text
first_statement_keyword [] = none
first_statement_keyword (t ∷ ts) =
    let rest = first_statement_keyword ts in if elem t statement_keywords then some t else rest

abbrev pub leading : List Text → Option Text
leading [] = none
leading (first ∷ more) = if first == codes "with" then first_statement_keyword more else some first

unfoldable pub leading_bound_query_statement_keyword : Text → Option Text
leading_bound_query_statement_keyword sql = leading (top_level_bound_query_keyword_tokens sql)

pub data BoundQueryRowFetchStrategy : Type 0 where
  derived_table_wrapper : BoundQueryRowFetchStrategy
  common_table_expression_wrapper : BoundQueryRowFetchStrategy
  direct_decode : BoundQueryRowFetchStrategy

abbrev pub strategy_of : Option Text → BoundQueryRowFetchStrategy
strategy_of none = direct_decode
strategy_of (some keyword) =
    if elem keyword (codes "select" ∷ codes "values" ∷ codes "table" ∷ [])
    then derived_table_wrapper
    else if elem keyword (codes "insert" ∷ codes "update" ∷ codes "delete" ∷ codes "merge" ∷ [])
    then common_table_expression_wrapper
    else direct_decode

unfoldable pub bound_query_row_fetch_strategy : Text → BoundQueryRowFetchStrategy
unfolding leading_bound_query_statement_keyword
bound_query_row_fetch_strategy sql = strategy_of (leading_bound_query_statement_keyword sql)

abbrev aliases : List Text → Text
aliases columns = join_with (codes ", ") (map sql_quote_ident columns)

unfoldable pub wrap_select_like_query_for_json_rows : Text → List Text → Text
wrap_select_like_query_for_json_rows sql columns =
    codes "SELECT row_to_json(_postgres_mcp_row) AS __row_json FROM ("
    ++ (canonicalize_sql sql ++ (codes ") AS _postgres_mcp_row(" ++ (aliases columns ++ codes ")")))

unfoldable pub wrap_data_modifying_query_for_json_rows : Text → List Text → Text
wrap_data_modifying_query_for_json_rows sql columns =
    codes "WITH _postgres_mcp_row("
    ++ (aliases columns
        ++ (codes ") AS ("
            ++ (canonicalize_sql sql
                ++ codes
                    ") SELECT row_to_json(_postgres_mcp_row) AS __row_json FROM _postgres_mcp_row")))

-- The query that gives the rows as JSON, by the names of its columns.
unfoldable pub wrap_query_for_json_rows : Text → List Text → Option Text
wrap_query_for_json_rows sql columns = elim (bound_query_row_fetch_strategy sql) [
  | derived_table_wrapper ↦ some (wrap_select_like_query_for_json_rows sql columns)
  | common_table_expression_wrapper ↦ some (wrap_data_modifying_query_for_json_rows sql columns)
  | direct_decode ↦ none
]
