-- ===== src/Statements.antt =====
-- The scanners of SQL texts: `split_sql_statements` of src/db.rs, and the multi-statement guard
-- `contains_top_level_statement_delimiter` of src/tools/query.rs. A text is the list of its
-- characters. Each byte that the scanners test is ASCII, and such a byte is a whole character of a
-- UTF-8 text, so that reading by bytes, as the source does, and by characters meets the same tests
-- and cuts at the same places; `trim` works on characters in the source too. An index is
-- the text that follows it, and what stands before it, last character first.
pub mod Pieces
pub mod Split
pub mod Guard
mod Tests
use mathlib.Core.List.{reverse}
use postgres_mcp.Prelude.{
  ℕ, zero, suc, ◌+◌, ◌-◌, Bool, true, false, not, ◌&&◌, ◌||◌, Option, none, some, List, [], ◌∷◌,
  ◌++◌, if◌then◌else◌, nat_eq, Text, ℤ, ℤ_suc, ℤ_pred, is_zero, pos, length, filter, map, trim,
  is_empty, is_ascii_alphanumeric, is_ascii_whitespace, starts_with,
}
use postgres_mcp.Cursors.{canonicalize_sql}

-- Whether a character is a given one and the next one too.
abbrev pub next_is : ℕ → Text → Bool
next_is c [] = false
next_is c (b ∷ bs) = nat_eq b c

abbrev pub tag_rest : Text → Option Text
tag_rest [] = none
tag_rest (b ∷ bs) =
    let rest = tag_rest bs in
    if nat_eq b b'$'
    then some (b'$' ∷ [])
    else if is_ascii_alphanumeric b || nat_eq b b'_'
    then elim rest [ none ↦ none | some tag ↦ some (b ∷ tag) ]
    else none

-- The tag of the dollar quote that opens here.
unfoldable pub read_dollar_quote_start : Text → Option Text
read_dollar_quote_start [] = none
read_dollar_quote_start (b ∷ bs) =
    if nat_eq b b'$'
    then elim (tag_rest bs) [ none ↦ none | some tag ↦ some (b'$' ∷ tag) ]
    else none

pub data Quoted : Type 0 where
  outside : Quoted
  in_single_quote : Quoted
  in_double_quote : Quoted
  in_dollar_quote : Text → Quoted
  in_line_comment : Quoted
  in_block_comment : Quoted

-- What one round of the loop does: where it goes on, and over how many characters; only a round over
-- one character meets a parenthesis or a semicolon.
pub data Move : Type 0 where
  pass : Quoted → ℕ → Move
  opening : Move
  closing : Move
  semicolon : Move

unfoldable pub split_step : Quoted → ℕ → Text → Move
unfolding read_dollar_quote_start
split_step (in_dollar_quote tag) b bs =
    if starts_with tag (b ∷ bs) then pass outside (length tag) else pass (in_dollar_quote tag) 1
split_step in_line_comment b bs = if nat_eq b b'\n' then pass outside 1 else pass in_line_comment 1
split_step in_block_comment b bs =
    if nat_eq b b'*' && next_is b'/' bs then pass outside 2 else pass in_block_comment 1
split_step in_single_quote b bs =
    if nat_eq b b'\''
    then (if next_is b'\'' bs then pass in_single_quote 2 else pass outside 1)
    else pass in_single_quote 1
split_step in_double_quote b bs =
    if nat_eq b b'"'
    then (if next_is b'"' bs then pass in_double_quote 2 else pass outside 1)
    else pass in_double_quote 1
split_step outside b bs = elim (read_dollar_quote_start (b ∷ bs)) [
  | some tag ↦ pass (in_dollar_quote tag) (length tag)
  | none ↦
      if nat_eq b b'\''
      then pass in_single_quote 1
      else if nat_eq b b'"'
      then pass in_double_quote 1
      else if nat_eq b b'-' && next_is b'-' bs
      then pass in_line_comment 2
      else if nat_eq b b'/' && next_is b'*' bs
      then pass in_block_comment 2
      else if nat_eq b b';'
      then semicolon
      else if nat_eq b b'('
      then opening
      else if nat_eq b b')'
      then closing
      else pass outside 1
]

-- The loop, with the parentheses open, the characters that the last round goes over and are still to
-- come, and the statement so far, last character first. It gives the text of each statement.
unfoldable pub pieces : Quoted → ℤ → ℕ → Text → Text → List Text
unfolding split_step
pieces q paren_depth skip current [] = reverse current ∷ []
pieces q paren_depth (suc skip) current (b ∷ bs) = pieces q paren_depth skip (b ∷ current) bs
pieces q paren_depth zero current (b ∷ bs) = elim (split_step q b bs) [
  | pass p width ↦ pieces p paren_depth (width - 1) (b ∷ current) bs
  | opening ↦ pieces q (ℤ_suc paren_depth) 0 (b ∷ current) bs
  | closing ↦ pieces q (ℤ_pred paren_depth) 0 (b ∷ current) bs
  | semicolon ↦ elim (is_zero paren_depth) [
    | true ↦ reverse current ∷ pieces q paren_depth 0 [] bs
    | false ↦ pieces q paren_depth 0 (b ∷ current) bs
  ]
]

-- What is pushed is trimmed, and only if something is left.
abbrev pub pushed : List Text → List Text
pushed texts = filter (λ t. not (is_empty t)) (map trim texts)

unfoldable pub split_sql_statements : Text → List Text
split_sql_statements sql = pushed (pieces outside (pos 0) 0 [] sql)

abbrev last_of : List Text → Option Text
last_of [] = none
last_of (t ∷ ts) = elim (last_of ts) [
  | none ↦ (if is_empty (trim t) then none else some t)
  | some u ↦ some u
]

unfoldable pub extract_last_statement : Text → Option Text
unfolding split_sql_statements
extract_last_statement sql = last_of (split_sql_statements sql)

pub data HelperScanState : Type 0 where
  normal : HelperScanState
  single_quote : Bool → HelperScanState
  double_quote : HelperScanState
  line_comment : HelperScanState
  block_comment : ℕ → HelperScanState
  dollar_quote : Text → HelperScanState

-- Whether the character before a quote is an `E` that stands alone.
unfoldable pub single_quote_uses_backslash_escape : Text → Bool
single_quote_uses_backslash_escape [] = false
single_quote_uses_backslash_escape (p ∷ []) = nat_eq p b'e' || nat_eq p b'E'
single_quote_uses_backslash_escape (p ∷ prior ∷ before) =
    (nat_eq p b'e' || nat_eq p b'E')
    && not (is_ascii_alphanumeric prior || nat_eq prior b'_' || nat_eq prior b'$')

pub data AfterState : Type 0 where
  between : AfterState
  in_line : AfterState
  in_block : ℕ → AfterState

-- What is left of the text after the delimiter, one character at a time.
unfoldable pub after_delimiter : AfterState → ℕ → Text → Bool
after_delimiter q skip [] = false
after_delimiter q (suc skip) (b ∷ bs) = after_delimiter q skip bs
after_delimiter between zero (b ∷ bs) =
    let blank = is_ascii_whitespace b || nat_eq b b';' in
    let line = nat_eq b b'-' && next_is b'-' bs in
    let block = nat_eq b b'/' && next_is b'*' bs in
    elim blank [
      | true ↦ after_delimiter between 0 bs
      | false ↦ elim line [
        | true ↦ after_delimiter in_line 1 bs
        | false ↦ elim block [ true ↦ after_delimiter (in_block 1) 1 bs | false ↦ true ]
      ]
    ]
after_delimiter in_line zero (b ∷ bs) = elim (nat_eq b b'\n') [
  | true ↦ after_delimiter between 0 bs
  | false ↦ after_delimiter in_line 0 bs
]
after_delimiter (in_block depth) zero (b ∷ bs) = elim (nat_eq b b'/' && next_is b'*' bs) [
  | true ↦ after_delimiter (in_block (suc depth)) 1 bs
  | false ↦ elim (nat_eq b b'*' && next_is b'/' bs) [
    | true ↦
        after_delimiter (elim (nat_eq depth 1) [ true ↦ between | false ↦ in_block (depth - 1) ]) 1
          bs
    | false ↦ after_delimiter (in_block depth) 0 bs
  ]
]

unfoldable pub has_top_level_sql_after_delimiter : Text → Bool
has_top_level_sql_after_delimiter rest = after_delimiter between 0 rest

pub data ScanMove : Type 0 where
  go : HelperScanState → ℕ → ℕ → ScanMove
  delimiter : ScanMove

-- One round: the next state and parenthesis depth and the characters gone over, or the delimiter.
unfoldable pub scan_step : HelperScanState → ℕ → Text → ℕ → Text → ScanMove
unfolding read_dollar_quote_start single_quote_uses_backslash_escape
scan_step normal depth before b bs =
    let opened : ScanMove = elim (read_dollar_quote_start (b ∷ bs)) [
      | some tag ↦ go (dollar_quote tag) depth (length tag)
      | none ↦
          if nat_eq b b'('
          then go normal (suc depth) 1
          else if nat_eq b b')'
          then go normal (depth - 1) 1
          else if nat_eq b b';' && nat_eq depth 0
          then delimiter
          else go normal depth 1
    ] in
    if nat_eq b b'\''
    then go (single_quote (single_quote_uses_backslash_escape before)) depth 1
    else if nat_eq b b'"'
    then go double_quote depth 1
    else if nat_eq b b'-' && next_is b'-' bs
    then go line_comment depth 2
    else if nat_eq b b'/' && next_is b'*' bs
    then go (block_comment 1) depth 2
    else opened
scan_step (single_quote escape) depth before b bs =
    if escape && nat_eq b b'\\' && not (is_empty bs)
    then go (single_quote escape) depth 2
    else if nat_eq b b'\''
    then (if next_is b'\'' bs then go (single_quote escape) depth 2 else go normal depth 1)
    else go (single_quote escape) depth 1
scan_step double_quote depth before b bs =
    if nat_eq b b'"'
    then (if next_is b'"' bs then go double_quote depth 2 else go normal depth 1)
    else go double_quote depth 1
scan_step line_comment depth before b bs =
    if nat_eq b b'\n' then go normal depth 1 else go line_comment depth 1
scan_step (block_comment level) depth before b bs =
    if nat_eq b b'/' && next_is b'*' bs
    then go (block_comment (suc level)) depth 2
    else if nat_eq b b'*' && next_is b'/' bs
    then go (if nat_eq (level - 1) 0 then normal else block_comment (level - 1)) depth 2
    else go (block_comment level) depth 1
scan_step (dollar_quote tag) depth before b bs =
    if starts_with tag (b ∷ bs) then go normal depth (length tag) else go (dollar_quote tag) depth 1

unfoldable pub scan_delimiter : HelperScanState → ℕ → ℕ → Text → Text → Bool
unfolding has_top_level_sql_after_delimiter
scan_delimiter q depth skip before [] = false
scan_delimiter q depth (suc skip) before (b ∷ bs) = scan_delimiter q depth skip (b ∷ before) bs
scan_delimiter q depth zero before (b ∷ bs) = elim (scan_step q depth before b bs) [
  | go p d width ↦ scan_delimiter p d (width - 1) (b ∷ before) bs
  | delimiter ↦ has_top_level_sql_after_delimiter bs
]

unfoldable pub contains_top_level_statement_delimiter : Text → Bool
contains_top_level_statement_delimiter sql = scan_delimiter normal 0 0 [] (canonicalize_sql sql)
