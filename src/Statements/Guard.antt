-- ===== src/Statements/Guard.antt =====
-- `contains_top_level_statement_delimiter` of src/tools/query.rs on texts of known parts.
use mathlib.Core.List.{append_assoc, append-nil}
use postgres_mcp.Prelude.{
  ℕ, zero, suc, ◌-◌, ◌≡◌, refl, sym, ap, subst, ◌∙◌, Bool, true, false, not, ◌&&◌, ◌||◌, Option,
  none, some, List, [], ◌∷◌, ◌++◌, nat_eq, Text, some_eq_some, length, all, starts_with,
  is_ascii_whitespace, is_empty, arith,
}
use postgres_mcp.Cursors.{canonicalize_sql}
use postgres_mcp.Statements.{
  next_is, read_dollar_quote_start, HelperScanState, normal, single_quote, double_quote,
  line_comment, block_comment, dollar_quote, single_quote_uses_backslash_escape, scan_step, go,
  scan_delimiter, contains_top_level_statement_delimiter, has_top_level_sql_after_delimiter,
  between, after_delimiter,
}
use postgres_mcp.Statements.Pieces.{
  Piece, plain, single_quoted, double_quoted, line_commented, block_commented, dollar_quoted,
  opened, closed, inner_semicolon, onto, onto-append, tag_of, written, written_all, fits_before,
  is_plain, block_mark, depth_after, fits, Scanner, over_all, quoted-body, closed-body, read-tag,
  starts_with-append, all-true, suc-sub, no_newline, newline-passes, block_mark-false,
}

abbrev loop : HelperScanState → ℕ → Text → Text → Bool
loop q d before s = scan_delimiter q d 0 before s

skip-scan :
    (q : HelperScanState) (d : ℕ) (t before rest : Text)
    → scan_delimiter q d (length t) before (t ++ rest) ≡ scan_delimiter q d 0 (onto t before) rest
unfolding scan_delimiter
skip-scan q d [] before rest = refl
skip-scan q d (c ∷ t) before rest = skip-scan q d t (c ∷ before) rest

skip-tag :
    (q : HelperScanState) (d : ℕ) (name before rest : Text)
    → scan_delimiter q d (length (tag_of name) - 1) (b'$' ∷ before) ((name ++ b'$' ∷ []) ++ rest)
      ≡ scan_delimiter q d 0 (onto (tag_of name) before) rest
skip-tag q d name before rest =
    ap (λ k. scan_delimiter q d k (b'$' ∷ before) ((name ++ b'$' ∷ []) ++ rest))
      (suc-sub (length (name ++ b'$' ∷ [])))
    ∙ skip-scan q d (name ++ b'$' ∷ []) (b'$' ∷ before) rest

step-plain :
    (d : ℕ) (before : Text) (c : ℕ) (rest : Text)
    → is_plain c rest ≡ true
    → scan_step normal d before c rest ≡ go normal d 1
unfolding scan_step
step-plain d before c rest h = by_tag (read_dollar_quote_start (c ∷ rest)) refl
  where
    by_tag :
        (o : Option Text)
        → read_dollar_quote_start (c ∷ rest) ≡ o
        → scan_step normal d before c rest ≡ go normal d 1
    by_tag (some t) e = ground (arith, h, e)
    by_tag none e = rw (scan_step, e) (ground (arith, h))

-- One piece after another, at d parentheses open.
module _ (d : ℕ) (before rest : Text) where
  plain-scan :
      (c : ℕ)
      → is_plain c rest ≡ true
      → loop normal d before (c ∷ rest) ≡ loop normal d (c ∷ before) rest
  unfolding scan_delimiter
  plain-scan c h = rw (scan_delimiter, step-plain d before c rest h) refl

  single-scan :
      (t : Text)
      → all (λ c. not (nat_eq c b'\\')) t ≡ true
      → next_is b'\'' rest ≡ false
      → loop normal d before (written (single_quoted t) ++ rest)
        ≡ loop normal d (onto (written (single_quoted t)) before) rest
  unfolding scan_delimiter scan_step
  single-scan t clean h =
      let escape = single_quote_uses_backslash_escape before in
      quoted-body (loop (single_quote escape) d) (loop normal d) b'\'' (λ c. not (nat_eq c b'\\'))
        (λ b s. rw (scan_delimiter, scan_step, no_escape escape) refl)
        (λ b c s x y. rw (scan_delimiter, scan_step, clean_byte escape c s y, x) refl)
        (λ b s x. rw (scan_delimiter, scan_step, no_escape escape, x) refl) t (b'\'' ∷ before) rest
        clean h
    where
      no_escape : (escape : Bool) → (escape && false) ≡ false
      no_escape true = refl
      no_escape false = refl

      clean_byte :
          (escape : Bool) (c : ℕ) (s : Text)
          → not (nat_eq c b'\\') ≡ true
          → (escape && nat_eq c b'\\' && not (is_empty s)) ≡ false
      clean_byte escape c s y = ground (arith, y)

  double-scan :
      (t : Text)
      → next_is b'"' rest ≡ false
      → loop normal d before (written (double_quoted t) ++ rest)
        ≡ loop normal d (onto (written (double_quoted t)) before) rest
  unfolding scan_delimiter scan_step
  double-scan t h =
      quoted-body (loop double_quote d) (loop normal d) b'"' (λ c. true) (λ b s. refl)
        (λ b c s x y. rw (scan_delimiter, scan_step, x) refl)
        (λ b s x. rw (scan_delimiter, scan_step, x) refl) t (b'"' ∷ before) rest (all-true t) h

  line-scan :
      (t : Text)
      → fits_before (line_commented t) rest ≡ true
      → loop normal d before (written (line_commented t) ++ rest)
        ≡ loop normal d (onto (written (line_commented t)) before) rest
  unfolding scan_delimiter scan_step
  line-scan t h =
      closed-body (loop line_comment d) (loop normal d) (b'\n' ∷ []) (starts_with (b'\n' ∷ []))
        (λ b c s x. rw (scan_delimiter, scan_step, no_newline c s x) refl) (λ b s. refl) t
        (b'-' ∷ b'-' ∷ before) rest (newline-passes t rest h)

  block-scan :
      (t : Text)
      → fits_before (block_commented t) rest ≡ true
      → loop normal d before (written (block_commented t) ++ rest)
        ≡ loop normal d (onto (written (block_commented t)) before) rest
  unfolding scan_delimiter scan_step
  block-scan t h =
      closed-body (loop (block_comment 1) d) (loop normal d) (b'*' ∷ b'/' ∷ []) block_mark
        (λ b c s x.
          rw (scan_delimiter, scan_step, (block_mark-false c s x).0, (block_mark-false c s x).1)
            refl)
        (λ b s. refl) t (b'*' ∷ b'/' ∷ before) rest h

  dollar-scan :
      (name t : Text)
      → fits_before (dollar_quoted name t) rest ≡ true
      → loop normal d before (written (dollar_quoted name t) ++ rest)
        ≡ loop normal d (onto (written (dollar_quoted name t)) before) rest
  unfolding scan_delimiter scan_step
  dollar-scan name t h =
      let tag = tag_of name in
      ap (loop normal d before) (append_assoc tag (t ++ tag) rest)
      ∙ rw (scan_delimiter, scan_step, read-tag name ((t ++ tag) ++ rest) (ground (arith, h))) refl
      ∙ skip-tag (dollar_quote tag) d name before ((t ++ tag) ++ rest)
      ∙ closed-body (loop (dollar_quote tag) d) (loop normal d) tag (starts_with tag)
          (λ b c s x. rw (scan_delimiter, scan_step, x) refl)
          (λ b s.
            rw (scan_delimiter, scan_step, starts_with-append tag s) (skip-tag normal d name b s))
          t (onto tag before) rest (ground (arith, h))
      ∙ ap (λ u. loop normal d u rest) (sym (onto-append tag (t ++ tag) before))

suc_not_zero : (d : ℕ) → nat_eq (suc d) 0 ≡ false
suc_not_zero d = ground (arith)

module _ (d e : ℕ) (before rest : Text) where
  kept :
      (p : Piece)
      → loop normal d before (written p ++ rest) ≡ loop normal d (onto (written p) before) rest
      → some d ≡ some e
      → loop normal d before (written p ++ rest) ≡ loop normal e (onto (written p) before) rest
  kept p h k =
      subst
        (λ n.
          loop normal d before (written p ++ rest) ≡ loop normal n (onto (written p) before) rest)
        (some_eq_some k) h

over-scan :
    (d e : ℕ) (p : Piece) (before rest : Text)
    → fits_before p rest ≡ true
    → depth_after d p ≡ some e
    → loop normal d before (written p ++ rest) ≡ loop normal e (onto (written p) before) rest
unfolding scan_delimiter scan_step read_dollar_quote_start
over-scan d e (plain c) before rest h k =
    kept d e before rest (plain c) (plain-scan d before rest c h) k
over-scan d e (single_quoted t) before rest h k =
    kept d e before rest (single_quoted t)
      (single-scan d before rest t (ground (arith, h)) (ground (arith, h))) k
over-scan d e (double_quoted t) before rest h k =
    kept d e before rest (double_quoted t) (double-scan d before rest t (ground (arith, h))) k
over-scan d e (line_commented t) before rest h k =
    kept d e before rest (line_commented t) (line-scan d before rest t h) k
over-scan d e (block_commented t) before rest h k =
    kept d e before rest (block_commented t) (block-scan d before rest t h) k
over-scan d e (dollar_quoted name t) before rest h k =
    kept d e before rest (dollar_quoted name t) (dollar-scan d before rest name t h) k
over-scan d e opened before rest h k = ap (λ n. loop normal n (b'(' ∷ before) rest) (some_eq_some k)
over-scan zero e closed before rest h k = cc
over-scan (suc d) e closed before rest h k =
    ap (λ n. loop normal n (b')' ∷ before) rest) (suc-sub d ∙ some_eq_some k)
over-scan zero e inner_semicolon before rest h k = cc
over-scan (suc d) e inner_semicolon before rest h k =
    rw (scan_delimiter, scan_step, suc_not_zero d) refl
    ∙ ap (λ n. loop normal n (b';' ∷ before) rest) (some_eq_some k)

abbrev guard : Scanner
guard = record {
  R = Bool;
  top = loop normal;
  reads = λ p. true;
  over = λ d e p before rest r. over-scan d e p before rest;
}

-- No delimiter is found in a text whose canonical form is one statement of parts that fit: quotes,
-- comments and dollar quotes are closed and parentheses match, no single-quoted literal holds a
-- backslash, and no block comment holds the mark of another. Semicolons inside of these parts do
-- not count.
pub contains-statement :
    (sql : Text) (ps : List Piece)
    → canonicalize_sql sql ≡ written_all ps
    → fits 0 ps [] ≡ true
    → contains_top_level_statement_delimiter sql ≡ false
unfolding contains_top_level_statement_delimiter scan_delimiter
contains-statement sql ps e h =
    ap (loop normal 0 []) (e ∙ sym (append-nil (written_all ps)))
    ∙ over_all guard 0 ps [] [] (all-true ps) h

abbrev pub is_gap : ℕ → Bool
is_gap b = is_ascii_whitespace b || nat_eq b b';'

-- A text that is empty, or begins with neither a blank, a semicolon nor a comment.
abbrev pub starts_statement : Text → Bool
starts_statement [] = true
starts_statement (b ∷ bs) =
    not (is_gap b)
    && not (nat_eq b b'-' && next_is b'-' bs)
    && not (nat_eq b b'/' && next_is b'*' bs)

after-gap :
    (gap rest : Text)
    → all is_gap gap ≡ true
    → starts_statement rest ≡ true
    → after_delimiter between 0 (gap ++ rest) ≡ not (is_empty rest)
unfolding after_delimiter is_empty
after-gap [] [] h k = refl
after-gap [] (b ∷ bs) h k = ground (arith, k)
after-gap (c ∷ gap) rest h k = ground (arith, h, after-gap gap rest (ground (arith, h)) k)

-- In a text whose canonical form is one statement of parts that fit, a semicolon, blanks or further
-- semicolons, and a rest that begins with neither a blank, a semicolon nor a comment, a delimiter
-- is found exactly where the rest is not empty.
pub contains-two_statements :
    (sql : Text) (ps : List Piece) (gap rest : Text)
    → canonicalize_sql sql ≡ written_all ps ++ b';' ∷ (gap ++ rest)
    → fits 0 ps (b';' ∷ (gap ++ rest)) ≡ true
    → all is_gap gap ≡ true
    → starts_statement rest ≡ true
    → contains_top_level_statement_delimiter sql ≡ not (is_empty rest)
unfolding contains_top_level_statement_delimiter scan_delimiter scan_step read_dollar_quote_start
    has_top_level_sql_after_delimiter
contains-two_statements sql ps gap rest e h blank k =
    ap (loop normal 0 []) e
    ∙ over_all guard 0 ps [] (b';' ∷ (gap ++ rest)) (all-true ps) h
    ∙ after-gap gap rest blank k
