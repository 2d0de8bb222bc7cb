-- ===== src/Statements/Split.antt =====
-- `split_sql_statements` of src/db.rs on texts of known parts.
use mathlib.Core.List.{reverse, reverse-cons, append_assoc, append-nil}
use postgres_mcp.Prelude.{
  ℤ, pos, ℕ, zero, suc, ◌-◌, ◌≡◌, refl, sym, ap, subst, ◌∙◌, Bool, true, false, ◌&&◌, Option, none,
  some, List, [], ◌∷◌, ◌++◌, Text, some_eq_some, length, trim, is_empty, if◌then◌else◌, starts_with,
  map, arith,
}
use postgres_mcp.Statements.{
  next_is, read_dollar_quote_start, Quoted, outside, in_single_quote, in_double_quote,
  in_dollar_quote, in_line_comment, in_block_comment, split_step, pass, pieces, pushed,
  split_sql_statements,
}
use postgres_mcp.Statements.Pieces.{
  Piece, plain, single_quoted, double_quoted, line_commented, block_commented, dollar_quoted,
  opened, closed, inner_semicolon, onto, onto-append, tag_of, written, written_all, fits_before,
  is_plain, block_mark, depth_after, fits, Scanner, over_all, quoted-body, closed-body, read-tag,
  starts_with-append, all-true, suc-sub, no_newline, newline-passes, block_mark-false,
}

abbrev loop : Quoted → ℕ → Text → Text → List Text
loop q d before s = pieces q (pos d) 0 before s

skip-pieces :
    (q : Quoted) (d : ℤ) (t before rest : Text)
    → pieces q d (length t) before (t ++ rest) ≡ pieces q d 0 (onto t before) rest
unfolding pieces
skip-pieces q d [] before rest = refl
skip-pieces q d (c ∷ t) before rest = skip-pieces q d t (c ∷ before) rest

-- The rest of a dollar quote's tag.
skip-tag :
    (q : Quoted) (d : ℤ) (name before rest : Text)
    → pieces q d (length (tag_of name) - 1) (b'$' ∷ before) ((name ++ b'$' ∷ []) ++ rest)
      ≡ pieces q d 0 (onto (tag_of name) before) rest
skip-tag q d name before rest =
    ap (λ k. pieces q d k (b'$' ∷ before) ((name ++ b'$' ∷ []) ++ rest))
      (suc-sub (length (name ++ b'$' ∷ [])))
    ∙ skip-pieces q d (name ++ b'$' ∷ []) (b'$' ∷ before) rest

step-plain :
    (c : ℕ) (rest : Text) → is_plain c rest ≡ true → split_step outside c rest ≡ pass outside 1
unfolding split_step
step-plain c rest h = go (read_dollar_quote_start (c ∷ rest)) refl
  where
    go :
        (o : Option Text)
        → read_dollar_quote_start (c ∷ rest) ≡ o
        → split_step outside c rest ≡ pass outside 1
    go (some t) e = ground (arith, h, e)
    go none e = rw (split_step, e) (ground (arith, h))

-- One piece after another, at d parentheses open.
module _ (d : ℕ) (before rest : Text) where
  plain-split :
      (c : ℕ)
      → is_plain c rest ≡ true
      → loop outside d before (c ∷ rest) ≡ loop outside d (c ∷ before) rest
  unfolding pieces
  plain-split c h = rw (pieces, step-plain c rest h) refl

  single-split :
      (t : Text)
      → next_is b'\'' rest ≡ false
      → loop outside d before (written (single_quoted t) ++ rest)
        ≡ loop outside d (onto (written (single_quoted t)) before) rest
  unfolding pieces split_step read_dollar_quote_start
  single-split t h =
      quoted-body (loop in_single_quote d) (loop outside d) b'\'' (λ c. true) (λ b s. refl)
        (λ b c s x y. rw (pieces, split_step, x) refl) (λ b s x. rw (pieces, split_step, x) refl) t
        (b'\'' ∷ before) rest (all-true t) h

  double-split :
      (t : Text)
      → next_is b'"' rest ≡ false
      → loop outside d before (written (double_quoted t) ++ rest)
        ≡ loop outside d (onto (written (double_quoted t)) before) rest
  unfolding pieces split_step read_dollar_quote_start
  double-split t h =
      quoted-body (loop in_double_quote d) (loop outside d) b'"' (λ c. true) (λ b s. refl)
        (λ b c s x y. rw (pieces, split_step, x) refl) (λ b s x. rw (pieces, split_step, x) refl) t
        (b'"' ∷ before) rest (all-true t) h

  line-split :
      (t : Text)
      → fits_before (line_commented t) rest ≡ true
      → loop outside d before (written (line_commented t) ++ rest)
        ≡ loop outside d (onto (written (line_commented t)) before) rest
  unfolding pieces split_step read_dollar_quote_start
  line-split t h =
      closed-body (loop in_line_comment d) (loop outside d) (b'\n' ∷ []) (starts_with (b'\n' ∷ []))
        (λ b c s x. rw (pieces, split_step, no_newline c s x) refl) (λ b s. refl) t
        (b'-' ∷ b'-' ∷ before) rest (newline-passes t rest h)

  block-split :
      (t : Text)
      → fits_before (block_commented t) rest ≡ true
      → loop outside d before (written (block_commented t) ++ rest)
        ≡ loop outside d (onto (written (block_commented t)) before) rest
  unfolding pieces split_step read_dollar_quote_start
  block-split t h =
      closed-body (loop in_block_comment d) (loop outside d) (b'*' ∷ b'/' ∷ []) block_mark
        (λ b c s x. rw (pieces, split_step, (block_mark-false c s x).1) refl) (λ b s. refl) t
        (b'*' ∷ b'/' ∷ before) rest h

  dollar-split :
      (name t : Text)
      → fits_before (dollar_quoted name t) rest ≡ true
      → loop outside d before (written (dollar_quoted name t) ++ rest)
        ≡ loop outside d (onto (written (dollar_quoted name t)) before) rest
  unfolding pieces split_step
  dollar-split name t h =
      let tag = tag_of name in
      ap (loop outside d before) (append_assoc tag (t ++ tag) rest)
      ∙ rw (pieces, split_step, read-tag name ((t ++ tag) ++ rest) (ground (arith, h))) refl
      ∙ skip-tag (in_dollar_quote tag) (pos d) name before ((t ++ tag) ++ rest)
      ∙ closed-body (loop (in_dollar_quote tag) d) (loop outside d) tag (starts_with tag)
          (λ b c s x. rw (pieces, split_step, x) refl)
          (λ b s.
            rw (pieces, split_step, starts_with-append tag s) (skip-tag outside (pos d) name b s))
          t (onto tag before) rest (ground (arith, h))
      ∙ ap (λ u. loop outside d u rest) (sym (onto-append tag (t ++ tag) before))

module _ (d e : ℕ) (before rest : Text) where
  kept :
      (p : Piece)
      → loop outside d before (written p ++ rest) ≡ loop outside d (onto (written p) before) rest
      → some d ≡ some e
      → loop outside d before (written p ++ rest) ≡ loop outside e (onto (written p) before) rest
  kept p h k =
      subst
        (λ n.
          loop outside d before (written p ++ rest) ≡ loop outside n (onto (written p) before) rest)
        (some_eq_some k) h

over-split :
    (d e : ℕ) (p : Piece) (before rest : Text)
    → fits_before p rest ≡ true
    → depth_after d p ≡ some e
    → loop outside d before (written p ++ rest) ≡ loop outside e (onto (written p) before) rest
unfolding pieces split_step read_dollar_quote_start
over-split d e (plain c) before rest h k =
    kept d e before rest (plain c) (plain-split d before rest c h) k
over-split d e (single_quoted t) before rest h k =
    kept d e before rest (single_quoted t) (single-split d before rest t (ground (arith, h))) k
over-split d e (double_quoted t) before rest h k =
    kept d e before rest (double_quoted t) (double-split d before rest t (ground (arith, h))) k
over-split d e (line_commented t) before rest h k =
    kept d e before rest (line_commented t) (line-split d before rest t h) k
over-split d e (block_commented t) before rest h k =
    kept d e before rest (block_commented t) (block-split d before rest t h) k
over-split d e (dollar_quoted name t) before rest h k =
    kept d e before rest (dollar_quoted name t) (dollar-split d before rest name t h) k
over-split d e opened before rest h k =
    ap (λ n. loop outside n (b'(' ∷ before) rest) (some_eq_some k)
over-split zero e closed before rest h k = cc
over-split (suc d) e closed before rest h k =
    ap (λ n. loop outside n (b')' ∷ before) rest) (some_eq_some k)
over-split zero e inner_semicolon before rest h k = cc
over-split (suc d) e inner_semicolon before rest h k =
    ap (λ n. loop outside n (b';' ∷ before) rest) (some_eq_some k)

abbrev splitter : Scanner
splitter = record {
  R = List Text;
  top = loop outside;
  reads = λ p. true;
  over = λ d e p before rest r. over-split d e p before rest;
}

-- What follows the last statement or a delimiter.
read-statement :
    (ps : List Piece) (rest : Text)
    → fits 0 ps rest ≡ true
    → loop outside 0 [] (written_all ps ++ rest) ≡ loop outside 0 (onto (written_all ps) []) rest
read-statement ps rest h = over_all splitter 0 ps [] rest (all-true ps) h

onto-reverse : (t before : Text) → reverse (onto t before) ≡ reverse before ++ t
onto-reverse [] before = sym (append-nil (reverse before))
onto-reverse (c ∷ t) before =
    onto-reverse t (c ∷ before)
    ∙ ap (λ u. u ++ t) (reverse-cons c before)
    ∙ append_assoc (reverse before) (c ∷ []) t

-- The statements, a semicolon between each two, and the condition that each ends where it means to.
unfoldable pub script : List Piece → List (List Piece) → Text
script ps [] = written_all ps
script ps (qs ∷ more) = written_all ps ++ b';' ∷ script qs more

unfoldable pub all_fit : List Piece → List (List Piece) → Bool
all_fit ps [] = fits 0 ps []
all_fit ps (qs ∷ more) = fits 0 ps (b';' ∷ script qs more) && all_fit qs more

pieces-script :
    (ps : List Piece) (more : List (List Piece))
    → all_fit ps more ≡ true
    → loop outside 0 [] (script ps more) ≡ map written_all (ps ∷ more)
unfolding script all_fit pieces split_step read_dollar_quote_start
pieces-script ps [] h =
    ap (loop outside 0 []) (sym (append-nil (written_all ps)))
    ∙ read-statement ps [] h
    ∙ ap (λ u. u ∷ []) (onto-reverse (written_all ps) [])
pieces-script ps (qs ∷ more) h =
    read-statement ps (b';' ∷ script qs more) (ground (arith, h))
    ∙ ap (λ u. u ∷ loop outside 0 [] (script qs more)) (onto-reverse (written_all ps) [])
    ∙ ap (λ ts. written_all ps ∷ ts) (pieces-script qs more (ground (arith, h)))

-- The statements of the texts: each is trimmed, and a blank one is none.
unfoldable pub stated : List Text → List Text
stated [] = []
stated (t ∷ ts) = if is_empty (trim t) then stated ts else trim t ∷ stated ts

pushed_lem : (ts : List Text) → pushed ts ≡ stated ts
unfolding stated
pushed_lem [] = refl
pushed_lem (t ∷ ts) = ground (arith, pushed_lem ts)

-- A script of statements, a semicolon between each two, splits into just these statements, each
-- trimmed and a blank one left out, where the parts of each fit: quotes, comments and dollar quotes
-- are closed and parentheses match, no single-quoted literal holds a backslash, and no block
-- comment holds the mark of another. Semicolons inside of these parts do not split.
pub split-script :
    (ps : List Piece) (more : List (List Piece))
    → all_fit ps more ≡ true
    → split_sql_statements (script ps more) ≡ stated (map written_all (ps ∷ more))
unfolding split_sql_statements
split-script ps more h =
    ap pushed (pieces-script ps more h) ∙ pushed_lem (map written_all (ps ∷ more))
