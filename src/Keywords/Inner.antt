-- ===== src/Keywords/Inner.antt =====
-- What stands in parentheses gives no keyword token of src/db.rs.
use postgres_mcp.Prelude.{
  ℕ, zero, suc, ◌≡◌, refl, ap, subst, ◌∙◌, Bool, true, false, some, List, [], ◌∷◌, ◌++◌, Text,
  some_eq_some, all, starts_with, arith,
}
use postgres_mcp.Statements.{next_is}
use postgres_mcp.Statements.Pieces.{
  Piece, plain, single_quoted, double_quoted, line_commented, block_commented, dollar_quoted,
  opened, closed, inner_semicolon, onto, written, written_all, fits_before, is_plain, block_mark,
  depth_after, fits, Scanner, over_all, quoted-body, closed-body, all-true, suc-sub, no_newline,
  newline-passes, block_mark-false,
}
use postgres_mcp.Keywords.{
  BoundQueryLexState, normal, single_quote, double_quote, line_comment, block_comment, lex_step, go,
  tokens,
}

-- The loop inside one parenthesis more than counted.
abbrev loop : BoundQueryLexState → ℕ → Text → Text → List Text
loop q d before s = tokens q (suc d) 0 s

-- Every piece but a dollar quote, which these tokens do not know.
abbrev pub knows : Piece → Bool
knows (dollar_quoted name t) = false
knows _ = true

step-plain :
    (d c : ℕ) (rest : Text)
    → is_plain c rest ≡ true
    → lex_step normal (suc d) c rest ≡ go normal (suc d) 1
unfolding lex_step
step-plain d c rest h = ground (arith, h)

step-semicolon : (d : ℕ) (rest : Text) → lex_step normal (suc d) b';' rest ≡ go normal (suc d) 1
unfolding lex_step
step-semicolon d rest = ground (arith)

module _ (d : ℕ) (before rest : Text) where
  plain-tokens :
      (c : ℕ)
      → is_plain c rest ≡ true
      → loop normal d before (c ∷ rest) ≡ loop normal d (c ∷ before) rest
  unfolding tokens
  plain-tokens c h = rw (tokens, step-plain d c rest h) refl

  single-tokens :
      (t : Text)
      → next_is b'\'' rest ≡ false
      → loop normal d before (written (single_quoted t) ++ rest)
        ≡ loop normal d (onto (written (single_quoted t)) before) rest
  unfolding tokens lex_step
  single-tokens t h =
      quoted-body (loop single_quote d) (loop normal d) b'\'' (λ c. true) (λ b s. refl)
        (λ b c s x y. rw (tokens, lex_step, x) refl) (λ b s x. rw (tokens, lex_step, x) refl) t
        (b'\'' ∷ before) rest (all-true t) h

  double-tokens :
      (t : Text)
      → next_is b'"' rest ≡ false
      → loop normal d before (written (double_quoted t) ++ rest)
        ≡ loop normal d (onto (written (double_quoted t)) before) rest
  unfolding tokens lex_step
  double-tokens t h =
      quoted-body (loop double_quote d) (loop normal d) b'"' (λ c. true) (λ b s. refl)
        (λ b c s x y. rw (tokens, lex_step, x) refl) (λ b s x. rw (tokens, lex_step, x) refl) t
        (b'"' ∷ before) rest (all-true t) h

  line-tokens :
      (t : Text)
      → fits_before (line_commented t) rest ≡ true
      → loop normal d before (written (line_commented t) ++ rest)
        ≡ loop normal d (onto (written (line_commented t)) before) rest
  unfolding tokens lex_step
  line-tokens t h =
      closed-body (loop line_comment d) (loop normal d) (b'\n' ∷ []) (starts_with (b'\n' ∷ []))
        (λ b c s x. rw (tokens, lex_step, no_newline c s x) refl) (λ b s. refl) t
        (b'-' ∷ b'-' ∷ before) rest (newline-passes t rest h)

  block-tokens :
      (t : Text)
      → fits_before (block_commented t) rest ≡ true
      → loop normal d before (written (block_commented t) ++ rest)
        ≡ loop normal d (onto (written (block_commented t)) before) rest
  unfolding tokens lex_step
  block-tokens t h =
      closed-body (loop block_comment d) (loop normal d) (b'*' ∷ b'/' ∷ []) block_mark
        (λ b c s x. rw (tokens, lex_step, (block_mark-false c s x).1) refl) (λ b s. refl) t
        (b'*' ∷ b'/' ∷ before) rest h

module _ (d e : ℕ) (before rest : Text) where
  kept :
      (p : Piece)
      → loop normal d before (written p ++ rest) ≡ loop normal d (onto (written p) before) rest
      → some d ≡ some e
      → loop normal d before (written p ++ rest) ≡ loop normal e (onto (written p) before) rest
  kept p h k =
      subst
        (λ n.
          loop normal d before (written p ++ rest) ≡ loop normal n (onto (written p) before) rest)
        (some_eq_some k) h

over-tokens :
    (d e : ℕ) (p : Piece) (before rest : Text)
    → knows p ≡ true
    → fits_before p rest ≡ true
    → depth_after d p ≡ some e
    → loop normal d before (written p ++ rest) ≡ loop normal e (onto (written p) before) rest
unfolding tokens lex_step
over-tokens d e (plain c) before rest r h k =
    kept d e before rest (plain c) (plain-tokens d before rest c h) k
over-tokens d e (single_quoted t) before rest r h k =
    kept d e before rest (single_quoted t) (single-tokens d before rest t (ground (arith, h))) k
over-tokens d e (double_quoted t) before rest r h k =
    kept d e before rest (double_quoted t) (double-tokens d before rest t (ground (arith, h))) k
over-tokens d e (line_commented t) before rest r h k =
    kept d e before rest (line_commented t) (line-tokens d before rest t h) k
over-tokens d e (block_commented t) before rest r h k =
    kept d e before rest (block_commented t) (block-tokens d before rest t h) k
over-tokens d e (dollar_quoted name t) before rest r h k = cc
over-tokens d e opened before rest r h k = ap (λ n. loop normal n before rest) (some_eq_some k)
over-tokens zero e closed before rest r h k = cc
over-tokens (suc d) e closed before rest r h k =
    ap (λ n. tokens normal n 0 rest) (suc-sub (suc d))
    ∙ ap (λ n. loop normal n before rest) (some_eq_some k)
over-tokens zero e inner_semicolon before rest r h k = cc
over-tokens (suc d) e inner_semicolon before rest r h k =
    rw (tokens, step-semicolon (suc d) rest) refl
    ∙ ap (λ n. loop normal n before rest) (some_eq_some k)

abbrev inner : Scanner
inner = record { R = List Text; top = loop normal; reads = knows; over = over-tokens }

-- A group in parentheses, of parts other than dollar quotes that fit, gives no keyword token,
-- whatever keywords, parentheses, literals and comments it holds: the tokens are those of the
-- text that follows it.
pub tokens-group :
    (ps : List Piece) (rest : Text)
    → all knows ps ≡ true
    → fits 0 ps (b')' ∷ rest) ≡ true
    → tokens normal 0 0 (b'(' ∷ (written_all ps ++ b')' ∷ rest)) ≡ tokens normal 0 0 rest
unfolding tokens lex_step
tokens-group ps rest r h = over_all inner 0 ps [] (b')' ∷ rest) r h
