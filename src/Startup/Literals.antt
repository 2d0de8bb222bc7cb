-- ===== src/Startup/Literals.antt =====
-- The SQL string literals that src/startup_coordination.rs and src/startup_dependencies.rs write.
use postgres_mcp.Prelude.{
  ℕ, ◌≡◌, refl, ap, ◌∙◌, Bool, true, false, not, Option, none, some, [], ◌∷◌, ◌++◌, if◌then◌else◌,
  ◌||◌, ◌&&◌, starts_with, nat_eq, nat_eq_iff, if_split, Text, text_Eq, arith,
}
use mathlib.Core.List.{append_assoc}
use postgres_mcp.Startup.{double_quotes, sql_literal}

abbrev with_char : ℕ → Option (Text × Text) → Option (Text × Text)
with_char c none = none
with_char c (some (value, rest)) = some (c ∷ value, rest)

-- Where a string constant may go on after its closing quote: on the line of the quote, in a
-- comment, or on a later line.
pub data Joining : Type 0 where
  same_line : Joining
  in_comment : Joining
  later_line : Joining

abbrev is_newline : ℕ → Bool
is_newline c = nat_eq c b'\n' || nat_eq c b'\r'

abbrev is_space : ℕ → Bool
is_space c = nat_eq c b' ' || nat_eq c b'\t' || nat_eq c 11 || nat_eq c 12

-- Blanks, newlines and comments up to the character: the state after it, and none where the
-- character is none of these.
abbrev pub joining_step : Joining → ℕ → Text → Option Joining
joining_step same_line c cs =
    if is_newline c
    then some later_line
    else if is_space c
    then some same_line
    else if nat_eq c b'-' && starts_with (b'-' ∷ []) cs
    then some in_comment
    else none
joining_step in_comment c cs = if is_newline c then some later_line else some in_comment
joining_step later_line c cs =
    if is_newline c || is_space c
    then some later_line
    else if nat_eq c b'-' && starts_with (b'-' ∷ []) cs
    then some in_comment
    else none

abbrev pub is_reopened : Joining → ℕ → Bool
is_reopened later_line c = nat_eq c b'\''
is_reopened same_line c = false
is_reopened in_comment c = false

-- SQL joins two string constants that only blanks and comments with a newline separate: whether
-- the text after a closing quote takes the constant on.
unfoldable pub goes_on : Joining → Text → Bool
unfolding starts_with
goes_on q [] = false
goes_on q (c ∷ cs) =
    is_reopened q c || elim (joining_step q c cs) [ none ↦ false | some p ↦ goes_on p cs ]

-- A character of the value, the character after a quote, or the gap before the next part.
pub data Reading : Type 0 where
  inside : Reading
  quoted : Reading
  gap : Joining → Reading

-- How SQL reads a string constant, after its opening quote: the value, and what follows the
-- closing quote. A doubled quote is a quote of the value, and a backslash stands for itself, as it
-- does under `standard_conforming_strings`, the default.
unfoldable pub read_string : Reading → Text → Option (Text × Text)
unfolding goes_on starts_with
read_string inside [] = none
read_string quoted [] = some ([], [])
read_string (gap q) [] = none
read_string inside (c ∷ cs) =
    let more = read_string inside cs in
    let ended = read_string quoted cs in if nat_eq c b'\'' then ended else with_char c more
read_string quoted (c ∷ cs) =
    let more = read_string inside cs in
    let joined : Option (Text × Text) = elim (joining_step same_line c cs) [
      | none ↦ none
      | some q ↦ read_string (gap q) cs
    ] in
    if nat_eq c b'\''
    then with_char c more
    else if goes_on same_line (c ∷ cs)
    then joined
    else some ([], c ∷ cs)
read_string (gap q) (c ∷ cs) =
    let more = read_string inside cs in
    let joined : Option (Text × Text) = elim (joining_step q c cs) [
      | none ↦ none
      | some p ↦ read_string (gap p) cs
    ] in
    if is_reopened q c then more else joined

unfoldable pub read_literal : Text → Option (Text × Text)
read_literal [] = none
read_literal (c ∷ cs) = if nat_eq c b'\'' then read_string inside cs else none

-- The text neither begins with a quote nor takes the constant on.
unfoldable pub is_apart : Text → Bool
unfolding goes_on
is_apart [] = true
is_apart (c ∷ cs) = not (nat_eq c b'\'') && not (goes_on same_line (c ∷ cs))

-- An `if` whose two tests fail.
pub neither :
    {A : Type 0} (a b : Bool) (x y z : A)
    → (not a && not b) ≡ true
    → (if a then x else if b then y else z) ≡ z
neither false false x y z h = refl
neither false true x y z h = ground (arith, h)
neither true b x y z h = ground (arith, h)

read_string-double_quotes :
    (value rest : Text)
    → is_apart rest ≡ true
    → read_string inside (double_quotes value ++ b'\'' ∷ rest) ≡ some (value, rest)
unfolding read_string double_quotes is_apart
read_string-double_quotes [] [] h = refl
read_string-double_quotes [] (c ∷ rest) h =
    neither (nat_eq c b'\'') (goes_on same_line (c ∷ rest)) _ _ _ h
read_string-double_quotes (c ∷ value) rest h =
    let ih = read_string-double_quotes value rest h in
    if_split (λ t. read_string inside (t ++ b'\'' ∷ rest) ≡ some (c ∷ value, rest)) (nat_eq c b'\'')
      (λ e. rw ((nat_eq_iff c b'\'').0 e, ih) refl) (λ e. rw (e, ih) refl)

-- SQL reads the literal of any value, quotes and all, back as that value, and nothing of what
-- follows the literal, if that does not begin with a quote and does not take the constant on over
-- a newline.
pub sql_literal_reads_back :
    (value rest : Text)
    → is_apart rest ≡ true
    → read_literal (sql_literal value ++ rest) ≡ some (value, rest)
unfolding read_literal sql_literal
sql_literal_reads_back value rest h =
    ap (read_string inside) (append_assoc (double_quotes value) (b'\'' ∷ []) rest)
    ∙ read_string-double_quotes value rest h
