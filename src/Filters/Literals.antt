-- ===== src/Filters/Literals.antt =====
-- The escape-string literals in which src/tools.rs writes a pattern.
use postgres_mcp.Prelude.{
  ℕ, ◌≡◌, refl, ap, ◌∙◌, true, false, ◌||◌, Option, none, some, [], ◌∷◌, ◌++◌, if◌then◌else◌,
  if_split, nat_eq, starts_with, Text, arith,
}
use mathlib.Core.List.{append_assoc}
use postgres_mcp.Startup.Literals.{
  Joining, same_line, joining_step, is_reopened, goes_on, is_apart, neither,
}
use postgres_mcp.Filters.{escape_e_literal, sql_quote_e_literal}

abbrev with_char : ℕ → Option (Text × Text) → Option (Text × Text)
with_char c none = none
with_char c (some (value, rest)) = some (c ∷ value, rest)

pub data Mode : Type 0 where
  plain : Mode
  after_backslash : Mode
  after_quote : Mode
  gap : Joining → Mode

-- How SQL reads an escape string after its opening quote: the value, and what follows the closing
-- quote. A backslash stands before a backslash or a quote; the escapes of other characters are
-- not read. Constants that only blanks and comments with a newline separate are one.
read_e_string : Mode → Text → Option (Text × Text)
unfolding goes_on starts_with
read_e_string after_quote [] = some ([], [])
read_e_string (gap q) [] = none
read_e_string plain [] = none
read_e_string after_backslash [] = none
read_e_string after_quote (c ∷ cs) =
    let more = read_e_string plain cs in
    let joined : Option (Text × Text) = elim (joining_step same_line c cs) [
      | none ↦ none
      | some q ↦ read_e_string (gap q) cs
    ] in
    if nat_eq c b'\''
    then with_char c more
    else if goes_on same_line (c ∷ cs)
    then joined
    else some ([], c ∷ cs)
read_e_string (gap q) (c ∷ cs) =
    let more = read_e_string plain cs in
    let joined : Option (Text × Text) = elim (joining_step q c cs) [
      | none ↦ none
      | some p ↦ read_e_string (gap p) cs
    ] in
    if is_reopened q c then more else joined
read_e_string plain (c ∷ cs) =
    let more = read_e_string plain cs in
    let escaped = read_e_string after_backslash cs in
    let closed = read_e_string after_quote cs in
    if nat_eq c b'\\' then escaped else if nat_eq c b'\'' then closed else with_char c more
read_e_string after_backslash (c ∷ cs) =
    let more = read_e_string plain cs in
    if nat_eq c b'\\' || nat_eq c b'\'' then with_char c more else none

unfoldable pub read_e_literal : Text → Option (Text × Text)
unfolding read_e_string
read_e_literal [] = none
read_e_literal (c ∷ []) = none
read_e_literal (c ∷ d ∷ cs) =
    if nat_eq c b'E' then (if nat_eq d b'\'' then read_e_string plain cs else none) else none

read-escaped :
    (value rest : Text)
    → is_apart rest ≡ true
    → read_e_string plain (escape_e_literal value ++ b'\'' ∷ rest) ≡ some (value, rest)
unfolding read_e_string escape_e_literal is_apart
read-escaped [] [] h = refl
read-escaped [] (c ∷ rest) h = neither (nat_eq c b'\'') (goes_on same_line (c ∷ rest)) _ _ _ h
read-escaped (c ∷ value) rest h =
    let ih = read-escaped value rest h in
    if_split (λ t. read_e_string plain (t ++ b'\'' ∷ rest) ≡ some (c ∷ value, rest))
      (nat_eq c b'\\' || nat_eq c b'\'') (λ e. rw (e, ih) refl) (λ e. apart (or_false e) ih)
  where
    X : Text
    X = escape_e_literal value ++ b'\'' ∷ rest

    or_false :
        (nat_eq c b'\\' || nat_eq c b'\'') ≡ false
        → (nat_eq c b'\\' ≡ false) × (nat_eq c b'\'' ≡ false)
    or_false e = ground (arith, e)

    apart :
        (nat_eq c b'\\' ≡ false) × (nat_eq c b'\'' ≡ false)
        → read_e_string plain X ≡ some (value, rest)
        → read_e_string plain (c ∷ X) ≡ some (c ∷ value, rest)
    apart e ih = rw (e.0, e.1, ih) refl

-- SQL reads the escape string of any pattern, quotes and backslashes and all, back as that
-- pattern, and nothing of what follows it, if that does not begin with a quote and does not take
-- the constant on over a newline.
pub e_literal_reads_back :
    (value rest : Text)
    → is_apart rest ≡ true
    → read_e_literal (sql_quote_e_literal value ++ rest) ≡ some (value, rest)
unfolding read_e_literal sql_quote_e_literal
e_literal_reads_back value rest h =
    ap (read_e_string plain) (append_assoc (escape_e_literal value) (b'\'' ∷ []) rest)
    ∙ read-escaped value rest h
