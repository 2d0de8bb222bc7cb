-- ===== src/Statements/Pieces.antt =====
-- SQL texts by their parts, and what a scanner that knows the parts does with them: the common
-- ground of the scanners of src/db.rs and src/tools/query.rs.
use mathlib.Core.List.{append_assoc}
use postgres_mcp.Prelude.{
  ℕ, zero, suc, ◌-◌, ◌≡◌, refl, sym, ap, ◌∙◌, Bool, true, false, not, ◌&&◌, ◌||◌, Option, none,
  some, List, [], ◌∷◌, ◌++◌, if◌then◌else◌, if_split, nat_eq, nat_eq_iff, Text, all, starts_with,
  is_ascii_alphanumeric, is_ascii_digit, arith,
}
use postgres_mcp.Statements.{next_is, tag_rest, read_dollar_quote_start}

pub data Piece : Type 0 where
  plain : ℕ → Piece
  single_quoted : Text → Piece
  double_quoted : Text → Piece
  line_commented : Text → Piece
  block_commented : Text → Piece
  dollar_quoted : Text → Text → Piece
  opened : Piece
  closed : Piece
  inner_semicolon : Piece

-- A text before what was read, last character first.
abbrev pub onto : Text → Text → Text
onto [] before = before
onto (c ∷ cs) before = onto cs (c ∷ before)

pub onto-append : (s t before : Text) → onto (s ++ t) before ≡ onto t (onto s before)
onto-append [] t before = refl
onto-append (c ∷ s) t before = onto-append s t (c ∷ before)

abbrev pub doubled : ℕ → Text → Text
doubled q [] = []
doubled q (c ∷ cs) = if nat_eq c q then q ∷ q ∷ doubled q cs else c ∷ doubled q cs

abbrev pub tag_of : Text → Text
tag_of name = b'$' ∷ (name ++ b'$' ∷ [])

-- What a piece is written as, and what the pieces are.
abbrev pub written : Piece → Text
written (plain c) = c ∷ []
written (single_quoted t) = b'\'' ∷ (doubled b'\'' t ++ b'\'' ∷ [])
written (double_quoted t) = b'"' ∷ (doubled b'"' t ++ b'"' ∷ [])
written (line_commented t) = b'-' ∷ b'-' ∷ (t ++ b'\n' ∷ [])
written (block_commented t) = b'/' ∷ b'*' ∷ (t ++ b'*' ∷ b'/' ∷ [])
written (dollar_quoted name t) = tag_of name ++ (t ++ tag_of name)
written opened = b'(' ∷ []
written closed = b')' ∷ []
written inner_semicolon = b';' ∷ []

unfoldable pub written_all : List Piece → Text
written_all [] = []
written_all (p ∷ ps) = written p ++ written_all ps

-- No place in the body, read with what follows it, meets the test.
abbrev pub passes : (Text → Bool) → Text → Text → Bool
passes p [] tail = true
passes p (c ∷ cs) tail = not (p (c ∷ (cs ++ tail))) && passes p cs tail

abbrev pub is_tag_byte : ℕ → Bool
is_tag_byte c = is_ascii_alphanumeric c || nat_eq c b'_'

abbrev pub block_mark : Text → Bool
block_mark s = starts_with (b'/' ∷ b'*' ∷ []) s || starts_with (b'*' ∷ b'/' ∷ []) s

abbrev no_tag : Option Text → Bool
no_tag none = true
no_tag (some t) = false

-- A character that opens nothing where it stands.
abbrev pub is_plain : ℕ → Text → Bool
is_plain c rest =
    not (nat_eq c b'\'')
    && not (nat_eq c b'"')
    && not (nat_eq c b'(')
    && not (nat_eq c b')')
    && not (nat_eq c b';')
    && not (nat_eq c b'-' && next_is b'-' rest)
    && not (nat_eq c b'/' && next_is b'*' rest)
    && no_tag (read_dollar_quote_start (c ∷ rest))

-- A piece ends where it means to, before the given text.
abbrev pub fits_before : Piece → Text → Bool
fits_before (plain c) rest = is_plain c rest
fits_before (single_quoted t) rest = all (λ c. not (nat_eq c b'\\')) t && not (next_is b'\'' rest)
fits_before (double_quoted t) rest = not (next_is b'"' rest)
fits_before (line_commented t) rest = all (λ c. not (nat_eq c b'\n')) t
fits_before (block_commented t) rest = passes block_mark t (b'*' ∷ b'/' ∷ rest)
fits_before (dollar_quoted name t) rest =
    all is_tag_byte name && passes (starts_with (tag_of name)) t (tag_of name ++ rest)
fits_before _ rest = true

-- The parentheses open after a piece; a closing one, or a semicolon inside, needs one open.
abbrev pub depth_after : ℕ → Piece → Option ℕ
depth_after d opened = some (suc d)
depth_after zero closed = none
depth_after (suc d) closed = some d
depth_after zero inner_semicolon = none
depth_after (suc d) inner_semicolon = some (suc d)
depth_after d _ = some d

-- The pieces of one statement before the given text, from a number of parentheses open to none.
unfoldable pub fits : ℕ → List Piece → Text → Bool
unfolding written_all
fits d [] rest = nat_eq d 0
fits d (p ∷ ps) rest =
    fits_before p (written_all ps ++ rest)
    && elim (depth_after d p) [ none ↦ false | some e ↦ fits e ps rest ]

-- A scanner outside of every quote and comment, by the parentheses open, what it has read and what
-- is to come: it goes over each piece that it reads.
pub record Scanner : Type 1 where
  pub R : Type 0
  pub top : ℕ → Text → Text → R
  pub reads : Piece → Bool
  pub over :
      (d e : ℕ) (p : Piece) (before rest : Text)
      → reads p ≡ true
      → fits_before p rest ≡ true
      → depth_after d p ≡ some e
      → top d before (written p ++ rest) ≡ top e (onto (written p) before) rest

-- A scanner goes over the pieces of a statement and is then at no parenthesis.
pub over_all :
    (s : Scanner) (d : ℕ) (ps : List Piece) (before rest : Text)
    → all s.reads ps ≡ true
    → fits d ps rest ≡ true
    → s.top d before (written_all ps ++ rest) ≡ s.top 0 (onto (written_all ps) before) rest
unfolding fits written_all
over_all s d [] before rest r h = ap (λ e. s.top e before rest) ((nat_eq_iff d 0).0 h)
over_all s d (p ∷ ps) before rest r h =
    go (depth_after d p) refl
      (λ e. over_all s e ps (onto (written p) before) rest (ground (arith, r)))
  where
    go :
        (o : Option ℕ)
        → depth_after d p ≡ o
        → ((e : ℕ)
            → fits e ps rest ≡ true
            → s.top e (onto (written p) before) (written_all ps ++ rest)
              ≡ s.top 0 (onto (written_all ps) (onto (written p) before)) rest)
        → s.top d before ((written p ++ written_all ps) ++ rest)
          ≡ s.top 0 (onto (written p ++ written_all ps) before) rest
    go none k ih = ground (arith, h, k)
    go (some e) k ih =
        ap (s.top d before) (append_assoc (written p) (written_all ps) rest)
        ∙ s.over d e p before (written_all ps ++ rest) (ground (arith, r)) (ground (arith, h)) k
        ∙ ih e (ground (arith, h, k))
        ∙ ap (λ t. s.top 0 t rest) (sym (onto-append (written p) (written_all ps) before))

-- A loop inside a quote, which a doubled quote keeps open: f is the loop, g what follows it.
module _ {R : Type 0} (f g : Text → Text → R) (q : ℕ) (clean : ℕ → Bool)
    (pair : (before s : Text) → f before (q ∷ q ∷ s) ≡ f (q ∷ q ∷ before) s)
    (other : (before : Text) (c : ℕ) (s : Text)
      → nat_eq c q ≡ false
      → clean c ≡ true
      → f before (c ∷ s) ≡ f (c ∷ before) s)
    (shut : (before s : Text) → next_is q s ≡ false → f before (q ∷ s) ≡ g (q ∷ before) s) where
  pub quoted-body :
      (t before rest : Text)
      → all clean t ≡ true
      → next_is q rest ≡ false
      → f before ((doubled q t ++ q ∷ []) ++ rest) ≡ g (onto (doubled q t ++ q ∷ []) before) rest
  quoted-body [] before rest h k = shut before rest k
  quoted-body (c ∷ t) before rest h k =
      if_split (λ x. f before ((x ++ q ∷ []) ++ rest) ≡ g (onto (x ++ q ∷ []) before) rest)
        (nat_eq c q)
        (λ e.
          pair before ((doubled q t ++ q ∷ []) ++ rest)
          ∙ quoted-body t (q ∷ q ∷ before) rest (ground (arith, h)) k)
        (λ e.
          other before c ((doubled q t ++ q ∷ []) ++ rest) e (ground (arith, h))
          ∙ quoted-body t (c ∷ before) rest (ground (arith, h)) k)

-- A loop that the first closer ends: f is the loop, g what follows it.
module _ {R : Type 0} (f g : Text → Text → R) (closer : Text) (p : Text → Bool)
    (on : (before : Text) (c : ℕ) (s : Text)
      → p (c ∷ s) ≡ false
      → f before (c ∷ s) ≡ f (c ∷ before) s)
    (shut : (before s : Text) → f before (closer ++ s) ≡ g (onto closer before) s) where
  pub closed-body :
      (t before rest : Text)
      → passes p t (closer ++ rest) ≡ true
      → f before ((t ++ closer) ++ rest) ≡ g (onto (t ++ closer) before) rest
  closed-body [] before rest h = shut before rest
  closed-body (c ∷ t) before rest h =
      ap (λ s. f before (c ∷ s)) (append_assoc t closer rest)
      ∙ on before c (t ++ (closer ++ rest)) (ground (arith, h))
      ∙ ap (f (c ∷ before)) (sym (append_assoc t closer rest))
      ∙ closed-body t (c ∷ before) rest (ground (arith, h))

-- The tag that a dollar quote opens with is read off it.
tag_rest-append :
    (name rest : Text)
    → all is_tag_byte name ≡ true
    → tag_rest ((name ++ b'$' ∷ []) ++ rest) ≡ some (name ++ b'$' ∷ [])
unfolding is_ascii_alphanumeric is_ascii_digit
tag_rest-append [] rest h = refl
tag_rest-append (c ∷ name) rest h = ground (arith, h, tag_rest-append name rest (ground (arith, h)))

pub read-tag :
    (name rest : Text)
    → all is_tag_byte name ≡ true
    → read_dollar_quote_start (tag_of name ++ rest) ≡ some (tag_of name)
unfolding read_dollar_quote_start
read-tag name rest h = rw (tag_rest-append name rest h) refl

pub starts_with-append : (t rest : Text) → starts_with t (t ++ rest) ≡ true
unfolding starts_with
starts_with-append [] rest = refl
starts_with-append (c ∷ t) rest = ground (arith, starts_with-append t rest)

pub all-true {ℓ} : {A : Type ℓ} (t : List A) → all (λ c. true) t ≡ true
all-true [] = refl
all-true (c ∷ t) = all-true t

-- What the tests of the closers say of a single character.
pub no_newline :
    (c : ℕ) (s : Text) → starts_with (b'\n' ∷ []) (c ∷ s) ≡ false → nat_eq c b'\n' ≡ false
unfolding starts_with
no_newline c s h = ground (arith, h)

pub newline-passes :
    (t rest : Text)
    → all (λ c. not (nat_eq c b'\n')) t ≡ true
    → passes (starts_with (b'\n' ∷ [])) t (b'\n' ∷ rest) ≡ true
unfolding starts_with
newline-passes [] rest h = refl
newline-passes (c ∷ t) rest h = ground (arith, h, newline-passes t rest (ground (arith, h)))

pub block_mark-false :
    (c : ℕ) (s : Text)
    → block_mark (c ∷ s) ≡ false
    → ((nat_eq c b'/' && next_is b'*' s) ≡ false) × ((nat_eq c b'*' && next_is b'/' s) ≡ false)
unfolding starts_with
block_mark-false c [] h = (ground (arith), ground (arith))
block_mark-false c (b ∷ s) h = (ground (arith, h), ground (arith, h))

pub suc-sub : (n : ℕ) → suc n - 1 ≡ n
suc-sub n = omega arith
