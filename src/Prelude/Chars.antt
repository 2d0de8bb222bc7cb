-- ===== src/Prelude/Chars.antt =====
-- What the source uses of Rust's `char` and `str`: a text is the list of its code points.
use Prim.Native.Nat.{ℕ, ◌+◌, ◌-◌, ◌*◌, ◌<◌}
use mathlib.Core.Path.{◌≡◌}
use mathlib.Core.Bool.{Bool, true, false, ◌&&◌, ◌||◌}
use mathlib.Core.List.{List, [], ◌∷◌, map, reverse}
use mathlib.Core.Option.{Option, none, some}
use native.Mathlib.Omega.{arith}
use postgres_mcp.Prelude.Tests.{ltb, leb, nat_eq, if◌then◌else◌}
use postgres_mcp.Prelude.Lists.{Text}

abbrev pub within : ℕ → ℕ → ℕ → Bool
within lo hi c = leb lo c && leb c hi

-- `char::is_whitespace`: the code points with the property White_Space.
unfoldable pub is_whitespace : ℕ → Bool
is_whitespace c =
    within 9 13 c
    || nat_eq c 32
    || nat_eq c 133
    || nat_eq c 160
    || nat_eq c 5760
    || within 8192 8202 c
    || nat_eq c 8232
    || nat_eq c 8233
    || nat_eq c 8239
    || nat_eq c 8287
    || nat_eq c 12288

-- `u8::is_ascii_whitespace`: space, tab, line feed, form feed and carriage return.
unfoldable pub is_ascii_whitespace : ℕ → Bool
is_ascii_whitespace c = nat_eq c 32 || nat_eq c 9 || nat_eq c 10 || nat_eq c 12 || nat_eq c 13

unfoldable pub is_ascii_digit : ℕ → Bool
is_ascii_digit c = within b'0' b'9' c

unfoldable pub is_ascii_alphanumeric : ℕ → Bool
unfolding is_ascii_digit
is_ascii_alphanumeric c = is_ascii_digit c || within b'A' b'Z' c || within b'a' b'z' c

unfoldable pub to_ascii_lower : ℕ → ℕ
to_ascii_lower c = if within b'A' b'Z' c then c + 32 else c

unfoldable pub to_ascii_upper : ℕ → ℕ
to_ascii_upper c = if within b'a' b'z' c then c - 32 else c

unfoldable pub to_ascii_lowercase : Text → Text
unfolding to_ascii_lower
to_ascii_lowercase = map to_ascii_lower

unfoldable pub to_ascii_uppercase : Text → Text
unfolding to_ascii_upper
to_ascii_uppercase = map to_ascii_upper

unfoldable pub trim_start : Text → Text
unfolding is_whitespace
trim_start [] = []
trim_start (c ∷ cs) = let rest = trim_start cs in if is_whitespace c then rest else c ∷ cs

unfoldable pub trim_end : Text → Text
unfolding trim_start
trim_end s = reverse (trim_start (reverse s))

unfoldable pub trim : Text → Text
unfolding trim_end trim_start
trim s = trim_end (trim_start s)

-- `char::len_utf8`, and `str::len` as the sum.
unfoldable pub len_utf8 : ℕ → ℕ
len_utf8 c = if ltb c 128 then 1 else if ltb c 2048 then 2 else if ltb c 65536 then 3 else 4

unfoldable pub byte_len : Text → ℕ
unfolding len_utf8
byte_len [] = 0
byte_len (c ∷ cs) = len_utf8 c + byte_len cs

unfoldable pub is_empty {ℓ} : {A : Type ℓ} → List A → Bool
is_empty [] = true
is_empty (x ∷ xs) = false

-- `str::parse` at an unsigned type whose values lie below the limit: an optional `+`, at least
-- one digit, and no overflow.
unfoldable pub parse_digits : ℕ → ℕ → Text → Option ℕ
unfolding is_ascii_digit
parse_digits limit acc [] = some acc
parse_digits limit acc (c ∷ cs) =
    let next : ℕ = acc * 10 + (c - b'0') in
    let rest = parse_digits limit next cs in
    if is_ascii_digit c && ltb next limit then rest else none

abbrev pub drop_plus : Text → Text
drop_plus [] = []
drop_plus (c ∷ cs) = if nat_eq c b'+' then cs else c ∷ cs

unfoldable pub parse_unsigned : ℕ → Text → Option ℕ
unfolding parse_digits is_empty
parse_unsigned limit s =
    let digits = drop_plus s in if is_empty digits then none else parse_digits limit 0 digits

parse_digits-lt :
    (limit acc : ℕ) (s : Text) (n : ℕ) → acc < limit → parse_digits limit acc s ≡ some n → n < limit
unfolding parse_digits
parse_digits-lt limit acc [] n h e = ground arith
parse_digits-lt limit acc (c ∷ cs) n h e =
    ground (arith, parse_digits-lt limit (acc * 10 + (c - b'0')) cs n)

pub parse_unsigned-lt :
    (limit : ℕ) (s : Text) (n : ℕ) → 0 < limit → parse_unsigned limit s ≡ some n → n < limit
unfolding parse_unsigned
parse_unsigned-lt limit s n h e = ground (arith, parse_digits-lt limit 0 (drop_plus s) n)
