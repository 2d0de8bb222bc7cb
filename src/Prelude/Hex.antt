-- ===== src/Prelude/Hex.antt =====
-- `{:016x}` and the like: a number below 16 ^ w in w hexadecimal digits.
use Prim.Native.Nat.{ℕ, zero, suc, ◌+◌, ◌-◌, ◌*◌, ◌/◌, ◌%◌, ◌<◌}
use mathlib.Core.Path.{◌≡◌, ap, sym, ◌∙◌}
use mathlib.Core.List.{[], ◌∷◌, reverse, reverse-reverse}
use native.Mathlib.Omega.{arith}
use postgres_mcp.Prelude.Tests.{ltb, if◌then◌else◌}
use postgres_mcp.Prelude.Lists.{Text}

unfoldable pub hex_digit : ℕ → ℕ
hex_digit d = if ltb d 10 then b'0' + d else b'a' + (d - 10)

-- The digits, the last one first.
hex_reversed : ℕ → ℕ → Text
hex_reversed zero n = []
hex_reversed (suc w) n = hex_digit (n % 16) ∷ hex_reversed w (n / 16)

unfoldable pub hex_padded : ℕ → ℕ → Text
unfolding hex_reversed hex_digit
hex_padded w n = reverse (hex_reversed w n)

hex_digit-injective : (a b : ℕ) → a < 16 → b < 16 → hex_digit a ≡ hex_digit b → a ≡ b
unfolding hex_digit
hex_digit-injective a b h k e = ground arith

abbrev head_or : ℕ → Text → ℕ
head_or d [] = d
head_or d (c ∷ cs) = c

abbrev tail_of : Text → Text
tail_of [] = []
tail_of (c ∷ cs) = cs

-- The reach of w hexadecimal digits, `16 ^ w`.
abbrev pub hex_limit : ℕ → ℕ
hex_limit zero = 1
hex_limit (suc w) = 16 * hex_limit w

hex_reversed-injective :
    (w a b : ℕ) → a < hex_limit w → b < hex_limit w → hex_reversed w a ≡ hex_reversed w b → a ≡ b
unfolding hex_reversed
hex_reversed-injective zero a b h k e = omega arith
hex_reversed-injective (suc w) a b h k e = omega (
  arith,
  hex_digit-injective (a % 16) (b % 16) (omega arith) (omega arith) (ap (head_or 0) e),
  hex_reversed-injective w (a / 16) (b / 16) (omega arith) (omega arith) (ap tail_of e),
)

-- Different numbers have different texts.
pub hex_padded-injective :
    (w a b : ℕ) → a < hex_limit w → b < hex_limit w → hex_padded w a ≡ hex_padded w b → a ≡ b
unfolding hex_padded
hex_padded-injective w a b h k e =
    hex_reversed-injective w a b h k
      (sym (reverse-reverse (hex_reversed w a)) ∙ ap reverse e ∙ reverse-reverse (hex_reversed w b))
