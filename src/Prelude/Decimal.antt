-- ===== src/Prelude/Decimal.antt =====
-- `{}` of an unsigned integer: its decimal digits, and their way back.
use Prim.Native.Nat.{ℕ, zero, suc, ◌+◌, ◌/◌, ◌%◌, ◌<◌}
use mathlib.Core.Path.{◌≡◌, refl, ◌∙◌}
use mathlib.Core.Bool.{Bool, true, false}
use mathlib.Core.List.{[], ◌∷◌}
use mathlib.Core.Option.{some}
use native.Mathlib.Omega.{arith}
use postgres_mcp.Prelude.Tests.{ltb, if◌then◌else◌, if_split}
use postgres_mcp.Prelude.Lists.{Text, all}
use postgres_mcp.Prelude.Chars.{is_ascii_digit, is_empty, drop_plus, parse_digits, parse_unsigned}

-- The digits of n before the given text; one round for each digit, so that n + 1 rounds are enough.
digits : ℕ → ℕ → Text → Text
digits zero n s = s
digits (suc f) n s =
    let more = digits f (n / 10) ((b'0' + n % 10) ∷ s) in
    if ltb n 10 then (b'0' + n % 10) ∷ s else more

unfoldable pub decimal : ℕ → Text
unfolding digits
decimal n = digits (n + 1) n []

parse_digits-digits :
    (limit f n : ℕ) (s : Text)
    → n < f
    → n < limit
    → parse_digits limit 0 (digits f n s) ≡ parse_digits limit n s
unfolding digits parse_digits is_ascii_digit
parse_digits-digits limit zero n s h k = absurd (omega arith)
parse_digits-digits limit (suc f) n s h k =
    if_split (λ t. parse_digits limit 0 t ≡ parse_digits limit n s) (ltb n 10)
      (λ e. ground (arith, e))
      (λ e.
        parse_digits-digits limit f (n / 10) ((b'0' + n % 10) ∷ s) (ground (arith, e))
          (ground (arith, e))
        ∙ ground (arith, e))

-- Every digit is one, and the text before the digits stays.
all-digits :
    (p : ℕ → Bool) (f n : ℕ) (s : Text)
    → ((c : ℕ) → is_ascii_digit c ≡ true → p c ≡ true)
    → all p s ≡ true
    → all p (digits f n s) ≡ true
unfolding digits is_ascii_digit
all-digits p zero n s h k = k
all-digits p (suc f) n s h k =
    if_split (λ t. all p t ≡ true) (ltb n 10) (λ e. ground (arith, e, h (b'0' + n % 10), k))
      (λ e. all-digits p f (n / 10) ((b'0' + n % 10) ∷ s) h (ground (arith, h (b'0' + n % 10), k)))

-- A property of every digit holds of every character of a decimal number.
pub all-decimal :
    (p : ℕ → Bool) (n : ℕ)
    → ((c : ℕ) → is_ascii_digit c ≡ true → p c ≡ true)
    → all p (decimal n) ≡ true
unfolding decimal
all-decimal p n h = all-digits p (n + 1) n [] h refl

digits_head :
    (f n : ℕ) (s : Text)
    → n < f
    → (is_empty (digits f n s) ≡ false) × (drop_plus (digits f n s) ≡ digits f n s)
unfolding digits is_empty
digits_head zero n s h = absurd (omega arith)
digits_head (suc f) n s h =
    if_split (λ t. (is_empty t ≡ false) × (drop_plus t ≡ t)) (ltb n 10)
      (λ e. (refl, ground (arith, e)))
      (λ e. digits_head f (n / 10) ((b'0' + n % 10) ∷ s) (ground (arith, e)))

-- A number below the limit parses back from its digits.
pub parse_unsigned-decimal : (limit n : ℕ) → n < limit → parse_unsigned limit (decimal n) ≡ some n
unfolding parse_unsigned decimal parse_digits
parse_unsigned-decimal limit n h =
    let head = digits_head (n + 1) n [] (omega arith) in
    ground (arith, head.0, head.1, parse_digits-digits limit (n + 1) n [] (omega arith) h)
