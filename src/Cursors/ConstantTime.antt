-- ===== src/Cursors/ConstantTime.antt =====
-- `constant_time_eq` of src/tools.rs.
use Prim.Native.Nat.{bit_or, bit_xor, digits, differ, bit_or-bitwise, bit_xor-bitwise}
use postgres_mcp.Prelude.{
  ℕ, zero, suc, ◌/◌, ◌%◌, ◌≤◌, max, ◌≡◌, refl, ap, ◌∙◌, sym, ◌↔◌, true, [], ◌∷◌, Text, length,
  arith,
}
use postgres_mcp.Cursors.{differences, constant_time_eq}

or_digits : (n a b : ℕ) → a ≤ n → digits (λ b. b) max n a b ≡ 0 → (a ≡ 0) × (b ≡ 0)
or_digits zero zero b h e = (refl, e)
or_digits zero (suc a) b h e = absurd (omega arith)
or_digits (suc n) zero b h e = (refl, e)
or_digits (suc n) (suc a) b h e =
    let half = or_digits n (suc a / 2) (b / 2) (omega arith) (omega (arith, e)) in
    (ground (arith, e, half), ground (arith, e, half))

differ_zero : (a b : ℕ) → differ a b ≡ 0 → a ≡ b
differ_zero zero b e = sym e
differ_zero (suc a) zero e = e
differ_zero (suc a) (suc b) e = ap suc (differ_zero a b e)

differ_same : (a : ℕ) → differ a a ≡ 0
differ_same zero = refl
differ_same (suc a) = differ_same a

xor_digits : (n a b : ℕ) → a ≤ n → digits (λ b. b) differ n a b ≡ 0 → a ≡ b
xor_digits zero zero b h e = sym e
xor_digits zero (suc a) b h e = absurd (omega arith)
xor_digits (suc n) zero b h e = sym e
xor_digits (suc n) (suc a) b h e =
    let half = xor_digits n (suc a / 2) (b / 2) (omega arith) (omega (arith, e)) in
    let low = differ_zero (suc a % 2) (b % 2) (omega (arith, e)) in omega (arith, half, low)

xor_digits_same : (n a : ℕ) → a ≤ n → digits (λ b. b) differ n a a ≡ 0
xor_digits_same zero zero h = refl
xor_digits_same zero (suc a) h = absurd (omega arith)
xor_digits_same (suc n) zero h = refl
xor_digits_same (suc n) (suc a) h =
    omega (arith, xor_digits_same n (suc a / 2) (omega arith), differ_same (suc a % 2))

bit_or_zero : (a b : ℕ) → bit_or a b ≡ 0 → (a ≡ 0) × (b ≡ 0)
bit_or_zero a b e = or_digits a a b (omega arith) (sym (bit_or-bitwise a b) ∙ e)

bit_xor_zero : (a b : ℕ) → bit_xor a b ≡ 0 → a ≡ b
bit_xor_zero a b e = xor_digits a a b (omega arith) (sym (bit_xor-bitwise a b) ∙ e)

bit_xor_same : (a : ℕ) → bit_xor a a ≡ 0
bit_xor_same a = bit_xor-bitwise a a ∙ xor_digits_same a a (omega arith)

differences_same : (xs : Text) → differences 0 xs xs ≡ 0
unfolding differences
differences_same [] = refl
differences_same (x ∷ xs) =
    ap (λ t. differences (bit_or 0 t) xs xs) (bit_xor_same x) ∙ differences_same xs

-- The difference that the loop ends with is 0 only when it began with 0 and no two bytes differ.
differences_zero :
    (diff : ℕ) (xs ys : Text)
    → length xs ≡ length ys
    → differences diff xs ys ≡ 0
    → (diff ≡ 0) × (xs ≡ ys)
unfolding differences
differences_zero diff [] [] h e = (e, refl)
differences_zero diff [] (y ∷ ys) h e = absurd (omega (arith, h))
differences_zero diff (x ∷ xs) [] h e = absurd (omega (arith, h))
differences_zero diff (x ∷ xs) (y ∷ ys) h e =
    let rest = differences_zero (bit_or diff (bit_xor x y)) xs ys (omega (arith, h)) e in
    let head = bit_or_zero diff (bit_xor x y) rest.0 in
    (head.0, rw (bit_xor_zero x y head.1, rest.1) refl)

-- The comparison that looks at every byte decides equality: it holds exactly of two equal texts.
pub constant_time_eq_iff :
    (left right : Text) → (constant_time_eq left right ≡ true) ↔ (left ≡ right)
unfolding constant_time_eq
constant_time_eq_iff left right = (sound, λ same. rw (← same) complete)
  where
    sound : constant_time_eq left right ≡ true → left ≡ right
    sound e = (differences_zero 0 left right (ground (arith, e)) (ground (arith, e))).1

    complete : constant_time_eq left left ≡ true
    complete = ground (arith, differences_same left)
