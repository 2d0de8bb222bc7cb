-- ===== src/Prelude/Lists.antt =====
-- Lists measured and indexed by the native numbers, under the library's names.
use Prim.Native.Nat.{ℕ, zero, suc, ◌+◌, ◌-◌, ◌≤◌, min}
use Prim.Native.Char.{code}
use Prim.Native.String.{String}
use mathlib.Core.Path.{◌≡◌, refl, subst}
use mathlib.Core.Logic.{inl, inr}
use mathlib.Core.Bool.{Bool, true, false, ◌||◌, ◌&&◌}
use mathlib.Core.List.{List, [], ◌∷◌, ◌++◌}
use mathlib.Core.Option.{Option, some, none}
use native.Mathlib.Omega.{arith}
use postgres_mcp.Prelude.Tests.{if◌then◌else◌, Eq, ◌==◌, Bool-cases, Option-cases}

abbrev pub Text : Type 0
Text = List ℕ

-- The bytes of an ASCII literal.
abbrev pub codes : String → Text
codes String.[] = []
codes (String.◌∷◌ c s) = code c ∷ codes s

module _ {ℓ} {A : Type ℓ} where
  abbrev pub length : List A → ℕ
  length [] = 0
  length (x ∷ xs) = suc (length xs)

  pub length-append : (xs ys : List A) → length (xs ++ ys) ≡ length xs + length ys
  length-append [] ys = omega arith
  length-append (x ∷ xs) ys = omega (arith, length-append xs ys)

  -- `retain` and `filter`.
  abbrev pub filter : (A → Bool) → List A → List A
  filter p [] = []
  filter p (x ∷ xs) = let rest = filter p xs in if p x then x ∷ rest else rest

  pub length-filter-le : (p : A → Bool) (xs : List A) → length (filter p xs) ≤ length xs
  length-filter-le p [] = omega arith
  length-filter-le p (x ∷ xs) = ground (arith, length-filter-le p xs)

  -- `iter().any(..)` and `iter().all(..)`
  abbrev pub any : (A → Bool) → List A → Bool
  any p [] = false
  any p (x ∷ xs) = p x || any p xs

  abbrev pub all : (A → Bool) → List A → Bool
  all p [] = true
  all p (x ∷ xs) = p x && all p xs

  abbrev pub take : ℕ → List A → List A
  take zero xs = []
  take (suc n) [] = []
  take (suc n) (x ∷ xs) = x ∷ take n xs

  pub length-take : (n : ℕ) (xs : List A) → length (take n xs) ≡ min n (length xs)
  length-take zero xs = omega arith
  length-take (suc n) [] = omega arith
  length-take (suc n) (x ∷ xs) = omega (arith, length-take n xs)

module _ {ℓ} {A : Type ℓ} ⦃e : Eq A⦄ where
  abbrev pub elem : A → List A → Bool
  elem a [] = false
  elem a (x ∷ xs) = (x == a) || elem a xs

-- A predicate of every element.
abbrev pub All {ℓ κ} : {A : Type ℓ} → (A → Type κ) → List A → Type κ
All P [] = Unit
All P (x ∷ xs) = P x × All P xs

-- An element is one of the listed ones, or its test of membership fails.
pub elem_elim {ℓ κ} :
    {A : Type ℓ} ⦃e : Eq A⦄ (P : A → Type κ) (a : A) (xs : List A)
    → (elem a xs ≡ false → P a)
    → All P xs
    → P a
elem_elim P a [] f h = f refl
elem_elim ⦃e⦄ P a (x ∷ xs) f h = elim (Bool-cases (x == a)) [
  | inl same ↦ subst P ((e.decides x a).0 same) h.0
  | inr other ↦ elem_elim P a xs (λ g. f (rw (other, g))) h.1
]

module _ {ℓ} {A : Type ℓ} where
  abbrev pub drop : ℕ → List A → List A
  drop zero xs = xs
  drop (suc n) [] = []
  drop (suc n) (x ∷ xs) = drop n xs

  pub length-drop : (n : ℕ) (xs : List A) → length (drop n xs) ≡ length xs - n
  length-drop zero xs = omega arith
  length-drop (suc n) [] = omega arith
  length-drop (suc n) (x ∷ xs) = omega (arith, length-drop n xs)

-- The element at an index, and the list without it.
abbrev pub take_at {ℓ} : {A : Type ℓ} → ℕ → List A → Option (A × List A)
take_at n [] = none
take_at zero (x ∷ xs) = some (x, xs)
take_at (suc n) (x ∷ xs) = elim (take_at n xs) [ none ↦ none | some (y, rest) ↦ some (y, x ∷ rest) ]

pub take_at-All {ℓ} :
    {A : Type ℓ} (P : A → Type ℓ) (n : ℕ) (xs : List A) (x : A) (rest : List A)
    → take_at n xs ≡ some (x, rest)
    → All P xs
    → P x × All P rest
take_at-All P n [] x rest h v = absurd (cc)
take_at-All P zero (y ∷ ys) x rest h v =
    let at_head : (y ≡ x) × (ys ≡ rest) = ground (arith, h) in
    (subst P at_head.0 v.0, subst (All P) at_head.1 v.1)
take_at-All P (suc n) (y ∷ ys) x rest h v = elim (Option-cases (take_at n ys)) [
  | inl e ↦ absurd (ground (arith, e, h))
  | inr ((z, more), e) ↦
      let same : (z ≡ x) × (y ∷ more ≡ rest) = ground (arith, e, h) in
      let tail = take_at-All P n ys z more e v.1 in
      (subst P same.0 tail.0, subst (All P) same.1 (v.0, tail.1))
]

pub All-map {ℓ κ μ} :
    {A : Type ℓ} {P : A → Type κ} {Q : A → Type μ}
    → ((x : A) → P x → Q x)
    → (xs : List A) → All P xs
    → All Q xs
All-map f [] h = tt
All-map f (x ∷ xs) h = (f x h.0, All-map f xs h.1)
