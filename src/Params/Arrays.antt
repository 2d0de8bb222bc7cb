-- ===== src/Params/Arrays.antt =====
-- Lists of bound parameters of src/db.rs: their ranges, their lengths, and the nulls in arrays.
use postgres_mcp.Prelude.{
  ℕ, suc, ◌+◌, ◌≡◌, refl, sym, Bool, true, false, Option, none, some, List, [], ◌∷◌, ltb, Text,
  length, all, ℤ, pos, negsuc, Value, null, bool, num, str, arr, obj, Fields, entries, arith,
}
use postgres_mcp.Params.{
  BoundQueryParamKind, bool_kind, int8_kind, float8_kind, text_kind, jsonb_kind, bool_array_kind,
  int8_array_kind, float8_array_kind, text_array_kind, jsonb_array_kind, BoundQueryParam,
  int8_param, float8_param, jsonb_param, int8_array_param, float8_array_param, DbResult, ok,
  invalid, and_then, then_ok, collect, items_of, array_element_error,
  explicit_bound_query_wrapper_parts, i64_limit,
}
use postgres_mcp.Params.Parse.{
  parse_explicit_i64, parse_explicit_f64, i64_element, f64_element, parse_i64_array,
  parse_f64_array, parse_explicit_bound_query_param, parse_raw_bound_query_param_array,
  number_param, parse_bound_query_param, parse_bound_query_params,
}

-- A property of every element that is there.
abbrev pub when_some {ℓ} : {A : Type ℓ} → (A → Bool) → Option A → Bool
when_some p none = true
when_some p (some x) = p x

pub then_ok_ok {ℓ κ} :
    {A : Type ℓ} {B : Type κ} (f : A → B) (d : DbResult A) (b : B)
    → then_ok f d ≡ ok b
    → (a : A) × (d ≡ ok a) × (b ≡ f a)
then_ok_ok f (ok a) b e = (a, refl, cc)
then_ok_ok f (invalid m) b e = cc

ok_of {ℓ} : {A : Type ℓ} {a b : A} → ok a ≡ ok b → a ≡ b
ok_of e = cc

collect-cons {κ} :
    {B : Type κ} (first : DbResult B) (rest : DbResult (List B)) (ys : List B)
    → and_then first (λ y. then_ok (λ zs. y ∷ zs) rest) ≡ ok ys
    → (y : B) × (zs : List B) × (first ≡ ok y) × (rest ≡ ok zs) × (ys ≡ y ∷ zs)
collect-cons (ok y) (ok zs) ys e = (y, zs, refl, refl, sym (ok_of e))
collect-cons (ok y) (invalid m) ys e = cc
collect-cons (invalid m) rest ys e = cc

pub collect-all {ℓ κ} :
    {A : Type ℓ} {B : Type κ} (q : B → Bool) (f : ℕ → A → DbResult B) (i : ℕ) (xs : List A)
    (ys : List B)
    → ((j : ℕ) (x : A) (y : B) → f j x ≡ ok y → q y ≡ true)
    → collect f i xs ≡ ok ys
    → (all q ys ≡ true) × (length ys ≡ length xs)
unfolding collect
collect-all q f i [] ys h e = rw (← ok_of e) (refl, refl)
collect-all q f i (x ∷ xs) ys h e =
    let found = collect-cons (f i x) (collect f (suc i) xs) ys e in
    let rest = collect-all q f (suc i) xs found.1 h found.3 in
    rw (found.4, h i x found.0 found.2, rest.0, rest.1) (refl, refl)

-- The values of the 64-bit type.
abbrev pub in_i64 : ℤ → Bool
in_i64 (pos n) = ltb n i64_limit
in_i64 (negsuc n) = ltb n i64_limit

module _ {F : Type 0} (as_i64 : Text → Option ℤ) (as_u64 : Text → Option ℕ)
    (as_f64 : Text → Option F) (is_finite : F → Bool) where
  -- An integer fits 64 bits, a float is finite, and so are those in arrays.
  abbrev pub in_range : BoundQueryParam F → Bool
  in_range (int8_param n) = when_some in_i64 n
  in_range (float8_param x) = when_some is_finite x
  in_range (int8_array_param ns) = when_some (all (when_some in_i64)) ns
  in_range (float8_array_param xs) = when_some (all (when_some is_finite)) xs
  in_range _ = true

  module _ (i64_fits : (t : Text) (n : ℤ) → as_i64 t ≡ some n → in_i64 n ≡ true) where
    i64-range :
        (t : Text) (position : ℕ) (n : ℤ)
        → parse_explicit_i64 as_i64 as_u64 as_f64 is_finite t position ≡ ok n
        → in_i64 n ≡ true
    unfolding parse_explicit_i64
    i64-range t position n e = ground (arith, e, i64_fits t n)

    i64_element-range :
        (position : ℕ) (nulls : Bool) (j : ℕ) (v : Value) (n : Option ℤ)
        → i64_element as_i64 as_u64 as_f64 is_finite position nulls j v ≡ ok n
        → when_some in_i64 n ≡ true
    unfolding i64_element array_element_error
    i64_element-range position nulls j v none e = refl
    i64_element-range position nulls j null (some m) e = ground (arith, e)
    i64_element-range position nulls j (bool b) (some m) e = ground (arith, e)
    i64_element-range position nulls j (num t) (some m) e =
        ground (arith, e, i64-range t position m)
    i64_element-range position nulls j (str s) (some m) e = ground (arith, e)
    i64_element-range position nulls j (arr vs) (some m) e = ground (arith, e)
    i64_element-range position nulls j (obj fs) (some m) e = ground (arith, e)

    f64_element-range :
        (position : ℕ) (nulls : Bool) (j : ℕ) (v : Value) (x : Option F)
        → f64_element as_i64 as_u64 as_f64 is_finite position nulls j v ≡ ok x
        → when_some is_finite x ≡ true
    unfolding f64_element array_element_error parse_explicit_f64
    f64_element-range position nulls j v n e = ground (arith, e)

    int8-range :
        (t : Text) (position : ℕ) (p : BoundQueryParam F)
        → then_ok
            (λ raw. int8_param (some raw))
            (parse_explicit_i64 as_i64 as_u64 as_f64 is_finite t position)
          ≡ ok p
        → in_range p ≡ true
    int8-range t position p e =
        let found =
          then_ok_ok (λ raw. int8_param (some raw))
            (parse_explicit_i64 as_i64 as_u64 as_f64 is_finite t position) p e in
        rw (found.2) (i64-range t position found.0 found.1)

    int8s-range :
        (items : List Value) (position : ℕ) (nulls : Bool) (p : BoundQueryParam F)
        → then_ok
            (λ raw. int8_array_param (some raw))
            (parse_i64_array as_i64 as_u64 as_f64 is_finite items position nulls)
          ≡ ok p
        → in_range p ≡ true
    int8s-range items position nulls p e =
        let found =
          then_ok_ok (λ raw. int8_array_param (some raw))
            (parse_i64_array as_i64 as_u64 as_f64 is_finite items position nulls) p e in
        rw (found.2)
          (collect-all (when_some in_i64)
            (i64_element as_i64 as_u64 as_f64 is_finite position nulls) 0 items found.0
            (i64_element-range position nulls) found.1).0

    float8s-range :
        (items : List Value) (position : ℕ) (nulls : Bool) (p : BoundQueryParam F)
        → then_ok
            (λ raw. float8_array_param (some raw))
            (parse_f64_array as_i64 as_u64 as_f64 is_finite items position nulls)
          ≡ ok p
        → in_range p ≡ true
    float8s-range items position nulls p e =
        let found =
          then_ok_ok (λ raw. float8_array_param (some raw))
            (parse_f64_array as_i64 as_u64 as_f64 is_finite items position nulls) p e in
        rw (found.2)
          (collect-all (when_some is_finite)
            (f64_element as_i64 as_u64 as_f64 is_finite position nulls) 0 items found.0
            (f64_element-range position nulls) found.1).0

    explicit-range :
        (kind : BoundQueryParamKind) (value : Value) (position : ℕ) (p : BoundQueryParam F)
        → parse_explicit_bound_query_param as_i64 as_u64 as_f64 is_finite kind value position ≡ ok p
        → in_range p ≡ true
    unfolding parse_explicit_bound_query_param parse_explicit_f64
    explicit-range bool_kind value position p e = ground (arith, e)
    explicit-range text_kind value position p e = ground (arith, e)
    explicit-range jsonb_kind value position p e = ground (arith, e)
    explicit-range bool_array_kind value position p e = ground (arith, e)
    explicit-range text_array_kind value position p e = ground (arith, e)
    explicit-range jsonb_array_kind value position p e = ground (arith, e)
    explicit-range float8_kind value position p e = ground (arith, e)
    explicit-range int8_kind null position p e = ground (arith, e)
    explicit-range int8_kind (bool b) position p e = ground (arith, e)
    explicit-range int8_kind (num t) position p e = int8-range t position p e
    explicit-range int8_kind (str s) position p e = ground (arith, e)
    explicit-range int8_kind (arr vs) position p e = ground (arith, e)
    explicit-range int8_kind (obj fs) position p e = ground (arith, e)
    explicit-range int8_array_kind null position p e = ground (arith, e)
    explicit-range int8_array_kind (bool b) position p e = ground (arith, e)
    explicit-range int8_array_kind (num t) position p e = ground (arith, e)
    explicit-range int8_array_kind (str s) position p e = ground (arith, e)
    explicit-range int8_array_kind (arr vs) position p e =
        int8s-range (items_of vs) position true p e
    explicit-range int8_array_kind (obj fs) position p e = ground (arith, e)
    explicit-range float8_array_kind null position p e = ground (arith, e)
    explicit-range float8_array_kind (bool b) position p e = ground (arith, e)
    explicit-range float8_array_kind (num t) position p e = ground (arith, e)
    explicit-range float8_array_kind (str s) position p e = ground (arith, e)
    explicit-range float8_array_kind (arr vs) position p e =
        float8s-range (items_of vs) position true p e
    explicit-range float8_array_kind (obj fs) position p e = ground (arith, e)

    raw_array-range :
        (items : List Value) (position : ℕ) (p : BoundQueryParam F)
        → parse_raw_bound_query_param_array as_i64 as_u64 as_f64 is_finite items position ≡ ok p
        → in_range p ≡ true
    unfolding parse_raw_bound_query_param_array
    raw_array-range items position p e =
        ground (arith, e, int8s-range items position false p, float8s-range items position false p)

    number-range :
        (t : Text) (position : ℕ) (p : BoundQueryParam F)
        → number_param as_i64 as_u64 as_f64 is_finite position (as_i64 t) (as_u64 t) (as_f64 t)
          ≡ ok p
        → in_range p ≡ true
    number-range t position p e = go (as_i64 t) (as_u64 t) (as_f64 t) (i64_fits t) e
      where
        go :
            (a : Option ℤ) (b : Option ℕ) (c : Option F)
            → ((n : ℤ) → a ≡ some n → in_i64 n ≡ true)
            → number_param as_i64 as_u64 as_f64 is_finite position a b c ≡ ok p
            → in_range p ≡ true
        go (some n) b c h e = ground (arith, e, h n refl)
        go none (some n) c h e = ground (arith, e)
        go none none none h e = ground (arith, e)
        go none none (some x) h e = ground (arith, e)

    object-range :
        (parts : Option (BoundQueryParamKind × Value)) (fs : Fields) (position : ℕ)
        (p : BoundQueryParam F)
        → (elim parts [
          | some (kind, explicit_value) ↦
              parse_explicit_bound_query_param as_i64 as_u64 as_f64 is_finite kind explicit_value
                position
          | none ↦ ok (jsonb_param (some (obj fs)))
        ])
          ≡ ok p
        → in_range p ≡ true
    object-range none fs position p e = ground (arith, e)
    object-range (some (kind, v)) fs position p e = explicit-range kind v position p e

    param-range :
        (value : Value) (position : ℕ) (p : BoundQueryParam F)
        → parse_bound_query_param as_i64 as_u64 as_f64 is_finite value position ≡ ok p
        → in_range p ≡ true
    unfolding parse_bound_query_param
    param-range null position p e = ground (arith, e)
    param-range (bool b) position p e = ground (arith, e)
    param-range (str s) position p e = ground (arith, e)
    param-range (num t) position p e = ground (arith, e, number-range t position p)
    param-range (arr vs) position p e = raw_array-range (items_of vs) position p e
    param-range (obj fs) position p e =
        object-range (explicit_bound_query_wrapper_parts (entries fs)) fs position p e

    -- As many parameters are bound as values were given, every integer among them, in arrays
    -- too, fits 64 bits, and every float is finite, if the numbers that are read as signed
    -- 64-bit integers fit.
    pub params-range :
        (values : List Value) (ps : List (BoundQueryParam F))
        → parse_bound_query_params as_i64 as_u64 as_f64 is_finite values ≡ ok ps
        → (all in_range ps ≡ true) × (length ps ≡ length values)
    unfolding parse_bound_query_params
    params-range values ps e =
        collect-all in_range
          (λ idx value. parse_bound_query_param as_i64 as_u64 as_f64 is_finite value (idx + 1)) 0
          values ps (λ j x y k. param-range x (j + 1) y k) e
