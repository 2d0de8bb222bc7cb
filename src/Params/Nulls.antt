-- ===== src/Params/Nulls.antt =====
-- Arrays without a typed wrapper in src/db.rs hold no null.
use postgres_mcp.Prelude.{
  ℕ, ◌<◌, ◌≡◌, refl, Bool, true, false, ◌&&◌, Option, none, some, not, List, [], ◌∷◌, is_some,
  is_empty, Text, length, all, map, ℤ, Value, nat_eq, arith,
}
use postgres_mcp.Params.{
  is_null, BoundQueryParam, bool_array_param, int8_array_param, float8_array_param,
  text_array_param, jsonb_array_param, DbResult, ok, then_ok, collect, array_element_error,
}
use postgres_mcp.Params.Parse.{
  bool_element, i64_element, f64_element, string_element, parse_raw_bound_query_param_array,
}
use postgres_mcp.Params.Arrays.{collect-all, then_ok_ok}

-- An element that is there and is not the JSON null.
abbrev pub is_json : Option Value → Bool
is_json none = false
is_json (some v) = not (is_null v)

module _ {F : Type 0} (as_i64 : Text → Option ℤ) (as_u64 : Text → Option ℕ)
    (as_f64 : Text → Option F) (is_finite : F → Bool) where
  -- An array of so many elements, none of them null.
  abbrev pub is_whole_array : ℕ → BoundQueryParam F → Bool
  is_whole_array n (bool_array_param (some xs)) = all is_some xs && nat_eq (length xs) n
  is_whole_array n (int8_array_param (some xs)) = all is_some xs && nat_eq (length xs) n
  is_whole_array n (float8_array_param (some xs)) = all is_some xs && nat_eq (length xs) n
  is_whole_array n (text_array_param (some xs)) = all is_some xs && nat_eq (length xs) n
  is_whole_array n (jsonb_array_param (some xs)) = all is_json xs && nat_eq (length xs) n
  is_whole_array n _ = false

  bool_element-is_some :
      (position j : ℕ) (v : Value) (y : Option Bool)
      → bool_element as_i64 as_u64 as_f64 is_finite position false j v ≡ ok y
      → is_some y ≡ true
  unfolding bool_element array_element_error
  bool_element-is_some position j v y e = ground (arith, e)

  i64_element-is_some :
      (position j : ℕ) (v : Value) (y : Option ℤ)
      → i64_element as_i64 as_u64 as_f64 is_finite position false j v ≡ ok y
      → is_some y ≡ true
  unfolding i64_element array_element_error
  i64_element-is_some position j v y e = ground (arith, e)

  f64_element-is_some :
      (position j : ℕ) (v : Value) (y : Option F)
      → f64_element as_i64 as_u64 as_f64 is_finite position false j v ≡ ok y
      → is_some y ≡ true
  unfolding f64_element array_element_error
  f64_element-is_some position j v y e = ground (arith, e)

  string_element-is_some :
      (position j : ℕ) (v : Value) (y : Option Text)
      → string_element as_i64 as_u64 as_f64 is_finite position false j v ≡ ok y
      → is_some y ≡ true
  unfolding string_element array_element_error
  string_element-is_some position j v y e = ground (arith, e)

  -- What `collect` gives, in an array parameter.
  collected {κ} :
      {B : Type κ} (make : List (Option B) → BoundQueryParam F)
      (f : ℕ → Value → DbResult (Option B)) (items : List Value) (p : BoundQueryParam F)
      → ((xs : List (Option B))
          → is_whole_array (length items) (make xs)
            ≡ (all is_some xs && nat_eq (length xs) (length items)))
      → ((j : ℕ) (v : Value) (y : Option B) → f j v ≡ ok y → is_some y ≡ true)
      → then_ok make (collect f 0 items) ≡ ok p
      → is_whole_array (length items) p ≡ true
  collected make f items p shape h e =
      let found = then_ok_ok make (collect f 0 items) p e in
      let whole = collect-all is_some f 0 items found.0 h found.1 in
      rw (found.2, shape found.0, whole.0, whole.1) (ground arith)

  all-json :
      (items : List Value)
      → all (λ v. not (is_null v)) items ≡ true
      → (all is_json (map some items) && nat_eq (length (map some items)) (length items)) ≡ true
  all-json [] h = refl
  all-json (v ∷ vs) h = ground (arith, h, all-json vs (ground (arith, h)))

  -- An array that is accepted without a typed wrapper is not empty, is bound as an array with as
  -- many elements, and none of these is null, the JSON null of a jsonb array included.
  pub raw_array-is_whole :
      (items : List Value) (position : ℕ) (p : BoundQueryParam F)
      → parse_raw_bound_query_param_array as_i64 as_u64 as_f64 is_finite items position ≡ ok p
      → (is_whole_array (length items) p ≡ true) × (0 < length items)
  unfolding parse_raw_bound_query_param_array is_empty
  raw_array-is_whole [] position p e = cc
  raw_array-is_whole (v ∷ vs) position p e = (
    ground (
      arith,
      e,
      collected (λ raw. bool_array_param (some raw))
          (bool_element as_i64 as_u64 as_f64 is_finite position false) (v ∷ vs) p (λ xs. refl)
          (bool_element-is_some position),
      collected (λ raw. int8_array_param (some raw))
          (i64_element as_i64 as_u64 as_f64 is_finite position false) (v ∷ vs) p (λ xs. refl)
          (i64_element-is_some position),
      collected (λ raw. float8_array_param (some raw))
          (f64_element as_i64 as_u64 as_f64 is_finite position false) (v ∷ vs) p (λ xs. refl)
          (f64_element-is_some position),
      collected (λ raw. text_array_param (some raw))
          (string_element as_i64 as_u64 as_f64 is_finite position false) (v ∷ vs) p (λ xs. refl)
          (string_element-is_some position),
      all-json (v ∷ vs),
    ),
    omega arith,
  )
