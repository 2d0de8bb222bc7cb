-- ===== src/Params/Parse.antt =====
-- The parsing of bound parameters in src/db.rs: numbers, arrays, typed wrappers, whole lists.
use postgres_mcp.Prelude.{
  ℕ, ◌+◌, Bool, true, false, not, ◌||◌, Option, none, some, List, if◌then◌else◌, ltb, Text, text_Eq,
  codes, all, map, is_empty, ℤ, pos, is_some, Value, null, bool, num, str, arr, obj, entries,
}
use postgres_mcp.Params.{
  BoundQueryParam, BoundQueryParamKind, DbResult, array_element_error, at_position, bool_array_kind,
  bool_array_param, bool_kind, bool_param, collect, explicit_bound_query_wrapper_parts,
  float8_array_kind, float8_array_param, float8_kind, float8_param, i64_limit, int8_array_kind,
  int8_array_param, int8_kind, int8_param, invalid, is_boolean, is_null, is_number, is_string,
  items_of, jsonb_array_kind, jsonb_array_param, jsonb_kind, jsonb_param, ok, text_array_kind,
  text_array_param, text_kind, text_param, then_ok,
}

module _ {F : Type 0} (as_i64 : Text → Option ℤ) (as_u64 : Text → Option ℕ)
    (as_f64 : Text → Option F) (is_finite : F → Bool) where
  abbrev pub cast_i64 : ℕ → ℕ → DbResult ℤ
  cast_i64 position n =
      if ltb n i64_limit
      then ok (pos n)
      else invalid (at_position position (codes "integer is out of supported int8 range"))

  abbrev from_u64 : ℕ → Option ℕ → DbResult ℤ
  from_u64 position none =
      invalid (at_position position (codes "expected integer-compatible numeric value"))
  from_u64 position (some n) = cast_i64 position n

  unfoldable pub parse_explicit_i64 : Text → ℕ → DbResult ℤ
  parse_explicit_i64 number position = elim (as_i64 number) [
    | some n ↦ ok n
    | none ↦ from_u64 position (as_u64 number)
  ]

  abbrev pub finite_or : ℕ → F → DbResult F
  finite_or position x =
      if not (is_finite x)
      then invalid (at_position position (codes "floating-point value must be finite"))
      else ok x

  unfoldable pub parse_explicit_f64 : Text → ℕ → DbResult F
  parse_explicit_f64 number position = elim (as_f64 number) [
    | none ↦
        invalid (at_position position (codes "expected floating-point-compatible numeric value"))
    | some x ↦ finite_or position x
  ]

  -- One element of an array, at its place.
  abbrev pub or_else {ℓ} : {A : Type ℓ} → DbResult A → DbResult (Option A) → DbResult (Option A)
  or_else (ok a) other = ok (some a)
  or_else (invalid m) other = other

  abbrev pub null_or {ℓ} : {A : Type ℓ} → Bool → DbResult (Option A) → DbResult (Option A)
  null_or allow_nulls other = if allow_nulls then ok none else other

  unfoldable pub bool_element : ℕ → Bool → ℕ → Value → DbResult (Option Bool)
  unfolding array_element_error
  bool_element position allow_nulls idx null =
      null_or allow_nulls (array_element_error position idx (codes "boolean"))
  bool_element position allow_nulls idx (bool raw) = ok (some raw)
  bool_element position allow_nulls idx _ = array_element_error position idx (codes "boolean")

  unfoldable pub i64_element : ℕ → Bool → ℕ → Value → DbResult (Option ℤ)
  unfolding array_element_error parse_explicit_i64
  i64_element position allow_nulls idx null =
      null_or allow_nulls (array_element_error position idx (codes "integer"))
  i64_element position allow_nulls idx (num number) =
      or_else (parse_explicit_i64 number position)
        (array_element_error position idx (codes "integer"))
  i64_element position allow_nulls idx _ = array_element_error position idx (codes "integer")

  unfoldable pub f64_element : ℕ → Bool → ℕ → Value → DbResult (Option F)
  unfolding array_element_error parse_explicit_f64
  f64_element position allow_nulls idx null =
      null_or allow_nulls (array_element_error position idx (codes "numeric"))
  f64_element position allow_nulls idx (num number) =
      or_else (parse_explicit_f64 number position)
        (array_element_error position idx (codes "numeric"))
  f64_element position allow_nulls idx _ = array_element_error position idx (codes "numeric")

  unfoldable pub string_element : ℕ → Bool → ℕ → Value → DbResult (Option Text)
  unfolding array_element_error
  string_element position allow_nulls idx null =
      null_or allow_nulls (array_element_error position idx (codes "string"))
  string_element position allow_nulls idx (str raw) = ok (some raw)
  string_element position allow_nulls idx _ = array_element_error position idx (codes "string")

  abbrev pub parse_bool_array : List Value → ℕ → Bool → DbResult (List (Option Bool))
  parse_bool_array items position allow_nulls = collect (bool_element position allow_nulls) 0 items

  abbrev pub parse_i64_array : List Value → ℕ → Bool → DbResult (List (Option ℤ))
  parse_i64_array items position allow_nulls = collect (i64_element position allow_nulls) 0 items

  abbrev pub parse_f64_array : List Value → ℕ → Bool → DbResult (List (Option F))
  parse_f64_array items position allow_nulls = collect (f64_element position allow_nulls) 0 items

  abbrev pub parse_string_array : List Value → ℕ → Bool → DbResult (List (Option Text))
  parse_string_array items position allow_nulls =
      collect (string_element position allow_nulls) 0 items

  abbrev pub non_null : Value → Option Value
  non_null null = none
  non_null other = some other

  unfoldable pub parse_explicit_bound_query_param :
      BoundQueryParamKind → Value → ℕ → DbResult (BoundQueryParam F)
  parse_explicit_bound_query_param bool_kind null position = ok (bool_param none)
  parse_explicit_bound_query_param bool_kind (bool raw) position = ok (bool_param (some raw))
  parse_explicit_bound_query_param bool_kind _ position =
      invalid (at_position position (codes "expected boolean for explicit type bool"))
  parse_explicit_bound_query_param int8_kind null position = ok (int8_param none)
  parse_explicit_bound_query_param int8_kind (num number) position =
      then_ok (λ raw. int8_param (some raw)) (parse_explicit_i64 number position)
  parse_explicit_bound_query_param int8_kind _ position =
      invalid (at_position position (codes "expected integer for explicit type int8"))
  parse_explicit_bound_query_param float8_kind null position = ok (float8_param none)
  parse_explicit_bound_query_param float8_kind (num number) position =
      then_ok (λ raw. float8_param (some raw)) (parse_explicit_f64 number position)
  parse_explicit_bound_query_param float8_kind _ position =
      invalid (at_position position (codes "expected number for explicit type float8"))
  parse_explicit_bound_query_param text_kind null position = ok (text_param none)
  parse_explicit_bound_query_param text_kind (str raw) position = ok (text_param (some raw))
  parse_explicit_bound_query_param text_kind _ position =
      invalid (at_position position (codes "expected string for explicit type text"))
  parse_explicit_bound_query_param jsonb_kind value position = ok (jsonb_param (non_null value))
  parse_explicit_bound_query_param bool_array_kind null position = ok (bool_array_param none)
  parse_explicit_bound_query_param bool_array_kind (arr items) position =
      then_ok (λ raw. bool_array_param (some raw)) (parse_bool_array (items_of items) position true)
  parse_explicit_bound_query_param bool_array_kind _ position =
      invalid (at_position position (codes "expected array for explicit type bool[]"))
  parse_explicit_bound_query_param int8_array_kind null position = ok (int8_array_param none)
  parse_explicit_bound_query_param int8_array_kind (arr items) position =
      then_ok (λ raw. int8_array_param (some raw)) (parse_i64_array (items_of items) position true)
  parse_explicit_bound_query_param int8_array_kind _ position =
      invalid (at_position position (codes "expected array for explicit type int8[]"))
  parse_explicit_bound_query_param float8_array_kind null position = ok (float8_array_param none)
  parse_explicit_bound_query_param float8_array_kind (arr items) position =
      then_ok (λ raw. float8_array_param (some raw))
        (parse_f64_array (items_of items) position true)
  parse_explicit_bound_query_param float8_array_kind _ position =
      invalid (at_position position (codes "expected array for explicit type float8[]"))
  parse_explicit_bound_query_param text_array_kind null position = ok (text_array_param none)
  parse_explicit_bound_query_param text_array_kind (arr items) position =
      then_ok (λ raw. text_array_param (some raw))
        (parse_string_array (items_of items) position true)
  parse_explicit_bound_query_param text_array_kind _ position =
      invalid (at_position position (codes "expected array for explicit type text[]"))
  parse_explicit_bound_query_param jsonb_array_kind null position = ok (jsonb_array_param none)
  parse_explicit_bound_query_param jsonb_array_kind (arr items) position =
      ok (jsonb_array_param (some (map non_null (items_of items))))
  parse_explicit_bound_query_param jsonb_array_kind _ position =
      invalid (at_position position (codes "expected array for explicit type jsonb[]"))

  abbrev pub is_integer : Value → Bool
  is_integer (num number) = is_some (as_i64 number) || is_some (as_u64 number)
  is_integer _ = false

  unfoldable pub parse_raw_bound_query_param_array : List Value → ℕ → DbResult (BoundQueryParam F)
  unfolding parse_explicit_bound_query_param
  parse_raw_bound_query_param_array items position =
      if is_empty items
      then invalid (
          at_position position (
            codes
              "empty arrays require an explicit typed wrapper like {\"type\":\"int8[]\",\"value\":[]}"))
      else if all is_boolean items
      then then_ok (λ raw. bool_array_param (some raw)) (parse_bool_array items position false)
      else if all is_number items
      then (if all is_integer items
          then then_ok (λ raw. int8_array_param (some raw)) (parse_i64_array items position false)
          else then_ok (λ raw. float8_array_param (some raw))
              (parse_f64_array items position false))
      else if all is_string items
      then then_ok (λ raw. text_array_param (some raw)) (parse_string_array items position false)
      else if all (λ v. not (is_null v)) items
      then ok (jsonb_array_param (some (map some items)))
      else invalid (
          at_position position
            (codes "mixed or null-containing arrays require an explicit typed wrapper"))

  abbrev pub float_param : ℕ → Option F → DbResult (BoundQueryParam F)
  float_param position none =
      invalid (at_position position (codes "uses unsupported numeric value"))
  float_param position (some x) = then_ok (λ y. float8_param (some y)) (finite_or position x)

  abbrev pub number_param : ℕ → Option ℤ → Option ℕ → Option F → DbResult (BoundQueryParam F)
  number_param position (some n) _ _ = ok (int8_param (some n))
  number_param position none (some n) _ = then_ok (λ m. int8_param (some m)) (cast_i64 position n)
  number_param position none none x = float_param position x

  unfoldable pub parse_bound_query_param : Value → ℕ → DbResult (BoundQueryParam F)
  unfolding parse_explicit_bound_query_param parse_raw_bound_query_param_array
      explicit_bound_query_wrapper_parts
  parse_bound_query_param null position = invalid (
      at_position position
        (codes "null requires an explicit typed wrapper like {\"type\":\"text\",\"value\":null}"))
  parse_bound_query_param (bool raw) position = ok (bool_param (some raw))
  parse_bound_query_param (num number) position =
      number_param position (as_i64 number) (as_u64 number) (as_f64 number)
  parse_bound_query_param (str raw) position = ok (text_param (some raw))
  parse_bound_query_param (arr items) position =
      parse_raw_bound_query_param_array (items_of items) position
  parse_bound_query_param (obj fields) position =
      elim (explicit_bound_query_wrapper_parts (entries fields)) [
        | some (kind, explicit_value) ↦
            parse_explicit_bound_query_param kind explicit_value position
        | none ↦ ok (jsonb_param (some (obj fields)))
      ]

  -- The parameters are numbered from 1.
  unfoldable pub parse_bound_query_params : List Value → DbResult (List (BoundQueryParam F))
  parse_bound_query_params values =
      collect (λ idx value. parse_bound_query_param value (idx + 1)) 0 values
