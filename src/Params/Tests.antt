-- ===== src/Params/Tests.antt =====
-- The bound parameters of src/db.rs at concrete values: numbers are decimal, every float finite.
use postgres_mcp.Prelude.{
  ℕ, ◌<◌, ◌≡◌, refl, Bool, true, Option, none, some, List, [], ◌∷◌, Text, codes, length, all,
  lookup, parse_unsigned, parse_unsigned-lt, decimal, text_eq, trim, trim_start, trim_end,
  is_whitespace, is_empty, to_ascii_lowercase, parse_digits, ℤ, pos, Value, null, num, str, arr,
  obj, item, no_items, member, no_members, arith,
}
use postgres_mcp.Params.{
  int8_array_kind, int8_kind, BoundQueryParam, int8_param, int8_array_param, text_param,
  jsonb_param, ok, invalid, collect, postgres_type, parse_explicit_bound_query_param_kind,
  explicit_bound_query_wrapper_parts, i64_limit,
}
use postgres_mcp.Params.Parse.{
  parse_explicit_i64, i64_element, parse_explicit_bound_query_param,
  parse_raw_bound_query_param_array, parse_bound_query_param, parse_bound_query_params,
}
use postgres_mcp.Params.Kinds.{type_of, parse_explicit-type_of}
use postgres_mcp.Params.Arrays.{in_i64, in_range, params-range}
use postgres_mcp.Params.Nulls.{is_whole_array, raw_array-is_whole}

abbrev signed : Option ℕ → Option ℤ
signed none = none
signed (some n) = some (pos n)

abbrev read_i64 : Text → Option ℤ
read_i64 t = signed (parse_unsigned i64_limit t)

abbrev read_u64 : Text → Option ℕ
read_u64 = parse_unsigned 18_446_744_073_709_551_616

abbrev read_f64 : Text → Option Text
read_f64 t = some t

abbrev finite : Text → Bool
finite x = true

read_i64_fits : (t : Text) (n : ℤ) → read_i64 t ≡ some n → in_i64 n ≡ true
read_i64_fits t n e =
    fits (parse_unsigned i64_limit t) n (λ m. parse_unsigned-lt i64_limit t m (omega arith)) e
  where
    fits :
        (o : Option ℕ) (n : ℤ)
        → ((m : ℕ) → o ≡ some m → m < i64_limit)
        → signed o ≡ some n
        → in_i64 n ≡ true
    fits none n h e = ground (arith, e)
    fits (some m) n h e = ground (arith, e, h m refl)

abbrev numbers : Value
numbers = arr (item (num (codes "7")) (item null no_items))

-- {"type": " INTEGER[] ", "value": [7, null]}
abbrev wrapper : Value
wrapper =
    obj (
      member (codes "type") (str (codes " INTEGER[] ")) (member (codes "value") numbers no_members))

wrapper_test :
    parse_bound_query_param read_i64 read_u64 read_f64 finite wrapper 1
    ≡ ok (int8_array_param (some (some (pos 7) ∷ none ∷ [])))
unfolding parse_bound_query_param explicit_bound_query_wrapper_parts lookup text_eq
    parse_explicit_bound_query_param_kind trim trim_start trim_end is_whitespace to_ascii_lowercase
    parse_explicit_bound_query_param collect i64_element parse_explicit_i64 parse_unsigned is_empty
    parse_digits
wrapper_test = refl

-- A typed scalar is no wrapper: it is bound as the JSON object that it is.
scalar_wrapper_test :
    parse_bound_query_param read_i64 read_u64 read_f64 finite
      (obj (
        member
          (codes "type")
          (str (codes "int8"))
          (member (codes "value") (num (codes "7")) no_members)))
      1
    ≡ ok (
        jsonb_param (
          some (
            obj (
              member
                (codes "type")
                (str (codes "int8"))
                (member (codes "value") (num (codes "7")) no_members)))))
unfolding parse_bound_query_param explicit_bound_query_wrapper_parts lookup text_eq
    parse_explicit_bound_query_param_kind trim trim_start trim_end is_whitespace to_ascii_lowercase
scalar_wrapper_test = refl

too_big_test :
    parse_explicit_bound_query_param read_i64 read_u64 read_f64 finite int8_kind
      (num (codes "9223372036854775808"))
      2
    ≡ invalid (codes "params[2] integer is out of supported int8 range")
unfolding parse_explicit_bound_query_param parse_explicit_i64 parse_unsigned is_empty decimal
    parse_digits
too_big_test = refl

abbrev an_array : BoundQueryParam Text
an_array = int8_array_param (some (some (pos 7) ∷ none ∷ []))

parse_explicit-type_of_example : postgres_type an_array ≡ type_of int8_array_kind
unfolding parse_explicit_bound_query_param collect i64_element parse_explicit_i64 parse_unsigned
    is_empty parse_digits
parse_explicit-type_of_example =
    parse_explicit-type_of read_i64 read_u64 read_f64 finite int8_array_kind numbers 1 an_array refl

abbrev two_values : List Value
two_values = str (codes "a") ∷ num (codes "12") ∷ []

abbrev two_params : List (BoundQueryParam Text)
two_params = text_param (some (codes "a")) ∷ int8_param (some (pos 12)) ∷ []

params-range_example :
    (all (in_range read_i64 read_u64 read_f64 finite) two_params ≡ true)
    × (length two_params ≡ length two_values)
unfolding parse_bound_query_params collect parse_bound_query_param parse_unsigned is_empty
    parse_digits
params-range_example =
    params-range read_i64 read_u64 read_f64 finite read_i64_fits two_values two_params refl

raw_array-is_whole_example :
    (is_whole_array read_i64 read_u64 read_f64 finite 2
        (int8_array_param (some (some (pos 1) ∷ some (pos 2) ∷ [])))
      ≡ true)
    × (0 < 2)
unfolding parse_raw_bound_query_param_array collect i64_element parse_explicit_i64 parse_unsigned
    is_empty parse_digits
raw_array-is_whole_example =
    raw_array-is_whole read_i64 read_u64 read_f64 finite (num (codes "1") ∷ num (codes "2") ∷ []) 1
      (int8_array_param (some (some (pos 1) ∷ some (pos 2) ∷ []))) refl
