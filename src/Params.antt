-- ===== src/Params.antt =====
-- The bound query parameters of src/db.rs: JSON values as typed parameters of a query. What
-- `serde_json::Number` reads off a number's text and the 64-bit floats with their test of
-- finiteness are parameters.
pub mod Parse
pub mod Kinds
pub mod Arrays
pub mod Nulls
mod Tests
use postgres_mcp.Prelude.{
  ℕ, zero, suc, ◌+◌, ◌<◌, ◌≤◌, Bool, true, false, not, ◌&&◌, ◌||◌, Option, none, some, List, [],
  ◌∷◌, ◌++◌, ◌==◌, if◌then◌else◌, ltb, leb, nat_eq, Text, text_Eq, codes, length, all, any, elem,
  map, lookup, trim, to_ascii_lowercase, decimal, is_empty, ℤ, pos, negsuc, is_some, Value, null,
  bool, num, str, arr, obj, Items, no_items, item, Object, entries, as_str,
}

pub data PostgresType : Type 0 where
  bool_type : PostgresType
  int8_type : PostgresType
  float8_type : PostgresType
  text_type : PostgresType
  jsonb_type : PostgresType
  bool_array_type : PostgresType
  int8_array_type : PostgresType
  float8_array_type : PostgresType
  text_array_type : PostgresType
  jsonb_array_type : PostgresType

pub data BoundQueryParamKind : Type 0 where
  bool_kind : BoundQueryParamKind
  int8_kind : BoundQueryParamKind
  float8_kind : BoundQueryParamKind
  text_kind : BoundQueryParamKind
  jsonb_kind : BoundQueryParamKind
  bool_array_kind : BoundQueryParamKind
  int8_array_kind : BoundQueryParamKind
  float8_array_kind : BoundQueryParamKind
  text_array_kind : BoundQueryParamKind
  jsonb_array_kind : BoundQueryParamKind

-- `Result` with the message of `DbError::sql_input_invalid`.
pub data DbResult {ℓ} (A : Type ℓ) : Type ℓ where
  ok : A → DbResult A
  invalid : Text → DbResult A

abbrev pub and_then {ℓ κ} : {A : Type ℓ} {B : Type κ} → DbResult A → (A → DbResult B) → DbResult B
and_then (ok a) f = f a
and_then (invalid message) f = invalid message

abbrev pub then_ok {ℓ κ} : {A : Type ℓ} {B : Type κ} → (A → B) → DbResult A → DbResult B
then_ok f (ok a) = ok (f a)
then_ok f (invalid message) = invalid message

-- `iter().enumerate().map(..).collect()`: in order, up to the first error.
unfoldable pub collect {ℓ κ} :
    {A : Type ℓ} {B : Type κ} → (ℕ → A → DbResult B) → ℕ → List A → DbResult (List B)
collect f i [] = ok []
collect f i (x ∷ xs) =
    let rest = collect f (suc i) xs in and_then (f i x) (λ y. then_ok (λ ys. y ∷ ys) rest)

abbrev pub items_of : Items → List Value
items_of no_items = []
items_of (item v vs) = v ∷ items_of vs

pub data BoundQueryParam (F : Type 0) : Type 0 where
  bool_param : Option Bool → BoundQueryParam F
  int8_param : Option ℤ → BoundQueryParam F
  float8_param : Option F → BoundQueryParam F
  text_param : Option Text → BoundQueryParam F
  jsonb_param : Option Value → BoundQueryParam F
  bool_array_param : Option (List (Option Bool)) → BoundQueryParam F
  int8_array_param : Option (List (Option ℤ)) → BoundQueryParam F
  float8_array_param : Option (List (Option F)) → BoundQueryParam F
  text_array_param : Option (List (Option Text)) → BoundQueryParam F
  jsonb_array_param : Option (List (Option Value)) → BoundQueryParam F

unfoldable pub postgres_type : {F : Type 0} → BoundQueryParam F → PostgresType
postgres_type (bool_param _) = bool_type
postgres_type (int8_param _) = int8_type
postgres_type (float8_param _) = float8_type
postgres_type (text_param _) = text_type
postgres_type (jsonb_param _) = jsonb_type
postgres_type (bool_array_param _) = bool_array_type
postgres_type (int8_array_param _) = int8_array_type
postgres_type (float8_array_param _) = float8_array_type
postgres_type (text_array_param _) = text_array_type
postgres_type (jsonb_array_param _) = jsonb_array_type

unfoldable pub parse_explicit_bound_query_param_kind : Text → Option BoundQueryParamKind
parse_explicit_bound_query_param_kind raw =
    let name = to_ascii_lowercase (trim raw) in
    if elem name (codes "bool" ∷ codes "boolean" ∷ [])
    then some bool_kind
    else if elem name (codes "int8" ∷ codes "bigint" ∷ codes "int" ∷ codes "integer" ∷ [])
    then some int8_kind
    else if elem name
        (codes "float8" ∷ codes "float" ∷ codes "double precision" ∷ codes "double" ∷ [])
    then some float8_kind
    else if elem name (codes "text" ∷ codes "varchar" ∷ codes "string" ∷ [])
    then some text_kind
    else if elem name (codes "json" ∷ codes "jsonb" ∷ [])
    then some jsonb_kind
    else if elem name (codes "bool[]" ∷ codes "boolean[]" ∷ [])
    then some bool_array_kind
    else if elem name (codes "int8[]" ∷ codes "bigint[]" ∷ codes "int[]" ∷ codes "integer[]" ∷ [])
    then some int8_array_kind
    else if elem name
        (codes "float8[]" ∷ codes "float[]" ∷ codes "double precision[]" ∷ codes "double[]" ∷ [])
    then some float8_array_kind
    else if elem name (codes "text[]" ∷ codes "varchar[]" ∷ codes "string[]" ∷ [])
    then some text_array_kind
    else if elem name (codes "json[]" ∷ codes "jsonb[]" ∷ [])
    then some jsonb_array_kind
    else none

abbrev pub at_position : ℕ → Text → Text
at_position position s = codes "params[" ++ (decimal position ++ b']' ∷ b' ' ∷ s)

unfoldable pub array_element_error {ℓ} : {A : Type ℓ} → ℕ → ℕ → Text → DbResult A
array_element_error position idx expected = invalid (
    codes "params["
    ++ (decimal position
        ++ (codes "]["
            ++ (decimal idx ++ (codes "] expected " ++ (expected ++ codes " array element"))))))

-- The kind and the value of a typed wrapper that holds null or an array.
abbrev pub is_null_or_array : Value → Bool
is_null_or_array null = true
is_null_or_array (arr vs) = true
is_null_or_array _ = false

abbrev wrapped : Option Text → Option Value → Option (BoundQueryParamKind × Value)
wrapped none _ = none
wrapped (some explicit_type) none = none
wrapped (some explicit_type) (some explicit_value) =
    elim (parse_explicit_bound_query_param_kind explicit_type) [
      | none ↦ none
      | some kind ↦ if is_null_or_array explicit_value then some (kind, explicit_value) else none
    ]

unfoldable pub explicit_bound_query_wrapper_parts : Object → Option (BoundQueryParamKind × Value)
explicit_bound_query_wrapper_parts object =
    let parts =
      wrapped (elim (lookup (codes "type") object) [ none ↦ none | some v ↦ as_str v ])
        (lookup (codes "value") object) in
    if not (nat_eq (length object) 2) then none else parts

abbrev pub is_boolean : Value → Bool
is_boolean (bool b) = true
is_boolean _ = false

abbrev pub is_number : Value → Bool
is_number (num n) = true
is_number _ = false

abbrev pub is_string : Value → Bool
is_string (str s) = true
is_string _ = false

abbrev pub is_null : Value → Bool
is_null null = true
is_null _ = false

abbrev pub i64_limit : ℕ
i64_limit = 9_223_372_036_854_775_808
