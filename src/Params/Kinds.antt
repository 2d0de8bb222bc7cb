-- ===== src/Params/Kinds.antt =====
-- What an accepted parameter of src/db.rs is: its type, its range, and how many there are.
use postgres_mcp.Prelude.{ℕ, ◌≡◌, Bool, Option, Text, ℤ, Value, arith}
use postgres_mcp.Params.{
  PostgresType, bool_type, int8_type, float8_type, text_type, jsonb_type, bool_array_type,
  int8_array_type, float8_array_type, text_array_type, jsonb_array_type, BoundQueryParamKind,
  bool_kind, int8_kind, float8_kind, text_kind, jsonb_kind, bool_array_kind, int8_array_kind,
  float8_array_kind, text_array_kind, jsonb_array_kind, BoundQueryParam, ok, postgres_type,
}
use postgres_mcp.Params.Parse.{parse_explicit_bound_query_param}

-- The type that each kind is sent as.
abbrev pub type_of : BoundQueryParamKind → PostgresType
type_of bool_kind = bool_type
type_of int8_kind = int8_type
type_of float8_kind = float8_type
type_of text_kind = text_type
type_of jsonb_kind = jsonb_type
type_of bool_array_kind = bool_array_type
type_of int8_array_kind = int8_array_type
type_of float8_array_kind = float8_array_type
type_of text_array_kind = text_array_type
type_of jsonb_array_kind = jsonb_array_type

module _ {F : Type 0} (as_i64 : Text → Option ℤ) (as_u64 : Text → Option ℕ)
    (as_f64 : Text → Option F) (is_finite : F → Bool) where
  -- A value that is accepted for an explicit type is sent as just that type.
  pub parse_explicit-type_of :
      (kind : BoundQueryParamKind) (value : Value) (position : ℕ) (p : BoundQueryParam F)
      → parse_explicit_bound_query_param as_i64 as_u64 as_f64 is_finite kind value position ≡ ok p
      → postgres_type p ≡ type_of kind
  unfolding parse_explicit_bound_query_param postgres_type
  parse_explicit-type_of bool_kind value position p e = ground (arith, e)
  parse_explicit-type_of int8_kind value position p e = ground (arith, e)
  parse_explicit-type_of float8_kind value position p e = ground (arith, e)
  parse_explicit-type_of text_kind value position p e = ground (arith, e)
  parse_explicit-type_of jsonb_kind value position p e = ground (arith, e)
  parse_explicit-type_of bool_array_kind value position p e = ground (arith, e)
  parse_explicit-type_of int8_array_kind value position p e = ground (arith, e)
  parse_explicit-type_of float8_array_kind value position p e = ground (arith, e)
  parse_explicit-type_of text_array_kind value position p e = ground (arith, e)
  parse_explicit-type_of jsonb_array_kind value position p e = ground (arith, e)
