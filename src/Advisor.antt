-- ===== src/Advisor.antt =====
-- The external index advisor of src/advisor_extension.rs: `run_external_advisor_loop` and what it
-- normalizes. The process that answers, with the encoding of the request and the decoding of its
-- output, is a parameter, and so is the serializer of the error items. Of a failure the reason and
-- the attempt are kept, not the message.
pub mod Rounds
pub mod Bounds
pub mod Keys
mod Tests
use postgres_mcp.Prelude.{
  ℕ, zero, suc, ◌+◌, ◌-◌, ◌≡◌, refl, ◌↔◌, ap, Bool, true, false, not, ◌&&◌, ◌||◌, Option, none,
  some, List, [], ◌∷◌, ◌++◌, map, if◌then◌else◌, ltb, leb, nat_eq, Eq, ◌==◌, Text, text_Eq, text_eq,
  text_eq_iff, codes, length, all, any, elem, filter, lookup, insert, trim, to_ascii_lowercase,
  is_ascii_digit, is_empty, byte_len, len_utf8, within, starts_with, decimal, Value, null, bool,
  num, str, arr, Items, no_items, item, object, arith,
}
use mathlib.Core.List.{reverse}

-- `char::is_control`
abbrev pub is_control : ℕ → Bool
is_control c = ltb c 32 || within 127 159 c

-- `split` at a character.
unfoldable pub split_at_char : ℕ → Text → List Text
split_at_char sep [] = [] ∷ []
split_at_char sep (c ∷ cs) =
    let rest = split_at_char sep cs in
    if nat_eq c sep then [] ∷ rest else elim rest [ [] ↦ (c ∷ []) ∷ [] | t ∷ ts ↦ (c ∷ t) ∷ ts ]

-- `split` at a text, of which the first number of characters is still to be gone over.
abbrev split_loop : Text → ℕ → Text → Text → List Text
split_loop sep skip current [] = reverse current ∷ []
split_loop sep (suc skip) current (c ∷ cs) = split_loop sep skip current cs
split_loop sep zero current (c ∷ cs) = elim (starts_with sep (c ∷ cs)) [
  | true ↦ reverse current ∷ split_loop sep (length sep - 1) [] cs
  | false ↦ split_loop sep 0 (c ∷ current) cs
]

unfoldable pub split_at_text : Text → Text → List Text
unfolding starts_with
split_at_text sep s = split_loop sep 0 [] s

abbrev pub drop_quotes : Text → Text
drop_quotes [] = []
drop_quotes (c ∷ cs) = let rest = drop_quotes cs in if nat_eq c b'"' then rest else c ∷ cs

-- `trim_matches('"')`
abbrev pub trim_quotes : Text → Text
trim_quotes s = reverse (drop_quotes (reverse (drop_quotes s)))

abbrev pub join_with : Text → List Text → Text
join_with sep [] = []
join_with sep (t ∷ []) = t
join_with sep (t ∷ u ∷ ts) = t ++ (sep ++ join_with sep (u ∷ ts))

abbrev replace_quotes : Text → Text
replace_quotes [] = []
replace_quotes (c ∷ cs) =
    if nat_eq c b'"' then b'"' ∷ b'"' ∷ replace_quotes cs else c ∷ replace_quotes cs

unfoldable pub sql_quote_ident : Text → Text
sql_quote_ident value = b'"' ∷ (replace_quotes value ++ b'"' ∷ [])

unfoldable pub sql_quote_qualified_ident : Text → Text
unfolding sql_quote_ident split_at_char
sql_quote_qualified_ident value =
    join_with (codes ".")
      (map sql_quote_ident (filter (λ part. not (is_empty (trim part))) (split_at_char b'.' value)))

pub record ExternalAdvisorRecommendation : Type 0 where
  pub table : Text
  pub columns : List Text
  pub using_method : Option Text
  pub reason : Option Text

pub record ExternalAdvisorResponse : Type 0 where
  pub recommendations : List ExternalAdvisorRecommendation
  pub errors : List Value
  pub stop_reason : Option Text

pub record RecommendationKey : Type 0 where
  pub table : Text
  pub columns : List Text
  pub using_method : Text

pub record NormalizedRecommendation : Type 0 where
  pub key : RecommendationKey
  pub reason : Text

abbrev pub values_of : List Text → Items
values_of [] = no_items
values_of (t ∷ ts) = item (str t) (values_of ts)

unfoldable pub to_json : NormalizedRecommendation → Value
unfolding sql_quote_qualified_ident sql_quote_ident
to_json r =
    let ddl =
      codes "CREATE INDEX ON "
      ++ (sql_quote_qualified_ident r.key.table
          ++ (codes " USING "
              ++ (r.key.using_method
                  ++ (codes " ("
                      ++ (join_with (codes ", ") (map sql_quote_ident r.key.columns)
                          ++ codes ")"))))) in
    object (
      (codes "table", str r.key.table)
      ∷ (codes "columns", arr (values_of r.key.columns))
      ∷ (codes "using", str r.key.using_method)
      ∷ (codes "index_definition", str ddl)
      ∷ (codes "reason", str r.reason)
      ∷ [])

abbrev pub max_recommendations : ℕ
max_recommendations = 1024

abbrev pub max_errors : ℕ
max_errors = 512

abbrev pub max_columns : ℕ
max_columns = 16

abbrev pub max_reason_bytes : ℕ
max_reason_bytes = 1024

unfoldable pub merge_recommendation_reason : Text → Text → Text
unfolding split_at_text
merge_recommendation_reason current incoming =
    let inner = trim incoming in
    let merged = current ++ (codes " | " ++ inner) in
    if is_empty inner || current == inner
    then current
    else if any (λ reason. trim reason == inner) (split_at_text (codes " | ") current)
    then current
    else if ltb max_reason_bytes (byte_len merged)
    then current
    else merged

abbrev clip_loop : ℕ → ℕ → Text → Text
clip_loop used max_bytes [] = []
clip_loop used max_bytes (c ∷ cs) =
    let rest = clip_loop (used + len_utf8 c) max_bytes cs in
    if ltb max_bytes (used + len_utf8 c) then [] else c ∷ rest

unfoldable pub clip_utf8_bytes : Text → ℕ → Text
clip_utf8_bytes value max_bytes =
    if leb (byte_len value) max_bytes then value else clip_loop 0 max_bytes value

abbrev clipped_item : Value → Option Text → Value
clipped_item value none = object (
    (codes "truncated", bool true)
    ∷ (codes "reason", str (codes "external_error_serialization_failed"))
    ∷ [])
clipped_item value (some serialized) =
    if leb (byte_len serialized) 2048
    then value
    else object (
        (codes "truncated", bool true)
        ∷ (codes "reason", str (codes "external_error_item_too_large"))
        ∷ (codes "original_bytes", num (decimal (byte_len serialized)))
        ∷ (codes "preview", str (clip_utf8_bytes serialized 512))
        ∷ [])

unfoldable pub normalize_external_error_item : (Value → Option Text) → Value → Value
normalize_external_error_item serialize value = clipped_item value (serialize value)

abbrev pub is_ascii_lowercase : ℕ → Bool
is_ascii_lowercase c = within b'a' b'z' c

unfoldable pub is_valid_index_method : Text → Bool
is_valid_index_method [] = false
is_valid_index_method (first ∷ rest) =
    (is_ascii_lowercase first || nat_eq first b'_')
    && all (λ ch. is_ascii_lowercase ch || is_ascii_digit ch || nat_eq ch b'_') rest

-- The columns so far and the lower-cased names so far; none where a column is refused.
unfoldable pub dedupe_columns : List Text → List Text → List Text → Option (List Text)
dedupe_columns seen columns [] = some columns
dedupe_columns seen columns (raw ∷ more) =
    let column = trim_quotes (trim raw) in
    let lowered = to_ascii_lowercase column in
    elim (is_empty column || any is_control column) [
      | true ↦ none
      | false ↦ elim (elem lowered seen) [
        | true ↦ dedupe_columns seen columns more
        | false ↦ dedupe_columns (lowered ∷ seen) (columns ++ column ∷ []) more
      ]
    ]

-- A field that is there and not blank, trimmed, or else the default.
abbrev pub or_default : Text → Option Text → Text
or_default fallback none = fallback
or_default fallback (some raw) = if is_empty (trim raw) then fallback else trim raw

abbrev pub with_columns : Text → Text → Text → Option (List Text) → Option NormalizedRecommendation
with_columns table method reason none = none
with_columns table method reason (some columns) =
    if is_empty columns
    then none
    else if ltb 64 (byte_len method) || not (is_valid_index_method method)
    then none
    else if ltb max_reason_bytes (byte_len reason)
    then none
    else some (record {
      key = record { table = table; columns = columns; using_method = method };
      reason = reason;
    })

unfoldable pub normalize_external_recommendation :
    ExternalAdvisorRecommendation → Option NormalizedRecommendation
unfolding dedupe_columns is_valid_index_method split_at_char
normalize_external_recommendation rec =
    let raw_table = trim rec.table in
    let table_parts = map trim (split_at_char b'.' raw_table) in
    let method = to_ascii_lowercase (or_default (codes "btree") rec.using_method) in
    let reason = or_default (codes "external advisor recommendation") rec.reason in
    let checked =
      with_columns (join_with (codes ".") table_parts) method reason
        (dedupe_columns [] [] rec.columns) in
    if is_empty raw_table || ltb 256 (byte_len raw_table)
    then none
    else if any is_empty table_parts
    then none
    else if any (λ part. any is_control part) table_parts
    then none
    else if is_empty rec.columns || ltb max_columns (length rec.columns)
    then none
    else checked
