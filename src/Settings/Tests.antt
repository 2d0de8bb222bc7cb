-- ===== src/Settings/Tests.antt =====
-- The settings of src/config.rs and the schema policy of src/server.rs at concrete values.
use postgres_mcp.Prelude.{
  ℕ, ◌≡◌, refl, true, false, Option, none, some, List, [], ◌∷◌, Text, codes, text_eq, trim,
  trim_start, trim_end, is_whitespace, is_empty, to_ascii_lowercase, parse_unsigned, parse_digits,
  Value,
}
use postgres_mcp.Advisor.{split_at_char}
use postgres_mcp.Advisor.Rounds.{Answer, not_parsed}
use postgres_mcp.Settings.{
  resolved, resolve_timeout_ms, resolve_positive_u64, parse_env_bool, parse_env_csv_string_array,
  normalize_schema_list, metadata_schema_list, limited, metadata_schema_visible,
}
use postgres_mcp.Settings.Visibility.{shows, visible_as_listed}

no_timeout_test : resolve_timeout_ms none (some (codes "0")) 300_000 ≡ resolved none
unfolding resolve_timeout_ms parse_unsigned is_empty parse_digits
no_timeout_test = refl

flag_first_test : resolve_positive_u64 (some 7) (some (codes "x")) 5 ≡ resolved 7
unfolding resolve_positive_u64
flag_first_test = refl

word_test : parse_env_bool (some (codes " ON ")) false ≡ resolved true
unfolding parse_env_bool text_eq trim trim_start trim_end is_whitespace to_ascii_lowercase
word_test = refl

list_test : metadata_schema_list [] (some (codes " Sales ,,hr")) ≡ codes "sales" ∷ codes "hr" ∷ []
unfolding metadata_schema_list parse_env_csv_string_array normalize_schema_list split_at_char trim
    trim_start trim_end is_whitespace is_empty to_ascii_lowercase
list_test = refl

visible_as_listed_example :
    metadata_schema_visible
      (record {
        metadata_policy_mode = limited;
        metadata_schema_allow = normalize_schema_list (codes "Sales" ∷ codes "HR" ∷ []);
        metadata_schema_deny = normalize_schema_list (codes " hr " ∷ []);
      })
      (codes "hr")
    ≡ shows limited (codes "Sales" ∷ codes "HR" ∷ []) (codes " hr " ∷ []) (codes "hr")
visible_as_listed_example =
    visible_as_listed limited (codes "Sales" ∷ codes "HR" ∷ []) (codes " hr " ∷ []) (codes "hr")

denied_test :
    shows limited (codes "Sales" ∷ codes "HR" ∷ []) (codes " hr " ∷ []) (codes "hr") ≡ false
unfolding text_eq trim trim_start trim_end is_whitespace is_empty to_ascii_lowercase
denied_test = refl

abbrev silent : ℕ → List Value → Answer
silent n told = not_parsed

abbrev unserialized : Value → Option Text
unserialized v = none
