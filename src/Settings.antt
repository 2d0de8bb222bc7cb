-- ===== src/Settings.antt =====
-- The helpers of src/config.rs that resolve a setting from its flag, its environment variable and
-- its default, and the policy of src/server.rs over the schema lists they give. The value of an
-- environment variable is an argument, none where it is not set; of an error only that it is one
-- is kept.
pub mod Visibility
pub mod Attempts
mod Tests
use postgres_mcp.Prelude.{
  ℕ, zero, suc, Bool, true, false, not, ◌&&◌, ◌||◌, Option, none, some, List, [], ◌∷◌, map,
  if◌then◌else◌, ltb, nat_eq, ◌==◌, Text, text_Eq, codes, elem, any, filter, is_empty, trim,
  to_ascii_lowercase, parse_unsigned,
}
use postgres_mcp.Cursors.{u64_limit}
use postgres_mcp.Advisor.{split_at_char}

pub data Resolved {ℓ} (A : Type ℓ) : Type ℓ where
  resolved : A → Resolved A
  refused : Resolved A

-- The flag, or else the variable, or else the default.
abbrev pub number_of : Option ℕ → Option Text → ℕ → Option ℕ
number_of (some value) raw fallback = some value
number_of none none fallback = some fallback
number_of none (some raw) fallback = parse_unsigned u64_limit raw

abbrev no_timeout_at_zero : Option ℕ → Resolved (Option ℕ)
no_timeout_at_zero none = refused
no_timeout_at_zero (some value) = if nat_eq value 0 then resolved none else resolved (some value)

unfoldable pub resolve_timeout_ms : Option ℕ → Option Text → ℕ → Resolved (Option ℕ)
resolve_timeout_ms cli_value raw default_ms =
    no_timeout_at_zero (number_of cli_value raw default_ms)

abbrev above_zero : Option ℕ → Resolved ℕ
above_zero none = refused
above_zero (some value) = if nat_eq value 0 then refused else resolved value

unfoldable pub resolve_positive_u64 : Option ℕ → Option Text → ℕ → Resolved ℕ
resolve_positive_u64 cli_value raw fallback = above_zero (number_of cli_value raw fallback)

abbrev in_range : ℕ → ℕ → Option ℕ → Resolved ℕ
in_range least most none = refused
in_range least most (some value) =
    if ltb value least || ltb most value then refused else resolved value

unfoldable pub resolve_bounded_usize : Option ℕ → Option Text → ℕ → ℕ → ℕ → Resolved ℕ
resolve_bounded_usize cli_value raw fallback least most =
    in_range least most (number_of cli_value raw fallback)

unfoldable pub parse_env_bool : Option Text → Bool → Resolved Bool
parse_env_bool none fallback = resolved fallback
parse_env_bool (some raw) fallback =
    let word = to_ascii_lowercase (trim raw) in
    if elem word (codes "1" ∷ codes "true" ∷ codes "yes" ∷ codes "on" ∷ [])
    then resolved true
    else if elem word (codes "0" ∷ codes "false" ∷ codes "no" ∷ codes "off" ∷ [])
    then resolved false
    else refused

abbrev pub not_blank : List Text → List Text
not_blank values = filter (λ value. not (is_empty value)) values

unfoldable pub parse_env_csv_string_array : Option Text → List Text
parse_env_csv_string_array none = []
parse_env_csv_string_array (some raw) = not_blank (map trim (split_at_char b',' raw))

unfoldable pub normalize_schema_list : List Text → List Text
normalize_schema_list values = not_blank (map (λ value. to_ascii_lowercase (trim value)) values)

-- The list of the flag where it is not empty, or else of the variable.
unfoldable pub metadata_schema_list : List Text → Option Text → List Text
unfolding normalize_schema_list
metadata_schema_list cli raw =
    if not (is_empty cli)
    then normalize_schema_list cli
    else normalize_schema_list (parse_env_csv_string_array raw)

pub data MetadataPolicyMode : Type 0 where
  full : MetadataPolicyMode
  limited : MetadataPolicyMode
  denied : MetadataPolicyMode

pub record MetadataPolicy : Type 0 where
  pub metadata_policy_mode : MetadataPolicyMode
  pub metadata_schema_allow : List Text
  pub metadata_schema_deny : List Text

abbrev pub metadata_access_denied : MetadataPolicy → Bool
metadata_access_denied p = elim p.metadata_policy_mode [
  | denied ↦ true
  | full ↦ false
  | limited ↦ false
]

abbrev pub mode_shows : MetadataPolicyMode → Bool → Bool
mode_shows full allowed = true
mode_shows limited allowed = allowed
mode_shows denied allowed = false

unfoldable pub metadata_schema_visible : MetadataPolicy → Text → Bool
metadata_schema_visible p schema_name =
    let normalized = to_ascii_lowercase (trim schema_name) in
    if metadata_access_denied p
    then false
    else if is_empty normalized
    then false
    else if any (λ schema. schema == normalized) p.metadata_schema_deny
    then false
    else mode_shows p.metadata_policy_mode
        (any (λ schema. schema == normalized) p.metadata_schema_allow)
