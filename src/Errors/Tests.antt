-- ===== src/Errors/Tests.antt =====
-- The error payloads of src/tools.rs at concrete inputs.
use postgres_mcp.Prelude.{
  ◌≡◌, ◌↔◌, ◌⊎◌, refl, true, false, none, [], ◌∷◌, Text, text_eq, text_Eq, codes, lookup, str,
  Object,
}
use postgres_mcp.Errors.{
  runtime, migrator, normalize_object, retryable, error_class, transient_network, serialization,
  resource_limit,
}
use postgres_mcp.Errors.Redaction.{normalize_object_keeps}
use postgres_mcp.Errors.Stability.{
  fingerprint_of_signals, normalize_idempotent, retryable_iff_class,
}

-- A digest in place of SHA-256: sixteen digits, whatever the text.
abbrev digest : Text → Text
digest s = codes "0123456789abcdef"

abbrev timeout : Object
timeout =
    (codes "error", str (codes "canceling statement due to statement timeout"))
    ∷ (codes "code", str (codes "DB_QUERY_TIMEOUT"))
    ∷ (codes "detail", str (codes "secret"))
    ∷ []

abbrev other_timeout : Object
other_timeout =
    (codes "hint", str (codes "retry")) ∷ (codes "code", str (codes "DB_QUERY_TIMEOUT")) ∷ []

normalize_object_keeps_example :
    lookup (codes "detail") (normalize_object digest runtime timeout) ≡ none
unfolding text_eq
normalize_object_keeps_example = normalize_object_keeps digest runtime timeout (codes "detail") refl

fingerprint_of_signals_example :
    (lookup (codes "fingerprint") (normalize_object digest migrator timeout)
      ≡ lookup (codes "fingerprint") (normalize_object digest migrator other_timeout))
    × (lookup (codes "retryable") (normalize_object digest migrator timeout)
        ≡ lookup (codes "retryable") (normalize_object digest migrator other_timeout))
unfolding lookup text_eq
fingerprint_of_signals_example =
    fingerprint_of_signals digest migrator timeout other_timeout
      (record { code_same = refl; reason_same = refl; sqlstate_same = refl })

normalize_idempotent_test :
    lookup
      (codes "retryable")
      (normalize_object digest runtime (normalize_object digest runtime timeout))
    ≡ lookup (codes "retryable") (normalize_object digest runtime timeout)
normalize_idempotent_test = normalize_idempotent digest runtime timeout (codes "retryable")

retryable_iff_class_test : (retryable [] [] (codes "40P01") ≡ true) ↔ (
    (error_class [] [] (codes "40P01") false ≡ transient_network)
    ⊎ ((error_class [] [] (codes "40P01") false ≡ serialization)
        ⊎ (error_class [] [] (codes "40P01") false ≡ resource_limit)))
retryable_iff_class_test = retryable_iff_class (codes "40P01")
