-- ===== src/Errors/Stability.antt =====
-- The members that `normalize_error_payload_for_role` of src/tools.rs adds.
use postgres_mcp.Prelude.{
  ◌≡◌, refl, sym, ap, ◌∙◌, Bool, true, false, ◌||◌, some, List, [], ◌∷◌, arith, ◌==◌, if◌then◌else◌,
  Text, text_Eq, text_eq, text_eq_comm, codes, elem, elem_elim, lookup, insert, lookup-insert_self,
  bool, str, Object, text_at, text_of, starts_with, ◌↔◌, ◌⊎◌,
}
use postgres_mcp.Errors.{
  StartupRole, detail_level, redact, normalize_object, class_text, classify_retryable_error,
  classify_error_class, error_fingerprint, error_class, retryable, ErrorClass, transient_network,
  serialization, resource_limit, class_of_sqlstate, permission, syntax, object_not_found,
  syntax_or_semantic, unknown, client_cancelled,
}
use postgres_mcp.Errors.Redaction.{
  added, lookup-insert_ne, normalize_object_keeps, SameSignals, SameSignals-trans,
  insert-SameSignals, redact-SameSignals, retryable_same, fingerprint_same, redact_lem,
}

module _ (sha256_hex : Text → Text) (role : StartupRole) where
  -- The payload before each of the four insertions, as the source builds it.
  abbrev with_level : Object → Object
  with_level m = insert (codes "detail_level") (str (detail_level role)) (redact role m)

  abbrev with_retryable : Object → Object
  with_retryable m =
      insert (codes "retryable") (bool (classify_retryable_error (with_level m))) (with_level m)

  abbrev with_class : Object → Object
  with_class m =
      insert (codes "error_class") (str (class_text (classify_error_class (with_retryable m))))
        (with_retryable m)

  with_level-SameSignals : (m : Object) → SameSignals (with_level m) m
  unfolding text_eq
  with_level-SameSignals m =
      SameSignals-trans _ (redact role m) _
        (insert-SameSignals (codes "detail_level") _ (redact role m) refl refl refl)
        (redact-SameSignals role m)

  with_class-SameSignals : (m : Object) → SameSignals (with_class m) m
  unfolding text_eq
  with_class-SameSignals m =
      SameSignals-trans _ (with_level m) _
        (SameSignals-trans _ (with_retryable m) _
          (insert-SameSignals (codes "error_class") _ (with_retryable m) refl refl refl)
          (insert-SameSignals (codes "retryable") _ (with_level m) refl refl refl))
        (with_level-SameSignals m)

  normalize-SameSignals : (m : Object) → SameSignals (normalize_object sha256_hex role m) m
  unfolding normalize_object text_eq
  normalize-SameSignals m =
      SameSignals-trans _ (with_class m) _
        (insert-SameSignals (codes "fingerprint") _ (with_class m) refl refl refl)
        (with_class-SameSignals m)

  level_added :
      (m : Object)
      → lookup (codes "detail_level") (normalize_object sha256_hex role m)
        ≡ some (str (detail_level role))
  unfolding normalize_object text_eq
  level_added m =
      lookup-insert_ne (codes "fingerprint") (codes "detail_level") _ (with_class m) refl
      ∙ lookup-insert_ne (codes "error_class") (codes "detail_level") _ (with_retryable m) refl
      ∙ lookup-insert_ne (codes "retryable") (codes "detail_level") _ (with_level m) refl
      ∙ lookup-insert_self (codes "detail_level") _ (redact role m)

  retryable_added :
      (m : Object)
      → lookup (codes "retryable") (normalize_object sha256_hex role m)
        ≡ some (bool (classify_retryable_error m))
  unfolding normalize_object text_eq
  retryable_added m =
      lookup-insert_ne (codes "fingerprint") (codes "retryable") _ (with_class m) refl
      ∙ lookup-insert_ne (codes "error_class") (codes "retryable") _ (with_retryable m) refl
      ∙ lookup-insert_self (codes "retryable") _ (with_level m)
      ∙ ap (λ b. some (bool b)) (retryable_same (with_level m) m (with_level-SameSignals m))

  class_added :
      (m : Object)
      → lookup (codes "error_class") (normalize_object sha256_hex role m)
        ≡ some (str (class_text (classify_error_class (with_retryable m))))
  unfolding normalize_object text_eq
  class_added m =
      lookup-insert_ne (codes "fingerprint") (codes "error_class") _ (with_class m) refl
      ∙ lookup-insert_self (codes "error_class") _ (with_retryable m)

  fingerprint_added :
      (m : Object)
      → lookup (codes "fingerprint") (normalize_object sha256_hex role m)
        ≡ some (str (error_fingerprint sha256_hex m (detail_level role)))
  unfolding normalize_object
  fingerprint_added m =
      lookup-insert_self (codes "fingerprint") _ (with_class m)
      ∙ ap (λ t. some (str t))
          (fingerprint_same sha256_hex (detail_level role) (with_class m) m
            (with_class-SameSignals m))

  -- The fingerprint and the retry flag of a payload depend on its code, reason and SQLSTATE (and
  -- on the role) alone: payloads that differ in their messages, details or hints get the same.
  pub fingerprint_of_signals :
      (m n : Object)
      → SameSignals m n
      → (lookup (codes "fingerprint") (normalize_object sha256_hex role m)
          ≡ lookup (codes "fingerprint") (normalize_object sha256_hex role n))
        × (lookup (codes "retryable") (normalize_object sha256_hex role m)
            ≡ lookup (codes "retryable") (normalize_object sha256_hex role n))
  fingerprint_of_signals m n s = (
    fingerprint_added m
        ∙ ap (λ t. some (str t)) (fingerprint_same sha256_hex (detail_level role) m n s)
        ∙ sym (fingerprint_added n),
    retryable_added m ∙ ap (λ b. some (bool b)) (retryable_same m n s) ∙ sym (retryable_added n),
  )

  -- What the class looks at, besides the three signals.
  class_same :
      (m n : Object)
      → SameSignals m n
      → text_at (codes "error") m ≡ text_at (codes "error") n
      → text_at (codes "detail") m ≡ text_at (codes "detail") n
      → classify_error_class m ≡ classify_error_class n
  unfolding classify_error_class
  class_same m n s e d = cc (s.code_same, s.reason_same, s.sqlstate_same)

  read_through :
      (m : Object) (k : Text)
      → elem k added ≡ false
      → lookup k (with_retryable m) ≡ lookup k (redact role m)
  read_through m k h =
      lookup-insert_ne (codes "retryable") k _ (with_level m) (ground arith)
      ∙ lookup-insert_ne (codes "detail_level") k _ (redact role m) (ground arith)

  redact-normalize :
      (m : Object) (k : Text)
      → elem k added ≡ false
      → lookup k (redact role (normalize_object sha256_hex role m)) ≡ lookup k (redact role m)
  redact-normalize m k h =
      redact_lem role (normalize_object sha256_hex role m) k
      ∙ ground (arith, normalize_object_keeps sha256_hex role m k h)
      ∙ sym (redact_lem role m k)

  class_again :
      (m : Object)
      → classify_error_class (with_retryable (normalize_object sha256_hex role m))
        ≡ classify_error_class (with_retryable m)
  unfolding text_eq
  class_again m =
      class_same (with_retryable again) (with_retryable m)
        (record {
          code_same = ap text_of (through (codes "code") refl);
          reason_same = ap text_of (through (codes "reason") refl);
          sqlstate_same = ap text_of (through (codes "sqlstate") refl);
        })
        (ap text_of (through (codes "error") refl)) (ap text_of (through (codes "detail") refl))
    where
      again : Object
      again = normalize_object sha256_hex role m

      through :
          (k : Text)
          → elem k added ≡ false
          → lookup k (with_retryable again) ≡ lookup k (with_retryable m)
      through k h = read_through again k h ∙ redact-normalize m k h ∙ sym (read_through m k h)

  -- To normalise a payload that is normalised already changes none of its members.
  pub normalize_idempotent :
      (m : Object) (k : Text)
      → lookup k (normalize_object sha256_hex role (normalize_object sha256_hex role m))
        ≡ lookup k (normalize_object sha256_hex role m)
  normalize_idempotent m k =
      elem_elim (λ j. lookup j (normalize_object sha256_hex role again) ≡ lookup j again) k added
        unwritten
        (
          level_added again ∙ sym (level_added m),
          (
            retryable_added again
                ∙ ap (λ b. some (bool b)) (retryable_same again m (normalize-SameSignals m))
                ∙ sym (retryable_added m),
            (
              class_added again
                  ∙ ap (λ c. some (str (class_text c))) (class_again m)
                  ∙ sym (class_added m),
              (
                fingerprint_added again
                    ∙ ap (λ t. some (str t))
                        (fingerprint_same sha256_hex (detail_level role) again m
                          (normalize-SameSignals m))
                    ∙ sym (fingerprint_added m),
                tt,
              ),
            ),
          ),
        )
    where
      again : Object
      again = normalize_object sha256_hex role m

      unwritten :
          elem k added ≡ false → lookup k (normalize_object sha256_hex role again) ≡ lookup k again
      unwritten h = ground (
        arith,
        normalize_object_keeps sha256_hex role again k h,
        normalize_object_keeps sha256_hex role m k h,
      )

-- The SQLSTATE alone is retryable exactly if its class is one of three.
abbrev RetryMatchesClass : Text → Type 0
RetryMatchesClass sqlstate = (retryable [] [] sqlstate ≡ true) ↔ (
    (error_class [] [] sqlstate false ≡ transient_network)
    ⊎ ((error_class [] [] sqlstate false ≡ serialization)
        ⊎ (error_class [] [] sqlstate false ≡ resource_limit)))

-- The codes that the ladder of classes singles out above or among the retryable ones.
abbrev exact_codes : List Text
exact_codes = codes "57014" ∷ codes "42501" ∷ codes "42601" ∷ codes "42P01" ∷ codes "42703" ∷ []

-- The two ladders over the answers of their tests, where no singled-out code is met.
ladders :
    (p08 e40001 e40P01 e57P03 p53 e57014 e42501 e42601 e42P01 e42703 p42 : Bool)
    → (e57014 ≡ false) × (e42501 ≡ false) × (e42601 ≡ false) × (e42P01 ≡ false) × (e42703 ≡ false)
    → let tail : ErrorClass =
        if e42501
        then permission
        else if e42601
        then syntax
        else if e42P01 || e42703
        then object_not_found
        else if e40001 || e40P01
        then serialization
        else if p53 || e57P03
        then resource_limit
        else if p42
        then syntax_or_semantic
        else unknown in
      let class : ErrorClass =
        if e57014
        then client_cancelled
        else if p08 || false || false
        then transient_network
        else tail in
      ((if p08 || e40001 || e40P01 || e57P03 || p53 then true else false) ≡ true)
      ↔ ((class ≡ transient_network) ⊎ ((class ≡ serialization) ⊎ (class ≡ resource_limit)))
ladders p08 e40001 e40P01 e57P03 p53 e57014 e42501 e42601 e42P01 e42703 p42 h = ground arith

absent :
    (s : Text)
    → elem s exact_codes ≡ false
    → ((s == codes "57014") ≡ false)
      × ((s == codes "42501") ≡ false)
      × ((s == codes "42601") ≡ false)
      × ((s == codes "42P01") ≡ false)
      × ((s == codes "42703") ≡ false)
absent s h = ground (
  arith,
  text_eq_comm s (codes "57014"),
  text_eq_comm s (codes "42501"),
  text_eq_comm s (codes "42601"),
  text_eq_comm s (codes "42P01"),
  text_eq_comm s (codes "42703"),
)

-- For a payload that a SQLSTATE alone describes, the retry flag is set exactly if its class is
-- a network failure, a serialization failure or a resource limit.
pub retryable_iff_class :
    (sqlstate : Text)
    → (retryable [] [] sqlstate ≡ true) ↔ (
        (error_class [] [] sqlstate false ≡ transient_network)
        ⊎ ((error_class [] [] sqlstate false ≡ serialization)
            ⊎ (error_class [] [] sqlstate false ≡ resource_limit)))
unfolding retryable error_class text_eq class_of_sqlstate starts_with
retryable_iff_class sqlstate =
    elem_elim RetryMatchesClass sqlstate exact_codes
      (λ h. ladders _ _ _ _ _ _ _ _ _ _ _ (absent sqlstate h))
      (ground arith, (ground arith, (ground arith, (ground arith, (ground arith, tt)))))
