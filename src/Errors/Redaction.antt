-- ===== src/Errors/Redaction.antt =====
-- What each role sees of an error payload: `normalize_error_payload_for_role` of src/tools.rs.
use postgres_mcp.Prelude.{
  ◌≡◌, refl, ap, ◌∙◌, false, ◌&&◌, none, List, [], ◌∷◌, arith, ◌==◌, if◌then◌else◌, Text, text_Eq,
  text_eq, codes, elem, lookup, insert, remove, lookup-insert, lookup-remove, Value, Object,
  text_at, text_of,
}
use postgres_mcp.Errors.{
  StartupRole, runtime, migrator, is_runtime, redact, normalize_object, classify_retryable_error,
  error_fingerprint,
}

-- The members that the normalisation writes, and those that it hides from the runtime role.
abbrev pub added : List Text
added = codes "detail_level" ∷ codes "retryable" ∷ codes "error_class" ∷ codes "fingerprint" ∷ []

abbrev pub hidden : List Text
hidden = codes "detail" ∷ codes "position" ∷ []

pub lookup-insert_ne :
    (k j : Text) (v : Value) (m : Object) → (k == j) ≡ false → lookup j (insert k v m) ≡ lookup j m
lookup-insert_ne k j v m h = lookup-insert k j v m ∙ ground arith

pub redact_lem :
    (role : StartupRole) (m : Object) (k : Text)
    → lookup k (redact role m) ≡ (if is_runtime role && elem k hidden then none else lookup k m)
redact_lem migrator m k = refl
redact_lem runtime m k =
    lookup-remove (codes "position") k (remove (codes "detail") m)
    ∙ ground (arith, lookup-remove (codes "detail") k m)

-- A member of an error payload that the normalisation does not write itself is passed on as it
-- was, but that the runtime role sees neither `detail` nor `position`.
pub normalize_object_keeps :
    (sha256_hex : Text → Text) (role : StartupRole) (m : Object) (k : Text)
    → elem k added ≡ false
    → lookup k (normalize_object sha256_hex role m)
      ≡ (if is_runtime role && elem k hidden then none else lookup k m)
unfolding normalize_object
normalize_object_keeps sha256_hex role m k h =
    lookup-insert_ne (codes "fingerprint") k _ _ (ground arith)
    ∙ lookup-insert_ne (codes "error_class") k _ _ (ground arith)
    ∙ lookup-insert_ne (codes "retryable") k _ _ (ground arith)
    ∙ lookup-insert_ne (codes "detail_level") k _ _ (ground arith)
    ∙ redact_lem role m k

-- Two payloads that read alike at the classified members.
pub record SameSignals (m n : Object) : Type 0 where
  pub code_same : text_at (codes "code") m ≡ text_at (codes "code") n
  pub reason_same : text_at (codes "reason") m ≡ text_at (codes "reason") n
  pub sqlstate_same : text_at (codes "sqlstate") m ≡ text_at (codes "sqlstate") n

pub SameSignals-trans : (l m n : Object) → SameSignals l m → SameSignals m n → SameSignals l n
SameSignals-trans l m n p q = record {
  code_same = p.code_same ∙ q.code_same;
  reason_same = p.reason_same ∙ q.reason_same;
  sqlstate_same = p.sqlstate_same ∙ q.sqlstate_same;
}

pub insert-SameSignals :
    (k : Text) (v : Value) (m : Object)
    → (k == codes "code") ≡ false
    → (k == codes "reason") ≡ false
    → (k == codes "sqlstate") ≡ false
    → SameSignals (insert k v m) m
insert-SameSignals k v m a b c = record {
  code_same = ap text_of (lookup-insert_ne k _ v m a);
  reason_same = ap text_of (lookup-insert_ne k _ v m b);
  sqlstate_same = ap text_of (lookup-insert_ne k _ v m c);
}

pub lookup-redact_visible :
    (role : StartupRole) (m : Object) (k : Text)
    → elem k hidden ≡ false
    → lookup k (redact role m) ≡ lookup k m
lookup-redact_visible role m k h = redact_lem role m k ∙ ground arith

pub redact-SameSignals : (role : StartupRole) (m : Object) → SameSignals (redact role m) m
unfolding text_eq
redact-SameSignals role m = record {
  code_same = ap text_of (lookup-redact_visible role m (codes "code") refl);
  reason_same = ap text_of (lookup-redact_visible role m (codes "reason") refl);
  sqlstate_same = ap text_of (lookup-redact_visible role m (codes "sqlstate") refl);
}

pub retryable_same :
    (m n : Object) → SameSignals m n → classify_retryable_error m ≡ classify_retryable_error n
unfolding classify_retryable_error
retryable_same m n s = cc (s.code_same, s.reason_same, s.sqlstate_same)

pub fingerprint_same :
    (sha256_hex : Text → Text) (level : Text) (m n : Object)
    → SameSignals m n
    → error_fingerprint sha256_hex m level ≡ error_fingerprint sha256_hex n level
unfolding error_fingerprint
fingerprint_same sha256_hex level m n s = cc (s.code_same, s.reason_same, s.sqlstate_same)
