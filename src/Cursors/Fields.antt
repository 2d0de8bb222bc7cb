-- ===== src/Cursors/Fields.antt =====
-- `splitn` on texts that are joined by colons.
use mathlib.Core.List.{append_assoc}
use postgres_mcp.Prelude.{
  ℕ, suc, ◌≡◌, refl, ap, ◌∙◌, Bool, true, not, ◌||◌, none, some, [], ◌∷◌, ◌++◌, nat_eq, Text,
  length, all, within, is_ascii_digit, to_ascii_lower, to_ascii_lowercase, byte_len, len_utf8,
  decimal, all-decimal, arith,
}
use postgres_mcp.Cursors.{
  cut_at_colon, splitn, is_ascii_hexdigit, signed_payload, scope_text, PaginationCursorScope,
  execute_sql, list_objects, parts_of,
}

abbrev pub not_colon : ℕ → Bool
not_colon c = not (nat_eq c b':')

-- A lower-case hexadecimal digit.
abbrev pub is_lower_hex : ℕ → Bool
is_lower_hex c = is_ascii_digit c || within b'a' b'f' c

cut-colon :
    (u rest : Text) → all not_colon u ≡ true → cut_at_colon (u ++ b':' ∷ rest) ≡ some (u, rest)
unfolding cut_at_colon
cut-colon [] rest h = refl
cut-colon (c ∷ u) rest h = let ih = cut-colon u rest (ground (arith, h)) in ground (arith, h, ih)

cut-none : (u : Text) → all not_colon u ≡ true → cut_at_colon u ≡ none
unfolding cut_at_colon
cut-none [] h = refl
cut-none (c ∷ u) h = let ih = cut-none u (ground (arith, h)) in ground (arith, h, ih)

splitn-colon :
    (n : ℕ) (u rest : Text)
    → all not_colon u ≡ true
    → splitn (suc (suc n)) (u ++ b':' ∷ rest) ≡ u ∷ splitn (suc n) rest
unfolding splitn
splitn-colon n u rest h = rw (splitn, cut-colon u rest h) refl

not_colon-digit : (c : ℕ) → is_ascii_digit c ≡ true → not_colon c ≡ true
unfolding is_ascii_digit
not_colon-digit c h = ground (arith, h)

scope-colon : (scope : PaginationCursorScope) → all not_colon (scope_text scope) ≡ true
unfolding scope_text
scope-colon execute_sql = refl
scope-colon list_objects = refl

decimal-colon : (n : ℕ) → all not_colon (decimal n) ≡ true
decimal-colon n = all-decimal not_colon n not_colon-digit

append-signed :
    (scope : PaginationCursorScope) (query_hash : Text) (offset expires : ℕ) (signature : Text)
    → signed_payload scope query_hash offset expires ++ b':' ∷ signature
      ≡ b'v'
        ∷ b'3'
        ∷ b':'
        ∷ (scope_text scope
            ++ b':'
              ∷ (query_hash
                  ++ b':' ∷ (decimal offset ++ b':' ∷ (decimal expires ++ b':' ∷ signature))))
append-signed scope query_hash offset expires signature = simp (append_assoc)

-- The signed payload and a signature after it split into the six parts they were made of.
pub splitn-signed :
    (scope : PaginationCursorScope) (query_hash : Text) (offset expires : ℕ) (signature : Text)
    → all not_colon query_hash ≡ true
    → parts_of (splitn 6 (signed_payload scope query_hash offset expires ++ b':' ∷ signature))
      ≡ some (record {
        head = b'v' ∷ b'3' ∷ [];
        raw_scope = scope_text scope;
        query_hash = query_hash;
        offset_str = decimal offset;
        expires_at_str = decimal expires;
        raw_signature = signature;
      })
unfolding splitn
splitn-signed scope query_hash offset expires signature h =
    ap (λ t. parts_of (splitn 6 t)) (append-signed scope query_hash offset expires signature)
    ∙ ap parts_of (
        splitn-colon 4 (b'v' ∷ b'3' ∷ []) _ refl
        ∙ ap (λ t. (b'v' ∷ b'3' ∷ []) ∷ t)
            (splitn-colon 3 (scope_text scope) _ (scope-colon scope)
              ∙ ap (λ t. scope_text scope ∷ t)
                  (splitn-colon 2 query_hash _ h
                    ∙ ap (λ t. query_hash ∷ t)
                        (splitn-colon 1 (decimal offset) _ (decimal-colon offset)
                          ∙ ap (λ t. decimal offset ∷ t)
                              (splitn-colon 0 (decimal expires) signature
                                (decimal-colon expires))))))

-- A digest in lower-case hexadecimal stays as it is, takes a byte for each digit, and passes the
-- test of a signature.
pub lower_hex :
    (s : Text)
    → all is_lower_hex s ≡ true
    → (to_ascii_lowercase s ≡ s) × (byte_len s ≡ length s) × (all is_ascii_hexdigit s ≡ true)
unfolding to_ascii_lowercase to_ascii_lower byte_len len_utf8 is_ascii_digit
lower_hex [] h = (refl, refl, refl)
lower_hex (c ∷ s) h =
    let ih = lower_hex s (ground (arith, h)) in
    (ground (arith, h, ih.0), ground (arith, h, ih.1), ground (arith, h, ih.2))
