-- ===== src/Cursors/Tests.antt =====
-- The pagination cursors of src/tools.rs at concrete inputs, with a digest that only counts.
use postgres_mcp.Prelude.{
  ℕ, zero, suc, ◌+◌, ◌%◌, ◌≡◌, refl, true, some, [], ◌∷◌, ◌++◌, ◌↔◌, Text, codes, length, byte_len,
  is_ascii_digit, decimal, arith, text_eq, to_ascii_lowercase, to_ascii_lower, trim, trim_start,
  trim_end, is_whitespace, is_empty, parse_unsigned,
}
use postgres_mcp.Cursors.{
  execute_sql, list_objects, ok, err, expired, invalid, CursorSecurity, Parts, splitn, cut_at_colon,
  parts_of, constant_time_eq, encode_pagination_cursor, decode_pagination_cursor, canonicalize_sql,
  response_page_hash, check_signature, scope_text,
}
use postgres_mcp.Cursors.ConstantTime.{constant_time_eq_iff}
use postgres_mcp.Cursors.Signed.{IsDigest, verdict, Authentic, decode-encode, decode-Authentic}

abbrev repeat : ℕ → ℕ → Text
repeat zero c = []
repeat (suc n) c = c ∷ repeat n c

abbrev counted : Text → Text
counted s = (b'0' + length s % 10) ∷ repeat 63 b'a'

counted-IsDigest : (s : Text) → IsDigest (counted s)
unfolding is_ascii_digit
counted-IsDigest s = (refl, ground (arith))

abbrev security : CursorSecurity
security = record { ttl = 0; signing_key = codes "key" }

abbrev page : Text
page = codes "0123456789abcdef"

abbrev first_cursor : Text
first_cursor =
    codes "v3:list_objects:0123456789abcdef:50:1001:"
    ++ counted (codes "key" ++ codes "v3:list_objects:0123456789abcdef:50:1001" ++ codes "key")

decode-encode_example :
    decode_pagination_cursor counted security list_objects page
      (encode_pagination_cursor counted security list_objects page 50 1_000)
      1_001
    ≡ verdict page page 50 1_001 1_001
unfolding byte_len
decode-encode_example =
    decode-encode counted counted-IsDigest security list_objects page page 50 1_000 1_001 refl refl
      (omega arith)

accepted_test :
    decode_pagination_cursor counted security list_objects page first_cursor 1_001
    ≡ ok (record { query_hash = page; offset = 50; expires_at_epoch_seconds = 1_001 })
unfolding decode_pagination_cursor splitn cut_at_colon text_eq scope_text is_empty byte_len
    parse_unsigned check_signature to_ascii_lowercase constant_time_eq decimal
accepted_test = refl

late_test :
    decode_pagination_cursor counted security list_objects page first_cursor 1_002 ≡ err expired
unfolding decode_pagination_cursor splitn cut_at_colon text_eq scope_text is_empty byte_len
    parse_unsigned check_signature to_ascii_lowercase constant_time_eq decimal
late_test = refl

other_scope_test :
    decode_pagination_cursor counted security execute_sql page first_cursor 1_001 ≡ err invalid
unfolding decode_pagination_cursor splitn cut_at_colon text_eq scope_text is_empty byte_len
    parse_unsigned check_signature to_ascii_lowercase constant_time_eq decimal
other_scope_test = refl

decode-Authentic_example :
    (p : Parts) × (parts_of (splitn 6 first_cursor) ≡ some p)
    × Authentic counted security list_objects page 1_001 p
        (record { query_hash = page; offset = 50; expires_at_epoch_seconds = 1_001 })
decode-Authentic_example =
    decode-Authentic counted security list_objects page first_cursor 1_001
      (record { query_hash = page; offset = 50; expires_at_epoch_seconds = 1_001 }) accepted_test

constant_time_eq_iff_example :
    (constant_time_eq (codes "ab") (codes "ac") ≡ true) ↔ (codes "ab" ≡ codes "ac")
constant_time_eq_iff_example = constant_time_eq_iff (codes "ab") (codes "ac")

canonical_test : canonicalize_sql (codes " SELECT 1 ;; ") ≡ codes "SELECT 1"
unfolding canonicalize_sql trim trim_start trim_end is_whitespace
canonical_test = refl

-- The digest of two queries that differ in the case of a literal is taken of one text.
same_page_test :
    (sha256_hex : Text → Text)
    → response_page_hash sha256_hex (codes "SELECT 'A'")
      ≡ response_page_hash sha256_hex (codes "SELECT 'a'")
unfolding response_page_hash canonicalize_sql trim trim_start trim_end is_whitespace
    to_ascii_lowercase to_ascii_lower
same_page_test sha256_hex = refl
