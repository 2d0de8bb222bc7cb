-- ===== src/Cursors.antt =====
-- Pagination cursors: src/tools.rs, `encode_pagination_cursor`, `decode_pagination_cursor` and the
-- page hashes; the hashes' salts of src/tools/query_surface.rs; the settings of src/server.rs.
-- SHA-256 in lower-case hexadecimal is a parameter, as a function of the text that is hashed, and
-- so is `serde_json::to_vec` of the bound parameters. A key is a text of bytes.
pub mod ConstantTime
pub mod Fields
pub mod Signed
mod Tests
use Prim.Native.Nat.{bit_or, bit_xor}
use mathlib.Core.List.{reverse}
use postgres_mcp.Prelude.{
  ℕ, zero, suc, ◌+◌, ◌-◌, ◌/◌, ◌^◌, min, max, Bool, true, false, not, ◌&&◌, ◌||◌, Option, none,
  some, List, [], ◌∷◌, ◌++◌, ◌==◌, if◌then◌else◌, ltb, nat_eq, Text, text_Eq, codes, length, take,
  all, trim, is_empty, byte_len, is_ascii_digit, within, to_ascii_lowercase, parse_unsigned,
  decimal,
}

pub data PaginationCursorScope : Type 0 where
  execute_sql : PaginationCursorScope
  list_objects : PaginationCursorScope

unfoldable pub scope_text : PaginationCursorScope → Text
scope_text execute_sql = codes "execute_sql"
scope_text list_objects = codes "list_objects"

pub data PaginationCursorDecodeError : Type 0 where
  invalid : PaginationCursorDecodeError
  query_mismatch : PaginationCursorDecodeError
  expired : PaginationCursorDecodeError

pub record PaginationCursor : Type 0 where
  pub query_hash : Text
  pub offset : ℕ
  pub expires_at_epoch_seconds : ℕ

pub data Decoded : Type 0 where
  ok : PaginationCursor → Decoded
  err : PaginationCursorDecodeError → Decoded

-- The server's fields that the cursors rest on; the time to live in seconds.
pub record CursorSecurity : Type 0 where
  pub ttl : ℕ
  pub signing_key : Text

-- `trim_end_matches(';')`
abbrev drop_semicolons : Text → Text
drop_semicolons [] = []
drop_semicolons (c ∷ cs) = let rest = drop_semicolons cs in if nat_eq c b';' then rest else c ∷ cs

unfoldable pub canonicalize_sql : Text → Text
canonicalize_sql sql = trim (reverse (drop_semicolons (reverse (trim sql))))

-- The loop over the two byte strings of one length.
unfoldable pub differences : ℕ → Text → Text → ℕ
differences diff [] right = diff
differences diff (l ∷ left) [] = diff
differences diff (l ∷ left) (r ∷ right) = differences (bit_or diff (bit_xor l r)) left right

unfoldable pub constant_time_eq : Text → Text → Bool
unfolding differences
constant_time_eq left right =
    if not (nat_eq (length left) (length right)) then false else nat_eq (differences 0 left right) 0

-- What stands before the first colon and what stands after it.
unfoldable pub cut_at_colon : Text → Option (Text × Text)
cut_at_colon [] = none
cut_at_colon (c ∷ cs) =
    if nat_eq c b':'
    then some ([], cs)
    else elim (cut_at_colon cs) [ none ↦ none | some (field, rest) ↦ some (c ∷ field, rest) ]

-- `splitn(n, ':')`
unfoldable pub splitn : ℕ → Text → List Text
splitn zero s = []
splitn (suc zero) s = s ∷ []
splitn (suc (suc n)) s = elim (cut_at_colon s) [
  | none ↦ s ∷ []
  | some (field, rest) ↦ field ∷ splitn (suc n) rest
]

abbrev pub is_ascii_hexdigit : ℕ → Bool
is_ascii_hexdigit c = is_ascii_digit c || within b'A' b'F' c || within b'a' b'f' c

abbrev pub u64_limit : ℕ
u64_limit = 18_446_744_073_709_551_616

abbrev pub signed_payload : PaginationCursorScope → Text → ℕ → ℕ → Text
signed_payload scope query_hash offset expires =
    codes "v3"
    ++ b':'
      ∷ (scope_text scope
          ++ b':' ∷ (query_hash ++ b':' ∷ (decimal offset ++ b':' ∷ decimal expires)))

-- The six parts of a cursor.
pub record Parts : Type 0 where
  pub head : Text
  pub raw_scope : Text
  pub query_hash : Text
  pub offset_str : Text
  pub expires_at_str : Text
  pub raw_signature : Text

abbrev pub parts_of : List Text → Option Parts
parts_of (a ∷ b ∷ c ∷ d ∷ e ∷ f ∷ []) = some (record {
  head = a;
  raw_scope = b;
  query_hash = c;
  offset_str = d;
  expires_at_str = e;
  raw_signature = f;
})
parts_of _ = none

module _ (sha256_hex : Text → Text) where
  unfoldable pub pagination_cursor_signature : CursorSecurity → Text → Text
  pagination_cursor_signature s payload = sha256_hex (s.signing_key ++ payload ++ s.signing_key)

  abbrev pub expiry : CursorSecurity → ℕ → ℕ
  expiry s now = min (now + max s.ttl 1) (u64_limit - 1)

  unfoldable pub encode_pagination_cursor :
      CursorSecurity → PaginationCursorScope → Text → ℕ → ℕ → Text
  unfolding pagination_cursor_signature scope_text
  encode_pagination_cursor s scope query_hash offset now =
      let payload = signed_payload scope query_hash offset (expiry s now) in
      payload ++ b':' ∷ pagination_cursor_signature s payload

  -- The checks from the signature on, once both numbers are read.
  unfoldable pub check_signature :
      CursorSecurity → PaginationCursorScope → Text → ℕ → Parts → ℕ → ℕ → Decoded
  unfolding pagination_cursor_signature
  check_signature s scope expected now p offset expires =
      let signature = to_ascii_lowercase p.raw_signature in
      let payload = signed_payload scope p.query_hash offset expires in
      if not (nat_eq (byte_len signature) 64) || not (all is_ascii_hexdigit signature)
      then err invalid
      else if not (constant_time_eq signature (pagination_cursor_signature s payload))
      then err invalid
      else if not (p.query_hash == expected)
      then err query_mismatch
      else if ltb expires now
      then err expired
      else ok (record {
        query_hash = p.query_hash;
        offset = offset;
        expires_at_epoch_seconds = expires;
      })

  abbrev pub with_number : Option ℕ → (ℕ → Decoded) → Decoded
  with_number none f = err invalid
  with_number (some n) f = f n

  abbrev pub check_parts :
      CursorSecurity → PaginationCursorScope → Text → ℕ → Option Parts → Decoded
  check_parts s scope expected now none = err invalid
  check_parts s scope expected now (some p) =
      let checked = with_number (parse_unsigned u64_limit p.offset_str) (λ offset.
        with_number (parse_unsigned u64_limit p.expires_at_str)
          (λ expires. check_signature s scope expected now p offset expires)) in
      if not (p.head == codes "v3")
      then err invalid
      else if not (p.raw_scope == scope_text scope)
      then err invalid
      else if is_empty p.query_hash || not (nat_eq (byte_len p.query_hash) 16)
      then err invalid
      else checked

  unfoldable pub decode_pagination_cursor :
      CursorSecurity → PaginationCursorScope → Text → Text → ℕ → Decoded
  decode_pagination_cursor s scope expected cursor now =
      check_parts s scope expected now (parts_of (splitn 6 cursor))

  -- The first 16 hexadecimal digits of a digest.
  abbrev short_hash : Text → Text
  short_hash s = take 16 (sha256_hex s)

  unfoldable pub response_page_hash : Text → Text
  unfolding canonicalize_sql
  response_page_hash sql = short_hash (to_ascii_lowercase (canonicalize_sql sql))

  -- With the serialized parameters, none where there are none.
  unfoldable pub response_page_hash_for_params : Text → Option Text → Text
  unfolding response_page_hash
  response_page_hash_for_params sql none = response_page_hash sql
  response_page_hash_for_params sql (some params) =
      short_hash (to_ascii_lowercase (canonicalize_sql sql) ++ 0 ∷ (codes "params" ++ 0 ∷ params))

  abbrev pub salted : Text → Option Text → Text → Text
  salted label none base = base
  salted label (some salt) base = short_hash (base ++ 0 ∷ (label ++ 0 ∷ salt))

  unfoldable pub response_page_hash_for_session : Text → Option Text → Option Text → Text
  unfolding response_page_hash_for_params
  response_page_hash_for_session sql params session_id =
      salted (codes "session") session_id (response_page_hash_for_params sql params)

  unfoldable pub response_page_hash_for_read_context :
      Text → Option Text → Option Text → Option Text → Text
  unfolding response_page_hash_for_session
  response_page_hash_for_read_context sql params session_id profile =
      salted (codes "profile") profile (response_page_hash_for_session sql params session_id)

  unfoldable pub response_page_hash_for_tuple_context :
      Text → Option Text → Option Text → Option Text → Text
  unfolding response_page_hash_for_read_context
  response_page_hash_for_tuple_context sql params session_id profile =
      salted (codes "surface") (some (codes "query_tuples"))
        (response_page_hash_for_read_context sql params session_id profile)
