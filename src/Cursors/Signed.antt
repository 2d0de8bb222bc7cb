-- ===== src/Cursors/Signed.antt =====
-- What `decode_pagination_cursor` of src/tools.rs accepts, for any hash in lower-case hexadecimal.
use postgres_mcp.Prelude.{
  ℕ, ◌≤◌, ◌<◌, ◌≡◌, refl, sym, ap, ◌∙◌, true, false, not, Option, none, some, [], ◌∷◌, ◌++◌, ◌==◌,
  if◌then◌else◌, ltb, Text, text_Eq, text_eq, text_eq_refl, text_eq_iff, length, all, is_empty,
  byte_len, to_ascii_lowercase, decimal, parse_unsigned, parse_unsigned-decimal, arith,
}
use postgres_mcp.Cursors.{
  PaginationCursorScope, scope_text, query_mismatch, expired, PaginationCursor, Decoded, ok, err,
  CursorSecurity, splitn, u64_limit, signed_payload, Parts, parts_of, pagination_cursor_signature,
  expiry, encode_pagination_cursor, check_signature, check_parts, with_number,
  decode_pagination_cursor,
}
use postgres_mcp.Cursors.ConstantTime.{constant_time_eq_iff}
use postgres_mcp.Cursors.Fields.{not_colon, is_lower_hex, splitn-signed, lower_hex}

-- Sixty-four lower-case hexadecimal digits.
abbrev pub IsDigest : Text → Type 0
IsDigest s = (length s ≡ 64) × (all is_lower_hex s ≡ true)

-- What an authentic cursor decodes to.
abbrev pub verdict : Text → Text → ℕ → ℕ → ℕ → Decoded
verdict expected query_hash offset expires now =
    if not (query_hash == expected)
    then err query_mismatch
    else if ltb expires now
    then err expired
    else ok
        (record { query_hash = query_hash; offset = offset; expires_at_epoch_seconds = expires })

nonempty : (s : Text) → byte_len s ≡ 16 → is_empty s ≡ false
unfolding is_empty byte_len
nonempty [] h = absurd (omega (arith, h))
nonempty (c ∷ s) h = refl

module _ (sha256_hex : Text → Text) where
  -- A digest of the payload passes as the signature.
  check-signed :
      ((s : Text) → IsDigest (sha256_hex s))
      → (s : CursorSecurity) (scope : PaginationCursorScope) (expected : Text) (now : ℕ) (p : Parts)
        (offset expires : ℕ)
      → p.raw_signature
        ≡ pagination_cursor_signature sha256_hex s
            (signed_payload scope p.query_hash offset expires)
      → check_signature sha256_hex s scope expected now p offset expires
        ≡ verdict expected p.query_hash offset expires now
  unfolding check_signature pagination_cursor_signature
  check-signed digest s scope expected now p offset expires e =
      let text =
        s.signing_key ++ signed_payload scope p.query_hash offset expires ++ s.signing_key in
      let d = digest text in
      let low = lower_hex (sha256_hex text) d.1 in
      rw
        (
          e,
          low.0,
          low.1,
          d.0,
          low.2,
          (constant_time_eq_iff (sha256_hex text) (sha256_hex text)).1 refl,
        )
        refl

  -- A cursor made by `encode_pagination_cursor` for a page of the same scope is read back: it is
  -- refused as a mismatch where another page hash is expected, refused as expired after its
  -- expiry, and otherwise gives the hash, the offset and the expiry it was made with. The hash has
  -- 16 bytes and no colon, the offset is below 2^64, and the digests have 64 lower-case hexadecimal
  -- digits.
  pub decode-encode :
      ((s : Text) → IsDigest (sha256_hex s))
      → (s : CursorSecurity) (scope : PaginationCursorScope) (query_hash expected : Text)
        (offset now later : ℕ)
      → byte_len query_hash ≡ 16
      → all not_colon query_hash ≡ true
      → offset < u64_limit
      → decode_pagination_cursor sha256_hex s scope expected
          (encode_pagination_cursor sha256_hex s scope query_hash offset now)
          later
        ≡ verdict expected query_hash offset (expiry sha256_hex s now) later
  unfolding decode_pagination_cursor encode_pagination_cursor text_eq
  decode-encode digest s scope query_hash expected offset now later width colon below =
      ap (λ t. check_parts sha256_hex s scope expected later t)
        (splitn-signed scope query_hash offset (expiry sha256_hex s now) signature colon)
      ∙ rw
          (
            text_eq_refl (scope_text scope),
            nonempty query_hash width,
            width,
            parse_unsigned-decimal u64_limit offset below,
            parse_unsigned-decimal u64_limit (expiry sha256_hex s now) (omega arith),
          )
          (check-signed digest s scope expected later parts offset (expiry sha256_hex s now) refl)
    where
      signature : Text
      signature =
          pagination_cursor_signature sha256_hex s
            (signed_payload scope query_hash offset (expiry sha256_hex s now))

      parts : Parts
      parts = record {
        head = b'v' ∷ b'3' ∷ [];
        raw_scope = scope_text scope;
        query_hash = query_hash;
        offset_str = decimal offset;
        expires_at_str = decimal (expiry sha256_hex s now);
        raw_signature = signature;
      }

  -- What an accepted cursor shows: its parts, the signature of its payload in this scope, and a
  -- time within its expiry.
  abbrev pub Authentic :
      CursorSecurity → PaginationCursorScope → Text → ℕ → Parts → PaginationCursor → Type 0
  Authentic s scope expected now p c =
      (p.raw_scope ≡ scope_text scope)
      × (to_ascii_lowercase p.raw_signature
          ≡ pagination_cursor_signature sha256_hex s
              (signed_payload scope c.query_hash c.offset c.expires_at_epoch_seconds))
      × (c.query_hash ≡ expected)
      × (now ≤ c.expires_at_epoch_seconds)
      × (parse_unsigned u64_limit p.offset_str ≡ some c.offset)

  check_signature-Authentic :
      (s : CursorSecurity) (scope : PaginationCursorScope) (expected : Text) (now : ℕ) (p : Parts)
      (offset expires : ℕ) (c : PaginationCursor)
      → check_signature sha256_hex s scope expected now p offset expires ≡ ok c
      → (to_ascii_lowercase p.raw_signature
          ≡ pagination_cursor_signature sha256_hex s
              (signed_payload scope c.query_hash c.offset c.expires_at_epoch_seconds))
        × (c.query_hash ≡ expected)
        × (now ≤ c.expires_at_epoch_seconds)
        × (c.offset ≡ offset)
  unfolding check_signature
  check_signature-Authentic s scope expected now p offset expires c e =
      let text = to_ascii_lowercase p.raw_signature in
      let payload = signed_payload scope p.query_hash offset expires in
      ground (
        arith,
        e,
        (constant_time_eq_iff text (pagination_cursor_signature sha256_hex s payload)).0,
        (text_eq_iff p.query_hash expected).0,
      )

  checked-Authentic :
      (s : CursorSecurity) (scope : PaginationCursorScope) (expected : Text) (now : ℕ) (p : Parts)
      (offset expires : Option ℕ) (c : PaginationCursor)
      → p.raw_scope ≡ scope_text scope
      → parse_unsigned u64_limit p.offset_str ≡ offset
      → with_number sha256_hex offset (λ o.
        with_number sha256_hex expires (λ t. check_signature sha256_hex s scope expected now p o t))
        ≡ ok c
      → Authentic s scope expected now p c
  checked-Authentic s scope expected now p none t c h k e = cc
  checked-Authentic s scope expected now p (some o) none c h k e = cc
  checked-Authentic s scope expected now p (some o) (some t) c h k e =
      let found = check_signature-Authentic s scope expected now p o t c e in
      (h, found.0, found.1, found.2, k ∙ ap some (sym found.3))

  check_parts-Authentic :
      (s : CursorSecurity) (scope : PaginationCursorScope) (expected : Text) (now : ℕ)
      (o : Option Parts) (c : PaginationCursor)
      → check_parts sha256_hex s scope expected now o ≡ ok c
      → (p : Parts) × (o ≡ some p) × Authentic s scope expected now p c
  check_parts-Authentic s scope expected now none c e = cc
  check_parts-Authentic s scope expected now (some p) c e = (
    p,
    refl,
    checked-Authentic s scope expected now p _ (parse_unsigned u64_limit p.expires_at_str) c
        ((text_eq_iff p.raw_scope (scope_text scope)).0 (ground (arith, e))) refl
        (ground (arith, e)),
  )

  -- A cursor that is accepted has six parts, of which the second is the scope asked for and the
  -- last, in lower case, is the signature under the server's key of the scope, hash, offset and
  -- expiry it gives; its hash is the expected one, its offset is the number in its fourth part,
  -- and the clock is not past its expiry.
  pub decode-Authentic :
      (s : CursorSecurity) (scope : PaginationCursorScope) (expected cursor : Text) (now : ℕ)
      (c : PaginationCursor)
      → decode_pagination_cursor sha256_hex s scope expected cursor now ≡ ok c
      → (p : Parts) × (parts_of (splitn 6 cursor) ≡ some p) × Authentic s scope expected now p c
  unfolding decode_pagination_cursor
  decode-Authentic s scope expected cursor now c e =
      check_parts-Authentic s scope expected now (parts_of (splitn 6 cursor)) c e
