-- ===== src/Content/Cursor/Roundtrip.antt =====
-- infrastructure/content/cursor.py: the cursors that are written are read, and the codec keeps what
-- the Content service relies on.
use Prim.Native.Char.{code}
use web_access_mcp_server.Base.{
  ◌≡◌, refl, ap, ◌∙◌, ℕ, ◌+◌, ◌≤◌, arith, String, Bool, true, false, ◌&&◌, ◌||◌, some, List, [],
  ◌∷◌, leb, ltb, ◌==◌, ==_iff, str_eq, eq_iff, text_length, append_text, Bool-cases, inl, inr,
  le→ltb_false, or_left, or_right,
}
use web_access_mcp_server.Content.Model.{is_content_id}
use web_access_mcp_server.Content.Read.{Claims, CursorLaws, claims_of}
use web_access_mcp_server.Content.Cursor.{
  text, number, Payload, Entries, CursorLibrary, same_bytes, split_dot, read_claims, claims_from,
  encode_bytes, padded, canonical, decode_bytes, payload_of, signed, encode, decode, decode_parts,
  verified, read_payload, codec,
}

abbrev pub has_dot : String → Bool
has_dot String.[] = false
has_dot (String.◌∷◌ c s) = code c == b'.' || has_dot s

-- the dictionary of a payload, with its keys in order
abbrev pub entries_of : Payload → Entries
entries_of p =
    ("b", number p.b)
    ∷ ("c", text p.c)
    ∷ ("o", text p.o)
    ∷ ("r", number p.r)
    ∷ ("v", number p.v)
    ∷ []

-- What the library documents: base64 without its padding is read again once that is added and has no
-- dot, and JSON reads what it wrote for an owner and a Content.
pub record LibraryLaws (lib : CursorLibrary) (owner content_id : String) : Type 0 where
  pub b64decode-encode :
      (bytes : List ℕ) → lib.b64decode (padded lib (encode_bytes lib bytes)) ≡ some bytes
  pub has_dot-encode : (bytes : List ℕ) → has_dot (encode_bytes lib bytes) ≡ false
  pub loads-dumps :
      (revision offset : ℕ)
      → lib.loads (lib.dumps (payload_of lib (claims_of owner content_id revision offset)))
        ≡ some (entries_of (payload_of lib (claims_of owner content_id revision offset)))

split_dot-append :
    (a s : String) → has_dot a ≡ false → split_dot (append_text a (append_text "." s)) ≡ some (a, s)
split_dot-append String.[] s h = refl
split_dot-append (String.◌∷◌ c a) s h =
    rw
      (
        or_left (code c == b'.') (has_dot a) h,
        split_dot-append a s (or_right (code c == b'.') (has_dot a) h),
      )
      refl

same_bytes_refl : (xs : List ℕ) → same_bytes xs xs ≡ true
same_bytes_refl [] = refl
same_bytes_refl (x ∷ xs) = rw ((==_iff x x).1 refl, same_bytes_refl xs) refl

length-append_text : (a s : String) → text_length (append_text a s) ≡ text_length a + text_length s
length-append_text String.[] s = omega arith
length-append_text (String.◌∷◌ c a) s = omega (arith, length-append_text a s)

not_empty : (s : String) → 1 ≤ text_length s → str_eq s "" ≡ false
not_empty s h = elim (Bool-cases (str_eq s "")) [
  | inl e ↦ absurd (omega (arith, h, ap text_length ((eq_iff s "").0 e)))
  | inr e ↦ e
]

-- what the claims of a cursor have to be
pub record ValidClaims (claims : Claims) : Type 0 where
  pub owner :
      (leb 1 (text_length claims.owner_principal_id)
        && leb (text_length claims.owner_principal_id) 128)
      ≡ true
  pub revision : ltb claims.content_revision 1 ≡ false
  pub content_id : is_content_id claims.content_id ≡ true

read_claims-entries_of :
    (lib : CursorLibrary) (claims : Claims)
    → ValidClaims claims
    → read_claims (entries_of (payload_of lib claims)) ≡ some claims
unfolding read_claims claims_from
read_claims-entries_of lib claims valid =
    rw
      (
        valid.owner,
        valid.revision,
        le→ltb_false claims.byte_offset 0 (omega arith),
        valid.content_id,
      )
      refl

module _ (lib : CursorLibrary) (owner content_id : String)
    (laws : LibraryLaws lib owner content_id) where
  decode_bytes-encode_bytes :
      (bytes : List ℕ) → decode_bytes lib (encode_bytes lib bytes) ≡ some bytes
  unfolding decode_bytes
  decode_bytes-encode_bytes bytes =
      rw
        (
          laws.b64decode-encode bytes,
          canonical,
          (eq_iff (encode_bytes lib bytes) (encode_bytes lib bytes)).1 refl,
        )
        refl

  -- a text that does not fail the test of the length
  after_length :
      (s : String)
      → 1 ≤ text_length s
      → text_length s ≤ 2048
      → decode lib s ≡ decode_parts lib (split_dot s)
  unfolding decode
  after_length s h l = rw (not_empty s h, le→ltb_false 2048 (text_length s) l) refl

  verified-digest :
      (payload : List ℕ)
      → verified lib (some payload) (some (lib.digest payload))
        ≡ read_payload lib (lib.loads payload)
  verified-digest payload = rw (same_bytes_refl (lib.digest payload)) refl

  decode-signed :
      (payload : List ℕ)
      → text_length (signed lib payload) ≤ 2048
      → decode lib (signed lib payload) ≡ read_payload lib (lib.loads payload)
  unfolding signed
  decode-signed payload l =
      after_length (signed lib payload)
        (omega (
          arith,
          length-append_text (encode_bytes lib payload)
              (append_text "." (encode_bytes lib (lib.digest payload))),
        ))
        l
      ∙ ap (decode_parts lib) (
          split_dot-append (encode_bytes lib payload) (encode_bytes lib (lib.digest payload))
            (laws.has_dot-encode payload))
      ∙ ap (λ a. verified lib a (decode_bytes lib (encode_bytes lib (lib.digest payload))))
          (decode_bytes-encode_bytes payload)
      ∙ ap (verified lib (some payload)) (decode_bytes-encode_bytes (lib.digest payload))
      ∙ verified-digest payload

  -- A cursor that `encode` writes for valid claims of an owner and a Content, and that is no longer
  -- than 2048 characters, is read as those claims, given the laws of base64 and of JSON.
  pub decode-encode :
      (revision offset : ℕ)
      → ValidClaims (claims_of owner content_id revision offset)
      → text_length (encode lib (claims_of owner content_id revision offset)) ≤ 2048
      → decode lib (encode lib (claims_of owner content_id revision offset))
        ≡ some (claims_of owner content_id revision offset)
  unfolding encode
  decode-encode revision offset valid short =
      decode-signed (lib.dumps (payload_of lib (claims_of owner content_id revision offset))) short
      ∙ ap (read_payload lib) (laws.loads-dumps revision offset)
      ∙ read_claims-entries_of lib (claims_of owner content_id revision offset) valid

  -- The codec keeps what the Content service relies on, where the cursors are short enough.
  pub CursorLaws-codec :
      (revision limit : ℕ)
      → ((offset : ℕ) → ValidClaims (claims_of owner content_id revision offset))
      → ((offset : ℕ)
          → offset ≤ limit
          → text_length (encode lib (claims_of owner content_id revision offset)) ≤ 2048)
      → CursorLaws (codec lib) owner content_id revision limit
  CursorLaws-codec revision limit valid short = record {
    decode-encode = λ offset le. decode-encode revision offset (valid offset) (short offset le);
    length-encode = short;
  }
