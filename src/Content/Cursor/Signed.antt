-- ===== src/Content/Cursor/Signed.antt =====
-- infrastructure/content/cursor.py: the cursors that are read are those that the holder of the secret
-- has signed.
use Prim.Native.Char.{Char, code}
use text.Mathlib.TextEquality.{Char-path}
use web_access_mcp_server.Base.{
  ◌≡◌, refl, sym, ap, subst, ◌∙◌, ℕ, arith, String, Bool, true, false, ◌||◌, Option, none, some,
  List, [], ◌∷◌, ltb, ◌==◌, ==_iff, str_eq, eq_iff, if◌then◌else◌, text_length, append_text,
  Bool-cases, inl, inr, and_left, and_right, ◌≤◌,
}
use web_access_mcp_server.Content.Read.{Claims}
use web_access_mcp_server.Content.Cursor.{
  CursorLibrary, same_bytes, split_dot, add_char, encode_bytes, padded, canonical, decode_bytes,
  signed, decode, decode_parts, verified, read_payload,
}

same_bytes-eq : (xs ys : List ℕ) → same_bytes xs ys ≡ true → xs ≡ ys
same_bytes-eq [] [] h = refl
same_bytes-eq [] (y ∷ ys) h = ground arith
same_bytes-eq (x ∷ xs) [] h = ground arith
same_bytes-eq (x ∷ xs) (y ∷ ys) h =
    rw ((==_iff x y).0 (and_left (x == y) (same_bytes xs ys) h))
      (ap (λ l. y ∷ l) (same_bytes-eq xs ys (and_right (x == y) (same_bytes xs ys) h)))

-- the parts of a text that is split
abbrev Joined : String → Option (String × String) → Type 0
Joined s none = Unit
Joined s (some p) = s ≡ append_text p.0 (append_text "." p.1)

Joined-add_char :
    (c : Char) (s : String) (parts : Option (String × String))
    → Joined s parts
    → Joined (String.◌∷◌ c s) (add_char c parts)
Joined-add_char c s none h = tt
Joined-add_char c s (some p) h = ap (λ t. String.◌∷◌ c t) h

split_dot-Joined : (s : String) → Joined s (split_dot s)
split_dot-Joined String.[] = tt
split_dot-Joined (String.◌∷◌ c s) = elim (Bool-cases (code c == b'.')) [
  | inl e ↦ rw e (ap (λ d. String.◌∷◌ d s) (Char-path c "." ((==_iff (code c) b'.').0 e)))
  | inr e ↦ rw e (Joined-add_char c s (split_dot s) (split_dot-Joined s))
]

module _ (lib : CursorLibrary) where
  -- what is read as bytes is their canonical form
  abbrev Canonical : String → Option (List ℕ) → Type 0
  Canonical s none = Unit
  Canonical s (some bytes) = s ≡ encode_bytes lib bytes

  canonical-Canonical : (s : String) (o : Option (List ℕ)) → Canonical s (canonical lib s o)
  canonical-Canonical s none = tt
  canonical-Canonical s (some bytes) = elim (Bool-cases (str_eq (encode_bytes lib bytes) s)) [
    | inl e ↦ rw e (sym ((eq_iff (encode_bytes lib bytes) s).0 e))
    | inr e ↦ rw e tt
  ]

  decode_bytes-Canonical : (s : String) → Canonical s (decode_bytes lib s)
  unfolding decode_bytes
  decode_bytes-Canonical s = canonical-Canonical s (lib.b64decode (padded lib s))

  -- a cursor of which a payload is read
  abbrev pub Signed : String → Claims → Type 0
  Signed cursor claims =
      (payload : List ℕ) × ((cursor ≡ signed lib payload)
        × (read_payload lib (lib.loads payload) ≡ some claims))

  verified-Signed :
      (cursor a s : String) (payload signature : Option (List ℕ)) (claims : Claims)
      → cursor ≡ append_text a (append_text "." s)
      → Canonical a payload
      → Canonical s signature
      → verified lib payload signature ≡ some claims
      → Signed cursor claims
  unfolding signed
  verified-Signed cursor a s (some payload) (some signature) claims hc ha hs h =
      elim (Bool-cases (same_bytes signature (lib.digest payload))) [
        | inl e ↦ (
          payload,
          (
            hc
                ∙ ap (λ x. append_text x (append_text "." s)) ha
                ∙ ap (λ x. append_text (encode_bytes lib payload) (append_text "." x))
                    (hs ∙ ap (encode_bytes lib) (same_bytes-eq signature (lib.digest payload) e)),
            subst (λ b. (if b then read_payload lib (lib.loads payload) else none) ≡ some claims) e
                h,
          ),
        )
        | inr e ↦ cc (
            subst (λ b. (if b then read_payload lib (lib.loads payload) else none) ≡ some claims) e
              h)
      ]
  verified-Signed cursor a s (some payload) none claims hc ha hs h = ground arith
  verified-Signed cursor a s none _ claims hc ha hs h = ground arith

  decode_parts-Signed :
      (cursor : String) (parts : Option (String × String)) (claims : Claims)
      → Joined cursor parts
      → decode_parts lib parts ≡ some claims
      → Signed cursor claims
  decode_parts-Signed cursor none claims hj h = ground arith
  decode_parts-Signed cursor (some p) claims hj h =
      verified-Signed cursor p.0 p.1 (decode_bytes lib p.0) (decode_bytes lib p.1) claims hj
        (decode_bytes-Canonical p.0) (decode_bytes-Canonical p.1) h

  -- A cursor that is read has at most 2048 characters and is, character for character, what the
  -- signing of some payload with the secret gives, and the claims are those of that payload.
  pub decode-Signed :
      (cursor : String) (claims : Claims)
      → decode lib cursor ≡ some claims
      → (text_length cursor ≤ 2048) × Signed cursor claims
  unfolding decode
  decode-Signed cursor claims h =
      elim (Bool-cases (str_eq cursor "" || ltb 2048 (text_length cursor))) [
        | inl e ↦ cc (
            subst (λ b. (if b then none else decode_parts lib (split_dot cursor)) ≡ some claims) e
              h)
        | inr e ↦ (
          not_over (str_eq cursor "") (text_length cursor) e,
          decode_parts-Signed cursor (split_dot cursor) claims (split_dot-Joined cursor) (
              subst (λ b. (if b then none else decode_parts lib (split_dot cursor)) ≡ some claims) e
                h),
        )
      ]
    where
      not_over : (b : Bool) (n : ℕ) → (b || ltb 2048 n) ≡ false → n ≤ 2048
      not_over b n q = ground arith
