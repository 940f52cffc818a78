-- ===== src/Content/Cursor.antt =====
-- infrastructure/content/cursor.py: `HmacContentCursorCodec`, with JSON, base64 and the keyed hash as
-- parameters. A text is given by its characters, and bytes are numbers.
pub mod Roundtrip
pub mod Signed
use Prim.Native.Char.{Char, code}
use web_access_mcp_server.Base.{
  ℕ, zero, suc, ◌+◌, ◌-◌, ◌%◌, String, Bool, true, false, not, ◌&&◌, ◌||◌, Option, none, some, List,
  [], ◌∷◌, all, any, leb, ltb, ◌==◌, str_eq, if◌then◌else◌, text_length, append_text,
}
use web_access_mcp_server.Base.Effects.{Result, ok, raised, and_then}
use web_access_mcp_server.Content.Model.{is_content_id}
use web_access_mcp_server.Content.Read.{Claims, CursorCodec}

-- what `json.loads` gives for the value of a key: a float by whether it is 1
pub data Value : Type 0 where
  text : String → Value
  number : ℕ → Value
  boolean real : Bool → Value
  negative other : Value

-- the dictionary that is written
pub record Payload : Type 0 where
  pub b : ℕ
  pub c : String
  pub o : String
  pub r : ℕ
  pub v : ℕ

abbrev pub Entries : Type 0
Entries = List (String × Value)

-- The library code: `loads` is `none` where it raises or gives no dictionary, and `b64decode` where
-- it raises.
pub record CursorLibrary : Type 0 where
  pub dumps : Payload → List ℕ
  pub loads : List ℕ → Option Entries
  pub urlsafe_b64encode : List ℕ → String
  pub rstrip_padding : String → String
  pub b64decode : String → Option (List ℕ)
  pub digest : List ℕ → List ℕ

abbrev pub padding : ℕ → String
padding zero = ""
padding (suc n) = append_text "=" (padding n)

-- `hmac.compare_digest`
abbrev pub same_bytes : List ℕ → List ℕ → Bool
same_bytes [] [] = true
same_bytes (x ∷ xs) (y ∷ ys) = x == y && same_bytes xs ys
same_bytes _ _ = false

-- `cursor.split(".", maxsplit=1)`; `none` where there is no dot
abbrev pub add_char : Char → Option (String × String) → Option (String × String)
add_char c none = none
add_char c (some (a, s)) = some (String.◌∷◌ c a, s)

abbrev pub split_dot : String → Option (String × String)
split_dot String.[] = none
split_dot (String.◌∷◌ c s) =
    let rest = split_dot s in if code c == b'.' then some ("", s) else add_char c rest

abbrev pub entry : String → Entries → Option Value
entry key [] = none
entry key ((name, v) ∷ rest) =
    let found = entry key rest in if str_eq name key then some v else found

abbrev pub claim_keys : List String
claim_keys = "b" ∷ "c" ∷ "o" ∷ "r" ∷ "v" ∷ []

abbrev pub has_entry : Entries → String → Bool
has_entry es key = any (λ e. str_eq e.0 key) es

-- `set(value) == {"b", "c", "o", "r", "v"}`
abbrev pub has_keys : Entries → Bool
has_keys es = all (has_entry es) claim_keys && all (λ e. any (str_eq e.0) claim_keys) es

-- `value["v"] == 1`
abbrev pub is_version : Option Value → Bool
is_version (some (number n)) = n == 1
is_version (some (boolean b)) = b
is_version (some (real one)) = one
is_version _ = false

abbrev pub owner_of : Option Value → Option String
owner_of (some (text s)) = if leb 1 (text_length s) && leb (text_length s) 128 then some s else none
owner_of _ = none

-- an integer that is at least `least`
abbrev pub natural_of : ℕ → Option Value → Option ℕ
natural_of least (some (number n)) = if ltb n least then none else some n
natural_of least _ = none

-- `ContentId(...)`
abbrev pub content_id_of : Option Value → Option String
content_id_of (some (text s)) = if is_content_id s then some s else none
content_id_of _ = none

-- the claims of the four values
unfoldable pub claims_from : Option String → Option ℕ → Option ℕ → Option String → Option Claims
claims_from (some owner) (some revision) (some offset) (some content_id) = some (record {
  owner_principal_id = owner;
  content_id = content_id;
  content_revision = revision;
  byte_offset = offset;
})
claims_from _ _ _ _ = none

-- the tests on the dictionary
unfoldable pub read_claims : Entries → Option Claims
unfolding claims_from
read_claims es =
    if not (has_keys es)
    then none
    else if not (is_version (entry "v" es))
    then none
    else claims_from (owner_of (entry "o" es)) (natural_of 1 (entry "r" es))
        (natural_of 0 (entry "b" es)) (content_id_of (entry "c" es))

module _ (lib : CursorLibrary) where
  -- `_encode`
  unfoldable pub encode_bytes : List ℕ → String
  encode_bytes bytes = lib.rstrip_padding (lib.urlsafe_b64encode bytes)

  abbrev pub padded : String → String
  padded s = append_text s (padding ((4 - text_length s % 4) % 4))

  abbrev pub canonical : String → Option (List ℕ) → Option (List ℕ)
  canonical s none = none
  canonical s (some bytes) = if str_eq (encode_bytes bytes) s then some bytes else none

  -- `_decode`
  unfoldable pub decode_bytes : String → Option (List ℕ)
  unfolding encode_bytes
  decode_bytes s = canonical s (lib.b64decode (padded s))

  -- the payload of the claims
  abbrev pub payload_of : Claims → Payload
  payload_of claims = record {
    b = claims.byte_offset;
    c = claims.content_id;
    o = claims.owner_principal_id;
    r = claims.content_revision;
    v = 1;
  }

  -- a payload and its signature
  unfoldable pub signed : List ℕ → String
  unfolding encode_bytes
  signed payload =
      append_text (encode_bytes payload) (append_text "." (encode_bytes (lib.digest payload)))

  -- `encode`
  unfoldable pub encode : Claims → String
  unfolding signed
  encode claims = signed (lib.dumps (payload_of claims))

  abbrev pub read_payload : Option Entries → Option Claims
  read_payload none = none
  read_payload (some es) = read_claims es

  -- the test of the signature
  abbrev pub verified : Option (List ℕ) → Option (List ℕ) → Option Claims
  verified (some payload) (some signature) =
      if same_bytes signature (lib.digest payload) then read_payload (lib.loads payload) else none
  verified _ _ = none

  abbrev pub decode_parts : Option (String × String) → Option Claims
  decode_parts none = none
  decode_parts (some (a, s)) = verified (decode_bytes a) (decode_bytes s)

  -- `decode`; `none` is an InvalidContentCursor
  unfoldable pub decode : String → Option Claims
  unfolding decode_bytes read_claims
  decode cursor =
      if str_eq cursor "" || ltb 2048 (text_length cursor)
      then none
      else decode_parts (split_dot cursor)

  -- the codec that the Content service is given
  abbrev pub codec : CursorCodec
  codec = record { encode = encode; decode = decode }
