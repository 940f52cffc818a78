-- ===== src/Examples/Cursor.antt =====
-- infrastructure/content/cursor.py on concrete inputs. Bytes are written as a run of `a` for each,
-- ended by a `b`; the dictionary is that of one owner and one Content.
use Prim.Native.Char.{code}
use web_access_mcp_server.Base.{
  ◌≡◌, refl, ap, ◌∙◌, ℕ, zero, suc, ◌+◌, ◌%◌, ◌-◌, ◌≤◌, arith, String, false, Option, none, some,
  List, [], ◌∷◌, ◌==◌, if◌then◌else◌, text_length, append_text,
}
use web_access_mcp_server.Content.Model.{is_content_id}
use web_access_mcp_server.Content.Read.{claims_of}
use web_access_mcp_server.Content.Cursor.{
  text, number, Entries, CursorLibrary, padding, encode_bytes, encode, decode,
}
use web_access_mcp_server.Content.Cursor.Roundtrip.{
  LibraryLaws, ValidClaims, has_dot, decode-encode,
}
use web_access_mcp_server.Content.Cursor.Signed.{Signed, decode-Signed}

abbrev run_of : ℕ → String → String
run_of zero s = append_text "b" s
run_of (suc n) s = append_text "a" (run_of n s)

abbrev written : List ℕ → String
written [] = ""
written (n ∷ ns) = run_of n (written ns)

abbrev read_from : ℕ → String → List ℕ
read_from k String.[] = []
read_from k (String.◌∷◌ c s) =
    let more = read_from (suc k) s in
    let next = k ∷ read_from 0 s in
    if code c == b'a' then more else if code c == b'b' then next else []

abbrev id : String
id = "cnt_0123456789abcdef0123456789abcdef"

abbrev entries : List ℕ → Option Entries
entries (b ∷ r ∷ []) =
    some (
      ("b", number b) ∷ ("c", text id) ∷ ("o", text "ada") ∷ ("r", number r) ∷ ("v", number 1) ∷ [])
entries _ = none

abbrev lib : CursorLibrary
lib = record {
  dumps = λ p. p.b ∷ p.r ∷ [];
  loads = entries;
  urlsafe_b64encode = written;
  rstrip_padding = λ s. s;
  b64decode = λ s. some (read_from 0 s);
  digest = λ bytes. 5 ∷ [];
}

read_from-padding : (n : ℕ) → read_from 0 (padding n) ≡ []
read_from-padding zero = refl
read_from-padding (suc n) = refl

read_from-run_of :
    (n k : ℕ) (s t : String)
    → read_from k (append_text (run_of n s) t) ≡ (k + n) ∷ read_from 0 (append_text s t)
read_from-run_of zero k s t = ap (λ m. m ∷ read_from 0 (append_text s t)) (omega arith)
read_from-run_of (suc n) k s t =
    read_from-run_of n (suc k) s t ∙ ap (λ m. m ∷ read_from 0 (append_text s t)) (omega arith)

read_from-written :
    (bytes : List ℕ) (n : ℕ) → read_from 0 (append_text (written bytes) (padding n)) ≡ bytes
read_from-written [] n = read_from-padding n
read_from-written (b ∷ bytes) n =
    read_from-run_of b 0 (written bytes) (padding n)
    ∙ ap (λ m. m ∷ read_from 0 (append_text (written bytes) (padding n))) (omega arith)
    ∙ ap (λ l. b ∷ l) (read_from-written bytes n)

no_dot_in_run : (n : ℕ) (s : String) → has_dot s ≡ false → has_dot (run_of n s) ≡ false
no_dot_in_run zero s h = h
no_dot_in_run (suc n) s h = no_dot_in_run n s h

no_dot : (bytes : List ℕ) → has_dot (written bytes) ≡ false
no_dot [] = refl
no_dot (b ∷ bytes) = no_dot_in_run b (written bytes) (no_dot bytes)

laws : LibraryLaws lib "ada" id
unfolding encode_bytes
laws = record {
  b64decode-encode =
      λ bytes. ap some (read_from-written bytes ((4 - text_length (written bytes) % 4) % 4));
  has_dot-encode = no_dot;
  loads-dumps = λ revision offset. refl;
}

valid : ValidClaims (claims_of "ada" id 3 2)
unfolding is_content_id
valid = record { owner = refl; revision = refl; content_id = refl }

decode-encode_example :
    decode lib (encode lib (claims_of "ada" id 3 2)) ≡ some (claims_of "ada" id 3 2)
unfolding encode
decode-encode_example = decode-encode lib "ada" id laws 3 2 valid (omega arith)

decode-Signed_example :
    (text_length "aabaaab.aaaaab" ≤ 2048) × Signed lib "aabaaab.aaaaab" (claims_of "ada" id 3 2)
unfolding decode is_content_id
decode-Signed_example = decode-Signed lib "aabaaab.aaaaab" (claims_of "ada" id 3 2) refl

abbrev forged : String
forged = "aaabaaab.aaab"

a_forged_cursor : decode lib forged ≡ none
unfolding decode
a_forged_cursor = refl
