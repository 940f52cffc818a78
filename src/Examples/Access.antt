-- ===== src/Examples/Access.antt =====
-- The loads and the reads of application/content/service.py on concrete inputs.
use web_access_mcp_server.Base.{
  ℕ, zero, suc, String, ◌≡◌, ◌≤◌, refl, ap, true, none, some, List, [], ◌∷◌, length, concat, All,
  text_length, arith,
}
use web_access_mcp_server.Base.Effects.{Result, ok, raised}
use web_access_mcp_server.Content.Model.{available, RepresentationKind, hex_text}
use web_access_mcp_server.Content.Repository.{ContentRecord, rows_of}
use web_access_mcp_server.Content.Access.{
  Caller, ContentRef, load_authorized, is_shown, targets, for_source, content_ref,
}
use web_access_mcp_server.Content.Access.Readable.{MayLoad, load_authorized-MayLoad}
use web_access_mcp_server.Content.Read.{claims_of, CursorCodec, CursorLaws, refs}
use web_access_mcp_server.Content.Read.Cursors.{IsText, follow, follow-text}
use web_access_mcp_server.Content.Batch.{CodeAttribute, Fault, Thrown, BatchEscape, ask_many}
use web_access_mcp_server.Content.Batch.Delivered.{Delivered}
use web_access_mcp_server.Examples.Content.{content_id, sha256, created}
use web_access_mcp_server.Examples.Reading.{codec, laws, chunks, text}

abbrev pub row : ContentRecord
row = record {
  content = record created {
    state = available;
    revision = 3;
    representation_kind = RepresentationKind.text;
    size_bytes = some 6;
    sha256 = some sha256;
  };
  storage_key = some "key";
  staging_key = none;
  staged_at = some 1;
  available_at = some 2;
  updated_at = 2;
  failure_code = none;
  inspection = none;
}

abbrev pub caller : Caller
caller = record { principal_id = "p"; scopes = "content:read" ∷ []; now = 5 }

load_authorized-MayLoad_example :
    MayLoad caller content_id (row ∷ []) row × All (λ x. is_shown caller x ≡ true) []
unfolding load_authorized rows_of hex_text
load_authorized-MayLoad_example =
    load_authorized-MayLoad caller content_id (row ∷ []) [] row [] refl

marks : ℕ → String
marks zero = String.[]
marks (suc n) = String.◌∷◌ "m" (marks n)

length-marks : (n : ℕ) → text_length (marks n) ≡ n
unfolding marks
length-marks zero = refl
length-marks (suc n) = ap suc (length-marks n)

-- a codec for the cursors of one revision of one Content
abbrev cursors : CursorCodec
cursors = record {
  encode = λ claims. marks claims.byte_offset;
  decode = λ s. some (claims_of "p" content_id 3 (text_length s));
}

cursor_laws : CursorLaws cursors "p" content_id 3 6
cursor_laws = record {
  decode-encode = λ offset le. ap (λ n. some (claims_of "p" content_id 3 n)) (length-marks offset);
  length-encode = λ offset le. omega (arith, length-marks offset, le);
}

abbrev reference : ContentRef
reference = record {
  content_id = content_id;
  media_type = none;
  representation = RepresentationKind.text;
  size_bytes = 6;
  sha256 = sha256;
  created_at = 0;
  expires_at = none;
}

IsText-of_caller :
    IsText codec cursors caller content_id 2 (row ∷ []) [] (λ key. chunks) row "key" reference []
unfolding refs targets for_source content_ref
IsText-of_caller = record {
  some_chars = omega arith;
  few_chars = omega arith;
  may_load = load_authorized-MayLoad_example.0;
  shown = refl;
  whole = refl;
  is_a_text = refl;
  stored = refl;
}

follow-text_example :
    (texts : List (List ℕ)) × (follow codec cursors caller content_id 2
        (row ∷ [])
        []
        (λ key. chunks)
        4
        none
      ≡ some (ok texts))
    × (concat texts ≡ text)
    × All (λ p. length p ≤ 2) texts
follow-text_example =
    follow-text codec cursors caller content_id 2 (row ∷ []) [] (λ key. chunks) row "key" reference
      [] IsText-of_caller laws text cursor_laws refl

-- The second Content is not known.
abbrev ask : ℕ → String → Result Thrown ℕ
ask zero id = ok 7
ask (suc n) id = raised (Thrown.an_exception Fault.not_found)

-- The exception of the second Content has a code that is no machine code.
abbrev ask_refused : ℕ → String → Result Thrown ℕ
ask_refused zero id = ok 7
ask_refused (suc n) id =
    raised (Thrown.an_exception (Fault.other (CodeAttribute.code_text "Not-A-Code")))

a_code_that_is_refused :
    ask_many ("content:read" ∷ []) "content:read" "content:read" "op" ask_refused ("a" ∷ "b" ∷ [])
    ≡ raised BatchEscape.refused_error
unfolding ask_many
a_code_that_is_refused = refl
