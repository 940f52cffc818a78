-- ===== src/Content/Read.antt =====
-- application/content/service.py: `read`, with the cursor codec of the service as a parameter, and a
-- client that follows the cursors.
use web_access_mcp_server.Base.{
  ℕ, zero, suc, String, ◌≡◌, ◌≤◌, Bool, true, false, not, ◌&&◌, Option, none, some, List, [], ◌∷◌,
  length, leb, ltb, ◌==◌, str_eq, if◌then◌else◌, is_some, text_length,
}
use web_access_mcp_server.Base.Effects.{Result, ok, raised, and_then}
use web_access_mcp_server.Content.Model.{RepresentationKind}
use web_access_mcp_server.Content.Repository.{ContentRecord, Table, Inspection}
use web_access_mcp_server.Content.Access.{
  ContentError, Caller, ContentRelation, ContentRef, load_authorized, content_ref,
}
use web_access_mcp_server.Content.Reading.{ReadError, Utf8, read_utf8_chunk}
pub mod Cursors

-- `ContentCursorClaims`
pub record Claims : Type 0 where
  pub owner_principal_id : String
  pub content_id : String
  pub content_revision : ℕ
  pub byte_offset : ℕ

abbrev pub claims_of : String → String → ℕ → ℕ → Claims
claims_of owner content_id revision offset = record {
  owner_principal_id = owner;
  content_id = content_id;
  content_revision = revision;
  byte_offset = offset;
}

-- `ContentCursorCodec`; `decode` gives `none` where it raises ValueError
pub record CursorCodec : Type 0 where
  pub encode : Claims → String
  pub decode : String → Option Claims

-- What a codec promises of the cursors into a revision of a Content up to an offset: it reads those
-- that it has written, and they are short enough.
pub record CursorLaws (cursors : CursorCodec) (owner content_id : String) (revision limit : ℕ)
    : Type 0 where
  pub decode-encode :
      (offset : ℕ)
      → offset ≤ limit
      → cursors.decode (cursors.encode (claims_of owner content_id revision offset))
        ≡ some (claims_of owner content_id revision offset)
  pub length-encode :
      (offset : ℕ)
      → offset ≤ limit
      → text_length (cursors.encode (claims_of owner content_id revision offset)) ≤ 2048

unfoldable pub refs : List ContentRecord → Result ContentError (List ContentRef)
unfolding content_ref
refs [] = ok []
refs (r ∷ rs) =
    and_then (content_ref r.content) (λ ref. and_then (refs rs) (λ rest. ok (ref ∷ rest)))

abbrev pub is_text : RepresentationKind → Bool
is_text RepresentationKind.text = true
is_text RepresentationKind.markdown = true
is_text RepresentationKind.structured = true
is_text _ = false

-- `except UnicodeDecodeError`; a ContentCursorError goes through
abbrev pub error_of : ReadError → ContentError
error_of ReadError.cursor_offset = ContentError.invalid_cursor
error_of _ = ContentError.lifecycle

unfoldable pub is_match : Caller → ContentRecord → Claims → Bool
is_match caller r claims =
    str_eq claims.owner_principal_id caller.principal_id
    && str_eq claims.content_id r.content.content_id
    && claims.content_revision == r.content.revision

abbrev pub offset_in : Caller → ContentRecord → Option Claims → Result ContentError ℕ
unfolding is_match
offset_in caller r none = raised ContentError.invalid_cursor
offset_in caller r (some claims) =
    if is_match caller r claims then ok claims.byte_offset else raised ContentError.invalid_cursor

module _ (codec : Utf8) (cursors : CursorCodec) where
  pub record ReadResult : Type 0 where
    pub content : ContentRef
    pub text : Option (List codec.Character)
    pub returned_chars : ℕ
    pub next_cursor : Option String
    pub inspection : Option Inspection
    pub available_representations : List ContentRef

  -- the offset where a read begins
  unfoldable pub start_offset : Caller → ContentRecord → Option String → Result ContentError ℕ
  start_offset caller r none = ok 0
  start_offset caller r (some cursor) =
      if ltb 2048 (text_length cursor)
      then raised ContentError.invalid_cursor
      else offset_in caller r (cursors.decode cursor)

  abbrev pub claims_at : Caller → ContentRecord → ℕ → Claims
  claims_at caller r = claims_of caller.principal_id r.content.content_id r.content.revision

  abbrev pub next_of : Caller → ContentRecord → Option ℕ → Option String
  next_of caller r none = none
  next_of caller r (some offset) = some (cursors.encode (claims_at caller r offset))

  -- the part after `_read_utf8_chunk`
  unfoldable pub text_result :
      Caller
      → ContentRecord
      → ContentRef
      → List ContentRef
      → Result ReadError (List codec.Character × Option ℕ)
      → Result ContentError ReadResult
  text_result caller r reference representations (raised e) = raised (error_of e)
  text_result caller r reference representations (ok (text, next)) = ok (record {
    content = reference;
    text = some text;
    returned_chars = length text;
    next_cursor = next_of caller r next;
    inspection = r.inspection;
    available_representations = representations;
  })

  unfoldable pub read_key :
      Option String → (String → Result ContentError ReadResult) → Result ContentError ReadResult
  read_key none go = raised ContentError.lifecycle
  read_key (some key) go = go key

  unfoldable pub read_record :
      Caller
      → ℕ
      → Option String
      → (String → List (List ℕ))
      → ContentRecord
      → List ContentRef
      → ContentRef
      → Result ContentError ReadResult
  unfolding start_offset text_result read_key read_utf8_chunk
  read_record caller max_chars cursor open_stream r representations reference =
      if not (is_text r.content.representation_kind)
      then (if is_some cursor
          then raised ContentError.invalid_cursor
          else ok (record {
            content = reference;
            text = none;
            returned_chars = 0;
            next_cursor = none;
            inspection = r.inspection;
            available_representations = representations;
          }))
      else and_then (start_offset caller r cursor) (λ offset. read_key r.storage_key (λ key.
        text_result caller r reference representations
          (read_utf8_chunk codec offset max_chars (open_stream key))))

  unfoldable pub read :
      Caller
      → String
      → ℕ
      → Option String
      → Table
      → List ContentRelation
      → (String → List (List ℕ))
      → Result ContentError ReadResult
  unfolding load_authorized refs content_ref read_record
  read caller content_id max_chars cursor t relations open_stream =
      if not (leb 1 max_chars && leb max_chars 30000)
      then raised ContentError.bad_request
      else and_then (load_authorized caller content_id t relations) (λ loaded.
        and_then (refs loaded.1) (λ representations.
          and_then (content_ref loaded.0.content)
            (read_record caller max_chars cursor open_stream loaded.0 representations)))
