-- ===== src/Content/Read/Cursors.antt =====
-- application/content/service.py: a client that reads a text and follows the cursors.
use web_access_mcp_server.Base.{
  ℕ, zero, suc, String, ◌+◌, ◌≡◌, ◌≤◌, refl, sym, ap, subst, ◌∙◌, eq_iff, ==_iff, true, Option,
  none, some, List, [], ◌∷◌, length, text_length, All, concat, le→leb, le→ltb_false,
}
use web_access_mcp_server.Base.Effects.{Result, ok, raised}
use web_access_mcp_server.Content.Repository.{ContentRecord, Table}
use web_access_mcp_server.Content.Access.{
  ContentError, Caller, ContentRelation, ContentRef, content_ref, targets, for_source,
}
use web_access_mcp_server.Content.Access.Readable.{MayLoad, MayLoad-load_authorized}
use web_access_mcp_server.Content.Reading.{
  ReadError, Utf8, encode_text, read_utf8_chunk, Pages, add_page, next_page, read_pages,
}
use web_access_mcp_server.Content.Reading.Split.{Utf8Laws}
use web_access_mcp_server.Content.Reading.Pages.{
  read_pages-text, offset_of, next_offset, offset_of-le,
}
use web_access_mcp_server.Content.Read.{
  CursorCodec, CursorLaws, ReadResult, refs, is_text, is_match, offset_in, start_offset, claims_at,
  text_result, read_key, read_record, read,
}

module _ (codec : Utf8) (cursors : CursorCodec) where
  -- what a client that follows the cursors has in the end; none where it comes to no last read within
  -- the reads that it is given
  abbrev pub Texts : Type 0
  Texts = Option (Result ContentError (List (List codec.Character)))

  abbrev pub add_text : List codec.Character → Texts → Texts
  add_text text none = none
  add_text text (some (ok texts)) = some (ok (text ∷ texts))
  add_text text (some (raised e)) = some (raised e)

  -- The last read is one with a text and without a cursor.
  abbrev pub go_on : Option (List codec.Character) → Option String → (String → Texts) → Texts
  go_on none next go = none
  go_on (some text) none go = some (ok (text ∷ []))
  go_on (some text) (some cursor) go = add_text text (go cursor)

  abbrev pub next_read : Result ContentError (ReadResult codec cursors) → (String → Texts) → Texts
  next_read (raised e) go = some (raised e)
  next_read (ok r) go = go_on r.text r.next_cursor go

  module _ (caller : Caller) (content_id : String) (max_chars : ℕ) (t : Table)
      (relations : List ContentRelation) (open_stream : String → List (List ℕ)) where
    -- the texts of at most so many reads, each with the cursor of the last, until a result has none
    unfoldable pub follow : ℕ → Option String → Texts
    unfolding read
    follow zero cursor = none
    follow (suc fuel) cursor =
        next_read (read codec cursors caller content_id max_chars cursor t relations open_stream)
          (λ next. follow fuel (some next))

    -- what the client may rely on: it may load a text whose metadata are complete
    pub record IsText (r : ContentRecord) (key : String) (reference : ContentRef)
        (representations : List ContentRef) : Type 0 where
      pub some_chars : 1 ≤ max_chars
      pub few_chars : max_chars ≤ 30000
      pub may_load : MayLoad caller content_id t r
      pub shown : refs (targets caller t (for_source 32 content_id relations)) ≡ ok representations
      pub whole : content_ref r.content ≡ ok reference
      pub is_a_text : is_text r.content.representation_kind ≡ true
      pub stored : r.storage_key ≡ some key

    module _ (r : ContentRecord) (key : String) (reference : ContentRef)
        (representations : List ContentRef) (h : IsText r key reference representations) where
      read_record_lem :
          (cursor : Option String) (offset : ℕ)
          → start_offset codec cursors caller r cursor ≡ ok offset
          → read_record codec cursors caller max_chars cursor open_stream r representations
              reference
            ≡ text_result codec cursors caller r reference representations
                (read_utf8_chunk codec offset max_chars (open_stream key))
      unfolding read_record read_key
      read_record_lem cursor offset at = rw (h.is_a_text, at, h.stored) refl

      read_lem :
          (cursor : Option String) (offset : ℕ)
          → start_offset codec cursors caller r cursor ≡ ok offset
          → read codec cursors caller content_id max_chars cursor t relations open_stream
            ≡ text_result codec cursors caller r reference representations
                (read_utf8_chunk codec offset max_chars (open_stream key))
      unfolding read
      read_lem cursor offset at =
          rw
            (
              le→leb 1 max_chars h.some_chars,
              le→leb max_chars 30000 h.few_chars,
              MayLoad-load_authorized caller content_id t relations r h.may_load,
              h.shown,
              h.whole,
            )
            (read_record_lem cursor offset at)

      -- The cursor of a read is where the next one begins.
      start_offset-claims_at :
          (limit : ℕ)
          (laws : CursorLaws cursors caller.principal_id r.content.content_id r.content.revision
            limit)
          (offset : ℕ)
          → offset ≤ limit
          → start_offset codec cursors caller r
              (some (cursors.encode (claims_at codec cursors caller r offset)))
            ≡ ok offset
      unfolding start_offset is_match
      start_offset-claims_at limit laws offset le =
          rw
            (
              le→ltb_false 2048
                  (text_length (cursors.encode (claims_at codec cursors caller r offset)))
                  (laws.length-encode offset le),
              laws.decode-encode offset le,
              offset_in,
              is_match,
              (eq_iff caller.principal_id caller.principal_id).1 refl,
              (eq_iff r.content.content_id r.content.content_id).1 refl,
              (==_iff r.content.revision r.content.revision).1 refl,
            )
            refl

      -- the pages that were returned
      pages_of : Pages codec → List (List codec.Character)
      pages_of (some (ok pages)) = pages
      pages_of _ = []

      -- A page more ends where the rest does.
      add_page-ok :
          (part : List codec.Character) (o : Pages codec) (pages : List (List codec.Character))
          → add_page codec part o ≡ some (ok pages)
          → (rest : List (List codec.Character)) × (o ≡ some (ok rest)) × (part ∷ rest ≡ pages)
      unfolding pages_of
      add_page-ok part none pages e = cc (e)
      add_page-ok part (some (raised x)) pages e = cc (e)
      add_page-ok part (some (ok rest)) pages e = (rest, refl, ap pages_of e)

      step_lem :
          (o : Result ReadError (List codec.Character × Option ℕ)) (go : ℕ → Pages codec)
          (go' : String → Texts) (pages : List (List codec.Character))
          → ((text : List codec.Character) (next : ℕ) (rest : List (List codec.Character))
              → o ≡ ok (text, some next)
              → go next ≡ some (ok rest)
              → go' (cursors.encode (claims_at codec cursors caller r next)) ≡ some (ok rest))
          → next_page codec o go ≡ some (ok pages)
          → next_read (text_result codec cursors caller r reference representations o) go'
            ≡ some (ok pages)
      unfolding next_page text_result pages_of
      step_lem (raised x) go go' pages f e = cc (e)
      step_lem (ok (text, none)) go go' pages f e = ap (λ l. some (ok l)) (ap pages_of e)
      step_lem (ok (text, some next)) go go' pages f e =
          let (rest, more, whole) = add_page-ok text (go next) pages e in
          ap (add_text text) (f text next rest refl more) ∙ ap (λ l. some (ok l)) whole

      module _ (utf8 : Utf8Laws codec) (text : List codec.Character)
          (laws : CursorLaws cursors caller.principal_id r.content.content_id r.content.revision
            (length (encode_text codec text)))
          (bytes : concat (open_stream key) ≡ encode_text codec text) where
        follow-read_pages :
            (fuel k : ℕ) (cursor : Option String) (pages : List (List codec.Character))
            → start_offset codec cursors caller r cursor ≡ ok (offset_of codec utf8 text k)
            → read_pages codec fuel max_chars (λ o. open_stream key) (offset_of codec utf8 text k)
              ≡ some (ok pages)
            → follow fuel cursor ≡ some (ok pages)
        unfolding follow read_pages
        follow-read_pages zero k cursor pages at e = cc (e)
        follow-read_pages (suc fuel) k cursor pages at e =
            ap (λ x. next_read x (λ next. follow fuel (some next)))
              (read_lem cursor (offset_of codec utf8 text k) at)
            ∙ step_lem
                (read_utf8_chunk codec (offset_of codec utf8 text k) max_chars (open_stream key))
                (λ next. read_pages codec fuel max_chars (λ o. open_stream key) next)
                (λ next. follow fuel (some next)) pages
                (λ part next rest one more.
                  let next_is =
                    next_offset codec utf8 text k max_chars (open_stream key) bytes part next one in
                  follow-read_pages fuel (k + max_chars)
                    (some (cursors.encode (claims_at codec cursors caller r next))) rest
                    (start_offset-claims_at (length (encode_text codec text)) laws next (
                        subst (λ n. n ≤ length (encode_text codec text)) (sym next_is)
                          (offset_of-le codec utf8 text (k + max_chars)))
                      ∙ ap ok next_is)
                    (subst
                      (λ n.
                        read_pages codec fuel max_chars (λ o. open_stream key) n ≡ some (ok rest))
                      next_is more))
                e

        -- If the caller may load a text whose metadata are complete, a client that reads it without a
        -- cursor, and then with the cursor of each read, comes to a read without a cursor after at
        -- most one read for each character and one more, and has the whole text, in parts no longer
        -- than asked for, given the laws of the two codecs.
        pub follow-text :
            (texts : List (List codec.Character)) × (follow (suc (length text)) none
              ≡ some (ok texts))
            × (concat texts ≡ text)
            × All (λ p. length p ≤ max_chars) texts
        unfolding start_offset offset_of
        follow-text =
            let pages =
              read_pages-text codec utf8 text max_chars (λ o. open_stream key) h.some_chars
                (λ o. bytes) in
            (
              pages.0,
              follow-read_pages (suc (length text)) 0 none pages.0 refl pages.1,
              pages.2,
              pages.3,
            )
