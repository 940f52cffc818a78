-- ===== src/Content/Reading.antt =====
-- application/content/service.py: the reads of a stream of chunks. A byte is a number, a text is the
-- list of its characters, and the UTF-8 codec of the standard library is a parameter.
use web_access_mcp_server.Base.{
  ℕ, zero, suc, ◌+◌, ◌-◌, ◌≤◌, ◌≡◌, ◌⊎◌, min, Bool, true, false, not, Option, none, some, List, [],
  ◌∷◌, ◌++◌, take, drop, length, ltb, leb, if◌then◌else◌,
}
use web_access_mcp_server.Base.Effects.{Result, ok, raised}
pub mod Bounded
pub mod Split
pub mod Loop
pub mod Pages

pub data ReadError : Type 0 where
  -- ContentLifecycleError, ContentCursorError and UnicodeDecodeError
  input_limit cursor_offset not_utf8 : ReadError

-- `_read_bounded` from the bytes read so far
unfoldable pub bounded : Bool → ℕ → List ℕ → List (List ℕ) → Result ReadError (List ℕ)
bounded strict limit result [] = ok result
bounded strict limit result (chunk ∷ chunks) =
    let remaining = limit - length result in
    let result' = result ++ take (remaining + (if strict then 1 else 0)) chunk in
    let rest = bounded strict limit result' chunks in
    if leb limit (length result)
    then (if strict then raised input_limit else ok result)
    else if ltb limit (length result')
    then raised input_limit
    else if leb limit (length result')
    then (if strict then rest else ok result')
    else rest

unfoldable pub read_bounded : Bool → ℕ → List (List ℕ) → Result ReadError (List ℕ)
unfolding bounded
read_bounded strict limit = bounded strict limit []

-- the encoder, and the incremental decoder with `errors="strict"`
pub record Utf8 : Type 1 where
  pub Character : Type 0
  pub State : Type 0
  pub encode : Character → List ℕ
  pub start : State
  pub decode : State → List ℕ → Bool → Result ReadError (List Character × State)

module _ (codec : Utf8) where
  -- `text.encode("utf-8")`
  abbrev pub encode_text : List codec.Character → List ℕ
  encode_text [] = []
  encode_text (c ∷ cs) = codec.encode c ++ encode_text cs

  -- where the loop of `_read_utf8_chunk` stands when it ends
  pub record Progress : Type 0 where
    pub skipped : ℕ
    pub decoder : codec.State
    pub value : List codec.Character
    pub exceeded : Bool

  -- the part of the loop after `decoder.decode`; `go` reads the chunks that follow
  unfoldable pub after_decode :
      ℕ
      → ℕ
      → List codec.Character
      → Result ReadError (List codec.Character × codec.State)
      → (codec.State → List codec.Character → Result ReadError Progress)
      → Result ReadError Progress
  after_decode max_chars skipped value (raised e) go = raised e
  after_decode max_chars skipped value (ok (decoded, decoder)) go =
      if ltb max_chars (length (value ++ decoded))
      then ok (record {
        skipped = skipped;
        decoder = decoder;
        value = value ++ decoded;
        exceeded = true;
      })
      else go decoder (value ++ decoded)

  -- `if not chunk: continue`
  abbrev pub unless_empty {ℓ} : {A : Type ℓ} → List ℕ → A → (List ℕ → A) → A
  unless_empty [] skip go = skip
  unless_empty (b ∷ bs) skip go = go (b ∷ bs)

  unfoldable pub read_chunks :
      ℕ → ℕ → ℕ → codec.State → List codec.Character → List (List ℕ) → Result ReadError Progress
  unfolding after_decode
  read_chunks offset max_chars skipped decoder value [] =
      ok (record { skipped = skipped; decoder = decoder; value = value; exceeded = false })
  read_chunks offset max_chars skipped decoder value (chunk ∷ chunks) =
      let consumed = min (length chunk) (offset - skipped) in
      if ltb skipped offset
      then unless_empty (drop consumed chunk)
          (read_chunks offset max_chars (skipped + consumed) decoder value chunks)
          (λ left.
            after_decode max_chars (skipped + consumed) value (codec.decode decoder left false)
              (λ d v. read_chunks offset max_chars (skipped + consumed) d v chunks))
      else after_decode max_chars skipped value (codec.decode decoder chunk false)
          (λ d v. read_chunks offset max_chars skipped d v chunks)

  -- `value[:max_chars]` with the offset behind it
  unfoldable pub page : ℕ → ℕ → List codec.Character → List codec.Character × Option ℕ
  page offset max_chars value =
      if leb (length value) max_chars
      then (value, none)
      else (take max_chars value, some (offset + length (encode_text (take max_chars value))))

  -- the part after the loop
  unfoldable pub finish_decode :
      ℕ
      → ℕ
      → List codec.Character
      → Result ReadError (List codec.Character × codec.State)
      → Result ReadError (List codec.Character × Option ℕ)
  unfolding page
  finish_decode offset max_chars value (raised e) = raised e
  finish_decode offset max_chars value (ok (decoded, decoder)) =
      ok (page offset max_chars (value ++ decoded))

  unfoldable pub after_chunks :
      ℕ → ℕ → Result ReadError Progress → Result ReadError (List codec.Character × Option ℕ)
  unfolding finish_decode
  after_chunks offset max_chars (raised e) = raised e
  after_chunks offset max_chars (ok p) =
      if ltb p.skipped offset
      then raised cursor_offset
      else if p.exceeded
      then ok (page offset max_chars p.value)
      else finish_decode offset max_chars p.value (codec.decode p.decoder [] true)

  -- `_read_utf8_chunk` of an opened stream
  unfoldable pub read_utf8_chunk :
      ℕ → ℕ → List (List ℕ) → Result ReadError (List codec.Character × Option ℕ)
  unfolding read_chunks after_chunks
  read_utf8_chunk offset max_chars chunks =
      after_chunks offset max_chars (read_chunks offset max_chars 0 codec.start [] chunks)

  -- what a reader that follows the offsets has in the end; none where it does not end within the
  -- reads that it is given
  abbrev pub Pages : Type 0
  Pages = Option (Result ReadError (List (List codec.Character)))

  abbrev pub add_page : List codec.Character → Pages → Pages
  add_page text none = none
  add_page text (some (ok pages)) = some (ok (text ∷ pages))
  add_page text (some (raised e)) = some (raised e)

  -- a reader that follows the offsets, each read with the chunks of a stream of its own, and ends
  -- where a page has no offset behind it
  unfoldable pub next_page :
      Result ReadError (List codec.Character × Option ℕ) → (ℕ → Pages) → Pages
  next_page (raised e) go = some (raised e)
  next_page (ok (text, none)) go = some (ok (text ∷ []))
  next_page (ok (text, some offset)) go = add_page text (go offset)

  unfoldable pub read_pages : ℕ → ℕ → (ℕ → List (List ℕ)) → ℕ → Pages
  unfolding next_page read_utf8_chunk
  read_pages zero max_chars streams offset = none
  read_pages (suc fuel) max_chars streams offset =
      next_page (read_utf8_chunk offset max_chars (streams offset))
        (λ next. read_pages fuel max_chars streams next)
