-- ===== src/Content/Reading/Pages.antt =====
-- application/content/service.py: `_read_utf8_chunk` against the text, and a reader that follows its
-- offsets.
use web_access_mcp_server.Base.{
  ℕ, zero, suc, ◌+◌, ◌≤◌, ◌<◌, ◌≡◌, refl, sym, ap, subst, ◌∙◌, inl, inr, Option, none, some, List,
  [], ◌∷◌, ◌++◌, take, drop, concat, length, length-append, arith, append_nil, take-drop, le-or-lt,
  le→ltb_false, le→leb, lt→leb_false, take_add, drop_add, length-drop, take-append_left,
  length-take, All,
}
use web_access_mcp_server.Base.Effects.{Result, ok, raised}
use web_access_mcp_server.Content.Reading.{
  ReadError, Utf8, encode_text, Progress, read_chunks, page, finish_decode, after_chunks,
  read_utf8_chunk, Pages, add_page, next_page, read_pages,
}
use web_access_mcp_server.Content.Reading.Split.{encode_text-append, Utf8Laws}
use web_access_mcp_server.Content.Reading.Loop.{Done, Ends, skip-Ends}

module _ (codec : Utf8) (laws : Utf8Laws codec) where
  -- the offset of the character at a position
  unfoldable pub offset_of : List codec.Character → ℕ → ℕ
  offset_of text k = length (encode_text codec (take k text))

  -- A page of the beginning of a text that is longer than asked for is the page of the text.
  page-append :
      (offset max_chars : ℕ) (value left : List codec.Character)
      → max_chars < length value
      → page codec offset max_chars value ≡ page codec offset max_chars (value ++ left)
  unfolding page
  page-append offset max_chars value left lt =
      rw
        (
          lt→leb_false (length value) max_chars lt,
          lt→leb_false (length (value ++ left)) max_chars
              (rw (length-append value left) (omega (arith, lt))),
          take-append_left max_chars value left (omega (arith, lt)),
        )
        refl

  after_chunks-page :
      (offset max_chars : ℕ) (text : List codec.Character) (r : Result ReadError (Progress codec))
      → Ends codec laws offset max_chars text r
      → after_chunks codec offset max_chars r ≡ ok (page codec offset max_chars text)
  unfolding after_chunks Done finish_decode
  after_chunks-page offset max_chars text r (p, e, at, end) =
      ap (after_chunks codec offset max_chars) e ∙ result end
    where
      result :
          Done codec laws max_chars text p
          → after_chunks codec offset max_chars (ok p) ≡ ok (page codec offset max_chars text)
      result (inl (n, v, h)) =
          let done = laws.decode_end p.decoder h in
          rw (le→ltb_false p.skipped offset (omega (arith, at)), n, done.1)
            (ap (λ l. ok (page codec offset max_chars l)) (append_nil p.value ∙ v))
      result (inr (y, left, v, lt)) =
          rw (le→ltb_false p.skipped offset (omega (arith, at)), y)
            (ap ok (
              page-append offset max_chars p.value left lt
              ∙ ap (page codec offset max_chars) (sym v)))

  -- One page: the characters at a position, as many as are asked for or as there are, and the offset
  -- behind them if there are more.
  pub read_utf8_chunk-page :
      (text : List codec.Character) (k max_chars : ℕ) (chunks : List (List ℕ))
      → concat chunks ≡ encode_text codec text
      → read_utf8_chunk codec (offset_of text k) max_chars chunks
        ≡ ok (page codec (offset_of text k) max_chars (drop k text))
  unfolding read_utf8_chunk offset_of
  read_utf8_chunk-page text k max_chars chunks bytes =
      after_chunks-page (offset_of text k) max_chars (drop k text)
        (read_chunks codec (offset_of text k) max_chars 0 codec.start [] chunks)
        (skip-Ends codec laws (drop k text) (offset_of text k) max_chars chunks 0
          (encode_text codec (take k text)) (omega arith) cut)
    where
      cut : concat chunks ≡ encode_text codec (take k text) ++ encode_text codec (drop k text)
      cut =
          bytes
          ∙ ap (encode_text codec) (sym (take-drop k text))
          ∙ encode_text-append codec (take k text) (drop k text)

  -- the offset behind a page
  offset_of_add :
      (text : List codec.Character) (k n : ℕ)
      → offset_of text k + length (encode_text codec (take n (drop k text)))
        ≡ offset_of text (k + n)
  unfolding offset_of
  offset_of_add text k n =
      sym
        (length-append (encode_text codec (take k text)) (encode_text codec (take n (drop k text))))
      ∙ ap length (sym (encode_text-append codec (take k text) (take n (drop k text))))
      ∙ ap (λ l. length (encode_text codec l)) (sym (take_add k n text))

  -- a reader that ended, with the pages of a text
  abbrev pub ArePages : ℕ → List codec.Character → Pages codec → Type 0
  ArePages max_chars text r =
      (pages : List (List codec.Character)) × (r ≡ some (ok pages))
      × (concat pages ≡ text)
      × All (λ p. length p ≤ max_chars) pages

  page_last :
      (offset max_chars : ℕ) (value : List codec.Character)
      → length value ≤ max_chars
      → page codec offset max_chars value ≡ (value, none)
  unfolding page
  page_last offset max_chars value le = rw (le→leb (length value) max_chars le) refl

  page_more :
      (text : List codec.Character) (k max_chars : ℕ)
      → max_chars < length (drop k text)
      → page codec (offset_of text k) max_chars (drop k text)
        ≡ (take max_chars (drop k text), some (offset_of text (k + max_chars)))
  unfolding page
  page_more text k max_chars lt =
      rw (lt→leb_false (length (drop k text)) max_chars lt, offset_of_add text k max_chars) refl

  pub offset_of-le :
      (text : List codec.Character) (k : ℕ) → offset_of text k ≤ length (encode_text codec text)
  unfolding offset_of
  offset_of-le text k = omega (
    arith,
    ap (λ l. length (encode_text codec l)) (take-drop k text),
    ap length (encode_text-append codec (take k text) (drop k text)),
    length-append (encode_text codec (take k text)) (encode_text codec (drop k text)),
  )

  -- the offset that a page returns
  pub next_offset :
      (text : List codec.Character) (k max_chars : ℕ) (chunks : List (List ℕ))
      → concat chunks ≡ encode_text codec text
      → (part : List codec.Character) (next : ℕ)
      → read_utf8_chunk codec (offset_of text k) max_chars chunks ≡ ok (part, some next)
      → next ≡ offset_of text (k + max_chars)
  next_offset text k max_chars chunks bytes part next e =
      elim (le-or-lt (length (drop k text)) max_chars) [
        | inl le ↦ absurd (
            not_some (
              ap offset_in_page (sym (page_last (offset_of text k) max_chars (drop k text) le))
              ∙ same))
        | inr lt ↦ value (sym same ∙ ap offset_in_page (page_more text k max_chars lt))
      ]
    where
      offset_in_page : List codec.Character × Option ℕ → Option ℕ
      offset_in_page p = p.1

      of : Result ReadError (List codec.Character × Option ℕ) → Option ℕ
      of (ok p) = p.1
      of (raised x) = none

      same : offset_in_page (page codec (offset_of text k) max_chars (drop k text)) ≡ some next
      same = ap of (sym (read_utf8_chunk-page text k max_chars chunks bytes) ∙ e)

      not_some : Path (Option ℕ) none (some next) → ⊥
      not_some h = cc (h)

      value :
          Path (Option ℕ) (some next) (some (offset_of text (k + max_chars)))
          → next ≡ offset_of text (k + max_chars)
      value h = cc (h)

  module _ (text : List codec.Character) (max_chars : ℕ) (streams : ℕ → List (List ℕ)) where
    -- one page more
    next_page-ArePages :
        (fuel k : ℕ)
        → max_chars < length (drop k text)
        → ArePages max_chars
            (drop (k + max_chars) text)
            (read_pages codec fuel max_chars streams (offset_of text (k + max_chars)))
        → ArePages max_chars (drop k text) (
            next_page codec
              (ok (take max_chars (drop k text), some (offset_of text (k + max_chars))))
              (λ next. read_pages codec fuel max_chars streams next))
    unfolding next_page
    next_page-ArePages fuel k lt rest = (
      take max_chars (drop k text) ∷ rest.0,
      ap (add_page codec (take max_chars (drop k text))) rest.1,
      ap (λ l. take max_chars (drop k text) ++ l) (rest.2 ∙ drop_add k max_chars text)
          ∙ take-drop max_chars (drop k text),
      (length-take max_chars (drop k text), rest.3),
    )

    read_pages-ArePages :
        (fuel k : ℕ)
        → 1 ≤ max_chars
        → ((o : ℕ) → concat (streams o) ≡ encode_text codec text)
        → length (drop k text) < fuel
        → ArePages max_chars
            (drop k text)
            (read_pages codec fuel max_chars streams (offset_of text k))
    unfolding read_pages next_page
    read_pages-ArePages zero k some_chars bytes enough = absurd (omega (arith, enough))
    read_pages-ArePages (suc fuel) k some_chars bytes enough =
        let one =
          read_utf8_chunk-page text k max_chars (streams (offset_of text k))
            (bytes (offset_of text k)) in
        elim (le-or-lt (length (drop k text)) max_chars) [
          | inl le ↦ (
            drop k text ∷ [],
            ap (λ r. next_page codec r (λ next. read_pages codec fuel max_chars streams next))
                (one ∙ ap ok (page_last (offset_of text k) max_chars (drop k text) le)),
            append_nil (drop k text),
            (le, tt),
          )
          | inr lt ↦
              let rest =
                read_pages-ArePages fuel (k + max_chars) some_chars bytes
                  (shorter fuel k some_chars lt enough) in
              subst (ArePages max_chars (drop k text))
                (sym (
                  ap (λ r. next_page codec r (λ next. read_pages codec fuel max_chars streams next))
                    (one ∙ ap ok (page_more text k max_chars lt))))
                (next_page-ArePages fuel k lt rest)
        ]
      where
        shorter :
            (n j : ℕ)
            → 1 ≤ max_chars
            → max_chars < length (drop j text)
            → length (drop j text) < suc n
            → length (drop (j + max_chars) text) < n
        shorter n j some_chars lt enough =
            rw (drop_add j max_chars text, length-drop max_chars (drop j text))
              (omega (arith, some_chars, lt, enough))

    -- A reader that asks for at least one character, starts at the beginning and follows the offsets
    -- comes to a page without an offset after at most one page for each character and one more, whatever the chunks that the streams come in, and its pages, none
    -- longer than asked for, together are the text.
    pub read_pages-text :
        1 ≤ max_chars
        → ((o : ℕ) → concat (streams o) ≡ encode_text codec text)
        → (pages : List (List codec.Character)) × (read_pages codec
              (suc (length text))
              max_chars
              streams
              0
            ≡ some (ok pages))
          × (concat pages ≡ text)
          × All (λ p. length p ≤ max_chars) pages
    unfolding offset_of
    read_pages-text some_chars bytes =
        read_pages-ArePages (suc (length text)) 0 some_chars bytes (omega arith)
