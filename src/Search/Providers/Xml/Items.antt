-- ===== src/Search/Providers/Xml/Items.antt =====
-- The items that `_parse_xml` of infrastructure/search/yandex.py makes.
use web_access_mcp_server.Base.{
  ◌≡◌, refl, ◌⊎◌, inl, inr, ℕ, suc, ◌+◌, ◌≤◌, ◌<◌, arith, String, true, false, not, ◌||◌, Option,
  none, some, List, [], ◌∷◌, ◌++◌, length, length-append, leb, ltb, if◌then◌else◌, text_length,
  take_text, length-take_text, All, All-append, select, Bool-cases, le→leb, or_left, or_right,
  le-or-lt, lt→leb_false,
}
use web_access_mcp_server.Base.Effects.{ok}
use web_access_mcp_server.Search.Registry.{first}
use web_access_mcp_server.Search.Providers.{
  Platform, Parsed, SearchResultItem, validate_result_item, within, web_host,
}
use web_access_mcp_server.Search.Providers.Ranks.{
  Given, Bounded, IsWeb, Public, seen, Ranked, Ranked-append, result_item-valid,
}
use web_access_mcp_server.Search.Providers.Xml.{
  Element, XmlPlatform, Document, iter, is_named, cut, or_none, is_text, children, clean,
  join_texts, passages, last_named, text_of, snippet_of, with_host, document, parse_document,
  parse_documents, parse_root, parse_xml, reported,
}

cut-within : (o : Option String) → within 8192 (cut 8192 o) ≡ true
cut-within none = refl
cut-within (some s) = le→leb (text_length (take_text 8192 s)) 8192 (length-take_text 8192 s)

not_over : (m n : ℕ) → ltb m n ≡ false → leb n m ≡ true
not_over m n h = ground arith

module _ (xml : XmlPlatform) (platform : Platform) where
  abbrev Fits : Document → Type 0
  Fits d =
      Bounded 4096 d.title
      × Bounded 8192 d.url
      × (within 8192 d.snippet ≡ true)
      × IsWeb platform d.url

  snippet_of-within : (doc : Element) → within 8192 (snippet_of xml doc) ≡ true
  unfolding snippet_of
  snippet_of-within doc = cut-within (
      or_none (
        clean xml (
          join_texts (select is_text (passages xml (first (is_named "passages") (children doc)))))))

  with_host-Fits :
      (title url : String) (doc : Element) (host : Option String)
      → Bounded 4096 title
      → Bounded 8192 url
      → web_host (platform.urlsplit url) ≡ host
      → Given Fits (with_host xml title url doc host)
  with_host-Fits title url doc none ht hu e = tt
  with_host-Fits title url doc (some h) ht hu e = (ht, hu, snippet_of-within doc, rw e refl)

  document-Fits : (doc : Element) → Given Fits (document xml platform doc)
  unfolding document
  document-Fits doc =
      go (text_of xml (last_named "url" (children doc)))
        (text_of xml (last_named "title" (children doc)))
    where
      go :
          (url title : String)
          → Given Fits (
              if not (is_text url)
                || not (is_text title)
                || ltb 8192 (text_length url)
                || ltb 4096 (text_length title)
              then none
              else with_host xml title url doc (web_host (platform.urlsplit url)))
      go url title =
          elim (Bool-cases (
            not (is_text url)
            || not (is_text title)
            || ltb 8192 (text_length url)
            || ltb 4096 (text_length title))) [
              | inl e ↦ rw e tt
              | inr e ↦ rw e (
                  with_host-Fits title url doc (web_host (platform.urlsplit url))
                    (not_over 4096 (text_length title) (
                      or_right
                        (not (is_text url) || not (is_text title) || ltb 8192 (text_length url))
                        (ltb 4096 (text_length title)) e))
                    (not_over 8192 (text_length url) (
                      or_right (not (is_text url) || not (is_text title))
                        (ltb 8192 (text_length url))
                        (or_left
                          (not (is_text url) || not (is_text title) || ltb 8192 (text_length url))
                          (ltb 4096 (text_length title)) e)))
                    refl)
            ]

  -- the item that the loop makes of a document
  abbrev made : ℕ → Document → SearchResultItem
  made n d = record {
    rank = n;
    title = d.title;
    url = d.url;
    snippet = d.snippet;
    host = some (take_text 1024 d.hostname);
    published_at = d.modtime;
  }

  made-valid : (n : ℕ) (d : Document) → 1 ≤ n → Fits d → validate_result_item (made n d) ≡ true
  unfolding validate_result_item
  made-valid n d h f =
      rw
        (
          le→leb 1 n h,
          f.0,
          f.1,
          f.2,
          le→leb (text_length (take_text 1024 d.hostname)) 1024 (length-take_text 1024 d.hostname),
        )
        refl

  -- the state after a document
  abbrev after_document : Option Document → Parsed → Parsed
  after_document none state = record state { skipped = suc state.skipped }
  after_document (some d) state = record state {
    parsed = state.parsed ++ (made (length state.parsed + 1) d ∷ []);
  }

  parse_document-after :
      (o : Option Document) (state : Parsed)
      → Given Fits o
      → parse_document xml platform o state ≡ ok (after_document o state)
  unfolding parse_document
  parse_document-after none state f = refl
  parse_document-after (some d) state f =
      rw
        (result_item-valid (made (length state.parsed + 1) d)
          (made-valid (length state.parsed + 1) d (omega arith) f))
        refl

  abbrev Inv : ℕ → Parsed → Type 0
  Inv limit state =
      (length state.parsed ≤ limit) × Ranked 1 state.parsed × All (Public platform) state.parsed

  after-Inv :
      (limit : ℕ) (o : Option Document) (state : Parsed)
      → length state.parsed < limit
      → Given Fits o
      → Inv limit state
      → Inv limit (after_document o state) × (seen (after_document o state) ≡ suc (seen state))
  after-Inv limit none state l f h = (h, omega arith)
  after-Inv limit (some d) state l f h = (
    (
      omega (arith, l, length-append state.parsed (made (length state.parsed + 1) d ∷ [])),
      Ranked-append 1 state.parsed (made (length state.parsed + 1) d) h.1 (omega arith),
      All-append (Public platform) state.parsed (made (length state.parsed + 1) d ∷ []) h.2
          ((made-valid (length state.parsed + 1) d (omega arith) f, f.3), tt),
    ),
    omega (arith, length-append state.parsed (made (length state.parsed + 1) d ∷ [])),
  )

  -- every document is seen, or as many items are there as were asked for
  abbrev Done : ℕ → ℕ → Parsed → Type 0
  Done limit n out = (seen out ≡ n) ⊎ (length out.parsed ≡ limit)

  parse_documents_total :
      (limit : ℕ) (docs : List Element) (state : Parsed)
      → Inv limit state
      → (out : Parsed) × ((parse_documents xml platform limit docs state ≡ ok out)
          × Inv limit out
          × Done limit (length docs + seen state) out)
  unfolding parse_documents
  parse_documents_total limit [] state h = (state, (refl, h, inl (omega arith)))
  parse_documents_total limit (doc ∷ docs) state h = elim (le-or-lt limit (length state.parsed)) [
    | inl le ↦
        (state, (rw (le→leb limit (length state.parsed) le) refl, h, inr (omega (arith, le, h.0))))
    | inr lt ↦
        let f = document-Fits doc in
        let step = after-Inv limit (document xml platform doc) state lt f h in
        let (out, got) =
          parse_documents_total limit docs (after_document (document xml platform doc) state)
            step.0 in
        (
          out,
          (
            rw
                (
                  lt→leb_false limit (length state.parsed) lt,
                  parse_document-after (document xml platform doc) state f,
                )
                got.0,
            got.1,
            more (document xml platform doc) out step.1 got.2,
          ),
        )
  ]
    where
      more :
          (o : Option Document) (out : Parsed)
          → seen (after_document o state) ≡ suc (seen state)
          → Done limit (length docs + seen (after_document o state)) out
          → Done limit (suc (length docs) + seen state) out
      more o out e (inl d) = inl (omega (arith, d, e))
      more o out e (inr d) = inr d

  -- Of an answer without an `error` element, the reading never raises: what it reports are at most
  -- `limit` items that the constructor takes, each with a URL with a host and the scheme http or
  -- https, their ranks counting up from 1; and either every `doc` element of the tree is an item or
  -- is counted as skipped, or the items are as many as the limit.
  pub parse_xml_total :
      (root : Element) (limit : ℕ) (id : Option String)
      → first (is_named "error") (iter root) ≡ none
      → (out : Parsed) × ((parse_xml xml platform (ok root) limit id ≡ ok (reported out))
          × Inv limit out
          × Done limit (length (select (is_named "doc") (iter root))) out)
  unfolding parse_xml parse_root
  parse_xml_total root limit id h =
      let (out, got) =
        parse_documents_total limit (select (is_named "doc") (iter root)) start
          (omega arith, tt, tt) in
      (out, (rw (h, got.0) refl, got.1, at_start out got.2))
    where
      start : Parsed
      start = record { parsed = []; skipped = 0 }

      at_start :
          (out : Parsed)
          → Done limit (length (select (is_named "doc") (iter root)) + 0) out
          → Done limit (length (select (is_named "doc") (iter root))) out
      at_start out (inl d) = inl (omega (arith, d))
      at_start out (inr d) = inr d
