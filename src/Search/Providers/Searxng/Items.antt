-- ===== src/Search/Providers/Searxng/Items.antt =====
-- The items that `_parse_results` of infrastructure/search/searxng.py makes.
use web_access_mcp_server.Base.{
  ◌≡◌, ◌≢◌, refl, ℕ, suc, ◌+◌, ◌≤◌, arith, String, true, Option, none, some, List, [], ◌∷◌, ◌++◌,
  length, take, ltb, text_length, take_text, length-take_text, All, All-append, Bool-cases, inl,
  inr, le→leb, length-append, subst,
}
use web_access_mcp_server.Base.Effects.{Result, ok, raised, and_then}
use web_access_mcp_server.Search.Providers.{
  Parsed, web_host, ProviderFault, Json, json_null, json_text, json_object, Platform, IsoDate,
  not_iso, naive, out_of_range, aware, SearchResultItem, validate_result_item, result_item, within,
  get,
}
use web_access_mcp_server.Search.Providers.Ranks.{
  Given, Bounded, IsWeb, Public, seen, Ranked, Ranked-append,
}
use web_access_mcp_server.Search.Providers.Searxng.{
  Accepted, text_field, content_field, with_host, with_texts, accepted, to_utc, published_at,
  item_at, parse_item, parse_items, parse_results,
}

text_field-Bounded : (m : ℕ) (v : Option Json) → Given (Bounded m) (text_field m v)
text_field-Bounded m (some (json_text s)) = ground arith
text_field-Bounded m _ = tt

content_field-within : (v : Option Json) → Given (λ s. within 8192 s ≡ true) (content_field v)
content_field-within none = refl
content_field-within (some json_null) = refl
content_field-within (some (json_text s)) = ground arith
content_field-within (some _) = tt

module _ (platform : Platform) where
  abbrev Fits : Accepted → Type 0
  Fits a =
      Bounded 4096 a.title
      × Bounded 8192 a.url
      × (within 8192 a.snippet ≡ true)
      × IsWeb platform a.url

  with_host-Fits :
      (title url : String) (snippet : Option String) (published : Option Json)
      (host : Option String)
      → Bounded 4096 title
      → Bounded 8192 url
      → within 8192 snippet ≡ true
      → web_host (platform.urlsplit url) ≡ host
      → Given Fits (with_host platform title url snippet published host)
  with_host-Fits title url snippet published none ht hu hs e = tt
  with_host-Fits title url snippet published (some h) ht hu hs e = (ht, hu, hs, rw e refl)

  with_texts-Fits :
      (title url : Option String) (snippet : Option (Option String)) (published : Option Json)
      → Given (Bounded 4096) title
      → Given (Bounded 8192) url
      → Given (λ s. within 8192 s ≡ true) snippet
      → Given Fits (with_texts platform title url snippet published)
  with_texts-Fits (some title) (some url) (some snippet) published ht hu hs =
      with_host-Fits title url snippet published (web_host (platform.urlsplit url)) ht hu hs refl
  with_texts-Fits (some title) (some url) none published ht hu hs = tt
  with_texts-Fits (some title) none _ published ht hu hs = tt
  with_texts-Fits none _ _ published ht hu hs = tt

  accepted-Fits : (raw : Json) → Given Fits (accepted platform raw)
  unfolding accepted
  accepted-Fits (json_object raw) =
      with_texts-Fits (text_field 4096 (get "title" raw)) (text_field 8192 (get "url" raw))
        (content_field (get "content" raw)) (get "publishedDate" raw)
        (text_field-Bounded 4096 (get "title" raw)) (text_field-Bounded 8192 (get "url" raw))
        (content_field-within (get "content" raw))
  accepted-Fits _ = tt

  abbrev Inv : Parsed → Type 0
  Inv state = Ranked 1 state.parsed × All (Public platform) state.parsed

  -- the item that the loop makes of what it accepts
  abbrev pub made : ℕ → Accepted → Option ℕ → SearchResultItem
  made n a published = record {
    rank = n;
    title = a.title;
    url = a.url;
    snippet = a.snippet;
    host = some (take_text 1024 a.hostname);
    published_at = published;
  }

  made-valid :
      (n : ℕ) (a : Accepted) (published : Option ℕ)
      → 1 ≤ n
      → Fits a
      → validate_result_item (made n a published) ≡ true
  unfolding validate_result_item
  made-valid n a published h f =
      rw
        (
          le→leb 1 n h,
          f.0,
          f.1,
          f.2,
          le→leb (text_length (take_text 1024 a.hostname)) 1024 (length-take_text 1024 a.hostname),
        )
        refl

  item_at-made :
      (n : ℕ) (a : Accepted)
      → 1 ≤ n
      → Fits a
      → item_at platform n a
        ≡ and_then (published_at platform a.published) (λ published. ok (made n a published))
  unfolding item_at result_item
  item_at-made n a h f = go (published_at platform a.published)
    where
      go :
          (r : Result ProviderFault (Option ℕ))
          → and_then r (λ published. result_item (made n a published))
            ≡ and_then r (λ published. ok (made n a published))
      go (ok published) = rw (made-valid n a published h f) refl
      go (raised e) = refl

  -- what `k` turns of the loop make of a state, where none raises
  abbrev Kept : Parsed → ℕ → Result ProviderFault Parsed → Type 0
  Kept state k (ok out) = Inv out × (seen out ≡ k + seen state)
  Kept state k (raised e) = Unit

  parse_item-Kept :
      (o : Option Accepted) (state : Parsed)
      → Given Fits o
      → Inv state
      → Kept state 1 (parse_item platform o state)
  unfolding parse_item
  parse_item-Kept none state f h = (h, omega arith)
  parse_item-Kept (some a) state f h =
      rw (item_at-made (length state.parsed + 1) a (omega arith) f)
        (go (published_at platform a.published))
    where
      go :
          (r : Result ProviderFault (Option ℕ))
          → Kept state 1 (
              and_then
                (and_then r (λ p. ok (made (length state.parsed + 1) a p)))
                (λ item. ok (record state { parsed = state.parsed ++ (item ∷ []) })))
      go (ok p) = (
        (
          Ranked-append 1 state.parsed (made (length state.parsed + 1) a p) h.0 (omega arith),
          All-append (Public platform) state.parsed (made (length state.parsed + 1) a p ∷ []) h.1
              ((made-valid (length state.parsed + 1) a p (omega arith) f, f.3), tt),
        ),
        omega (arith, length-append state.parsed (made (length state.parsed + 1) a p ∷ [])),
      )
      go (raised e) = tt

  parse_items-Kept :
      (raws : List Json) (state : Parsed)
      → Inv state
      → Kept state (length raws) (parse_items platform raws state)
  unfolding parse_items
  parse_items-Kept [] state h = (h, omega arith)
  parse_items-Kept (raw ∷ raws) state h =
      go (parse_item platform (accepted platform raw) state)
        (parse_item-Kept (accepted platform raw) state (accepted-Fits raw) h)
        (parse_items-Kept raws)
    where
      then_kept :
          (next : Parsed) (r : Result ProviderFault Parsed)
          → seen next ≡ 1 + seen state
          → Kept next (length raws) r
          → Kept state (suc (length raws)) r
      then_kept next (ok out) e k = (k.0, omega (arith, k.1, e))
      then_kept next (raised x) e k = tt

      go :
          (r : Result ProviderFault Parsed)
          → Kept state 1 r
          → ((next : Parsed) → Inv next → Kept next (length raws) (parse_items platform raws next))
          → Kept state (suc (length raws)) (and_then r (λ next. parse_items platform raws next))
      go (ok next) k later = then_kept next (parse_items platform raws next) k.1 (later next k.0)
      go (raised x) k later = tt

  -- Where no date leaves the range of UTC, every item is made or skipped.
  abbrev pub InRange : Type 0
  InRange = (s : String) → platform.iso_date s ≢ out_of_range

  published_total : InRange → (v : Option Json) → (p : Option ℕ) × (published_at platform v ≡ ok p)
  unfolding published_at
  published_total h (some (json_text s)) = elim (Bool-cases (ltb 128 (text_length s))) [
    | inl e ↦ (none, rw e refl)
    | inr e ↦ rw e (
        date (platform.iso_date (platform.replace s "Z" "+00:00"))
          (h (platform.replace s "Z" "+00:00")))
  ]
    where
      date : (d : IsoDate) → d ≢ out_of_range → (p : Option ℕ) × (to_utc platform d ≡ ok p)
      date not_iso n = (none, refl)
      date naive n = (none, refl)
      date (aware t) n = (some t, refl)
      date out_of_range n = absurd (n refl)
  published_total h _ = (none, refl)

  parse_item_total :
      InRange
      → (o : Option Accepted) (state : Parsed) → Given Fits o
      → (next : Parsed) × (parse_item platform o state ≡ ok next)
  unfolding parse_item
  parse_item_total r none state f = (record state { skipped = suc state.skipped }, refl)
  parse_item_total r (some a) state f =
      let (p, e) = published_total r a.published in
      (
        record state { parsed = state.parsed ++ (made (length state.parsed + 1) a p ∷ []) },
        rw (item_at-made (length state.parsed + 1) a (omega arith) f, e) refl,
      )

  parse_items_total :
      InRange
      → (raws : List Json) (state : Parsed)
      → (out : Parsed) × (parse_items platform raws state ≡ ok out)
  unfolding parse_items
  parse_items_total r [] state = (state, refl)
  parse_items_total r (raw ∷ raws) state =
      let (next, e) = parse_item_total r (accepted platform raw) state (accepted-Fits raw) in
      let (out, e') = parse_items_total r raws next in (out, rw e e')

  -- Where no date that `fromisoformat` reads leaves the range of UTC, the items of an answer are
  -- always made: each of the first `limit` items of the list is parsed or counted as skipped, the
  -- ranks of the parsed count up from 1, the constructor of none of them raises, and each has a URL
  -- with a host and the scheme http or https.
  pub parse_results_total :
      InRange
      → (results : List Json) (limit : ℕ)
      → (out : Parsed) × ((parse_results platform results limit ≡ ok out)
          × (seen out ≡ length (take limit results))
          × Ranked 1 out.parsed
          × All (Public platform) out.parsed)
  unfolding parse_results
  parse_results_total r results limit =
      let (out, e) = parse_items_total r (take limit results) start in
      let k =
        subst (λ x. Kept start (length (take limit results)) x) e
          (parse_items-Kept (take limit results) start (tt, tt)) in
      (out, (e, omega (arith, k.1), k.0.0, k.0.1))
    where
      start : Parsed
      start = record { parsed = []; skipped = 0 }
