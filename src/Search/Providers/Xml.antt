-- ===== src/Search/Providers/Xml.antt =====
-- infrastructure/search/yandex.py: the reading of the XML of an answer, by the tree that
-- `defusedxml.ElementTree` makes of it.
pub mod Items
use Prim.Native.Char.{code}
use web_access_mcp_server.Base.{
  ℕ, suc, ◌+◌, String, Bool, true, false, not, ◌&&◌, ◌||◌, Option, none, some, List, [], ◌∷◌, ◌++◌,
  length, leb, ltb, ◌==◌, str_eq, if◌then◌else◌, text_length, take_text, append_text, map, select,
}
use web_access_mcp_server.Base.Effects.{Result, ok, raised, and_then}
use web_access_mcp_server.Common.Results.{ErrorCategory, ExecutionStage}
use web_access_mcp_server.Search.Registry.{first}
use web_access_mcp_server.Search.Providers.{
  ProviderFault, uncaught, Platform, SearchResultItem, CountWarning, Parsed, result_item, web_host,
  count_warning, failed_attempt,
}

-- an element: its tag, attributes, text, children, and the text that follows it
mutual
  pub data Element : Type 0 where
    element : String → List (String × String) → String → Elements → String → Element

  pub data Elements : Type 0 where
    no_elements : Elements
    child : Element → Elements → Elements

-- `ElementTree.fromstring`: `invalid_xml` is a ParseError or a ValueError
pub data XmlFault : Type 0 where
  invalid_xml other_xml_fault : XmlFault

-- the library code that the reading of an answer calls: `strptime` is `none` where it raises
pub record XmlPlatform : Type 0 where
  pub b64decode : String → Option (List ℕ)
  pub fromstring : List ℕ → Result XmlFault Element
  pub collapse : String → String
  pub strip : String → String
  pub strptime : String → Option ℕ

abbrev pub tag : Element → String
tag (element name attrib text children tail) = name

abbrev pub children_list : Elements → List Element
children_list no_elements = []
children_list (child e es) = e ∷ children_list es

abbrev pub children : Element → List Element
children (element name attrib text es tail) = children_list es

abbrev pub attribute : String → List (String × String) → Option String
attribute key [] = none
attribute key ((name, v) ∷ rest) =
    let found = attribute key rest in if str_eq name key then some v else found

abbrev pub attrib_of : Element → List (String × String)
attrib_of (element name attrib text es tail) = attrib

-- `element.itertext()`, joined: the text, and each child with what follows it
unfoldable mutual
  pub itertext : Element → String
  itertext (element name attrib text es tail) = append_text text (itertexts es)

  pub itertexts : Elements → String
  itertexts no_elements = ""
  itertexts (child (element name attrib text es tail) rest) =
      append_text (append_text text (itertexts es)) (append_text tail (itertexts rest))

-- `root.iter()`: the element and those below it, in the order of the document
unfoldable mutual
  pub iter : Element → List Element
  iter (element name attrib text es tail) = element name attrib text es tail ∷ iters es

  pub iters : Elements → List Element
  iters no_elements = []
  iters (child e rest) = iter e ++ iters rest

abbrev pub has_brace : String → Bool
has_brace String.[] = false
has_brace (String.◌∷◌ c s) = code c == b'}' || has_brace s

-- `_local_name`: what follows the last brace, or all
unfoldable pub local_name : String → String
local_name String.[] = ""
local_name (String.◌∷◌ c s) =
    let rest = local_name s in if code c == b'}' || has_brace s then rest else String.◌∷◌ c s

abbrev pub is_named : String → Element → Bool
is_named name e = str_eq (local_name (tag e)) name

-- the value of a key in a dictionary by local names: a later child replaces an earlier
abbrev pub last_named : String → List Element → Option Element
last_named name [] = none
last_named name (e ∷ es) =
    let rest = last_named name es in
    elim rest [ some found ↦ some found | none ↦ if is_named name e then some e else none ]

-- `" ".join(part for part in parts if part)`
abbrev pub join_texts : List String → String
join_texts [] = ""
join_texts (s ∷ []) = s
join_texts (s ∷ t ∷ rest) = append_text s (append_text " " (join_texts (t ∷ rest)))

abbrev pub is_text : String → Bool
is_text s = ltb 0 (text_length s)

abbrev pub or_none : String → Option String
or_none s = if is_text s then some s else none

abbrev pub cut : ℕ → Option String → Option String
cut n none = none
cut n (some s) = some (take_text n s)

-- a document that is not skipped
pub record Document : Type 0 where
  pub title : String
  pub url : String
  pub snippet : Option String
  pub hostname : String
  pub modtime : Option ℕ

abbrev pub malformed : Option String → ProviderFault
malformed id =
    failed_attempt ErrorCategory.upstream "yandex_malformed_response" false
      ExecutionStage.terminal_known none id

-- the result of the loop
abbrev pub reported : Parsed → List SearchResultItem × List CountWarning
reported state = (state.parsed, count_warning "malformed_provider_item" state.skipped)

abbrev pub is_code : Option String → Bool
is_code none = false
is_code (some s) = str_eq s "15"

module _ (xml : XmlPlatform) where
  -- `_clean`
  abbrev pub clean : String → String
  clean value = xml.strip (xml.collapse value)

  -- `_text`
  unfoldable pub text_of : Option Element → String
  unfolding itertext
  text_of none = ""
  text_of (some e) = clean (itertext e)

  abbrev pub passages : Option Element → List String
  passages none = []
  passages (some e) = map (λ c. text_of (some c)) (select (is_named "passage") (children e))

  unfoldable pub snippet_of : Element → Option String
  unfolding text_of
  snippet_of doc = cut 8192 (
      or_none (
        clean
          (join_texts (select is_text (passages (first (is_named "passages") (children doc)))))))

  abbrev pub with_host : String → String → Element → Option String → Option Document
  with_host title url doc none = none
  with_host title url doc (some hostname) = some (record {
    title = title;
    url = url;
    snippet = snippet_of doc;
    hostname = hostname;
    modtime = xml.strptime (text_of (last_named "modtime" (children doc)));
  })

  module _ (platform : Platform) where
    -- the tests of the loop's body; `none` is `skipped += 1`
    unfoldable pub document : Element → Option Document
    unfolding text_of
    document doc =
        let url = text_of (last_named "url" (children doc)) in
        let title = text_of (last_named "title" (children doc)) in
        if not (is_text url)
          || not (is_text title)
          || ltb 8192 (text_length url)
          || ltb 4096 (text_length title)
        then none
        else with_host title url doc (web_host (platform.urlsplit url))

    -- one turn of the loop
    unfoldable pub parse_document : Option Document → Parsed → Result ProviderFault Parsed
    unfolding result_item
    parse_document none state = ok (record state { skipped = suc state.skipped })
    parse_document (some d) state =
        and_then
          (result_item (record {
            rank = length state.parsed + 1;
            title = d.title;
            url = d.url;
            snippet = d.snippet;
            host = some (take_text 1024 d.hostname);
            published_at = d.modtime;
          }))
          (λ item. ok (record state { parsed = state.parsed ++ (item ∷ []) }))

    -- the loop over the documents, up to the limit
    unfoldable pub parse_documents : ℕ → List Element → Parsed → Result ProviderFault Parsed
    unfolding document parse_document
    parse_documents limit [] state = ok state
    parse_documents limit (doc ∷ docs) state =
        if leb limit (length state.parsed)
        then ok state
        else and_then (parse_document (document doc) state)
            (λ next. parse_documents limit docs next)

    -- an `error` element ends the reading: code 15 is an empty result
    unfoldable pub parse_root :
        Option Element
        → Element
        → ℕ
        → Option String
        → Result ProviderFault (List SearchResultItem × List CountWarning)
    unfolding iter parse_documents
    parse_root none root limit id =
        and_then
          (parse_documents limit (select (is_named "doc") (iter root))
            (record { parsed = []; skipped = 0 }))
          (λ state. ok (reported state))
    parse_root (some e) root limit id =
        if is_code (attribute "code" (attrib_of e))
        then ok ([], [])
        else raised (
            failed_attempt ErrorCategory.upstream "yandex_search_error" false
              ExecutionStage.terminal_known none id)

    -- `_parse_xml`, by what the parser makes of the bytes
    unfoldable pub parse_xml :
        Result XmlFault Element
        → ℕ
        → Option String
        → Result ProviderFault (List SearchResultItem × List CountWarning)
    unfolding parse_root
    parse_xml (raised invalid_xml) limit id = raised (malformed id)
    parse_xml (raised other_xml_fault) limit id = raised uncaught
    parse_xml (ok root) limit id = parse_root (first (is_named "error") (iter root)) root limit id
