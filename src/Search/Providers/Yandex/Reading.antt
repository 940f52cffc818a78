-- ===== src/Search/Providers/Yandex/Reading.antt =====
-- The errors of the reading of an answer in infrastructure/search/yandex.py.
use web_access_mcp_server.Base.{
  refl, ℕ, String, Option, none, some, List, [], ◌∷◌, length, leb, ltb, Bool-cases, inl, inr,
  select,
}
use web_access_mcp_server.Base.Effects.{Result, ok, raised}
use web_access_mcp_server.Common.Results.{ExecutionStage}
use web_access_mcp_server.Search.Registry.{first}
use web_access_mcp_server.Search.Providers.{
  Response, Json, json_null, json_text, json_list, json_object, json_other, JsonFault, invalid_json,
  value_error, other_json_fault, Platform, ProviderRequest, Parsed, request_id, get, result_item,
}
use web_access_mcp_server.Search.Providers.Stages.{Ends, Ends-and_then, result_item-Ends}
use web_access_mcp_server.Search.Providers.Xml.{
  Element, XmlFault, invalid_xml, other_xml_fault, XmlPlatform, Document, document, parse_document,
  parse_documents, parse_root, parse_xml, iter, is_named, is_code, attribute, attrib_of, reported,
}
use web_access_mcp_server.Search.Providers.Yandex.{
  YandexSettings, decoded, raw_data, decode_response, interpret,
}

module _ (platform : Platform) (xml : XmlPlatform) where
  decoded-Ends :
      (bytes : Option (List ℕ)) (maximum : ℕ) (id : Option String)
      → Ends ExecutionStage.terminal_known (decoded platform xml bytes maximum id)
  decoded-Ends none maximum id = refl
  decoded-Ends (some bytes) maximum id = elim (Bool-cases (ltb maximum (length bytes))) [
    | inl e ↦ rw e refl
    | inr e ↦ rw e tt
  ]

  raw_data-Ends :
      (value : Option Json) (maximum : ℕ) (id : Option String)
      → Ends ExecutionStage.terminal_known (raw_data platform xml value maximum id)
  raw_data-Ends none maximum id = refl
  raw_data-Ends (some (json_text s)) maximum id = decoded-Ends (xml.b64decode s) maximum id
  raw_data-Ends (some json_null) maximum id = refl
  raw_data-Ends (some (json_list vs)) maximum id = refl
  raw_data-Ends (some (json_object fs)) maximum id = refl
  raw_data-Ends (some json_other) maximum id = refl

  decode_response-Ends :
      (value : Result JsonFault Json) (maximum : ℕ) (id : Option String)
      → Ends ExecutionStage.terminal_known (decode_response platform xml value maximum id)
  unfolding decode_response
  decode_response-Ends (raised invalid_json) maximum id = refl
  decode_response-Ends (raised value_error) maximum id = refl
  decode_response-Ends (raised other_json_fault) maximum id = tt
  decode_response-Ends (ok (json_object payload)) maximum id =
      raw_data-Ends (get "rawData" payload) maximum id
  decode_response-Ends (ok json_null) maximum id = refl
  decode_response-Ends (ok (json_text s)) maximum id = refl
  decode_response-Ends (ok (json_list vs)) maximum id = refl
  decode_response-Ends (ok json_other) maximum id = refl

  parse_document-Ends :
      (o : Option Document) (state : Parsed)
      → Ends ExecutionStage.terminal_known (parse_document xml platform o state)
  unfolding parse_document
  parse_document-Ends none state = tt
  parse_document-Ends (some d) state =
      Ends-and_then ExecutionStage.terminal_known (result_item _) _ (result_item-Ends _)
        (λ item. tt)

  parse_documents-Ends :
      (limit : ℕ) (docs : List Element) (state : Parsed)
      → Ends ExecutionStage.terminal_known (parse_documents xml platform limit docs state)
  unfolding parse_documents
  parse_documents-Ends limit [] state = tt
  parse_documents-Ends limit (doc ∷ docs) state =
      elim (Bool-cases (leb limit (length state.parsed))) [
        | inl e ↦ rw e tt
        | inr e ↦ rw e (
            Ends-and_then ExecutionStage.terminal_known
              (parse_document xml platform (document xml platform doc) state)
              (λ next. parse_documents xml platform limit docs next)
              (parse_document-Ends (document xml platform doc) state)
              (λ next. parse_documents-Ends limit docs next))
      ]

  parse_root-Ends :
      (error : Option Element) (root : Element) (limit : ℕ) (id : Option String)
      → Ends ExecutionStage.terminal_known (parse_root xml platform error root limit id)
  unfolding parse_root
  parse_root-Ends none root limit id =
      Ends-and_then ExecutionStage.terminal_known
        (parse_documents xml platform limit (select (is_named "doc") (iter root))
          (record { parsed = []; skipped = 0 }))
        (λ state. ok (reported state))
        (parse_documents-Ends limit (select (is_named "doc") (iter root))
          (record { parsed = []; skipped = 0 }))
        (λ state. tt)
  parse_root-Ends (some e) root limit id =
      elim (Bool-cases (is_code (attribute "code" (attrib_of e)))) [
        | inl h ↦ rw h tt
        | inr h ↦ rw h refl
      ]

  parse_xml-Ends :
      (tree : Result XmlFault Element) (limit : ℕ) (id : Option String)
      → Ends ExecutionStage.terminal_known (parse_xml xml platform tree limit id)
  unfolding parse_xml
  parse_xml-Ends (raised invalid_xml) limit id = refl
  parse_xml-Ends (raised other_xml_fault) limit id = tt
  parse_xml-Ends (ok root) limit id =
      parse_root-Ends (first (is_named "error") (iter root)) root limit id

  pub interpret-Ends :
      (settings : YandexSettings) (request : ProviderRequest) (now : ℕ) (response : Response)
      (body : List ℕ)
      → Ends ExecutionStage.terminal_known
          (interpret platform xml settings request now response body)
  unfolding interpret
  interpret-Ends settings request now response body =
      Ends-and_then ExecutionStage.terminal_known
        (decode_response platform xml (platform.loads body) settings.max_response_bytes
          (request_id response.header))
        _
        (decode_response-Ends (platform.loads body) settings.max_response_bytes
          (request_id response.header))
        (λ bytes.
          Ends-and_then ExecutionStage.terminal_known
            (parse_xml xml platform (xml.fromstring bytes) request.limit
              (request_id response.header))
            _ (parse_xml-Ends (xml.fromstring bytes) request.limit (request_id response.header))
            (λ found. tt))
