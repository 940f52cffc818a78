-- ===== src/Search/Providers/Yandex.antt =====
-- infrastructure/search/yandex.py: one request to the Yandex Search API. The XML of the answer is
-- read in Xml; the descriptor and the configuration revision are left out.
pub mod Stages
pub mod Before
pub mod Reading
use Prim.Native.Char.{code}
use web_access_mcp_server.Base.{
  ℕ, zero, suc, ◌-◌, ◌*◌, String, Bool, true, false, not, ◌&&◌, ◌||◌, Option, none, some, List, [],
  ◌∷◌, any, leb, ltb, ◌==◌, str_eq, if◌then◌else◌, is_some, text_length, length, map,
}
use web_access_mcp_server.Base.Effects.{Result, ok, raised, and_then}
use web_access_mcp_server.Common.Results.{ErrorCategory, ExecutionStage}
use web_access_mcp_server.Search.Registry.{
  SearchProviderId, SearchSafeMode, SearchTimeRange, is_range,
}
use web_access_mcp_server.Search.Providers.{
  ProviderFault, uncaught, ClientError, not_connected, timed_out, transport_failed, other_error,
  Response, Exchange, unanswered, answered, Json, json_text, json_object, JsonFault, invalid_json,
  value_error, other_json_fault, Platform, ProviderRequest, ProviderResult, failed_attempt,
  read_body, request_id, call_timeout, retry_after, get,
}
use web_access_mcp_server.Search.Providers.Xml.{XmlPlatform, parse_xml, malformed}

-- the settings that the calls read, with the time limit in milliseconds
pub record YandexSettings : Type 0 where
  pub folder_id : Option String
  pub api_key : Option String
  pub search_type : String
  pub request_timeout : ℕ
  pub max_response_bytes : ℕ

-- the payload; `searchType`, the group mode, the passages and the format stand for constants
pub record YandexPayload : Type 0 where
  pub search_type : String
  pub query_text : String
  pub page : String
  pub family_mode : Option String
  pub groups_on_page : String
  pub folder_id : String
  pub region : Option String
  pub period : Option String

-- what is sent: the payload, the key and the time limit
pub record YandexCall : Type 0 where
  pub payload : YandexPayload
  pub api_key : String
  pub timeout : ℕ

abbrev pub safe_search : SearchSafeMode → String
safe_search SearchSafeMode.off = "FAMILY_MODE_NONE"
safe_search SearchSafeMode.moderate = "FAMILY_MODE_MODERATE"
safe_search SearchSafeMode.strict = "FAMILY_MODE_STRICT"

-- `_PERIOD[...]`: a year is a KeyError
abbrev pub period : SearchTimeRange → Result ProviderFault String
period SearchTimeRange.day = ok "PERIOD_DAY"
period SearchTimeRange.month = ok "PERIOD_MONTH"
period SearchTimeRange.year = raised uncaught

abbrev pub period_of : Option SearchTimeRange → Result ProviderFault (Option String)
period_of none = ok none
period_of (some r) = and_then (period r) (λ p. ok (some p))

abbrev pub has_regions : String → Bool
has_regions search_type = str_eq search_type "SEARCH_TYPE_RU" || str_eq search_type "SEARCH_TYPE_TR"

-- `[0-9]{0,n}` up to the end
abbrev pub digits : ℕ → String → Bool
digits n String.[] = true
digits zero (String.◌∷◌ c s) = false
digits (suc n) (String.◌∷◌ c s) = leb b'0' (code c) && leb (code c) b'9' && digits n s

-- `re.fullmatch(r"[1-9][0-9]{0,99}", region)`
unfoldable pub is_region : String → Bool
is_region String.[] = false
is_region (String.◌∷◌ c s) = leb b'1' (code c) && leb (code c) b'9' && digits 99 s

-- `_unsupported`
abbrev pub unsupported : ProviderFault
unsupported =
    failed_attempt ErrorCategory.unsupported "yandex_unsupported_option" false
      ExecutionStage.before_dispatch none none

abbrev pub refuse_if : Bool → Result ProviderFault (Unit {0})
refuse_if true = raised unsupported
refuse_if false = ok tt

abbrev pub own_request : SearchProviderId → Result ProviderFault (Unit {0})
own_request SearchProviderId.yandex = ok tt
own_request SearchProviderId.searxng = raised uncaught

abbrev pub asks_year : Option SearchTimeRange → Bool
asks_year none = false
asks_year (some r) = is_range r SearchTimeRange.year

abbrev pub not_region : Option String → Bool
not_region none = false
not_region (some region) = not (is_region region)

-- `_validate_request`, by the number of words of a text, which is `len(text.split())`
unfoldable pub validate_request :
    (String → ℕ) → YandexSettings → ProviderRequest → Result ProviderFault (Unit {0})
validate_request words settings request = and_then (own_request request.provider_id) (λ _.
    and_then (refuse_if (ltb 400 (text_length request.query))) (λ _.
      and_then (refuse_if (ltb 40 (words request.query))) (λ _.
        and_then (refuse_if (ltb 250 (request.page * request.limit))) (λ _.
          and_then (refuse_if (is_some request.language)) (λ _.
            and_then (refuse_if (asks_year request.time_range)) (λ _.
              and_then
                (refuse_if
                  (is_some request.provider_region && not (has_regions settings.search_type)))
                (λ _. refuse_if (not_region request.provider_region))))))))

abbrev pub not_configured : ProviderFault
not_configured =
    failed_attempt ErrorCategory.infrastructure "yandex_not_configured" false
      ExecutionStage.before_dispatch none none

-- `if folder_id is None or api_key is None`
abbrev pub credentials : Option String → Option String → Result ProviderFault (String × String)
credentials (some folder_id) (some api_key) = ok (folder_id, api_key)
credentials _ _ = raised not_configured

-- the `except` clauses of `search`
unfoldable pub client_fault : ClientError → ProviderFault
client_fault not_connected =
    failed_attempt ErrorCategory.upstream "yandex_connect_failed" true
      ExecutionStage.before_dispatch none none
client_fault timed_out =
    failed_attempt ErrorCategory.timeout "yandex_response_lost" true ExecutionStage.response_lost
      none none
client_fault transport_failed =
    failed_attempt ErrorCategory.unknown_outcome "yandex_response_lost" true
      ExecutionStage.response_lost none none
client_fault other_error = uncaught

abbrev pub too_large : Option String → ProviderFault
too_large id =
    failed_attempt ErrorCategory.upstream "yandex_response_too_large" false
      ExecutionStage.terminal_known none id

-- `_bounded_body`
unfoldable pub bounded_body : Response → ℕ → Result ProviderFault (List ℕ)
unfolding read_body request_id client_fault
bounded_body response maximum =
    read_body (too_large (request_id response.header)) client_fault maximum [] response.chunks
      response.body_end

module _ (platform : Platform) (xml : XmlPlatform) where
  abbrev pub decoded : Option (List ℕ) → ℕ → Option String → Result ProviderFault (List ℕ)
  decoded none maximum id = raised (malformed id)
  decoded (some bytes) maximum id =
      if ltb maximum (length bytes) then raised (too_large id) else ok bytes

  -- `payload["rawData"]`
  abbrev pub raw_data : Option Json → ℕ → Option String → Result ProviderFault (List ℕ)
  raw_data (some (json_text encoded)) maximum id = decoded (xml.b64decode encoded) maximum id
  raw_data _ maximum id = raised (malformed id)

  -- `_decode_response`
  unfoldable pub decode_response :
      Result JsonFault Json → ℕ → Option String → Result ProviderFault (List ℕ)
  decode_response (raised invalid_json) maximum id = raised (malformed id)
  decode_response (raised value_error) maximum id = raised (malformed id)
  decode_response (raised other_json_fault) maximum id = raised uncaught
  decode_response (ok (json_object payload)) maximum id =
      raw_data (get "rawData" payload) maximum id
  decode_response (ok _) maximum id = raised (malformed id)

  abbrev pub rate_limited : Option String → Result ProviderFault (Option ℕ) → ProviderFault
  rate_limited id (raised fault) = fault
  rate_limited id (ok after) =
      failed_attempt ErrorCategory.rate_limited "yandex_rate_limited" true
        ExecutionStage.terminal_known after id

  -- `_status_error`
  unfoldable pub status_error : Response → ProviderFault
  unfolding retry_after request_id
  status_error response =
      if response.status == 401 || response.status == 403
      then failed_attempt ErrorCategory.upstream "provider_auth_rejected" false
          ExecutionStage.terminal_known none (request_id response.header)
      else if response.status == 429
      then rate_limited (request_id response.header)
          (retry_after platform (response.header "retry-after"))
      else if leb 500 response.status
      then failed_attempt ErrorCategory.upstream "yandex_upstream_error" true
          ExecutionStage.terminal_known none (request_id response.header)
      else failed_attempt ErrorCategory.upstream "provider_request_rejected" false
          ExecutionStage.terminal_known none (request_id response.header)

  abbrev pub optional {ℓ} : {A : Type ℓ} → (A → String) → Option A → Option String
  optional show none = none
  optional show (some a) = some (show a)

  -- what comes before the request: the tests, and the payload; pages count from 0 there
  unfoldable pub prepare :
      (String → ℕ) → YandexSettings → Option ℕ → ProviderRequest → Result ProviderFault YandexCall
  unfolding validate_request call_timeout
  prepare words settings remaining request =
      and_then (validate_request words settings request) (λ _.
        and_then (call_timeout remaining settings.request_timeout) (λ timeout.
          and_then (credentials settings.folder_id settings.api_key) (λ c.
            and_then (period_of request.time_range) (λ period. ok (record {
              payload = record {
                search_type = settings.search_type;
                query_text = request.query;
                page = platform.str (request.page - 1);
                family_mode = optional safe_search request.safe_search;
                groups_on_page = platform.str request.limit;
                folder_id = c.0;
                region = request.provider_region;
                period = period;
              };
              api_key = c.1;
              timeout = timeout;
            })))))

  -- the request and the reading of the body
  unfoldable pub receive : YandexSettings → Exchange → Result ProviderFault (Response × List ℕ)
  unfolding client_fault status_error bounded_body
  receive settings (unanswered e) = raised (client_fault e)
  receive settings (answered response) =
      if leb 400 response.status
      then raised (status_error response)
      else and_then (bounded_body response settings.max_response_bytes)
          (λ body. ok (response, body))

  -- the result of an answer
  unfoldable pub interpret :
      YandexSettings → ProviderRequest → ℕ → Response → List ℕ → Result ProviderFault ProviderResult
  unfolding request_id decode_response parse_xml
  interpret settings request now response body =
      let id = request_id response.header in
      and_then (decode_response (platform.loads body) settings.max_response_bytes id) (λ bytes.
        and_then (parse_xml xml platform (xml.fromstring bytes) request.limit id) (λ found.
          ok (record {
            provider_id = SearchProviderId.yandex;
            results = found.0;
            retrieved_at = now;
            provider_request_id = id;
            warnings = found.1;
          })))

  -- `search`, by what is left of the time, by what the client makes of a request, and by the time
  -- of the clock
  unfoldable pub search :
      (String → ℕ)
      → YandexSettings
      → (YandexCall → Exchange)
      → ℕ
      → Option ℕ
      → ProviderRequest
      → Result ProviderFault ProviderResult
  unfolding prepare receive interpret
  search words settings client now remaining request =
      and_then (prepare words settings remaining request) (λ call.
        and_then (receive settings (client call))
          (λ got. interpret settings request now got.0 got.1))
