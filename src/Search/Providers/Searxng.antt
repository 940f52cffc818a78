-- ===== src/Search/Providers/Searxng.antt =====
-- infrastructure/search/searxng.py: one request to SearXNG and the reading of its answer. The
-- descriptor and the configuration revision are left out.
pub mod Items
pub mod Stages
use web_access_mcp_server.Base.{
  ℕ, zero, suc, ◌+◌, min, String, Bool, true, false, not, ◌&&◌, ◌||◌, Option, none, some, List, [],
  ◌∷◌, ◌++◌, length, take, leb, ltb, ◌==◌, str_eq, if◌then◌else◌, text_length, take_text,
}
use web_access_mcp_server.Base.Effects.{Result, ok, raised, and_then}
use web_access_mcp_server.Common.Results.{ErrorCategory, ExecutionStage}
use web_access_mcp_server.Search.Registry.{SearchProviderId, SearchSafeMode, SearchTimeRange}
use web_access_mcp_server.Search.Providers.{
  ProviderFault, uncaught, ClientError, not_connected, timed_out, transport_failed, other_error,
  Response, Exchange, unanswered, answered, Json, json_null, json_text, json_list, json_object,
  json_other, Fields, JsonFault, invalid_json, value_error, other_json_fault, IsoDate, not_iso,
  naive, out_of_range, aware, Platform, ProviderRequest, SearchResultItem, CountWarning,
  ProviderResult, Parsed, web_host, count_warning, within, result_item, failed_attempt, read_body,
  request_id, call_timeout, retry_after, get, values_list,
}

-- the settings that the calls read, with the time limit in milliseconds
pub record SearxngSettings : Type 0 where
  pub request_timeout : ℕ
  pub max_response_bytes : ℕ

abbrev pub safe_search : SearchSafeMode → String
safe_search SearchSafeMode.off = "0"
safe_search SearchSafeMode.moderate = "1"
safe_search SearchSafeMode.strict = "2"

-- `time_range.value`
abbrev pub range_value : SearchTimeRange → String
range_value SearchTimeRange.day = "day"
range_value SearchTimeRange.month = "month"
range_value SearchTimeRange.year = "year"

-- `if value is not None: params[key] = ...`
abbrev pub param {ℓ} : {A : Type ℓ} → String → (A → String) → Option A → List (String × String)
param key show none = []
param key show (some a) = (key, show a) ∷ []

abbrev pub Params : Type 0
Params = List (String × String)

-- the parameters of the request, in the order in which they are set
unfoldable pub params : (ℕ → String) → ProviderRequest → Params
params str request =
    (("q", request.query)
      ∷ ("format", "json")
      ∷ ("categories", "general")
      ∷ ("pageno", str request.page)
      ∷ [])
    ++ (param "language" (λ s. s) request.language
        ++ (param "safesearch" safe_search request.safe_search
            ++ param "time_range" range_value request.time_range))

-- `_malformed`
abbrev pub malformed : Option String → ProviderFault
malformed id =
    failed_attempt ErrorCategory.upstream "searxng_malformed_response" false
      ExecutionStage.terminal_known none id

-- the `except` clauses of `search`
unfoldable pub client_fault : ClientError → ProviderFault
client_fault not_connected =
    failed_attempt ErrorCategory.upstream "searxng_unavailable" true ExecutionStage.before_dispatch
      none none
client_fault timed_out =
    failed_attempt ErrorCategory.timeout "searxng_timeout" true ExecutionStage.response_lost none
      none
client_fault transport_failed =
    failed_attempt ErrorCategory.upstream "searxng_transport_error" true
      ExecutionStage.response_lost none none
client_fault other_error = uncaught

abbrev pub too_large : Option String → ProviderFault
too_large id =
    failed_attempt ErrorCategory.upstream "searxng_response_too_large" false
      ExecutionStage.terminal_known none id

-- `_bounded_body`
unfoldable pub bounded_body : Response → ℕ → Result ProviderFault (List ℕ)
unfolding read_body request_id client_fault
bounded_body response maximum =
    read_body (too_large (request_id response.header)) client_fault maximum [] response.chunks
      response.body_end

-- `isinstance(value, list)`
abbrev pub as_list : Option Json → Option (List Json)
as_list (some (json_list vs)) = some (values_list vs)
as_list _ = none

abbrev pub checked_payload :
    Option String → Fields → Option (List Json) → Result ProviderFault (Fields × List Json)
checked_payload id payload none = raised (malformed id)
checked_payload id payload (some results) = ok (payload, results)

-- `_decode_payload`, with the list of the results beside the payload
unfoldable pub decode_payload :
    Result JsonFault Json → Option String → Result ProviderFault (Fields × List Json)
decode_payload (raised invalid_json) id = raised (malformed id)
decode_payload (raised value_error) id = raised uncaught
decode_payload (raised other_json_fault) id = raised uncaught
decode_payload (ok (json_object payload)) id =
    checked_payload id payload (as_list (get "results" payload))
decode_payload (ok _) id = raised (malformed id)

-- `raw.get(...)` of the texts that an item has to have
abbrev pub text_field : ℕ → Option Json → Option String
text_field maximum (some (json_text s)) =
    if ltb 0 (text_length s) && leb (text_length s) maximum then some s else none
text_field maximum _ = none

-- The content: `some none` is None, and `none` is a value that is not accepted.
abbrev pub content_field : Option Json → Option (Option String)
content_field none = some none
content_field (some json_null) = some none
content_field (some (json_text s)) = if ltb 8192 (text_length s) then none else some (some s)
content_field (some _) = none

-- what the code keeps of an item that it does not skip
pub record Accepted : Type 0 where
  pub title : String
  pub url : String
  pub snippet : Option String
  pub hostname : String
  pub published : Option Json

module _ (platform : Platform) where
  abbrev pub to_utc : IsoDate → Result ProviderFault (Option ℕ)
  to_utc not_iso = ok none
  to_utc naive = ok none
  to_utc (aware t) = ok (some t)
  to_utc out_of_range = raised uncaught

  -- `_published_at`
  unfoldable pub published_at : Option Json → Result ProviderFault (Option ℕ)
  published_at (some (json_text s)) =
      if ltb 128 (text_length s)
      then ok none
      else to_utc (platform.iso_date (platform.replace s "Z" "+00:00"))
  published_at _ = ok none

  abbrev pub with_host :
      String → String → Option String → Option Json → Option String → Option Accepted
  with_host title url snippet published none = none
  with_host title url snippet published (some hostname) = some (record {
    title = title;
    url = url;
    snippet = snippet;
    hostname = hostname;
    published = published;
  })

  abbrev pub with_texts :
      Option String → Option String → Option (Option String) → Option Json → Option Accepted
  with_texts (some title) (some url) (some snippet) published =
      with_host title url snippet published (web_host (platform.urlsplit url))
  with_texts _ _ _ published = none

  -- the tests of the loop's body; `none` is `skipped += 1`
  unfoldable pub accepted : Json → Option Accepted
  accepted (json_object raw) =
      with_texts (text_field 4096 (get "title" raw)) (text_field 8192 (get "url" raw))
        (content_field (get "content" raw)) (get "publishedDate" raw)
  accepted _ = none

  -- the item of rank `n`
  unfoldable pub item_at : ℕ → Accepted → Result ProviderFault SearchResultItem
  unfolding published_at result_item
  item_at n a = and_then (published_at a.published) (λ published. result_item (record {
    rank = n;
    title = a.title;
    url = a.url;
    snippet = a.snippet;
    host = some (take_text 1024 a.hostname);
    published_at = published;
  }))

  -- one turn of the loop
  unfoldable pub parse_item : Option Accepted → Parsed → Result ProviderFault Parsed
  unfolding item_at
  parse_item none state = ok (record state { skipped = suc state.skipped })
  parse_item (some a) state =
      and_then (item_at (length state.parsed + 1) a)
        (λ item. ok (record state { parsed = state.parsed ++ (item ∷ []) }))

  unfoldable pub parse_items : List Json → Parsed → Result ProviderFault Parsed
  unfolding accepted parse_item
  parse_items [] state = ok state
  parse_items (raw ∷ raws) state =
      and_then (parse_item (accepted raw) state) (λ next. parse_items raws next)

  -- `_parse_results`
  unfoldable pub parse_results : List Json → ℕ → Result ProviderFault Parsed
  unfolding parse_items
  parse_results results limit =
      parse_items (take limit results) (record { parsed = []; skipped = 0 })

  abbrev pub engine_warning : Option (List Json) → List CountWarning
  engine_warning none = []
  engine_warning (some engines) = count_warning "partial_provider_failure" (length engines)

  -- `_parse_warnings`
  unfoldable pub parse_warnings : Fields → List CountWarning
  parse_warnings payload = engine_warning (as_list (get "unresponsive_engines" payload))

  abbrev pub rate_limited : Option String → Result ProviderFault (Option ℕ) → ProviderFault
  rate_limited id (raised fault) = fault
  rate_limited id (ok after) =
      failed_attempt ErrorCategory.rate_limited "searxng_rate_limited" true
        ExecutionStage.terminal_known after id

  -- `_status_error`
  unfoldable pub status_error : Response → ProviderFault
  unfolding retry_after request_id
  status_error response =
      if response.status == 429
      then rate_limited (request_id response.header)
          (retry_after platform (response.header "retry-after"))
      else if leb 500 response.status
      then failed_attempt ErrorCategory.upstream "searxng_upstream_error" true
          ExecutionStage.terminal_known none (request_id response.header)
      else failed_attempt ErrorCategory.upstream "searxng_request_rejected" false
          ExecutionStage.terminal_known none (request_id response.header)

  -- the request and the reading of the body
  unfoldable pub receive : SearxngSettings → Exchange → Result ProviderFault (Response × List ℕ)
  unfolding client_fault status_error bounded_body
  receive settings (unanswered e) = raised (client_fault e)
  receive settings (answered response) =
      if leb 400 response.status
      then raised (status_error response)
      else and_then (bounded_body response settings.max_response_bytes)
          (λ body. ok (response, body))

  -- the result of an answer
  unfoldable pub interpret :
      ProviderRequest → ℕ → Response → List ℕ → Result ProviderFault ProviderResult
  unfolding request_id decode_payload parse_results parse_warnings
  interpret request now response body =
      let id = request_id response.header in
      and_then (decode_payload (platform.loads body) id) (λ decoded.
        and_then (parse_results decoded.1 request.limit) (λ found. ok (record {
          provider_id = SearchProviderId.searxng;
          results = found.parsed;
          retrieved_at = now;
          provider_request_id = id;
          warnings =
              parse_warnings decoded.0 ++ count_warning "malformed_provider_item" found.skipped;
        })))

  abbrev pub own_request : SearchProviderId → Result ProviderFault (Unit {0})
  own_request SearchProviderId.searxng = ok tt
  own_request SearchProviderId.yandex = raised uncaught

  -- `search`, by what is left of the time, by what the client makes of a request, and by the time
  -- of the clock
  unfoldable pub search :
      SearxngSettings
      → (Params → ℕ → Exchange)
      → ℕ
      → Option ℕ
      → ProviderRequest
      → Result ProviderFault ProviderResult
  unfolding call_timeout params receive interpret
  search settings client now remaining request = and_then (own_request request.provider_id) (λ _.
      and_then (call_timeout remaining settings.request_timeout) (λ timeout.
        and_then (receive settings (client (params platform.str request) timeout))
          (λ got. interpret request now got.0 got.1)))
