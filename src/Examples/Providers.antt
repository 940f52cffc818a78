-- ===== src/Examples/Providers.antt =====
-- infrastructure/search/searxng.py and yandex.py on concrete inputs.
use web_access_mcp_server.Base.{
  ℕ, ◌≡◌, ◌≢◌, refl, String, true, Option, none, some, List, [], ◌∷◌, length, if◌then◌else◌, arith,
  str_eq, All, ◌≤◌, ◌⊎◌,
}
use web_access_mcp_server.Base.Effects.{Result, ok, raised}
use web_access_mcp_server.Common.Results.{ErrorCategory, no_details, ExecutionStage}
use web_access_mcp_server.Search.Registry.{SearchProviderId, SearchTimeRange}
use web_access_mcp_server.Search.Attempts.{retry_allowed}
use web_access_mcp_server.Search.Providers.{
  ProviderError, ProviderFault, attempt_error, not_connected, BodyEnd, complete, body_timed_out,
  Exchange, unanswered, answered, Json, json_null, json_text, json_list, json_object, no_values,
  value, no_fields, field, IsoDate, not_iso, naive, out_of_range, Platform, validate_result_item,
  ProviderRequest, ProviderResult, SearchResultItem, CountWarning, Parsed, call_timeout,
}
use web_access_mcp_server.Search.Providers.Ranks.{Ranked, Public, seen}
use web_access_mcp_server.Search.Providers.Stages.{exchanged, known_stage}
use web_access_mcp_server.Search.Providers.Xml.{
  Element, element, Elements, no_elements, child, XmlPlatform, iter, parse_xml, reported,
  local_name, snippet_of,
}
use web_access_mcp_server.Search.Providers.Xml.Items.{parse_xml_total}
use web_access_mcp_server.Search.Providers.Yandex.{YandexSettings, YandexCall}
use web_access_mcp_server.Search.Providers.Yandex.Stages.{fate, not_sent, retry_allowed-not_sent}
use web_access_mcp_server.Search.Providers.Searxng.{SearxngSettings, Params, params, parse_results}
use web_access_mcp_server.Search.Providers.Searxng.Items.{parse_results_total}
use web_access_mcp_server.Search.Providers.Searxng.Stages.{search-known_stage}
use web_access_mcp_server.Search.Providers.Searxng
use web_access_mcp_server.Search.Providers.Yandex

abbrev host_of : String → Option (String × Option String)
host_of url = if str_eq url "https://a.org/1" then some ("https", some "a.org") else none

abbrev date_of : String → IsoDate
date_of s = if str_eq s "2026-01-01" then naive else not_iso

abbrev page : Json
page = json_object (
    field "results"
      (json_list (
        value
          (json_object
            (field "title" (json_text "A") (field "url" (json_text "https://a.org/1") no_fields)))
          (value (json_text "no item") no_values)))
      no_fields)

abbrev platform : Platform
platform = record {
  loads = λ body. ok page;
  urlsplit = host_of;
  replace = λ s a b. s;
  iso_date = date_of;
  isdecimal = λ s. str_eq s "30";
  int = λ s. some 30;
  str = λ n. "1";
}

abbrev asked : SearchProviderId → ProviderRequest
asked id = record {
  query = "news";
  provider_id = id;
  page = 1;
  limit = 2;
  language = none;
  provider_region = none;
  safe_search = none;
  time_range = some SearchTimeRange.day;
}

abbrev settings : SearxngSettings
settings = record { request_timeout = 1000; max_response_bytes = 4 }

abbrev reply : ℕ → List (List ℕ) → BodyEnd → Exchange
reply status chunks end = answered (record {
  status = status;
  header = λ name. if str_eq name "retry-after" then some "30" else none;
  chunks = chunks;
  body_end = end;
})

abbrev ranks_of : Result ProviderFault ProviderResult → List (ℕ × ℕ)
ranks_of (ok r) = (length r.results, length r.warnings) ∷ []
ranks_of (raised fault) = []

abbrev failed_as : Result ProviderFault ProviderResult → Option (String × ExecutionStage)
failed_as (raised (attempt_error e)) = some (e.error.code, e.stage)
failed_as _ = none

abbrev searched : (Params → ℕ → Exchange) → Option ℕ → Result ProviderFault ProviderResult
searched client remaining =
    Searxng.search platform settings client 7 remaining (asked SearchProviderId.searxng)

one_item_and_one_warning :
    ranks_of (searched (λ p t. reply 200 ((1 ∷ []) ∷ []) complete) none) ≡ (1, 1) ∷ []
unfolding Searxng.search validate_result_item
one_item_and_one_warning = refl

a_chunk_too_many :
    failed_as (searched (λ p t. reply 200 ((1 ∷ 2 ∷ 3 ∷ []) ∷ (4 ∷ 5 ∷ []) ∷ []) complete) none)
    ≡ some ("searxng_response_too_large", ExecutionStage.terminal_known)
unfolding Searxng.search
a_chunk_too_many = refl

time_is_over :
    failed_as (searched (λ p t. unanswered not_connected) (some 0))
    ≡ some ("search_deadline_exceeded", ExecutionStage.before_dispatch)
unfolding Searxng.search
time_is_over = refl

abbrev broken : ProviderError
broken = record {
  error = record {
    category = ErrorCategory.timeout;
    code = "searxng_timeout";
    retryable = true;
    retry_after_seconds = none;
    details = no_details;
  };
  stage = ExecutionStage.response_lost;
  provider_request_id = none;
}

abbrev breaks : Params → ℕ → Exchange
breaks p t = reply 200 ((1 ∷ []) ∷ []) body_timed_out

search-known_stage_example :
    broken.stage
    ≡ known_stage settings.max_response_bytes (
        exchanged
          (call_timeout none settings.request_timeout)
          (breaks (params platform.str (asked SearchProviderId.searxng))))
unfolding Searxng.search
search-known_stage_example =
    search-known_stage platform settings breaks 7 none (asked SearchProviderId.searxng) broken refl

date_of-in_range : (s : String) → date_of s ≢ out_of_range
date_of-in_range s = ground arith

parse_results_total_example :
    (out : Parsed) × ((parse_results platform (json_null ∷ page ∷ []) 1 ≡ ok out)
      × (seen out ≡ 1)
      × Ranked 1 out.parsed
      × All (Public platform) out.parsed)
parse_results_total_example =
    parse_results_total platform date_of-in_range (json_null ∷ page ∷ []) 1

abbrev leaf : String → String → Elements → Elements
leaf name text rest = child (element name [] text no_elements "") rest

abbrev tree : Element
tree =
    element "yandexsearch" [] ""
      (child
        (element "{ns}doc" [] "" (leaf "url" "https://a.org/1" (leaf "title" "A" no_elements)) "")
        (child (element "doc" [] "" (leaf "url" "https://b.org" no_elements) "") no_elements))
      ""

abbrev xml : XmlPlatform
xml = record {
  b64decode = λ s. some (1 ∷ []);
  fromstring = λ bytes. ok tree;
  collapse = λ s. s;
  strip = λ s. s;
  strptime = λ s. none;
}

abbrev counts_of : Result ProviderFault (List SearchResultItem × List CountWarning) → List (ℕ × ℕ)
counts_of (ok r) = (length r.0, length r.1) ∷ []
counts_of (raised fault) = []

a_namespace_and_a_gap : counts_of (parse_xml xml platform (ok tree) 5 none) ≡ (1, 1) ∷ []
unfolding parse_xml iter local_name validate_result_item snippet_of
a_namespace_and_a_gap = refl

parse_xml_total_example :
    (out : Parsed) × ((parse_xml xml platform (ok tree) 1 none ≡ ok (reported out))
      × ((length out.parsed ≤ 1) × Ranked 1 out.parsed × All (Public platform) out.parsed)
      × ((seen out ≡ 2) ⊎ (length out.parsed ≡ 1)))
unfolding iter local_name
parse_xml_total_example = parse_xml_total xml platform tree 1 none refl

abbrev yandex_settings : YandexSettings
yandex_settings = record {
  folder_id = some "f";
  api_key = some "k";
  search_type = "SEARCH_TYPE_RU";
  request_timeout = 1000;
  max_response_bytes = 100;
}

abbrev unreached : ProviderError
unreached = record {
  error = record {
    category = ErrorCategory.upstream;
    code = "yandex_connect_failed";
    retryable = true;
    retry_after_seconds = none;
    details = no_details;
  };
  stage = ExecutionStage.before_dispatch;
  provider_request_id = none;
}

abbrev one_word : String → ℕ
one_word s = 1

retry_allowed-not_sent_example :
    not_sent (
      fate platform xml one_word yandex_settings
        (λ call. unanswered not_connected)
        (some 10)
        (asked SearchProviderId.yandex))
    ≡ true
unfolding Yandex.search retry_allowed
retry_allowed-not_sent_example =
    retry_allowed-not_sent platform xml one_word yandex_settings (λ call. unanswered not_connected)
      7 (some 10) (asked SearchProviderId.yandex) unreached refl refl
