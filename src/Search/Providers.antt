-- ===== src/Search/Providers.antt =====
-- What infrastructure/search/searxng.py and yandex.py share: the errors of one attempt, the bounded
-- body, the headers and the time limit, and the results of domain/search/models.py. The HTTP client,
-- `json.loads`, `urlsplit` and the dates are parameters. Messages are left out.
pub mod Ranks
pub mod Stages
pub mod Searxng
pub mod Xml
pub mod Yandex
use web_access_mcp_server.Base.{
  ℕ, zero, suc, ◌||◌, ◌+◌, ◌<◌, min, String, Bool, true, false, ◌&&◌, Option, none, some, List, [],
  ◌∷◌, ◌++◌, length, leb, ltb, str_eq, if◌then◌else◌, text_length, take_text, holds,
}
use web_access_mcp_server.Base.Effects.{Result, ok, raised, and_then}
use web_access_mcp_server.Common.Results.{
  ErrorCategory, OperationError, ExecutionStage, Details, plain_error,
}
use web_access_mcp_server.Search.Registry.{SearchProviderId, SearchSafeMode, SearchTimeRange}

-- `ProviderAttemptError`
pub record ProviderError : Type 0 where
  pub error : OperationError
  pub stage : ExecutionStage
  pub provider_request_id : Option String

-- what leaves `search`: a `ProviderAttemptError`, or an exception that nothing here catches
pub data ProviderFault : Type 0 where
  attempt_error : ProviderError → ProviderFault
  uncaught : ProviderFault

-- The exceptions of the client: ConnectError, ConnectTimeout and PoolTimeout; TimeoutException;
-- TransportError; any other, as a decoding error of the body.
pub data ClientError : Type 0 where
  not_connected timed_out transport_failed other_error : ClientError

-- the end of a body: complete, or one of the exceptions but the first
pub data BodyEnd : Type 0 where
  complete body_timed_out body_failed body_other : BodyEnd

pub record Response : Type 0 where
  pub status : ℕ
  pub header : String → Option String
  pub chunks : List (List ℕ)
  pub body_end : BodyEnd

-- what the client makes of a request
pub data Exchange : Type 0 where
  unanswered : ClientError → Exchange
  answered : Response → Exchange

-- the values of `json.loads`, as far as the code tells them apart
mutual
  pub data Json : Type 0 where
    json_null : Json
    json_text : String → Json
    json_list : Values → Json
    json_object : Fields → Json
    json_other : Json

  pub data Values : Type 0 where
    no_values : Values
    value : Json → Values → Values

  pub data Fields : Type 0 where
    no_fields : Fields
    field : String → Json → Fields → Fields

-- `json.loads`: `invalid_json` is a JSONDecodeError or a UnicodeDecodeError, and `value_error` another
-- ValueError, as for an integer of too many digits
pub data JsonFault : Type 0 where
  invalid_json value_error other_json_fault : JsonFault

-- `datetime.fromisoformat` and the change to UTC, which may be out of range
pub data IsoDate : Type 0 where
  not_iso naive out_of_range : IsoDate
  aware : ℕ → IsoDate

-- The library code that the adapters call: `int` is `none` where it raises a ValueError, and so is
-- `urlsplit`, which gives the scheme and the host name.
pub record Platform : Type 0 where
  pub loads : List ℕ → Result JsonFault Json
  pub urlsplit : String → Option (String × Option String)
  pub replace : String → String → String → String
  pub iso_date : String → IsoDate
  pub isdecimal : String → Bool
  pub int : String → Option ℕ
  pub str : ℕ → String

-- `ProviderSearchRequest`
pub record ProviderRequest : Type 0 where
  pub query : String
  pub provider_id : SearchProviderId
  pub page : ℕ
  pub limit : ℕ
  pub language : Option String
  pub provider_region : Option String
  pub safe_search : Option SearchSafeMode
  pub time_range : Option SearchTimeRange

pub record SearchResultItem : Type 0 where
  pub rank : ℕ
  pub title : String
  pub url : String
  pub snippet : Option String
  pub host : Option String
  pub published_at : Option ℕ

-- a warning with the count of its details
pub record CountWarning : Type 0 where
  pub code : String
  pub count : ℕ

-- `ProviderSearchResult`
pub record ProviderResult : Type 0 where
  pub provider_id : SearchProviderId
  pub results : List SearchResultItem
  pub retrieved_at : ℕ
  pub provider_request_id : Option String
  pub warnings : List CountWarning

-- `value is None or len(value) <= maximum`
abbrev pub within : ℕ → Option String → Bool
within maximum = holds (λ s. leb (text_length s) maximum)

-- `SearchResultItem.__post_init__`: `false` where it raises. The dates are in UTC already.
unfoldable pub validate_result_item : SearchResultItem → Bool
validate_result_item item =
    leb 1 item.rank
    && leb (text_length item.title) 4096
    && leb (text_length item.url) 8192
    && within 8192 item.snippet
    && within 1024 item.host

-- the call of the constructor
unfoldable pub result_item : SearchResultItem → Result ProviderFault SearchResultItem
result_item item = if validate_result_item item then ok item else raised uncaught

-- `_attempt_error`
abbrev pub failed_attempt :
    ErrorCategory → String → Bool → ExecutionStage → Option ℕ → Option String → ProviderFault
failed_attempt category code retryable stage after request_id = attempt_error (record {
  error = record (plain_error category code) { retryable = retryable; retry_after_seconds = after };
  stage = stage;
  provider_request_id = request_id;
})

-- `len(body) + len(chunk) > maximum` stops the body; what else ends it is the client's.
unfoldable pub read_body :
    (too_large : ProviderFault)
    → (ClientError → ProviderFault)
    → ℕ
    → List ℕ
    → List (List ℕ)
    → BodyEnd
    → Result ProviderFault (List ℕ)
read_body too_large lost maximum body [] complete = ok body
read_body too_large lost maximum body [] body_timed_out = raised (lost timed_out)
read_body too_large lost maximum body [] body_failed = raised (lost transport_failed)
read_body too_large lost maximum body [] body_other = raised (lost other_error)
read_body too_large lost maximum body (chunk ∷ chunks) end =
    let rest = read_body too_large lost maximum (body ++ chunk) chunks end in
    if ltb maximum (length body + length chunk) then raised too_large else rest

-- `a or b`, for two texts that may be None
abbrev pub text_or : Option String → Option String → Option String
text_or none b = b
text_or (some a) b = if ltb 0 (text_length a) then some a else b

abbrev pub cut_id : Option String → Option String
cut_id none = none
cut_id (some id) = if ltb 0 (text_length id) then some (take_text 256 id) else none

-- `_request_id`
unfoldable pub request_id : (String → Option String) → Option String
request_id header = cut_id (text_or (header "x-request-id") (header "x-correlation-id"))

-- `_timeout`, in milliseconds: what is left of the operation's time, which is 0 once it is over
unfoldable pub call_timeout : Option ℕ → ℕ → Result ProviderFault ℕ
call_timeout none setting = ok setting
call_timeout (some remaining) setting =
    if leb remaining 0
    then raised (
        failed_attempt ErrorCategory.timeout "search_deadline_exceeded" false
          ExecutionStage.before_dispatch none none)
    else ok (min remaining setting)

module _ (platform : Platform) where
  abbrev pub seconds_of : Option ℕ → Result ProviderFault (Option ℕ)
  seconds_of none = raised uncaught
  seconds_of (some n) = ok (some (min n 86400))

  -- `_retry_after`
  unfoldable pub retry_after : Option String → Result ProviderFault (Option ℕ)
  retry_after none = ok none
  retry_after (some text) =
      if platform.isdecimal text then seconds_of (platform.int text) else ok none

abbrev pub values_list : Values → List Json
values_list no_values = []
values_list (value v vs) = v ∷ values_list vs

-- `value.get(key)`; a dictionary has each key once
abbrev pub get : String → Fields → Option Json
get key no_fields = none
get key (field name v fields) =
    let rest = get key fields in if str_eq name key then some v else rest

-- `urlsplit`, for a URL with a host and one of the two schemes
abbrev pub web_host : Option (String × Option String) → Option String
web_host none = none
web_host (some (scheme, none)) = none
web_host (some (scheme, some hostname)) =
    if str_eq scheme "http" || str_eq scheme "https" then some hostname else none

-- the state of the loop over the items
pub record Parsed : Type 0 where
  pub parsed : List SearchResultItem
  pub skipped : ℕ

-- a warning about a number of omissions, where there are any
abbrev pub count_warning : String → ℕ → List CountWarning
count_warning code zero = []
count_warning code (suc n) = record { code = code; count = min (suc n) 1000 } ∷ []
