-- ===== src/Examples/Items.antt =====
-- application/search/registry.py and `_search_item` on concrete inputs.
use web_access_mcp_server.Base.{
  ℕ, ◌≡◌, ◌↔◌, refl, String, true, false, Option, none, some, List, [], ◌∷◌, arith, if◌then◌else◌,
  ◌==◌,
}
use web_access_mcp_server.Base.Effects.{Result, ok, raised, Ensures}
use web_access_mcp_server.Common.Results.{
  OperationOutcome, OperationResult, aggregate_batch_outcome,
}
use web_access_mcp_server.Search.Registry.{
  SearchProviderId, SearchProviderSelection, SearchTimeRange, SearchQuery, ProviderCapabilities,
  resolve, append_if, validate_capabilities,
}
use web_access_mcp_server.Search.Registry.Support.{IsSupported, validate-iff-IsSupported}
use web_access_mcp_server.Search.Attempts.{allowed, deadline, execute_attempts}
use web_access_mcp_server.Search.Item.{
  ProviderResult, CacheLookupState, ItemPorts, Item, ItemFault, search_item,
}
use web_access_mcp_server.Search.Batch.{Escape, Context, Surroundings, run_query, search}
use web_access_mcp_server.Search.Batch.Totality.{Delivered, search-Delivered}
use web_access_mcp_server.Common.Auth.{require_scope}
use web_access_mcp_server.Search.Item.Reported.{Reported, Interrupted, search_item-Reported}

abbrev plain : ProviderCapabilities
plain = record {
  pagination = true;
  language = false;
  region = false;
  safe_search = false;
  time_range = true;
  max_results = 10;
  max_query_length = 100;
  max_query_words = none;
  max_result_window = some 50;
  supported_time_ranges = SearchTimeRange.day ∷ [];
  billable = true;
}

abbrev today : SearchQuery
today = record {
  query = "news";
  provider = SearchProviderSelection.default_selection;
  page = 2;
  limit = 1;
  language = none;
  region = none;
  safe_search = none;
  time_range = some SearchTimeRange.day;
}

abbrev one_word : String → ℕ
one_word s = 1

limits_are_checked :
    validate_capabilities one_word plain
      (record today { limit = 11; time_range = some SearchTimeRange.year })
    ≡ raised "unsupported_option"
unfolding validate_capabilities append_if
limits_are_checked = refl

validate-iff-IsSupported_example :
    (validate_capabilities one_word plain today ≡ ok tt) ↔ IsSupported one_word plain today
validate-iff-IsSupported_example = validate-iff-IsSupported one_word plain today

abbrev found : ProviderResult
found = record {
  results = "/a" ∷ "/b" ∷ [];
  retrieved_at = 7;
  next_page_available = none;
  warnings = [];
}

abbrev ports : ItemPorts
ports = record {
  default_provider = SearchProviderId.yandex;
  providers =
      record {
        provider_id = SearchProviderId.yandex;
        enabled = true;
        capabilities = plain;
        configuration_revision = "r";
      }
      ∷ [];
  regions = [];
  words = one_word;
  cache_disabled = false;
  policy = λ id. record {
    max_attempts = 2;
    billable = false;
    has_usage = true;
    backoff_ms = 0;
    jitter_num = 0;
    jitter_den = 1;
    random_den = 1;
  };
  cache_get = λ n. ok (record { state = CacheLookupState.miss; value = none });
  acquire_flight = ok true;
  cache_put = λ d. ok false;
  attempts = λ p region. record {
    admit = λ n. ok allowed;
    acquire = λ n. ok true;
    start = λ n. ok tt;
    mark = λ n stage. ok tt;
    search = λ n. ok found;
    remaining = λ n. none;
    random = λ n. 0;
    sleep = λ n d. ok tt;
  };
}

abbrev warnings_of : Result ItemFault Item → List String
warnings_of (ok item) = item.warnings
warnings_of (raised e) = []

cache_failure_is_a_warning : warnings_of (search_item ports 0 today).0 ≡ "cache_write_failed" ∷ []
unfolding search_item resolve validate_capabilities append_if execute_attempts
cache_failure_is_a_warning = refl

search_item-Reported_example :
    Ensures (Reported ports 0 today) (Interrupted ports 0 today) (search_item ports 0 today)
search_item-Reported_example = search_item-Reported ports 0 today (λ id. omega arith)

abbrev batch : Surroundings
batch = record {
  slot = λ context index. if index == 1 then raised deadline else ok tt;
  ports = λ context index q. ports;
}

abbrev context : Context
context = record { operation_id = "op"; scopes = "search:read" ∷ []; deadline_at = none; now = 0 }

abbrev outcome_of : Result Escape (OperationResult (List Item)) → Option OperationOutcome
outcome_of (ok result) = some result.outcome
outcome_of (raised e) = none

one_of_two_succeeds :
    outcome_of (search batch 1000 context (today ∷ today ∷ []))
    ≡ some OperationOutcome.partial_success
unfolding search search_item resolve validate_capabilities append_if execute_attempts run_query
    aggregate_batch_outcome
one_of_two_succeeds = refl

search-Delivered_example :
    Delivered (today ∷ today ∷ []) (search batch 1000 context (today ∷ today ∷ []))
unfolding require_scope
search-Delivered_example =
    search-Delivered batch 1000 context today (today ∷ []) (λ context index q id. omega arith) refl
