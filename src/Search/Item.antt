-- ===== src/Search/Item.antt =====
-- application/search/service.py: `_search_item`, one query with its cache, its single flight and its
-- attempts, and `_best_effort_cache_put`, `_cache_hit` and `_error_item`. The cache and the single
-- flight are asked under one identity, `_cache_identity`, which stands in none of the terms.
pub mod Reported
use web_access_mcp_server.Base.{
  ℕ, zero, suc, ◌+◌, ◌-◌, ◌≡◌, String, Bool, true, false, not, ◌||◌, Option, none, some, List, [],
  ◌∷◌, ◌++◌, if◌then◌else◌, is_some, take,
}
use web_access_mcp_server.Base.Effects.{
  Result, ok, raised, Block, pure, raise, lift, modify, try_except, ◌>>=◌, ◌>>◌,
}
use web_access_mcp_server.Common.Results.{
  LeafOutcome, OperationError, ErrorCategory, ExecutionStage, BatchItemResult, plain_error,
}
use web_access_mcp_server.Search.Registry.{
  SearchProviderId, SearchQuery, ProviderDescriptor, SearchRegionEntry, resolve, provider_region,
  validate_capabilities,
}
use web_access_mcp_server.Search.Attempts.{
  AttemptError, Interrupt, attempt_error, cancelled, deadline, other, Fault, interrupt, unreachable,
  AttemptPorts, AttemptPolicy, Trace, retryable_error, failure, execute_attempts,
}

-- `ProviderSearchResult`, with a result item by its URL
pub record ProviderResult : Type 0 where
  pub results : List String
  pub retrieved_at : ℕ
  pub next_page_available : Option Bool
  pub warnings : List String

pub record UsageMetadata : Type 0 where
  pub upstream_attempts : ℕ
  pub rate_units : ℕ
  pub billable_attempts : ℕ
  pub internal_retries : ℕ

abbrev pub no_usage : UsageMetadata
no_usage = record {
  upstream_attempts = 0;
  rate_units = 0;
  billable_attempts = 0;
  internal_retries = 0;
}

pub record QueryData : Type 0 where
  pub query : String
  pub provider_id : SearchProviderId
  pub page : ℕ
  pub requested_limit : ℕ
  pub results : List String
  pub cached : Bool
  pub retrieved_at : ℕ
  pub next_page_available : Option Bool
  pub usage : UsageMetadata

pub data CacheLookupState : Type 0 where
  hit miss corrupt unavailable : CacheLookupState

pub record CacheLookup : Type 0 where
  pub state : CacheLookupState
  pub value : Option QueryData

-- `except Exception` catches all but `asyncio.CancelledError`
pub data PutFault : Type 0 where
  put_failed task_cancelled : PutFault

-- The service's configuration and the services of an item: the two cache lookups by number, and
-- the attempts by provider and region.
pub record ItemPorts : Type 0 where
  pub default_provider : SearchProviderId
  pub providers : List ProviderDescriptor
  pub regions : List SearchRegionEntry
  pub words : String → ℕ
  pub cache_disabled : Bool
  pub policy : SearchProviderId → AttemptPolicy
  pub cache_get : ℕ → Result Interrupt CacheLookup
  pub acquire_flight : Result Interrupt Bool
  pub cache_put : QueryData → Result PutFault Bool
  pub attempts : ProviderDescriptor → Option String → AttemptPorts ProviderResult

-- the trace of the attempts, the single-flight lease if there is one (`true` for its holder), and
-- how many leases were held and given back
pub record ItemState : Type 0 where
  pub trace : Trace ProviderResult
  pub lease : Option Bool
  pub taken : ℕ
  pub freed : ℕ

abbrev pub begin : ItemState
begin = record { trace = []; lease = none; taken = 0; freed = 0 }

-- a `ProviderResolutionError`, by its code, or what the calls raise
pub data ItemFault : Type 0 where
  resolution : String → ItemFault
  fault : Fault → ItemFault

abbrev pub Item : Type 0
Item = BatchItemResult QueryData

abbrev pub resolved : {A : Type 0} → Result String A → Result ItemFault A
resolved (ok a) = ok a
resolved (raised code) = raised (resolution code)

abbrev pub bounded : {A : Type 0} → Result Interrupt A → Result ItemFault A
bounded (ok a) = ok a
bounded (raised i) = raised (fault (interrupt i))

-- `_error_item`
abbrev pub error_item : ℕ → LeafOutcome → OperationError → Item
error_item index outcome error = record {
  index = index;
  outcome = outcome;
  value = none;
  error = some error;
  warnings = [];
  hints = [];
}

abbrev pub success_item : ℕ → QueryData → List String → Item
success_item index d warnings = record {
  index = index;
  outcome = LeafOutcome.succeeded;
  value = some d;
  error = none;
  warnings = warnings;
  hints = [];
}

-- `_cache_hit`
unfoldable pub cache_hit : ℕ → QueryData → Item
cache_hit index d = success_item index (record d { cached = true; usage = no_usage }) []

-- the value of a hit
abbrev pub hit_value : CacheLookup → Option QueryData
hit_value c = elim c.state [ hit ↦ c.value | _ ↦ none ]

-- the stages after which the outcome of a failed attempt is unknown
abbrev pub is_uncertain : ExecutionStage → Bool
is_uncertain ExecutionStage.side_effect_possible = true
is_uncertain ExecutionStage.response_lost = true
is_uncertain _ = false

abbrev pub note_lease : Bool → ItemState → ItemState
note_lease true s = record s { lease = some true; taken = s.taken + 1 }
note_lease false s = record s { lease = some false }

-- the handlers of `_search_item`
unfoldable pub on_fault : ℕ → ItemFault → Block ItemFault ItemState Item
on_fault index (resolution code) =
    pure (error_item index LeafOutcome.rejected (plain_error ErrorCategory.unsupported code))
on_fault index (fault (interrupt (attempt_error e))) = pure (
    error_item index (if is_uncertain e.stage then LeafOutcome.unknown else LeafOutcome.failed)
      e.error)
on_fault index (fault (interrupt cancelled)) = pure (
    error_item index LeafOutcome.cancelled (plain_error ErrorCategory.cancelled "search_cancelled"))
on_fault index (fault (interrupt deadline)) = pure (
    error_item index LeafOutcome.failed
      (plain_error ErrorCategory.timeout "search_deadline_exceeded"))
on_fault index (fault (interrupt other)) = raise (fault (interrupt other))
on_fault index (fault unreachable) = raise (fault unreachable)

-- `if lease is not None and lease.holder: release`
abbrev pub free_lease : Option Bool → ItemState → ItemState
free_lease (some true) s = record s { freed = s.freed + 1 }
free_lease (some false) s = s
free_lease none s = s

abbrev pub and_free : Block ItemFault ItemState Item → Block ItemFault ItemState Item
and_free m s = let (r, s') = m s in (r, free_lease s'.lease s')

module _ (ports : ItemPorts) (index : ℕ) (q : SearchQuery) where
  -- the holder of the flight goes on; a waiter that the cache did not serve does not
  unfoldable pub only_holder : Bool → Block ItemFault ItemState (Option QueryData)
  only_holder true = pure none
  only_holder false = raise (
      fault (
        failure (retryable_error ErrorCategory.capacity "single_flight_wait_exhausted" none)
          ExecutionStage.before_dispatch))

  -- the second lookup, under the lease
  unfoldable pub look_again : Bool → Option QueryData → Block ItemFault ItemState (Option QueryData)
  unfolding only_holder
  look_again holder (some d) = pure (some d)
  look_again holder none = only_holder holder

  unfoldable pub after_miss : Option QueryData → Block ItemFault ItemState (Option QueryData)
  unfolding look_again
  after_miss (some d) = pure (some d)
  after_miss none = do
    holder ← lift (bounded ports.acquire_flight)
    modify (note_lease holder)
    again ← lift (bounded (ports.cache_get 2))
    look_again holder (hit_value again)

  -- what the cache has, with the lease taken if it has nothing
  unfoldable pub look_up : Bool → Block ItemFault ItemState (Option QueryData)
  unfolding after_miss
  look_up true = pure none
  look_up false = do found ← lift (bounded (ports.cache_get 1)); after_miss (hit_value found)

  abbrev pub attempt_policy : ProviderDescriptor → AttemptPolicy
  attempt_policy p = record (ports.policy p.provider_id) { billable = p.capabilities.billable }

  abbrev pub as_item : {A : Type 0} → Result Fault A → Result ItemFault A
  as_item (ok a) = ok a
  as_item (raised e) = raised (fault e)

  -- `_execute_attempts`, with its trace in the state
  unfoldable pub run_attempts :
      ProviderDescriptor → Option String → Block ItemFault ItemState (ProviderResult × ℕ)
  unfolding execute_attempts
  run_attempts p region s =
      let (r, t) = execute_attempts (ports.attempts p region) (attempt_policy p) [] in
      (as_item r, record s { trace = t })

  unfoldable pub query_data : ProviderDescriptor → ProviderResult → ℕ → QueryData
  query_data p result attempts = record {
    query = q.query;
    provider_id = p.provider_id;
    page = q.page;
    requested_limit = q.limit;
    results = take q.limit result.results;
    cached = false;
    retrieved_at = result.retrieved_at;
    next_page_available = result.next_page_available;
    usage = record {
      upstream_attempts = attempts;
      rate_units = attempts;
      billable_attempts = if p.capabilities.billable then attempts else 0;
      internal_retries = attempts - 1;
    };
  }

  -- `_best_effort_cache_put`
  unfoldable pub put_result : Result PutFault Bool → Block ItemFault ItemState Bool
  put_result (ok stored) = pure stored
  put_result (raised put_failed) = pure false
  put_result (raised task_cancelled) = raise (fault (interrupt other))

  unfoldable pub store : Bool → QueryData → Block ItemFault ItemState Bool
  unfolding put_result
  store true d = pure true
  store false d = put_result (ports.cache_put d)

  unfoldable pub fresh_item : ProviderDescriptor → Option String → Block ItemFault ItemState Item
  unfolding run_attempts query_data store
  fresh_item p region = do
    (result, attempts) ← run_attempts p region
    stored ← store ports.cache_disabled (query_data p result attempts)
    pure (
        success_item index (query_data p result attempts)
          (if stored then result.warnings else result.warnings ++ ("cache_write_failed" ∷ [])))

  unfoldable pub answer :
      ProviderDescriptor → Option String → Option QueryData → Block ItemFault ItemState Item
  unfolding fresh_item cache_hit
  answer p region (some d) = pure (cache_hit index d)
  answer p region none = fresh_item p region

  unfoldable pub region_of : ProviderDescriptor → Option String → Result ItemFault (Option String)
  region_of p none = ok none
  region_of p (some region) = elim (provider_region ports.regions region p.provider_id) [
    | ok r ↦ ok (some r)
    | raised code ↦ raised (resolution code)
  ]

  -- the block under `try`
  unfoldable pub try_item : Block ItemFault ItemState Item
  unfolding look_up answer region_of
  try_item = do
    p ← lift (resolved (resolve ports.default_provider ports.providers q.provider))
    _ ← lift (resolved (validate_capabilities ports.words p.capabilities q))
    region ← lift (region_of p q.region)
    found ← look_up ports.cache_disabled
    answer p region found

  -- `_search_item`
  unfoldable pub search_item : Result ItemFault Item × ItemState
  unfolding try_item on_fault
  search_item = and_free (try_except try_item (on_fault index)) begin
