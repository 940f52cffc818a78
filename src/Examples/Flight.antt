-- ===== src/Examples/Flight.antt =====
-- infrastructure/search/cache.py on concrete inputs.
use web_access_mcp_server.Base.{
  ℕ, ◌≡◌, refl, suc, ◌+◌, ◌-◌, ◌*◌, ◌≤◌, min, arith, String, true, false, Option, none, some, List,
  [], ◌∷◌, length, is_some, str_eq, if◌then◌else◌,
}
use web_access_mcp_server.Base.Effects.{ok}
use web_access_mcp_server.Search.Registry.{SearchProviderId}
use web_access_mcp_server.Search.Item.{QueryData, CacheLookupState, no_usage}
use web_access_mcp_server.Search.Cache.{Entry, key, CacheFault}
use web_access_mcp_server.Search.Cache.Stored.{get-put}
use web_access_mcp_server.Search.Cache
use web_access_mcp_server.Search.Leases.{prune}
use web_access_mcp_server.Search.Flight.{
  FlightEvent, passed, tried, returned, run, no_flight, live, set_refused, FlightPorts,
  acquire_from, deadline_of,
}
use web_access_mcp_server.Search.Flight.Exclusive.{one_or_none, run-Exclusive}
use web_access_mcp_server.Search.Flight.Waiting.{acquire_ends}

abbrev identity : String
identity = "search:v1:0123456789abcdef0123456789abcdef0123456789abcdef0123456789abcdef"

abbrev answer : QueryData
answer = record {
  query = "news";
  provider_id = SearchProviderId.searxng;
  page = 1;
  requested_limit = 1;
  results = [];
  cached = false;
  retrieved_at = 7;
  next_page_available = none;
  usage = no_usage;
}

abbrev read_json : String → Option QueryData
read_json s = if str_eq s "{}" then some answer else none

abbrev write_json : QueryData → String
write_json d = "{}"

abbrev stored : List Entry
stored =
    record {
      name = "p:0123456789abcdef0123456789abcdef0123456789abcdef0123456789abcdef";
      payload = "{}";
      expires = 1100;
    }
    ∷ []

the_answer_is_stored :
    Cache.put read_json write_json "p:" false 100 identity answer 1 [] ≡ ok (true, stored)
unfolding Cache.put key
the_answer_is_stored = refl

get-put_example :
    Cache.get read_json write_json "p:" false true 1099 identity stored
    ≡ ok (record { state = CacheLookupState.hit; value = some answer }, stored)
get-put_example =
    get-put read_json write_json "p:" 100 1099 identity answer 1 [] stored true refl
      the_answer_is_stored (omega arith)

it_has_expired :
    Cache.get read_json write_json "p:" false true 1100 identity stored
    ≡ ok (record { state = CacheLookupState.miss; value = none }, stored)
unfolding Cache.get key
it_has_expired = refl

abbrev history : List FlightEvent
history = tried "a" ∷ tried "b" ∷ passed 6 ∷ tried "b" ∷ returned "a" ∷ []

the_second_leads : (run 5 no_flight history).stored ≡ some (record { token = "b"; expires = 11 })
unfolding run
the_second_leads = refl

run-Exclusive_example :
    (prune (run 5 no_flight history).now (run 5 no_flight history).granted
      ≡ one_or_none (live (run 5 no_flight history).now (run 5 no_flight history).stored))
    × (length (prune (run 5 no_flight history).now (run 5 no_flight history).granted) ≤ 1)
run-Exclusive_example = run-Exclusive 5 (omega arith) history

-- a flight that another leads for long
abbrev busy : FlightPorts
busy = record { reply = λ n. set_refused; monotonic = λ n. 10 + 3 * n }

busy_sleeps : (n : ℕ) → (10 + 3 * n) + min 2 (14 - (10 + 3 * n)) ≤ 10 + 3 * suc n
busy_sleeps n = omega arith

acquire_ends_example : is_some (acquire_from busy 2 "a" (deadline_of 10 (some 4)) 5 0) ≡ true
acquire_ends_example = acquire_ends busy 2 "a" 10 4 (omega arith) (omega arith) busy_sleeps
