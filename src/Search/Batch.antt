-- ===== src/Search/Batch.antt =====
-- application/search/service.py: `search`, the batch of queries, with `run` and `_aggregate_error`.
pub mod Totality
use web_access_mcp_server.Base.{
  ℕ, suc, ◌+◌, String, Bool, true, Option, none, some, List, [], ◌∷◌, select, if◌then◌else◌,
}
use web_access_mcp_server.Base.Effects.{Result, ok, raised}
use web_access_mcp_server.Common.Auth.{require_scope}
use web_access_mcp_server.Common.Results.{
  OperationOutcome, LeafOutcome, leaf_is, is_success, OperationError, ErrorCategory,
  OperationResult, plain_error, validate_result, aggregate_batch_outcome,
}
use web_access_mcp_server.Common.Results.Errors.{first_error, outcomes}
use web_access_mcp_server.Search.Registry.{SearchQuery}
use web_access_mcp_server.Search.Attempts.{Interrupt, cancelled, deadline, interrupt}
use web_access_mcp_server.Search.Item.{ItemPorts, ItemFault, fault, Item, error_item, search_item}

-- what leaves `search` instead of a result: an `AuthorizationError`, an exception of an item, and
-- the errors of the aggregation and of the result's validator
pub data Escape : Type 0 where
  denied : Escape
  from_item : ItemFault → Escape
  invalid_batch invalid_result : Escape

pub record Context : Type 0 where
  pub operation_id : String
  pub scopes : List String
  pub deadline_at : Option ℕ
  pub now : ℕ

-- What the surroundings answer for the item at an index: the wait for a slot of the batch, and the
-- services of the item, in the context and for the query.
pub record Surroundings : Type 0 where
  pub slot : Context → ℕ → Result Interrupt (Unit {0})
  pub ports : Context → ℕ → SearchQuery → ItemPorts

-- the context with a deadline
unfoldable pub limited : ℕ → Context → Context
limited timeout context = record context {
  deadline_at = elim context.deadline_at [ none ↦ some (context.now + timeout) | some d ↦ some d ];
}

-- `run(index, query)`, with the answer of the wait and the item
unfoldable pub run_query :
    ℕ → Result Interrupt (Unit {0}) → Result ItemFault Item → Result ItemFault Item
run_query index (ok u) item = item
run_query index (raised cancelled) item = ok (
    error_item index LeafOutcome.cancelled (plain_error ErrorCategory.cancelled "search_cancelled"))
run_query index (raised deadline) item = ok (
    error_item index LeafOutcome.failed
      (plain_error ErrorCategory.timeout "search_deadline_exceeded"))
run_query index (raised i) item = raised (fault (interrupt i))

-- `gather` over the enumerated queries: the first exception, in the order of the request
unfoldable pub run_queries :
    Surroundings → Context → ℕ → List SearchQuery → Result ItemFault (List Item)
run_queries env context index [] = ok []
run_queries env context index (q ∷ qs) =
    elim (run_query index (env.slot context index)
      (search_item (env.ports context index q) index q).0) [
        | raised e ↦ raised e
        | ok item ↦ elim (run_queries env context (suc index) qs) [
          | raised e ↦ raised e
          | ok items ↦ ok (item ∷ items)
        ]
      ]

abbrev pub unsuccessful : OperationError
unsuccessful = plain_error ErrorCategory.internal "search_batch_unsuccessful"

abbrev pub found_or : OperationError → Option OperationError → OperationError
found_or e none = e
found_or e (some e') = e'

-- `_aggregate_error`: the error of the first candidate
unfoldable pub aggregate_error : OperationOutcome → List Item → OperationError
aggregate_error OperationOutcome.unknown items =
    found_or unsuccessful
      (first_error (select (λ item. leaf_is item.outcome LeafOutcome.unknown) items))
aggregate_error _ items = found_or unsuccessful (first_error items)

-- the result that is built, which its validator may refuse
unfoldable pub build_result :
    String → List Item → OperationOutcome → Result Escape (OperationResult (List Item))
unfolding aggregate_error
build_result operation_id items outcome =
    let result : OperationResult (List Item) = record {
      operation_id = operation_id;
      outcome = outcome;
      value = some items;
      error = if is_success outcome then none else some (aggregate_error outcome items);
      warnings = [];
      hints = [];
    } in
    if validate_result result then ok result else raised Escape.invalid_result

unfoldable pub built :
    String → List Item → Option OperationOutcome → Result Escape (OperationResult (List Item))
unfolding build_result
built operation_id items none = raised Escape.invalid_batch
built operation_id items (some outcome) = build_result operation_id items outcome

unfoldable pub search :
    Surroundings → ℕ → Context → List SearchQuery → Result Escape (OperationResult (List Item))
unfolding require_scope limited run_queries built
search env timeout context qs =
    if require_scope context.scopes "search:read"
    then elim (run_queries env (limited timeout context) 0 qs) [
      | raised e ↦ raised (Escape.from_item e)
      | ok items ↦ built context.operation_id items (aggregate_batch_outcome (outcomes items))
    ]
    else raised Escape.denied
