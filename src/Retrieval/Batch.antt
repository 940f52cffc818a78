-- ===== src/Retrieval/Batch.antt =====
-- `fetch` and `_aggregate_error` of application/retrieval/service.py: one operation over a batch.
-- The items run concurrently, bounded by a semaphore; each has ports of its own, so their order
-- does not matter, and `gather` gives their results in the order of the request. Only a
-- cancellation can leave an item as an exception.
pub mod Totality
use web_access_mcp_server.Base.{
  ℕ, suc, ◌+◌, ◌≡◌, String, Bool, true, false, Option, none, some, List, [], ◌∷◌, ◌++◌, select, any,
  str_eq, if◌then◌else◌, is_some, is_none,
}
use web_access_mcp_server.Base.Effects.{Result, ok, raised}
use web_access_mcp_server.Common.Auth.{require_scope}
use web_access_mcp_server.Common.Results.{
  OperationOutcome, LeafOutcome, leaf_is, is_success, ErrorCategory, Details, OperationError,
  OperationResult, validate_result, aggregate_batch_outcome,
}
use web_access_mcp_server.Common.Results.Errors.{first_error, outcomes}
use web_access_mcp_server.Retrieval.Transport.{Failure}
use web_access_mcp_server.Retrieval.Service.{ProcessingLevel, Ports}
use web_access_mcp_server.Retrieval.Service.Item.{Item, error_item, fetch_item}

-- What leaves `fetch` instead of a result: an `AuthorizationError`, an exception of an item, and
-- the `ValueError` and `RuntimeError` of the aggregation.
pub data Escape : Type 0 where
  denied : Escape
  from_item : Failure → Escape
  invalid_batch no_candidate invalid_result : Escape

-- the parts of `ExecutionContext` that the service reads or changes
pub record Context : Type 0 where
  pub operation_id : String
  pub scopes : List String
  pub deadline : Option ℕ
  pub now : ℕ

-- What the surroundings answer: whether cancellation is requested when the item at an index gets
-- its slot, and the ports for that item, in the context and for the URL.
pub record Surroundings (R I : Type 0) : Type 0 where
  pub cancellation_requested : ℕ → Bool
  pub ports : Context → ℕ → String → Ports R I

-- the context that the items see: the Content scopes are added, and a deadline is set
unfoldable pub widened : ℕ → Context → Context
widened timeout context = record {
  operation_id = context.operation_id;
  scopes = context.scopes ++ ("content:read" ∷ "content:write" ∷ []);
  deadline = elim context.deadline [ none ↦ some (context.now + timeout) | some d ↦ some d ];
  now = context.now;
}

module _ {R I : Type 0} where
  -- `run(index, item)`
  unfoldable pub run_item :
      Surroundings R I → Context → ProcessingLevel → ℕ → String → Result Failure (Item R I)
  unfolding error_item
  run_item env context level index url =
      if env.cancellation_requested index
      then ok (
          error_item index LeafOutcome.cancelled ErrorCategory.cancelled "retrieval_cancelled"
            Details.no_details)
      else fetch_item index level (env.ports context index url)

  -- `gather` over the enumerated items: the first exception, in the order of the request
  unfoldable pub run_all :
      Surroundings R I
      → Context
      → ProcessingLevel
      → ℕ
      → List String
      → Result Failure (List (Item R I))
  run_all env context level index [] = ok []
  run_all env context level index (url ∷ urls) = elim (run_item env context level index url) [
    | raised e ↦ raised e
    | ok item ↦ elim (run_all env context level (suc index) urls) [
      | raised e ↦ raised e
      | ok items ↦ ok (item ∷ items)
    ]
  ]

  -- `none` is the RuntimeError.
  unfoldable pub aggregate_error : OperationOutcome → List (Item R I) → Option OperationError
  aggregate_error OperationOutcome.unknown items =
      first_error (select (λ item. leaf_is item.outcome LeafOutcome.unknown) items)
  aggregate_error OperationOutcome.rejected items =
      first_error (select (λ item. leaf_is item.outcome LeafOutcome.rejected) items)
  aggregate_error OperationOutcome.cancelled items =
      first_error (select (λ item. leaf_is item.outcome LeafOutcome.cancelled) items)
  aggregate_error _ items = first_error items

  -- the result is built, and its validator may refuse it
  unfoldable pub build_result :
      String
      → OperationOutcome
      → List (Item R I)
      → Option OperationError
      → Result Escape (OperationResult (List (Item R I)))
  build_result operation_id outcome items error =
      let result : OperationResult (List (Item R I)) = record {
        operation_id = operation_id;
        outcome = outcome;
        value = some items;
        error = error;
        warnings = [];
        hints = [];
      } in
      if validate_result result then ok result else raised Escape.invalid_result

  -- from the outcome on
  unfoldable pub aggregate :
      String
      → List (Item R I)
      → Option OperationOutcome
      → Result Escape (OperationResult (List (Item R I)))
  unfolding aggregate_error build_result
  aggregate operation_id items none = raised Escape.invalid_batch
  aggregate operation_id items (some outcome) =
      if is_success outcome
      then build_result operation_id outcome items none
      else elim (aggregate_error outcome items) [
        | none ↦ raised Escape.no_candidate
        | some e ↦ build_result operation_id outcome items (some e)
      ]

  unfoldable pub fetch :
      Surroundings R I
      → ℕ
      → Context
      → ProcessingLevel
      → List String
      → Result Escape (OperationResult (List (Item R I)))
  unfolding require_scope widened run_all aggregate
  fetch env timeout context level urls =
      if require_scope context.scopes "retrieval:read"
      then elim (run_all env (widened timeout context) level 0 urls) [
        | raised e ↦ raised (Escape.from_item e)
        | ok items ↦ aggregate context.operation_id items (aggregate_batch_outcome (outcomes items))
      ]
      else raised Escape.denied
