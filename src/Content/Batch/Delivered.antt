-- ===== src/Content/Batch/Delivered.antt =====
-- application/content/service.py: the results of the batches of contents.
use web_access_mcp_server.Base.{ℕ, String, ◌≡◌, true, Option, none, some, List, [], map}
use web_access_mcp_server.Base.Effects.{Result, ok, raised}
use web_access_mcp_server.Common.Results.{
  OperationOutcome, OperationError, BatchItemResult, OperationResult, validate_result,
  aggregate_batch_outcome,
}
use web_access_mcp_server.Common.Results.Errors.{outcomes, AllValid}
use web_access_mcp_server.Retrieval.Batch.Totality.{indexes_from}
use web_access_mcp_server.Content.Batch.{Thrown, BatchEscape}
use web_access_mcp_server.Content.Batch.Escapes.{AllAnswer, SomeLeaves}

module _ {D : Type 0} where
  abbrev result_of :
      String
      → OperationOutcome
      → List (BatchItemResult D)
      → Option OperationError
      → OperationResult (List (BatchItemResult D))
  result_of operation_id outcome items error = record {
    operation_id = operation_id;
    outcome = outcome;
    value = some items;
    error = error;
    warnings = [];
    hints = [];
  }

  -- a result that its validator accepts, with the aggregated outcome and a valid item for each id in
  -- the order of the request, which has what is asked for or an error with a machine code
  unfoldable pub Complete :
      (ℕ → String → Result Thrown D)
      → List String
      → Result BatchEscape (OperationResult (List (BatchItemResult D)))
      → Type 0
  Complete ask ids r =
      (result : OperationResult (List (BatchItemResult D))) × (items : List (BatchItemResult D))
      × (r ≡ ok result)
      × (result.value ≡ some items)
      × (validate_result result ≡ true)
      × (some result.outcome ≡ aggregate_batch_outcome (outcomes items))
      × AllValid items
      × (map (λ item. item.index) items ≡ indexes_from 0 ids)
      × AllAnswer ask 0 ids items

  -- a complete result where no item leaves the batch, and else the exception of the first that does,
  -- which some item raised
  unfoldable pub Delivered :
      (ℕ → String → Result Thrown D)
      → Option BatchEscape
      → List String
      → Result BatchEscape (OperationResult (List (BatchItemResult D)))
      → Type 0
  unfolding Complete
  Delivered ask none ids r = Complete ask ids r
  Delivered ask (some e) ids r = (r ≡ raised e) × SomeLeaves ask 0 ids e
