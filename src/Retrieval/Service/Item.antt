-- ===== src/Retrieval/Service/Item.antt =====
-- `_fetch_item` of application/retrieval/service.py, with its two `try` statements.
use web_access_mcp_server.Base.{
  ℕ, String, Bool, false, ◌&&◌, Option, none, some, [], leb, ltb, if◌then◌else◌,
}
use web_access_mcp_server.Base.Effects.{
  Result, ok, raised, Block, pure, lift, raise, try_except, ◌>>=◌, ◌>>◌,
}
use web_access_mcp_server.Common.Results.{LeafOutcome, ErrorCategory, Details, BatchItemResult}
use web_access_mcp_server.Retrieval.Phase.{Phase, phase_value}
use web_access_mcp_server.Retrieval.Transport.{
  Failure, FetchCounters, Response, RetrievedResource, metadata,
}
use web_access_mcp_server.Retrieval.Service.{
  ProcessingLevel, ItemResult, Ports, Locals, enter, initial, inspect_block, native_block,
  retrieval_data, processing_item, error_of_processing,
}

abbrev pub Item : Type 0 → Type 0 → Type 0
Item R I = BatchItemResult (ItemResult R I)

-- `_error_item` with the phase in its details
unfoldable pub error_item :
    {R I : Type 0} → ℕ → LeafOutcome → ErrorCategory → String → Details → Item R I
error_item index outcome category code details = record {
  index = index;
  outcome = outcome;
  value = none;
  error = some (record {
    category = category;
    code = code;
    retryable = false;
    retry_after_seconds = none;
    details = details;
  });
  warnings = [];
  hints = [];
}

-- what the outer handlers report for an exception: the outcome, the category and the code
unfoldable pub report : Bool → Failure → LeafOutcome × ErrorCategory × String
report created (Failure.policy code) = (LeafOutcome.rejected, ErrorCategory.policy, code)
report created Failure.too_many_redirects =
    (LeafOutcome.failed, ErrorCategory.upstream, "too_many_redirects")
report created Failure.response_too_large =
    (LeafOutcome.failed, ErrorCategory.capacity, "response_too_large")
report created Failure.decompression_limit =
    (LeafOutcome.failed, ErrorCategory.capacity, "decompression_limit")
report created Failure.unsupported_encoding =
    (LeafOutcome.failed, ErrorCategory.unsupported, "unsupported_content_encoding")
report created Failure.timed_out = (LeafOutcome.failed, ErrorCategory.timeout, "retrieval_timeout")
report created Failure.connection =
    (LeafOutcome.failed, ErrorCategory.upstream, "retrieval_transport_error")
report created _ =
    if created
    then (LeafOutcome.unknown, ErrorCategory.unknown_outcome, "retrieval_resource_outcome_unknown")
    else (LeafOutcome.failed, ErrorCategory.internal, "retrieval_internal_error")

module _ {R I : Type 0} where
  -- the inner `except Exception`
  unfoldable pub processing_failed :
      ℕ → R → Response → FetchCounters → Failure → Block Failure (Locals R I) (Option (Item R I))
  unfolding enter processing_item error_of_processing retrieval_data
  processing_failed index raw response counters Failure.cancelled = raise Failure.cancelled
  processing_failed index raw response counters error = do
    m ← lift (metadata response counters)
    enter Phase.terminal
    λ s.
        let (category, code) = error_of_processing error s.processing_code in
        (ok (some (processing_item index category code (retrieval_data m raw s))), s)

  -- the inner `try`: an item if the processing failed
  unfoldable pub process :
      ℕ
      → ProcessingLevel
      → Ports R I
      → R
      → Response
      → FetchCounters
      → Block Failure (Locals R I) (Option (Item R I))
  unfolding inspect_block native_block processing_failed
  process index level ports raw response counters =
      try_except (do inspect_block level ports raw; native_block level ports raw; pure none)
        (processing_failed index raw response counters)

  -- the item for a response that was read and processed
  unfoldable pub item_of_status : ℕ → RetrievedResource → R → Locals R I → Item R I
  unfolding retrieval_data
  item_of_status index m raw s =
      let status = m.response.http_status in
      let success = leb 200 status && ltb status 300 in
      record {
        index = index;
        outcome = if success then LeafOutcome.succeeded else LeafOutcome.failed;
        value = some (retrieval_data m raw s);
        error =
            if success
            then none
            else some (record {
              category = ErrorCategory.upstream;
              code = "upstream_http_status";
              retryable = leb 500 status;
              retry_after_seconds = none;
              details = Details.http_status status;
            });
        warnings = s.warnings;
        hints = s.hints;
      }

  -- what follows the inner `try`
  unfoldable pub finish :
      ℕ → R → Response → FetchCounters → Option (Item R I) → Block Failure (Locals R I) (Item R I)
  unfolding enter item_of_status
  finish index raw response counters (some item) = pure item
  finish index raw response counters none = do
    m ← lift (metadata response counters)
    enter Phase.terminal
    λ s. (ok (item_of_status index m raw s), s)

  -- the outer `try`
  unfoldable pub acquire : ℕ → ProcessingLevel → Ports R I → Block Failure (Locals R I) (Item R I)
  unfolding enter process finish
  acquire index level ports = do
    enter Phase.validated
    enter Phase.dns_resolving
    enter Phase.connecting
    enter Phase.dispatch_possible
    response ← lift ports.fetch
    enter Phase.response_headers
    enter Phase.body_streaming
    enter Phase.content_creating
    enter Phase.content_staging
    (raw, counters) ← lift (ports.ingest response)
    enter Phase.content_finalized
    found ← process index level ports raw response counters
    finish index raw response counters found

  -- the handlers of the outer `try`
  unfoldable pub on_failure : ℕ → Failure → Block Failure (Locals R I) (Item R I)
  unfolding report error_item phase_value
  on_failure index Failure.cancelled s = (raised Failure.cancelled, s)
  on_failure index error s =
      let (outcome, category, code) = report s.tracker.resource_creation_possible error in
      let details = Details.retrieval_phase (phase_value s.tracker) in
      (ok (error_item index outcome category code details), s)

  unfoldable pub fetch_item : ℕ → ProcessingLevel → Ports R I → Result Failure (Item R I)
  unfolding acquire on_failure
  fetch_item index level ports =
      (try_except (acquire index level ports) (on_failure index) initial).0
