-- ===== src/Examples/Retrieval.antt =====
-- application/common/results.py and application/retrieval on concrete inputs.
use web_access_mcp_server.Base.{
  ℕ, ◌≡◌, ◌≢◌, ◌⊎◌, ◌↔◌, refl, String, Bool, true, false, not, ◌&&◌, Option, none, some, List, [],
  ◌∷◌, any, is_some,
}
use web_access_mcp_server.Base.Effects.{Result, ok, raised}
use web_access_mcp_server.Common.Auth.{require_scope}
use web_access_mcp_server.Common.Results.{
  OperationOutcome, LeafOutcome, RetryClass, ExecutionStage, OperationEffects,
  aggregate_batch_outcome, automatic_retry_allowed,
}
use web_access_mcp_server.Common.Results.Aggregate.{outcome_of, aggregate-outcome_of}
use web_access_mcp_server.Common.Results.Retry.{retry_is_conservative}
use web_access_mcp_server.Retrieval.Phase.{
  Phase, fresh, entered, advance, internal_fetch_retry_allowed,
}
use web_access_mcp_server.Retrieval.Phase.Order.{
  advance_all, IsOrdered, is_dispatched, advance_all-iff-IsOrdered, retry-iff-undispatched,
}
use web_access_mcp_server.Retrieval.Transport.{Failure, FetchCounters, Response, metadata}
use web_access_mcp_server.Retrieval.Service.{ProcessingLevel, Ports}
use web_access_mcp_server.Retrieval.Service.Item.{Item, fetch_item}
use web_access_mcp_server.Retrieval.Batch.{Context, Surroundings, fetch}
use web_access_mcp_server.Retrieval.Batch.Totality.{Delivered, fetch-Delivered}

abbrev mixed : List LeafOutcome
mixed = LeafOutcome.rejected ∷ LeafOutcome.cancelled ∷ []

mixed_fails : aggregate_batch_outcome mixed ≡ some OperationOutcome.failed
unfolding aggregate_batch_outcome
mixed_fails = refl

aggregate-outcome_of_example :
    aggregate_batch_outcome mixed ≡ outcome_of false false true true false
aggregate-outcome_of_example = aggregate-outcome_of mixed

abbrev harmless : OperationEffects
harmless = record {
  billable_cost_possible = false;
  resource_creation_possible = false;
  external_side_effect_possible = false;
}

retry_is_conservative_example :
    (◌≡◌ {A = Bool} true true)
    × (RetryClass.safe_retry ≢ RetryClass.never_automatic)
    × ((RetryClass.safe_retry ≡ RetryClass.phase_evidence_required)
          × (ExecutionStage.dispatched ≡ ExecutionStage.before_dispatch)
        ⊎ (harmless.billable_cost_possible ≡ false))
    × ((RetryClass.safe_retry ≢ RetryClass.safe_retry)
        ⊎ (harmless.resource_creation_possible ≡ false)
          × (harmless.external_side_effect_possible ≡ false))
    × ((RetryClass.safe_retry ≢ RetryClass.idempotent_retry) ⊎ (◌≡◌ {A = Bool} false true))
unfolding automatic_retry_allowed
retry_is_conservative_example =
    retry_is_conservative RetryClass.safe_retry ExecutionStage.dispatched harmless true false refl

abbrev early : List Phase
early = Phase.validated ∷ Phase.dns_resolving ∷ Phase.connecting ∷ []

advance_all-iff-IsOrdered_example : (is_some (advance_all early fresh) ≡ true) ↔ IsOrdered early
advance_all-iff-IsOrdered_example = advance_all-iff-IsOrdered early

retry-iff-undispatched_example :
    internal_fetch_retry_allowed
      (entered Phase.connecting (entered Phase.dns_resolving (entered Phase.validated fresh)))
      true
    ≡ true && not (any is_dispatched early)
unfolding advance_all advance entered
retry-iff-undispatched_example = retry-iff-undispatched early _ true refl

-- references to Content, and inspections, are numbers here
abbrev page : Response
page = record {
  requested_url = "https://example.org/";
  final_url = "https://example.org/";
  http_status = 200;
  redirect_chain = [];
  content_encoding = none;
  declared_media_type = some "text/html";
  source_filename = none;
}

abbrev read : FetchCounters
read = record { wire_bytes = 10; entity_bytes = 40 }

-- the page is stored as Content 7, and its parser times out
abbrev slow_parser : Ports ℕ ℕ
slow_parser = record {
  fetch = ok page;
  ingest = λ _. ok (7, read);
  inspect = λ raw. ok raw;
  native_parse = λ _. raised (Failure.parser_timeout "parser_timeout");
}

abbrev parser_code : Result Failure (Item ℕ ℕ) → Option String
parser_code (ok item) = elim item.error [ some e ↦ some e.code | none ↦ none ]
parser_code (raised e) = none

slow_parser_code :
    parser_code (fetch_item 0 ProcessingLevel.native slow_parser) ≡ some "parser_timeout"
unfolding fetch_item metadata
slow_parser_code = refl

abbrev context : Context
context = record { operation_id = "op_1"; scopes = "retrieval:read" ∷ []; deadline = none; now = 0 }

abbrev surroundings : Surroundings ℕ ℕ
surroundings = record { cancellation_requested = λ _. false; ports = λ _ _ _. slow_parser }

fetch-Delivered_example :
    Delivered
      ("https://example.org/" ∷ [])
      (fetch surroundings 30 context ProcessingLevel.native ("https://example.org/" ∷ []))
unfolding require_scope
fetch-Delivered_example =
    fetch-Delivered surroundings 30 context ProcessingLevel.native "https://example.org/" [] refl
