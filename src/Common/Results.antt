-- ===== src/Common/Results.antt =====
-- application/common/results.py: outcomes, results, batch aggregation and the retry policy; and
-- the error value of application/common/errors.py. A warning and a hint stand for their codes, and human-readable
-- messages are left out.
pub mod Aggregate
pub mod Retry
pub mod Errors
use web_access_mcp_server.Base.{
  ℕ, String, Bool, true, false, not, ◌&&◌, ◌||◌, Option, none, some, List, [], ◌∷◌, any, all,
  is_none, is_some, if◌then◌else◌,
}

pub data OperationOutcome : Type 0 where
  succeeded partial_success failed rejected cancelled unknown : OperationOutcome

pub data PublicOperationOutcome : Type 0 where
  succeeded partial failed rejected cancelled unknown : PublicOperationOutcome

pub data LeafOutcome : Type 0 where
  succeeded failed rejected cancelled unknown : LeafOutcome

unfoldable pub public_outcome : OperationOutcome → PublicOperationOutcome
public_outcome OperationOutcome.succeeded = PublicOperationOutcome.succeeded
public_outcome OperationOutcome.partial_success = PublicOperationOutcome.partial
public_outcome OperationOutcome.failed = PublicOperationOutcome.failed
public_outcome OperationOutcome.rejected = PublicOperationOutcome.rejected
public_outcome OperationOutcome.cancelled = PublicOperationOutcome.cancelled
public_outcome OperationOutcome.unknown = PublicOperationOutcome.unknown

-- `outcome is LeafOutcome.X`
abbrev pub leaf_is : LeafOutcome → LeafOutcome → Bool
leaf_is LeafOutcome.succeeded LeafOutcome.succeeded = true
leaf_is LeafOutcome.failed LeafOutcome.failed = true
leaf_is LeafOutcome.rejected LeafOutcome.rejected = true
leaf_is LeafOutcome.cancelled LeafOutcome.cancelled = true
leaf_is LeafOutcome.unknown LeafOutcome.unknown = true
leaf_is _ _ = false

-- `outcome in {SUCCEEDED, PARTIAL_SUCCESS}`
abbrev pub is_success : OperationOutcome → Bool
is_success OperationOutcome.succeeded = true
is_success OperationOutcome.partial_success = true
is_success _ = false

pub data ErrorCategory : Type 0 where
  validation policy permission authentication not_found expired conflict unsupported : ErrorCategory
  rate_limited capacity upstream timeout infrastructure resource_lost cancelled : ErrorCategory
  unknown_outcome internal : ErrorCategory

-- the `details` dictionaries that the services build
pub data Details : Type 0 where
  no_details : Details
  retrieval_phase : String → Details
  http_status : ℕ → Details

pub record OperationError : Type 0 where
  pub category : ErrorCategory
  pub code : String
  pub retryable : Bool
  pub retry_after_seconds : Option ℕ
  pub details : Details

-- `OperationError(category=..., code=..., message=...)`
abbrev pub plain_error : ErrorCategory → String → OperationError
plain_error category code = record {
  category = category;
  code = code;
  retryable = false;
  retry_after_seconds = none;
  details = Details.no_details;
}

pub record BatchItemResult {ℓ} (D : Type ℓ) : Type ℓ where
  pub index : ℕ
  pub outcome : LeafOutcome
  pub value : Option D
  pub error : Option OperationError
  pub warnings : List String
  pub hints : List String

pub record OperationResult {ℓ} (D : Type ℓ) : Type ℓ where
  pub operation_id : String
  pub outcome : OperationOutcome
  pub value : Option D
  pub error : Option OperationError
  pub warnings : List String
  pub hints : List String

pub record PublicOperationResult {ℓ} (D : Type ℓ) : Type ℓ where
  pub operation_id : String
  pub outcome : PublicOperationOutcome
  pub value : Option D
  pub error : Option OperationError
  pub warnings : List String
  pub hints : List String

module _ {ℓ} {D : Type ℓ} where
  -- the validator of `BatchItemResult`: `false` where it raises
  abbrev pub validate_item : BatchItemResult D → Bool
  validate_item item =
      if leaf_is item.outcome LeafOutcome.succeeded && is_some item.error
      then false
      else if not (leaf_is item.outcome LeafOutcome.succeeded) && is_none item.error
      then false
      else true

  -- the validator of `OperationResult`
  abbrev pub validate_result : OperationResult D → Bool
  validate_result result =
      if is_success result.outcome
      then (if is_some result.error then false else true)
      else if is_none result.error
      then false
      else true

  unfoldable pub project_result : OperationResult D → PublicOperationResult D
  unfolding public_outcome
  project_result result = record {
    operation_id = result.operation_id;
    outcome = public_outcome result.outcome;
    value = result.value;
    error = result.error;
    warnings = result.warnings;
    hints = result.hints;
  }

-- `none` is the ValueError of an empty batch.
unfoldable pub aggregate_batch_outcome : List LeafOutcome → Option OperationOutcome
aggregate_batch_outcome [] = none
aggregate_batch_outcome (x ∷ xs) =
    let outcomes = x ∷ xs in
    if all (λ o. leaf_is o LeafOutcome.succeeded) outcomes
    then some OperationOutcome.succeeded
    else if any (λ o. leaf_is o LeafOutcome.succeeded) outcomes
    then some OperationOutcome.partial_success
    else if any (λ o. leaf_is o LeafOutcome.unknown) outcomes
    then some OperationOutcome.unknown
    else if all (λ o. leaf_is o LeafOutcome.rejected) outcomes
    then some OperationOutcome.rejected
    else if all (λ o. leaf_is o LeafOutcome.cancelled) outcomes
    then some OperationOutcome.cancelled
    else some OperationOutcome.failed

pub data RetryClass : Type 0 where
  safe_retry idempotent_retry never_automatic phase_evidence_required : RetryClass

pub data ExecutionStage : Type 0 where
  before_dispatch dispatched executing side_effect_possible terminal_known : ExecutionStage
  response_lost : ExecutionStage

-- `stage is ExecutionStage.X`
abbrev pub is_before_dispatch : ExecutionStage → Bool
is_before_dispatch ExecutionStage.before_dispatch = true
is_before_dispatch _ = false

abbrev pub is_terminal_known : ExecutionStage → Bool
is_terminal_known ExecutionStage.terminal_known = true
is_terminal_known _ = false

pub record OperationEffects : Type 0 where
  pub billable_cost_possible : Bool
  pub resource_creation_possible : Bool
  pub external_side_effect_possible : Bool

-- the tests on the retry class
allowed_by_class : RetryClass → ExecutionStage → OperationEffects → Bool → Bool
allowed_by_class RetryClass.never_automatic stage effects idempotency_proven = false
allowed_by_class RetryClass.idempotent_retry stage effects idempotency_proven =
    idempotency_proven && not effects.billable_cost_possible
allowed_by_class RetryClass.phase_evidence_required stage effects idempotency_proven =
    is_before_dispatch stage
allowed_by_class RetryClass.safe_retry stage effects idempotency_proven = not (
    effects.billable_cost_possible || effects.resource_creation_possible
    || effects.external_side_effect_possible)

unfoldable pub automatic_retry_allowed :
    RetryClass → ExecutionStage → OperationEffects → Bool → Bool → Bool
unfolding allowed_by_class
automatic_retry_allowed retry_class stage effects error_retryable idempotency_proven =
    if not error_retryable
    then false
    else allowed_by_class retry_class stage effects idempotency_proven
