-- ===== src/Content/Batch.antt =====
-- application/content/service.py: `inspect_many` and `native_parse_many`, which differ in their scopes
-- and in what they ask for each id.
use Prim.Native.Char.{code}
use web_access_mcp_server.Base.{
  ℕ, suc, String, Bool, true, false, not, ◌&&◌, Option, none, some, List, [], ◌∷◌, if◌then◌else◌,
  leb, text_length, ◌==◌, ◌||◌,
}
use web_access_mcp_server.Base.Effects.{Result, ok, raised, and_then}
use web_access_mcp_server.Common.Auth.{require_scope, AuthenticationFailure, failure_value}
use web_access_mcp_server.Common.Results.{
  OperationOutcome, LeafOutcome, is_success, ErrorCategory, OperationError, plain_error,
  BatchItemResult, OperationResult, validate_result, aggregate_batch_outcome,
}
use web_access_mcp_server.Common.Results.Errors.{first_error, outcomes}
pub mod Codes
pub mod Escapes
pub mod Delivered

-- the attribute `code` of an exception: a text, something else as `None`, or no such attribute
pub data CodeAttribute : Type 0 where
  no_code not_a_text : CodeAttribute
  code_text : String → CodeAttribute

-- an exception of an item, by the classes that `_content_batch_error` tells apart
pub data Fault : Type 0 where
  authorization : AuthenticationFailure → Fault
  not_found unavailable : Fault
  other : CodeAttribute → Fault

-- what an item raises: an `Exception`, or a `CancelledError`, which is none and is not caught
pub data Thrown : Type 0 where
  an_exception : Fault → Thrown
  cancelled : Thrown

-- what leaves the operation itself as an exception; `refused_error` is the `ValidationError` of
-- `OperationError`
pub data BatchEscape : Type 0 where
  scope_denied empty_batch no_error invalid_result refused_error task_cancelled : BatchEscape

abbrev pub is_code_char : ℕ → Bool
is_code_char n = leb b'a' n && leb n b'z' || leb b'0' n && leb n b'9' || n == b'_'

abbrev pub are_code_chars : String → Bool
are_code_chars String.[] = true
are_code_chars (String.◌∷◌ c s) = is_code_char (code c) && are_code_chars s

-- `MachineCode`
abbrev pub is_machine_code : String → Bool
is_machine_code s = leb 1 (text_length s) && leb (text_length s) 64 && are_code_chars s

-- `OperationError(category=..., code=..., message=...)` with its validation
abbrev pub operation_error : ErrorCategory → Option String → Result BatchEscape OperationError
operation_error category none = raised BatchEscape.refused_error
operation_error category (some s) =
    if is_machine_code s then ok (plain_error category s) else raised BatchEscape.refused_error

-- `getattr(error, "code", "content_processing_failed")`, where that is a text
abbrev pub code_or : CodeAttribute → String → Option String
code_or no_code default = some default
code_or not_a_text default = none
code_or (code_text s) default = some s

abbrev pub outcome_of_fault : Fault → LeafOutcome
outcome_of_fault (authorization failure) = LeafOutcome.rejected
outcome_of_fault _ = LeafOutcome.failed

abbrev pub error_of_fault : Fault → Result BatchEscape OperationError
error_of_fault (authorization failure) =
    operation_error ErrorCategory.permission (some (failure_value failure))
error_of_fault not_found = operation_error ErrorCategory.not_found (some "content_not_found")
error_of_fault unavailable = operation_error ErrorCategory.conflict (some "content_unavailable")
error_of_fault (other attribute) =
    operation_error ErrorCategory.internal (code_or attribute "content_processing_failed")

module _ {D : Type 0} where
  -- `_content_batch_error`
  unfoldable pub batch_error : ℕ → Fault → Result BatchEscape (BatchItemResult D)
  batch_error index error = and_then (error_of_fault error) (λ operation_error. ok (record {
    index = index;
    outcome = outcome_of_fault error;
    value = none;
    error = some operation_error;
    warnings = [];
    hints = [];
  }))

  -- one turn of the loop
  unfoldable pub batch_item : ℕ → Result Thrown D → Result BatchEscape (BatchItemResult D)
  unfolding batch_error
  batch_item index (ok value) = ok (record {
    index = index;
    outcome = LeafOutcome.succeeded;
    value = some value;
    error = none;
    warnings = [];
    hints = [];
  })
  batch_item index (raised (an_exception error)) = batch_error index error
  batch_item index (raised cancelled) = raised BatchEscape.task_cancelled

  -- the loop, which an exception that is not caught ends
  unfoldable pub batch_items :
      (ℕ → String → Result Thrown D)
      → ℕ
      → List String
      → Result BatchEscape (List (BatchItemResult D))
  unfolding batch_item
  batch_items ask index [] = ok []
  batch_items ask index (id ∷ ids) =
      and_then (batch_item index (ask index id))
        (λ item. and_then (batch_items ask (suc index) ids) (λ items. ok (item ∷ items)))

  -- the constructor of `OperationResult` with its validator
  unfoldable pub operation_result :
      String
      → OperationOutcome
      → List (BatchItemResult D)
      → Option OperationError
      → Result BatchEscape (OperationResult (List (BatchItemResult D)))
  operation_result operation_id outcome items error =
      let result : OperationResult (List (BatchItemResult D)) = record {
        operation_id = operation_id;
        outcome = outcome;
        value = some items;
        error = error;
        warnings = [];
        hints = [];
      } in
      if validate_result result then ok result else raised BatchEscape.invalid_result

  unfoldable pub with_primary :
      String
      → OperationOutcome
      → List (BatchItemResult D)
      → Option OperationError
      → Result BatchEscape (OperationResult (List (BatchItemResult D)))
  unfolding operation_result
  with_primary operation_id outcome items none = raised BatchEscape.no_error
  with_primary operation_id outcome items (some error) =
      operation_result operation_id outcome items (some error)

  -- `_content_batch_result` from the outcome on
  unfoldable pub batch_result :
      String
      → List (BatchItemResult D)
      → Option OperationOutcome
      → Result BatchEscape (OperationResult (List (BatchItemResult D)))
  unfolding operation_result with_primary
  batch_result operation_id items none = raised BatchEscape.empty_batch
  batch_result operation_id items (some outcome) =
      if is_success outcome
      then operation_result operation_id outcome items none
      else with_primary operation_id outcome items (first_error items)

  -- `inspect_many` with the scope "content:read" twice, `native_parse_many` with both scopes
  unfoldable pub ask_many :
      List String
      → String
      → String
      → String
      → (ℕ → String → Result Thrown D)
      → List String
      → Result BatchEscape (OperationResult (List (BatchItemResult D)))
  unfolding require_scope batch_items batch_result aggregate_batch_outcome
  ask_many scopes first_scope second_scope operation_id ask ids =
      if not (require_scope scopes first_scope && require_scope scopes second_scope)
      then raised BatchEscape.scope_denied
      else and_then (batch_items ask 0 ids)
          (λ items. batch_result operation_id items (aggregate_batch_outcome (outcomes items)))
