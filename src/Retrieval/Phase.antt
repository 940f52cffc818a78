-- ===== src/Retrieval/Phase.antt =====
-- application/retrieval/retry.py: the phase evidence of one fetch, with the phases of
-- domain/retrieval/models.py. The service enters the phases; it does not call
-- `internal_fetch_retry_allowed`, and fetches each URL once.
pub mod Order
use web_access_mcp_server.Base.{
  ℕ, Bool, true, false, Option, none, some, String, List, [], ◌∷◌, ltb, leb, if◌then◌else◌,
}
use web_access_mcp_server.Common.Results.{
  RetryClass, ExecutionStage, OperationEffects, automatic_retry_allowed,
}

pub data Phase : Type 0 where
  validated dns_resolving connecting dispatch_possible response_headers body_streaming : Phase
  content_creating content_staging content_finalized processing terminal : Phase

-- `_ORDER`: the place of a phase in the enumeration
abbrev pub order : Phase → ℕ
order Phase.validated = 0
order Phase.dns_resolving = 1
order Phase.connecting = 2
order Phase.dispatch_possible = 3
order Phase.response_headers = 4
order Phase.body_streaming = 5
order Phase.content_creating = 6
order Phase.content_staging = 7
order Phase.content_finalized = 8
order Phase.processing = 9
order Phase.terminal = 10

-- the values of the enumeration
abbrev pub phase_text : Phase → String
phase_text Phase.validated = "validated"
phase_text Phase.dns_resolving = "dns_resolving"
phase_text Phase.connecting = "connecting"
phase_text Phase.dispatch_possible = "dispatch_possible"
phase_text Phase.response_headers = "response_headers"
phase_text Phase.body_streaming = "body_streaming"
phase_text Phase.content_creating = "content_creating"
phase_text Phase.content_staging = "content_staging"
phase_text Phase.content_finalized = "content_finalized"
phase_text Phase.processing = "processing"
phase_text Phase.terminal = "terminal"

pub record Tracker : Type 0 where
  pub phase : Option Phase
  pub dispatch_possible : Bool
  pub resource_creation_possible : Bool

-- `RetrievalPhaseTracker()`
abbrev pub fresh : Tracker
fresh = record { phase = none; dispatch_possible = false; resource_creation_possible = false }

-- `self.phase is RetrievalExecutionPhase.TERMINAL`
abbrev pub at_terminal : Option Phase → Bool
at_terminal (some Phase.terminal) = true
at_terminal _ = false

-- the phase moves backwards
abbrev pub is_behind : Phase → Option Phase → Bool
is_behind p none = false
is_behind p (some q) = ltb (order p) (order q)

-- the assignments of `advance`
unfoldable pub entered : Phase → Tracker → Tracker
entered p t = record {
  phase = some p;
  dispatch_possible =
      if leb (order Phase.dispatch_possible) (order p) then true else t.dispatch_possible;
  resource_creation_possible =
      if leb (order Phase.content_creating) (order p) then true else t.resource_creation_possible;
}

-- `none` is the ValueError, after which the tracker is as it was.
unfoldable pub advance : Phase → Tracker → Option Tracker
advance p t =
    if at_terminal t.phase then none else if is_behind p t.phase then none else some (entered p t)

unfoldable pub execution_stage : Tracker → ExecutionStage
execution_stage t =
    if at_terminal t.phase
    then ExecutionStage.terminal_known
    else if t.resource_creation_possible
    then ExecutionStage.side_effect_possible
    else if t.dispatch_possible
    then ExecutionStage.dispatched
    else ExecutionStage.before_dispatch

unfoldable pub effects : Tracker → OperationEffects
effects t = record {
  billable_cost_possible = false;
  resource_creation_possible = t.resource_creation_possible;
  external_side_effect_possible = false;
}

unfoldable pub phase_value : Tracker → String
phase_value t = elim t.phase [ none ↦ phase_text Phase.validated | some p ↦ phase_text p ]

unfoldable pub internal_fetch_retry_allowed : Tracker → Bool → Bool
unfolding execution_stage effects automatic_retry_allowed
internal_fetch_retry_allowed t error_retryable =
    automatic_retry_allowed RetryClass.phase_evidence_required (execution_stage t) (effects t)
      error_retryable false
