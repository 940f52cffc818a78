-- ===== src/Common/Results/Retry.antt =====
-- The retry policy of application/common/results.py, case by case.
use web_access_mcp_server.Base.{◌≡◌, ◌≢◌, ◌⊎◌, Bool, true, false, arith}
use web_access_mcp_server.Common.Results.{
  RetryClass, ExecutionStage, OperationEffects, automatic_retry_allowed,
}

-- An automatic retry is allowed only for a retryable error whose class is not `never_automatic`,
-- and then either nothing was dispatched yet (under phase evidence), or no billable cost is
-- possible; a `safe_retry` moreover rules out created resources and external side effects, and an
-- `idempotent_retry` wants the proof of idempotency.
pub retry_is_conservative :
    (c : RetryClass) (stage : ExecutionStage) (effects : OperationEffects) (retryable proven : Bool)
    → automatic_retry_allowed c stage effects retryable proven ≡ true
    → (retryable ≡ true)
      × (c ≢ RetryClass.never_automatic)
      × ((c ≡ RetryClass.phase_evidence_required) × (stage ≡ ExecutionStage.before_dispatch)
          ⊎ (effects.billable_cost_possible ≡ false))
      × ((c ≢ RetryClass.safe_retry)
          ⊎ (effects.resource_creation_possible ≡ false)
            × (effects.external_side_effect_possible ≡ false))
      × ((c ≢ RetryClass.idempotent_retry) ⊎ (proven ≡ true))
unfolding automatic_retry_allowed
retry_is_conservative RetryClass.safe_retry stage effects retryable proven h = ground arith
retry_is_conservative _ stage effects retryable proven h = ground arith
