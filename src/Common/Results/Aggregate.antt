-- ===== src/Common/Results/Aggregate.antt =====
-- The batch outcome of application/common/results.py and the outcomes of its items.
use web_access_mcp_server.Base.{
  ◌≡◌, inl, inr, Bool, true, false, not, ◌||◌, Option, none, some, List, [], ◌∷◌, any, all, arith,
  Option-cases,
}
use web_access_mcp_server.Common.Results.{
  OperationOutcome, LeafOutcome, leaf_is, aggregate_batch_outcome,
}

-- Some item of the batch has the outcome.
abbrev pub has : LeafOutcome → List LeafOutcome → Bool
has o = any (λ x. leaf_is x o)

-- The outcome of a batch, from which outcomes occur in it: succeeded, failed, rejected, cancelled
-- and unknown, in this order.
unfoldable pub outcome_of : Bool → Bool → Bool → Bool → Bool → Option OperationOutcome
outcome_of true false false false false = some OperationOutcome.succeeded
outcome_of true _ _ _ _ = some OperationOutcome.partial_success
outcome_of false _ _ _ true = some OperationOutcome.unknown
outcome_of false true _ _ false = some OperationOutcome.failed
outcome_of false false true true false = some OperationOutcome.failed
outcome_of false false true false false = some OperationOutcome.rejected
outcome_of false false false true false = some OperationOutcome.cancelled
outcome_of false false false false false = none

only_succeeded :
    (xs : List LeafOutcome)
    → all (λ x. leaf_is x LeafOutcome.succeeded) xs
      ≡ not (
          has LeafOutcome.failed xs
          || has LeafOutcome.rejected xs
          || has LeafOutcome.cancelled xs
          || has LeafOutcome.unknown xs)
only_succeeded [] = ground arith
only_succeeded (LeafOutcome.succeeded ∷ xs) = only_succeeded xs
only_succeeded (_ ∷ xs) = ground arith

only_rejected :
    (xs : List LeafOutcome)
    → all (λ x. leaf_is x LeafOutcome.rejected) xs
      ≡ not (
          has LeafOutcome.failed xs
          || has LeafOutcome.succeeded xs
          || has LeafOutcome.cancelled xs
          || has LeafOutcome.unknown xs)
only_rejected [] = ground arith
only_rejected (LeafOutcome.rejected ∷ xs) = only_rejected xs
only_rejected (_ ∷ xs) = ground arith

only_cancelled :
    (xs : List LeafOutcome)
    → all (λ x. leaf_is x LeafOutcome.cancelled) xs
      ≡ not (
          has LeafOutcome.failed xs
          || has LeafOutcome.succeeded xs
          || has LeafOutcome.rejected xs
          || has LeafOutcome.unknown xs)
only_cancelled [] = ground arith
only_cancelled (LeafOutcome.cancelled ∷ xs) = only_cancelled xs
only_cancelled (_ ∷ xs) = ground arith

-- The outcome of a batch is determined by which leaf outcomes occur in it, and neither by their
-- order nor by their number: all succeeded gives success, some succeeded a partial success, and
-- with no success unknown wins, then a uniform rejection or cancellation, and else failure. Only
-- the empty batch has no outcome.
pub aggregate-outcome_of :
    (xs : List LeafOutcome)
    → aggregate_batch_outcome xs
      ≡ outcome_of
          (has LeafOutcome.succeeded xs)
          (has LeafOutcome.failed xs)
          (has LeafOutcome.rejected xs)
          (has LeafOutcome.cancelled xs)
          (has LeafOutcome.unknown xs)
unfolding aggregate_batch_outcome outcome_of
aggregate-outcome_of [] = ground arith
aggregate-outcome_of (LeafOutcome.succeeded ∷ xs) = ground (arith, only_succeeded xs)
aggregate-outcome_of (LeafOutcome.failed ∷ xs) = ground arith
aggregate-outcome_of (LeafOutcome.rejected ∷ xs) = ground (arith, only_rejected xs)
aggregate-outcome_of (LeafOutcome.cancelled ∷ xs) = ground (arith, only_cancelled xs)
aggregate-outcome_of (LeafOutcome.unknown ∷ xs) = ground arith

-- A batch that is not empty has an outcome.
pub aggregate-some :
    (x : LeafOutcome) (xs : List LeafOutcome)
    → (o : OperationOutcome) × (aggregate_batch_outcome (x ∷ xs) ≡ some o)
unfolding aggregate_batch_outcome
aggregate-some x xs = elim (Option-cases (aggregate_batch_outcome (x ∷ xs))) [
  | inl n ↦ absurd (ground arith)
  | inr (o, h) ↦ (o, h)
]
