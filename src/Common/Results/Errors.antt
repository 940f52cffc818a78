-- ===== src/Common/Results/Errors.antt =====
-- The first error among the items of a batch, as `_aggregate_error` looks for it.
use web_access_mcp_server.Base.{
  ◌≡◌, ◌≢◌, refl, true, false, Option, none, some, List, [], ◌∷◌, map, All, select, arith, inl, inr,
  Bool-cases, Option-cases,
}
use web_access_mcp_server.Common.Results.{
  LeafOutcome, leaf_is, OperationError, BatchItemResult, validate_item,
}
use web_access_mcp_server.Common.Results.Aggregate.{has}

not_succeeded :
    (a b : LeafOutcome)
    → leaf_is a b ≡ true
    → b ≢ LeafOutcome.succeeded
    → leaf_is a LeafOutcome.succeeded ≡ false
not_succeeded LeafOutcome.succeeded b h n = ground arith
not_succeeded _ b h n = refl

module _ {ℓ} {D : Type ℓ} where
  -- the first `error` that is not None
  abbrev pub first_error : List (BatchItemResult D) → Option OperationError
  first_error [] = none
  first_error (item ∷ items) = elim item.error [ some e ↦ some e | none ↦ first_error items ]

  abbrev pub outcomes : List (BatchItemResult D) → List LeafOutcome
  outcomes = map (λ item. item.outcome)

  abbrev pub AllValid : List (BatchItemResult D) → Type 0
  AllValid = All (λ item. validate_item item ≡ true)

  abbrev pub Found : List (BatchItemResult D) → Type 0
  Found l = (e : OperationError) × (first_error l ≡ some e)

  -- an item that passed its validator and did not succeed has an error
  error_of :
      (item : BatchItemResult D)
      → validate_item item ≡ true
      → leaf_is item.outcome LeafOutcome.succeeded ≡ false
      → (e : OperationError) × (item.error ≡ some e)
  error_of item v h = elim (Option-cases item.error) [
    | inl n ↦ absurd (ground arith)
    | inr (e, p) ↦ (e, p)
  ]

  pub first_error-select :
      (o : LeafOutcome) (items : List (BatchItemResult D))
      → o ≢ LeafOutcome.succeeded
      → AllValid items
      → has o (outcomes items) ≡ true
      → Found (select (λ item. leaf_is item.outcome o) items)
  first_error-select o [] ne v h = ground arith
  first_error-select o (item ∷ items) ne v h = elim (Bool-cases (leaf_is item.outcome o)) [
    | inl same ↦ here (error_of item v.0 (not_succeeded item.outcome o same ne)) same
    | inr other ↦ there (first_error-select o items ne v.1 (ground arith)) other
  ]
    where
      here :
          (e : OperationError) × (item.error ≡ some e)
          → leaf_is item.outcome o ≡ true
          → Found (select (λ i. leaf_is i.outcome o) (item ∷ items))
      here (e, p) same = (e, ground arith)

      there :
          Found (select (λ i. leaf_is i.outcome o) items)
          → leaf_is item.outcome o ≡ false
          → Found (select (λ i. leaf_is i.outcome o) (item ∷ items))
      there (e, p) other = (e, ground arith)

  -- no success means that the first item has an error
  pub first_error-failed :
      (item : BatchItemResult D) (items : List (BatchItemResult D))
      → AllValid (item ∷ items)
      → has LeafOutcome.succeeded (outcomes (item ∷ items)) ≡ false
      → Found (item ∷ items)
  first_error-failed item items v h = found (error_of item v.0 (ground arith))
    where
      found : (e : OperationError) × (item.error ≡ some e) → Found (item ∷ items)
      found (e, p) = (e, ground arith)
