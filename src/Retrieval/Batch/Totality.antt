-- ===== src/Retrieval/Batch/Totality.antt =====
-- `fetch` of application/retrieval/service.py: its result and the validators of results.py.
use web_access_mcp_server.Base.{
  ℕ, suc, ◌≡◌, ◌≢◌, refl, sym, ap, String, true, false, Option, none, some, List, [], ◌∷◌, map,
  arith, inl, inr, Bool-cases,
}
use web_access_mcp_server.Base.Effects.{Result, ok, raised}
use web_access_mcp_server.Common.Auth.{require_scope}
use web_access_mcp_server.Common.Results.{
  OperationOutcome, LeafOutcome, is_success, OperationError, OperationResult, validate_result,
  aggregate_batch_outcome,
}
use web_access_mcp_server.Common.Results.Aggregate.{
  has, outcome_of, aggregate-outcome_of, aggregate-some,
}
use web_access_mcp_server.Common.Results.Errors.{
  outcomes, AllValid, first_error-select, first_error-failed,
}
use web_access_mcp_server.Retrieval.Transport.{Failure}
use web_access_mcp_server.Retrieval.Service.{ProcessingLevel}
use web_access_mcp_server.Retrieval.Service.Item.{Item}
use web_access_mcp_server.Retrieval.Service.Outcomes.{Valid, fetch_item-Valid}
use web_access_mcp_server.Retrieval.Batch.{
  Escape, Context, Surroundings, widened, run_item, run_all, aggregate_error, aggregate, fetch,
}

-- the indexes of the items for the URLs, from `index` on
unfoldable pub indexes_from : ℕ → List String → List ℕ
indexes_from index [] = []
indexes_from index (url ∷ urls) = index ∷ indexes_from (suc index) urls

module _ {R I : Type 0} where
  run_item-Valid :
      (env : Surroundings R I) (context : Context) (level : ProcessingLevel) (index : ℕ)
      (url : String)
      → Valid index (run_item env context level index url)
  unfolding run_item
  run_item-Valid env context level index url =
      elim (Bool-cases (env.cancellation_requested index)) [
        | inl c ↦ rw c (refl, refl)
        | inr c ↦ rw c (fetch_item-Valid index level (env.ports context index url))
      ]

  -- valid items, one for each URL and in their order
  abbrev Ran : ℕ → List String → Result Failure (List (Item R I)) → Type 0
  Ran index urls (raised e) = e ≡ Failure.cancelled
  Ran index urls (ok items) =
      AllValid items × (map (λ item. item.index) items ≡ indexes_from index urls)

  run_all-Ran :
      (env : Surroundings R I) (context : Context) (level : ProcessingLevel) (index : ℕ)
      (urls : List String)
      → Ran index urls (run_all env context level index urls)
  unfolding run_all indexes_from
  run_all-Ran env context level index [] = (tt, refl)
  run_all-Ran env context level index (url ∷ urls) =
      go (run_item env context level index url) (run_item-Valid env context level index url)
        (run_all env context level (suc index) urls)
        (run_all-Ran env context level (suc index) urls)
    where
      go :
          (r : Result Failure (Item R I))
          → Valid index r
          → (rest : Result Failure (List (Item R I))) → Ran (suc index) urls rest
          → Ran index (url ∷ urls) (elim r [
            | raised e ↦ raised e
            | ok item ↦ elim rest [ raised e ↦ raised e | ok items ↦ ok (item ∷ items) ]
          ])
      go (raised e) v rest w = v
      go (ok item) v (raised e) w = w
      go (ok item) v (ok items) w = ground arith

-- which leaf outcome a batch outcome without success must have met
abbrev Occurs : OperationOutcome → List LeafOutcome → Type 0
Occurs OperationOutcome.unknown xs = has LeafOutcome.unknown xs ≡ true
Occurs OperationOutcome.rejected xs = has LeafOutcome.rejected xs ≡ true
Occurs OperationOutcome.cancelled xs = has LeafOutcome.cancelled xs ≡ true
Occurs OperationOutcome.failed xs = (has LeafOutcome.succeeded xs ≡ false) × (xs ≢ [])
Occurs _ xs = Unit

occurs :
    (o : OperationOutcome) (xs : List LeafOutcome)
    → aggregate_batch_outcome xs ≡ some o
    → Occurs o xs
unfolding outcome_of
occurs OperationOutcome.succeeded xs h = tt
occurs OperationOutcome.failed [] h = ground (arith, aggregate-outcome_of [])
occurs o xs h = ground (arith, aggregate-outcome_of xs)

-- the primary error of an outcome
abbrev Primary : OperationOutcome → Option OperationError → Type 0
Primary o none = is_success o ≡ true
Primary o (some e) = is_success o ≡ false

module _ {R I : Type 0} where
  aggregate_error-some :
      (o : OperationOutcome) (items : List (Item R I))
      → AllValid items
      → aggregate_batch_outcome (outcomes items) ≡ some o
      → is_success o ≡ false
      → (e : OperationError) × (aggregate_error o items ≡ some e)
  unfolding aggregate_error
  aggregate_error-some OperationOutcome.unknown items v h n =
      first_error-select LeafOutcome.unknown items (λ e. ground arith) v (occurs _ _ h)
  aggregate_error-some OperationOutcome.rejected items v h n =
      first_error-select LeafOutcome.rejected items (λ e. ground arith) v (occurs _ _ h)
  aggregate_error-some OperationOutcome.cancelled items v h n =
      first_error-select LeafOutcome.cancelled items (λ e. ground arith) v (occurs _ _ h)
  aggregate_error-some OperationOutcome.failed [] v h n = absurd ((occurs _ _ h).1 refl)
  aggregate_error-some OperationOutcome.failed (item ∷ items) v h n =
      first_error-failed item items v (occurs _ _ h).0
  aggregate_error-some o items v h n = ground arith

  -- a result that its validator accepts, with its aggregated outcome and an item for each URL in
  -- the order of the request; or the cancellation of an item
  abbrev pub Delivered : List String → Result Escape (OperationResult (List (Item R I))) → Type 0
  Delivered urls (raised e) = e ≡ Escape.from_item Failure.cancelled
  Delivered urls (ok result) =
      (items : List (Item R I)) × (result.value ≡ some items)
      × (validate_result result ≡ true)
      × (some result.outcome ≡ aggregate_batch_outcome (outcomes items))
      × AllValid items
      × (map (λ item. item.index) items ≡ indexes_from 0 urls)

  abbrev result_of :
      String
      → OperationOutcome
      → List (Item R I)
      → Option OperationError
      → OperationResult (List (Item R I))
  result_of id outcome items error = record {
    operation_id = id;
    outcome = outcome;
    value = some items;
    error = error;
    warnings = [];
    hints = [];
  }

  validate-Primary :
      (id : String) (o : OperationOutcome) (items : List (Item R I)) (error : Option OperationError)
      → Primary o error
      → validate_result (result_of id o items error) ≡ true
  validate-Primary id OperationOutcome.succeeded items none p = refl
  validate-Primary id OperationOutcome.succeeded items (some e) p = ground arith
  validate-Primary id _ items none p = ground arith
  validate-Primary id _ items (some e) p = ground arith

  aggregate-result_of :
      (id : String) (items : List (Item R I))
      → AllValid items
      → (o : OperationOutcome) → aggregate_batch_outcome (outcomes items) ≡ some o
      → (error : Option OperationError) × Primary o error
        × (aggregate id items (some o) ≡ ok (result_of id o items error))
  unfolding aggregate
  aggregate-result_of id items v o h = elim (Bool-cases (is_success o)) [
    | inl s ↦ (none, s, rw s)
    | inr n ↦ from_error (aggregate_error-some o items v h n) n
  ]
    where
      from_error :
          (e : OperationError) × (aggregate_error o items ≡ some e)
          → is_success o ≡ false
          → (error : Option OperationError) × Primary o error
            × (aggregate id items (some o) ≡ ok (result_of id o items error))
      from_error (e, p) n = (some e, n, rw n (rw p (rw n)))

  -- A fetch that the principal is allowed to make, of a batch that is not empty, gives a result:
  -- with one valid item for each URL, in the order of the request, with the aggregated outcome,
  -- and with a primary error exactly if the outcome is no success, so that its validator accepts
  -- it. The only other end is a cancellation that leaves an item as an exception.
  pub fetch-Delivered :
      (env : Surroundings R I) (timeout : ℕ) (context : Context) (level : ProcessingLevel)
      (url : String) (urls : List String)
      → require_scope context.scopes "retrieval:read" ≡ true
      → Delivered (url ∷ urls) (fetch env timeout context level (url ∷ urls))
  unfolding fetch indexes_from
  fetch-Delivered env timeout context level url urls allowed = rw allowed (
      go (run_all env (widened timeout context) level 0 (url ∷ urls))
        (run_all-Ran env (widened timeout context) level 0 (url ∷ urls)))
    where
      go :
          (r : Result Failure (List (Item R I)))
          → Ran 0 (url ∷ urls) r
          → Delivered (url ∷ urls) (elim r [
            | raised e ↦ raised (Escape.from_item e)
            | ok items ↦
                aggregate context.operation_id items (aggregate_batch_outcome (outcomes items))
          ])
      go (raised e) h = ap Escape.from_item h
      go (ok []) h = absurd (ground arith)
      go (ok (item ∷ items)) h =
          let (o, p) = aggregate-some item.outcome (outcomes items) in
          let (error, q, r) = aggregate-result_of context.operation_id (item ∷ items) h.0 o p in
          rw p (
            rw r (
              item ∷ items,
              refl,
              validate-Primary context.operation_id o (item ∷ items) error q,
              sym p,
              h.0,
              h.1,
            ))
