-- ===== src/Search/Batch/Totality.antt =====
-- `search` of application/search/service.py: its result and the validators of results.py.
use web_access_mcp_server.Base.{
  ℕ, suc, ◌≤◌, ◌≡◌, refl, sym, String, true, some, List, [], ◌∷◌, map, arith,
}
use web_access_mcp_server.Base.Effects.{Result, ok, raised, Ensures}
use web_access_mcp_server.Common.Auth.{require_scope}
use web_access_mcp_server.Common.Results.{
  OperationOutcome, OperationResult, validate_item, validate_result, aggregate_batch_outcome,
}
use web_access_mcp_server.Common.Results.Aggregate.{aggregate-some}
use web_access_mcp_server.Common.Results.Errors.{outcomes, AllValid}
use web_access_mcp_server.Search.Registry.{SearchProviderId, SearchQuery}
use web_access_mcp_server.Search.Attempts.{Interrupt, attempt_error, cancelled, deadline, other}
use web_access_mcp_server.Search.Item.{ItemPorts, ItemState, ItemFault, Item, search_item}
use web_access_mcp_server.Search.Item.Reported.{Reported, Interrupted, search_item-Reported}
use web_access_mcp_server.Search.Batch.{
  Escape, Context, Surroundings, limited, run_query, run_queries, build_result, built, search,
}

-- the indexes of the items for the queries, from `index` on
unfoldable pub indexes_from : ℕ → List SearchQuery → List ℕ
indexes_from index [] = []
indexes_from index (q ∷ qs) = index ∷ indexes_from (suc index) qs

-- each provider has at least one attempt, whatever the index, context and query
abbrev pub Tries : Surroundings → Type 0
Tries env =
    (context : Context) (index : ℕ) (q : SearchQuery) (id : SearchProviderId)
    → 1 ≤ ((env.ports context index q).policy id).max_attempts

abbrev Valid : ℕ → Result ItemFault Item → Type 0
Valid index (ok item) = (validate_item item ≡ true) × (item.index ≡ index)
Valid index (raised e) = Unit

item-Valid :
    (ports : ItemPorts) (index : ℕ) (q : SearchQuery) (r : Result ItemFault Item × ItemState)
    → Ensures (Reported ports index q) (Interrupted ports index q) r
    → Valid index r.0
item-Valid ports index q (ok item, s) h = (h.0, h.1)
item-Valid ports index q (raised e, s) h = tt

run_query-Valid :
    (index : ℕ) (slot : Result Interrupt (Unit {0})) (r : Result ItemFault Item)
    → Valid index r
    → Valid index (run_query index slot r)
unfolding run_query
run_query-Valid index (ok u) r v = v
run_query-Valid index (raised cancelled) r v = (refl, refl)
run_query-Valid index (raised deadline) r v = (refl, refl)
run_query-Valid index (raised (attempt_error e)) r v = tt
run_query-Valid index (raised other) r v = tt

-- valid items, one for each query and in their order
abbrev Ran : ℕ → List SearchQuery → Result ItemFault (List Item) → Type 0
Ran index qs (raised e) = Unit
Ran index qs (ok items) = AllValid items × (map (λ item. item.index) items ≡ indexes_from index qs)

run_queries-Ran :
    (env : Surroundings) (context : Context) (index : ℕ) (qs : List SearchQuery)
    → Tries env
    → Ran index qs (run_queries env context index qs)
unfolding run_queries indexes_from
run_queries-Ran env context index [] tries = (tt, refl)
run_queries-Ran env context index (q ∷ qs) tries =
    go
      (run_query index (env.slot context index) (search_item (env.ports context index q) index q).0)
      (run_query-Valid index (env.slot context index) _ (
        item-Valid (env.ports context index q) index q
          (search_item (env.ports context index q) index q)
          (search_item-Reported (env.ports context index q) index q (tries context index q))))
      (run_queries env context (suc index) qs) (run_queries-Ran env context (suc index) qs tries)
  where
    go :
        (r : Result ItemFault Item)
        → Valid index r
        → (rest : Result ItemFault (List Item)) → Ran (suc index) qs rest
        → Ran index (q ∷ qs) (elim r [
          | raised e ↦ raised e
          | ok item ↦ elim rest [ raised e ↦ raised e | ok items ↦ ok (item ∷ items) ]
        ])
    go (raised e) v rest w = tt
    go (ok item) v (raised e) w = tt
    go (ok item) v (ok items) w = ground arith

-- a result that its validator accepts, with its aggregated outcome and an item for each query in
-- the order of the request; or the exception of an item
abbrev pub Delivered : List SearchQuery → Result Escape (OperationResult (List Item)) → Type 0
Delivered qs (raised e) = (f : ItemFault) × (e ≡ Escape.from_item f)
Delivered qs (ok result) =
    (items : List Item) × (result.value ≡ some items)
    × (validate_result result ≡ true)
    × (some result.outcome ≡ aggregate_batch_outcome (outcomes items))
    × AllValid items
    × (map (λ item. item.index) items ≡ indexes_from 0 qs)

build-Delivered :
    (id : String) (items : List Item) (o : OperationOutcome) (qs : List SearchQuery)
    → aggregate_batch_outcome (outcomes items) ≡ some o
    → AllValid items
    → map (λ item. item.index) items ≡ indexes_from 0 qs
    → Delivered qs (build_result id items o)
unfolding build_result
build-Delivered id items OperationOutcome.succeeded qs p v i = (items, refl, refl, sym p, v, i)
build-Delivered id items OperationOutcome.partial_success qs p v i =
    (items, refl, refl, sym p, v, i)
build-Delivered id items OperationOutcome.failed qs p v i = (items, refl, refl, sym p, v, i)
build-Delivered id items OperationOutcome.rejected qs p v i = (items, refl, refl, sym p, v, i)
build-Delivered id items OperationOutcome.cancelled qs p v i = (items, refl, refl, sym p, v, i)
build-Delivered id items OperationOutcome.unknown qs p v i = (items, refl, refl, sym p, v, i)

-- If each provider has at least one attempt, a search that the principal is allowed to make, of a
-- batch that is not empty, gives a result: with one valid item for each query, in the order of the
-- request, with the aggregated outcome, and accepted by its validator. The only other end is an
-- exception that leaves an item.
pub search-Delivered :
    (env : Surroundings) (timeout : ℕ) (context : Context) (q : SearchQuery) (qs : List SearchQuery)
    → Tries env
    → require_scope context.scopes "search:read" ≡ true
    → Delivered (q ∷ qs) (search env timeout context (q ∷ qs))
unfolding search indexes_from built
search-Delivered env timeout context q qs tries permitted = rw permitted (
    go (run_queries env (limited timeout context) 0 (q ∷ qs))
      (run_queries-Ran env (limited timeout context) 0 (q ∷ qs) tries))
  where
    go :
        (r : Result ItemFault (List Item))
        → Ran 0 (q ∷ qs) r
        → Delivered (q ∷ qs) (elim r [
          | raised e ↦ raised (Escape.from_item e)
          | ok items ↦ built context.operation_id items (aggregate_batch_outcome (outcomes items))
        ])
    go (raised e) h = (e, refl)
    go (ok []) h = absurd (ground arith)
    go (ok (item ∷ items)) h =
        let (o, p) = aggregate-some item.outcome (outcomes items) in
        rw p (build-Delivered context.operation_id (item ∷ items) o (q ∷ qs) p h.0 h.1)
