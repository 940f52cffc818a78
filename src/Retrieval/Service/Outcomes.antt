-- ===== src/Retrieval/Service/Outcomes.antt =====
-- What a client can conclude from the outcome of one item of a fetch.
use web_access_mcp_server.Base.{
  ℕ, ◌≡◌, ◌≢◌, ◌⊎◌, inl, inr, refl, Bool, true, false, Option, none, some, arith,
}
use web_access_mcp_server.Base.Effects.{Result, ok, raised, Result-cases}
use web_access_mcp_server.Common.Results.{LeafOutcome, validate_item}
use web_access_mcp_server.Retrieval.Phase.{Phase}
use web_access_mcp_server.Retrieval.Transport.{
  Failure, FetchCounters, Response, RetrievedResource, metadata,
}
use web_access_mcp_server.Retrieval.Service.{ProcessingLevel, ItemResult, Ports}
use web_access_mcp_server.Retrieval.Service.Item.{Item, fetch_item}
use web_access_mcp_server.Retrieval.Service.Contract.{
  Work, reported, conclude, item_for, fetch_item-item_for,
}

module _ {R I : Type 0} where
  -- an item that carries its index and passes the validator, or a cancellation
  abbrev pub Valid : ℕ → Result Failure (Item R I) → Type 0
  Valid index (raised e) = e ≡ Failure.cancelled
  Valid index (ok item) = (item.index ≡ index) × (validate_item item ≡ true)

  abbrev pub Known : Result Failure (Item R I) → Type 0
  Known (raised e) = Unit
  Known (ok item) = item.outcome ≢ LeafOutcome.unknown

reported-Valid :
    (R I : Type 0) (index : ℕ) (b : Bool) (p : Phase) (e : Failure)
    → Valid index (reported {R = R} {I = I} index b p e)
unfolding reported
reported-Valid R I index b p Failure.cancelled = refl
reported-Valid R I index true p _ = ground arith
reported-Valid R I index false p _ = ground arith

module _ {R I : Type 0} where
  conclude-Valid :
      (index : ℕ) (level : ProcessingLevel) (raw : R) (response : Response)
      (counters : FetchCounters) (w : Work R I) (failure : Option Failure)
      → Valid index (conclude index level raw response counters w failure)
  unfolding conclude metadata
  conclude-Valid index level raw response counters w (some Failure.cancelled) = refl
  conclude-Valid index level raw response counters w (some e) = ground arith
  conclude-Valid index level raw response counters w none = ground arith

  item_for-Valid :
      (index : ℕ) (level : ProcessingLevel) (ports : Ports R I)
      → Valid index (item_for index level ports)
  unfolding item_for
  item_for-Valid index level ports = elim (Result-cases ports.fetch) [
    | inr (e, f) ↦ rw f (reported-Valid R I index false Phase.dispatch_possible e)
    | inl (response, f) ↦ elim (Result-cases (ports.ingest response)) [
      | inr (e, g) ↦ rw (f, g) (reported-Valid R I index true Phase.content_staging e)
      | inl ((raw, counters), g) ↦ rw (f, g) (search conclude-Valid)
    ]
  ]

  -- Every item that `_fetch_item` returns carries the index that it was given, and has an error
  -- exactly if it did not succeed, so that its validator accepts it; the only exception that it
  -- lets through is a cancellation.
  pub fetch_item-Valid :
      (index : ℕ) (level : ProcessingLevel) (ports : Ports R I)
      → Valid index (fetch_item index level ports)
  fetch_item-Valid index level ports =
      rw (fetch_item-item_for index level ports) (item_for-Valid index level ports)

  -- an item that keeps the stored Content and its metadata, with a known outcome
  abbrev pub Keeps : R → RetrievedResource → Result Failure (Item R I) → Type 0
  Keeps raw m (raised e) = e ≡ Failure.cancelled
  Keeps raw m (ok item) =
      (value : ItemResult R I) × (item.value ≡ some value)
      × (value.raw_content ≡ raw)
      × (value.resource ≡ m)
      × ((item.outcome ≡ LeafOutcome.succeeded) ⊎ (item.outcome ≡ LeafOutcome.failed))

  -- what leaves the outcome of an item unknown
  abbrev pub IsUncertain : Ports R I → Type 0
  IsUncertain ports =
      (response : Response) × (ports.fetch ≡ ok response)
      × (((e : Failure) × (ports.ingest response ≡ raised e))
          ⊎ ((raw : R) × (counters : FetchCounters) × (x : Failure) × (ports.ingest response
                ≡ ok (raw, counters))
              × (metadata response counters ≡ raised x)))
