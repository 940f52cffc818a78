-- ===== src/Retrieval/Service/Contract.antt =====
-- `_fetch_item` against a description of its item that knows nothing of phases and handlers.
use web_access_mcp_server.Base.{
  ℕ, ◌≡◌, inl, inr, refl, String, Bool, true, false, ◌&&◌, Option, none, some, List, [], leb, ltb,
  if◌then◌else◌, arith,
}
use web_access_mcp_server.Base.Effects.{Result, ok, raised, Result-cases}
use web_access_mcp_server.Common.Results.{LeafOutcome, ErrorCategory, Details}
use web_access_mcp_server.Retrieval.Phase.{Phase, phase_text, phase_value}
use web_access_mcp_server.Retrieval.Transport.{
  Failure, FetchCounters, Response, RetrievedResource, metadata,
}
use web_access_mcp_server.Retrieval.Service.{
  ProcessingLevel, NativeParseResult, ItemResult, Ports, Locals, head?, processing_item,
  error_of_processing,
}
use web_access_mcp_server.Retrieval.Service.Item.{
  Item, fetch_item, report, error_item, on_failure, item_of_status,
}

-- What the processing of a stored response came to: what it found, and what it raised.
pub record Work (R I : Type 0) : Type 0 where
  pub inspection : Option I
  pub parsed : Option (NativeParseResult R I)
  pub failure : Option Failure
  pub code : String

-- the last phase before the metadata are checked
abbrev last_phase : ProcessingLevel → Phase
last_phase ProcessingLevel.store_only = Phase.content_finalized
last_phase _ = Phase.processing

module _ {R I : Type 0} where
  unfoldable pub work : ProcessingLevel → Ports R I → R → Work R I
  work ProcessingLevel.store_only ports raw = record {
    inspection = none;
    parsed = none;
    failure = none;
    code = "content_inspection_failed";
  }
  work ProcessingLevel.inspect ports raw = elim (ports.inspect raw) [
    | ok i ↦ record { inspection = some i; parsed = none; failure = none; code = "" }
    | raised e ↦ record {
      inspection = none;
      parsed = none;
      failure = some e;
      code = "content_inspection_failed";
    }
  ]
  work ProcessingLevel.native ports raw = elim (ports.inspect raw) [
    | raised e ↦ record {
      inspection = none;
      parsed = none;
      failure = some e;
      code = "content_inspection_failed";
    }
    | ok i ↦ elim (ports.native_parse raw) [
      | ok p ↦ record { inspection = some i; parsed = some p; failure = none; code = "" }
      | raised e ↦ record {
        inspection = some i;
        parsed = none;
        failure = some e;
        code = "native_processing_failed";
      }
    ]
  ]

  abbrev representations_of : Option (NativeParseResult R I) → List R
  representations_of none = []
  representations_of (some p) = p.representations

  abbrev warnings_of : Option (NativeParseResult R I) → List String
  warnings_of none = []
  warnings_of (some p) = p.warnings

  abbrev hints_of : Option (NativeParseResult R I) → List String
  hints_of none = []
  hints_of (some p) = p.hints

  unfoldable pub data_of : RetrievedResource → R → Work R I → ItemResult R I
  data_of m raw w = record {
    resource = m;
    raw_content = raw;
    inspection = w.inspection;
    native_content = head? (representations_of w.parsed);
    available_representations = representations_of w.parsed;
  }

  unfoldable pub reported : ℕ → Bool → Phase → Failure → Result Failure (Item R I)
  unfolding report error_item
  reported index created p Failure.cancelled = raised Failure.cancelled
  reported index created p e =
      let (outcome, category, code) = report created e in
      ok (error_item index outcome category code (Details.retrieval_phase (phase_text p)))

  on_failure-reported :
      (index : ℕ) (e : Failure) (s : Locals R I) (p : Phase)
      → s.tracker.phase ≡ some p
      → (on_failure index e s).0 ≡ reported index s.tracker.resource_creation_possible p e
  unfolding on_failure reported phase_value
  on_failure-reported index Failure.cancelled s p h = refl
  on_failure-reported index _ s p h = rw (h, phase_value)

  -- the item of a stored response, from what the processing came to
  unfoldable pub conclude :
      ℕ
      → ProcessingLevel
      → R
      → Response
      → FetchCounters
      → Work R I
      → Option Failure
      → Result Failure (Item R I)
  unfolding reported data_of error_of_processing processing_item item_of_status
  conclude index level raw response counters w (some Failure.cancelled) = raised Failure.cancelled
  conclude index level raw response counters w failure = elim (metadata response counters) [
    | raised e ↦ reported index true (last_phase level) e
    | ok m ↦ elim failure [
      | some e ↦
          let (category, code) = error_of_processing e w.code in
          ok (processing_item index category code (data_of m raw w))
      | none ↦
          let success = leb 200 m.response.http_status && ltb m.response.http_status 300 in
          ok (record {
            index = index;
            outcome = if success then LeafOutcome.succeeded else LeafOutcome.failed;
            value = some (data_of m raw w);
            error =
                if success
                then none
                else some (record {
                  category = ErrorCategory.upstream;
                  code = "upstream_http_status";
                  retryable = leb 500 m.response.http_status;
                  retry_after_seconds = none;
                  details = Details.http_status m.response.http_status;
                });
            warnings = warnings_of w.parsed;
            hints = hints_of w.parsed;
          })
    ]
  ]

  -- the item for what the ports answer
  unfoldable pub item_for : ℕ → ProcessingLevel → Ports R I → Result Failure (Item R I)
  unfolding reported work conclude
  item_for index level ports = elim ports.fetch [
    | raised e ↦ reported index false Phase.dispatch_possible e
    | ok response ↦ elim (ports.ingest response) [
      | raised e ↦ reported index true Phase.content_staging e
      | ok (raw, counters) ↦
          let w = work level ports raw in conclude index level raw response counters w w.failure
    ]
  ]

  -- ports with fixed answers
  abbrev answering :
      Result Failure Response
      → Result Failure (R × FetchCounters)
      → Result Failure I
      → Result Failure (NativeParseResult R I)
      → Ports R I
  answering fetched ingested inspected parsed = record {
    fetch = fetched;
    ingest = λ _. ingested;
    inspect = λ _. inspected;
    native_parse = λ _. parsed;
  }

  module _ (index : ℕ) (response : Response) (raw : R) (counters : FetchCounters) where
    abbrev Agrees :
        ProcessingLevel → Result Failure I → Result Failure (NativeParseResult R I) → Type 0
    Agrees level inspected parsed =
        let ports : Ports R I = answering (ok response) (ok (raw, counters)) inspected parsed in
        fetch_item index level ports ≡ item_for index level ports

    agrees :
        (level : ProcessingLevel) (i : Result Failure I)
        (n : Result Failure (NativeParseResult R I))
        → Agrees level i n
    unfolding fetch_item item_for metadata
    agrees ProcessingLevel.store_only i n = ground arith
    agrees ProcessingLevel.inspect (ok i) n = ground arith
    agrees ProcessingLevel.inspect (raised Failure.cancelled) n = refl
    agrees ProcessingLevel.inspect (raised e) n = ground arith
    agrees ProcessingLevel.native (ok i) (ok n) = ground arith
    agrees ProcessingLevel.native (ok i) (raised Failure.cancelled) = refl
    agrees ProcessingLevel.native (ok i) (raised e) = ground arith
    agrees ProcessingLevel.native (raised Failure.cancelled) n = refl
    agrees ProcessingLevel.native (raised e) n = ground arith

    -- the answers are those to the calls that the item makes
    same_calls :
        (level : ProcessingLevel) (ports : Ports R I)
        → ports.fetch ≡ ok response
        → ports.ingest response ≡ ok (raw, counters)
        → Agrees level (ports.inspect raw) (ports.native_parse raw)
        → fetch_item index level ports ≡ item_for index level ports
    unfolding fetch_item item_for
    same_calls ProcessingLevel.store_only ports f g h = rw (f, g) h
    same_calls ProcessingLevel.inspect ports f g h = rw (f, g) h
    same_calls ProcessingLevel.native ports f g h = rw (f, g) h

  pub fetch_item-item_for :
      (index : ℕ) (level : ProcessingLevel) (ports : Ports R I)
      → fetch_item index level ports ≡ item_for index level ports
  unfolding fetch_item item_for
  fetch_item-item_for index level ports = elim (Result-cases ports.fetch) [
    | inr (e, f) ↦ rw f (on_failure-reported index e _ Phase.dispatch_possible refl)
    | inl (response, f) ↦ elim (Result-cases (ports.ingest response)) [
      | inr (e, g) ↦ rw (f, g) (on_failure-reported index e _ Phase.content_staging refl)
      | inl ((raw, counters), g) ↦
          same_calls index response raw counters level ports f g
            (agrees index response raw counters level (ports.inspect raw) (ports.native_parse raw))
    ]
  ]
