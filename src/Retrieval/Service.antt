-- ===== src/Retrieval/Service.antt =====
-- application/retrieval/service.py: the state and the blocks of `_fetch_item`.
pub mod Item
pub mod Contract
pub mod Outcomes
use web_access_mcp_server.Base.{
  ℕ, String, Bool, true, false, ◌&&◌, ◌||◌, Option, none, some, List, [], ◌∷◌, ◌<◌, leb, ltb,
  if◌then◌else◌,
}
use web_access_mcp_server.Base.Effects.{
  Result, ok, raised, Block, pure, lift, raise, modify, try_except, ◌>>=◌, ◌>>◌,
}
use web_access_mcp_server.Common.Results.{
  LeafOutcome, ErrorCategory, Details, OperationError, plain_error, BatchItemResult,
}
use web_access_mcp_server.Retrieval.Phase.{Phase, Tracker, fresh, entered, advance}
use web_access_mcp_server.Retrieval.Transport.{
  Failure, FetchCounters, Response, RetrievedResource, metadata,
}

pub data ProcessingLevel : Type 0 where
  store_only inspect native : ProcessingLevel

-- `Ref` and `Inspection` are the Content service's values.
module _ (Ref Inspection : Type 0) where
  pub record NativeParseResult : Type 0 where
    pub representations : List Ref
    pub warnings : List String
    pub hints : List String

  pub record ItemResult : Type 0 where
    pub resource : RetrievedResource
    pub raw_content : Ref
    pub inspection : Option Inspection
    pub native_content : Option Ref
    pub available_representations : List Ref

  -- What the ports answer to the calls for one item. `ingest` reads the body of the response, and
  -- leaves the counters.
  pub record Ports : Type 0 where
    pub fetch : Result Failure Response
    pub ingest : Response → Result Failure (Ref × FetchCounters)
    pub inspect : Ref → Result Failure Inspection
    pub native_parse : Ref → Result Failure NativeParseResult

  -- the locals that the handlers read
  pub record Locals : Type 0 where
    pub tracker : Tracker
    pub inspection : Option Inspection
    pub native : Option Ref
    pub representations : List Ref
    pub warnings : List String
    pub hints : List String
    pub processing_code : String

abbrev pub head? {ℓ} : {A : Type ℓ} → List A → Option A
head? [] = none
head? (x ∷ xs) = some x

-- `phase.advance(p)`
entered_or_raised : {R I : Type 0} → Option Tracker → Block Failure (Locals R I) (Unit {0})
entered_or_raised none s = (raised Failure.other, s)
entered_or_raised (some t) s = (ok tt, record s { tracker = t })

unfoldable pub enter : {R I : Type 0} → Phase → Block Failure (Locals R I) (Unit {0})
unfolding advance entered entered_or_raised
enter p s = entered_or_raised (advance p s.tracker) s

-- which category and code the inner handler reports
unfoldable pub error_of_processing : Failure → String → ErrorCategory × String
error_of_processing (Failure.parser_timeout code) default = (ErrorCategory.timeout, code)
error_of_processing (Failure.processing code) default = (ErrorCategory.internal, code)
error_of_processing _ default = (ErrorCategory.internal, default)

module _ {R I : Type 0} where
  -- the locals as the function starts, and as they are set before the inner `try`
  abbrev pub initial : Locals R I
  initial = record {
    tracker = fresh;
    inspection = none;
    native = none;
    representations = [];
    warnings = [];
    hints = [];
    processing_code = "content_inspection_failed";
  }

  -- `if processing_level is not STORE_ONLY`
  unfoldable pub inspect_block :
      ProcessingLevel → Ports R I → R → Block Failure (Locals R I) (Unit {0})
  unfolding enter
  inspect_block ProcessingLevel.store_only ports raw = pure tt
  inspect_block _ ports raw = do
    enter Phase.processing
    inspection ← lift (ports.inspect raw)
    modify (λ s. record s { inspection = some inspection })

  -- `if processing_level is NATIVE`
  unfoldable pub native_block :
      ProcessingLevel → Ports R I → R → Block Failure (Locals R I) (Unit {0})
  native_block ProcessingLevel.native ports raw = do
    modify (λ s. record s { processing_code = "native_processing_failed" })
    parsed ← lift (ports.native_parse raw)
    modify (λ s. record s {
      representations = parsed.representations;
      native = head? parsed.representations;
      warnings = parsed.warnings;
      hints = parsed.hints;
    })
  native_block _ ports raw = pure tt

  -- `_retrieval_data`
  unfoldable pub retrieval_data : RetrievedResource → R → Locals R I → ItemResult R I
  retrieval_data m raw s = record {
    resource = m;
    raw_content = raw;
    inspection = s.inspection;
    native_content = s.native;
    available_representations = s.representations;
  }

  -- the item of the inner handler
  unfoldable pub processing_item :
      ℕ → ErrorCategory → String → ItemResult R I → BatchItemResult (ItemResult R I)
  processing_item index category code item = record {
    index = index;
    outcome = LeafOutcome.failed;
    value = some item;
    error = some (plain_error category code);
    warnings = code ∷ [];
    hints = [];
  }
