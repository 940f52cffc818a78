-- ===== src/Retrieval/Transport.antt =====
-- application/retrieval/ports.py and domain/retrieval/models.py: what the transport hands to the
-- services, and the exceptions that cross the ports.
use web_access_mcp_server.Base.{ℕ, String, ◌&&◌, not, Option, List, leb, ltb, length, if◌then◌else◌}
use web_access_mcp_server.Base.Effects.{Result, ok, raised}

-- The exceptions of the Retrieval and Content ports, `TimeoutError`, `asyncio.CancelledError`
-- (which no `except Exception` catches) and any other exception. A code is the class's `code`.
pub data Failure : Type 0 where
  policy : String → Failure
  too_many_redirects response_too_large decompression_limit unsupported_encoding : Failure
  timed_out connection : Failure
  parser_timeout processing : String → Failure
  cancelled other : Failure

pub record RedirectHop : Type 0 where
  pub status : ℕ
  pub from_url : String
  pub to_url : String

pub record FetchCounters : Type 0 where
  pub wire_bytes : ℕ
  pub entity_bytes : ℕ

-- `SafeFetchResponse`, without its body and with its counters kept beside it
pub record Response : Type 0 where
  pub requested_url : String
  pub final_url : String
  pub http_status : ℕ
  pub redirect_chain : List RedirectHop
  pub content_encoding : Option String
  pub declared_media_type : Option String
  pub source_filename : Option String

pub record RetrievedResource : Type 0 where
  pub response : Response
  pub counters : FetchCounters

-- `SafeFetchResponse.metadata`, with the checks of `RetrievedResource`. A byte counter is a
-- natural number here, so its sign needs no check.
unfoldable pub metadata : Response → FetchCounters → Result Failure RetrievedResource
metadata response counters =
    if not (leb 100 response.http_status && leb response.http_status 599)
    then raised other
    else if ltb 10 (length response.redirect_chain)
    then raised other
    else ok (record { response = response; counters = counters })
