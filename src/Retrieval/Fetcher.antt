-- ===== src/Retrieval/Fetcher.antt =====
-- infrastructure/retrieval/fetcher.py: `SafeHttpFetcher.fetch`, the loop over redirects, with
-- `_response`, `_content_encoding` and `_remaining_timeout`. A time is in milliseconds.
pub mod Rounds
pub mod Bounds
use web_access_mcp_server.Base.{
  ℕ, zero, suc, ◌+◌, String, Bool, true, false, not, ◌&&◌, ◌||◌, Option, none, some, List, [], ◌∷◌,
  ◌++◌, length, any, leb, ltb, ◌==◌, str_eq, if◌then◌else◌, is_none, text_length,
}
use web_access_mcp_server.Base.Effects.{Result, ok, raised}
use web_access_mcp_server.Retrieval.Transport.{Failure, RedirectHop, Response}

-- what `RetrievalUrlPolicy.validate_url` answers: the normalized URL, a `BlockedDestinationError`
-- or an `InvalidRetrievalUrl`
pub data Verdict : Type 0 where
  valid : String → Verdict
  blocked invalid : Verdict

-- the parts of aiohttp's `ClientResponse` that are read; the media type and the filename as
-- `_declared_media_type` and `_source_filename` give them, and the URL is "" if it is missing
pub record Raw : Type 0 where
  pub status : ℕ
  pub url : String
  pub location : Option String
  pub content_length : Option ℕ
  pub content_encoding : Option String
  pub media_type : Option String
  pub source_filename : Option String

-- What `SafeAioHttpClient.get` answers: a response, a `BlockedDestinationError`, a `TimeoutError`,
-- a `ClientError` or `OSError` (with a `BlockedDestinationError` among its causes or not), or
-- another exception, a cancellation among them: none of these is caught.
pub data Answer : Type 0 where
  responded : Raw → Answer
  refused timed_out : Answer
  client_error : Bool → Answer
  other_error : Answer

pub record Settings : Type 0 where
  pub max_redirects : ℕ
  pub max_wire_bytes : ℕ
  pub operation_timeout : ℕ

-- The surroundings of a fetch. `get` and `remaining` also take the number of the request, since
-- servers and clocks change; `urljoin` is `none` where it raises a ValueError, and `lower` is
-- `value.strip().lower()`.
pub record Network : Type 0 where
  pub validate_url : String → Verdict
  pub get : ℕ → String → ℕ → Answer
  pub remaining : ℕ → Option ℕ
  pub urljoin : String → String → Option String
  pub lower : String → String

-- The URLs that were requested, latest last, the responses received and those closed.
pub record Trace : Type 0 where
  pub requested : List String
  pub received : ℕ
  pub closed : ℕ

abbrev pub no_trace : Trace
no_trace = record { requested = []; received = 0; closed = 0 }

abbrev pub is_redirect : ℕ → Bool
is_redirect status = any (λ s. status == s) (301 ∷ 302 ∷ 303 ∷ 307 ∷ 308 ∷ [])

-- `none` is the TimeoutError; a deadline that has passed leaves `some 0`.
unfoldable pub remaining_timeout : Settings → Option ℕ → Option ℕ
remaining_timeout settings none = some settings.operation_timeout
remaining_timeout settings (some remaining) = if leb remaining 0 then none else some remaining

-- `none` is `UnsupportedContentEncoding`.
unfoldable pub content_encoding : Network → Option String → Option (Option String)
content_encoding net none = some none
content_encoding net (some value) =
    let normalized = net.lower value in
    if str_eq normalized "" || str_eq normalized "identity"
    then some none
    else if not
        (str_eq normalized "gzip" || str_eq normalized "x-gzip" || str_eq normalized "deflate")
    then none
    else if str_eq normalized "x-gzip"
    then some (some "gzip")
    else some (some normalized)

abbrev pub close : Trace → Trace
close t = record t { closed = t.closed + 1 }

-- the constructor of `RedirectHop`; `none` is its ValueError
unfoldable pub make_hop : ℕ → String → String → Option RedirectHop
make_hop status from_url to_url =
    if not (leb 300 status && leb status 399)
    then none
    else if ltb 8192 (text_length from_url) || ltb 8192 (text_length to_url)
    then none
    else some (record { status = status; from_url = from_url; to_url = to_url })

abbrev pub too_long : Settings → Option ℕ → Bool
too_long settings none = false
too_long settings (some n) = ltb settings.max_wire_bytes n

-- `_response`
unfoldable pub make_response :
    Network
    → Settings
    → String
    → String
    → List RedirectHop
    → Raw
    → Trace
    → Result Failure Response × Trace
unfolding content_encoding
make_response net settings requested current redirects raw t =
    if too_long settings raw.content_length
    then (raised Failure.response_too_large, close t)
    else elim (content_encoding net raw.content_encoding) [
      | none ↦ (raised Failure.unsupported_encoding, close t)
      | some encoding ↦ (
        ok (record {
          requested_url = requested;
          final_url = if str_eq raw.url "" then current else raw.url;
          http_status = raw.status;
          redirect_chain = redirects;
          content_encoding = encoding;
          declared_media_type = raw.media_type;
          source_filename = raw.source_filename;
        }),
        t,
      )
    ]

-- A round of the loop either ends the fetch, or goes on with a URL and the hops so far.
pub data Round : Type 0 where
  done : Result Failure Response → Trace → Round
  again : String → List RedirectHop → Trace → Round

abbrev pub finish : Result Failure Response × Trace → Round
finish (r, t) = done r t

-- what follows a redirect whose target was validated
unfoldable pub follow : String → List RedirectHop → ℕ → Trace → Verdict → Round
follow current redirects status t (valid normalized) = elim (make_hop status current normalized) [
  | none ↦ done (raised Failure.other) t
  | some hop ↦ again normalized (redirects ++ (hop ∷ [])) (close t)
]
follow current redirects status t _ = done (raised (Failure.policy "redirect_blocked")) (close t)

-- the redirect itself, with its Location
unfoldable pub redirect :
    Network → Settings → String → List RedirectHop → ℕ → Trace → String → Round
unfolding follow
redirect net settings current redirects status t location =
    if leb settings.max_redirects (length redirects)
    then done (raised Failure.too_many_redirects) (close t)
    else if ltb 8192 (text_length location)
    then done (raised (Failure.policy "redirect_blocked")) (close t)
    else elim (net.urljoin current location) [
      | none ↦ done (raised Failure.other) t
      | some target ↦ follow current redirects status t (net.validate_url target)
    ]

-- `response.headers.get("Location")`, where the empty text counts as missing
abbrev pub location_of : Raw → Option String
location_of raw = elim raw.location [ none ↦ none | some l ↦ if str_eq l "" then none else some l ]

-- what the client answered to the request
unfoldable pub answered :
    Network → Settings → String → String → List RedirectHop → Trace → Answer → Round
unfolding make_response redirect
answered net settings requested current redirects t (responded raw) =
    let t' = record t { received = t.received + 1 } in
    if not (is_redirect raw.status)
    then finish (make_response net settings requested current redirects raw t')
    else elim (location_of raw) [
      | none ↦ finish (make_response net settings requested current redirects raw t')
      | some location ↦ redirect net settings current redirects raw.status t' location
    ]
answered net settings requested current redirects t refused =
    done (raised (Failure.policy "retrieval_url_blocked")) t
answered net settings requested current redirects t timed_out = done (raised Failure.timed_out) t
answered net settings requested current redirects t (client_error cause_blocked) =
    if ltb 0 (length redirects) && cause_blocked
    then done (raised (Failure.policy "redirect_blocked")) t
    else done (raised Failure.connection) t
answered net settings requested current redirects t other_error = done (raised Failure.other) t

-- one round, with the number of the request
unfoldable pub round : Network → Settings → String → ℕ → String → List RedirectHop → Trace → Round
unfolding answered remaining_timeout
round net settings requested n current redirects t = elim (net.validate_url current) [
  | valid _ ↦ elim (remaining_timeout settings (net.remaining n)) [
    | none ↦ done (raised Failure.timed_out) t
    | some timeout ↦
        answered net settings requested current redirects
          (record t { requested = t.requested ++ (current ∷ []) }) (net.get n current timeout)
  ]
  | _ ↦ done (raised (Failure.policy "retrieval_url_blocked")) t
]

-- `while True`, on fuel; `none` means that the fuel ran out.
unfoldable pub fetch_loop :
    ℕ
    → Network
    → Settings
    → String
    → ℕ
    → String
    → List RedirectHop
    → Trace
    → Option (Result Failure Response × Trace)
unfolding round
fetch_loop zero net settings requested n current redirects t = none
fetch_loop (suc fuel) net settings requested n current redirects t =
    elim (round net settings requested n current redirects t) [
      | done r t' ↦ some (r, t')
      | again next hops t' ↦ fetch_loop fuel net settings requested (suc n) next hops t'
    ]

-- A redirect is followed at most `max_redirects` times.
unfoldable pub fetch : Network → Settings → String → Option (Result Failure Response × Trace)
unfolding fetch_loop
fetch net settings url = fetch_loop (suc settings.max_redirects) net settings url 0 url [] no_trace
