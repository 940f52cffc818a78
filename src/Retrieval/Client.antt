-- ===== src/Retrieval/Client.antt =====
-- infrastructure/retrieval/client.py: `SafeAioHttpClient`, whose session is aiohttp's. A request is
-- sent by `session.get`, which is a parameter; the connector and its settings are left out.
pub mod Sessions
use web_access_mcp_server.Base.{
  ◌≡◌, refl, ℕ, ◌+◌, ◌-◌, ◌≤◌, arith, String, Bool, true, false, not, Option, none, some, List, [],
  ◌∷◌, ◌++◌, All, All-append,
}
use web_access_mcp_server.Base.Effects.{Result, ok, raised, Block}
use web_access_mcp_server.Retrieval.Security.{
  UrlError, UrlPolicy, Library, ValidatedUrl, validate_url,
}

-- The session, if any, and whether it is closed; the numbers of sessions that were made and closed;
-- and the URLs that were requested, each with whether its session was open.
pub record Client : Type 0 where
  pub session : Option Bool
  pub made : ℕ
  pub closed : ℕ
  pub requested : List (String × Bool)

abbrev pub no_client : Client
no_client = record { session = none; made = 0; closed = 0; requested = [] }

-- what `get` raises: an error of the policy, of a start that failed, or of the request
pub data GetError {ℓ} (E : Type ℓ) : Type ℓ where
  url_error : UrlError → GetError E
  not_started : GetError E
  request_error : E → GetError E

abbrev pub make_session : Client → Client
make_session c = record c { session = some false; made = c.made + 1 }

-- `start`, by the session at hand
abbrev pub start_at : Option Bool → Client → Client
start_at none c = make_session c
start_at (some true) c = make_session c
start_at (some false) c = c

unfoldable pub start : Client → Client
start c = start_at c.session c

-- closing a closed session does nothing
abbrev pub count_closed : Bool → ℕ
count_closed true = 0
count_closed false = 1

-- `close`, by the session at hand
abbrev pub close_at : Option Bool → Client → Client
close_at none c = c
close_at (some is_closed) c = record c {
  session = none;
  closed = c.closed + count_closed is_closed;
}

unfoldable pub close : Client → Client
close c = close_at c.session c

-- the session closes with its connector
abbrev pub lost_at : Option Bool → Client → Client
lost_at none c = c
lost_at (some is_closed) c = record c {
  session = some true;
  closed = c.closed + count_closed is_closed;
}

unfoldable pub lost : Client → Client
lost c = lost_at c.session c

module _ {Ip Network E R : Type 0} (lib : Library Ip Network) (policy : UrlPolicy Network)
    (ask : String → ℕ → Result E R) where
  abbrev answer : Result E R → Result (GetError E) R
  answer (ok r) = ok r
  answer (raised e) = raised (request_error e)

  -- `session.get` on the session at hand
  abbrev pub request : Option Bool → String → ℕ → Block (GetError E) Client R
  request none url timeout c = (raised not_started, c)
  request (some is_closed) url timeout c = (
    answer (ask url timeout),
    record c { requested = c.requested ++ ((url, not is_closed) ∷ []) },
  )

  abbrev pub get_validated : Result UrlError (ValidatedUrl Ip) → ℕ → Block (GetError E) Client R
  get_validated (raised e) timeout c = (raised (url_error e), c)
  get_validated (ok v) timeout c = request (start c).session v.normalized_url timeout (start c)

  -- `get`
  unfoldable pub get : String → ℕ → Block (GetError E) Client R
  unfolding validate_url start
  get url timeout = get_validated (validate_url lib policy url) timeout

-- what happens to a client
pub data Event : Type 0 where
  get_event : String → ℕ → Event
  start_event close_event lost_event : Event

module _ {Ip Network E R : Type 0} (lib : Library Ip Network) (policy : UrlPolicy Network)
    (ask : String → ℕ → Result E R) where
  unfoldable pub step : Event → Client → Client
  unfolding start close lost get
  step (get_event url timeout) c = (get lib policy ask url timeout c).1
  step start_event c = start c
  step close_event c = close c
  step lost_event c = lost c

  unfoldable pub run : List Event → Client → Client
  unfolding step
  run [] c = c
  run (e ∷ es) c = run es (step e c)
