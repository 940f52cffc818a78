-- ===== src/Retrieval/Fetcher/Bounds.antt =====
-- infrastructure/retrieval/fetcher.py: the end of the redirect loop.
use web_access_mcp_server.Base.{
  ℕ, zero, suc, ◌+◌, ◌<◌, ◌≡◌, refl, String, Option, some, List, [], length, arith,
}
use web_access_mcp_server.Base.Effects.{Result}
use web_access_mcp_server.Retrieval.Transport.{Failure, RedirectHop, Response}
use web_access_mcp_server.Retrieval.Fetcher.{
  Settings, Network, Trace, no_trace, Round, done, again, round, fetch_loop, fetch,
}
use web_access_mcp_server.Retrieval.Fetcher.Rounds.{IsEnded, IsGoing, Good, round-Good}

module _ (net : Network) (settings : Settings) (requested : String) where
  abbrev Ends : Option (Result Failure Response × Trace) → Type 0
  Ends o =
      (r : Result Failure Response) × (t : Trace) × (o ≡ some (r, t))
      × IsEnded net settings requested r t

  loop-Ends :
      (fuel n : ℕ) (current : String) (hops : List RedirectHop) (t : Trace)
      → IsGoing net settings requested current hops t
      → settings.max_redirects < fuel + length hops
      → Ends (fetch_loop fuel net settings requested n current hops t)
  unfolding fetch_loop
  loop-Ends zero n current hops t g enough = absurd (omega (arith, g.bounded))
  loop-Ends (suc fuel) n current hops t g enough =
      go (round net settings requested n current hops t) (round-Good net settings requested n g)
        (loop-Ends fuel (suc n))
    where
      go :
          (ρ : Round)
          → Good net settings requested hops ρ
          → ((url : String) (hops' : List RedirectHop) (t' : Trace)
              → IsGoing net settings requested url hops' t'
              → settings.max_redirects < fuel + length hops'
              → Ends (fetch_loop fuel net settings requested (suc n) url hops' t'))
          → Ends (elim ρ [
            | done r t' ↦ some (r, t')
            | again url hops' t' ↦ fetch_loop fuel net settings requested (suc n) url hops' t'
          ])
      go (done r t') good rest = (r, t', refl, good)
      go (again url hops' t') (going, longer) rest =
          rest url hops' t' going (omega (arith, longer, enough))

-- Every fetch ends, within `max_redirects` + 1 requests. It asks the client only for URLs that the
-- policy accepted. It closes every response that it received but the one that it returns, unless
-- an unexpected exception ends it. A response that it returns carries at most `max_redirects`
-- hops, which lead from the requested URL, through normalized forms of accepted URLs, to an
-- accepted URL.
pub fetch-IsEnded :
    (net : Network) (settings : Settings) (url : String)
    → (r : Result Failure Response) × (t : Trace) × (fetch net settings url ≡ some (r, t))
      × IsEnded net settings url r t
unfolding fetch
fetch-IsEnded net settings url =
    loop-Ends net settings url (suc settings.max_redirects) 0 url [] no_trace
      (record { linked = refl; bounded = omega arith; asked = refl; accepted = tt; closed = refl })
      (omega arith)
