-- ===== src/Retrieval/Client/Sessions.antt =====
-- The sessions of the client and the requests that they send.
use web_access_mcp_server.Base.{
  ◌≡◌, refl, ℕ, ◌+◌, arith, String, Bool, true, false, Option, none, some, List, [], ◌∷◌, All,
  All-append,
}
use web_access_mcp_server.Base.Effects.{Result, ok, raised}
use web_access_mcp_server.Retrieval.Security.{
  UrlError, UrlPolicy, Library, ValidatedUrl, validate_url,
}
use web_access_mcp_server.Retrieval.Client.{
  Client, no_client, start, close, lost, start_at, close_at, lost_at, count_closed, count_closed,
  get_validated, get, Event, get_event, start_event, close_event, lost_event, step, run,
}

-- the open sessions that the client holds
abbrev pub held : Option Bool → ℕ
held none = 0
held (some is_closed) = count_closed is_closed

-- every session that is open is the one that is held
abbrev pub OneSession : Client → Type 0
OneSession c = c.made ≡ c.closed + held c.session

start-open : (c : Client) → (start c).session ≡ some false
unfolding start
start-open c = go c.session refl
  where
    go : (s : Option Bool) → c.session ≡ s → (start_at s c).session ≡ some false
    go none e = refl
    go (some true) e = refl
    go (some false) e = e

start-OneSession : (c : Client) → OneSession c → OneSession (start c)
unfolding start
start-OneSession c h = go c.session h
  where
    go : (s : Option Bool) → c.made ≡ c.closed + held s → OneSession (start_at s c)
    go none q = omega (arith, q)
    go (some true) q = omega (arith, q)
    go (some false) q = h

close-OneSession : (c : Client) → OneSession c → OneSession (close c)
unfolding close
close-OneSession c h = go c.session h
  where
    go : (s : Option Bool) → c.made ≡ c.closed + held s → OneSession (close_at s c)
    go none q = h
    go (some b) q = omega (arith, q)

lost-OneSession : (c : Client) → OneSession c → OneSession (lost c)
unfolding lost
lost-OneSession c h = go c.session h
  where
    go : (s : Option Bool) → c.made ≡ c.closed + held s → OneSession (lost_at s c)
    go none q = h
    go (some b) q = omega (arith, q)

start-requested : (c : Client) → (start c).requested ≡ c.requested
unfolding start
start-requested c = go c.session
  where
    go : (s : Option Bool) → (start_at s c).requested ≡ c.requested
    go none = refl
    go (some true) = refl
    go (some false) = refl

close-requested : (c : Client) → (close c).requested ≡ c.requested
unfolding close
close-requested c = go c.session
  where
    go : (s : Option Bool) → (close_at s c).requested ≡ c.requested
    go none = refl
    go (some b) = refl

lost-requested : (c : Client) → (lost c).requested ≡ c.requested
unfolding lost
lost-requested c = go c.session
  where
    go : (s : Option Bool) → (lost_at s c).requested ≡ c.requested
    go none = refl
    go (some b) = refl

module _ {Ip Network E R : Type 0} (lib : Library Ip Network) (policy : UrlPolicy Network)
    (ask : String → ℕ → Result E R) where
  -- a request on an open session, with the normalized URL of one that the policy accepted
  abbrev pub Sent : String × Bool → Type 0
  Sent r =
      (r.1 ≡ true)
      × ((url : String) × ((v : ValidatedUrl Ip) × ((validate_url lib policy url ≡ ok v)
              × (r.0 ≡ v.normalized_url))))

  abbrev Good : Client → Type 0
  Good c = OneSession c × All Sent c.requested

  get-Good :
      (url : String) (timeout : ℕ) (c : Client) → Good c → Good (get lib policy ask url timeout c).1
  unfolding get
  get-Good url timeout c h = go (validate_url lib policy url) refl
    where
      go :
          (verdict : Result UrlError (ValidatedUrl Ip))
          → validate_url lib policy url ≡ verdict
          → Good (get_validated lib policy ask verdict timeout c).1
      go (raised e) q = h
      go (ok v) q = rw (start-open c) (
        sent,
        All-append Sent (start c).requested ((v.normalized_url, true) ∷ [])
            (rw (start-requested c) h.1) ((refl, (url, (v, (q, refl)))), tt),
      )
        where
          sent : (start c).made ≡ (start c).closed + held (start c).session
          sent = start-OneSession c h.0

  step-Good : (e : Event) (c : Client) → Good c → Good (step lib policy ask e c)
  unfolding step
  step-Good (get_event url timeout) c h = get-Good url timeout c h
  step-Good start_event c h = (start-OneSession c h.0, rw (start-requested c) h.1)
  step-Good close_event c h = (close-OneSession c h.0, rw (close-requested c) h.1)
  step-Good lost_event c h = (lost-OneSession c h.0, rw (lost-requested c) h.1)

  run-Good : (es : List Event) (c : Client) → Good c → Good (run lib policy ask es c)
  unfolding run
  run-Good [] c h = h
  run-Good (e ∷ es) c h = run-Good es (step lib policy ask e c) (step-Good e c h)

  -- In every history of requests, starts, closes and losses of the session, at most one session of
  -- the client is open, the one that it holds, and every other is closed; and every request was sent
  -- on an open session, with the normalized URL of a URL that the policy accepts.
  pub run-Sent :
      (es : List Event)
      → OneSession (run lib policy ask es no_client)
        × All Sent (run lib policy ask es no_client).requested
  run-Sent es = run-Good es no_client (refl, tt)
