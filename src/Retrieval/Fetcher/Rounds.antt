-- ===== src/Retrieval/Fetcher/Rounds.antt =====
-- infrastructure/retrieval/fetcher.py: the invariant of the redirect loop, round by round.
use web_access_mcp_server.Base.{
  ℕ, suc, ◌+◌, ◌≤◌, ◌<◌, ◌≡◌, inl, inr, refl, sym, ap, ◌∙◌, ◌&&◌, leb, ltb, String, some, List, [],
  ◌∷◌, ◌++◌, length, All, Bool-cases, Option-cases, All-append, length-append, arith,
}
use web_access_mcp_server.Base.Effects.{Result, ok, raised}
use web_access_mcp_server.Retrieval.Transport.{Failure, RedirectHop, Response}
use web_access_mcp_server.Retrieval.Fetcher.{
  Verdict, valid, Raw, Answer, responded, refused, timed_out, client_error, other_error, Settings,
  Network, Trace, content_encoding, make_hop, make_response, Round, done, again, follow, redirect,
  close, finish, too_long, is_redirect, text_length, location_of, answered, remaining_timeout,
  round,
}

-- the URLs that the policy accepts
abbrev pub IsAccepted : Network → String → Type 0
IsAccepted net url = (normalized : String) × (net.validate_url url ≡ valid normalized)

-- The hops lead from one URL to another, and each goes to the normalized form of an accepted one.
abbrev pub Leads : Network → String → List RedirectHop → String → Type 0
Leads net from [] to = from ≡ to
Leads net from (hop ∷ hops) to =
    (hop.from_url ≡ from)
    × ((target : String) × (net.validate_url target ≡ valid hop.to_url))
    × Leads net hop.to_url hops to

Leads-snoc :
    (net : Network) (from to : String) (hops : List RedirectHop) (hop : RedirectHop)
    → Leads net from hops to
    → hop.from_url ≡ to
    → (target : String) × (net.validate_url target ≡ valid hop.to_url)
    → Leads net from (hops ++ (hop ∷ [])) hop.to_url
Leads-snoc net from to [] hop l e v = (e ∙ sym l, v, refl)
Leads-snoc net from to (h ∷ hops) hop (e', v', l) e v =
    (e', v', Leads-snoc net h.to_url to hops hop l e v)

-- Every response that was received is closed, but for the one that is returned. An unexpected
-- exception may leave its response open.
abbrev pub Closed : Result Failure Response → Trace → Type 0
Closed (ok response) t = t.received ≡ t.closed + 1
Closed (raised Failure.other) t = t.closed ≤ t.received
Closed (raised e) t = t.received ≡ t.closed

make_hop_lem :
    (status : ℕ) (from to : String) (hop : RedirectHop)
    → make_hop status from to ≡ some hop
    → (hop.from_url ≡ from) × (hop.to_url ≡ to)
unfolding make_hop
make_hop_lem status from to hop h = ground arith

module _ (net : Network) (settings : Settings) (requested : String) where
  -- a returned response comes with the hops that lead to an accepted URL
  abbrev pub Delivers : Result Failure Response → Type 0
  Delivers (raised e) = Unit
  Delivers (ok response) =
      (length response.redirect_chain ≤ settings.max_redirects)
      × ((last : String) × IsAccepted net last × Leads net requested response.redirect_chain last)

  -- what holds at the end
  pub record IsEnded (r : Result Failure Response) (t : Trace) : Type 0 where
    pub asked : length t.requested ≤ suc settings.max_redirects
    pub accepted : All (IsAccepted net) t.requested
    pub closed : Closed r t
    pub delivers : Delivers r

  -- what holds before a round
  pub record IsGoing (current : String) (hops : List RedirectHop) (t : Trace) : Type 0 where
    pub linked : Leads net requested hops current
    pub bounded : length hops ≤ settings.max_redirects
    pub asked : length t.requested ≡ length hops
    pub accepted : All (IsAccepted net) t.requested
    pub closed : t.received ≡ t.closed

  -- a round ends well, or goes on with one more hop
  abbrev pub Good : List RedirectHop → Round → Type 0
  Good hops (done r t) = IsEnded r t
  Good hops (again url hops' t) = IsGoing url hops' t × (length hops' ≡ suc (length hops))

  -- what holds once the client was asked: `open` responses are neither closed nor returned
  record IsAsked (current : String) (hops : List RedirectHop) (t : Trace) (pending : ℕ)
      : Type 0 where
    linked : Leads net requested hops current
    bounded : length hops ≤ settings.max_redirects
    asked : length t.requested ≡ suc (length hops)
    accepted : All (IsAccepted net) t.requested
    current_accepted : IsAccepted net current
    closed : t.received ≡ t.closed + pending

  module _ {current : String} {hops : List RedirectHop} {t : Trace} where
    not_asked : (e : Failure) → IsGoing current hops t → IsEnded (raised e) t
    not_asked Failure.other g = record {
      asked = omega (arith, g.bounded, g.asked);
      accepted = g.accepted;
      closed = omega (arith, g.closed);
      delivers = tt;
    }
    not_asked _ g = record {
      asked = omega (arith, g.bounded, g.asked);
      accepted = g.accepted;
      closed = g.closed;
      delivers = tt;
    }

    stop : (e : Failure) → IsAsked current hops t 0 → IsEnded (raised e) t
    stop Failure.other g = record {
      asked = omega (arith, g.bounded, g.asked);
      accepted = g.accepted;
      closed = omega (arith, g.closed);
      delivers = tt;
    }
    stop _ g = record {
      asked = omega (arith, g.bounded, g.asked);
      accepted = g.accepted;
      closed = omega (arith, g.closed);
      delivers = tt;
    }

    leak : IsAsked current hops t 1 → IsEnded (raised Failure.other) t
    leak g = record {
      asked = omega (arith, g.bounded, g.asked);
      accepted = g.accepted;
      closed = omega (arith, g.closed);
      delivers = tt;
    }

    close-IsAsked : IsAsked current hops t 1 → IsAsked current hops (close t) 0
    close-IsAsked g = record {
      linked = g.linked;
      bounded = g.bounded;
      asked = g.asked;
      accepted = g.accepted;
      current_accepted = g.current_accepted;
      closed = omega (arith, g.closed);
    }

  module _ {current : String} {hops : List RedirectHop} {t : Trace} where
    respond :
        (raw : Raw)
        → IsAsked current hops t 1
        → Good hops (finish (make_response net settings requested current hops raw t))
    unfolding make_response
    respond raw g = elim (Bool-cases (too_long settings raw.content_length)) [
      | inl long ↦ rw long (stop Failure.response_too_large (close-IsAsked g))
      | inr fits ↦ elim (Option-cases (content_encoding net raw.content_encoding)) [
        | inl n ↦ rw fits (rw n (stop Failure.unsupported_encoding (close-IsAsked g)))
        | inr (encoding, e) ↦ rw fits (
            rw e (record {
              asked = omega (arith, g.bounded, g.asked);
              accepted = g.accepted;
              closed = g.closed;
              delivers = (g.bounded, (current, g.current_accepted, g.linked));
            }))
      ]
    ]

    follow-Good :
        (status : ℕ) (target : String)
        → IsAsked current hops t 1
        → length hops < settings.max_redirects
        → (v : Verdict) → net.validate_url target ≡ v
        → Good hops (follow current hops status t v)
    unfolding follow
    follow-Good status target g room (valid normalized) h =
        elim (Option-cases (make_hop status current normalized)) [
          | inl n ↦ rw (n, Good) (leak g)
          | inr (hop, e) ↦
              let (from, to) = make_hop_lem status current normalized hop e in
              rw (e, Good)
                (
                  record {
                    linked = rw (← to) (
                        Leads-snoc net requested current hops hop g.linked from
                          (target, h ∙ ap valid (sym to)));
                    bounded = omega (arith, length-append hops (hop ∷ []));
                    asked = omega (arith, g.asked, length-append hops (hop ∷ []));
                    accepted = g.accepted;
                    closed = omega (arith, g.closed);
                  },
                  omega (arith, length-append hops (hop ∷ [])),
                )
        ]
    follow-Good status target g room _ h =
        stop (Failure.policy "redirect_blocked") (close-IsAsked g)

    redirect-Good :
        (status : ℕ) (location : String)
        → IsAsked current hops t 1
        → Good hops (redirect net settings current hops status t location)
    unfolding redirect
    redirect-Good status location g = elim (Bool-cases (leb settings.max_redirects (length hops))) [
      | inl full ↦ rw full (stop Failure.too_many_redirects (close-IsAsked g))
      | inr room ↦ rw room (elim (Bool-cases (ltb 8192 (text_length location))) [
        | inl long ↦ rw long (stop (Failure.policy "redirect_blocked") (close-IsAsked g))
        | inr fits ↦ rw fits (elim (Option-cases (net.urljoin current location)) [
          | inl n ↦ rw n (leak g)
          | inr (target, e) ↦
              rw e (follow-Good status target g (ground arith) (net.validate_url target) refl)
        ])
      ])
    ]

  module _ {current : String} {hops : List RedirectHop} {t : Trace} where
    responded-Good :
        (raw : Raw)
        → IsAsked current hops t 0
        → Good hops (answered net settings requested current hops t (responded raw))
    unfolding answered
    responded-Good raw g =
        let g' : IsAsked current hops (record t { received = t.received + 1 }) 1 = record {
          linked = g.linked;
          bounded = g.bounded;
          asked = g.asked;
          accepted = g.accepted;
          current_accepted = g.current_accepted;
          closed = omega (arith, g.closed);
        } in
        elim (Bool-cases (is_redirect raw.status)) [
          | inr plain ↦ rw plain (respond raw g')
          | inl moved ↦ rw moved (elim (Option-cases (location_of raw)) [
            | inl n ↦ rw n (respond raw g')
            | inr (location, e) ↦ rw e (redirect-Good raw.status location g')
          ])
        ]

    answered-Good :
        (a : Answer)
        → IsAsked current hops t 0
        → Good hops (answered net settings requested current hops t a)
    unfolding answered
    answered-Good (responded raw) g = responded-Good raw g
    answered-Good refused g = stop (Failure.policy "retrieval_url_blocked") g
    answered-Good timed_out g = stop Failure.timed_out g
    answered-Good (client_error b) g = elim (Bool-cases (ltb 0 (length hops) && b)) [
      | inl c ↦ rw c (stop (Failure.policy "redirect_blocked") g)
      | inr c ↦ rw c (stop Failure.connection g)
    ]
    answered-Good other_error g = stop Failure.other g

  module _ {current : String} {hops : List RedirectHop} {t : Trace} where
    pub round-Good :
        (n : ℕ) → IsGoing current hops t → Good hops (round net settings requested n current hops t)
    unfolding round
    round-Good n g = go (net.validate_url current) refl
      where
        go :
            (v : Verdict)
            → net.validate_url current ≡ v
            → Good hops (round net settings requested n current hops t)
        go (valid normalized) e =
            rw (e, Good)
              (elim (Option-cases (remaining_timeout settings (net.remaining n))) [
                | inl late ↦ rw (late, Good) (not_asked Failure.timed_out g)
                | inr (timeout, p) ↦
                    rw (p, Good)
                      (answered-Good (net.get n current timeout) (record {
                        linked = g.linked;
                        bounded = g.bounded;
                        asked = omega (arith, g.asked, length-append t.requested (current ∷ []));
                        accepted =
                            All-append (IsAccepted net) t.requested (current ∷ []) g.accepted
                              ((normalized, e), tt);
                        current_accepted = (normalized, e);
                        closed = omega (arith, g.closed);
                      }))
              ])
        go _ e = rw (e, Good) (not_asked (Failure.policy "retrieval_url_blocked") g)
