-- ===== src/Search/Flight/Exclusive.antt =====
-- infrastructure/search/cache.py: one client at a time leads the flight of an identity.
use web_access_mcp_server.Base.{
  ◌≡◌, refl, sym, ap, ◌∙◌, ℕ, ◌+◌, ◌≤◌, arith, String, true, false, not, Option, none, some, List,
  [], ◌∷◌, length, select-true, select-false, ltb, lt→ltb, str_eq, Bool-cases, inl, inr,
}
use web_access_mcp_server.Search.Leases.{Lease, prune, remove}
use web_access_mcp_server.Search.Flight.{
  live, set_at, set_if_missing, release_at, release_if_owner, Flight, FlightEvent, passed, tried,
  returned, after_set, step, run, no_flight,
}

abbrev pub one_or_none : Option Lease → List Lease
one_or_none none = []
one_or_none (some l) = l ∷ []

-- a later pruning sees nothing of an earlier one
prune-prune : (now d : ℕ) (ls : List Lease) → prune (now + d) (prune now ls) ≡ prune (now + d) ls
prune-prune now d [] = refl
prune-prune now d (l ∷ ls) = elim (Bool-cases (ltb now l.expires)) [
  | inl e ↦ elim (Bool-cases (ltb (now + d) l.expires)) [
    | inl e' ↦
        rw
          (
            select-true (λ x. ltb now x.expires) l ls e,
            select-true (λ x. ltb (now + d) x.expires) l (prune now ls) e',
            select-true (λ x. ltb (now + d) x.expires) l ls e',
          )
          (ap (λ x. l ∷ x) (prune-prune now d ls))
    | inr e' ↦
        rw
          (
            select-true (λ x. ltb now x.expires) l ls e,
            select-false (λ x. ltb (now + d) x.expires) l (prune now ls) e',
            select-false (λ x. ltb (now + d) x.expires) l ls e',
          )
          (prune-prune now d ls)
  ]
  | inr e ↦
      rw
        (
          select-false (λ x. ltb now x.expires) l ls e,
          select-false (λ x. ltb (now + d) x.expires) l ls (over l e),
        )
        (prune-prune now d ls)
]
  where
    over : (x : Lease) → ltb now x.expires ≡ false → ltb (now + d) x.expires ≡ false
    over x e = ground arith

-- the order of pruning and removing does not matter
prune-remove :
    (now : ℕ) (token : String) (ls : List Lease)
    → prune now (remove token ls) ≡ remove token (prune now ls)
prune-remove now token [] = refl
prune-remove now token (l ∷ ls) = elim (Bool-cases (not (str_eq l.token token))) [
  | inl e ↦ elim (Bool-cases (ltb now l.expires)) [
    | inl e' ↦
        rw
          (
            select-true (λ x. not (str_eq x.token token)) l ls e,
            select-true (λ x. ltb now x.expires) l (remove token ls) e',
            select-true (λ x. ltb now x.expires) l ls e',
            select-true (λ x. not (str_eq x.token token)) l (prune now ls) e,
          )
          (ap (λ x. l ∷ x) (prune-remove now token ls))
    | inr e' ↦
        rw
          (
            select-true (λ x. not (str_eq x.token token)) l ls e,
            select-false (λ x. ltb now x.expires) l (remove token ls) e',
            select-false (λ x. ltb now x.expires) l ls e',
          )
          (prune-remove now token ls)
  ]
  | inr e ↦ elim (Bool-cases (ltb now l.expires)) [
    | inl e' ↦
        rw
          (
            select-false (λ x. not (str_eq x.token token)) l ls e,
            select-true (λ x. ltb now x.expires) l ls e',
            select-false (λ x. not (str_eq x.token token)) l (prune now ls) e,
          )
          (prune-remove now token ls)
    | inr e' ↦
        rw
          (
            select-false (λ x. not (str_eq x.token token)) l ls e,
            select-false (λ x. ltb now x.expires) l ls e',
          )
          (prune-remove now token ls)
  ]
]

-- what is live is what the pruning of a list of one leaves
live-prune :
    (now : ℕ) (stored : Option Lease)
    → one_or_none (live now stored) ≡ prune now (one_or_none stored)
live-prune now none = refl
live-prune now (some l) = elim (Bool-cases (ltb now l.expires)) [
  | inl e ↦ rw (e, select-true (λ x. ltb now x.expires) l [] e) refl
  | inr e ↦ rw (e, select-false (λ x. ltb now x.expires) l [] e) refl
]

-- Of the leases that were granted, those that run are what stands under the key.
abbrev Holds : Flight → Type 0
Holds f = prune f.now f.granted ≡ one_or_none (live f.now f.stored)

module _ (lease_ms : ℕ) (positive : 1 ≤ lease_ms) where
  passed-Holds : (f : Flight) (d : ℕ) → Holds f → Holds (step lease_ms f (passed d))
  unfolding step
  passed-Holds f d h =
      sym (prune-prune f.now d f.granted)
      ∙ ap (prune (f.now + d)) (h ∙ live-prune f.now f.stored)
      ∙ prune-prune f.now d (one_or_none f.stored)
      ∙ sym (live-prune (f.now + d) f.stored)

  tried-Holds : (f : Flight) (token : String) → Holds f → Holds (step lease_ms f (tried token))
  unfolding step set_if_missing
  tried-Holds f token h = go (live f.now f.stored) h
    where
      fresh : Lease
      fresh = record { token = token; expires = f.now + lease_ms }

      go :
          (l : Option Lease)
          → prune f.now f.granted ≡ one_or_none l
          → Holds (after_set lease_ms token f (set_at lease_ms f.now token f.stored l))
      go none e =
          select-true (λ x. ltb f.now x.expires) fresh f.granted runs
          ∙ ap (λ x. fresh ∷ x) e
          ∙ sym live_fresh
        where
          runs : ltb f.now (f.now + lease_ms) ≡ true
          runs = lt→ltb f.now (f.now + lease_ms) (omega (arith, positive))

          live_fresh : one_or_none (live f.now (some fresh)) ≡ fresh ∷ []
          live_fresh = rw runs refl
      go (some l) e = h

  removed : (token : String) (l : Lease) → str_eq l.token token ≡ true → remove token (l ∷ []) ≡ []
  removed token l q = select-false (λ x. not (str_eq x.token token)) l [] (rw q refl)

  kept :
      (token : String) (l : Lease) → str_eq l.token token ≡ false → remove token (l ∷ []) ≡ l ∷ []
  kept token l q = select-true (λ x. not (str_eq x.token token)) l [] (rw q refl)

  returned-Holds :
      (f : Flight) (token : String) → Holds f → Holds (step lease_ms f (returned token))
  unfolding step release_if_owner
  returned-Holds f token h =
      prune-remove f.now token f.granted ∙ ap (remove token) h ∙ go (live f.now f.stored) refl
    where
      go :
          (l : Option Lease)
          → live f.now f.stored ≡ l
          → remove token (one_or_none (live f.now f.stored))
            ≡ one_or_none (live f.now (release_at token f.stored l))
      go none e = rw e refl
      go (some l) e = elim (Bool-cases (str_eq l.token token)) [
        | inl q ↦ rw (e, q) (removed token l q)
        | inr q ↦ rw (q, e) (kept token l q)
      ]

  step-Holds : (f : Flight) (e : FlightEvent) → Holds f → Holds (step lease_ms f e)
  step-Holds f (passed d) h = passed-Holds f d h
  step-Holds f (tried token) h = tried-Holds f token h
  step-Holds f (returned token) h = returned-Holds f token h

  run-Holds : (es : List FlightEvent) (f : Flight) → Holds f → Holds (run lease_ms f es)
  unfolding run
  run-Holds [] f h = h
  run-Holds (e ∷ es) f h = run-Holds es (step lease_ms f e) (step-Holds f e h)

  length-one_or_none : (o : Option Lease) → length (one_or_none o) ≤ 1
  length-one_or_none none = omega arith
  length-one_or_none (some l) = omega arith

  -- If a lease runs for at least a millisecond, then in every history of the clients of an identity,
  -- while Redis keeps its data, the leases with a token that were granted, not given back and not
  -- expired are exactly what stands under the key, and so at most one.
  pub run-Exclusive :
      (es : List FlightEvent)
      → (prune (run lease_ms no_flight es).now (run lease_ms no_flight es).granted
          ≡ one_or_none (live (run lease_ms no_flight es).now (run lease_ms no_flight es).stored))
        × (length (prune (run lease_ms no_flight es).now (run lease_ms no_flight es).granted) ≤ 1)
  run-Exclusive es =
      let holds = run-Holds es no_flight refl in
      (
        holds,
        rw holds (
            length-one_or_none
              (live (run lease_ms no_flight es).now (run lease_ms no_flight es).stored)),
      )
