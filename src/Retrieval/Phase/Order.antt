-- ===== src/Retrieval/Phase/Order.antt =====
-- Which phases a tracker accepts, and what its evidence says of those it went through.
use web_access_mcp_server.Base.{
  ◌≤◌, ◌<◌, ◌≡◌, ◌≢◌, ◌↔◌, ◌⊎◌, inl, inr, refl, Bool, true, false, not, ◌&&◌, ◌||◌, Option, none,
  some, List, [], ◌∷◌, arith, is_some, any, leb, Option-cases,
}
use web_access_mcp_server.Retrieval.Phase.{
  Phase, order, Tracker, at_terminal, fresh, entered, advance, internal_fetch_retry_allowed,
}

-- `advance` once for each phase; `none` where one of the calls raises
unfoldable pub advance_all : List Phase → Tracker → Option Tracker
advance_all [] t = some t
advance_all (p ∷ ps) t = elim (advance p t) [ none ↦ none | some t' ↦ advance_all ps t' ]

-- Phases that follow `q` never move back, and none follows the terminal one.
abbrev pub Follows : Phase → List Phase → Type 0
Follows q [] = Unit
Follows q (p ∷ ps) = (q ≢ Phase.terminal) × (order q ≤ order p) × Follows p ps

abbrev pub IsOrdered : List Phase → Type 0
IsOrdered [] = Unit
IsOrdered (p ∷ ps) = Follows p ps

-- one step, from a phase that was entered before
advance_from :
    (p q : Phase) (t : Tracker)
    → t.phase ≡ some q
    → (advance p t ≡ none) × ((q ≡ Phase.terminal) ⊎ (order p < order q))
      ⊎ (advance p t ≡ some (entered p t)) × (q ≢ Phase.terminal) × (order q ≤ order p)
unfolding advance
advance_from p Phase.terminal t e = ground arith
advance_from p _ t e = ground arith

-- From a tracker that stands at `q`, exactly the sequences that follow `q` are accepted.
advance_all_from :
    (ps : List Phase) (t : Tracker) (q : Phase)
    → t.phase ≡ some q
    → (is_some (advance_all ps t) ≡ true) ↔ Follows q ps
unfolding advance_all
advance_all_from [] t q e = (λ _. tt, λ _. refl)
advance_all_from (p ∷ ps) t q e =
    let rest : (is_some (advance_all ps (entered p t)) ≡ true) ↔ Follows p ps =
      advance_all_from ps (entered p t) p (unfold entered in refl) in
    elim (advance_from p q t e) [
      | inl (stop, why) ↦ (λ h. ground arith, λ f. ground arith)
      | inr (go, live, le) ↦
          rw (go, advance_all, is_some) ((λ h. (live, le, rest.0 h)), (λ f. rest.1 f.2))
    ]

-- The phases that a fetch goes through are accepted exactly if they never move backwards and
-- nothing follows the terminal phase.
pub advance_all-iff-IsOrdered :
    (ps : List Phase) → (is_some (advance_all ps fresh) ≡ true) ↔ IsOrdered ps
unfolding advance_all advance
advance_all-iff-IsOrdered [] = (λ _. tt, λ _. refl)
advance_all-iff-IsOrdered (p ∷ ps) =
    advance_all_from ps (entered p fresh) p (unfold entered in refl)

-- Evidence that is set whenever something was dispatched.
record IsSound (t : Tracker) : Type 0 where
  created : (t.resource_creation_possible ≡ false) ⊎ (t.dispatch_possible ≡ true)
  ended : (at_terminal t.phase ≡ false) ⊎ (t.dispatch_possible ≡ true)

-- the request may have left
abbrev pub is_dispatched : Phase → Bool
is_dispatched p = leb (order Phase.dispatch_possible) (order p)

advance-IsSound :
    (p : Phase) (t t' : Tracker)
    → IsSound t
    → advance p t ≡ some t'
    → IsSound t' × (t'.dispatch_possible ≡ (t.dispatch_possible || is_dispatched p))
unfolding advance entered
advance-IsSound Phase.validated t t' s h = ground arith
advance-IsSound _ t t' s h = ground arith

advance_all-IsSound :
    (ps : List Phase) (t t' : Tracker)
    → IsSound t
    → advance_all ps t ≡ some t'
    → IsSound t' × (t'.dispatch_possible ≡ (t.dispatch_possible || any is_dispatched ps))
unfolding advance_all
advance_all-IsSound [] t t' s h = ground arith
advance_all-IsSound (p ∷ ps) t t' s h = elim (Option-cases (advance p t)) [
  | inl e ↦ ground arith
  | inr (u, e) ↦
      let (su, du) = advance-IsSound p t u s e in
      let (s', d') = advance_all-IsSound ps u t' su (ground arith) in (s', ground arith)
]

-- After any phases that the tracker accepted, `internal_fetch_retry_allowed` answers that a retry is
-- allowed exactly if the error is retryable and none of the phases is `dispatch_possible` or later.
pub retry-iff-undispatched :
    (ps : List Phase) (t : Tracker) (retryable : Bool)
    → advance_all ps fresh ≡ some t
    → internal_fetch_retry_allowed t retryable ≡ retryable && not (any is_dispatched ps)
unfolding internal_fetch_retry_allowed
retry-iff-undispatched ps t retryable h =
    let start : IsSound fresh = record { created = inl refl; ended = inl refl } in
    let (s, d) = advance_all-IsSound ps fresh t start h in ground arith
