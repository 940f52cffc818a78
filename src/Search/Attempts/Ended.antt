-- ===== src/Search/Attempts/Ended.antt =====
-- The loop of `_execute_attempts` in application/search/service.py, attempt by attempt.
use web_access_mcp_server.Base.{
  ℕ, zero, suc, ◌+◌, ◌≤◌, ◌<◌, ◌≡◌, inl, refl, Bool, true, false, Option, none, some, [], ◌∷◌,
  arith,
}
use web_access_mcp_server.Base.Effects.{Result, ok, raised, Block, pure, Ensures, bind-Ensures}
use web_access_mcp_server.Search.Attempts.{
  Interrupt, Fault, RateAdmission, allowed, rate_limited, unavailable, AttemptPorts, AttemptPolicy,
  acquired, released, Trace, bounded, check_admission, dispatch, with_lease, attempt, attempts_from,
  execute_attempts,
}
use web_access_mcp_server.Search.Attempts.Monitor.{
  watch, idle, holding, closed, answered, Ended, Known, same_refl,
}
use web_access_mcp_server.Search.Attempts.Dispatch.{At, then_, Raises, Answered, dispatch-Ensures}

module _ {R : Type 0} (ports : AttemptPorts R) (policy : AttemptPolicy) where
  -- What an attempt leaves when it ends, with the lease released.
  abbrev Left : ℕ → Option R → Trace R → Type 0
  Left n (some r) t = At ports policy (closed n) t
  Left n none t = At ports policy (idle (suc n)) t × (n < policy.max_attempts)

  abbrev pub EndsKnown : Fault → Trace R → Type 0
  EndsKnown e t = Known e × Ended (watch policy.billable t)

  release-Ensures :
      (n : ℕ) (p : Result Fault (Option R) × Trace R)
      → Ensures (Answered ports policy n) (Raises ports policy n) p
      → Ensures (Left n) EndsKnown (p.0, released n ∷ p.1)
  release-Ensures n (ok (some r), t) h =
      then_ ports policy (answered n false) _ (released n) t h (same_refl n (closed n))
  release-Ensures n (ok none, t) h =
      (then_ ports policy (answered n true) _ (released n) t h.0 (same_refl n (idle (suc n))), h.1)
  release-Ensures n (raised e, t) h = h

  with_lease-Ensures :
      (n : ℕ) (b : Bool) (t : Trace R)
      → At ports policy (idle n) t
      → Ensures (Left n) EndsKnown (with_lease ports policy n b t)
  unfolding with_lease
  with_lease-Ensures n false t h = ((_, refl), inl (n, h))
  with_lease-Ensures n true t h = release-Ensures n (dispatch ports policy n (acquired n ∷ t)) (
      dispatch-Ensures ports policy n (acquired n ∷ t)
        (then_ ports policy (idle n) _ (acquired n) t h (same_refl n (holding n))))

  -- what a call that changes nothing leaves
  idle-Ensures :
      {A : Type 0} (n : ℕ) (r : Result Interrupt A) (t : Trace R)
      → At ports policy (idle n) t
      → Ensures (λ _. At ports policy (idle n)) EndsKnown (bounded r t)
  idle-Ensures n (ok a) t h = h
  idle-Ensures n (raised i) t h = ((i, refl), inl (n, h))

  check-Ensures :
      (n : ℕ) (admission : RateAdmission) (t : Trace R)
      → At ports policy (idle n) t
      → Ensures (λ _. At ports policy (idle n)) EndsKnown (check_admission ports policy admission t)
  unfolding check_admission
  check-Ensures n allowed t h = h
  check-Ensures n (rate_limited after) t h = ((_, refl), inl (n, h))
  check-Ensures n unavailable t h = ((_, refl), inl (n, h))

  attempt-Ensures :
      (n : ℕ) (t : Trace R)
      → At ports policy (idle n) t
      → Ensures (Left n) EndsKnown (attempt ports policy n t)
  unfolding attempt
  attempt-Ensures n t h =
      bind-Ensures (λ _. At ports policy (idle n)) (Left n) EndsKnown (bounded (ports.admit n)) _ t
        (idle-Ensures n (ports.admit n) t h)
        (λ admission t1 h1.
          bind-Ensures (λ _. At ports policy (idle n)) (Left n) EndsKnown
            (check_admission ports policy admission) _ t1 (check-Ensures n admission t1 h1)
            (λ _ t2 h2.
              bind-Ensures (λ _. At ports policy (idle n)) (Left n) EndsKnown
                (bounded (ports.acquire n)) _ t2 (idle-Ensures n (ports.acquire n) t2 h2)
                (λ b t3 h3. with_lease-Ensures n b t3 h3)))

  -- the result, with the number of the last attempt
  abbrev pub Returned : (R × ℕ) → Trace R → Type 0
  Returned p t = At ports policy (closed p.1) t × (p.1 ≤ policy.max_attempts)

  attempts-Ensures :
      (left n : ℕ) (t : Trace R)
      → left + n ≡ policy.max_attempts + 1
      → n ≤ policy.max_attempts
      → At ports policy (idle n) t
      → Ensures Returned EndsKnown (attempts_from ports policy left n t)
  unfolding attempts_from
  attempts-Ensures zero n t e le h = absurd (omega (arith, e, le))
  attempts-Ensures (suc left) n t e le h =
      bind-Ensures (Left n) Returned EndsKnown (attempt ports policy n) _ t (attempt-Ensures n t h)
        (next (attempts-Ensures left (suc n)))
    where
      next :
          ((t' : Trace R)
            → left + suc n ≡ policy.max_attempts + 1
            → suc n ≤ policy.max_attempts
            → At ports policy (idle (suc n)) t'
            → Ensures Returned EndsKnown (attempts_from ports policy left (suc n) t'))
          → (answer : Option R) (t' : Trace R) → Left n answer t'
          → Ensures Returned EndsKnown (
              (elim answer as (λ _. Block Fault (Trace R) (R × ℕ)) [
                | some result ↦ pure (result, n)
                | none ↦ attempts_from ports policy left (suc n)
              ])
                t')
      next rest (some r) t' h' = (h', le)
      next rest none t' h' = rest t' (omega (arith, e)) (omega (arith, h'.1)) h'.0

-- With at least one attempt allowed, and for all answers of the services, the monitor never objects
-- to the attempts, and each lease is given back: at the end no attempt is under way. A result comes
-- with the number of the attempt that gave it, at most `max_attempts`, the last one that was made.
-- The unreachable end of the loop is not reached.
pub execute_attempts-Ended :
    {R : Type 0} (ports : AttemptPorts R) (policy : AttemptPolicy)
    → 1 ≤ policy.max_attempts
    → Ensures (Returned ports policy) (EndsKnown ports policy) (execute_attempts ports policy [])
unfolding execute_attempts watch
execute_attempts-Ended ports policy h =
    attempts-Ensures ports policy policy.max_attempts 1 [] refl h refl
