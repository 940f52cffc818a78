-- ===== src/Search/Attempts/Monitor.antt =====
-- A monitor of the actions of `_execute_attempts` in application/search/service.py.
use web_access_mcp_server.Base.{
  ℕ, suc, ◌≡◌, ◌⊎◌, refl, Bool, true, false, ◌&&◌, ◌||◌, not, [], ◌∷◌, ◌==◌, ==_iff, if◌then◌else◌,
}
use web_access_mcp_server.Base.Effects.{Result, raised}
use web_access_mcp_server.Common.Results.{is_before_dispatch}
use web_access_mcp_server.Search.Attempts.{
  Interrupt, attempt_error, Fault, interrupt, AttemptStage, dispatch_possible, Action, acquired,
  released, started, marked, searched, slept, Trace,
}

-- Where the attempts stand: before attempt `n`, within it with a lease, or past the last one. An
-- answered attempt may be repeated or not.
pub data Standing : Type 0 where
  idle holding begun ready closed : ℕ → Standing
  answered : ℕ → Bool → Standing
  broken : Standing

-- An answer allows for another attempt if it is a retryable error, and, from a billable provider,
-- one from before the dispatch.
abbrev pub may_repeat : {R : Type 0} → Bool → Result Interrupt R → Bool
may_repeat billable (raised (attempt_error e)) =
    e.error.retryable && (not billable || is_before_dispatch e.stage)
may_repeat billable _ = false

abbrev pub is_possible : AttemptStage → Bool
is_possible dispatch_possible = true
is_possible _ = false

abbrev pub same : ℕ → ℕ → Standing → Standing
same m n p = if m == n then p else broken

-- The order that is allowed: a lease comes first. The request of a billable provider needs its
-- start and then its possible dispatch on record. Only an answer that may be repeated leads to the
-- next attempt, once the lease was released.
abbrev pub move : {R : Type 0} → Bool → Standing → Action R → Standing
move billable p (acquired m) = elim p [ idle n ↦ same m n (holding n) | _ ↦ broken ]
move billable p (started m) = elim p [ holding n ↦ same m n (begun n) | _ ↦ broken ]
move billable p (marked m stage code reason) = elim p [
  | begun n ↦ same m n (if is_possible stage then ready n else broken)
  | answered n r ↦ same m n (answered n r)
  | _ ↦ broken
]
move billable p (searched m answer) = elim p [
  | ready n ↦ same m n (answered n (may_repeat billable answer))
  | holding n ↦ if billable then broken else same m n (answered n (may_repeat billable answer))
  | _ ↦ broken
]
move billable p (slept m) = elim p [
  | answered n r ↦ same m n (if r then answered n r else broken)
  | _ ↦ broken
]
move billable p (released m) = elim p [
  | holding n ↦ same m n (closed n)
  | begun n ↦ same m n (closed n)
  | ready n ↦ same m n (closed n)
  | answered n r ↦ same m n (if r then idle (suc n) else closed n)
  | _ ↦ broken
]

unfoldable pub watch : {R : Type 0} → Bool → Trace R → Standing
watch billable [] = idle 1
watch billable (a ∷ t) = move billable (watch billable t) a

-- No attempt is under way, and none was out of order.
abbrev pub Ended : Standing → Type 0
Ended p = ((n : ℕ) × (p ≡ idle n)) ⊎ ((n : ℕ) × (p ≡ closed n))

-- what is raised is not the unreachable end of the loop
abbrev pub Known : Fault → Type 0
Known e = (i : Interrupt) × (e ≡ interrupt i)

pub same_refl : (n : ℕ) (p : Standing) → same n n p ≡ p
same_refl n p = rw ((==_iff n n).1 refl) refl
