-- ===== src/Search/Attempts.antt =====
-- application/search/service.py: `_execute_attempts` with the recording of billable attempts and
-- the wait between two attempts. Messages, telemetry and the provider request id are left out.
pub mod Monitor
pub mod Dispatch
pub mod Ended
use web_access_mcp_server.Base.{
  ℕ, zero, suc, ◌+◌, ◌-◌, ◌*◌, ◌^◌, max, String, Bool, true, false, not, ◌&&◌, ◌||◌, Option, none,
  some, List, [], ◌∷◌, ltb, leb, ◌==◌, if◌then◌else◌,
}
use web_access_mcp_server.Base.Effects.{Result, ok, raised, Block, pure, raise, modify, ◌>>=◌, ◌>>◌}
use web_access_mcp_server.Common.Results.{
  OperationError, ErrorCategory, ExecutionStage, plain_error, is_before_dispatch, is_terminal_known,
}

-- `ProviderAttemptError`
pub record AttemptError : Type 0 where
  pub error : OperationError
  pub stage : ExecutionStage

-- What `_bounded_await` raises: the error of the awaited call, `_CooperativeCancellation`,
-- `_DeadlineExceeded`, or another exception.
pub data Interrupt : Type 0 where
  attempt_error : AttemptError → Interrupt
  cancelled deadline other : Interrupt

-- what leaves the loop: an interrupt, or the error of its unreachable end
pub data Fault : Type 0 where
  interrupt : Interrupt → Fault
  unreachable : Fault

-- a write of the usage store fails with `SearchUsageUnavailable`, or is interrupted
pub data UsageFault : Type 0 where
  usage_unavailable : UsageFault
  usage_interrupted : Interrupt → UsageFault

pub data AttemptStage : Type 0 where
  pre_dispatch dispatch_possible response_received completed : AttemptStage

-- `RateAdmission`, with the seconds as `max(0, round(...))` gives them
pub data RateAdmission : Type 0 where
  allowed : RateAdmission
  rate_limited : Option ℕ → RateAdmission
  unavailable : RateAdmission

-- The services that an attempt calls, by the number of the attempt: `true` from `acquire` is a
-- lease. `remaining` is in milliseconds, and `random` in parts of `random_den`.
pub record AttemptPorts (R : Type 0) : Type 0 where
  pub admit : ℕ → Result Interrupt RateAdmission
  pub acquire : ℕ → Result Interrupt Bool
  pub start : ℕ → Result UsageFault (Unit {0})
  pub mark : ℕ → AttemptStage → Result UsageFault (Unit {0})
  pub search : ℕ → Result Interrupt R
  pub remaining : ℕ → Option ℕ
  pub random : ℕ → ℕ
  pub sleep : ℕ → ℕ → Result Interrupt (Unit {0})

pub record AttemptPolicy : Type 0 where
  pub max_attempts : ℕ
  pub billable : Bool
  pub has_usage : Bool
  pub backoff_ms : ℕ
  pub jitter_num : ℕ
  pub jitter_den : ℕ
  pub random_den : ℕ

-- What an attempt has done; a search carries its answer, and a mark its outcome code and its
-- retry reason.
pub data Action (R : Type 0) : Type 0 where
  acquired released started : ℕ → Action R
  marked : ℕ → AttemptStage → String → Option String → Action R
  searched : ℕ → Result Interrupt R → Action R
  slept : ℕ → Action R

-- `_retry_allowed`
unfoldable pub retry_allowed : Bool → AttemptError → Bool
retry_allowed billable e =
    if not e.error.retryable then false else if billable then is_before_dispatch e.stage else true

abbrev pub retryable_error : ErrorCategory → String → Option ℕ → OperationError
retryable_error category code after = record (plain_error category code) {
  retryable = true;
  retry_after_seconds = after;
}

abbrev pub failure : OperationError → ExecutionStage → Fault
failure e stage = interrupt (attempt_error (record { error = e; stage = stage }))

-- `_usage_error`
abbrev pub usage_error : ExecutionStage → Fault
usage_error stage =
    failure (plain_error ErrorCategory.infrastructure "usage_accounting_unavailable") stage

-- newest first
abbrev pub Trace : Type 0 → Type 0
Trace R = List (Action R)

module _ {R : Type 0} where
  abbrev pub note : Action R → Block Fault (Trace R) (Unit {0})
  note a = modify (λ t. a ∷ t)

  abbrev pub bounded : {A : Type 0} → Result Interrupt A → Block Fault (Trace R) A
  bounded (ok a) t = (ok a, t)
  bounded (raised i) t = (raised (interrupt i), t)

  abbrev pub recorded :
      Result UsageFault (Unit {0}) → Action R → ExecutionStage → Block Fault (Trace R) (Unit {0})
  recorded (ok u) a stage t = (ok tt, a ∷ t)
  recorded (raised usage_unavailable) a stage t = (raised (usage_error stage), t)
  recorded (raised (usage_interrupted i)) a stage t = (raised (interrupt i), t)

  -- `try: m finally: release`
  abbrev pub and_release : {A : Type 0} → ℕ → Block Fault (Trace R) A → Block Fault (Trace R) A
  and_release n m t = let (r, t') = m t in (r, released n ∷ t')

module _ {R : Type 0} (ports : AttemptPorts R) (policy : AttemptPolicy) where
  unfoldable pub check_admission : RateAdmission → Block Fault (Trace R) (Unit {0})
  check_admission allowed = pure tt
  check_admission (rate_limited after) = raise (
      failure (retryable_error ErrorCategory.rate_limited "provider_rate_limited" after)
        ExecutionStage.before_dispatch)
  check_admission unavailable = raise (
      failure (retryable_error ErrorCategory.infrastructure "search_admission_unavailable" none)
        ExecutionStage.before_dispatch)

  -- `_record_attempt_start`
  unfoldable pub record_start : ℕ → Block Fault (Trace R) (Unit {0})
  record_start n = recorded (ports.start n) (started n) ExecutionStage.before_dispatch

  -- `_record_attempt_stage`
  unfoldable pub record_stage :
      ℕ → AttemptStage → String → Option String → ExecutionStage → Block Fault (Trace R) (Unit {0})
  record_stage n stage code reason failure_stage =
      recorded (ports.mark n stage) (marked n stage code reason) failure_stage

  -- what comes before the request of a billable provider
  unfoldable pub prepare : ℕ → Bool → Bool → Block Fault (Trace R) (Unit {0})
  unfolding record_start record_stage
  prepare n false has_usage = pure tt
  prepare n true false = raise (usage_error ExecutionStage.before_dispatch)
  prepare n true true = do
    record_start n
    record_stage n dispatch_possible "unknown" none ExecutionStage.before_dispatch

  -- The delay in parts of a millisecond, `jitter_den * random_den` of them: the configured backoff,
  -- and a jitter of up to its ratio in both directions.
  unfoldable pub delay : ℕ → Option ℕ → ℕ
  delay n after =
      let configured = policy.backoff_ms * 2 ^ (n - 1) in
      let jittered =
        configured * policy.jitter_den * policy.random_den
        + configured * policy.jitter_num * (2 * ports.random n)
        - configured * policy.jitter_num * policy.random_den in
      elim after [
        | none ↦ jittered
        | some s ↦ max jittered (s * 1000 * policy.jitter_den * policy.random_den)
      ]

  -- whether the wait would outlast the deadline
  abbrev pub outlasts : Option ℕ → ℕ → Bool
  outlasts none d = false
  outlasts (some left) d = leb left 0 || leb (left * policy.jitter_den * policy.random_den) d

  -- `_wait_before_retry`
  unfoldable pub wait_before_retry : ℕ → AttemptError → Block Fault (Trace R) (Unit {0})
  unfolding delay
  wait_before_retry n e t =
      let d = delay n e.error.retry_after_seconds in
      if outlasts (ports.remaining n) d
      then (raised (interrupt deadline), t)
      else if d == 0
      then (ok tt, t)
      else bounded (ports.sleep n d) (slept n ∷ t)

  abbrev pub unknown_outcome : String → Fault
  unknown_outcome code =
      failure (plain_error ErrorCategory.unknown_outcome code) ExecutionStage.side_effect_possible

  -- the stage that a failed attempt is marked with
  abbrev pub stage_of : AttemptError → AttemptStage
  stage_of e = if is_terminal_known e.stage then response_received else dispatch_possible

  unfoldable pub mark_failed : ℕ → AttemptError → Bool → Bool → Block Fault (Trace R) (Unit {0})
  unfolding record_stage
  mark_failed n e will_retry true =
      record_stage n (stage_of e) e.error.code (if will_retry then some e.error.code else none)
        ExecutionStage.response_lost
  mark_failed n e will_retry false = pure tt

  -- after a failed attempt: `none` is `continue`
  unfoldable pub retry_or_raise : ℕ → AttemptError → Bool → Block Fault (Trace R) (Option R)
  unfolding wait_before_retry
  retry_or_raise n e true = do wait_before_retry n e; pure none
  retry_or_raise n e false = raise (interrupt (attempt_error e))

  unfoldable pub complete : ℕ → Bool → Block Fault (Trace R) (Unit {0})
  unfolding record_stage
  complete n true = record_stage n completed "succeeded" none ExecutionStage.response_lost
  complete n false = pure tt

  unfoldable pub will_retry : ℕ → AttemptError → Bool
  unfolding retry_allowed
  will_retry n e = ltb n policy.max_attempts && retry_allowed policy.billable e

  -- what the provider answered: `some` is the result to return
  unfoldable pub on_answer : ℕ → Result Interrupt R → Block Fault (Trace R) (Option R)
  unfolding mark_failed retry_or_raise complete
  on_answer n (ok result) = do complete n (policy.billable && policy.has_usage); pure (some result)
  on_answer n (raised cancelled) = raise (
      if policy.billable
      then unknown_outcome "search_cancelled_after_dispatch"
      else interrupt cancelled)
  on_answer n (raised deadline) = raise (
      if policy.billable
      then unknown_outcome "search_deadline_after_dispatch"
      else interrupt deadline)
  on_answer n (raised (attempt_error e)) = do
    mark_failed n e (will_retry n e) (policy.billable && policy.has_usage)
    retry_or_raise n e (will_retry n e)
  on_answer n (raised other) = raise (interrupt other)

  -- the block under `try` and `finally`, with a lease at hand
  unfoldable pub dispatch : ℕ → Block Fault (Trace R) (Option R)
  unfolding prepare on_answer
  dispatch n = do
    prepare n policy.billable policy.has_usage
    note (searched n (ports.search n))
    on_answer n (ports.search n)

  unfoldable pub with_lease : ℕ → Bool → Block Fault (Trace R) (Option R)
  unfolding dispatch
  with_lease n false = raise (
      failure (retryable_error ErrorCategory.capacity "provider_capacity_unavailable" none)
        ExecutionStage.before_dispatch)
  with_lease n true = do note (acquired n); and_release n (dispatch n)

  -- one turn of the loop
  unfoldable pub attempt : ℕ → Block Fault (Trace R) (Option R)
  unfolding check_admission with_lease
  attempt n = do
    admission ← bounded (ports.admit n)
    check_admission admission
    concurrency ← bounded (ports.acquire n)
    with_lease n concurrency

  -- the loop over the attempts that are left, from number `n`
  unfoldable pub attempts_from : ℕ → ℕ → Block Fault (Trace R) (R × ℕ)
  unfolding attempt
  attempts_from zero n = raise unreachable
  attempts_from (suc left) n = attempt n >>= λ answer. elim answer [
    | some result ↦ pure (result, n)
    | none ↦ attempts_from left (suc n)
  ]

  -- `_execute_attempts`
  unfoldable pub execute_attempts : Block Fault (Trace R) (R × ℕ)
  unfolding attempts_from
  execute_attempts = attempts_from policy.max_attempts 1
