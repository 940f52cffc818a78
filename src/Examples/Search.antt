-- ===== src/Examples/Search.antt =====
-- application/search/service.py and infrastructure/search/admission.py on concrete inputs.
use web_access_mcp_server.Base.{
  ℕ, ◌≡◌, ◌≤◌, ◌*◌, ◌+◌, inr, refl, true, false, none, some, List, [], ◌∷◌, arith, ◌==◌,
  if◌then◌else◌,
}
use web_access_mcp_server.Base.Effects.{ok, raised, Ensures}
use web_access_mcp_server.Common.Results.{ErrorCategory, ExecutionStage}
use web_access_mcp_server.Search.Leases
use web_access_mcp_server.Search.Leases.Limit.{run-held-le}
use web_access_mcp_server.Search.Rate
use web_access_mcp_server.Search.Rate.Bound.{rate_run, rate_run-spent-le}
use web_access_mcp_server.Search.Attempts
use web_access_mcp_server.Search.Attempts.Ended.{Returned, EndsKnown, execute_attempts-Ended}

abbrev one_lease : Leases.LeasePolicy
one_lease = record { global_limit = 1; lease_ms = 50; horizon_ms = 60 }

abbrev empty_world : Leases.World
empty_world = record {
  now = 0;
  run_id = "a";
  marker = none;
  set = record { members = []; key_expires = 0 };
  forgotten = [];
}

-- A lease is taken after the first quarantine, Redis forgets it, and the new quarantine lets no
-- other lease in as long as the first may be held.
abbrev outage : List Leases.Event
outage =
    Leases.try_acquire "s" "g1"
    ∷ Leases.tick 60
    ∷ Leases.try_acquire "s" "g2"
    ∷ Leases.restart "b" false
    ∷ Leases.try_acquire "t" "g3"
    ∷ []

lease_is_remembered : Leases.held (Leases.run one_lease empty_world outage) ≡ 1
unfolding Leases.run
lease_is_remembered = refl

run-held-le_example : Leases.held (Leases.run one_lease empty_world outage) ≤ 1
unfolding Leases.step
run-held-le_example =
    run-held-le one_lease (omega arith) outage empty_world (tt, (tt, (tt, (refl, (tt, tt)))))
      (record {
        counted = omega arith;
        keyed = tt;
        recent = tt;
        recent_forgotten = tt;
        quarantines = tt;
      })

abbrev bucket : Rate.BucketPolicy
bucket = record { capacity = 2; refill = 1; scale = 1 }

abbrev rate : Rate.RatePolicy
rate = record { principal = bucket; global = bucket; ttl_ms = 4000; horizon_ms = 2000 }

abbrev rate_world : Rate.RateWorld
rate_world = record { now = 0; run_id = "a"; marker = none; global = none; admitted = 0 }

abbrev requests : List Rate.RateEvent
requests =
    Rate.ask none "g1"
    ∷ Rate.tick 2000
    ∷ Rate.ask none "g2"
    ∷ Rate.ask none "g3"
    ∷ Rate.ask none "g4"
    ∷ []

two_are_admitted : (rate_run rate rate_world requests).admitted ≡ 2
unfolding rate_run
two_are_admitted = refl

rate_run-spent-le_example :
    (rate_run rate rate_world requests).admitted * 1000
    ≤ 2000 + (rate_run rate rate_world requests).now * 1
rate_run-spent-le_example =
    rate_run-spent-le rate (omega arith) (omega arith) (omega arith) requests rate_world
      (tt, (tt, (tt, (tt, (tt, tt))))) (record { keyed = tt; bound = omega arith; backed = inr tt })

abbrev policy : Attempts.AttemptPolicy
policy = record {
  max_attempts = 2;
  billable = true;
  has_usage = true;
  backoff_ms = 50;
  jitter_num = 1;
  jitter_den = 5;
  random_den = 2;
}

-- The first request fails before its dispatch, and the second has a result.
abbrev ports : Attempts.AttemptPorts ℕ
ports = record {
  admit = λ n. ok Attempts.allowed;
  acquire = λ n. ok true;
  start = λ n. ok tt;
  mark = λ n stage. ok tt;
  search = λ n.
      if n == 1
      then raised (
          Attempts.attempt_error (record {
            error = Attempts.retryable_error ErrorCategory.infrastructure "connect" none;
            stage = ExecutionStage.before_dispatch;
          }))
      else ok 42;
  remaining = λ n. some 1000;
  random = λ n. 1;
  sleep = λ n d. ok tt;
}

second_attempt_succeeds : (Attempts.execute_attempts ports policy []).0 ≡ ok (42, 2)
unfolding Attempts.execute_attempts Attempts.will_retry
second_attempt_succeeds = refl

execute_attempts-Ended_example :
    Ensures
      (Returned ports policy)
      (EndsKnown ports policy)
      (Attempts.execute_attempts ports policy [])
execute_attempts-Ended_example = execute_attempts-Ended ports policy (omega arith)
